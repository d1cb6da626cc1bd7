-- ===== src/Constants.antt =====
-- The constants of code/c/common/opdi_constants.h, the port types of opdi_port.h, and the sizes of
-- code/c/configs/LinOPDI/opdi_configspecs.h.
pub mod Tags
use opdi_core.Base.{ℕ, Bytes, codes}
pub use opdi_core.Constants.Tags.{
  handshake, handshake_version, basic_protocol_magic, extended_protocol_magic, error_tag,
  disconnect_tag, refresh_tag, reconfigure_tag, debug_tag, agreement_tag, disagreement_tag,
  auth_tag, get_device_caps_tag, basic_device_caps_tag, get_port_info_tag, analog_port_tag,
  analog_port_state_tag, get_analog_port_state_tag, set_analog_port_value_tag,
  set_analog_port_mode_tag, set_analog_port_resolution_tag, set_analog_port_reference_tag,
  digital_port_tag, digital_port_state_tag, get_digital_port_state_tag, set_digital_port_line_tag,
  set_digital_port_mode_tag, select_port_tag, get_select_port_label_tag, select_port_label_tag,
  select_port_state_tag, get_select_port_state_tag, set_select_port_position_tag, dial_port_tag,
  dial_port_state_tag, get_dial_port_state_tag, set_dial_port_position_tag, custom_port_tag,
  custom_port_state_tag, get_custom_port_state_tag, set_custom_port_state_tag, streaming_port_tag,
  bind_streaming_port_tag, unbind_streaming_port_tag, get_all_port_infos_tag,
  get_extended_port_info_tag, extended_port_info_tag, get_extended_port_state_tag,
  extended_port_state_tag, get_all_port_states_tag, get_extended_device_info_tag,
  extended_device_info_tag, get_group_info_tag, group_info_tag, get_extended_group_info_tag,
  extended_group_info_tag, get_all_select_port_labels_tag,
}

-- status codes
abbrev pub status_ok : ℕ
status_ok = 0

abbrev pub disconnected : ℕ
disconnected = 1

abbrev pub timeout : ℕ
timeout = 2

abbrev pub cancelled : ℕ
cancelled = 3

abbrev pub error_malformed_message : ℕ
error_malformed_message = 4

abbrev pub error_conversion : ℕ
error_conversion = 5

abbrev pub error_msgbuf_overflow : ℕ
error_msgbuf_overflow = 6

abbrev pub error_dest_overflow : ℕ
error_dest_overflow = 7

abbrev pub error_strings_overflow : ℕ
error_strings_overflow = 8

abbrev pub error_parts_overflow : ℕ
error_parts_overflow = 9

abbrev pub protocol_error : ℕ
protocol_error = 10

abbrev pub protocol_not_supported : ℕ
protocol_not_supported = 11

abbrev pub encryption_not_supported : ℕ
encryption_not_supported = 12

abbrev pub encryption_required : ℕ
encryption_required = 13

abbrev pub encryption_error : ℕ
encryption_error = 14

abbrev pub auth_not_supported : ℕ
auth_not_supported = 15

abbrev pub authentication_expected : ℕ
authentication_expected = 16

abbrev pub authentication_failed : ℕ
authentication_failed = 17

abbrev pub device_error : ℕ
device_error = 18

abbrev pub too_many_ports : ℕ
too_many_ports = 19

abbrev pub porttype_unknown : ℕ
porttype_unknown = 20

abbrev pub port_unknown : ℕ
port_unknown = 21

abbrev pub wrong_port_type : ℕ
wrong_port_type = 22

abbrev pub too_many_bindings : ℕ
too_many_bindings = 23

abbrev pub no_binding : ℕ
no_binding = 24

abbrev pub channel_invalid : ℕ
channel_invalid = 25

abbrev pub position_invalid : ℕ
position_invalid = 26

abbrev pub network_error : ℕ
network_error = 27

abbrev pub terminator_in_payload : ℕ
terminator_in_payload = 28

abbrev pub port_access_denied : ℕ
port_access_denied = 29

abbrev pub port_error : ℕ
port_error = 30

abbrev pub shutdown : ℕ
shutdown = 31

abbrev pub group_unknown : ℕ
group_unknown = 32

abbrev pub message_unknown : ℕ
message_unknown = 33

abbrev pub function_unknown : ℕ
function_unknown = 34

abbrev pub dont_use_encryption : ℕ
dont_use_encryption = 0

abbrev pub use_encryption : ℕ
use_encryption = 1

abbrev pub default_message_timeout : ℕ
default_message_timeout = 10000

abbrev pub cannot_send : ℕ
cannot_send = 0

abbrev pub can_send : ℕ
can_send = 1

abbrev pub dir_incoming : ℕ
dir_incoming = 0

abbrev pub dir_incoming_encr : ℕ
dir_incoming_encr = 128

abbrev pub dir_outgoing : ℕ
dir_outgoing = 1

abbrev pub dir_outgoing_encr : ℕ
dir_outgoing_encr = 129

abbrev pub dir_debug : ℕ
dir_debug = 2

abbrev pub authentication_timeout : ℕ
authentication_timeout = 60000

abbrev pub protocol_start_handshake : ℕ
protocol_start_handshake = 0

abbrev pub protocol_connected : ℕ
protocol_connected = 1

abbrev pub protocol_disconnected : ℕ
protocol_disconnected = 2

abbrev pub flag_encryption_required : ℕ
flag_encryption_required = 1

abbrev pub flag_encryption_not_allowed : ℕ
flag_encryption_not_allowed = 2

abbrev pub flag_authentication_required : ℕ
flag_authentication_required = 4

-- message characters

abbrev pub message_terminator : ℕ
message_terminator = b'\n'

abbrev pub message_separator : ℕ
message_separator = b':'

abbrev pub parts_separator : ℕ
parts_separator = b':'

abbrev pub channel_maxbuf : ℕ
channel_maxbuf = 3

-- sizes

abbrev pub message_buffer_size : ℕ
message_buffer_size = 256

abbrev pub message_payload_length : ℕ
message_payload_length = 247

abbrev pub max_message_parts : ℕ
max_message_parts = 16

abbrev pub max_device_ports : ℕ
max_device_ports = 32

abbrev pub streaming_ports : ℕ
streaming_ports = 2

abbrev pub max_port_info_message : ℕ
max_port_info_message = 240

abbrev pub function_buffersize : ℕ
function_buffersize = 32

abbrev pub max_encryptions : ℕ
max_encryptions = 3

abbrev pub custom_port_value_maxlen : ℕ
custom_port_value_maxlen = 256

-- port types

abbrev pub porttype_digital : Bytes
porttype_digital = codes "0"

abbrev pub porttype_analog : Bytes
porttype_analog = codes "1"

abbrev pub porttype_select : Bytes
porttype_select = codes "2"

abbrev pub porttype_dial : Bytes
porttype_dial = codes "3"

abbrev pub porttype_streaming : Bytes
porttype_streaming = codes "4"

abbrev pub porttype_custom : Bytes
porttype_custom = codes "5"
