-- ===== src/Constants/Tags.antt =====
-- The tags of the messages, in code/c/common/opdi_protocol_constants.h.
use opdi_core.Base.{Bytes, codes}

abbrev pub handshake : Bytes
handshake = codes "OPDI"

abbrev pub handshake_version : Bytes
handshake_version = codes "0.1"

abbrev pub basic_protocol_magic : Bytes
basic_protocol_magic = codes "BP"

abbrev pub extended_protocol_magic : Bytes
extended_protocol_magic = codes "EP"

abbrev pub error_tag : Bytes
error_tag = codes "Err"

abbrev pub disconnect_tag : Bytes
disconnect_tag = codes "Dis"

abbrev pub refresh_tag : Bytes
refresh_tag = codes "Ref"

abbrev pub reconfigure_tag : Bytes
reconfigure_tag = codes "Reconf"

abbrev pub debug_tag : Bytes
debug_tag = codes "Debug"

abbrev pub agreement_tag : Bytes
agreement_tag = codes "OK"

abbrev pub disagreement_tag : Bytes
disagreement_tag = codes "NOK"

abbrev pub auth_tag : Bytes
auth_tag = codes "Auth"

abbrev pub get_device_caps_tag : Bytes
get_device_caps_tag = codes "gDC"

abbrev pub basic_device_caps_tag : Bytes
basic_device_caps_tag = codes "BDC"

abbrev pub get_port_info_tag : Bytes
get_port_info_tag = codes "gPI"

abbrev pub analog_port_tag : Bytes
analog_port_tag = codes "AP"

abbrev pub analog_port_state_tag : Bytes
analog_port_state_tag = codes "AS"

abbrev pub get_analog_port_state_tag : Bytes
get_analog_port_state_tag = codes "gAS"

abbrev pub set_analog_port_value_tag : Bytes
set_analog_port_value_tag = codes "sAV"

abbrev pub set_analog_port_mode_tag : Bytes
set_analog_port_mode_tag = codes "sAM"

abbrev pub set_analog_port_resolution_tag : Bytes
set_analog_port_resolution_tag = codes "sAR"

abbrev pub set_analog_port_reference_tag : Bytes
set_analog_port_reference_tag = codes "sARF"

abbrev pub digital_port_tag : Bytes
digital_port_tag = codes "DP"

abbrev pub digital_port_state_tag : Bytes
digital_port_state_tag = codes "DS"

abbrev pub get_digital_port_state_tag : Bytes
get_digital_port_state_tag = codes "gDS"

abbrev pub set_digital_port_line_tag : Bytes
set_digital_port_line_tag = codes "sDL"

abbrev pub set_digital_port_mode_tag : Bytes
set_digital_port_mode_tag = codes "sDM"

abbrev pub select_port_tag : Bytes
select_port_tag = codes "SLP"

abbrev pub get_select_port_label_tag : Bytes
get_select_port_label_tag = codes "gSL"

abbrev pub select_port_label_tag : Bytes
select_port_label_tag = codes "SL"

abbrev pub select_port_state_tag : Bytes
select_port_state_tag = codes "SS"

abbrev pub get_select_port_state_tag : Bytes
get_select_port_state_tag = codes "gSS"

abbrev pub set_select_port_position_tag : Bytes
set_select_port_position_tag = codes "sSP"

abbrev pub dial_port_tag : Bytes
dial_port_tag = codes "DL"

abbrev pub dial_port_state_tag : Bytes
dial_port_state_tag = codes "DLS"

abbrev pub get_dial_port_state_tag : Bytes
get_dial_port_state_tag = codes "gDLS"

abbrev pub set_dial_port_position_tag : Bytes
set_dial_port_position_tag = codes "sDLP"

abbrev pub custom_port_tag : Bytes
custom_port_tag = codes "CP"

abbrev pub custom_port_state_tag : Bytes
custom_port_state_tag = codes "CPS"

abbrev pub get_custom_port_state_tag : Bytes
get_custom_port_state_tag = codes "gCPS"

abbrev pub set_custom_port_state_tag : Bytes
set_custom_port_state_tag = codes "sCPS"

abbrev pub streaming_port_tag : Bytes
streaming_port_tag = codes "SP"

abbrev pub bind_streaming_port_tag : Bytes
bind_streaming_port_tag = codes "bSP"

abbrev pub unbind_streaming_port_tag : Bytes
unbind_streaming_port_tag = codes "uSP"

abbrev pub get_all_port_infos_tag : Bytes
get_all_port_infos_tag = codes "gAPI"

abbrev pub get_extended_port_info_tag : Bytes
get_extended_port_info_tag = codes "gEPI"

abbrev pub extended_port_info_tag : Bytes
extended_port_info_tag = codes "EPI"

abbrev pub get_extended_port_state_tag : Bytes
get_extended_port_state_tag = codes "gEPS"

abbrev pub extended_port_state_tag : Bytes
extended_port_state_tag = codes "EPS"

abbrev pub get_all_port_states_tag : Bytes
get_all_port_states_tag = codes "gAPS"

abbrev pub get_extended_device_info_tag : Bytes
get_extended_device_info_tag = codes "gEDI"

abbrev pub extended_device_info_tag : Bytes
extended_device_info_tag = codes "EDI"

abbrev pub get_group_info_tag : Bytes
get_group_info_tag = codes "gGI"

abbrev pub group_info_tag : Bytes
group_info_tag = codes "GI"

abbrev pub get_extended_group_info_tag : Bytes
get_extended_group_info_tag = codes "gEGI"

abbrev pub extended_group_info_tag : Bytes
extended_group_info_tag = codes "EGI"

abbrev pub get_all_select_port_labels_tag : Bytes
get_all_select_port_labels_tag = codes "gASL"
