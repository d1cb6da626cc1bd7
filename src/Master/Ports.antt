-- ===== src/Master/Ports.antt =====
-- The ports as the master holds them: code/c/common/master/opdi_OPDIPort.cpp, opdi_DigitalPort.cpp and
-- opdi_SelectPort.cpp, as far as they do not talk to the slave. `own_protocol` tells whether a caller is the
-- protocol of the port.
pub mod Serial
mod Tests
use opdi_core.Base.{
  ℕ, suc, ◌+◌, ◌-◌, ◌/◌, ◌%◌, ◌^◌, Bool, true, false, not, ◌&&◌, ◌||◌, Bytes, List, [], ◌∷◌, ◌++◌,
  length, get_or, ltb, leb, ◌==◌, if◌then◌else◌, ℤ, pos, negsuc, ltb_ℤ, eq_ℤ, magnitude, strcmp_eq,
  wrap_signed, codes,
}
use opdi_core.Constants.{message_separator, digital_port_tag, select_port_tag}
use opdi_core.Platform.{print_int, print_nat}
use opdi_core.Master.{
  Outcome, returned, threw, ◌>>=◌, protocol_exception, invalid_argument, assertion_violation,
  Exception,
}
use opdi_core.Master.StringTools.{join}
use opdi_core.Master.Protocol.{parse_int}

-- `PortDirCaps`.
pub data PortDirCaps : Type 0 where
  unknown : PortDirCaps
  input : PortDirCaps
  output : PortDirCaps
  bidirectional : PortDirCaps

-- The cast of an `int` between 0 and 2.
unfoldable pub dir_caps_of : ℤ → PortDirCaps
dir_caps_of (pos n) = if n == 0 then input else (if n == 1 then output else bidirectional)
dir_caps_of (negsuc n) = unknown

unfoldable pub dir_caps_number : PortDirCaps → ℤ
dir_caps_number unknown = negsuc 0
dir_caps_number input = pos 0
dir_caps_number output = pos 1
dir_caps_number bidirectional = pos 2

abbrev pub mode_unknown : ℤ
mode_unknown = negsuc 0

abbrev pub mode_input_floating : ℤ
mode_input_floating = pos 0

abbrev pub mode_input_pullup : ℤ
mode_input_pullup = pos 1

abbrev pub mode_input_pulldown : ℤ
mode_input_pulldown = pos 2

abbrev pub mode_output : ℤ
mode_output = pos 3

abbrev pub line_unknown : ℤ
line_unknown = negsuc 0

abbrev pub int_max : ℤ
int_max = pos (2 ^ 31 - 1)

-- `DigitalPort`, with the members that it inherits.
pub record DigitalPort : Type 0 where
  pub id : Bytes
  pub name : Bytes
  pub dir_caps : PortDirCaps
  pub flags : ℕ
  pub mode : ℤ
  pub line : ℤ

-- `OPDIPort::checkSerialForm`.
unfoldable pub check_serial_form : List Bytes → ℕ → Bytes → Outcome (Unit {0})
unfolding strcmp_eq
check_serial_form parts count magic =
    if not (length parts == count)
    then threw protocol_exception
    else (if not (strcmp_eq (get_or parts 0 []) magic)
        then threw protocol_exception
        else returned tt)

-- The constructor of a digital port.
unfoldable pub digital_port : List Bytes → Outcome DigitalPort
unfolding check_serial_form parse_int dir_caps_of
digital_port parts = do
  checked ← check_serial_form parts 5 digital_port_tag
  dir ← parse_int (get_or parts 3 []) (pos 0) (pos 2)
  flags ← parse_int (get_or parts 4 []) (pos 0) int_max
  returned (record {
    id = get_or parts 1 [];
    name = get_or parts 2 [];
    dir_caps = dir_caps_of dir;
    flags = magnitude flags;
    mode = mode_unknown;
    line = line_unknown;
  })

unfoldable pub serialize : DigitalPort → Bytes
unfolding join dir_caps_number print_int print_nat
serialize port = join message_separator (
    digital_port_tag
    ∷ port.id
    ∷ port.name
    ∷ print_int (dir_caps_number port.dir_caps)
    ∷ print_nat port.flags
    ∷ [])

-- `(flags & 1) == 1` and `(flags & 2) == 2`.
unfoldable pub has_pullup : DigitalPort → Bool
has_pullup port = port.flags % 2 == 1

unfoldable pub has_pulldown : DigitalPort → Bool
has_pulldown port = port.flags / 2 % 2 == 1

abbrev pub is_input_mode : ℤ → Bool
is_input_mode mode =
    eq_ℤ mode mode_input_floating || (eq_ℤ mode mode_input_pullup || eq_ℤ mode mode_input_pulldown)

abbrev pub is_input : PortDirCaps → Bool
is_input input = true
is_input output = false
is_input bidirectional = false
is_input unknown = false

abbrev pub is_output : PortDirCaps → Bool
is_output output = true
is_output input = false
is_output bidirectional = false
is_output unknown = false

-- `if (test) throw InvalidArgumentException`.
abbrev pub forbid : Bool → Outcome (Unit {0})
forbid test = if test then threw invalid_argument else returned tt

unfoldable pub check_mode : DigitalPort → ℤ → Outcome (Unit {0})
unfolding has_pullup has_pulldown
check_mode port mode = do
  a ← forbid (eq_ℤ mode mode_output && is_input port.dir_caps)
  b ← forbid (is_input_mode mode && is_output port.dir_caps)
  c ← forbid (eq_ℤ mode mode_input_pullup && not (has_pullup port))
  forbid (eq_ℤ mode mode_input_pulldown && not (has_pulldown port))

-- `setPortState`, which turns the exception of `checkMode` into another one.
unfoldable pub set_port_state : Bool → ℤ → DigitalPort → Outcome DigitalPort
unfolding check_mode
set_port_state own_protocol mode port =
    if not own_protocol then threw assertion_violation else (elim (check_mode port mode) [
      | threw e ↦ threw protocol_exception
      | returned u ↦ returned (record port { mode = mode })
    ])

unfoldable pub set_port_line : Bool → ℤ → DigitalPort → Outcome DigitalPort
set_port_line own_protocol line port =
    if not own_protocol then threw assertion_violation else returned (record port { line = line })

-- The tests of `setLine`.
unfoldable pub check_line : DigitalPort → Outcome (Unit {0})
check_line port = do a ← forbid (is_input port.dir_caps); forbid (is_input_mode port.mode)

unfoldable pub refresh : DigitalPort → DigitalPort
refresh port = record port { mode = mode_unknown; line = line_unknown }

unfoldable pub mode_text : ℤ → Bytes
unfolding print_int
mode_text mode =
    if eq_ℤ mode mode_unknown
    then codes "Unknown"
    else (if eq_ℤ mode mode_input_floating
        then codes "Input, floating"
        else (if eq_ℤ mode mode_input_pullup
            then codes "Input, pullup on"
            else (if eq_ℤ mode mode_input_pulldown
                then codes "Input, pulldown on"
                else (if eq_ℤ mode mode_output
                    then codes "Output"
                    else codes "Invalid mode value: " ++ print_int mode))))

-- `SelectPort`.
pub record SelectPort : Type 0 where
  pub id : Bytes
  pub name : Bytes
  pub label_count : ℕ
  pub flags : ℕ
  pub position_labels : List Bytes
  pub position : ℤ

-- The constructor of a select port, up to the loop that asks the slave for the labels.
unfoldable pub select_port : List Bytes → Outcome SelectPort
unfolding check_serial_form parse_int
select_port parts = do
  checked ← check_serial_form parts 5 select_port_tag
  label_count ← parse_int (get_or parts 3 []) (pos 0) (pos 65535)
  flags ← parse_int (get_or parts 4 []) (pos 0) int_max
  returned (record {
    id = get_or parts 1 [];
    name = get_or parts 2 [];
    label_count = magnitude label_count;
    flags = magnitude flags;
    position_labels = [];
    position = negsuc 0;
  })

-- `(uint16_t)positionLabels.size() - 1` as a `uint16_t`.
unfoldable pub max_position : SelectPort → ℕ
max_position port = (length port.position_labels % 65536 + 65535) % 65536

-- `setPortPosition`; the position, a `uint16_t`, is kept in an `int16_t`, and `checkPosition` is empty.
unfoldable pub set_port_position : Bool → ℕ → SelectPort → Outcome SelectPort
unfolding wrap_signed
set_port_position own_protocol position port =
    if not own_protocol
    then threw assertion_violation
    else returned (record port { position = wrap_signed 16 (pos position) })

-- `getPositionText`; a position without a label is outside the vector, where the model has no text.
unfoldable pub position_text : SelectPort → Bytes
position_text port =
    if ltb_ℤ port.position (pos 0)
    then codes "Unknown"
    else get_or port.position_labels (magnitude port.position) []

unfoldable pub refresh_position : SelectPort → SelectPort
refresh_position port = record port { position = negsuc 0 }
