-- ===== src/Configs/Arduino/AnalogPins.antt =====
-- `OPDI_AnalogPortPin` of code/c/configs/ArduinoPDI/ArduinOPDI.cpp, and the functions of OPDI.cpp through
-- which the slave reaches it. What `analogRead` gives is an argument.
pub mod Range
use opdi_core.Base.{
  ℕ, ◌+◌, ◌-◌, ◌%◌, ◌^◌, Bool, true, false, ◌&&◌, ◌||◌, ◌==◌, leb, if◌then◌else◌, List, [], ◌∷◌,
  ◌++◌, Bytes, strcmp_eq, ℤ, to_unsigned,
}
use opdi_core.Constants.{status_ok, device_error, protocol_error}
use opdi_core.Configs.Arduino.Pins.{
  PinEffect, analog_write, analog_reference, first_char, portdircap_input, portdircap_bidi,
}

pub record AnalogPortPin : Type 0 where
  pub pin : ℕ
  pub mode : ℕ
  pub value : ℕ
  pub reference : ℕ
  pub resolution : ℕ
  pub effects : List PinEffect

unfoldable pub set_analog_mode : ℕ → ℕ → AnalogPortPin → ℕ × AnalogPortPin
set_analog_mode reading mode p =
    if mode == 0
    then (status_ok, record p { resolution = 10; value = reading; mode = mode })
    else if mode == 1
    then (status_ok, record p { resolution = 8; value = 0; mode = mode })
    else (device_error, p)

-- The resolution cannot be changed.
unfoldable pub set_resolution : ℕ → AnalogPortPin → ℕ × AnalogPortPin
set_resolution resolution p = (device_error, p)

unfoldable pub set_reference : ℕ → AnalogPortPin → ℕ × AnalogPortPin
set_reference reference p = (
  status_ok,
  record p { reference = reference; effects = p.effects ++ analog_reference (reference == 0) ∷ [] },
)

-- `value & ((1 << resolution) - 1)` of an int32_t.
unfoldable pub set_value : ℤ → AnalogPortPin → ℕ × AnalogPortPin
set_value value p =
    let masked = to_unsigned 32 value % 2 ^ p.resolution in
    if p.mode == 0 then (device_error, p) else (
      status_ok,
      record p { value = masked; effects = p.effects ++ analog_write p.pin masked ∷ [] },
    )

-- Mode, resolution, reference and value.
unfoldable pub get_analog_state : ℕ → AnalogPortPin → ℕ × ℕ × ℕ × ℕ
get_analog_state reading p =
    (p.mode, p.resolution, p.reference, (if p.mode == 1 then p.value else reading))

-- The constructor.
unfoldable pub analog_port_pin : ℕ → Bytes → ℕ → AnalogPortPin
unfolding set_analog_mode
analog_port_pin reading dircaps pin =
    let start : AnalogPortPin = record {
      pin = pin;
      mode = 0;
      value = 0;
      reference = 0;
      resolution = 0;
      effects = [];
    } in
    let mode =
      if strcmp_eq dircaps portdircap_input || strcmp_eq dircaps portdircap_bidi then 0 else 1 in
    (set_analog_mode reading mode start).1

unfoldable pub set_analog_port_value : ℤ → AnalogPortPin → ℕ × AnalogPortPin
unfolding set_value
set_analog_port_value value p = set_value value p

unfoldable pub set_analog_port_mode : ℕ → Bytes → AnalogPortPin → ℕ × AnalogPortPin
unfolding set_analog_mode
set_analog_port_mode reading mode p =
    if leb b'0' (first_char mode) && leb (first_char mode) b'1'
    then set_analog_mode reading (first_char mode - b'0') p
    else (protocol_error, p)

unfoldable pub set_analog_port_resolution : Bytes → AnalogPortPin → ℕ × AnalogPortPin
unfolding set_resolution
set_analog_port_resolution res p =
    if leb b'0' (first_char res) && leb (first_char res) b'4'
    then set_resolution (first_char res - b'0' + 8) p
    else (protocol_error, p)

unfoldable pub set_analog_port_reference : Bytes → AnalogPortPin → ℕ × AnalogPortPin
unfolding set_reference
set_analog_port_reference ref p =
    if leb b'0' (first_char ref) && leb (first_char ref) b'1'
    then set_reference (first_char ref - b'0') p
    else (protocol_error, p)

-- What the slave asks of an analog port; a change of the mode reads the pin.
pub data AnalogCommand : Type 0 where
  change_analog_mode : ℕ → Bytes → AnalogCommand
  change_resolution change_reference : Bytes → AnalogCommand
  change_value : ℤ → AnalogCommand

unfoldable pub analog_command : AnalogCommand → AnalogPortPin → AnalogPortPin
analog_command (change_analog_mode reading text) p = (set_analog_port_mode reading text p).1
analog_command (change_resolution text) p = (set_analog_port_resolution text p).1
analog_command (change_reference text) p = (set_analog_port_reference text p).1
analog_command (change_value value) p = (set_analog_port_value value p).1

unfoldable pub run_analog : List AnalogCommand → AnalogPortPin → AnalogPortPin
run_analog [] p = p
run_analog (c ∷ cs) p = run_analog cs (analog_command c p)
