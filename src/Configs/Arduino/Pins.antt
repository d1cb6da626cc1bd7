-- ===== src/Configs/Arduino/Pins.antt =====
-- `OPDI_DigitalPortPin` and `OPDI_AnalogPortPin` of code/c/configs/ArduinoPDI/ArduinOPDI.cpp, and the
-- functions of OPDI.cpp through which the slave reaches them. What the code does to the pins is a
-- list of effects; what `digitalRead` and `analogRead` give is an argument.
pub mod Agreement
use opdi_core.Base.{
  ℕ, ◌+◌, ◌-◌, ◌*◌, ◌/◌, ◌%◌, Bool, true, false, ◌&&◌, ◌||◌, ◌==◌, leb, if◌then◌else◌, List, [],
  ◌∷◌, ◌++◌, Bytes, codes, strcmp_eq, ℤ, pos, to_unsigned,
}
use opdi_core.Constants.{status_ok, device_error, protocol_error}

abbrev pub portdircap_input : Bytes
portdircap_input = codes "0"

abbrev pub portdircap_output : Bytes
portdircap_output = codes "1"

abbrev pub portdircap_bidi : Bytes
portdircap_bidi = codes "2"

abbrev pub low : ℕ
low = 0

abbrev pub high : ℕ
high = 1

abbrev pub input : ℕ
input = 0

abbrev pub output : ℕ
output = 1

-- The calls of the Arduino library; `analog_reference` with true is the one with DEFAULT, with false
-- the one with EXTERNAL.
pub data PinEffect : Type 0 where
  pin_mode digital_write analog_write : ℕ → ℕ → PinEffect
  analog_reference : Bool → PinEffect

-- A character of a text, or the NUL behind it.
abbrev pub first_char : Bytes → ℕ
first_char [] = 0
first_char (c ∷ text) = c

-- The flags are those of the port, and the effects are all that it has had so far.
pub record DigitalPortPin : Type 0 where
  pub pin : ℕ
  pub flags : ℕ
  pub mode : ℕ
  pub line : ℕ
  pub effects : List PinEffect

unfoldable pub set_mode : ℕ → DigitalPortPin → ℕ × DigitalPortPin
set_mode mode p =
    if mode == 0
    then (
      status_ok,
      record p {
        mode = mode;
        effects = p.effects ++ pin_mode p.pin input ∷ (digital_write p.pin low ∷ []);
      },
    )
    else if mode == 1
    then (
      status_ok,
      record p {
        mode = mode;
        effects = p.effects ++ pin_mode p.pin input ∷ (digital_write p.pin high ∷ []);
      },
    )
    else if mode == 3
    then (
      status_ok,
      record p {
        mode = mode;
        line = 0;
        effects = p.effects ++ pin_mode p.pin output ∷ (digital_write p.pin low ∷ []);
      },
    )
    else (device_error, p)

unfoldable pub set_line : ℕ → DigitalPortPin → ℕ × DigitalPortPin
set_line line p =
    if p.mode == 3
    then (
      status_ok,
      record p {
        line = line;
        effects = p.effects ++ digital_write p.pin (if line == 1 then high else low) ∷ [];
      },
    )
    else (device_error, p)

-- Mode and line; `level` is what `digitalRead` gives.
unfoldable pub get_state : ℕ → DigitalPortPin → ℕ × ℕ
get_state level p = (p.mode, (if p.mode == 3 then p.line else level))

-- The constructor. Of the flags, a uint8_t, those for pullups stay.
unfoldable pub digital_port_pin : Bytes → ℕ → ℕ → DigitalPortPin
unfolding set_mode
digital_port_pin dircaps flags pin =
    let start : DigitalPortPin = record {
      pin = pin;
      flags = flags % 2 + 4 * (flags / 4 % 2);
      mode = 0;
      line = 0;
      effects = [];
    } in
    let mode =
      if strcmp_eq dircaps portdircap_input || strcmp_eq dircaps portdircap_bidi
      then (if flags / 4 % 2 == 1 then 1 else 0)
      else 3 in
    (set_mode mode start).1

-- `opdi_get_digital_port_state`: the characters of mode and line.
unfoldable pub get_digital_port_state : ℕ → DigitalPortPin → Bytes × Bytes
unfolding get_state
get_digital_port_state level p =
    let (mode, line) = get_state level p in ((b'0' + mode) ∷ [], (b'0' + line) ∷ [])

unfoldable pub set_digital_port_line : Bytes → DigitalPortPin → ℕ × DigitalPortPin
unfolding set_line
set_digital_port_line line p = set_line (if first_char line == b'1' then 1 else 0) p

unfoldable pub set_digital_port_mode : Bytes → DigitalPortPin → ℕ × DigitalPortPin
unfolding set_mode
set_digital_port_mode mode p =
    if leb b'0' (first_char mode) && leb (first_char mode) b'3'
    then set_mode (first_char mode - b'0') p
    else (protocol_error, p)

-- What the slave asks of a digital port.
pub data Command : Type 0 where
  change_mode change_line : Bytes → Command

unfoldable pub command : Command → DigitalPortPin → DigitalPortPin
unfolding set_digital_port_mode set_digital_port_line
command (change_mode text) p = (set_digital_port_mode text p).1
command (change_line text) p = (set_digital_port_line text p).1

unfoldable pub run : List Command → DigitalPortPin → DigitalPortPin
run [] p = p
run (c ∷ cs) p = run cs (command c p)
