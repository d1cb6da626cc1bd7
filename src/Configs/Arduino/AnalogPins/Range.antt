-- ===== src/Configs/Arduino/AnalogPins/Range.antt =====
-- The values of an analog port fit its resolution.
use opdi_core.Base.{
  ℕ, ◌-◌, ◌%◌, ◌^◌, ◌<◌, ◌≡◌, ◌⊎◌, inl, inr, refl, sym, subst, true, false, ◌&&◌, ◌||◌, ◌==◌, leb,
  if◌then◌else◌, List, [], ◌∷◌, Bytes, strcmp_eq, ℤ, to_unsigned, arith, Bool-cases,
}
use opdi_core.Configs.Arduino.Pins.{first_char, portdircap_input, portdircap_bidi}
use opdi_core.Configs.Arduino.AnalogPins.{
  AnalogPortPin, set_analog_mode, set_value, get_analog_state, analog_port_pin,
  set_analog_port_mode, set_analog_port_value, set_analog_port_resolution,
  set_analog_port_reference, AnalogCommand, change_analog_mode, change_resolution, change_reference,
  change_value, analog_command, run_analog,
}

-- An input of 10 bits, or an output of 8 bits.
abbrev pub IsReady : AnalogPortPin → Type 0
IsReady p =
    ((p.mode ≡ 0) × (p.resolution ≡ 10)) ⊎ ((p.mode ≡ 1) × (p.resolution ≡ 8) × (p.value < 256))

mode-IsReady :
    (reading mode : ℕ) (p : AnalogPortPin) → mode < 2 → IsReady (set_analog_mode reading mode p).1
unfolding set_analog_mode
mode-IsReady reading mode p h = elim (Bool-cases (mode == 0)) [
  | inl is_0 ↦ rw is_0 (inl (ground arith, refl))
  | inr not_0 ↦ elim (Bool-cases (mode == 1)) [
    | inl is_1 ↦ rw (not_0, is_1) (inr (ground arith, refl, omega arith))
    | inr not_1 ↦ absurd (ground arith)
  ]
]

set_value-IsReady : (value : ℤ) (p : AnalogPortPin) → IsReady p → IsReady (set_value value p).1
unfolding set_value
set_value-IsReady value p (inl (mode, resolution)) =
    let test : (p.mode == 0) ≡ true = ground arith in rw test (inl (mode, resolution))
set_value-IsReady value p (inr (mode, resolution, bound)) =
    let test : (p.mode == 0) ≡ false = ground arith in
    rw test (
      inr (
        mode,
        resolution,
        subst (λ (k : ℕ). to_unsigned 32 value % 2 ^ k < 256) (sym resolution) (omega arith),
      ))

mode_command-IsReady :
    (reading : ℕ) (text : Bytes) (p : AnalogPortPin)
    → IsReady p
    → IsReady (set_analog_port_mode reading text p).1
unfolding set_analog_port_mode
mode_command-IsReady reading text p h =
    elim (Bool-cases (leb b'0' (first_char text) && leb (first_char text) b'1')) [
      | inl digit ↦ rw digit (mode-IsReady reading (first_char text - b'0') p (ground arith))
      | inr other ↦ rw other h
    ]

resolution_command-IsReady :
    (text : Bytes) (p : AnalogPortPin) → IsReady p → IsReady (set_analog_port_resolution text p).1
unfolding set_analog_port_resolution
resolution_command-IsReady text p h =
    elim (Bool-cases (leb b'0' (first_char text) && leb (first_char text) b'4')) [
      | inl digit ↦ rw digit h
      | inr other ↦ rw other h
    ]

reference_command-IsReady :
    (text : Bytes) (p : AnalogPortPin) → IsReady p → IsReady (set_analog_port_reference text p).1
unfolding set_analog_port_reference
reference_command-IsReady text p h =
    elim (Bool-cases (leb b'0' (first_char text) && leb (first_char text) b'1')) [
      | inl digit ↦ rw digit h
      | inr other ↦ rw other h
    ]

value_command-IsReady :
    (value : ℤ) (p : AnalogPortPin) → IsReady p → IsReady (set_analog_port_value value p).1
unfolding set_analog_port_value
value_command-IsReady value p h = set_value-IsReady value p h

analog_command-IsReady :
    (c : AnalogCommand) (p : AnalogPortPin) → IsReady p → IsReady (analog_command c p)
unfolding analog_command
analog_command-IsReady (change_analog_mode reading text) p h = mode_command-IsReady reading text p h
analog_command-IsReady (change_resolution text) p h = resolution_command-IsReady text p h
analog_command-IsReady (change_reference text) p h = reference_command-IsReady text p h
analog_command-IsReady (change_value value) p h = value_command-IsReady value p h

run_analog-IsReady :
    (cs : List AnalogCommand) (p : AnalogPortPin) → IsReady p → IsReady (run_analog cs p)
unfolding run_analog
run_analog-IsReady [] p h = h
run_analog-IsReady (c ∷ cs) p h =
    run_analog-IsReady cs (analog_command c p) (analog_command-IsReady c p h)

constructor-IsReady :
    (reading : ℕ) (dircaps : Bytes) (pin : ℕ) → IsReady (analog_port_pin reading dircaps pin)
unfolding analog_port_pin
constructor-IsReady reading dircaps pin =
    mode-IsReady reading
      (if strcmp_eq dircaps portdircap_input || strcmp_eq dircaps portdircap_bidi then 0 else 1)
      (record { pin = pin; mode = 0; value = 0; reference = 0; resolution = 0; effects = [] })
      (ground arith)

state_fits :
    (reading : ℕ) (p : AnalogPortPin)
    → reading < 1024
    → IsReady p
    → (get_analog_state reading p).3 < 2 ^ (get_analog_state reading p).1
unfolding get_analog_state
state_fits reading p h (inl (mode, resolution)) =
    subst (λ (k : ℕ). (if p.mode == 1 then p.value else reading) < 2 ^ k) (sym resolution)
      (ground arith)
state_fits reading p h (inr (mode, resolution, value)) =
    subst (λ (k : ℕ). (if p.mode == 1 then p.value else reading) < 2 ^ k) (sym resolution)
      (ground arith)

-- The state that an analog port of the Arduino reports fits its resolution: after the constructor and
-- any sequence of commands from the slave, with any texts and values, it is an input of 10 bits or
-- an output of 8 bits, and the value is below 2 to the power of the resolution, if analogRead gives
-- less than 1024.
pub run_analog_bounds :
    (cs : List AnalogCommand) (first reading : ℕ) (dircaps : Bytes) (pin : ℕ)
    → reading < 1024
    → IsReady (run_analog cs (analog_port_pin first dircaps pin))
      × ((get_analog_state reading (run_analog cs (analog_port_pin first dircaps pin))).3
          < 2 ^ (get_analog_state reading (run_analog cs (analog_port_pin first dircaps pin))).1)
run_analog_bounds cs first reading dircaps pin h =
    let p = run_analog cs (analog_port_pin first dircaps pin) in
    let ready =
      run_analog-IsReady cs (analog_port_pin first dircaps pin)
        (constructor-IsReady first dircaps pin) in
    (ready, state_fits reading p h ready)
