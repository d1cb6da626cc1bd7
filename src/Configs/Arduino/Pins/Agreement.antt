-- ===== src/Configs/Arduino/Pins/Agreement.antt =====
-- What a digital port remembers is how its pin is set.
use opdi_core.Base.{
  ℕ, strcmp_eq, ◌||◌, ◌*◌, ◌/◌, ◌%◌, ◌+◌, ◌-◌, ◌<◌, ◌≡◌, ◌⊎◌, inl, inr, refl, ap, sym, subst, ◌∙◌,
  Bool, true, ◌==◌, leb, if◌then◌else◌, List, [], ◌∷◌, ◌++◌, Option, none, some, Bytes, arith,
  Bool-cases, ◌&&◌,
}
use opdi_core.Configs.Arduino.Pins.{
  PinEffect, pin_mode, digital_write, analog_write, analog_reference, DigitalPortPin, set_mode,
  set_line, digital_port_pin, first_char, set_digital_port_mode, set_digital_port_line, Command,
  change_mode, change_line, command, run, portdircap_input, portdircap_bidi, input, output,
}

-- The direction that a pin was given last.
unfoldable pub direction_of : ℕ → Option ℕ → List PinEffect → Option ℕ
direction_of pin last [] = last
direction_of pin last (pin_mode q mode ∷ es) =
    direction_of pin (if q == pin then some mode else last) es
direction_of pin last (digital_write q level ∷ es) = direction_of pin last es
direction_of pin last (analog_write q value ∷ es) = direction_of pin last es
direction_of pin last (analog_reference mode ∷ es) = direction_of pin last es

-- The level that was written to a pin last.
unfoldable pub level_of : ℕ → Option ℕ → List PinEffect → Option ℕ
level_of pin last [] = last
level_of pin last (pin_mode q mode ∷ es) = level_of pin last es
level_of pin last (digital_write q level ∷ es) =
    level_of pin (if q == pin then some level else last) es
level_of pin last (analog_write q value ∷ es) = level_of pin last es
level_of pin last (analog_reference mode ∷ es) = level_of pin last es

direction_of-append :
    (pin : ℕ) (last : Option ℕ) (es fs : List PinEffect)
    → direction_of pin last (es ++ fs) ≡ direction_of pin (direction_of pin last es) fs
unfolding direction_of
direction_of-append pin last [] fs = refl
direction_of-append pin last (pin_mode q mode ∷ es) fs =
    direction_of-append pin (if q == pin then some mode else last) es fs
direction_of-append pin last (digital_write q level ∷ es) fs = direction_of-append pin last es fs
direction_of-append pin last (analog_write q value ∷ es) fs = direction_of-append pin last es fs
direction_of-append pin last (analog_reference mode ∷ es) fs = direction_of-append pin last es fs

level_of-append :
    (pin : ℕ) (last : Option ℕ) (es fs : List PinEffect)
    → level_of pin last (es ++ fs) ≡ level_of pin (level_of pin last es) fs
unfolding level_of
level_of-append pin last [] fs = refl
level_of-append pin last (pin_mode q mode ∷ es) fs = level_of-append pin last es fs
level_of-append pin last (digital_write q level ∷ es) fs =
    level_of-append pin (if q == pin then some level else last) es fs
level_of-append pin last (analog_write q value ∷ es) fs = level_of-append pin last es fs
level_of-append pin last (analog_reference mode ∷ es) fs = level_of-append pin last es fs

-- The pin is an output in mode 3, and else an input, with the pullup on in mode 1; the level of an
-- output is the line.
pub record Agrees (p : DigitalPortPin) : Type 0 where
  pub known : (p.mode ≡ 0) ⊎ ((p.mode ≡ 1) ⊎ (p.mode ≡ 3))
  pub bit : p.line < 2
  pub direction : direction_of p.pin none p.effects ≡ some (if p.mode == 3 then output else input)
  pub level : level_of p.pin none p.effects ≡ some (if p.mode == 3 then p.line else p.mode)

-- Two effects behind the others.
direction_set :
    (pin mode level : ℕ) (es : List PinEffect)
    → direction_of pin none (es ++ pin_mode pin mode ∷ (digital_write pin level ∷ [])) ≡ some mode
unfolding direction_of
direction_set pin mode level es = direction_of-append pin none es _ ∙ ground arith

level_set :
    (pin mode level : ℕ) (es : List PinEffect)
    → level_of pin none (es ++ pin_mode pin mode ∷ (digital_write pin level ∷ [])) ≡ some level
unfolding level_of
level_set pin mode level es = level_of-append pin none es _ ∙ ground arith

direction_kept :
    (pin level : ℕ) (es : List PinEffect)
    → direction_of pin none (es ++ digital_write pin level ∷ []) ≡ direction_of pin none es
unfolding direction_of
direction_kept pin level es = direction_of-append pin none es _

level_written :
    (pin level : ℕ) (es : List PinEffect)
    → level_of pin none (es ++ digital_write pin level ∷ []) ≡ some level
unfolding level_of
level_written pin level es = level_of-append pin none es _ ∙ ground arith

-- A mode that the pin has; the pin need not have been set before.
set_mode-Agrees :
    (mode : ℕ) (p : DigitalPortPin)
    → p.line < 2
    → (mode ≡ 0) ⊎ ((mode ≡ 1) ⊎ (mode ≡ 3))
    → Agrees (set_mode mode p).1
unfolding set_mode
set_mode-Agrees mode p bit (inl e) =
    subst (λ (m : ℕ). Agrees (set_mode m p).1) (sym e)
      (record {
        known = inl refl;
        bit = bit;
        direction = direction_set p.pin input 0 p.effects;
        level = level_set p.pin input 0 p.effects;
      })
set_mode-Agrees mode p bit (inr (inl e)) =
    subst (λ (m : ℕ). Agrees (set_mode m p).1) (sym e)
      (record {
        known = inr (inl refl);
        bit = bit;
        direction = direction_set p.pin input 1 p.effects;
        level = level_set p.pin input 1 p.effects;
      })
set_mode-Agrees mode p bit (inr (inr e)) =
    subst (λ (m : ℕ). Agrees (set_mode m p).1) (sym e)
      (record {
        known = inr (inr refl);
        bit = omega arith;
        direction = direction_set p.pin output 0 p.effects;
        level = level_set p.pin output 0 p.effects;
      })

line_level :
    (mode line : ℕ) (b : Bool)
    → b ≡ true
    → line < 2
    → (if line == 1 then 1 else 0) ≡ (if b then line else mode)
line_level mode line b h bit = rw h (ground arith)

set_line-Agrees : (line : ℕ) (p : DigitalPortPin) → line < 2 → Agrees p → Agrees (set_line line p).1
unfolding set_line
set_line-Agrees line p bit v = elim (Bool-cases (p.mode == 3)) [
  | inl is_output ↦ rw is_output (record {
    known = v.known;
    bit = bit;
    direction = direction_kept p.pin (if line == 1 then 1 else 0) p.effects ∙ v.direction;
    level =
        level_written p.pin (if line == 1 then 1 else 0) p.effects
        ∙ ap some (line_level p.mode line (p.mode == 3) is_output bit);
  })
  | inr other ↦ rw other v
]

mode_of_char :
    (c : ℕ)
    → (leb b'0' c && leb c b'3') ≡ true
    → ((c - b'0' ≡ 0) ⊎ ((c - b'0' ≡ 1) ⊎ (c - b'0' ≡ 3))) ⊎ (c - b'0' ≡ 2)
mode_of_char c h = ground arith

no_pulldown : (p : DigitalPortPin) → Agrees p → Agrees (set_mode 2 p).1
unfolding set_mode
no_pulldown p v = v

set_digital_port_mode-Agrees :
    (text : Bytes) (p : DigitalPortPin) → Agrees p → Agrees (set_digital_port_mode text p).1
unfolding set_digital_port_mode
set_digital_port_mode-Agrees text p v =
    elim (Bool-cases (leb b'0' (first_char text) && leb (first_char text) b'3')) [
      | inr refused ↦ rw refused v
      | inl digit ↦ rw digit (elim (mode_of_char (first_char text) digit) [
        | inl mode ↦ set_mode-Agrees (first_char text - b'0') p v.bit mode
        | inr pulldown ↦ subst (λ (m : ℕ). Agrees (set_mode m p).1) (sym pulldown) (no_pulldown p v)
      ])
    ]

set_digital_port_line-Agrees :
    (text : Bytes) (p : DigitalPortPin) → Agrees p → Agrees (set_digital_port_line text p).1
unfolding set_digital_port_line
set_digital_port_line-Agrees text p v =
    set_line-Agrees (if first_char text == b'1' then 1 else 0) p (ground arith) v

command-Agrees : (c : Command) (p : DigitalPortPin) → Agrees p → Agrees (command c p)
unfolding command
command-Agrees (change_line text) p v = set_digital_port_line-Agrees text p v
command-Agrees (change_mode text) p v = set_digital_port_mode-Agrees text p v

run_from-Agrees : (cs : List Command) (p : DigitalPortPin) → Agrees p → Agrees (run cs p)
unfolding run
run_from-Agrees [] p v = v
run_from-Agrees (c ∷ cs) p v = run_from-Agrees cs (command c p) (command-Agrees c p v)

constructor-Agrees : (dircaps : Bytes) (flags pin : ℕ) → Agrees (digital_port_pin dircaps flags pin)
unfolding digital_port_pin
constructor-Agrees dircaps flags pin =
    set_mode-Agrees
      (if strcmp_eq dircaps portdircap_input || strcmp_eq dircaps portdircap_bidi
        then (if flags / 4 % 2 == 1 then 1 else 0)
        else 3)
      (record {
        pin = pin;
        flags = flags % 2 + 4 * (flags / 4 % 2);
        mode = 0;
        line = 0;
        effects = [];
      })
      (omega arith) (ground arith)

-- What a digital port of the Arduino remembers is how its pin is set: after the constructor and any
-- sequence of mode and line commands from the slave, with any texts and any flags and directions,
-- the mode is 0, 1 or 3, the pin was last made an output in mode 3 and an input else, and the level
-- last written to it is the line in mode 3, high in mode 1 (for the pullup) and low in mode 0.
pub run-Agrees :
    (cs : List Command) (dircaps : Bytes) (flags pin : ℕ)
    → Agrees (run cs (digital_port_pin dircaps flags pin))
run-Agrees cs dircaps flags pin =
    run_from-Agrees cs (digital_port_pin dircaps flags pin) (constructor-Agrees dircaps flags pin)
