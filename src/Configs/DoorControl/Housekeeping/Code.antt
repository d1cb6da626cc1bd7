-- ===== src/Configs/DoorControl/Housekeeping/Code.antt =====
-- Who knows the code gets in.
use opdi_core.Base.{
  ℕ, ◌+◌, ◌-◌, ◌*◌, ◌≤◌, ◌<◌, ◌≡◌, ◌≢◌, ◌⊎◌, inl, inr, refl, ap, sym, ◌∙◌, subst, true, false, ◌&&◌,
  leb, List, [], ◌∷◌, ℤ, pos, arith, All,
}
use opdi_core.Configs.DoorControl.Eeprom.{Eeprom, Stores, clamp, get_state}
use opdi_core.Configs.DoorControl.Housekeeping.{
  TimeLibrary, DoorState, Readings, code_port, no_key, next_value, in_daytime, do_work, run,
}
use opdi_core.Configs.DoorControl.Housekeeping.Pulses.{openings, IsValid}
use opdi_core.Configs.DoorControl.Housekeeping.Steps.{do_work_lem}
use opdi_core.Configs.DoorControl.Housekeeping.Stored.{code-do_work}
use opdi_core.Configs.DoorControl.Housekeeping.Access.{IsDigit, number_from, pressed}
use opdi_core.Configs.DoorControl.Housekeeping.Keys.{
  step_quiet, step_opens, step_waits, pressed_nil, pressed_quiet, pressed_key, key-cases, run_quiet,
}

number_from-ge : (n : ℕ) (ks : List ℕ) → n ≤ number_from n ks
unfolding number_from
number_from-ge n [] = omega arith
number_from-ge n (k ∷ ks) = omega (arith, number_from-ge (n * 10 + (k - b'0')) ks)

List-cases : (ks : List ℕ) → (ks ≡ []) ⊎ ((j : ℕ) × (js : List ℕ) × (ks ≡ j ∷ js))
List-cases [] = inl refl
List-cases (j ∷ js) = inr (j, js, refl)

clamp_bound : (v : ℤ) (c : ℕ) → clamp code_port v ≡ pos c → c ≤ 99999
unfolding clamp
clamp_bound v c h = ground arith

module _ (e : Eeprom) (time : TimeLibrary) (laws : Stores e) where
  abbrev pub AreByDay : List (Readings e time) → Type 0
  AreByDay = All (λ r. in_daytime e time r.clock ≡ true)

  -- A digit behind a small number gives a number that is entered as it is.
  IsValid-digit :
      (r : Readings e time) (s : DoorState e time) (n c : ℕ)
      → s.entered_value ≡ n
      → IsDigit r.key
      → number_from n (r.key ∷ []) ≡ c
      → 0 < c
      → c ≤ 99999
      → get_state e code_port s.memory ≡ pos c
      → in_daytime e time r.clock ≡ true
      → IsValid e time r s.memory (next_value s.entered_value r.key)
  unfolding next_value number_from
  IsValid-digit r s n c entered digit number positive small code day =
      let same : next_value s.entered_value r.key ≡ c =
        rw (entered, digit) (omega (arith, number)) in
      inr (code ∙ ap pos (sym same), omega arith, day)

  not_valid_number :
      (r : Readings e time) (s : DoorState e time) (c n : ℕ)
      → get_state e code_port s.memory ≡ pos c
      → n < 12345
      → n < c
      → IsValid e time r s.memory n
      → ⊥
  not_valid_number r s c n code small below (inl special) = absurd (omega arith)
  not_valid_number r s c n code small below (inr (same, positive, day)) =
      let eq : pos c ≡ pos n = sym code ∙ same in ground arith

  invalid_digit :
      (r : Readings e time) (s : DoorState e time) (n c j : ℕ) (ks : List ℕ)
      → s.entered_value ≡ n
      → IsDigit r.key
      → number_from n (r.key ∷ j ∷ ks) ≡ c
      → 0 < n + (r.key - b'0')
      → c ≤ 99999
      → get_state e code_port s.memory ≡ pos c
      → (next_value s.entered_value r.key ≡ n * 10 + (r.key - b'0'))
        × (IsValid e time r s.memory (next_value s.entered_value r.key) → ⊥)
  unfolding next_value number_from
  invalid_digit r s n c j ks entered digit number positive small code =
      let least = number_from-ge ((n * 10 + (r.key - b'0')) * 10 + (j - b'0')) ks in
      let same : next_value s.entered_value r.key ≡ n * 10 + (r.key - b'0') =
        rw (entered, digit) (omega (arith, least, number)) in
      (
        same,
        not_valid_number r s c (next_value s.entered_value r.key) code
            (omega (arith, same, least, number)) (omega (arith, same, least, number)),
      )

  -- The digits that are left to type, behind a number.
  run_digits :
      (c n : ℕ) (rs : List (Readings e time)) (s : DoorState e time) (k : ℕ) (ks : List ℕ)
      → c ≤ 99999
      → get_state e code_port s.memory ≡ pos c
      → AreByDay rs
      → pressed e time rs ≡ k ∷ ks
      → All IsDigit (k ∷ ks)
      → s.entered_value ≡ n
      → 0 < n + (k - b'0')
      → number_from n (k ∷ ks) ≡ c
      → ((run e time rs s).entered_value ≡ 0)
        × (openings e time (run e time rs s) ≡ openings e time s + 1)
  unfolding run number_from
  run_digits c n [] s k ks small code day typed digits entered positive number =
      cc (pressed_nil e time)
  run_digits c n (r ∷ rs) s k ks small code day typed digits entered positive number =
      elim (key-cases e time r) [
        | inl quiet ↦
            let step = step_quiet e time r s (do_work e time r s) (do_work_lem e time r s) quiet in
            let rest =
              run_digits c n rs (do_work e time r s) k ks small
                (code-do_work e time laws r s ∙ code) day.1
                (sym (pressed_quiet e time r rs quiet) ∙ typed) digits (step.0 ∙ entered) positive
                number in
            (rest.0, rest.1 ∙ ap (λ (m : ℕ). m + 1) step.1)
        | inr some_key ↦
            let key : r.key ≡ k = cc (pressed_key e time r rs some_key) in
            let left : pressed e time rs ≡ ks = cc (pressed_key e time r rs some_key) in
            let digit : IsDigit r.key = subst IsDigit (sym key) digits.0 in
            elim (List-cases ks) [
              | inl last ↦
                  let num : n * 10 + (k - b'0') ≡ c =
                    ap (λ (l : List ℕ). number_from n (k ∷ l)) (sym last) ∙ number in
                  let valid =
                    IsValid-digit r s n c entered digit
                      (ap (λ (q : ℕ). number_from n (q ∷ [])) key ∙ num)
                      (omega (arith, positive, num)) small code day.0 in
                  let step =
                    step_opens e time r s (do_work e time r s) (do_work_lem e time r s) some_key
                      valid in
                  let rest = run_quiet e time rs (do_work e time r s) (left ∙ last) in
                  (rest.0 ∙ step.0, rest.1 ∙ step.1)
              | inr (j, js, more) ↦
                  let num : number_from n (k ∷ j ∷ js) ≡ c =
                    ap (λ (l : List ℕ). number_from n (k ∷ l)) (sym more) ∙ number in
                  let invalid =
                    invalid_digit r s n c j js entered digit
                      (ap (λ (q : ℕ). number_from n (q ∷ j ∷ js)) key ∙ num)
                      (omega (arith, key, positive)) small code in
                  let step =
                    step_waits e time r s (do_work e time r s) (do_work_lem e time r s) some_key
                      invalid.1 in
                  let rest =
                    run_digits c (n * 10 + (k - b'0')) rs (do_work e time r s) j js small
                      (code-do_work e time laws r s ∙ code) day.1 (left ∙ more)
                      (subst (All IsDigit) more digits.1)
                      (step.0 ∙ invalid.0 ∙ ap (λ (q : ℕ). n * 10 + (q - b'0')) key)
                      (omega (arith, positive)) num in
                  (rest.0, rest.1 ∙ ap (λ (m : ℕ). m + 1) step.1)
            ]
      ]

  code_bound : (m : e.Memory) (c : ℕ) → get_state e code_port m ≡ pos c → c ≤ 99999
  unfolding get_state
  code_bound m c h = clamp_bound _ c h

  zero_invalid : (r : Readings e time) (s : DoorState e time) → IsValid e time r s.memory 0 → ⊥
  zero_invalid r s (inl special) = absurd (omega arith)
  zero_invalid r s (inr (same, positive, day)) = absurd (omega arith)

  reset_lem :
      (r : Readings e time) (s : DoorState e time) (c : ℕ)
      → get_state e code_port s.memory ≡ pos c
      → r.key ≢ no_key
      → (leb b'0' r.key && leb r.key b'9') ≡ false
      → ((do_work e time r s).entered_value ≡ 0)
        × (openings e time (do_work e time r s) ≡ openings e time s)
  unfolding next_value
  reset_lem r s c code some_key other =
      let same : next_value s.entered_value r.key ≡ 0 = rw other in
      let step =
        step_waits e time r s (do_work e time r s) (do_work_lem e time r s) some_key
          (λ valid. zero_invalid r s (subst (λ (n : ℕ). IsValid e time r s.memory n) same valid)) in
      (step.0 ∙ same, step.1)

  -- The code opens the door: if a key that is no digit is pressed and then, in the following calls of
  -- doWork, the digits of the code in the EEPROM and no other key, all of them between 8:00 and
  -- 18:00 or while the clock cannot be read, the door is opened once, and no digits are entered
  -- afterwards, whatever was entered before. The first digit is not 0. The EEPROM keeps what is
  -- written at an address.
  pub run-code :
      (reset : Readings e time) (rs : List (Readings e time)) (s : DoorState e time) (k : ℕ)
      (ks : List ℕ)
      → reset.key ≢ no_key
      → (leb b'0' reset.key && leb reset.key b'9') ≡ false
      → pressed e time rs ≡ k ∷ ks
      → All IsDigit (k ∷ ks)
      → b'0' < k
      → get_state e code_port s.memory ≡ pos (number_from 0 (k ∷ ks))
      → AreByDay rs
      → ((run e time (reset ∷ rs) s).entered_value ≡ 0)
        × (openings e time (run e time (reset ∷ rs) s) ≡ openings e time s + 1)
  unfolding run
  run-code reset rs s k ks some_key other typed digits first code day =
      let c = number_from 0 (k ∷ ks) in
      let start = reset_lem reset s c code some_key other in
      let rest =
        run_digits c 0 rs (do_work e time reset s) k ks (code_bound s.memory c code)
          (code-do_work e time laws reset s ∙ code) day typed digits start.0 (omega arith) refl in
      (rest.0, rest.1 ∙ ap (λ (m : ℕ). m + 1) start.1)
