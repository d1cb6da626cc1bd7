-- ===== src/Configs/DoorControl/Housekeeping/Keys.antt =====
-- Calls of `doWork` by the key that they read.
use opdi_core.Base.{
  ◌+◌, ◌≡◌, ◌≢◌, ◌⊎◌, inl, inr, refl, sym, ◌∙◌, ◌==◌, List, [], ◌∷◌, arith, Bool-cases,
}
use opdi_core.Configs.DoorControl.Eeprom.{Eeprom}
use opdi_core.Configs.DoorControl.Housekeeping.{
  TimeLibrary, DoorState, Readings, no_key, next_value, do_work, run,
}
use opdi_core.Configs.DoorControl.Housekeeping.Pulses.{openings, IsValid}
use opdi_core.Configs.DoorControl.Housekeeping.Steps.{Step, do_work_lem}
use opdi_core.Configs.DoorControl.Housekeeping.Access.{pressed}

module _ (e : Eeprom) (time : TimeLibrary) where
  pub step_quiet :
      (r : Readings e time) (s s' : DoorState e time)
      → Step e time r s s'
      → r.key ≡ no_key
      → (s'.entered_value ≡ s.entered_value) × (openings e time s' ≡ openings e time s)
  step_quiet r s s' (inl (q, v, o)) h = (v, o)
  step_quiet r s s' (inr (inl (q, valid, v, o))) h = absurd (q h)
  step_quiet r s s' (inr (inr (q, invalid, v, o))) h = absurd (q h)

  pub step_opens :
      (r : Readings e time) (s s' : DoorState e time)
      → Step e time r s s'
      → r.key ≢ no_key
      → IsValid e time r s.memory (next_value s.entered_value r.key)
      → (s'.entered_value ≡ 0) × (openings e time s' ≡ openings e time s + 1)
  step_opens r s s' (inl (q, v, o)) h valid = absurd (h q)
  step_opens r s s' (inr (inl (q, valid', v, o))) h valid = (v, o)
  step_opens r s s' (inr (inr (q, invalid, v, o))) h valid = absurd (invalid valid)

  pub step_waits :
      (r : Readings e time) (s s' : DoorState e time)
      → Step e time r s s'
      → r.key ≢ no_key
      → (IsValid e time r s.memory (next_value s.entered_value r.key) → ⊥)
      → (s'.entered_value ≡ next_value s.entered_value r.key)
        × (openings e time s' ≡ openings e time s)
  step_waits r s s' (inl (q, v, o)) h invalid = absurd (h q)
  step_waits r s s' (inr (inl (q, valid, v, o))) h invalid = absurd (invalid valid)
  step_waits r s s' (inr (inr (q, invalid', v, o))) h invalid = (v, o)

  pub pressed_nil : pressed e time [] ≡ []
  unfolding pressed
  pressed_nil = refl

  pub pressed_quiet :
      (r : Readings e time) (rs : List (Readings e time))
      → r.key ≡ no_key
      → pressed e time (r ∷ rs) ≡ pressed e time rs
  unfolding pressed
  pressed_quiet r rs h = ground arith

  pub pressed_key :
      (r : Readings e time) (rs : List (Readings e time))
      → r.key ≢ no_key
      → pressed e time (r ∷ rs) ≡ r.key ∷ pressed e time rs
  unfolding pressed
  pressed_key r rs h = ground arith

  pub key-cases : (r : Readings e time) → (r.key ≡ no_key) ⊎ (r.key ≢ no_key)
  key-cases r = elim (Bool-cases (r.key == no_key)) [
    | inl h ↦ inl (ground arith)
    | inr h ↦ inr (λ q. ground arith)
  ]

  -- Calls without a key leave the value and the door.
  pub run_quiet :
      (rs : List (Readings e time)) (s : DoorState e time)
      → pressed e time rs ≡ []
      → ((run e time rs s).entered_value ≡ s.entered_value)
        × (openings e time (run e time rs s) ≡ openings e time s)
  unfolding run
  run_quiet [] s h = (refl, refl)
  run_quiet (r ∷ rs) s h = elim (key-cases r) [
    | inl quiet ↦
        let rest = run_quiet rs (do_work e time r s) (sym (pressed_quiet r rs quiet) ∙ h) in
        let step = step_quiet r s (do_work e time r s) (do_work_lem e time r s) quiet in
        (rest.0 ∙ step.0, rest.1 ∙ step.1)
    | inr some_key ↦ cc (pressed_key r rs some_key)
  ]
