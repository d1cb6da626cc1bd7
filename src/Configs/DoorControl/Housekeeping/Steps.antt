-- ===== src/Configs/DoorControl/Housekeeping/Steps.antt =====
-- What a call of `doWork` does to the relay, to the entered value and to the stored code.
use opdi_core.Base.{
  subst, ℕ, ◌+◌, ◌<◌, ◌≡◌, ◌≢◌, ◌⊎◌, inl, inr, refl, ap, sym, ◌∙◌, Bool, true, false, ◌==◌, ℤ, pos,
  negsuc, ltb_ℤ, eq_ℤ, arith, Bool-cases, ◌&&◌,
}
use opdi_core.Configs.DoorControl.Eeprom.{Eeprom, get_state}
use opdi_core.Configs.DoorControl.Housekeeping.{
  TimeLibrary, DoorState, Readings, code_port, special_doorcode, no_key, refresh_clock, watch_door,
  next_value, enter_key, in_daytime, check_code, check_special, check_keypad, show_switch, do_work,
}
use opdi_core.Configs.DoorControl.Housekeeping.Pulses.{
  openings, openings-refresh_clock, openings-watch_door, openings-show_switch, openings-enter_key,
  openings-open_door, kept_refresh_clock, kept_watch_door, IsValid,
}

module _ (e : Eeprom) (time : TimeLibrary) where
  -- The test of `check_code` says that the number is the stored code, and that it is day.
  code_test_sound :
      (day : Bool) (n : ℕ) (code : ℤ)
      → (day && (ltb_ℤ (pos 0) code && eq_ℤ (pos n) code)) ≡ true
      → (code ≡ pos n) × (0 < n) × (day ≡ true)
  code_test_sound day n (pos c) h = ground arith
  code_test_sound day n (negsuc c) h = ground arith

  code_test_complete :
      (day : Bool) (n : ℕ) (code : ℤ)
      → code ≡ pos n
      → 0 < n
      → day ≡ true
      → (day && (ltb_ℤ (pos 0) code && eq_ℤ (pos n) code)) ≡ true
  code_test_complete day n code h positive d = rw (h, d) (ground arith)

  -- Both tests, with a state in which the new value is entered.
  Tested : Readings e time → DoorState e time → DoorState e time → Type 0
  Tested r t t' =
      (IsValid e time r t.memory t.entered_value
        × (t'.entered_value ≡ 0)
        × (openings e time t' ≡ openings e time t + 1))
      ⊎ ((IsValid e time r t.memory t.entered_value → ⊥)
          × (t'.entered_value ≡ t.entered_value)
          × (openings e time t' ≡ openings e time t))

  abbrev pub code_test : Readings e time → DoorState e time → Bool
  code_test r t =
      let code = get_state e code_port t.memory in
      in_daytime e time r.clock && (ltb_ℤ (pos 0) code && eq_ℤ (pos t.entered_value) code)

  check_special_lem :
      (t : DoorState e time)
      → (((t.entered_value ≡ special_doorcode)
            × ((check_special e time t).entered_value ≡ 0)
            × (openings e time (check_special e time t) ≡ openings e time t + 1))
          ⊎ ((t.entered_value ≢ special_doorcode) × (check_special e time t ≡ t)))
  unfolding check_special
  check_special_lem t = elim (Bool-cases (t.entered_value == special_doorcode)) [
    | inl is_code ↦ rw is_code (inl (ground arith, refl, openings-open_door e time t))
    | inr other ↦ rw other (inr (ground arith, refl))
  ]

  check_code_accepts :
      (r : Readings e time) (t : DoorState e time)
      → code_test r t ≡ true
      → ((check_code e time r t).entered_value ≡ 0)
        × (openings e time (check_code e time r t) ≡ openings e time t + 1)
  unfolding check_code
  check_code_accepts r t h = rw h (refl, openings-open_door e time t)

  check_code_refuses :
      (r : Readings e time) (t : DoorState e time)
      → code_test r t ≡ false
      → check_code e time r t ≡ t
  unfolding check_code
  check_code_refuses r t h = rw h

  not_valid :
      (r : Readings e time) (t : DoorState e time)
      → code_test r t ≡ false
      → t.entered_value ≢ special_doorcode
      → IsValid e time r t.memory t.entered_value
      → ⊥
  not_valid r t refused other (inl is_code) = other is_code
  not_valid r t refused other (inr (code, positive, day)) =
      let true_of = code_test_complete _ t.entered_value _ code positive day in cc

  tests_lem :
      (r : Readings e time) (t : DoorState e time)
      → Tested r t (check_special e time (check_code e time r t))
  unfolding Tested
  tests_lem r t = elim (Bool-cases (code_test r t)) [
    | inl accepted ↦
        let u = check_code e time r t in
        let after = check_code_accepts r t accepted in
        let sound =
          code_test_sound (in_daytime e time r.clock) t.entered_value
            (get_state e code_port t.memory) accepted in
        elim (check_special_lem u) [
          | inl (is_code, _, _) ↦ absurd (omega (arith, is_code, after.0))
          | inr (_, same) ↦ inl (
            inr sound,
            ap (λ (x : DoorState e time). x.entered_value) same ∙ after.0,
            ap (λ (x : DoorState e time). openings e time x) same ∙ after.1,
          )
        ]
    | inr refused ↦ rw (check_code_refuses r t refused) (elim (check_special_lem t) [
      | inl (is_code, reset, opened) ↦ inl (inl is_code, reset, opened)
      | inr (other, same) ↦ inr (
        not_valid r t refused other,
        ap (λ (x : DoorState e time). x.entered_value) same,
        ap (λ (x : DoorState e time). openings e time x) same,
      )
    ])
  ]

  -- A call of `doWork`, by what it does to the number of openings and to the entered value.
  abbrev pub Step : Readings e time → DoorState e time → DoorState e time → Type 0
  Step r s s' =
      ((r.key ≡ no_key)
        × (s'.entered_value ≡ s.entered_value)
        × (openings e time s' ≡ openings e time s))
      ⊎ (((r.key ≢ no_key)
            × IsValid e time r s.memory (next_value s.entered_value r.key)
            × (s'.entered_value ≡ 0)
            × (openings e time s' ≡ openings e time s + 1))
          ⊎ ((r.key ≢ no_key)
              × (IsValid e time r s.memory (next_value s.entered_value r.key) → ⊥)
              × (s'.entered_value ≡ next_value s.entered_value r.key)
              × (openings e time s' ≡ openings e time s)))

  is_pressed : (key : ℕ) → (key == no_key) ≡ false → key ≡ no_key → ⊥
  is_pressed key h q = ground arith

  check_keypad_lem :
      (r : Readings e time) (s : DoorState e time) → Step r s (check_keypad e time r s)
  unfolding check_keypad Tested enter_key
  check_keypad_lem r s = elim (Bool-cases (r.key == no_key)) [
    | inl none_pressed ↦ rw none_pressed (inl (ground arith, refl, refl))
    | inr pressed ↦ rw pressed (elim (tests_lem r (enter_key e time r.key s)) [
      | inl (valid, reset, opened) ↦ inr (
          inl (
            λ q. is_pressed r.key pressed q,
            valid,
            reset,
            opened ∙ ap (λ (n : ℕ). n + 1) (openings-enter_key e time r.key s),
          ))
      | inr (invalid, kept, closed) ↦ inr (
          inr (
            λ q. is_pressed r.key pressed q,
            invalid,
            kept,
            closed ∙ openings-enter_key e time r.key s,
          ))
    ])
  ]

  -- The value, the EEPROM and the number of openings are the same.
  abbrev pub Same : DoorState e time → DoorState e time → Type 0
  Same s t =
      (t.entered_value ≡ s.entered_value)
      × (t.memory ≡ s.memory)
      × (openings e time t ≡ openings e time s)

  IsValid-Same :
      (r : Readings e time) (s t : DoorState e time)
      → Same s t
      → IsValid e time r t.memory (next_value t.entered_value r.key)
      → IsValid e time r s.memory (next_value s.entered_value r.key)
  IsValid-Same r s t same valid =
      subst (λ (m : e.Memory). IsValid e time r m (next_value s.entered_value r.key)) same.1
        (subst (λ (n : ℕ). IsValid e time r t.memory (next_value n r.key)) same.0 valid)

  Same-symm : (s t : DoorState e time) → Same s t → Same t s
  Same-symm s t same = (sym same.0, sym same.1, sym same.2)

  Step-Same :
      (r : Readings e time) (s t t' u : DoorState e time)
      → Same s t
      → Same t' u
      → Step r t t'
      → Step r s u
  Step-Same r s t t' u before after (inl (q, v, o)) =
      inl (q, after.0 ∙ v ∙ before.0, after.2 ∙ o ∙ before.2)
  Step-Same r s t t' u before after (inr (inl (q, valid, v, o))) = inr (
      inl (
        q,
        IsValid-Same r s t before valid,
        after.0 ∙ v,
        after.2 ∙ o ∙ ap (λ (n : ℕ). n + 1) before.2,
      ))
  Step-Same r s t t' u before after (inr (inr (q, invalid, v, o))) = inr (
      inr (
        q,
        (λ valid. invalid (IsValid-Same r t s (Same-symm s t before) valid)),
        after.0 ∙ v ∙ ap (λ (n : ℕ). next_value n r.key) before.0,
        after.2 ∙ o ∙ before.2,
      ))

  pub Same-watch_door :
      (r : Readings e time) (s : DoorState e time)
      → Same s (watch_door e time r (refresh_clock e time r s))
  Same-watch_door r s =
      let t = refresh_clock e time r s in
      (
        (kept_watch_door e time r t).0 ∙ (kept_refresh_clock e time r s).0,
        (kept_watch_door e time r t).1 ∙ (kept_refresh_clock e time r s).1,
        openings-watch_door e time r t ∙ openings-refresh_clock e time r s,
      )

  pub Same-show_switch :
      (r : Readings e time) (s : DoorState e time) → Same s (show_switch e time r s)
  unfolding show_switch
  Same-show_switch r s = (refl, refl, openings-show_switch e time r s)

  -- The other parts of a call leave the value and the number of openings.
  pub do_work_lem : (r : Readings e time) (s : DoorState e time) → Step r s (do_work e time r s)
  unfolding do_work
  do_work_lem r s =
      let t = watch_door e time r (refresh_clock e time r s) in
      Step-Same r s t (check_keypad e time r t) (do_work e time r s) (Same-watch_door r s)
        (Same-show_switch r (check_keypad e time r t)) (check_keypad_lem r t)
