-- ===== src/Configs/DoorControl/Housekeeping/Access.antt =====
-- Who gets in: the door opens only after digits that make up a valid code.
use opdi_core.Base.{
  ℕ, ◌+◌, ◌-◌, ◌*◌, ◌%◌, ◌^◌, ◌≡◌, ◌≢◌, inl, inr, refl, ap, sym, ◌∙◌, subst, true, false, ◌&&◌,
  ◌==◌, leb, if◌then◌else◌, List, [], ◌∷◌, ◌++◌, arith, Bool-cases, append-nil, append_assoc, All,
  All-append,
}
use opdi_core.Configs.DoorControl.Eeprom.{Eeprom, Stores, get_state}
use opdi_core.Configs.DoorControl.Housekeeping.{
  TimeLibrary, DoorState, Readings, code_port, no_key, next_value, do_work, run,
}
use opdi_core.Configs.DoorControl.Housekeeping.Pulses.{openings, IsValid}
use opdi_core.Configs.DoorControl.Housekeeping.Steps.{Step, do_work_lem}
use opdi_core.Configs.DoorControl.Housekeeping.Stored.{code-do_work}

abbrev pub IsDigit : ℕ → Type 0
IsDigit k = (leb b'0' k && leb k b'9') ≡ true

-- The number that digits make up, behind a number.
unfoldable pub number_from : ℕ → List ℕ → ℕ
number_from n [] = n
number_from n (k ∷ ks) = number_from (n * 10 + (k - b'0')) ks

pub number_from-append :
    (n : ℕ) (ks : List ℕ) (k : ℕ)
    → number_from n (ks ++ k ∷ []) ≡ number_from n ks * 10 + (k - b'0')
unfolding number_from
number_from-append n [] k = refl
number_from-append n (j ∷ ks) k = number_from-append (n * 10 + (j - b'0')) ks k

next_value_digit :
    (n k : ℕ) → IsDigit k → next_value (n % 2 ^ 32) k ≡ (n * 10 + (k - b'0')) % 2 ^ 32
unfolding next_value
next_value_digit n k h = rw h (omega arith)

next_value_reset : (n k : ℕ) → (leb b'0' k && leb k b'9') ≡ false → next_value n k ≡ 0
unfolding next_value
next_value_reset n k h = rw h

module _ (e : Eeprom) (time : TimeLibrary) where
  -- The keys that are pressed in a sequence of calls.
  unfoldable pub pressed : List (Readings e time) → List ℕ
  pressed [] = []
  pressed (r ∷ rs) = if r.key == no_key then pressed rs else r.key ∷ pressed rs

  pressed_none :
      (rs : List (Readings e time)) (r : Readings e time)
      → r.key ≡ no_key
      → pressed (rs ++ r ∷ []) ≡ pressed rs
  unfolding pressed
  pressed_none [] r h = ground arith
  pressed_none (q ∷ rs) r h = ground (arith, pressed_none rs r h)

  pressed_some :
      (rs : List (Readings e time)) (r : Readings e time)
      → r.key ≢ no_key
      → pressed (rs ++ r ∷ []) ≡ pressed rs ++ r.key ∷ []
  unfolding pressed
  pressed_some [] r h = ground arith
  pressed_some (q ∷ rs) r h = ground (arith, pressed_some rs r h)

  -- Among the calls is one at which the number of the digits that have just been pressed, as a
  -- uint32_t, is the special code, or is the stored code by day.
  abbrev pub Authorised : List (Readings e time) → e.Memory → Type 0
  Authorised rs m =
      (before : List (Readings e time)) × (r : Readings e time) × (after : List (Readings e time))
      × (earlier : List ℕ) × (digits : List ℕ) × (rs ≡ before ++ r ∷ after)
      × (pressed (before ++ r ∷ []) ≡ earlier ++ digits)
      × All IsDigit digits
      × IsValid e time r m (number_from 0 digits % 2 ^ 32)

  -- The digits since the last other key, after one more key.
  abbrev Typed : List (Readings e time) → ℕ → Type 0
  Typed rs n =
      (earlier : List ℕ) × (digits : List ℕ) × (pressed rs ≡ earlier ++ digits)
      × All IsDigit digits
      × (n ≡ number_from 0 digits % 2 ^ 32)

  Typed-none :
      (rs : List (Readings e time)) (r : Readings e time) (n : ℕ)
      → r.key ≡ no_key
      → Typed rs n
      → Typed (rs ++ r ∷ []) n
  Typed-none rs r n h (earlier, digits, p, d, v) = (earlier, digits, pressed_none rs r h ∙ p, d, v)

  Typed-reset : (rs : List (Readings e time)) → Typed rs 0
  unfolding number_from
  Typed-reset rs = (pressed rs, [], sym (append-nil (pressed rs)), tt, refl)

  Typed-next :
      (rs : List (Readings e time)) (r : Readings e time) (n : ℕ)
      → r.key ≢ no_key
      → Typed rs n
      → Typed (rs ++ r ∷ []) (next_value n r.key)
  Typed-next rs r n h (earlier, digits, p, d, v) =
      elim (Bool-cases (leb b'0' r.key && leb r.key b'9')) [
        | inl digit ↦ (
          earlier,
          digits ++ r.key ∷ [],
          pressed_some rs r h
              ∙ ap (λ ks. ks ++ r.key ∷ []) p
              ∙ append_assoc earlier digits (r.key ∷ []),
          All-append IsDigit digits (r.key ∷ []) d (digit, tt),
          ap (λ (m : ℕ). next_value m r.key) v
              ∙ next_value_digit (number_from 0 digits) r.key digit
              ∙ ap (λ (m : ℕ). m % 2 ^ 32) (sym (number_from-append 0 digits r.key)),
        )
        | inr other ↦
            subst (Typed (rs ++ r ∷ [])) (sym (next_value_reset n r.key other))
              (Typed-reset (rs ++ r ∷ []))
      ]

  module _ (laws : Stores e) (m : e.Memory) where
    IsValid-code :
        (r : Readings e time) (m' : e.Memory) (n : ℕ)
        → get_state e code_port m' ≡ get_state e code_port m
        → IsValid e time r m' n
        → IsValid e time r m n
    IsValid-code r m' n eq (inl special) = inl special
    IsValid-code r m' n eq (inr (code, positive, day)) = inr (sym eq ∙ code, positive, day)

    find_valid :
        (before : List (Readings e time)) (r : Readings e time) (after : List (Readings e time))
        (n : ℕ)
        → Typed (before ++ r ∷ []) n
        → IsValid e time r m n
        → Authorised (before ++ r ∷ after) m
    find_valid before r after n (earlier, digits, p, d, v) valid =
        (before, r, after, earlier, digits, refl, p, d, subst (IsValid e time r m) v valid)

    run_call :
        (before : List (Readings e time)) (r : Readings e time) (rs : List (Readings e time))
        (s : DoorState e time)
        → Typed before s.entered_value
        → get_state e code_port s.memory ≡ get_state e code_port m
        → Step e time r s (do_work e time r s)
        → (Typed (before ++ r ∷ []) (do_work e time r s).entered_value
            → openings e time (do_work e time r s) ≡ openings e time s
            → Authorised (before ++ r ∷ rs) m)
        → Authorised (before ++ r ∷ rs) m
    run_call before r rs s typed code (inl (q, v, o)) go_on =
        go_on
          (subst (Typed (before ++ r ∷ [])) (sym v) (Typed-none before r s.entered_value q typed)) o
    run_call before r rs s typed code (inr (inl (q, valid, v, o))) go_on =
        find_valid before r rs (next_value s.entered_value r.key)
          (Typed-next before r s.entered_value q typed)
          (IsValid-code r s.memory (next_value s.entered_value r.key) code valid)
    run_call before r rs s typed code (inr (inr (q, invalid, v, o))) go_on =
        go_on
          (subst (Typed (before ++ r ∷ [])) (sym v) (Typed-next before r s.entered_value q typed)) o

    run_lem :
        (before rs : List (Readings e time)) (s : DoorState e time)
        → Typed before s.entered_value
        → get_state e code_port s.memory ≡ get_state e code_port m
        → openings e time (run e time rs s) ≢ openings e time s
        → Authorised (before ++ rs) m
    unfolding run
    run_lem before [] s typed code opened = absurd (opened refl)
    run_lem before (r ∷ rs) s typed code opened =
        run_call before r rs s typed code (do_work_lem e time r s) (λ typed' same.
          subst (λ (qs : List (Readings e time)). Authorised qs m) (append_assoc before (r ∷ []) rs)
            (run_lem (before ++ r ∷ []) rs (do_work e time r s) typed'
              (code-do_work e time laws r s ∙ code) (λ q. opened (q ∙ same))))

  -- Nobody gets in without a code: if the door is opened in a sequence of calls of doWork that begins
  -- with no digits entered, then at one of the calls the digits that have been pressed in a row up to
  -- then make up, as a uint32_t, the special code or the code in the EEPROM; the latter is above 0
  -- and counts only between 8:00 and 18:00 or if the clock cannot be read. The EEPROM keeps what is
  -- written at an address.
  pub run-Authorised :
      (laws : Stores e) (rs : List (Readings e time)) (s : DoorState e time)
      → s.entered_value ≡ 0
      → openings e time (run e time rs s) ≢ openings e time s
      → Authorised rs s.memory
  run-Authorised laws rs s fresh opened =
      run_lem laws s.memory [] rs s (subst (Typed []) (sym fresh) (Typed-reset [])) refl opened
