-- ===== src/Configs/DoorControl/Housekeeping/Pulses.antt =====
-- The number of times that the door has been opened, and the parts of `doWork` that leave it alone.
use opdi_core.Base.{
  ℕ, ◌+◌, ◌-◌, ◌%◌, ◌^◌, ◌<◌, ◌≡◌, ◌⊎◌, inl, inr, refl, ◌∙◌, true, ◌==◌, ltb, if◌then◌else◌, List,
  [], ◌∷◌, ◌++◌, pos, arith, Bool-cases, not, ◌&&◌,
}
use opdi_core.Configs.DoorControl.Eeprom.{Eeprom, get_state}
use opdi_core.Configs.DoorControl.Housekeeping.{
  Effect, pin_mode, digital_write, delay, refresh_time, refresh_door, TimeLibrary, DoorState,
  Readings, relay, low, code_port, special_doorcode, open_door, emit, refresh_clock, watch_door,
  enter_key, in_daytime, show_switch,
}

-- The number of times that the relay has been switched on.
unfoldable pub relay_pulses : List Effect → ℕ
relay_pulses [] = 0
relay_pulses (digital_write pin level ∷ es) =
    (if pin == relay && level == low then 1 else 0) + relay_pulses es
relay_pulses (pin_mode pin mode ∷ es) = relay_pulses es
relay_pulses (delay time ∷ es) = relay_pulses es
relay_pulses (refresh_time ∷ es) = relay_pulses es
relay_pulses (refresh_door ∷ es) = relay_pulses es

pub relay_pulses-append :
    (es fs : List Effect) → relay_pulses (es ++ fs) ≡ relay_pulses es + relay_pulses fs
unfolding relay_pulses
relay_pulses-append [] fs = omega arith
relay_pulses-append (digital_write pin level ∷ es) fs = ground (arith, relay_pulses-append es fs)
relay_pulses-append (pin_mode pin mode ∷ es) fs = relay_pulses-append es fs
relay_pulses-append (delay time ∷ es) fs = relay_pulses-append es fs
relay_pulses-append (refresh_time ∷ es) fs = relay_pulses-append es fs
relay_pulses-append (refresh_door ∷ es) fs = relay_pulses-append es fs

module _ (e : Eeprom) (time : TimeLibrary) where
  -- The number of times that the door has been opened.
  abbrev pub openings : DoorState e time → ℕ
  openings s = relay_pulses s.effects

  -- A number that opens the door: the special code at any time, the stored one by day.
  abbrev pub IsValid : Readings e time → e.Memory → ℕ → Type 0
  IsValid r m n =
      (n ≡ special_doorcode)
      ⊎ ((get_state e code_port m ≡ pos n) × (0 < n) × (in_daytime e time r.clock ≡ true))

  pub openings-refresh_clock :
      (r : Readings e time) (s : DoorState e time)
      → openings (refresh_clock e time r s) ≡ openings s
  unfolding refresh_clock relay_pulses
  openings-refresh_clock r s = ground (arith, relay_pulses-append s.effects (refresh_time ∷ []))

  pub openings-watch_door :
      (r : Readings e time) (s : DoorState e time) → openings (watch_door e time r s) ≡ openings s
  unfolding watch_door relay_pulses
  openings-watch_door r s = ground (arith, relay_pulses-append s.effects (refresh_door ∷ []))

  pub kept_refresh_clock :
      (r : Readings e time) (s : DoorState e time)
      → ((refresh_clock e time r s).entered_value ≡ s.entered_value)
        × ((refresh_clock e time r s).memory ≡ s.memory)
  unfolding refresh_clock
  kept_refresh_clock r s =
      elim (Bool-cases (ltb 3000 ((r.millis + 2 ^ 32 - s.time_refresh_counter) % 2 ^ 32))) [
        | inl due ↦ rw due (elim (Bool-cases r.connected) [
          | inl h ↦ rw h (refl, refl)
          | inr h ↦ rw h (refl, refl)
        ])
        | inr not_due ↦ rw not_due (refl, refl)
      ]

  pub kept_watch_door :
      (r : Readings e time) (s : DoorState e time)
      → ((watch_door e time r s).entered_value ≡ s.entered_value)
        × ((watch_door e time r s).memory ≡ s.memory)
  unfolding watch_door
  kept_watch_door r s =
      elim (Bool-cases (not (r.door_switch == s.last_door_state) && r.connected_later)) [
        | inl h ↦ rw h (refl, refl)
        | inr h ↦ rw h (refl, refl)
      ]

  pub openings-show_switch :
      (r : Readings e time) (s : DoorState e time) → openings (show_switch e time r s) ≡ openings s
  unfolding show_switch relay_pulses
  openings-show_switch r s = relay_pulses-append s.effects _ ∙ ground arith

  pub openings-enter_key :
      (key : ℕ) (s : DoorState e time) → openings (enter_key e time key s) ≡ openings s
  unfolding enter_key relay_pulses
  openings-enter_key key s = relay_pulses-append s.effects _ ∙ ground arith

  pub openings-open_door :
      (s : DoorState e time) → openings (emit e time open_door s) ≡ openings s + 1
  unfolding emit open_door relay_pulses
  openings-open_door s = relay_pulses-append s.effects _
