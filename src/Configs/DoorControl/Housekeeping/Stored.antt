-- ===== src/Configs/DoorControl/Housekeeping/Stored.antt =====
-- A call of `doWork` leaves the stored code.
use opdi_core.Base.{◌≡◌, inl, inr, refl, ap, ◌∙◌, ◌==◌, Option, none, some, pos, arith, Bool-cases}
use opdi_core.Configs.DoorControl.Eeprom.{Eeprom, Stores, get_state}
use opdi_core.Configs.DoorControl.Eeprom.Apart.{get_state-set_position_other}
use opdi_core.Configs.DoorControl.Housekeeping.{
  TimeLibrary, DoorState, Readings, code_port, last_access_port, special_doorcode, no_key,
  refresh_clock, watch_door, enter_key, store_access, check_code, check_special, check_keypad,
  do_work,
}
use opdi_core.Configs.DoorControl.Housekeeping.Steps.{code_test, Same-watch_door, Same-show_switch}

module _ (e : Eeprom) (time : TimeLibrary) (laws : Stores e) where
  code-store_access :
      (clock : Option time.Time) (m : e.Memory)
      → get_state e code_port (store_access e time clock m) ≡ get_state e code_port m
  unfolding store_access
  code-store_access none m = refl
  code-store_access (some t) m =
      get_state-set_position_other e laws last_access_port code_port (pos (time.make_time t)) m
        (omega arith)

  code-check_code :
      (r : Readings e time) (t : DoorState e time)
      → get_state e code_port (check_code e time r t).memory ≡ get_state e code_port t.memory
  unfolding check_code
  code-check_code r t = elim (Bool-cases (code_test e time r t)) [
    | inl accepted ↦ rw accepted (code-store_access r.clock_later t.memory)
    | inr refused ↦ rw refused refl
  ]

  memory-check_special : (t : DoorState e time) → (check_special e time t).memory ≡ t.memory
  unfolding check_special
  memory-check_special t = elim (Bool-cases (t.entered_value == special_doorcode)) [
    | inl h ↦ rw h refl
    | inr h ↦ rw h refl
  ]

  code-check_keypad :
      (r : Readings e time) (s : DoorState e time)
      → get_state e code_port (check_keypad e time r s).memory ≡ get_state e code_port s.memory
  unfolding check_keypad enter_key
  code-check_keypad r s = elim (Bool-cases (r.key == no_key)) [
    | inl h ↦ rw h refl
    | inr h ↦ rw h (
        ap (get_state e code_port)
          (memory-check_special (check_code e time r (enter_key e time r.key s)))
        ∙ code-check_code r (enter_key e time r.key s))
  ]

  -- The time of the last access is stored apart from the code.
  pub code-do_work :
      (r : Readings e time) (s : DoorState e time)
      → get_state e code_port (do_work e time r s).memory ≡ get_state e code_port s.memory
  unfolding do_work
  code-do_work r s =
      let t = watch_door e time r (refresh_clock e time r s) in
      ap (get_state e code_port) (Same-show_switch e time r (check_keypad e time r t)).1
      ∙ code-check_keypad r t
      ∙ ap (get_state e code_port) (Same-watch_door e time r s).1
