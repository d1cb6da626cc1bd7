-- ===== src/Configs/DoorControl/Tests.antt =====
-- Runs of the door control at concrete inputs.
use opdi_core.Base.{
  ℕ, ◌+◌, ◌/◌, ◌%◌, ◌≡◌, ◌≢◌, refl, ap, sym, ◌∙◌, false, ◌==◌, if◌then◌else◌, List, [], some, pos,
  negsuc, arith, map, Bytes, codes,
}
use opdi_core.Configs.DoorControl.Eeprom.{
  Eeprom, Stores, EepromDialPort, clamp, set_position, get_state, store_loop, load_loop,
  write_checksum, checksum_matches,
}
use opdi_core.Configs.DoorControl.Eeprom.RoundTrip.{get_state-set_position}
use opdi_core.Configs.DoorControl.Eeprom.Corruption.{get_state-changed_byte}
use opdi_core.Configs.DoorControl.Housekeeping.{
  TimeLibrary, DoorState, Readings, code_port, run, do_work, refresh_clock, watch_door,
  check_keypad, show_switch, in_daytime, store_access,
}
use opdi_core.Configs.DoorControl.Housekeeping.Pulses.{relay_pulses, openings}
use opdi_core.Configs.DoorControl.Housekeeping.Access.{
  Authorised, pressed, number_from, run-Authorised,
}
use opdi_core.Configs.DoorControl.Housekeeping.Code.{AreByDay, run-code}

-- An EEPROM as a function.
abbrev eeprom : Eeprom
eeprom = record {
  Memory = ℕ → ℕ;
  read = λ m a. m a % 256;
  write = λ m a v b. if a == b then v else m b;
}

eeprom-Stores : Stores eeprom
eeprom-Stores = record { read-lt = λ m a. omega arith; read-write = λ m a v b h. ground arith }

abbrev blank : ℕ → ℕ
blank a = 255

-- A clock that counts seconds of a day.
abbrev clock : TimeLibrary
clock = record { Time = ℕ; hour = λ t. t / 3600; make_time = λ t. t }

abbrev temperature : EepromDialPort
temperature = record { address = 20; min = negsuc 49; max = pos 99 }

get_state-set_position_example :
    get_state eeprom temperature (set_position eeprom temperature (negsuc 7) blank).1
    ≡ clamp temperature (negsuc 7)
get_state-set_position_example =
    get_state-set_position eeprom eeprom-Stores temperature (negsuc 7) blank (omega arith)
      (omega arith) (omega arith)

stored_bytes : (set_position eeprom temperature (negsuc 7) blank).1 21 ≡ 255
unfolding set_position store_loop clamp write_checksum
stored_bytes = refl

third_byte_differs : 254 ≢ eeprom.read (set_position eeprom temperature (negsuc 7) blank).1 22
unfolding set_position store_loop clamp write_checksum
third_byte_differs q = absurd (omega arith)

-- The byte at address 22 loses a bit.
get_state-changed_byte_example :
    get_state eeprom temperature
      (eeprom.write (set_position eeprom temperature (negsuc 7) blank).1 22 254)
    ≡ clamp temperature (pos 0)
get_state-changed_byte_example =
    get_state-changed_byte eeprom eeprom-Stores temperature (negsuc 7) blank 2 254 (omega arith)
      (omega arith) third_byte_differs

-- A new EEPROM has no code.
blank_code : get_state eeprom code_port blank ≡ pos 0
unfolding get_state load_loop clamp checksum_matches
blank_code = refl

abbrev reading : ℕ → Readings eeprom clock
reading key = record {
  millis = 1000;
  millis_later = 1000;
  connected = false;
  connected_later = false;
  door_switch = 1;
  door_switch_later = 1;
  key = key;
  clock = some 36000;
  clock_later = some 36000;
}

abbrev idle : DoorState eeprom clock
idle = record {
  entered_value = 0;
  time_refresh_counter = 0;
  last_door_state = 255;
  memory = blank;
  effects = [];
}

abbrev type_keys : Bytes → List (Readings eeprom clock)
type_keys ks = map reading ks

special_opens : openings eeprom clock (run eeprom clock (type_keys (codes "12345")) idle) ≡ 1
unfolding run do_work refresh_clock watch_door check_keypad show_switch in_daytime store_access
    relay_pulses get_state load_loop clamp checksum_matches
special_opens = refl

-- The value wraps around: a longer number opens the door too.
longer_number_opens :
    openings eeprom clock (run eeprom clock (type_keys (codes "4294979641")) idle) ≡ 1
unfolding run do_work refresh_clock watch_door check_keypad show_switch in_daytime store_access
    relay_pulses get_state load_loop clamp checksum_matches
longer_number_opens = refl

special_changes :
    openings eeprom clock (run eeprom clock (type_keys (codes "12345")) idle)
    ≢ openings eeprom clock idle
unfolding relay_pulses
special_changes q = absurd (omega (arith, special_opens, q))

run-Authorised_example : Authorised eeprom clock (type_keys (codes "12345")) blank
run-Authorised_example =
    run-Authorised eeprom clock eeprom-Stores (type_keys (codes "12345")) idle refl special_changes

abbrev with_code : DoorState eeprom clock
with_code = record {
  entered_value = 99;
  time_refresh_counter = 0;
  last_door_state = 255;
  memory = (set_position eeprom code_port (pos 407) blank).1;
  effects = [];
}

stored_code : get_state eeprom code_port with_code.memory ≡ pos 407
unfolding clamp
stored_code =
    get_state-set_position eeprom eeprom-Stores code_port (pos 407) blank (omega arith)
      (omega arith) (omega arith)

keys_of_code : pressed eeprom clock (type_keys (codes "407")) ≡ codes "407"
unfolding pressed
keys_of_code = refl

by_day : AreByDay eeprom clock eeprom-Stores (type_keys (codes "407"))
unfolding in_daytime
by_day = (refl, (refl, (refl, tt)))

code_number : number_from 0 (codes "407") ≡ 407
unfolding number_from
code_number = refl

run-code_example :
    ((run eeprom clock (type_keys (codes "R407")) with_code).entered_value ≡ 0)
    × (openings eeprom clock (run eeprom clock (type_keys (codes "R407")) with_code)
        ≡ openings eeprom clock with_code + 1)
run-code_example =
    run-code eeprom clock eeprom-Stores (reading b'R') (type_keys (codes "407")) with_code b'4'
      (codes "07") (λ q. absurd (omega arith)) refl keys_of_code (refl, (refl, (refl, tt)))
      (omega arith) (stored_code ∙ ap pos (sym code_number)) by_day
