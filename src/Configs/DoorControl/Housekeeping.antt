-- ===== src/Configs/DoorControl/Housekeeping.antt =====
-- The door port, the keypad and `doWork` of DoorControl.ino. What the code does to the pins, and the
-- refresh messages that it asks for, are a list of effects; what it reads from outside in one call of
-- `doWork` is a record of readings.
pub mod Pulses
mod Steps
pub mod Access
pub mod Stored
pub mod Keys
pub mod Code
use opdi_core.Base.{
  ℕ, zero, suc, ◌+◌, ◌-◌, ◌*◌, ◌%◌, ◌^◌, Bool, true, false, not, ◌&&◌, ◌||◌, ◌==◌, ltb, leb,
  if◌then◌else◌, List, [], ◌∷◌, ◌++◌, Option, none, some, ℤ, pos, ltb_ℤ, eq_ℤ,
}
use opdi_core.Constants.{status_ok, disconnected}
use opdi_core.Configs.DoorControl.Eeprom.{Eeprom, EepromDialPort, set_position, get_state}

abbrev pub status_led : ℕ
status_led = 6

abbrev pub switch : ℕ
switch = 7

abbrev pub relay : ℕ
relay = 8

-- From DoorControl_secrets.h.
abbrev pub special_doorcode : ℕ
special_doorcode = 12345

abbrev pub low : ℕ
low = 0

abbrev pub high : ℕ
high = 1

abbrev pub input : ℕ
input = 0

abbrev pub output : ℕ
output = 1

-- The keypad library's NO_KEY.
abbrev pub no_key : ℕ
no_key = 0

pub data Effect : Type 0 where
  pin_mode digital_write : ℕ → ℕ → Effect
  delay : ℕ → Effect
  refresh_time refresh_door : Effect

-- The libraries for the time: the hour of a reading of the clock, and its seconds.
pub record TimeLibrary : Type 1 where
  pub Time : Type 0
  pub hour : Time → ℕ
  pub make_time : Time → ℕ

abbrev pub code_port : EepromDialPort
code_port = record { address = 0; min = pos 0; max = pos 99999 }

abbrev pub last_access_port : EepromDialPort
last_access_port = record { address = 50; min = pos 0; max = pos 999999999999 }

-- `OPDI_DigitalPortDoor::setLine`; the status is OPDI_STATUS_OK.
unfoldable pub door_set_line : ℕ → List Effect
door_set_line line =
    if line == 1
    then pin_mode relay output ∷ digital_write relay low ∷ delay 2000 ∷ pin_mode relay input ∷ []
    else []

-- `OPDI_DigitalPortDoor::getState`: mode and line, from the level of the switch.
unfoldable pub door_get_state : ℕ → ℕ × ℕ
door_get_state level = (3, (if level == 0 then 1 else 0))

-- The loop that shows an error code on the LED, with the length of a flash.
unfoldable pub flash : ℕ → ℕ → List Effect
flash time zero = []
flash time (suc n) =
    digital_write status_led high
    ∷ delay time
    ∷ digital_write status_led low
    ∷ delay time
    ∷ flash time n

-- `checkerror`.
unfoldable pub check_error : ℕ → List Effect × ℕ
unfolding flash
check_error result = if result == status_ok then ([], 1) else (
  digital_write status_led low
      ∷ delay 500
      ∷ (flash 200 result ++ digital_write status_led low ∷ []),
  0,
)

-- `loop`, behind `doWork`: a connection, if there are characters on the serial port. The status is
-- that of `OPDI::start`.
unfoldable pub connect : Bool → ℕ → List Effect
unfolding flash
connect false result = []
connect true result =
    let failure =
      if result == disconnected
      then []
      else digital_write status_led low ∷ delay 500 ∷ flash 100 result in
    digital_write status_led high ∷ (failure ++ digital_write status_led low ∷ [])

-- `openDoor`.
unfoldable pub open_door : List Effect
unfolding door_set_line
open_door = digital_write status_led high ∷ (door_set_line 1 ++ digital_write status_led low ∷ [])

-- A digit is put behind the value, as a uint32_t; any other key resets it.
unfoldable pub next_value : ℕ → ℕ → ℕ
next_value value key =
    if leb b'0' key && leb key b'9' then (value * 10 % 2 ^ 32 + (key - b'0')) % 2 ^ 32 else 0

module _ (e : Eeprom) (time : TimeLibrary) where
  -- The global variables, the EEPROM, and all effects so far.
  pub record DoorState : Type 0 where
    pub entered_value : ℕ
    pub time_refresh_counter : ℕ
    pub last_door_state : ℕ
    pub memory : e.Memory
    pub effects : List Effect

  -- What one call of `doWork` reads. What is read twice may change in between.
  pub record Readings : Type 0 where
    pub millis : ℕ
    pub millis_later : ℕ
    pub connected : Bool
    pub connected_later : Bool
    pub door_switch : ℕ
    pub door_switch_later : ℕ
    pub key : ℕ
    pub clock : Option time.Time
    pub clock_later : Option time.Time

  unfoldable pub emit : List Effect → DoorState → DoorState
  emit es s = record s { effects = s.effects ++ es }

  -- Every three seconds the clock port is refreshed; an `unsigned long` has 32 bits.
  unfoldable pub refresh_clock : Readings → DoorState → DoorState
  unfolding emit
  refresh_clock r s =
      if ltb 3000 ((r.millis + 2 ^ 32 - s.time_refresh_counter) % 2 ^ 32)
      then record (if r.connected then emit (refresh_time ∷ []) s else s) {
        time_refresh_counter = r.millis_later;
      }
      else s

  -- The door port is refreshed if the state of its switch has changed.
  unfoldable pub watch_door : Readings → DoorState → DoorState
  unfolding emit
  watch_door r s =
      record (if not (r.door_switch == s.last_door_state) && r.connected_later
        then emit (refresh_door ∷ []) s
        else s) { last_door_state = r.door_switch }

  unfoldable pub enter_key : ℕ → DoorState → DoorState
  unfolding emit next_value
  enter_key key s =
      record (emit
        (digital_write status_led high ∷ delay 100 ∷ digital_write status_led low ∷ delay 100 ∷ [])
        s) { entered_value = next_value s.entered_value key }

  -- The clock does not work, or it is between 8:00 and 18:00.
  unfoldable pub in_daytime : Option time.Time → Bool
  in_daytime none = true
  in_daytime (some t) = leb 8 (time.hour t) && ltb (time.hour t) 18

  -- The time of the access is stored if the clock can be read.
  unfoldable pub store_access : Option time.Time → e.Memory → e.Memory
  store_access none m = m
  store_access (some t) m = (set_position e last_access_port (pos (time.make_time t)) m).1

  unfoldable pub check_code : Readings → DoorState → DoorState
  unfolding emit store_access open_door in_daytime
  check_code r s =
      let code_value = get_state e code_port s.memory in
      if in_daytime r.clock && (ltb_ℤ (pos 0) code_value && eq_ℤ (pos s.entered_value) code_value)
      then record (emit open_door s) {
        entered_value = 0;
        memory = store_access r.clock_later s.memory;
      }
      else s

  unfoldable pub check_special : DoorState → DoorState
  unfolding emit open_door
  check_special s =
      if s.entered_value == special_doorcode
      then record (emit open_door s) { entered_value = 0 }
      else s

  unfoldable pub check_keypad : Readings → DoorState → DoorState
  unfolding enter_key check_code check_special
  check_keypad r s = if r.key == no_key then s else check_special (check_code r (enter_key r.key s))

  -- The LED shows that the door is closed.
  unfoldable pub show_switch : Readings → DoorState → DoorState
  unfolding emit
  show_switch r s =
      emit (digital_write status_led (if r.door_switch_later == 0 then high else low) ∷ []) s

  -- `doWork`; the status is OPDI_STATUS_OK.
  unfoldable pub do_work : Readings → DoorState → DoorState
  do_work r s = show_switch r (check_keypad r (watch_door r (refresh_clock r s)))

  -- A sequence of calls.
  unfoldable pub run : List Readings → DoorState → DoorState
  run [] s = s
  run (r ∷ rs) s = run rs (do_work r s)
