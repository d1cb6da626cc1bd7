-- ===== src/Configs/DoorControl/Eeprom.antt =====
-- `OPDI_EEPROMDialPort` of DoorControl.ino: a dial port that keeps its position in ten bytes of the
-- EEPROM, eight of the value with the lowest first, and two of their sum. An `int` has 16 bits, which
-- the sum of eight bytes does not leave.
mod Bytes
pub mod RoundTrip
mod Checksum
pub mod Apart
pub mod Corruption
use opdi_core.Base.{
  ℕ, zero, suc, ◌+◌, ◌-◌, ◌*◌, ◌/◌, ◌%◌, ◌^◌, ◌<◌, ◌≡◌, Bool, ◌&&◌, ◌==◌, if◌then◌else◌, ℤ, pos,
  negsuc, ltb_ℤ, to_signed,
}
use opdi_core.Constants.{status_ok}

-- The EEPROM library: bytes by address.
pub record Eeprom : Type 1 where
  pub Memory : Type 0
  pub read : Memory → ℕ → ℕ
  pub write : Memory → ℕ → ℕ → Memory

-- A byte stays at its address until another one is written there.
pub record Stores (e : Eeprom) : Type 0 where
  pub read-lt : (m : e.Memory) (a : ℕ) → e.read m a < 256
  pub read-write :
      (m : e.Memory) (a v b : ℕ)
      → v < 256
      → e.read (e.write m a v) b ≡ (if a == b then v else e.read m b)

-- The address of the port, and the ends of the dial.
pub record EepromDialPort : Type 0 where
  pub address : ℕ
  pub min : ℤ
  pub max : ℤ

-- `value & 0xff`.
abbrev pub low_byte : ℤ → ℕ
low_byte (pos n) = n % 256
low_byte (negsuc n) = 255 - n % 256

-- `value >>= 8`.
abbrev pub shift_byte : ℤ → ℤ
shift_byte (pos n) = pos (n / 256)
shift_byte (negsuc n) = negsuc (n / 256)

-- `if (value > max) value = max; if (value < min) value = min;`
unfoldable pub clamp : EepromDialPort → ℤ → ℤ
clamp p value =
    let top = if ltb_ℤ p.max value then p.max else value in if ltb_ℤ top p.min then p.min else top

module _ (e : Eeprom) where
  -- The loop of `setPosition` with the rounds that are left: the memory and the checksum.
  unfoldable pub store_loop : e.Memory → ℕ → ℕ → ℤ → ℕ → e.Memory × ℕ
  store_loop m a zero value checksum = (m, checksum)
  store_loop m a (suc n) value checksum =
      let val = low_byte value in
      store_loop (e.write m a val) (a + 1) n (shift_byte value) (checksum + val)

  -- The checksum behind the value.
  unfoldable pub write_checksum : e.Memory → ℕ → ℕ → e.Memory
  write_checksum m a checksum =
      e.write (e.write m (a + 8) (checksum % 256)) (a + 9) (checksum / 256 % 256)

  -- `setPosition`.
  unfoldable pub set_position : EepromDialPort → ℤ → e.Memory → ℕ × e.Memory
  set_position p position m =
      let (m', checksum) = store_loop m p.address 8 (clamp p position) 0 in
      (status_ok, write_checksum m' p.address checksum)

  -- The loop of `getState`: the bit pattern of the value, and the checksum.
  unfoldable pub load_loop : e.Memory → ℕ → ℕ → ℕ → ℕ → ℕ → ℕ × ℕ
  load_loop m a zero i value checksum = (value, checksum)
  load_loop m a (suc n) i value checksum =
      let val = e.read m a in
      load_loop m (a + 1) n (i + 1) ((value + val * 256 ^ i) % 2 ^ 64) (checksum + val)

  -- Whether the two bytes behind the value are those of the checksum.
  unfoldable pub checksum_matches : e.Memory → ℕ → ℕ → Bool
  checksum_matches m a checksum =
      e.read m (a + 8) == checksum % 256 && e.read m (a + 9) == checksum / 256 % 256

  -- `getState`: the position; the status is OPDI_STATUS_OK.
  unfoldable pub get_state : EepromDialPort → e.Memory → ℤ
  get_state p m =
      let (value, checksum) = load_loop m p.address 8 0 0 0 in
      clamp p (if checksum_matches m p.address checksum then to_signed 64 value else pos 0)
