-- ===== src/Configs/DoorControl/Eeprom/Bytes.antt =====
-- The bytes of a position in the EEPROM, and the loops that write and read them.
use opdi_core.Base.{
  ℕ, zero, suc, ◌+◌, ◌*◌, ◌%◌, ◌^◌, ◌≤◌, ◌<◌, ◌≡◌, ◌≢◌, refl, ap, ◌∙◌, List, [], ◌∷◌, ℤ, pos,
  negsuc, length, arith,
}
use opdi_core.Configs.DoorControl.Eeprom.{
  Eeprom, Stores, low_byte, shift_byte, store_loop, load_loop,
}

-- The lowest bytes of a value.
unfoldable pub low_bytes : ℕ → ℤ → List ℕ
low_bytes zero value = []
low_bytes (suc n) value = low_byte value ∷ low_bytes n (shift_byte value)

unfoldable pub sum : List ℕ → ℕ
sum [] = 0
sum (b ∷ bs) = b + sum bs

-- The value of the bytes from place `i` on, as a bit pattern.
unfoldable pub pattern_of : List ℕ → ℕ → ℕ → ℕ
pattern_of [] i value = value
pattern_of (b ∷ bs) i value = pattern_of bs (i + 1) ((value + b * 256 ^ i) % 2 ^ 64)

pub low_byte-lt : (value : ℤ) → low_byte value < 256
low_byte-lt (pos n) = omega arith
low_byte-lt (negsuc n) = omega arith

pub length-low_bytes : (n : ℕ) (value : ℤ) → length (low_bytes n value) ≡ n
unfolding low_bytes
length-low_bytes zero value = refl
length-low_bytes (suc n) value = ap suc (length-low_bytes n (shift_byte value))

module _ (e : Eeprom) (laws : Stores e) where
  -- The bytes stand at an address and behind it.
  abbrev pub Holds : e.Memory → ℕ → List ℕ → Type 0
  Holds m a [] = Unit
  Holds m a (b ∷ bs) = (e.read m a ≡ b) × Holds m (a + 1) bs

  pub read-write_self : (m : e.Memory) (a v : ℕ) → v < 256 → e.read (e.write m a v) a ≡ v
  read-write_self m a v h = ground (arith, laws.read-write m a v a)

  pub read-write_other :
      (m : e.Memory) (a v b : ℕ) → v < 256 → a ≢ b → e.read (e.write m a v) b ≡ e.read m b
  read-write_other m a v b h ne = ground (arith, laws.read-write m a v b)

  pub Holds-write :
      (m : e.Memory) (a : ℕ) (bs : List ℕ) (b v : ℕ)
      → v < 256
      → a + length bs ≤ b
      → Holds m a bs
      → Holds (e.write m b v) a bs
  Holds-write m a [] b v hv far h = tt
  Holds-write m a (x ∷ bs) b v hv far h = (
    read-write_other m b v a hv (λ q. absurd (omega arith)) ∙ h.0,
    Holds-write m (a + 1) bs b v hv (omega arith) h.1,
  )

  -- The loop of `getState` sees only the bytes.
  pub load_loop_lem :
      (m : e.Memory) (a : ℕ) (bs : List ℕ) (i value checksum : ℕ)
      → Holds m a bs
      → load_loop e m a (length bs) i value checksum ≡ (pattern_of bs i value, checksum + sum bs)
  unfolding load_loop pattern_of sum
  load_loop_lem m a [] i value checksum h = ground arith
  load_loop_lem m a (b ∷ bs) i value checksum h =
      ap
        (λ (t : ℕ).
          load_loop e m (a + 1) (length bs) (i + 1) ((value + t * 256 ^ i) % 2 ^ 64) (checksum + t))
        h.0
      ∙ load_loop_lem m (a + 1) bs (i + 1) ((value + b * 256 ^ i) % 2 ^ 64) (checksum + b) h.1
      ∙ ground arith

  pub store_loop_keeps :
      (m : e.Memory) (a n : ℕ) (value : ℤ) (checksum b : ℕ)
      → b < a
      → e.read (store_loop e m a n value checksum).0 b ≡ e.read m b
  unfolding store_loop
  store_loop_keeps m a zero value checksum b h = refl
  store_loop_keeps m a (suc n) value checksum b h =
      store_loop_keeps (e.write m a (low_byte value)) (a + 1) n (shift_byte value)
        (checksum + low_byte value) b (omega arith)
      ∙ read-write_other m a (low_byte value) b (low_byte-lt value) (λ q. absurd (omega arith))

  -- The loop of `setPosition` leaves the bytes, and adds them up.
  pub store_loop-Holds :
      (m : e.Memory) (a n : ℕ) (value : ℤ) (checksum : ℕ)
      → Holds (store_loop e m a n value checksum).0 a (low_bytes n value)
  unfolding store_loop low_bytes
  store_loop-Holds m a zero value checksum = tt
  store_loop-Holds m a (suc n) value checksum = (
    store_loop_keeps (e.write m a (low_byte value)) (a + 1) n (shift_byte value)
          (checksum + low_byte value) a (omega arith)
        ∙ read-write_self m a (low_byte value) (low_byte-lt value),
    store_loop-Holds (e.write m a (low_byte value)) (a + 1) n (shift_byte value)
        (checksum + low_byte value),
  )

  pub store_loop-sum :
      (m : e.Memory) (a n : ℕ) (value : ℤ) (checksum : ℕ)
      → (store_loop e m a n value checksum).1 ≡ checksum + sum (low_bytes n value)
  unfolding store_loop low_bytes sum
  store_loop-sum m a zero value checksum = omega arith
  store_loop-sum m a (suc n) value checksum = omega (
    arith,
    store_loop-sum (e.write m a (low_byte value)) (a + 1) n (shift_byte value)
        (checksum + low_byte value),
  )
