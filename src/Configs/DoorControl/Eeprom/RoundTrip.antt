-- ===== src/Configs/DoorControl/Eeprom/RoundTrip.antt =====
-- What `setPosition` of an EEPROM dial port writes, `getState` reads.
use opdi_core.Base.{
  ℕ, ◌+◌, ◌-◌, ◌/◌, ◌%◌, ◌^◌, ◌≡◌, ap, ◌∙◌, List, [], ◌∷◌, ℤ, pos, negsuc, length, true, ◌≤ℤ◌,
  to_signed, arith, subst, ◌++◌, ◌&&◌, ◌==◌, if◌then◌else◌,
}
use opdi_core.Configs.DoorControl.Eeprom.{
  Eeprom, Stores, EepromDialPort, clamp, store_loop, load_loop, write_checksum, checksum_matches,
  set_position, get_state,
}
use opdi_core.Configs.DoorControl.Eeprom.Bytes.{
  low_bytes, sum, pattern_of, length-low_bytes, Holds, Holds-write, load_loop_lem, store_loop-Holds,
  store_loop-sum, read-write_self, read-write_other,
}

-- An int64_t.
abbrev pub IsInt64 : ℤ → Type 0
IsInt64 v = (negsuc (2 ^ 63 - 1) ≤ℤ v) × (v ≤ℤ pos (2 ^ 63 - 1))

pattern-low_bytes : (v : ℤ) → IsInt64 v → to_signed 64 (pattern_of (low_bytes 8 v) 0 0) ≡ v
unfolding pattern_of low_bytes to_signed
pattern-low_bytes (pos n) h = ground arith
pattern-low_bytes (negsuc n) h = ground arith

checksum_agrees : (c : ℕ) → (c % 256 == c % 256 && c / 256 % 256 == c / 256 % 256) ≡ true
checksum_agrees c = ground arith

clamp-clamp : (p : EepromDialPort) (v : ℤ) → clamp p (clamp p v) ≡ clamp p v
unfolding clamp
clamp-clamp p v = ground arith

clamp-IsInt64 :
    (p : EepromDialPort) (v : ℤ) → IsInt64 p.min → IsInt64 p.max → IsInt64 v → IsInt64 (clamp p v)
unfolding clamp
clamp-IsInt64 p v hmin hmax hv = ground arith

-- The ten bytes of a position.
abbrev pub ten_bytes : ℤ → List ℕ
ten_bytes v = low_bytes 8 v ++ (sum (low_bytes 8 v) % 256) ∷ (sum (low_bytes 8 v) / 256 % 256) ∷ []

module _ (e : Eeprom) (laws : Stores e) where
  Holds-append :
      (m : e.Memory) (a : ℕ) (xs ys : List ℕ)
      → Holds e laws m a (xs ++ ys)
      → Holds e laws m a xs × Holds e laws m (a + length xs) ys
  Holds-append m a [] ys h = (tt, subst (λ (b : ℕ). Holds e laws m b ys) (omega arith) h)
  Holds-append m a (x ∷ xs) ys h =
      let rest = Holds-append m (a + 1) xs ys h.1 in
      ((h.0, rest.0), subst (λ (b : ℕ). Holds e laws m b ys) (omega arith) rest.1)

  Holds-join :
      (m : e.Memory) (a : ℕ) (xs ys : List ℕ)
      → Holds e laws m a xs
      → Holds e laws m (a + length xs) ys
      → Holds e laws m a (xs ++ ys)
  Holds-join m a [] ys h k = subst (λ (b : ℕ). Holds e laws m b ys) (omega arith) k
  Holds-join m a (x ∷ xs) ys h k =
      (h.0, Holds-join m (a + 1) xs ys h.1 (subst (λ (b : ℕ). Holds e laws m b ys) (omega arith) k))

  -- What `getState` makes of ten bytes.
  pub get_state_lem :
      (p : EepromDialPort) (m : e.Memory) (bs : List ℕ) (c0 c1 : ℕ)
      → length bs ≡ 8
      → Holds e laws m p.address (bs ++ c0 ∷ c1 ∷ [])
      → get_state e p m
        ≡ clamp p (
            if c0 == sum bs % 256 && c1 == sum bs / 256 % 256
            then to_signed 64 (pattern_of bs 0 0)
            else pos 0)
  unfolding get_state checksum_matches
  get_state_lem p m bs c0 c1 len h =
      let split = Holds-append m p.address bs (c0 ∷ c1 ∷ []) h in
      let loop : load_loop e m p.address 8 0 0 0 ≡ (pattern_of bs 0 0, sum bs) =
        subst (λ (n : ℕ). load_loop e m p.address n 0 0 0 ≡ (pattern_of bs 0 0, sum bs)) len
          (load_loop_lem e laws m p.address bs 0 0 0 split.0 ∙ ground arith) in
      let first : e.read m (p.address + 8) ≡ c0 =
        subst (λ (n : ℕ). e.read m (p.address + n) ≡ c0) len split.1.0 in
      let second : e.read m (p.address + 9) ≡ c1 =
        subst (λ (n : ℕ). e.read m n ≡ c1) (omega arith) split.1.1.0 in
      rw (loop, first, second)

  checksum_first : (m : e.Memory) (a c : ℕ) → e.read (write_checksum e m a c) (a + 8) ≡ c % 256
  unfolding write_checksum
  checksum_first m a c =
      read-write_other e laws (e.write m (a + 8) (c % 256)) (a + 9) (c / 256 % 256) (a + 8)
        (omega arith) (λ q. absurd (omega arith))
      ∙ read-write_self e laws m (a + 8) (c % 256) (omega arith)

  checksum_second :
      (m : e.Memory) (a c : ℕ) → e.read (write_checksum e m a c) (a + 8 + 1) ≡ c / 256 % 256
  unfolding write_checksum
  checksum_second m a c =
      subst
        (λ (b : ℕ).
          e.read (e.write (e.write m (a + 8) (c % 256)) (a + 9) (c / 256 % 256)) b ≡ c / 256 % 256)
        (omega arith)
        (read-write_self e laws (e.write m (a + 8) (c % 256)) (a + 9) (c / 256 % 256) (omega arith))

  pub set_position-Holds :
      (p : EepromDialPort) (v : ℤ) (m : e.Memory)
      → Holds e laws (set_position e p v m).1 p.address (ten_bytes (clamp p v))
  unfolding set_position write_checksum
  set_position-Holds p v m =
      let c = sum (low_bytes 8 (clamp p v)) in
      let m1 = (store_loop e m p.address 8 (clamp p v) 0).0 in
      let total : (store_loop e m p.address 8 (clamp p v) 0).1 ≡ c =
        omega (arith, store_loop-sum e laws m p.address 8 (clamp p v) 0) in
      rw total (
        Holds-join (write_checksum e m1 p.address c) p.address (low_bytes 8 (clamp p v))
          (c % 256 ∷ (c / 256 % 256) ∷ [])
          (Holds-write e laws (e.write m1 (p.address + 8) (c % 256)) p.address
            (low_bytes 8 (clamp p v)) (p.address + 9) (c / 256 % 256) (omega arith)
            (omega (arith, length-low_bytes 8 (clamp p v)))
            (Holds-write e laws m1 p.address (low_bytes 8 (clamp p v)) (p.address + 8) (c % 256)
              (omega arith) (omega (arith, length-low_bytes 8 (clamp p v)))
              (store_loop-Holds e laws m p.address 8 (clamp p v) 0)))
          (rw (length-low_bytes 8 (clamp p v))
            (checksum_first m1 p.address c, (checksum_second m1 p.address c, tt))))

  -- After `setPosition`, `getState` gives the position back, moved to the nearer end of the dial if
  -- it lies outside. The EEPROM keeps what is written at an address; the position and the ends are
  -- of the type int64_t.
  pub get_state-set_position :
      (p : EepromDialPort) (v : ℤ) (m : e.Memory)
      → IsInt64 p.min
      → IsInt64 p.max
      → IsInt64 v
      → get_state e p (set_position e p v m).1 ≡ clamp p v
  get_state-set_position p v m hmin hmax hv =
      let c = sum (low_bytes 8 (clamp p v)) in
      get_state_lem p (set_position e p v m).1 (low_bytes 8 (clamp p v)) (c % 256) (c / 256 % 256)
        (length-low_bytes 8 (clamp p v)) (set_position-Holds p v m)
      ∙ rw (checksum_agrees c) (
          ap (clamp p) (pattern-low_bytes (clamp p v) (clamp-IsInt64 p v hmin hmax hv))
          ∙ clamp-clamp p v)
