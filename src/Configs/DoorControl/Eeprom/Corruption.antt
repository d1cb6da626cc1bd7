-- ===== src/Configs/DoorControl/Eeprom/Corruption.antt =====
-- One byte of the ten that changes in the EEPROM is noticed by `getState`.
use opdi_core.Base.{
  ℕ, zero, suc, ◌+◌, ◌/◌, ◌%◌, ◌<◌, ◌≡◌, ◌≢◌, refl, ◌∙◌, List, [], ◌∷◌, ◌++◌, ◌&&◌, ◌==◌, ℤ, pos,
  length, subst, sym, set, get_or, false, arith,
}
use opdi_core.Configs.DoorControl.Eeprom.{
  Eeprom, Stores, EepromDialPort, clamp, set_position, get_state,
}
use opdi_core.Configs.DoorControl.Eeprom.Bytes.{
  low_bytes, sum, length-low_bytes, Holds, read-write_self, read-write_other,
}
use opdi_core.Configs.DoorControl.Eeprom.Checksum.{
  Disagrees, changed, length-ten_bytes, low_bytes-lt,
}
use opdi_core.Configs.DoorControl.Eeprom.RoundTrip.{ten_bytes, get_state_lem, set_position-Holds}

module _ (e : Eeprom) (laws : Stores e) where
  Holds-write_below :
      (m : e.Memory) (a : ℕ) (bs : List ℕ) (b v : ℕ)
      → v < 256
      → b < a
      → Holds e laws m a bs
      → Holds e laws (e.write m b v) a bs
  Holds-write_below m a [] b v hv below h = tt
  Holds-write_below m a (x ∷ bs) b v hv below h = (
    read-write_other e laws m b v a hv (λ q. absurd (omega arith)) ∙ h.0,
    Holds-write_below m (a + 1) bs b v hv (omega arith) h.1,
  )

  Holds-get_or :
      (m : e.Memory) (a : ℕ) (bs : List ℕ) (k : ℕ)
      → k < length bs
      → Holds e laws m a bs
      → e.read m (a + k) ≡ get_or bs k 0
  Holds-get_or m a [] k hk h = absurd (omega arith)
  Holds-get_or m a (b ∷ bs) zero hk h = subst (λ (i : ℕ). e.read m i ≡ b) (omega arith) h.0
  Holds-get_or m a (b ∷ bs) (suc k) hk h =
      subst (λ (i : ℕ). e.read m i ≡ get_or bs k 0) (omega arith)
        (Holds-get_or m (a + 1) bs k (omega arith) h.1)

  Holds-set :
      (m : e.Memory) (a : ℕ) (bs : List ℕ) (k b v : ℕ)
      → v < 256
      → k < length bs
      → b ≡ a + k
      → Holds e laws m a bs
      → Holds e laws (e.write m b v) a (set bs k v)
  Holds-set m a [] k b v hv hk at h = absurd (omega arith)
  Holds-set m a (x ∷ bs) zero b v hv hk at h = (
    subst (λ (i : ℕ). e.read (e.write m b v) i ≡ v) (omega arith) (read-write_self e laws m b v hv),
    Holds-write_below m (a + 1) bs b v hv (omega arith) h.1,
  )
  Holds-set m a (x ∷ bs) (suc k) b v hv hk at h = (
    read-write_other e laws m b v a hv (λ q. absurd (omega arith)) ∙ h.0,
    Holds-set m (a + 1) bs k b v hv (omega arith) (omega arith) h.1,
  )

  -- What `getState` gives when the sum of the first eight bytes and the last two do not agree.
  get_state_mismatch :
      (p : EepromDialPort) (m : e.Memory) (bs : List ℕ) (c0 c1 : ℕ)
      → length bs ≡ 8
      → Holds e laws m p.address (bs ++ c0 ∷ c1 ∷ [])
      → (c0 == sum bs % 256 && c1 == sum bs / 256 % 256) ≡ false
      → get_state e p m ≡ clamp p (pos 0)
  get_state_mismatch p m bs c0 c1 len h no_match =
      get_state_lem e laws p m bs c0 c1 len h ∙ rw no_match

  changed_cell :
      (p : EepromDialPort) (position : ℤ) (m : e.Memory) (k v : ℕ)
      → v < 256
      → k < length (ten_bytes (clamp p position))
      → Disagrees (set (ten_bytes (clamp p position)) k v)
      → get_state e p (e.write (set_position e p position m).1 (p.address + k) v) ≡ clamp p (pos 0)
  changed_cell p position m k v hv hk (bs, c0, c1, eq, len, no_match) =
      let m' = e.write (set_position e p position m).1 (p.address + k) v in
      get_state_mismatch p m' bs c0 c1 len
        (subst (λ (cs : List ℕ). Holds e laws m' p.address cs) eq
          (Holds-set (set_position e p position m).1 p.address (ten_bytes (clamp p position)) k
            (p.address + k) v hv hk refl (set_position-Holds e laws p position m)))
        no_match

  -- A byte of a stored position that changes is noticed: if one of the ten bytes that setPosition has
  -- written becomes another byte, getState gives the default position 0, moved to the nearer end of
  -- the dial if it lies outside. The EEPROM keeps what is written at an address.
  pub get_state-changed_byte :
      (p : EepromDialPort) (position : ℤ) (m : e.Memory) (k v : ℕ)
      → v < 256
      → k < 10
      → v ≢ e.read (set_position e p position m).1 (p.address + k)
      → get_state e p (e.write (set_position e p position m).1 (p.address + k) v) ≡ clamp p (pos 0)
  get_state-changed_byte p position m k v hv hk ne =
      let value = clamp p position in
      let stored = (set_position e p position m).1 in
      let here : k < length (ten_bytes value) = omega (arith, length-ten_bytes value) in
      let old =
        Holds-get_or stored p.address (ten_bytes value) k here
          (set_position-Holds e laws p position m) in
      changed_cell p position m k v hv here (
        changed (low_bytes 8 value) (length-low_bytes 8 value) (low_bytes-lt 8 value) k v hv hk
          (λ q. ne (q ∙ sym old)))
