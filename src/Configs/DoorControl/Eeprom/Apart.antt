-- ===== src/Configs/DoorControl/Eeprom/Apart.antt =====
-- A position that is stored behind the ten bytes of another port leaves the other port as it is.
use opdi_core.Base.{ℕ, zero, suc, ◌+◌, ◌*◌, ◌%◌, ◌/◌, ◌^◌, ◌≤◌, ◌<◌, ◌≡◌, refl, ap, ◌∙◌, ℤ, arith}
use opdi_core.Configs.DoorControl.Eeprom.{
  Eeprom, Stores, EepromDialPort, load_loop, write_checksum, checksum_matches, set_position, clamp,
  store_loop, get_state,
}
use opdi_core.Configs.DoorControl.Eeprom.Bytes.{store_loop_keeps, read-write_other}

module _ (e : Eeprom) where
  load_loop-agree :
      (m m' : e.Memory) (a n i value checksum : ℕ)
      → ((b : ℕ) → b < a + n → e.read m b ≡ e.read m' b)
      → load_loop e m a n i value checksum ≡ load_loop e m' a n i value checksum
  unfolding load_loop
  load_loop-agree m m' a zero i value checksum h = refl
  load_loop-agree m m' a (suc n) i value checksum h =
      load_loop-agree m m' (a + 1) n (i + 1) ((value + e.read m a * 256 ^ i) % 2 ^ 64)
        (checksum + e.read m a) (λ b lt. h b (omega arith))
      ∙ ap
          (λ (t : ℕ).
            load_loop e m' (a + 1) n (i + 1) ((value + t * 256 ^ i) % 2 ^ 64) (checksum + t))
          (h a (omega arith))

  get_state-agree :
      (p : EepromDialPort) (m m' : e.Memory)
      → ((b : ℕ) → b < p.address + 10 → e.read m b ≡ e.read m' b)
      → get_state e p m ≡ get_state e p m'
  unfolding get_state checksum_matches
  get_state-agree p m m' h = rw (
    load_loop-agree m m' p.address 8 0 0 0 (λ b lt. h b (omega arith)),
    h (p.address + 8) (omega arith),
    h (p.address + 9) (omega arith),
  )

module _ (e : Eeprom) (laws : Stores e) where
  set_position_keeps :
      (p : EepromDialPort) (v : ℤ) (m : e.Memory) (b : ℕ)
      → b < p.address
      → e.read (set_position e p v m).1 b ≡ e.read m b
  unfolding set_position write_checksum
  set_position_keeps p v m b h =
      let (m', c) = store_loop e m p.address 8 (clamp p v) 0 in
      read-write_other e laws (e.write m' (p.address + 8) (c % 256)) (p.address + 9) (c / 256 % 256)
        b (omega arith) (λ q. absurd (omega arith))
      ∙ read-write_other e laws m' (p.address + 8) (c % 256) b (omega arith)
          (λ q. absurd (omega arith))
      ∙ store_loop_keeps e laws m p.address 8 (clamp p v) 0 b h

  pub get_state-set_position_other :
      (p q : EepromDialPort) (v : ℤ) (m : e.Memory)
      → q.address + 10 ≤ p.address
      → get_state e q (set_position e p v m).1 ≡ get_state e q m
  get_state-set_position_other p q v m far =
      get_state-agree e q (set_position e p v m).1 m
        (λ b lt. set_position_keeps p v m b (omega arith))
