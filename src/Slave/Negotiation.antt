-- ===== src/Slave/Negotiation.antt =====
-- What the negotiation of the encryption in `opdi_slave_start` (code/c/common/opdi_slave_protocol.c)
-- may end with.
use opdi_core.Base.{
  ℕ, ◌≡◌, ◌⊎◌, inl, inr, Bool, true, false, ◌||◌, Bytes, List, [], ◌∷◌, length, ◌==◌, strcmp_eq,
  if◌then◌else◌, ◌≢◌, Bool-cases, strcmp_eq_sound, strcmp_eq_refl, refl, ap, sym, ◌∙◌, ℤ,
}
use opdi_core.Constants.{
  encryption_not_supported, encryption_required, flag_encryption_required,
  flag_encryption_not_allowed,
}
use opdi_core.Slave.Handshake.{Choice, negotiate, supports, has_flag, int_has_flag}

-- The method is one of the list.
abbrev pub IsOffered : List Bytes → Bytes → Type 0
IsOffered [] method = ⊥
IsOffered (e ∷ es) method = (e ≡ method) ⊎ IsOffered es method

supports_sound :
    (es : List Bytes) (method : Bytes) → supports es method ≡ true → IsOffered es method
unfolding supports
supports_sound [] method h = cc
supports_sound (e ∷ es) method h = elim (Bool-cases (strcmp_eq e method)) [
  | inl same ↦ inl (strcmp_eq_sound e method same)
  | inr other ↦ inr (supports_sound es method (sym (first other) ∙ h))
]
  where
    first : strcmp_eq e method ≡ false → supports (e ∷ es) method ≡ supports es method
    first n = ap (λ b. elim b [ true ↦ true | false ↦ supports es method ]) n

supports_complete :
    (es : List Bytes) (method : Bytes) → IsOffered es method → supports es method ≡ true
unfolding supports
supports_complete [] method h = absurd h
supports_complete (e ∷ es) method (inl same) =
    ap (λ t. elim (strcmp_eq t method) [ true ↦ true | false ↦ supports es method ]) same
    ∙ ap (λ b. elim b [ true ↦ true | false ↦ supports es method ]) (strcmp_eq_refl method)
supports_complete (e ∷ es) method (inr later) = elim (Bool-cases (strcmp_eq e method)) [
  | inl same ↦ ap (λ b. elim b [ true ↦ true | false ↦ supports es method ]) same
  | inr other ↦
      ap (λ b. elim b [ true ↦ true | false ↦ supports es method ]) other
      ∙ supports_complete es method later
]

-- What an outcome says of the two sides, each with what it demands and what it forbids. With
-- encryption, the master offers the method, the device does not forbid it unless it demands it itself,
-- a demand of the device alone is not against the master, and a demand of the master is not against a
-- device without a method. Without encryption, no side demands it, and the device forbids it or its
-- method is not offered. A refusal has the status of the side that demands, the master's first, and
-- one of the reasons against this demand.
abbrev pub IsExplained : (Bool × Bool) → (Bool × Bool) → Bool → Type 0 → Choice → Type 0
IsExplained master device none_there Offered Choice.encrypt =
    Offered
    × ((device.1 ≡ false) ⊎ ((device.0 ≡ true) × (master.0 ≡ false)))
    × ((master.1 ≡ false) ⊎ ((master.0 ≡ true) ⊎ (device.0 ≡ false)))
    × ((none_there ≡ false) ⊎ (master.0 ≡ false))
IsExplained master device none_there Offered Choice.plain =
    (master.0 ≡ false) × (device.0 ≡ false) × ((device.1 ≡ true) ⊎ (¬ Offered))
IsExplained master device none_there Offered (Choice.refuse code a b) =
    ((master.0 ≡ true)
      × (code ≡ encryption_not_supported)
      × ((device.1 ≡ true) ⊎ ((none_there ≡ true) ⊎ (¬ Offered))))
    ⊎ ((master.0 ≡ false)
        × (device.0 ≡ true)
        × (code ≡ encryption_required)
        × ((master.1 ≡ true) ⊎ (¬ Offered)))

decide :
    (m_demands m_forbids d_demands d_forbids none_there offered : Bool) (O : Type 0)
    (t1 t2 t3 t4 t5 t6 t7 t8 : Bytes)
    → (offered ≡ true → O)
    → (offered ≡ false → ¬ O)
    → IsExplained
        (m_demands, m_forbids)
        (d_demands, d_forbids)
        none_there
        O
        (if m_demands
          then (if d_forbids || none_there
              then Choice.refuse encryption_not_supported t1 t2
              else (if offered
                  then Choice.encrypt
                  else Choice.refuse encryption_not_supported t3 t4))
          else (if d_demands
              then (if m_forbids
                  then Choice.refuse encryption_required t5 t6
                  else (if offered
                      then Choice.encrypt
                      else Choice.refuse encryption_required t7 t8))
              else (if d_forbids
                  then Choice.plain
                  else (if offered then Choice.encrypt else Choice.plain))))
decide true mf dr true em s O t1 t2 t3 t4 t5 t6 t7 t8 y n = inl (refl, refl, inl refl)
decide true mf dr false true s O t1 t2 t3 t4 t5 t6 t7 t8 y n = inl (refl, refl, inr (inl refl))
decide true mf dr false false true O t1 t2 t3 t4 t5 t6 t7 t8 y n =
    (y refl, inl refl, inr (inl refl), inl refl)
decide true mf dr false false false O t1 t2 t3 t4 t5 t6 t7 t8 y n =
    inl (refl, refl, inr (inr (n refl)))
decide false true true df em s O t1 t2 t3 t4 t5 t6 t7 t8 y n = inr (refl, refl, refl, inl refl)
decide false false true df em true O t1 t2 t3 t4 t5 t6 t7 t8 y n =
    (y refl, inr (refl, refl), inl refl, inr refl)
decide false false true df em false O t1 t2 t3 t4 t5 t6 t7 t8 y n =
    inr (refl, refl, refl, inr (n refl))
decide false mf false true em s O t1 t2 t3 t4 t5 t6 t7 t8 y n = (refl, refl, inl refl)
decide false mf false false em true O t1 t2 t3 t4 t5 t6 t7 t8 y n =
    (y refl, inl refl, inr (inr refl), inr refl)
decide false mf false false em false O t1 t2 t3 t4 t5 t6 t7 t8 y n = (refl, refl, inr (n refl))

-- Whatever the flags of both sides, the master's encryptions and the device's method are, the
-- negotiation ends with encryption only if the master offers the device's method, the device does not
-- forbid encryption (or demands it itself while the master does not), the master does not forbid it or
-- demands it itself or the device does not demand it, and the device has a method if the master
-- demands encryption. It ends without encryption only if no side demands it, and the device forbids it
-- or its method is not offered. It ends with OPDI_ENCRYPTION_NOT_SUPPORTED only if the master demands
-- encryption and the device forbids it, has no method or its method is not offered, and with
-- OPDI_ENCRYPTION_REQUIRED only if the device demands it, the master does not, and the master forbids
-- it or does not offer the method. So if no side demands encryption, the device does not forbid it and
-- its method is offered, the connection is encrypted even if the master forbids it.
pub negotiate_lem :
    (flags : ℤ) (es : List Bytes) (device_flags : ℕ) (method : Bytes)
    → IsExplained
        (
          int_has_flag flags flag_encryption_required,
          int_has_flag flags flag_encryption_not_allowed,
        )
        (
          has_flag device_flags flag_encryption_required,
          has_flag device_flags flag_encryption_not_allowed,
        )
        (length method == 0)
        (IsOffered es method)
        (negotiate flags es device_flags method)
unfolding negotiate
negotiate_lem flags es device_flags method =
    decide (int_has_flag flags flag_encryption_required)
      (int_has_flag flags flag_encryption_not_allowed)
      (has_flag device_flags flag_encryption_required)
      (has_flag device_flags flag_encryption_not_allowed) (length method == 0) (supports es method)
      (IsOffered es method) _ _ _ _ _ _ _ _ (supports_sound es method)
      (λ absent offered. true-≢-false (sym (supports_complete es method offered) ∙ absent))
  where
    true-≢-false : true ≢ false
    true-≢-false h = cc
