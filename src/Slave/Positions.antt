-- ===== src/Slave/Positions.antt =====
-- Which positions a slave lets through to a select port and to a dial port:
-- `set_select_port_position` and `set_dial_port_position` of code/c/common/opdi_slave_protocol.c.
use opdi_core.Base.{
  ℕ, zero, suc, ◌+◌, ◌%◌, ◌^◌, ◌≤◌, ◌<◌, ◌≡◌, ◌⊎◌, inl, inr, refl, true, false, not, ◌||◌, Bytes,
  List, [], ◌∷◌, length, ◌==◌, ltb, strcmp_eq, ap, arith, ℤ, ◌-ℤ◌, ◌≤ℤ◌, magnitude, wrap_signed,
  to_signed, to_unsigned, pos_part, neg_part, ok,
}
use opdi_core.Constants.{position_invalid, porttype_dial, porttype_select}
use opdi_core.Platform.{str_to_int64, str_to_uint16}
use opdi_core.Slave.State.{Device, Slave, ◌>>◌, call}
use opdi_core.Slave.PortInfo.{DialInfo, port_of, dial_of, labels_of}
use opdi_core.Slave.PortState.{
  position_is_invalid, set_dial_port_position, send_dial_port_state, set_select_port_position,
  send_select_port_state, labels_from,
}

-- A position of the dial: between the ends, and a number of steps away from the first.
abbrev pub IsOnDial : DialInfo → ℤ → Type 0
IsOnDial dpi p =
    (dpi.min ≤ℤ p) × (p ≤ℤ dpi.max) × (magnitude (p -ℤ dpi.min) % magnitude dpi.step ≡ 0)

-- The distance of the ends is an int64_t.
abbrev pub IsSpan : DialInfo → Type 0
IsSpan dpi = pos_part dpi.max + neg_part dpi.min < 2 ^ 63 + (pos_part dpi.min + neg_part dpi.max)

difference_fits :
    (a b c : ℤ)
    → a ≤ℤ b
    → b ≤ℤ c
    → pos_part c + neg_part a < 2 ^ 63 + (pos_part a + neg_part c)
    → wrap_signed 64 (b -ℤ a) ≡ b -ℤ a
unfolding wrap_signed to_signed to_unsigned ◌-ℤ◌
difference_fits a b c lo hi span = ground arith

scale_cases :
    (x y z w i j : ℕ)
    → (y ≤ x → w ≤ z → i ≡ j)
    → (((ltb x y || (ltb z w || not (i == 0))) ≡ false) × ((y ≤ x) × (w ≤ z) × (j ≡ 0)))
      ⊎ (((ltb x y || (ltb z w || not (i == 0))) ≡ true) × ¬ ((y ≤ x) × (w ≤ z) × (j ≡ 0)))
scale_cases x y z w i j same = ground arith

position_lem :
    (dpi : DialInfo) (p : ℤ)
    → IsSpan dpi
    → ((position_is_invalid dpi p ≡ false) × IsOnDial dpi p)
      ⊎ ((position_is_invalid dpi p ≡ true) × ¬ (IsOnDial dpi p))
unfolding position_is_invalid
position_lem dpi p span =
    scale_cases (pos_part p + neg_part dpi.min) (pos_part dpi.min + neg_part p)
      (pos_part dpi.max + neg_part p) (pos_part p + neg_part dpi.max)
      (magnitude (wrap_signed 64 (p -ℤ dpi.min)) % magnitude dpi.step)
      (magnitude (p -ℤ dpi.min) % magnitude dpi.step)
      (λ lo hi.
        ap (λ z. magnitude z % magnitude dpi.step) (difference_fits dpi.min p dpi.max lo hi span))

-- set_dial_port_position on a dial port whose ends are less than 2^63 apart, for a text that is a
-- number: a position on the dial goes to the device, and the new state is sent; any other is refused
-- with OPDI_POSITION_INVALID, and nothing is called.
pub set_dial_port_position_lem :
    {W : Type 0} (d : Device W) (channel a : ℕ) (text : Bytes) (p : ℤ) (s : Slave W)
    → strcmp_eq (port_of a s).type porttype_dial ≡ true
    → str_to_int64 text ≡ ok p
    → IsSpan (dial_of (port_of a s).info)
    → (IsOnDial (dial_of (port_of a s).info) p
        × (set_dial_port_position d channel a text s
            ≡ (call (d.set_dial_port_position (port_of a s) p) >> send_dial_port_state d channel a)
                s))
      ⊎ (¬ (IsOnDial (dial_of (port_of a s).info) p)
          × (set_dial_port_position d channel a text s ≡ (position_invalid, s)))
unfolding set_dial_port_position
set_dial_port_position_lem d channel a text p s type parsed span =
    elim (position_lem (dial_of (port_of a s).info) p span) [
      | inl (valid, on) ↦ inl (on, rw (type, parsed, valid) refl)
      | inr (invalid, off) ↦ inr (off, rw (type, parsed, invalid) refl)
    ]

labels_from_lem :
    (labels : List Bytes) (n : ℕ)
    → ((n < length labels) × (l : Bytes) × (rest : List Bytes) × (labels_from labels n ≡ l ∷ rest))
      ⊎ ((length labels ≤ n) × (labels_from labels n ≡ []))
unfolding labels_from
labels_from_lem [] zero = inr (omega arith, refl)
labels_from_lem (l ∷ labels) zero = inl (omega arith, l, labels, refl)
labels_from_lem [] (suc n) = inr (omega arith, refl)
labels_from_lem (l ∷ labels) (suc n) = elim (labels_from_lem labels n) [
  | inl (lt, k, rest, e) ↦ inl (omega arith, k, rest, e)
  | inr (le, e) ↦ inr (omega arith, e)
]

-- set_select_port_position on a select port, for a text that is a number: a position with a label
-- goes to the device, and the new state is sent; any other is refused with OPDI_POSITION_INVALID,
-- and nothing is called.
pub set_select_port_position_lem :
    {W : Type 0} (d : Device W) (channel a : ℕ) (text : Bytes) (n : ℕ) (s : Slave W)
    → strcmp_eq (port_of a s).type porttype_select ≡ true
    → str_to_uint16 text ≡ ok n
    → ((n < length (labels_of (port_of a s).info))
        × (set_select_port_position d channel a text s
            ≡ (call (d.set_select_port_position (port_of a s) n)
                  >> send_select_port_state d channel a)
                s))
      ⊎ ((length (labels_of (port_of a s).info) ≤ n)
          × (set_select_port_position d channel a text s ≡ (position_invalid, s)))
unfolding set_select_port_position
set_select_port_position_lem d channel a text n s type parsed =
    elim (labels_from_lem (labels_of (port_of a s).info) n) [
      | inl (lt, l, rest, e) ↦ inl (lt, rw (type, parsed, e) refl)
      | inr (le, e) ↦ inr (le, rw (type, parsed, e) refl)
    ]
