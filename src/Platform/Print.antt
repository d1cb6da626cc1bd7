-- ===== src/Platform/Print.antt =====
-- How long the printed numbers are, and that reading the digits gives the number back.
use native.Mathlib.Nat.{pow-suc}
use native.Mathlib.Decide.{dec_lt}
use opdi_core.Base.{
  ℕ, zero, suc, ◌+◌, ◌/◌, ◌%◌, ◌^◌, ◌≤◌, ◌<◌, ◌≡◌, refl, Bytes, [], ◌∷◌, ◌++◌, arith, length,
  append_assoc, All, ap, sym, Bool, true, false, ltb,
}
use opdi_core.Platform.{digits, scan, is_digit}

scan_last : (n : ℕ) (acc : Bytes) → scan ((b'0' + n % 10) ∷ acc) (n / 10) ≡ scan acc n
unfolding scan
scan_last n acc = ground arith

small : (n : ℕ) → n < 10 → ltb n 10 ≡ true
small n h = ground arith

large : (n : ℕ) → ¬ (n < 10) → ltb n 10 ≡ false
large n h = ground arith

scan_first : (n : ℕ) (acc : Bytes) → n < 10 → scan ((b'0' + n) ∷ acc) 0 ≡ scan acc n
unfolding scan
scan_first n acc h = ground arith

tenth_lt : (fuel n : ℕ) → n < 10 ^ suc fuel → n / 10 < 10 ^ fuel
tenth_lt fuel n h = omega (arith, pow-suc 10 fuel)

le_tenth : (fuel n : ℕ) → 10 ^ suc fuel ≤ n → 10 ^ fuel ≤ n / 10
le_tenth fuel n h = omega (arith, pow-suc 10 fuel)

pub scan-digits :
    (fuel n : ℕ) (acc : Bytes) → n < 10 ^ fuel → scan (digits fuel n acc) 0 ≡ scan acc n
unfolding digits
scan-digits zero n acc h = let e : n ≡ 0 = omega arith in ap (scan acc) (sym e)
scan-digits (suc fuel) n acc h = ground (
  arith,
  scan_first n acc,
  scan_last n acc,
  scan-digits fuel (n / 10) ((b'0' + n % 10) ∷ acc) (tenth_lt fuel n h),
)

pub length-digits-le :
    (k fuel n : ℕ) (acc : Bytes) → n < 10 ^ suc k → length (digits fuel n acc) ≤ suc k + length acc
unfolding digits
length-digits-le k zero n acc h = omega arith
length-digits-le zero (suc fuel) n acc h = ground arith
length-digits-le (suc k) (suc fuel) n acc h =
    ground (arith, length-digits-le k fuel (n / 10) ((b'0' + n % 10) ∷ acc) (tenth_lt (suc k) n h))

length-le-digits : (fuel n : ℕ) (acc : Bytes) → length acc ≤ length (digits fuel n acc)
unfolding digits
length-le-digits zero n acc = omega arith
length-le-digits (suc fuel) n acc =
    ground (arith, length-le-digits fuel (n / 10) ((b'0' + n % 10) ∷ acc))

pow_pos : (k : ℕ) → 1 ≤ 10 ^ k
pow_pos zero = omega arith
pow_pos (suc k) = omega (arith, pow-suc 10 k, pow_pos k)

ten_le : (k n : ℕ) → 10 ^ suc k ≤ n → 10 ≤ n
ten_le k n h = omega (arith, pow-suc 10 k, pow_pos k)

pub length-digits-ge :
    (k fuel n : ℕ) (acc : Bytes)
    → k < fuel
    → 10 ^ k ≤ n
    → suc k + length acc ≤ length (digits fuel n acc)
unfolding digits
length-digits-ge k zero n acc h p = absurd (omega arith)
length-digits-ge zero (suc fuel) n acc h p =
    ground (arith, length-le-digits fuel (n / 10) ((b'0' + n % 10) ∷ acc))
length-digits-ge (suc k) (suc fuel) n acc h p = ground (
  arith,
  ten_le k n p,
  length-digits-ge k fuel (n / 10) ((b'0' + n % 10) ∷ acc) (omega arith) (le_tenth k n p),
)

pub digits-append : (fuel n : ℕ) (acc : Bytes) → digits fuel n acc ≡ digits fuel n [] ++ acc
unfolding digits
digits-append zero n acc = refl
digits-append (suc fuel) n acc = ground (
  arith,
  digits-append fuel (n / 10) ((b'0' + n % 10) ∷ acc),
  digits-append fuel (n / 10) ((b'0' + n % 10) ∷ []),
  append_assoc (digits fuel (n / 10) []) ((b'0' + n % 10) ∷ []) acc,
)

-- More fuel than digits changes nothing.
pub digits_fuel :
    (fuel n : ℕ) (acc : Bytes)
    → n < 10 ^ suc fuel
    → digits (suc (suc fuel)) n acc ≡ digits (suc fuel) n acc
unfolding digits
digits_fuel zero n acc h = ground arith
digits_fuel (suc fuel) n acc h =
    ground (arith, digits_fuel fuel (n / 10) ((b'0' + n % 10) ∷ acc) (tenth_lt (suc fuel) n h))

pub digits_step :
    (fuel n : ℕ) (acc : Bytes)
    → 10 ≤ n
    → digits (suc fuel) n acc ≡ digits fuel (n / 10) ((b'0' + n % 10) ∷ acc)
unfolding digits
digits_step fuel n acc h = ground arith

-- The text begins with a digit.
abbrev pub starts_with_digit : Bytes → Bool
unfolding is_digit
starts_with_digit [] = false
starts_with_digit (c ∷ s) = is_digit c

starts-digits :
    (fuel n : ℕ) (acc : Bytes)
    → starts_with_digit acc ≡ true
    → starts_with_digit (digits fuel n acc) ≡ true
unfolding digits is_digit
starts-digits zero n acc h = h
starts-digits (suc fuel) n acc h =
    ground (arith, starts-digits fuel (n / 10) ((b'0' + n % 10) ∷ acc))

pub print-starts : (fuel n : ℕ) → starts_with_digit (digits (suc fuel) n []) ≡ true
unfolding digits is_digit
print-starts fuel n = ground (arith, starts-digits fuel (n / 10) ((b'0' + n % 10) ∷ []))

-- Every character printed is a digit.
pub All-digits :
    (P : ℕ → Type 0)
    → ((d : ℕ) → d < 10 → P (b'0' + d))
    → (fuel n : ℕ) (acc : Bytes) → All P acc
    → All P (digits fuel n acc)
unfolding digits
All-digits P h zero n acc ha = ha
All-digits P h (suc fuel) n acc ha =
    let rest =
      All-digits P h fuel (n / 10) ((b'0' + n % 10) ∷ acc) (h (n % 10) (omega arith), ha) in
    elim (dec_lt n 10) [ yes lt ↦ rw (small n lt) (h n lt, ha) | no ge ↦ rw (large n ge) rest ]
