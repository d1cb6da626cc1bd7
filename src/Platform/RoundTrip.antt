-- ===== src/Platform/RoundTrip.antt =====
-- The number conversions of opdi_platformfuncs.c against one another.
use native.Mathlib.Omega.{arith}
use mathlib.Core.Path.{subst}
use opdi_core.Base.{
  ℕ, suc, ◌+◌, ◌-◌, ◌/◌, ◌%◌, ◌^◌, ◌≤◌, ◌<◌, ◌≡◌, refl, Bytes, [], ◌∷◌, ◌++◌, length, take,
  take_all, take-append, true, ap, ◌≤ℤ◌, ℤ, pos, negsuc, to_unsigned, wrap_signed, ok,
}
use opdi_core.Platform.{
  digits, scan, is_digit, is_space, skip_spaces, finish, positive, negated, signed, str_to_long,
  print_nat, print_int, snprintf, cast_unsigned, cast_signed, uint16_to_str, str_to_uint16,
  str_to_uint8, uint8_to_str, int32_to_str, str_to_int32, int64_to_str, str_to_int64,
}
use opdi_core.Platform.Print.{
  scan-digits, length-digits-le, length-digits-ge, digits-append, digits_fuel, digits_step,
  starts_with_digit, print-starts,
}

finish_lem :
    (s : Bytes) (n bound : ℕ)
    → starts_with_digit s ≡ true
    → scan s 0 ≡ (n, [])
    → n ≤ bound
    → finish s bound ≡ ok n
unfolding finish is_digit
finish_lem [] n bound h e le = cc
finish_lem (c ∷ s) n bound h e le = rw e (ground arith)

long_of_digits :
    (s : Bytes) → starts_with_digit s ≡ true → str_to_long s ≡ positive (finish s (2 ^ 63 - 1))
unfolding str_to_long skip_spaces is_space signed is_digit
long_of_digits [] h = cc
long_of_digits (c ∷ s) h = ground arith

long_of_minus : (s : Bytes) → str_to_long (b'-' ∷ s) ≡ negated (finish s (2 ^ 63))
unfolding str_to_long skip_spaces is_space signed
long_of_minus s = refl

scan_print : (n : ℕ) → n < 10 ^ 20 → scan (print_nat n) 0 ≡ (n, [])
unfolding print_nat scan
scan_print n h = scan-digits 20 n [] h

print_nat_starts : (n : ℕ) → starts_with_digit (print_nat n) ≡ true
unfolding print_nat
print_nat_starts n = print-starts 19 n

pub length-print_nat : (k n : ℕ) → n < 10 ^ suc k → length (print_nat n) ≤ suc k
unfolding print_nat
length-print_nat k n h = omega (arith, length-digits-le k 20 n [] h)

-- Reading back a printed magnitude.
read_print : (n : ℕ) → n < 2 ^ 63 → str_to_long (print_nat n) ≡ ok (pos n)
read_print n h =
    rw
      (
        long_of_digits _ (print_nat_starts n),
        finish_lem (print_nat n) n (2 ^ 63 - 1) (print_nat_starts n) (scan_print n (omega arith))
            (omega arith),
      )
      (unfold positive in refl)

read_print_neg : (n : ℕ) → n < 2 ^ 63 → str_to_long (b'-' ∷ print_nat (suc n)) ≡ ok (negsuc n)
read_print_neg n h =
    rw
      (
        long_of_minus,
        finish_lem (print_nat (suc n)) (suc n) (2 ^ 63) (print_nat_starts (suc n))
            (scan_print (suc n) (omega arith)) (omega arith),
      )
      (unfold negated in ground arith)

-- opdi_str_to_uint16 reads back what opdi_uint16_to_str prints, for every uint16_t.
pub str_to_uint16-uint16_to_str : (n : ℕ) → n < 2 ^ 16 → str_to_uint16 (uint16_to_str n) ≡ ok n
unfolding str_to_uint16 uint16_to_str snprintf cast_unsigned to_unsigned
str_to_uint16-uint16_to_str n h =
    rw (take_all 5 (print_nat n) (length-print_nat 4 n (omega arith)), read_print n (omega arith))
      (ground arith)

-- opdi_str_to_uint8 reads back what opdi_uint8_to_str prints, for every uint8_t.
pub str_to_uint8-uint8_to_str : (n : ℕ) → n < 2 ^ 8 → str_to_uint8 (uint8_to_str n) ≡ ok n
unfolding str_to_uint8 uint8_to_str snprintf cast_unsigned to_unsigned
str_to_uint8-uint8_to_str n h =
    rw (take_all 3 (print_nat n) (length-print_nat 2 n (omega arith)), read_print n (omega arith))
      (ground arith)

abbrev pub IsInt : ℕ → ℤ → Type 0
IsInt w (pos n) = n < 2 ^ (w - 1)
IsInt w (negsuc n) = n < 2 ^ (w - 1)

wrap_signed_id : (z : ℤ) → IsInt 32 z → wrap_signed 32 z ≡ z
unfolding wrap_signed
wrap_signed_id (pos n) h = ground arith
wrap_signed_id (negsuc n) h = ground arith

wrap_signed_id64 : (z : ℤ) → IsInt 64 z → wrap_signed 64 z ≡ z
unfolding wrap_signed
wrap_signed_id64 (pos n) h = ground arith
wrap_signed_id64 (negsuc n) h = ground arith

-- opdi_str_to_int64 reads back what opdi_int64_to_str prints, for every int64_t.
pub str_to_int64-int64_to_str : (z : ℤ) → IsInt 64 z → str_to_int64 (int64_to_str z) ≡ ok z
unfolding str_to_int64 int64_to_str snprintf print_int cast_signed
str_to_int64-int64_to_str (pos n) h =
    rw
      (
        take_all 22 (print_nat n) (omega (arith, length-print_nat 19 n (omega arith))),
        read_print n h,
      )
      (ap ok (wrap_signed_id64 (pos n) h))
str_to_int64-int64_to_str (negsuc n) h =
    rw
      (
        take_all 21 (print_nat (suc n)) (omega (arith, length-print_nat 19 (suc n) (omega arith))),
        read_print_neg n h,
      )
      (ap ok (wrap_signed_id64 (negsuc n) h))

-- opdi_str_to_int32 reads back what opdi_int32_to_str prints, for every int32_t above -10^9.
pub str_to_int32-int32_to_str :
    (z : ℤ) → IsInt 32 z → negsuc 999999998 ≤ℤ z → str_to_int32 (int32_to_str z) ≡ ok z
unfolding str_to_int32 int32_to_str snprintf print_int cast_signed
str_to_int32-int32_to_str (pos n) h low =
    rw (take_all 10 (print_nat n) (length-print_nat 9 n (omega arith)), read_print n (omega arith))
      (ap ok (wrap_signed_id (pos n) h))
str_to_int32-int32_to_str (negsuc n) h low =
    rw
      (
        take_all 9 (print_nat (suc n)) (length-print_nat 8 (suc n) (omega arith)),
        read_print_neg n (omega arith),
      )
      (ap ok (wrap_signed_id (negsuc n) h))

-- The digits of a number of ten digits, short of the last.
nine_digits : (m : ℕ) → 10 ^ 9 ≤ m → m < 10 ^ 10 → take 9 (print_nat m) ≡ print_nat (m / 10)
unfolding print_nat
nine_digits m lo hi =
    rw
      (
        digits_step 19 m [] (omega arith),
        digits-append 19 (m / 10) ((b'0' + m % 10) ∷ []),
        digits_fuel 18 (m / 10) [] (omega arith),
      )
      (subst (λ k. take k (digits 19 (m / 10) [] ++ (b'0' + m % 10) ∷ []) ≡ digits 19 (m / 10) [])
        nine (take-append (digits 19 (m / 10) []) ((b'0' + m % 10) ∷ [])))
  where
    nine : length (digits 19 (m / 10) []) ≡ 9
    nine = omega (
      arith,
      length-digits-le 8 19 (m / 10) [] (omega arith),
      length-digits-ge 8 19 (m / 10) [] (omega arith) (omega arith),
    )

read_nine :
    (n m : ℕ)
    → 10 ^ 9 ≤ suc n
    → n < 2 ^ 31
    → suc n / 10 ≡ suc m
    → str_to_int32 (int32_to_str (negsuc n)) ≡ ok (negsuc m)
unfolding str_to_int32 int32_to_str snprintf print_int cast_signed
read_nine n m lo hi e =
    rw (nine_digits (suc n) lo (omega arith), e, read_print_neg m (omega arith))
      (ap ok (wrap_signed_id (negsuc m) (omega arith)))

-- An int32_t of -10^9 or below is printed without its last digit, so that reading it back gives
-- the tenth of it, rounded towards zero.
pub int32_to_str_truncates :
    (n : ℕ)
    → 10 ^ 9 ≤ suc n
    → n < 2 ^ 31
    → str_to_int32 (int32_to_str (negsuc n)) ≡ ok (negsuc (suc n / 10 - 1))
int32_to_str_truncates n lo hi = read_nine n (suc n / 10 - 1) lo hi (omega arith)
