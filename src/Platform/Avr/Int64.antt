-- ===== src/Platform/Avr/Int64.antt =====
-- `opdi_int64_to_str` of code/c/platforms/avr/opdi_platformfuncs.c against that of
-- code/c/platforms/linux/opdi_platformfuncs.c.
use native.Mathlib.Decide.{dec_lt}
use opdi_core.Base.{
  ℕ, zero, suc, ◌+◌, ◌-◌, ◌/◌, ◌%◌, ◌^◌, ◌≤◌, ◌<◌, ◌≡◌, refl, sym, ap, ◌∙◌, Bytes, [], ◌∷◌, ◌++◌,
  take_all, append_assoc, append-nil, arith, ℤ, pos, negsuc, ltb_ℤ, true, false, ltb, ◌==◌, codes,
  magnitude,
}
use opdi_core.Platform.{digits, print_nat, print_int, snprintf}
use opdi_core.Platform
use opdi_core.Platform.RoundTrip.{IsInt, length-print_nat}
use opdi_core.Platform.Avr.{digit_loop, ordered, int64_to_str}
use opdi_core.Platform.Avr.Swap.{reversed, ordered_lem}

small : (n : ℕ) → n < 10 → (ltb n 10 ≡ true) × ((n / 10 == 0) ≡ true) × (n % 10 ≡ n)
small n h = ground arith

large : (n : ℕ) → 10 ≤ n → (ltb n 10 ≡ false) × ((n / 10 == 0) ≡ false)
large n h = ground arith

digits-reversed :
    (fuel n : ℕ) (acc : Bytes) → digits fuel n acc ≡ reversed (digit_loop fuel n) ++ acc
unfolding digits digit_loop
digits-reversed zero n acc = refl
digits-reversed (suc fuel) n acc = elim (dec_lt n 10) [
  | yes lt ↦ let (first, last, same) = small n lt in rw (first, last, same) refl
  | no ge ↦
      let (first, last) = large n (omega arith) in
      rw (first, last)
        (digits-reversed fuel (n / 10) ((b'0' + n % 10) ∷ acc)
          ∙ sym (append_assoc (reversed (digit_loop fuel (n / 10))) ((b'0' + n % 10) ∷ []) acc))
]

ordered-print_nat : (n : ℕ) → ordered (digit_loop 20 n) ≡ print_nat n
unfolding print_nat
ordered-print_nat n =
    ordered_lem (digit_loop 20 n)
    ∙ sym (digits-reversed 20 n [] ∙ append-nil (reversed (digit_loop 20 n)))

not_negative :
    (n : ℕ)
    → (ltb_ℤ (pos n) (negsuc (2 ^ 63 - 2)) ≡ false)
      × (ltb_ℤ (pos n) (pos 0) ≡ false)
      × (magnitude (pos n) ≡ n)
not_negative n = ground arith

negative :
    (n : ℕ)
    → n < 2 ^ 63 - 1
    → (ltb_ℤ (negsuc n) (negsuc (2 ^ 63 - 2)) ≡ false)
      × (ltb_ℤ (negsuc n) (pos 0) ≡ true)
      × (magnitude (negsuc n) ≡ suc n)
negative n h = ground arith

lowest : Platform.int64_to_str (negsuc (2 ^ 63 - 1)) ≡ codes "-9223372036854775808"
unfolding Platform.int64_to_str snprintf print_int print_nat digits
lowest = refl

special : int64_to_str (negsuc (2 ^ 63 - 1)) ≡ codes "-9223372036854775808"
unfolding int64_to_str
special = refl

whole : (z : ℤ) → IsInt 64 z → Platform.int64_to_str z ≡ print_int z
unfolding Platform.int64_to_str snprintf print_int
whole (pos n) h = take_all 22 (print_nat n) (omega (arith, length-print_nat 19 n (omega arith)))
whole (negsuc n) h =
    ap (λ s. b'-' ∷ s)
      (take_all 21 (print_nat (suc n)) (omega (arith, length-print_nat 19 (suc n) (omega arith))))

-- opdi_int64_to_str of the AVR, which writes the digits from the last one on and turns them round in place,
-- gives the same text as opdi_int64_to_str of Linux, which calls snprintf, for every int64_t.
pub int64_to_str-int64_to_str : (z : ℤ) → IsInt 64 z → int64_to_str z ≡ Platform.int64_to_str z
unfolding int64_to_str print_int
int64_to_str-int64_to_str (pos n) h =
    let (above, plus, same) = not_negative n in
    rw (above, plus)
      (ap (λ k. ordered (digit_loop 20 k)) same ∙ ordered-print_nat n ∙ sym (whole (pos n) h))
int64_to_str-int64_to_str (negsuc n) h = elim (dec_lt n (2 ^ 63 - 1)) [
  | yes lt ↦
      let (above, minus, same) = negative n lt in
      rw (above, minus)
        (ap (λ k. b'-' ∷ ordered (digit_loop 20 k)) same
          ∙ ap (λ s. b'-' ∷ s) (ordered-print_nat (suc n))
          ∙ sym (whole (negsuc n) h))
  | no ge ↦
      let e : n ≡ 2 ^ 63 - 1 = omega arith in
      ap (λ k. int64_to_str (negsuc k)) e
      ∙ special
      ∙ sym lowest
      ∙ ap (λ k. Platform.int64_to_str (negsuc k)) (sym e)
]
