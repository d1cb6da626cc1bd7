-- ===== src/Platform/Text.antt =====
-- The characters and the length of a printed uint16_t, in opdi_platformfuncs.c.
use opdi_core.Base.{ℕ, suc, ◌+◌, ◌^◌, ◌≤◌, ◌<◌, ◌≡◌, ◌≢◌, Lacks, length, take_all, arith, []}
use opdi_core.Platform.{digits, print_nat, snprintf, uint16_to_str}
use opdi_core.Platform.Print.{length-digits-le, All-digits}

-- A printed uint16_t is not cut off.
pub uint16_to_str_lem : (n : ℕ) → n < 2 ^ 16 → uint16_to_str n ≡ print_nat n
unfolding uint16_to_str snprintf print_nat
uint16_to_str_lem n h = take_all 5 (digits 20 n []) (length-digits-le 4 20 n [] (omega arith))

pub length-uint16_to_str :
    (k n : ℕ) → n < 10 ^ suc k → n < 2 ^ 16 → length (uint16_to_str n) ≤ suc k
length-uint16_to_str k n h b =
    rw (uint16_to_str_lem n b) (unfold print_nat in omega (arith, length-digits-le k 20 n [] h))

pub Lacks-uint16_to_str :
    (b n : ℕ) → ((d : ℕ) → d < 10 → b'0' + d ≢ b) → n < 2 ^ 16 → Lacks b (uint16_to_str n)
Lacks-uint16_to_str b n h l =
    rw (uint16_to_str_lem n l) (unfold print_nat in All-digits (λ c. c ≢ b) h 20 n [] tt)
