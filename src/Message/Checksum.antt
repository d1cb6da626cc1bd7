-- ===== src/Message/Checksum.antt =====
-- The checksum of a message, in code/c/common/opdi_message.c: a sum modulo 2^16, as four
-- hexadecimal digits.
use opdi_core.Base.{
  ℕ, suc, ◌+◌, ◌-◌, ◌/◌, ◌%◌, ◌<◌, ◌≡◌, ◌≢◌, refl, ap, ◌∙◌, Bytes, [], ◌∷◌, ◌++◌, get_or, length,
  arith, ok, ◌==◌, not,
}
use opdi_core.Constants.{error_malformed_message}
use opdi_core.Message.{
  add16, sub16, nibble_of, hex_digit, sum_bytes, compare_checksum, subtract_tail, refuse,
}

pub sub16-add16 : (s c : ℕ) → s < 65536 → sub16 (add16 s c) c ≡ s
sub16-add16 s c h = omega arith

pub sum_bytes-append :
    (s t : Bytes) (sum : ℕ) → sum_bytes (s ++ t) sum ≡ sum_bytes t (sum_bytes s sum)
unfolding sum_bytes
sum_bytes-append [] t sum = refl
sum_bytes-append (c ∷ s) t sum = sum_bytes-append s t (add16 sum c)

pub sum_bytes-lt : (s : Bytes) (sum : ℕ) → sum < 65536 → sum_bytes s sum < 65536
unfolding sum_bytes
sum_bytes-lt [] sum h = h
sum_bytes-lt (c ∷ s) sum h = sum_bytes-lt s (add16 sum c) (omega arith)

pub nibble-hex_digit : (n : ℕ) → n < 16 → nibble_of (hex_digit n) ≡ ok n
unfolding nibble_of hex_digit
nibble-hex_digit n h = ground arith

-- A digit is no separator, no terminator and not NUL.
pub hex_digit_plain : (n : ℕ) → n < 16 → (hex_digit n ≢ 0) × (hex_digit n ≢ 58) × (hex_digit n ≢ 10)
unfolding hex_digit
hex_digit_plain n h = ground arith

-- The four digits of a checksum.
abbrev pub hex4 : ℕ → Bytes
hex4 cs =
    hex_digit (cs / 4096 % 16)
    ∷ hex_digit (cs / 256 % 16)
    ∷ hex_digit (cs / 16 % 16)
    ∷ hex_digit (cs % 16)
    ∷ []

pub get_or-append_add : (s t : Bytes) (i d : ℕ) → get_or (s ++ t) (length s + i) d ≡ get_or t i d
get_or-append_add [] t i d = ap (λ k. get_or t k d) (omega arith)
get_or-append_add (x ∷ s) t i d = rw (suc_add (length s) i) (get_or-append_add s t i d)
  where
    suc_add : (a b : ℕ) → suc a + b ≡ suc (a + b)
    suc_add a b = omega arith

-- Reading at a place behind a prefix.
pub get_behind : (s t : Bytes) (i k d : ℕ) → k ≡ length s + i → get_or (s ++ t) k d ≡ get_or t i d
get_behind s t i k d e = ap (λ j. get_or (s ++ t) j d) e ∙ get_or-append_add s t i d

-- Four digits are accepted if they are those of the checksum.
pub compare-hex4 :
    (cs k : ℕ) (s rest : Bytes) (i : ℕ)
    → k < 65536
    → i ≡ length s
    → compare_checksum cs (s ++ (hex4 k ++ rest)) i ≡ refuse (not (cs == k)) error_malformed_message
unfolding compare_checksum
compare-hex4 cs k s rest i h e =
    rw
      (
        get_behind s (hex4 k ++ rest) 3 (i + 3) 0 (omega arith),
        get_behind s (hex4 k ++ rest) 2 (i + 2) 0 (omega arith),
        get_behind s (hex4 k ++ rest) 1 (i + 1) 0 (omega arith),
        get_behind s (hex4 k ++ rest) 0 i 0 (omega arith),
        nibble-hex_digit (k % 16) (omega arith),
        nibble-hex_digit (k / 16 % 16) (omega arith),
        nibble-hex_digit (k / 256 % 16) (omega arith),
        nibble-hex_digit (k / 4096 % 16) (omega arith),
      )
      (ap (λ n. refuse (not (cs == n)) error_malformed_message) (omega arith))

-- Taking the last four characters off the checksum.
pub subtract_tail_lem :
    (s rest : Bytes) (a b c d k sum : ℕ)
    → k ≡ length s + 4
    → sum < 65536
    → subtract_tail (s ++ a ∷ b ∷ c ∷ d ∷ rest) k (add16 (add16 (add16 (add16 sum a) b) c) d) ≡ sum
unfolding subtract_tail
subtract_tail_lem s rest a b c d k sum e h = rw (
  get_behind s (a ∷ b ∷ c ∷ d ∷ rest) 3 (k - 1) 0 (omega arith),
  get_behind s (a ∷ b ∷ c ∷ d ∷ rest) 2 (k - 2) 0 (omega arith),
  get_behind s (a ∷ b ∷ c ∷ d ∷ rest) 1 (k - 3) 0 (omega arith),
  get_behind s (a ∷ b ∷ c ∷ d ∷ rest) 0 (k - 4) 0 (omega arith),
  sub16-add16 (add16 (add16 (add16 sum a) b) c) d (omega arith),
  sub16-add16 (add16 (add16 sum a) b) c (omega arith),
  sub16-add16 (add16 sum a) b (omega arith),
  sub16-add16 sum a h,
)
