-- ===== src/Master/OpdiMessage/Checksum.antt =====
-- `calcChecksum` of code/c/common/master/opdi_OPDIMessage.cpp against the checksum that `encode` of
-- code/c/common/opdi_message.c writes.
use opdi_core.Base.{
  ℕ, ◌+◌, ◌*◌, ◌%◌, ◌^◌, ◌≤◌, ◌<◌, ◌≡◌, ◌≢◌, refl, sym, ap, ◌∙◌, subst, Bytes, [], ◌∷◌, ◌++◌,
  length, Lacks, All, All-append, arith, length-append, ◌==◌, true, false,
}
use opdi_core.Platform.{uint16_to_str, print_nat}
use opdi_core.Platform.Text.{uint16_to_str_lem}
use opdi_core.Platform.Print.{All-digits}
use opdi_core.Message.{Message, sum_bytes}
use opdi_core.Message.Checksum.{hex4, hex_digit_plain}
use opdi_core.Message.Scan.{Lacks-hex4}
use opdi_core.Message.Encode.{frame, summed}
use opdi_core.Master.OpdiMessage.{calc_checksum, calc_loop}
use opdi_core.Master.OpdiMessage.Encode.{byte_sum, sum_bytes-byte_sum}

calc_found :
    (s : Bytes) (t : Bytes) (n : ℕ)
    → calc_loop t ≡ (n, true)
    → calc_loop (s ++ t) ≡ (n + byte_sum s, true)
unfolding calc_loop
calc_found [] t n e = e ∙ ap (λ k. (k, true)) (omega arith)
calc_found (c ∷ s) t n e = rw (calc_found s t n e) (ap (λ k. (k, true)) (omega arith))

calc_none : (t : Bytes) → Lacks 58 t → calc_loop t ≡ (0, false)
unfolding calc_loop
calc_none [] l = refl
calc_none (c ∷ t) l = rw (calc_none t l.1) (ap (λ b. (0, b)) (apart c l.0))
  where
    apart : (n : ℕ) → n ≢ 58 → (n == 58) ≡ false
    apart n h = ground arith

-- The checksum is that of the text before the last colon.
pub calc_checksum_lem : (s t : Bytes) → Lacks 58 t → calc_checksum (s ++ 58 ∷ t) ≡ byte_sum s
unfolding calc_checksum calc_loop
calc_checksum_lem s t l =
    ap (λ p. p.0) (calc_found s (58 ∷ t) 0 (rw (calc_none t l) refl)) ∙ omega arith

pub Lacks-checksum : (k : ℕ) → Lacks 58 (hex4 k)
Lacks-checksum k = Lacks-hex4 k 58 (λ n h. (hex_digit_plain n h).1)

byte_sum_le : (s : Bytes) → All (λ c. c < 256) s → byte_sum s ≤ 255 * length s
byte_sum_le [] h = omega arith
byte_sum_le (c ∷ s) h = omega (arith, h.0, byte_sum_le s h.1)

-- Within the buffer of the slave the checksum of a message needs no wrap-around.
pub frame_checksum :
    (m : Message)
    → m.channel < 2 ^ 16
    → All (λ c. c < 256) m.payload
    → length (frame m) < 255
    → calc_checksum (frame m) % 2 ^ 32 ≡ sum_bytes (summed m) 0
frame_checksum m h bounded short =
    let bytes : All (λ c. c < 256) (summed m) =
      All-append (λ c. c < 256) (uint16_to_str m.channel) (58 ∷ m.payload) (digits_lt m.channel h)
        (omega arith, bounded) in
    omega (
      arith,
      byte_sum_le (summed m) bytes,
      short,
      length-append (summed m) (58 ∷ hex4 (sum_bytes (summed m) 0)),
      calc_checksum_lem (summed m) (hex4 (sum_bytes (summed m) 0)) (Lacks-checksum _),
      sum_bytes-byte_sum (summed m) 0 (omega arith),
    )
  where
    digits_lt : (n : ℕ) → n < 2 ^ 16 → All (λ c. c < 256) (uint16_to_str n)
    digits_lt n l =
        subst (All (λ c. c < 256)) (sym (uint16_to_str_lem n l))
          (unfold print_nat in All-digits (λ c. c < 256) (λ d q. omega arith) 20 n [] tt)
