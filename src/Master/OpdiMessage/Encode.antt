-- ===== src/Master/OpdiMessage/Encode.antt =====
-- `encode` of code/c/common/master/opdi_OPDIMessage.cpp against `encode` of
-- code/c/common/opdi_message.c.
use opdi_core.Base.{
  ℕ, ◌+◌, ◌%◌, ◌^◌, ◌≤◌, ◌<◌, ◌≡◌, ◌≢◌, refl, sym, ap, ◌∙◌, subst, Bytes, [], ◌∷◌, ◌++◌, length,
  Lacks, All-append, arith, ok, append_assoc, take_all, take, pos, ℤ,
}
use opdi_core.Platform.{uint16_to_str, print_int}
use opdi_core.Platform.Text.{uint16_to_str_lem, Lacks-uint16_to_str}
use opdi_core.Strings.{c_string}
use opdi_core.Strings.CString.{c_string-Lacks}
use opdi_core.Message.{Message, sum_bytes, hex_digit, add16}
use opdi_core.Message.Checksum.{hex4, hex_digit_plain}
use opdi_core.Message.Encode.{frame, summed}
use opdi_core.Message.Bounds.{encode_sound, Lacks-frame}
use opdi_core.Message
use opdi_core.Master.{returned}
use opdi_core.Master.OpdiMessage.{encode, checksum_loop}

-- The sum of bytes without wrap-around.
abbrev pub byte_sum : Bytes → ℕ
byte_sum [] = 0
byte_sum (c ∷ s) = c + byte_sum s

pub sum_bytes-byte_sum :
    (s : Bytes) (sum : ℕ) → sum < 65536 → sum_bytes s sum ≡ (sum + byte_sum s) % 65536
unfolding sum_bytes
sum_bytes-byte_sum [] sum h = omega arith
sum_bytes-byte_sum (c ∷ s) sum h = omega (arith, sum_bytes-byte_sum s (add16 sum c) (omega arith))

checksum_loop_lem :
    (s : Bytes) (sum : ℕ) → Lacks 10 s → checksum_loop s sum ≡ returned (sum + byte_sum s)
unfolding checksum_loop
checksum_loop_lem [] sum l = ap returned (omega arith)
checksum_loop_lem (c ∷ s) sum l =
    rw (checksum_loop_lem s (sum + c) l.1, add_assoc sum c (byte_sum s)) (ground arith)
  where
    add_assoc : (a b n : ℕ) → a + b + n ≡ a + (b + n)
    add_assoc a b n = omega arith

-- The channel is printed the same on both sides.
pub print_int-uint16_to_str : (n : ℕ) → n < 2 ^ 16 → print_int (pos n) ≡ uint16_to_str n
unfolding print_int
print_int-uint16_to_str n h = sym (uint16_to_str_lem n h)

Lacks-line : (m : Message) → m.channel < 2 ^ 16 → Lacks 0 m.payload → Lacks 0 (frame m ++ 10 ∷ [])
Lacks-line m h l =
    All-append (λ c. c ≢ 0) (frame m) (10 ∷ [])
      (Lacks-frame 0 m h l (λ d k q. omega arith) (λ q. absurd (omega arith))
        (λ n k. (hex_digit_plain n k).0))
      ((λ q. absurd (omega arith)), tt)

-- The line that carries a text and its checksum.
abbrev line : Bytes → Bytes
line content = content ++ 58 ∷ (hex4 ((0 + byte_sum content) % 65536) ++ 10 ∷ [])

write_lem :
    (z : ℤ) (payload : Bytes) (maxlength : ℕ)
    → Lacks 10 (print_int z ++ 58 ∷ payload)
    → encode (record { channel = z; payload = payload }) maxlength
      ≡ returned (
        take maxlength (c_string (line (print_int z ++ 58 ∷ payload))),
        length (c_string (line (print_int z ++ 58 ∷ payload))),
      )
unfolding encode
write_lem z payload maxlength l =
    rw (encode, checksum_loop_lem (print_int z ++ 58 ∷ payload) 0 l) refl

-- The master writes what the slave writes: whenever encode of opdi_message.c succeeds, encode of the
-- master gives the same bytes for the same channel and payload, and returns their number. The
-- channel is a uint16_t, the payload has no NUL, and the bytes fit into the master's buffer.
pub encode-encode :
    (m : Message) (bytes : Bytes) (maxlength : ℕ)
    → m.channel < 2 ^ 16
    → Lacks 0 m.payload
    → Message.encode m ≡ ok bytes
    → length bytes ≤ maxlength
    → encode (record { channel = pos m.channel; payload = m.payload }) maxlength
      ≡ returned (bytes, length bytes)
encode-encode m bytes maxlength h l e fits =
    let sound = encode_sound m bytes e in
    let same : line (summed m) ≡ bytes =
      ap (λ k. summed m ++ 58 ∷ (hex4 k ++ 10 ∷ []))
        (sym (sum_bytes-byte_sum (summed m) 0 (omega arith)))
      ∙ sym (append_assoc (summed m) (58 ∷ hex4 (sum_bytes (summed m) 0)) (10 ∷ []))
      ∙ sym sound.0 in
    let whole : c_string bytes ≡ bytes =
      ap c_string sound.0 ∙ c_string-Lacks (frame m ++ 10 ∷ []) (Lacks-line m h l) ∙ sym sound.0 in
    let content : print_int (pos m.channel) ++ 58 ∷ m.payload ≡ summed m =
      ap (λ t. t ++ 58 ∷ m.payload) (print_int-uint16_to_str m.channel h) in
    let one_line : Lacks 10 (summed m) =
      All-append (λ c. c ≢ 10) (uint16_to_str m.channel) (58 ∷ m.payload)
        (Lacks-uint16_to_str 10 m.channel (λ d k e. omega arith) h)
        ((λ e. absurd (omega arith)), sound.1) in
    write_lem (pos m.channel) m.payload maxlength (subst (Lacks 10) (sym content) one_line)
    ∙ ap (λ t. returned (take maxlength (c_string t), length (c_string t))) (ap line content ∙ same)
    ∙ ap (λ t. returned (take maxlength t, length t)) whole
    ∙ ap (λ t. returned (t, length bytes)) (take_all maxlength bytes fits)
