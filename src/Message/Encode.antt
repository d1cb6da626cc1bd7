-- ===== src/Message/Encode.antt =====
-- What `encode` writes when nothing is refused, in code/c/common/opdi_message.c.
use opdi_core.Base.{
  ℕ, ◌+◌, ◌/◌, ◌%◌, ◌≤◌, ◌<◌, ◌≡◌, refl, sym, ap, ◌∙◌, Bytes, [], ◌∷◌, ◌++◌, length, Lacks, arith,
  ok, append_assoc, append-nil, length-append,
}
use opdi_core.Constants.{message_terminator, message_separator}
use opdi_core.Platform.{uint16_to_str, string_to_bytes}
use opdi_core.Message.{Message, encode, put_byte, payload_sum, sum_bytes, hex_digit, add16}
use opdi_core.Message.Checksum.{hex4, sum_bytes-append}

string_to_bytes_lem :
    (s dest : Bytes) (max : ℕ)
    → length dest + length s ≤ max
    → string_to_bytes s dest max ≡ ok (dest ++ s)
unfolding string_to_bytes
string_to_bytes_lem [] dest max h = ap ok (sym (append-nil dest))
string_to_bytes_lem (c ∷ s) dest max h =
    rw
      (
        string_to_bytes_lem s (dest ++ c ∷ []) max (omega (arith, length-append dest (c ∷ []))),
        append_assoc dest (c ∷ []) s,
      )
      (ground arith)

put_byte_lem : (c : ℕ) (out : Bytes) → length out + 1 < 255 → put_byte c out ≡ ok (out ++ c ∷ [])
unfolding put_byte
put_byte_lem c out h = ground arith

payload_sum_lem :
    (s : Bytes) (pos sum : ℕ)
    → Lacks 10 s
    → pos + length s < 255
    → payload_sum s pos sum ≡ ok (sum_bytes s sum)
unfolding payload_sum sum_bytes
payload_sum_lem [] pos sum l h = refl
payload_sum_lem (c ∷ s) pos sum l h =
    rw (payload_sum_lem s (pos + 1) (add16 sum c) l.1 (omega arith)) (ground arith)

-- The text that the checksum is taken of.
abbrev pub summed : Message → Bytes
summed m = uint16_to_str m.channel ++ message_separator ∷ m.payload

-- The message as it is meant to be sent, short of its line feed.
abbrev pub frame : Message → Bytes
frame m = summed m ++ message_separator ∷ hex4 (sum_bytes (summed m) 0)

-- Six writes behind one another.
put_six :
    (out : Bytes) (a b c d e : ℕ)
    → length out + 5 < 255
    → (put_byte a out ≡ ok (out ++ a ∷ []))
      × (put_byte b (out ++ a ∷ []) ≡ ok (out ++ a ∷ b ∷ []))
      × (put_byte c (out ++ a ∷ b ∷ []) ≡ ok (out ++ a ∷ b ∷ c ∷ []))
      × (put_byte d (out ++ a ∷ b ∷ c ∷ []) ≡ ok (out ++ a ∷ b ∷ c ∷ d ∷ []))
      × (put_byte e (out ++ a ∷ b ∷ c ∷ d ∷ []) ≡ ok (out ++ a ∷ b ∷ c ∷ d ∷ e ∷ []))
put_six out a b c d e h = (
  put_byte_lem a out (omega arith),
  put_more b (a ∷ []) (omega arith),
  put_more c (a ∷ b ∷ []) (omega arith),
  put_more d (a ∷ b ∷ c ∷ []) (omega arith),
  put_more e (a ∷ b ∷ c ∷ d ∷ []) (omega arith),
)
  where
    put_more :
        (x : ℕ) (s : Bytes)
        → length out + length s + 1 < 255
        → put_byte x (out ++ s) ≡ ok (out ++ (s ++ x ∷ []))
    put_more x s k =
        put_byte_lem x (out ++ s) (omega (arith, length-append out s))
        ∙ ap ok (append_assoc out s (x ∷ []))

pub encode_lem :
    (m : Message)
    → Lacks 10 m.payload
    → length (uint16_to_str m.channel) + length m.payload < 249
    → encode m ≡ ok (frame m ++ message_terminator ∷ [])
unfolding encode
encode_lem m l h =
    let chan : Bytes = uint16_to_str m.channel in
    let out1 : Bytes = chan ++ 58 ∷ [] in
    let out : Bytes = chan ++ 58 ∷ m.payload in
    let cs : ℕ = sum_bytes out 0 in
    let writes =
      put_six out 58 (hex_digit (cs / 4096 % 16)) (hex_digit (cs / 256 % 16))
        (hex_digit (cs / 16 % 16)) (hex_digit (cs % 16))
        (omega (arith, length-append chan (58 ∷ m.payload))) in
    rw
      (
        string_to_bytes_lem chan [] 256 (omega arith),
        put_byte_lem 58 chan (omega arith),
        string_to_bytes_lem m.payload out1 256 (omega (arith, length-append chan (58 ∷ []))),
        payload_sum_lem m.payload (length out1) (sum_bytes out1 0) l
            (omega (arith, length-append chan (58 ∷ []))),
        sym (sum_bytes-append out1 m.payload 0),
        append_assoc chan (58 ∷ []) m.payload,
        writes.0,
        writes.1,
        writes.2,
        writes.3,
        writes.4,
      )
      refl
