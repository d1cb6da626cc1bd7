-- ===== src/Master/Receiver/Transmission.antt =====
-- From `encode` of code/c/common/opdi_message.c to the messages that `MessageProcessor::run` decodes, in
-- code/c/common/master/opdi_MessageQueueDevice.cpp.
use opdi_core.Base.{
  ℕ, ◌^◌, ◌<◌, ◌≡◌, refl, ap, ◌∙◌, Bytes, List, [], ◌∷◌, ◌++◌, Lacks, All, arith, append_assoc, map,
  pos, ℤ, Option, some, Result, ok, false,
}
use opdi_core.Platform.{uint16_to_str}
use opdi_core.Strings.{c_string}
use opdi_core.Strings.CString.{c_string-append}
use opdi_core.Message.{Message, encode, ◌>>=◌}
use opdi_core.Message.Checksum.{hex4, hex_digit_plain}
use opdi_core.Message.Encode.{frame}
use opdi_core.Message.Bounds.{encode_sound, Lacks-frame, split_bind}
use opdi_core.Master.{returned}
use opdi_core.Master.StringTools.{join}
use opdi_core.Master.StringTools.RoundTrip.{IsPlain}
use opdi_core.Master.OpdiMessage.{OpdiMessage, decode}
use opdi_core.Master.OpdiMessage.Decode.{decode-encode_slave}
use opdi_core.Master.Receiver.{started, take_bytes, receive, messages}
use opdi_core.Master.Receiver.Chunks.{concat, lines, receive-concat, receive-lines}

-- The encodings of messages, one after the other.
abbrev pub encode_all : List Message → Result Bytes
encode_all [] = ok []
encode_all (m ∷ ms) = encode m >>= λ line. encode_all ms >>= λ rest. ok (line ++ rest)

-- A message that the master reads: its channel is a uint16_t, and its payload has bytes other than NUL and is
-- joined from parts that are not empty and begin neither with a blank nor with a colon.
abbrev pub IsReadable : Message → Type 0
IsReadable m =
    (m.channel < 2 ^ 16)
    × All (λ c. c < 256) m.payload
    × Lacks 0 m.payload
    × ((p : Bytes) × (ps : List Bytes) × All (IsPlain 58) (p ∷ ps) × (m.payload ≡ join 58 (p ∷ ps)))

-- The message as the master holds it.
abbrev pub as_read : Message → OpdiMessage
as_read m = record { channel = pos m.channel; payload = m.payload }

same_ok : {a b : Bytes} → ok a ≡ ok b → b ≡ a
same_ok h = cc

encoded_lines :
    (ms : List Message) (bytes : Bytes)
    → encode_all ms ≡ ok bytes
    → All IsReadable ms
    → (bytes ≡ lines (map frame ms)) × All (Lacks 10) (map frame ms)
encoded_lines [] bytes e h = (same_ok e, tt)
encoded_lines (m ∷ ms) bytes e h =
    let (line, e1, r1) = split_bind (encode m) _ bytes e in
    let (rest, e2, r2) = split_bind (encode_all ms) _ bytes r1 in
    let (tail, ok_tail) = encoded_lines ms rest e2 h.1 in
    let (shape, no_lf, short) = encode_sound m line e1 in
    let plain =
      Lacks-frame 10 m h.0.0 no_lf (λ d k q. omega arith) (λ q. absurd (omega arith))
        (λ n k. (hex_digit_plain n k).2) in
    (
      same_ok r2
          ∙ ap (λ t. t ++ rest) shape
          ∙ append_assoc (frame m) (10 ∷ []) rest
          ∙ ap (λ t. frame m ++ 10 ∷ t) tail,
      (plain, ok_tail),
    )

module _ (parse : Bytes → Option ℤ) (parse_hex : Bytes → Option ℕ)
    (parse_reads : (n : ℕ) → n < 2 ^ 16 → parse (uint16_to_str n) ≡ some (pos n))
    (parse_hex_reads : (n : ℕ) → n < 2 ^ 16 → parse_hex (hex4 n) ≡ some n) where
  decoded :
      (ms : List Message) (bytes : Bytes)
      → encode_all ms ≡ ok bytes
      → All IsReadable ms
      → messages parse parse_hex (map (λ s. s ++ 0 ∷ []) (map frame ms))
        ≡ map (λ m. returned (as_read m)) ms
  unfolding messages
  decoded [] bytes e h = refl
  decoded (m ∷ ms) bytes e h =
      let (line, e1, r1) = split_bind (encode m) _ bytes e in
      let (rest, e2, r2) = split_bind (encode_all ms) _ bytes r1 in
      let (shape, no_lf, short) = encode_sound m line e1 in
      let (c_lt, bounded, no_nul, parts) = h.0 in
      let (p, ps, plain, joined) = parts in
      let no_nul_line =
        Lacks-frame 0 m c_lt no_nul (λ d k q. omega arith) (λ q. absurd (omega arith))
          (λ n k. (hex_digit_plain n k).0) in
      let first : decode parse parse_hex (c_string (frame m ++ 0 ∷ [])) ≡ returned (as_read m) =
        ap (decode parse parse_hex) (c_string-append (frame m) [] no_nul_line)
        ∙ decode-encode_slave parse parse_hex parse_reads parse_hex_reads m p ps (frame m) c_lt
            plain joined bounded (e1 ∙ ap ok shape) in
      ap (λ o. o ∷ messages parse parse_hex (map (λ s. s ++ 0 ∷ []) (map frame ms))) first
      ∙ ap (λ os. returned (as_read m) ∷ os) (decoded ms rest e2 h.1)

  -- What the slave encodes arrives: if encode of opdi_message.c succeeds for each of the messages, and
  -- their bytes, one after the other, come in chunks of any number and size, then the master decodes
  -- these messages in this order, without encryption, and keeps nothing for the next round. Each
  -- channel is a uint16_t, and each payload is a text of bytes other than NUL that is joined with colons
  -- from one or more parts, none of which is empty or begins with a blank or a colon. The number
  -- parsers of Poco read a uint16_t that the slave has printed in decimal, and one that is written with
  -- four hexadecimal digits.
  pub receive-encode_all :
      (ms : List Message) (bytes : Bytes) (chunks : List Bytes)
      → encode_all ms ≡ ok bytes
      → All IsReadable ms
      → concat chunks ≡ bytes
      → (messages parse parse_hex (receive false chunks started).0
          ≡ map (λ m. returned (as_read m)) ms)
        × ((receive false chunks started).1 ≡ started)
  receive-encode_all ms bytes chunks e h whole =
      let (shape, no_lf) = encoded_lines ms bytes e h in
      let run =
        receive-concat chunks started
        ∙ ap (λ t. take_bytes false t started) (whole ∙ shape)
        ∙ receive-lines (map frame ms) no_lf in
      (ap (λ r. messages parse parse_hex r.0) run ∙ decoded ms bytes e h, ap (λ r. r.1) run)
