-- ===== src/Master/OpdiMessage/Decode.antt =====
-- `decode` of code/c/common/master/opdi_OPDIMessage.cpp on what `encode` of
-- code/c/common/opdi_message.c writes.
use opdi_core.Base.{
  ℕ, ◌-◌, ◌%◌, ◌^◌, ◌≤◌, ◌<◌, ◌≡◌, ◌≢◌, refl, sym, ap, ◌∙◌, subst, Bytes, List, [], ◌∷◌, ◌++◌,
  length, Lacks, All, All-append, arith, ok, append_assoc, length-append, take, take-append, pos, ℤ,
  ◌==◌, true, false, Option, some, get_or, get_or-append, ltb,
}
use opdi_core.Platform.{uint16_to_str, print_nat, is_digit}
use opdi_core.Platform.Text.{uint16_to_str_lem, Lacks-uint16_to_str}
use opdi_core.Platform.Print.{print-starts, starts_with_digit}
use opdi_core.Message.{Message, sum_bytes, hex_digit}
use opdi_core.Message.Checksum.{hex4, sum_bytes-lt}
use opdi_core.Message.Encode.{frame, summed}
use opdi_core.Message.Bounds.{encode_sound}
use opdi_core.Message
use opdi_core.Master.{returned}
use opdi_core.Master.StringTools.{split, join, join_some, join_loop, without_last}
use opdi_core.Master.StringTools.RoundTrip.{
  IsPlain, doubled, joined, join-joined, split-joined, join_loop-joined, without_last_lem,
}
use opdi_core.Master.OpdiMessage.{decode, calc_checksum, last_part}
use opdi_core.Master.OpdiMessage.Checksum.{Lacks-checksum, frame_checksum}

doubled-Lacks : (c : ℕ) (s : Bytes) → Lacks c s → doubled c s ≡ s
doubled-Lacks c [] l = refl
doubled-Lacks c (d ∷ s) l = rw (apart d l.0, doubled-Lacks c s l.1) refl
  where
    apart : (n : ℕ) → n ≢ c → (n == c) ≡ false
    apart n h = ground arith

joined-append :
    (c : ℕ) (p q : Bytes) (ps : List Bytes)
    → joined c ((p ∷ ps) ++ q ∷ []) ≡ joined c (p ∷ ps) ++ c ∷ doubled c q
joined-append c p q [] = refl
joined-append c p q (r ∷ ps) =
    rw (joined-append c r q ps)
      (sym (append_assoc (doubled c p) (c ∷ joined c (r ∷ ps)) (c ∷ doubled c q)))

-- The text begins with a digit.
pub IsPlain-digits : (s : Bytes) → starts_with_digit s ≡ true → IsPlain 58 s
unfolding is_digit
IsPlain-digits [] h = cc
IsPlain-digits (c ∷ s) h = (ground arith, ground arith)

IsPlain-channel : (n : ℕ) → n < 2 ^ 16 → IsPlain 58 (uint16_to_str n)
IsPlain-channel n h =
    subst (IsPlain 58) (sym (uint16_to_str_lem n h))
      (unfold print_nat in IsPlain-digits _ (print-starts 19 n))

IsPlain-hex4 : (k : ℕ) → IsPlain 58 (hex4 k)
unfolding hex_digit
IsPlain-hex4 k = (ground arith, ground arith)

decode_steps :
    (parse : Bytes → Option ℤ) (parse_hex : Bytes → Option ℕ) (form : Bytes) (parts : List Bytes)
    (z : ℤ)
    → split form 58 ≡ parts
    → 3 ≤ length parts
    → parse_hex (last_part parts) ≡ some (calc_checksum form % 2 ^ 32)
    → parse (get_or parts 0 []) ≡ some z
    → decode parse parse_hex form
      ≡ returned (record { channel = z; payload = join_some 1 1 58 parts })
unfolding decode
decode_steps parse parse_hex form parts z e some_parts sum channel =
    rw (e, enough (length parts) some_parts, sum, same (calc_checksum form % 2 ^ 32), e, channel)
      (ap (λ q. returned (record { channel = z; payload = join_some 1 1 58 q })) e)
  where
    enough : (n : ℕ) → 3 ≤ n → ltb n 3 ≡ false
    enough n h = ground arith

    same : (n : ℕ) → (n == n) ≡ true
    same n = ground arith

-- The parts between the first and the last one are joined again.
join_inner :
    (a z p : Bytes) (ps : List Bytes)
    → All (IsPlain 58) (p ∷ ps)
    → join_some 1 1 58 (a ∷ ((p ∷ ps) ++ z ∷ [])) ≡ join 58 (p ∷ ps)
unfolding join_some
join_inner a z p ps h =
    ap (λ n. without_last (join_loop (take n ((p ∷ ps) ++ z ∷ [])) 58)) count
    ∙ ap (λ l. without_last (join_loop l 58)) (take-append (p ∷ ps) (z ∷ []))
    ∙ ap without_last (join_loop-joined 58 p ps h)
    ∙ without_last_lem (joined 58 (p ∷ ps)) 58
    ∙ sym (join-joined 58 p ps h)
  where
    count : length (a ∷ ((p ∷ ps) ++ z ∷ [])) - 1 - 1 ≡ length (p ∷ ps)
    count = omega (arith, length-append ps (z ∷ []))

last_read : (a p z : Bytes) (ps : List Bytes) → last_part (a ∷ ((p ∷ ps) ++ z ∷ [])) ≡ z
last_read a p z ps =
    ap (λ n. get_or ((a ∷ p ∷ ps) ++ z ∷ []) n []) count ∙ get_or-append (a ∷ p ∷ ps) z [] []
  where
    count : length (a ∷ ((p ∷ ps) ++ z ∷ [])) - 1 ≡ length (a ∷ p ∷ ps)
    count = omega (arith, length-append ps (z ∷ []))

-- The frame of a message is split into its channel, its parts and its checksum.
frame_parts :
    (m : Message) (p : Bytes) (ps : List Bytes)
    → m.channel < 2 ^ 16
    → All (IsPlain 58) (p ∷ ps)
    → m.payload ≡ join 58 (p ∷ ps)
    → split (frame m) 58
      ≡ uint16_to_str m.channel ∷ ((p ∷ ps) ++ hex4 (sum_bytes (summed m) 0) ∷ [])
frame_parts m p ps h plain shape =
    let k : ℕ = sum_bytes (summed m) 0 in
    let chan : Bytes = uint16_to_str m.channel in
    let digits_only : Lacks 58 chan = Lacks-uint16_to_str 58 m.channel (λ d j q. omega arith) h in
    let whole : frame m ≡ joined 58 (chan ∷ ((p ∷ ps) ++ hex4 k ∷ [])) =
      append_assoc chan (58 ∷ m.payload) (58 ∷ hex4 k)
      ∙ ap (λ t. chan ++ 58 ∷ (t ++ 58 ∷ hex4 k)) (shape ∙ join-joined 58 p ps plain)
      ∙ ap (λ t. chan ++ 58 ∷ (joined 58 (p ∷ ps) ++ 58 ∷ t))
          (sym (doubled-Lacks 58 (hex4 k) (Lacks-checksum k)))
      ∙ ap (λ t. chan ++ 58 ∷ t) (sym (joined-append 58 p (hex4 k) ps))
      ∙ ap (λ t. t ++ 58 ∷ joined 58 ((p ∷ ps) ++ hex4 k ∷ []))
          (sym (doubled-Lacks 58 chan digits_only)) in
    ap (λ t. split t 58) whole
    ∙ split-joined 58 chan ((p ∷ ps) ++ hex4 k ∷ []) (
      IsPlain-channel m.channel h,
      All-append (IsPlain 58) (p ∷ ps) (hex4 k ∷ []) plain (IsPlain-hex4 k, tt),
    )

-- What the master reads of a message that the slave has encoded. The parsers read a decimal
-- uint16_t and four hexadecimal digits.
module _ (parse : Bytes → Option ℤ) (parse_hex : Bytes → Option ℕ)
    (parse_reads : (n : ℕ) → n < 2 ^ 16 → parse (uint16_to_str n) ≡ some (pos n))
    (parse_hex_reads : (n : ℕ) → n < 2 ^ 16 → parse_hex (hex4 n) ≡ some n) where
  -- The master decodes what the slave encodes: if encode of opdi_message.c succeeds for a message
  -- whose payload is joined from at least one part, the master reads its channel and its payload
  -- from the bytes in front of the line feed. The channel is a uint16_t, the payload consists of bytes,
  -- and no part is empty or begins with a blank or a colon.
  pub decode-encode_slave :
      (m : Message) (p : Bytes) (ps : List Bytes) (bytes : Bytes)
      → m.channel < 2 ^ 16
      → All (IsPlain 58) (p ∷ ps)
      → m.payload ≡ join 58 (p ∷ ps)
      → All (λ c. c < 256) m.payload
      → Message.encode m ≡ ok (bytes ++ 10 ∷ [])
      → decode parse parse_hex bytes
        ≡ returned (record { channel = pos m.channel; payload = m.payload })
  decode-encode_slave m p ps bytes h plain shape bounded e =
      let k : ℕ = sum_bytes (summed m) 0 in
      let sound = encode_sound m (bytes ++ 10 ∷ []) e in
      let framed : bytes ≡ frame m =
        sym (without_last_lem bytes 10) ∙ ap without_last sound.0 ∙ without_last_lem (frame m) 10 in
      let short : length (frame m) < 255 =
        omega (arith, sound.2, ap length sound.0, length-append (frame m) (10 ∷ [])) in
      let k_lt : k < 65536 = sum_bytes-lt (summed m) 0 (omega arith) in
      decode_steps parse parse_hex bytes _ (pos m.channel)
        (ap (λ t. split t 58) framed ∙ frame_parts m p ps h plain shape)
        (omega (arith, length-append ps (hex4 k ∷ [])))
        (ap parse_hex (last_read (uint16_to_str m.channel) p (hex4 k) ps)
          ∙ parse_hex_reads k k_lt
          ∙ ap some
              (sym (ap (λ t. calc_checksum t % 2 ^ 32) framed ∙ frame_checksum m h bounded short)))
        (parse_reads m.channel h)
      ∙ ap (λ t. returned (record { channel = pos m.channel; payload = t }))
          (join_inner (uint16_to_str m.channel) (hex4 k) p ps plain ∙ sym shape)
