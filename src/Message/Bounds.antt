-- ===== src/Message/Bounds.antt =====
-- What a successful `encode` has written, in code/c/common/opdi_message.c.
use opdi_core.Base.{
  ℕ, ◌+◌, ◌/◌, ◌%◌, ◌<◌, ◌≡◌, ◌≢◌, refl, sym, ap, ◌∙◌, Bytes, [], ◌∷◌, ◌++◌, length, Lacks, arith,
  Result, ok, err, leb, ◌==◌, if◌then◌else◌, append_assoc, append-nil, length-append, Bool,
  All-append, ◌^◌, true, false,
}
use opdi_core.Constants.{error_msgbuf_overflow}
use opdi_core.Platform.{uint16_to_str, string_to_bytes}
use opdi_core.Message.{Message, encode, put_byte, payload_sum, sum_bytes, hex_digit, add16, ◌>>=◌}
use opdi_core.Platform.Text.{Lacks-uint16_to_str}
use opdi_core.Message.Scan.{Lacks-hex4}
use opdi_core.Message.Checksum.{hex4, sum_bytes-append}
use opdi_core.Message.Encode.{frame, summed}

-- A sequence that succeeds has a first step that does.
pub split_bind :
    {A B : Type 0} (step : Result A) (next : A → Result B) (out : B)
    → (step >>= next) ≡ ok out
    → (value : A) × (step ≡ ok value) × (next value ≡ ok out)
split_bind (err status) next out h = cc
split_bind (ok value) next out h = (value, refl, h)

passed :
    {A : Type 0} (t : Bool) (e : ℕ) (x : Result A) (b : A)
    → (if t then err e else x) ≡ ok b
    → (t ≡ false) × (x ≡ ok b)
passed true e x b h = cc
passed false e x b h = (refl, h)

same_ok : {A : Type 0} {a b : A} → ok a ≡ ok b → b ≡ a
same_ok h = cc

written :
    (s dest : Bytes) (max : ℕ) (out : Bytes) → string_to_bytes s dest max ≡ ok out → out ≡ dest ++ s
unfolding string_to_bytes
written [] dest max out h = same_ok h ∙ sym (append-nil dest)
written (c ∷ s) dest max out h =
    written s (dest ++ c ∷ []) max out (passed (leb max (length dest)) _ _ _ h).1
    ∙ append_assoc dest (c ∷ []) s

put_written :
    (c : ℕ) (out out' : Bytes)
    → put_byte c out ≡ ok out'
    → (out' ≡ out ++ c ∷ []) × (length out + 1 < 255)
unfolding put_byte
put_written c out out' h =
    let p = passed (leb 255 (length out + 1)) error_msgbuf_overflow (ok (out ++ c ∷ [])) out' h in
    (same_ok p.1, in_room (length out + 1) p.0)
  where
    in_room : (n : ℕ) → leb 255 n ≡ false → n < 255
    in_room n h = ground arith

put_then :
    (c : ℕ) (out bytes : Bytes) (f : Bytes → Result Bytes)
    → (put_byte c out >>= f) ≡ ok bytes
    → (f (out ++ c ∷ []) ≡ ok bytes) × (length out + 1 < 255)
put_then c out bytes f h =
    let (out', e, r) = split_bind (put_byte c out) f bytes h in
    let w = put_written c out out' e in (ap f (sym w.0) ∙ r, w.1)

bytes_then :
    (s out bytes : Bytes) (f : Bytes → Result Bytes)
    → (string_to_bytes s out 256 >>= f) ≡ ok bytes
    → f (out ++ s) ≡ ok bytes
bytes_then s out bytes f h =
    let (out', e, r) = split_bind (string_to_bytes s out 256) f bytes h in
    ap f (sym (written s out 256 out' e)) ∙ r

summed_up :
    (s : Bytes) (pos sum cs : ℕ)
    → payload_sum s pos sum ≡ ok cs
    → (cs ≡ sum_bytes s sum) × Lacks 10 s
unfolding payload_sum sum_bytes
summed_up [] pos sum cs h = (same_ok h, tt)
summed_up (c ∷ s) pos sum cs h =
    let p = passed (c == 10) _ _ _ h in
    let r = summed_up s (pos + 1) (add16 sum c) cs (passed (leb 255 (pos + 1)) _ _ _ p.1).1 in
    (r.0, (not_ten c p.0, r.1))
  where
    not_ten : (n : ℕ) → (n == 10) ≡ false → n ≢ 10
    not_ten n h = ground arith

sum_then :
    (s : Bytes) (pos sum : ℕ) (bytes : Bytes) (f : ℕ → Result Bytes)
    → (payload_sum s pos sum >>= f) ≡ ok bytes
    → (f (sum_bytes s sum) ≡ ok bytes) × Lacks 10 s
sum_then s pos sum bytes f h =
    let (cs, e, r) = split_bind (payload_sum s pos sum) f bytes h in
    let w = summed_up s pos sum cs e in (ap f (sym w.0) ∙ r, w.1)

six :
    (u : Bytes) (a b c d e f : ℕ)
    → (((((u ++ a ∷ []) ++ b ∷ []) ++ c ∷ []) ++ d ∷ []) ++ e ∷ []) ++ f ∷ []
      ≡ u ++ a ∷ b ∷ c ∷ d ∷ e ∷ f ∷ []
six [] a b c d e f = refl
six (x ∷ u) a b c d e f = ap (λ t. x ∷ t) (six u a b c d e f)

one_more : (s : Bytes) (c : ℕ) → length (s ++ c ∷ []) ≡ length s + 1
one_more s c = length-append s (c ∷ [])

-- What is in neither the digits, the separator nor the payload is not in the frame.
pub Lacks-frame :
    (b : ℕ) (m : Message)
    → m.channel < 2 ^ 16
    → Lacks b m.payload
    → ((d : ℕ) → d < 10 → b'0' + d ≢ b)
    → 58 ≢ b
    → ((n : ℕ) → n < 16 → hex_digit n ≢ b)
    → Lacks b (frame m)
Lacks-frame b m c l digit sep hex =
    All-append (λ x. x ≢ b) (summed m) (58 ∷ hex4 (sum_bytes (summed m) 0))
      (All-append (λ x. x ≢ b) (uint16_to_str m.channel) (58 ∷ m.payload)
        (Lacks-uint16_to_str b m.channel digit c) (sep, l))
      (sep, Lacks-hex4 (sum_bytes (summed m) 0) b hex)

-- Whatever encode produces is the channel, the payload and the checksum of both, with the line feed
-- behind it, and it fits the message buffer; the payload has no line feed.
pub encode_sound :
    (m : Message) (bytes : Bytes)
    → encode m ≡ ok bytes
    → (bytes ≡ frame m ++ 10 ∷ []) × Lacks 10 m.payload × (length bytes < 256)
unfolding encode
encode_sound m bytes h =
    let out1 : Bytes = uint16_to_str m.channel ++ 58 ∷ [] in
    let out2 : Bytes = out1 ++ m.payload in
    let h0 = bytes_then (uint16_to_str m.channel) [] bytes _ h in
    let (h1, l1) = put_then 58 (uint16_to_str m.channel) bytes _ h0 in
    let h2 = bytes_then m.payload out1 bytes _ h1 in
    let (h3, l3) = sum_then m.payload (length out1) (sum_bytes out1 0) bytes _ h2 in
    let cs : ℕ = sum_bytes m.payload (sum_bytes out1 0) in
    let (h4, l4) = put_then 58 out2 bytes _ h3 in
    let (h5, l5) = put_then (hex_digit (cs / 4096 % 16)) _ bytes _ h4 in
    let (h6, l6) = put_then (hex_digit (cs / 256 % 16)) _ bytes _ h5 in
    let (h7, l7) = put_then (hex_digit (cs / 16 % 16)) _ bytes _ h6 in
    let (h8, l8) = put_then (hex_digit (cs % 16)) _ bytes _ h7 in
    let e =
      same_ok h8
      ∙ six out2 58 _ _ _ _ 10
      ∙ ap (λ t. t ++ 58 ∷ (hex4 cs ++ 10 ∷ []))
          (append_assoc (uint16_to_str m.channel) (58 ∷ []) m.payload)
      ∙ ap (λ n. summed m ++ 58 ∷ (hex4 n ++ 10 ∷ []))
          (sym (sum_bytes-append out1 m.payload 0)
            ∙ ap (λ t. sum_bytes t 0) (append_assoc (uint16_to_str m.channel) (58 ∷ []) m.payload))
      ∙ sym (append_assoc (summed m) (58 ∷ hex4 (sum_bytes (summed m) 0)) (10 ∷ [])) in
    (
      e,
      l3,
      omega (arith, l8, ap length (same_ok h8), one_more _ 10, one_more _ (hex_digit (cs % 16))),
    )
