-- ===== src/Slave/Encrypted/Wire.antt =====
-- The bytes that `put_message` sends with encryption.
use opdi_core.Base.{
  ◌*◌, ℕ, ◌+◌, ◌-◌, ◌<◌, ◌≡◌, ◌≢◌, refl, ap, sym, ◌∙◌, List, Bytes, [], ◌∷◌, ◌++◌, length, map,
  ◌==◌, false, length-append, Lacks, All, arith, take, drop, drop-append, ok,
}
use opdi_core.Constants.{status_ok, message_terminator, dir_outgoing_encr}
use opdi_core.Message.{Message, encode}
use opdi_core.Message.Checksum.{hex_digit_plain}
use opdi_core.Message.Encode.{frame}
use opdi_core.Message.Bounds.{encode_sound, Lacks-frame}
use opdi_core.Slave.State.{Device, Slave}
use opdi_core.Slave.Transfer.{get_message, put_message, get_encrypted, put_encrypted, debug}
use opdi_core.Slave.Encrypted.{Cipher, Sends, Carries, concat}
use opdi_core.Slave.Encrypted.Sending.{put_encrypted_lem}

append_cancel : (xs ys zs : Bytes) → xs ++ ys ≡ xs ++ zs → ys ≡ zs
append_cancel xs ys zs h = sym (drop-append xs ys) ∙ ap (drop (length xs)) h ∙ drop-append xs zs

pub length-concat :
    (size : ℕ) (cipher : Cipher size) (blocks : List Bytes)
    → All (λ b. length b ≡ size) blocks
    → length (concat (map cipher.encrypt blocks)) ≡ length blocks * size
unfolding concat
length-concat size cipher [] h = omega arith
length-concat size cipher (b ∷ blocks) h =
    length-append (cipher.encrypt b) (concat (map cipher.encrypt blocks))
    ∙ ap (λ (n : ℕ). n + length (concat (map cipher.encrypt blocks))) (cipher.length-encrypt b h.0)
    ∙ ap (λ (n : ℕ). size + n) (length-concat size cipher blocks h.1)
    ∙ grind arith

is_on : (n : ℕ) → n ≢ 0 → (n == 0) ≡ false
is_on n h = ground arith

-- What `put_message` does before it sends.
abbrev before_sending : {W : Type 0} → Device W → Bytes → Slave W → Slave W
before_sending d bytes s =
    (debug d (take (length bytes - 1) bytes) dir_outgoing_encr
      (record s { msg_buf = bytes ++ drop (length bytes) s.msg_buf })).1

put_message_lem :
    {W : Type 0} (d : Device W) (m : Message) (bytes : Bytes) (s : Slave W)
    → s.encryption ≢ 0
    → encode m ≡ ok bytes
    → put_message d m s ≡ put_encrypted d (length bytes) bytes (before_sending d bytes s)
unfolding put_message debug
put_message_lem d m bytes s on enc = rw (enc, is_on s.encryption on) refl

pub get_message_lem :
    {W : Type 0} (d : Device W) (rounds can_send : ℕ) (s : Slave W)
    → s.encryption ≢ 0
    → get_message d rounds can_send s ≡ get_encrypted d rounds can_send [] 0 s
unfolding get_message
get_message_lem d rounds can_send s on = rw (is_on s.encryption on) refl

module _ {V : Type 0} (d : Device V) (cipher : Cipher d.block_size) (sends : Sends d cipher) where
  sent_before :
      (s : Slave V) (bytes : Bytes) → sends.sent (before_sending d bytes s).host ≡ sends.sent s.host
  unfolding debug
  sent_before s bytes = sends.sent-debug (take (length bytes - 1) bytes) dir_outgoing_encr s.host

  -- What is sent are blocks that carry the frame.
  pub sent_blocks :
      (m : Message) (s : Slave V) (bytes wire : Bytes)
      → 0 < d.block_size
      → s.encryption ≢ 0
      → m.channel < 100
      → encode m ≡ ok bytes
      → sends.sent (put_message d m s).1.host ≡ sends.sent s.host ++ wire
      → (blocks : List Bytes) × ((put_message d m s).0 ≡ status_ok)
        × (wire ≡ concat (map cipher.encrypt blocks))
        × Carries blocks (frame m)
        × All (λ b. length b ≡ d.block_size) blocks
        × (length bytes ≡ length (frame m) + 1)
        × (length blocks * d.block_size < length bytes + d.block_size)
        × Lacks message_terminator (frame m)
  sent_blocks m s bytes wire positive on c enc sent =
      let (shape, no_lf, fits) = encode_sound m bytes enc in
      let s1 = before_sending d bytes s in
      let size : length bytes ≡ length (frame m) + 1 =
        ap length shape ∙ length-append (frame m) (message_terminator ∷ []) in
      let (blocks, h, result, carries, lengths, count, sent1) =
        put_encrypted_lem d cipher sends (length bytes) (frame m) s1 positive
          (omega (arith, size)) in
      let done : put_message d m s ≡ (status_ok, record s1 { host = h }) =
        put_message_lem d m bytes s on enc
        ∙ ap (λ t. put_encrypted d (length bytes) t s1) shape
        ∙ result in
      (
        blocks,
        ap (λ (r : ℕ × Slave V). r.0) done,
        append_cancel (sends.sent s.host) wire (concat (map cipher.encrypt blocks)) (
            sym sent
            ∙ ap (λ (r : ℕ × Slave V). sends.sent r.1.host) done
            ∙ sent1
            ∙ ap (λ t. t ++ concat (map cipher.encrypt blocks)) (sent_before s bytes)),
        carries,
        lengths,
        size,
        omega (arith, count, size),
        Lacks-frame 10 m (omega arith) no_lf (λ k h q. omega arith) (λ q. absurd (omega arith))
            (λ n h. (hex_digit_plain n h).2),
      )
