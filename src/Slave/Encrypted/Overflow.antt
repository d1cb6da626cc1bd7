-- ===== src/Slave/Encrypted/Overflow.antt =====
-- An encrypted message whose blocks fill the whole buffer is not received.
use opdi_core.Base.{
  ◌*◌, ℕ, ◌+◌, ◌<◌, ◌≡◌, ◌≢◌, refl, ap, sym, ◌∙◌, List, Bytes, [], ◌∷◌, ◌++◌, length, map,
  length-append, append_assoc, append-nil, subst, Lacks, All, All-split, arith, drop, length-drop,
  ok,
}
use opdi_core.Constants.{status_ok, message_terminator}
use opdi_core.Message.{Message, encode}
use opdi_core.Message.Encode.{frame}
use opdi_core.Message.Bounds.{encode_sound}
use opdi_core.Slave.State.{Device, Slave}
use opdi_core.Slave.Transfer.{get_message, put_message, get_encrypted}
use opdi_core.Slave.Encrypted.{Cipher, Sends, Receives, Carries, concat}
use opdi_core.Slave.Encrypted.Receiving.{overflow, received, may_send}
use opdi_core.Slave.Encrypted.Wire.{sent_blocks, length-concat, get_message_lem}
use opdi_core.Slave.Encrypted.Blocks.{suc_times, take_front, pass_block}

-- The blocks have room for the text and its terminator.
length-Carries :
    (size : ℕ) (blocks : List Bytes) (text : Bytes)
    → Carries blocks text
    → All (λ b. length b ≡ size) blocks
    → length text < length blocks * size
unfolding Carries
length-Carries size [] text h len = elim h [ ]
length-Carries size (b ∷ []) text (rest, shape) len =
    omega (arith, ap length shape, length-append text (message_terminator ∷ rest), len.0)
length-Carries size (b ∷ (b' ∷ bs)) text (text', shape, carries) len = omega (
  arith,
  ap length shape,
  length-append b text',
  len.0,
  length-Carries size (b' ∷ bs) text' carries len.1,
  suc_times (length (b' ∷ bs)) size,
)

module _ {W : Type 0} (d : Device W) (cipher : Cipher d.block_size) (receives : Receives d cipher)
    (can_send : ℕ) where
  lose_blocks :
      (blocks : List Bytes) (q pre tail text : Bytes) (rounds : ℕ) (s : Slave W)
      → 0 < d.block_size
      → All (λ b. length b ≡ d.block_size) blocks
      → receives.queue s.host ≡ concat (map cipher.encrypt blocks) ++ q
      → s.msg_buf ≡ pre ++ tail
      → length pre + length tail ≡ 256
      → length pre + length blocks * d.block_size ≡ 256
      → Carries blocks text
      → Lacks message_terminator text
      → (t : Slave W) × (get_encrypted d
            (length blocks * d.block_size + rounds)
            can_send
            []
            (length pre)
            s
          ≡ get_encrypted d rounds can_send [] 0 t)
        × (receives.queue t.host ≡ q)
  unfolding Carries concat
  lose_blocks [] q pre tail text rounds s positive len queue buf size full carries lacks =
      elim carries [ ]
  lose_blocks (b ∷ []) q pre tail text rounds s positive len queue buf size full carries lacks =
      let (front, c, h, shape, queue', eq) =
        take_front d cipher receives can_send b q (length pre) rounds s positive len.0
          (queue ∙ ap (λ t. t ++ q) (append-nil (cipher.encrypt b))) (omega arith) in
      let s0 = record s { host = h } in
      let block : length (front ++ c ∷ []) ≡ d.block_size =
        ap length (sym shape) ∙ cipher.length-encrypt b len.0 in
      (
        record s0 { host = received d cipher receives can_send front (length pre) s0 },
        ap (λ t. get_encrypted d t can_send [] (length pre) s) (omega arith)
            ∙ eq
            ∙ overflow d cipher receives can_send c front q (length pre) rounds s0 queue'
                (omega arith),
        (receives.receives s.timeout (may_send d cipher receives can_send front (length pre)) c q h
            queue').1,
      )
  lose_blocks (b ∷ (b' ∷ bs)) q pre tail text rounds s positive len queue buf size full
        (text', shape, carries) lacks =
      let later = concat (map cipher.encrypt (b' ∷ bs)) ++ q in
      let n = length (b' ∷ bs) in
      let behind = drop (length b) tail in
      let place : length (pre ++ b) ≡ length pre + d.block_size =
        length-append pre b ∙ ap (λ (k : ℕ). length pre + k) len.0 in
      let parts =
        All-split (λ c. c ≢ message_terminator) b text'
          (subst (Lacks message_terminator) shape lacks) in
      let product = suc_times n d.block_size in
      let more = suc_times (length bs) d.block_size in
      let (h, queue', eq) =
        pass_block d cipher receives can_send b later pre tail (n * d.block_size + rounds) s
          positive len.0
          (queue ∙ append_assoc (cipher.encrypt b) (concat (map cipher.encrypt (b' ∷ bs))) q) buf
          size (omega (arith, full, product, more, positive)) parts.0 in
      let s1 = record s { host = h; msg_buf = pre ++ (b ++ behind) } in
      let (t, eq', rest) =
        lose_blocks (b' ∷ bs) q (pre ++ b) behind text' rounds s1 positive len.1 queue'
          (sym (append_assoc pre b behind))
          (omega (arith, place, len.0, length-drop (length b) tail, size, full, product))
          (omega (arith, place, full, product)) carries parts.1 in
      (
        t,
        ap (λ t. get_encrypted d t can_send [] (length pre) s) (omega (arith, product))
            ∙ eq
            ∙ ap (λ (k : ℕ). get_encrypted d (n * d.block_size + rounds) can_send [] k s1)
                (sym place)
            ∙ eq',
        rest,
      )

module _ {V W : Type 0} (d : Device V) (d' : Device W) (cipher : Cipher d.block_size)
    (cipher' : Cipher d'.block_size) (sends : Sends d cipher) (receives : Receives d' cipher') where
  -- A long encrypted message is lost: with blocks of 16 bytes, opdi_put_message sends a message
  -- whose encoded form has more than 240 bytes and returns OPDI_STATUS_OK, but opdi_get_message of a
  -- slave with the same cipher, to which the bytes are delivered, takes them all and is then where
  -- it starts, whatever the bound on the rounds is. The channel is below 100, and the devices send,
  -- deliver, encrypt and decrypt without an error.
  pub get_message_loses :
      d.block_size ≡ 16
      → d'.block_size ≡ 16
      → cipher.encrypt ≡ cipher'.encrypt
      → (can_send rounds : ℕ) (m : Message) (s : Slave V) (s' : Slave W) (bytes wire q : Bytes)
      → s.encryption ≢ 0
      → s'.encryption ≢ 0
      → length s'.msg_buf ≡ 256
      → m.channel < 100
      → encode m ≡ ok bytes
      → 240 < length bytes
      → sends.sent (put_message d m s).1.host ≡ sends.sent s.host ++ wire
      → receives.queue s'.host ≡ wire ++ q
      → ((put_message d m s).0 ≡ status_ok)
        × ((t : Slave W) × (get_message d' (length wire + rounds) can_send s'
              ≡ get_encrypted d' rounds can_send [] 0 t)
            × (receives.queue t.host ≡ q))
  get_message_loses is_16 is_16' same_cipher can_send rounds m s s' bytes wire q on on' buf c enc
        long sent queue =
      let (blocks, done, on_wire, carries, lengths, size, count, lacks) =
        sent_blocks d cipher sends m s bytes wire (omega (arith, is_16)) on c enc sent in
      let (shape, no_lf, fits) = encode_sound m bytes enc in
      let sizes = ap (λ (n : ℕ). length blocks * n) is_16 in
      let sizes' = ap (λ (n : ℕ). length blocks * n) is_16' in
      let least = length-Carries d.block_size blocks (frame m) carries lengths in
      let whole : length blocks ≡ 16 =
        omega (arith, sizes, count, least, long, size, fits, is_16) in
      let wire_length : length wire ≡ length blocks * d'.block_size =
        ap length on_wire ∙ length-concat d.block_size cipher blocks lengths ∙ sizes ∙ sym sizes' in
      let (t, eq, rest) =
        lose_blocks d' cipher' receives can_send blocks q [] s'.msg_buf (frame m) rounds s'
          (omega (arith, is_16'))
          (subst (λ (n : ℕ). All (λ b. length b ≡ n) blocks) (is_16 ∙ sym is_16') lengths)
          (queue ∙ ap (λ t. t ++ q) (on_wire ∙ ap (λ f. concat (map f blocks)) same_cipher)) refl
          (omega (arith, buf)) (omega (arith, sizes', whole)) carries lacks in
      (
        done,
        (
          t,
          get_message_lem d' (length wire + rounds) can_send s' on'
              ∙ ap (λ (n : ℕ). get_encrypted d' (n + rounds) can_send [] 0 s') wire_length
              ∙ eq,
          rest,
        ),
      )
