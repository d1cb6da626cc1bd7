-- ===== src/Slave/Encrypted/RoundTrip.antt =====
-- A message that one slave's device sends encrypted is the message that another one receives.
use opdi_core.Base.{
  ◌*◌, ℕ, ◌+◌, ◌≤◌, ◌<◌, ◌≡◌, ◌≢◌, refl, ap, sym, ◌∙◌, Bytes, [], ◌++◌, length, map, subst, Lacks,
  All, arith, ok,
}
use opdi_core.Constants.{status_ok}
use opdi_core.Message.{Message, encode}
use opdi_core.Message.Encode.{frame}
use opdi_core.Message.RoundTrip.{decode-frame}
use opdi_core.Slave.State.{Device, Slave}
use opdi_core.Slave.Transfer.{get_message, put_message, get_encrypted}
use opdi_core.Slave.Encrypted.{Cipher, Sends, Receives, concat}
use opdi_core.Slave.Encrypted.Wire.{sent_blocks, length-concat, get_message_lem}
use opdi_core.Slave.Encrypted.Blocks.{receive_blocks}

module _ {V W : Type 0} (d : Device V) (d' : Device W) (cipher : Cipher d.block_size)
    (cipher' : Cipher d'.block_size) (sends : Sends d cipher) (receives : Receives d' cipher') where
  -- Encrypted messages arrive: if opdi_put_message sends a message with encryption, it returns
  -- OPDI_STATUS_OK, and opdi_get_message of a slave with the same cipher and block size, to which
  -- the bytes that were sent are delivered, returns this message and consumes these bytes and no
  -- more, whatever follows them and whatever is left of older messages in both buffers. The channel
  -- is below 100, the payload has 1 to 246 bytes without NUL, the encoded message and one block
  -- together have at most 256 bytes, and the bound on the rounds is no less than the number of
  -- bytes. The devices send, deliver, encrypt and decrypt without an error.
  pub get_message-put_message :
      d.block_size ≡ d'.block_size
      → cipher.encrypt ≡ cipher'.encrypt
      → 0 < d.block_size
      → (can_send extra : ℕ) (m : Message) (s : Slave V) (s' : Slave W) (bytes wire q : Bytes)
      → s.encryption ≢ 0
      → s'.encryption ≢ 0
      → length s'.msg_buf ≡ 256
      → m.channel < 100
      → 0 < length m.payload
      → length m.payload < 247
      → Lacks 0 m.payload
      → encode m ≡ ok bytes
      → length bytes + d.block_size ≤ 256
      → sends.sent (put_message d m s).1.host ≡ sends.sent s.host ++ wire
      → receives.queue s'.host ≡ wire ++ q
      → ((put_message d m s).0 ≡ status_ok)
        × ((t : Slave W) × (get_message d' (length wire + extra) can_send s' ≡ (ok m, t))
            × (receives.queue t.host ≡ q))
  get_message-put_message same_size same_cipher positive can_send extra m s s' bytes wire q on on'
        buf c fill fit z enc room sent queue =
      let (blocks, done, on_wire, carries, lengths, size, count, lacks) =
        sent_blocks d cipher sends m s bytes wire positive on c enc sent in
      let same : length blocks * d'.block_size ≡ length blocks * d.block_size =
        ap (λ (n : ℕ). length blocks * n) (sym same_size) in
      let wire_length : length wire ≡ length blocks * d'.block_size =
        ap length on_wire ∙ length-concat d.block_size cipher blocks lengths ∙ sym same in
      let (t, eq, rest) =
        receive_blocks d' cipher' receives can_send blocks q [] s'.msg_buf (frame m) extra m s'
          (omega (arith, same_size, positive))
          (subst (λ (n : ℕ). All (λ b. length b ≡ n) blocks) same_size lengths)
          (queue ∙ ap (λ t. t ++ q) (on_wire ∙ ap (λ f. concat (map f blocks)) same_cipher)) refl
          (omega (arith, buf)) (omega (arith, same, count, room)) carries lacks
          (λ rest. decode-frame m rest d'.below_buffer c fill fit z) in
      (
        done,
        (
          t,
          get_message_lem d' (length wire + extra) can_send s' on'
              ∙ ap (λ (n : ℕ). get_encrypted d' (n + extra) can_send [] 0 s') wire_length
              ∙ eq,
          rest,
        ),
      )
