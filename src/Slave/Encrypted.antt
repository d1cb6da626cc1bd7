-- ===== src/Slave/Encrypted.antt =====
-- Encrypted messages from one slave's device to another's (code/c/common/opdi_message.c): what the
-- devices and the block cipher promise.
pub mod Sending
mod Buffer
mod Receiving
mod Blocks
mod Wire
pub mod RoundTrip
pub mod Overflow
mod Tests
use opdi_core.Base.{List, [], ℕ, ◌≡◌, ◌≢◌, Bytes, ◌∷◌, ◌++◌, length, ok}
use opdi_core.Constants.{status_ok, message_terminator}
use opdi_core.Slave.State.{Device, Host}

-- A block cipher on blocks of a size: two functions, of which the second undoes the first.
pub record Cipher (block_size : ℕ) : Type 0 where
  pub encrypt : Bytes → Bytes
  pub decrypt : Bytes → Bytes
  pub length-encrypt : (b : Bytes) → length b ≡ block_size → length (encrypt b) ≡ block_size
  pub decrypt-encrypt : (b : Bytes) → length b ≡ block_size → decrypt (encrypt b) ≡ b

-- A device that can send: what has been sent so far can be seen in the host, each `send` adds its
-- bytes, and the other functions add nothing.
pub record Sends {W : Type 0} (d : Device W) (cipher : Cipher d.block_size) : Type 0 where
  pub sent : Host W → Bytes
  pub send_ok : (bytes : Bytes) (h : Host W) → (d.send bytes h).0 ≡ status_ok
  pub sent-send : (bytes : Bytes) (h : Host W) → sent (d.send bytes h).1 ≡ sent h ++ bytes
  pub encrypts :
      (b : Bytes) (h : Host W)
      → length b ≡ d.block_size
      → (d.encrypt_block b h).0 ≡ ok (cipher.encrypt b)
  pub sent-encrypt : (b : Bytes) (h : Host W) → sent (d.encrypt_block b h).1 ≡ sent h
  pub sent-padding : (h : Host W) → sent (d.padding h).1 ≡ sent h
  pub sent-debug : (text : Bytes) (dir : ℕ) (h : Host W) → sent (d.debug_msg text dir h).1 ≡ sent h

-- A device that can receive: what is left to receive can be seen in the host, each `receive` takes
-- the first byte, and the other functions take nothing.
pub record Receives {W : Type 0} (d : Device W) (cipher : Cipher d.block_size) : Type 0 where
  pub queue : Host W → Bytes
  pub receives :
      (timeout can_send c : ℕ) (q : Bytes) (h : Host W)
      → queue h ≡ c ∷ q
      → ((d.receive timeout can_send h).0 ≡ ok c) × (queue (d.receive timeout can_send h).1 ≡ q)
  pub decrypts : (b : Bytes) (h : Host W) → (d.decrypt_block b h).0 ≡ ok (cipher.decrypt b)
  pub queue-decrypt : (b : Bytes) (h : Host W) → queue (d.decrypt_block b h).1 ≡ queue h
  pub queue-debug :
      (text : Bytes) (dir : ℕ) (h : Host W) → queue (d.debug_msg text dir h).1 ≡ queue h

-- The blocks carry a text with its terminator, which stands in the last block.
unfoldable pub Carries : List Bytes → Bytes → Type 0
Carries [] text = ⊥
Carries (b ∷ []) text = (rest : Bytes) × (b ≡ text ++ message_terminator ∷ rest)
Carries (b ∷ (b' ∷ bs)) text = (text' : Bytes) × (text ≡ b ++ text') × Carries (b' ∷ bs) text'

unfoldable pub concat : List Bytes → Bytes
concat [] = []
concat (b ∷ bs) = b ++ concat bs
