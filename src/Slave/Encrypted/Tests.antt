-- ===== src/Slave/Encrypted/Tests.antt =====
-- The theorems on encrypted messages at concrete inputs.
use opdi_core.Base.{
  ◌+◌, ◌-◌, ◌≡◌, ℕ, ◌++◌, refl, ap, ◌∙◌, arith, codes, [], ◌∷◌, map, ok, Bytes, length, replicate,
  ltb, if◌then◌else◌, suc,
}
use opdi_core.Message.{Message, encode, sum_bytes, payload_sum, put_byte, hex_digit}
use opdi_core.Platform.{uint16_to_str, digits, string_to_bytes}
use opdi_core.Slave.State.{Device, Slave, Host}
use opdi_core.Slave.Transfer.{put_message, get_message, get_encrypted}
use opdi_core.Slave.Encrypted.{Cipher, Sends, Receives}
use opdi_core.Slave.Encrypted.RoundTrip.{get_message-put_message}
use opdi_core.Slave.Encrypted.Overflow.{get_message_loses}
use opdi_core.Slave.Tests.Toy.{toy, idle}
use opdi_core.Slave.Tests.{hello, hello_text, hello_encoded}

-- A cipher that changes the highest bit.
abbrev flip : ℕ → ℕ
flip c = if ltb c 128 then c + 128 else if ltb c 256 then c - 128 else c

flip-flip : (c : ℕ) → flip (flip c) ≡ c
flip-flip c = ground arith

length-flip : (b : Bytes) → length (map flip b) ≡ length b
length-flip [] = refl
length-flip (c ∷ b) = ap suc (length-flip b)

map-flip : (b : Bytes) → map flip (map flip b) ≡ b
map-flip [] = refl
map-flip (c ∷ b) = λ i. flip-flip c i ∷ map-flip b i

abbrev flipping : Cipher 16
flipping = record {
  encrypt = map flip;
  decrypt = map flip;
  length-encrypt = λ b h. length-flip b ∙ h;
  decrypt-encrypt = λ b h. map-flip b;
}

-- A device whose world is what it has sent, or what it will receive.
abbrev crypt : Device Bytes
crypt = record toy {
  send = λ bytes h. (0, record h { world = h.world ++ bytes });
  encrypt_block = λ block h. (ok (map flip block), h);
  decrypt_block = λ block h. (ok (map flip block), h);
}

crypt-Sends : Sends crypt flipping
crypt-Sends = record {
  sent = λ h. h.world;
  send_ok = λ bytes h. refl;
  sent-send = λ bytes h. refl;
  encrypts = λ b h len. refl;
  sent-encrypt = λ b h. refl;
  sent-padding = λ h. refl;
  sent-debug = λ text dir h. refl;
}

crypt-receives :
    (timeout can_send c : ℕ) (q : Bytes) (h : Host Bytes)
    → h.world ≡ c ∷ q
    → ((crypt.receive timeout can_send h).0 ≡ ok c)
      × ((crypt.receive timeout can_send h).1.world ≡ q)
crypt-receives timeout can_send c q h e = rw e (refl, refl)

crypt-Receives : Receives crypt flipping
crypt-Receives = record {
  queue = λ h. h.world;
  receives = crypt-receives;
  decrypts = λ b h. refl;
  queue-decrypt = λ b h. refl;
  queue-debug = λ text dir h. refl;
}

abbrev encrypting : Bytes → Slave Bytes
encrypting incoming = record (idle incoming) { encryption = 1 }

abbrev wire : Bytes
wire = (put_message crypt hello (encrypting [])).1.host.world

get_message-put_message_example :
    ((put_message crypt hello (encrypting [])).0 ≡ 0)
    × ((t : Slave Bytes) × (get_message crypt (length wire + 3) 1 (encrypting (wire ++ codes "xyz"))
          ≡ (ok hello, t))
        × (t.host.world ≡ codes "xyz"))
unfolding crypt-Sends put_message crypt-Receives
get_message-put_message_example =
    get_message-put_message crypt crypt flipping flipping crypt-Sends crypt-Receives refl refl
      (omega arith) 1 3 hello (encrypting []) (encrypting (wire ++ codes "xyz")) hello_text wire
      (codes "xyz") (λ q. absurd (omega arith)) (λ q. absurd (omega arith)) refl (omega arith)
      (omega arith) (omega arith) ((λ q. absurd (omega arith)), ((λ q. absurd (omega arith)), tt))
      hello_encoded (omega arith) refl refl

abbrev long : Message
long = record { channel = 20; payload = replicate 240 b'a' }

abbrev long_text : Bytes
long_text = codes "20:" ++ (replicate 240 b'a' ++ codes ":5b8c\n")

long_encoded : encode long ≡ ok long_text
unfolding encode sum_bytes payload_sum put_byte hex_digit uint16_to_str digits string_to_bytes
long_encoded = refl

abbrev long_wire : Bytes
long_wire = (put_message crypt long (encrypting [])).1.host.world

get_message_loses_example :
    ((put_message crypt long (encrypting [])).0 ≡ 0)
    × ((t : Slave Bytes) × (get_message crypt
            (length long_wire + 2)
            1
            (encrypting (long_wire ++ codes "xyz"))
          ≡ get_encrypted crypt 2 1 [] 0 t)
        × (t.host.world ≡ codes "xyz"))
unfolding crypt-Sends put_message crypt-Receives
get_message_loses_example =
    get_message_loses crypt crypt flipping flipping crypt-Sends crypt-Receives refl refl refl 1 2
      long (encrypting []) (encrypting (long_wire ++ codes "xyz")) long_text long_wire (codes "xyz")
      (λ q. absurd (omega arith)) (λ q. absurd (omega arith)) refl (omega arith) long_encoded
      (omega arith) refl refl
