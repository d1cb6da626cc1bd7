-- ===== src/Message/RoundTrip.antt =====
-- `decode` reads back what `encode` writes, in code/c/common/opdi_message.c.
use opdi_core.Base.{
  ℕ, ◌<◌, ◌≡◌, ◌≢◌, ◌∙◌, Bytes, [], ◌∷◌, ◌++◌, length, Lacks, arith, ok, err, ◌==◌, not,
}
use opdi_core.Constants.{message_separator, error_malformed_message}
use opdi_core.Platform.Text.{length-uint16_to_str, Lacks-uint16_to_str}
use opdi_core.Platform.RoundTrip.{str_to_uint16-uint16_to_str}
use opdi_core.Platform.{uint16_to_str}
use opdi_core.Message.{Message, encode, decode, sum_bytes, refuse, ◌>>◌}
use opdi_core.Message.Checksum.{hex4, sum_bytes-lt}
use opdi_core.Message.Encode.{frame, summed, encode_lem}
use opdi_core.Message.Frame.{decode_framed}

-- The message with a given checksum.
abbrev pub framed : Message → ℕ → Bytes
framed m k = summed m ++ message_separator ∷ hex4 k

frame_result :
    (m : Message) (junk : Bytes) (below k : ℕ)
    → m.channel < 100
    → 0 < length m.payload
    → length m.payload < 247
    → Lacks 0 m.payload
    → k < 65536
    → decode below (framed m k ++ 0 ∷ junk)
      ≡ (refuse (not (sum_bytes (summed m) 0 == k)) error_malformed_message >> ok m)
frame_result m junk below k c some short z lt =
    decode_framed (uint16_to_str m.channel) m.payload junk below k lt
      (Lacks-uint16_to_str 0 m.channel (λ d h e. omega arith) (omega arith))
      (Lacks-uint16_to_str 58 m.channel (λ d h e. omega arith) (omega arith))
      (omega (arith, length-uint16_to_str 1 m.channel c (omega arith))) z some short m.channel
      (str_to_uint16-uint16_to_str m.channel (omega arith))

-- Decoding a buffer that holds the frame of a message, a terminator and whatever an older message
-- left behind it, with any byte in front of the buffer, gives the message. Its channel is below
-- 100 and its payload has 1 to 246 bytes, none of which is NUL.
pub decode-frame :
    (m : Message) (junk : Bytes) (below : ℕ)
    → m.channel < 100
    → 0 < length m.payload
    → length m.payload < 247
    → Lacks 0 m.payload
    → decode below (frame m ++ 0 ∷ junk) ≡ ok m
decode-frame m junk below c some short z =
    frame_result m junk below (sum_bytes (summed m) 0) c some short z
      (sum_bytes-lt (summed m) 0 (omega arith))
    ∙ when_same _
  where
    when_same : (n : ℕ) → refuse (not (n == n)) error_malformed_message >> ok m ≡ ok m
    when_same n = ground arith

-- decode refuses, with OPDI_ERROR_MALFORMED_MESSAGE, the frame of a message that carries any other
-- uint16_t than its checksum. The message has a channel below 100 and a payload of 1 to 246 bytes
-- without NUL; what lies in front of the frame and behind its terminator does not matter.
pub decode_wrong_checksum :
    (m : Message) (junk : Bytes) (below k : ℕ)
    → m.channel < 100
    → 0 < length m.payload
    → length m.payload < 247
    → Lacks 0 m.payload
    → k < 65536
    → k ≢ sum_bytes (summed m) 0
    → decode below (framed m k ++ 0 ∷ junk) ≡ err error_malformed_message
decode_wrong_checksum m junk below k c some short z lt ne =
    frame_result m junk below k c some short z lt ∙ when_other _ ne
  where
    when_other :
        (n : ℕ)
        → k ≢ n
        → refuse (not (n == k)) error_malformed_message >> ok m ≡ err error_malformed_message
    when_other n h = ground arith

-- For a channel below 100 and a payload of 1 to 246 bytes without NUL and line feed, encode succeeds
-- and ends in a line feed, and decode gives the message back from the bytes in front of it with a
-- terminator behind them, as opdi_get_message stores them, whatever an older message left behind
-- the terminator and whatever byte lies in front of the buffer.
pub decode-encode :
    (m : Message) (junk : Bytes) (below : ℕ)
    → m.channel < 100
    → 0 < length m.payload
    → length m.payload < 247
    → Lacks 0 m.payload
    → Lacks 10 m.payload
    → (bytes : Bytes) × (encode m ≡ ok (bytes ++ 10 ∷ []))
      × (decode below (bytes ++ 0 ∷ junk) ≡ ok m)
decode-encode m junk below c some short z l = (
  frame m,
  encode_lem m l (omega (arith, length-uint16_to_str 1 m.channel c (omega arith))),
  decode-frame m junk below c some short z,
)
