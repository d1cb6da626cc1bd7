-- ===== src/Master/Receiver.antt =====
-- The receiving side of `MessageProcessor::run` in code/c/common/master/opdi_MessageQueueDevice.cpp:
-- the bytes come in chunks of at most 32, or in blocks if the connection is encrypted, and are put
-- together to messages.
pub mod Chunks
pub mod Transmission
mod Tests
use opdi_core.Base.{
  ℕ, ◌+◌, Bool, true, false, Bytes, List, [], ◌∷◌, ◌++◌, ◌==◌, length, take, map, Option, none,
  some, ℤ,
}
use opdi_core.Constants.{message_terminator}
use opdi_core.Strings.{c_string}
use opdi_core.Master.{Outcome}
use opdi_core.Master.OpdiMessage.{OpdiMessage, decode}

-- The variables that live through the rounds of the loop.
pub record Receiver : Type 0 where
  pub message : Bytes
  pub bytes_processed : ℕ

abbrev pub started : Receiver
started = record { message = []; bytes_processed = 0 }

-- `message.push_back(buffer[bufferEnd])` and `bytesProcessed++`.
unfoldable pub push_back : ℕ → Receiver → Receiver
push_back c st = record { message = st.message ++ c ∷ []; bytes_processed = st.bytes_processed + 1 }

-- `part`: the message with its NUL, up to `terminatorPos`, which is `bytesProcessed`.
unfoldable pub part_of : Receiver → Bytes
part_of st = take (st.bytes_processed + 1) (st.message ++ 0 ∷ [])

-- The bytes of one call of `read` or `read_block` from `bufferEnd` on: the parts that are complete,
-- and the variables afterwards. The two loops over the buffer are one here. With encryption what
-- follows a terminator in its block is discarded.
unfoldable pub take_bytes : Bool → Bytes → Receiver → List Bytes × Receiver
unfolding push_back part_of
take_bytes encrypted [] st = ([], st)
take_bytes encrypted (c ∷ buffer) st = elim (c == message_terminator) [
  | false ↦ take_bytes encrypted buffer (push_back c st)
  | true ↦ elim encrypted [
    | true ↦ (part_of st ∷ [], started)
    | false ↦ let (parts, st') = take_bytes false buffer started in (part_of st ∷ parts, st')
  ]
]

-- The rounds of the loop, one for each chunk that is read.
unfoldable pub receive : Bool → List Bytes → Receiver → List Bytes × Receiver
unfolding take_bytes
receive encrypted [] st = ([], st)
receive encrypted (chunk ∷ chunks) st =
    let (parts, st1) = take_bytes encrypted chunk st in
    let (more, st2) = receive encrypted chunks st1 in (parts ++ more, st2)

-- What decoding makes of the parts, in their order.
unfoldable pub messages :
    (Bytes → Option ℤ) → (Bytes → Option ℕ) → List Bytes → List (Outcome OpdiMessage)
unfolding decode
messages parse parse_hex parts = map (λ part. decode parse parse_hex (c_string part)) parts
