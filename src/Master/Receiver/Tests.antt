-- ===== src/Master/Receiver/Tests.antt =====
-- Two messages in three chunks, and the rest of an encrypted block.
use opdi_core.Base.{◌≡◌, refl, Bytes, List, [], ◌∷◌, ◌++◌, codes, arith, ok, true, false}
use opdi_core.Master.{returned}
use opdi_core.Master.OpdiMessage.Tests.{
  read_number, read_hex, read_number_lem, read_hex_lem, answer, answer_parts, answer-IsPlain,
  answer_joined, answer_bytes, answer_no_nul, answer_encoded,
}
use opdi_core.Master.Receiver.{started, receive, take_bytes, push_back, part_of, messages}
use opdi_core.Master.Receiver.Transmission.{encode_all, IsReadable, as_read, receive-encode_all}
use opdi_core.Master.Receiver.Chunks.{receive-concat, concat}

abbrev line : Bytes
line = codes "21:DS:d1:3:1:02db\n"

abbrev chunks : List Bytes
chunks = codes "21:DS:d" ∷ codes "1:3:1:02db\n21" ∷ codes ":DS:d1:3:1:02db\n" ∷ []

-- What follows the terminator in an encrypted block is lost.
block_rest :
    (receive true (codes "a\nb" ∷ codes "c\n" ∷ []) started).0
    ≡ (codes "a" ++ 0 ∷ []) ∷ (codes "c" ++ 0 ∷ []) ∷ []
unfolding receive take_bytes push_back part_of
block_rest = refl

answer-IsReadable : IsReadable answer
answer-IsReadable = (
  omega arith,
  answer_bytes,
  answer_no_nul,
  (codes "DS", answer_parts, answer-IsPlain, answer_joined),
)

receive-concat_example : receive false chunks started ≡ take_bytes false (concat chunks) started
receive-concat_example = receive-concat chunks started

encoded : encode_all (answer ∷ answer ∷ []) ≡ ok (line ++ line)
encoded = rw (answer_encoded) refl

receive-encode_all_example :
    (messages read_number read_hex (receive false chunks started).0
      ≡ returned (as_read answer) ∷ returned (as_read answer) ∷ [])
    × ((receive false chunks started).1 ≡ started)
receive-encode_all_example =
    receive-encode_all read_number read_hex read_number_lem read_hex_lem (answer ∷ answer ∷ [])
      (line ++ line) chunks encoded (answer-IsReadable, (answer-IsReadable, tt)) refl
