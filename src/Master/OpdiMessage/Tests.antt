-- ===== src/Master/OpdiMessage/Tests.antt =====
-- The master's messages at concrete inputs, with parsers that read plain numbers.
use opdi_core.Base.{
  ℕ, ◌+◌, ◌*◌, ◌/◌, ◌%◌, ◌^◌, ◌<◌, ◌≡◌, refl, ap, Bytes, List, [], ◌∷◌, ◌++◌, codes, Lacks, All,
  arith, pos, ℤ, Option, some, none, Result, ok, err,
}
use opdi_core.Platform.{uint16_to_str, digits, str_to_uint16}
use opdi_core.Platform.RoundTrip.{str_to_uint16-uint16_to_str}
use opdi_core.Message.{Message, nibble_of, sum_bytes, payload_sum, put_byte, hex_digit}
use opdi_core.Message.Checksum.{hex4, nibble-hex_digit}
use opdi_core.Message
use opdi_core.Master.{returned}
use opdi_core.Master.StringTools.{join, join_some, join_loop, join_chars, not_empty}
use opdi_core.Master.StringTools.RoundTrip.{IsPlain}
use opdi_core.Master.OpdiMessage.{encode}
use opdi_core.Master.OpdiMessage.Encode.{encode-encode}

abbrev pub read_result : Result ℕ → Option ℤ
read_result (ok n) = some (pos n)
read_result (err e) = none

-- A decimal uint16_t.
abbrev pub read_number : Bytes → Option ℤ
read_number s = read_result (str_to_uint16 s)

abbrev pub read_nibbles : Result ℕ → Result ℕ → Result ℕ → Result ℕ → Option ℕ
read_nibbles (ok a) (ok b) (ok c) (ok d) = some (4096 * a + 256 * b + 16 * c + d)
read_nibbles _ _ _ _ = none

-- Four hexadecimal digits.
abbrev pub read_hex : Bytes → Option ℕ
read_hex (a ∷ b ∷ c ∷ d ∷ []) = read_nibbles (nibble_of a) (nibble_of b) (nibble_of c) (nibble_of d)
read_hex _ = none

pub read_number_lem : (n : ℕ) → n < 2 ^ 16 → read_number (uint16_to_str n) ≡ some (pos n)
read_number_lem n h = ap read_result (str_to_uint16-uint16_to_str n h)

pub read_hex_lem : (n : ℕ) → n < 2 ^ 16 → read_hex (hex4 n) ≡ some n
read_hex_lem n h =
    rw
      (
        nibble-hex_digit (n / 4096 % 16) (omega arith),
        nibble-hex_digit (n / 256 % 16) (omega arith),
        nibble-hex_digit (n / 16 % 16) (omega arith),
        nibble-hex_digit (n % 16) (omega arith),
      )
      (ap some (omega arith))

abbrev pub answer : Message
answer = record { channel = 21; payload = codes "DS:d1:3:1" }

pub answer_encoded : Message.encode answer ≡ ok (codes "21:DS:d1:3:1:02db" ++ 10 ∷ [])
unfolding Message.encode sum_bytes payload_sum put_byte hex_digit uint16_to_str digits
    opdi_core.Platform.string_to_bytes
answer_encoded = refl

abbrev pub answer_parts : List Bytes
answer_parts = codes "d1" ∷ codes "3" ∷ codes "1" ∷ []

pub answer-IsPlain : All (IsPlain 58) (codes "DS" ∷ answer_parts)
answer-IsPlain = (
  ((λ e. absurd (omega arith)), (λ e. absurd (omega arith))),
  (
    ((λ e. absurd (omega arith)), (λ e. absurd (omega arith))),
    (
      ((λ e. absurd (omega arith)), (λ e. absurd (omega arith))),
      (((λ e. absurd (omega arith)), (λ e. absurd (omega arith))), tt),
    ),
  ),
)

pub answer_joined : answer.payload ≡ join 58 (codes "DS" ∷ answer_parts)
unfolding join join_some join_loop join_chars not_empty
answer_joined = refl

pub answer_bytes : All (λ c. c < 256) answer.payload
answer_bytes = (
  omega arith,
  (
    omega arith,
    (
      omega arith,
      (omega arith, (omega arith, (omega arith, (omega arith, (omega arith, (omega arith, tt)))))),
    ),
  ),
)

pub answer_no_nul : Lacks 0 answer.payload
answer_no_nul = (
  (λ e. absurd (omega arith)),
  (
    (λ e. absurd (omega arith)),
    (
      (λ e. absurd (omega arith)),
      (
        (λ e. absurd (omega arith)),
        (
          (λ e. absurd (omega arith)),
          (
            (λ e. absurd (omega arith)),
            (
              (λ e. absurd (omega arith)),
              ((λ e. absurd (omega arith)), ((λ e. absurd (omega arith)), tt)),
            ),
          ),
        ),
      ),
    ),
  ),
)

encode-encode_example :
    encode (record { channel = pos 21; payload = codes "DS:d1:3:1" }) 1024
    ≡ returned (codes "21:DS:d1:3:1:02db" ++ 10 ∷ [], 18)
encode-encode_example =
    encode-encode answer (codes "21:DS:d1:3:1:02db" ++ 10 ∷ []) 1024 (omega arith) answer_no_nul
      answer_encoded (omega arith)
