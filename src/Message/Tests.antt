-- ===== src/Message/Tests.antt =====
-- The format at concrete inputs.
use opdi_core.Base.{◌≡◌, ◌≢◌, ◌<◌, refl, codes, ok, err, [], ◌∷◌, ◌++◌, Bytes, Lacks, length, arith}
use opdi_core.Constants.{error_malformed_message, terminator_in_payload}
use opdi_core.Platform.{uint16_to_str, digits, str_to_uint16, bytes_to_string, string_to_bytes}
use opdi_core.Message.Encode.{frame, summed}
use opdi_core.Message.RoundTrip.{decode_wrong_checksum, decode-encode, framed}
use opdi_core.Message.Bounds.{encode_sound}
use opdi_core.Message.{
  Message, encode, decode, detect_separator, find_end, subtract_tail, separator_byte,
  compare_checksum, nibble_of, sum_bytes, payload_sum, put_byte, hex_digit,
}

encode_small : encode (record { channel = 1; payload = codes "OK" }) ≡ ok (codes "1:OK:0105\n")
unfolding encode sum_bytes payload_sum put_byte hex_digit uint16_to_str digits string_to_bytes
encode_small = refl

decode_small :
    decode 0 (codes "1:OK:0105" ++ 0 ∷ codes "junk")
    ≡ ok (record { channel = 1; payload = codes "OK" })
unfolding decode detect_separator find_end subtract_tail separator_byte compare_checksum nibble_of
    str_to_uint16 bytes_to_string
decode_small = refl

encode_terminator :
    encode (record { channel = 1; payload = codes "a\nb" }) ≡ err terminator_in_payload
unfolding encode sum_bytes payload_sum put_byte hex_digit uint16_to_str digits string_to_bytes
encode_terminator = refl

-- A channel of three digits is refused.
decode_channel_100 : decode 0 (codes "100:a:0000" ++ 0 ∷ []) ≡ err error_malformed_message
unfolding decode detect_separator find_end subtract_tail separator_byte compare_checksum nibble_of
decode_channel_100 = refl

-- The byte behind the terminator is read when the separator is missing.
decode_stale :
    decode 0 (codes "1" ++ 0 ∷ codes "OK:00cb" ++ 0 ∷ [])
    ≡ ok (record { channel = 1; payload = codes "OK" })
unfolding decode detect_separator find_end subtract_tail separator_byte compare_checksum nibble_of
    str_to_uint16 bytes_to_string
decode_stale = refl

abbrev greeting : Message
greeting = record { channel = 7; payload = codes "a:b" }

greeting_plain : Lacks 0 greeting.payload
greeting_plain =
    ((λ q. absurd (omega arith)), ((λ q. absurd (omega arith)), ((λ q. absurd (omega arith)), tt)))

greeting_one_line : Lacks 10 greeting.payload
greeting_one_line =
    ((λ q. absurd (omega arith)), ((λ q. absurd (omega arith)), ((λ q. absurd (omega arith)), tt)))

greeting_sum : 1 ≢ sum_bytes (summed greeting) 0
unfolding sum_bytes uint16_to_str digits
greeting_sum q = absurd (omega arith)

decode_wrong_checksum_example :
    decode 58 (framed greeting 1 ++ 0 ∷ codes "old") ≡ err error_malformed_message
decode_wrong_checksum_example =
    decode_wrong_checksum greeting (codes "old") 58 1 (omega arith) (omega arith) (omega arith)
      greeting_plain (omega arith) greeting_sum

decode-encode_example :
    (bytes : Bytes) × (encode greeting ≡ ok (bytes ++ 10 ∷ []))
    × (decode 58 (bytes ++ 0 ∷ codes "old") ≡ ok greeting)
decode-encode_example =
    decode-encode greeting (codes "old") 58 (omega arith) (omega arith) (omega arith) greeting_plain
      greeting_one_line

encode_sound_example :
    (codes "1:OK:0105\n" ≡ frame (record { channel = 1; payload = codes "OK" }) ++ 10 ∷ [])
    × Lacks 10 (codes "OK")
    × (length (codes "1:OK:0105\n") < 256)
encode_sound_example =
    encode_sound (record { channel = 1; payload = codes "OK" }) (codes "1:OK:0105\n") encode_small
