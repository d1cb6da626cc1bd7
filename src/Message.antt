-- ===== src/Message.antt =====
-- The message format of code/c/common/opdi_message.c: `channel:payload:checksum` and a line feed.
-- `decode` reads the whole buffer, with what older messages left behind the terminator. A byte of
-- a buffer is read by index, and the bytes that are written one after the other are a list.
pub mod Bounds
pub mod Checksum
pub mod Encode
pub mod RoundTrip
pub mod Scan
pub mod Frame
mod Tests
use opdi_core.Base.{
  ℕ, zero, suc, ◌+◌, ◌-◌, ◌*◌, ◌/◌, ◌%◌, ◌^◌, ◌&&◌, Bool, Bytes, [], ◌∷◌, ◌++◌, ltb, leb, ◌==◌,
  if◌then◌else◌, get_or, take, drop, length, Result, ok, err, Option, none, some, not,
}
use opdi_core.Constants.{
  status_ok, error_malformed_message, error_conversion, error_msgbuf_overflow,
  terminator_in_payload, message_terminator, message_separator, channel_maxbuf, message_buffer_size,
  message_payload_length,
}
use opdi_core.Platform.{str_to_uint16, uint16_to_str, bytes_to_string, string_to_bytes}

-- `opdi_Message`.
pub record Message : Type 0 where
  pub channel : ℕ
  pub payload : Bytes

-- `err = step; if (err != OPDI_STATUS_OK) return err; next`.
infixl 5 ◌>>=◌
abbrev pub ◌>>=◌ {ℓ} : {A : Type 0} {B : Type ℓ} (step : Result A) (next : A → Result B) → Result B
err status >>= next = err status
ok value >>= next = next value

infixl 5 ◌>>◌
abbrev pub ◌>>◌ {ℓ} : {B : Type ℓ} (check : Result (Unit {0})) (next : Result B) → Result B
check >> next = check >>= λ passed. next

-- `if (test) return e`.
abbrev pub refuse : Bool → ℕ → Result (Unit {0})
refuse test e = if test then err e else ok tt

-- uint16_t addition and subtraction.
abbrev pub add16 : ℕ → ℕ → ℕ
add16 a b = (a + b) % 65536

abbrev pub sub16 : ℕ → ℕ → ℕ
sub16 a b = (a + 65536 - b % 65536) % 65536

-- The value of a hexadecimal digit, in either case.
unfoldable pub nibble_of : ℕ → Result ℕ
nibble_of byte =
    if leb b'0' byte && leb byte b'9'
    then ok (byte - b'0')
    else (if leb b'A' byte && leb byte b'F'
        then ok (byte - b'A' + 10)
        else (if leb b'a' byte && leb byte b'f'
            then ok (byte - b'a' + 10)
            else err error_conversion))

-- The checksum of four digits at `bytes[at]`, last digit first; the nibbles that are joined by
-- `|=` do not overlap, so the sum is the same.
unfoldable pub compare_checksum : ℕ → Bytes → ℕ → Result (Unit {0})
compare_checksum cs bytes at = do
  n0 ← nibble_of (get_or bytes (at + 3) 0)
  n1 ← nibble_of (get_or bytes (at + 2) 0)
  n2 ← nibble_of (get_or bytes (at + 1) 0)
  n3 ← nibble_of (get_or bytes at 0)
  refuse (not (cs == n0 + 16 * n1 + 256 * n2 + 4096 * n3)) error_malformed_message

-- What the detection of the separator finds: `channelBuf`, the checksum, and the buffer from the
-- byte on that ended the loop.
pub record Head : Type 0 where
  pub digits : Bytes
  pub sum : ℕ
  pub rest : Bytes

unfoldable pub detect_separator : Bytes → Bytes → ℕ → Result Head
detect_separator [] digits sum = ok (record { digits = digits; sum = sum; rest = [] })
detect_separator (c ∷ s) digits sum =
    let more = detect_separator s (digits ++ c ∷ []) (add16 sum c) in
    if c == 0
    then ok (record { digits = digits; sum = sum; rest = c ∷ s })
    else (if c == message_separator
        then ok (record { digits = digits; sum = sum; rest = c ∷ s })
        else (if leb channel_maxbuf (length digits + 1) then err error_malformed_message else more))

-- `pos`, `lastSepPos` and the checksum at the end of the payload.
pub record End : Type 0 where
  pub pos : ℕ
  pub last_sep : ℕ
  pub sum : ℕ

unfoldable pub find_end : Bytes → End → Result End
find_end [] st = ok st
find_end (c ∷ s) st =
    let st' : End = record {
      pos = st.pos + 1;
      last_sep = if c == message_separator then st.pos else st.last_sep;
      sum = add16 st.sum c;
    } in
    let more = find_end s st' in
    if c == 0
    then ok st
    else (if leb message_buffer_size (st.pos + 1) then err error_malformed_message else more)

-- The four checksum characters before `pos` are taken off the checksum.
unfoldable pub subtract_tail : Bytes → ℕ → ℕ → ℕ
subtract_tail bytes pos sum =
    sub16
      (sub16 (sub16 (sub16 sum (get_or bytes (pos - 1) 0)) (get_or bytes (pos - 2) 0))
        (get_or bytes (pos - 3) 0))
      (get_or bytes (pos - 4) 0)

-- `bytes[pos - 5]`; `below` is the byte that lies in front of the buffer.
unfoldable pub separator_byte : ℕ → Bytes → ℕ → ℕ
separator_byte below bytes pos = if ltb pos 5 then below else get_or bytes (pos - 5) 0

-- `decode`, with the payload as the string that is left in `msgPayload`.
unfoldable pub decode : ℕ → Bytes → Result Message
decode below bytes = do
  head ← detect_separator bytes [] 0
  channel ← (elim (str_to_uint16 head.digits) [ ok n ↦ ok n | err e ↦ err error_malformed_message ])
  let payload_pos = length head.digits + 1
  end ←
      find_end (drop 1 head.rest)
        (record { pos = payload_pos; last_sep = 0; sum = add16 head.sum (get_or head.rest 0 0) })
  refuse (leb end.last_sep payload_pos) error_malformed_message
  refuse (ltb end.pos 4) error_malformed_message
  let sum = subtract_tail bytes end.pos end.sum
  let sep = separator_byte below bytes end.pos
  refuse (not (sep == message_separator)) error_malformed_message
  elim (compare_checksum (sub16 sum sep) bytes (end.pos - 4)) [
    | ok _ ↦ ok tt
    | err e ↦ err error_malformed_message
  ]
  payload ← bytes_to_string bytes payload_pos (end.last_sep - payload_pos) message_payload_length
  ok (record { channel = channel; payload = payload })

-- The sum of bytes, as a uint16_t.
unfoldable pub sum_bytes : Bytes → ℕ → ℕ
sum_bytes [] sum = sum
sum_bytes (c ∷ s) sum = sum_bytes s (add16 sum c)

-- The loop over the payload in `msgBuf`: the terminator may not occur.
unfoldable pub payload_sum : Bytes → ℕ → ℕ → Result ℕ
payload_sum [] pos sum = ok sum
payload_sum (c ∷ s) pos sum =
    let rest = payload_sum s (pos + 1) (add16 sum c) in
    if c == message_terminator
    then err terminator_in_payload
    else (if leb (message_buffer_size - 1) (pos + 1) then err error_msgbuf_overflow else rest)

-- `msgBuf[pos++] = c` with the test for overflow behind it.
unfoldable pub put_byte : ℕ → Bytes → Result Bytes
put_byte c out =
    if leb (message_buffer_size - 1) (length out + 1)
    then err error_msgbuf_overflow
    else ok (out ++ c ∷ [])

unfoldable pub hex_digit : ℕ → ℕ
hex_digit nibble = if leb 10 nibble then b'a' + nibble - 10 else b'0' + nibble

-- `encode`: the bytes `msgBuf[0 .. *length)`. `channelBuf` has room for three digits; a channel
-- of 1000 or more overruns it, which is outside the model.
unfoldable pub encode : Message → Result Bytes
encode message = do
  out0 ← string_to_bytes (uint16_to_str message.channel) [] message_buffer_size
  out1 ← put_byte message_separator out0
  out2 ← string_to_bytes message.payload out1 message_buffer_size
  cs ← payload_sum message.payload (length out1) (sum_bytes out1 0)
  out3 ← put_byte message_separator out2
  out4 ← put_byte (hex_digit (cs / 4096 % 16)) out3
  out5 ← put_byte (hex_digit (cs / 256 % 16)) out4
  out6 ← put_byte (hex_digit (cs / 16 % 16)) out5
  out7 ← put_byte (hex_digit (cs % 16)) out6
  ok (out7 ++ message_terminator ∷ [])
