-- ===== src/Master/OpdiMessage.antt =====
-- code/c/common/master/opdi_OPDIMessage.cpp: the messages as the master reads and writes them. The
-- number parsers of the POCO library are parameters: `parse` gives an `int` and `parse_hex` an
-- `unsigned`, or they throw a syntax exception.
pub mod Encode
pub mod Checksum
pub mod Decode
pub mod Tests
use opdi_core.Base.{
  ℕ, zero, suc, ◌+◌, ◌-◌, ◌%◌, ◌^◌, ◌&&◌, ◌||◌, Bool, true, false, not, Bytes, List, [], ◌∷◌, ◌++◌,
  ◌==◌, length, take, get_or, if◌then◌else◌, ltb, Option, none, some, ℤ,
}
use opdi_core.Constants.{message_separator, message_terminator}
use opdi_core.Platform.{print_int}
use opdi_core.Strings.{c_string}
use opdi_core.Message.{hex_digit}
use opdi_core.Message.Checksum.{hex4}
use opdi_core.Master.{Outcome, returned, threw, message_exception}
use opdi_core.Master.StringTools.{split, join_some}

-- The field `checksum` is written and never read.
pub record OpdiMessage : Type 0 where
  pub channel : ℤ
  pub payload : Bytes

-- The loop of `calcChecksum`, which starts at the last character: `myChecksum` and `colonFound`
-- when the characters listed have been visited.
unfoldable pub calc_loop : Bytes → ℕ × Bool
calc_loop [] = (0, false)
calc_loop (c ∷ message) =
    let (my_checksum, colon_found) = calc_loop message in
    if colon_found then (my_checksum + c, colon_found) else (my_checksum, c == message_separator)

unfoldable pub calc_checksum : Bytes → ℕ
unfolding calc_loop
calc_checksum message = (calc_loop message).0

-- `parts[parts.size() - 1]`.
abbrev pub last_part : List Bytes → Bytes
last_part parts = get_or parts (length parts - 1) []

-- `decode`. The checksums are compared as `int`, which is to compare their 32 bits.
unfoldable pub decode : (Bytes → Option ℤ) → (Bytes → Option ℕ) → Bytes → Outcome OpdiMessage
unfolding split calc_checksum join_some
decode parse parse_hex serial_form =
    let parts = split serial_form message_separator in
    if ltb (length parts) 3 then threw message_exception else elim (parse_hex (last_part parts)) [
      | none ↦ threw message_exception
      | some checksum ↦
          if not (calc_checksum serial_form % 2 ^ 32 == checksum)
          then threw message_exception
          else elim (parse (get_or parts 0 [])) [
            | none ↦ threw message_exception
            | some pid ↦
                returned (record { channel = pid; payload = join_some 1 1 message_separator parts })
          ]
    ]

-- The loop over the bytes to transfer: `checksum`, unless a terminator is among them.
unfoldable pub checksum_loop : Bytes → ℕ → Outcome ℕ
checksum_loop [] checksum = returned checksum
checksum_loop (c ∷ bytes) checksum =
    let rest = checksum_loop bytes (checksum + c) in
    if c == message_terminator then threw message_exception else rest

-- `encode`: what `strncpy` leaves in the buffer up to its terminator, and the length that is returned.
unfoldable pub encode : OpdiMessage → ℕ → Outcome (Bytes × ℕ)
unfolding checksum_loop print_int
encode message maxlength =
    let content = print_int message.channel ++ message_separator ∷ message.payload in
    elim (checksum_loop content 0) [
      | threw e ↦ threw e
      | returned checksum ↦
          let line : Bytes =
            content ++ message_separator ∷ (hex4 (checksum % 65536) ++ message_terminator ∷ []) in
          returned (take maxlength (c_string line), length (c_string line))
    ]
