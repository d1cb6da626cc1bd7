-- ===== src/Platform.antt =====
-- code/c/platforms/linux/opdi_platformfuncs.c: conversions between numbers and text, and between
-- byte arrays and strings. `strtol` and `snprintf` are the C library's, over a 64 bit `long`.
pub mod Print
pub mod RoundTrip
pub mod Text
pub mod Avr
mod Tests
use opdi_core.Base.{
  ℕ, zero, suc, ◌+◌, ◌-◌, ◌*◌, ◌/◌, ◌%◌, ◌^◌, Bool, true, false, not, ◌&&◌, ◌||◌, Bytes, [], ◌∷◌,
  ◌++◌, ltb, leb, ◌==◌, if◌then◌else◌, take, drop, set, get_or, length, ℤ, pos, negsuc, sub_ℕ,
  to_unsigned, wrap_signed, Result, ok, err,
}
use opdi_core.Constants.{status_ok, error_conversion, error_dest_overflow}

-- `isspace` in the C locale.
unfoldable pub is_space : ℕ → Bool
is_space c = c == 32 || (leb 9 c && leb c 13)

unfoldable pub is_digit : ℕ → Bool
is_digit c = leb b'0' c && leb c b'9'

unfoldable pub skip_spaces : Bytes → Bytes
unfolding is_space
skip_spaces [] = []
skip_spaces (c ∷ s) = elim (is_space c) [ true ↦ skip_spaces s | false ↦ c ∷ s ]

-- The number that the leading digits spell, behind `v`, and what follows them.
unfoldable pub scan : Bytes → ℕ → ℕ × Bytes
unfolding is_digit
scan [] v = (v, [])
scan (c ∷ s) v = elim (is_digit c) [ true ↦ scan s (v * 10 + (c - b'0')) | false ↦ (v, c ∷ s) ]

-- What `strtol` finds behind the sign: an error if there is no digit (`p == str`), if something
-- follows the digits (`*p != 0`), or if the magnitude exceeds `bound` (`errno`).
unfoldable pub finish : Bytes → ℕ → Result ℕ
unfolding scan
finish [] bound = err error_conversion
finish (c ∷ s) bound =
    let (v, rest) = scan (c ∷ s) 0 in
    if not (is_digit c) || ltb 0 (length rest) || ltb bound v then err error_conversion else ok v

unfoldable pub negated : Result ℕ → Result ℤ
negated (ok v) = ok (sub_ℕ 0 v)
negated (err e) = err e

unfoldable pub positive : Result ℕ → Result ℤ
positive (ok v) = ok (pos v)
positive (err e) = err e

unfoldable pub signed : Bytes → Result ℤ
unfolding finish negated positive
signed [] = err error_conversion
signed (c ∷ s) =
    if c == b'-'
    then negated (finish s (2 ^ 63))
    else if c == b'+'
    then positive (finish s (2 ^ 63 - 1))
    else positive (finish (c ∷ s) (2 ^ 63 - 1))

-- `strtol(str, &p, 10)` with the test that each conversion makes on its outcome.
unfoldable pub str_to_long : Bytes → Result ℤ
unfolding skip_spaces signed
str_to_long s = signed (skip_spaces s)

-- The casts to the type of the out parameter.
unfoldable pub cast_unsigned : ℕ → Result ℤ → Result ℕ
unfolding to_unsigned
cast_unsigned w (ok z) = ok (to_unsigned w z)
cast_unsigned w (err e) = err e

unfoldable pub cast_signed : ℕ → Result ℤ → Result ℤ
unfolding wrap_signed
cast_signed w (ok z) = ok (wrap_signed w z)
cast_signed w (err e) = err e

unfoldable pub str_to_uint8 : Bytes → Result ℕ
unfolding str_to_long cast_unsigned
str_to_uint8 s = cast_unsigned 8 (str_to_long s)

unfoldable pub str_to_uint16 : Bytes → Result ℕ
unfolding str_to_long cast_unsigned
str_to_uint16 s = cast_unsigned 16 (str_to_long s)

unfoldable pub str_to_int32 : Bytes → Result ℤ
unfolding str_to_long cast_signed
str_to_int32 s = cast_signed 32 (str_to_long s)

unfoldable pub str_to_int64 : Bytes → Result ℤ
unfolding str_to_long cast_signed
str_to_int64 s = cast_signed 64 (str_to_long s)

-- The decimal digits of `n` in front of `acc`; `fuel` bounds their number.
unfoldable pub digits : ℕ → ℕ → Bytes → Bytes
digits zero n acc = acc
digits (suc fuel) n acc =
    let rest = digits fuel (n / 10) ((b'0' + n % 10) ∷ acc) in
    if ltb n 10 then (b'0' + n) ∷ acc else rest

-- `%u` of a number below 10 ^ 20, and `%d`.
unfoldable pub print_nat : ℕ → Bytes
print_nat n = digits 20 n []

unfoldable pub print_int : ℤ → Bytes
unfolding print_nat
print_int (pos n) = print_nat n
print_int (negsuc n) = b'-' ∷ print_nat (suc n)

-- `snprintf(buf, size, ...)` keeps at most `size - 1` characters.
unfoldable pub snprintf : ℕ → Bytes → Bytes
snprintf size s = take (size - 1) s

unfoldable pub uint8_to_str : ℕ → Bytes
unfolding snprintf print_nat
uint8_to_str value = snprintf 4 (print_nat value)

unfoldable pub uint16_to_str : ℕ → Bytes
unfolding snprintf print_nat
uint16_to_str value = snprintf 6 (print_nat value)

unfoldable pub int32_to_str : ℤ → Bytes
unfolding snprintf print_int
int32_to_str value = snprintf 11 (print_int value)

unfoldable pub int64_to_str : ℤ → Bytes
unfolding snprintf print_int
int64_to_str value = snprintf 23 (print_int value)

-- The loop of `opdi_bytes_to_string`: `left` bytes to copy, `i` copied, `src` is `bytes + offset + i`.
unfoldable pub copy_string : ℕ → ℕ → Bytes → ℕ → Bytes → Result Bytes
copy_string zero i src dest_length dest = ok dest
copy_string (suc left) i src dest_length dest =
    let rest = copy_string left (i + 1) (drop 1 src) dest_length (dest ++ get_or src 0 0 ∷ []) in
    if leb (dest_length - 1) i then err error_dest_overflow else rest

-- The string in `dest`, up to its terminator.
unfoldable pub bytes_to_string : Bytes → ℕ → ℕ → ℕ → Result Bytes
unfolding copy_string
bytes_to_string bytes offset len dest_length = copy_string len 0 (drop offset bytes) dest_length []

-- The loop of `opdi_string_to_bytes`. The bytes go to `dest + pos`, and `dest` here is what stands
-- before that place, so `pos + i` is its length; the result is `dest[0 .. pos + *bytelen)`.
unfoldable pub string_to_bytes : Bytes → Bytes → ℕ → Result Bytes
string_to_bytes [] dest maxlength = ok dest
string_to_bytes (c ∷ s) dest maxlength =
    let rest = string_to_bytes s (dest ++ c ∷ []) maxlength in
    if leb maxlength (length dest) then err error_dest_overflow else rest
