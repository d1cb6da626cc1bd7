-- ===== src/Platform/Avr.antt =====
-- code/c/platforms/avr/opdi_platformfuncs.c: the printing of numbers. That of an int64_t works in place on
-- the buffer. The reading of numbers stands on `strtoll`, a copy of the BSD function, and is left out.
pub mod Swap
pub mod Int64
mod Tests
use opdi_core.Base.{
  ℕ, zero, suc, ◌+◌, ◌-◌, ◌/◌, ◌%◌, ◌^◌, Bool, true, false, Bytes, [], ◌∷◌, ◌++◌, ◌==◌, length, set,
  get_or, codes, ℤ, pos, negsuc, ltb_ℤ, if◌then◌else◌, magnitude, wrap_signed,
}
use opdi_core.Platform.{print_int}

-- `itoa` and `ltoa` with base 10 print their argument, which is an `int` of 16 bits for `itoa`.
unfoldable pub uint8_to_str : ℕ → Bytes
unfolding print_int
uint8_to_str value = print_int (pos value)

unfoldable pub uint16_to_str : ℕ → Bytes
unfolding print_int wrap_signed
uint16_to_str value = print_int (wrap_signed 16 (pos value))

unfoldable pub int32_to_str : ℤ → Bytes
unfolding print_int
int32_to_str value = print_int value

-- The characters that the do loop writes, from `pStr[i]` on; 20 rounds are enough for 64 bits.
unfoldable pub digit_loop : ℕ → ℕ → Bytes
digit_loop zero n = []
digit_loop (suc fuel) n =
    let rest = digit_loop fuel (n / 10) in (b'0' + n % 10) ∷ (if n / 10 == 0 then [] else rest)

-- The exchange of `pStr[i]` and `pStr[len-1-i]`.
unfoldable pub exchange : ℕ → ℕ → Bytes → Bytes
exchange len i s = let c = get_or s i 0 in set (set s i (get_or s (len - 1 - i) 0)) (len - 1 - i) c

-- The loop that exchanges, with the number of rounds left.
unfoldable pub exchange_loop : ℕ → ℕ → ℕ → Bytes → Bytes
unfolding exchange
exchange_loop zero len i s = s
exchange_loop (suc left) len i s = exchange_loop left len (i + 1) (exchange len i s)

-- The digits in their order, from `pStr` on.
unfoldable pub ordered : Bytes → Bytes
unfolding exchange_loop
ordered s = exchange_loop (length s / 2) (length s) 0 s

unfoldable pub int64_to_str : ℤ → Bytes
unfolding digit_loop ordered
int64_to_str n =
    if ltb_ℤ n (negsuc (2 ^ 63 - 2))
    then codes "-9223372036854775808"
    else (if ltb_ℤ n (pos 0)
        then b'-' ∷ ordered (digit_loop 20 (magnitude n))
        else ordered (digit_loop 20 (magnitude n)))
