-- ===== src/Platform/Avr/Tests.antt =====
-- Numbers printed on the AVR.
use opdi_core.Base.{ℕ, ◌<◌, ◌≡◌, refl, arith, codes, pos, negsuc}
use opdi_core.Platform.{print_int, print_nat, digits}
use opdi_core.Platform
use opdi_core.Platform.Avr.{
  uint16_to_str, int64_to_str, digit_loop, ordered, exchange_loop, exchange,
}
use opdi_core.Platform.Avr.Int64.{int64_to_str-int64_to_str}

-- A uint16_t of 32768 or more is printed as a negative number.
large_uint16 : uint16_to_str 40000 ≡ codes "-25536"
unfolding uint16_to_str opdi_core.Base.wrap_signed print_int print_nat digits
large_uint16 = refl

minus_twelve : int64_to_str (negsuc 11) ≡ codes "-12"
unfolding int64_to_str digit_loop ordered exchange_loop exchange
minus_twelve = refl

int64_to_str-int64_to_str_example :
    int64_to_str (negsuc 12344) ≡ Platform.int64_to_str (negsuc 12344)
int64_to_str-int64_to_str_example = int64_to_str-int64_to_str (negsuc 12344) (omega arith)
