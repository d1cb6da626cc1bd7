-- ===== src/Platform/Tests.antt =====
-- The conversions at concrete inputs, and the theorems at inputs that meet their hypotheses.
use opdi_core.Base.{◌≡◌, refl, codes, negsuc, ok, err, arith}
use opdi_core.Constants.{error_conversion}
use opdi_core.Platform.{
  digits, str_to_uint16, str_to_int32, str_to_int64, int32_to_str, int64_to_str,
}
use opdi_core.Platform.RoundTrip.{str_to_int64-int64_to_str, int32_to_str_truncates}

parse_spaces : str_to_uint16 (codes " 12") ≡ ok 12
unfolding str_to_uint16
parse_spaces = refl

parse_trailing : str_to_uint16 (codes "12 ") ≡ err error_conversion
unfolding str_to_uint16
parse_trailing = refl

parse_wraps : str_to_uint16 (codes "65537") ≡ ok 1
unfolding str_to_uint16
parse_wraps = refl

parse_minus : str_to_int32 (codes "-5") ≡ ok (negsuc 4)
unfolding str_to_int32
parse_minus = refl

print_minus : int32_to_str (negsuc 1999999999) ≡ codes "-200000000"
unfolding int32_to_str digits
print_minus = refl

str_to_int64-int64_to_str_example : str_to_int64 (int64_to_str (negsuc 41)) ≡ ok (negsuc 41)
str_to_int64-int64_to_str_example = str_to_int64-int64_to_str (negsuc 41) (omega arith)

int32_to_str_truncates_example :
    str_to_int32 (int32_to_str (negsuc 1999999999)) ≡ ok (negsuc 199999999)
int32_to_str_truncates_example = int32_to_str_truncates 1999999999 (omega arith) (omega arith)
