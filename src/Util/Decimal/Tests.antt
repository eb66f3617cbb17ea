-- ===== src/Util/Decimal/Tests.antt =====
-- src/util.c: runs of the conversions, and the theorems at concrete inputs.
use prez.Prelude.{◌≡◌, refl, none, some, length, arith}
use prez.Util.Decimal.RoundTrip.{string2ll-ll2string}
use prez.Prelude.Int.{pos, negsuc}
use prez.Prelude.Text.{Bytes, codes}
use prez.Util.Decimal.{string2ll, ll2string, decimal, text_of, digits10}

min_llong : ll2string 32 (negsuc (9223372036854775807)) ≡ some (20, codes "-9223372036854775808")
unfolding ll2string decimal text_of digits10
min_llong = refl

small_buffer : ll2string 4 (pos 1234) ≡ none
unfolding ll2string decimal text_of digits10
small_buffer = refl

read_min : string2ll (codes "-9223372036854775808") ≡ some (negsuc 9223372036854775807)
unfolding string2ll
read_min = refl

too_big : string2ll (codes "9223372036854775808") ≡ none
unfolding string2ll
too_big = refl

string2ll-ll2string_example :
    (text : Bytes) × (ll2string 21 (negsuc 9223372036854775807) ≡ some (length text, text))
    × (string2ll text ≡ some (negsuc 9223372036854775807))
string2ll-ll2string_example =
    string2ll-ll2string 21 (negsuc 9223372036854775807) (omega arith) (omega arith)
