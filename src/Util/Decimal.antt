-- ===== src/Util/Decimal.antt =====
-- src/util.c: digits10, ll2string and string2ll. `unsigned long long` is a number below 2^64.
pub mod Scan
pub mod Length
pub mod Digits
pub mod RoundTrip
mod Tests
use prez.Prelude.{
  ℕ, zero, suc, ◌+◌, ◌-◌, ◌*◌, ◌/◌, ◌%◌, ◌^◌, Bool, true, false, ◌&&◌, List, [], ◌∷◌, Option, none,
  some, ltb, leb, ◌==◌, if◌then◌else◌, get_or, length,
}
use prez.Prelude.Int.{ℤ, pos, negsuc}
use prez.Prelude.Text.{Bytes, codes}

abbrev pub ullong_max : ℕ
ullong_max = 2 ^ 64 - 1

abbrev pub llong_max : ℕ
llong_max = 2 ^ 63 - 1

-- `5 + (v >= 100000)`: a comparison used as a number.
abbrev pub bit : Bool → ℕ
bit true = 1
bit false = 0

-- The ladder of digits10, `more` being its recursive call.
pub digits10_ladder : ℕ → ℕ → ℕ
digits10_ladder v more =
    if ltb v 10
    then 1
    else if ltb v 100
    then 2
    else if ltb v 1000
    then 3
    else if ltb v 1_000_000_000_000
    then (if ltb v 100_000_000
        then (if ltb v 1_000_000
            then (if ltb v 10_000 then 4 else 5 + bit (leb 100_000 v))
            else 7 + bit (leb 10_000_000 v))
        else if ltb v 10_000_000_000
        then 9 + bit (leb 1_000_000_000 v)
        else 11 + bit (leb 100_000_000_000 v))
    else 12 + more

-- Each call divides by 10^12, so a 64-bit value makes at most one recursive call: two rounds.
pub digits10_rounds : ℕ → ℕ → ℕ
digits10_rounds zero v = 0
digits10_rounds (suc f) v = digits10_ladder v (digits10_rounds f (v / 1_000_000_000_000))

unfoldable pub digits10 : ℕ → ℕ
unfolding digits10_rounds digits10_ladder
digits10 v = digits10_rounds 2 v

-- The table of the two-digit numbers.
pub digits : Bytes
digits =
    codes
      "00010203040506070809101112131415161718192021222324252627282930313233343536373839404142434445464748495051525354555657585960616263646566676869707172737475767778798081828384858687888990919293949596979899"

-- The buffer is filled from its right end, so a written byte stands before those written earlier.
-- The fuel is above the value, which each round divides by 100.
pub write_digits : ℕ → ℕ → Bytes → Bytes
write_digits zero value out = out
write_digits (suc f) value out =
    let i = value % 100 * 2 in
    let more = write_digits f (value / 100) (get_or digits i 0 ∷ get_or digits (i + 1) 0 ∷ out) in
    if leb 100 value
    then more
    else if ltb value 10
    then (b'0' + value) ∷ out
    else get_or digits (value * 2) 0 ∷ get_or digits (value * 2 + 1) 0 ∷ out

pub magnitude : ℤ → ℕ
magnitude (pos n) = n
magnitude (negsuc n) = suc n

pub is_negative : ℤ → Bool
is_negative (pos n) = false
is_negative (negsuc n) = true

-- The loop and its last one or two digits, from an empty buffer.
unfoldable pub text_of : ℕ → Bytes
unfolding write_digits digits
text_of value = write_digits (suc value) value []

-- The text that ll2string leaves in a buffer that is large enough.
unfoldable pub decimal : ℤ → Bytes
unfolding magnitude is_negative
decimal v = if is_negative v then b'-' ∷ text_of (magnitude v) else text_of (magnitude v)

-- The returned length and the text; `none` is the return value 0, with nothing written.
unfoldable pub ll2string : ℕ → ℤ → Option (ℕ × Bytes)
unfolding magnitude is_negative
ll2string dstlen svalue =
    let size = digits10 (magnitude svalue) + bit (is_negative svalue) in
    if leb dstlen size then none else some (size, decimal svalue)

pub is_digit : ℕ → Bool
is_digit c = leb b'0' c && leb c b'9'

-- The loop over the digits behind the first. A byte that is no digit ends it early, and then
-- `plen < slen` makes the call fail.
pub scan : Bytes → ℕ → Option ℕ
unfolding is_digit
scan [] v = some v
scan (c ∷ s) v =
    let d = c - b'0' in
    let more = scan s (v * 10 + d) in
    if is_digit c
    then (if ltb (ullong_max / 10) v
        then none
        else if ltb (ullong_max - d) (v * 10)
        then none
        else more)
    else none

-- The first digit is 1 to 9. (The source's test for a lone `0` here is never reached with success.)
pub scan_first : Bytes → Option ℕ
unfolding scan
scan_first [] = none
scan_first (c ∷ s) = if leb b'1' c && leb c b'9' then scan s (c - b'0') else none

abbrev pub negate : ℕ → ℤ
negate zero = pos 0
negate (suc n) = negsuc n

pub to_negative : Option ℕ → Option ℤ
to_negative none = none
to_negative (some v) = if ltb (llong_max + 1) v then none else some (negate v)

pub to_positive : Option ℕ → Option ℤ
to_positive none = none
to_positive (some v) = if ltb llong_max v then none else some (pos v)

unfoldable pub string2ll : Bytes → Option ℤ
unfolding scan_first to_negative to_positive
string2ll [] = none
string2ll (c ∷ s) =
    if length (c ∷ s) == 1 && c == b'0'
    then some (pos 0)
    else if c == b'-'
    then to_negative (scan_first s)
    else to_positive (scan_first (c ∷ s))
