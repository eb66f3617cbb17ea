-- ===== src/Util/Decimal/RoundTrip.antt =====
-- src/util.c: string2ll undoes ll2string, and the length that ll2string announces is that of its text.
use prez.Prelude.{
  ℕ, zero, suc, ◌+◌, ◌*◌, ◌/◌, ◌%◌, ◌≤◌, ◌<◌, ◌≡◌, refl, [], ◌∷◌, some, arith, get_or, leb, length,
  if◌then◌else◌, none,
}
use prez.Prelude.Int.{ℤ, pos, negsuc}
use prez.Prelude.Text.{Bytes}
use prez.Util.Decimal.{
  ullong_max, llong_max, magnitude, is_negative, bit, ll2string, digits, write_digits, scan,
  scan_first, digits10, string2ll, decimal, text_of, to_positive, to_negative,
}
use prez.Util.Decimal.Scan.{table_pair, scan-write_digits}
use prez.Util.Decimal.Length.{length-text_of, digits10_le}

-- The text begins with a digit that is not 0.
abbrev LeadsWell : Bytes → Type 0
LeadsWell [] = ⊥
LeadsWell (c ∷ s) = (b'1' ≤ c) × (c ≤ b'9')

write_digits-LeadsWell : (f n : ℕ) (out : Bytes) → 0 < n → n < f → LeadsWell (write_digits f n out)
unfolding write_digits
write_digits-LeadsWell zero n out p h = absurd (omega arith)
write_digits-LeadsWell (suc f) n out p h = ground (
  arith,
  table_pair n,
  write_digits-LeadsWell f (n / 100)
      (get_or digits (n % 100 * 2) 0 ∷ get_or digits (n % 100 * 2 + 1) 0 ∷ out),
)

scan_first-LeadsWell : (s : Bytes) → LeadsWell s → scan_first s ≡ scan s 0
unfolding scan_first
scan_first-LeadsWell [] h = elim h [ ]
scan_first-LeadsWell (c ∷ s) h = ground arith

text_of-LeadsWell : (n : ℕ) → 0 < n → LeadsWell (text_of n)
unfolding text_of
text_of-LeadsWell n p = write_digits-LeadsWell (suc n) n [] p (omega arith)

pub scan_first-text_of : (n : ℕ) → 0 < n → n ≤ ullong_max → scan_first (text_of n) ≡ some n
unfolding scan text_of
scan_first-text_of n p h = ground (
  arith,
  scan_first-LeadsWell (write_digits (suc n) n []),
  write_digits-LeadsWell (suc n) n [] p,
  scan-write_digits (suc n) n [],
)

string2ll-LeadsWell : (s : Bytes) → LeadsWell s → string2ll s ≡ to_positive (scan_first s)
unfolding string2ll
string2ll-LeadsWell [] h = elim h [ ]
string2ll-LeadsWell (c ∷ s) h = ground arith

string2ll-minus : (s : Bytes) → string2ll (b'-' ∷ s) ≡ to_negative (scan_first s)
unfolding string2ll
string2ll-minus [] = refl
string2ll-minus (c ∷ s) = ground arith

-- The range of `long long`.
abbrev pub IsLongLong : ℤ → Type 0
IsLongLong (pos n) = n ≤ llong_max
IsLongLong (negsuc n) = n ≤ llong_max

pub string2ll-decimal : (v : ℤ) → IsLongLong v → string2ll (decimal v) ≡ some v
unfolding decimal
string2ll-decimal (pos zero) h = unfold string2ll text_of in refl
string2ll-decimal (pos (suc n)) h =
    rw
      (
        string2ll-LeadsWell (text_of (suc n)) (text_of-LeadsWell (suc n) (omega arith)),
        scan_first-text_of (suc n) (omega arith) (omega arith),
      )
      (unfold to_positive in ground arith)
string2ll-decimal (negsuc n) h =
    rw (string2ll-minus, scan_first-text_of (suc n) (omega arith) (omega arith))
      (unfold to_negative in ground arith)

pub length-decimal :
    (v : ℤ) → IsLongLong v → length (decimal v) ≡ digits10 (magnitude v) + bit (is_negative v)
unfolding decimal magnitude is_negative
length-decimal (pos n) h = omega (arith, length-text_of n)
length-decimal (negsuc n) h = omega (arith, length-text_of (suc n))

digits10-magnitude-le : (v : ℤ) → IsLongLong v → digits10 (magnitude v) ≤ 19
unfolding magnitude
digits10-magnitude-le (pos n) h = digits10_le n (omega arith)
digits10-magnitude-le (negsuc n) h = digits10_le (suc n) (omega arith)

-- For every `long long` and every buffer, ll2string fails exactly when the buffer has no room for
-- the text and its terminator; otherwise it returns the length of the text that it wrote.
pub ll2string_total :
    (dstlen : ℕ) (v : ℤ)
    → IsLongLong v
    → ll2string dstlen v
      ≡ (if leb dstlen (length (decimal v)) then none else some (length (decimal v), decimal v))
unfolding ll2string
ll2string_total dstlen v h = rw (length-decimal v h) (ground arith)

-- Every `long long`, the least included, is written whole into a buffer of 21 bytes or more, with
-- its length, and string2ll reads it back from that text.
pub string2ll-ll2string :
    (dstlen : ℕ) (v : ℤ)
    → IsLongLong v
    → 20 < dstlen
    → (text : Bytes) × (ll2string dstlen v ≡ some (length text, text)) × (string2ll text ≡ some v)
string2ll-ll2string dstlen v h room = (
  decimal v,
  rw (ll2string_total dstlen v h) (ground (arith, length-decimal v h, digits10-magnitude-le v h)),
  string2ll-decimal v h,
)

pub length-decimal-le : (v : ℤ) → IsLongLong v → length (decimal v) ≤ 20
length-decimal-le v h = ground (arith, length-decimal v h, digits10-magnitude-le v h)
