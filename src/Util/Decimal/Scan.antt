-- ===== src/Util/Decimal/Scan.antt =====
-- src/util.c: what the digit loop of string2ll reads from the digits that ll2string writes.
use prez.Prelude.{
  ℕ, zero, suc, ◌+◌, ◌*◌, ◌/◌, ◌%◌, ◌≤◌, ◌<◌, ◌≡◌, refl, Bool, true, ◌&&◌, ◌∷◌, arith, ◌==◌, get_or,
}
use prez.Prelude.Text.{Bytes, passes_from, passes_from_lem}
use prez.Util.Decimal.{ullong_max, digits, write_digits, scan}

abbrev holds_pair : ℕ → Bool
holds_pair i =
    get_or digits (i * 2) 0 == b'0' + i / 10 && get_or digits (i * 2 + 1) 0 == b'0' + i % 10

table : passes_from holds_pair 0 100 ≡ true
unfolding passes_from digits
table = refl

-- The table holds the two digits of each number below 100.
pub table_pair :
    (i : ℕ)
    → i < 100
    → (get_or digits (i * 2) 0 ≡ b'0' + i / 10) × (get_or digits (i * 2 + 1) 0 ≡ b'0' + i % 10)
table_pair i h =
    ground (arith, passes_from_lem holds_pair 0 100 i (omega arith) (omega arith) table)

-- Reading two digits.
scan_pair :
    (n m a b : ℕ) (out : Bytes)
    → n ≤ ullong_max
    → m ≡ n / 100
    → a ≡ b'0' + n % 100 / 10
    → b ≡ b'0' + n % 100 % 10
    → scan (a ∷ b ∷ out) m ≡ scan out n
unfolding scan
scan_pair n m a b out h e ea eb = ground arith

scan_one : (n : ℕ) (out : Bytes) → n < 10 → scan ((b'0' + n) ∷ out) 0 ≡ scan out n
unfolding scan
scan_one n out h = ground arith

abbrev high : ℕ → ℕ
high i = get_or digits (i * 2) 0

abbrev low : ℕ → ℕ
low i = get_or digits (i * 2 + 1) 0

-- Reading back what was written for `n` before `out` leaves `n` and the rest.
pub scan-write_digits :
    (f n : ℕ) (out : Bytes) → n < f → n ≤ ullong_max → scan (write_digits f n out) 0 ≡ scan out n
unfolding write_digits
scan-write_digits zero n out h fits = absurd (omega arith)
scan-write_digits (suc f) n out h fits = ground (
  arith,
  scan_one n out,
  table_pair n,
  scan_pair n 0 (high n) (low n) out fits,
  table_pair (n % 100) (omega arith),
  scan_pair n (n / 100) (high (n % 100)) (low (n % 100)) out fits refl,
  scan-write_digits f (n / 100) (high (n % 100) ∷ low (n % 100) ∷ out),
)
