-- ===== src/Util/Decimal/Digits.antt =====
-- src/util.c: the text of a number is digits, and any reader of digits reads it back.
use prez.Prelude.{
  ℕ, zero, suc, ◌+◌, ◌-◌, ◌*◌, ◌/◌, ◌%◌, ◌≤◌, ◌<◌, ◌≡◌, ◌≢◌, refl, [], ◌∷◌, ◌++◌, All, arith,
  get_or, ap, ◌∙◌,
}
use prez.Prelude.Text.{Bytes}
use prez.Util.Decimal.{digits, write_digits, text_of}
use prez.Util.Decimal.Scan.{table_pair}

abbrev pub IsDigit : ℕ → Type 0
IsDigit c = (b'0' ≤ c) × (c ≤ b'9')

abbrev high : ℕ → ℕ
high i = get_or digits (i * 2) 0

abbrev low : ℕ → ℕ
low i = get_or digits (i * 2 + 1) 0

write_digits-IsDigit :
    (f n : ℕ) (out : Bytes) → n < f → All IsDigit out → All IsDigit (write_digits f n out)
unfolding write_digits
write_digits-IsDigit zero n out h a = absurd (omega arith)
write_digits-IsDigit (suc f) n out h a = ground (
  arith,
  table_pair n,
  table_pair (n % 100),
  write_digits-IsDigit f (n / 100) (high (n % 100) ∷ low (n % 100) ∷ out),
)

pub text_of-IsDigit : (n : ℕ) → All IsDigit (text_of n)
unfolding text_of
text_of-IsDigit n = write_digits-IsDigit (suc n) n [] (omega arith) tt

write_digits-append :
    (f n : ℕ) (out rest : Bytes) → write_digits f n out ++ rest ≡ write_digits f n (out ++ rest)
unfolding write_digits
write_digits-append zero n out rest = refl
write_digits-append (suc f) n out rest =
    ground (arith, write_digits-append f (n / 100) (high (n % 100) ∷ low (n % 100) ∷ out) rest)

module _ {R : Type 0} (read : Bytes → ℕ → R)
    (step : (c : ℕ) (s : Bytes) (v : ℕ)
      → IsDigit c
      → read (c ∷ s) v ≡ read s (v * 10 + (c - b'0'))) where
  read_one : (n : ℕ) (out : Bytes) → n < 10 → read ((b'0' + n) ∷ out) 0 ≡ read out n
  read_one n out h =
      let value : 0 * 10 + (b'0' + n - b'0') ≡ n = omega arith in
      step (b'0' + n) out 0 (omega arith) ∙ ap (read out) value

  read_pair :
      (n m a b : ℕ) (out : Bytes)
      → m ≡ n / 100
      → a ≡ b'0' + n % 100 / 10
      → b ≡ b'0' + n % 100 % 10
      → read (a ∷ b ∷ out) m ≡ read out n
  read_pair n m a b out h ea eb =
      let value : (m * 10 + (a - b'0')) * 10 + (b - b'0') ≡ n = omega arith in
      step a (b ∷ out) m (omega arith)
      ∙ step b out (m * 10 + (a - b'0')) (omega arith)
      ∙ ap (read out) value

  read-write_digits : (f n : ℕ) (out : Bytes) → n < f → read (write_digits f n out) 0 ≡ read out n
  unfolding write_digits
  read-write_digits zero n out h = absurd (omega arith)
  read-write_digits (suc f) n out h = ground (
    arith,
    read_one n out,
    table_pair n,
    read_pair n 0 (high n) (low n) out,
    table_pair (n % 100) (omega arith),
    read_pair n (n / 100) (high (n % 100)) (low (n % 100)) out refl,
    read-write_digits f (n / 100) (high (n % 100) ∷ low (n % 100) ∷ out),
  )

  -- A number in front of a rest is read whole.
  pub read-text_of : (n : ℕ) (rest : Bytes) → read (text_of n ++ rest) 0 ≡ read rest n
  unfolding text_of
  read-text_of n rest =
      rw (write_digits-append (suc n) n [] rest) (read-write_digits (suc n) n rest (omega arith))

write_digits-nonempty : (f n : ℕ) (out : Bytes) → n < f → write_digits f n out ≢ []
unfolding write_digits
write_digits-nonempty zero n out h = absurd (omega arith)
write_digits-nonempty (suc f) n out h =
    ground (arith, write_digits-nonempty f (n / 100) (high (n % 100) ∷ low (n % 100) ∷ out))

pub text_of-nonempty : (n : ℕ) → text_of n ≢ []
unfolding text_of
text_of-nonempty n = write_digits-nonempty (suc n) n [] (omega arith)
