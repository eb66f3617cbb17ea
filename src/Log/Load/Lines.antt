-- ===== src/Log/Load/Lines.antt =====
-- src/log.c: reading back the header lines that catLogEntry writes.
use prez.Prelude.{
  ℕ, zero, suc, ◌+◌, ◌-◌, ◌*◌, ◌≤◌, ◌<◌, ◌≡◌, ◌≢◌, refl, ap, ◌∙◌, [], ◌∷◌, ◌++◌, length, All, arith,
  append_assoc, length-append,
}
use prez.Prelude.Int.{pos}
use prez.Prelude.Text.{Bytes}
use prez.Util.Decimal.{llong_max, text_of, decimal}
use prez.Util.Decimal.Digits.{IsDigit, text_of-IsDigit, read-text_of, text_of-nonempty}
use prez.Util.Decimal.Length.{length-text_of, digits10_le}
use prez.Log.{header}
use prez.Log.Load.{c_string, fgets, strtol, strtol_digits, clamp_pos, read_line, marked, done}

digits_step :
    (c : ℕ) (s : Bytes) (v : ℕ)
    → IsDigit c
    → strtol_digits (c ∷ s) v ≡ strtol_digits s (v * 10 + (c - b'0'))
unfolding strtol_digits
digits_step c s v h = ground arith

strtol_plain :
    (s : Bytes) (rest : Bytes)
    → All IsDigit s
    → s ≢ []
    → strtol (s ++ rest) ≡ clamp_pos (strtol_digits (s ++ rest) 0)
unfolding strtol
strtol_plain [] rest a h = absurd (h refl)
strtol_plain (c ∷ s) rest a h = ground arith

fgets_line :
    (n : ℕ) (s rest : Bytes)
    → All IsDigit s
    → length s + 2 ≤ n
    → fgets n (s ++ (b'\r' ∷ b'\n' ∷ rest)) ≡ (s ++ b'\r' ∷ b'\n' ∷ [], rest)
unfolding fgets
fgets_line zero s rest a h = absurd (omega arith)
fgets_line (suc zero) s rest a h = absurd (omega arith)
fgets_line (suc (suc n)) [] rest a h = refl
fgets_line (suc (suc n)) (c ∷ s) rest a h = ground (arith, fgets_line (suc n) s rest a.1)

c_string_line :
    (s : Bytes) → All IsDigit s → c_string (s ++ b'\r' ∷ b'\n' ∷ []) ≡ s ++ b'\r' ∷ b'\n' ∷ []
unfolding c_string
c_string_line [] a = refl
c_string_line (c ∷ s) a = ground (arith, c_string_line s a.1)

pub strtol_line : (n : ℕ) → n ≤ llong_max → strtol (text_of n ++ b'\r' ∷ b'\n' ∷ []) ≡ pos n
strtol_line n h =
    strtol_plain (text_of n) (b'\r' ∷ b'\n' ∷ []) (text_of-IsDigit n) (text_of-nonempty n)
    ∙ rw (read-text_of strtol_digits digits_step n (b'\r' ∷ b'\n' ∷ []))
        (unfold strtol_digits clamp_pos in ground arith)

header_lem : (mark n : ℕ) (s : Bytes) → header mark n ++ s ≡ mark ∷ (text_of n ++ b'\r' ∷ b'\n' ∷ s)
unfolding header decimal
header_lem mark n s = ap (λ t. mark ∷ t) (append_assoc (text_of n) (b'\r' ∷ b'\n' ∷ []) s)

fgets_marked :
    (mark n : ℕ) (t s rest : Bytes)
    → mark ≢ b'\n'
    → fgets n t ≡ (s, rest)
    → fgets (suc n) (mark ∷ t) ≡ (mark ∷ s, rest)
unfolding fgets
fgets_marked mark n t s rest q h = ground (arith, h)

marked_lem :
    (mark : ℕ) (t rest : Bytes)
    → 0 < mark
    → c_string t ≡ t
    → marked mark (mark ∷ t) rest
      ≡ done (record { number = t; size = length (mark ∷ t); rest = rest })
unfolding marked c_string
marked_lem mark t rest p h = ground (arith, h)

length-header : (mark n : ℕ) → length (header mark n) ≡ length (text_of n) + 3
unfolding header decimal
length-header mark n = omega (arith, length-append (text_of n) (b'\r' ∷ b'\n' ∷ []))

-- A header line is read as its number, with its length.
pub read_line-header :
    (mark n : ℕ) (s : Bytes)
    → 0 < mark
    → mark ≢ b'\n'
    → n ≤ llong_max
    → read_line mark (header mark n ++ s)
      ≡ done (record {
        number = text_of n ++ b'\r' ∷ b'\n' ∷ [];
        size = length (header mark n);
        rest = s;
      })
unfolding read_line
read_line-header mark n s p q h =
    let line = text_of n ++ b'\r' ∷ b'\n' ∷ [] in
    let short : length (text_of n) + 2 ≤ 126 =
      omega (arith, length-text_of n (omega arith), digits10_le n (omega arith)) in
    let got : fgets 127 (mark ∷ (text_of n ++ b'\r' ∷ b'\n' ∷ s)) ≡ (mark ∷ line, s) =
      fgets_marked mark 126 _ line s q (fgets_line 126 (text_of n) s (text_of-IsDigit n) short) in
    let size : length (mark ∷ line) ≡ length (header mark n) =
      omega (arith, length-header mark n, length-append (text_of n) (b'\r' ∷ b'\n' ∷ [])) in
    rw (
      header_lem mark n s,
      got,
      marked_lem mark line s p (c_string_line (text_of n) (text_of-IsDigit n)),
      size,
    )
