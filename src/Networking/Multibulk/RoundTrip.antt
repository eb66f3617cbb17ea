-- ===== src/Networking/Multibulk/RoundTrip.antt =====
-- src/networking.c: processMultibulkBuffer reads the requests that clients write.
use prez.Prelude.{
  ℕ, suc, ◌+◌, ◌-◌, ◌*◌, ◌≤◌, ◌<◌, ◌≡◌, ◌≢◌, inr, refl, sym, ap, ◌∙◌, false, List, [], ◌∷◌, ◌++◌,
  none, some, ltb, All, length, take, drop, arith, length-append, take-length-append,
  drop-length-append, append_assoc, append-nil,
}
use prez.Prelude.Int.{pos}
use prez.Prelude.Text.{Bytes}
use prez.Util.Decimal.{decimal, string2ll, llong_max}
use prez.Util.Decimal.RoundTrip.{string2ll-decimal}
use prez.Util.Decimal.Digits.{IsDigit, text_of-IsDigit}
use prez.Networking.{Client, ok, strchr}
use prez.Networking.Multibulk.{
  multibulk_rounds, multibulk_count, multibulk_value, process_multibulk_buffer,
}
use prez.Networking.Multibulk.Reference.{
  length_is, next_length, length_line, length_value, read_strings, read_strings-taken, drop-add,
  skip,
}
use prez.Networking.Multibulk.Refine.{multibulk_rounds-read_strings}

-- A length line with what comes behind it.
abbrev pub line : ℕ → ℕ → Bytes → Bytes
line ch n more = ch ∷ decimal (pos n) ++ b'\r' ∷ b'\n' ∷ more

unfoldable pub strings : List Bytes → Bytes → Bytes
strings [] rest = rest
strings (arg ∷ args) rest = line b'$' (length arg) (arg ++ b'\r' ∷ b'\n' ∷ strings args rest)

-- A request, as the protocol has it, and what comes behind it.
unfoldable pub request : List Bytes → Bytes → Bytes
unfolding strings
request args rest = line b'*' (length args) (strings args rest)

strchr-IsDigit :
    (xs more : Bytes) → All IsDigit xs → strchr b'\r' (xs ++ b'\r' ∷ more) ≡ some (length xs)
unfolding strchr
strchr-IsDigit [] more d = refl
strchr-IsDigit (x ∷ xs) more d = rw (strchr-IsDigit xs more d.1) (ground arith)

decimal-IsDigit : (n : ℕ) → All IsDigit (decimal (pos n))
unfolding decimal
decimal-IsDigit n = text_of-IsDigit n

strchr-line :
    (ch n : ℕ) (more : Bytes)
    → ch ≢ 0
    → ch ≢ b'\r'
    → strchr b'\r' (line ch n more) ≡ some (suc (length (decimal (pos n))))
unfolding strchr
strchr-line ch n more a b =
    rw (strchr-IsDigit (decimal (pos n)) (b'\n' ∷ more) (decimal-IsDigit n)) (ground arith)

-- The parts of a line.
module _ (ch n : ℕ) (more : Bytes) where
  line_text : take (length (decimal (pos n))) (drop 1 (line ch n more)) ≡ decimal (pos n)
  line_text = take-length-append (decimal (pos n)) (b'\r' ∷ b'\n' ∷ more)

  line_behind : drop (suc (length (decimal (pos n))) + 2) (line ch n more) ≡ more
  line_behind =
      let dec = decimal (pos n) in
      sym (drop-add (suc (length dec)) 2 (line ch n more))
      ∙ ap (drop 2) (drop-length-append dec (b'\r' ∷ b'\n' ∷ more))

  length-line : length (line ch n more) ≡ suc (length (decimal (pos n))) + 2 + length more
  length-line = omega (arith, length-append (decimal (pos n)) (b'\r' ∷ b'\n' ∷ more))

  line_value :
      n ≤ llong_max
      → string2ll (take (suc (length (decimal (pos n))) - 1) (drop 1 (line ch n more)))
        ≡ some (pos n)
  line_value h =
      let one : suc (length (decimal (pos n))) - 1 ≡ length (decimal (pos n)) = omega arith in
      rw (one, line_text) (string2ll-decimal (pos n) h)

-- The longest string that is accepted, and the most strings.
abbrev pub bulk_max : ℕ
bulk_max = 512 * 1024 * 1024

abbrev pub multibulk_max : ℕ
multibulk_max = 1024 * 1024

next_length-line :
    (n : ℕ) (more : Bytes) → n ≤ bulk_max → next_length none (line b'$' n more) ≡ length_is n more
unfolding next_length length_line length_value
next_length-line n more h =
    let L = suc (length (decimal (pos n))) in
    let big : ltb bulk_max n ≡ false = ground arith in
    let short : ltb (length (line b'$' n more)) (L + 2) ≡ false =
      ground (arith, length-line b'$' n more) in
    rw
      (
        strchr-line b'$' n more (λ e. omega arith) (λ e. omega arith),
        short,
        line_value b'$' n more (omega arith),
        line_behind b'$' n more,
        big,
      )
      refl

read_strings-strings :
    (args before : List Bytes) (rest : Bytes) (c : Client)
    → All (λ arg. length arg ≤ bulk_max) args
    → read_strings (length args) (record c {
      querybuf = strings args rest;
      argv = before;
      bulklen = none;
      multibulklen = length args;
    })
      ≡ ok (record c { querybuf = rest; argv = before ++ args; bulklen = none; multibulklen = 0 })
unfolding strings
read_strings-strings [] before rest c a = unfold read_strings in rw (append-nil before) refl
read_strings-strings (arg ∷ args) before rest c a =
    let n = length arg in
    let more = strings args rest in
    let tail = arg ++ b'\r' ∷ b'\n' ∷ more in
    let now : Client = record c {
      querybuf = line b'$' n tail;
      argv = before;
      bulklen = none;
      multibulklen = suc (length args);
    } in
    let whole : ltb (length tail) (n + 2) ≡ false =
      ground (arith, length-append arg (b'\r' ∷ b'\n' ∷ more)) in
    let behind : drop (n + 2) tail ≡ more =
      sym (drop-add n 2 tail) ∙ ap (drop 2) (drop-length-append arg (b'\r' ∷ b'\n' ∷ more)) in
    let fewer : suc (length args) - 1 ≡ length args = omega arith in
    read_strings-taken (length args) now n tail (next_length-line n tail a.0) whole
    ∙ rw
        (
          behind,
          take-length-append arg (b'\r' ∷ b'\n' ∷ more),
          fewer,
          ← append_assoc before (arg ∷ []) args,
        )
        (read_strings-strings args (before ++ arg ∷ []) rest c a.1)

multibulk_count-line :
    (c : Client) (n : ℕ) (more : Bytes)
    → n < multibulk_max
    → multibulk_count
        (record c { querybuf = line b'*' (suc n) more })
        (strchr b'\r' (line b'*' (suc n) more))
      ≡ multibulk_rounds
          (suc n)
          (suc (length (decimal (pos (suc n)))) + 2)
          (record c { querybuf = line b'*' (suc n) more; multibulklen = suc n })
unfolding multibulk_count multibulk_value
multibulk_count-line c n more h =
    let L = suc (length (decimal (pos (suc n)))) in
    let big : ltb multibulk_max (suc n) ≡ false = ground arith in
    let short : ltb (length (line b'*' (suc n) more)) (L + 2) ≡ false =
      ground (arith, length-line b'*' (suc n) more) in
    rw
      (
        strchr-line b'*' (suc n) more (λ e. omega arith) (λ e. omega arith),
        short,
        line_value b'*' (suc n) more (omega arith),
        big,
      )
      refl

-- A request is read back. Let a client that no part of a request has come from have a buffer that
-- starts with the text of a request, of one to 1024*1024 arguments with at most 512 megabytes each,
-- whatever bytes are in them. Then processMultibulkBuffer returns PREZ_OK, the arguments are the
-- request's, and the buffer has exactly what stood behind the request.
pub process_multibulk_buffer-request :
    (args : List Bytes) (rest : Bytes) (c : Client)
    → 0 < length args
    → length args ≤ multibulk_max
    → All (λ arg. length arg ≤ bulk_max) args
    → process_multibulk_buffer
        (record c { querybuf = request args rest; argv = []; multibulklen = 0; bulklen = none })
      ≡ ok (record c { querybuf = rest; argv = args; multibulklen = 0; bulklen = none })
process_multibulk_buffer-request [] rest c p h a = absurd (omega arith)
process_multibulk_buffer-request (arg ∷ args) rest c p h a =
    let n = suc (length args) in
    let more = strings (arg ∷ args) rest in
    let L = suc (length (decimal (pos n))) + 2 in
    let idle : Client = record c {
      querybuf = line b'*' n more;
      argv = [];
      multibulklen = 0;
      bulklen = none;
    } in
    let counted : Client = record idle { multibulklen = n } in
    let left : skip L counted ≡ record counted { querybuf = more } =
      rw (line_behind b'*' n more) refl in
    let read = ap (read_strings n) left ∙ read_strings-strings (arg ∷ args) [] rest c a in
    unfold request process_multibulk_buffer in
    multibulk_count-line idle (length args) more (omega arith)
    ∙ multibulk_rounds-read_strings n L counted refl (omega (arith, length-line b'*' n more))
        (inr (_, read))
    ∙ read
