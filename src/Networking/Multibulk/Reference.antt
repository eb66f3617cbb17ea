-- ===== src/Networking/Multibulk/Reference.antt =====
-- src/networking.c: processMultibulkBuffer without the positions in the buffer, the trimming and the
-- long strings that become objects where they are.
use prez.Prelude.{
  ℕ, zero, suc, ◌+◌, ◌-◌, ◌*◌, ◌≤◌, ◌≡◌, inl, inr, refl, sym, ◌∙◌, true, false, List, [], ◌∷◌, ◌++◌,
  Option, none, some, ltb, leb, ◌==◌, not, if◌then◌else◌, length, take, drop, get_or, arith,
  Bool-cases, drop_all,
}
use prez.Prelude.Int.{ℤ, pos, negsuc}
use prez.Prelude.Text.{Bytes}
use prez.Util.Decimal.{string2ll}
use prez.Sds.Buffer.{sdsnewlen, sdsrange, sdsrange-drop, from_start, range_length}
use prez.Networking.{
  ProtocolError, invalid_bulk_length, expected_dollar, Client, Outcome, ok, err, trimmed, strchr,
}

-- The length line at the front of the buffer.
pub data LengthLine : Type 0 where
  waits : LengthLine
  wrong : ProtocolError → LengthLine
  length_is : ℕ → Bytes → LengthLine

unfoldable pub length_value : Bytes → Option ℤ → LengthLine
length_value rest none = wrong invalid_bulk_length
length_value rest (some (negsuc n)) = wrong invalid_bulk_length
length_value rest (some (pos n)) =
    if ltb (512 * 1024 * 1024) n then wrong invalid_bulk_length else length_is n rest

unfoldable pub length_line : Bytes → Option ℕ → LengthLine
unfolding length_value
length_line buf none = waits
length_line buf (some i) =
    if ltb (length buf) (i + 2)
    then waits
    else if not (get_or buf 0 0 == b'$')
    then wrong (expected_dollar (get_or buf 0 0))
    else length_value (drop (i + 2) buf) (string2ll (take (i - 1) (drop 1 buf)))

unfoldable pub next_length : Option ℕ → Bytes → LengthLine
unfolding length_line strchr
next_length (some n) buf = length_is n buf
next_length none buf = length_line buf (strchr b'\r' buf)

-- The strings one after the other, each taken off the front.
unfoldable pub read_strings : ℕ → Client → Outcome
unfolding next_length
read_strings zero c = ok c
read_strings (suc more) c = elim (next_length c.bulklen c.querybuf) [
  | waits ↦ err c
  | wrong e ↦ err (record c { errors = c.errors ++ e ∷ []; close_after_reply = true })
  | length_is n rest ↦ elim (ltb (length rest) (n + 2)) [
    | true ↦ err (record c { querybuf = rest; bulklen = some n })
    | false ↦ read_strings more (record c {
      querybuf = drop (n + 2) rest;
      argv = c.argv ++ take n rest ∷ [];
      bulklen = none;
      multibulklen = c.multibulklen - 1;
    })
  ]
]

-- The client after one string, which is taken off the front.
abbrev pub taken : ℕ → Bytes → Client → Client
taken n rest c = record c {
  querybuf = drop (n + 2) rest;
  argv = c.argv ++ take n rest ∷ [];
  bulklen = none;
  multibulklen = c.multibulklen - 1;
}

-- The four ways of a round.
module _ (k : ℕ) (c : Client) where
  pub read_strings-waits : next_length c.bulklen c.querybuf ≡ waits → read_strings (suc k) c ≡ err c
  unfolding read_strings
  read_strings-waits l = rw (read_strings, l) refl

  pub read_strings-wrong :
      (e : ProtocolError)
      → next_length c.bulklen c.querybuf ≡ wrong e
      → read_strings (suc k) c
        ≡ err (record c { errors = c.errors ++ e ∷ []; close_after_reply = true })
  unfolding read_strings
  read_strings-wrong e l = rw (read_strings, l) refl

  pub read_strings_short :
      (n : ℕ) (rest : Bytes)
      → next_length c.bulklen c.querybuf ≡ length_is n rest
      → ltb (length rest) (n + 2) ≡ true
      → read_strings (suc k) c ≡ err (record c { querybuf = rest; bulklen = some n })
  unfolding read_strings
  read_strings_short n rest l short = rw (read_strings, l, short) refl

  pub read_strings-taken :
      (n : ℕ) (rest : Bytes)
      → next_length c.bulklen c.querybuf ≡ length_is n rest
      → ltb (length rest) (n + 2) ≡ false
      → read_strings (suc k) c ≡ read_strings k (taken n rest c)
  unfolding read_strings
  read_strings-taken n rest l full = rw (read_strings, l, full) refl

range_past : (len start : ℕ) → len ≤ start → range_length len start (len - 1) ≡ 0
unfolding range_length
range_past len start h = ground arith

trimmed_past : (at : ℕ) (buf : Bytes) → length buf ≤ at → trimmed at buf ≡ []
unfolding trimmed sdsnewlen sdsrange from_start
trimmed_past at [] h = refl
trimmed_past at (x ∷ xs) h = ground (arith, range_past (suc (length xs)) at h)

pub trimmed-drop : (at : ℕ) (buf : Bytes) → trimmed at buf ≡ drop at buf
trimmed-drop at buf = elim (Bool-cases (leb at (length buf))) [
  | inl within ↦ unfold trimmed sdsnewlen in (sdsrange-drop (sdsnewlen buf) at (ground arith)).0
  | inr past ↦ trimmed_past at buf (ground arith) ∙ sym (drop_all buf at (ground arith))
]

drop_nil {ℓ} : {A : Type ℓ} (m : ℕ) → drop {A = A} m [] ≡ []
drop_nil zero = refl
drop_nil (suc m) = refl

pub drop-add {ℓ} : {A : Type ℓ} (n m : ℕ) (xs : List A) → drop m (drop n xs) ≡ drop (n + m) xs
drop-add zero m xs = let e : 0 + m ≡ m = omega arith in rw e refl
drop-add (suc n) m [] = let e : suc n + m ≡ suc (n + m) = omega arith in rw (e, drop_nil m) refl
drop-add (suc n) m (x ∷ xs) =
    let e : suc n + m ≡ suc (n + m) = omega arith in rw (e, drop-add n m xs) refl

-- The buffer from `at` on.
abbrev pub skip : ℕ → Client → Client
skip at c = record c { querybuf = drop at c.querybuf }
