-- ===== src/Networking/Multibulk/Agree.antt =====
-- src/networking.c: what processMultibulkBuffer and its reference say of the next string.
use prez.Prelude.{
  get_or-drop, ℕ, zero, suc, ◌+◌, ◌-◌, ◌*◌, ◌≤◌, ◌<◌, ◌≡◌, inl, inr, refl, sym, ap, ◌∙◌, true,
  false, Option, none, some, ltb, leb, ◌==◌, length, take, drop, get_or, arith, Bool-cases,
  length-drop,
}
use mathlib.Core.Path.{subst}
use prez.Prelude.Int.{ℤ, pos, negsuc}
use prez.Prelude.Text.{Bytes}
use prez.Util.Decimal.{string2ll}
use prez.Networking.{
  inline_max_size, mbulk_big_arg, ProtocolError, too_big_bulk_count, invalid_bulk_length,
  expected_dollar, Client, ok, err, strchr,
}
use prez.Networking.Multibulk.{
  finish, BulkLength, unread, refused, known, bulk_length, bulk_length_line, bulk_length_value,
}
use prez.Networking.Multibulk.Reference.{
  LengthLine, waits, wrong, length_is, length_value, length_line, next_length, trimmed-drop,
  drop-add, skip,
}

at_zero : (a : ℕ) → a + 0 ≡ a
at_zero a = omega arith

at_more : (a i : ℕ) → a + (i + 2) ≡ a + i + 2
at_more a i = omega arith

-- What the two say of the next string, at the same place.
pub data Agree (at : ℕ) (c : Client) : BulkLength → LengthLine → Type 0 where
  both_wait : Agree at c unread waits
  too_big : inline_max_size < length c.querybuf → Agree at c (refused too_big_bulk_count 0) waits
  both_refuse : (e : ProtocolError) → Agree at c (refused e at) (wrong e)
  both_know :
      (n from : ℕ) (q : Bytes)
      → from ≤ length q
      → length q ≤ length c.querybuf
      → Agree at c
          (known n from (record c { querybuf = q; bulklen = some n }))
          (length_is n (drop from q))

value-Agree :
    (at next : ℕ) (c : Client) (o : Option ℤ)
    → next ≤ length c.querybuf
    → Agree at c (bulk_length_value at next c o) (length_value (drop next c.querybuf) o)
unfolding bulk_length_value length_value
value-Agree at next c none h = both_refuse invalid_bulk_length
value-Agree at next c (some (negsuc n)) h = both_refuse invalid_bulk_length
value-Agree at next c (some (pos n)) h = elim (Bool-cases (ltb (512 * 1024 * 1024) n)) [
  | inl big ↦ rw big (both_refuse invalid_bulk_length)
  | inr fits ↦ elim (Bool-cases (leb mbulk_big_arg n)) [
    | inl long ↦
        rw (fits, long, trimmed-drop next c.querybuf)
          (both_know n 0 (drop next c.querybuf) (omega arith)
            (omega (arith, length-drop next c.querybuf)))
    | inr short ↦ rw (fits, short) (both_know n next c.querybuf h (omega arith))
  ]
]

line-Agree :
    (at : ℕ) (c : Client) (o : Option ℕ)
    → at ≤ length c.querybuf
    → Agree at c (bulk_length_line at c o) (length_line (drop at c.querybuf) o)
unfolding bulk_length_line length_line
line-Agree at c none h = elim (Bool-cases (ltb inline_max_size (length c.querybuf))) [
  | inl big ↦ rw big (too_big (ground arith))
  | inr fits ↦ rw fits both_wait
]
line-Agree at c (some i) h =
    let q = c.querybuf in
    let first : get_or (drop at q) 0 0 ≡ get_or q at 0 =
      get_or-drop at 0 q 0 ∙ ap (λ k. get_or q k 0) (at_zero at) in
    let behind : drop (i + 2) (drop at q) ≡ drop (at + i + 2) q =
      drop-add at (i + 2) q ∙ ap (λ k. drop k q) (at_more at i) in
    elim (Bool-cases (ltb (length q) (at + i + 2))) [
      | inl short ↦
          let short' : ltb (length (drop at q)) (i + 2) ≡ true = ground (arith, length-drop at q) in
          rw (short, short') both_wait
      | inr line ↦
          let line' : ltb (length (drop at q)) (i + 2) ≡ false = ground (arith, length-drop at q) in
          elim (Bool-cases (get_or q at 0 == b'$')) [
            | inl dollar ↦
                rw (line, line', first, dollar, behind, drop-add at 1 q)
                  (value-Agree at (at + i + 2) c (string2ll (take (i - 1) (drop (at + 1) q)))
                    (ground arith))
            | inr other ↦
                rw (line, line', first, other) (both_refuse (expected_dollar (get_or q at 0)))
          ]
    ]

bulk_length-Agree :
    (at : ℕ) (c : Client)
    → at ≤ length c.querybuf
    → (o : Option ℕ) → c.bulklen ≡ o
    → Agree at c (bulk_length at c o) (next_length o (drop at c.querybuf))
unfolding bulk_length next_length
bulk_length-Agree at c h none e = line-Agree at c (strchr b'\r' (drop at c.querybuf)) h
bulk_length-Agree at c h (some n) e =
    let same : record c { bulklen = some n } ≡ c = ap (λ b. record c { bulklen = b }) (sym e) in
    subst (λ d. Agree at c (known n at d) (length_is n (drop at c.querybuf))) same
      (both_know n at c.querybuf h (omega arith))

-- The same, with the equations.
pub data Cases (at : ℕ) (c : Client) (b : BulkLength) (l : LengthLine) : Type 0 where
  waiting : b ≡ unread → l ≡ waits → Cases at c b l
  oversized :
      b ≡ refused too_big_bulk_count 0
      → l ≡ waits
      → inline_max_size < length c.querybuf
      → Cases at c b l
  refusing : (e : ProtocolError) → b ≡ refused e at → l ≡ wrong e → Cases at c b l
  knowing :
      (n from : ℕ) (q : Bytes)
      → from ≤ length q
      → length q ≤ length c.querybuf
      → b ≡ known n from (record c { querybuf = q; bulklen = some n })
      → l ≡ length_is n (drop from q)
      → Cases at c b l

Cases-of : (at : ℕ) (c : Client) (b : BulkLength) (l : LengthLine) → Agree at c b l → Cases at c b l
Cases-of at c _ _ both_wait = waiting refl refl
Cases-of at c _ _ (too_big h) = oversized refl refl h
Cases-of at c _ _ (both_refuse e) = refusing e refl refl
Cases-of at c _ _ (both_know n from q h g) = knowing n from q h g refl refl

pub bulk_length-Cases :
    (at : ℕ) (c : Client)
    → at ≤ length c.querybuf
    → Cases at c (bulk_length at c c.bulklen) (next_length c.bulklen (drop at c.querybuf))
bulk_length-Cases at c h = Cases-of at c _ _ (bulk_length-Agree at c h c.bulklen refl)

-- Trimming leaves the bytes behind the position.
pub finish_done : (at : ℕ) (c : Client) → c.multibulklen ≡ 0 → finish at c ≡ ok (skip at c)
unfolding finish
finish_done zero c h = ground arith
finish_done (suc at) c h = rw (h, trimmed-drop (suc at) c.querybuf) (ground arith)

pub finish_more :
    (at : ℕ) (c : Client) (k : ℕ) → c.multibulklen ≡ suc k → finish at c ≡ err (skip at c)
unfolding finish
finish_more zero c k h = ground arith
finish_more (suc at) c k h = rw (h, trimmed-drop (suc at) c.querybuf) (ground arith)
