-- ===== src/Networking/Multibulk/Lines.antt =====
-- src/networking.c: a length line that has come stays the same when more bytes come.
use prez.Prelude.{
  ℕ, suc, ◌+◌, ◌-◌, ◌*◌, ◌≤◌, ◌<◌, ◌≡◌, ◌≢◌, inl, inr, refl, sym, ap, false, [], ◌∷◌, ◌++◌, Option,
  none, some, ltb, ◌==◌, length, take, drop, get_or, arith, Bool-cases, Option-cases, length-append,
  length-drop, eq_of_some, none≢some, take-append, drop-append, get_or-append,
}
use prez.Prelude.Int.{ℤ, pos, negsuc}
use prez.Prelude.Text.{Bytes}
use prez.Util.Decimal.{string2ll}
use prez.Networking.{ProtocolError, invalid_bulk_length, expected_dollar, strchr}
use prez.Networking.Multibulk.Reference.{
  LengthLine, waits, wrong, length_is, next_length, length_line, length_value,
}

pub strchr-append :
    (ch : ℕ) (xs ys : Bytes) (i : ℕ)
    → strchr ch xs ≡ some i
    → (strchr ch (xs ++ ys) ≡ some i) × (i < length xs)
unfolding strchr
strchr-append ch [] ys i h = absurd (none≢some h)
strchr-append ch (x ∷ xs) ys i h = elim (Bool-cases (x == ch)) [
  | inl here ↦ ground arith
  | inr other ↦ elim (Bool-cases (x == 0)) [
    | inl stop ↦ absurd (none≢some (rw (other, stop) at h))
    | inr go ↦ elim (Option-cases (strchr ch xs)) [
      | inl no_more ↦ absurd (none≢some (rw (other, go, no_more) at h))
      | inr (j, found) ↦
          let (same, below) = strchr-append ch xs ys j found in
          let next : suc j ≡ i = eq_of_some (rw (other, go, found) at h) in
          rw (other, go, same) (ap some next, omega arith)
    ]
  ]
]

-- The same line with more bytes behind it.
abbrev pub further : LengthLine → Bytes → LengthLine
further waits more = waits
further (wrong e) more = wrong e
further (length_is n rest) more = length_is n (rest ++ more)

length_value-append :
    (buf more : Bytes) (o : Option ℤ)
    → length_value (buf ++ more) o ≡ further (length_value buf o) more
unfolding length_value
length_value-append buf more none = refl
length_value-append buf more (some (negsuc n)) = refl
length_value-append buf more (some (pos n)) = elim (Bool-cases (ltb (512 * 1024 * 1024) n)) [
  | inl big ↦ rw big refl
  | inr fits ↦ rw fits refl
]

length_line-append :
    (buf more : Bytes) (i : ℕ)
    → i < length buf
    → length_line buf (some i) ≢ waits
    → length_line (buf ++ more) (some i) ≡ further (length_line buf (some i)) more
unfolding length_line
length_line-append buf more i h go = elim (Bool-cases (ltb (length buf) (i + 2))) [
  | inl short ↦ absurd (go (rw short refl))
  | inr whole ↦
      let whole' : ltb (length (buf ++ more)) (i + 2) ≡ false =
        ground (arith, length-append buf more) in
      let first = get_or-append buf more 0 0 (ground arith) in
      elim (Bool-cases (get_or buf 0 0 == b'$')) [
        | inl dollar ↦
            let text : take (i - 1) (drop 1 (buf ++ more)) ≡ take (i - 1) (drop 1 buf) =
              rw (drop-append 1 buf more (ground arith))
                (take-append (i - 1) (drop 1 buf) more (ground (arith, length-drop 1 buf))) in
            rw (whole, whole', first, dollar, text, drop-append (i + 2) buf more (ground arith))
              (length_value-append (drop (i + 2) buf) more (string2ll (take (i - 1) (drop 1 buf))))
        | inr other ↦ rw (whole, whole', first, other) refl
      ]
]

pub next_length-append :
    (o : Option ℕ) (buf more : Bytes)
    → next_length o buf ≢ waits
    → next_length o (buf ++ more) ≡ further (next_length o buf) more
unfolding next_length
next_length-append (some n) buf more go = refl
next_length-append none buf more go = elim (Option-cases (strchr b'\r' buf)) [
  | inl no_line ↦ absurd (go (rw no_line (unfold length_line in refl)))
  | inr (i, found) ↦
      let (same, below) = strchr-append b'\r' buf more i found in
      rw (same, found) (length_line-append buf more i below (λ w. go (rw found w)))
]

pub data LineCases (l : LengthLine) : Type 0 where
  line_waits : l ≡ waits → LineCases l
  line_wrong : (e : ProtocolError) → l ≡ wrong e → LineCases l
  line_known : (n : ℕ) (rest : Bytes) → l ≡ length_is n rest → LineCases l

pub LengthLine-cases : (l : LengthLine) → LineCases l
LengthLine-cases waits = line_waits refl
LengthLine-cases (wrong e) = line_wrong e refl
LengthLine-cases (length_is n rest) = line_known n rest refl

pub known≢waits : (n : ℕ) (rest : Bytes) → length_is n rest ≢ waits
known≢waits n rest h = cc

wrong≢known : (e : ProtocolError) (n : ℕ) (rest : Bytes) → wrong e ≢ length_is n rest
wrong≢known e n rest h = cc

-- What stands behind a length line is shorter.
abbrev rest_of : Bytes → LengthLine → Bytes
rest_of d waits = d
rest_of d (wrong e) = d
rest_of d (length_is n rest) = rest

eq_of_length_is : (n m : ℕ) (a b : Bytes) → length_is n a ≡ length_is m b → a ≡ b
eq_of_length_is n m a b h = ap (rest_of a) h

length_value_rest :
    (buf rest : Bytes) (n : ℕ) (o : Option ℤ) → length_value buf o ≡ length_is n rest → buf ≡ rest
unfolding length_value
length_value_rest buf rest n none h = cc
length_value_rest buf rest n (some (negsuc m)) h = cc
length_value_rest buf rest n (some (pos m)) h = elim (Bool-cases (ltb (512 * 1024 * 1024) m)) [
  | inl big ↦ absurd (wrong≢known invalid_bulk_length n rest (rw big at h))
  | inr fits ↦ eq_of_length_is m n buf rest (rw fits at h)
]

length_line_shorter :
    (buf rest : Bytes) (n : ℕ) (o : Option ℕ)
    → length_line buf o ≡ length_is n rest
    → length rest ≤ length buf
unfolding length_line
length_line_shorter buf rest n none h = absurd (known≢waits n rest (sym h))
length_line_shorter buf rest n (some i) h = elim (Bool-cases (ltb (length buf) (i + 2))) [
  | inl short ↦ absurd (known≢waits n rest (sym (rw short at h)))
  | inr whole ↦ elim (Bool-cases (get_or buf 0 0 == b'$')) [
    | inl dollar ↦
        let same =
          length_value_rest (drop (i + 2) buf) rest n (string2ll (take (i - 1) (drop 1 buf)))
            (rw (whole, dollar) at h) in
        rw (← same) (omega (arith, length-drop (i + 2) buf))
    | inr other ↦
        absurd (wrong≢known (expected_dollar (get_or buf 0 0)) n rest (rw (whole, other) at h))
  ]
]

pub behind_shorter :
    (o : Option ℕ) (buf rest : Bytes) (n : ℕ)
    → next_length o buf ≡ length_is n rest
    → length rest ≤ length buf
unfolding next_length
behind_shorter none buf rest n h = length_line_shorter buf rest n (strchr b'\r' buf) h
behind_shorter (some m) buf rest n h = rw (eq_of_length_is m n buf rest h) (omega arith)
