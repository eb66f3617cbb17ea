-- ===== src/Networking/Multibulk/Resume.antt =====
-- src/networking.c: processMultibulkBuffer goes on where it stopped when more bytes come.
use mathlib.Core.Bool.{true≢false}
use prez.Prelude.{
  ℕ, zero, suc, ◌+◌, ◌≤◌, ◌≡◌, inl, inr, refl, sym, ap, ◌∙◌, false, ◌++◌, some, ltb, length, arith,
  Bool-cases, length-append, length-drop, take-append, drop-append,
}
use prez.Prelude.Text.{Bytes}
use prez.Networking.{Client, Outcome, ok, err, aborted}
use prez.Networking.Multibulk.Reference.{
  length_is, next_length, read_strings, read_strings-waits, read_strings-wrong, read_strings_short,
  read_strings-taken, taken,
}
use prez.Networking.Multibulk.Lines.{
  next_length-append, LengthLine-cases, line_waits, line_wrong, line_known, known≢waits,
  behind_shorter, further,
}

-- The same client with more bytes in its buffer.
abbrev pub extend : Client → Bytes → Client
extend c more = record c { querybuf = c.querybuf ++ more }

abbrev err_client : Client → Outcome → Client
err_client c (ok d) = c
err_client c (err d) = d
err_client c aborted = c

pub eq_of_err : {c d : Client} → err c ≡ err d → c ≡ d
eq_of_err {c = c} h = ap (err_client c) h

-- Where the reading stopped, and what it does with more bytes.
abbrev pub Resumes : ℕ → Client → Bytes → Client → Type 0
Resumes k c more d =
    (j : ℕ) × (d.multibulklen ≡ suc j)
    × (length d.querybuf ≤ length c.querybuf)
    × (read_strings k (extend c more) ≡ read_strings (suc j) (extend d more))

short-Resumes :
    (k n : ℕ) (rest more : Bytes) (c : Client)
    → next_length c.bulklen (c.querybuf ++ more) ≡ length_is n (rest ++ more)
    → read_strings (suc k) (extend c more)
      ≡ read_strings (suc k) (extend (record c { querybuf = rest; bulklen = some n }) more)
short-Resumes k n rest more c l =
    let d : Client = record c { querybuf = rest; bulklen = some n } in
    elim (Bool-cases (ltb (length (rest ++ more)) (n + 2))) [
      | inl short ↦
          read_strings_short k (extend c more) n (rest ++ more) l short
          ∙ sym (
              read_strings_short k (extend d more) n (rest ++ more) (unfold next_length in refl)
                short)
      | inr full ↦
          read_strings-taken k (extend c more) n (rest ++ more) l full
          ∙ sym (
              read_strings-taken k (extend d more) n (rest ++ more) (unfold next_length in refl)
                full)
    ]

pub read_strings-Resumes :
    (k : ℕ) (c d : Client) (more : Bytes)
    → c.multibulklen ≡ k
    → read_strings k c ≡ err d
    → d.close_after_reply ≡ false
    → Resumes k c more d
read_strings-Resumes zero c d more left h alive = absurd (unfold read_strings in cc)
read_strings-Resumes (suc k) c d more left h alive =
    elim (LengthLine-cases (next_length c.bulklen c.querybuf)) [
      | line_waits l ↦
          let same : c ≡ d = eq_of_err (sym (read_strings-waits k c l) ∙ h) in
          (k, rw (← same) left, rw same (omega arith), rw same refl)
      | line_wrong e l ↦
          let same = eq_of_err (sym (read_strings-wrong k c e l) ∙ h) in
          absurd (true≢false (ap (λ (d : Client). d.close_after_reply) same ∙ alive))
      | line_known n rest l ↦
          let l' : next_length c.bulklen (c.querybuf ++ more) ≡ length_is n (rest ++ more) =
            next_length-append c.bulklen c.querybuf more (λ w. known≢waits n rest (sym l ∙ w))
            ∙ ap (λ l. further l more) l in
          let shorter = behind_shorter c.bulklen c.querybuf rest n l in
          elim (Bool-cases (ltb (length rest) (n + 2))) [
            | inl short ↦
                let same = eq_of_err (sym (read_strings_short k c n rest l short) ∙ h) in
                rw (← same) (k, left, shorter, short-Resumes k n rest more c l')
            | inr full ↦
                let next = taken n rest c in
                let full' : ltb (length (rest ++ more)) (n + 2) ≡ false =
                  ground (arith, length-append rest more) in
                let stopped = sym (read_strings-taken k c n rest l full) ∙ h in
                let (j, rest_left, no_more, same) =
                  read_strings-Resumes k next d more (rw left (omega arith)) stopped alive in
                let moved : taken n (rest ++ more) (extend c more) ≡ extend next more =
                  rw
                    (
                      drop-append (n + 2) rest more (ground arith),
                      take-append n rest more (ground arith),
                    )
                    refl in
                (
                  j,
                  rest_left,
                  omega (arith, shorter, length-drop (n + 2) rest),
                  read_strings-taken k (extend c more) n (rest ++ more) l' full'
                      ∙ ap (read_strings k) moved
                      ∙ same,
                )
          ]
    ]
