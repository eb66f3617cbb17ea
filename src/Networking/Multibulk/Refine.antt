-- ===== src/Networking/Multibulk/Refine.antt =====
-- src/networking.c: processMultibulkBuffer and its reference read the same strings.
use prez.Prelude.{
  ℕ, zero, suc, ◌+◌, ◌-◌, ◌≤◌, ◌≡◌, ◌≢◌, ◌⊎◌, inl, inr, refl, sym, ap, ◌∙◌, true, false, ◌&&◌, [],
  ◌∷◌, ◌++◌, some, ltb, leb, ◌==◌, length, drop, arith, Bool-cases, length-drop, drop_all,
}
use prez.Prelude.Text.{Bytes}
use prez.Networking.{
  inline_max_size, mbulk_big_arg, ProtocolError, Client, ok, err, set_protocol_error,
}
use prez.Networking.Multibulk.{
  finish, unread, refused, known, bulk_length, read_argument, multibulk_rounds,
}
use prez.Networking.Multibulk.Reference.{
  read_strings-waits, read_strings-wrong, read_strings_short, read_strings-taken, taken,
  read_strings, trimmed-drop, drop-add, skip,
}
use prez.Networking.Multibulk.Agree.{
  waiting, oversized, refusing, knowing, bulk_length-Cases, finish_done, finish_more,
}

abbrev pub Moves : ℕ → ℕ → Bytes → Client → ℕ × Client → Type 0
Moves size n rest c next =
    (next.0 ≤ length (next.1).querybuf)
    × (length (next.1).querybuf ≤ size)
    × (skip next.0 next.1 ≡ taken n rest c)
    × ((next.1).multibulklen ≡ c.multibulklen - 1)

pub read_argument-Moves :
    (n from : ℕ) (q : Bytes) (c : Client)
    → from ≤ length q
    → ltb (length q - from) (n + 2) ≡ false
    → Moves
        (length q)
        n
        (drop from q)
        c
        (read_argument n from (record c { querybuf = q; bulklen = some n }))
unfolding read_argument
read_argument-Moves n from q c h full =
    elim (Bool-cases (from == 0 && (leb mbulk_big_arg n && length q == n + 2))) [
      | inl whole ↦
          let start : from ≡ 0 = ground arith in
          let size : length q ≡ n + 2 = ground arith in
          let used : length q - 2 ≡ n = omega arith in
          rw (whole, start, used)
            (omega arith, omega arith, rw (drop_all q (n + 2) (omega arith)) refl, refl)
      | inr part ↦ rw part (ground arith, omega arith, rw (drop-add from (n + 2) q) refl, refl)
    ]

-- The buffer is small, or the reference reads all of its strings.
abbrev Readable : ℕ → ℕ → Client → Type 0
Readable k at c =
    (length c.querybuf ≤ inline_max_size) ⊎ ((d : Client) × (read_strings k (skip at c) ≡ ok d))

pub err≢ok : (c d : Client) → err c ≢ ok d
err≢ok c d h = cc

-- The ways of a round.
module _ (k at : ℕ) (c : Client) where
  pub rounds_done : multibulk_rounds zero at c ≡ finish at c
  unfolding multibulk_rounds
  rounds_done = refl

  pub rounds-unread :
      bulk_length at c c.bulklen ≡ unread → multibulk_rounds (suc k) at c ≡ finish at c
  unfolding multibulk_rounds
  rounds-unread b = rw (multibulk_rounds, b) refl

  pub rounds-refused :
      (e : ProtocolError) (start : ℕ)
      → bulk_length at c c.bulklen ≡ refused e start
      → multibulk_rounds (suc k) at c
        ≡ err (record (skip start c) { errors = c.errors ++ e ∷ []; close_after_reply = true })
  unfolding multibulk_rounds set_protocol_error
  rounds-refused e start b = rw (multibulk_rounds, b, trimmed-drop start c.querybuf) refl

  pub rounds_short :
      (n from : ℕ) (d : Client)
      → bulk_length at c c.bulklen ≡ known n from d
      → ltb (length d.querybuf - from) (n + 2) ≡ true
      → multibulk_rounds (suc k) at c ≡ finish from d
  unfolding multibulk_rounds
  rounds_short n from d b short = rw (multibulk_rounds, b, short) refl

  pub rounds_full :
      (n from : ℕ) (d : Client)
      → bulk_length at c c.bulklen ≡ known n from d
      → ltb (length d.querybuf - from) (n + 2) ≡ false
      → multibulk_rounds (suc k) at c
        ≡ multibulk_rounds k (read_argument n from d).0 (read_argument n from d).1
  unfolding multibulk_rounds
  rounds_full n from d b full = rw (multibulk_rounds, b, full) refl

-- The loop of processMultibulkBuffer reads what its reference reads from the position on. Its
-- trimming, its positions and the buffer that becomes an argument make no difference: wherever the
-- buffer has 64 kilobytes at most, or the reference reads all the strings, the two have the same
-- result, an error of the protocol included.
pub multibulk_rounds-read_strings :
    (k at : ℕ) (c : Client)
    → c.multibulklen ≡ k
    → at ≤ length c.querybuf
    → Readable k at c
    → multibulk_rounds k at c ≡ read_strings k (skip at c)
multibulk_rounds-read_strings zero at c left h r =
    rounds_done 0 at c ∙ finish_done at c left ∙ unfold read_strings in refl
multibulk_rounds-read_strings (suc k) at c left h r = elim (bulk_length-Cases at c h) [
  | waiting b l ↦
      rounds-unread k at c b ∙ finish_more at c k left ∙ sym (read_strings-waits k (skip at c) l)
  | oversized b l big ↦ elim r [
    | inl small ↦ absurd (omega arith)
    | inr (d, done) ↦
        absurd (err≢ok (skip at c) d (sym (read_strings-waits k (skip at c) l) ∙ done))
  ]
  | refusing e b l ↦ rounds-refused k at c e at b ∙ sym (read_strings-wrong k (skip at c) e l)
  | knowing n from q inside small b l ↦
      let d : Client = record c { querybuf = q; bulklen = some n } in
      elim (Bool-cases (ltb (length q - from) (n + 2))) [
        | inl short ↦
            rounds_short k at c n from d b short
            ∙ finish_more from d k left
            ∙ sym
                (read_strings_short k (skip at c) n (drop from q) l (rw (length-drop from q) short))
        | inr full ↦
            let next = read_argument n from d in
            let (within, no_more, same, fewer) = read_argument-Moves n from q c inside full in
            let whole : ltb (length (drop from q)) (n + 2) ≡ false = rw (length-drop from q) full in
            let step = read_strings-taken k (skip at c) n (drop from q) l whole in
            let r' : Readable k next.0 next.1 = elim r [
              | inl fits ↦ inl (omega arith)
              | inr (e, done) ↦ inr (e, ap (read_strings k) same ∙ sym step ∙ done)
            ] in
            rounds_full k at c n from d b full
            ∙ multibulk_rounds-read_strings k next.0 next.1 (omega arith) within r'
            ∙ ap (read_strings k) same
            ∙ sym step
      ]
]
