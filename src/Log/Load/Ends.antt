-- ===== src/Log/Load/Ends.antt =====
-- src/log.c: how loadLogFile ends.
use prez.Prelude.{
  ℕ, zero, suc, ◌+◌, ◌≤◌, ◌<◌, ◌≡◌, refl, sym, ap, ◌∙◌, inl, inr, Bool, true, false, List, [], ◌∷◌,
  Option, none, some, ltb, leb, ◌-◌, ◌^◌, ◌==◌, length, take, drop, length-drop, arith, Bool-cases,
}
use prez.Prelude.Int.{ℤ, pos, ltb_ℤ, to_ulong}
use prez.Prelude.Text.{Bytes}
use prez.Util.Decimal.{string2ll}
use prez.Log.{LogEntry, LogEntryNode}
use prez.Log.Load.{
  Loaded, done, format_error, read_error, undefined, unfinished, ◌>>=◌, fgets, strtol, atoi,
  set_number, set_field, Line, marked, read_line, Progress, need, allocate, load_arg, load_args,
  load_entry, load_entries, load_log_file,
}

abbrev Tail : Bytes → Bytes → Type 0
Tail s t = (n : ℕ) × (t ≡ drop n s)

length-Tail : (s t : Bytes) → Tail s t → length t ≤ length s
length-Tail s t (n, e) = rw e (omega (arith, length-drop n s))

abbrev empty : Bytes
empty = []

drop-nil : (n : ℕ) → drop n empty ≡ empty
drop-nil zero = refl
drop-nil (suc n) = refl

drop-drop : (n m : ℕ) (s : Bytes) → drop n (drop m s) ≡ drop (m + n) s
drop-drop n zero s = ap (λ k. drop k s) (omega arith)
drop-drop n (suc m) [] = drop-nil n ∙ sym (drop-nil (suc m + n))
drop-drop n (suc m) (c ∷ s) =
    let e : suc m + n ≡ suc (m + n) = omega arith in
    drop-drop n m s ∙ ap (λ k. drop k (c ∷ s)) (sym e)

Tail-drop : (s t : Bytes) (n : ℕ) → Tail s t → Tail s (drop n t)
Tail-drop s t n (m, e) = (m + n, ap (drop n) e ∙ drop-drop n m s)

-- A line of the file that gives one of the lengths for which sdsnewlen allocates too little.
pub record Overrun (file : Bytes) : Type 0 where
  pub offset : ℕ
  pub line : Line
  pub is_line : read_line b'$' (drop offset file) ≡ done line
  pub too_long : 2 ^ 64 - 17 ≤ to_ulong (strtol line.number)

-- A result that is not `unfinished`, of which P holds if it is a value, and which is undefined only
-- for such a line.
abbrev pub Ended {ℓ} : {A : Type ℓ} → Bytes → (A → Type 0) → Loaded A → Type 0
Ended file P (done a) = P a
Ended file P format_error = Unit {0}
Ended file P read_error = Unit {0}
Ended file P undefined = Overrun file
Ended file P unfinished = ⊥

fgets-Tail : (n : ℕ) (s : Bytes) → Tail s (fgets n s).1
unfolding fgets
fgets-Tail zero s = (0, refl)
fgets-Tail (suc n) [] = (0, refl)
fgets-Tail (suc n) (c ∷ s) = elim (Bool-cases (c == b'\n')) [
  | inl newline ↦ rw newline (1, refl)
  | inr other ↦ rw other (let (k, e) = fgets-Tail n s in (suc k, e))
]

fgets_behind : (n c : ℕ) (s : Bytes) → Tail s (fgets (suc n) (c ∷ s)).1
unfolding fgets
fgets_behind n c s = elim (Bool-cases (c == b'\n')) [
  | inl newline ↦ rw newline (0, refl)
  | inr other ↦ rw other (fgets-Tail n s)
]

module _ (file : Bytes) where
  then_ends {ℓ κ} :
      {A : Type ℓ} {B : Type κ} (P : A → Type 0) (Q : B → Type 0) (m : Loaded A) (f : A → Loaded B)
      → Ended file P m
      → ((a : A) → P a → Ended file Q (f a))
      → Ended file Q (m >>= f)
  then_ends P Q (done a) f h k = k a h
  then_ends P Q format_error f h k = tt
  then_ends P Q read_error f h k = tt
  then_ends P Q undefined f h k = h
  then_ends P Q unfinished f h k = absurd h

  -- What is left is the end of the file, and shorter than n.
  abbrev Left : ℕ → Bytes → Type 0
  Left n rest = Tail file rest × (length rest < n)

  marked-Ended :
      (mark n : ℕ) (line rest : Bytes)
      → Left n rest
      → Ended file (λ (l : Line). Left n l.rest) (marked mark line rest)
  unfolding marked
  marked-Ended mark n [] rest h = tt
  marked-Ended mark n (c ∷ line) rest h = elim (Bool-cases (c == mark)) [
    | inl right ↦ rw right h
    | inr wrong ↦ rw wrong tt
  ]

  Tail-cons : (c : ℕ) (s t : Bytes) → Tail file (c ∷ s) → Tail s t → Tail file t
  Tail-cons c s t (m, e) (n, g) = (m + suc n, g ∙ ap (drop (suc n)) e ∙ drop-drop (suc n) m file)

  -- A line takes a byte at least.
  read_line-Ended :
      (mark : ℕ) (s : Bytes)
      → Tail file s
      → Ended file (λ (l : Line). Left (length s) l.rest) (read_line mark s)
  unfolding read_line
  read_line-Ended mark [] at = tt
  read_line-Ended mark (c ∷ s) at =
      let (line, rest) = fgets 127 (c ∷ s) in
      let behind = fgets_behind 126 c s in
      let shorter = length-Tail s (fgets 127 (c ∷ s)).1 behind in
      marked-Ended mark (suc (length s)) (fgets 127 (c ∷ s)).0 (fgets 127 (c ∷ s)).1
        (Tail-cons c s (fgets 127 (c ∷ s)).1 at behind, omega (arith, shorter))

  set_number-Ended :
      (set : ℤ → LogEntry) (o : Option ℤ) → Ended file (λ _. Unit {0}) (set_number set o)
  unfolding set_number
  set_number-Ended set none = tt
  set_number-Ended set (some v) = tt

  set_field-Ended :
      (j : ℕ) (e : LogEntry) (arg : Bytes) → Ended file (λ _. Unit {0}) (set_field j e arg)
  unfolding set_field
  set_field-Ended zero e arg = set_number-Ended _ (string2ll arg)
  set_field-Ended (suc zero) e arg = set_number-Ended _ (string2ll arg)
  set_field-Ended (suc (suc zero)) e arg = tt
  set_field-Ended (suc (suc (suc zero))) e arg = tt
  set_field-Ended (suc (suc (suc (suc j)))) e arg = tt

  need-Ended : (len : ℕ) (s : Bytes) → Ended file (λ _. Unit {0}) (need len s)
  unfolding need
  need-Ended len s = elim (Bool-cases (ltb (length s) len)) [
    | inl few ↦ rw few tt
    | inr enough ↦ rw enough tt
  ]

  abbrev Shorter : ℕ → Loaded Progress → Type 0
  Shorter n r = Ended file (λ (q : Progress). Left n q.rest) r

  allocate-Ended :
      (rest : Bytes) (line : Line)
      → Tail file rest
      → read_line b'$' rest ≡ done line
      → Ended file (λ _. Unit {0}) (allocate (to_ulong (strtol line.number)))
  unfolding allocate
  allocate-Ended rest line (n, e) h =
      elim (Bool-cases (leb (2 ^ 64 - 17) (to_ulong (strtol line.number)))) [
        | inl wraps ↦
            rw wraps
              (record { offset = n; line = line; is_line = rw (← e) h; too_long = ground arith })
        | inr fits ↦ rw fits tt
      ]

  -- What load_arg does behind its first line.
  arg-Ended :
      (j : ℕ) (p : Progress) (line : Line)
      → Tail file p.rest
      → read_line b'$' p.rest ≡ done line
      → Left (length p.rest) line.rest
      → (let len = to_ulong (strtol line.number) in
          Shorter (length p.rest) (
            allocate len >>= λ _. need len line.rest >>= λ _.
            set_field j p.entry (take len line.rest) >>= λ entry.
            need 2 (drop len line.rest) >>= λ _. done (record {
              entry = entry;
              loglen = p.loglen + (len + line.size) + 2;
              rest = drop 2 (drop len line.rest);
            })))
  arg-Ended j p line at read (behind, short) =
      let len = to_ulong (strtol line.number) in
      let rest = drop len line.rest in
      let any = λ (_ : Unit {0}). Unit {0} in
      then_ends any _ (allocate len) _ (allocate-Ended p.rest line at read) (λ _ _.
        then_ends any _ (need len line.rest) _ (need-Ended len line.rest) (λ _ _.
          then_ends (λ _. Unit {0}) _ (set_field j p.entry (take len line.rest)) _
            (set_field-Ended j p.entry (take len line.rest))
            (λ entry _. then_ends any _ (need 2 rest) _ (need-Ended 2 rest) (λ _ _. (
              Tail-drop file rest 2 (Tail-drop file line.rest len behind),
              omega (arith, short, length-drop 2 rest, length-drop len line.rest),
            )))))

  with_line :
      (mark : ℕ) (s : Bytes) (P : Progress → Type 0) (f : Line → Loaded Progress)
      → Tail file s
      → ((line : Line)
          → read_line mark s ≡ done line
          → Left (length s) line.rest
          → Ended file P (f line))
      → Ended file P (read_line mark s >>= f)
  with_line mark s P f at k = known (read_line mark s) (read_line-Ended mark s at) k
    where
      known :
          (r : Loaded Line)
          → Ended file (λ (l : Line). Left (length s) l.rest) r
          → ((line : Line) → r ≡ done line → Left (length s) line.rest → Ended file P (f line))
          → Ended file P (r >>= f)
      known (done line) h k = k line refl h
      known format_error h k = tt
      known read_error h k = tt
      known undefined h k = h
      known unfinished h k = absurd h

  load_arg-Ended :
      (j : ℕ) (p : Progress) → Tail file p.rest → Shorter (length p.rest) (load_arg j p)
  unfolding load_arg
  load_arg-Ended j p at =
      with_line b'$' p.rest _ _ at (λ line read left. arg-Ended j p line at read left)

  weaken : (r : Loaded Progress) (m n : ℕ) → m ≤ n → Shorter m r → Shorter n r
  weaken (done q) m n h e = (e.0, omega (arith, e.1))
  weaken format_error m n h e = tt
  weaken read_error m n h e = tt
  weaken undefined m n h e = e
  weaken unfinished m n h e = e

  load_args-Ended :
      (more j : ℕ) (p : Progress)
      → Tail file p.rest
      → Shorter (suc (length p.rest)) (load_args more j p)
  unfolding load_args
  load_args-Ended zero j p at = (at, omega arith)
  load_args-Ended (suc more) j p at =
      then_ends (λ (q : Progress). Left (length p.rest) q.rest) _ (load_arg j p)
        (λ q. load_args more (j + 1) q) (load_arg-Ended j p at)
        (λ q left.
          weaken (load_args more (j + 1) q) (suc (length q.rest)) (suc (length p.rest))
            (omega (arith, left.1)) (load_args-Ended more (j + 1) q left.0))

  load_entry-Ended :
      (fresh : LogEntry) (s : Bytes) → Tail file s → Shorter (length s) (load_entry fresh s)
  unfolding load_entry
  load_entry-Ended fresh s at = with_line b'*' s _ _ at (λ line read left.
      elim (Bool-cases (ltb_ℤ (atoi line.number) (pos 1))) [
        | inl few ↦ rw few tt
        | inr enough ↦ rw enough (
            weaken
              (load_args (to_ulong (atoi line.number)) 0
                (record { entry = fresh; loglen = line.size; rest = line.rest }))
              (suc (length line.rest)) (length s) (omega (arith, left.1))
              (load_args-Ended (to_ulong (atoi line.number)) 0 _ left.0))
      ])

  load_entries-Ended :
      (rounds : ℕ) (fresh : LogEntry) (s : Bytes) (entries : List LogEntryNode) (size : ℕ)
      → Tail file s
      → length s ≤ rounds
      → Ended file (λ _. Unit {0}) (load_entries rounds fresh s entries size)
  unfolding load_entries
  load_entries-Ended zero fresh [] entries size at h = tt
  load_entries-Ended (suc rounds) fresh [] entries size at h = tt
  load_entries-Ended zero fresh (c ∷ s) entries size at h = absurd (omega arith)
  load_entries-Ended (suc rounds) fresh (c ∷ s) entries size at h =
      then_ends (λ (p : Progress). Left (suc (length s)) p.rest) _ (load_entry fresh (c ∷ s)) _
        (load_entry-Ended fresh (c ∷ s) at)
        (λ p left.
          load_entries-Ended rounds fresh p.rest _ (size + p.loglen) left.0 (omega (arith, left.1)))

-- Loading ends. Whatever bytes the log file has, the loop of loadLogFile comes to the end of the
-- file or to one of its two error exits, unless the file has a line that gives an argument the
-- length −17, …, −1, for which sdsnewlen allocates too little and fread writes past it.
pub load_log_file-ends :
    (appendable readable : Bool) (fresh : LogEntry) (file : Bytes)
    → Ended file (λ _. Unit {0}) (load_log_file appendable readable fresh file)
unfolding load_log_file
load_log_file-ends false readable fresh file = tt
load_log_file-ends true false fresh file = tt
load_log_file-ends true true fresh file =
    then_ends file (λ _. Unit {0}) _ (load_entries (length file) fresh file [] 0) _
      (load_entries-Ended file (length file) fresh file [] 0 (0, refl) (omega arith)) (λ _ _. tt)
