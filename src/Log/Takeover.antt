-- ===== src/Log/Takeover.antt =====
-- src/log.c: the rule by which a follower takes over a leader's entries, on plain lists.
use prez.Prelude.{
  ℕ, suc, ◌≤◌, ◌≡◌, ◌≢◌, refl, List, [], ◌∷◌, ◌++◌, map, some, if◌then◌else◌, length, get_elem?,
  take, drop, take-suc, drop-cons, take_all, drop_all, take-append-drop, All, append_assoc,
}
use prez.Prelude.Int.{pos, ◌==ℤ◌, ==ℤ_true, ==ℤ_false}
use prez.Log.{Log, LogEntry, log_length, log_current_term}

abbrev pub entries_of : Log → List LogEntry
entries_of log = map (λ n. n.log_entry) log.log_entries

-- The entries that follow index `start`, as a message carries them.
abbrev pub Numbered : ℕ → List LogEntry → Type 0
Numbered start [] = Unit {0}
Numbered start (e ∷ es) = (e.index ≡ pos (suc start)) × Numbered (suc start) es

-- The rule: entries of the same term are kept, and at the first other term the old entries end.
pub merge : List LogEntry → List LogEntry → List LogEntry
merge old [] = old
merge [] (e ∷ es) = e ∷ es
merge (o ∷ old) (e ∷ es) = let rest = merge old es in if o.term ==ℤ e.term then o ∷ rest else e ∷ es

-- An entry for the last place has the term of the entry there.
abbrev pub TailAgrees : Log → List LogEntry → Type 0
TailAgrees log = All (λ e. e.index ≡ pos (log_length log) → e.term ≡ log_current_term log)

merge-same :
    (o e : LogEntry) (old es : List LogEntry)
    → o.term ≡ e.term
    → merge (o ∷ old) (e ∷ es) ≡ o ∷ merge old es
unfolding merge
merge-same o e old es h = rw (==ℤ_true _ _ h)

merge-other :
    (o e : LogEntry) (old es : List LogEntry) → o.term ≢ e.term → merge (o ∷ old) (e ∷ es) ≡ e ∷ es
unfolding merge
merge-other o e old es h = rw (==ℤ_false _ _ h)

pub merge-nil : (es : List LogEntry) → merge [] es ≡ es
unfolding merge
merge-nil [] = refl
merge-nil (e ∷ es) = refl

-- The result of the rule, from position `start` on.
abbrev pub taken_over : ℕ → List LogEntry → List LogEntry → List LogEntry
taken_over start old es = take start old ++ merge (drop start old) es

pub taken_over-same :
    (start : ℕ) (old : List LogEntry) (o e : LogEntry) (es : List LogEntry)
    → get_elem? old start ≡ some o
    → o.term ≡ e.term
    → taken_over (suc start) old es ≡ taken_over start old (e ∷ es)
taken_over-same start old o e es at same =
    rw
      (
        take-suc old start o at,
        drop-cons old start o at,
        merge-same o e (drop (suc start) old) es same,
      )
      (append_assoc (take start old) (o ∷ []) (merge (drop (suc start) old) es))

pub taken_over-other :
    (start : ℕ) (old : List LogEntry) (o e : LogEntry) (es : List LogEntry)
    → get_elem? old start ≡ some o
    → o.term ≢ e.term
    → taken_over start old (e ∷ es) ≡ take start old ++ (e ∷ es)
taken_over-other start old o e es at other =
    rw (drop-cons old start o at, merge-other o e (drop (suc start) old) es other)

pub taken_over-end :
    (start : ℕ) (old es : List LogEntry) → length old ≤ start → taken_over start old es ≡ old ++ es
taken_over-end start old es h = rw (take_all old start h, drop_all old start h, merge-nil es)

pub taken_over-nil : (start : ℕ) (old : List LogEntry) → taken_over start old [] ≡ old
unfolding merge
taken_over-nil start old = take-append-drop start old
