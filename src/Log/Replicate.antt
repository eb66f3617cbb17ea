-- ===== src/Log/Replicate.antt =====
-- src/log.c: logAppendEntries against the rule by which a follower takes over a leader's entries.
use mathlib.Core.Path.{subst}
use mathlib.Core.Bool.{false≢true}
use prez.Prelude.{
  ℕ, suc, ◌+◌, ◌-◌, ◌≤◌, ◌≡◌, ◌≢◌, ◌⊎◌, refl, false, List, [], ◌∷◌, ◌++◌, some, length, get_elem?,
  get_elem?_within, arith, ap, dec_lt, ℕ_discrete, Bool-cases, inl, inr, sym, ◌∙◌, get_elem?-map,
  length-map,
}
use prez.Prelude.Int.{ℤ, pos, ◌==ℤ◌, ==ℤ_iff, ==ℤ_true}
use prez.Log.{
  Log, LogEntry, LogEntryNode, Os, log_length, log_append_entries, log_sync, write_all,
  append_entry, log_current_term,
}
use prez.Log.Index.{max_length, Contiguous, log_current_term_lem, index_at}
use prez.Log.Takeover.{
  entries_of, Numbered, TailAgrees, taken_over, taken_over-same, taken_over-other, taken_over-end,
  taken_over-nil,
}
use prez.Log.Write.{log_write_entry_conflict_last}
use prez.Log.Append.{
  Wrote, entries-append_entry, write_all_step, write_all_end, write_all_conflict, write_all_same,
}

last_term :
    (log : Log) (start : ℕ) (en : LogEntryNode)
    → suc start ≡ log_length log
    → get_elem? log.log_entries start ≡ some en
    → log_current_term log ≡ en.log_entry.term
last_term log start en h at =
    let place : log_length log - 1 ≡ start = omega arith in rw (log_current_term_lem log, place, at)

ne_of_false : (a b : ℤ) → (a ==ℤ b) ≡ false → a ≢ b
ne_of_false a b h e = absurd (false≢true (sym h ∙ ==ℤ_true a b e))

-- The first entry that differs from the log stands against the log's last entry: those before it
-- change nothing, it is put behind the last entry, of the same index, and the others are written
-- on to that log.
pub record Kept (os : Os) (log : Log) (start : ℕ) (es : List LogEntry) : Type 0 where
  pub before : List LogEntry
  pub entry : LogEntry
  pub behind : List LogEntry
  pub parts : es ≡ before ++ entry ∷ behind
  pub unchanged : taken_over start (entries_of log) before ≡ entries_of log
  pub at_last : entry.index ≡ pos (log_length log)
  pub other_term : entry.term ≢ log_current_term log
  pub longer : Log
  pub both : entries_of longer ≡ entries_of log ++ entry ∷ []
  pub goes_on : log_append_entries os log es ≡ log_append_entries os longer behind

appends_as :
    (os : Os) (log log' : Log) (es es' : List LogEntry)
    → write_all os log es ≡ write_all os log' es'
    → log_append_entries os log es ≡ log_append_entries os log' es'
unfolding log_append_entries
appends_as os log log' es es' h = rw h refl

agrees_within :
    (log : Log) (before : List LogEntry) (e : LogEntry) (behind : List LogEntry)
    → TailAgrees log (before ++ e ∷ behind)
    → e.index ≡ pos (log_length log)
    → e.term ≡ log_current_term log
agrees_within log [] e behind t h = t.0 h
agrees_within log (b ∷ before) e behind t h = agrees_within log before e behind t.1 h

pub Kept-TailAgrees :
    (os : Os) (log : Log) (start : ℕ) (es : List LogEntry)
    → TailAgrees log es
    → ¬ Kept os log start es
Kept-TailAgrees os log start es t k = k.other_term (
    agrees_within log k.before k.entry k.behind (subst (λ l. TailAgrees log l) k.parts t) k.at_last)

module _ (os : Os) (log : Log) (c : Contiguous 0 log.log_entries)
    (m : log_length log ≤ max_length) where
  conflict_here :
      (start : ℕ) (en : LogEntryNode) (e : LogEntry) (es : List LogEntry)
      → Numbered start (e ∷ es)
      → get_elem? log.log_entries start ≡ some en
      → en.log_entry.term ≢ e.term
      → suc start ≡ log_length log
      → Kept os log start (e ∷ es)
  conflict_here start en e es n at other last = record {
    before = [];
    entry = e;
    behind = es;
    parts = refl;
    unchanged = taken_over-nil start (entries_of log);
    at_last = n.0 ∙ ap pos last;
    other_term = λ q. other (sym (q ∙ last_term log start en last at));
    longer = append_entry os log e;
    both = entries-append_entry os log e;
    goes_on = appends_as os log (append_entry os log e) (e ∷ es) es (
        write_all_step os log (append_entry os log e) e es (
          log_write_entry_conflict_last os log e m start en n.0 at
            (index_at log start en c at ∙ sym n.0) other last));
  }

  conflict_later :
      (start : ℕ) (en : LogEntryNode) (e : LogEntry) (es : List LogEntry)
      → Numbered start (e ∷ es)
      → get_elem? log.log_entries start ≡ some en
      → en.log_entry.term ≡ e.term
      → Kept os log (suc start) es
      → Kept os log start (e ∷ es)
  conflict_later start en e es n at same k =
      let at' = get_elem?-map (λ (n : LogEntryNode). n.log_entry) log.log_entries start en at in
      record {
        before = e ∷ k.before;
        entry = k.entry;
        behind = k.behind;
        parts = ap (λ l. e ∷ l) k.parts;
        unchanged =
            sym (taken_over-same start (entries_of log) en.log_entry e k.before at' same)
            ∙ k.unchanged;
        at_last = k.at_last;
        other_term = k.other_term;
        longer = k.longer;
        both = k.both;
        goes_on =
            appends_as os log log (e ∷ es) es (write_all_same os log start en e es c m n at same)
            ∙ k.goes_on;
      }

  write_all-Wrote :
      (start : ℕ) (es : List LogEntry)
      → start ≤ log_length log
      → start + length es ≤ max_length
      → Numbered start es
      → Wrote (write_all os log es) (taken_over start (entries_of log) es) ⊎ Kept os log start es
  write_all-Wrote start [] h b n =
      inl (log, unfold write_all in refl, c, sym (taken_over-nil start (entries_of log)))
  write_all-Wrote start (e ∷ es) h b n = elim (dec_lt start (log_length log)) [
    | yes inside ↦
        let (en, at) = get_elem?_within log.log_entries start inside in
        let at' = get_elem?-map (λ (n : LogEntryNode). n.log_entry) log.log_entries start en at in
        elim (Bool-cases (en.log_entry.term ==ℤ e.term)) [
          | inl same ↦
              let same' : en.log_entry.term ≡ e.term = (==ℤ_iff _ _).0 same in
              elim (write_all-Wrote (suc start) es (omega arith) (omega arith) n.1) [
                | inl (log', done, c', content) ↦ inl (
                  log',
                  write_all_same os log start en e es c m n at same' ∙ done,
                  c',
                  content ∙ taken_over-same start (entries_of log) en.log_entry e es at' same',
                )
                | inr k ↦ inr (conflict_later start en e es n at same' k)
              ]
          | inr differs ↦
              let other = ne_of_false en.log_entry.term e.term differs in
              elim (ℕ_discrete (suc start) (log_length log)) [
                | yes last ↦ inr (conflict_here start en e es n at other last)
                | no inner ↦
                    let (log', done, c', content) =
                      write_all_conflict os log start en e es c m b (omega arith) n at other in
                    inl (
                      log',
                      done,
                      c',
                      content
                          ∙ sym
                              (taken_over-other start (entries_of log) en.log_entry e es at' other),
                    )
              ]
        ]
    | no past ↦
        let (log', done, c', content) = write_all_end os log start (e ∷ es) (omega arith) c b n in
        inl (
          log',
          done,
          c',
          content
              ∙ sym (
                  taken_over-end start (entries_of log) (e ∷ es) (
                    omega (arith, length-map log.log_entries (λ (n : LogEntryNode). n.log_entry)))),
        )
  ]

  -- How a follower takes over a leader's entries. Let the log have indices 1, 2, 3, …, let the
  -- message's entries follow an index `start` of the log, and let there be 2^62 entries at most.
  -- Either logAppendEntries reads through no NULL, its status is that of fsync, the indices stay
  -- 1, 2, 3, …, and the entries are those of the rule: kept up to `start` and as long as the terms
  -- agree, and replaced from the first entry of another term on. Or that first entry of another
  -- term stands against the log's last entry, and then the rule is broken: the entry is put behind
  -- the one that it should replace, and the rest is written on to that log.
  pub log_append_entries-Wrote :
      (start : ℕ) (es : List LogEntry)
      → start ≤ log_length log
      → start + length es ≤ max_length
      → Numbered start es
      → ((log' : Log) × (log_append_entries os log es ≡ some (log', log_sync os log'))
          × Contiguous 0 log'.log_entries
          × (entries_of log' ≡ taken_over start (entries_of log) es))
        ⊎ Kept os log start es
  unfolding log_append_entries
  log_append_entries-Wrote start es h b n = elim (write_all-Wrote start es h b n) [
    | inl (log', done, c', content) ↦ inl (log', rw done refl, c', content)
    | inr k ↦ inr k
  ]
