-- ===== src/Cluster/Follow.antt =====
-- src/cluster.c: clusterProcessAppendEntries: what a follower takes over, and what it refuses.
use prez.Prelude.{
  ℕ, zero, suc, ◌+◌, ◌≤◌, ◌≡◌, ◌⊎◌, inl, inr, refl, sym, ap, ◌∙◌, true, false, List, [], ◌∷◌, some,
  arith, Bool-cases, length, take, length-take, lt-length_of_some,
}
use prez.Prelude.Int.{ℤ, pos, ltb_ℤ, pos_part, ◌≤ℤ◌}
use prez.Util.Decimal.RoundTrip.{IsLongLong}
use prez.Log.{
  log_append_entries, ◌>>=◌, Log, LogEntry, Os, Status, ok, err, log_length, log_verify_append,
  log_sync, log_current_index,
}
use prez.Log.Index.{max_length, Contiguous}
use prez.Log.Takeover.{entries_of, Numbered, taken_over}
use prez.Log.Replicate.{Kept, log_append_entries-Wrote}
use prez.Log.Verify.{Holds, log_verify_append-Holds}
use prez.Cluster.Message.{AppendEntries}
use prez.Cluster.State.{ClusterState}
use prez.Cluster.Send.{cluster_send_response_append_entries}
use prez.Cluster.Handle.{
  accept_leader, carried, answer, store_entries, cluster_process_append_entries, log_commit_index,
}

accept_leader-log :
    (m : AppendEntries) (now : ℤ) (s : ClusterState) → (accept_leader m now s).log ≡ s.log
unfolding accept_leader
accept_leader-log m now s = ground arith

carried_lem :
    (count : ℕ) (array : List LogEntry)
    → count ≤ length array
    → carried count array ≡ some (take count array)
unfolding carried
carried_lem zero array h = refl
carried_lem (suc count) [] h = absurd (omega arith)
carried_lem (suc count) (e ∷ array) h = rw (carried_lem count array (omega arith)) refl

refusal : (st : Status) → ¬ (st ≡ ok) → st ≡ err
refusal ok h = absurd (h refl)
refusal err h = refl

module _ (os : Os) (link : ℕ) (m : AppendEntries) (now : ℤ) (s : ClusterState) where
  accept_leader-commit : (accept_leader m now s).commit_index ≡ s.commit_index
  unfolding accept_leader
  accept_leader-commit = ground arith

  not_ok :
      log_length s.log ≤ max_length
      → IsLongLong m.prev_log_index
      → ¬ Holds s.log m.prev_log_index m.prev_log_term
      → log_verify_append s.log m.prev_log_index m.prev_log_term ≡ some err
  not_ok b r missing =
      let (verdict, e, (sound, _)) =
        log_verify_append-Holds s.log m.prev_log_index m.prev_log_term b r in
      e ∙ ap some (refusal verdict (λ accepted. missing (sound accepted)))

  start_within :
      (n : ℕ)
      → m.prev_log_index ≡ pos n
      → Holds s.log m.prev_log_index m.prev_log_term
      → n ≤ log_length s.log
  start_within n prev (Holds.start e) = omega (arith, ap pos_part (sym prev ∙ e))
  start_within n prev (Holds.present i en e at term) =
      omega (arith, ap pos_part (sym prev ∙ e), lt-length_of_some s.log.log_entries i en at)

  verified :
      log_length s.log ≤ max_length
      → (start : ℕ) → m.prev_log_index ≡ pos start
      → start + m.log_entries_count ≤ max_length
      → Holds s.log m.prev_log_index m.prev_log_term
      → log_verify_append s.log m.prev_log_index m.prev_log_term ≡ some ok
  verified b start prev total there =
      let (verdict, e, (_, complete)) =
        log_verify_append-Holds s.log m.prev_log_index m.prev_log_term b (rw prev (omega arith)) in
      e ∙ ap some (complete there)

  refused_entry :
      ltb_ℤ m.term s.current_term ≡ false
      → log_verify_append s.log m.prev_log_index m.prev_log_term ≡ some err
      → cluster_process_append_entries os link m now s
        ≡ some (cluster_send_response_append_entries link err (accept_leader m now s))
  unfolding cluster_process_append_entries store_entries
  refused_entry fresh e = rw (fresh, accept_leader-log m now s, e)

  -- Let the log have 2^62 entries at most and prev_log_index be a `long long`. A message whose term is
  -- old, or that goes on from an entry that the log does not have, is answered with PREZ_ERR: the
  -- handler returns, and before it answers the log and the commit index are as they were.
  pub cluster_process_append_entries-refuses :
      log_length s.log ≤ max_length
      → IsLongLong m.prev_log_index
      → (ltb_ℤ m.term s.current_term ≡ true) ⊎ (¬ Holds s.log m.prev_log_index m.prev_log_term)
      → (t : ClusterState) × (cluster_process_append_entries os link m now s
          ≡ some (cluster_send_response_append_entries link err t))
        × (t.log ≡ s.log)
        × (t.commit_index ≡ s.commit_index)
  cluster_process_append_entries-refuses b r (inl old) =
      (s, unfold cluster_process_append_entries in rw old refl, refl, refl)
  cluster_process_append_entries-refuses b r (inr missing) =
      elim (Bool-cases (ltb_ℤ m.term s.current_term)) [
        | inl old ↦ (s, unfold cluster_process_append_entries in rw old refl, refl, refl)
        | inr fresh ↦ (
          accept_leader m now s,
          refused_entry fresh (not_ok b r missing),
          accept_leader-log m now s,
          accept_leader-commit,
        )
      ]

  -- A message in a term that is not old, which goes on from an entry of the log. Let the log have
  -- the indices 1, 2, 3, …, let the entries that the message carries be the first `count` of its
  -- array and follow its prev_log_index, and let there be 2^62 entries at most. Either the handler
  -- returns, the log has again the indices 1, 2, 3, …, its entries are those of the rule, and the
  -- answer and the commit index follow from whether the log was synced. Or the first entry of
  -- another term stands against the log's last entry, and logAppendEntries keeps both of them: the
  -- answer is that for writing the rest on to the log with both.
  pub cluster_process_append_entries-takes_over :
      (start : ℕ)
      → Contiguous 0 s.log.log_entries
      → log_length s.log ≤ max_length
      → ltb_ℤ m.term s.current_term ≡ false
      → m.prev_log_index ≡ pos start
      → Holds s.log m.prev_log_index m.prev_log_term
      → m.log_entries_count ≤ length m.log_entries
      → start + m.log_entries_count ≤ max_length
      → Numbered start (take m.log_entries_count m.log_entries)
      → ((log' : Log) × (cluster_process_append_entries os link m now s
            ≡ some (
                answer os link m
                  (record (accept_leader m now s) { log = log' })
                  (log_sync os log')))
          × Contiguous 0 log'.log_entries
          × (entries_of log'
              ≡ taken_over start (entries_of s.log) (take m.log_entries_count m.log_entries)))
        ⊎ ((k : Kept os s.log start (take m.log_entries_count m.log_entries))
            × (cluster_process_append_entries os link m now s ≡ (
                log_append_entries os k.longer k.behind >>= λ written.
                some (
                  answer os link m
                    (record (accept_leader m now s) { log = written.0 })
                    written.1))))
  unfolding cluster_process_append_entries store_entries
  cluster_process_append_entries-takes_over start c b fresh prev there count total n =
      let es = take m.log_entries_count m.log_entries in
      elim (log_append_entries-Wrote os s.log c b start es (start_within start prev there)
        (omega (arith, length-take m.log_entries_count m.log_entries)) n) [
          | inr k ↦ inr (
            k,
            rw
                (
                  fresh,
                  accept_leader-log m now s,
                  verified b start prev total there,
                  carried_lem m.log_entries_count m.log_entries count,
                  k.goes_on,
                )
                refl,
          )
          | inl (log', done, c', content) ↦ inl (
            log',
            rw
                (
                  fresh,
                  accept_leader-log m now s,
                  verified b start prev total there,
                  carried_lem m.log_entries_count m.log_entries count,
                  done,
                )
                refl,
            c',
            content,
          )
        ]

-- A follower commits only what it has. Let the commit index not be past the log. Then logCommitIndex
-- changes the commit index only, it does not lower it, it does not put it past the log, and where
-- it changes it, not past the leader's.
pub log_commit_index-within :
    (i : ℤ) (s : ClusterState)
    → s.commit_index ≤ℤ log_current_index s.log
    → (log_commit_index i s ≡ record s { commit_index = (log_commit_index i s).commit_index })
      × (s.commit_index ≤ℤ (log_commit_index i s).commit_index)
      × ((log_commit_index i s).commit_index ≤ℤ log_current_index s.log)
      × (((log_commit_index i s).commit_index ≡ s.commit_index)
          ⊎ ((log_commit_index i s).commit_index ≤ℤ i))
unfolding log_commit_index
log_commit_index-within i s h = elim (Bool-cases (ltb_ℤ s.commit_index i)) [
  | inr kept ↦ rw kept (refl, omega arith, h, inl refl)
  | inl raised ↦ elim (Bool-cases (ltb_ℤ i (log_current_index s.log))) [
    | inl below ↦ rw (raised, below) (refl, ground arith, ground arith, inr (omega arith))
    | inr above ↦ rw (raised, above) (refl, h, omega arith, inr (ground arith))
  ]
]
