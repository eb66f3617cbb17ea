-- ===== src/Cluster/Replication.antt =====
-- src/cluster.c: what a leader's message carries, and a round of replication between two nodes.
use prez.Prelude.{
  inl, inr, ℕ, zero, suc, ◌+◌, ◌-◌, ◌≤◌, ◌<◌, ◌≡◌, refl, sym, ap, ◌∙◌, false, List, [], ◌∷◌, some,
  arith, length, take, drop, map, length-take, length-map, take_all, drop_all, get_elem?,
  get_elem?_within, get_elem?-map, get_elem?-take, map-take, map-drop, take-add, dec_lt, eq_of_some,
}
use prez.Prelude.Int.{ℤ, pos, ltb_ℤ, pos_part, ◌-ℤ◌}
use prez.Log.{Log, LogEntry, LogEntryNode, Os, log_length, log_get_term, log_sync}
use prez.Log.Index.{
  max_length, Contiguous, log_current_index_lem, get_log_node_within, get_log_entry_within,
}
use prez.Log.Takeover.{entries_of, Numbered, TailAgrees, taken_over, taken_over-end}
use prez.Log.Append.{Contiguous-take}
use prez.Log.Replicate.{Kept-TailAgrees}
use prez.Log.Verify.{Holds}
use prez.Cluster.Message.{log_max_entries_per_request}
use prez.Cluster.State.{ClusterState, ClusterNode}
use prez.Cluster.Send.{entries_to_send, append_entries_body}
use prez.Cluster.Handle.{accept_leader, answer, cluster_process_append_entries}
use prez.Cluster.Follow.{cluster_process_append_entries-takes_over}

module _ (log : Log) (c : Contiguous 0 log.log_entries) (b : log_length log ≤ max_length) where
  -- The entries that are sent are those behind the first `start`, 50 at most.
  pub entries_to_send_lem :
      (start : ℕ)
      → start ≤ log_length log
      → entries_to_send log (pos (suc start))
        ≡ take log_max_entries_per_request (drop start log.log_entries)
  unfolding entries_to_send
  entries_to_send_lem start h = elim (dec_lt start (log_length log)) [
    | yes inside ↦
        rw (log_current_index_lem log c, get_log_node_within log b start inside) (ground arith)
    | no end ↦
        rw (log_current_index_lem log c, drop_all log.log_entries start (omega arith))
          (ground arith)
  ]

previous : (start : ℕ) → pos (suc start) -ℤ pos 1 ≡ pos start
unfolding ◌-ℤ◌
previous start = ground arith

Contiguous-drop :
    (off n : ℕ) (l : List LogEntryNode) → Contiguous off l → Contiguous (off + n) (drop n l)
Contiguous-drop off zero l c = let e : off + 0 ≡ off = omega arith in rw e c
Contiguous-drop off (suc n) [] c = tt
Contiguous-drop off (suc n) (m ∷ l) c =
    let e : off + suc n ≡ suc off + n = omega arith in rw e (Contiguous-drop (suc off) n l c.1)

pub Contiguous-from :
    (log : Log) (start : ℕ)
    → Contiguous 0 log.log_entries
    → Contiguous start (drop start log.log_entries)
Contiguous-from log start c =
    let e : 0 + start ≡ start = omega arith in
    let d = Contiguous-drop 0 start log.log_entries c in rw e at d

Numbered-map :
    (off : ℕ) (l : List LogEntryNode) → Contiguous off l → Numbered off (map (λ n. n.log_entry) l)
Numbered-map off [] c = tt
Numbered-map off (m ∷ l) c = (c.0, Numbered-map (suc off) l c.1)

-- An entry of the one log stands in the other, if the other has the same first entries.
module _ (leader follower : Log) (start : ℕ) (within : start ≤ log_length leader)
    (agree : entries_of follower ≡ take start (entries_of leader)) where
  length-follower : log_length follower ≡ start
  length-follower =
      sym (length-map follower.log_entries (λ n. n.log_entry))
      ∙ ap length agree
      ∙ omega (
        arith,
        length-take start (entries_of leader),
        length-map leader.log_entries (λ (n : LogEntryNode). n.log_entry),
      )

  same_entry :
      (i : ℕ) (en en' : LogEntryNode)
      → i < start
      → get_elem? leader.log_entries i ≡ some en
      → get_elem? follower.log_entries i ≡ some en'
      → en'.log_entry ≡ en.log_entry
  same_entry i en en' h at at' = eq_of_some (
      sym (get_elem?-map (λ (n : LogEntryNode). n.log_entry) follower.log_entries i en' at')
      ∙ ap (λ l. get_elem? l i) agree
      ∙ get_elem?-take start (entries_of leader) i h
      ∙ get_elem?-map (λ (n : LogEntryNode). n.log_entry) leader.log_entries i en at)

  Holds-previous :
      log_length leader ≤ max_length → Holds follower (pos start) (log_get_term leader (pos start))
  unfolding log_get_term
  Holds-previous b = go start refl
    where
      go : (k : ℕ) → start ≡ k → Holds follower (pos k) (log_get_term leader (pos k))
      go zero e = Holds.start refl
      go (suc i) e =
          let (en, at) = get_elem?_within leader.log_entries i (omega arith) in
          let (en', at') =
            get_elem?_within follower.log_entries i (omega (arith, length-follower)) in
          Holds.present i en' refl at' (
            rw (get_log_entry_within leader b i (omega arith), at)
              (ap (λ (e : LogEntry). e.term) (same_entry i en en' (omega arith) at at')))

-- Entries behind the end of a log do not stand for its last entry.
TailAgrees-behind :
    (log : Log) (off : ℕ) (es : List LogEntry)
    → log_length log ≤ off
    → Numbered off es
    → TailAgrees log es
TailAgrees-behind log off [] h n = tt
TailAgrees-behind log off (e ∷ es) h n = (
  (λ q. absurd (omega (arith, ap pos_part (sym n.0 ∙ q)))),
  TailAgrees-behind log (suc off) es (omega arith) n.1,
)

joined :
    (log : Log) (start : ℕ)
    → taken_over start
        (take start (entries_of log))
        (map (λ n. n.log_entry) (take 50 (drop start log.log_entries)))
      ≡ take (start + 50) (entries_of log)
joined log start =
    let f : LogEntryNode → LogEntry = λ n. n.log_entry in
    taken_over-end start (take start (entries_of log)) _
      (omega (arith, length-take start (entries_of log)))
    ∙ rw (map-take f 50 (drop start log.log_entries), map-drop f start log.log_entries)
        (take-add start 50 (entries_of log))

-- A round of replication. Let the leader's log have the indices 1, 2, 3, …, let the follower's
-- entries be the first `start` of them, let the leader's next_index for it be the one behind, and
-- let the leader's term not be old for the follower, and its log have 2^62 - 50 entries at most.
-- Then the message that the leader builds for that node is taken by the follower, and afterwards
-- the follower's entries are the leader's up to 50 further, or all of them where fewer are left; it
-- answers PREZ_OK if its log was synced.
pub replication_round :
    (os : Os) (link : ℕ) (now : ℤ) (leader follower : ClusterState) (node : ClusterNode) (start : ℕ)
    → Contiguous 0 leader.log.log_entries
    → Contiguous 0 follower.log.log_entries
    → log_length leader.log ≤ max_length - 50
    → start ≤ log_length leader.log
    → entries_of follower.log ≡ take start (entries_of leader.log)
    → node.next_index ≡ pos (suc start)
    → ltb_ℤ leader.current_term follower.current_term ≡ false
    → let m = append_entries_body leader node (entries_to_send leader.log node.next_index) in
      (log' : Log) × (cluster_process_append_entries os link m now follower
        ≡ some (
            answer os link m
              (record (accept_leader m now follower) { log = log' })
              (log_sync os log')))
      × Contiguous 0 log'.log_entries
      × (entries_of log' ≡ take (start + 50) (entries_of leader.log))
replication_round os link now leader follower node start c c' b h agree next fresh =
    let sent = take 50 (drop start leader.log.log_entries) in
    let es = map (λ (n : LogEntryNode). n.log_entry) sent in
    let what : entries_to_send leader.log node.next_index ≡ sent =
      rw next (entries_to_send_lem leader.log c (omega arith) start h) in
    let len = length-follower leader.log follower.log start h agree in
    let all : take (length sent) es ≡ es =
      take_all es (length sent)
        (omega (arith, length-map sent (λ (n : LogEntryNode). n.log_entry))) in
    let numbered : Numbered start es =
      Numbered-map start sent (Contiguous-take start 50 _ (Contiguous-from leader.log start c)) in
    let few : length sent ≤ 50 =
      omega (arith, length-take 50 (drop start leader.log.log_entries)) in
    let m = append_entries_body leader node sent in
    let agrees : TailAgrees follower.log (take m.log_entries_count m.log_entries) =
      unfold append_entries_body in
      rw all (TailAgrees-behind follower.log start es (omega arith) numbered) in
    let written =
      cluster_process_append_entries-takes_over os link m now follower start c' (omega arith)
        (unfold append_entries_body in fresh)
        (unfold append_entries_body in rw next (previous start))
        (unfold append_entries_body in
          rw (next, previous start)
            (Holds-previous leader.log follower.log start h agree (omega arith)))
        (unfold append_entries_body in
          omega (arith, length-map sent (λ (n : LogEntryNode). n.log_entry)))
        (unfold append_entries_body in omega arith)
        (unfold append_entries_body in rw all numbered) in
    elim written [
      | inr (k, _) ↦ absurd (Kept-TailAgrees os follower.log start _ agrees k)
      | inl (log', done, c'', content) ↦ (
        log',
        rw what done,
        c'',
        content ∙ unfold append_entries_body in rw (all, agree) (joined leader.log start),
      )
    ]
