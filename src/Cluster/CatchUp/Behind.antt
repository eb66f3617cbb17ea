-- ===== src/Cluster/CatchUp/Behind.antt =====
-- src/cluster.c: a node that is behind has caught up after enough rounds.
use prez.Prelude.{
  ℕ, zero, suc, ◌+◌, ◌-◌, ◌*◌, ◌≤◌, ◌≡◌, refl, sym, ap, ◌∙◌, false, some, arith, length, take,
  length-map, take_all, dec_lt,
}
use prez.Prelude.Int.{ℤ, pos, ltb_ℤ}
use prez.Log.{Log, LogEntryNode, Os, log_length, log_sync, ok}
use prez.Log.Index.{max_length, Contiguous}
use prez.Log.Takeover.{entries_of}
use prez.Cluster.State.{ClusterState, ClusterNode}
use prez.Cluster.Send.{entries_to_send, append_entries_body, last_of}
use prez.Cluster.Handle.{accept_leader, answer, acknowledged}
use prez.Cluster.Replication.{replication_round}
use prez.Cluster.CatchUp.{
  noted, exchange, exchanges, reached, accept_leader-term, answer-reply, acknowledged-next,
}

-- A follower has the first `start` entries of the leader, which the leader knows.
pub record Behind (leader : ClusterState) (start : ℕ) (node : ClusterNode) (f : ClusterState)
    : Type 0 where
  pub in_order : Contiguous 0 f.log.log_entries
  pub agrees : entries_of f.log ≡ take start (entries_of leader.log)
  pub next : node.next_index ≡ pos (suc start)
  pub fresh : ltb_ℤ leader.current_term f.current_term ≡ false
  pub within : start ≤ log_length leader.log

length-entries_of : (log : Log) → length (entries_of log) ≡ log_length log
length-entries_of log = length-map log.log_entries (λ (n : LogEntryNode). n.log_entry)

take-reached :
    (log : Log) (start : ℕ)
    → take (start + 50) (entries_of log) ≡ take (reached start (log_length log)) (entries_of log)
take-reached log start =
    let es = entries_of log in
    let size = length-entries_of log in
    elim (dec_lt (start + 50) (log_length log)) [
      | yes inside ↦ ap (λ n. take n es) (omega arith)
      | no past ↦
          take_all es (start + 50) (omega (arith, size))
          ∙ sym (take_all es (reached start (log_length log)) (omega (arith, size)))
    ]

module _ (os : Os) (link : ℕ) (now : ℤ) (leader : ClusterState)
    (c : Contiguous 0 leader.log.log_entries) (b : log_length leader.log ≤ max_length - 50)
    (syncs : (log : Log) → log_sync os log ≡ ok) where
  exchange-Behind :
      (start : ℕ) (node : ClusterNode) (f : ClusterState)
      → Behind leader start node f
      → (node' : ClusterNode) × (f' : ClusterState) × (exchange os link now leader (node, f)
          ≡ some (node', f'))
        × Behind leader (reached start (log_length leader.log)) node' f'
  unfolding exchange append_entries_body
  exchange-Behind start node f k =
      let sent = entries_to_send leader.log node.next_index in
      let m = append_entries_body leader node sent in
      let (log', done, order, content) =
        replication_round os link now leader f node start c k.in_order b k.within k.agrees k.next
          k.fresh in
      let stored : ClusterState = record (accept_leader m now f) { log = log' } in
      let done' = done ∙ ap (λ v. some (answer os link m stored v)) (syncs log') in
      let (r, reply, accepted, same_log, same_term) = answer-reply os link m stored in
      let noted_node = acknowledged (record node { last_sent_entry = last_of sent }) in
      (
        noted_node,
        answer os link m stored ok,
        rw (done', reply) (unfold noted in rw accepted (ground arith)),
        record {
          in_order = rw same_log order;
          agrees = rw same_log content ∙ take-reached leader.log start;
          next = acknowledged-next leader.log node start c (omega arith) k.within k.next;
          fresh = rw same_term (accept_leader-term m now f (unfold append_entries_body in k.fresh));
          within = omega arith;
        },
      )

  -- A node that is behind catches up. Let the leader's log have the indices 1, 2, 3, … and 2^62 -
  -- 50 entries at most, let the follower have the first `start` of its entries and be known to the
  -- leader as such, let its term not be newer, and let every fsync(2) succeed. Then, after as many
  -- messages and answers as there are groups of 50 entries missing, the follower has exactly the
  -- leader's entries, and the leader's next_index for it is the one behind them.
  pub exchanges-entries_of :
      (rounds start : ℕ) (node : ClusterNode) (f : ClusterState)
      → Behind leader start node f
      → log_length leader.log ≤ start + rounds * 50
      → (node' : ClusterNode) × (f' : ClusterState) × (exchanges os link now leader rounds (node, f)
          ≡ some (node', f'))
        × (entries_of f'.log ≡ entries_of leader.log)
        × (node'.next_index ≡ pos (suc (log_length leader.log)))
  unfolding exchanges
  exchanges-entries_of zero start node f k h =
      let last : start ≡ log_length leader.log = omega (arith, k.within) in
      (
        node,
        f,
        refl,
        k.agrees
            ∙ take_all (entries_of leader.log) start (omega (arith, length-entries_of leader.log)),
        k.next ∙ ap (λ n. pos (suc n)) last,
      )
  exchanges-entries_of (suc rounds) start node f k h =
      let (node1, f1, once, k1) = exchange-Behind start node f k in
      let (node', f', rest, all, next) =
        exchanges-entries_of rounds (reached start (log_length leader.log)) node1 f1 k1
          (omega arith) in
      (node', f', rw once rest, all, next)
