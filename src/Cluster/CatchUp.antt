-- ===== src/Cluster/CatchUp.antt =====
-- src/cluster.c: a leader and a node that is behind, round after round.
pub mod Behind
mod Tests
use Prim.Native.Nat.{min}
use prez.Prelude.{
  ℕ, zero, suc, ◌+◌, ◌-◌, ◌*◌, ◌≤◌, ◌<◌, ◌≡◌, inl, inr, refl, sym, ap, ◌∙◌, true, false, List, [],
  ◌∷◌, ◌++◌, Option, none, some, arith, length, take, drop, length-take, length-drop, length-map,
  take_all, Bool-cases, if◌then◌else◌, dec_lt,
}
use prez.Prelude.Int.{ℤ, pos, negsuc, ltb_ℤ, ◌-ℤ◌, ◌+ℤ◌, ◌==ℤ◌}
use prez.Log.{Log, LogEntryNode, Os, log_length, log_sync, ◌>>=◌, ok, err}
use prez.Log.Index.{max_length, Contiguous}
use prez.Log.Takeover.{entries_of}
use prez.Log.Append.{Contiguous-take}
use prez.Cluster.Message.{
  ClusterMsg, Body, append_entries_resp, vote_request, vote_request_resp, append_entries,
  other_type, ResponseAppendEntries, AppendEntries,
}
use prez.Cluster.State.{ClusterState, ClusterNode}
use prez.Cluster.Send.{
  entries_to_send, append_entries_body, last_of, cluster_send_response_append_entries,
  cluster_send_message, cluster_build_message_hdr,
}
use prez.Cluster.Handle.{
  accept_leader, answer, acknowledged, cluster_process_append_entries, log_commit_index,
}
use prez.Cluster.Replication.{replication_round, Contiguous-from, entries_to_send_lem}

-- The answer in a message.
abbrev response : Body → Option ResponseAppendEntries
response (append_entries_resp r) = some r
response (vote_request m) = none
response (vote_request_resp m) = none
response (append_entries m) = none
response (other_type t) = none

-- The last message that a node has sent, if it is an answer.
unfoldable pub last_reply : List (ℕ × ClusterMsg) → Option ResponseAppendEntries
last_reply [] = none
last_reply ((link, msg) ∷ []) = response msg.body
last_reply (m ∷ n ∷ more) = last_reply (n ∷ more)

-- What clusterProcessResponseAppendEntries does to the node, when no newer term is answered.
unfoldable pub noted : ResponseAppendEntries → ClusterNode → ClusterNode
noted r n =
    if r.ok ==ℤ pos 0 then acknowledged n else record n { next_index = n.next_index -ℤ pos 1 }

module _ (os : Os) (link : ℕ) (now : ℤ) (leader : ClusterState) where
  -- A message of the leader, what the follower makes of it, and what the leader notes of the answer.
  unfoldable pub exchange : ClusterNode × ClusterState → Option (ClusterNode × ClusterState)
  unfolding noted last_reply
  exchange (node, follower) = do
    let sent = entries_to_send leader.log node.next_index
    f ← cluster_process_append_entries os link (append_entries_body leader node sent) now follower
    r ← last_reply f.outbox
    some (noted r (record node { last_sent_entry = last_of sent }), f)

  unfoldable pub exchanges : ℕ → ClusterNode × ClusterState → Option (ClusterNode × ClusterState)
  unfolding exchange
  exchanges zero pair = some pair
  exchanges (suc rounds) pair = do next ← exchange pair; exchanges rounds next

last_reply-append :
    (box : List (ℕ × ClusterMsg)) (l : ℕ) (m : ClusterMsg)
    → last_reply (box ++ (l, m) ∷ []) ≡ response m.body
unfolding last_reply
last_reply-append [] l m = refl
last_reply-append (x ∷ []) l m = refl
last_reply-append (x ∷ y ∷ box) l m = last_reply-append (y ∷ box) l m

-- The last entry of a run of entries.
last_of-Contiguous :
    (off : ℕ) (n : LogEntryNode) (l : List LogEntryNode)
    → Contiguous off (n ∷ l)
    → (m : LogEntryNode) × (last_of (n ∷ l) ≡ some m)
      × ((m.log_entry).index ≡ pos (off + suc (length l)))
unfolding last_of
last_of-Contiguous off n [] c = (n, refl, c.0 ∙ ap pos (omega arith))
last_of-Contiguous off n (m ∷ l) c =
    let (k, found, index) = last_of-Contiguous (suc off) m l c.1 in
    (k, found, index ∙ ap pos (omega arith))

not_below : (a : ℤ) → ltb_ℤ a a ≡ false
not_below (pos n) = ground arith
not_below (negsuc n) = ground arith

pub accept_leader-term :
    (m : AppendEntries) (now : ℤ) (s : ClusterState)
    → ltb_ℤ m.term s.current_term ≡ false
    → ltb_ℤ m.term (accept_leader m now s).current_term ≡ false
unfolding accept_leader
accept_leader-term m now s h = elim (Bool-cases (m.term ==ℤ s.current_term)) [
  | inl same ↦ rw same h
  | inr newer ↦ rw newer (not_below m.term)
]

commit_keeps :
    (i : ℤ) (s : ClusterState)
    → ((log_commit_index i s).log ≡ s.log) × ((log_commit_index i s).current_term ≡ s.current_term)
unfolding log_commit_index
commit_keeps i s = elim (Bool-cases (ltb_ℤ s.commit_index i)) [
  | inl more ↦ rw more (refl, refl)
  | inr less ↦ rw less (refl, refl)
]

-- The answer that a follower gives when it has synced.
pub answer-reply :
    (os : Os) (link : ℕ) (m : AppendEntries) (s : ClusterState)
    → (r : ResponseAppendEntries) × (last_reply (answer os link m s ok).outbox ≡ some r)
      × (r.ok ≡ pos 0)
      × ((answer os link m s ok).log ≡ s.log)
      × ((answer os link m s ok).current_term ≡ s.current_term)
unfolding answer cluster_send_response_append_entries cluster_send_message cluster_build_message_hdr
answer-reply os link m s =
    let t = log_commit_index m.leader_commit_index s in
    let (same, term) = commit_keeps m.leader_commit_index s in
    (_, last_reply-append t.outbox link _, refl, same, term)

-- How far the first entries that both have go after a round.
abbrev pub reached : ℕ → ℕ → ℕ
reached start size = min (start + 50) size

successor : (n : ℕ) → pos n +ℤ pos 1 ≡ pos (suc n)
unfolding ◌+ℤ◌
successor n = ground arith

noted_run :
    (start size : ℕ) (node : ClusterNode) (sent : List LogEntryNode)
    → Contiguous start sent
    → length sent ≡ min 50 (size - start)
    → start ≤ size
    → node.next_index ≡ pos (suc start)
    → (acknowledged (record node { last_sent_entry = last_of sent })).next_index
      ≡ pos (suc (reached start size))
unfolding acknowledged last_of
noted_run start size node [] c l h next = next ∙ ap (λ n. pos (suc n)) (omega arith)
noted_run start size node (n ∷ sent) c l h next =
    let (m, last, index) = last_of-Contiguous start n sent c in
    rw (last, index) (successor (start + suc (length sent)) ∙ ap (λ n. pos (suc n)) (omega arith))

-- The leader notes how far the follower is.
pub acknowledged-next :
    (log : Log) (node : ClusterNode) (start : ℕ)
    → Contiguous 0 log.log_entries
    → log_length log ≤ max_length
    → start ≤ log_length log
    → node.next_index ≡ pos (suc start)
    → (acknowledged (record node {
      last_sent_entry = last_of (entries_to_send log node.next_index);
    })).next_index
      ≡ pos (suc (reached start (log_length log)))
unfolding acknowledged
acknowledged-next log node start c b h next =
    let sent : entries_to_send log node.next_index ≡ take 50 (drop start log.log_entries) =
      rw next (entries_to_send_lem log c b start h) in
    let size = length-take 50 (drop start log.log_entries) in
    let run = Contiguous-take start 50 _ (Contiguous-from log start c) in
    rw sent (
      noted_run start (log_length log) node (take 50 (drop start log.log_entries)) run
        (omega (arith, size, length-drop start log.log_entries)) h next)
