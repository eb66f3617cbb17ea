-- ===== src/Cluster/Handle.antt =====
-- src/cluster.c: the handlers of the four messages, and clusterProcessPacket.
use mathlib.Core.Option
use prez.Prelude.{
  ℕ, zero, suc, ◌+◌, Bool, true, ◌&&◌, ◌||◌, not, List, [], ◌∷◌, Option, none, some, ltb, ◌==◌,
  if◌then◌else◌, length, take,
}
use prez.Prelude.Int.{ℤ, pos, ◌+ℤ◌, ◌-ℤ◌, ltb_ℤ, ◌==ℤ◌}
use prez.Prelude.Text.{Bytes, bytes_eq}
use prez.Log.{
  LogEntry, Os, Status, ok, err, log_current_index, log_current_term, log_verify_append,
  log_append_entries, ◌>>=◌,
}
use prez.Cluster.Message.{
  RequestVote, ResponseVote, AppendEntries, ResponseAppendEntries, ClusterMsg, Body, vote_request,
  vote_request_resp, append_entries, append_entries_resp, other_type, expected_length,
}
use prez.Cluster.State.{
  ClusterState, ClusterNode, Role, follower, candidate, sdsempty, update_node, node_of_link,
}
use prez.Cluster.Send.{
  cluster_send_response_vote, cluster_send_response_append_entries, deny_vote, grant_vote,
}

-- The four assignments with which a node yields to a higher term.
unfoldable pub step_down : ℤ → ClusterState → ClusterState
step_down term s = record s {
  state = follower;
  current_term = term;
  leader = sdsempty;
  voted_for = sdsempty;
  voted_for_len = 0;
}

-- The second half of clusterProcessRequestVote: is the candidate's log up to date, and the vote.
unfoldable pub consider_vote : ℕ → RequestVote → ℤ → ClusterState → ClusterState
consider_vote link vote now s =
    if ltb_ℤ vote.last_log_index (log_current_index s.log)
      || ltb_ℤ vote.last_log_term (log_current_term s.log)
    then cluster_send_response_vote link deny_vote s
    else record (cluster_send_response_vote link grant_vote
        (record s { voted_for = vote.candidateid; voted_for_len = length vote.candidateid })) {
          last_activity_time = now;
        }

-- `sdslen(voted_for) > 0 && sdscmp(voted_for, candidateid)`: sdscmp is 0 where the lengths that
-- sdslen reads and as many bytes are the same. A terminator differs from every byte of a
-- candidate's name.
unfoldable pub voted_for_other : ClusterState → Bytes → Bool
voted_for_other s candidateid =
    ltb 0 s.voted_for_len
    && not (
        s.voted_for_len == length candidateid
        && bytes_eq (take (length candidateid) s.voted_for) candidateid)

unfoldable pub cluster_process_request_vote : ℕ → RequestVote → ℤ → ClusterState → ClusterState
unfolding consider_vote
cluster_process_request_vote link vote now s =
    if ltb_ℤ vote.term s.current_term
    then cluster_send_response_vote link deny_vote s
    else if ltb_ℤ s.current_term vote.term
    then consider_vote link vote now (step_down vote.term s)
    else if voted_for_other s vote.candidateid
    then cluster_send_response_vote link deny_vote s
    else consider_vote link vote now s

unfoldable pub cluster_process_response_vote : ResponseVote → ClusterState → ClusterState
cluster_process_response_vote vote s =
    if not (vote.vote_granted == 0) && vote.term ==ℤ s.current_term
    then record s { votes_granted = s.votes_granted + 1 }
    else if ltb_ℤ s.current_term vote.term
    then step_down vote.term s
    else s

-- logCommitIndex; it always returns PREZ_OK.
unfoldable pub log_commit_index : ℤ → ClusterState → ClusterState
log_commit_index leader_commit_index s =
    if ltb_ℤ s.commit_index leader_commit_index
    then record s {
      commit_index =
          if ltb_ℤ leader_commit_index (log_current_index s.log)
          then leader_commit_index
          else log_current_index s.log;
    }
    else s

abbrev pub yield_candidate : Role → Role
yield_candidate candidate = follower
yield_candidate r = r

-- The term and the leader of a message that is not out of date are taken over.
unfoldable pub accept_leader : AppendEntries → ℤ → ClusterState → ClusterState
accept_leader m now s =
    if m.term ==ℤ s.current_term
    then record s { state = yield_candidate s.state; leader = m.leaderid; last_activity_time = now }
    else record s {
      state = follower;
      current_term = m.term;
      leader = m.leaderid;
      voted_for = sdsempty;
      voted_for_len = 0;
      last_activity_time = now;
    }

-- `entries.log_entries[i]` for i below the count; `none` is a read past the array.
unfoldable pub carried : ℕ → List LogEntry → Option (List LogEntry)
carried zero array = some []
carried (suc count) [] = none
carried (suc count) (e ∷ array) = Option.map (λ es. e ∷ es) (carried count array)

-- `if (node->last_sent_entry) { … }`.
unfoldable pub acknowledged : ClusterNode → ClusterNode
acknowledged n = elim n.last_sent_entry [
  | none ↦ n
  | some sent ↦ record n {
    next_index = sent.log_entry.index +ℤ pos 1;
    match_index = sent.log_entry.index;
  }
]

unfoldable pub cluster_process_response_append_entries :
    ℕ → ResponseAppendEntries → ClusterState → Option ClusterState
unfolding acknowledged
cluster_process_response_append_entries link m s =
    if m.ok ==ℤ pos 0
    then Option.map (λ node. record s { nodes = update_node node.name acknowledged s.nodes })
        (node_of_link link s.nodes)
    else if ltb_ℤ s.current_term m.term
    then some (step_down m.term s)
    else Option.map
        (λ node. record s {
          nodes =
              update_node node.name (λ n. record n { next_index = n.next_index -ℤ pos 1 }) s.nodes;
        })
        (node_of_link link s.nodes)

unfoldable pub length_fits : Option ℕ → ℕ → Bool
length_fits none totlen = true
length_fits (some expected) totlen = totlen == expected

module _ (os : Os) where
  unfoldable pub answer : ℕ → AppendEntries → ClusterState → Status → ClusterState
  answer link m s err = cluster_send_response_append_entries link err s
  answer link m s ok =
      cluster_send_response_append_entries link ok (log_commit_index m.leader_commit_index s)

  -- The entries are written only if the one before them is there.
  unfoldable pub store_entries : ℕ → AppendEntries → ClusterState → Status → Option ClusterState
  store_entries link m s err = some (cluster_send_response_append_entries link err s)
  store_entries link m s ok = do
    es ← carried m.log_entries_count m.log_entries
    written ← log_append_entries os s.log es
    some (answer link m (record s { log = written.0 }) written.1)

  unfoldable pub cluster_process_append_entries :
      ℕ → AppendEntries → ℤ → ClusterState → Option ClusterState
  unfolding store_entries answer
  cluster_process_append_entries link m now s =
      if ltb_ℤ m.term s.current_term
      then some (cluster_send_response_append_entries link err s)
      else do
        let s' = accept_leader m now s
        verdict ← log_verify_append s'.log m.prev_log_index m.prev_log_term
        store_entries link m s' verdict

  unfoldable pub dispatch : ℕ → Body → ℤ → ClusterState → Option ClusterState
  dispatch link (vote_request m) now s = some (cluster_process_request_vote link m now s)
  dispatch link (append_entries m) now s = cluster_process_append_entries link m now s
  dispatch link (vote_request_resp m) now s = some (cluster_process_response_vote m s)
  dispatch link (append_entries_resp m) now s = cluster_process_response_append_entries link m s
  dispatch link (other_type t) now s = some s

  -- `received` is sdslen(link->rcvbuf). The return value is always 1. The entries are handed on as a
  -- copy of the whole structure, which of a shorter message reads past the end of the buffer.
  unfoldable pub cluster_process_packet :
      ℕ → ℕ → ClusterMsg → ℤ → ClusterState → Option ClusterState
  unfolding dispatch length_fits
  cluster_process_packet link received hdr now s =
      let s' = record s { stats_bus_messages_received = s.stats_bus_messages_received + 1 } in
      if ltb hdr.totlen 16
      then some s'
      else if not (hdr.ver == 0)
      then some s'
      else if ltb received hdr.totlen
      then some s'
      else if length_fits (expected_length hdr.body) hdr.totlen
      then dispatch link hdr.body now s'
      else some s'
