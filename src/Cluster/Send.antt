-- ===== src/Cluster/Send.antt =====
-- src/cluster.c: building and sending messages.
use mathlib.Core.Option
use prez.Prelude.{
  ℕ, ◌+◌, ◌-◌, ◌*◌, List, [], ◌∷◌, ◌++◌, Option, none, some, if◌then◌else◌, length, map, drop, take,
}
use prez.Prelude.Int.{ℤ, pos, negsuc, ◌+ℤ◌, ◌-ℤ◌, leb_ℤ}
use prez.Prelude.Text.{codes}
use prez.Log.{
  Log, LogEntryNode, log_current_index, log_current_term, log_get_term, get_log_node, Status, ok,
  err,
}
use prez.Cluster.Message.{
  ClusterMsg, AppendEntries, Body, vote_request, vote_request_resp, append_entries,
  append_entries_resp, built_length, header_size, append_entries_size, log_entry_size,
  log_max_entries_per_request,
}
use prez.Cluster.State.{ClusterState, ClusterNode, has_flag, node_myself, update_node, node_of_link}

-- clusterBuildMessageHdr, with the body that the caller fills in.
unfoldable pub cluster_build_message_hdr : ClusterState → Body → ClusterMsg
unfolding built_length
cluster_build_message_hdr s body = record {
  sig = codes "RCmb";
  totlen = built_length body;
  ver = 0;
  sender = s.myself_name;
  port = s.server_port;
  body = body;
}

unfoldable pub cluster_send_message : ℕ → ClusterMsg → ClusterState → ClusterState
cluster_send_message link msg s = record s {
  outbox = s.outbox ++ (link, msg) ∷ [];
  stats_bus_messages_sent = s.stats_bus_messages_sent + 1;
}

-- The nodes with a link, this one left out.
unfoldable pub broadcast_to : List ClusterNode → ClusterMsg → ClusterState → ClusterState
broadcast_to [] msg s = s
broadcast_to (n ∷ ns) msg s = elim n.link [
  | none ↦ broadcast_to ns msg s
  | some link ↦
      broadcast_to ns msg (if has_flag node_myself n then s else cluster_send_message link msg s)
]

unfoldable pub cluster_broadcast_message : ClusterMsg → ClusterState → ClusterState
unfolding broadcast_to
cluster_broadcast_message msg s = broadcast_to s.nodes msg s

-- The header is built before the term is counted up; the body has the new term.
unfoldable pub cluster_send_request_vote : ClusterState → ClusterState
cluster_send_request_vote s =
    let term = s.current_term +ℤ pos 1 in
    let body = vote_request (record {
      term = term;
      candidateid = s.myself_name;
      last_log_index = log_current_index s.log;
      last_log_term = log_current_term s.log;
    }) in
    cluster_broadcast_message (cluster_build_message_hdr s body) (record s { current_term = term })

-- DENY_VOTE and GRANT_VOTE.
abbrev pub deny_vote : ℕ
deny_vote = 0

abbrev pub grant_vote : ℕ
grant_vote = 1

unfoldable pub cluster_send_response_vote : ℕ → ℕ → ClusterState → ClusterState
cluster_send_response_vote link granted s =
    cluster_send_message link
      (cluster_build_message_hdr s
        (vote_request_resp (record { term = s.current_term; vote_granted = granted })))
      s

abbrev pub status_code : Status → ℤ
status_code ok = pos 0
status_code err = negsuc 0

unfoldable pub cluster_send_response_append_entries : ℕ → Status → ClusterState → ClusterState
cluster_send_response_append_entries link status s =
    cluster_send_message link
      (cluster_build_message_hdr s (
        append_entries_resp (record {
          term = s.current_term;
          index = log_current_index s.log;
          commit_index = s.commit_index;
          ok = status_code status;
        })))
      s

-- The nodes from getLogNode(next_index) on, up to the bound on a request; none where the log has no
-- such index.
unfoldable pub entries_to_send : Log → ℤ → List LogEntryNode
entries_to_send log next_index =
    if leb_ℤ next_index (log_current_index log) then from_node (get_log_node log next_index) else []
  where
    from_node : Option ℕ → List LogEntryNode
    from_node none = []
    from_node (some n) = take log_max_entries_per_request (drop n log.log_entries)

-- The last node that the loop saw.
unfoldable pub last_of : List LogEntryNode → Option LogEntryNode
last_of [] = none
last_of (n ∷ []) = some n
last_of (n ∷ m ∷ ns) = last_of (m ∷ ns)

unfoldable pub append_entries_body : ClusterState → ClusterNode → List LogEntryNode → AppendEntries
append_entries_body s node sent = record {
  term = s.current_term;
  leaderid = s.myself_name;
  prev_log_index = node.next_index -ℤ pos 1;
  prev_log_term = log_get_term s.log (node.next_index -ℤ pos 1);
  leader_commit_index = s.commit_index;
  log_entries_count = length sent;
  log_entries = map (λ n. n.log_entry) sent;
}

unfoldable pub append_entries_msg : ClusterState → ClusterNode → List LogEntryNode → ClusterMsg
unfolding append_entries_body
append_entries_msg s node sent =
    record (cluster_build_message_hdr s (append_entries (append_entries_body s node sent))) {
      totlen =
          header_size
          + (append_entries_size - log_entry_size * log_max_entries_per_request)
          + log_entry_size * length sent;
    }

unfoldable pub send_append_entries_to : ℕ → ClusterNode → ClusterState → ClusterState
send_append_entries_to link node s =
    let sent = entries_to_send s.log node.next_index in
    cluster_send_message link (append_entries_msg s node sent) (record s {
      nodes = update_node node.name (λ n. record n { last_sent_entry = last_of sent }) s.nodes;
    })

-- `none` is a link without a node.
unfoldable pub cluster_send_append_entries : ℕ → ClusterState → Option ClusterState
unfolding send_append_entries_to append_entries_msg
cluster_send_append_entries link s =
    Option.map (λ node. send_append_entries_to link node s) (node_of_link link s.nodes)
