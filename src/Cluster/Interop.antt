-- ===== src/Cluster/Interop.antt =====
-- src/cluster.c: a message that one node builds passes the length tests of another.
use prez.Prelude.{ℕ, ◌+◌, ◌≡◌, refl, ap, true, false, some, arith, ltb, ◌==◌}
use prez.Prelude.Int.{ℤ}
use prez.Log.{Os}
use prez.Cluster.Message.{
  ClusterMsg, RequestVote, ResponseVote, ResponseAppendEntries, vote_request, vote_request_resp,
  append_entries_resp, expected_length, built_length,
}
use prez.Cluster.State.{ClusterState, ClusterNode}
use prez.Cluster.Send.{
  cluster_build_message_hdr, append_entries_msg, append_entries_body, entries_to_send,
}
use prez.Cluster.Handle.{cluster_process_packet, dispatch, length_fits}

-- The messages that clusterSendRequestVote, clusterSendResponseVote, clusterSendResponseAppendEntries
-- and clusterSendAppendEntries build.
pub data Built (s : ClusterState) : ClusterMsg → Type 0 where
  request : (m : RequestVote) → Built s (cluster_build_message_hdr s (vote_request m))
  vote : (m : ResponseVote) → Built s (cluster_build_message_hdr s (vote_request_resp m))
  outcome :
      (m : ResponseAppendEntries) → Built s (cluster_build_message_hdr s (append_entries_resp m))
  entries :
      (node : ClusterNode)
      → Built s (append_entries_msg s node (entries_to_send s.log node.next_index))

pub record Sound (msg : ClusterMsg) : Type 0 where
  pub long_enough : ltb msg.totlen 16 ≡ false
  pub version : msg.ver ≡ 0
  pub expected : expected_length msg.body ≡ some msg.totlen

Built-Sound : (s : ClusterState) (msg : ClusterMsg) → Built s msg → Sound msg
unfolding cluster_build_message_hdr append_entries_msg append_entries_body expected_length
    built_length
Built-Sound s msg (request m) = record { long_enough = refl; version = refl; expected = refl }
Built-Sound s msg (vote m) = record { long_enough = refl; version = refl; expected = refl }
Built-Sound s msg (outcome m) = record { long_enough = refl; version = refl; expected = refl }
Built-Sound s msg (entries node) = record {
  long_enough = ground arith;
  version = refl;
  expected = ap some (omega arith);
}

-- A message is understood. Whatever a node builds (a request for a vote, an answer to one, entries,
-- or an answer to those), a node that has received all of its totlen bytes hands its body to the
-- handler of its type, after counting it.
pub cluster_process_packet-Built :
    (os : Os) (link : ℕ) (sender receiver : ClusterState) (msg : ClusterMsg) (now : ℤ)
    → Built sender msg
    → cluster_process_packet os link msg.totlen msg now receiver
      ≡ dispatch os link msg.body now (record receiver {
        stats_bus_messages_received = receiver.stats_bus_messages_received + 1;
      })
unfolding cluster_process_packet length_fits
cluster_process_packet-Built os link sender receiver msg now built =
    let ok = Built-Sound sender msg built in
    let whole : ltb msg.totlen msg.totlen ≡ false = ground arith in
    let same : (msg.totlen == msg.totlen) ≡ true = ground arith in
    rw (ok.long_enough, ok.version, whole, ok.expected, same) refl
