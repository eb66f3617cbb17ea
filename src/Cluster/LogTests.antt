-- ===== src/Cluster/LogTests.antt =====
-- src/cluster.c: the theorems on the log, the commit index and the commands at concrete nodes.
use mathlib.Core.List.{Permᴰ}
use prez.Prelude.{
  zero, suc, ap, eq_of_some, ◌≡◌, ◌⊎◌, inr, refl, arith, List, [], ◌∷◌, ◌++◌, some, ◌+◌, take, All,
}
use prez.Prelude.Int.{pos, ◌≤ℤ◌, ◌-ℤ◌, pos_part}
use prez.Prelude.Text.{Bytes, codes}
use prez.Log.Replicate.{Kept}
use prez.Log.{Log, log_append_entries, ◌>>=◌, log_sync, log_current_index, LogEntryNode, err}
use prez.Log.Load.{c_string}
use prez.Sds.Buffer.{sdscatlen, sds_make_room_for, sdsnewlen}
use prez.Cluster.Apply.{is_leading}
use prez.Log.Index.{Contiguous, log_current_index_lem}
use prez.Log.Verify.{Holds}
use prez.Log.Takeover.{entries_of, taken_over}
use prez.Log.Samples.{
  machine, entry, first, second, third, two_log, three_log, two_log-Contiguous,
  three_log-Contiguous,
}
use prez.Cluster.Message.{AppendEntries, vote_request}
use prez.Cluster.State.{ClusterState, follower, leading}
use prez.Cluster.Send.{
  entries_to_send, append_entries_body, cluster_send_response_append_entries,
  cluster_build_message_hdr,
}
use prez.Cluster.Handle.{
  accept_leader, answer, cluster_process_append_entries, log_commit_index, cluster_process_packet,
  dispatch,
}
use prez.Cluster.Follow.{
  cluster_process_append_entries-refuses, cluster_process_append_entries-takes_over,
  log_commit_index-within,
}
use prez.Cluster.Replication.{replication_round}
use prez.Cluster.Commit.{compare_indices, to_int, cluster_update_commit_index}
use prez.Cluster.Commit.Quorum.{
  Raised, SortedBy, FitsInt, match_indices, cluster_update_commit_index-majority,
}
use prez.Cluster.Interop.{Built, cluster_process_packet-Built}
use prez.Cluster.Client.{
  Reply, command_text, new_entry, commit_or_wait, cluster_process_command, process_command,
  cluster_process_command-appends, process_command-only_leader,
}
use prez.Log.{log_current_term}
use prez.Log.Load.{done}
use prez.Prelude.{none, true}
use prez.Log.Samples.{two_log-FileMatches, two_log-Storable}
use prez.Cluster.Init.{Start, cluster_init, cluster_init-restores}
use prez.Cluster.Samples.{peer, node_with, plea, sort}

-- A follower with two entries, and one with three.
abbrev follower_two : ClusterState
follower_two = node_with follower 1 two_log []

abbrev leader_three : ClusterState
leader_three =
    node_with leading 1 three_log
      (peer (codes "n2") 1 2 ∷ peer (codes "n3") 1 3 ∷ peer (codes "n1") 16 3 ∷ [])

abbrev message : AppendEntries
message = record {
  term = pos 2;
  leaderid = codes "n2";
  prev_log_index = pos 2;
  prev_log_term = pos 1;
  leader_commit_index = pos 2;
  log_entries_count = 1;
  log_entries = third ∷ first ∷ [];
}

-- A message that goes on from an entry of a term that the log does not have.
abbrev stranger : AppendEntries
stranger = record message { prev_log_term = pos 2 }

second-Holds : Holds two_log (pos 2) (pos 1)
second-Holds = Holds.present 1 (record { log_entry = second; position = _ }) refl refl refl

stranger_missing : ¬ Holds two_log (pos 2) (pos 2)
stranger_missing (Holds.start e) = absurd (omega (arith, ap pos_part e))
stranger_missing (Holds.present zero en e at et) = absurd (omega (arith, ap pos_part e))
stranger_missing (Holds.present (suc zero) en e at et) = absurd (
    omega (
      arith,
      ap (λ (n : LogEntryNode). pos_part (n.log_entry).term) (eq_of_some at),
      ap pos_part et,
    ))
stranger_missing (Holds.present (suc (suc j)) en e at et) = absurd (omega (arith, ap pos_part e))

cluster_process_append_entries-refuses_example :
    (t : ClusterState) × (cluster_process_append_entries machine 5 stranger (pos 1005) follower_two
      ≡ some (cluster_send_response_append_entries 5 err t))
    × (t.log ≡ two_log)
    × (t.commit_index ≡ pos 1)
cluster_process_append_entries-refuses_example =
    cluster_process_append_entries-refuses machine 5 stranger (pos 1005) follower_two (omega arith)
      (omega arith) (inr stranger_missing)

cluster_process_append_entries-takes_over_example :
    ((log' : Log) × (cluster_process_append_entries machine 5 message (pos 1005) follower_two
        ≡ some (
            answer machine 5 message
              (record (accept_leader message (pos 1005) follower_two) { log = log' })
              (log_sync machine log')))
      × Contiguous 0 log'.log_entries
      × (entries_of log' ≡ taken_over 2 (entries_of two_log) (third ∷ [])))
    ⊎ ((k : Kept machine two_log 2 (third ∷ [])) × (cluster_process_append_entries machine 5 message
            (pos 1005)
            follower_two
          ≡ (log_append_entries machine k.longer k.behind >>= λ written. some (
              answer machine 5 message
                (record (accept_leader message (pos 1005) follower_two) { log = written.0 })
                written.1))))
cluster_process_append_entries-takes_over_example =
    cluster_process_append_entries-takes_over machine 5 message (pos 1005) follower_two 2
      two_log-Contiguous (omega arith) refl refl second-Holds (omega arith) (omega arith) (refl, tt)

commit_within : pos 1 ≤ℤ log_current_index two_log
commit_within = rw (log_current_index_lem two_log two_log-Contiguous) (omega arith)

log_commit_index-within_example :
    (log_commit_index (pos 9) follower_two
      ≡ record follower_two { commit_index = (log_commit_index (pos 9) follower_two).commit_index })
    × (pos 1 ≤ℤ (log_commit_index (pos 9) follower_two).commit_index)
    × ((log_commit_index (pos 9) follower_two).commit_index ≤ℤ log_current_index two_log)
    × (((log_commit_index (pos 9) follower_two).commit_index ≡ pos 1)
        ⊎ ((log_commit_index (pos 9) follower_two).commit_index ≤ℤ pos 9))
log_commit_index-within_example = log_commit_index-within (pos 9) follower_two commit_within

replication_round_example :
    let m =
      append_entries_body leader_three
        (peer (codes "n2") 1 2)
        (entries_to_send three_log (pos 3)) in
    (log' : Log) × (cluster_process_append_entries machine 5 m (pos 1005) follower_two
      ≡ some (
          answer machine 5 m
            (record (accept_leader m (pos 1005) follower_two) { log = log' })
            (log_sync machine log')))
    × Contiguous 0 log'.log_entries
    × (entries_of log' ≡ take (2 + 50) (entries_of three_log))
replication_round_example =
    replication_round machine 5 (pos 1005) leader_three follower_two (peer (codes "n2") 1 2) 2
      three_log-Contiguous two_log-Contiguous (omega arith) (omega arith) refl refl refl

indices_sorted : SortedBy compare_indices (sort compare_indices (match_indices leader_three))
unfolding compare_indices to_int ◌-ℤ◌
indices_sorted = ((omega arith, (omega arith, tt)), ((omega arith, tt), (tt, tt)))

indices_same :
    Permᴰ (match_indices leader_three) (sort compare_indices (match_indices leader_three))
unfolding compare_indices to_int ◌-ℤ◌
indices_same = Permᴰ.cons refl (Permᴰ.cons refl (Permᴰ.cons refl Permᴰ.nil))

indices_fit : All FitsInt (match_indices leader_three)
indices_fit = ((2, refl, omega arith), ((3, refl, omega arith), ((3, refl, omega arith), tt)))

cluster_update_commit_index-majority_example :
    (t : ClusterState) × (cluster_update_commit_index sort leader_three ≡ some t)
    × ((t ≡ leader_three)
        ⊎ ((t ≡ record leader_three { commit_index = t.commit_index }) × Raised leader_three t))
cluster_update_commit_index-majority_example =
    cluster_update_commit_index-majority sort leader_three indices_same indices_sorted indices_fit
      (omega arith)

-- Two entries are committed, one of them is applied.
abbrev behind : ClusterState
behind = record follower_two { commit_index = pos 2 }

cluster_process_packet-Built_example :
    cluster_process_packet machine 5
      (cluster_build_message_hdr leader_three (vote_request plea)).totlen
      (cluster_build_message_hdr leader_three (vote_request plea))
      (pos 1005)
      follower_two
    ≡ dispatch machine 5
        (vote_request plea)
        (pos 1005)
        (record follower_two { stats_bus_messages_received = 0 + 1 })
unfolding cluster_build_message_hdr
cluster_process_packet-Built_example =
    cluster_process_packet-Built machine 5 leader_three follower_two
      (cluster_build_message_hdr leader_three (vote_request plea)) (pos 1005) (Built.request plea)

abbrev set_args : List Bytes
set_args = codes "set" ∷ codes "d" ∷ codes "4" ∷ []

set_text : command_text set_args ≡ some (codes "set d 4\n")
unfolding command_text c_string sdscatlen sds_make_room_for sdsnewlen
set_text = refl

cluster_process_command-appends_example :
    (log' : Log) × (cluster_process_command machine 9 (codes "set") set_args leader_three
      ≡ some (
          commit_or_wait 9
            (new_entry leader_three (codes "set") (codes "set d 4\n"))
            (record leader_three { log = log' })))
    × Contiguous 0 log'.log_entries
    × (entries_of log' ≡ entries_of three_log ++ entry 4 1 (codes "set d 4\n") ∷ [])
cluster_process_command-appends_example =
    cluster_process_command-appends machine 9 (codes "set") set_args leader_three
      (codes "set d 4\n") three_log-Contiguous (omega arith) set_text

process_command-only_leader_example :
    (r : Reply) × (t : ClusterState) × (process_command machine 9 set_args follower_two
      ≡ some (r, t))
    × (t.log ≡ two_log)
    × (t.commit_index ≡ pos 1)
    × (t.proc_clients ≡ [])
unfolding is_leading
process_command-only_leader_example =
    process_command-only_leader machine 9 (codes "set") (codes "d" ∷ codes "4" ∷ []) follower_two
      refl

abbrev start : Start
start = record {
  name = codes "n1";
  port = 7981;
  election_timeout = pos 150;
  heartbeat_interval = pos 50;
  now = pos 0;
  configured = none;
  created = peer (codes "n1") 16 0;
}

cluster_init-restores_example :
    (s : ClusterState) × (cluster_init start true true third two_log.file ≡ done s)
    × (s.log ≡ two_log)
    × (s.state ≡ follower)
    × (s.current_term ≡ log_current_term two_log)
    × (s.voted_for ≡ [])
cluster_init-restores_example =
    cluster_init-restores start third two_log two_log-FileMatches two_log-Storable
