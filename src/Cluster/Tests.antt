-- ===== src/Cluster/Tests.antt =====
-- src/cluster.c: the theorems on votes and terms at concrete nodes.
use prez.Prelude.{arith, ◌++◌, ◌≡◌, ◌≢◌, ◌⊎◌, refl, [], ◌∷◌, some}
use prez.Prelude.Int.{pos, ◌-ℤ◌, ◌+ℤ◌}
use prez.Prelude.Text.{Bytes, codes, bytes_eq}
use prez.Adlist.{list_index}
use prez.Log.{log_current_index, log_current_term}
use prez.Log.Samples.{machine}
use prez.Cluster.State.{ClusterState}
use prez.Cluster.Handle.{cluster_process_request_vote, step_down, voted_for_other}
use prez.Cluster.Send.{cluster_send_response_vote, cluster_send_message, cluster_build_message_hdr}
use prez.Cluster.Cron.{
  cluster_cron, apply_committed, apply_rounds, reconnect, lead, check_votes, check_election,
}
use prez.Cluster.Vote.{Replies, Unvoted, Granted, Denied, cluster_process_request_vote-Deserves}
use prez.Cluster.Elections.{cron, run, one_vote_per_term}
use prez.Sds.Buffer.{Sds}
use prez.Cluster.Link.{write_out, write_out-append}
use prez.Cluster.Samples.{voter, plea, quiet}

cluster_process_request_vote-Deserves_example :
    Granted Unvoted 5 plea voter (cluster_process_request_vote 5 plea (pos 1005) voter)
    ⊎ Denied Unvoted 5 plea voter (cluster_process_request_vote 5 plea (pos 1005) voter)
cluster_process_request_vote-Deserves_example =
    cluster_process_request_vote-Deserves 5 plea (pos 1005) voter (λ e. refl)

abbrev voted : ClusterState
voted = cluster_process_request_vote 5 plea (pos 1005) voter

first_vote : Replies 5 (pos 2) 1 voter voted
unfolding cluster_process_request_vote step_down log_current_index log_current_term list_index
    cluster_send_response_vote cluster_send_message cluster_build_message_hdr voted_for_other
first_vote = refl

quiet-run : run machine (cron quiet ∷ []) voted ≡ some voted
unfolding run cluster_cron apply_committed apply_rounds ◌-ℤ◌ reconnect cluster_process_request_vote
    log_current_index list_index step_down log_current_term cluster_send_response_vote
    cluster_send_message lead check_votes check_election ◌+ℤ◌
quiet-run = refl

second_vote : Replies 5 (pos 2) 1 voted (cluster_process_request_vote 5 plea (pos 1020) voted)
unfolding cluster_process_request_vote step_down log_current_index log_current_term list_index
    cluster_send_response_vote cluster_send_message cluster_build_message_hdr voted_for_other
    bytes_eq
second_vote = refl

named : plea.candidateid ≢ []
named e = cc

one_vote_per_term_example : codes "n2" ≡ codes "n2"
one_vote_per_term_example =
    one_vote_per_term machine (cron quiet ∷ []) 5 5 plea plea (pos 1005) (pos 1020) voter voted
      first_vote quiet-run second_vote refl named

-- Eleven bytes go out in three calls.
abbrev sending : Sds
sending = record { buf = codes "hello world"; avail = 0 }

write_out-append_example :
    (sent : Bytes) × (rest : Sds) × (write_out (4 ∷ 1 ∷ 3 ∷ []) sending ≡ some (sent, rest))
    × (sent ++ rest.buf ≡ codes "hello world")
write_out-append_example =
    write_out-append (4 ∷ 1 ∷ 3 ∷ []) sending
      (omega arith, omega arith, (omega arith, omega arith, (omega arith, omega arith, tt)))
