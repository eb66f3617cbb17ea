-- ===== src/Cluster/CatchUp/Tests.antt =====
-- src/cluster.c: a follower that lacks one entry.
use prez.Prelude.{◌≡◌, refl, arith, [], some}
use prez.Prelude.Int.{pos}
use prez.Log.{log_sync}
use prez.Log.Takeover.{entries_of}
use prez.Log.Samples.{machine, two_log, three_log, two_log-Contiguous, three_log-Contiguous}
use prez.Cluster.State.{ClusterState, ClusterNode, follower, leading}
use prez.Cluster.Samples.{peer, node_with}
use prez.Cluster.CatchUp.{exchanges}
use prez.Cluster.CatchUp.Behind.{Behind, exchanges-entries_of}

abbrev leader : ClusterState
leader = node_with leading 1 three_log []

abbrev behind : ClusterState
behind = node_with follower 1 two_log []

abbrev known : ClusterNode
known = peer [] 0 2

behind-Behind : Behind leader 2 known behind
behind-Behind = record {
  in_order = two_log-Contiguous;
  agrees = refl;
  next = refl;
  fresh = refl;
  within = omega arith;
}

exchanges-entries_of_example :
    (node : ClusterNode) × (f : ClusterState) × (exchanges machine 5
        (pos 1005)
        leader
        1
        (known, behind)
      ≡ some (node, f))
    × (entries_of f.log ≡ entries_of three_log)
    × (node.next_index ≡ pos 4)
unfolding log_sync
exchanges-entries_of_example =
    exchanges-entries_of machine 5 (pos 1005) leader three_log-Contiguous (omega arith)
      (λ log. refl) 1 2 known behind behind-Behind (omega arith)
