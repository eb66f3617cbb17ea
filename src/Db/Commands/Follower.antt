-- ===== src/Db/Commands/Follower.antt =====
-- src/cluster.c, src/log.c and src/prez.c: the keys of a node that follows, and the log.
use prez.Prelude.{ℕ, ◌+◌, ◌≤◌, ◌≡◌, All, take, drop, false}
use prez.Prelude.Int.{pos}
use prez.Log.{log_length}
use prez.Log.Index.{max_length}
use prez.Log.Takeover.{entries_of}
use prez.Cluster.State.{ClusterState}
use prez.Cluster.Apply.{is_leading}
use prez.Cluster.Machine.{Runnable}

-- A node that follows, has applied `a` entries of its log, and knows that the first `a + rounds`
-- are committed; those that are not applied yet can be run.
pub record Follows (s : ClusterState) (a rounds : ℕ) : Type 0 where
  pub waits : is_leading s.state ≡ false
  pub applied : s.last_applied ≡ pos a
  pub committed : s.commit_index ≡ pos (a + rounds)
  pub in_log : a + rounds ≤ log_length s.log
  pub small : log_length s.log ≤ max_length
  pub runnable : All Runnable (take rounds (drop a (entries_of s.log)))
