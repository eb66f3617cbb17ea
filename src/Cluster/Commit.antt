-- ===== src/Cluster/Commit.antt =====
-- src/cluster.c: clusterUpdateCommitIndex. qsort(3) is a parameter.
pub mod Quorum
use mathlib.Core.List.{reverse}
use prez.Prelude.{
  ℕ, zero, suc, ◌+◌, ◌-◌, ◌/◌, ◌%◌, ◌^◌, Bool, true, false, ◌&&◌, List, [], ◌∷◌, Option, none, some,
  ltb, if◌then◌else◌, length, map, get_elem?,
}
use prez.Prelude.Int.{ℤ, pos, negsuc, ◌-ℤ◌, ltb_ℤ, ◌==ℤ◌, to_ulong}
use prez.Log.{log_get_term, ◌>>=◌}
use prez.Cluster.State.{ClusterState, ClusterNode, quorum_size}

-- (int) of a `long long`.
unfoldable pub to_int : ℤ → ℤ
to_int z = let w = to_ulong z % 2 ^ 32 in if ltb w (2 ^ 31) then pos w else negsuc (2 ^ 32 - 1 - w)

unfoldable pub compare_indices : ℤ → ℤ → ℤ
unfolding to_int
compare_indices a b = to_int (a -ℤ b)

-- reverseIndices swaps the ends and moves inwards, which reverses the array.
unfoldable pub reverse_indices : List ℤ → List ℤ
reverse_indices = reverse

module _ (qsort : (ℤ → ℤ → ℤ) → List ℤ → List ℤ) where
  unfoldable pub log_indices : ClusterState → List ℤ
  log_indices s = reverse_indices (qsort compare_indices (map (λ n. n.match_index) s.nodes))

  unfoldable pub raise_commit : ClusterState → ℤ → ClusterState
  raise_commit s commit_index =
      if ltb_ℤ s.commit_index commit_index && s.current_term ==ℤ log_get_term s.log commit_index
      then record s { commit_index = commit_index }
      else s

  -- `none` is a read past the array, of a cluster without nodes.
  unfoldable pub cluster_update_commit_index : ClusterState → Option ClusterState
  unfolding raise_commit
  cluster_update_commit_index s = do
    commit_index ← get_elem? (log_indices s) (quorum_size s - 1)
    some (raise_commit s commit_index)
