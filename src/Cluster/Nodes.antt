-- ===== src/Cluster/Nodes.antt =====
-- src/cluster.c: the table of nodes and the links of nodes. The hash table is an association list
-- of which the order does not matter, with the node's name as the key.
pub mod Rename
mod Tests
use prez.Prelude.{
  ℕ, ◌≡◌, ◌≢◌, inl, inr, refl, sym, ap, ◌∙◌, Bool, true, false, List, [], ◌∷◌, Option, none, some,
  ◌==◌, if◌then◌else◌, Bool-cases, none≢some, eq_of_some, map,
}
use prez.Prelude.Text.{Bytes, bytes_eq, bytes_eq_iff, bytes_eq_refl}
use prez.Cluster.State.{ClusterNode}

-- The new node has the bytes of `memory` where nothing is written: flags, last_activity_time, the
-- indices and last_sent_entry.
unfoldable pub create_cluster_node : ClusterNode → Bytes → ClusterNode
create_cluster_node memory nodename = record memory {
  name = nodename;
  link = none;
  ip = [];
  port = 0;
}

unfoldable pub cluster_lookup_node : Bytes → List ClusterNode → Option ClusterNode
cluster_lookup_node key [] = none
cluster_lookup_node key (n ∷ nodes) =
    let rest = cluster_lookup_node key nodes in if bytes_eq n.name key then some n else rest

-- dictAdd: none is DICT_ERR, for a name that is there.
unfoldable pub added_node :
    ClusterNode → List ClusterNode → Option ClusterNode → Option (List ClusterNode)
added_node n nodes (some old) = none
added_node n nodes none = some (n ∷ nodes)

-- none is PREZ_ERR.
unfoldable pub cluster_add_node : ClusterNode → List ClusterNode → Option (List ClusterNode)
unfolding added_node cluster_lookup_node
cluster_add_node n nodes = added_node n nodes (cluster_lookup_node n.name nodes)

-- dictDelete: none is DICT_ERR.
unfoldable pub delete_node : Bytes → List ClusterNode → Option (List ClusterNode)
delete_node key [] = none
delete_node key (n ∷ nodes) =
    let rest = delete_node key nodes in
    if bytes_eq n.name key
    then some nodes
    else elim rest [ none ↦ none | some left ↦ some (n ∷ left) ]

-- none is the assertion that the node is in the table.
unfoldable pub free_cluster_node : ClusterNode → List ClusterNode → Option (List ClusterNode)
unfolding delete_node
free_cluster_node n nodes = delete_node n.name nodes

unfoldable pub cluster_del_node : ClusterNode → List ClusterNode → Option (List ClusterNode)
unfolding free_cluster_node
cluster_del_node n nodes = free_cluster_node n nodes

-- The result of clusterAddNode is not looked at.
unfoldable pub renamed :
    ClusterNode → List ClusterNode → Option (List ClusterNode) → List ClusterNode
renamed n rest none = rest
renamed n rest (some nodes) = nodes

-- none is the assertion that the node was in the table.
unfoldable pub cluster_rename_node :
    ClusterNode → Bytes → List ClusterNode → Option (List ClusterNode)
unfolding renamed cluster_add_node delete_node
cluster_rename_node n newname nodes = elim (delete_node n.name nodes) [
  | none ↦ none
  | some rest ↦ some (renamed n rest (cluster_add_node (record n { name = newname }) rest))
]

abbrev has_link : ℕ → Option ℕ → Bool
has_link id none = false
has_link id (some l) = l == id

-- freeClusterLink, and handleLinkIOError: the node of the link has none any more.
unfoldable pub free_cluster_link : ℕ → List ClusterNode → List ClusterNode
free_cluster_link id nodes =
    map (λ (n : ClusterNode). if has_link id n.link then record n { link = none } else n) nodes
