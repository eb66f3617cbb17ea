-- ===== src/Cluster/Nodes/Tests.antt =====
-- src/cluster.c: a table of two nodes.
use mathlib.Core.Bool.{true≢false}
use prez.Prelude.{sym, ◌∙◌, false, ◌≡◌, refl, List, [], ◌∷◌, none, some, ◌≢◌}
use prez.Prelude.Text.{codes, Bytes, bytes_eq, bytes_eq_iff}
use prez.Cluster.State.{ClusterNode}
use prez.Cluster.Samples.{peer}
use prez.Cluster.Nodes.{cluster_lookup_node, cluster_rename_node, create_cluster_node}
use prez.Cluster.Nodes.Rename.{Distinct, cluster_rename_node-Distinct}

abbrev one : ClusterNode
one = peer (codes "n1") 0 0

abbrev two : ClusterNode
two = create_cluster_node (peer [] 0 0) (codes "n2")

abbrev table : List ClusterNode
table = one ∷ two ∷ []

table-Distinct : Distinct table
unfolding cluster_lookup_node create_cluster_node bytes_eq
table-Distinct = (refl, (refl, tt))

n2_found : cluster_lookup_node two.name table ≡ some two
unfolding cluster_lookup_node create_cluster_node bytes_eq
n2_found = refl

n3_free : cluster_lookup_node (codes "n3") table ≡ none
unfolding cluster_lookup_node create_cluster_node bytes_eq
n3_free = refl

ne_of_bytes_eq : (a b : Bytes) → bytes_eq a b ≡ false → a ≢ b
ne_of_bytes_eq a b h e = true≢false (sym ((bytes_eq_iff a b).1 e) ∙ h)

n1_not_n2 : codes "n1" ≢ two.name
unfolding create_cluster_node bytes_eq
n1_not_n2 = ne_of_bytes_eq (codes "n1") (codes "n2") refl

n1_not_n3 : codes "n1" ≢ codes "n3"
unfolding bytes_eq
n1_not_n3 = ne_of_bytes_eq (codes "n1") (codes "n3") refl

cluster_rename_node-Distinct_example :
    (after : List ClusterNode) × (cluster_rename_node two (codes "n3") table ≡ some after)
    × (cluster_lookup_node (codes "n3") after ≡ some (record two { name = codes "n3" }))
    × (cluster_lookup_node two.name after ≡ none)
    × (cluster_lookup_node (codes "n1") after ≡ cluster_lookup_node (codes "n1") table)
    × Distinct after
cluster_rename_node-Distinct_example =
    cluster_rename_node-Distinct table two (codes "n3") (codes "n1") table-Distinct n2_found n3_free
      n1_not_n2 n1_not_n3
