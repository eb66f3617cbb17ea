-- ===== src/Cluster/Nodes/Rename.antt =====
-- src/cluster.c: clusterRenameNode in a table of different names.
use mathlib.Core.Bool.{true≢false}
use prez.Prelude.{
  ◌≡◌, ◌≢◌, inl, inr, refl, sym, ap, ◌∙◌, false, List, [], ◌∷◌, none, some, Bool-cases, none≢some,
}
use prez.Prelude.Text.{Bytes, bytes_eq, bytes_eq_iff}
use prez.Cluster.State.{ClusterNode}
use prez.Cluster.Nodes.{
  cluster_lookup_node, added_node, cluster_add_node, delete_node, renamed, cluster_rename_node,
}

-- The names in the table are different.
abbrev pub Distinct : List ClusterNode → Type 0
Distinct [] = Unit {0}
Distinct (n ∷ nodes) = (cluster_lookup_node n.name nodes ≡ none) × Distinct nodes

other_name : (a b : Bytes) → a ≢ b → bytes_eq a b ≡ false
other_name a b ne = elim (Bool-cases (bytes_eq a b)) [
  | inl same ↦ absurd (ne ((bytes_eq_iff a b).0 same))
  | inr other ↦ other
]

-- A name that is in the table is taken out, and only it.
delete_node-Distinct :
    (key : Bytes) (nodes : List ClusterNode) (n : ClusterNode)
    → Distinct nodes
    → cluster_lookup_node key nodes ≡ some n
    → (rest : List ClusterNode) × (delete_node key nodes ≡ some rest)
      × Distinct rest
      × (cluster_lookup_node key rest ≡ none)
      × ((other : Bytes)
          → other ≢ key
          → cluster_lookup_node other rest ≡ cluster_lookup_node other nodes)
unfolding delete_node cluster_lookup_node
delete_node-Distinct key [] n d h = absurd (none≢some h)
delete_node-Distinct key (m ∷ nodes) n d h = elim (Bool-cases (bytes_eq m.name key)) [
  | inl here ↦
      let same = (bytes_eq_iff m.name key).0 here in
      (
        nodes,
        rw here refl,
        d.1,
        rw (← same) d.0,
        λ other ne. rw (other_name m.name other (λ e. ne (sym e ∙ same))) refl,
      )
  | inr away ↦
      let (rest, done, distinct, gone, kept) =
        delete_node-Distinct key nodes n d.1 (rw away at h) in
      (
        m ∷ rest,
        rw (away, done) refl,
        (
          kept m.name (λ e. true≢false (sym ((bytes_eq_iff m.name key).1 e) ∙ away)) ∙ d.0,
          distinct,
        ),
        rw away gone,
        λ other ne. rw (kept other ne) refl,
      )
]

found_first :
    (n : ClusterNode) (rest : List ClusterNode) (key : Bytes)
    → n.name ≡ key
    → cluster_lookup_node key (n ∷ rest) ≡ some n
unfolding cluster_lookup_node
found_first n rest key e = rw ((bytes_eq_iff n.name key).1 e) refl

not_first :
    (n : ClusterNode) (rest : List ClusterNode) (key : Bytes)
    → n.name ≢ key
    → cluster_lookup_node key (n ∷ rest) ≡ cluster_lookup_node key rest
unfolding cluster_lookup_node
not_first n rest key ne = rw (other_name n.name key ne) refl

-- A node keeps its place in the cluster under a new name. Let the names in the table be different,
-- the node be in it, and the new name be free. Then clusterRenameNode returns, the node is found
-- under the new name and not under the old one, every other name finds what it found, and the names
-- are different again.
pub cluster_rename_node-Distinct :
    (nodes : List ClusterNode) (n : ClusterNode) (newname other : Bytes)
    → Distinct nodes
    → cluster_lookup_node n.name nodes ≡ some n
    → cluster_lookup_node newname nodes ≡ none
    → other ≢ n.name
    → other ≢ newname
    → (after : List ClusterNode) × (cluster_rename_node n newname nodes ≡ some after)
      × (cluster_lookup_node newname after ≡ some (record n { name = newname }))
      × (cluster_lookup_node n.name after ≡ none)
      × (cluster_lookup_node other after ≡ cluster_lookup_node other nodes)
      × Distinct after
unfolding cluster_rename_node renamed cluster_add_node added_node
cluster_rename_node-Distinct nodes n newname other d here free ne nw =
    let (rest, done, distinct, gone, kept) = delete_node-Distinct n.name nodes n d here in
    let moved : newname ≢ n.name =
      λ e. none≢some (sym free ∙ ap (λ k. cluster_lookup_node k nodes) e ∙ here) in
    let still_free : cluster_lookup_node newname rest ≡ none = kept newname moved ∙ free in
    let n' : ClusterNode = record n { name = newname } in
    (
      n' ∷ rest,
      rw (cluster_rename_node, done, still_free) refl,
      found_first n' rest newname refl,
      not_first n' rest n.name moved ∙ gone,
      not_first n' rest other (λ e. nw (sym e)) ∙ kept other ne,
      (still_free, distinct),
    )
