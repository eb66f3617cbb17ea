-- ===== src/Cluster/Packets.antt =====
-- src/cluster.c: a node under any sequence of packets and runs of the job: terms and votes.
use mathlib.Core.Option
use prez.Prelude.{
  ℕ, ◌+◌, ◌≡◌, inl, inr, refl, not, Option, none, some, ltb, ◌==◌, Bool-cases, eq_of_some,
}
use prez.Prelude.Int.{ℤ, pos, ◌-ℤ◌, ltb_ℤ, ◌==ℤ◌}
use prez.Log.{Os}
use prez.Cluster.Message.{
  ResponseAppendEntries, ClusterMsg, Body, vote_request, vote_request_resp, append_entries,
  append_entries_resp, other_type, expected_length,
}
use prez.Cluster.State.{ClusterState, ClusterNode, node_of_link, update_node}
use prez.Cluster.Handle.{
  cluster_process_response_append_entries, cluster_process_packet, dispatch, length_fits,
  acknowledged,
}
use prez.Cluster.Evolve.{
  Evolves, Evolves-refl, Evolves-trans, Evolves-of_same, step_down-Evolves, request_vote-Evolves,
  response_vote-Evolves, append_entries-Evolves,
}

pub map-eq-some {ℓ κ} :
    {A : Type ℓ} {B : Type κ} (f : A → B) (o : Option A) {b : B}
    → Option.map f o ≡ some b
    → (a : A) × (o ≡ some a) × (f a ≡ b)
map-eq-some f none h = cc
map-eq-some f (some a) h = (a, refl, eq_of_some h)

response_append_entries-Evolves :
    (link : ℕ) (m : ResponseAppendEntries) (s t : ClusterState)
    → cluster_process_response_append_entries link m s ≡ some t
    → Evolves s t
unfolding cluster_process_response_append_entries
response_append_entries-Evolves link m s t h = elim (Bool-cases (m.ok ==ℤ pos 0)) [
  | inl good ↦
      let (node, _, e) =
        map-eq-some
          (λ (node : ClusterNode). record s { nodes = update_node node.name acknowledged s.nodes })
          (node_of_link link s.nodes) (rw good at h) in
      rw (← e) (Evolves-of_same s _ refl refl refl)
  | inr bad ↦ elim (Bool-cases (ltb_ℤ s.current_term m.term)) [
    | inl newer ↦ rw (← eq_of_some (rw (bad, newer) at h)) (step_down-Evolves m.term s newer)
    | inr same ↦
        let (node, _, e) =
          map-eq-some
            (λ (node : ClusterNode). record s {
              nodes =
                  update_node node.name (λ n. record n { next_index = n.next_index -ℤ pos 1 })
                    s.nodes;
            })
            (node_of_link link s.nodes) (rw (bad, same) at h) in
        rw (← e) (Evolves-of_same s _ refl refl refl)
  ]
]

module _ (os : Os) where
  dispatch-Evolves :
      (link : ℕ) (b : Body) (now : ℤ) (s t : ClusterState)
      → dispatch os link b now s ≡ some t
      → Evolves s t
  unfolding dispatch
  dispatch-Evolves link (vote_request m) now s t h =
      rw (← eq_of_some h) (request_vote-Evolves link m now s)
  dispatch-Evolves link (append_entries m) now s t h = append_entries-Evolves os link m now s t h
  dispatch-Evolves link (vote_request_resp m) now s t h =
      rw (← eq_of_some h) (response_vote-Evolves m s)
  dispatch-Evolves link (append_entries_resp m) now s t h =
      response_append_entries-Evolves link m s t h
  dispatch-Evolves link (other_type n) now s t h = rw (← eq_of_some h) (Evolves-refl s)

  -- Over every packet, well-formed or not, the term does not fall, and while it stays the vote that
  -- was given in it stays.
  pub cluster_process_packet-Evolves :
      (link received : ℕ) (hdr : ClusterMsg) (now : ℤ) (s t : ClusterState)
      → cluster_process_packet os link received hdr now s ≡ some t
      → Evolves s t
  unfolding cluster_process_packet
  cluster_process_packet-Evolves link received hdr now s t h =
      let s1 : ClusterState = record s {
        stats_bus_messages_received = s.stats_bus_messages_received + 1;
      } in
      let counted : Evolves s s1 = Evolves-of_same s s1 refl refl refl in
      elim (Bool-cases (ltb hdr.totlen 16)) [
        | inl short ↦ rw (← eq_of_some (rw short at h)) counted
        | inr a ↦ elim (Bool-cases (not (hdr.ver == 0))) [
          | inl version ↦ rw (← eq_of_some (rw (a, version) at h)) counted
          | inr b ↦ elim (Bool-cases (ltb received hdr.totlen)) [
            | inl cut ↦ rw (← eq_of_some (rw (a, b, cut) at h)) counted
            | inr c ↦ elim (Bool-cases (length_fits (expected_length hdr.body) hdr.totlen)) [
              | inr misfit ↦ rw (← eq_of_some (rw (a, b, c, misfit) at h)) counted
              | inl fits ↦
                  Evolves-trans counted
                    (dispatch-Evolves link hdr.body now s1 t (rw (a, b, c, fits) at h))
            ]
          ]
        ]
      ]
