-- ===== src/Cluster/Elections.antt =====
-- src/cluster.c: a node under any sequence of packets and runs of the job: whom it votes for.
use prez.Prelude.{ℕ, ◌≡◌, ◌≢◌, inl, inr, sym, ◌∙◌, List, [], ◌∷◌, Option, some, arith, eq_of_some}
use prez.Prelude.Int.{ℤ, ◌≤ℤ◌, eq_of_parts, parts_of_eq}
use prez.Log.{Os, ◌>>=◌, bind-eq-some}
use prez.Cluster.Message.{ClusterMsg, RequestVote}
use prez.Cluster.State.{ClusterState}
use prez.Cluster.Handle.{cluster_process_request_vote, cluster_process_packet}
use prez.Cluster.Cron.{Env, cluster_cron}
use prez.Cluster.Evolve.{Evolves, Evolves-refl, Evolves-trans, free_iff}
use prez.Cluster.Packets.{cluster_process_packet-Evolves}
use prez.Cluster.Vote.{Replies, Granted-of_reply}
use prez.Cluster.Job.{cluster_cron-Evolves}

-- What happens to a node: a packet is read from a link, or the job runs.
pub data Event : Type 0 where
  packet : ℕ → ℕ → ClusterMsg → ℤ → Event
  cron : Env → Event

unfoldable pub step : Os → Event → ClusterState → Option ClusterState
step os (packet link received hdr now) s = cluster_process_packet os link received hdr now s
step os (cron env) s = cluster_cron env s

-- The events one after the other; `none` is a node that died.
unfoldable pub run : Os → List Event → ClusterState → Option ClusterState
unfolding step
run os [] s = some s
run os (event ∷ events) s = do s' ← step os event s; run os events s'

step-Evolves :
    (os : Os) (event : Event) (s t : ClusterState) → step os event s ≡ some t → Evolves s t
unfolding step
step-Evolves os (packet link received hdr now) s t h =
    cluster_process_packet-Evolves os link received hdr now s t h
step-Evolves os (cron env) s t h = cluster_cron-Evolves env s t h

pub run-Evolves :
    (os : Os) (events : List Event) (s t : ClusterState) → run os events s ≡ some t → Evolves s t
unfolding run
run-Evolves os [] s t h = rw (← eq_of_some h) (Evolves-refl s)
run-Evolves os (event ∷ events) s t h =
    let (u, first, others) = bind-eq-some (step os event s) (run os events) h in
    Evolves-trans (step-Evolves os event s u first) (run-Evolves os events u t others)

-- A node that granted its vote to a candidate with a name, and later, after any packets and runs of
-- the job, grants a vote in the same term, grants it to the same candidate.
pub one_vote_per_term :
    (os : Os) (events : List Event) (link link' : ℕ) (a b : RequestVote) (now now' : ℤ)
    (s u : ClusterState)
    → Replies link a.term 1 s (cluster_process_request_vote link a now s)
    → run os events (cluster_process_request_vote link a now s) ≡ some u
    → Replies link' b.term 1 u (cluster_process_request_vote link' b now' u)
    → a.term ≡ b.term
    → a.candidateid ≢ []
    → b.candidateid ≡ a.candidateid
one_vote_per_term os events link link' a b now now' s u first between second same named =
    let t = cluster_process_request_vote link a now s in
    let g = Granted-of_reply link a now a.term s first in
    let g' = Granted-of_reply link' b now' b.term u second in
    let k = run-Evolves os events t u between in
    let stays : u.current_term ≡ t.current_term = eq_of_parts _ _ (
      omega (
        arith,
        k.term_grows,
        g'.deserved.current,
        parts_of_eq _ _ g.voting_term,
        parts_of_eq _ _ same,
      )) in
    let (still, made) = k.vote_kept stays (λ e. named (sym g.voter ∙ e)) g.voter_made in
    let kept = still ∙ g.voter in
    elim g'.deserved.free [
      | inl newer ↦
          absurd (ground (arith, parts_of_eq _ _ (sym same ∙ sym g.voting_term ∙ sym stays)))
      | inr passes ↦ elim ((free_iff u b.candidateid made).0 passes) [
        | inl nobody ↦ absurd (named (sym kept ∙ nobody))
        | inr candidate ↦ sym candidate ∙ kept
      ]
    ]

-- Whatever packets a node reads and however often its job runs, its term does not fall.
pub run-term_grows :
    (os : Os) (events : List Event) (s t : ClusterState)
    → run os events s ≡ some t
    → s.current_term ≤ℤ t.current_term
run-term_grows os events s t h = (run-Evolves os events s t h).term_grows
