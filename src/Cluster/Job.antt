-- ===== src/Cluster/Job.antt =====
-- src/cluster.c: clusterCron keeps the promise of terms and votes that the handlers keep.
use prez.Prelude.{
  ℕ, ◌≡◌, inl, inr, refl, ◌&&◌, not, some, leb, arith, Bool-cases, eq_of_some, get_elem?, List,
}
use prez.Prelude.Int.{ℤ, pos, ◌+ℤ◌, ◌-ℤ◌, ltb_ℤ, ◌==ℤ◌, +ℤ_parts}
use prez.Log.{bind-eq-some, log_get_term}
use prez.Cluster.State.{ClusterState, quorum_size}
use prez.Cluster.Send.{cluster_broadcast_message, cluster_send_request_vote}
use prez.Cluster.Commit.{cluster_update_commit_index, raise_commit, log_indices}
use prez.Cluster.Cron.{
  Env, reconnect, apply_committed, random_delay, start_election, check_election, become_leader,
  check_votes, lead, lead_round, send_heartbeats, cluster_cron, is_leading, is_candidate,
}
use prez.Cluster.Evolve.{Evolves, Evolves-refl, Evolves-trans, Evolves-of_same, Evolves-of_newer}
use prez.Cluster.CronEvolve.{
  SameVote, SameVote-refl, SameVote-trans, apply_rounds-SameVote, broadcast-SameVote,
  send_heartbeats-SameVote,
}

Evolves-of : {s t : ClusterState} → SameVote s t → Evolves s t
Evolves-of {s} {t} k = Evolves-of_same s t k.same_term k.same_vote k.same_len

raise_commit-SameVote :
    (qsort : (ℤ → ℤ → ℤ) → List ℤ → List ℤ) (s : ClusterState) (i : ℤ)
    → SameVote s (raise_commit qsort s i)
unfolding raise_commit
raise_commit-SameVote qsort s i =
    elim (Bool-cases (ltb_ℤ s.commit_index i && s.current_term ==ℤ log_get_term s.log i)) [
      | inl raised ↦ rw raised (record { same_term = refl; same_vote = refl; same_len = refl })
      | inr kept ↦ rw kept (SameVote-refl s)
    ]

lead-SameVote : (env : Env) (s t : ClusterState) → lead env s ≡ some t → SameVote s t
unfolding lead lead_round cluster_update_commit_index
lead-SameVote env s t h = elim (Bool-cases (is_leading s.state)) [
  | inr follows ↦ rw (← eq_of_some (rw follows at h)) (SameVote-refl s)
  | inl leads ↦
      let (u, first, others) =
        bind-eq-some (cluster_update_commit_index env.qsort s) (λ u. send_heartbeats env u.nodes u)
          (rw leads at h) in
      let (i, _, e) =
        bind-eq-some (get_elem? (log_indices env.qsort s) _)
          (λ i. some (raise_commit env.qsort s i)) first in
      SameVote-trans (rw (← eq_of_some e) (raise_commit-SameVote env.qsort s i))
        (send_heartbeats-SameVote env u.nodes u t others)
]

check_votes-SameVote : (s : ClusterState) → SameVote s (check_votes s)
unfolding check_votes become_leader
check_votes-SameVote s =
    elim (Bool-cases (is_candidate s.state && leb (quorum_size s) s.votes_granted)) [
      | inl won ↦ rw won (record { same_term = refl; same_vote = refl; same_len = refl })
      | inr waits ↦ rw waits (SameVote-refl s)
    ]

start_election-term :
    (now : ℤ) (len : ℕ) (s : ClusterState)
    → (start_election now len s).current_term ≡ s.current_term +ℤ pos 1
unfolding start_election cluster_send_request_vote cluster_broadcast_message
start_election-term now len s = (broadcast-SameVote s.nodes _ _).same_term

check_election-Evolves :
    (env : Env) (timeout : ℤ) (s : ClusterState) → Evolves s (check_election env timeout s)
unfolding check_election
check_election-Evolves env timeout s =
    elim (Bool-cases
      (not (is_leading s.state) && ltb_ℤ timeout (env.now -ℤ s.last_activity_time))) [
        | inl due ↦ rw due (
            Evolves-of_newer s _ (
              rw (start_election-term env.election_now env.own_vote_len s)
                (ground (arith, +ℤ_parts s.current_term (pos 1)))))
        | inr early ↦ rw early (Evolves-refl s)
      ]

-- Over a run of the job, whatever the clock, the random number and the connections are, the term
-- does not fall, and while it stays the vote that was given in it stays.
pub cluster_cron-Evolves :
    (env : Env) (s t : ClusterState) → cluster_cron env s ≡ some t → Evolves s t
unfolding cluster_cron apply_committed reconnect
cluster_cron-Evolves env s t h =
    let (applied, e1, h1) = bind-eq-some (apply_committed (reconnect env s)) _ h in
    let (delay, _, h2) = bind-eq-some (random_delay env.random applied.election_timeout) _ h1 in
    let timeout = applied.election_timeout +ℤ delay in
    let elected = check_election env timeout applied in
    let reconnected : SameVote s (reconnect env s) = record {
      same_term = refl;
      same_vote = refl;
      same_len = refl;
    } in
    Evolves-trans (Evolves-of (SameVote-trans reconnected (apply_rounds-SameVote _ _ applied e1))) (
      Evolves-trans (check_election-Evolves env timeout applied) (
        Evolves-of (
          SameVote-trans (check_votes-SameVote elected)
            (lead-SameVote env (check_votes elected) t h2))))
