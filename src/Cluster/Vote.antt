-- ===== src/Cluster/Vote.antt =====
-- src/cluster.c: clusterProcessRequestVote: when a vote is given, and what is answered.
use mathlib.Core.Bool.{true≢false}
use prez.Prelude.{
  ℕ, ◌≡◌, ◌⊎◌, ◌↔◌, inl, inr, refl, sym, ap, ◌∙◌, true, false, ◌||◌, List, [], ◌∷◌, ◌++◌, arith,
  Bool-cases,
}
use prez.Prelude.Int.{ℤ, ltb_ℤ, ◌≤ℤ◌, eq_of_parts, parts_of_eq}
use prez.Prelude.Text.{Bytes}
use prez.Log.{log_current_index, log_current_term}
use prez.Cluster.Message.{RequestVote, Body, vote_request_resp}
use prez.Cluster.State.{ClusterState}
use prez.Cluster.Send.{cluster_send_message, cluster_send_response_vote, cluster_build_message_hdr}
use prez.Cluster.Evolve.{IsSds, free_iff, voted_for_nobody}
use prez.Cluster.Handle.{step_down, consider_vote, voted_for_other, cluster_process_request_vote}

-- A request that may be granted: the term is newer, or the node's own with the vote free for this
-- candidate, and neither the last index nor the last term of the candidate's log is behind.
pub record Deserves (Free : ClusterState → Bytes → Type 0) (vote : RequestVote) (s : ClusterState)
    : Type 0 where
  pub current : s.current_term ≤ℤ vote.term
  pub free : (ltb_ℤ s.current_term vote.term ≡ true) ⊎ Free s vote.candidateid
  pub long_enough : log_current_index s.log ≤ℤ vote.last_log_index
  pub new_enough : log_current_term s.log ≤ℤ vote.last_log_term

-- The node voted for nobody or for this candidate.
abbrev pub Unvoted : ClusterState → Bytes → Type 0
Unvoted s candidateid = (s.voted_for ≡ []) ⊎ (s.voted_for ≡ candidateid)

-- The code takes the vote for free.
abbrev pub Passes : ClusterState → Bytes → Type 0
Passes s candidateid = voted_for_other s candidateid ≡ false

-- A reply to a request for a vote, on the link that the request came from.
abbrev pub Replies : ℕ → ℤ → ℕ → ClusterState → ClusterState → Type 0
Replies link term granted s t =
    t.outbox
    ≡ s.outbox
      ++ (
        link,
        cluster_build_message_hdr s
            (vote_request_resp (record { term = term; vote_granted = granted })),
      )
        ∷ []

-- The vote is given.
pub record Granted (Free : ClusterState → Bytes → Type 0) (link : ℕ) (vote : RequestVote)
    (s t : ClusterState) : Type 0 where
  pub deserved : Deserves Free vote s
  pub reply : Replies link vote.term 1 s t
  pub voter : t.voted_for ≡ vote.candidateid
  pub voter_made : IsSds t
  pub voting_term : t.current_term ≡ vote.term

-- The vote is refused.
pub record Denied (Free : ClusterState → Bytes → Type 0) (link : ℕ) (vote : RequestVote)
    (s t : ClusterState) : Type 0 where
  pub undeserved : ¬ Deserves Free vote s
  pub reply : Replies link t.current_term 0 s t

module _ (Free : ClusterState → Bytes → Type 0) (link : ℕ) (vote : RequestVote) (now : ℤ)
    (s : ClusterState) where
  abbrev Answered : ClusterState → Type 0
  Answered t = Granted Free link vote s t ⊎ Denied Free link vote s t

  -- The half of the handler that looks at the logs, in the term of the request.
  considered :
      vote.term ≡ s.current_term
      → Free s vote.candidateid
      → Answered (consider_vote link vote now s)
  unfolding consider_vote cluster_send_response_vote cluster_send_message cluster_build_message_hdr
  considered e free =
      elim (Bool-cases (
        ltb_ℤ vote.last_log_index (log_current_index s.log)
        || ltb_ℤ vote.last_log_term (log_current_term s.log))) [
          | inl behind ↦ inr (
              rw behind (record {
                undeserved = λ d. ground (arith, d.long_enough, d.new_enough);
                reply = refl;
              }))
          | inr level ↦ inl (
              rw level (record {
                deserved = record {
                  current = omega (arith, parts_of_eq _ _ e);
                  free = inr free;
                  long_enough = ground arith;
                  new_enough = ground arith;
                };
                reply = rw e refl;
                voter = refl;
                voter_made = refl;
                voting_term = sym e;
              }))
        ]

  -- In a newer term the earlier vote does not count.
  Deserves-newer :
      ltb_ℤ s.current_term vote.term ≡ true
      → Free (step_down vote.term s) vote.candidateid
      → Deserves Free vote s
      → Deserves Free vote (step_down vote.term s)
  unfolding step_down
  Deserves-newer newer nobody d = record {
    current = omega arith;
    free = inr nobody;
    long_enough = d.long_enough;
    new_enough = d.new_enough;
  }

  deserved_before :
      ltb_ℤ s.current_term vote.term ≡ true
      → Deserves Free vote (step_down vote.term s)
      → Deserves Free vote s
  unfolding step_down
  deserved_before newer d = record {
    current = ground arith;
    free = inl newer;
    long_enough = d.long_enough;
    new_enough = d.new_enough;
  }

  same_term :
      ltb_ℤ vote.term s.current_term ≡ false
      → ltb_ℤ s.current_term vote.term ≡ false
      → vote.term ≡ s.current_term
  same_term a b = eq_of_parts _ _ (ground arith)

  voted_in_newer :
      (t : ClusterState)
      → ltb_ℤ s.current_term vote.term ≡ true
      → Free (step_down vote.term s) vote.candidateid
      → Granted Free link vote (step_down vote.term s) t
        ⊎ Denied Free link vote (step_down vote.term s) t
      → Answered t
  unfolding step_down cluster_build_message_hdr
  voted_in_newer t newer nobody (inl g) = inl (record {
    deserved = deserved_before newer g.deserved;
    reply = g.reply;
    voter = g.voter;
    voter_made = g.voter_made;
    voting_term = g.voting_term;
  })
  voted_in_newer t newer nobody (inr d) =
      inr
        (record { undeserved = λ a. d.undeserved (Deserves-newer newer nobody a); reply = d.reply })

-- The handler, for a vote that is free where the code takes it for free.
cluster_process_request_vote_lem :
    (Free : ClusterState → Bytes → Type 0) (link : ℕ) (vote : RequestVote) (now : ℤ)
    (s : ClusterState)
    → Free (step_down vote.term s) vote.candidateid
    → (vote.term ≡ s.current_term → Passes s vote.candidateid ↔ Free s vote.candidateid)
    → Answered Free link vote now s (cluster_process_request_vote link vote now s)
unfolding cluster_process_request_vote cluster_send_response_vote cluster_send_message
    cluster_build_message_hdr
cluster_process_request_vote_lem Free link vote now s nobody test =
    elim (Bool-cases (ltb_ℤ vote.term s.current_term)) [
      | inl old ↦
          inr (rw old (record { undeserved = λ d. ground (arith, d.current); reply = refl }))
      | inr fresh ↦ elim (Bool-cases (ltb_ℤ s.current_term vote.term)) [
        | inl newer ↦
            rw (fresh, newer)
              (voted_in_newer Free link vote now s _ newer nobody (
                considered Free link vote now (step_down vote.term s) (unfold step_down in refl)
                  nobody))
        | inr same ↦
            let e = same_term Free link vote now s fresh same in
            elim (Bool-cases (voted_for_other s vote.candidateid)) [
              | inl other ↦ inr (
                  rw (fresh, same, other)
                    (record {
                      undeserved = λ d. elim d.free [
                        | inl newer ↦ absurd (true≢false (sym newer ∙ same))
                        | inr free ↦ absurd (true≢false (sym other ∙ (test e).1 free))
                      ];
                      reply = refl;
                    }))
              | inr passes ↦
                  rw (fresh, same, passes) (considered Free link vote now s e ((test e).0 passes))
            ]
      ]
    ]

-- A request for a vote is answered by one message on its link. Let, where the request is in the
-- node's own term, voted_for have been made by a function of sds, which is so unless the node has
-- voted for itself in that term. Then either the request deserves the vote, the answer grants
-- it, and term and vote are recorded, or it does not, and the answer denies it in the term that the
-- node is then in.
pub cluster_process_request_vote-Deserves :
    (link : ℕ) (vote : RequestVote) (now : ℤ) (s : ClusterState)
    → (vote.term ≡ s.current_term → IsSds s)
    → Granted Unvoted link vote s (cluster_process_request_vote link vote now s)
      ⊎ Denied Unvoted link vote s (cluster_process_request_vote link vote now s)
cluster_process_request_vote-Deserves link vote now s made =
    cluster_process_request_vote_lem Unvoted link vote now s (inl (unfold step_down in refl))
      (λ e. free_iff s vote.candidateid (made e))

last_of_two {ℓ} : {A : Type ℓ} (xs : List A) (y z : A) → xs ++ y ∷ [] ≡ xs ++ z ∷ [] → y ≡ z
last_of_two [] y z e = cc
last_of_two (x ∷ xs) y z e = last_of_two xs y z (cc)

-- The answer of a message that is one.
granted_of : Body → ℕ
granted_of (vote_request_resp m) = m.vote_granted
granted_of b = 0

-- A reply that grants the vote was given to a request that passed the tests.
pub Granted-of_reply :
    (link : ℕ) (vote : RequestVote) (now term : ℤ) (s : ClusterState)
    → Replies link term 1 s (cluster_process_request_vote link vote now s)
    → Granted Passes link vote s (cluster_process_request_vote link vote now s)
unfolding granted_of
Granted-of_reply link vote now term s h =
    elim (cluster_process_request_vote_lem Passes link vote now s
      (voted_for_nobody vote.term s vote.candidateid) (λ _. (λ p. p, λ p. p))) [
        | inl g ↦ g
        | inr d ↦
            let e = last_of_two s.outbox _ _ (sym h ∙ d.reply) in
            let bit = ap (λ x. granted_of (x.1).body) e in
            absurd (unfold cluster_build_message_hdr in omega (arith, bit))
      ]
