-- ===== src/Cluster/Evolve.antt =====
-- src/cluster.c: over every handler the term never falls, and within a term a vote is not changed.
use prez.Prelude.{
  ℕ, ◌≡◌, ◌≢◌, ◌⊎◌, ◌↔◌, inl, inr, refl, sym, ap, ◌∙◌, true, false, ◌&&◌, ◌||◌, not, [], ◌∷◌, some,
  ltb, ◌==◌, length, take, take_all, arith, Bool-cases, eq_of_some,
}
use prez.Prelude.Int.{ℤ, ◌≤ℤ◌, ltb_ℤ, ◌==ℤ◌, parts_of_eq, eq_of_parts}
use prez.Prelude.Text.{Bytes, bytes_eq, bytes_eq_refl, eq_of_bytes_eq}
use prez.Log.{
  Os, Status, ok, err, bind-eq-some, log_append_entries, log_verify_append, log_current_index,
  log_current_term,
}
use prez.Cluster.Message.{RequestVote, ResponseVote, AppendEntries, ClusterMsg}
use prez.Cluster.State.{ClusterState}
use prez.Cluster.Send.{
  cluster_send_message, cluster_send_response_vote, cluster_send_response_append_entries,
}
use prez.Cluster.Handle.{
  step_down, consider_vote, voted_for_other, cluster_process_request_vote,
  cluster_process_response_vote, log_commit_index, accept_leader, answer, store_entries, carried,
  cluster_process_append_entries,
}

-- voted_for was made by a function of sds.
abbrev pub IsSds : ClusterState → Type 0
IsSds s = s.voted_for_len ≡ length s.voted_for

-- The term does not fall, and while it stays a vote that was given in an sds string stays.
pub record Evolves (s t : ClusterState) : Type 0 where
  pub term_grows : s.current_term ≤ℤ t.current_term
  pub vote_kept :
      t.current_term ≡ s.current_term
      → s.voted_for ≢ []
      → IsSds s
      → (t.voted_for ≡ s.voted_for) × IsSds t

pub Evolves-refl : (s : ClusterState) → Evolves s s
Evolves-refl s = record { term_grows = omega arith; vote_kept = λ e h d. (refl, d) }

pub Evolves-trans : {s t u : ClusterState} → Evolves s t → Evolves t u → Evolves s u
Evolves-trans {s} {t} {u} a b = record {
  term_grows = omega (arith, a.term_grows, b.term_grows);
  vote_kept = λ e h d.
      let same : t.current_term ≡ s.current_term =
        eq_of_parts _ _ (omega (arith, a.term_grows, b.term_grows, parts_of_eq _ _ e)) in
      let (kept, made) = a.vote_kept same h d in
      let (later, made') = b.vote_kept (e ∙ sym same) (λ q. h (sym kept ∙ q)) made in
      (later ∙ kept, made');
}

-- The term and the vote are all that matters.
pub Evolves-of_same :
    (s t : ClusterState)
    → t.current_term ≡ s.current_term
    → t.voted_for ≡ s.voted_for
    → t.voted_for_len ≡ s.voted_for_len
    → Evolves s t
Evolves-of_same s t e v l = record {
  term_grows = omega (arith, parts_of_eq _ _ e);
  vote_kept = λ _ _ d. (v, l ∙ d ∙ ap length (sym v));
}

pub Evolves-of_newer :
    (s t : ClusterState) → ltb_ℤ s.current_term t.current_term ≡ true → Evolves s t
Evolves-of_newer s t h = record {
  term_grows = ground arith;
  vote_kept = λ e _ _. absurd (ground (arith, parts_of_eq _ _ e));
}

send-Evolves :
    (link : ℕ) (msg : ClusterMsg) (s : ClusterState) → Evolves s (cluster_send_message link msg s)
send-Evolves link msg s =
    Evolves-of_same s _ (unfold cluster_send_message in refl) (unfold cluster_send_message in refl)
      (unfold cluster_send_message in refl)

send_vote-Evolves :
    (link granted : ℕ) (s : ClusterState) → Evolves s (cluster_send_response_vote link granted s)
unfolding cluster_send_response_vote
send_vote-Evolves link granted s = send-Evolves link _ s

send_entries-Evolves :
    (link : ℕ) (st : Status) (s : ClusterState)
    → Evolves s (cluster_send_response_append_entries link st s)
unfolding cluster_send_response_append_entries
send_entries-Evolves link st s = send-Evolves link _ s

pub step_down-Evolves :
    (term : ℤ) (s : ClusterState) → ltb_ℤ s.current_term term ≡ true → Evolves s (step_down term s)
step_down-Evolves term s h = Evolves-of_newer s _ (unfold step_down in h)

-- The test of the code, when sdslen reads the length.
pub free_iff :
    (s : ClusterState) (c : Bytes)
    → IsSds s
    → (voted_for_other s c ≡ false) ↔ ((s.voted_for ≡ []) ⊎ (s.voted_for ≡ c))
unfolding voted_for_other
free_iff s c made = rw made (free s.voted_for c, passes s.voted_for c)
  where
    free :
        (v c : Bytes)
        → (ltb 0 (length v) && not (length v == length c && bytes_eq (take (length c) v) c)) ≡ false
        → (v ≡ []) ⊎ (v ≡ c)
    free [] c h = inl refl
    free (x ∷ v) c h =
        let long : length (x ∷ v) ≡ length c = ground (arith) in
        let same : bytes_eq (take (length c) (x ∷ v)) c ≡ true = ground (arith) in
        inr (
          sym (take_all (x ∷ v) (length c) (omega (arith, long)))
          ∙ eq_of_bytes_eq (take (length c) (x ∷ v)) c same)

    passes :
        (v c : Bytes)
        → (v ≡ []) ⊎ (v ≡ c)
        → (ltb 0 (length v) && not (length v == length c && bytes_eq (take (length c) v) c)) ≡ false
    passes v c (inl e) = rw e refl
    passes v c (inr e) =
        rw (e, take_all c (length c) (omega arith), bytes_eq_refl c) (ground (arith))

consider_vote-Evolves :
    (link : ℕ) (vote : RequestVote) (now : ℤ) (s : ClusterState)
    → voted_for_other s vote.candidateid ≡ false
    → Evolves s (consider_vote link vote now s)
unfolding consider_vote cluster_send_response_vote cluster_send_message
consider_vote-Evolves link vote now s h =
    elim (Bool-cases (
      ltb_ℤ vote.last_log_index (log_current_index s.log)
      || ltb_ℤ vote.last_log_term (log_current_term s.log))) [
        | inl behind ↦ rw behind (Evolves-of_same s _ refl refl refl)
        | inr level ↦ rw level (record {
          term_grows = omega arith;
          vote_kept = λ e n made. elim ((free_iff s vote.candidateid made).0 h) [
            | inl nobody ↦ absurd (n nobody)
            | inr candidate ↦ (sym candidate, refl)
          ];
        })
      ]

pub voted_for_nobody :
    (term : ℤ) (s : ClusterState) (c : Bytes) → voted_for_other (step_down term s) c ≡ false
unfolding voted_for_other step_down
voted_for_nobody term s c = refl

pub request_vote-Evolves :
    (link : ℕ) (vote : RequestVote) (now : ℤ) (s : ClusterState)
    → Evolves s (cluster_process_request_vote link vote now s)
unfolding cluster_process_request_vote
request_vote-Evolves link vote now s = elim (Bool-cases (ltb_ℤ vote.term s.current_term)) [
  | inl old ↦ rw old (send_vote-Evolves link 0 s)
  | inr fresh ↦ elim (Bool-cases (ltb_ℤ s.current_term vote.term)) [
    | inl newer ↦
        rw (fresh, newer)
          (Evolves-trans (step_down-Evolves vote.term s newer) (
            consider_vote-Evolves link vote now (step_down vote.term s)
              (voted_for_nobody vote.term s vote.candidateid)))
    | inr same ↦ elim (Bool-cases (voted_for_other s vote.candidateid)) [
      | inl taken ↦ rw (fresh, same, taken) (send_vote-Evolves link 0 s)
      | inr free ↦ rw (fresh, same, free) (consider_vote-Evolves link vote now s free)
    ]
  ]
]

pub response_vote-Evolves :
    (vote : ResponseVote) (s : ClusterState) → Evolves s (cluster_process_response_vote vote s)
unfolding cluster_process_response_vote
response_vote-Evolves vote s =
    elim (Bool-cases (not (vote.vote_granted == 0) && vote.term ==ℤ s.current_term)) [
      | inl counted ↦ rw counted (Evolves-of_same s _ refl refl refl)
      | inr other ↦ elim (Bool-cases (ltb_ℤ s.current_term vote.term)) [
        | inl newer ↦ rw (other, newer) (step_down-Evolves vote.term s newer)
        | inr denied ↦ rw (other, denied) (Evolves-refl s)
      ]
    ]

log_commit_index-Evolves : (i : ℤ) (s : ClusterState) → Evolves s (log_commit_index i s)
unfolding log_commit_index
log_commit_index-Evolves i s =
    Evolves-of_same s _ (unfold log_commit_index in ground arith)
      (unfold log_commit_index in ground arith) (unfold log_commit_index in ground arith)

accept_leader-Evolves :
    (m : AppendEntries) (now : ℤ) (s : ClusterState)
    → ltb_ℤ m.term s.current_term ≡ false
    → Evolves s (accept_leader m now s)
unfolding accept_leader
accept_leader-Evolves m now s h = elim (Bool-cases (m.term ==ℤ s.current_term)) [
  | inl same ↦ rw same (Evolves-of_same s _ refl refl refl)
  | inr newer ↦ rw newer (Evolves-of_newer s _ (ground arith))
]

module _ (os : Os) where
  answer-Evolves :
      (link : ℕ) (m : AppendEntries) (s : ClusterState) (st : Status)
      → Evolves s (answer os link m s st)
  unfolding answer
  answer-Evolves link m s err = send_entries-Evolves link err s
  answer-Evolves link m s ok =
      Evolves-trans (log_commit_index-Evolves m.leader_commit_index s)
        (send_entries-Evolves link ok _)

  store_entries-Evolves :
      (link : ℕ) (m : AppendEntries) (s t : ClusterState) (st : Status)
      → store_entries os link m s st ≡ some t
      → Evolves s t
  unfolding store_entries
  store_entries-Evolves link m s t err h = rw (← eq_of_some h) (send_entries-Evolves link err s)
  store_entries-Evolves link m s t ok h =
      let (es, _, h1) = bind-eq-some (carried m.log_entries_count m.log_entries) _ h in
      let (written, _, h2) = bind-eq-some (log_append_entries os s.log es) _ h1 in
      let s1 : ClusterState = record s { log = written.0 } in
      rw (← eq_of_some h2)
        (Evolves-trans (Evolves-of_same s s1 refl refl refl) (answer-Evolves link m s1 written.1))

  pub append_entries-Evolves :
      (link : ℕ) (m : AppendEntries) (now : ℤ) (s t : ClusterState)
      → cluster_process_append_entries os link m now s ≡ some t
      → Evolves s t
  unfolding cluster_process_append_entries
  append_entries-Evolves link m now s t h = elim (Bool-cases (ltb_ℤ m.term s.current_term)) [
    | inl old ↦ rw (← eq_of_some (rw old at h)) (send_entries-Evolves link err s)
    | inr fresh ↦
        let s1 = accept_leader m now s in
        let (verdict, _, h1) =
          bind-eq-some (log_verify_append s1.log m.prev_log_index m.prev_log_term)
            (store_entries os link m s1) (rw fresh at h) in
        Evolves-trans (accept_leader-Evolves m now s fresh)
          (store_entries-Evolves link m s1 t verdict h1)
  ]
