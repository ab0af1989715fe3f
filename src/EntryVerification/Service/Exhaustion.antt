-- ===== src/EntryVerification/Service/Exhaustion.antt =====
-- What has been checked when the queue of candidates runs empty in
-- backend/app/ingestion/entry_verification/service.py.
use text.Mathlib.TextEquality.{eq_iff}
use text.Mathlib.Text.{◌==◌ as str_eq}
use job_search.Base.{
  ℕ, zero, suc, ◌+◌, String, ◌≡◌, refl, sym, ap, ◌∙◌, inl, inr, Bool, true, false, ◌||◌, some, List,
  [], ◌∷◌, map, sum, length, All, arith, leb, Bool-cases,
}
use job_search.EntryVerification.Contracts.{
  is_verified, member, EntryVerificationBudget, EntryVerificationResult,
}
use job_search.EntryVerification.Service.{
  EntryCandidateInput, Visit, Progress, initial, stopped, drained, entered, start_requests,
  concluded, check_candidate, drain,
}
use job_search.EntryVerification.Service.Limits.{Drained-cases, AllDistinct}
use job_search.EntryVerification.Service.Outcomes.{IsIn}

start_requests-all :
    (limit n requests : ℕ)
    → (start_requests limit n requests).1 ≡ false
    → (start_requests limit n requests).0 ≡ requests + n
unfolding start_requests
start_requests-all limit zero requests h = ground arith
start_requests-all limit (suc n) requests h =
    ground (arith, h, start_requests-all limit n (suc requests))

All-map {ℓ κ μ} :
    {A : Type ℓ} {P : A → Type κ} {Q : A → Type μ} (xs : List A)
    → ((x : A) → P x → Q x)
    → All P xs
    → All Q xs
All-map [] f h = tt
All-map (x ∷ xs) f h = (f x h.0, All-map xs f h.1)

module _ (normalize : String → String) (verify : EntryCandidateInput → Visit)
    (budget : EntryVerificationBudget) where
  abbrev pub key : EntryCandidateInput → String
  key c = normalize c.url

  -- How the body of the loop goes on: it has skipped the candidate, or the validator has refused it.
  data Checked (c : EntryCandidateInput) (p q : Progress) : Type 0 where
    skipped : member (key c) p.seen ≡ true → q ≡ p → Checked c p q
    called :
        member (key c) p.seen ≡ false
        → is_verified (verify c).answer.status ≡ false
        → q.seen ≡ key c ∷ p.seen
        → q.checked ≡ suc p.checked
        → q.requests ≡ p.requests + (verify c).starts
        → Checked c p q

  concluded-called :
      (c : EntryCandidateInput) (p : Progress) (a : EntryVerificationResult) (o : ℕ × Bool)
      (q : Progress)
      → concluded normalize verify budget c p a o ≡ drained q
      → (o.1 ≡ false)
        × (is_verified a.status ≡ false)
        × (q.seen ≡ p.seen)
        × (q.checked ≡ p.checked)
        × (q.requests ≡ o.0)
  unfolding concluded
  concluded-called c p a (n, true) q h = cc
  concluded-called c p a (n, false) q h = elim (Bool-cases (is_verified a.status)) [
    | inl e ↦ let stops : stopped (record a { http_requests = n }) _ ≡ drained q = rw e at h in cc
    | inr e ↦
        let goes_on : drained
              (record p { requests = n; last_result = some (record a { http_requests = n }) })
            ≡ drained q =
          rw e at h in
        let same : record p { requests = n; last_result = some (record a { http_requests = n }) }
            ≡ q =
          cc in
        (
          refl,
          e,
          sym (ap (λ (x : Progress). x.seen) same),
          sym (ap (λ (x : Progress). x.checked) same),
          sym (ap (λ (x : Progress). x.requests) same),
        )
  ]

  check_candidate-Checked :
      (c : EntryCandidateInput) (p q : Progress)
      → check_candidate normalize verify budget c p ≡ drained q
      → Checked c p q
  unfolding check_candidate
  check_candidate-Checked c p q h = elim (Bool-cases (member (key c) p.seen)) [
    | inl e ↦ let same : drained p ≡ drained q = rw e at h in skipped e cc
    | inr e ↦ elim (Bool-cases (leb budget.max_candidates p.checked)) [
      | inl f ↦ let stops : stopped _ p ≡ drained q = rw (e, f) at h in cc
      | inr f ↦
          let o = start_requests budget.max_http_requests (verify c).starts p.requests in
          let goes_on : concluded normalize verify budget c (entered normalize verify budget c p)
                (verify c).answer o
              ≡ drained q =
            rw (e, f) at h in
          let (d, v, s, k, r) =
            concluded-called c (entered normalize verify budget c p) (verify c).answer o q
              goes_on in
          called e v s k
            (r ∙ start_requests-all budget.max_http_requests (verify c).starts p.requests d)
    ]
  ]

  -- Candidates whose keys are new, distinct, and make up those of the list, that the validator was
  -- called on and has refused. The counters have grown by their number and their requests.
  record Visited (cs : List EntryCandidateInput) (p q : Progress) : Type 0 where
    visited : List EntryCandidateInput
    given : All (λ v. IsIn v cs) visited
    fresh : All (λ v. member (key v) p.seen ≡ false) visited
    distinct : AllDistinct (map key visited)
    refused : All (λ v. is_verified (verify v).answer.status ≡ false) visited
    covers : All (λ a. member (key a) p.seen || member (key a) (map key visited) ≡ true) cs
    checked : q.checked ≡ p.checked + length visited
    requests : q.requests ≡ p.requests + sum (map (λ v. (verify v).starts) visited)

  str_eq_refl : (k : String) → str_eq k k ≡ true
  str_eq_refl k = (eq_iff k k).1 refl

  member-none :
      (k : String) (ks : List String) (vs : List EntryCandidateInput)
      → All (λ v. member (key v) (k ∷ ks) ≡ false) vs
      → member k (map key vs) ≡ false
  unfolding member
  member-none k ks [] h = refl
  member-none k ks (v ∷ vs) h = elim (Bool-cases (str_eq k (key v))) [
    | inl e ↦ absurd (ground (arith, h.0, (eq_iff (key v) k).1 (sym ((eq_iff k (key v)).0 e))))
    | inr e ↦ ground (arith, e, member-none k ks vs h.1)
  ]

  skip-Visited :
      (c : EntryCandidateInput) (cs : List EntryCandidateInput) (p q : Progress)
      → member (key c) p.seen ≡ true
      → Visited cs p q
      → Visited (c ∷ cs) p q
  skip-Visited c cs p q e rest = record {
    visited = rest.visited;
    given = All-map rest.visited (λ v i. inr i) rest.given;
    fresh = rest.fresh;
    distinct = rest.distinct;
    refused = rest.refused;
    covers = (rw e refl, rest.covers);
    checked = rest.checked;
    requests = rest.requests;
  }

  not_in_tail : (k j : String) (ks : List String) → member k (j ∷ ks) ≡ false → member k ks ≡ false
  unfolding member
  not_in_tail k j ks h = ground (arith, h)

  moved :
      (k j : String) (ks vs : List String)
      → member k (j ∷ ks) || member k vs ≡ true
      → member k ks || member k (j ∷ vs) ≡ true
  unfolding member
  moved k j ks vs h = ground (arith, h)

  covers_itself : (k : String) (ks vs : List String) → member k ks || member k (k ∷ vs) ≡ true
  unfolding member
  covers_itself k ks vs = ground (arith, str_eq_refl k)

  call-Visited :
      (c : EntryCandidateInput) (cs : List EntryCandidateInput) (p s q : Progress)
      → member (key c) p.seen ≡ false
      → is_verified (verify c).answer.status ≡ false
      → s.seen ≡ key c ∷ p.seen
      → s.checked ≡ suc p.checked
      → s.requests ≡ p.requests + (verify c).starts
      → Visited cs s q
      → Visited (c ∷ cs) p q
  call-Visited c cs p s q new refused seen checked requests rest =
      let fresh : All (λ v. member (key v) (key c ∷ p.seen) ≡ false) rest.visited =
        rw seen at rest.fresh in
      let covers : All
          (λ a. member (key a) (key c ∷ p.seen) || member (key a) (map key rest.visited) ≡ true)
          cs =
        rw seen at rest.covers in
      record {
        visited = c ∷ rest.visited;
        given = (inl refl, All-map rest.visited (λ v i. inr i) rest.given);
        fresh = (new, All-map rest.visited (λ v h. not_in_tail (key v) (key c) p.seen h) fresh);
        distinct = (member-none (key c) p.seen rest.visited fresh, rest.distinct);
        refused = (refused, rest.refused);
        covers = (
          covers_itself (key c) p.seen (map key rest.visited),
          All-map cs (λ a h. moved (key a) (key c) p.seen (map key rest.visited) h) covers,
        );
        checked = ground (arith, rest.checked, checked);
        requests = ground (arith, rest.requests, requests);
      }

  drain-Visited :
      (cs : List EntryCandidateInput) (p q : Progress)
      → drain normalize verify budget cs p ≡ drained q
      → Visited cs p q
  unfolding drain
  drain-Visited [] p q h =
      let same : p ≡ q = cc in
      record {
        visited = [];
        given = tt;
        fresh = tt;
        distinct = tt;
        refused = tt;
        covers = tt;
        checked = rw (← same) (ground arith);
        requests = rw (← same) (ground arith);
      }
  drain-Visited (c ∷ cs) p q h =
      elim (Drained-cases (check_candidate normalize verify budget c p)) [
        | inl (r, s, e) ↦ let stops : stopped r s ≡ drained q = rw (e, drain) at h in cc
        | inr (s, e) ↦
            let later : drain normalize verify budget cs s ≡ drained q = rw (e, drain) at h in
            let rest = drain-Visited cs s q later in
            elim (check_candidate-Checked c p s e) [
              | skipped k same ↦ skip-Visited c cs p q k (rw same at rest)
              | called new refused seen checked requests ↦
                  call-Visited c cs p s q new refused seen checked requests rest
            ]
      ]

  -- The candidates that the validator was called on, one for each key of the list, and what they cost.
  pub record Exhausts (cs : List EntryCandidateInput) (q : Progress) : Type 0 where
    pub visited : List EntryCandidateInput
    pub given : All (λ v. IsIn v cs) visited
    pub distinct : AllDistinct (map key visited)
    pub covers : All (λ a. member (key a) (map key visited) ≡ true) cs
    pub refused : All (λ v. is_verified (verify v).answer.status ≡ false) visited
    pub checked : q.checked ≡ length visited
    pub requests : q.requests ≡ sum (map (λ v. (verify v).starts) visited)

  -- If the first queue of candidates runs empty, then some of them have distinct keys, among which is the
  -- key of every candidate, and the validator verifies none of these. As many candidates were counted as
  -- checked as there are of these, and as many requests as the validator starts on them.
  pub drain-Exhausts :
      (cs : List EntryCandidateInput) (q : Progress)
      → drain normalize verify budget cs initial ≡ drained q
      → Exhausts cs q
  unfolding member
  drain-Exhausts cs q h =
      let all = drain-Visited cs initial q h in
      record {
        visited = all.visited;
        given = all.given;
        distinct = all.distinct;
        covers = All-map cs (λ a k. k) all.covers;
        refused = all.refused;
        checked = ground (arith, all.checked);
        requests = ground (arith, all.requests);
      }
