-- ===== src/CompanyIdentity/Resolver/Decisions.antt =====
-- When the resolver links a company, when it creates one, and when it asks for a review.
use job_search.Base.{
  ℕ, suc, String, ◌≡◌, refl, ◌≢◌, ◌↔◌, inl, inr, Bool, true, false, Option, none, some, List, [],
  ◌∷◌, arith, ◌==◌, ==_iff, All, all_of, take, Bool-cases, returned,
}
use job_search.CompanyIdentity.Contracts.{
  existing, new, IdentityReviewReason, CompanyIdentityInput, CompanyIdentityCandidateMatch,
  CompanyIdentityResolution, validate_as, validate_kind,
}
use job_search.CompanyIdentity.Resolver.{
  CompanyIdentityRepository, max_candidates, sole_owner, conflicts_with, projections, conflicts_of,
  evidence_conflict_reasons, insert_candidate, sort_candidates, by_similarity, by_owners, names_of,
  owners_of, resolve,
}

-- Whoever the repository names by this evidence is the sole exact owner.
abbrev pub Agrees : Option ℕ → List ℕ → Type 0
Agrees sole owners = All (λ k. sole ≡ some k) owners

all_of_eq_iff : (k : ℕ) (os : List ℕ) → (all_of (λ x. x == k) os ≡ true) ↔ Agrees (some k) os
all_of_eq_iff k [] = ((λ h. tt), (λ h. refl))
all_of_eq_iff k (o ∷ os) =
    let rest = all_of_eq_iff k os in
    (
      (λ h. (ground (arith, h, ==_iff o k), rest.0 (ground (arith, h)))),
      (λ h. ground (arith, h.0, rest.1 h.1, ==_iff o k)),
    )

conflicts_with_iff :
    (sole : Option ℕ) (os : List ℕ) → (conflicts_with sole os ≡ false) ↔ Agrees sole os
unfolding conflicts_with
conflicts_with_iff none [] = ((λ h. tt), (λ h. refl))
conflicts_with_iff (some k) [] = ((λ h. tt), (λ h. refl))
conflicts_with_iff none (o ∷ os) =
    ((λ h. absurd (ground (arith, h))), (λ h. absurd (ground (arith, h.0))))
conflicts_with_iff (some k) (o ∷ os) =
    let all = all_of_eq_iff k (o ∷ os) in
    ((λ h. all.0 (ground (arith, h))), (λ h. ground (arith, all.1 h)))

module _ (repository : CompanyIdentityRepository) where
  -- No evidence of the identity points at anyone but the sole exact owner.
  abbrev pub NoConflict : Option ℕ → List (CompanyIdentityInput × IdentityReviewReason) → Type 0
  NoConflict sole ps = All (λ p. Agrees sole (repository.find_evidence_owner_ids p.0)) ps

  conflicts_of_iff :
      (sole : Option ℕ) (ps : List (CompanyIdentityInput × IdentityReviewReason))
      → (conflicts_of repository sole ps ≡ []) ↔ NoConflict sole ps
  unfolding conflicts_of
  conflicts_of_iff sole [] = ((λ h. tt), (λ h. refl))
  conflicts_of_iff sole ((p, reason) ∷ ps) =
      let here = conflicts_with_iff sole (repository.find_evidence_owner_ids p) in
      let rest = conflicts_of_iff sole ps in
      (
        (λ h. (here.0 (ground (arith, h)), rest.0 (ground (arith, h)))),
        (λ h. ground (arith, here.1 h.0, rest.1 h.1)),
      )

module _ (str_lt : String → String → Bool) (str_len : String → ℕ)
    (stable_hash : CompanyIdentityInput → String) where
  insert-not_empty :
      (n : ℕ) (c : CompanyIdentityCandidateMatch) (ds : List CompanyIdentityCandidateMatch)
      → take (suc n) (insert_candidate str_lt str_len stable_hash c ds) ≢ []
  unfolding insert_candidate
  insert-not_empty n c [] h = ground (arith, h)
  insert-not_empty n c (d ∷ ds) h = ground (arith, h)

  sort_empty_iff :
      (n : ℕ) (cs : List CompanyIdentityCandidateMatch)
      → (take (suc n) (sort_candidates str_lt str_len stable_hash cs) ≡ []) ↔ (cs ≡ [])
  unfolding sort_candidates
  sort_empty_iff n [] = ((λ h. refl), (λ h. refl))
  sort_empty_iff n (c ∷ cs) = (
    (λ h. absurd (insert-not_empty n c (sort_candidates str_lt str_len stable_hash cs) h)),
    (λ h. absurd (ground (arith, h))),
  )

  -- The resolution links the input to this company.
  abbrev pub LinksTo : CompanyIdentityResolution → ℕ → Type 0
  LinksTo r k = (r.kind ≡ existing) × (r.company_id ≡ some k)

  by_similarity_links :
      (hash : String) (names : List String) (reasons : List IdentityReviewReason)
      (cs : List CompanyIdentityCandidateMatch)
      → (by_similarity str_lt str_len stable_hash hash names reasons cs).kind ≢ existing
  unfolding by_similarity
  by_similarity_links hash names [] [] h = ground (arith, h)
  by_similarity_links hash names (r ∷ rs) [] h = ground (arith, h)
  by_similarity_links hash names reasons (c ∷ cs) h = ground (arith, h)

  by_similarity_new :
      (hash : String) (names : List String) (reasons : List IdentityReviewReason)
      (cs : List CompanyIdentityCandidateMatch)
      → ((by_similarity str_lt str_len stable_hash hash names reasons cs).kind ≡ new)
        ↔ ((reasons ≡ []) × (cs ≡ []))
  unfolding by_similarity
  by_similarity_new hash names [] [] = ((λ h. (refl, refl)), (λ h. refl))
  by_similarity_new hash names (r ∷ rs) [] = ((λ h. ground (arith, h)), (λ h. ground (arith, h.0)))
  by_similarity_new hash names reasons (c ∷ cs) =
      ((λ h. ground (arith, h)), (λ h. ground (arith, h.1)))

  module _ (repository : CompanyIdentityRepository) (hash : String) (names : List String) where
    by_owners_links :
        (reasons : List IdentityReviewReason) (owners : List ℕ) (k : ℕ)
        → LinksTo (by_owners str_lt str_len stable_hash repository hash names reasons owners) k
          ↔ ((owners ≡ k ∷ []) × (reasons ≡ []))
    unfolding by_owners
    by_owners_links reasons (a ∷ b ∷ rest) k =
        ((λ h. ground (arith, h.0)), (λ h. ground (arith, h.0)))
    by_owners_links [] (a ∷ []) k = ((λ h. (cc h.1, refl)), (λ h. (refl, cc h.0)))
    by_owners_links (r ∷ rs) (a ∷ []) k = ((λ h. ground (arith, h.0)), (λ h. ground (arith, h.1)))
    by_owners_links reasons [] k = elim (Bool-cases repository.similarity_search_available) [
      | inl e ↦ rw e (
        (λ h. absurd (
            by_similarity_links hash names reasons
              (take max_candidates (
                sort_candidates str_lt str_len stable_hash
                  (repository.find_similar_names names max_candidates)))
              h.0)),
        (λ h. ground (arith, h.0)),
      )
      | inr e ↦ rw e ((λ h. ground (arith, h.0)), (λ h. ground (arith, h.0)))
    ]

    by_owners_new :
        (reasons : List IdentityReviewReason) (owners : List ℕ)
        → ((by_owners str_lt str_len stable_hash repository hash names reasons owners).kind ≡ new)
          ↔ ((owners ≡ [])
              × (reasons ≡ [])
              × (repository.similarity_search_available ≡ true)
              × (repository.find_similar_names names max_candidates ≡ []))
    unfolding by_owners
    by_owners_new reasons (a ∷ b ∷ rest) = ((λ h. ground (arith, h)), (λ h. ground (arith, h.0)))
    by_owners_new [] (a ∷ []) = ((λ h. ground (arith, h)), (λ h. ground (arith, h.0)))
    by_owners_new (r ∷ rs) (a ∷ []) = ((λ h. ground (arith, h)), (λ h. ground (arith, h.1)))
    by_owners_new reasons [] =
        let sorted = sort_empty_iff 19 (repository.find_similar_names names max_candidates) in
        let none_left = by_similarity_new hash names reasons (
          take max_candidates (
            sort_candidates str_lt str_len stable_hash
              (repository.find_similar_names names max_candidates))) in
        elim (Bool-cases repository.similarity_search_available) [
          | inl e ↦ rw e (
            (λ h. (refl, (none_left.0 h).0, refl, sorted.0 (none_left.0 h).1)),
            (λ h. none_left.1 (h.1, sorted.1 h.3)),
          )
          | inr e ↦ rw e ((λ h. ground (arith, h)), (λ h. ground (arith, h.2)))
        ]

    by_similarity_valid :
        (reasons : List IdentityReviewReason) (cs : List CompanyIdentityCandidateMatch)
        → let r = by_similarity str_lt str_len stable_hash hash names reasons cs in
          validate_as r.kind r ≡ returned r
    unfolding by_similarity validate_as
    by_similarity_valid [] [] = refl
    by_similarity_valid (r ∷ rs) [] = refl
    by_similarity_valid reasons (c ∷ cs) = ground arith

    by_owners_valid :
        (reasons : List IdentityReviewReason) (owners : List ℕ)
        → let r = by_owners str_lt str_len stable_hash repository hash names reasons owners in
          validate_as r.kind r ≡ returned r
    unfolding by_owners validate_as
    by_owners_valid reasons (a ∷ b ∷ rest) = refl
    by_owners_valid [] (a ∷ []) = refl
    by_owners_valid (r ∷ rs) (a ∷ []) = refl
    by_owners_valid reasons [] = elim (Bool-cases repository.similarity_search_available) [
      | inl e ↦ rw e (
          by_similarity_valid reasons (
            take max_candidates (
              sort_candidates str_lt str_len stable_hash
                (repository.find_similar_names names max_candidates))))
      | inr e ↦ rw e refl
    ]

  module _ (repository : CompanyIdentityRepository) (i : CompanyIdentityInput) where
    -- The resolver links an identity to a company exactly if that company is the only one that owns one
    -- of its names, and no evidence of the identity points at any other.
    pub resolve_links_iff :
        (k : ℕ)
        → LinksTo (resolve str_lt str_len stable_hash repository i) k ↔ (
            (owners_of str_lt str_len stable_hash repository i ≡ k ∷ [])
            × NoConflict repository (some k) (projections i))
    unfolding resolve evidence_conflict_reasons sole_owner
    resolve_links_iff k =
        let links =
          by_owners_links repository (stable_hash i) (names_of str_lt str_len stable_hash i)
            (evidence_conflict_reasons repository i
              (owners_of str_lt str_len stable_hash repository i))
            (owners_of str_lt str_len stable_hash repository i) k in
        (
          (λ h.
              let (o, r) = links.0 h in
              (o, (conflicts_of_iff repository (some k) (projections i)).0 (rw o at r))),
          (λ h.
              links.1 (h.0, rw h.0 ((conflicts_of_iff repository (some k) (projections i)).1 h.1))),
        )

    -- The resolver lets a new company be created exactly if no company owns one of the names, no
    -- evidence points at any company, and a search for similar names was made and found none.
    pub resolve_new_iff : ((resolve str_lt str_len stable_hash repository i).kind ≡ new) ↔ (
        (owners_of str_lt str_len stable_hash repository i ≡ [])
        × NoConflict repository none (projections i)
        × (repository.similarity_search_available ≡ true)
        × (repository.find_similar_names (names_of str_lt str_len stable_hash i) max_candidates
            ≡ []))
    unfolding resolve evidence_conflict_reasons sole_owner
    resolve_new_iff =
        let links =
          by_owners_new repository (stable_hash i) (names_of str_lt str_len stable_hash i)
            (evidence_conflict_reasons repository i
              (owners_of str_lt str_len stable_hash repository i))
            (owners_of str_lt str_len stable_hash repository i) in
        (
          (λ h.
              let (o, r, a, f) = links.0 h in
              (o, (conflicts_of_iff repository none (projections i)).0 (rw o at r), a, f)),
          (λ h.
              links.1
                (h.0, rw h.0 ((conflicts_of_iff repository none (projections i)).1 h.1), h.2, h.3)),
        )

    -- Every resolution passes the validator of resolutions: a link names its company, a new company
    -- none, neither has review data, and a review has a reason.
    pub validate_kind-resolve :
        validate_kind (resolve str_lt str_len stable_hash repository i)
        ≡ returned (resolve str_lt str_len stable_hash repository i)
    unfolding resolve
    validate_kind-resolve =
        by_owners_valid repository (stable_hash i) (names_of str_lt str_len stable_hash i)
          (evidence_conflict_reasons repository i
            (owners_of str_lt str_len stable_hash repository i))
          (owners_of str_lt str_len stable_hash repository i)
