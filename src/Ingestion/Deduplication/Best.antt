-- ===== src/Ingestion/Deduplication/Best.antt =====
-- What the search for the posting of a job answers (backend/app/ingestion/deduplication/job.py).
use job_search.Base.{
  All, keep, inl, inr, Bool-cases, Option-cases, ◌⊎◌, ℕ, String, ◌==◌, ◌≡◌, ◌≤◌, ◌<◌, refl, ap, ◌∙◌,
  Bool, true, false, Option, none, some, List, [], ◌∷◌, ltb, if◌then◌else◌, arith,
}
use job_search.Ingestion.DirectAts.Keys.{str_eq_comm}
use job_search.Ingestion.Persistence.Contracts.{NormalizedJobCandidate}
use job_search.Ingestion.Persistence.Ownership.{All-weaken}
use job_search.Ingestion.Deduplication.{
  SourceJobMatch, JobForComparison, JobMatch, existing, new, JobDeduplicationRepository,
  similarity_threshold, is_better, best_after, best_match, is_eligible, jobs_are_duplicates,
  match_of_best, resolve_by_title, resolve_after, exact_match, resolve_job_match,
}

-- The item is in the list.
abbrev pub IsListed : JobForComparison → List JobForComparison → Type 0
IsListed item [] = ⊥
IsListed item (x ∷ xs) = (item ≡ x) ⊎ IsListed item xs

keep-IsListed :
    (p : JobForComparison → Bool) (b : JobForComparison) (xs : List JobForComparison)
    → IsListed b (keep p xs)
    → IsListed b xs × (p b ≡ true)
keep-IsListed p b [] h = elim h [ ]
keep-IsListed p b (x ∷ xs) h = elim (Bool-cases (p x)) [
  | inl e ↦
      let h' : (b ≡ x) ⊎ IsListed b (keep p xs) = rw e at h in
      elim h' [
        | inl same ↦ (inl same, ap p same ∙ e)
        | inr later ↦ let (l, t) = keep-IsListed p b xs later in (inr l, t)
      ]
  | inr e ↦
      let h' : IsListed b (keep p xs) = rw e at h in
      let (l, t) = keep-IsListed p b xs h' in (inr l, t)
]

true_is_not_false : (b : Bool) → b ≡ true → b ≡ false → ⊥
true_is_not_false b t f = cc

keep-All :
    (p : JobForComparison → Bool) (Q : JobForComparison → Type 0) (xs : List JobForComparison)
    → All Q (keep p xs)
    → All (λ x. p x ≡ true → Q x) xs
keep-All p Q [] h = tt
keep-All p Q (x ∷ xs) h = elim (Bool-cases (p x)) [
  | inl e ↦ let h' : Q x × All Q (keep p xs) = rw e at h in (λ t. h'.0, keep-All p Q xs (h'.1))
  | inr e ↦
      let h' : All Q (keep p xs) = rw e at h in
      (λ t. elim (true_is_not_false (p x) t e) [ ], keep-All p Q xs h')
]

module _ (similarity : String → String → ℕ) (id_before : Option ℕ → Option ℕ → Bool)
    (title : String) where
  abbrev grade : JobForComparison → ℕ
  grade item = similarity title item.normalized_title

  -- The greatest of the first item and the others.
  IsBest : JobForComparison → JobForComparison → List JobForComparison → Type 0
  IsBest b best items =
      ((b ≡ best) ⊎ IsListed b items)
      × ((grade best ≤ grade b) × All (λ x. grade x ≤ grade b) items)

  replaced-IsBest :
      (b best item : JobForComparison) (items : List JobForComparison)
      → is_better similarity id_before title best item ≡ true
      → IsBest b item items
      → IsBest b best (item ∷ items)
  unfolding IsBest
  replaced-IsBest b best item items e (listed, (above, all)) =
      (inr listed, (ground (arith, e, above), (above, all)))

  kept-IsBest :
      (b best item : JobForComparison) (items : List JobForComparison)
      → is_better similarity id_before title best item ≡ false
      → IsBest b best items
      → IsBest b best (item ∷ items)
  unfolding IsBest
  kept-IsBest b best item items e (inl same, (above, all)) =
      (inl same, (above, (ground (arith, e, above), all)))
  kept-IsBest b best item items e (inr listed, (above, all)) =
      (inr (inr listed), (above, (ground (arith, e, above), all)))

  first-IsBest : (best : JobForComparison) → IsBest best best []
  unfolding IsBest
  first-IsBest best = (inl refl, (omega arith, tt))

  best_after_end : (best : JobForComparison) → best_after similarity id_before title best [] ≡ best
  unfolding best_after
  best_after_end best = refl

  best_after_step :
      (best item : JobForComparison) (items : List JobForComparison)
      → best_after similarity id_before title best (item ∷ items)
        ≡ best_after similarity id_before title
            (if is_better similarity id_before title best item then item else best)
            items
  unfolding best_after
  best_after_step best item items = refl

  best_after-IsBest :
      (best : JobForComparison) (items : List JobForComparison)
      → IsBest (best_after similarity id_before title best items) best items
  best_after-IsBest best [] = rw (best_after_end best) (first-IsBest best)
  best_after-IsBest best (item ∷ items) =
      elim (Bool-cases (is_better similarity id_before title best item)) [
        | inl e ↦
            rw (best_after_step best item items, e)
              (replaced-IsBest (best_after similarity id_before title item items) best item items e
                (best_after-IsBest item items))
        | inr e ↦
            rw (best_after_step best item items, e)
              (kept-IsBest (best_after similarity id_before title best items) best item items e
                (best_after-IsBest best items))
      ]

  best_match-IsBest :
      (xs : List JobForComparison) (b : JobForComparison)
      → best_match similarity id_before title xs ≡ some b
      → IsListed b xs × All (λ x. grade x ≤ grade b) xs
  unfolding best_match IsBest
  best_match-IsBest [] b e = cc
  best_match-IsBest (x ∷ xs) b e =
      let same : best_after similarity id_before title x xs ≡ b = cc in
      let h : IsBest b x xs = rw (← same) (best_after-IsBest x xs) in (h.0, h.1)

module _ (similarity : String → String → ℕ) (id_before : Option ℕ → Option ℕ → Bool)
    (normalized : NormalizedJobCandidate) where
  abbrev likeness : JobForComparison → ℕ
  likeness item = similarity normalized.normalized_title item.normalized_title

  abbrev passes : JobForComparison → Bool
  passes = is_eligible normalized

  -- Without a posting: no eligible one is alike. With one: it is listed, eligible, alike, and no eligible
  -- one is more so.
  pub IsRight : List JobForComparison → JobMatch → Type 0
  IsRight comparisons new = All (λ x. passes x ≡ true → likeness x < 7500) comparisons
  IsRight comparisons (existing id) =
      (b : JobForComparison) × IsListed b comparisons
      × (id ≡ b.job_posting_id)
      × (passes b ≡ true)
      × (7500 ≤ likeness b)
      × All (λ x. passes x ≡ true → likeness x ≤ likeness b) comparisons

  no_best-All :
      (Q : JobForComparison → Type 0) (title : String) (xs : List JobForComparison)
      → best_match similarity id_before title xs ≡ none
      → All Q xs
  unfolding best_match
  no_best-All Q title [] e = tt
  no_best-All Q title (x ∷ xs) e = cc

  -- An eligible item that is alike is a duplicate for the second test, too.
  likeness-jobs_are_duplicates :
      (b : JobForComparison)
      → passes b ≡ true
      → ltb (likeness b) similarity_threshold ≡ false
      → jobs_are_duplicates similarity id_before normalized b ≡ true
  unfolding jobs_are_duplicates
  likeness-jobs_are_duplicates b t high =
      rw (str_eq_comm normalized.normalized_city b.city) (ground (arith, t, high))

  match_of_best-IsRight :
      (comparisons : List JobForComparison) (found : Option JobForComparison)
      → best_match similarity id_before normalized.normalized_title (keep passes comparisons)
        ≡ found
      → IsRight comparisons (match_of_best similarity id_before normalized found)
  unfolding IsRight match_of_best
  match_of_best-IsRight comparisons none e =
      keep-All passes (λ x. likeness x < 7500) comparisons
        (no_best-All (λ x. likeness x < 7500) normalized.normalized_title (keep passes comparisons)
          e)
  match_of_best-IsRight comparisons (some b) e =
      let (listed, most) =
        best_match-IsBest similarity id_before normalized.normalized_title (keep passes comparisons)
          b e in
      let (is_there, t) = keep-IsListed passes b comparisons listed in
      let all = keep-All passes (λ x. likeness x ≤ likeness b) comparisons most in
      elim (Bool-cases (ltb (likeness b) similarity_threshold)) [
        | inl low ↦ rw low (
            All-weaken comparisons
              (λ x h passed.
                let below : likeness x ≤ likeness b = h passed in ground (arith, below, low))
              all)
        | inr high ↦
            rw (high, likeness-jobs_are_duplicates b t high)
              (b, is_there, refl, t, ground (arith, high), all)
      ]

-- A job that has no source of its company is answered by its title: by the id of a listed posting of the
-- same city and of a compatible type, at least 75 percent alike, than which no such posting is more alike;
-- or as new, where no such posting is 75 percent alike.
pub resolve_job_match-IsRight :
    (similarity : String → String → ℕ) (id_before : Option ℕ → Option ℕ → Bool)
    (repository : JobDeduplicationRepository) (company_id : ℕ) (normalized : NormalizedJobCandidate)
    → ((exact : SourceJobMatch)
        → exact_match repository normalized.candidate.provider normalized.candidate.source_raw_id
          ≡ some exact
        → (exact.company_id == company_id) ≡ false)
    → IsRight similarity id_before normalized
        (repository.list_for_company company_id)
        (resolve_job_match similarity id_before repository company_id normalized)
unfolding resolve_job_match resolve_after resolve_by_title
resolve_job_match-IsRight similarity id_before repository company_id normalized other =
    let comparisons = repository.list_for_company company_id in
    let by_title = match_of_best-IsRight similarity id_before normalized comparisons _ refl in
    elim (Option-cases
      (exact_match repository normalized.candidate.provider normalized.candidate.source_raw_id)) [
        | inl unknown ↦ rw unknown by_title
        | inr (exact, known) ↦ rw (known, other exact known) by_title
      ]
