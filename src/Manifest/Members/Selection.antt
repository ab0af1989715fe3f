-- ===== src/Manifest/Members/Selection.antt =====
-- Where all candidates pass a test, so do those that `select_manifest_members` of
-- backend/app/manifest/allocation.py selects.
use job_search.Base.{
  ℕ, ◌≡◌, refl, ◌∙◌, Bool, true, List, [], ◌∷◌, map, keep, all_of, count_of, not, zero, suc, take,
  arith,
}
use job_search.Manifest.Categories.{AiCategory}
use job_search.Manifest.Allocation.{QuotaAllocation}
use job_search.Manifest.Members.{
  ResolvedCandidate, of_category, diversity_order, ordered_in, selected_in,
}
use job_search.Manifest.Members.Diversity.{count_of-diversity_order}

all_of-none :
    (p : ResolvedCandidate → Bool) (xs : List ResolvedCandidate)
    → all_of p xs ≡ true
    → count_of (λ c. not (p c)) xs ≡ 0
all_of-none p [] h = refl
all_of-none p (x ∷ xs) h = ground (arith, all_of-none p xs (ground arith))

none-all_of :
    (p : ResolvedCandidate → Bool) (xs : List ResolvedCandidate)
    → count_of (λ c. not (p c)) xs ≡ 0
    → all_of p xs ≡ true
none-all_of p [] h = refl
none-all_of p (x ∷ xs) h = ground (arith, none-all_of p xs (ground arith))

all_of-keep :
    (p r : ResolvedCandidate → Bool) (xs : List ResolvedCandidate)
    → all_of p xs ≡ true
    → all_of p (keep r xs) ≡ true
all_of-keep p r [] h = refl
all_of-keep p r (x ∷ xs) h = ground (arith, all_of-keep p r xs (ground arith))

all_of-take :
    (p : ResolvedCandidate → Bool) (k : ℕ) (xs : List ResolvedCandidate)
    → all_of p xs ≡ true
    → all_of p (take k xs) ≡ true
all_of-take p zero xs h = refl
all_of-take p (suc k) [] h = refl
all_of-take p (suc k) (x ∷ xs) h = ground (arith, all_of-take p k xs (ground arith))

all_of-diversity_order :
    (p : ResolvedCandidate → Bool) (xs : List ResolvedCandidate)
    → all_of p xs ≡ true
    → all_of p (diversity_order xs) ≡ true
all_of-diversity_order p xs h =
    none-all_of p (diversity_order xs)
      (count_of-diversity_order (λ c. not (p c)) xs ∙ all_of-none p xs h)

pub all_of-selected :
    (candidates : List ResolvedCandidate) (q : QuotaAllocation) (p : ResolvedCandidate → Bool)
    (cs : List AiCategory)
    → all_of p candidates ≡ true
    → all_of (all_of p) (map (selected_in candidates q) cs) ≡ true
unfolding selected_in ordered_in
all_of-selected candidates q p [] h = refl
all_of-selected candidates q p (c ∷ cs) h =
    let kept = all_of-keep p (of_category c) candidates h in
    let ordered = all_of-diversity_order p (keep (of_category c) candidates) kept in
    let here =
      all_of-take p (q.final c) (diversity_order (keep (of_category c) candidates)) ordered in
    rw (here, all_of-selected candidates q p cs h) refl
