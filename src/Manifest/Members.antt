-- ===== src/Manifest/Members.antt =====
-- `select_manifest_members` of backend/app/manifest/allocation.py. The loops take the number of items as
-- fuel, which suffices since each round takes one at least. What `DocumentUrl` makes of a text is a
-- parameter. The name of the category in the message of a shortage is not modelled.
pub mod Validation
pub mod Rounds
pub mod Buckets
pub mod Diversity
pub mod Selection
pub mod Quotas
mod Samples
use Prim.Native.String.{compare, count}
use Prim.Native.Nat.{Ordering}
use text.Mathlib.Text.{◌==◌ as str_eq}
use job_search.Base.{
  ℕ, zero, suc, ◌+◌, String, Bool, true, false, not, ◌&&◌, ◌||◌, Option, none, some, List, [], ◌∷◌,
  ◌++◌, map, keep, any_of, all_of, length, take, leb, ltb, ◌==◌, contains, Outcome, returned,
  raised, ◌>>=◌, ◌>>◌, require, if◌then◌else◌,
}
use job_search.Apportion.{sort_by}
use job_search.Manifest.Categories.{AiCategory, categories, value_order}
use job_search.Manifest.Allocation.{QuotaAllocation}

pub data ConfidenceTier : Type 0 where
  high medium low : ConfidenceTier

abbrev pub confidence_tiers : List ConfidenceTier
confidence_tiers = ConfidenceTier.high ∷ ConfidenceTier.medium ∷ ConfidenceTier.low ∷ []

abbrev pub tier_rank : ConfidenceTier → ℕ
tier_rank ConfidenceTier.high = 0
tier_rank ConfidenceTier.medium = 1
tier_rank ConfidenceTier.low = 2

pub record ResolvedCandidate : Type 0 where
  pub company_id : ℕ
  pub canonical_name : String
  pub normalized_name : String
  pub primary_category : AiCategory
  pub official_website : Option String
  pub recruitment_url : Option String
  pub confidence_tier : ConfidenceTier
  pub stable_evidence_id : String
  pub scale : Option String
  pub city : Option String

pub record ManifestCompany : Type 0 where
  pub company_id : ℕ
  pub canonical_name : String
  pub primary_category : AiCategory
  pub official_website : Option String
  pub recruitment_url : Option String

pub record ManifestMemberData : Type 0 where
  pub position : ℕ
  pub company : ManifestCompany

-- The order of strings, and of pairs of them.
abbrev pub text_before : String → String → Bool
text_before a b = elim (compare a b) [ Ordering.lt ↦ true | _ ↦ false ]

abbrev pub pair_before : String × String → String × String → Bool
pair_before a b = text_before a.0 b.0 || (str_eq a.0 b.0 && text_before a.1 b.1)

abbrev pub same_pair : String × String → String × String → Bool
same_pair a b = str_eq a.0 b.0 && str_eq a.1 b.1

-- `value or "unknown"`
abbrev pub or_unknown : Option String → String
or_unknown none = "unknown"
or_unknown (some value) = if str_eq value "" then "unknown" else value

abbrev pub bucket_of : ResolvedCandidate → String × String
bucket_of c = (or_unknown c.scale, or_unknown c.city)

abbrev pub candidate_before : ResolvedCandidate → ResolvedCandidate → Bool
candidate_before x a =
    pair_before (x.normalized_name, x.stable_evidence_id) (a.normalized_name, a.stable_evidence_id)

-- The keys of the dictionary of buckets.
pub bucket_keys : List ResolvedCandidate → List (String × String)
bucket_keys [] = []
bucket_keys (c ∷ candidates) =
    let rest = bucket_keys candidates in
    if any_of (same_pair (bucket_of c)) rest then rest else bucket_of c ∷ rest

module _ {ℓ} {A : Type ℓ} where
  abbrev pub is_empty : List A → Bool
  is_empty [] = true
  is_empty (x ∷ xs) = false

  -- One round of `popleft`: what is taken, and what is left.
  pub pop_heads : List (List A) → List A
  pop_heads [] = []
  pop_heads ([] ∷ queues) = pop_heads queues
  pop_heads ((x ∷ xs) ∷ queues) = x ∷ pop_heads queues

  pub pop_tails : List (List A) → List (List A)
  pop_tails [] = []
  pop_tails ([] ∷ queues) = [] ∷ pop_tails queues
  pop_tails ((x ∷ xs) ∷ queues) = xs ∷ pop_tails queues

  -- The loop `while any(queues)`.
  pub rounds : ℕ → List (List A) → List A
  rounds zero queues = []
  rounds (suc fuel) queues =
      let rest = rounds fuel (pop_tails queues) in
      if all_of is_empty queues then [] else pop_heads queues ++ rest

-- The candidates of one tier.
pub tier_order : List ResolvedCandidate → List ResolvedCandidate
unfolding bucket_keys
tier_order candidates = rounds (length candidates) (
    map (λ key. sort_by candidate_before (keep (λ c. same_pair (bucket_of c) key) candidates))
      (sort_by pair_before (bucket_keys candidates)))

abbrev pub of_tier : ConfidenceTier → ResolvedCandidate → Bool
of_tier tier c = tier_rank c.confidence_tier == tier_rank tier

pub tiers_order : List ConfidenceTier → List ResolvedCandidate → List ResolvedCandidate
tiers_order [] candidates = []
tiers_order (tier ∷ tiers) candidates =
    tier_order (keep (of_tier tier) candidates) ++ tiers_order tiers candidates

abbrev pub diversity_order : List ResolvedCandidate → List ResolvedCandidate
diversity_order candidates = tiers_order confidence_tiers candidates

pub has_repeats : List ℕ → Bool
has_repeats [] = false
has_repeats (a ∷ ids) = contains ids a || has_repeats ids

abbrev pub of_category : AiCategory → ResolvedCandidate → Bool
of_category category c = value_order c.primary_category == value_order category

-- `selected[offset]`, where the offset is less than the length.
pub item_at {ℓ} : {A : Type ℓ} → ℕ → List A → Option A
item_at offset [] = none
item_at zero (x ∷ xs) = some x
item_at (suc offset) (x ∷ xs) = item_at offset xs

-- `read_url` is the validation of `DocumentUrl`: the URL that it makes of a text, or its error.
module _ (read_url : String → Outcome String) where
  abbrev pub read_optional_url : Option String → Outcome (Option String)
  read_optional_url none = returned none
  read_optional_url (some text) = do url ← read_url text; returned (some url)

  -- `ManifestCompany.model_validate`
  pub validate_company : ResolvedCandidate → Outcome ManifestCompany
  validate_company c = do
    require (leb 1 (count c.canonical_name) && leb (count c.canonical_name) 200) "ValidationError"
    official_website ← read_optional_url c.official_website
    recruitment_url ← read_optional_url c.recruitment_url
    returned (record {
      company_id = c.company_id;
      canonical_name = c.canonical_name;
      primary_category = c.primary_category;
      official_website = official_website;
      recruitment_url = recruitment_url;
    })

  -- `ManifestMemberData(position=..., company=...)`
  pub member_of : ℕ → ResolvedCandidate → Outcome ManifestMemberData
  member_of position c = do
    company ← validate_company c
    require (leb 1 position && leb position 1000) "ValidationError"
    returned (record { position = position; company = company })

  pub add_member :
      Option ResolvedCandidate → List ManifestMemberData → Outcome (List ManifestMemberData)
  add_member none members = returned members
  add_member (some c) members = do
    member ← member_of (suc (length members)) c
    returned (members ++ member ∷ [])

  -- The inner loop, over the categories in their order.
  pub add_round :
      ℕ
      → List (List ResolvedCandidate)
      → List ManifestMemberData
      → Outcome (List ManifestMemberData)
  unfolding add_member
  add_round offset [] members = returned members
  add_round offset (selected ∷ lists) members = do
    after ← add_member (item_at offset selected) members
    add_round offset lists after

  -- The outer loop.
  pub interleave :
      (fuel offset total : ℕ)
      → List (List ResolvedCandidate)
      → List ManifestMemberData
      → Outcome (List ManifestMemberData)
  interleave zero offset total lists members =
      if ltb (length members) total then raised "out of fuel" else returned members
  interleave (suc fuel) offset total lists members =
      let next = add_round offset lists members >>= λ after.
      let rest = interleave fuel (suc offset) total lists after in
      if length after == length members
      then raised "candidate pool cannot fill allocated quota"
      else rest in
      if not (ltb (length members) total) then returned members else next

module _ (candidates : List ResolvedCandidate) (allocation : QuotaAllocation) where
  pub ordered_in : AiCategory → List ResolvedCandidate
  ordered_in category = diversity_order (keep (of_category category) candidates)

  pub selected_in : AiCategory → List ResolvedCandidate
  selected_in category = take (allocation.final category) (ordered_in category)

  abbrev pub category_order : List AiCategory
  category_order = sort_by (λ x a. ltb (value_order x) (value_order a)) categories

  pub select_manifest_members : (String → Outcome String) → Outcome (List ManifestMemberData)
  select_manifest_members read_url = do
    require (not (has_repeats (map (λ c. c.company_id) candidates)))
        "resolved company identities must be unique"
    require (all_of (λ c. leb (allocation.final c) (length (ordered_in c))) categories)
        "cannot fill allocated quota"
    interleave read_url allocation.total 0 allocation.total (map selected_in category_order) []
