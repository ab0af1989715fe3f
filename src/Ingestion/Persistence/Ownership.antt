-- ===== src/Ingestion/Persistence/Ownership.antt =====
-- The names that identify companies in `_upsert_company_locked` of `PersistenceService`
-- (backend/app/ingestion/persistence/service.py): as texts, and as owned by companies.
use text.Mathlib.Text.{◌==◌ as str_eq}
use text.Mathlib.TextEquality.{eq_iff}
use job_search.Base.{
  All, keep, all_of, inl, inr, Bool-cases, String, ◌≡◌, refl, sym, ap, ◌∙◌, Bool, true, not, ◌&&◌,
  ◌||◌, List, [], ◌∷◌, map, arith,
}
use job_search.Ingestion.Persistence.{Externals}
use job_search.Ingestion.Persistence.Contracts.{NormalizedCompanyRecord, text_among}
use job_search.Ingestion.Persistence.Conflicts.{insert_text, sorted_texts, text_before}
use job_search.Ingestion.Persistence.Companies.{
  is_text, company_identity_names, set_default, aliases_by_normalized,
}

text_among-insert_text :
    (a b : String) (texts : List String)
    → text_among (insert_text a texts) b ≡ str_eq b a || text_among texts b
unfolding insert_text
text_among-insert_text a b [] = refl
text_among-insert_text a b (c ∷ texts) = elim (Bool-cases (str_eq a c)) [
  | inl e ↦ let same : a ≡ c = (eq_iff a c).0 e in rw e (rw same (ground arith))
  | inr e ↦ rw e (ground (arith, text_among-insert_text a b texts))
]

pub text_among-sorted_texts :
    (texts : List String) (b : String) → text_among (sorted_texts texts) b ≡ text_among texts b
unfolding sorted_texts
text_among-sorted_texts [] b = refl
text_among-sorted_texts (a ∷ texts) b =
    text_among-insert_text a b (sorted_texts texts)
    ∙ ap (λ c. str_eq b a || c) (text_among-sorted_texts texts b)

text_among-keep :
    (texts : List String) (b : String)
    → is_text b ≡ true
    → text_among (keep is_text texts) b ≡ text_among texts b
text_among-keep [] b h = refl
text_among-keep (a ∷ texts) b h = elim (Bool-cases (str_eq b a)) [
  | inl e ↦
      let same : b ≡ a = (eq_iff b a).0 e in
      let kept : is_text a ≡ true = ap is_text (sym same) ∙ h in
      rw kept (ground (arith, text_among-keep texts b))
  | inr e ↦ ground (arith, text_among-keep texts b)
]

pub all_of-among :
    (f : String → Bool) (texts : List String) (b : String)
    → text_among texts b ≡ true
    → all_of f texts ≡ true
    → f b ≡ true
all_of-among f [] b h k = cc
all_of-among f (a ∷ texts) b h k = elim (Bool-cases (str_eq b a)) [
  | inl e ↦ let same : b ≡ a = (eq_iff b a).0 e in ap f same ∙ ground (arith, k)
  | inr e ↦ all_of-among f texts b (ground (arith, h)) (ground (arith, k))
]

pub All-weaken :
    {A : Type 0} {P Q : A → Type 0} (xs : List A) → ((x : A) → P x → Q x) → All P xs → All Q xs
All-weaken [] f h = tt
All-weaken (x ∷ xs) f h = (f x h.0, All-weaken xs f h.1)

text_among-map :
    (f : String → String) (texts : List String)
    → All (λ a. text_among (map f texts) (f a) ≡ true) texts
text_among-map f [] = tt
text_among-map f (a ∷ texts) = (
  rw ((eq_iff (f a) (f a)).1 refl) refl,
  All-weaken texts (λ b h. ground (arith, h)) (text_among-map f texts),
)

set_default-All :
    (P : String → Type 0) (key display : String) (aliases : List (String × String))
    → P key
    → All (λ entry. P entry.0) aliases
    → All (λ entry. P entry.0) (set_default key display aliases)
unfolding set_default
set_default-All P key display [] k h = (k, tt)
set_default-All P key display ((known, shown) ∷ aliases) k h =
    elim (Bool-cases (str_eq key known)) [
      | inl e ↦ rw e h
      | inr e ↦ rw e (elim (Bool-cases (text_before key known)) [
        | inl before ↦ rw before (k, h)
        | inr after ↦ rw after (h.0, set_default-All P key display aliases k h.1)
      ])
    ]

aliases_by_normalized-All :
    (P : String → Type 0) (ext : Externals) (normalized_name : String) (displays : List String)
    (found : List (String × String))
    → All (λ d. is_text (ext.normalize_name d) ≡ true → P (ext.normalize_name d)) displays
    → All (λ entry. P entry.0) found
    → All (λ entry. P entry.0) (aliases_by_normalized ext normalized_name displays found)
unfolding aliases_by_normalized
aliases_by_normalized-All P ext name [] found k h = h
aliases_by_normalized-All P ext name (d ∷ displays) found k h =
    let key = ext.normalize_name d in
    elim (Bool-cases (is_text key && not (str_eq key name))) [
      | inl e ↦ rw e (
          aliases_by_normalized-All P ext name displays (set_default key d found) k.1
            (set_default-All P key d found (k.0 (ground (arith, e))) h))
      | inr e ↦ rw e (aliases_by_normalized-All P ext name displays found k.1 h)
    ]

-- The names of a record, and that of its company, are locked while it is written.
abbrev pub IsLockedName : Externals → NormalizedCompanyRecord → String → Type 0
IsLockedName ext item name = text_among (company_identity_names ext item) name ≡ true

module _ (ext : Externals) (item : NormalizedCompanyRecord) where
  among-names :
      (name : String)
      → is_text name ≡ true
      → text_among (item.normalized_name ∷ map ext.normalize_name item.candidate.aliases) name
        ≡ true
      → IsLockedName ext item name
  among-names name h k =
      let all = item.normalized_name ∷ map ext.normalize_name item.candidate.aliases in
      text_among-sorted_texts (keep is_text all) name ∙ text_among-keep all name h ∙ k

  pub normalized_name-IsLockedName :
      is_text item.normalized_name ≡ true → IsLockedName ext item item.normalized_name
  normalized_name-IsLockedName h =
      among-names item.normalized_name h
        (rw ((eq_iff item.normalized_name item.normalized_name).1 refl) refl)

  pub aliases_by_normalized-IsLockedName :
      (name : String)
      → item.normalized_name ≡ ext.normalize_name item.candidate.name
      → All
          (λ entry. IsLockedName ext item entry.0)
          (aliases_by_normalized ext name (item.candidate.name ∷ item.candidate.aliases) [])
  aliases_by_normalized-IsLockedName name same =
      aliases_by_normalized-All (IsLockedName ext item) ext name
        (item.candidate.name ∷ item.candidate.aliases) []
        (
          λ h. rw (← same) (normalized_name-IsLockedName (ap is_text same ∙ h)),
          All-weaken item.candidate.aliases
              (λ a h k. among-names (ext.normalize_name a) k (ground (arith, h)))
              (text_among-map ext.normalize_name item.candidate.aliases),
        )
        tt
