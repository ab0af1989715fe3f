-- ===== src/Ingestion/Persistence/Names.antt =====
-- No name identifies two companies after `_upsert_company_locked` of `PersistenceService`
-- (backend/app/ingestion/persistence/service.py).
use text.Mathlib.Text.{◌==◌ as str_eq}
use text.Mathlib.TextEquality.{eq_iff}
use job_search.Base.{
  first, keep, all_of, inl, inr, Bool-cases, ℕ, String, ◌==◌, ◌≡◌, refl, sym, ap, ◌∙◌, Bool, true,
  false, Option, none, some, List, [], ◌∷◌, ◌++◌, map, arith,
}
use job_search.Ingestion.Persistence.{Company, Tables, Externals}
use job_search.Ingestion.Persistence.Contracts.{NormalizedCompanyRecord, text_among}
use job_search.Ingestion.Persistence.Conflicts.{insert, insert_or_reselect}
use job_search.Ingestion.Persistence.Companies.{
  company_model, alias_model, company_of_name, company_identity_name_owner_ids, is_allowed,
  website_column, stored_company, new_company, upsert_company_locked, company_identity_names,
  is_text,
}
use job_search.Ingestion.Persistence.Endings.{
  Ends, Ends_mono, Ends-continue_with, Ends-lift, insert_or_reselect-Ends,
}
use job_search.Ingestion.Persistence.Ownership.{
  IsLockedName, normalized_name-IsLockedName, all_of-among,
}
use job_search.Ingestion.Persistence.Owners.{
  HasOneOwner, IsOwnedBy, IsOwnedBy-HasOneOwner, inserted_alias_apart, inserted_company_apart,
  inserted_alias-IsOwnedBy, inserted_company-IsOwnedBy, updated_company_owners,
}
use job_search.Ingestion.Persistence.OneOwner.{IsChecked, upsert_company_locked-Ends}

all_of-none :
    (q : ℕ → Bool) (ids : List ℕ) → all_of (is_allowed none) ids ≡ true → all_of q ids ≡ true
all_of-none q [] h = refl
all_of-none q (id ∷ ids) h = cc

-- A name without owners is no company's.
no_company-none :
    (p : Company → Bool) (xs : List Company) (ids : List ℕ) (w : Company)
    → all_of (is_allowed none) (map (λ c. c.id) (keep p xs) ++ ids) ≡ true
    → first p xs ≡ some w
    → ⊥
unfolding first
no_company-none p [] ids w h e = cc
no_company-none p (x ∷ xs) ids w h e = ground (arith, no_company-none p xs ids w)

-- Other sessions leave the owners of the locked names alone.
abbrev pub NamesLocked : Externals → NormalizedCompanyRecord → Type 0
NamesLocked ext item =
    (name : String) (t : Tables)
    → IsLockedName ext item name
    → company_identity_name_owner_ids (ext.rival t) name ≡ company_identity_name_owner_ids t name

-- A locked name is no name that is not locked.
distinct_names :
    (names : List String) (a b : String)
    → text_among names a ≡ true
    → text_among names b ≡ false
    → str_eq a b ≡ false
distinct_names names a b h k = elim (Bool-cases (str_eq a b)) [
  | inl e ↦
      let same : a ≡ b = (eq_iff a b).0 e in
      let both : text_among names b ≡ true = ap (text_among names) (sym same) ∙ h in cc
  | inr e ↦ e
]

-- A company that is new, or that another session has inserted first.
new_company-Ends :
    (ext : Externals) (item : NormalizedCompanyRecord) (t : Tables) (Q : Company → Tables → Type 0)
    → ((website : Option String)
        → Q
            (new_company item website (ext.uuid t))
            (insert company_model (new_company item website (ext.uuid t)) (ext.rival t)))
    → ((w : Company)
        → company_of_name item.normalized_name (ext.rival t) ≡ some w
        → Q w (ext.rival t))
    → Ends (stored_company ext item none t) Q
unfolding stored_company
new_company-Ends ext item t Q new lost =
    Ends-lift (website_column ext item.candidate.website) _ t (λ website e.
      Ends-continue_with
        (insert_or_reselect ext company_model (company_of_name item.normalized_name)
          "uq_company_normalized_name" (new_company item website (ext.uuid t)) t)
        _
        (insert_or_reselect-Ends ext company_model (company_of_name item.normalized_name)
          "uq_company_normalized_name" (new_company item website (ext.uuid t)) {R = λ r u. Q r.0 u}
          t (λ free. new website) lost)
        (λ r u h. record { ended = h }))

module _ (ext : Externals) (item : NormalizedCompanyRecord) (locks : NamesLocked ext item)
    (name : String) where
  same_owners-HasOneOwner :
      (t t' : Tables)
      → company_identity_name_owner_ids t' name ≡ company_identity_name_owner_ids t name
      → HasOneOwner name t
      → HasOneOwner name t'
  unfolding HasOneOwner
  same_owners-HasOneOwner t t' e h = rw e h

  same_owners-IsOwnedBy :
      (c : ℕ) (t t' : Tables)
      → company_identity_name_owner_ids t' name ≡ company_identity_name_owner_ids t name
      → IsOwnedBy c name t
      → IsOwnedBy c name t'
  unfolding IsOwnedBy
  same_owners-IsOwnedBy c t t' e h = rw e h

  module _ (nonempty : is_text item.normalized_name ≡ true) where
    stored_company-IsOwnedBy :
        (found : Option Company) (t : Tables)
        → IsLockedName ext item name
        → IsChecked ext item found t
        → Ends (stored_company ext item found t) (λ c t'. IsOwnedBy c.id name t')
    unfolding stored_company IsOwnedBy company_identity_name_owner_ids
    stored_company-IsOwnedBy (some c) t locked checked = record {
      ended =
          all_of-among (λ n. all_of (is_allowed (some c)) (company_identity_name_owner_ids t n))
            (company_identity_names ext item) name locked checked;
    }
    stored_company-IsOwnedBy none t locked checked =
        let unowned : (n : String)
            → IsLockedName ext item n
            → all_of (is_allowed none) (company_identity_name_owner_ids (ext.rival t) n) ≡ true =
          λ n l.
            ap (all_of (is_allowed none)) (locks n t l)
            ∙ all_of-among (λ m. all_of (is_allowed none) (company_identity_name_owner_ids t m))
                (company_identity_names ext item) n l checked in
        new_company-Ends ext item t (λ c u. IsOwnedBy c.id name u)
          (λ website.
            let c = new_company item website (ext.uuid t) in
            inserted_company-IsOwnedBy name c (ext.rival t) (
              all_of-none (λ id. c.id == id) (company_identity_name_owner_ids (ext.rival t) name)
                (unowned name locked)))
          (λ w found.
            elim (no_company-none _ (ext.rival t).companies _ w
              (unowned item.normalized_name (normalized_name-IsLockedName ext item nonempty))
              found) [ ])

    stored_company-HasOneOwner :
        (found : Option Company) (t : Tables)
        → text_among (company_identity_names ext item) name ≡ false
        → ((u : Tables) → HasOneOwner name u → HasOneOwner name (ext.rival u))
        → HasOneOwner name t
        → Ends (stored_company ext item found t) (λ c t'. HasOneOwner name t')
    unfolding stored_company
    stored_company-HasOneOwner (some c) t free calm one = record { ended = one }
    stored_company-HasOneOwner none t free calm one =
        new_company-Ends ext item t (λ c u. HasOneOwner name u)
          (λ website.
            let c = new_company item website (ext.uuid t) in
            same_owners-HasOneOwner (ext.rival t) (insert company_model c (ext.rival t))
              (inserted_company_apart name c (ext.rival t) (
                distinct_names (company_identity_names ext item) item.normalized_name name
                  (normalized_name-IsLockedName ext item nonempty) free))
              (calm t one))
          (λ w found. calm t one)

-- Take a record whose normalized name is not empty and comes from its name. While other sessions leave the
-- names of the record to it, and keep every name to one company, so does the upsert of its company: no
-- name, of a company or an alias, belongs to two companies.
pub upsert_company_locked-HasOneOwner :
    (ext : Externals) (item : NormalizedCompanyRecord) (name : String) (t : Tables)
    → is_text item.normalized_name ≡ true
    → item.normalized_name ≡ ext.normalize_name item.candidate.name
    → NamesLocked ext item
    → ((u : Tables) → HasOneOwner name u → HasOneOwner name (ext.rival u))
    → HasOneOwner name t
    → Ends
        (upsert_company_locked ext item (company_identity_names ext item) t)
        (λ company t'. HasOneOwner name t')
upsert_company_locked-HasOneOwner ext item name t nonempty same locks calm one =
    elim (Bool-cases (text_among (company_identity_names ext item) name)) [
      | inl locked ↦
          Ends_mono (upsert_company_locked ext item (company_identity_names ext item) t)
            (upsert_company_locked-Ends ext item (λ c u. IsOwnedBy c name u) (λ u. Unit {0})
              (λ c u h.
                same_owners-IsOwnedBy ext item locks name c u (ext.rival u) (locks name u locked) h)
              (λ a u l h. inserted_alias-IsOwnedBy name a u h)
              (λ c id website u h.
                same_owners-IsOwnedBy ext item locks name c u _
                  (updated_company_owners name id item.candidate website u) h)
              (λ found u begun checked.
                stored_company-IsOwnedBy ext item locks name nonempty found u locked checked)
              same t tt)
            (λ c u h. IsOwnedBy-HasOneOwner c.0 name u h)
      | inr free ↦
          upsert_company_locked-Ends ext item (λ c u. HasOneOwner name u) (HasOneOwner name)
            (λ c u h. calm u h)
            (λ a u l h.
              same_owners-HasOneOwner ext item locks name u (insert alias_model a u)
                (inserted_alias_apart name a u
                  (distinct_names (company_identity_names ext item) a.normalized_alias name l free))
                h)
            (λ c id website u h.
              same_owners-HasOneOwner ext item locks name u _
                (updated_company_owners name id item.candidate website u) h)
            (λ found u h checked.
              stored_company-HasOneOwner ext item locks name nonempty found u free calm h)
            same t one
    ]
