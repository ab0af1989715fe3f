-- ===== src/Ingestion/Persistence/Owners.antt =====
-- The owners of a name in the tables of companies and aliases, and what the writes of
-- `_upsert_company_locked` (backend/app/ingestion/persistence/service.py) do to them.
use text.Mathlib.Text.{◌==◌ as str_eq}
use job_search.Base.{
  keep, contains, all_of, inl, inr, Bool-cases, ℕ, String, ◌==◌, ◌≡◌, refl, sym, ap, ◌∙◌, Bool,
  true, false, ◌&&◌, Option, List, [], ◌∷◌, ◌++◌, map, arith,
}
use job_search.Ingestion.Persistence.{Company, CompanyAlias, Tables}
use job_search.Ingestion.Persistence.Contracts.{CompanyCandidate}
use job_search.Ingestion.Persistence.Conflicts.{change_first, insert}
use job_search.Ingestion.Persistence.Companies.{
  company_model, alias_model, updated_company, company_identity_name_owner_ids,
}

-- No two companies own the name.
unfoldable pub HasOneOwner : String → Tables → Type 0
HasOneOwner name t =
    (a b : ℕ)
    → contains (company_identity_name_owner_ids t name) a ≡ true
    → contains (company_identity_name_owner_ids t name) b ≡ true
    → a ≡ b

-- No other company owns the name.
unfoldable pub IsOwnedBy : ℕ → String → Tables → Type 0
IsOwnedBy company_id name t =
    all_of (λ id. company_id == id) (company_identity_name_owner_ids t name) ≡ true

pub all_of-append :
    {A : Type 0} (p : A → Bool) (xs ys : List A) → all_of p (xs ++ ys) ≡ all_of p xs && all_of p ys
all_of-append p [] ys = refl
all_of-append p (x ∷ xs) ys = ground (arith, all_of-append p xs ys)

all_of-contains :
    (c : ℕ) (ids : List ℕ) (a : ℕ)
    → all_of (λ id. c == id) ids ≡ true
    → contains ids a ≡ true
    → c ≡ a
all_of-contains c [] a h k = cc
all_of-contains c (id ∷ ids) a h k = elim (Bool-cases (id == a)) [
  | inl e ↦ ground (arith, h)
  | inr e ↦ all_of-contains c ids a (ground (arith, h)) (ground (arith, k))
]

pub IsOwnedBy-HasOneOwner :
    (c : ℕ) (name : String) (t : Tables) → IsOwnedBy c name t → HasOneOwner name t
unfolding IsOwnedBy HasOneOwner
IsOwnedBy-HasOneOwner c name t h a b k k' =
    sym (all_of-contains c (company_identity_name_owner_ids t name) a h k)
    ∙ all_of-contains c (company_identity_name_owner_ids t name) b h k'

module _ {A : Type 0} (p : A → Bool) (id : A → ℕ) where
  -- A row that does not pass adds nothing.
  ids-snoc :
      (xs : List A) (x : A) → p x ≡ false → map id (keep p (xs ++ x ∷ [])) ≡ map id (keep p xs)
  ids-snoc [] x h = ground arith
  ids-snoc (y ∷ xs) x h = ground (arith, ids-snoc xs x h)

  all_of-snoc :
      (q : ℕ → Bool) (xs : List A) (x : A)
      → q (id x) ≡ true
      → all_of q (map id (keep p (xs ++ x ∷ []))) ≡ all_of q (map id (keep p xs))
  all_of-snoc q [] x h = ground arith
  all_of-snoc q (y ∷ xs) x h = ground (arith, all_of-snoc q xs x h)

ids-change_first :
    (name : String) (id : ℕ) (candidate : CompanyCandidate) (website : Option String)
    (xs : List Company)
    → map
        (λ c. c.id)
        (keep
          (λ c. str_eq c.normalized_name name)
          (change_first (λ row. row.id == id) (updated_company candidate website) xs))
      ≡ map (λ c. c.id) (keep (λ c. str_eq c.normalized_name name) xs)
unfolding change_first
ids-change_first name id candidate website [] = refl
ids-change_first name id candidate website (x ∷ xs) =
    ground (arith, ids-change_first name id candidate website xs)

module _ (name : String) where
  abbrev has_name : Company → Bool
  has_name c = str_eq c.normalized_name name

  abbrev has_alias : CompanyAlias → Bool
  has_alias a = str_eq a.normalized_alias name

  abbrev company_ids : Tables → List ℕ
  company_ids t = map (λ c. c.id) (keep has_name t.companies)

  abbrev alias_ids : Tables → List ℕ
  alias_ids t = map (λ a. a.company_id) (keep has_alias t.aliases)

  -- The owners are unchanged where the new row has another name.
  pub inserted_alias_apart :
      (a : CompanyAlias) (t : Tables)
      → str_eq a.normalized_alias name ≡ false
      → company_identity_name_owner_ids (insert alias_model a t) name
        ≡ company_identity_name_owner_ids t name
  unfolding company_identity_name_owner_ids
  inserted_alias_apart a t h =
      ap (λ ids. company_ids t ++ ids) (ids-snoc has_alias (λ x. x.company_id) t.aliases a h)

  pub inserted_company_apart :
      (c : Company) (t : Tables)
      → str_eq c.normalized_name name ≡ false
      → company_identity_name_owner_ids (insert company_model c t) name
        ≡ company_identity_name_owner_ids t name
  unfolding company_identity_name_owner_ids
  inserted_company_apart c t h =
      ap (λ ids. ids ++ alias_ids t) (ids-snoc has_name (λ x. x.id) t.companies c h)

  pub inserted_alias-IsOwnedBy :
      (a : CompanyAlias) (t : Tables)
      → IsOwnedBy a.company_id name t
      → IsOwnedBy a.company_id name (insert alias_model a t)
  unfolding company_identity_name_owner_ids IsOwnedBy
  inserted_alias-IsOwnedBy a t h =
      let q : ℕ → Bool = λ id. a.company_id == id in
      all_of-append q (company_ids t) (alias_ids (insert alias_model a t))
      ∙ ap (λ b. all_of q (company_ids t) && b)
          (all_of-snoc has_alias (λ x. x.company_id) q t.aliases a (ground arith))
      ∙ sym (all_of-append q (company_ids t) (alias_ids t))
      ∙ h

  pub inserted_company-IsOwnedBy :
      (c : Company) (t : Tables)
      → IsOwnedBy c.id name t
      → IsOwnedBy c.id name (insert company_model c t)
  unfolding company_identity_name_owner_ids IsOwnedBy
  inserted_company-IsOwnedBy c t h =
      let q : ℕ → Bool = λ id. c.id == id in
      all_of-append q (company_ids (insert company_model c t)) (alias_ids t)
      ∙ ap (λ b. b && all_of q (alias_ids t))
          (all_of-snoc has_name (λ x. x.id) q t.companies c (ground arith))
      ∙ sym (all_of-append q (company_ids t) (alias_ids t))
      ∙ h

  -- An update of a company keeps its id and its name.
  pub updated_company_owners :
      (id : ℕ) (candidate : CompanyCandidate) (website : Option String) (t : Tables)
      → company_identity_name_owner_ids
          (record t {
            companies =
                change_first (λ row. row.id == id) (updated_company candidate website) t.companies;
          })
          name
        ≡ company_identity_name_owner_ids t name
  unfolding company_identity_name_owner_ids
  updated_company_owners id candidate website t =
      ap (λ ids. ids ++ alias_ids t) (ids-change_first name id candidate website t.companies)
