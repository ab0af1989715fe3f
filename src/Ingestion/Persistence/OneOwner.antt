-- ===== src/Ingestion/Persistence/OneOwner.antt =====
-- `_upsert_company_locked` of `PersistenceService` (backend/app/ingestion/persistence/service.py) and the
-- owners of one name.
use job_search.Base.{
  first, All, all_of, inl, inr, Option-cases, ℕ, String, ◌==◌, ◌≡◌, refl, Bool, true, false, Option,
  none, some, List, [], ◌∷◌,
}
use job_search.Ingestion.Persistence.{Company, CompanyAlias, Tables, Externals, demand}
use job_search.Ingestion.Persistence.Contracts.{NormalizedCompanyRecord}
use job_search.Ingestion.Persistence.Conflicts.{insert, change_first}
use job_search.Ingestion.Persistence.Companies.{
  alias_model, company_of_name, alias_of_name, owns_name, stored_company_alias,
  upsert_company_alias, upsert_company_aliases, company_identity_name_owner_ids, is_allowed,
  website_owner_ids, company_identity_website, website_column, check_identity, resolved_company,
  stored_company, upsert_company_locked, company_identity_names, aliases_by_normalized,
  updated_company,
}
use job_search.Ingestion.Persistence.Endings.{
  Ends, Ends_mono, Ends-continue_with, Ends-demand, Ends-or_fail, Ends-lift,
  insert_or_reselect-Ends,
}
use job_search.Ingestion.Persistence.Keeping.{
  Keeps, bind-Keeps, gets-Keeps, demand-Keeps, pure-Keeps,
}
use job_search.Ingestion.Persistence.Ownership.{IsLockedName, aliases_by_normalized-IsLockedName}

-- A predicate that new aliases of one company keep, for the names that are locked.
module _ (ext : Externals) (item : NormalizedCompanyRecord) (P : Tables → Type 0) (company_id : ℕ)
    (calm : (t : Tables) → P t → P (ext.rival t))
    (added : (a : CompanyAlias) (t : Tables)
      → a.company_id ≡ company_id
      → IsLockedName ext item a.normalized_alias
      → P t
      → P (insert alias_model a t)) where
  stored_company_alias-Keeps :
      (entry : String × String) (found : Option CompanyAlias)
      → IsLockedName ext item entry.0
      → Keeps P (stored_company_alias ext company_id entry found)
  unfolding stored_company_alias
  stored_company_alias-Keeps entry (some a) locked = pure-Keeps P a
  stored_company_alias-Keeps entry none locked = bind-Keeps P (gets-Keeps P ext.uuid) (λ id.
      let a : CompanyAlias = record {
        id = id;
        company_id = company_id;
        alias = entry.1;
        normalized_alias = entry.0;
      } in
      bind-Keeps P
        (record {
          keeps = λ t p.
              insert_or_reselect-Ends ext alias_model (alias_of_name entry.0)
                "uq_company_alias_normalized_alias" a t
                (λ new. added a (ext.rival t) refl locked (calm t p)) (λ winner found. calm t p);
        })
        (λ r. pure-Keeps P r.0))

  upsert_company_alias-Keeps :
      (entry : String × String)
      → IsLockedName ext item entry.0
      → Keeps P (upsert_company_alias ext company_id entry)
  unfolding upsert_company_alias
  upsert_company_alias-Keeps entry locked =
      bind-Keeps P (gets-Keeps P (company_of_name entry.0)) (λ owner.
        bind-Keeps P
          (demand-Keeps P (owns_name ext company_id owner)
            "company alias is owned by another company")
          (λ owned. bind-Keeps P (gets-Keeps P (alias_of_name entry.0)) (λ found.
            bind-Keeps P (stored_company_alias-Keeps entry found locked) (λ a.
              demand-Keeps P (a.company_id == company_id)
                "company alias is owned by another company"))))

  upsert_company_aliases-Keeps :
      (entries : List (String × String))
      → All (λ entry. IsLockedName ext item entry.0) entries
      → Keeps P (upsert_company_aliases ext company_id entries)
  unfolding upsert_company_aliases
  upsert_company_aliases-Keeps [] locked = pure-Keeps P tt
  upsert_company_aliases-Keeps (entry ∷ entries) locked =
      bind-Keeps P (upsert_company_alias-Keeps entry locked.0)
        (λ done. upsert_company_aliases-Keeps entries locked.1)

demand-Ends : (test : Bool) (e : String) (t : Tables) → Ends (demand test e t) (λ done t'. t' ≡ t)
demand-Ends true e t = record { ended = refl }
demand-Ends false e t = record { ended = tt }

-- What the check has found of the names, on the tables that it has left alone.
abbrev pub IsChecked : Externals → NormalizedCompanyRecord → Option Company → Tables → Type 0
IsChecked ext item found t =
    all_of (λ name. all_of (is_allowed found) (company_identity_name_owner_ids t name))
      (company_identity_names ext item)
    ≡ true

module _ (ext : Externals) (item : NormalizedCompanyRecord) where
  resolved_company-Ends : (t : Tables) → Ends (resolved_company item t) (λ found t'. t' ≡ t)
  unfolding resolved_company
  resolved_company-Ends t = elim (Option-cases item.company_id) [
    | inl unknown ↦ rw unknown (record { ended = refl })
    | inr (id, known) ↦ rw known (
        Ends-or_fail (first (λ c. c.id == id) t.companies) "unknown company_id" _ t
          (λ c e. record { ended = refl }))
  ]

  check_identity-Ends :
      (found : Option Company) (t : Tables)
      → Ends
          (check_identity ext item (company_identity_names ext item) found t)
          (λ done t'. (t' ≡ t) × IsChecked ext item found t)
  unfolding check_identity
  check_identity-Ends found t =
      Ends-demand _ "company identity name is owned by another company" _ t (λ checked.
        Ends-lift (company_identity_website ext item.candidate.website) _ t (λ website e.
          Ends_mono
            (demand (all_of (is_allowed found) (website_owner_ids t website))
              "company website identity is owned by another company" t)
            (demand-Ends _ _ t) (λ done t' h. (h, checked))))

  -- A predicate that the writes of the record keep, once it holds of the company that is found.
  module _ (P : ℕ → Tables → Type 0) (start : Tables → Type 0)
      (calm : (c : ℕ) (t : Tables) → P c t → P c (ext.rival t))
      (added : (a : CompanyAlias) (t : Tables)
        → IsLockedName ext item a.normalized_alias
        → P a.company_id t
        → P a.company_id (insert alias_model a t))
      (updated : (c id : ℕ) (website : Option String) (t : Tables)
        → P c t
        → P c (record t {
          companies =
              change_first
                (λ row. row.id == id)
                (updated_company item.candidate website)
                t.companies;
        }))
      (stored : (found : Option Company) (t : Tables)
        → start t
        → IsChecked ext item found t
        → Ends (stored_company ext item found t) (λ c t'. P c.id t'))
      (same : item.normalized_name ≡ ext.normalize_name item.candidate.name) where
    pub upsert_company_locked-Ends :
        (t : Tables)
        → start t
        → Ends
            (upsert_company_locked ext item (company_identity_names ext item) t)
            (λ c t'. P c.0 t')
    unfolding upsert_company_locked
    upsert_company_locked-Ends t begun =
        Ends-continue_with (resolved_company item t) _ (resolved_company-Ends t) (λ found t1 e1.
          Ends-continue_with (check_identity ext item (company_identity_names ext item) found t1) _
            (check_identity-Ends found t1)
            (λ done t2 h2.
              Ends-continue_with (stored_company ext item found t2) _
                (stored found t2 (rw (h2.0, e1) begun) (rw (h2.0) (h2.1)))
                (λ c t3 h3. Ends-lift (website_column ext item.candidate.website) _ t3 (λ website e.
                  Ends-continue_with
                    (upsert_company_aliases ext c.id
                      (aliases_by_normalized ext c.normalized_name
                        (item.candidate.name ∷ item.candidate.aliases) [])
                      _)
                    _
                    ((upsert_company_aliases-Keeps ext item (P c.id) c.id (calm c.id)
                        (λ a u is_own locked p. rw (← is_own) (added a u locked (rw is_own p))) _
                        (aliases_by_normalized-IsLockedName ext item c.normalized_name same)).keeps
                      _ (updated c.id c.id website t3 h3))
                    (λ finished t4 h4. record { ended = h4 })))))
