-- ===== src/Ingestion/Persistence/Keeping.antt =====
-- What a computation keeps true of the tables, step by step.
use job_search.Base.{String, Bool, true, false, Option, none, some, List, Outcome, returned, raised}
use job_search.Ingestion.Persistence.{
  Tables, Write, ◌>>=◌, pure, gets, modify, demand, or_fail, lift, Externals,
}
use job_search.Ingestion.Persistence.Conflicts.{Model, change, insert_or_reselect}
use job_search.Ingestion.Persistence.Documents.{document_model}
use job_search.Ingestion.Persistence.Companies.{company_model, alias_model}
use job_search.Ingestion.Persistence.Records.{company_source_model}
use job_search.Ingestion.Persistence.Filings.{filing_model}
use job_search.Ingestion.Persistence.Profiles.{profile_field_model}
use job_search.Ingestion.Persistence.Endings.{Ends, Ends-continue_with, insert_or_reselect-Ends}

-- The computation keeps a predicate on the tables.
pub record Keeps {A : Type 0} (P : Tables → Type 0) (m : Write A) : Type 0 where
  pub keeps : (t : Tables) → P t → Ends (m t) (λ a t'. P t')

-- The rows of a class may be written.
abbrev pub IsFreeOf : {A : Type 0} → (Tables → Type 0) → Model A → Type 0
IsFreeOf {A} P model = (t : Tables) (rows : List A) → P t → P (model.with_rows rows t)

module _ (P : Tables → Type 0) where
  pub bind-Keeps :
      {A B : Type 0} {m : Write A} {f : A → Write B}
      → Keeps P m
      → ((a : A) → Keeps P (f a))
      → Keeps P (m >>= f)
  bind-Keeps {m} {f} h k = record {
    keeps = λ t p. Ends-continue_with (m t) f (h.keeps t p) (λ a t' p'. (k a).keeps t' p');
  }

  pub pure-Keeps : {A : Type 0} (a : A) → Keeps P (pure a)
  pure-Keeps a = record { keeps = λ t p. record { ended = p } }

  pub gets-Keeps : {A : Type 0} (f : Tables → A) → Keeps P (gets f)
  gets-Keeps f = record { keeps = λ t p. record { ended = p } }

  pub modify-Keeps : (f : Tables → Tables) → ((t : Tables) → P t → P (f t)) → Keeps P (modify f)
  modify-Keeps f k = record { keeps = λ t p. record { ended = k t p } }

  pub demand-Keeps : (test : Bool) (e : String) → Keeps P (demand test e)
  demand-Keeps true e = record { keeps = λ t p. record { ended = p } }
  demand-Keeps false e = record { keeps = λ t p. record { ended = tt } }

  pub or_fail-Keeps : {A : Type 0} (found : Option A) (e : String) → Keeps P (or_fail found e)
  or_fail-Keeps none e = record { keeps = λ t p. record { ended = tt } }
  or_fail-Keeps (some a) e = record { keeps = λ t p. record { ended = p } }

  pub lift-Keeps : {A : Type 0} (o : Outcome A) → Keeps P (lift o)
  lift-Keeps (returned a) = record { keeps = λ t p. record { ended = p } }
  lift-Keeps (raised e) = record { keeps = λ t p. record { ended = tt } }

  pub change-Keeps :
      {A : Type 0} (model : Model A) (test : A → Bool) (f : A → A)
      → IsFreeOf P model
      → Keeps P (change model test f)
  change-Keeps model test f free = record { keeps = λ t p. record { ended = free t _ p } }

  pub insert_or_reselect-Keeps :
      {A : Type 0} (ext : Externals) (model : Model A) (identity : Tables → Option A)
      (constraint : String) (candidate : A)
      → ((t : Tables) → P t → P (ext.rival t))
      → IsFreeOf P model
      → Keeps P (insert_or_reselect ext model identity constraint candidate)
  insert_or_reselect-Keeps ext model identity constraint candidate calm free = record {
    keeps = λ t p.
        insert_or_reselect-Ends ext model identity constraint candidate t
          (λ new. free (ext.rival t) _ (calm t p)) (λ winner found. calm t p);
  }

  pub ruleset steps = (
    bind-Keeps, pure-Keeps, gets-Keeps, modify-Keeps, demand-Keeps, or_fail-Keeps, lift-Keeps,
    change-Keeps, insert_or_reselect-Keeps,
  )

-- What only jobs and claims are about: other sessions keep it, and no row of another class matters.
pub record IsApart (ext : Externals) (P : Tables → Type 0) : Type 0 where
  pub calm : (t : Tables) → P t → P (ext.rival t)
  pub documents : IsFreeOf P document_model
  pub companies : IsFreeOf P company_model
  pub aliases : IsFreeOf P alias_model
  pub company_sources : IsFreeOf P company_source_model
  pub filings : IsFreeOf P filing_model
  pub profile_fields : IsFreeOf P profile_field_model
