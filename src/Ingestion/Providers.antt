-- ===== src/Ingestion/Providers.antt =====
-- The providers of a run and their outcomes: `_collect_providers`, `_merge_outcome_dicts` and
-- `_merge_outcomes` of backend/app/ingestion/orchestrator.py. A dictionary of outcomes by the index of
-- the provider is a table. Documents and parsed jobs are any types.
use job_search.Base.{
  ℕ, String, Bool, ◌||◌, not, Option, none, some, List, [], ◌∷◌, ◌++◌, map, ltb, is_none,
  if◌then◌else◌,
}
use job_search.Base.Table
use job_search.Base.Table.{Table}
use job_search.Apportion.{sort_by}

pub record ProviderFetchStats : Type 0 where
  pub provider : String
  pub platform : Option String
  pub entries_discovered : ℕ
  pub pages_fetched : ℕ
  pub parsed_jobs : ℕ
  pub blocked_pages : ℕ
  pub error_code : Option String

pub record ProviderQuery : Type 0 where
  pub query : String
  pub website : Option String
  pub allowed_hosts : List String
  pub max_results : ℕ

-- What `search` answers: a result, a `ProviderError` with its code, or any other exception.
pub data SearchAnswer (Doc Job : Type 0) : Type 0 where
  found :
      List Doc
      → List Job
      → (warnings : List String) → List ProviderFetchStats
      → SearchAnswer Doc Job
  provider_error : String → SearchAnswer Doc Job
  crashed : SearchAnswer Doc Job

pub record Provider (Doc Job : Type 0) : Type 0 where
  pub name : String
  pub requires_website : Bool
  pub search_for : ProviderQuery → SearchAnswer Doc Job

pub record ProviderOutcome (Doc Job : Type 0) : Type 0 where
  pub name : String
  pub documents : List Doc
  pub parsed_jobs : List Job
  pub issue : Option String
  pub stats : List ProviderFetchStats

pub data Detail : Type 0 where
  no_detail : Detail
  counted : ℕ → Detail
  fetched : ProviderFetchStats → Detail

pub record Diagnostic : Type 0 where
  pub stage : String
  pub code : String
  pub provider : Option String
  pub detail : Detail

abbrev pub issue_diagnostic : Option String → String → List Diagnostic
issue_diagnostic none name = []
issue_diagnostic (some code) name =
    record { stage = "provider"; code = code; provider = some name; detail = no_detail } ∷ []

stats_diagnostics : String → List ProviderFetchStats → List Diagnostic
stats_diagnostics name [] = []
stats_diagnostics name (stat ∷ stats) =
    let rest = stats_diagnostics name stats in
    if ltb 0 stat.blocked_pages || not (is_none stat.error_code)
    then record {
      stage = "provider";
      code = "fetch_stats";
      provider = some name;
      detail = fetched stat;
    }
      ∷ rest
    else rest

pub record MergedOutcomes (Doc : Type 0) : Type 0 where
  pub providers_attempted : List String
  pub documents : List Doc
  pub provider_error_code : Option String
  pub diagnostics : List Diagnostic

-- `a or b`, for texts that are not empty.
abbrev pub or_else {ℓ} : {A : Type ℓ} → Option A → Option A → Option A
or_else none o = o
or_else (some a) o = some a

-- `is_public` is the match of a code against `_PUBLIC_CODE`.
module _ (is_public : String → Bool) where
  pub public_code : Option String → String → String
  public_code none fallback = fallback
  public_code (some code) fallback = if is_public code then code else fallback

  abbrev pub warning_code : String → String
  warning_code warning = if is_public warning then warning else "provider_warning"

  pub first_warning : Option String → List String → Option String
  first_warning issue [] = issue
  first_warning issue (w ∷ ws) = first_warning (or_else issue (some (warning_code w))) ws

  module _ {Doc Job : Type 0} where
    pub outcome_of : String → SearchAnswer Doc Job → ProviderOutcome Doc Job
    outcome_of name (found documents jobs warnings stats) = record {
      name = name;
      documents = documents;
      parsed_jobs = jobs;
      issue = first_warning none warnings;
      stats = stats;
    }
    outcome_of name (provider_error code) = record {
      name = name;
      documents = [];
      parsed_jobs = [];
      issue = some (public_code (some code) "provider_unavailable");
      stats = [];
    }
    outcome_of name crashed = record {
      name = name;
      documents = [];
      parsed_jobs = [];
      issue = some "provider_unavailable";
      stats = [];
    }

    -- The loop of `_collect_providers`.
    collect_into :
        List (ℕ × Provider Doc Job)
        → ProviderQuery
        → Table (ProviderOutcome Doc Job)
        → Table (ProviderOutcome Doc Job)
    collect_into [] query outcomes = outcomes
    collect_into ((index, provider) ∷ rest) query outcomes =
        collect_into rest query
          (Table.put index (outcome_of provider.name (provider.search_for query)) outcomes)

    pub collect_providers :
        List (ℕ × Provider Doc Job) → ProviderQuery → Table (ProviderOutcome Doc Job)
    unfolding collect_into
    collect_providers providers query = collect_into providers query []

module _ {Doc Job : Type 0} where
  abbrev pub merge_outcome :
      Option (ProviderOutcome Doc Job) → ProviderOutcome Doc Job → ProviderOutcome Doc Job
  merge_outcome none outcome = outcome
  merge_outcome (some prev) outcome = record {
    name = prev.name;
    documents = prev.documents ++ outcome.documents;
    parsed_jobs = prev.parsed_jobs ++ outcome.parsed_jobs;
    issue = or_else prev.issue outcome.issue;
    stats = prev.stats ++ outcome.stats;
  }

  pub merge_outcome_dicts :
      Table (ProviderOutcome Doc Job)
      → Table (ProviderOutcome Doc Job)
      → Table (ProviderOutcome Doc Job)
  merge_outcome_dicts existing [] = existing
  merge_outcome_dicts existing ((index, outcome) ∷ new) =
      merge_outcome_dicts
        (Table.put index (merge_outcome (Table.get index existing) outcome) existing) new

  abbrev pub concat_of :
      {B : Type 0} → (ProviderOutcome Doc Job → List B) → List (ProviderOutcome Doc Job) → List B
  concat_of f [] = []
  concat_of f (o ∷ os) = f o ++ concat_of f os

  abbrev pub first_issue : List (ProviderOutcome Doc Job) → Option String
  first_issue [] = none
  first_issue (o ∷ os) = or_else o.issue (first_issue os)

  pub merge_outcomes : Table (ProviderOutcome Doc Job) → MergedOutcomes Doc
  unfolding stats_diagnostics
  merge_outcomes outcomes =
      let ordered = Table.rows (sort_by (λ x a. ltb x.0 a.0) outcomes) in
      record {
        providers_attempted = map (λ o. o.name) ordered;
        documents = concat_of (λ o. o.documents) ordered;
        provider_error_code = first_issue ordered;
        diagnostics =
            concat_of (λ o. issue_diagnostic o.issue o.name) ordered
            ++ concat_of (λ o. stats_diagnostics o.name o.stats) ordered;
      }
