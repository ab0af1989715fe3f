-- ===== src/Ingestion/Persistence/Samples/Batch.antt =====
-- A batch of one document, a company that is known by its name, and two jobs: one that has a source, which
-- is now inactive, and a new one. The batch is persisted under the claim of a running run.
use job_search.Base.{String, Bool, true, false, none, some, [], ◌∷◌, returned}
use job_search.Collection.Models.{CrawlRun, CollectionRequest, RunType, running}
use job_search.Ingestion.DirectAts.{JobType, JobPosting, JobSource, VerificationStatus}
use job_search.Ingestion.Persistence.{Company, Tables, Externals}
use job_search.Ingestion.Persistence.Contracts.{
  EmploymentType, NormalizedBatch, NormalizedJobRecord, NormalizedDocument,
}

abbrev pub ext : Externals
ext = record {
  normalize_name = λ name. name;
  normalize_url = λ url. returned url;
  normalize_public_identity_url = λ url. returned url;
  content_hash = λ text. 7;
  plain_text_excerpt = λ text. text;
  uuid = λ t. 90;
  rival = λ t. t;
}

abbrev pub acme : Company
acme = record {
  id = 1;
  canonical_name = "Acme";
  normalized_name = "acme";
  industry = none;
  sub_industry = none;
  funding_stage = "unknown";
  scale = "unknown";
  city = none;
  headquarters = none;
  founded_year = none;
  website = none;
  normalized_website = "";
  description = none;
  last_collected_at = none;
}

abbrev pub cook : JobPosting
cook = record {
  id = 50;
  company_id = 1;
  title = "Cook";
  normalized_title = "cook";
  city = "Paris";
  job_type = JobType.unknown;
  salary_min_monthly = none;
  salary_max_monthly = none;
  salary_months = none;
  description = "";
  posted_at = none;
  is_active = true;
}

abbrev pub cook_source : JobSource
cook_source = record {
  id = 60;
  job_posting_id = 50;
  source_document_id = none;
  job_entry_id = none;
  provider = "feishu";
  source_raw_id = "a";
  apply_url = "https://jobs.example/a";
  first_seen_at = 2;
  last_seen_at = 2;
  is_active = true;
}

abbrev pub run : CrawlRun
run = record {
  id = 4;
  collection_request_id = some 5;
  company_id = none;
  run_type = RunType.on_demand;
  status = running;
  celery_task_id = none;
  providers_attempted = [];
  documents_found = 0;
  jobs_found = 0;
  jobs_written = 0;
  error_code = none;
  error_detail = none;
  claim_token = some 8;
  started_at = some 1;
  completed_at = none;
  created_at = 0;
}

abbrev pub request : CollectionRequest
request = record {
  id = 5;
  query = "Acme";
  normalized_query = "acme";
  status = running;
  company_id = none;
  error_code = none;
  completed_at = none;
  created_at = 0;
}

abbrev pub tables : Tables
tables = record {
  collection = record { runs = (4, run) ∷ []; requests = (5, request) ∷ [] };
  companies = acme ∷ [];
  aliases = [];
  documents = [];
  company_sources = [];
  postings = cook ∷ [];
  sources = cook_source ∷ [];
  filings = [];
  profile_fields = [];
}

abbrev pub job : String → String → Bool → NormalizedJobRecord
job title raw_id is_active = record {
  candidate = record {
    candidate = record {
      title = title;
      employment_type = some EmploymentType.full_time;
      location = some "Paris";
      salary = none;
      provider = some "feishu";
      source_raw_id = some raw_id;
      description = some "At the stove.";
      evidence_ids = "e" ∷ [];
    };
    normalized_title = title;
    normalized_city = "Paris";
    job_type = JobType.full_time;
    employment_type = some EmploymentType.full_time;
    salary_minimum_monthly = some 9000;
    salary_maximum_monthly = none;
    salary_months = some 13;
    warnings = "no maximum" ∷ [];
  };
  job_posting_id = none;
  source_evidence_id = some "e";
  apply_url = "https://jobs.example/a";
  posted_at = some 3;
  seen_at = 9;
  is_active = is_active;
}

abbrev pub document : NormalizedDocument
document = record {
  evidence_id = "e";
  document = record {
    provider = "feishu";
    external_id = some "doc";
    url = "https://acme.example";
    title = none;
    text = "Acme hires.";
    published_at = none;
    authority_level = none;
  };
  fetched_at = 9;
}

abbrev pub batch : NormalizedBatch
batch = record {
  documents = document ∷ [];
  company = record {
    candidate = record {
      name = "acme";
      aliases = "acme foods" ∷ [];
      website = some "https://acme.example";
      description = none;
      headquarters = none;
      founded_year = none;
      city = none;
      industry = some "food";
      sub_industry = none;
      funding_stage = "unknown";
      scale = "unknown";
      evidence_ids = [];
    };
    normalized_name = "acme";
    company_id = none;
    field_evidence = (record { field_name = "industry"; evidence_id = "e"; confidence = 800 }) ∷ [];
  };
  jobs = job "Cook" "a" false ∷ job "Baker" "b" true ∷ [];
  filings = [];
  profile_fields =
      (record {
        field_key = "motto";
        value = "Food.";
        source_evidence_id = "e";
        verification_status = VerificationStatus.verified;
      })
      ∷ [];
  collected_at = 9;
}
