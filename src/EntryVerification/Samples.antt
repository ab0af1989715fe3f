-- ===== src/EntryVerification/Samples.antt =====
-- The verification of entries at a concrete company, whose first page is not its own.
use job_search.Base.{String, ◌≡◌, refl, Bool, true, false, none, some, List, [], ◌∷◌, if◌then◌else◌}
use job_search.EntryVerification.Contracts.{verified, unverified, member, EntryVerificationBudget}
use job_search.EntryVerification.Service.{
  EntryCandidateInput, Visit, initial, progress_of, start_requests, concluded, check_candidate,
  drain, after_round, find_verified_entry,
}
use job_search.EntryVerification.Service.Limits.{IsWithin, find_verified_entry-IsWithin}
use job_search.EntryVerification.Service.Outcomes.{IsSound, find_verified_entry-IsSound}
use job_search.EntryVerification.Service.Exhaustion.{Exhausts, drain-Exhausts}

abbrev candidate : String → Bool → EntryCandidateInput
candidate url linked = record {
  url = url;
  trusted_existing_binding = false;
  linked_from_verified_website = linked;
}

-- The validator takes two requests, and verifies what is linked from the website.
abbrev visit : EntryCandidateInput → Visit
visit c = record {
  starts = 2;
  answer =
      if c.linked_from_verified_website
      then record {
        candidate_url = c.url;
        final_url = some c.url;
        status = verified;
        reason_code = none;
        http_requests = 2;
        ownership_evidence = some "verified_website_link";
      }
      else record {
        candidate_url = c.url;
        final_url = some c.url;
        status = unverified;
        reason_code = some "not_recruiting_page";
        http_requests = 2;
        ownership_evidence = none;
      };
}

abbrev key : String → String
key url = url

abbrev budget : EntryVerificationBudget
budget = record { max_search_calls = 1; max_candidates = 3; max_http_requests = 5 }

abbrev old_page : EntryCandidateInput
old_page = candidate "https://old.example" false

abbrev careers : EntryCandidateInput
careers = candidate "https://acme.example/careers" true

-- The first page costs two requests, the second is verified at a total of four.
finds_careers :
    (find_verified_entry key visit budget (old_page ∷ []) (careers ∷ []) none).1.requests ≡ 4
unfolding find_verified_entry drain after_round check_candidate member concluded start_requests
finds_careers = refl

find_verified_entry-IsWithin_example :
    IsWithin key visit budget
      (find_verified_entry key visit budget (old_page ∷ []) (careers ∷ []) none).1
find_verified_entry-IsWithin_example =
    find_verified_entry-IsWithin key visit budget (old_page ∷ []) (careers ∷ []) none

find_verified_entry-IsSound_example :
    IsSound key visit budget
      (old_page ∷ careers ∷ [])
      (find_verified_entry key visit budget (old_page ∷ []) (careers ∷ []) none)
find_verified_entry-IsSound_example =
    find_verified_entry-IsSound key visit budget (old_page ∷ []) (careers ∷ []) none

-- A candidate that comes twice is checked once.
abbrev queue : List EntryCandidateInput
queue = old_page ∷ candidate "https://acme.example" false ∷ old_page ∷ []

drain-Exhausts_example :
    Exhausts key visit budget queue (progress_of (drain key visit budget queue initial))
unfolding drain check_candidate member concluded start_requests
drain-Exhausts_example =
    drain-Exhausts key visit budget queue (progress_of (drain key visit budget queue initial)) refl
