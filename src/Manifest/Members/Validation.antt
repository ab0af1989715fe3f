-- ===== src/Manifest/Members/Validation.antt =====
-- The validation of members in backend/app/manifest/allocation.py, where it does not fail.
use Prim.Native.String.{count}
use job_search.Base.{
  ℕ, suc, ◌≤◌, ◌≡◌, refl, String, Bool, true, false, ◌&&◌, Option, none, some, List, [], ◌∷◌, ◌++◌,
  all_of, length, length-append, Option-cases, inl, inr, zero, leb, arith, Outcome, returned,
  raised, ◌>>=◌,
}
use job_search.Manifest.Members.{
  ResolvedCandidate, ManifestMemberData, item_at, read_optional_url, validate_company, member_of,
  add_member, add_round,
}

abbrev is_returned : Outcome String → Bool
is_returned (returned url) = true
is_returned (raised e) = false

abbrev value_of : Outcome String → Option String
value_of (returned url) = some url
value_of (raised e) = none

returned-read :
    (o : Outcome String)
    → is_returned o ≡ true
    → (o >>= λ url. returned (some url)) ≡ returned (value_of o)
returned-read (returned url) h = refl
returned-read (raised e) h = cc

module _ (read_url : String → Outcome String) where
  -- The fields of a company satisfy their constraints.
  abbrev pub is_readable : Option String → Bool
  is_readable none = true
  is_readable (some text) = is_returned (read_url text)

  abbrev pub is_valid : ResolvedCandidate → Bool
  is_valid c =
      leb 1 (count c.canonical_name)
      && leb (count c.canonical_name) 200
      && is_readable c.official_website
      && is_readable c.recruitment_url

  abbrev url_of : Option String → Option String
  url_of none = none
  url_of (some text) = value_of (read_url text)

  -- The member that a valid candidate becomes.
  abbrev pub row_of : ℕ → ResolvedCandidate → ManifestMemberData
  row_of position c = record {
    position = position;
    company = record {
      company_id = c.company_id;
      canonical_name = c.canonical_name;
      primary_category = c.primary_category;
      official_website = url_of c.official_website;
      recruitment_url = url_of c.recruitment_url;
    };
  }

  abbrev pub add_row : Option ResolvedCandidate → List ManifestMemberData → List ManifestMemberData
  add_row none members = members
  add_row (some c) members = members ++ row_of (suc (length members)) c ∷ []

  unfoldable pub add_rows :
      ℕ → List (List ResolvedCandidate) → List ManifestMemberData → List ManifestMemberData
  add_rows offset [] members = members
  add_rows offset (selected ∷ lists) members =
      add_rows offset lists (add_row (item_at offset selected) members)

  readable-read :
      (o : Option String)
      → is_readable o ≡ true
      → read_optional_url read_url o ≡ returned (url_of o)
  readable-read none h = refl
  readable-read (some text) h = returned-read (read_url text) h

  member_of-valid :
      (n : ℕ) (c : ResolvedCandidate)
      → suc n ≤ 1000
      → is_valid c ≡ true
      → member_of read_url (suc n) c ≡ returned (row_of (suc n) c)
  unfolding member_of validate_company
  member_of-valid n c b v =
      let name : leb 1 (count c.canonical_name) && leb (count c.canonical_name) 200 ≡ true =
        ground arith in
      let website = readable-read c.official_website (ground arith) in
      let recruitment = readable-read c.recruitment_url (ground arith) in
      let position : leb 1 (suc n) && leb (suc n) 1000 ≡ true = ground arith in
      rw (name, website, recruitment, position) refl

  all_of-item :
      (k : ℕ) (xs : List ResolvedCandidate) (c : ResolvedCandidate)
      → all_of is_valid xs ≡ true
      → item_at k xs ≡ some c
      → is_valid c ≡ true
  unfolding item_at
  all_of-item zero [] c v h = cc
  all_of-item (suc k) [] c v h = cc
  all_of-item zero (x ∷ xs) c v h = let same : x ≡ c = cc in rw (← same) (ground arith)
  all_of-item (suc k) (x ∷ xs) c v h = all_of-item k xs c (ground arith) h

  length-add_row :
      (c : Option ResolvedCandidate) (members : List ManifestMemberData)
      → length members ≤ length (add_row c members)
  length-add_row none members = ground arith
  length-add_row (some c) members =
      ground (arith, length-append members (row_of (suc (length members)) c ∷ []))

  length-add_rows :
      (k : ℕ) (lists : List (List ResolvedCandidate)) (members : List ManifestMemberData)
      → length members ≤ length (add_rows k lists members)
  unfolding add_rows
  length-add_rows k [] members = ground arith
  length-add_rows k (xs ∷ lists) members = omega (
    arith,
    length-add_row (item_at k xs) members,
    length-add_rows k lists (add_row (item_at k xs) members),
  )

  add_member-add_row :
      (k : ℕ) (xs : List ResolvedCandidate) (members : List ManifestMemberData)
      → all_of is_valid xs ≡ true
      → length (add_row (item_at k xs) members) ≤ 1000
      → add_member read_url (item_at k xs) members ≡ returned (add_row (item_at k xs) members)
  unfolding add_member
  add_member-add_row k xs members v b = elim (Option-cases (item_at k xs)) [
    | inl e ↦ rw e refl
    | inr (c, e) ↦
        let room : length (add_row (some c) members) ≤ 1000 = rw e at b in
        let position : suc (length members) ≤ 1000 =
          ground (arith, room, length-append members (row_of (suc (length members)) c ∷ [])) in
        rw e (rw (member_of-valid (length members) c position (all_of-item k xs c v e)) refl)
  ]

  -- A round over valid candidates does not raise before the thousandth member.
  pub add_round-add_rows :
      (k : ℕ) (lists : List (List ResolvedCandidate)) (members : List ManifestMemberData)
      → all_of (all_of is_valid) lists ≡ true
      → length (add_rows k lists members) ≤ 1000
      → add_round read_url k lists members ≡ returned (add_rows k lists members)
  unfolding add_round add_rows
  add_round-add_rows k [] members v b = refl
  add_round-add_rows k (xs ∷ lists) members v b =
      let after = add_row (item_at k xs) members in
      let here =
        add_member-add_row k xs members (ground arith)
          (omega (arith, b, length-add_rows k lists after)) in
      rw here (add_round-add_rows k lists after (ground arith) b)
