-- ===== src/Manifest/Members/Rounds.antt =====
-- The loops that interleave the categories in backend/app/manifest/allocation.py.
use job_search.Base.{
  map-append, count_of-append, any_item, count_of-any, ℕ, zero, suc, ◌+◌, ◌≤◌, String, true, all_of,
  ◌≡◌, refl, sym, ap, ◌∙◌, inl, inr, Bool, false, Option, none, some, List, [], ◌∷◌, ◌++◌, map,
  count_of, length, take, ltb, ◌==◌, arith, Outcome, returned, Bool-cases, if◌then◌else◌,
}
use job_search.Apportion.{sum_of}
use job_search.Manifest.Members.{ResolvedCandidate, ManifestMemberData, item_at, interleave}
use job_search.Manifest.Members.Validation.{is_valid, row_of, add_row, add_rows, add_round-add_rows}

-- The numbers from one.
pub count_up : ℕ → List ℕ
count_up zero = []
count_up (suc n) = count_up n ++ suc n ∷ []

length-snoc {ℓ} : {A : Type ℓ} (xs : List A) (x : A) → length (xs ++ x ∷ []) ≡ suc (length xs)
length-snoc [] x = refl
length-snoc (y ∷ xs) x = ap suc (length-snoc xs x)

module _ (read_url : String → Outcome String) where
  abbrev pub IsNumbered : List ManifestMemberData → Type 0
  IsNumbered members = map (λ m. m.position) members ≡ count_up (length members)

  add_row-IsNumbered :
      (c : Option ResolvedCandidate) (members : List ManifestMemberData)
      → IsNumbered members
      → IsNumbered (add_row read_url c members)
  unfolding count_up
  add_row-IsNumbered none members h = h
  add_row-IsNumbered (some c) members h =
      map-append (λ m. m.position) members (row_of read_url (suc (length members)) c ∷ [])
      ∙ ap (λ ns. ns ++ suc (length members) ∷ []) h
      ∙ ap count_up (sym (length-snoc members (row_of read_url (suc (length members)) c)))

  add_rows-IsNumbered :
      (offset : ℕ) (lists : List (List ResolvedCandidate)) (members : List ManifestMemberData)
      → IsNumbered members
      → IsNumbered (add_rows read_url offset lists members)
  unfolding add_rows
  add_rows-IsNumbered offset [] members h = h
  add_rows-IsNumbered offset (selected ∷ lists) members h =
      add_rows-IsNumbered offset lists (add_row read_url (item_at offset selected) members)
        (add_row-IsNumbered (item_at offset selected) members h)

  module _ (p : ResolvedCandidate → Bool) (p' : ManifestMemberData → Bool)
      (agrees : (n : ℕ) (c : ResolvedCandidate) → p' (row_of read_url n c) ≡ p c) where
    abbrev hit : ℕ → List ResolvedCandidate → ℕ
    hit offset selected = elim (item_at offset selected) [
      | none ↦ 0
      | some c ↦ if p c then 1 else 0
    ]

    count_of-take :
        (k : ℕ) (xs : List ResolvedCandidate)
        → count_of p (take (suc k) xs) ≡ count_of p (take k xs) + hit k xs
    unfolding item_at
    count_of-take zero [] = omega arith
    count_of-take (suc k) [] = omega arith
    count_of-take zero (x ∷ xs) = omega arith
    count_of-take (suc k) (x ∷ xs) = omega (arith, count_of-take k xs)

    count_of-add_row :
        (c : Option ResolvedCandidate) (members : List ManifestMemberData)
        → count_of p' (add_row read_url c members)
          ≡ count_of p' members + elim c [ none ↦ 0 | some c ↦ if p c then 1 else 0 ]
    count_of-add_row none members = omega arith
    count_of-add_row (some c) members =
        count_of-append p' members (row_of read_url (suc (length members)) c ∷ [])
        ∙ rw (agrees (suc (length members)) c) (omega arith)

    -- A round adds what it finds.
    count_of-add_rows :
        (offset : ℕ) (lists : List (List ResolvedCandidate)) (members : List ManifestMemberData)
        → count_of p' (add_rows read_url offset lists members)
          ≡ count_of p' members + sum_of (hit offset) lists
    unfolding add_rows
    count_of-add_rows offset [] members = omega arith
    count_of-add_rows offset (selected ∷ lists) members = omega (
      arith,
      count_of-add_rows offset lists (add_row read_url (item_at offset selected) members),
      count_of-add_row (item_at offset selected) members,
    )

    pub fewer :
        (k : ℕ) (lists : List (List ResolvedCandidate))
        → sum_of (λ xs. count_of p (take k xs)) lists ≤ sum_of (count_of p) lists
    fewer k [] = omega arith
    fewer k (xs ∷ lists) = omega (arith, one k xs, fewer k lists)
      where
        one : (k : ℕ) (xs : List ResolvedCandidate) → count_of p (take k xs) ≤ count_of p xs
        one zero xs = omega arith
        one (suc k) [] = omega arith
        one (suc k) (x ∷ xs) = omega (arith, one k xs)

    -- What is missing among those that pass is missing altogether.
    pub missing :
        (k : ℕ) (lists : List (List ResolvedCandidate))
        → sum_of (count_of p) lists + sum_of (λ xs. length (take k xs)) lists
          ≤ sum_of (λ xs. count_of p (take k xs)) lists + sum_of length lists
    missing k [] = omega arith
    missing k (xs ∷ lists) = omega (arith, one k xs, missing k lists)
      where
        at_most : (xs : List ResolvedCandidate) → count_of p xs ≤ length xs
        at_most [] = omega arith
        at_most (x ∷ xs) = elim (Bool-cases (p x)) [
          | inl e ↦ rw e (omega (arith, at_most xs))
          | inr e ↦ rw e (omega (arith, at_most xs))
        ]

        one :
            (k : ℕ) (xs : List ResolvedCandidate)
            → count_of p xs + length (take k xs) ≤ count_of p (take k xs) + length xs
        one zero xs = omega (arith, at_most xs)
        one (suc k) [] = omega arith
        one (suc k) (x ∷ xs) = omega (arith, one k xs)

    sum_of-take-suc :
        (k : ℕ) (lists : List (List ResolvedCandidate))
        → sum_of (λ xs. count_of p (take (suc k) xs)) lists
          ≡ sum_of (λ xs. count_of p (take k xs)) lists + sum_of (hit k) lists
    sum_of-take-suc k [] = omega arith
    sum_of-take-suc k (xs ∷ lists) = omega (arith, count_of-take k xs, sum_of-take-suc k lists)

  sum_of-any :
      (k : ℕ) (lists : List (List ResolvedCandidate))
      → sum_of (λ xs. count_of any_item (take k xs)) lists ≡ sum_of (λ xs. length (take k xs)) lists
  sum_of-any k [] = refl
  sum_of-any k (xs ∷ lists) = omega (arith, count_of-any (take k xs), sum_of-any k lists)

  sum_of-any_whole :
      (lists : List (List ResolvedCandidate))
      → sum_of (count_of any_item) lists ≡ sum_of length lists
  sum_of-any_whole [] = refl
  sum_of-any_whole (xs ∷ lists) = omega (arith, count_of-any xs, sum_of-any_whole lists)

  -- The number of members that a round adds.
  abbrev found_in : ℕ → List (List ResolvedCandidate) → ℕ
  found_in k lists = sum_of (hit any_item any_item (λ n c. refl) k) lists

  length-add_rows :
      (k : ℕ) (lists : List (List ResolvedCandidate)) (members : List ManifestMemberData)
      → length (add_rows read_url k lists members) ≡ length members + found_in k lists
  length-add_rows k lists members = omega (
    arith,
    count_of-add_rows any_item any_item (λ n c. refl) k lists members,
    count_of-any members,
    count_of-any (add_rows read_url k lists members),
  )

  -- A round that finds nothing comes after all lists are used up.
  used_up :
      (k : ℕ) (lists : List (List ResolvedCandidate))
      → found_in k lists ≡ 0
      → sum_of length lists ≤ sum_of (λ xs. length (take k xs)) lists
  unfolding item_at
  used_up k [] h = omega arith
  used_up k (xs ∷ lists) h =
      omega (arith, one k xs (omega (arith, h)), used_up k lists (omega (arith, h)))
    where
      one :
          (k : ℕ) (xs : List ResolvedCandidate)
          → hit any_item any_item (λ n c. refl) k xs ≡ 0
          → length xs ≤ length (take k xs)
      one zero [] d = omega arith
      one (suc k) [] d = omega arith
      one zero (x ∷ xs) d = omega (arith, d)
      one (suc k) (x ∷ xs) d = omega (arith, one k xs d)

  -- The members are numbered, and of the candidates of each list a number has come in.
  pub record HasTaken (k : ℕ) (lists : List (List ResolvedCandidate))
      (members : List ManifestMemberData) : Type 0 where
    pub numbered : IsNumbered members
    pub counts :
        (p : ResolvedCandidate → Bool) (p' : ManifestMemberData → Bool)
        → ((n : ℕ) (c : ResolvedCandidate) → p' (row_of read_url n c) ≡ p c)
        → count_of p' members ≡ sum_of (λ xs. count_of p (take k xs)) lists

  length-HasTaken :
      (k : ℕ) (lists : List (List ResolvedCandidate)) (members : List ManifestMemberData)
      → HasTaken k lists members
      → length members ≡ sum_of (λ xs. length (take k xs)) lists
  length-HasTaken k lists members h =
      omega
        (arith, h.counts any_item any_item (λ n c. refl), count_of-any members, sum_of-any k lists)

  HasTaken-add_rows :
      (k : ℕ) (lists : List (List ResolvedCandidate)) (members : List ManifestMemberData)
      → HasTaken k lists members
      → HasTaken (suc k) lists (add_rows read_url k lists members)
  HasTaken-add_rows k lists members h = record {
    numbered = add_rows-IsNumbered k lists members h.numbered;
    counts = λ p p' agrees. omega (
      arith,
      h.counts p p' agrees,
      count_of-add_rows p p' agrees k lists members,
      sum_of-take-suc p p' agrees k lists,
    );
  }

  pub HasTaken-start : (lists : List (List ResolvedCandidate)) → HasTaken 0 lists []
  unfolding count_up
  HasTaken-start lists = record { numbered = refl; counts = λ p p' agrees. nothing p lists }
    where
      nothing :
          (p : ResolvedCandidate → Bool) (xss : List (List ResolvedCandidate))
          → 0 ≡ sum_of (λ xs. count_of p (take 0 xs)) xss
      nothing p [] = refl
      nothing p (xs ∷ xss) = omega (arith, nothing p xss)

  -- All candidates of the lists have come in, and the members are numbered from one.
  pub record Interleaved (lists : List (List ResolvedCandidate))
      (answer : Outcome (List ManifestMemberData)) : Type 0 where
    pub members : List ManifestMemberData
    pub answered : answer ≡ returned members
    pub numbered : map (λ m. m.position) members ≡ count_up (sum_of length lists)
    pub counts :
        (p : ResolvedCandidate → Bool) (p' : ManifestMemberData → Bool)
        → ((n : ℕ) (c : ResolvedCandidate) → p' (row_of read_url n c) ≡ p c)
        → count_of p' members ≡ sum_of (count_of p) lists

  finished :
      (k : ℕ) (lists : List (List ResolvedCandidate)) (members : List ManifestMemberData)
      → HasTaken k lists members
      → sum_of length lists ≤ length members
      → Interleaved lists (returned members)
  finished k lists members h full =
      let taken = length-HasTaken k lists members h in
      record {
        members = members;
        answered = refl;
        numbered = h.numbered ∙ ap count_up (exact taken);
        counts = λ p p' agrees. omega (
          arith,
          h.counts p p' agrees,
          taken,
          full,
          fewer p p' agrees k lists,
          missing p p' agrees k lists,
        );
      }
    where
      exact :
          length members ≡ sum_of (λ xs. length (take k xs)) lists
          → length members ≡ sum_of length lists
      exact e = omega (
        arith,
        e,
        full,
        fewer any_item any_item (λ n c. refl) k lists,
        sum_of-any k lists,
        sum_of-any_whole lists,
      )

  not_ltb : (a b : ℕ) → b ≤ a → ltb a b ≡ false
  not_ltb a b h = ground arith

  -- Of lists, no more members come in than there are candidates.
  length-add_rows_le :
      (k : ℕ) (lists : List (List ResolvedCandidate)) (members : List ManifestMemberData)
      → HasTaken k lists members
      → length (add_rows read_url k lists members) ≤ sum_of length lists
  length-add_rows_le k lists members h = omega (
    arith,
    length-HasTaken (suc k) lists (add_rows read_url k lists members)
        (HasTaken-add_rows k lists members h),
    fewer any_item any_item (λ n c. refl) (suc k) lists,
    sum_of-any (suc k) lists,
    sum_of-any_whole lists,
  )

  pub interleave-Interleaved :
      (fuel k : ℕ) (lists : List (List ResolvedCandidate)) (members : List ManifestMemberData)
      → sum_of length lists ≤ 1000
      → all_of (all_of (is_valid read_url)) lists ≡ true
      → HasTaken k lists members
      → sum_of length lists ≤ length members + fuel
      → Interleaved lists (interleave read_url fuel k (sum_of length lists) lists members)
  unfolding interleave
  interleave-Interleaved zero k lists members small valid h enough =
      let full : sum_of length lists ≤ length members = omega (arith, enough) in
      rw (not_ltb (length members) (sum_of length lists) full) (finished k lists members h full)
  interleave-Interleaved (suc fuel) k lists members small valid h enough =
      let after = add_rows read_url k lists members in
      let round =
        add_round-add_rows read_url k lists members valid
          (omega (arith, small, length-add_rows_le k lists members h)) in
      let grown = length-add_rows k lists members in
      elim (Bool-cases (ltb (length members) (sum_of length lists))) [
        | inl e ↦ elim (Bool-cases (length after == length members)) [
          | inl d ↦
              let spent = used_up k lists (ground (arith, grown)) in
              let taken = length-HasTaken k lists members h in absurd (ground (arith, spent, taken))
          | inr d ↦
              rw (e, round, d)
                (interleave-Interleaved fuel (suc k) lists after small valid
                  (HasTaken-add_rows k lists members h) (ground (arith, grown)))
        ]
        | inr e ↦ rw e (finished k lists members h (ground arith))
      ]
