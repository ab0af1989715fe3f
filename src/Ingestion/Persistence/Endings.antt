-- ===== src/Ingestion/Persistence/Endings.antt =====
-- What a computation on the tables ends with, step by step.
use text.Mathlib.Text.{◌==◌ as str_eq}
use job_search.Base.{
  inl, inr, Bool-cases, String, ◌≡◌, refl, Bool, true, false, Option, none, some, Outcome, returned,
  raised,
}
use job_search.Ingestion.Persistence.{
  Tables, Write, demand, or_fail, lift, continue_with, Externals,
}
use job_search.Ingestion.Persistence.Conflicts.{
  Model, reselected, insert, settle, insert_or_reselect,
}

-- What holds of the value and the tables where the computation returns, and nothing where it raises.
abbrev pub Ended {ℓ κ} : {A : Type ℓ} → Outcome (A × Tables) → (A → Tables → Type κ) → Type κ
Ended (returned (a, t)) Q = Q a t
Ended (raised e) Q = Unit

pub record Ends {ℓ κ} {A : Type ℓ} (o : Outcome (A × Tables)) (Q : A → Tables → Type κ)
    : Type κ where
  pub ended : Ended o Q

pub Ends_mono :
    {A : Type 0} {Q R : A → Tables → Type 0} (o : Outcome (A × Tables))
    → Ends o Q
    → ((a : A) (t : Tables) → Q a t → R a t)
    → Ends o R
Ends_mono (returned (a, t)) h k = record { ended = k a t h.ended }
Ends_mono (raised e) h k = record { ended = tt }

pub Ends_anyhow : {A : Type 0} (o : Outcome (A × Tables)) → Ends o (λ a t. Unit {0})
Ends_anyhow (returned (a, t)) = record { ended = tt }
Ends_anyhow (raised e) = record { ended = tt }

module _ {A B : Type 0} where
  pub Ends-continue_with :
      {Q : A → Tables → Type 0} {R : B → Tables → Type 0} (o : Outcome (A × Tables))
      (f : A → Write B)
      → Ends o Q
      → ((a : A) (t : Tables) → Q a t → Ends (f a t) R)
      → Ends (continue_with o f) R
  Ends-continue_with (returned (a, t)) f h k = k a t h.ended
  Ends-continue_with (raised e) f h k = record { ended = tt }

  pub Ends-or_fail :
      {R : B → Tables → Type 0} (found : Option A) (e : String) (f : A → Write B) (t : Tables)
      → ((a : A) → found ≡ some a → Ends (f a t) R)
      → Ends (continue_with (or_fail found e t) f) R
  Ends-or_fail none e f t k = record { ended = tt }
  Ends-or_fail (some a) e f t k = k a refl

  pub Ends-lift :
      {R : B → Tables → Type 0} (o : Outcome A) (f : A → Write B) (t : Tables)
      → ((a : A) → o ≡ returned a → Ends (f a t) R)
      → Ends (continue_with (lift o t) f) R
  Ends-lift (raised e) f t k = record { ended = tt }
  Ends-lift (returned a) f t k = k a refl

module _ {B : Type 0} where
  pub Ends-demand :
      {R : B → Tables → Type 0} (test : Bool) (e : String) (f : Unit {0} → Write B) (t : Tables)
      → (test ≡ true → Ends (f tt t) R)
      → Ends (continue_with (demand test e t) f) R
  Ends-demand false e f t k = record { ended = tt }
  Ends-demand true e f t k = k refl

  -- What is there to show where a computation returns may be shown of all its ends.
  pub Ends_under :
      {P : Type 0} {R : B → Tables → Type 0} (o : Outcome (B × Tables))
      → (P → Ends o R)
      → Ends o (λ b t. P → R b t)
  Ends_under (returned (b, t)) k = record { ended = λ p. (k p).ended }
  Ends_under (raised e) k = record { ended = tt }

module _ {A : Type 0} (ext : Externals) (model : Model A) (identity : Tables → Option A)
    (constraint : String) (candidate : A) where
  reselected-Ends :
      {R : A × Bool → Tables → Type 0} (found : Option A) (t : Tables)
      → ((winner : A) → found ≡ some winner → R (winner, false) t)
      → Ends (reselected found t) R
  reselected-Ends none t w = record { ended = tt }
  reselected-Ends (some winner) t w = record { ended = w winner refl }

  settle-Ends :
      {R : A × Bool → Tables → Type 0} (violated : Option String) (t : Tables)
      → (violated ≡ none → R (candidate, true) (insert model candidate t))
      → ((winner : A) → identity t ≡ some winner → R (winner, false) t)
      → Ends (settle model identity constraint candidate violated t) R
  unfolding settle
  settle-Ends none t k w = record { ended = k refl }
  settle-Ends (some actual) t k w = elim (Bool-cases (str_eq actual constraint)) [
    | inl same ↦ rw same (reselected-Ends (identity t) t w)
    | inr other ↦ rw other (record { ended = tt })
  ]

  -- The candidate is inserted after what other sessions have done, or their row is found.
  pub insert_or_reselect-Ends :
      {R : A × Bool → Tables → Type 0} (t : Tables)
      → (model.violated candidate (model.rows (ext.rival t)) ≡ none
          → R (candidate, true) (insert model candidate (ext.rival t)))
      → ((winner : A) → identity (ext.rival t) ≡ some winner → R (winner, false) (ext.rival t))
      → Ends (insert_or_reselect ext model identity constraint candidate t) R
  unfolding insert_or_reselect
  insert_or_reselect-Ends t k w = settle-Ends _ (ext.rival t) k w
