-- ===== src/Manifest/Categories.antt =====
-- `AiCategory` of backend/app/manifest/contracts.py and `_CATEGORIES` of allocation.py.
use job_search.Base.{ℕ, ◌≡◌, refl, ◌∙◌, sym, ap, Bool, List, [], ◌∷◌, ltb, ◌==◌, if◌then◌else◌}

pub data AiCategory : Type 0 where
  foundation_models ai_cloud_model_platforms ai_chips_compute : AiCategory
  autonomous_driving_transport robotics_embodied_ai computer_vision_imaging : AiCategory
  speech_language_technology enterprise_vertical_ai data_infrastructure_mlops : AiCategory

abbrev pub categories : List AiCategory
categories =
    foundation_models ∷ ai_cloud_model_platforms ∷ ai_chips_compute ∷ autonomous_driving_transport
    ∷ robotics_embodied_ai ∷ computer_vision_imaging ∷ speech_language_technology
    ∷ enterprise_vertical_ai ∷ data_infrastructure_mlops ∷ []

-- The place of the category's value in the order of strings.
abbrev pub value_order : AiCategory → ℕ
value_order ai_chips_compute = 0
value_order ai_cloud_model_platforms = 1
value_order autonomous_driving_transport = 2
value_order computer_vision_imaging = 3
value_order data_infrastructure_mlops = 4
value_order enterprise_vertical_ai = 5
value_order foundation_models = 6
value_order robotics_embodied_ai = 7
value_order speech_language_technology = 8

-- The order by `(-key, category.value)`.
abbrev pub larger_first : (AiCategory → ℕ) → AiCategory → AiCategory → Bool
larger_first key x a =
    if key x == key a then ltb (value_order x) (value_order a) else ltb (key a) (key x)

category_at : ℕ → AiCategory
category_at n =
    if n == 0
    then ai_chips_compute
    else if n == 1
    then ai_cloud_model_platforms
    else if n == 2
    then autonomous_driving_transport
    else if n == 3
    then computer_vision_imaging
    else if n == 4
    then data_infrastructure_mlops
    else if n == 5
    then enterprise_vertical_ai
    else if n == 6
    then foundation_models
    else if n == 7
    then robotics_embodied_ai
    else speech_language_technology

category_at-value_order : (c : AiCategory) → category_at (value_order c) ≡ c
unfolding category_at
category_at-value_order ai_chips_compute = refl
category_at-value_order ai_cloud_model_platforms = refl
category_at-value_order autonomous_driving_transport = refl
category_at-value_order computer_vision_imaging = refl
category_at-value_order data_infrastructure_mlops = refl
category_at-value_order enterprise_vertical_ai = refl
category_at-value_order foundation_models = refl
category_at-value_order robotics_embodied_ai = refl
category_at-value_order speech_language_technology = refl

-- Categories with the same value are the same.
pub value_order_injective : (x a : AiCategory) → value_order x ≡ value_order a → x ≡ a
value_order_injective x a e =
    sym (category_at-value_order x) ∙ ap category_at e ∙ category_at-value_order a
