-- ===== src/Pricing.antt =====
-- The cost of a completion: backend/src/app/services/pricing.py. The price table, which is a file,
-- is a parameter.
use normeon_german_technical.Prelude.{ℕ, Text, Option, none, some, nat_eq, list_eq}
use normeon_german_technical.Prelude.Dict.{Dict, lookup}
use normeon_german_technical.Scalar.{FloatOps}

pub record ModelPricing (F : Type 0) : Type 0 where
  pub input_per_mtok : F
  pub output_per_mtok : F

module _ {F : Type 0} (fl : FloatOps F) (pricing : Dict Text (ModelPricing F)) where
  -- The sum that is rounded, for a model that has a price.
  abbrev pub priced : ModelPricing F → ℕ → ℕ → F
  priced price prompt_tokens completion_tokens =
      fl.round
        (fl.add (fl.mul (fl.ratio prompt_tokens 1000000) price.input_per_mtok)
          (fl.mul (fl.ratio completion_tokens 1000000) price.output_per_mtok))
        6

  unfoldable pub calculate_cost : Text → Option ℕ → Option ℕ → Option F
  unfolding nat_eq list_eq
  calculate_cost model none completion_tokens = none
  calculate_cost model (some p) none = none
  calculate_cost model (some p) (some c) = elim (lookup model pricing) [
    | none ↦ none
    | some price ↦ some (priced price p c)
  ]
