-- ===== src/Service/Research/Components.antt =====
-- service/factor_combo_service.py: the check of the components in a report.
use quest_test.Prelude.{
  Bool, true, false, ◌&&◌, ◌||◌, Option, none, some, String, Text, strip, all, ◌==◌, ℤ, pos, negsuc,
  List, [], ◌∷◌,
}
use quest_test.Effect.{returned, raised}
use quest_test.Json.{Value, int, float, str, arr, obj, Items, element, bracket, get}
use quest_test.Service.Flow.{failure, fail_contract, Flow, and_then, require}
use quest_test.Service.Research.{Environment}
use quest_test.Service.Research.Values.{positive_int, is_digit}

-- The keys of a component that must be positive integers where they are given.
abbrev identity_fields : List String
identity_fields =
    "factor_id" ∷ "sub_factor_id" ∷ "component_factor_id" ∷ "component_sub_factor_id" ∷ []

abbrev is_unit : Option ℤ → Bool
is_unit (some (pos n)) = n == 1
is_unit (some (negsuc n)) = n == 0
is_unit none = false

abbrev are_digits : Text → Bool
are_digits [] = false
are_digits (c ∷ t) = all is_digit (c ∷ t)

-- `[+-]?[0-9]+`
unfoldable pub is_integer_text : Text → Bool
is_integer_text [] = false
is_integer_text (c ∷ t) = (c == b'+' || c == b'-') && are_digits t || are_digits (c ∷ t)

module _ (env : Environment) where
  unfoldable pub is_identity : Option Value → Bool
  unfolding positive_int
  is_identity none = true
  is_identity (some v) = elim (positive_int env v) [ some n ↦ true | none ↦ false ]

  -- `direction` is -1 or 1, as an integer, a whole float or a text of digits.
  unfoldable pub is_direction : Option Value → Bool
  unfolding is_integer_text
  is_direction none = true
  is_direction (some (int n)) = is_unit (some n)
  is_direction (some (float t)) = env.is_whole t && is_unit (env.int_of (float t))
  is_direction (some (str t)) = is_integer_text (strip t) && is_unit (env.int_of (str t))
  is_direction (some v) = false

  unfoldable pub is_weight : Option Value → Bool
  is_weight none = true
  is_weight (some (int n)) = true
  is_weight (some (float t)) = env.is_decimal (float t)
  is_weight (some (str t)) = env.is_decimal (str t)
  is_weight (some v) = false

  -- One round of the loop over the components.
  unfoldable pub check_component : Value → Flow (Unit {0})
  unfolding is_identity is_direction is_weight
  check_component (obj component) =
      require (all (λ name. is_identity (get name component)) identity_fields)
        (failure fail_contract "an id of a component must be a positive integer")
        (require (is_direction (get "direction" component))
          (failure fail_contract "direction must be -1 or 1")
          (require (is_weight (get "weight" component))
            (failure fail_contract "weight must be numeric") (returned tt)))
  check_component v = raised (failure fail_contract "a component must be an object")

  unfoldable pub check_each : Items → Flow (Unit {0})
  unfolding check_component
  check_each bracket = returned tt
  check_each (element v items) = and_then (check_component v) (λ _. check_each items)

  -- `_validate_real_report_components`
  unfoldable pub validate_components : Value → Flow (Unit {0})
  unfolding check_each
  validate_components (arr (element v items)) = check_each (element v items)
  validate_components v = raised (failure fail_contract "components must be a non-empty array")
