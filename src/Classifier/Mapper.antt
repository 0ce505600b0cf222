-- ===== src/Classifier/Mapper.antt =====
-- `ClassifierMapper` of src/classifier/mapper.py. The rules are those that YAML parsing gives: a
-- field that a rule leaves out is `none`, an input that is missing is `none`.
use payment_recovery_engine.Prelude.{
  ℕ, String, Bool, true, false, ◌&&◌, not, Option, none, some, List, [], ◌∷◌, str_eq, leb,
  if◌then◌else◌,
}
use payment_recovery_engine.Classifier.Taxonomy
use payment_recovery_engine.Classifier.Taxonomy.{FailureClass, unknown, is_retryable}

pub record Rule : Type 0 where
  pub error_reason : Option String
  pub error_step : Option String
  pub error_source : Option String
  pub error_code : Option String
  pub failure_class : String
  pub retryable : Option Bool
  pub priority : ℕ

-- The fields of a failure that the rules look at.
pub record Failure : Type 0 where
  pub code : String
  pub source : Option String
  pub step : Option String
  pub reason : Option String

-- `not value or rule[field] != value` is false: the input has the field, not empty, and it is the
-- rule's.
agrees : String → Option String → Bool
agrees want none = false
agrees want (some value) = not (str_eq value "") && str_eq want value

-- A field that the rule does not name matches everything.
field_matches : Option String → Option String → Bool
unfolding agrees
field_matches none actual = true
field_matches (some want) actual = agrees want actual

code_matches : Option String → String → Bool
code_matches none code = true
code_matches (some want) code = str_eq want code

unfoldable pub matches : Rule → Failure → Bool
unfolding field_matches code_matches
matches r f =
    field_matches r.error_reason f.reason
    && field_matches r.error_step f.step
    && field_matches r.error_source f.source
    && code_matches r.error_code f.code

-- `sorted(rules, key=priority, reverse=True)`: descending, and stable.
unfoldable pub insert : Rule → List Rule → List Rule
insert r [] = r ∷ []
insert r (x ∷ xs) = if leb x.priority r.priority then r ∷ x ∷ xs else x ∷ insert r xs

unfoldable pub sort_by_priority : List Rule → List Rule
unfolding insert
sort_by_priority [] = []
sort_by_priority (r ∷ rs) = insert r (sort_by_priority rs)

-- `rule.get("retryable", fc.is_retryable)`
abbrev pub retryable_or : Option Bool → FailureClass → Bool
retryable_or none fc = is_retryable fc
retryable_or (some b) fc = b

-- The first rule that matches and names a class; a rule with an unknown class is skipped.
unfoldable pub first_match : List Rule → Failure → FailureClass × Bool
first_match [] f = (unknown, false)
first_match (r ∷ rs) f =
    let rest = first_match rs f in
    if matches r f
    then elim (Taxonomy.parse r.failure_class) [
      | none ↦ rest
      | some fc ↦ (fc, retryable_or r.retryable fc)
    ]
    else rest

unfoldable pub classify : List Rule → Failure → FailureClass × Bool
unfolding sort_by_priority first_match
classify rules f = first_match (sort_by_priority rules) f
