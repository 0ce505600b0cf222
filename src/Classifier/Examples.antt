-- ===== src/Classifier/Examples.antt =====
-- The classifier at concrete rules and failures.
use payment_recovery_engine.Prelude.{none, some, [], ◌∷◌}
use payment_recovery_engine.Classifier.Mapper.{Rule, Failure, classify}
use payment_recovery_engine.Classifier.Priority.{IsClassified, classify-IsClassified}

abbrev by_reason : Rule
by_reason = record {
  error_reason = some "insufficient_funds";
  error_step = none;
  error_source = none;
  error_code = none;
  failure_class = "insufficient_funds";
  retryable = none;
  priority = 10;
}

abbrev by_code : Rule
by_code = record {
  error_reason = none;
  error_step = none;
  error_source = none;
  error_code = some "BAD_REQUEST_ERROR";
  failure_class = "issuer_decline";
  retryable = none;
  priority = 5;
}

abbrev declined : Failure
declined = record {
  code = "BAD_REQUEST_ERROR";
  source = some "customer";
  step = none;
  reason = some "insufficient_funds";
}

classify-IsClassified_example :
    IsClassified (by_code ∷ by_reason ∷ []) declined (classify (by_code ∷ by_reason ∷ []) declined)
classify-IsClassified_example = classify-IsClassified (by_code ∷ by_reason ∷ []) declined
