-- ===== src/Runtime/Outcome.antt =====
-- internal/attractor/runtime/outcome.go
use dfgo.Prelude.{String, Bool, true, false, List, []}
use dfgo.Prelude.Dict.{Dict}

-- The status strings that the program writes; `other` is any other text, as a file may hold.
pub data StageStatus : Type 0 where
  success fail retry partial_success : StageStatus
  other : String → StageStatus

abbrev pub status_text : StageStatus → String
status_text success = "SUCCESS"
status_text fail = "FAIL"
status_text retry = "RETRY"
status_text partial_success = "PARTIAL_SUCCESS"
status_text (other s) = s

pub data FailureClass : Type 0 where
  no_class transient deterministic canceled budget_exhausted : FailureClass

pub record Outcome : Type 0 where
  pub status : StageStatus
  pub preferred_label : String
  pub suggested_next_ids : List String
  pub context_updates : Dict String
  pub failure_reason : String
  pub failure_class : FailureClass
  pub notes : String

abbrev pub is_success_status : StageStatus → Bool
is_success_status success = true
is_success_status partial_success = true
is_success_status _ = false

abbrev pub is_success : Outcome → Bool
is_success o = is_success_status o.status

-- the zero `Outcome` with a status
abbrev pub outcome_of : StageStatus → Outcome
outcome_of s = record {
  status = s;
  preferred_label = "";
  suggested_next_ids = [];
  context_updates = [];
  failure_reason = "";
  failure_class = no_class;
  notes = "";
}

abbrev pub success_outcome : Outcome
success_outcome = outcome_of success

abbrev pub success_outcome_with_label : String → Outcome
success_outcome_with_label label = record success_outcome { preferred_label = label }

abbrev pub fail_outcome : String → FailureClass → Outcome
fail_outcome reason class = record (outcome_of fail) {
  failure_reason = reason;
  failure_class = class;
}

abbrev pub retry_outcome : String → Outcome
retry_outcome reason = record (outcome_of retry) {
  failure_reason = reason;
  failure_class = transient;
}
