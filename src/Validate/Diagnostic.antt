-- ===== src/Validate/Diagnostic.antt =====
-- internal/attractor/validate/validate.go: the findings.
use dfgo.Prelude.{ℕ, String, Bool, true, false, List, [], ◌∷◌, ◌||◌, keep}
use dfgo.Cond.{CondError}
use dfgo.Style.{StyleError}

pub data Severity : Type 0 where
  error warning : Severity

pub data Message : Type 0 where
  no_start no_terminal no_max_retries no_prompt unreachable : Message
  multiple_starts incoming outgoing : ℕ → Message
  no_edge_source no_edge_target : String → Message
  invalid_condition : String → String → CondError → Message
  invalid_stylesheet : StyleError → Message
  unknown_type invalid_mode : String → Message
  missing_target : String → String → Message

pub record Diagnostic : Type 0 where
  pub rule : String
  pub severity : Severity
  pub node_id : String
  pub message : Message

abbrev pub is_error : Diagnostic → Bool
is_error d = error_severity d.severity
  where
    error_severity : Severity → Bool
    error_severity error = true
    error_severity warning = false

unfoldable pub has_errors : List Diagnostic → Bool
has_errors [] = false
has_errors (d ∷ ds) = is_error d || has_errors ds

-- `Errors`
unfoldable pub errors : List Diagnostic → List Diagnostic
errors ds = keep is_error ds

-- a finding about no node
abbrev pub finding : String → Severity → Message → Diagnostic
finding rule severity message = record {
  rule = rule;
  severity = severity;
  node_id = "";
  message = message;
}

abbrev pub node_finding : String → Severity → String → Message → Diagnostic
node_finding rule severity id message = record {
  rule = rule;
  severity = severity;
  node_id = id;
  message = message;
}
