-- ===== src/Agent/Exchange.antt =====
-- internal/investigation/agent/run.go: one exchange of the loop, at most two attempts to get a
-- usable answer from the model; and MarkMissingEvidence of internal/investigation/conversation.go.
-- What lies outside of the agent answers by the number of the turn and by whether it is the first
-- attempt.
use Prim.Native.String.{String}
use text.Mathlib.Text.{◌==◌ as str_eq}
use oc_control_plane.Prelude.{
  ℕ, ◌+◌, Bool, true, false, ◌&&◌, Option, none, some, List, [], ◌∷◌, ◌++◌, if◌then◌else◌, map, any,
}
use oc_control_plane.Agent.Documents.{
  EvidenceRef, Finding, LimitationType, missing_telemetry, Conclusion, ConclusionDocument,
}
use oc_control_plane.Agent.Conclusions.{Refusal}
use oc_control_plane.Agent.Values.{Fields, CompletionCall, ToolCall, Turn, ToolResultTurn, Usage}
use oc_control_plane.Agent.Prompts.{Orientation, StoppedBy, Prompt}

pub data Stop : Type 0 where
  stop_complete stop_refused stop_truncated stop_tool_use : Stop

pub data CompletionError : Type 0 where
  context_window provider_error : CompletionError

pub record Completion : Type 0 where
  pub error : Option CompletionError
  pub stop : Stop
  pub document : String
  pub tool_calls : List CompletionCall
  pub usage : Usage

-- Why an exchange fails.
pub data Failure : Type 0 where
  completion_failed declined malformed_calls unverified_evidence invalid_twice unusable : Failure

pub data Move : Type 0 where
  undecided : Move
  reads : List ToolCall → Move
  concludes : Conclusion → Move
  fails : Failure → Move

-- The variables that the attempts of an exchange change.
pub record Exchange : Type 0 where
  pub orientation : Orientation
  pub transcript : List Turn
  pub usage : Usage
  pub stopped_by : StoppedBy
  pub forced : Bool
  pub reason : String

-- The code and the libraries that an exchange calls; `explain` is the text of a refusal.
pub record Model : Type 0 where
  pub complete : ℕ → Bool → Prompt → Completion
  pub evidence_missing : ℕ → Bool → List EvidenceRef → Option Bool
  pub parse : String → Option ConclusionDocument
  pub unmarshal : String → Option Fields
  pub explain : Refusal → String
  pub trim : String → String
  pub rune_count : String → ℕ
  pub render_length : Orientation → ℕ

abbrev pub missing_evidence_statement : String
missing_evidence_statement =
    "Some cited Tool Runs are no longer available. Retained Findings have not been reverified."

abbrev pub is_missing_telemetry : LimitationType → Bool
is_missing_telemetry missing_telemetry = true
is_missing_telemetry _ = false

-- Conclusion.MarkMissingEvidence.
unfoldable pub mark_missing_evidence : Conclusion → Conclusion
mark_missing_evidence c =
    if any (λ l. is_missing_telemetry l.kind && str_eq l.statement missing_evidence_statement)
      c.limitations
    then c
    else record c {
      limitations =
          c.limitations
          ++ record {
            kind = missing_telemetry;
            statement = missing_evidence_statement;
            run_refs = [];
          }
            ∷ [];
    }

abbrev pub evidence_of : List Finding → List EvidenceRef
evidence_of [] = []
evidence_of (finding ∷ findings) = finding.evidence_refs ++ evidence_of findings

-- The orientation without what a model can do without.
unfoldable pub reduce_orientation : Orientation → Orientation
reduce_orientation orientation = record orientation {
  inventory = [];
  brief = elim orientation.brief [
    | none ↦ none
    | some brief ↦ some (record brief {
      findings = [];
      open_hypotheses = [];
      recent = [];
      limitations = if brief.missing_evidence then missing_evidence_statement ∷ [] else [];
    })
  ];
}

abbrev pub add_usage : Usage → Usage → Usage
add_usage a b = record {
  input_tokens = a.input_tokens + b.input_tokens;
  output_tokens = a.output_tokens + b.output_tokens;
}

-- One error result for each call.
abbrev pub error_results : String → List CompletionCall → List ToolResultTurn
error_results content calls =
    map (λ call. record { call_id = call.id; content = content; is_error = true }) calls

abbrev pub answer : Completion → List ToolResultTurn → String → Turn
answer completion results instruction = record {
  text = completion.document;
  calls = completion.tool_calls;
  tool_results = results;
  instruction = instruction;
}

-- What the second half of an attempt makes of a completion that does not read.
pub data Judged : Type 0 where
  concluding : Conclusion → Judged
  broken : Judged
  invalid : String → Judged

-- What an attempt does next: it ends the exchange, or leaves it to the next attempt.
pub data Attempted : Type 0 where
  ends : Exchange → Move → Attempted
  again : Exchange → Attempted
