-- ===== src/Agent/Values.antt =====
-- What internal/investigation/agent works on: JSON values, the connected sources and their tools,
-- tool runs, stored messages and the turns of a prompt.
use Prim.Native.String.{String}
use oc_control_plane.Prelude.{ℕ, Bool, Option, List}
use oc_control_plane.Prelude.Integers.{ℤ}
use oc_control_plane.Agent.Documents.{RunOutcome, EvidenceRef, Conclusion}

-- A decoded JSON value; what is neither text nor holds other values keeps its own rendering.
mutual
  pub data Json : Type 0 where
    string scalar : String → Json
    array : Items → Json
    object : Fields → Json

  pub data Items : Type 0 where
    no_items : Items
    item : Json → Items → Items

  -- A Go map, with every key once.
  pub data Fields : Type 0 where
    no_fields : Fields
    field : String → Json → Fields → Fields

-- model.go: CompletionCall, and what decodeToolCalls makes of one.
pub record CompletionCall : Type 0 where
  pub id : String
  pub name : String
  pub arguments : String

pub record ToolCall : Type 0 where
  pub id : String
  pub tool : String
  pub integration_id : String
  pub purpose : String
  pub arguments : Option Fields
  pub error : String

pub record Tool : Type 0 where
  pub name : String
  pub supports_thread_scope : Bool

-- The fields of an integration that the loop reads.
pub record Integration : Type 0 where
  pub id : ℕ
  pub provider : ℕ
  pub name : String
  pub credential_sealed : String

pub record OfferedSource : Type 0 where
  pub integration : Integration
  pub tools : List Tool

pub record ConversationOrigin : Type 0 where
  pub integration_id : ℕ
  pub channel : String
  pub thread : String

pub record PriorFinding : Type 0 where
  pub investigation_id : ℕ
  pub statement : String
  pub kind : String
  pub runs : List ℤ
  pub evidence_refs : List EvidenceRef
  pub observed_at : ℕ
  pub window_from : ℕ
  pub window_until : ℕ

pub record BriefMessage : Type 0 where
  pub answer : Option Conclusion
  pub text : String
  pub sequence : ℕ
  pub investigation_id : ℕ

pub record Brief : Type 0 where
  pub history_before : ℕ
  pub missing_evidence : Bool
  pub recent : List BriefMessage
  pub findings : List PriorFinding
  pub open_hypotheses : List String
  pub limitations : List String

pub record HistoryPage : Type 0 where
  pub next_before : ℕ
  pub missing_evidence : Bool
  pub limitations : List String
  pub exchange : List BriefMessage
  pub truncated : Bool

-- What a read brought: nothing, a value of the source, or a page of the conversation.
pub data Content : Type 0 where
  no_content : Content
  value : Json → Content
  history : HistoryPage → Content

-- investigation.ToolRun, without the times it started and finished at.
pub record ToolRun : Type 0 where
  pub integration_id : ℕ
  pub ordinal : ℕ
  pub tool : String
  pub purpose : String
  pub arguments : Option Fields
  pub window_from : ℕ
  pub window_until : ℕ
  pub window_applied : Bool
  pub outcome : RunOutcome
  pub truncated : Bool
  pub summary : String
  pub sources : List String
  pub error : String
  pub content : Content
  pub observation_text : String
  pub model_clipped : Bool

pub record ToolResultTurn : Type 0 where
  pub call_id : String
  pub content : String
  pub is_error : Bool

pub record Turn : Type 0 where
  pub text : String
  pub calls : List CompletionCall
  pub tool_results : List ToolResultTurn
  pub instruction : String

pub record Usage : Type 0 where
  pub input_tokens : ℕ
  pub output_tokens : ℕ
