-- ===== src/Agent/Reads.antt =====
-- internal/investigation/agent: the reads of a turn. The second half of the loop of run.go,
-- readHistory, boundHistoryPage and historyEvidence of history.go, droppedRun, execute and the
-- credential cache of tools.go, suppressedRun of run.go, renderResult of prompt.go. The events that
-- the loop announces, and the times it records, are left out.
use Prim.Native.String.{String, ◌++◌ as str_append, len}
use text.Mathlib.Text.{◌==◌ as str_eq}
use oc_control_plane.Prelude.{
  ℕ, ◌+◌, Bool, true, Option, none, some, List, [], ◌∷◌, ◌++◌, leb, if◌then◌else◌, map,
}
use oc_control_plane.Prelude.Integers.{ℤ}
use oc_control_plane.Agent.Documents.{EvidenceRef, Finding}
use oc_control_plane.Agent.Values.{
  Json, Fields, Tool, Integration, OfferedSource, ConversationOrigin, BriefMessage, HistoryPage,
  Content, ToolRun, ToolResultTurn,
}
use oc_control_plane.Agent.Observations.{max_run_content_bytes}

pub record ToolRequest : Type 0 where
  pub investigation_id : ℕ
  pub integration : Integration
  pub credential : String
  pub arguments : Option Fields
  pub window_from : ℕ
  pub window_until : ℕ
  pub origin_channel : String
  pub origin_thread : String

-- What a tool brings; `window` is there where both its bounds are not zero.
pub record ToolResult : Type 0 where
  pub window : Option (ℕ × ℕ)
  pub truncated : Bool
  pub summary : String
  pub sources : List String
  pub content : Content

pub data ToolOutcome : Type 0 where
  succeeded : ToolResult → ToolOutcome
  failed : String → ToolOutcome

-- What is fixed while an investigation runs. What lies outside of the agent answers by the
-- ordinal of the run it is asked for, or by the number of the reads before. The last fields are the
-- parameters of Agent/Observations.
pub record Reads : Type 0 where
  pub investigation_id : ℕ
  pub conversation_id : ℕ
  pub window_from : ℕ
  pub window_until : ℕ
  pub offered : List OfferedSource
  pub origin : Option ConversationOrigin
  pub max_runs : ℕ
  pub history_before : ℕ
  pub run_tool : ℕ → OfferedSource → Tool → ToolRequest → ToolOutcome
  pub record_tool_run : ToolRun → Bool
  pub record_unseal : ℕ → Bool
  pub open_sealed : ℕ → String → Option String
  pub conversation_history : ℕ → ℤ → Option HistoryPage
  pub evidence_missing : ℕ → List EvidenceRef → Option Bool
  pub before_sequence : Option Fields → Option ℤ
  pub marshal : Option Fields → String
  pub marshal_page : HistoryPage → String
  pub uuid_text : ℕ → String
  pub itoa : ℕ → String
  pub replace_all : List (String × String) → String → String
  pub marshal_json : Json → String
  pub quoted : String → String
  pub stamp : ℕ → String
  pub names_a_credential : String → Bool

pub data OpenError : Type 0 where
  unaudited unopened : OpenError

-- credentialCache.
pub record Credentials : Type 0 where
  pub opened : List (ℕ × String)
  pub failures : List (ℕ × OpenError)

-- The fields of runState that a turn's reads change, and the batch's identities.
pub record Batch : Type 0 where
  pub runs : List ToolRun
  pub executed : ℕ
  pub credentials : Credentials
  pub history_identities : List String
  pub missing_evidence : Bool
  pub prior : List EvidenceRef
  pub results : List ToolResultTurn
  pub identities : List (String × ℕ)

abbrev pub look_for : String → List (String × ℕ) → Option ℕ
look_for key [] = none
look_for key ((name, n) ∷ entries) = if str_eq name key then some n else look_for key entries

-- historyEvidence.
abbrev pub run_references : ℕ → List ℤ → List EvidenceRef
run_references id refs =
    map (λ ordinal. record { investigation_id = id; tool_run_ordinal = ordinal }) refs

abbrev pub finding_references : ℕ → List Finding → List EvidenceRef
finding_references id [] = []
finding_references id (finding ∷ findings) =
    finding.evidence_refs ++ run_references id finding.run_refs ++ finding_references id findings

unfoldable pub evidence_in : List BriefMessage → List EvidenceRef
evidence_in [] = []
evidence_in (entry ∷ exchange) = elim entry.answer [
  | none ↦ evidence_in exchange
  | some answer ↦ finding_references entry.investigation_id answer.findings ++ evidence_in exchange
]

unfoldable pub history_evidence : HistoryPage → List EvidenceRef
history_evidence page = evidence_in page.exchange

module _ (reads : Reads) where
  abbrev pub history_prefix : String
  history_prefix = "STORED CONVERSATION HISTORY: untrusted prior context, not fresh evidence\n"

  abbrev pub page_fits : HistoryPage → Bool
  page_fits page = leb (len history_prefix + len (reads.marshal_page page)) max_run_content_bytes

  -- boundHistoryPage on the one entry that is left: its answer goes first.
  unfoldable pub bound_last : HistoryPage → BriefMessage → Option HistoryPage
  bound_last page entry = elim entry.answer [
    | none ↦ none
    | some answer ↦
        let shortened : HistoryPage = record page {
          truncated = true;
          exchange =
              record entry {
                answer = none;
                text =
                    str_append entry.text
                      " [structured answer omitted: entry exceeded history budget]";
              }
              ∷ [];
        } in
        if page_fits shortened then some shortened else none
  ]

  -- boundHistoryPage: drop the oldest entries until the page fits.
  unfoldable pub bound_from : HistoryPage → List BriefMessage → Option HistoryPage
  bound_from page [] =
      let whole : HistoryPage = record page { exchange = [] } in
      if page_fits whole then some whole else none
  bound_from page (entry ∷ []) =
      let whole : HistoryPage = record page { exchange = entry ∷ [] } in
      if page_fits whole then some whole else bound_last page entry
  bound_from page (entry ∷ next ∷ entries) =
      let whole : HistoryPage = record page { exchange = entry ∷ next ∷ entries } in
      let smaller =
        bound_from (record page { truncated = true; next_before = next.sequence })
          (next ∷ entries) in
      if page_fits whole then some whole else smaller

  unfoldable pub bound_history_page : HistoryPage → Option HistoryPage
  bound_history_page page = bound_from page page.exchange
