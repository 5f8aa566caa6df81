-- ===== src/Agent/Prompts.antt =====
-- internal/investigation/agent: what a prompt offers. modelPrompt and concludeReason of run.go,
-- exchangeTools, dedupeFindings and concludeInstruction of prompt.go, and PriorFinding.References
-- of internal/investigation/conversation.go. The texts of the system blocks are left out.
use Prim.Native.String.{String, ◌++◌ as str_append}
use text.Mathlib.Text.{◌==◌ as str_eq}
use oc_control_plane.Prelude.{
  ℕ, zero, suc, Bool, true, false, ◌&&◌, ◌||◌, Option, none, some, List, [], ◌∷◌, ◌++◌, ltb, ◌==◌,
  if◌then◌else◌, map, any,
}
use oc_control_plane.Agent.Documents.{EvidenceRef}
use oc_control_plane.Agent.Conclusions.{same_evidence}
use oc_control_plane.Agent.Values.{Tool, OfferedSource, PriorFinding, Brief, Turn}
use oc_control_plane.Agent.Calls.{conclude_tool_name, history_tool_name}

-- What the orientation says of the subject, the trigger and the window is one text, `about`.
pub record Orientation : Type 0 where
  pub about : String
  pub question : String
  pub sources : List OfferedSource
  pub inventory : List String
  pub brief : Option Brief

pub data StoppedBy : Type 0 where
  unstopped by_tool_runs by_reasoner_turns by_wall_clock by_context : StoppedBy

abbrev pub is_unstopped : StoppedBy → Bool
is_unstopped unstopped = true
is_unstopped _ = false

-- concludeReason, at the number of offered sources.
unfoldable pub conclude_reason : StoppedBy → ℕ → String
conclude_reason by zero = "No readable sources are connected. Conclude from the subject alone."
conclude_reason by_tool_runs (suc n) = "The investigation's read budget was exhausted."
conclude_reason by_reasoner_turns (suc n) = "The investigation's turn budget was exhausted."
conclude_reason by_wall_clock (suc n) = "The investigation's time is nearly over."
conclude_reason by_context (suc n) = "This turn has filled the working context available to it."
conclude_reason unstopped (suc n) = ""

-- PriorFinding.References.
abbrev pub references : PriorFinding → List EvidenceRef
references finding =
    finding.evidence_refs
    ++ map (λ run. record { investigation_id = finding.investigation_id; tool_run_ordinal = run })
        finding.runs

abbrev pub same_references : List EvidenceRef → List EvidenceRef → Bool
same_references [] [] = true
same_references (a ∷ s) (b ∷ t) = same_evidence a b && same_references s t
same_references _ _ = false

-- Equality of dedupeFindings's keys; a reference text stands for the references it writes.
unfoldable pub same_finding : PriorFinding → PriorFinding → Bool
same_finding a b =
    str_eq a.statement b.statement
    && (same_references (references a) (references b)
        && (str_eq a.kind b.kind
            && ((a.observed_at == b.observed_at)
                && ((a.window_from == b.window_from) && (a.window_until == b.window_until)))))

-- dedupeFindings; `seen` holds the findings kept before.
unfoldable pub dedupe_from : List PriorFinding → List PriorFinding → List PriorFinding
dedupe_from seen [] = []
dedupe_from seen (finding ∷ findings) =
    let skipped = dedupe_from seen findings in
    let kept = dedupe_from (finding ∷ seen) findings in
    if str_eq finding.statement "" || any (same_finding finding) seen
    then skipped
    else finding ∷ kept

abbrev pub concat_references : List PriorFinding → List EvidenceRef
concat_references [] = []
concat_references (finding ∷ findings) = references finding ++ concat_references findings

-- The references that a conclusion may cite besides its own runs.
unfoldable pub allowed_references : List EvidenceRef → Option Brief → List EvidenceRef
allowed_references prior none = prior
allowed_references prior (some brief) = prior ++ concat_references (dedupe_from [] brief.findings)

abbrev pub tool_names : List String → List Tool → List String
tool_names seen [] = seen
tool_names seen (tool ∷ tools) =
    if any (str_eq tool.name) seen
    then tool_names seen tools
    else tool_names (seen ++ tool.name ∷ []) tools

abbrev pub source_tool_names : List String → List OfferedSource → List String
source_tool_names seen [] = seen
source_tool_names seen (source ∷ sources) = source_tool_names (tool_names seen source.tools) sources

abbrev pub offers_history : Option Brief → Bool
offers_history none = false
offers_history (some brief) = ltb 1 brief.history_before

-- exchangeTools, by the names of the tools it defines.
unfoldable pub exchange_tools : Orientation → List String
exchange_tools orientation =
    source_tool_names [] orientation.sources
    ++ (if offers_history orientation.brief then history_tool_name ∷ [] else [])
    ++ conclude_tool_name ∷ []

-- concludeInstruction.
unfoldable pub conclude_instruction : String → String
conclude_instruction reason =
    let instruction : String =
      "No further reads are available. Conclude now: call conclude with status, summary, impact, cited findings, visible hypotheses, proposed actions, and honest limitations." in
    if str_eq reason "" then instruction else str_append reason (str_append " " instruction)

-- The parts of a prompt that the loop decides; `prior` is whether conclude may cite prior
-- evidence.
pub record Prompt : Type 0 where
  pub orientation : Orientation
  pub prior : Bool
  pub tools : List String
  pub force_tool : String
  pub turns : List Turn
  pub closing : String

module _ (trim : String → String) where
  abbrev pub instruct_last : String → List Turn → List Turn
  instruct_last instruction [] = []
  instruct_last instruction (turn ∷ []) =
      record turn { instruction = trim (str_append turn.instruction (str_append " " instruction)) }
      ∷ []
  instruct_last instruction (turn ∷ next ∷ turns) = turn ∷ instruct_last instruction (next ∷ turns)

  -- modelPrompt.
  unfoldable pub model_prompt : Orientation → List Turn → Bool → Bool → String → Prompt
  model_prompt orientation transcript prior false reason = record {
    orientation = orientation;
    prior = prior;
    tools = exchange_tools orientation;
    force_tool = "";
    turns = transcript;
    closing = "";
  }
  model_prompt orientation [] prior true reason = record {
    orientation = orientation;
    prior = prior;
    tools = conclude_tool_name ∷ [];
    force_tool = conclude_tool_name;
    turns = [];
    closing = conclude_instruction reason;
  }
  model_prompt orientation (turn ∷ turns) prior true reason = record {
    orientation = orientation;
    prior = prior;
    tools = conclude_tool_name ∷ [];
    force_tool = conclude_tool_name;
    turns = instruct_last (conclude_instruction reason) (turn ∷ turns);
    closing = "";
  }
