-- ===== src/Agent/Documents.antt =====
-- internal/investigation/investigation.go: conclusions and what they cite, and the document that
-- internal/investigation/agent/conclusion.go reads from the model's call.
use Prim.Native.String.{String}
use oc_control_plane.Prelude.{ℕ, Option, List}
use oc_control_plane.Prelude.Integers.{ℤ}

pub data RunOutcome : Type 0 where
  run_succeeded run_failed : RunOutcome

-- The statuses that a new conclusion may have.
pub data ConclusionStatus : Type 0 where
  supported_explanation inconclusive answer_only : ConclusionStatus

pub data FindingKind : Type 0 where
  cause contributing_factor ruled_out observation : FindingKind

pub data HypothesisStatus : Type 0 where
  supported refuted unresolved : HypothesisStatus

pub data LimitationType : Type 0 where
  missing_telemetry missing_access contradiction unresolved_assumption : LimitationType
  essential_human_input : LimitationType

pub record EvidenceRef : Type 0 where
  pub investigation_id : ℕ
  pub tool_run_ordinal : ℤ

pub record Impact : Type 0 where
  pub summary : String
  pub run_refs : List ℤ

pub record Finding : Type 0 where
  pub statement : String
  pub kind : FindingKind
  pub mechanism : String
  pub run_refs : List ℤ
  pub evidence_refs : List EvidenceRef

pub record HypothesisResult : Type 0 where
  pub statement : String
  pub status : HypothesisStatus
  pub test : String
  pub run_refs : List ℤ

pub record ActionProposal : Type 0 where
  pub title : String
  pub rationale : String
  pub verification : String
  pub run_refs : List ℤ

pub record Limitation : Type 0 where
  pub kind : LimitationType
  pub statement : String
  pub run_refs : List ℤ

pub record Conclusion : Type 0 where
  pub status : ConclusionStatus
  pub summary : String
  pub impact : Impact
  pub findings : List Finding
  pub hypotheses : List HypothesisResult
  pub actions : List ActionProposal
  pub limitations : List Limitation

-- decodeConclusion's jsonObject. What a pointer or a slice leaves out is `none`.
pub record ImpactDocument : Type 0 where
  pub summary : Option String
  pub run_refs : Option (List ℤ)

pub record FindingDocument : Type 0 where
  pub statement : String
  pub kind : String
  pub mechanism : String
  pub run_refs : List ℤ
  pub evidence_refs : List EvidenceRef

pub record HypothesisDocument : Type 0 where
  pub statement : String
  pub status : String
  pub test : String
  pub run_refs : List ℤ

pub record LimitationDocument : Type 0 where
  pub kind : String
  pub statement : String
  pub run_refs : List ℤ

pub record ConclusionDocument : Type 0 where
  pub status : String
  pub summary : String
  pub impact : Option ImpactDocument
  pub findings : List FindingDocument
  pub hypotheses : List HypothesisDocument
  pub actions : List ActionProposal
  pub limitations : List LimitationDocument
