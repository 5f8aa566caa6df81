-- ===== src/Agent/Conclusions.antt =====
-- internal/investigation/agent/conclusion.go: decodeConclusion and its checks. encoding/json,
-- strings and unicode/utf8 are not part of the repository's code: `parse` is the strict decoder,
-- `trim` is strings.TrimSpace and `rune_count` counts a text's characters. A length in bytes is
-- `len`.
use Prim.Native.String.{String, len}
use text.Mathlib.Text.{◌==◌ as str_eq}
use oc_control_plane.Prelude.{
  ℕ, zero, suc, Bool, true, false, not, ◌&&◌, ◌||◌, Option, none, some, List, [], ◌∷◌, leb, ◌==◌,
  if◌then◌else◌, any, every, get_elem?,
}
use oc_control_plane.Prelude.Integers.{ℤ, pos, negsuc}
use oc_control_plane.Agent.Documents.{
  RunOutcome, run_succeeded, run_failed, ConclusionStatus, supported_explanation, inconclusive,
  answer_only, FindingKind, cause, contributing_factor, ruled_out, observation, HypothesisStatus,
  supported, refuted, unresolved, LimitationType, missing_telemetry, missing_access, contradiction,
  unresolved_assumption, essential_human_input, EvidenceRef,
}

-- The errors of decodeConclusion, one for each return.
pub data Refusal : Type 0 where
  undeclared_document empty_summary long_summary invalid_status incomplete_impact : Refusal
  unknown_run empty_impact bad_statement unknown_kind uncited_finding failed_run_cited : Refusal
  unavailable_evidence repeated_evidence no_mechanism incomplete_hypothesis : Refusal
  too_many_actions incomplete_action uncited_action incomplete_limitation : Refusal
  unexplained conclusive_cause causal_answer : Refusal

pub data Checked {ℓ} (A : Type ℓ) : Type ℓ where
  accepted : A → Checked A
  refused : Refusal → Checked A

-- The early returns: a check that fails ends the decoding with its error.
abbrev pub unless {ℓ} : {A : Type ℓ} → Bool → Refusal → Checked A → Checked A
unless passes because rest = if passes then rest else refused because

abbrev pub proceed {ℓ κ} : {A : Type ℓ} {B : Type κ} → Checked A → (A → Checked B) → Checked B
proceed (accepted a) next = next a
proceed (refused because) next = refused because

abbrev pub decode_each {ℓ κ} :
    {A : Type ℓ} {B : Type κ} → (A → Checked B) → List A → Checked (List B)
decode_each f [] = accepted []
decode_each f (a ∷ more) =
    proceed (f a) λ b. proceed (decode_each f more) λ rest. accepted (b ∷ rest)

-- newConclusionStatuses, FindingKinds, HypothesisStatuses and LimitationTypes, by their texts.
abbrev pub status_named : String → Option ConclusionStatus
status_named text =
    if str_eq text "supported_explanation"
    then some supported_explanation
    else if str_eq text "inconclusive"
    then some inconclusive
    else if str_eq text "answer_only"
    then some answer_only
    else none

abbrev pub kind_named : String → Option FindingKind
kind_named text =
    if str_eq text "cause"
    then some cause
    else if str_eq text "contributing_factor"
    then some contributing_factor
    else if str_eq text "observation"
    then some observation
    else if str_eq text "ruled_out"
    then some ruled_out
    else none

abbrev pub hypothesis_status_named : String → Option HypothesisStatus
hypothesis_status_named text =
    if str_eq text "supported"
    then some supported
    else if str_eq text "ruled_out"
    then some refuted
    else if str_eq text "unresolved"
    then some unresolved
    else none

abbrev pub limitation_type_named : String → Option LimitationType
limitation_type_named text =
    if str_eq text "missing_telemetry"
    then some missing_telemetry
    else if str_eq text "missing_access"
    then some missing_access
    else if str_eq text "contradiction"
    then some contradiction
    else if str_eq text "unresolved_assumption"
    then some unresolved_assumption
    else if str_eq text "essential_human_input"
    then some essential_human_input
    else none

abbrev pub named {ℓ κ} :
    {A : Type ℓ} {B : Type κ} → Option A → Refusal → (A → Checked B) → Checked B
named none because next = refused because
named (some a) because next = next a

-- validateRunRefs, at one reference: `ordinal < 1 || ordinal > runs`.
abbrev pub within_runs : ℕ → ℤ → Bool
within_runs runs (pos zero) = false
within_runs runs (pos (suc n)) = leb (suc n) runs
within_runs runs (negsuc n) = false

abbrev pub valid_run_refs : ℕ → List ℤ → Bool
valid_run_refs runs refs = every (within_runs runs) refs

abbrev pub is_success : RunOutcome → Bool
is_success run_succeeded = true
is_success run_failed = false

-- `runs[ordinal-1].Outcome`, at a reference that validateRunRefs let through.
abbrev pub read_succeeded : List RunOutcome → ℤ → Bool
read_succeeded runs (pos zero) = false
read_succeeded runs (pos (suc n)) = elim (get_elem? runs n) [
  | none ↦ false
  | some outcome ↦ is_success outcome
]
read_succeeded runs (negsuc n) = false

abbrev pub same_integer : ℤ → ℤ → Bool
same_integer (pos m) (pos n) = m == n
same_integer (negsuc m) (negsuc n) = m == n
same_integer _ _ = false

abbrev pub is_positive : ℤ → Bool
is_positive (pos zero) = false
is_positive (pos (suc n)) = true
is_positive (negsuc n) = false

abbrev pub same_evidence : EvidenceRef → EvidenceRef → Bool
same_evidence a b =
    (a.investigation_id == b.investigation_id) && same_integer a.tool_run_ordinal b.tool_run_ordinal

-- The evidence loop of a finding; `seen` holds the references before.
unfoldable pub check_evidence :
    List EvidenceRef → List EvidenceRef → List EvidenceRef → Option Refusal
check_evidence allowed seen [] = none
check_evidence allowed seen (ref ∷ refs) =
    let rest = check_evidence allowed (ref ∷ seen) refs in
    if (ref.investigation_id == 0)
      || (not (is_positive ref.tool_run_ordinal) || not (any (same_evidence ref) allowed))
    then some unavailable_evidence
    else if any (same_evidence ref) seen
    then some repeated_evidence
    else rest

abbrev pub passing {ℓ} : {A : Type ℓ} → Option Refusal → Checked A → Checked A
passing none rest = rest
passing (some because) rest = refused because

-- causalFinding.
abbrev pub causal_finding : FindingKind → Bool
causal_finding cause = true
causal_finding contributing_factor = true
causal_finding _ = false

abbrev pub is_cause : FindingKind → Bool
is_cause cause = true
is_cause _ = false

abbrev pub is_nil {ℓ} : {A : Type ℓ} → List A → Bool
is_nil [] = true
is_nil (a ∷ t) = false

abbrev pub max_statement_length : ℕ
max_statement_length = 2048

abbrev pub max_summary_length : ℕ
max_summary_length = 4096

abbrev pub max_conclusion_actions : ℕ
max_conclusion_actions = 8

abbrev pub max_action_text_length : ℕ
max_action_text_length = 512

abbrev pub is_empty : String → Bool
is_empty text = str_eq text ""

abbrev pub action_text : String → Bool
action_text text = not (is_empty text) && leb (len text) max_action_text_length

abbrev pub is_answer : ConclusionStatus → Bool
is_answer answer_only = true
is_answer _ = false
