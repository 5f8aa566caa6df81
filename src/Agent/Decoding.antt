-- ===== src/Agent/Decoding.antt =====
-- internal/investigation/agent/conclusion.go: decodeConclusion. encoding/json, strings and
-- unicode/utf8 are not part of the repository's code: `parse` is the strict decoder, `trim` is
-- strings.TrimSpace and `rune_count` counts a text's characters.
use Prim.Native.String.{String, len}
use oc_control_plane.Prelude.{
  ℕ, not, ◌&&◌, ◌||◌, Option, none, some, List, [], leb, if◌then◌else◌, length, any, every,
}
use oc_control_plane.Agent.Documents.{
  RunOutcome, ConclusionStatus, supported_explanation, inconclusive, answer_only, EvidenceRef,
  Impact, Finding, HypothesisResult, ActionProposal, Limitation, Conclusion, ImpactDocument,
  FindingDocument, HypothesisDocument, LimitationDocument, ConclusionDocument,
}
use oc_control_plane.Agent.Conclusions.{
  Checked, Refusal, accepted, action_text, bad_statement, causal_answer, causal_finding,
  check_evidence, conclusive_cause, decode_each, empty_impact, empty_summary, failed_run_cited,
  hypothesis_status_named, incomplete_action, incomplete_hypothesis, incomplete_impact,
  incomplete_limitation, invalid_status, is_answer, is_cause, is_empty, is_nil, kind_named,
  limitation_type_named, long_summary, max_conclusion_actions, max_statement_length,
  max_summary_length, named, no_mechanism, passing, proceed, read_succeeded, refused, status_named,
  too_many_actions, uncited_action, uncited_finding, undeclared_document, unexplained, unknown_kind,
  unknown_run, unless, valid_run_refs,
}

-- validateConclusionStatus.
unfoldable pub conclusion_status_error : ConclusionStatus → List Finding → Option Refusal
conclusion_status_error supported_explanation findings =
    if any (λ f. causal_finding f.kind) findings then none else some unexplained
conclusion_status_error inconclusive findings =
    if any (λ f. is_cause f.kind) findings then some conclusive_cause else none
conclusion_status_error answer_only findings =
    if any (λ f. causal_finding f.kind) findings then some causal_answer else none

unfoldable pub decode_hypothesis : ℕ → HypothesisDocument → Checked HypothesisResult
decode_hypothesis runs h =
    unless (not (is_empty h.statement) && not (is_empty h.test)) incomplete_hypothesis (
      named (hypothesis_status_named h.status) incomplete_hypothesis λ status.
        unless (valid_run_refs runs h.run_refs) unknown_run (
          accepted (record {
            statement = h.statement;
            status = status;
            test = h.test;
            run_refs = h.run_refs;
          })))

unfoldable pub decode_action : ℕ → ActionProposal → Checked ActionProposal
decode_action runs a =
    unless (action_text a.title && (action_text a.rationale && action_text a.verification))
      incomplete_action
      (unless (valid_run_refs runs a.run_refs) unknown_run
        (unless (not (is_nil a.run_refs)) uncited_action (accepted a)))

unfoldable pub decode_limitation : ℕ → LimitationDocument → Checked Limitation
decode_limitation runs l = unless (not (is_empty l.statement)) incomplete_limitation (
    named (limitation_type_named l.kind) incomplete_limitation λ kind.
      unless (valid_run_refs runs l.run_refs) unknown_run
        (accepted (record { kind = kind; statement = l.statement; run_refs = l.run_refs })))

module _ (trim : String → String) (rune_count : String → ℕ) where
  unfoldable pub decode_finding :
      List RunOutcome → List EvidenceRef → FindingDocument → Checked Finding
  decode_finding runs allowed f =
      unless (not (is_empty f.statement) && leb (len f.statement) max_statement_length)
        bad_statement
        (named (kind_named f.kind) unknown_kind λ kind.
          unless (not (is_nil f.run_refs && is_nil f.evidence_refs)) uncited_finding (
            unless (valid_run_refs (length runs) f.run_refs) unknown_run (
              unless (every (read_succeeded runs) f.run_refs) failed_run_cited (
                passing (check_evidence allowed [] f.evidence_refs) (
                  unless (not (causal_finding kind && is_empty (trim f.mechanism))) no_mechanism (
                    accepted (record {
                      statement = f.statement;
                      kind = kind;
                      mechanism = f.mechanism;
                      run_refs = f.run_refs;
                      evidence_refs = f.evidence_refs;
                    })))))))

  unfoldable pub decode_impact : ConclusionStatus → ℕ → Option ImpactDocument → Checked Impact
  decode_impact status runs none = refused incomplete_impact
  decode_impact status runs (some impact) = named impact.summary incomplete_impact λ summary.
      named impact.run_refs incomplete_impact λ refs.
        unless (valid_run_refs runs refs) unknown_run (
          unless (not (is_empty (trim summary) && (not (is_answer status) || not (is_nil refs))))
            empty_impact (accepted (record { summary = summary; run_refs = refs })))

  -- decodeConclusion, on what the decoder read.
  unfoldable pub check_conclusion :
      List RunOutcome → List EvidenceRef → ConclusionDocument → Checked Conclusion
  check_conclusion runs allowed d = unless (not (is_empty (trim d.summary))) empty_summary (
      unless (leb (rune_count d.summary) max_summary_length) long_summary (
        named (status_named d.status) invalid_status λ status.
          proceed (decode_impact status (length runs) d.impact) λ impact.
            proceed (decode_each (decode_finding runs allowed) d.findings) λ findings.
              proceed (decode_each (decode_hypothesis (length runs)) d.hypotheses) λ hypotheses.
                unless (leb (length d.actions) max_conclusion_actions) too_many_actions (
                  proceed (decode_each (decode_action (length runs)) d.actions) λ actions.
                    proceed (decode_each (decode_limitation (length runs)) d.limitations)
                      λ limitations. passing (conclusion_status_error status findings) (
                        accepted (record {
                          status = status;
                          summary = d.summary;
                          impact = impact;
                          findings = findings;
                          hypotheses = hypotheses;
                          actions = actions;
                          limitations = limitations;
                        })))))

  -- decodeConclusion.
  unfoldable pub decode_conclusion :
      (String → Option ConclusionDocument)
      → String
      → List RunOutcome
      → List EvidenceRef
      → Checked Conclusion
  decode_conclusion parse document runs allowed =
      named (parse document) undeclared_document (check_conclusion runs allowed)
