-- ===== src/Agent/Grounds.antt =====
-- Every conclusion that internal/investigation/agent/conclusion.go accepts is well cited.
use Prim.Native.String.{String}
use oc_control_plane.Prelude.{
  ℕ, suc, ◌≡◌, ◌≢◌, ◌⊎◌, inl, inr, refl, ap, sym, ◌∙◌, true, false, Option, none, some, List, [],
  ◌∷◌, arith, leb, leb→le, Bool-cases, Option-cases, length, any, All, IsIn,
}
use oc_control_plane.Agent.Documents.{
  RunOutcome, ConclusionStatus, supported_explanation, inconclusive, answer_only, cause,
  contributing_factor, ruled_out, observation, EvidenceRef, Impact, Finding, HypothesisResult,
  ActionProposal, Limitation, Conclusion, ImpactDocument, HypothesisDocument, LimitationDocument,
  ConclusionDocument,
}
use oc_control_plane.Agent.Conclusions.{
  Checked, accepted, decode_each, status_named, hypothesis_status_named, limitation_type_named,
  causal_finding, is_cause, is_nil, valid_run_refs,
}
use oc_control_plane.Agent.Decoding.{
  decode_finding, decode_hypothesis, decode_action, decode_limitation, decode_impact,
  check_conclusion, decode_conclusion, conclusion_status_error,
}
use oc_control_plane.Agent.Cited.{
  IsActionable, IsGrounded, IsOrdinal, IsWellCited, Suits, decode_each-All,
  decode_finding-IsGrounded, proceed-accepted, rest_accepted, valid_run_refs-IsOrdinal,
}

decode_hypothesis-IsOrdinal :
    (runs : ℕ) (d : HypothesisDocument) (r : HypothesisResult)
    → decode_hypothesis runs d ≡ accepted r
    → All (IsOrdinal runs) r.run_refs
unfolding decode_hypothesis
decode_hypothesis-IsOrdinal runs d r h = elim (Option-cases (hypothesis_status_named d.status)) [
  | inl unknown ↦ absurd (ground arith)
  | inr (status, e) ↦ valid_run_refs-IsOrdinal runs r.run_refs (ground arith)
]

decode_action-IsActionable :
    (runs : ℕ) (d r : ActionProposal) → decode_action runs d ≡ accepted r → IsActionable runs r
unfolding decode_action
decode_action-IsActionable runs d r h =
    let facts : (valid_run_refs runs r.run_refs ≡ true) × (is_nil r.run_refs ≡ false) =
      ground arith in
    record {
      of_runs = valid_run_refs-IsOrdinal runs r.run_refs facts.0;
      cites = λ e. cc (facts.1, ap is_nil e);
    }

decode_limitation-IsOrdinal :
    (runs : ℕ) (d : LimitationDocument) (r : Limitation)
    → decode_limitation runs d ≡ accepted r
    → All (IsOrdinal runs) r.run_refs
unfolding decode_limitation
decode_limitation-IsOrdinal runs d r h = elim (Option-cases (limitation_type_named d.kind)) [
  | inl unknown ↦ absurd (ground arith)
  | inr (kind, e) ↦ valid_run_refs-IsOrdinal runs r.run_refs (ground arith)
]

any_causal :
    (findings : List Finding)
    → any (λ f. causal_finding f.kind) findings ≡ true
    → (f : Finding) × IsIn f findings × ((f.kind ≡ cause) ⊎ (f.kind ≡ contributing_factor))
any_causal [] h = cc
any_causal (f ∷ findings) h = elim (Bool-cases (causal_finding f.kind)) [
  | inl causal ↦ (f, inl refl, ground arith)
  | inr harmless ↦ let (g, i, k) = any_causal findings (ground arith) in (g, inr i, k)
]

no_cause :
    (findings : List Finding)
    → any (λ f. is_cause f.kind) findings ≡ false
    → All (λ f. f.kind ≢ cause) findings
no_cause [] h = tt
no_cause (f ∷ findings) h = (ground arith, no_cause findings (ground arith))

no_causal :
    (findings : List Finding)
    → any (λ f. causal_finding f.kind) findings ≡ false
    → All (λ f. (f.kind ≡ observation) ⊎ (f.kind ≡ ruled_out)) findings
no_causal [] h = tt
no_causal (f ∷ findings) h = (ground arith, no_causal findings (ground arith))

conclusion_status_error-Suits :
    (status : ConclusionStatus) (findings : List Finding)
    → conclusion_status_error status findings ≡ none
    → Suits status findings
unfolding conclusion_status_error Suits
conclusion_status_error-Suits supported_explanation findings h = any_causal findings (ground arith)
conclusion_status_error-Suits inconclusive findings h = no_cause findings (ground arith)
conclusion_status_error-Suits answer_only findings h = no_causal findings (ground arith)

length-decode_each {ℓ κ} :
    {A : Type ℓ} {B : Type κ} (f : A → Checked B) (t : List A) (bs : List B)
    → decode_each f t ≡ accepted bs
    → length bs ≡ length t
length-decode_each f [] bs h = ground arith
length-decode_each f (a ∷ t) bs h =
    let (b, e, more) = proceed-accepted (f a) _ bs h in
    let (rest, es, eq) = rest_accepted (decode_each f t) b bs more in
    ap length (sym eq) ∙ ap suc (length-decode_each f t rest es)

module _ (trim : String → String) (rune_count : String → ℕ) where
  decode_impact-IsOrdinal :
      (status : ConclusionStatus) (runs : ℕ) (d : Option ImpactDocument) (impact : Impact)
      → decode_impact trim rune_count status runs d ≡ accepted impact
      → All (IsOrdinal runs) impact.run_refs
  unfolding decode_impact
  decode_impact-IsOrdinal status runs none impact h = cc
  decode_impact-IsOrdinal status runs (some d) impact h = elim (Option-cases d.summary) [
    | inl missing ↦ absurd (ground arith)
    | inr (summary, e) ↦ elim (Option-cases d.run_refs) [
      | inl missing ↦ absurd (ground arith)
      | inr (refs, e2) ↦ valid_run_refs-IsOrdinal runs impact.run_refs (ground arith)
    ]
  ]

  check_conclusion-IsWellCited :
      (runs : List RunOutcome) (allowed : List EvidenceRef) (d : ConclusionDocument)
      (c : Conclusion)
      → check_conclusion trim rune_count runs allowed d ≡ accepted c
      → IsWellCited runs allowed c
  unfolding check_conclusion
  check_conclusion-IsWellCited runs allowed d c h = elim (Option-cases (status_named d.status)) [
    | inl unknown ↦ absurd (ground arith)
    | inr (status, e) ↦
        let facts : (decode_impact trim rune_count status (length runs) d.impact
              ≡ accepted c.impact)
            × (decode_each (decode_finding trim rune_count runs allowed) d.findings
                ≡ accepted c.findings)
            × (decode_each (decode_hypothesis (length runs)) d.hypotheses ≡ accepted c.hypotheses)
            × (leb (length d.actions) 8 ≡ true)
            × (decode_each (decode_action (length runs)) d.actions ≡ accepted c.actions)
            × (decode_each (decode_limitation (length runs)) d.limitations ≡ accepted c.limitations)
            × (conclusion_status_error c.status c.findings ≡ none) =
          ground arith in
        record {
          impact_cites = decode_impact-IsOrdinal status (length runs) d.impact c.impact facts.0;
          findings_cite =
              decode_each-All (decode_finding trim rune_count runs allowed)
                (IsGrounded runs allowed) (decode_finding-IsGrounded trim rune_count runs allowed)
                d.findings c.findings facts.1;
          hypotheses_cite =
              decode_each-All (decode_hypothesis (length runs))
                (λ r. All (IsOrdinal (length runs)) r.run_refs)
                (decode_hypothesis-IsOrdinal (length runs)) d.hypotheses c.hypotheses facts.2;
          actions_cite =
              decode_each-All (decode_action (length runs)) (IsActionable (length runs))
                (decode_action-IsActionable (length runs)) d.actions c.actions facts.4;
          few_actions = omega (
            arith,
            leb→le (length d.actions) 8 facts.3,
            length-decode_each (decode_action (length runs)) d.actions c.actions facts.4,
          );
          limitations_cite =
              decode_each-All (decode_limitation (length runs))
                (λ r. All (IsOrdinal (length runs)) r.run_refs)
                (decode_limitation-IsOrdinal (length runs)) d.limitations c.limitations facts.5;
          suits = conclusion_status_error-Suits c.status c.findings facts.6;
        }
  ]

  -- Every conclusion that is accepted, of whatever text, is well cited: its impact, hypotheses,
  -- actions and limitations name only runs of this investigation, by ordinals from one; each
  -- finding cites something, only runs that succeeded and only prior evidence that it was shown;
  -- it proposes at most eight actions, each with a run; an explanation has an explanatory
  -- finding, an inconclusive answer has no cause, and a mere answer has no causal finding.
  pub accepted-IsWellCited :
      (parse : String → Option ConclusionDocument) (document : String) (runs : List RunOutcome)
      (allowed : List EvidenceRef) (c : Conclusion)
      → decode_conclusion trim rune_count parse document runs allowed ≡ accepted c
      → IsWellCited runs allowed c
  unfolding decode_conclusion
  accepted-IsWellCited parse document runs allowed c h = elim (Option-cases (parse document)) [
    | inl undeclared ↦ absurd (ground arith)
    | inr (d, e) ↦ check_conclusion-IsWellCited runs allowed d c (ground arith)
  ]
