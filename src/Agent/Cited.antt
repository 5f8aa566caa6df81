-- ===== src/Agent/Cited.antt =====
-- What the conclusions that internal/investigation/agent/conclusion.go accepts may cite.
use Prim.Native.String.{String}
use oc_control_plane.Prelude.{
  ℕ, zero, suc, ◌≤◌, ◌<◌, ◌≡◌, ◌≢◌, ◌⊎◌, inl, inr, refl, sym, subst, Bool, true, false, ◌&&◌,
  Option, none, some, List, [], ◌∷◌, arith, leb→le, Bool-cases, Option-cases, length, any, every,
  get_elem?, All, IsIn,
}
use oc_control_plane.Prelude.Integers.{ℤ, pos, negsuc}
use oc_control_plane.Agent.Documents.{
  RunOutcome, run_succeeded, ConclusionStatus, supported_explanation, inconclusive, answer_only,
  cause, contributing_factor, ruled_out, observation, EvidenceRef, Finding, ActionProposal,
  Conclusion, FindingDocument,
}
use oc_control_plane.Agent.Conclusions.{
  Refusal, Checked, accepted, unless, proceed, decode_each, named, passing, kind_named, is_nil,
  within_runs, same_integer, same_evidence, read_succeeded, valid_run_refs, check_evidence,
}
use oc_control_plane.Agent.Decoding.{decode_finding}

-- The reference names one of the runs, counted from one.
pub IsOrdinal : ℕ → ℤ → Type 0
IsOrdinal runs ref = (n : ℕ) × (ref ≡ pos (suc n)) × (n < runs)

-- The reference names a run that succeeded.
pub IsSuccessful : List RunOutcome → ℤ → Type 0
IsSuccessful runs ref = (n : ℕ) × (ref ≡ pos (suc n)) × (get_elem? runs n ≡ some run_succeeded)

pub record IsGrounded (runs : List RunOutcome) (allowed : List EvidenceRef) (f : Finding)
    : Type 0 where
  pub of_runs : All (IsSuccessful runs) f.run_refs
  pub of_evidence : All (λ ref. IsIn ref allowed) f.evidence_refs
  pub cites : (f.run_refs ≢ []) ⊎ (f.evidence_refs ≢ [])

pub record IsActionable (runs : ℕ) (a : ActionProposal) : Type 0 where
  pub of_runs : All (IsOrdinal runs) a.run_refs
  pub cites : a.run_refs ≢ []

-- What the status promises of the findings.
unfoldable pub Suits : ConclusionStatus → List Finding → Type 0
Suits supported_explanation findings =
    (f : Finding) × IsIn f findings × ((f.kind ≡ cause) ⊎ (f.kind ≡ contributing_factor))
Suits inconclusive findings = All (λ f. f.kind ≢ cause) findings
Suits answer_only findings = All (λ f. (f.kind ≡ observation) ⊎ (f.kind ≡ ruled_out)) findings

pub record IsWellCited (runs : List RunOutcome) (allowed : List EvidenceRef) (c : Conclusion)
    : Type 0 where
  pub impact_cites : All (IsOrdinal (length runs)) c.impact.run_refs
  pub findings_cite : All (IsGrounded runs allowed) c.findings
  pub hypotheses_cite : All (λ h. All (IsOrdinal (length runs)) h.run_refs) c.hypotheses
  pub actions_cite : All (IsActionable (length runs)) c.actions
  pub few_actions : length c.actions ≤ 8
  pub limitations_cite : All (λ l. All (IsOrdinal (length runs)) l.run_refs) c.limitations
  pub suits : Suits c.status c.findings

module _ {ℓ} {A : Type ℓ} where
  pub every-All {κ} :
      (p : A → Bool) (P : A → Type κ)
      → ((a : A) → p a ≡ true → P a)
      → (t : List A) → every p t ≡ true
      → All P t
  every-All p P f [] h = tt
  every-All p P f (a ∷ t) h = (f a (ground arith), every-All p P f t (ground arith))

  pub unless-accepted :
      (passes : Bool) (because : Refusal) (rest : Checked A) (a : A)
      → unless passes because rest ≡ accepted a
      → (passes ≡ true) × (rest ≡ accepted a)
  unless-accepted passes because rest a h = ground arith

  pub passing-accepted :
      (o : Option Refusal) (rest : Checked A) (a : A)
      → passing o rest ≡ accepted a
      → (o ≡ none) × (rest ≡ accepted a)
  passing-accepted o rest a h = elim (Option-cases o) [
    | inl none_found ↦ ground arith
    | inr (because, found) ↦ absurd (ground arith)
  ]

module _ {κ} {B : Type κ} where
  pub rest_accepted :
      (first : Checked (List B)) (b : B) (bs : List B)
      → proceed first (λ rest. accepted (b ∷ rest)) ≡ accepted bs
      → (rest : List B) × (first ≡ accepted rest) × (b ∷ rest ≡ bs)
  rest_accepted first b bs h = ground arith

module _ {ℓ κ} {A : Type ℓ} {B : Type κ} where
  pub named-accepted :
      (o : Option A) (because : Refusal) (next : A → Checked B) (b : B)
      → named o because next ≡ accepted b
      → (a : A) × (o ≡ some a) × (next a ≡ accepted b)
  named-accepted o because next b h = elim (Option-cases o) [
    | inl missing ↦ absurd (ground arith)
    | inr (a, found) ↦ (a, found, ground arith)
  ]

  pub proceed-accepted :
      (first : Checked A) (next : A → Checked B) (b : B)
      → proceed first next ≡ accepted b
      → (a : A) × (first ≡ accepted a) × (next a ≡ accepted b)
  proceed-accepted first next b h = ground arith

module _ {ℓ κ} {A : Type ℓ} {B : Type κ} where
  pub decode_each-All {μ} :
      (f : A → Checked B) (P : B → Type μ)
      → ((a : A) (b : B) → f a ≡ accepted b → P b)
      → (t : List A) (bs : List B) → decode_each f t ≡ accepted bs
      → All P bs
  decode_each-All f P ok [] bs h = ground arith
  decode_each-All f P ok (a ∷ t) bs h =
      let (b, e, more) = proceed-accepted (f a) _ bs h in
      let (rest, es, eq) = rest_accepted (decode_each f t) b bs more in
      subst (All P) eq (ok a b e, decode_each-All f P ok t rest es)

pub within_runs-IsOrdinal : (runs : ℕ) (ref : ℤ) → within_runs runs ref ≡ true → IsOrdinal runs ref
unfolding IsOrdinal
within_runs-IsOrdinal runs (pos zero) h = cc
within_runs-IsOrdinal runs (pos (suc n)) h = (n, refl, omega (arith, leb→le (suc n) runs h))
within_runs-IsOrdinal runs (negsuc n) h = cc

pub valid_run_refs-IsOrdinal :
    (runs : ℕ) (refs : List ℤ) → valid_run_refs runs refs ≡ true → All (IsOrdinal runs) refs
valid_run_refs-IsOrdinal runs =
    every-All (within_runs runs) (IsOrdinal runs) (within_runs-IsOrdinal runs)

pub read_succeeded-IsSuccessful :
    (runs : List RunOutcome) (ref : ℤ) → read_succeeded runs ref ≡ true → IsSuccessful runs ref
unfolding IsSuccessful
read_succeeded-IsSuccessful runs (pos zero) h = cc
read_succeeded-IsSuccessful runs (pos (suc n)) h = (n, refl, ground arith)
read_succeeded-IsSuccessful runs (negsuc n) h = cc

pub same_integer-≡ : (a b : ℤ) → same_integer a b ≡ true → a ≡ b
same_integer-≡ a b h = ground arith

pub same_evidence-≡ : (a b : EvidenceRef) → same_evidence a b ≡ true → a ≡ b
same_evidence-≡ a b h = ground arith

pub any-same_evidence-IsIn :
    (ref : EvidenceRef) (allowed : List EvidenceRef)
    → any (same_evidence ref) allowed ≡ true
    → IsIn ref allowed
any-same_evidence-IsIn ref [] h = cc
any-same_evidence-IsIn ref (other ∷ allowed) h = elim (Bool-cases (same_evidence ref other)) [
  | inl same ↦ inl (sym (same_evidence-≡ ref other same))
  | inr differs ↦ inr (any-same_evidence-IsIn ref allowed (ground arith))
]

pub check_evidence-All :
    (allowed seen refs : List EvidenceRef)
    → check_evidence allowed seen refs ≡ none
    → All (λ ref. IsIn ref allowed) refs
unfolding check_evidence
check_evidence-All allowed seen [] h = tt
check_evidence-All allowed seen (ref ∷ refs) h =
    let facts : (any (same_evidence ref) allowed ≡ true)
        × (check_evidence allowed (ref ∷ seen) refs ≡ none) =
      ground arith in
    (
      any-same_evidence-IsIn ref allowed facts.0,
      check_evidence-All allowed (ref ∷ seen) refs facts.1,
    )

pub cites_some :
    (runs : List ℤ) (evidence : List EvidenceRef)
    → (is_nil runs && is_nil evidence) ≡ false
    → (runs ≢ []) ⊎ (evidence ≢ [])
cites_some [] [] h = cc
cites_some (ref ∷ runs) evidence h = inl (λ e. cc)
cites_some [] (ref ∷ evidence) h = inr (λ e. cc)

module _ (trim : String → String) (rune_count : String → ℕ) where
  pub decode_finding-IsGrounded :
      (runs : List RunOutcome) (allowed : List EvidenceRef) (d : FindingDocument) (f : Finding)
      → decode_finding trim rune_count runs allowed d ≡ accepted f
      → IsGrounded runs allowed f
  unfolding decode_finding
  decode_finding-IsGrounded runs allowed d f h = elim (Option-cases (kind_named d.kind)) [
    | inl unknown ↦ absurd (ground arith)
    | inr (kind, e) ↦
        let facts : (valid_run_refs (length runs) f.run_refs ≡ true)
            × (every (read_succeeded runs) f.run_refs ≡ true)
            × (check_evidence allowed [] f.evidence_refs ≡ none)
            × ((is_nil f.run_refs && is_nil f.evidence_refs) ≡ false) =
          ground arith in
        record {
          of_runs =
              every-All (read_succeeded runs) (IsSuccessful runs) (read_succeeded-IsSuccessful runs)
                f.run_refs facts.1;
          of_evidence = check_evidence-All allowed [] f.evidence_refs facts.2;
          cites = cites_some f.run_refs f.evidence_refs facts.3;
        }
  ]
