-- ===== src/Agent/Outcomes.antt =====
-- internal/investigation/agent/run.go: what a run may store when it ends.
use text.Mathlib.Text.{◌==◌ as str_eq}
use oc_control_plane.Prelude.{
  ℕ, zero, suc, ◌≡◌, refl, ap, sym, subst, ◌⊎◌, inl, inr, Bool, true, false, ◌&&◌, some, List, [],
  ◌∷◌, arith, if◌then◌else◌, Bool-cases, Option-cases, length, map, any, All, All-append,
}
use oc_control_plane.Prelude.Integers.{ℤ}
use oc_control_plane.Agent.Documents.{EvidenceRef, Conclusion, RunOutcome}
use oc_control_plane.Agent.Conclusions.{Refusal, Checked, accepted, refused}
use oc_control_plane.Agent.Decoding.{decode_conclusion}
use oc_control_plane.Agent.Cited.{IsOrdinal, IsWellCited}
use oc_control_plane.Agent.Grounds.{accepted-IsWellCited}
use oc_control_plane.Agent.Values.{ToolRun, CompletionCall, Usage}
use oc_control_plane.Agent.Calls.{split_calls}
use oc_control_plane.Agent.Prompts.{StoppedBy, Orientation, allowed_references}
use oc_control_plane.Agent.Exchange.{
  Model, Exchange, Completion, concluding, Move, ends, reads, concludes, fails, undecided,
  mark_missing_evidence, is_missing_telemetry, missing_evidence_statement, evidence_of,
}
use oc_control_plane.Agent.Attempts.{
  shrink, settle, consider, judge, verify, attempt, exchange, outcomes,
}
use oc_control_plane.Agent.Batch.{take_calls}
use oc_control_plane.Agent.Loop.{
  Setting, RunState, Ending, begin, follow, take_turn, run_from, Turned, concluded, run, initial,
  prepared, offered_count, batch_of, after_exchange,
}
use oc_control_plane.Agent.Budgets.{
  Attempted-cases, Turned-cases, completion_of, spent, consider-ends,
}
use oc_control_plane.Agent.Turns.{exchanged}

pub mark_missing_evidence-IsWellCited :
    (runs : List RunOutcome) (allowed : List EvidenceRef) (c : Conclusion)
    → IsWellCited runs allowed c
    → IsWellCited runs allowed (mark_missing_evidence c)
unfolding mark_missing_evidence
mark_missing_evidence-IsWellCited runs allowed c w =
    elim (Bool-cases (
      any (λ l. is_missing_telemetry l.kind && str_eq l.statement missing_evidence_statement)
        c.limitations)) [
          | inl marked ↦ rw (marked, mark_missing_evidence) w
          | inr unmarked ↦
              rw (unmarked, mark_missing_evidence)
                (record {
                  impact_cites = w.impact_cites;
                  findings_cite = w.findings_cite;
                  hypotheses_cite = w.hypotheses_cite;
                  actions_cite = w.actions_cite;
                  few_actions = w.few_actions;
                  limitations_cite =
                      All-append (λ l. All (IsOrdinal (length runs)) l.run_refs) c.limitations _
                        w.limitations_cite (tt, tt);
                  suits = w.suits;
                })
        ]

pub list-cases {ℓ} : {A : Type ℓ} (t : List A) → (t ≡ []) ⊎ ((a : A) × (s : List A) × (t ≡ a ∷ s))
list-cases [] = inl refl
list-cases (a ∷ s) = inr (a, s, refl)

pub Checked-cases {ℓ} :
    {A : Type ℓ} (c : Checked A)
    → ((a : A) × (c ≡ accepted a)) ⊎ ((because : Refusal) × (c ≡ refused because))
Checked-cases (accepted a) = inl (a, refl)
Checked-cases (refused because) = inr (because, refl)

pub marked :
    (missing : Bool) (runs : List RunOutcome) (allowed : List EvidenceRef) (c : Conclusion)
    → IsWellCited runs allowed c
    → IsWellCited runs allowed (if missing then mark_missing_evidence c else c)
marked true runs allowed c w = mark_missing_evidence-IsWellCited runs allowed c w
marked false runs allowed c w = w

module _ (model : Model) (turn : ℕ) (missing : Bool) (runs : List ToolRun)
    (prior : List EvidenceRef) (offered : ℕ) where
  abbrev pub Backed : Exchange → Conclusion → Type 0
  Backed x c =
      IsWellCited (outcomes model turn missing runs prior offered)
        (allowed_references prior x.orientation.brief) c

  pub verify-concluding :
      (first : Bool) (c d : Conclusion)
      → verify model turn missing runs prior offered first c ≡ concluding d
      → (if missing then mark_missing_evidence c else c) ≡ d
  unfolding verify
  verify-concluding first c d e = elim (list-cases (evidence_of c.findings)) [
    | inl uncited ↦ ground arith
    | inr (ref, refs, cited) ↦
        elim (Option-cases (model.evidence_missing turn first (ref ∷ refs))) [
          | inl unknown ↦ absurd (ground arith)
          | inr (gone, asked) ↦ ground arith
        ]
  ]

  pub judge-concluding :
      (first : Bool) (allowed : List EvidenceRef) (r s : List CompletionCall) (d : Conclusion)
      → judge model turn missing runs prior offered first allowed r s ≡ concluding d
      → IsWellCited (outcomes model turn missing runs prior offered) allowed d
  unfolding judge
  judge-concluding first allowed (read ∷ r) s d e = cc
  judge-concluding first allowed [] [] d e = cc
  judge-concluding first allowed [] (call ∷ other ∷ s) d e = cc
  judge-concluding first allowed [] (call ∷ []) d e =
      elim (Checked-cases (
        decode_conclusion model.trim model.rune_count model.parse call.arguments
          (outcomes model turn missing runs prior offered) allowed)) [
            | inr (because, e2) ↦ absurd (ground arith)
            | inl (c, e2) ↦
                let cited =
                  accepted-IsWellCited model.trim model.rune_count model.parse call.arguments
                    (outcomes model turn missing runs prior offered) allowed c e2 in
                subst (IsWellCited (outcomes model turn missing runs prior offered) allowed)
                  (verify-concluding first c d (ground arith))
                  (marked missing (outcomes model turn missing runs prior offered) allowed c cited)
          ]

  pub settle-concludes :
      (first : Bool) (x y : Exchange) (c : Completion) (r s : List CompletionCall) (d : Conclusion)
      → settle model turn missing runs prior offered first x c r s ≡ ends y (concludes d)
      → Backed x d
  unfolding settle
  settle-concludes first x y c r s d e =
      judge-concluding first (allowed_references prior x.orientation.brief) r s d (ground arith)

  pub consider-concludes :
      (first : Bool) (x y : Exchange) (c : Completion) (d : Conclusion)
      → consider model turn missing runs prior offered first x c ≡ ends y (concludes d)
      → Backed x d
  unfolding consider
  consider-concludes first x y c d e = elim (Option-cases (split_calls model.trim c.tool_calls)) [
    | inl malformed ↦ absurd (ground arith)
    | inr ((r, s), split) ↦ settle-concludes first x y c r s d (ground arith)
  ]

  abbrev pub cost : Bool → Exchange → Exchange
  cost = spent model turn missing runs prior offered

  abbrev pub brought : Bool → Exchange → Completion
  brought = completion_of model turn missing runs prior offered

  pub attempt-concludes :
      (first : Bool) (x y : Exchange) (d : Conclusion)
      → attempt model turn missing runs prior offered first x ≡ ends y (concludes d)
      → Backed y d
  unfolding attempt
  attempt-concludes first x y d e = elim (Option-cases (brought first x).error) [
    | inl fine ↦
        let judged : consider model turn missing runs prior offered first (cost first x)
              (brought first x)
            ≡ ends y (concludes d) =
          ground arith in
        let same =
          consider-ends model turn missing runs prior offered first (cost first x) y
            (brought first x) (concludes d) judged in
        subst
          (λ o.
            IsWellCited (outcomes model turn missing runs prior offered)
              (allowed_references prior o.brief) d)
          (sym same.1) (consider-concludes first (cost first x) y (brought first x) d judged)
    | inr (because, bad) ↦
        elim (Option-cases (shrink model turn missing runs prior offered (cost first x))) [
          | inl stuck ↦ absurd (ground arith)
          | inr (z, smaller) ↦ absurd (ground arith)
        ]
  ]

  pub exchange-concludes :
      (x y : Exchange) (d : Conclusion)
      → exchange model turn missing runs prior offered x ≡ (y, concludes d)
      → Backed y d
  unfolding exchange
  exchange-concludes x y d e =
      elim (Attempted-cases (attempt model turn missing runs prior offered true x)) [
        | inl (z, move, one) ↦ attempt-concludes true x y d (ground arith)
        | inr (z, more) ↦
            elim (Attempted-cases (attempt model turn missing runs prior offered false z)) [
              | inl (w, move, two) ↦ attempt-concludes false z y d (ground arith)
              | inr (w, again_more) ↦ absurd (ground arith)
            ]
      ]

module _ (setting : Setting) where
  -- What holds of a run's state between its turns.
  pub follow-ends :
      (s t : RunState) (forced : Bool) (move : Move) (ending : Ending)
      → follow setting s forced move ≡ Turned.ends ending t
      → s ≡ t
  unfolding follow
  follow-ends s t forced undecided ending e = ground arith
  follow-ends s t forced (fails because) ending e = ground arith
  follow-ends s t forced (concludes c) ending e = ground arith
  follow-ends s t forced (reads calls) ending e =
      elim (Option-cases (take_calls setting.sources (batch_of setting s) calls)) [
        | inl cut ↦ ground arith
        | inr (batch, done) ↦ ground arith
      ]

  pub follow-concluded :
      (s t : RunState) (forced : Bool) (move : Move) (c : Conclusion) (by : StoppedBy)
      (usage : Usage)
      → follow setting s forced move ≡ Turned.ends (concluded c by usage) t
      → (move ≡ concludes c) × (s ≡ t)
  unfolding follow
  follow-concluded s t forced undecided c by usage e = cc
  follow-concluded s t forced (fails because) c by usage e = cc
  follow-concluded s t forced (concludes d) c by usage e = ground arith
  follow-concluded s t forced (reads calls) c by usage e =
      elim (Option-cases (take_calls setting.sources (batch_of setting s) calls)) [
        | inl cut ↦ absurd (ground arith)
        | inr (batch, done) ↦ absurd (ground arith)
      ]

  pub IsSolid : RunState → Conclusion → Type 0
  IsSolid t c =
      IsWellCited (map (λ r. r.outcome) t.runs) (allowed_references t.prior t.orientation.brief) c

  pub take_turn-concluded :
      (turn : ℕ) (s t : RunState) (c : Conclusion) (by : StoppedBy) (usage : Usage)
      → take_turn setting turn s ≡ Turned.ends (concluded c by usage) t
      → IsSolid t c
  unfolding take_turn IsSolid
  take_turn-concluded turn s t c by usage e =
      let (x, move) = exchanged setting turn s in
      let (asked, same) =
        follow-concluded (after_exchange setting s x) t x.forced move c by usage (ground arith) in
      subst (λ u. IsSolid u c) same
        (exchange-concludes setting.model turn s.missing_evidence s.runs s.prior
          (offered_count setting) (begin setting turn s) x c (ap (λ m. (x, m)) asked))

  pub run_from-concluded :
      (fuel turn : ℕ) (s t : RunState) (c : Conclusion) (by : StoppedBy) (usage : Usage)
      → run_from setting fuel turn s ≡ some (concluded c by usage, t)
      → IsSolid t c
  unfolding run_from
  run_from-concluded zero turn s t c by usage e = cc
  run_from-concluded (suc fuel) turn s t c by usage e =
      elim (Turned-cases (take_turn setting turn s)) [
        | inl (ending, u, done) ↦ take_turn-concluded turn s t c by usage (ground arith)
        | inr (u, more) ↦ run_from-concluded fuel (suc turn) u t c by usage (ground arith)
      ]

-- Whatever the model answers, a run that stores a conclusion stores one that is well cited: it
-- names only runs of this run, by the ordinals of the runs it has recorded, its findings rest on
-- runs that succeeded and on prior evidence that the run was shown, and its findings suit its
-- status.
pub run-concluded-IsWellCited :
    (max_tool_runs max_turns : ℤ) (orientation : Orientation) (setting : Setting) (t : RunState)
    (c : Conclusion) (by : StoppedBy) (usage : Usage)
    → run max_tool_runs max_turns orientation setting ≡ some (concluded c by usage, t)
    → IsWellCited (map (λ r. r.outcome) t.runs) (allowed_references t.prior t.orientation.brief) c
unfolding run IsSolid
run-concluded-IsWellCited max_tool_runs max_turns orientation setting t c by usage e =
    let ready = prepared max_tool_runs max_turns orientation setting in
    run_from-concluded ready (suc ready.max_turns) 1 (initial orientation) t c by usage e
