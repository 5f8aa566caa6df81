-- ===== src/Agent/Attempts.antt =====
-- internal/investigation/agent/run.go: the two attempts of an exchange.
use Prim.Native.String.{String}
use oc_control_plane.Prelude.{
  ℕ, Bool, true, false, not, ◌&&◌, Option, none, some, List, [], ◌∷◌, ◌++◌, ltb, if◌then◌else◌, map,
  length,
}
use oc_control_plane.Agent.Documents.{RunOutcome, EvidenceRef, Conclusion}
use oc_control_plane.Agent.Conclusions.{unavailable_evidence, accepted, refused, is_nil}
use oc_control_plane.Agent.Decoding.{decode_conclusion}
use oc_control_plane.Agent.Values.{CompletionCall, ToolRun}
use oc_control_plane.Agent.Calls.{split_calls, decode_tool_calls}
use oc_control_plane.Agent.Prompts.{
  by_context, conclude_reason, allowed_references, Prompt, model_prompt,
}
use oc_control_plane.Agent.Exchange.{
  Attempted, Completion, Exchange, Judged, Model, Move, add_usage, again, answer, broken,
  completion_failed, concludes, concluding, context_window, declined, ends, error_results,
  evidence_of, fails, invalid, invalid_twice, malformed_calls, mark_missing_evidence,
  provider_error, reads, reduce_orientation, stop_refused, stop_truncated, unusable,
  unverified_evidence,
}

module _ (model : Model) (turn : ℕ) (missing_evidence : Bool) (runs : List ToolRun)
    (prior : List EvidenceRef) (offered : ℕ) where
  abbrev pub outcomes : List RunOutcome
  outcomes = map (λ run. run.outcome) runs

  -- EvidenceMissing is asked only where the conclusion cites prior evidence.
  unfoldable pub verify : Bool → Conclusion → Judged
  verify first c =
      let marked = concluding (if missing_evidence then mark_missing_evidence c else c) in
      elim (evidence_of c.findings) [
        | [] ↦ marked
        | ref ∷ refs ↦ elim (model.evidence_missing turn first (ref ∷ refs)) [
          | none ↦ broken
          | some missing ↦ if missing then invalid (model.explain unavailable_evidence) else marked
        ]
      ]

  unfoldable pub judge :
      Bool → List EvidenceRef → List CompletionCall → List CompletionCall → Judged
  judge first allowed (read ∷ more) conclusions =
      invalid "no further reads are available; finalization deferred: call conclude by itself"
  judge first allowed [] [] =
      invalid "call conclude exactly once with the evidence-bounded conclusion"
  judge first allowed [] (call ∷ other ∷ calls) =
      invalid "call conclude exactly once with the evidence-bounded conclusion"
  judge first allowed [] (call ∷ []) =
      elim (decode_conclusion model.trim model.rune_count model.parse call.arguments outcomes
        allowed) [ refused because ↦ invalid (model.explain because) | accepted c ↦ verify first c ]

  abbrev pub prompt_of : Exchange → Prompt
  prompt_of x =
      model_prompt model.trim x.orientation x.transcript
        (not (is_nil (allowed_references prior x.orientation.brief))) x.forced x.reason

  -- A first attempt that fills the context: try again with less, or without the reads.
  unfoldable pub shrink : Exchange → Option Exchange
  shrink x =
      let reduced = reduce_orientation x.orientation in
      if ltb (model.render_length reduced) (model.render_length x.orientation)
      then some (record x { orientation = reduced })
      else if not x.forced && ltb 1 (length (prompt_of x).tools)
      then some (record x {
        stopped_by = by_context;
        reason = conclude_reason by_context offered;
        forced = true;
      })
      else none

  abbrev pub defer : String
  defer = "Finalization deferred: consider the read results before calling conclude again."

  unfoldable pub settle :
      Bool → Exchange → Completion → List CompletionCall → List CompletionCall → Attempted
  settle first x completion reads_asked conclusions =
      if not (is_nil reads_asked) && not x.forced
      then ends
          (record x {
            transcript =
                x.transcript ++ answer completion (error_results defer conclusions) "" ∷ [];
          })
          (reads (decode_tool_calls model.unmarshal reads_asked))
      else elim (judge first (allowed_references prior x.orientation.brief) reads_asked
          conclusions) [
            | concluding c ↦ ends x (concludes c)
            | broken ↦ ends x (fails unverified_evidence)
            | invalid because ↦
                if first
                then again (record x {
                  transcript =
                      x.transcript
                      ++ answer completion (error_results because completion.tool_calls) because
                        ∷ [];
                  forced = true;
                })
                else ends x (fails invalid_twice)
          ]

  unfoldable pub consider : Bool → Exchange → Completion → Attempted
  consider first x completion = elim completion.stop [
    | stop_refused ↦ ends x (fails declined)
    | stop_truncated ↦ again x
    | _ ↦ elim (split_calls model.trim completion.tool_calls) [
      | none ↦ ends x (fails malformed_calls)
      | some (reads_asked, conclusions) ↦ settle first x completion reads_asked conclusions
    ]
  ]

  unfoldable pub attempt : Bool → Exchange → Attempted
  attempt first x =
      let completion = model.complete turn first (prompt_of x) in
      let spent = record x { usage = add_usage x.usage completion.usage } in
      elim completion.error [
        | none ↦ consider first spent completion
        | some provider_error ↦ ends spent (fails completion_failed)
        | some context_window ↦
            if first
            then elim (shrink spent) [
              | some smaller ↦ again smaller
              | none ↦ ends spent (fails completion_failed)
            ]
            else ends spent (fails completion_failed)
      ]

  -- The loop `for attempt := range 2`, and the check after it.
  unfoldable pub exchange : Exchange → Exchange × Move
  exchange x = elim (attempt true x) [
    | ends y move ↦ (y, move)
    | again y ↦ elim (attempt false y) [ ends z move ↦ (z, move) | again z ↦ (z, fails unusable) ]
  ]
