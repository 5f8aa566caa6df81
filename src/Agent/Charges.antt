-- ===== src/Agent/Charges.antt =====
-- internal/investigation/agent/run.go: every call of a turn keeps the account of the reads.
use Prim.Native.String.{String}
use text.Mathlib.Text.{◌==◌ as str_eq}
use oc_control_plane.Prelude.{
  ℕ, suc, ◌≤◌, ◌≡◌, refl, ap, sym, ◌∙◌, subst, inl, inr, false, Option, none, some, List, [], ◌∷◌,
  ◌++◌, arith, leb, count, ◌+◌, if◌then◌else◌, Bool-cases, Option-cases, length,
}
use oc_control_plane.Agent.Values.{ToolCall, ToolRun, OfferedSource, Tool}
use oc_control_plane.Agent.Conclusions.{is_success}
use oc_control_plane.Agent.Observed.{IsPresentable, prepare_observation-IsPresentable}
use oc_control_plane.Agent.Calls.{history_tool_name, call_identity, tool_named}
use oc_control_plane.Agent.Reads.{Reads, Batch, Credentials, look_for, unaudited, unopened}
use oc_control_plane.Agent.Execution.{
  execute, open_credential, dropped_run, suppressed_run, run_offered, request_for,
}
use oc_control_plane.Agent.Batch.{
  HistoryRead, page_read, not_read, fetch_page, read_history, take_history, record_run,
  select_source, take_read, take_selected, take_call, take_calls, prepared_run, attributed,
  with_page, budget_spent, integration_of, keep_page,
}
use oc_control_plane.Agent.Accounts.{
  IsAccounted, IsNumbered, ToolOutcome-cases, append-IsNumbered, brought, count-append_one,
  one_more, sum-cases,
}

module _ (reads : Reads) where
  prepared_run-IsPresentable :
      (opened : List (ℕ × String)) (run : ToolRun)
      → IsPresentable run (prepared_run reads opened run)
  prepared_run-IsPresentable =
      prepare_observation-IsPresentable reads.replace_all reads.marshal_json reads.marshal_page
        reads.quoted reads.itoa reads.stamp reads.names_a_credential

  record_run-IsAccounted :
      (batch after : Batch) (call : ToolCall) (run : ToolRun)
      → batch.executed ≤ reads.max_runs
      → IsNumbered batch.runs
      → count brought batch.runs + (if brought run then 1 else 0) + length batch.history_identities
        ≤ batch.executed
      → run.ordinal ≡ suc (length batch.runs)
      → record_run reads batch call run ≡ some after
      → IsAccounted reads.max_runs after
  unfolding record_run
  record_run-IsAccounted batch after call run within numbered room here e =
      let shown = prepared_run reads batch.credentials.opened run in
      let kept = prepared_run-IsPresentable batch.credentials.opened run in
      let (grown, unspent, unread) : (after.runs ≡ batch.runs ++ shown ∷ [])
          × (after.executed ≡ batch.executed)
          × (after.history_identities ≡ batch.history_identities) =
        ground arith in
      let same : brought shown ≡ brought run = ap is_success kept.same_outcome in
      record {
        within = omega (arith, within, unspent);
        counted = rw (grown, unspent, unread, count-append_one brought batch.runs shown, same) room;
        numbered =
            subst IsNumbered (sym grown)
              (append-IsNumbered batch.runs shown numbered (kept.same_ordinal ∙ here));
      }

  -- A run that is not executed brings nothing, and costs nothing.
  idle-IsAccounted :
      (batch after : Batch) (call : ToolCall) (run : ToolRun)
      → IsAccounted reads.max_runs batch
      → brought run ≡ false
      → run.ordinal ≡ suc (length batch.runs)
      → record_run reads batch call run ≡ some after
      → IsAccounted reads.max_runs after
  idle-IsAccounted batch after call run inv idle here e =
      record_run-IsAccounted batch after call run inv.within inv.numbered
        (let counted = inv.counted in rw idle (omega arith)) here e

  attributed-outcome :
      (source : Option (OfferedSource × Tool)) (call : ToolCall) (run : ToolRun)
      → (attributed reads source call run).outcome ≡ run.outcome
  attributed-outcome none call run = refl
  attributed-outcome (some (source, tool)) call run = refl

  run_offered-ordinal :
      (source : OfferedSource) (tool : Tool) (credential : String) (call : ToolCall) (ordinal : ℕ)
      → (run_offered reads source tool credential call ordinal).ordinal ≡ ordinal
  unfolding run_offered
  run_offered-ordinal source tool credential call ordinal =
      elim (ToolOutcome-cases
        (reads.run_tool ordinal source tool (request_for reads source call credential))) [
          | inl (result, e) ↦ elim (Option-cases result.window) [
            | inl fixed ↦ ground arith
            | inr (bounds, w) ↦ ground arith
          ]
          | inr (because, e) ↦ ground arith
        ]

  execute-ordinal :
      (cache : Credentials) (call : ToolCall) (ordinal : ℕ) (run : ToolRun)
      → (execute reads cache call ordinal).1 ≡ some run
      → run.ordinal ≡ ordinal
  unfolding execute
  execute-ordinal cache call ordinal run e =
      elim (Option-cases (tool_named reads.uuid_text reads.offered call)) [
        | inl unknown ↦ ground arith
        | inr ((source, tool), named) ↦
            elim (sum-cases (open_credential reads cache source.integration).1) [
              | inl (credential, o) ↦
                  ground (arith, run_offered-ordinal source tool credential call ordinal)
              | inr (unaudited, o) ↦ ground arith
              | inr (unopened, o) ↦ ground arith
            ]
      ]

  attributed-ordinal :
      (source : Option (OfferedSource × Tool)) (call : ToolCall) (run : ToolRun)
      → (attributed reads source call run).ordinal ≡ run.ordinal
  attributed-ordinal none call run = refl
  attributed-ordinal (some (source, tool)) call run = refl

  take_read-IsAccounted :
      (batch after : Batch) (call : ToolCall)
      → IsAccounted reads.max_runs batch
      → leb reads.max_runs batch.executed ≡ false
      → take_read reads batch call ≡ some after
      → IsAccounted reads.max_runs after
  unfolding take_read
  take_read-IsAccounted batch after call inv room e =
      let ordinal = suc (length batch.runs) in
      let (cache, executed) = execute reads batch.credentials call ordinal in
      elim (Option-cases executed) [
        | inl cut ↦ absurd (ground arith)
        | inr (run, done) ↦
            let named = attributed reads (tool_named reads.uuid_text reads.offered call) call run in
            record_run-IsAccounted
              (record batch {
                credentials = cache;
                executed = suc batch.executed;
                identities = (call_identity reads.marshal call, ordinal) ∷ batch.identities;
              })
              after call named (ground arith) inv.numbered
              (one_more (count brought batch.runs) (length batch.history_identities) batch.executed
                (brought named) inv.counted)
              (attributed-ordinal (tool_named reads.uuid_text reads.offered call) call run
                ∙ execute-ordinal batch.credentials call ordinal run done)
              (ground arith)
      ]

  take_selected-IsAccounted :
      (batch after : Batch) (call : ToolCall)
      → IsAccounted reads.max_runs batch
      → take_selected reads batch call ≡ some after
      → IsAccounted reads.max_runs after
  unfolding take_selected dropped_run suppressed_run
  take_selected-IsAccounted batch after call inv e =
      let ordinal = suc (length batch.runs) in
      let source = tool_named reads.uuid_text reads.offered call in
      elim (Bool-cases (str_eq call.error "")) [
        | inr bad ↦
            let run = dropped_run reads call ordinal call.error in
            idle-IsAccounted batch after call (attributed reads source call run) inv
              (ap is_success (attributed-outcome source call run))
              (attributed-ordinal source call run ∙ refl) (ground arith)
        | inl good ↦
            elim (Option-cases (look_for (call_identity reads.marshal call) batch.identities)) [
              | inl fresh ↦ elim (Bool-cases (leb reads.max_runs batch.executed)) [
                | inl full ↦
                    let run = dropped_run reads call ordinal (budget_spent reads) in
                    idle-IsAccounted batch after call (attributed reads source call run) inv
                      (ap is_success (attributed-outcome source call run))
                      (attributed-ordinal source call run ∙ refl) (ground arith)
                | inr room ↦ take_read-IsAccounted batch after call inv room (ground arith)
              ]
              | inr (original, twice) ↦
                  let run : ToolRun = record (suppressed_run reads call ordinal original) {
                    integration_id = integration_of reads batch.runs original;
                  } in
                  idle-IsAccounted batch after call (attributed reads source call run) inv
                    (ap is_success (attributed-outcome source call run))
                    (attributed-ordinal source call run ∙ refl) (ground arith)
            ]
      ]

  keep_page-keeps :
      (read : HistoryRead) (batch : Batch)
      → ((keep_page reads read batch).executed ≡ batch.executed)
        × ((keep_page reads read batch).runs ≡ batch.runs)
        × ((keep_page reads read batch).history_identities ≡ batch.history_identities)
  keep_page-keeps (page_read page) batch = (refl, refl, refl)
  keep_page-keeps (not_read because) batch = (refl, refl, refl)

  with_page-keeps :
      (identity : String) (batch : Batch) (read : HistoryRead)
      → ((with_page reads identity batch read).0.executed ≡ batch.executed)
        × ((with_page reads identity batch read).0.runs ≡ batch.runs)
        × (length (with_page reads identity batch read).0.history_identities
            ≤ suc (length batch.history_identities))
  with_page-keeps identity batch (page_read page) = (refl, refl, omega arith)
  with_page-keeps identity batch (not_read because) = (refl, refl, omega arith)

  read_history-within :
      (batch : Batch) (call : ToolCall)
      → batch.executed ≤ reads.max_runs
      → ((read_history reads batch call).0.executed ≤ reads.max_runs)
        × ((read_history reads batch call).0.runs ≡ batch.runs)
        × (length (read_history reads batch call).0.history_identities + batch.executed
            ≤ (read_history reads batch call).0.executed + length batch.history_identities)
  unfolding read_history
  read_history-within batch call h = elim (Option-cases (reads.before_sequence call.arguments)) [
    | inl invalid ↦ ground arith
    | inr (before, asked) ↦ ground (
      arith,
      with_page-keeps (call_identity reads.marshal call)
          (record batch { executed = suc batch.executed }) (fetch_page reads batch.executed before),
    )
  ]

  take_history-IsAccounted :
      (batch : Batch) (call : ToolCall)
      → IsAccounted reads.max_runs batch
      → IsAccounted reads.max_runs (take_history reads batch call)
  unfolding take_history
  take_history-IsAccounted batch call inv =
      let facts = read_history-within batch call inv.within in
      let kept =
        keep_page-keeps (read_history reads batch call).1 (read_history reads batch call).0 in
      let same : (take_history reads batch call).runs ≡ batch.runs = ground arith in
      record {
        within = ground arith;
        counted = let before = inv.counted in ground arith;
        numbered = subst IsNumbered (sym same) inv.numbered;
      }

  take_call-IsAccounted :
      (batch after : Batch) (call : ToolCall)
      → IsAccounted reads.max_runs batch
      → take_call reads batch call ≡ some after
      → IsAccounted reads.max_runs after
  unfolding take_call
  take_call-IsAccounted batch after call inv e =
      elim (Bool-cases (str_eq call.tool history_tool_name)) [
        | inl past ↦
            let same : take_history reads batch call ≡ after = ground arith in
            subst (IsAccounted reads.max_runs) same (take_history-IsAccounted batch call inv)
        | inr other ↦
            take_selected-IsAccounted batch after (select_source reads call) inv (ground arith)
      ]

  pub take_calls-IsAccounted :
      (calls : List ToolCall) (batch after : Batch)
      → IsAccounted reads.max_runs batch
      → take_calls reads batch calls ≡ some after
      → IsAccounted reads.max_runs after
  unfolding take_calls
  take_calls-IsAccounted [] batch after inv e =
      let same : batch ≡ after = ground arith in subst (IsAccounted reads.max_runs) same inv
  take_calls-IsAccounted (call ∷ calls) batch after inv e =
      elim (Option-cases (take_call reads batch call)) [
        | inl cut ↦ absurd (ground arith)
        | inr (next, done) ↦
            take_calls-IsAccounted calls next after (take_call-IsAccounted batch next call inv done)
              (ground arith)
      ]
