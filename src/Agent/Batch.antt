-- ===== src/Agent/Batch.antt =====
-- internal/investigation/agent: the reads of one turn, call by call. The second half of the loop of
-- run.go, readHistory of history.go, recordToolRun of run.go and renderResult of prompt.go.
use Prim.Native.String.{String, ◌++◌ as str_append}
use text.Mathlib.Text.{◌==◌ as str_eq}
use oc_control_plane.Prelude.{
  ℕ, zero, suc, Bool, true, false, not, ◌||◌, Option, none, some, List, [], ◌∷◌, ◌++◌, leb, ◌==◌,
  if◌then◌else◌, any, length, get_elem?,
}
use oc_control_plane.Prelude.Integers.{ℤ, pos, negsuc}
use oc_control_plane.Agent.Conclusions.{is_success}
use oc_control_plane.Agent.Values.{
  ToolCall, OfferedSource, Tool, HistoryPage, ToolRun, ToolResultTurn,
}
use oc_control_plane.Agent.Observations.{prepare_observation}
use oc_control_plane.Agent.Calls.{history_tool_name, tool_named, call_identity}
use oc_control_plane.Agent.Exchange.{missing_evidence_statement}
use oc_control_plane.Agent.Reads.{
  Reads, Batch, look_for, history_evidence, history_prefix, bound_history_page,
}
use oc_control_plane.Agent.Execution.{dropped_run, suppressed_run, execute}

-- What readHistory answers: a page, or why there is none.
pub data HistoryRead : Type 0 where
  page_read : HistoryPage → HistoryRead
  not_read : String → HistoryRead

abbrev pub in_range : ℕ → ℤ → Bool
in_range last (pos zero) = false
in_range last (pos (suc n)) = leb (suc n) last
in_range last (negsuc n) = false

module _ (reads : Reads) where
  -- readHistory, once the read is counted; `n` is the number of the reads before it.
  unfoldable pub fetch_page : ℕ → ℤ → HistoryRead
  fetch_page n before = elim (reads.conversation_history n before) [
    | none ↦ not_read "stored Conversation history could not be read; continuity is limited"
    | some page ↦
        elim (bound_history_page reads (record page {
          missing_evidence = true;
          limitations = missing_evidence_statement ∷ [];
        })) [
          | none ↦
              not_read "stored Conversation history could not be encoded within its response budget"
          | some bounded ↦ elim (reads.evidence_missing n (history_evidence bounded)) [
            | none ↦
                not_read "stored Conversation evidence could not be checked; continuity is limited"
            | some missing ↦ page_read (record bounded {
              missing_evidence = missing;
              limitations = if missing then bounded.limitations else [];
            })
          ]
        ]
  ]

  abbrev pub with_page : String → Batch → HistoryRead → Batch × HistoryRead
  with_page identity batch (page_read page) =
      (record batch { history_identities = identity ∷ batch.history_identities }, page_read page)
  with_page identity batch (not_read because) = (batch, not_read because)

  -- readHistory.
  unfoldable pub read_history : Batch → ToolCall → Batch × HistoryRead
  read_history batch call =
      let identity = call_identity reads.marshal call in
      if (reads.conversation_id == 0) || leb reads.history_before 1
      then (batch, not_read "earlier Conversation history is not available for this input")
      else elim (reads.before_sequence call.arguments) [
        | none ↦ (batch, not_read "beforeSequence must be within the offered prior-history range")
        | some before ↦
            if not (in_range reads.history_before before)
            then (batch, not_read "beforeSequence must be within the offered prior-history range")
            else if any (str_eq identity) batch.history_identities
            then (
              batch,
              not_read
                  "identical history was already read; use its result or choose an earlier cursor",
            )
            else if leb reads.max_runs batch.executed
            then (batch, not_read "the read limit has been reached")
            else with_page identity (record batch { executed = suc batch.executed })
                (fetch_page batch.executed before)
      ]

  -- renderResult of a page.
  unfoldable pub render_history : ToolCall → HistoryRead → ToolResultTurn
  render_history call (page_read page) = record {
    call_id = call.id;
    content = str_append (history_prefix reads) (reads.marshal_page page);
    is_error = false;
  }
  render_history call (not_read because) = record {
    call_id = call.id;
    content = str_append "HISTORY UNAVAILABLE: " because;
    is_error = true;
  }

  abbrev pub keep_page : HistoryRead → Batch → Batch
  keep_page (page_read page) batch = record batch {
    prior = batch.prior ++ history_evidence page;
    missing_evidence = batch.missing_evidence || page.missing_evidence;
  }
  keep_page (not_read because) batch = batch

  abbrev pub add_result : ToolResultTurn → Batch → Batch
  add_result result batch = record batch { results = batch.results ++ result ∷ [] }

  -- A call of the history tool.
  unfoldable pub take_history : Batch → ToolCall → Batch
  take_history batch call =
      let (after, read) = read_history batch call in
      if str_eq call.error ""
      then add_result (render_history call read) (keep_page read after)
      else add_result (render_history call (not_read call.error)) batch

  -- renderResult of a run.
  unfoldable pub render_run : ToolCall → ToolRun → ToolResultTurn
  render_run call run = record {
    call_id = call.id;
    content = run.observation_text;
    is_error = not (is_success run.outcome);
  }

  -- prepareObservation, on what the run of the agent fixes.
  abbrev pub prepared_run : List (ℕ × String) → ToolRun → ToolRun
  prepared_run =
      prepare_observation reads.replace_all reads.marshal_json reads.marshal_page reads.quoted
        reads.itoa reads.stamp reads.names_a_credential

  -- recordToolRun, and the result that the model sees; `none` where the store refuses the run.
  unfoldable pub record_run : Batch → ToolCall → ToolRun → Option Batch
  record_run batch call run =
      let shown = prepared_run batch.credentials.opened run in
      if reads.record_tool_run shown
      then some
          (add_result (render_run call shown) (record batch { runs = batch.runs ++ shown ∷ [] }))
      else none

  -- `run.IntegrationID` of the source that the call names, and `run.Purpose`.
  abbrev pub attributed : Option (OfferedSource × Tool) → ToolCall → ToolRun → ToolRun
  attributed none call run = record run { purpose = call.purpose }
  attributed (some (source, tool)) call run = record run {
    integration_id = source.integration.id;
    purpose = call.purpose;
  }

  -- The call names its source, where it can mean only one.
  unfoldable pub select_source : ToolCall → ToolCall
  select_source call = elim (tool_named reads.uuid_text reads.offered call) [
    | none ↦ call
    | some (source, tool) ↦ record call { integration_id = reads.uuid_text source.integration.id }
  ]

  -- `state.runs[original-1].IntegrationID`.
  abbrev pub integration_of : List ToolRun → ℕ → ℕ
  integration_of runs zero = 0
  integration_of runs (suc n) = elim (get_elem? runs n) [ none ↦ 0 | some run ↦ run.integration_id ]

  -- A read of a tool, counted before it is recorded.
  unfoldable pub take_read : Batch → ToolCall → Option Batch
  take_read batch call =
      let ordinal = suc (length batch.runs) in
      let (after, executed) = execute reads batch.credentials call ordinal in
      elim executed [
        | none ↦ none
        | some run ↦
            record_run
              (record batch {
                credentials = after;
                executed = suc batch.executed;
                identities = (call_identity reads.marshal call, ordinal) ∷ batch.identities;
              })
              call (attributed (tool_named reads.uuid_text reads.offered call) call run)
      ]

  abbrev pub budget_spent : String
  budget_spent =
      str_append "not executed: the investigation's read budget of "
        (str_append (reads.itoa reads.max_runs) " was exhausted")

  -- The switch of the loop, on a call whose source is selected.
  unfoldable pub take_selected : Batch → ToolCall → Option Batch
  take_selected batch call =
      let ordinal = suc (length batch.runs) in
      let as_named = attributed (tool_named reads.uuid_text reads.offered call) call in
      if not (str_eq call.error "")
      then record_run batch call (as_named (dropped_run reads call ordinal call.error))
      else elim (look_for (call_identity reads.marshal call) batch.identities) [
        | some original ↦ record_run batch call (
            as_named (record (suppressed_run reads call ordinal original) {
              integration_id = integration_of batch.runs original;
            }))
        | none ↦
            if leb reads.max_runs batch.executed
            then record_run batch call (as_named (dropped_run reads call ordinal budget_spent))
            else take_read batch call
      ]

  unfoldable pub take_call : Batch → ToolCall → Option Batch
  take_call batch call =
      if str_eq call.tool history_tool_name
      then some (take_history batch call)
      else take_selected batch (select_source call)

  -- The loop over `move.Calls`; `none` is errProvenance or an access that could not be recorded.
  unfoldable pub take_calls : Batch → List ToolCall → Option Batch
  take_calls batch [] = some batch
  take_calls batch (call ∷ calls) = elim (take_call batch call) [
    | none ↦ none
    | some after ↦ take_calls after calls
  ]
