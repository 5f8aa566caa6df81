-- ===== src/Agent/Execution.antt =====
-- internal/investigation/agent/tools.go: droppedRun, execute and the credential cache, and
-- suppressedRun of run.go.
use Prim.Native.String.{String, ◌++◌ as str_append}
use text.Mathlib.Text.{◌==◌ as str_eq}
use oc_control_plane.Prelude.{
  ℕ, ◌⊎◌, inl, inr, true, false, not, Option, none, some, [], ◌==◌, if◌then◌else◌, lookup, insert,
}
use oc_control_plane.Agent.Documents.{run_succeeded, run_failed}
use oc_control_plane.Agent.Values.{ToolCall, Tool, Integration, OfferedSource, no_content, ToolRun}
use oc_control_plane.Agent.Calls.{tool_named}
use oc_control_plane.Agent.Reads.{
  Reads, Credentials, OpenError, ToolRequest, ToolResult, failed, succeeded, unaudited, unopened,
}

module _ (reads : Reads) where
  -- credentialCache.open.
  unfoldable pub open_credential : Credentials → Integration → Credentials × (String ⊎ OpenError)
  open_credential cache integration = elim (lookup integration.id cache.opened) [
    | some credential ↦ (cache, inl credential)
    | none ↦ elim (lookup integration.id cache.failures) [
      | some because ↦ (cache, inr because)
      | none ↦
          if str_eq integration.credential_sealed ""
          then (record cache { opened = insert integration.id "" cache.opened }, inl "")
          else if not (reads.record_unseal integration.id)
          then (
            record cache { failures = insert integration.id unaudited cache.failures },
            inr unaudited,
          )
          else elim (reads.open_sealed integration.id integration.credential_sealed) [
            | none ↦ (
              record cache { failures = insert integration.id unopened cache.failures },
              inr unopened,
            )
            | some credential ↦ (
              record cache { opened = insert integration.id credential cache.opened },
              inl credential,
            )
          ]
    ]
  ]

  -- The run that a call starts as.
  abbrev pub started : ToolCall → ℕ → ToolRun
  started call ordinal = record {
    integration_id = 0;
    ordinal = ordinal;
    tool = call.tool;
    purpose = "";
    arguments = call.arguments;
    window_from = reads.window_from;
    window_until = reads.window_until;
    window_applied = false;
    outcome = run_failed;
    truncated = false;
    summary = "";
    sources = [];
    error = "";
    content = no_content;
    observation_text = "";
    model_clipped = false;
  }

  -- droppedRun.
  unfoldable pub dropped_run : ToolCall → ℕ → String → ToolRun
  dropped_run call ordinal because = record (started call ordinal) {
    summary = because;
    error = because;
  }

  -- suppressedRun.
  unfoldable pub suppressed_run : ToolCall → ℕ → ℕ → ToolRun
  suppressed_run call ordinal original = record (started call ordinal) {
    summary =
        str_append "not executed: identical to run "
          (str_append (reads.itoa original) ", whose result is already above");
    error = str_append "not executed: identical to run " (
        str_append (reads.itoa original)
          " in this batch; use its result or request a refresh in a later turn");
  }

  unfoldable pub request_for : OfferedSource → ToolCall → String → ToolRequest
  request_for source call credential =
      let plain : ToolRequest = record {
        investigation_id = reads.investigation_id;
        integration = source.integration;
        credential = credential;
        arguments = call.arguments;
        window_from = reads.window_from;
        window_until = reads.window_until;
        origin_channel = "";
        origin_thread = "";
      } in
      elim reads.origin [
        | none ↦ plain
        | some origin ↦
            if source.integration.id == origin.integration_id
            then record plain { origin_channel = origin.channel; origin_thread = origin.thread }
            else plain
      ]

  abbrev pub with_result : ToolRun → ToolResult → ToolRun
  with_result run result =
      let filled : ToolRun = record run {
        outcome = run_succeeded;
        truncated = result.truncated;
        summary = result.summary;
        sources = result.sources;
        content = result.content;
      } in
      elim result.window [
        | none ↦ filled
        | some (from, until) ↦ record filled {
          window_from = from;
          window_until = until;
          window_applied = true;
        }
      ]

  -- execute, once the tool is known and the credential is open.
  unfoldable pub run_offered : OfferedSource → Tool → String → ToolCall → ℕ → ToolRun
  run_offered source tool credential call ordinal =
      let run : ToolRun = record (started call ordinal) {
        integration_id = source.integration.id;
      } in
      elim (reads.run_tool ordinal source tool (request_for source call credential)) [
        | failed because ↦ record run { error = because }
        | succeeded result ↦ with_result run result
      ]

  -- execute: the credentials after it and the run, or `none` where an access to a credential could
  -- not be recorded.
  unfoldable pub execute : Credentials → ToolCall → ℕ → Credentials × Option ToolRun
  execute cache call ordinal = elim (tool_named reads.uuid_text reads.offered call) [
    | none ↦ (
      cache,
      some (record (started call ordinal) {
        error = "not one of the tools the selected sources offer";
      }),
    )
    | some (source, tool) ↦
        let (after, opened) = open_credential cache source.integration in
        elim opened [
          | inl credential ↦ (after, some (run_offered source tool credential call ordinal))
          | inr unaudited ↦ (after, none)
          | inr unopened ↦ (
            after,
            some (record (started call ordinal) {
              integration_id = source.integration.id;
              error = "the integration's credential could not be opened";
            }),
          )
        ]
  ]
