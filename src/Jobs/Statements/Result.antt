-- ===== src/Jobs/Statements/Result.antt =====
-- internal/store/postgres/result.go: RecordResult, explainRefusedResult and JobOutcome.
use mathlib.Core.Option
use oc_control_plane.Prelude.{
  ℕ, Bool, ◌&&◌, Option, none, some, List, ltb, ◌==◌, if◌then◌else◌, holds, count, find,
}
use oc_control_plane.Jobs.Row.{
  JobStatus, is_leased, is_terminal, Job, JobFence, JobOutcome, ResultRefusal,
}
use oc_control_plane.Jobs.Statements.Tables.{is_row, update}

-- The WHERE clause of RecordResult.
abbrev pub fenced : ℕ → JobFence → Job → Bool
fenced org fence j =
    is_row org fence.job_id j
    && is_leased j.status
    && holds j.lease_session fence.lease_session
    && (j.lease_epoch == fence.lease_epoch)

unfoldable pub record_row : JobOutcome → ℕ → Job → Job
record_row o now j = record j {
  status = o.status;
  outcome = some o.payload;
  terminal_at = some now;
  lease_expires_at = none;
  lease_session = none;
}

-- explainRefusedResult, on the row that it reads.
unfoldable pub explain_refused_result : JobFence → Option Job → ResultRefusal
explain_refused_result fence none = ResultRefusal.job_unknown
explain_refused_result fence (some j) =
    if is_terminal j.status
    then ResultRefusal.already_recorded
    else if ltb fence.lease_epoch j.lease_epoch
    then ResultRefusal.fence_superseded
    else ResultRefusal.lease_not_held

-- RecordResult: the table, and the refusal, `none` for a recorded result.
unfoldable pub record_result :
    ℕ → JobFence → JobOutcome → ℕ → List Job → List Job × Option ResultRefusal
unfolding record_row explain_refused_result
record_result org fence o now jobs =
    if count (fenced org fence) jobs == 1
    then (update (fenced org fence) (record_row o now) jobs, none)
    else (
      update (fenced org fence) (record_row o now) jobs,
      some (explain_refused_result fence (find (is_row org fence.job_id) jobs)),
    )

pub record StoredJobOutcome : Type 0 where
  pub status : JobStatus
  pub payload : Option (List ℕ)
  pub terminal_at : ℕ

unfoldable pub stored_outcome : Job → StoredJobOutcome
stored_outcome j = record {
  status = j.status;
  payload = j.outcome;
  terminal_at = Option.get_or j.terminal_at 0;
}

-- JobOutcome: the stored outcome of a job that is there, and whether it is terminal.
unfoldable pub job_outcome : ℕ → ℕ → List Job → Option (StoredJobOutcome × Bool)
unfolding stored_outcome
job_outcome org id jobs =
    Option.map (λ j. (stored_outcome j, is_terminal j.status)) (find (is_row org id) jobs)
