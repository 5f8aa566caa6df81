-- ===== src/Jobs/Statements/Cancel.antt =====
-- internal/store/postgres/job.go: RequestJobCancellation and PendingCancellations, and the rows of
-- relay_job that CancelInvestigation of internal/store/postgres/investigation.go writes.
use oc_control_plane.Prelude.{
  ℕ, Bool, ◌&&◌, ◌||◌, Option, none, some, List, map, ◌==◌, if◌then◌else◌, is_some, holds, keep,
  find,
}
use oc_control_plane.Jobs.Row.{JobStatus, is_pending, is_leased, Job, JobFence, JobCancellation}
use oc_control_plane.Jobs.Statements.Tables.{is_row, update, coalesce}

unfoldable pub cancel_row : ℕ → Job → Job
cancel_row now j = record j {
  status = if is_pending j.status then JobStatus.cancelled else j.status;
  terminal_at = if is_pending j.status then some now else j.terminal_at;
  cancel_requested_at = coalesce j.cancel_requested_at now;
}

-- `WHERE job_id = $1 AND org_id = $2 AND status IN (0, 1)`.
abbrev pub cancellable : ℕ → ℕ → Job → Bool
cancellable org id j = is_row org id j && (is_pending j.status || is_leased j.status)

-- The verdict by the status that `RETURNING status` reports.
unfoldable pub cancellation_of : Option Job → JobCancellation
cancellation_of none = JobCancellation.refused
cancellation_of (some j) =
    if is_pending j.status then JobCancellation.recorded else JobCancellation.requested

-- RequestJobCancellation.
unfoldable pub request_job_cancellation : ℕ → ℕ → ℕ → List Job → List Job × JobCancellation
unfolding cancel_row cancellation_of
request_job_cancellation org id now jobs = (
  update (cancellable org id) (cancel_row now) jobs,
  cancellation_of (find (cancellable org id) jobs),
)

-- The rows that CancelInvestigation of internal/store/postgres/investigation.go cancels:
-- `WHERE org_id = $1 AND investigation_id = $2 AND status IN (0, 1)`.
abbrev pub is_owned : ℕ → ℕ → Job → Bool
is_owned org investigation j =
    (j.org_id == org)
    && holds j.investigation_id investigation
    && (is_pending j.status || is_leased j.status)

-- Its UPDATE relay_job.
unfoldable pub cancel_owned_jobs : ℕ → ℕ → ℕ → List Job → List Job
unfolding cancel_row
cancel_owned_jobs org investigation now jobs =
    update (is_owned org investigation) (cancel_row now) jobs

unfoldable pub fence_of : ℕ → Job → JobFence
fence_of session j = record {
  job_id = j.job_id;
  lease_session = session;
  lease_epoch = j.lease_epoch;
}

-- PendingCancellations.
unfoldable pub pending_cancellations : ℕ → ℕ → List Job → List JobFence
unfolding fence_of
pending_cancellations org session jobs = map (fence_of session) (
    keep
      (λ j.
        (j.org_id == org)
        && holds j.lease_session session
        && is_leased j.status
        && is_some j.cancel_requested_at)
      jobs)
