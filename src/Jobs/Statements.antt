-- ===== src/Jobs/Statements.antt =====
-- The statements of internal/store/postgres/job.go, lease.go, result.go and of CancelInvestigation in
-- investigation.go on the relay_job table, a list of rows. Each statement runs at one instant `now`, as SQL's now() is fixed in a
-- statement, and returns the new table with what the Go function returns.
mod Tables
mod Enqueue
mod Cancel
mod Lease
mod Result
pub use oc_control_plane.Jobs.Statements.Tables.{is_row, update, coalesce}
pub use oc_control_plane.Jobs.Statements.Enqueue.{integration_admits, investigation_admits}
unfoldable pub use oc_control_plane.Jobs.Statements.Enqueue.{
  enqueued_row, enqueue_admits, enqueue_verified_job,
}
pub use oc_control_plane.Jobs.Statements.Cancel.{cancellable, is_owned}
unfoldable pub use oc_control_plane.Jobs.Statements.Cancel.{
  cancel_row, cancellation_of, request_job_cancellation, cancel_owned_jobs, fence_of,
  pending_cancellations,
}
pub use oc_control_plane.Jobs.Statements.Lease.{
  lapsed, live, claimable, is_held, declares, adoptable, stranded,
}
unfoldable pub use oc_control_plane.Jobs.Statements.Lease.{
  insert_by_age, by_age, claim_row, claimed_ids, claim_jobs, adopt_row, adopt_in_flight_leases,
  release_row, release_stranded_leases,
}
pub use oc_control_plane.Jobs.Statements.Result.{fenced, StoredJobOutcome}
unfoldable pub use oc_control_plane.Jobs.Statements.Result.{
  record_row, explain_refused_result, record_result, stored_outcome, job_outcome,
}
