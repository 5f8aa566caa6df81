-- ===== src/Jobs/Statements/Enqueue.antt =====
-- internal/store/postgres/job.go: EnqueueVerifiedJob.
use Prim.Native.String.{String}
use text.Mathlib.Text.{◌==◌ as str_eq}
use oc_control_plane.Prelude.{
  ℕ, Bool, true, not, ◌&&◌, Option, none, some, List, [], ◌∷◌, ◌++◌, ◌==◌, if◌then◌else◌, is_some,
  holds, any,
}
use oc_control_plane.Jobs.Row.{JobStatus, Job, NewJob, IntegrationRow, InvestigationRow, Enqueued}

grants : List String → String → Bool
grants held wanted = any (λ g. str_eq g wanted) held

-- The WHERE clause on the integration row.
pub integration_admits : ℕ → NewJob → IntegrationRow → Bool
unfolding grants
integration_admits org job i =
    (i.integration_id == job.integration_id)
    && (i.org_id == org)
    && holds i.relay_id job.registration_id
    && not i.disabled
    && i.verified
    && is_some i.verified_at
    && grants i.verification_grants job.capability_id

-- `$8 IS NULL OR EXISTS (SELECT 1 FROM investigation …)`.
pub investigation_admits : ℕ → Option ℕ → List InvestigationRow → Bool
investigation_admits org none rows = true
investigation_admits org (some id) rows =
    any (λ i. (i.org_id == org) && (i.investigation_id == id) && i.running) rows

unfoldable pub enqueued_row : ℕ → NewJob → ℕ → Job
enqueued_row org job now = record {
  job_id = job.job_id;
  org_id = org;
  registration_id = job.registration_id;
  integration_id = job.integration_id;
  capability_id = job.capability_id;
  capability_version = job.capability_version;
  arguments = job.arguments;
  status = JobStatus.pending;
  lease_session = none;
  lease_epoch = 0;
  lease_expires_at = none;
  cancel_requested_at = none;
  outcome = none;
  terminal_at = none;
  created_at = now;
  investigation_id = job.investigation_id;
}

-- The WHERE clause of the INSERT.
unfoldable pub enqueue_admits : ℕ → NewJob → List IntegrationRow → List InvestigationRow → Bool
unfolding integration_admits investigation_admits
enqueue_admits org job integrations investigations =
    any (integration_admits org job) integrations
    && investigation_admits org job.investigation_id investigations

-- EnqueueVerifiedJob.
unfoldable pub enqueue_verified_job :
    ℕ → NewJob → List IntegrationRow → List InvestigationRow → ℕ → List Job → List Job × Enqueued
enqueue_verified_job org job integrations investigations now jobs =
    if enqueue_admits org job integrations investigations
    then if any (λ j. j.job_id == job.job_id) jobs
      then (jobs, Enqueued.duplicate_key)
      else (jobs ++ enqueued_row org job now ∷ [], Enqueued.inserted)
    else (jobs, Enqueued.job_refused)
