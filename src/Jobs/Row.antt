-- ===== src/Jobs/Row.antt =====
-- The relay_job row of internal/store/postgres/job.go and the values its statements return.
-- A uuid is a number with 0 for the nil uuid, a column that may be NULL is an `Option`, and a
-- timestamp is a number of time units since the epoch.
use Prim.Native.String.{String}
use oc_control_plane.Prelude.{ℕ, Bool, true, false, List, Option}

-- JobPending, JobLeased, JobSucceeded, JobFailed, JobCancelled.
pub data JobStatus : Type 0 where
  pending leased succeeded failed cancelled : JobStatus

-- `status = 0`, `status = 1`, and `status IN (2, 3, 4)`.
abbrev pub is_pending : JobStatus → Bool
is_pending JobStatus.pending = true
is_pending _ = false

abbrev pub is_leased : JobStatus → Bool
is_leased JobStatus.leased = true
is_leased _ = false

abbrev pub is_terminal : JobStatus → Bool
is_terminal JobStatus.pending = false
is_terminal JobStatus.leased = false
is_terminal _ = true

-- A row of relay_job.
pub record Job : Type 0 where
  pub job_id : ℕ
  pub org_id : ℕ
  pub registration_id : ℕ
  pub integration_id : ℕ
  pub capability_id : String
  pub capability_version : ℕ
  pub arguments : List ℕ
  pub status : JobStatus
  pub lease_session : Option ℕ
  pub lease_epoch : ℕ
  pub lease_expires_at : Option ℕ
  pub cancel_requested_at : Option ℕ
  pub outcome : Option (List ℕ)
  pub terminal_at : Option ℕ
  pub created_at : ℕ
  pub investigation_id : Option ℕ

-- The job that a caller enqueues: the columns of RelayJob that the INSERT takes.
pub record NewJob : Type 0 where
  pub job_id : ℕ
  pub integration_id : ℕ
  pub registration_id : ℕ
  pub capability_id : String
  pub capability_version : ℕ
  pub arguments : List ℕ
  pub investigation_id : Option ℕ

-- The columns of the integration row that the INSERT reads.
pub record IntegrationRow : Type 0 where
  pub integration_id : ℕ
  pub org_id : ℕ
  pub relay_id : Option ℕ
  pub disabled : Bool
  pub verified : Bool
  pub verified_at : Option ℕ
  pub verification_grants : List String

-- The columns of the investigation row that the INSERT reads: whether its status is 1, running.
pub record InvestigationRow : Type 0 where
  pub investigation_id : ℕ
  pub org_id : ℕ
  pub running : Bool

pub record JobFence : Type 0 where
  pub job_id : ℕ
  pub lease_session : ℕ
  pub lease_epoch : ℕ

pub record InFlightJob : Type 0 where
  pub job_id : ℕ
  pub lease_epoch : ℕ

pub record JobClaim : Type 0 where
  pub registration_id : ℕ
  pub session_id : ℕ
  pub lease_for : ℕ
  pub capacity : ℕ

pub record LeaseAdoption : Type 0 where
  pub registration_id : ℕ
  pub session_id : ℕ
  pub lease_for : ℕ
  pub in_flight : List InFlightJob

pub record JobOutcome : Type 0 where
  pub status : JobStatus
  pub payload : List ℕ

-- CancellationRefused, CancellationRecorded, CancellationRequested.
pub data JobCancellation : Type 0 where
  refused recorded requested : JobCancellation

pub data ResultRefusal : Type 0 where
  already_recorded fence_superseded job_unknown lease_not_held : ResultRefusal

-- What EnqueueVerifiedJob returns: nil, ErrJobRefused, or the violation of the primary key.
pub data Enqueued : Type 0 where
  inserted job_refused duplicate_key : Enqueued
