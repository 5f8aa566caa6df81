-- ===== src/Jobs/History.antt =====
-- Histories of the relay_job table: any sequence of the statements that write it.
use oc_control_plane.Prelude.{ℕ, ◌≡◌, Bool, true, List, [], ◌∷◌}
use oc_control_plane.Jobs.Row.{
  Job, NewJob, IntegrationRow, InvestigationRow, JobFence, JobClaim, LeaseAdoption, JobOutcome,
  is_terminal,
}
use oc_control_plane.Jobs.Statements.{
  enqueue_verified_job, request_job_cancellation, cancel_owned_jobs, claim_jobs,
  adopt_in_flight_leases, release_stranded_leases, record_result,
}

-- A writing statement with the arguments of its method of Database and the instant it runs at:
-- `cancel_owned` is the one of CancelInvestigation.
pub data Operation : Type 0 where
  enqueue : ℕ → NewJob → List IntegrationRow → List InvestigationRow → ℕ → Operation
  request_cancellation : ℕ → ℕ → ℕ → Operation
  cancel_owned : ℕ → ℕ → ℕ → Operation
  claim : ℕ → JobClaim → (ℕ → Bool) → ℕ → Operation
  adopt : ℕ → LeaseAdoption → ℕ → Operation
  release : ℕ → ℕ → ℕ → Operation
  store_result : ℕ → JobFence → JobOutcome → ℕ → Operation

unfoldable pub step : List Job → Operation → List Job
step t (enqueue org job is vs now) = (enqueue_verified_job org job is vs now t).0
step t (request_cancellation org id now) = (request_job_cancellation org id now t).0
step t (cancel_owned org investigation now) = cancel_owned_jobs org investigation now t
step t (claim org c locked now) = (claim_jobs org c locked now t).0
step t (adopt org a now) = (adopt_in_flight_leases org a now t).0
step t (release org registration holder) = (release_stranded_leases org registration holder t).0
step t (store_result org fence o now) = (record_result org fence o now t).0

unfoldable pub run : List Job → List Operation → List Job
run t [] = t
run t (op ∷ ops) = run (step t op) ops

-- The callers of RecordResult pass terminal statuses only: outcomeOf and failUndeliverable.
abbrev pub IsLawful : Operation → Type 0
IsLawful (store_result org fence o now) = is_terminal o.status ≡ true
IsLawful _ = Unit {0}
