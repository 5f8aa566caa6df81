-- ===== src/Jobs/Tests.antt =====
-- A small relay_job table: the theorems at it, and runs of the statements.
use oc_control_plane.Prelude.{
  ℕ, ◌≤◌, ◌≡◌, ◌⊎◌, refl, max, Bool, true, false, none, some, List, [], ◌∷◌, arith, All, IsIn,
  count, find,
}
use oc_control_plane.Jobs.Row.{
  Job, JobStatus, JobFence, JobOutcome, JobClaim, LeaseAdoption, ResultRefusal,
}
use oc_control_plane.Jobs.Statements.{
  is_row, is_held, claim_jobs, record_result, job_outcome, release_stranded_leases,
  adopt_in_flight_leases, request_job_cancellation, pending_cancellations, insert_by_age,
  claimed_ids,
}
use oc_control_plane.Jobs.Rows.{IsKeyed}
use oc_control_plane.Jobs.History.{Operation, claim, store_result, run}
use oc_control_plane.Jobs.Effects.{IsWhole}
use oc_control_plane.Jobs.Claimed.{claim_jobs_within_capacity}
use oc_control_plane.Jobs.Fencing.{
  run_rows-IsWhole, result_recorded_once, reclaimed_result_refused, released_result_refused,
  adopted_result_recorded,
}
use oc_control_plane.Jobs.Cancellation.{
  CancelsAs, request_job_cancellation_cases, cancellation_reaches_holder,
}

-- A job of organization 1 and registration 2, pending since time 5.
abbrev waiting : Job
waiting = record {
  job_id = 10;
  org_id = 1;
  registration_id = 2;
  integration_id = 3;
  capability_id = "kubernetes.container.logs";
  capability_version = 1;
  arguments = [];
  status = JobStatus.pending;
  lease_session = none;
  lease_epoch = 0;
  lease_expires_at = none;
  cancel_requested_at = none;
  outcome = none;
  terminal_at = none;
  created_at = 5;
  investigation_id = none;
}

-- An older job, leased to session 7 at epoch 4 until time 20.
abbrev running : Job
running = record waiting {
  job_id = 11;
  status = JobStatus.leased;
  lease_session = some 7;
  lease_epoch = 4;
  lease_expires_at = some 20;
  created_at = 3;
}

abbrev table : List Job
table = waiting ∷ running ∷ []

abbrev claim_two : JobClaim
claim_two = record { registration_id = 2; session_id = 8; lease_for = 600; capacity = 2 }

abbrev unlocked : ℕ → Bool
unlocked id = false

abbrev running_fence : JobFence
running_fence = record { job_id = 11; lease_session = 7; lease_epoch = 4 }

abbrev good_result : JobOutcome
good_result = record { status = JobStatus.succeeded; payload = 1 ∷ [] }

-- At time 25 the lease of the older job has lapsed, so both are claimed.
claims_lapsed_and_pending : claimed_ids 1 claim_two unlocked 25 table ≡ 11 ∷ 10 ∷ []
unfolding claimed_ids insert_by_age
claims_lapsed_and_pending = refl

-- At time 15 only the pending one is.
claims_pending : claimed_ids 1 claim_two unlocked 15 table ≡ 10 ∷ []
unfolding claimed_ids insert_by_age
claims_pending = refl

claim_jobs_within_capacity_example :
    count (is_held 1 8 25) (claim_jobs 1 claim_two unlocked 25 table).0 ≤ max 2 0
claim_jobs_within_capacity_example =
    claim_jobs_within_capacity 1 claim_two unlocked 25 table (refl, (refl, tt))

abbrev history : List Operation
history = claim 1 claim_two unlocked 5 ∷ store_result 1 running_fence good_result 6 ∷ []

run_rows-IsWhole_example : IsKeyed (run [] history) × All IsWhole (run [] history)
run_rows-IsWhole_example = run_rows-IsWhole history (tt, (refl, tt))

result_recorded_once_example :
    let u = run (record_result 1 running_fence good_result 15 table).0 history in
    ((record_result 1 running_fence good_result 15 table).1 ≡ none)
    × (job_outcome 1 11 u
        ≡ some (
          record { status = JobStatus.succeeded; payload = some (1 ∷ []); terminal_at = 15 },
          true,
        ))
    × (record_result 1 running_fence good_result 30 u ≡ (u, some ResultRefusal.already_recorded))
result_recorded_once_example =
    result_recorded_once 1 running_fence running_fence good_result good_result 15 30 table running
      history (refl, (refl, tt)) refl refl refl refl

reclaimed_result_refused_example :
    let u = run (claim_jobs 1 claim_two unlocked 25 table).0 history in
    (r : ResultRefusal) × (record_result 1 running_fence good_result 40 u ≡ (u, some r))
    × ((r ≡ ResultRefusal.already_recorded) ⊎ (r ≡ ResultRefusal.fence_superseded))
unfolding claimed_ids insert_by_age
reclaimed_result_refused_example =
    reclaimed_result_refused 1 claim_two unlocked 25 running_fence good_result 40 table running
      history (refl, (refl, tt)) refl refl (omega arith)

released_result_refused_example :
    let u = run (release_stranded_leases 1 2 9 table).0 history in
    (r : ResultRefusal) × (record_result 1 running_fence good_result 40 u ≡ (u, some r))
    × ((r ≡ ResultRefusal.already_recorded) ⊎ (r ≡ ResultRefusal.fence_superseded))
released_result_refused_example =
    released_result_refused 1 2 9 running_fence good_result 40 table running history
      (refl, (refl, tt)) refl refl (omega arith)

abbrev reconnect : LeaseAdoption
reconnect = record {
  registration_id = 2;
  session_id = 9;
  lease_for = 600;
  in_flight = record { job_id = 11; lease_epoch = 4 } ∷ [];
}

adopted_result_recorded_example :
    let u = (adopt_in_flight_leases 1 reconnect 16 table).0 in
    let fence : ℕ → JobFence =
      λ session. record { job_id = 11; lease_session = session; lease_epoch = 4 } in
    ((record_result 1 (fence 9) good_result 18 u).1 ≡ none)
    × (record_result 1 (fence 7) good_result 18 u ≡ (u, some ResultRefusal.lease_not_held))
adopted_result_recorded_example =
    adopted_result_recorded 1 reconnect 16 good_result 18 7 table running (refl, (refl, tt)) refl
      refl (omega arith)

request_job_cancellation_cases_example :
    (k : Job) × (find (is_row 1 10) (request_job_cancellation 1 10 16 table).0 ≡ some k)
    × CancelsAs 16 waiting k (request_job_cancellation 1 10 16 table).1
request_job_cancellation_cases_example =
    request_job_cancellation_cases 1 10 16 table waiting (refl, (refl, tt)) refl

cancellation_reaches_holder_example :
    IsIn
      (record { job_id = 11; lease_session = 7; lease_epoch = 4 })
      (pending_cancellations 1 7 (request_job_cancellation 1 11 16 table).0)
cancellation_reaches_holder_example =
    cancellation_reaches_holder 1 11 16 7 table running refl refl refl
