-- ===== src/Jobs/Fencing.antt =====
-- Leases and fences of internal/store/postgres/lease.go and result.go over any later history: one
-- result for a job, none under a superseded lease, and adoption that keeps a running execution.
use oc_control_plane.Prelude.{
  ℕ, ◌≤◌, ◌<◌, ◌≡◌, ◌≢◌, refl, ap, ◌∙◌, ◌⊎◌, Bool, true, Option, none, some, List, [], arith, find,
  All, contains,
}
use oc_control_plane.Jobs.Row.{
  Job, JobFence, JobOutcome, JobClaim, LeaseAdoption, ResultRefusal, is_terminal,
}
use oc_control_plane.Jobs.Statements.{
  is_row, update, fenced, record_row, record_result, explain_refused_result, job_outcome,
  claimed_ids, claim_row, claim_jobs, stranded, release_row, release_stranded_leases, adoptable,
  adopt_row, adopt_in_flight_leases,
}
use oc_control_plane.Jobs.Rows.{IsKeyed, find-update}
use oc_control_plane.Jobs.History.{
  Operation, IsLawful, run, step, claim, release, store_result, adopt,
}
use oc_control_plane.Jobs.Effects.{IsWhole}
use oc_control_plane.Jobs.Evolution.{run-IsKeyed, run-Advances, run-IsWhole, step-IsKeyed}
use oc_control_plane.Jobs.Results.{
  refused_result, recorded_result, terminal_refused, superseded_refused,
}

-- From the empty table, whatever statements run, job_id stays a key, and every row keeps the checks
-- of the schema that it names a session exactly when it has an expiry and is terminal exactly when
-- it has a terminal time; besides, which the schema does not check, it is leased exactly when it
-- names a session. The results recorded are terminal ones.
pub run_rows-IsWhole :
    (ops : List Operation) → All IsLawful ops → IsKeyed (run [] ops) × All IsWhole (run [] ops)
run_rows-IsWhole ops lawful = run-IsWhole [] ops tt tt lawful

-- In a keyed table, a terminal result under the fence that the job's row holds is recorded, and
-- after any further history it is what the job's outcome reads, at the time of recording, while
-- every other result for that job is refused as already recorded and changes nothing.
pub result_recorded_once :
    (org : ℕ) (fence later_fence : JobFence) (o later : JobOutcome) (now at : ℕ) (t : List Job)
    (j : Job) (ops : List Operation)
    → IsKeyed t
    → find (is_row org fence.job_id) t ≡ some j
    → fenced org fence j ≡ true
    → is_terminal o.status ≡ true
    → later_fence.job_id ≡ fence.job_id
    → let u = run (record_result org fence o now t).0 ops in
      ((record_result org fence o now t).1 ≡ none)
      × (job_outcome org fence.job_id u
          ≡ some (record { status = o.status; payload = some o.payload; terminal_at = now }, true))
      × (record_result org later_fence later at u ≡ (u, some ResultRefusal.already_recorded))
unfolding job_outcome step record_row
result_recorded_once org fence later_fence o later now at t j ops u h hit final same =
    let (k, later_found, a) =
      run-Advances (record_result org fence o now t).0 ops org fence.job_id (record_row o now j)
        keyed found in
    let e : k ≡ record_row o now j = a.stays_final final in
    (
      ap (λ (r : List Job × Option ResultRefusal). r.1) stored,
      rw (later_found, e, final),
      terminal_refused org later_fence later at (run (record_result org fence o now t).0 ops) k
          (run-IsKeyed _ ops keyed) (rw same later_found) (rw e final),
    )
  where
    stored :
        record_result org fence o now t ≡ (update (fenced org fence) (record_row o now) t, none)
    stored = recorded_result org fence o now t j u h hit

    keyed : IsKeyed (record_result org fence o now t).0
    keyed = step-IsKeyed t (store_result org fence o now) u

    found :
        find (is_row org fence.job_id) (record_result org fence o now t).0
        ≡ some (record_row o now j)
    found = rw stored (
        rw hit at (
          find-update org fence.job_id (fenced org fence) (record_row o now) t (λ k. (refl, refl)) j
            h))

-- A lease that has been taken over is lost for good.
superseded_forever :
    (org : ℕ) (fence : JobFence) (o : JobOutcome) (now : ℕ) (t : List Job) (j : Job)
    (ops : List Operation)
    → IsKeyed t
    → find (is_row org fence.job_id) t ≡ some j
    → fence.lease_epoch < j.lease_epoch
    → let u = run t ops in
      (r : ResultRefusal) × (record_result org fence o now u ≡ (u, some r))
      × ((r ≡ ResultRefusal.already_recorded) ⊎ (r ≡ ResultRefusal.fence_superseded))
superseded_forever org fence o now t j ops u h old =
    let (k, found, a) = run-Advances t ops org fence.job_id j u h in
    superseded_refused org fence o now (run t ops) k (run-IsKeyed t ops u) found (omega arith)

-- In a keyed table, once a claim has taken a job whose row stood at the fence's epoch or beyond,
-- a result under that fence is refused after any further history, as already recorded or as
-- superseded, and changes nothing.
pub reclaimed_result_refused :
    (org : ℕ) (c : JobClaim) (locked : ℕ → Bool) (at : ℕ) (fence : JobFence) (o : JobOutcome)
    (now : ℕ) (t : List Job) (j : Job) (ops : List Operation)
    → IsKeyed t
    → find (is_row org fence.job_id) t ≡ some j
    → contains (claimed_ids org c locked at t) j.job_id ≡ true
    → fence.lease_epoch ≤ j.lease_epoch
    → let u = run (claim_jobs org c locked at t).0 ops in
      (r : ResultRefusal) × (record_result org fence o now u ≡ (u, some r))
      × ((r ≡ ResultRefusal.already_recorded) ⊎ (r ≡ ResultRefusal.fence_superseded))
unfolding claim_jobs claim_row step
reclaimed_result_refused org c locked at fence o now t j ops u h taken old =
    superseded_forever org fence o now (claim_jobs org c locked at t).0 (claim_row c at j) ops
      (step-IsKeyed t (claim org c locked at) u)
      (rw taken at (
        find-update org fence.job_id (λ k. contains (claimed_ids org c locked at t) k.job_id)
          (claim_row c at) t (λ k. (refl, refl)) j h))
      (omega arith)

-- In a keyed table, once a stranded lease has been released, a result under its fence is refused
-- after any further history, as already recorded or as superseded, and changes nothing.
pub released_result_refused :
    (org registration holder : ℕ) (fence : JobFence) (o : JobOutcome) (now : ℕ) (t : List Job)
    (j : Job) (ops : List Operation)
    → IsKeyed t
    → find (is_row org fence.job_id) t ≡ some j
    → stranded org registration holder j ≡ true
    → fence.lease_epoch ≤ j.lease_epoch
    → let u = run (release_stranded_leases org registration holder t).0 ops in
      (r : ResultRefusal) × (record_result org fence o now u ≡ (u, some r))
      × ((r ≡ ResultRefusal.already_recorded) ⊎ (r ≡ ResultRefusal.fence_superseded))
unfolding release_stranded_leases release_row step
released_result_refused org registration holder fence o now t j ops u h taken old =
    superseded_forever org fence o now (release_stranded_leases org registration holder t).0
      (release_row j) ops (step-IsKeyed t (release org registration holder) u)
      (rw taken at (
        find-update org fence.job_id (stranded org registration holder) release_row t
          (λ k. (refl, refl)) j h))
      (omega arith)

-- In a keyed table, a lease that a reconnected session adopts at the declared epoch keeps that
-- epoch: the new session's result under it is recorded, and that of any other session is refused
-- because the lease is not held.
pub adopted_result_recorded :
    (org : ℕ) (a : LeaseAdoption) (at : ℕ) (o : JobOutcome) (now other : ℕ) (t : List Job) (j : Job)
    → IsKeyed t
    → find (is_row org j.job_id) t ≡ some j
    → adoptable org a j ≡ true
    → other ≢ a.session_id
    → let u = (adopt_in_flight_leases org a at t).0 in
      let fence : ℕ → JobFence = λ session. record {
        job_id = j.job_id;
        lease_session = session;
        lease_epoch = j.lease_epoch;
      } in
      ((record_result org (fence a.session_id) o now u).1 ≡ none)
      × (record_result org (fence other) o now u ≡ (u, some ResultRefusal.lease_not_held))
unfolding adopt_in_flight_leases adopt_row step
adopted_result_recorded org a at o now other t j u h taken differs = (
  ap (λ (r : List Job × Option ResultRefusal). r.1)
      (recorded_result org _ o now _ (adopt_row a at j) keyed found (ground arith)),
  refused_result org _ o now _ (adopt_row a at j) keyed found (ground arith)
      ∙ unfold explain_refused_result in ground arith,
)
  where
    keyed : IsKeyed (adopt_in_flight_leases org a at t).0
    keyed = step-IsKeyed t (adopt org a at) u

    found :
        find (is_row org j.job_id) (adopt_in_flight_leases org a at t).0 ≡ some (adopt_row a at j)
    found =
        rw taken at
          (find-update org j.job_id (adoptable org a) (adopt_row a at) t (λ k. (refl, refl)) j h)
