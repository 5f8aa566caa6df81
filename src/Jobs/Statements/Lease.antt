-- ===== src/Jobs/Statements/Lease.antt =====
-- internal/store/postgres/lease.go: ClaimJobs, AdoptInFlightLeases and ReleaseStrandedLeases.
use oc_control_plane.Prelude.{
  ℕ, ◌+◌, ◌-◌, Bool, false, not, ◌&&◌, ◌||◌, Option, none, some, List, [], ◌∷◌, map, ltb, leb, ◌==◌,
  if◌then◌else◌, holds, keep, count, any, take, contains,
}
use oc_control_plane.Jobs.Row.{
  JobStatus, is_pending, is_leased, Job, InFlightJob, JobClaim, LeaseAdoption,
}
use oc_control_plane.Jobs.Statements.Tables.{update}

-- `lease_expires_at <= now()` and `lease_expires_at > now()`: both false at NULL.
abbrev pub lapsed : Option ℕ → ℕ → Bool
lapsed none now = false
lapsed (some at) now = leb at now

abbrev pub live : Option ℕ → ℕ → Bool
live none now = false
live (some at) now = ltb now at

-- `status = 0 OR (status = 1 AND lease_expires_at <= now())`, in this registration.
abbrev pub claimable : ℕ → ℕ → ℕ → Job → Bool
claimable org registration now j =
    (j.org_id == org)
    && (j.registration_id == registration)
    && (is_pending j.status || (is_leased j.status && lapsed j.lease_expires_at now))

-- The leases that count against the capacity of a session.
abbrev pub is_held : ℕ → ℕ → ℕ → Job → Bool
is_held org session now j =
    (j.org_id == org)
    && holds j.lease_session session
    && is_leased j.status
    && live j.lease_expires_at now

-- `ORDER BY created_at`.
unfoldable pub insert_by_age : Job → List Job → List Job
insert_by_age j [] = j ∷ []
insert_by_age j (k ∷ ks) =
    if leb j.created_at k.created_at then j ∷ k ∷ ks else k ∷ insert_by_age j ks

unfoldable pub by_age : List Job → List Job
unfolding insert_by_age
by_age [] = []
by_age (j ∷ js) = insert_by_age j (by_age js)

unfoldable pub claim_row : JobClaim → ℕ → Job → Job
claim_row claim now j = record j {
  status = JobStatus.leased;
  lease_session = some claim.session_id;
  lease_epoch = j.lease_epoch + 1;
  lease_expires_at = some (now + claim.lease_for);
}

-- The subquery: claimable rows that no other transaction has locked (SKIP LOCKED), oldest first,
-- up to GREATEST(capacity - held, 0).
unfoldable pub claimed_ids : ℕ → JobClaim → (ℕ → Bool) → ℕ → List Job → List ℕ
unfolding by_age
claimed_ids org claim locked now jobs =
    map (λ j. j.job_id)
      (take (claim.capacity - count (is_held org claim.session_id now) jobs) (
        by_age
          (keep (λ j. claimable org claim.registration_id now j && not (locked j.job_id)) jobs)))

-- ClaimJobs: the table, and the rows that RETURNING lists.
unfoldable pub claim_jobs : ℕ → JobClaim → (ℕ → Bool) → ℕ → List Job → List Job × List Job
unfolding claimed_ids claim_row
claim_jobs org claim locked now jobs =
    let ids = claimed_ids org claim locked now jobs in
    (
      update (λ j. contains ids j.job_id) (claim_row claim now) jobs,
      map (claim_row claim now) (keep (λ j. contains ids j.job_id) jobs),
    )

abbrev pub declares : Job → InFlightJob → Bool
declares j d = (d.job_id == j.job_id) && (d.lease_epoch == j.lease_epoch)

-- The WHERE clause of AdoptInFlightLeases.
abbrev pub adoptable : ℕ → LeaseAdoption → Job → Bool
adoptable org adoption j =
    any (declares j) adoption.in_flight
    && (j.org_id == org)
    && (j.registration_id == adoption.registration_id)
    && is_leased j.status

unfoldable pub adopt_row : LeaseAdoption → ℕ → Job → Job
adopt_row adoption now j = record j {
  lease_session = some adoption.session_id;
  lease_expires_at = some (now + adoption.lease_for);
}

-- AdoptInFlightLeases: the table, and the identifiers that RETURNING lists.
unfoldable pub adopt_in_flight_leases : ℕ → LeaseAdoption → ℕ → List Job → List Job × List ℕ
unfolding adopt_row
adopt_in_flight_leases org adoption now jobs = (
  update (adoptable org adoption) (adopt_row adoption now) jobs,
  map (λ j. j.job_id) (keep (adoptable org adoption) jobs),
)

-- The WHERE clause of ReleaseStrandedLeases; IS DISTINCT FROM is true at NULL.
abbrev pub stranded : ℕ → ℕ → ℕ → Job → Bool
stranded org registration holder j =
    (j.org_id == org)
    && (j.registration_id == registration)
    && is_leased j.status
    && not (holds j.lease_session holder)

unfoldable pub release_row : Job → Job
release_row j = record j {
  status = JobStatus.pending;
  lease_session = none;
  lease_expires_at = none;
  lease_epoch = j.lease_epoch + 1;
}

-- ReleaseStrandedLeases: the table, and how many rows were released.
unfoldable pub release_stranded_leases : ℕ → ℕ → ℕ → List Job → List Job × ℕ
unfolding release_row
release_stranded_leases org registration holder jobs = (
  update (stranded org registration holder) release_row jobs,
  count (stranded org registration holder) jobs,
)
