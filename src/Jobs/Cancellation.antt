-- ===== src/Jobs/Cancellation.antt =====
-- RequestJobCancellation and PendingCancellations of internal/store/postgres/job.go.
use oc_control_plane.Prelude.{
  ℕ, ◌≡◌, refl, ◌⊎◌, inl, inr, true, false, none, some, List, [], ◌∷◌, arith, ◌==◌, if◌then◌else◌,
  Bool-cases, find, any, any_mono, find_of_any, subst, IsIn, IsIn-keep, IsIn-map, find-some-IsIn,
}
use oc_control_plane.Jobs.Row.{Job, JobFence, JobStatus, JobCancellation, is_terminal}
use oc_control_plane.Jobs.Statements.{
  is_row, update, coalesce, cancellable, cancel_row, cancellation_of, request_job_cancellation,
  pending_cancellations, fence_of,
}
use oc_control_plane.Jobs.Rows.{IsKeyed, KeepsKey, find-update}

cancel_row-twice :
    (org id now later : ℕ) (j : Job)
    → let k = if cancellable org id j then cancel_row now j else j in
      (if cancellable org id k then cancel_row later k else k) ≡ k
unfolding cancel_row
cancel_row-twice org id now later j = elim (Bool-cases (cancellable org id j)) [
  | inl open_job ↦ rw open_job (ground arith)
  | inr closed ↦ rw closed (rw closed)
]

cancel_row-KeepsKey : (now : ℕ) → KeepsKey (cancel_row now)
unfolding cancel_row
cancel_row-KeepsKey now j = (refl, refl)

-- Asking to cancel a job a second time changes nothing, at whatever later time: the moment of the
-- first request stays.
request_job_cancellation_idempotent :
    (org id now later : ℕ) (t : List Job)
    → let u = (request_job_cancellation org id now t).0 in
      (request_job_cancellation org id later u).0 ≡ u
unfolding request_job_cancellation
request_job_cancellation_idempotent org id now later [] = refl
request_job_cancellation_idempotent org id now later (x ∷ t) =
    cc (cancel_row-twice org id now later x, request_job_cancellation_idempotent org id now later t)

none-cancellable :
    (org id i : ℕ) (t : List Job)
    → i ≡ id
    → any (λ k. k.job_id == i) t ≡ false
    → find (cancellable org id) t ≡ none
none-cancellable org id i t e h =
    find_of_any (cancellable org id) t (elim (Bool-cases (any (cancellable org id) t)) [
      | inl hit ↦
          cc (h, any_mono (cancellable org id) (λ k. k.job_id == i) t (λ k q. ground arith) hit)
      | inr miss ↦ miss
    ])

-- The UPDATE picks the row of its job while that is pending or leased, and no other.
find-cancellable :
    (org id : ℕ) (t : List Job) (j : Job)
    → IsKeyed t
    → find (is_row org id) t ≡ some j
    → find (cancellable org id) t ≡ (if cancellable org id j then some j else none)
find-cancellable org id [] j u h = cc
find-cancellable org id (x ∷ t) j u h = elim (Bool-cases (is_row org id x)) [
  | inl hit ↦
      let e : x ≡ j = ground arith in
      subst
        (λ (k : Job).
          find (cancellable org id) (x ∷ t) ≡ (if cancellable org id k then some k else none))
        e (rw (none-cancellable org id x.job_id t (ground arith) u.0))
  | inr miss ↦ rw miss (find-cancellable org id t j u.1 (rw miss at h))
]

-- How a row `j` becomes `k` when its cancellation is asked for, and the verdict. The columns that are
-- not named stay as they were.
pub data CancelsAs (now : ℕ) (j k : Job) (verdict : JobCancellation) : Type 0 where
  ends :
      j.status ≡ JobStatus.pending
      → verdict ≡ JobCancellation.recorded
      → k ≡ record j {
        status = JobStatus.cancelled;
        terminal_at = some now;
        cancel_requested_at = coalesce j.cancel_requested_at now;
      }
      → CancelsAs now j k verdict
  asks :
      j.status ≡ JobStatus.leased
      → verdict ≡ JobCancellation.requested
      → k ≡ record j { cancel_requested_at = coalesce j.cancel_requested_at now }
      → CancelsAs now j k verdict
  ignores :
      is_terminal j.status ≡ true
      → verdict ≡ JobCancellation.refused
      → k ≡ j
      → CancelsAs now j k verdict

JobStatus-cases :
    (s : JobStatus) → (s ≡ JobStatus.pending) ⊎ (s ≡ JobStatus.leased) ⊎ (is_terminal s ≡ true)
JobStatus-cases s = ground arith

row-CancelsAs :
    (org id now : ℕ) (j : Job)
    → is_row org id j ≡ true
    → CancelsAs now j
        (if cancellable org id j then cancel_row now j else j)
        (cancellation_of (if cancellable org id j then some j else none))
unfolding cancel_row cancellation_of
row-CancelsAs org id now j row = elim (JobStatus-cases j.status) [
  | inl p ↦ ends p (ground arith) (ground arith)
  | inr (inl l) ↦ asks l (ground arith) (ground arith)
  | inr (inr f) ↦ ignores f (ground arith) (ground arith)
]

-- In a keyed table, cancelling a pending job is recorded and ends it as cancelled at that moment;
-- cancelling a leased job is requested, marks it, and leaves every other column, its lease and the
-- expiry of that among them, as it was; cancelling a terminal job is refused, and leaves its row
-- alone. The mark keeps the moment of a first request.
pub request_job_cancellation_cases :
    (org id now : ℕ) (t : List Job) (j : Job)
    → IsKeyed t
    → find (is_row org id) t ≡ some j
    → (k : Job) × (find (is_row org id) (request_job_cancellation org id now t).0 ≡ some k)
      × CancelsAs now j k (request_job_cancellation org id now t).1
unfolding request_job_cancellation
request_job_cancellation_cases org id now t j u h = (
  if cancellable org id j then cancel_row now j else j,
  find-update org id (cancellable org id) (cancel_row now) t (cancel_row-KeepsKey now) j h,
  rw (find-cancellable org id t j u h)
      (row-CancelsAs org id now j (find-some-IsIn (is_row org id) t j h).1),
)

-- A leased job that is asked to stop shows, under its fence, among the pending cancellations of
-- the session that holds it.
pub cancellation_reaches_holder :
    (org id now session : ℕ) (t : List Job) (j : Job)
    → find (is_row org id) t ≡ some j
    → j.status ≡ JobStatus.leased
    → j.lease_session ≡ some session
    → IsIn
        (record { job_id = id; lease_session = session; lease_epoch = j.lease_epoch })
        (pending_cancellations org session (request_job_cancellation org id now t).0)
unfolding pending_cancellations request_job_cancellation fence_of cancel_row
cancellation_reaches_holder org id now session t j h leased held =
    subst
      (λ (f : JobFence).
        IsIn f (pending_cancellations org session (update (cancellable org id) (cancel_row now) t)))
      same_fence
      (IsIn-map (fence_of session) (cancel_row now j) _ (
        IsIn-keep _ (cancel_row now j) _
          (find-some-IsIn (is_row org id) _ (cancel_row now j) found).0 (ground (arith, row))))
  where
    row : is_row org id j ≡ true
    row = (find-some-IsIn (is_row org id) t j h).1

    hit : cancellable org id j ≡ true
    hit = ground (arith, row)

    found :
        find (is_row org id) (update (cancellable org id) (cancel_row now) t)
        ≡ some (cancel_row now j)
    found =
        rw hit at
          (find-update org id (cancellable org id) (cancel_row now) t (λ k. (refl, refl)) j h)

    same_fence :
        fence_of session (cancel_row now j)
        ≡ record { job_id = id; lease_session = session; lease_epoch = j.lease_epoch }
    same_fence = ground (arith, row)
