-- ===== src/Relay/Delivery.antt =====
-- internal/relay/delivery.go: one round of delivery on a session, which claims work and passes
-- cancellations on. What a round sends is the list of messages that reach the session's stream, in
-- order; the stream takes `room` messages before a send fails. assignmentFor, which builds protocol
-- messages, is the parameter `refusal`: the encoded failure of a job that it refuses, or none.
use oc_control_plane.Prelude.{
  ℕ, zero, suc, Bool, true, false, ◌&&◌, Option, none, some, List, [], ◌∷◌, ◌++◌, if◌then◌else◌,
  ◌==◌, any, keep,
}
use oc_control_plane.Jobs.Row.{Job, JobStatus, JobFence, JobOutcome, InFlightJob}
use oc_control_plane.Jobs.Statements.{claim_jobs, pending_cancellations, record_result}
use oc_control_plane.Relay.Handshake.{SessionState, lease_duration}

-- The messages of the protocol that delivery sends: an assignment of a job at its lease epoch, and
-- a cancellation of one.
pub data Delivered : Type 0 where
  job_assignment cancellation : InFlightJob → Delivered

abbrev pub same_execution : InFlightJob → InFlightJob → Bool
same_execution a b = (a.job_id == b.job_id) && (a.lease_epoch == b.lease_epoch)

-- Membership in a set of executions, Go's map of true.
abbrev pub knows : List InFlightJob → InFlightJob → Bool
knows set e = any (same_execution e) set

-- What was sent, and for how many more messages there is room.
abbrev pub Outbound : Type 0
Outbound = List Delivered × ℕ

-- A send succeeds while the stream has room.
abbrev pub send : Delivered → Outbound → Option Outbound
send m (sent, zero) = none
send m (sent, suc room) = some (sent ++ m ∷ [], room)

abbrev pub execution_of : JobFence → InFlightJob
execution_of fence = record { job_id = fence.job_id; lease_epoch = fence.lease_epoch }

-- The loop of dispatchCancellations: what has been told, what was sent, and whether all went out.
unfoldable pub tell :
    List JobFence → List InFlightJob → Outbound → List InFlightJob × Outbound × Bool
tell [] told out = (told, out, true)
tell (fence ∷ fences) told out = elim (knows told (execution_of fence)) [
  | true ↦ tell fences told out
  | false ↦ elim (send (cancellation (execution_of fence)) out) [
    | none ↦ (told, out, false)
    | some out' ↦ tell fences (execution_of fence ∷ told) out'
  ]
]

-- dispatchCancellations: `told` forgets the executions that are no longer to be cancelled.
unfoldable pub dispatch_cancellations :
    SessionState → List Job → List InFlightJob → Outbound → List InFlightJob × Outbound × Bool
unfolding tell
dispatch_cancellations session jobs told out =
    let pending = pending_cancellations session.organization session.id jobs in
    tell pending (keep (λ e. any (λ f. same_execution e (execution_of f)) pending) told) out

-- failUndeliverable: what the build's error makes of the job.
unfoldable pub fail_undeliverable : SessionState → JobOutcome → ℕ → Job → List Job → List Job
fail_undeliverable session outcome now j jobs =
    (record_result session.organization
      (record { job_id = j.job_id; lease_session = session.id; lease_epoch = j.lease_epoch })
      outcome now jobs).0

-- The loop of dispatchWork over the claimed rows.
unfoldable pub assign :
    SessionState
    → (Job → Option (List ℕ))
    → ℕ
    → List Job
    → List Job
    → Outbound
    → List Job × Outbound × Bool
unfolding fail_undeliverable
assign session refusal now [] jobs out = (jobs, out, true)
assign session refusal now (j ∷ claimed) jobs out = elim (refusal j) [
  | some failure ↦
      assign session refusal now claimed
        (fail_undeliverable session (record { status = JobStatus.failed; payload = failure }) now j
          jobs)
        out
  | none ↦
      elim (send (job_assignment (record { job_id = j.job_id; lease_epoch = j.lease_epoch })) out) [
        | none ↦ (jobs, out, false)
        | some out' ↦ assign session refusal now claimed jobs out'
      ]
]

-- dispatchWork.
unfoldable pub dispatch_work :
    SessionState
    → Bool
    → ℕ
    → (Job → Option (List ℕ))
    → (ℕ → Bool)
    → ℕ
    → List Job
    → Outbound
    → List Job × Outbound × Bool
unfolding assign
dispatch_work session draining capacity refusal locked now jobs out =
    if draining
    then (jobs, out, true)
    else let (jobs', claimed) =
        claim_jobs session.organization
          (record {
            registration_id = session.registration_id;
            session_id = session.id;
            lease_for = lease_duration;
            capacity = capacity;
          })
          locked now jobs in
      assign session refusal now claimed jobs' out

-- deliverOnce: cancellations go out only after the work did.
unfoldable pub deliver_once :
    SessionState
    → Bool
    → ℕ
    → (Job → Option (List ℕ))
    → (ℕ → Bool)
    → ℕ
    → List Job
    → List InFlightJob
    → Outbound
    → List Job × List InFlightJob × Outbound × Bool
unfolding dispatch_work dispatch_cancellations
deliver_once session draining capacity refusal locked now jobs told out =
    let (jobs', out', worked) =
      dispatch_work session draining capacity refusal locked now jobs out in
    elim worked [
      | false ↦ (jobs', told, out', false)
      | true ↦
          let (told', out'', passed) = dispatch_cancellations session jobs' told out' in
          (jobs', told', out'', passed)
    ]
