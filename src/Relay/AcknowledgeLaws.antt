-- ===== src/Relay/AcknowledgeLaws.antt =====
-- What an acknowledgement of internal/relay/session.go promises to the Relay that receives it.
use Prim.Native.String.{String}
use oc_control_plane.Prelude.{
  ℕ, ◌<◌, ◌≡◌, ◌⊎◌, refl, subst, inl, inr, Bool, true, false, Option, none, some, List, [], ◌∷◌,
  arith, ltb, Bool-cases, Option-cases, count, find,
}
use oc_control_plane.Jobs.Row.{Job, JobFence, JobOutcome, ResultRefusal, is_terminal}
use oc_control_plane.Jobs.Statements.{
  is_row, fenced, record_row, record_result, explain_refused_result, job_outcome, stored_outcome,
}
use oc_control_plane.Jobs.Rows.{IsKeyed, find-update}
use oc_control_plane.Jobs.Results.{recorded_result, refused_result, update_none}
use oc_control_plane.Relay.Payload.{Message}
use oc_control_plane.Relay.Handshake.{SessionState}
use oc_control_plane.Relay.Acknowledge.{
  RelayOutcome, failure, result, absent, JobResult, Disposition, ResultAck, outcome_of, Recording,
  stored, refused, failed, ack, acknowledge, recording_of, try_record_result, reply_of,
  acknowledged, fence_for, record_and_acknowledge,
}

pub outcome_of-terminal :
    (marshal : Message → Option (List ℕ)) (x : RelayOutcome) (o : JobOutcome)
    → outcome_of marshal x ≡ some o
    → is_terminal o.status ≡ true
unfolding outcome_of
outcome_of-terminal marshal (failure cancelled m) o h = ground arith
outcome_of-terminal marshal (result m) o h = ground arith
outcome_of-terminal marshal absent o h = cc

none-fenced :
    (org : ℕ) (fence : JobFence) (t : List Job)
    → find (is_row org fence.job_id) t ≡ none
    → count (fenced org fence) t ≡ 0
none-fenced org fence [] h = refl
none-fenced org fence (x ∷ t) h = ground (arith, none-fenced org fence t)

pub unknown_result :
    (org : ℕ) (fence : JobFence) (o : JobOutcome) (now : ℕ) (t : List Job)
    → find (is_row org fence.job_id) t ≡ none
    → record_result org fence o now t ≡ (t, some ResultRefusal.job_unknown)
unfolding record_result explain_refused_result
unknown_result org fence o now t h = rw (
  none-fenced org fence t h,
  h,
  update_none (fenced org fence) (record_row o now) t (none-fenced org fence t h),
)

-- What holds of the job's row after each answer of RecordResult.
abbrev pub IsSettled : ℕ → JobFence → JobOutcome → ℕ → Recording → List Job → Type 0
IsSettled org fence o now stored t =
    job_outcome org fence.job_id t
    ≡ some (record { status = o.status; payload = some o.payload; terminal_at = now }, true)
IsSettled org fence o now (refused ResultRefusal.already_recorded) t =
    (k : Job) × (find (is_row org fence.job_id) t ≡ some k) × (is_terminal k.status ≡ true)
IsSettled org fence o now (refused ResultRefusal.fence_superseded) t =
    (k : Job) × (find (is_row org fence.job_id) t ≡ some k) × (fence.lease_epoch < k.lease_epoch)
IsSettled org fence o now (refused ResultRefusal.job_unknown) t =
    find (is_row org fence.job_id) t ≡ none
IsSettled org fence o now (refused ResultRefusal.lease_not_held) t = Unit {0}
IsSettled org fence o now failed t = Unit {0}

explained :
    (org : ℕ) (fence : JobFence) (o : JobOutcome) (now : ℕ) (t : List Job) (j : Job)
    → find (is_row org fence.job_id) t ≡ some j
    → IsSettled org fence o now (refused (explain_refused_result fence (some j))) t
unfolding explain_refused_result
explained org fence o now t j h = elim (Bool-cases (is_terminal j.status)) [
  | inl final ↦ rw final (j, h, final)
  | inr unsettled ↦ rw unsettled (elim (Bool-cases (ltb fence.lease_epoch j.lease_epoch)) [
    | inl old ↦ rw old (j, h, ground arith)
    | inr current ↦ rw current tt
  ])
]

record_result-IsSettled :
    (org : ℕ) (fence : JobFence) (o : JobOutcome) (now : ℕ) (t : List Job)
    → IsKeyed t
    → is_terminal o.status ≡ true
    → IsSettled org fence o now
        (recording_of (record_result org fence o now t).1)
        (record_result org fence o now t).0
unfolding recording_of job_outcome stored_outcome record_row
record_result-IsSettled org fence o now t u final =
    elim (Option-cases (find (is_row org fence.job_id) t)) [
      | inl absent_row ↦ rw (unknown_result org fence o now t absent_row) absent_row
      | inr (j, h) ↦ elim (Bool-cases (fenced org fence j)) [
        | inl hit ↦
            let found = rw hit at (
              find-update org fence.job_id (fenced org fence) (record_row o now) t
                (λ k. (refl, refl)) j h) in
            rw (recorded_result org fence o now t j u h hit) (rw (found, final))
        | inr miss ↦
            rw (refused_result org fence o now t j u h miss) (explained org fence o now t j h)
      ]
    ]

try_record_result-IsSettled :
    (fails : Bool) (org : ℕ) (fence : JobFence) (o : JobOutcome) (now : ℕ) (t : List Job)
    → IsKeyed t
    → is_terminal o.status ≡ true
    → IsSettled org fence o now
        (try_record_result fails org fence o now t).1
        (try_record_result fails org fence o now t).0
unfolding try_record_result
try_record_result-IsSettled true org fence o now t u final = tt
try_record_result-IsSettled false org fence o now t u final =
    record_result-IsSettled org fence o now t u final

-- What each disposition says of the table that it is sent over: the result is stored; the job is
-- already terminal; or the job is unknown, or its lease has moved on to a later epoch.
abbrev pub IsTrue : ℕ → JobFence → JobOutcome → ℕ → Disposition → List Job → Type 0
IsTrue org fence o now Disposition.recorded t =
    job_outcome org fence.job_id t
    ≡ some (record { status = o.status; payload = some o.payload; terminal_at = now }, true)
IsTrue org fence o now Disposition.already_recorded t =
    (k : Job) × (find (is_row org fence.job_id) t ≡ some k) × (is_terminal k.status ≡ true)
IsTrue org fence o now Disposition.stale_stop_resending t =
    (find (is_row org fence.job_id) t ≡ none)
    ⊎ ((k : Job) × (find (is_row org fence.job_id) t ≡ some k)
        × (fence.lease_epoch < k.lease_epoch))

disposition_of :
    (r : JobResult) (d : Disposition) (a : ResultAck)
    → acknowledged (ack r d) ≡ acknowledged a
    → d ≡ a.disposition
unfolding ack
disposition_of r d a h = cc

acknowledge-IsTrue :
    (r : JobResult) (org : ℕ) (fence : JobFence) (o : JobOutcome) (now : ℕ) (t : List Job)
    (x : Recording) (a : ResultAck)
    → IsSettled org fence o now x t
    → reply_of (acknowledge r x) ≡ acknowledged a
    → IsTrue org fence o now a.disposition t
unfolding acknowledge reply_of
acknowledge-IsTrue r org fence o now t stored a s h =
    subst (λ d. IsTrue org fence o now d t) (disposition_of r Disposition.recorded a h) s
acknowledge-IsTrue r org fence o now t failed a s h = cc
acknowledge-IsTrue r org fence o now t (refused ResultRefusal.lease_not_held) a s h = cc
acknowledge-IsTrue r org fence o now t (refused ResultRefusal.already_recorded) a s h =
    subst (λ d. IsTrue org fence o now d t) (disposition_of r Disposition.already_recorded a h) s
acknowledge-IsTrue r org fence o now t (refused ResultRefusal.fence_superseded) a s h =
    subst (λ d. IsTrue org fence o now d t) (disposition_of r Disposition.stale_stop_resending a h)
      (inr s)
acknowledge-IsTrue r org fence o now t (refused ResultRefusal.job_unknown) a s h =
    subst (λ d. IsTrue org fence o now d t) (disposition_of r Disposition.stale_stop_resending a h)
      (inl s)

-- An acknowledgement is never false: on a keyed table, where the result names its job and can be
-- read, whatever the server acknowledges holds of the table it leaves, and a failing database
-- is not acknowledged as anything untrue.
pub acknowledgement-IsTrue :
    (parse : String → Option ℕ) (marshal : Message → Option (List ℕ)) (session : SessionState)
    (r : JobResult) (fails : Bool) (now id : ℕ) (o : JobOutcome) (t : List Job) (a : ResultAck)
    → IsKeyed t
    → parse r.job_id ≡ some id
    → outcome_of marshal r.outcome ≡ some o
    → (record_and_acknowledge parse marshal session r fails now t).1 ≡ acknowledged a
    → IsTrue session.organization
        (fence_for session id r.lease_epoch)
        o
        now
        a.disposition
        (record_and_acknowledge parse marshal session r fails now t).0
unfolding record_and_acknowledge
acknowledgement-IsTrue parse marshal session r fails now id o t a u named readable h =
    rw (named, readable, record_and_acknowledge)
      (acknowledge-IsTrue r session.organization (fence_for session id r.lease_epoch) o now
        (try_record_result fails session.organization (fence_for session id r.lease_epoch) o now
          t).0
        (try_record_result fails session.organization (fence_for session id r.lease_epoch) o now
          t).1
        a
        (try_record_result-IsSettled fails session.organization (fence_for session id r.lease_epoch)
          o now t u (outcome_of-terminal marshal r.outcome o readable))
        (rw (named, readable, record_and_acknowledge) at h))
