-- ===== src/Relay/Acknowledge.antt =====
-- internal/relay/session.go and messages.go: recordAndAcknowledge, acknowledge and outcomeOf, on the
-- relay_job table. uuid.Parse and proto.Marshal, which are not part of the repository's code, are
-- the parameters `parse` and `marshal`; an acknowledgement stands for the message that is sent.
use Prim.Native.String.{String}
use oc_control_plane.Prelude.{ℕ, Bool, Option, none, some, List, [], if◌then◌else◌}
use oc_control_plane.Jobs.Row.{Job, JobStatus, JobFence, JobOutcome, ResultRefusal}
use oc_control_plane.Jobs.Statements.{record_result}
use oc_control_plane.Relay.Payload.{Message, has_unknown}
use oc_control_plane.Relay.Handshake.{SessionState}

-- The outcome of a JobResult: a failure and whether its kind is cancelled, a result, or neither.
pub data RelayOutcome : Type 0 where
  failure : Bool → Message → RelayOutcome
  result : Message → RelayOutcome
  absent : RelayOutcome

pub record JobResult : Type 0 where
  pub job_id : String
  pub lease_epoch : ℕ
  pub outcome : RelayOutcome

pub data Disposition : Type 0 where
  recorded already_recorded stale_stop_resending : Disposition

pub record ResultAck : Type 0 where
  pub job_id : String
  pub lease_epoch : ℕ
  pub disposition : Disposition

-- mustMarshal, with the nil bytes as empty.
abbrev pub must_marshal : (Message → Option (List ℕ)) → Message → List ℕ
must_marshal marshal m = elim (marshal m) [ none ↦ [] | some bytes ↦ bytes ]

-- outcomeOf; `none` is the error of an unreadable payload.
unfoldable pub outcome_of : (Message → Option (List ℕ)) → RelayOutcome → Option JobOutcome
outcome_of marshal (failure cancelled m) =
    if has_unknown m
    then none
    else some (record {
      status = if cancelled then JobStatus.cancelled else JobStatus.failed;
      payload = must_marshal marshal m;
    })
outcome_of marshal (result m) =
    if has_unknown m
    then none
    else some (record { status = JobStatus.succeeded; payload = must_marshal marshal m })
outcome_of marshal absent = none

-- What RecordResult returns to its caller: nil, ErrResultRefused with its reason, or another error.
pub data Recording : Type 0 where
  stored : Recording
  refused : ResultRefusal → Recording
  failed : Recording

unfoldable pub ack : JobResult → Disposition → ResultAck
ack r disposition = record {
  job_id = r.job_id;
  lease_epoch = r.lease_epoch;
  disposition = disposition;
}

-- acknowledge: the message that is sent, if any.
unfoldable pub acknowledge : JobResult → Recording → Option ResultAck
unfolding ack
acknowledge r stored = some (ack r recorded)
acknowledge r failed = none
acknowledge r (refused ResultRefusal.lease_not_held) = none
acknowledge r (refused ResultRefusal.already_recorded) = some (ack r already_recorded)
acknowledge r (refused _) = some (ack r stale_stop_resending)

unfoldable pub recording_of : Option ResultRefusal → Recording
recording_of none = stored
recording_of (some reason) = refused reason

-- RecordResult on a database that may fail: a failed transaction leaves the table as it was.
unfoldable pub try_record_result :
    Bool → ℕ → JobFence → JobOutcome → ℕ → List Job → List Job × Recording
unfolding recording_of
try_record_result fails org fence o now jobs =
    if fails
    then (jobs, failed)
    else let (jobs', refusal) = record_result org fence o now jobs in (jobs', recording_of refusal)

-- What the handler of a result does to its stream.
pub data Reply : Type 0 where
  silent : Reply
  acknowledged : ResultAck → Reply
  session_ended : Reply

unfoldable pub reply_of : Option ResultAck → Reply
reply_of none = silent
reply_of (some a) = acknowledged a

abbrev pub fence_for : SessionState → ℕ → ℕ → JobFence
fence_for session id epoch = record { job_id = id; lease_session = session.id; lease_epoch = epoch }

-- recordAndAcknowledge.
unfoldable pub record_and_acknowledge :
    (String → Option ℕ)
    → (Message → Option (List ℕ))
    → SessionState
    → JobResult
    → Bool
    → ℕ
    → List Job
    → List Job × Reply
unfolding acknowledge reply_of
record_and_acknowledge parse marshal session r fails now jobs = elim (parse r.job_id) [
  | none ↦ (jobs, silent)
  | some id ↦ elim (outcome_of marshal r.outcome) [
    | none ↦ (jobs, session_ended)
    | some o ↦
        let (jobs', recording) =
          try_record_result fails session.organization (fence_for session id r.lease_epoch) o now
            jobs in
        (jobs', reply_of (acknowledge r recording))
  ]
]
