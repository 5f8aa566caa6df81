-- ===== src/Relay/Resends.antt =====
-- When a result of internal/relay/session.go changes the table, and what one that is sent again is told.
use Prim.Native.String.{String}
use oc_control_plane.Prelude.{
  ℕ, ◌≡◌, ◌⊎◌, refl, inl, inr, Bool, true, false, Option, none, List, Bool-cases, Option-cases,
  find,
}
use oc_control_plane.Jobs.Row.{Job, JobFence, JobOutcome}
use oc_control_plane.Jobs.Statements.{is_row, fenced, record_result}
use oc_control_plane.Jobs.Rows.{IsKeyed}
use oc_control_plane.Jobs.Results.{recorded_result, refused_result}
use oc_control_plane.Relay.Payload.{Message}
use oc_control_plane.Relay.Handshake.{SessionState}
use oc_control_plane.Relay.Acknowledge.{
  JobResult, Disposition, outcome_of, stored, ack, acknowledge, recording_of, try_record_result,
  reply_of, acknowledged, fence_for, record_and_acknowledge,
}
use oc_control_plane.Relay.AcknowledgeLaws.{unknown_result}

refused_unchanged :
    (org : ℕ) (fence : JobFence) (o : JobOutcome) (now : ℕ) (t : List Job)
    → IsKeyed t
    → ((record_result org fence o now t).0 ≡ t) ⊎ ((record_result org fence o now t).1 ≡ none)
refused_unchanged org fence o now t u = elim (Option-cases (find (is_row org fence.job_id) t)) [
  | inl absent_row ↦ inl (rw (unknown_result org fence o now t absent_row) refl)
  | inr (j, h) ↦ elim (Bool-cases (fenced org fence j)) [
    | inl hit ↦ inr (rw (recorded_result org fence o now t j u h hit) refl)
    | inr miss ↦ inl (rw (refused_result org fence o now t j u h miss) refl)
  ]
]

try_unchanged :
    (fails : Bool) (org : ℕ) (fence : JobFence) (o : JobOutcome) (now : ℕ) (t : List Job)
    → IsKeyed t
    → ((try_record_result fails org fence o now t).0 ≡ t)
      ⊎ ((try_record_result fails org fence o now t).1 ≡ stored)
unfolding try_record_result recording_of
try_unchanged true org fence o now t u = inl refl
try_unchanged false org fence o now t u = elim (refused_unchanged org fence o now t u) [
  | inl same ↦ inl same
  | inr none_refused ↦ inr (rw none_refused refl)
]

-- A result changes the table only where it is acknowledged as recorded: a result that names no
-- job, cannot be read, is refused or meets a failing database leaves a keyed table as it was.
pub unrecorded_result_changes_nothing :
    (parse : String → Option ℕ) (marshal : Message → Option (List ℕ)) (session : SessionState)
    (r : JobResult) (fails : Bool) (now : ℕ) (t : List Job)
    → IsKeyed t
    → ((record_and_acknowledge parse marshal session r fails now t).0 ≡ t)
      ⊎ ((record_and_acknowledge parse marshal session r fails now t).1
          ≡ acknowledged (ack r Disposition.recorded))
unfolding record_and_acknowledge reply_of acknowledge
unrecorded_result_changes_nothing parse marshal session r fails now t u =
    elim (Option-cases (parse r.job_id)) [
      | inl unnamed ↦ inl (rw (unnamed, record_and_acknowledge) refl)
      | inr (id, named) ↦ elim (Option-cases (outcome_of marshal r.outcome)) [
        | inl unreadable ↦ inl (rw (named, unreadable, record_and_acknowledge) refl)
        | inr (o, readable) ↦
            elim (try_unchanged fails session.organization (fence_for session id r.lease_epoch) o
              now t u) [
                | inl same ↦ inl (rw (named, readable, record_and_acknowledge) same)
                | inr kept ↦ inr (rw (named, readable, record_and_acknowledge) (rw kept refl))
              ]
      ]
    ]
