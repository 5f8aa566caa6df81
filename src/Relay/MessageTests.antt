-- ===== src/Relay/MessageTests.antt =====
-- The theorems on the messages of a session, at small concrete inputs.
use Prim.Native.String.{String}
use text.Mathlib.Text.{◌==◌ as str_eq}
use oc_control_plane.Prelude.{
  ℕ, ◌≡◌, ◌⊎◌, ◌↔◌, refl, true, false, Option, none, some, List, [], ◌∷◌, if◌then◌else◌,
}
use oc_control_plane.Jobs.Row.{Job, JobStatus, JobOutcome}
use oc_control_plane.Jobs.Statements.{record_result, pending_cancellations, fence_of}
use oc_control_plane.Relay.Handshake.{SessionState}
use oc_control_plane.Relay.Payload.{
  Message, message, no_fields, field, nested, has_unknown, any_unknown, CarriesUnknown,
  has_unknown_iff,
}
use oc_control_plane.Relay.Acknowledge.{
  result, JobResult, Disposition, ack, acknowledge, acknowledged, outcome_of, reply_of,
  recording_of, try_record_result, fence_for, record_and_acknowledge,
}
use oc_control_plane.Relay.AcknowledgeLaws.{IsTrue, acknowledgement-IsTrue}
use oc_control_plane.Relay.Resends.{unrecorded_result_changes_nothing}
use oc_control_plane.Relay.Delivery.{dispatch_cancellations, tell}
use oc_control_plane.Relay.DeliveryLaws.{cancellation_told_once}

abbrev plain : Message
plain = message false no_fields

abbrev newer : Message
newer = message false (field (nested (message true no_fields)) no_fields)

has_unknown_iff_example : (has_unknown newer ≡ true) ↔ CarriesUnknown newer
has_unknown_iff_example = has_unknown_iff newer

abbrev parse : String → Option ℕ
parse name = if str_eq name "job" then some 11 else none

abbrev marshal : Message → Option (List ℕ)
marshal m = some (1 ∷ [])

abbrev session : SessionState
session = record { organization = 1; registration_id = 2; id = 7; contested = false }

abbrev running : Job
running = record {
  job_id = 11;
  org_id = 1;
  registration_id = 2;
  integration_id = 3;
  capability_id = "kubernetes.container.logs";
  capability_version = 1;
  arguments = [];
  status = JobStatus.leased;
  lease_session = some 7;
  lease_epoch = 4;
  lease_expires_at = some 20;
  cancel_requested_at = some 8;
  outcome = none;
  terminal_at = none;
  created_at = 5;
  investigation_id = none;
}

abbrev table : List Job
table = running ∷ []

abbrev good : JobResult
good = record { job_id = "job"; lease_epoch = 4; outcome = result plain }

abbrev good_outcome : JobOutcome
good_outcome = record { status = JobStatus.succeeded; payload = 1 ∷ [] }

acknowledgement-IsTrue_example :
    IsTrue 1
      (fence_for session 11 4)
      good_outcome
      9
      Disposition.recorded
      (record_and_acknowledge parse marshal session good false 9 table).0
unfolding record_and_acknowledge outcome_of has_unknown any_unknown try_record_result record_result
    recording_of acknowledge reply_of ack
acknowledgement-IsTrue_example =
    acknowledgement-IsTrue parse marshal session good false 9 11 good_outcome table
      (ack good Disposition.recorded) (refl, tt) refl refl refl

unrecorded_result_changes_nothing_example :
    ((record_and_acknowledge parse marshal session good true 9 table).0 ≡ table)
    ⊎ ((record_and_acknowledge parse marshal session good true 9 table).1
        ≡ acknowledged (ack good Disposition.recorded))
unrecorded_result_changes_nothing_example =
    unrecorded_result_changes_nothing parse marshal session good true 9 table (refl, tt)

cancellation_told_once_example :
    let again =
      dispatch_cancellations session table
        (dispatch_cancellations session table [] ([], 1)).0
        ([], 5) in
    (again.1 ≡ ([], 5)) × (again.2 ≡ true)
unfolding dispatch_cancellations tell pending_cancellations fence_of
cancellation_told_once_example = cancellation_told_once session table [] ([], 1) ([], 5) refl
