-- ===== src/Investigations/Row.antt =====
-- The investigation row, its events and the state that the statements on investigations write.
-- The columns that no modelled statement writes, such as the subject and the window, are left out.
use Prim.Native.String.{String}
use oc_control_plane.Prelude.{ℕ, Bool, true, false, List, Option}
use oc_control_plane.Jobs.Row.{Job}

-- The status column: 1 running, 2 concluded, 3 failed, 4 cancelled.
pub data Status : Type 0 where
  running concluded failed cancelled : Status

abbrev pub is_running : Status → Bool
is_running Status.running = true
is_running _ = false

pub record Investigation : Type 0 where
  pub investigation_id : ℕ
  pub org_id : ℕ
  pub status : Status
  pub conclusion : List ℕ
  pub stopped_by : String
  pub error : String
  pub spend_input_tokens : ℕ
  pub spend_output_tokens : ℕ
  pub created_at : ℕ
  pub concluded_at : Option ℕ
  pub cancel_requested_at : Option ℕ
  pub lease_worker : String
  pub lease_token : Option ℕ
  pub lease_expires_at : Option ℕ

-- A row of investigation_event.
pub record Event : Type 0 where
  pub investigation_id : ℕ
  pub org_id : ℕ
  pub sequence : ℕ
  pub kind : ℕ
  pub payload : List ℕ

pub record Database : Type 0 where
  pub investigations : List Investigation
  pub events : List Event
  pub jobs : List Job

-- Claim of internal/investigation.
pub record Claim : Type 0 where
  pub worker : String
  pub lease_for : ℕ
  pub token : ℕ

pub record Usage : Type 0 where
  pub input_tokens : ℕ
  pub output_tokens : ℕ

-- What a statement returns: nil, ErrUnknown or ErrAlreadyEnded.
pub data Ended : Type 0 where
  ended unknown already_ended : Ended
