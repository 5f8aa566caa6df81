-- ===== src/SlackWork/Rows.antt =====
-- The table slack_message_work, and what a worker holds of one of its rows.
use Prim.Native.String.{String}
use oc_control_plane.Prelude.{ℕ, Bool, true, false, Option}

pub data WorkStatus : Type 0 where
  ready leased retry terminal complete : WorkStatus

abbrev pub is_leased : WorkStatus → Bool
is_leased leased = true
is_leased _ = false

abbrev pub is_terminal : WorkStatus → Bool
is_terminal terminal = true
is_terminal _ = false

-- `status IN (1, 3)`.
abbrev pub is_waiting : WorkStatus → Bool
is_waiting ready = true
is_waiting retry = true
is_waiting _ = false

pub record WorkRow : Type 0 where
  pub work_id : ℕ
  pub org_id : ℕ
  pub status : WorkStatus
  pub delivery_id : ℕ
  pub conversation_id : ℕ
  pub message_sequence : ℕ
  pub attempts : ℕ
  pub available_at : ℕ
  pub lease_owner : String
  pub lease_epoch : ℕ
  pub lease_expires_at : Option ℕ
  pub failure_class : String
  pub failure_message : String
  pub created_at : ℕ

-- The fields of SlackMessageWork that its holder names it by.
pub record Held : Type 0 where
  pub org_id : ℕ
  pub work_id : ℕ
  pub lease_owner : String
  pub lease_epoch : ℕ
  pub attempts : ℕ
