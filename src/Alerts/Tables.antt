-- ===== src/Alerts/Tables.antt =====
-- internal/alertevent, internal/incident/incident.go and the tables alert_event, incident and
-- webhook_delivery: what a delivery brings and what is stored of it.
use Prim.Native.String.{String}
use oc_control_plane.Prelude.{ℕ, Bool, true, false, Option, List}

-- alertevent.AlertEventStatus, with the time of a resolution.
pub data AlertStatus : Type 0 where
  firing : AlertStatus
  resolved : ℕ → AlertStatus

abbrev pub is_firing : AlertStatus → Bool
is_firing firing = true
is_firing (resolved at) = false

pub data IncidentStatus : Type 0 where
  incident_open incident_resolved : IncidentStatus

abbrev pub is_open : IncidentStatus → Bool
is_open incident_open = true
is_open incident_resolved = false

pub data Basis : Type 0 where
  source_grouping ungrouped : Basis

-- alertevent.AlertEvent, without the texts that are only stored.
pub record AlertEvent : Type 0 where
  pub source_key : String
  pub grouping_key : String
  pub status : AlertStatus
  pub title : String
  pub started_at : ℕ

-- Delivery; the digest is its hexadecimal text.
pub record Delivery : Type 0 where
  pub integration : ℕ
  pub provider_identity : String
  pub lifecycle_phase : String
  pub content_digest : String
  pub alert_events : List AlertEvent

pub record AlertRow : Type 0 where
  pub alert_event_id : ℕ
  pub org_id : ℕ
  pub integration_id : ℕ
  pub source_key : String
  pub status : AlertStatus
  pub title : String
  pub started_at : ℕ
  pub incident_id : Option ℕ

pub record IncidentRow : Type 0 where
  pub incident_id : ℕ
  pub org_id : ℕ
  pub integration_id : ℕ
  pub grouping_key : String
  pub grouping_basis : Basis
  pub title : String
  pub status : IncidentStatus
  pub first_seen_at : ℕ
  pub last_seen_at : ℕ
  pub resolved_at : Option ℕ
  pub superseded_by : Option ℕ
  pub supersede_reason : String

pub record DeliveryRow : Type 0 where
  pub org_id : ℕ
  pub integration_id : ℕ
  pub provider_identity : String
  pub lifecycle_phase : String
  pub content_digest : String

-- A row of investigation, with what the queue reads of it: whether its status is 1, and the worker
-- that leases it.
pub record StoredInvestigation : Type 0 where
  pub org_id : ℕ
  pub incident_id : Option ℕ
  pub subject : String
  pub window_from : ℕ
  pub window_until : ℕ
  pub running : Bool
  pub lease_worker : String

-- The tables. `next_id` is what uuid.New gives next, and no row has it yet.
pub record Database : Type 0 where
  pub deliveries : List DeliveryRow
  pub alerts : List AlertRow
  pub incidents : List IncidentRow
  pub investigations : List StoredInvestigation
  pub next_id : ℕ
