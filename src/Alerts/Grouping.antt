-- ===== src/Alerts/Grouping.antt =====
-- internal/store/postgres: one alert of a delivery. upsertAlertEvent and regroupUpdatedAlertEvent
-- of alert_event.go, groupAlertEvent, openIncident and refreshIncident of incident.go.
use Prim.Native.String.{String}
use text.Mathlib.Text.{◌==◌ as str_eq}
use oc_control_plane.Prelude.{
  ℕ, suc, min, max, Bool, true, false, ◌&&◌, Option, none, some, List, [], ◌∷◌, ◌++◌, ◌==◌,
  if◌then◌else◌, map, any, find, keep, holds,
}
use oc_control_plane.Alerts.Tables.{
  AlertStatus, firing, resolved, is_firing, incident_open, incident_resolved, is_open, Basis,
  source_grouping, ungrouped, AlertEvent, AlertRow, IncidentRow, Database,
}

-- The unique key (integration_id, source_key, started_at).
abbrev pub same_alert : ℕ → String → ℕ → AlertRow → Bool
same_alert integration key started row =
    (row.integration_id == integration)
    && (str_eq row.source_key key && (row.started_at == started))

abbrev pub updated_alert : AlertEvent → AlertRow → AlertRow
updated_alert event row = record row { status = event.status; title = event.title }

abbrev pub inserted_alert : ℕ → ℕ → ℕ → AlertEvent → AlertRow
inserted_alert org integration id event = record {
  alert_event_id = id;
  org_id = org;
  integration_id = integration;
  source_key = event.source_key;
  status = event.status;
  title = event.title;
  started_at = event.started_at;
  incident_id = none;
}

-- ON CONFLICT DO UPDATE, where the row is still firing.
unfoldable pub update_alert : ℕ → AlertEvent → List AlertRow → List AlertRow
update_alert integration event [] = []
update_alert integration event (row ∷ rows) =
    let rest = update_alert integration event rows in
    (if same_alert integration event.source_key event.started_at row && is_firing row.status
      then updated_alert event row
      else row)
    ∷ rest

-- What upsertAlertEvent returns: nothing, as the row is resolved already, a new row's id, or the
-- row it updated.
pub data Upserted : Type 0 where
  unchanged : Upserted
  inserted : ℕ → Upserted
  updated : AlertRow → Upserted

unfoldable pub upsert_alert_event : ℕ → ℕ → AlertEvent → Database → Database × Upserted
upsert_alert_event org integration event db =
    elim (find (same_alert integration event.source_key event.started_at) db.alerts) [
      | none ↦ (
        record db {
          alerts = db.alerts ++ inserted_alert org integration db.next_id event ∷ [];
          next_id = suc db.next_id;
        },
        inserted db.next_id,
      )
      | some row ↦
          if is_firing row.status
          then (
            record db { alerts = update_alert integration event db.alerts },
            updated (updated_alert event row),
          )
          else (db, unchanged)
    ]

-- The alerts that refreshIncident counts.
abbrev pub alerts_of : ℕ → ℕ → List AlertRow → List AlertRow
alerts_of org id alerts = keep (λ row. holds row.incident_id id && (row.org_id == org)) alerts

abbrev pub first_seen : AlertRow → List AlertRow → ℕ
first_seen row [] = row.started_at
first_seen row (next ∷ rows) = min row.started_at (first_seen next rows)

-- `greatest(started_at, coalesce(resolved_at, started_at))`.
abbrev pub last_of : AlertRow → ℕ
last_of row = elim row.status [ firing ↦ row.started_at | resolved at ↦ max row.started_at at ]

abbrev pub last_seen : AlertRow → List AlertRow → ℕ
last_seen row [] = last_of row
last_seen row (next ∷ rows) = max (last_of row) (last_seen next rows)

-- `max(resolved_at)`, which is NULL where no row has one.
abbrev pub later : Option ℕ → Option ℕ → Option ℕ
later none b = b
later (some a) none = some a
later (some a) (some b) = some (max a b)

abbrev pub resolution : AlertStatus → Option ℕ
resolution firing = none
resolution (resolved at) = some at

abbrev pub last_resolved : List AlertRow → Option ℕ
last_resolved [] = none
last_resolved (row ∷ rows) = later (resolution row.status) (last_resolved rows)

-- The columns that refreshIncident sets, from the alerts of the incident.
unfoldable pub refreshed : List AlertRow → IncidentRow → IncidentRow
refreshed [] incident = incident
refreshed (row ∷ rows) incident =
    let burning = any (λ alert. is_firing alert.status) (row ∷ rows) in
    record incident {
      first_seen_at = first_seen row rows;
      last_seen_at = last_seen row rows;
      status = if burning then incident_open else incident_resolved;
      resolved_at = if burning then none else last_resolved (row ∷ rows);
    }

abbrev pub is_incident : ℕ → ℕ → IncidentRow → Bool
is_incident org id incident = (incident.incident_id == id) && (incident.org_id == org)

unfoldable pub refresh_rows : ℕ → ℕ → List AlertRow → List IncidentRow → List IncidentRow
refresh_rows org id alerts incidents =
    map
      (λ incident.
        if is_incident org id incident
        then refreshed (alerts_of org id alerts) incident
        else incident)
      incidents

-- refreshIncident.
unfoldable pub refresh_incident : ℕ → ℕ → Database → Database
refresh_incident org id db = record db { incidents = refresh_rows org id db.alerts db.incidents }

-- The unique index on open incidents.
abbrev pub open_under : ℕ → String → IncidentRow → Bool
open_under integration key incident =
    is_open incident.status
    && ((incident.integration_id == integration) && str_eq incident.grouping_key key)

abbrev pub opened_incident : ℕ → ℕ → ℕ → AlertEvent → String → Basis → IncidentRow
opened_incident org integration id event key basis = record {
  incident_id = id;
  org_id = org;
  integration_id = integration;
  grouping_key = key;
  grouping_basis = basis;
  title = event.title;
  status = incident_open;
  first_seen_at = event.started_at;
  last_seen_at = event.started_at;
  resolved_at = none;
  superseded_by = none;
  supersede_reason = "";
}

-- openIncident: the incident, and whether it is new.
unfoldable pub open_incident :
    ℕ → ℕ → AlertEvent → String → Basis → Database → Database × (ℕ × Bool)
open_incident org integration event key basis db =
    elim (find (open_under integration key) db.incidents) [
      | some incident ↦ (db, (incident.incident_id, false))
      | none ↦ (
        record db {
          incidents =
              db.incidents ++ opened_incident org integration db.next_id event key basis ∷ [];
          next_id = suc db.next_id;
        },
        (db.next_id, true),
      )
    ]

abbrev pub grouping_of : AlertEvent → String × Basis
grouping_of event =
    if str_eq event.grouping_key ""
    then (event.source_key, ungrouped)
    else (event.grouping_key, source_grouping)

unfoldable pub attach : ℕ → ℕ → ℕ → List AlertRow → List AlertRow
attach org alert incident alerts =
    map
      (λ row.
        if (row.alert_event_id == alert) && (row.org_id == org)
        then record row { incident_id = some incident }
        else row)
      alerts

-- groupAlertEvent.
unfoldable pub group_alert_event : ℕ → ℕ → AlertEvent → ℕ → Database → Database × (ℕ × Bool)
group_alert_event org integration event alert db =
    let (key, basis) = grouping_of event in
    let (after, (incident, opened)) = open_incident org integration event key basis db in
    (
      refresh_incident org incident
          (record after { alerts = attach org alert incident after.alerts }),
      (incident, opened),
    )

-- regroupUpdatedAlertEvent, with the row that was updated.
unfoldable pub regroup_updated_alert_event : ℕ → AlertRow → Database → Database
regroup_updated_alert_event org row db = elim row.incident_id [
  | none ↦ db
  | some incident ↦ refresh_incident org incident db
]
