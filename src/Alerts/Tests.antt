-- ===== src/Alerts/Tests.antt =====
-- The theorems on alerts and incidents, at small tables.
use oc_control_plane.Prelude.{
  ℕ, suc, ◌≤◌, ◌≡◌, refl, ◌⊎◌, arith, Bool, true, false, none, some, [], ◌∷◌,
}
use oc_control_plane.Alerts.Tables.{
  firing, resolved, incident_open, ungrouped, AlertEvent, Delivery, AlertRow, IncidentRow, Database,
}
use oc_control_plane.Alerts.Grouping.{
  upsert_alert_event, update_alert, group_alert_event, open_incident, attach, refresh_incident,
  refresh_rows, refreshed, regroup_updated_alert_event,
}
use oc_control_plane.Alerts.Deliveries.{
  Policy, claim_delivery, take_alert, take_alerts, already_accepted, recorded,
  open_alert_investigations, record_delivery, is_waiting, can_wait,
}
use oc_control_plane.Alerts.Merging.{Merge}
use oc_control_plane.Alerts.Accepted.{redelivery_changes_nothing}
use oc_control_plane.Alerts.Queue.{admissions_bounded}
use oc_control_plane.Prelude.{count}
use oc_control_plane.Alerts.Resolutions.{IsResolved, resolution_final}
use oc_control_plane.Alerts.Survivors.{survivor, merge_all, merged_incident_has_survivor}

abbrev fire : AlertEvent
fire = record {
  source_key = "disk";
  grouping_key = "";
  status = firing;
  title = "disk full";
  started_at = 5;
}

abbrev delivery : Delivery
delivery = record {
  integration = 3;
  provider_identity = "d1";
  lifecycle_phase = "firing";
  content_digest = "00ff";
  alert_events = fire ∷ [];
}

abbrev policy : Policy
policy = record { agent_available = true; window_lead = 2; maximum_pending = 4 }

abbrev blank : Database
blank = record { deliveries = []; alerts = []; incidents = []; investigations = []; next_id = 1 }

abbrev in_any_order : AlertEvent → AlertEvent → Bool
in_any_order a b = false

abbrev delivered : Database
delivered = (record_delivery in_any_order 1 delivery policy blank).0

is_recorded : record_delivery in_any_order 1 delivery policy blank ≡ (delivered, recorded 1 1 0)
unfolding record_delivery claim_delivery take_alerts take_alert upsert_alert_event update_alert
    group_alert_event open_incident attach refresh_incident refresh_rows refreshed
    regroup_updated_alert_event open_alert_investigations can_wait
is_recorded = refl

redelivery_changes_nothing_example :
    record_delivery in_any_order 1 delivery policy (record delivered { investigations = [] })
    ≡ (record delivered { investigations = [] }, already_accepted)
redelivery_changes_nothing_example =
    redelivery_changes_nothing in_any_order 1 delivery policy policy blank delivered [] 1 1 0
      is_recorded

admissions_bounded_example : (suc 0 ≡ 0) ⊎ (count (is_waiting 1) delivered.investigations ≤ 4)
unfolding record_delivery claim_delivery take_alerts take_alert upsert_alert_event update_alert
    group_alert_event open_incident attach refresh_incident refresh_rows refreshed
    regroup_updated_alert_event open_alert_investigations can_wait
admissions_bounded_example =
    admissions_bounded in_any_order 1 delivery policy blank delivered 1 1 0 refl (omega arith)
      (refl, tt) is_recorded

abbrev over : AlertRow
over = record {
  alert_event_id = 9;
  org_id = 1;
  integration_id = 3;
  source_key = "disk";
  status = resolved 8;
  title = "disk full";
  started_at = 5;
  incident_id = none;
}

abbrev settled : Database
settled = record blank { alerts = over ∷ []; next_id = 20 }

resolution_final_example :
    IsResolved 3 "disk" 5 8 (record_delivery in_any_order 1 delivery policy settled).0.alerts
resolution_final_example =
    resolution_final in_any_order 1 delivery policy settled 3 "disk" 5 8 (over, refl, refl)

abbrev incident : ℕ → IncidentRow
incident id = record {
  incident_id = id;
  org_id = 1;
  integration_id = 3;
  grouping_key = "disk";
  grouping_basis = ungrouped;
  title = "disk full";
  status = incident_open;
  first_seen_at = 5;
  last_seen_at = 5;
  resolved_at = none;
  superseded_by = none;
  supersede_reason = "";
}

abbrev three : Database
three = record blank { incidents = incident 4 ∷ incident 5 ∷ incident 6 ∷ [] }

abbrev join : ℕ → ℕ → Merge
join absorbed into = record { absorbed = absorbed; into = into; reason = "same disk" }

merged_incident_has_survivor_example :
    (root : ℕ) × (survivor 1 (merge_all 1 (join 4 5 ∷ join 5 6 ∷ []) three).incidents 3 4
      ≡ some root)
merged_incident_has_survivor_example =
    merged_incident_has_survivor 1 (join 4 5 ∷ join 5 6 ∷ []) three 4 (incident 4)
      (refl, (refl, (refl, tt))) refl
