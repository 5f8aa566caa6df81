-- ===== src/Alerts/Deliveries.antt =====
-- internal/store/postgres/alert_event.go: RecordDelivery, with claimDelivery and
-- openAlertInvestigations, and reserveWaitingInvestigations of investigation.go. strings.Compare is
-- the parameter `precedes`. A transaction that fails leaves the tables as they were.
use Prim.Native.String.{String}
use text.Mathlib.Text.{◌==◌ as str_eq}
use oc_control_plane.Prelude.{
  ℕ, suc, ◌+◌, ◌-◌, Bool, true, false, not, ◌&&◌, none, some, List, [], ◌∷◌, ◌++◌, ltb, leb, ◌||◌,
  count, ◌==◌, if◌then◌else◌, map, find, keep, length, contains, ◌⊎◌, inl, inr,
}
use oc_control_plane.Alerts.Tables.{
  is_firing, AlertEvent, Delivery, IncidentRow, DeliveryRow, StoredInvestigation, Database,
}
use oc_control_plane.Alerts.Grouping.{
  unchanged, inserted, updated, upsert_alert_event, group_alert_event, regroup_updated_alert_event,
}

abbrev pub identity_of : Delivery → String
identity_of delivery =
    if str_eq delivery.provider_identity ""
    then delivery.content_digest
    else delivery.provider_identity

abbrev pub same_delivery : Delivery → DeliveryRow → Bool
same_delivery delivery row =
    (row.integration_id == delivery.integration)
    && (str_eq row.provider_identity (identity_of delivery)
        && str_eq row.lifecycle_phase delivery.lifecycle_phase)

pub data Claim : Type 0 where
  claimed : Database → Claim
  duplicate identity_conflict : Claim

-- claimDelivery. A row of another organization under the same identity is none that the second
-- query reads.
unfoldable pub claim_delivery : ℕ → Delivery → Database → Claim
claim_delivery org delivery db = elim (find (same_delivery delivery) db.deliveries) [
  | none ↦ claimed (record db {
    deliveries =
        db.deliveries
        ++ record {
          org_id = org;
          integration_id = delivery.integration;
          provider_identity = identity_of delivery;
          lifecycle_phase = delivery.lifecycle_phase;
          content_digest = delivery.content_digest;
        }
          ∷ [];
    next_id = suc db.next_id;
  })
  | some row ↦
      if (row.org_id == org) && str_eq row.content_digest delivery.content_digest
      then duplicate
      else identity_conflict
]

-- AlertAdmissionPolicy. A maximum of zero is none.
pub record Policy : Type 0 where
  pub agent_available : Bool
  pub window_lead : ℕ
  pub maximum_pending : ℕ

-- What the loop of RecordDelivery carries.
pub record Progress : Type 0 where
  pub tables : Database
  pub joined : ℕ
  pub opened : List ℕ

module _ (precedes : AlertEvent → AlertEvent → Bool) where
  -- slices.SortedFunc with compareAlertEvents.
  abbrev pub place_event : AlertEvent → List AlertEvent → List AlertEvent
  place_event event [] = event ∷ []
  place_event event (other ∷ events) =
      let rest = place_event event events in
      if precedes other event then other ∷ rest else event ∷ other ∷ events

  abbrev pub in_order : List AlertEvent → List AlertEvent
  in_order [] = []
  in_order (event ∷ events) = place_event event (in_order events)

-- The body of the loop.
abbrev pub note : Progress → Database → ℕ → Bool → Progress
note progress db incident true = record progress {
  tables = db;
  opened = progress.opened ++ incident ∷ [];
}
note progress db incident false = record progress { tables = db; joined = suc progress.joined }

unfoldable pub take_alert : ℕ → ℕ → AlertEvent → Progress → Progress
take_alert org integration event progress =
    let (db, upserted) = upsert_alert_event org integration event progress.tables in
    elim upserted [
      | unchanged ↦ record progress { tables = db }
      | inserted id ↦
          let (after, (incident, opened)) = group_alert_event org integration event id db in
          if is_firing event.status
          then note progress after incident opened
          else record progress { tables = db }
      | updated row ↦ record progress { tables = regroup_updated_alert_event org row db }
    ]

unfoldable pub take_alerts : ℕ → ℕ → List AlertEvent → Progress → Progress
take_alerts org integration [] progress = progress
take_alerts org integration (event ∷ events) progress =
    take_alerts org integration events (take_alert org integration event progress)

pub data Refusal : Type 0 where
  conflicting batch_too_large capacity_exhausted : Refusal

-- DeliveryOutcome.
pub data Outcome : Type 0 where
  already_accepted : Outcome
  recorded : ℕ → ℕ → ℕ → Outcome
  refused : Refusal → Outcome

abbrev pub automatic : ℕ → ℕ → IncidentRow → StoredInvestigation
automatic org lead incident = record {
  org_id = org;
  incident_id = some incident.incident_id;
  subject = incident.title;
  window_from = incident.first_seen_at - lead;
  window_until = incident.last_seen_at;
  running = true;
  lease_worker = "";
}

-- `status = 1 AND lease_worker = ''`.
abbrev pub is_waiting : ℕ → StoredInvestigation → Bool
is_waiting org row = (row.org_id == org) && row.running && str_eq row.lease_worker ""

-- reserveWaitingInvestigations; a limit of zero is none.
unfoldable pub can_wait : ℕ → ℕ → ℕ → List StoredInvestigation → Bool
can_wait org maximum requested rows =
    (maximum == 0) || leb (count (is_waiting org) rows + requested) maximum

-- openAlertInvestigations.
unfoldable pub open_alert_investigations : ℕ → List ℕ → Policy → Database → Refusal ⊎ Database
unfolding can_wait
open_alert_investigations org [] policy db = inr db
open_alert_investigations org (id ∷ ids) policy db =
    if not policy.agent_available
    then inr db
    else if ltb 0 policy.maximum_pending && ltb policy.maximum_pending (length (id ∷ ids))
    then inl batch_too_large
    else if not (can_wait org policy.maximum_pending (length (id ∷ ids)) db.investigations)
    then inl capacity_exhausted
    else inr (record db {
      investigations =
          db.investigations
          ++ map (automatic org policy.window_lead) (
              keep
                (λ incident. (incident.org_id == org) && contains (id ∷ ids) incident.incident_id)
                db.incidents);
    })

-- RecordDelivery.
unfoldable pub record_delivery :
    (AlertEvent → AlertEvent → Bool) → ℕ → Delivery → Policy → Database → Database × Outcome
record_delivery precedes org delivery policy db = elim (claim_delivery org delivery db) [
  | duplicate ↦ (db, already_accepted)
  | identity_conflict ↦ (db, refused conflicting)
  | claimed after ↦
      let progress =
        take_alerts org delivery.integration (in_order precedes delivery.alert_events)
          (record { tables = after; joined = 0; opened = [] }) in
      elim (open_alert_investigations org progress.opened policy progress.tables) [
        | inl because ↦ (db, refused because)
        | inr final ↦ (
          final,
          recorded (length delivery.alert_events) (length progress.opened) progress.joined,
        )
      ]
]
