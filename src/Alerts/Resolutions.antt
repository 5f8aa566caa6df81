-- ===== src/Alerts/Resolutions.antt =====
-- internal/store/postgres/alert_event.go: webhooks are unordered, and a late firing does not undo a
-- resolution.
use Prim.Native.String.{String}
use oc_control_plane.Prelude.{
  ℕ, ◌≡◌, sym, ◌∙◌, subst, inl, inr, Bool, ◌&&◌, some, List, [], ◌∷◌, ◌++◌, arith, ◌==◌, Bool-cases,
  Option-cases, find,
}
use oc_control_plane.Alerts.Tables.{
  resolved, is_firing, Basis, AlertEvent, Delivery, AlertRow, Database,
}
use oc_control_plane.Alerts.Grouping.{
  same_alert, update_alert, inserted_alert, upsert_alert_event, attach, open_incident, open_under,
  grouping_of, refresh_incident, group_alert_event,
}
use oc_control_plane.Alerts.Deliveries.{
  same_delivery, claim_delivery, Policy, in_order, open_alert_investigations, record_delivery,
  claimed,
}
use oc_control_plane.Alerts.Accepted.{
  take_alerts-keeps, regroup-deliveries, Claim-cases, choice-cases, worked,
}

module _ (integration : ℕ) (key : String) (started at : ℕ) where
  -- The row of the alert says that it was resolved at `at`.
  abbrev pub IsResolved : List AlertRow → Type 0
  IsResolved alerts =
      (row : AlertRow) × (find (same_alert integration key started) alerts ≡ some row)
      × (row.status ≡ resolved at)

  update-IsResolved :
      (other : ℕ) (event : AlertEvent) (alerts : List AlertRow)
      → IsResolved alerts
      → IsResolved (update_alert other event alerts)
  unfolding update_alert
  update-IsResolved other event [] (row, found, over) = cc
  update-IsResolved other event (first ∷ alerts) (row, found, over) =
      elim (Bool-cases (same_alert integration key started first)) [
        | inl here ↦ (row, ground arith, over)
        | inr elsewhere ↦
            let (next, more, still) =
              update-IsResolved other event alerts (row, ground arith, over) in
            (next, ground arith, still)
      ]

  append-IsResolved :
      (new : AlertRow) (alerts : List AlertRow)
      → IsResolved alerts
      → IsResolved (alerts ++ new ∷ [])
  append-IsResolved new [] (row, found, over) = cc
  append-IsResolved new (first ∷ alerts) (row, found, over) =
      elim (Bool-cases (same_alert integration key started first)) [
        | inl here ↦ (row, ground arith, over)
        | inr elsewhere ↦
            let (next, more, still) = append-IsResolved new alerts (row, ground arith, over) in
            (next, ground arith, still)
      ]

  attach-IsResolved :
      (org alert incident : ℕ) (alerts : List AlertRow)
      → IsResolved alerts
      → IsResolved (attach org alert incident alerts)
  unfolding attach
  attach-IsResolved org alert incident [] (row, found, over) = cc
  attach-IsResolved org alert incident (first ∷ alerts) (row, found, over) =
      elim (Bool-cases (same_alert integration key started first)) [
        | inl here ↦ elim (Bool-cases ((first.alert_event_id == alert) && (first.org_id == org))) [
          | inl attached ↦
              (record first { incident_id = some incident }, ground arith, ground arith)
          | inr apart ↦ (row, ground arith, over)
        ]
        | inr elsewhere ↦
            let (next, more, still) =
              attach-IsResolved org alert incident alerts (row, ground arith, over) in
            (next, ground arith, still)
      ]

  upsert-IsResolved :
      (org other : ℕ) (event : AlertEvent) (db : Database)
      → IsResolved db.alerts
      → IsResolved (upsert_alert_event org other event db).0.alerts
  unfolding upsert_alert_event
  upsert-IsResolved org other event db h =
      let after = (upsert_alert_event org other event db).0.alerts in
      elim (Option-cases (find (same_alert other event.source_key event.started_at) db.alerts)) [
        | inl fresh ↦
            let e : db.alerts ++ inserted_alert org other db.next_id event ∷ [] ≡ after =
              ground arith in
            subst IsResolved e
              (append-IsResolved (inserted_alert org other db.next_id event) db.alerts h)
        | inr (row, found) ↦ elim (Bool-cases (is_firing row.status)) [
          | inl burning ↦
              let e : update_alert other event db.alerts ≡ after = ground arith in
              subst IsResolved e (update-IsResolved other event db.alerts h)
          | inr over ↦ let e : db.alerts ≡ after = ground arith in subst IsResolved e h
        ]
      ]

  open-alerts :
      (org other : ℕ) (event : AlertEvent) (k : String) (basis : Basis) (db : Database)
      → (open_incident org other event k basis db).0.alerts ≡ db.alerts
  unfolding open_incident
  open-alerts org other event k basis db =
      elim (Option-cases (find (open_under other k) db.incidents)) [
        | inl fresh ↦ ground arith
        | inr (incident, found) ↦ ground arith
      ]

  group-IsResolved :
      (org other id : ℕ) (event : AlertEvent) (db : Database)
      → IsResolved db.alerts
      → IsResolved (group_alert_event org other event id db).0.alerts
  unfolding group_alert_event refresh_incident
  group-IsResolved org other id event db h =
      let (k, basis) = grouping_of event in
      let (after, (incident, opened)) = open_incident org other event k basis db in
      attach-IsResolved org id incident after.alerts
        (subst IsResolved (sym (open-alerts org other event k basis db)) h)

  claim-IsResolved :
      (org : ℕ) (delivery : Delivery) (db after : Database)
      → IsResolved db.alerts
      → claim_delivery org delivery db ≡ claimed after
      → IsResolved after.alerts
  unfolding claim_delivery
  claim-IsResolved org delivery db after h e =
      let same : db.alerts ≡ after.alerts =
        elim (Option-cases (find (same_delivery delivery) db.deliveries)) [
          | inl fresh ↦ ground arith
          | inr (row, found) ↦ absurd (ground arith)
        ] in
      subst IsResolved same h

  openings-alerts :
      (org : ℕ) (ids : List ℕ) (policy : Policy) (db after : Database)
      → open_alert_investigations org ids policy db ≡ inr after
      → db.alerts ≡ after.alerts
  unfolding open_alert_investigations
  openings-alerts org [] policy db after e = ground arith
  openings-alerts org (id ∷ ids) policy db after e = ground arith

-- A resolution is final: once an alert of a source is resolved, no delivery, whatever it brings
-- and in whatever order, changes its status or the time of its resolution.
pub resolution_final :
    (precedes : AlertEvent → AlertEvent → Bool) (org : ℕ) (delivery : Delivery) (policy : Policy)
    (db : Database) (integration : ℕ) (key : String) (started at : ℕ)
    → IsResolved integration key started at db.alerts
    → IsResolved integration key started at
        (record_delivery precedes org delivery policy db).0.alerts
unfolding record_delivery
resolution_final precedes org delivery policy db integration key started at h =
    let after = (record_delivery precedes org delivery policy db).0.alerts in
    let Holds : Database → Type 0 = λ d. IsResolved integration key started at d.alerts in
    elim (Claim-cases (claim_delivery org delivery db)) [
      | inr (inl twice) ↦
          let e : db.alerts ≡ after = ground arith in
          subst (IsResolved integration key started at) e h
      | inr (inr other) ↦
          let e : db.alerts ≡ after = ground arith in
          subst (IsResolved integration key started at) e h
      | inl (first, fresh) ↦
          let progress = worked precedes org delivery first in
          let held : Holds progress.tables =
            take_alerts-keeps Holds org delivery.integration
              (λ event d k.
                upsert-IsResolved integration key started at org delivery.integration event d k)
              (λ event id d k.
                group-IsResolved integration key started at org delivery.integration id event d k)
              (λ row d k.
                subst (IsResolved integration key started at) (sym (regroup-deliveries org row d).1)
                  k)
              (in_order precedes delivery.alert_events)
              (record { tables = first; joined = 0; opened = [] })
              (claim-IsResolved integration key started at org delivery db first h fresh) in
          elim (choice-cases
            (open_alert_investigations org progress.opened policy progress.tables)) [
              | inl (because, not_done) ↦
                  let e : db.alerts ≡ after = ground arith in
                  subst (IsResolved integration key started at) e h
              | inr (final, done) ↦
                  let e : progress.tables.alerts ≡ after =
                    openings-alerts integration key started at org progress.opened policy
                      progress.tables final done
                    ∙ ground arith in
                  subst (IsResolved integration key started at) e held
            ]
    ]
