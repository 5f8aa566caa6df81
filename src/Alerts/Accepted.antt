-- ===== src/Alerts/Accepted.antt =====
-- What internal/store/postgres/alert_event.go makes of a delivery: when it is accepted, and what
-- becomes of one that comes again.
use Prim.Native.String.{String}
use text.Mathlib.Text.{◌==◌ as str_eq}
use text.Mathlib.TextEquality.{eq_iff}
use oc_control_plane.Prelude.{
  ℕ, ◌≡◌, refl, ap, ◌∙◌, subst, ◌⊎◌, inl, inr, Bool, true, false, none, some, List, [], ◌∷◌, ◌++◌,
  arith, Bool-cases, Option-cases, length, find,
}
use oc_control_plane.Alerts.Tables.{
  is_firing, AlertEvent, Delivery, AlertRow, DeliveryRow, StoredInvestigation, Database,
}
use oc_control_plane.Alerts.Grouping.{
  same_alert, Upserted, unchanged, inserted, updated, upsert_alert_event, open_incident, open_under,
  grouping_of, refresh_incident, group_alert_event, regroup_updated_alert_event,
}
use oc_control_plane.Alerts.Deliveries.{
  same_delivery, identity_of, Claim, claimed, duplicate, identity_conflict, claim_delivery, Policy,
  Progress, in_order, note, take_alert, take_alerts, already_accepted, recorded,
  open_alert_investigations, record_delivery,
}

-- What an alert does to the tables keeps the accepted deliveries.
group-deliveries :
    (org integration id : ℕ) (event : AlertEvent) (db : Database)
    → (group_alert_event org integration event id db).0.deliveries ≡ db.deliveries
unfolding group_alert_event open_incident refresh_incident
group-deliveries org integration id event db =
    elim (Option-cases (find (open_under integration (grouping_of event).0) db.incidents)) [
      | inl fresh ↦ ground arith
      | inr (incident, found) ↦ ground arith
    ]

upsert-deliveries :
    (org integration : ℕ) (event : AlertEvent) (db : Database)
    → (upsert_alert_event org integration event db).0.deliveries ≡ db.deliveries
unfolding upsert_alert_event
upsert-deliveries org integration event db =
    elim (Option-cases
      (find (same_alert integration event.source_key event.started_at) db.alerts)) [
        | inl fresh ↦ ground arith
        | inr (row, found) ↦ ground arith
      ]

Upserted-cases :
    (u : Upserted)
    → (u ≡ unchanged) ⊎ ((id : ℕ) × (u ≡ inserted id)) ⊎ ((row : AlertRow) × (u ≡ updated row))
Upserted-cases unchanged = inl refl
Upserted-cases (inserted id) = inr (inl (id, refl))
Upserted-cases (updated row) = inr (inr (row, refl))

pub regroup-deliveries :
    (org : ℕ) (row : AlertRow) (db : Database)
    → ((regroup_updated_alert_event org row db).deliveries ≡ db.deliveries)
      × ((regroup_updated_alert_event org row db).alerts ≡ db.alerts)
unfolding regroup_updated_alert_event refresh_incident
regroup-deliveries org row db = elim (Option-cases row.incident_id) [
  | inl alone ↦ ground arith
  | inr (incident, grouped) ↦ ground arith
]

note-tables :
    (progress : Progress) (db : Database) (incident : ℕ) (opened : Bool)
    → (note progress db incident opened).tables ≡ db
note-tables progress db incident true = refl
note-tables progress db incident false = refl

module _ (P : Database → Type 0) (org integration : ℕ)
    (upserts : (event : AlertEvent) (db : Database)
      → P db
      → P (upsert_alert_event org integration event db).0)
    (groups : (event : AlertEvent) (id : ℕ) (db : Database)
      → P db
      → P (group_alert_event org integration event id db).0)
    (regroups : (row : AlertRow) (db : Database)
      → P db
      → P (regroup_updated_alert_event org row db)) where
  -- What every statement on an alert keeps, the alerts of a delivery keep.
  take_alert-keeps :
      (event : AlertEvent) (progress : Progress)
      → P progress.tables
      → P (take_alert org integration event progress).tables
  unfolding take_alert
  take_alert-keeps event progress h =
      let (db, upserted) = upsert_alert_event org integration event progress.tables in
      let held : P db = upserts event progress.tables h in
      let after = (take_alert org integration event progress).tables in
      elim (Upserted-cases upserted) [
        | inl same ↦ let e : db ≡ after = ground arith in subst P e held
        | inr (inl (id, fresh)) ↦
            let grouped = group_alert_event org integration event id db in
            elim (Bool-cases (is_firing event.status)) [
              | inl burning ↦
                  let e : grouped.0 ≡ after =
                    ground (arith, note-tables progress grouped.0 grouped.1.0 grouped.1.1) in
                  subst P e (groups event id db held)
              | inr over ↦ let e : db ≡ after = ground arith in subst P e held
            ]
        | inr (inr (row, again)) ↦
            let e : regroup_updated_alert_event org row db ≡ after = ground arith in
            subst P e (regroups row db held)
      ]

  pub take_alerts-keeps :
      (events : List AlertEvent) (progress : Progress)
      → P progress.tables
      → P (take_alerts org integration events progress).tables
  unfolding take_alerts
  take_alerts-keeps [] progress h = h
  take_alerts-keeps (event ∷ events) progress h =
      take_alerts-keeps events (take_alert org integration event progress)
        (take_alert-keeps event progress h)

-- The accepted deliveries, over the alerts of another one.
take_alerts-deliveries :
    (org integration : ℕ) (events : List AlertEvent) (progress : Progress)
    → (take_alerts org integration events progress).tables.deliveries ≡ progress.tables.deliveries
take_alerts-deliveries org integration events progress =
    take_alerts-keeps (λ db. db.deliveries ≡ progress.tables.deliveries) org integration
      (λ event db h. upsert-deliveries org integration event db ∙ h)
      (λ event id db h. group-deliveries org integration id event db ∙ h)
      (λ row db h. (regroup-deliveries org row db).0 ∙ h) events progress refl

open-deliveries :
    (org : ℕ) (ids : List ℕ) (policy : Policy) (db after : Database)
    → open_alert_investigations org ids policy db ≡ inr after
    → after.deliveries ≡ db.deliveries
unfolding open_alert_investigations
open-deliveries org [] policy db after e = ground arith
open-deliveries org (id ∷ ids) policy db after e = ground arith

abbrev accepted_row : ℕ → Delivery → DeliveryRow
accepted_row org delivery = record {
  org_id = org;
  integration_id = delivery.integration;
  provider_identity = identity_of delivery;
  lifecycle_phase = delivery.lifecycle_phase;
  content_digest = delivery.content_digest;
}

find-append_last :
    (p : DeliveryRow → Bool) (t : List DeliveryRow) (row : DeliveryRow)
    → find p t ≡ none
    → p row ≡ true
    → find p (t ++ row ∷ []) ≡ some row
find-append_last p [] row h q = ground arith
find-append_last p (x ∷ t) row h q = ground (arith, find-append_last p t row)

same_text : (s : String) → str_eq s s ≡ true
same_text s = (eq_iff s s).1 refl

same_delivery-accepted_row :
    (org : ℕ) (delivery : Delivery) → same_delivery delivery (accepted_row org delivery) ≡ true
same_delivery-accepted_row org delivery =
    rw (same_text (identity_of delivery), same_text delivery.lifecycle_phase) (ground arith)

claim-claimed :
    (org : ℕ) (delivery : Delivery) (db after : Database)
    → claim_delivery org delivery db ≡ claimed after
    → (find (same_delivery delivery) db.deliveries ≡ none)
      × (after.deliveries ≡ db.deliveries ++ accepted_row org delivery ∷ [])
unfolding claim_delivery
claim-claimed org delivery db after e =
    elim (Option-cases (find (same_delivery delivery) db.deliveries)) [
      | inl fresh ↦ (fresh, ground arith)
      | inr (row, found) ↦ absurd (ground arith)
    ]

pub Claim-cases :
    (c : Claim) → ((db : Database) × (c ≡ claimed db)) ⊎ (c ≡ duplicate) ⊎ (c ≡ identity_conflict)
Claim-cases (claimed db) = inl (db, refl)
Claim-cases duplicate = inr (inl refl)
Claim-cases identity_conflict = inr (inr refl)

pub choice-cases {ℓ κ} :
    {A : Type ℓ} {B : Type κ} (s : A ⊎ B) → ((a : A) × (s ≡ inl a)) ⊎ ((b : B) × (s ≡ inr b))
choice-cases (inl a) = inl (a, refl)
choice-cases (inr b) = inr (b, refl)

-- The alerts of a delivery in order, on the tables after its claim.
abbrev pub worked : (AlertEvent → AlertEvent → Bool) → ℕ → Delivery → Database → Progress
worked precedes org delivery db =
    take_alerts org delivery.integration (in_order precedes delivery.alert_events)
      (record { tables = db; joined = 0; opened = [] })

pub record_delivery-recorded :
    (precedes : AlertEvent → AlertEvent → Bool) (org : ℕ) (delivery : Delivery) (policy : Policy)
    (db after : Database) (alerts opened joined : ℕ)
    → record_delivery precedes org delivery policy db ≡ (after, recorded alerts opened joined)
    → (first : Database) × (claim_delivery org delivery db ≡ claimed first)
      × (open_alert_investigations org
            (worked precedes org delivery first).opened
            policy
            (worked precedes org delivery first).tables
          ≡ inr after)
      × (length (worked precedes org delivery first).opened ≡ opened)
unfolding record_delivery
record_delivery-recorded precedes org delivery policy db after alerts opened joined e =
    elim (Claim-cases (claim_delivery org delivery db)) [
      | inr (inl twice) ↦ absurd (ground arith)
      | inr (inr other) ↦ absurd (ground arith)
      | inl (first, fresh) ↦
          let progress = worked precedes org delivery first in
          elim (choice-cases
            (open_alert_investigations org progress.opened policy progress.tables)) [
              | inl (because, not_done) ↦ absurd (ground arith)
              | inr (final, done) ↦ (first, fresh, ground arith, ground arith)
            ]
    ]

-- A webhook that is delivered again is told so and changes nothing: once a delivery is recorded,
-- the same delivery, under any policy and whatever investigations there are by then, is a duplicate.
pub redelivery_changes_nothing :
    (precedes : AlertEvent → AlertEvent → Bool) (org : ℕ) (delivery : Delivery)
    (policy other : Policy) (db after : Database) (by_then : List StoredInvestigation)
    (alerts opened joined : ℕ)
    → record_delivery precedes org delivery policy db ≡ (after, recorded alerts opened joined)
    → record_delivery precedes org delivery other (record after { investigations = by_then })
      ≡ (record after { investigations = by_then }, already_accepted)
unfolding record_delivery claim_delivery
redelivery_changes_nothing precedes org delivery policy other db after by_then alerts opened joined
      e =
    let (first, fresh, done, count) =
      record_delivery-recorded precedes org delivery policy db after alerts opened joined e in
    let (unseen, row) = claim-claimed org delivery db first fresh in
    let progress = worked precedes org delivery first in
    let kept : after.deliveries ≡ db.deliveries ++ accepted_row org delivery ∷ [] =
      open-deliveries org progress.opened policy progress.tables after done
      ∙ take_alerts-deliveries org delivery.integration (in_order precedes delivery.alert_events)
          (record { tables = first; joined = 0; opened = [] })
      ∙ row in
    let found : find (same_delivery delivery) after.deliveries ≡ some (accepted_row org delivery) =
      ap (find (same_delivery delivery)) kept
      ∙ find-append_last (same_delivery delivery) db.deliveries (accepted_row org delivery) unseen
          (same_delivery-accepted_row org delivery) in
    let claim : claim_delivery org delivery (record after { investigations = by_then })
        ≡ duplicate =
      ground (arith, same_text delivery.content_digest) in
    rw (claim, record_delivery) refl
