-- ===== src/Alerts/Queue.antt =====
-- The queue of investigations that internal/store/postgres/alert_event.go opens into.
use oc_control_plane.Prelude.{
  ℕ, ◌+◌, ◌≤◌, ◌≡◌, refl, sym, ◌⊎◌, inl, inr, Bool, true, false, ◌&&◌, List, [], ◌∷◌, ◌++◌, arith,
  ◌==◌, map, keep, count, any, contains, length, count-||-le, count_of_any, count_none, subst,
  Bool-cases,
}
use oc_control_plane.Alerts.Tables.{
  AlertEvent, Delivery, IncidentRow, StoredInvestigation, Database,
}
use oc_control_plane.Alerts.Deliveries.{
  Policy, recorded, automatic, is_waiting, can_wait, open_alert_investigations, record_delivery,
}
use oc_control_plane.Alerts.Accepted.{record_delivery-recorded, worked}

-- The primary key of the table incident: no two rows have one incident_id.
abbrev pub IsKeyed : List IncidentRow → Type 0
IsKeyed [] = Unit {0}
IsKeyed (x ∷ rows) = (any (λ y. y.incident_id == x.incident_id) rows ≡ false) × IsKeyed rows

other_way :
    (id : ℕ) (rows : List IncidentRow)
    → any (λ y. y.incident_id == id) rows ≡ false
    → any (λ y. id == y.incident_id) rows ≡ false
other_way id [] h = refl
other_way id (x ∷ rows) h = ground (arith, other_way id rows)

count-one :
    (id : ℕ) (rows : List IncidentRow) → IsKeyed rows → count (λ r. id == r.incident_id) rows ≤ 1
count-one id [] keyed = omega arith
count-one id (x ∷ rows) keyed = elim (Bool-cases (id == x.incident_id)) [
  | inl hit ↦
      let same : x.incident_id ≡ id = ground arith in
      let absent : any (λ y. id == y.incident_id) rows ≡ false =
        other_way id rows (rw same at keyed.0) in
      let none_left = count_of_any (λ r. id == r.incident_id) rows absent in ground arith
  | inr miss ↦ ground (arith, count-one id rows keyed.1)
]

count-contains :
    (ids : List ℕ) (rows : List IncidentRow)
    → IsKeyed rows
    → count (λ r. contains ids r.incident_id) rows ≤ length ids
count-contains [] rows keyed = omega (arith, count_none rows)
count-contains (id ∷ ids) rows keyed = omega (
  arith,
  count-||-le (λ r. id == r.incident_id) (λ r. contains ids r.incident_id) rows,
  count-one id rows keyed,
  count-contains ids rows keyed,
)

length-keep-le :
    (org : ℕ) (ids : List ℕ) (rows : List IncidentRow)
    → length (keep (λ r. (r.org_id == org) && contains ids r.incident_id) rows)
      ≤ count (λ r. contains ids r.incident_id) rows
length-keep-le org ids [] = omega arith
length-keep-le org ids (x ∷ rows) = ground (arith, length-keep-le org ids rows)

count-automatic :
    (org lead : ℕ) (rows : List IncidentRow)
    → count (is_waiting org) (map (automatic org lead) rows) ≤ length rows
count-automatic org lead [] = omega arith
count-automatic org lead (x ∷ rows) = ground (arith, count-automatic org lead rows)

count-append-automatic :
    (org lead : ℕ) (before : List StoredInvestigation) (rows : List IncidentRow)
    → count (is_waiting org) (before ++ map (automatic org lead) rows)
      ≤ count (is_waiting org) before + length rows
count-append-automatic org lead [] rows = ground (arith, count-automatic org lead rows)
count-append-automatic org lead (x ∷ before) rows =
    ground (arith, count-append-automatic org lead before rows)

admitted :
    (org : ℕ) (ids : List ℕ) (policy : Policy) (db after : Database) (opened : ℕ)
    → policy.agent_available ≡ true
    → 1 ≤ policy.maximum_pending
    → IsKeyed after.incidents
    → open_alert_investigations org ids policy db ≡ inr after
    → length ids ≡ opened
    → (opened ≡ 0) ⊎ (count (is_waiting org) after.investigations ≤ policy.maximum_pending)
unfolding open_alert_investigations can_wait
admitted org [] policy db after opened there limited keyed e lengths = inl (sym lengths)
admitted org (id ∷ ids) policy db after opened there limited keyed e lengths =
    let chosen = keep (λ r. (r.org_id == org) && contains (id ∷ ids) r.incident_id) db.incidents in
    let same : db.incidents ≡ after.incidents = ground arith in
    let grown : after.investigations
        ≡ db.investigations ++ map (automatic org policy.window_lead) chosen =
      ground arith in
    let room : count (is_waiting org) db.investigations + length (id ∷ ids)
        ≤ policy.maximum_pending =
      ground arith in
    let few = count-contains (id ∷ ids) db.incidents (subst IsKeyed (sym same) keyed) in
    let fewer = length-keep-le org (id ∷ ids) db.incidents in
    let more = count-append-automatic org policy.window_lead db.investigations chosen in
    inr (rw grown (omega arith))

-- Automatic investigations respect the queue. Where an agent is there and a policy limits what
-- waits, a delivery that is recorded has opened no incident, or the running investigations of the
-- organization that no worker leases are no more than the limit afterwards, the ones it opened
-- included, as long as the table of incidents keeps its primary key.
pub admissions_bounded :
    (precedes : AlertEvent → AlertEvent → Bool) (org : ℕ) (delivery : Delivery) (policy : Policy)
    (db after : Database) (alerts opened joined : ℕ)
    → policy.agent_available ≡ true
    → 1 ≤ policy.maximum_pending
    → IsKeyed after.incidents
    → record_delivery precedes org delivery policy db ≡ (after, recorded alerts opened joined)
    → (opened ≡ 0) ⊎ (count (is_waiting org) after.investigations ≤ policy.maximum_pending)
admissions_bounded precedes org delivery policy db after alerts opened joined there limited keyed
      e =
    let (first, fresh, done, lengths) =
      record_delivery-recorded precedes org delivery policy db after alerts opened joined e in
    admitted org (worked precedes org delivery first).opened policy
      (worked precedes org delivery first).tables after opened there limited keyed done lengths
