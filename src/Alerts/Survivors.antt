-- ===== src/Alerts/Survivors.antt =====
-- internal/store/postgres/incident.go: merges never lose an incident. Whoever follows
-- superseded_by arrives at an incident that stands for itself.
use oc_control_plane.Prelude.{
  ℕ, zero, suc, ◌+◌, ◌≡◌, refl, ap, sym, ◌∙◌, ◌⊎◌, inl, inr, true, false, Option, none, some, List,
  [], ◌∷◌, arith, ◌==◌, ==_iff, if◌then◌else◌, Bool-cases, Option-cases, find, length, All,
  IsIn-All, find-some-IsIn,
}
use oc_control_plane.Alerts.Tables.{IncidentRow, Database}
use oc_control_plane.Alerts.Grouping.{is_incident}
use oc_control_plane.Alerts.Merging.{
  Merge, is_valid, merge_error, superseded, supersede, merge_incidents,
}

-- The incident at the end of the supersessions from `id` on, within `fuel` incidents.
unfoldable pub survivor : ℕ → List IncidentRow → ℕ → ℕ → Option ℕ
survivor org incidents zero id = none
survivor org incidents (suc fuel) id = elim (find (is_incident org id) incidents) [
  | none ↦ none
  | some incident ↦ elim incident.superseded_by [
    | none ↦ some id
    | some by ↦ survivor org incidents fuel by
  ]
]

-- Merges one after the other, those that are refused included.
unfoldable pub merge_all : ℕ → List Merge → Database → Database
merge_all org [] db = db
merge_all org (merge ∷ merges) db = merge_all org merges (merge_incidents org merge db).0

-- The incident is there and stands for itself.
abbrev Stands : ℕ → List IncidentRow → ℕ → Type 0
Stands org incidents id =
    (row : IncidentRow) × (find (is_incident org id) incidents ≡ some row)
    × (row.superseded_by ≡ none)

find-supersede :
    (org : ℕ) (merge : Merge) (incidents : List IncidentRow) (id : ℕ) (row : IncidentRow)
    → find (is_incident org id) incidents ≡ some row
    → find (is_incident org id) (supersede org merge incidents)
      ≡ some (if id == merge.absorbed then superseded merge.into merge.reason row else row)
unfolding supersede
find-supersede org merge [] id row h = cc
find-supersede org merge (first ∷ incidents) id row h =
    ground (arith, find-supersede org merge incidents id row)

twice :
    (org : ℕ) (incidents : List IncidentRow) (id absorbed by : ℕ) (row : IncidentRow)
    → Stands org incidents absorbed
    → find (is_incident org id) incidents ≡ some row
    → row.superseded_by ≡ some by
    → (id == absorbed) ≡ true
    → ⊥
twice org incidents id absorbed by row (other, there, alone) found on same =
    let e : id ≡ absorbed = (==_iff id absorbed).0 same in
    let r : row ≡ other = ground (arith, ap (λ i. find (is_incident org i) incidents) e) in
    ground (arith, ap (λ i. i.superseded_by) r)

survivor-root :
    (org : ℕ) (incidents : List IncidentRow) (fuel id : ℕ)
    → Stands org incidents id
    → survivor org incidents (suc fuel) id ≡ some id
unfolding survivor
survivor-root org incidents fuel id (row, found, root) = ground arith

survivor-on :
    (org : ℕ) (incidents : List IncidentRow) (fuel id by : ℕ) (row : IncidentRow)
    → find (is_incident org id) incidents ≡ some row
    → row.superseded_by ≡ some by
    → survivor org incidents (suc fuel) id ≡ survivor org incidents fuel by
unfolding survivor
survivor-on org incidents fuel id by row found on = ground arith

-- How a walk goes that arrives.
survivor-cases :
    (org : ℕ) (incidents : List IncidentRow) (fuel id root : ℕ)
    → survivor org incidents (suc fuel) id ≡ some root
    → (Stands org incidents id × (id ≡ root))
      ⊎ ((by : ℕ) × (row : IncidentRow) × (find (is_incident org id) incidents ≡ some row)
          × (row.superseded_by ≡ some by)
          × (survivor org incidents fuel by ≡ some root))
unfolding survivor
survivor-cases org incidents fuel id root h =
    elim (Option-cases (find (is_incident org id) incidents)) [
      | inl missing ↦ absurd (ground arith)
      | inr (row, found) ↦ elim (Option-cases row.superseded_by) [
        | inl alone ↦ inl ((row, found, alone), ground arith)
        | inr (by, on) ↦ inr (by, row, found, on, ground arith)
      ]
    ]

survivor-more :
    (org : ℕ) (incidents : List IncidentRow) (fuel id root : ℕ)
    → survivor org incidents fuel id ≡ some root
    → survivor org incidents (suc fuel) id ≡ some root
survivor-more org incidents zero id root h = absurd (unfold survivor in ground arith)
survivor-more org incidents (suc fuel) id root h =
    elim (survivor-cases org incidents fuel id root h) [
      | inl (stands, same) ↦ survivor-root org incidents (suc fuel) id stands ∙ ap some same
      | inr (by, row, found, on, rest) ↦
          survivor-on org incidents (suc fuel) id by row found on
          ∙ survivor-more org incidents fuel by root rest
    ]

Stands-supersede :
    (org : ℕ) (merge : Merge) (incidents : List IncidentRow) (id : ℕ)
    → Stands org incidents id
    → (id == merge.absorbed) ≡ false
    → Stands org (supersede org merge incidents) id
Stands-supersede org merge incidents id (row, found, alone) apart =
    (row, ground (arith, find-supersede org merge incidents id row), alone)

survivor-supersede :
    (org : ℕ) (merge : Merge) (incidents : List IncidentRow) (fuel id root : ℕ)
    → Stands org incidents merge.absorbed
    → Stands org incidents merge.into
    → (merge.into == merge.absorbed) ≡ false
    → survivor org incidents fuel id ≡ some root
    → (last : ℕ) × (survivor org (supersede org merge incidents) (suc fuel) id ≡ some last)
survivor-supersede org merge incidents zero id root a b apart h =
    absurd (unfold survivor in ground arith)
survivor-supersede org merge incidents (suc fuel) id root a b apart h =
    let after = supersede org merge incidents in
    let into = Stands-supersede org merge incidents merge.into b apart in
    elim (survivor-cases org incidents fuel id root h) [
      | inl (stands, same) ↦ elim (Bool-cases (id == merge.absorbed)) [
        | inr other ↦ (
          id,
          survivor-root org after (suc fuel) id
              (Stands-supersede org merge incidents id stands other),
        )
        | inl absorbed ↦
            let found : find (is_incident org id) after
                ≡ some (superseded merge.into merge.reason stands.0) =
              ground (arith, find-supersede org merge incidents id stands.0 stands.1) in
            (
              merge.into,
              survivor-on org after (suc fuel) id merge.into
                    (superseded merge.into merge.reason stands.0) found refl
                  ∙ survivor-root org after fuel merge.into into,
            )
      ]
      | inr (by, row, found, on, rest) ↦
          let (last, arrives) =
            survivor-supersede org merge incidents fuel by root a b apart rest in
          let moved = find-supersede org merge incidents id row found in
          elim (Bool-cases (id == merge.absorbed)) [
            | inl absorbed ↦
                absurd (twice org incidents id merge.absorbed by row a found on absorbed)
            | inr other ↦
                (last, survivor-on org after (suc fuel) id by row (ground arith) on ∙ arrives)
          ]
    ]

merge-supersedes :
    (org : ℕ) (merge : Merge) (db : Database)
    → ((merge_incidents org merge db).0 ≡ db)
      ⊎ (Stands org db.incidents merge.absorbed
          × Stands org db.incidents merge.into
          × ((merge.into == merge.absorbed) ≡ false)
          × ((merge_incidents org merge db).0.incidents ≡ supersede org merge db.incidents))
unfolding merge_incidents is_valid merge_error
merge-supersedes org merge db =
    elim (Option-cases (find (is_incident org merge.absorbed) db.incidents)) [
      | inl missing ↦ inl (ground arith)
      | inr (a, found_a) ↦ elim (Option-cases (find (is_incident org merge.into) db.incidents)) [
        | inl missing ↦ inl (ground arith)
        | inr (b, found_b) ↦ elim (Bool-cases (is_valid merge)) [
          | inr bad ↦ inl (ground arith)
          | inl good ↦ elim (Option-cases a.superseded_by) [
            | inr (by, on) ↦ inl (ground arith)
            | inl alone_a ↦ elim (Option-cases b.superseded_by) [
              | inr (by, on) ↦ inl (ground arith)
              | inl alone_b ↦
                  inr ((a, found_a, alone_a), (b, found_b, alone_b), ground arith, ground arith)
            ]
          ]
        ]
      ]
    ]

merge_all-survivor :
    (org : ℕ) (merges : List Merge) (db : Database) (fuel id root : ℕ)
    → survivor org db.incidents fuel id ≡ some root
    → (last : ℕ) × (survivor org (merge_all org merges db).incidents (length merges + fuel) id
        ≡ some last)
unfolding merge_all
merge_all-survivor org [] db fuel id root h =
    let e : fuel ≡ 0 + fuel = omega arith in
    (root, ap (λ n. survivor org db.incidents n id) (sym e) ∙ h)
merge_all-survivor org (merge ∷ merges) db fuel id root h =
    let after = (merge_incidents org merge db).0 in
    let e : length merges + suc fuel ≡ suc (length merges) + fuel = omega arith in
    let (next, arrives) : (next : ℕ) × (survivor org after.incidents (suc fuel) id ≡ some next) =
      elim (merge-supersedes org merge db) [
        | inl same ↦ (
          root,
          ap (λ d. survivor org d.incidents (suc fuel) id) same
              ∙ survivor-more org db.incidents fuel id root h,
        )
        | inr (a, b, apart, written) ↦
            let (next, there) =
              survivor-supersede org merge db.incidents fuel id root a b apart h in
            (next, ap (λ t. survivor org t (suc fuel) id) written ∙ there)
      ] in
    let (last, done) = merge_all-survivor org merges after (suc fuel) id next arrives in
    (last, ap (λ n. survivor org (merge_all org merges after).incidents n id) (sym e) ∙ done)

-- No merge loses an incident, and merges make no cycle: where every incident stands for itself,
-- after any sequence of merges, the refused ones included, whoever follows the supersessions from
-- an incident arrives at one that is there, after at most one step for each merge.
pub merged_incident_has_survivor :
    (org : ℕ) (merges : List Merge) (db : Database) (id : ℕ) (row : IncidentRow)
    → All (λ r. r.superseded_by ≡ none) db.incidents
    → find (is_incident org id) db.incidents ≡ some row
    → (root : ℕ) × (survivor org (merge_all org merges db).incidents (suc (length merges)) id
        ≡ some root)
merged_incident_has_survivor org merges db id row alone found =
    let stands : Stands org db.incidents id = (
      row,
      found,
      IsIn-All (λ r. r.superseded_by ≡ none) row db.incidents alone
          (find-some-IsIn (is_incident org id) db.incidents row found).0,
    ) in
    let (last, done) =
      merge_all-survivor org merges db 1 id id (survivor-root org db.incidents 0 id stands) in
    let e : suc (length merges) ≡ length merges + 1 = omega arith in
    (last, ap (λ n. survivor org (merge_all org merges db).incidents n id) e ∙ done)
