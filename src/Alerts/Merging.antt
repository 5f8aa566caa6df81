-- ===== src/Alerts/Merging.antt =====
-- internal/incident/incident.go and internal/store/postgres/incident.go: Merge.Validate, mergeable
-- and MergeIncidents.
use Prim.Native.String.{String, len}
use text.Mathlib.Text.{◌==◌ as str_eq}
use oc_control_plane.Prelude.{
  ℕ, Bool, true, false, not, ◌||◌, Option, none, some, List, ltb, ◌==◌, if◌then◌else◌, map, find,
  is_some,
}
use oc_control_plane.Alerts.Tables.{IncidentRow, Database}
use oc_control_plane.Alerts.Grouping.{is_incident}

pub record Merge : Type 0 where
  pub absorbed : ℕ
  pub into : ℕ
  pub reason : String

pub data MergeError : Type 0 where
  invalid_merge unknown_incident already_merged merged_elsewhere : MergeError

-- Merge.Validate.
unfoldable pub is_valid : Merge → Bool
is_valid merge =
    if (merge.absorbed == 0) || (merge.into == 0)
    then false
    else if merge.absorbed == merge.into
    then false
    else if str_eq merge.reason ""
    then false
    else if ltb 1024 (len merge.reason)
    then false
    else true

-- mergeable.
unfoldable pub merge_error : IncidentRow → IncidentRow → Option MergeError
merge_error absorbed surviving =
    if is_some absorbed.superseded_by
    then some already_merged
    else if is_some surviving.superseded_by
    then some merged_elsewhere
    else none

abbrev pub superseded : ℕ → String → IncidentRow → IncidentRow
superseded by reason incident = record incident {
  superseded_by = some by;
  supersede_reason = reason;
}

unfoldable pub supersede : ℕ → Merge → List IncidentRow → List IncidentRow
supersede org merge incidents =
    map
      (λ incident.
        if is_incident org merge.absorbed incident
        then superseded merge.into merge.reason incident
        else incident)
      incidents

-- MergeIncidents: the tables after it, and why it is refused.
unfoldable pub merge_incidents : ℕ → Merge → Database → Database × Option MergeError
merge_incidents org merge db =
    if not (is_valid merge)
    then (db, some invalid_merge)
    else elim (find (is_incident org merge.absorbed) db.incidents) [
      | none ↦ (db, some unknown_incident)
      | some absorbed ↦ elim (find (is_incident org merge.into) db.incidents) [
        | none ↦ (db, some unknown_incident)
        | some surviving ↦ elim (merge_error absorbed surviving) [
          | some because ↦ (db, some because)
          | none ↦ (record db { incidents = supersede org merge db.incidents }, none)
        ]
      ]
    ]
