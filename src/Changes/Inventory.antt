-- ===== src/Changes/Inventory.antt =====
-- internal/relay/inventory.go: reduceDelta, which takes what a Relay observed to what this build
-- records. uuid.Parse happens before it; a length is Go's, in bytes.
use Prim.Native.String.{String, len}
use text.Mathlib.Text.{◌==◌ as str_eq}
use oc_control_plane.Prelude.{
  ℕ, suc, Bool, true, false, not, ◌&&◌, Option, none, some, List, [], ◌∷◌, leb, if◌then◌else◌,
}
use oc_control_plane.Changes.Values.{
  ObjectKind, deployment, stateful_set, daemon_set, config_map, secret, ChangeKind, created,
  modified, deleted, FieldChange, Change, Delta,
}

-- The enums of the protocol, with the values that this build does not know as one.
pub data InventoryObjectKind : Type 0 where
  kind_deployment kind_statefulset kind_daemonset kind_configmap kind_secret kind_other :
      InventoryObjectKind

pub data InventoryChangeKind : Type 0 where
  change_created change_modified change_deleted change_other : InventoryChangeKind

pub record InventoryObjectChange : Type 0 where
  pub namespace : String
  pub kind : InventoryObjectKind
  pub name : String
  pub uid : String
  pub observed_revision : String
  pub change : InventoryChangeKind
  pub fields : List FieldChange

pub record InventoryDelta : Type 0 where
  pub policy_revision : ℕ
  pub baseline : Bool
  pub observed_at : ℕ
  pub changes : List InventoryObjectChange

unfoldable pub object_kind_of : InventoryObjectKind → Option ObjectKind
object_kind_of kind_deployment = some deployment
object_kind_of kind_statefulset = some stateful_set
object_kind_of kind_daemonset = some daemon_set
object_kind_of kind_configmap = some config_map
object_kind_of kind_secret = some secret
object_kind_of kind_other = none

unfoldable pub change_kind_of : InventoryChangeKind → Option ChangeKind
change_kind_of change_created = some created
change_kind_of change_modified = some modified
change_kind_of change_deleted = some deleted
change_kind_of change_other = none

abbrev pub within : String → ℕ → ℕ → Bool
within value least greatest = leb least (len value) && leb (len value) greatest

abbrev pub is_deleted : ChangeKind → Bool
is_deleted deleted = true
is_deleted _ = false

-- The three checks on a field.
abbrev pub field_fits : FieldChange → Bool
field_fits f = within f.field 1 253 && within f.before 0 512 && within f.after 0 512

-- The loop over the fields: all of them, or none where one does not fit.
unfoldable pub reduce_fields : List FieldChange → Option (List FieldChange)
reduce_fields [] = some []
reduce_fields (f ∷ fs) =
    let rest = reduce_fields fs in
    if field_fits f then elim rest [ none ↦ none | some fs' ↦ some (f ∷ fs') ] else none

abbrev pub bounds_fit : InventoryObjectChange → Bool
bounds_fit c =
    within c.namespace 1 63
    && within c.name 1 253
    && within c.uid 1 128
    && within c.observed_revision 0 128

-- `a != b` on Booleans.
abbrev pub differ : Bool → Bool → Bool
differ true b = not b
differ false b = b

-- reduceChange.
unfoldable pub reduce_change : InventoryObjectChange → Option Change
unfolding object_kind_of change_kind_of reduce_fields
reduce_change c = elim (object_kind_of c.kind) [
  | none ↦ none
  | some kind ↦ elim (change_kind_of c.change) [
    | none ↦ none
    | some change ↦
        if not (bounds_fit c)
        then none
        else if differ (is_deleted change) (str_eq c.observed_revision "")
        then none
        else elim (reduce_fields c.fields) [
          | none ↦ none
          | some fields ↦ some (record {
            namespace = c.namespace;
            kind = kind;
            name = c.name;
            uid = c.uid;
            observed_revision = c.observed_revision;
            change = change;
            fields = fields;
          })
        ]
  ]
]

-- The loop of reduceDelta: the changes that are kept, and how many are skipped.
unfoldable pub reduce_changes : List InventoryObjectChange → List Change × ℕ
unfolding reduce_change
reduce_changes [] = ([], 0)
reduce_changes (c ∷ cs) =
    let (kept, skipped) = reduce_changes cs in
    elim (reduce_change c) [ none ↦ (kept, suc skipped) | some domain ↦ (domain ∷ kept, skipped) ]

-- reduceDelta.
unfoldable pub reduce_delta : InventoryDelta → ℕ → Delta × ℕ
unfolding reduce_changes
reduce_delta delta integration =
    let (kept, skipped) = reduce_changes delta.changes in
    (
      record {
        integration_id = integration;
        policy_revision = delta.policy_revision;
        baseline = delta.baseline;
        observed_at = delta.observed_at;
        changes = kept;
      },
      skipped,
    )

-- RecordInventoryDelta of internal/store/postgres/changes.go: the kind that a change is stored with.
abbrev pub stored_kind : Bool → ChangeKind → ChangeKind
stored_kind true kind = ChangeKind.baseline
stored_kind false kind = kind

-- The check change_event_deletion_has_no_revision on a row of that kind and revision.
abbrev pub deletion_has_no_revision : ChangeKind → String → Bool
deletion_has_no_revision kind revision = not (differ (is_deleted kind) (str_eq revision ""))
