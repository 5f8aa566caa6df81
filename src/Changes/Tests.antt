-- ===== src/Changes/Tests.antt =====
-- The theorems on changes, at small concrete inputs.
use oc_control_plane.Prelude.{◌+◌, ◌≡◌, refl, true, map, false, [], ◌∷◌, length, All}
use oc_control_plane.Changes.Values.{
  Event, FieldChange, deployment, modified, rendered_field, summarize_from, summarize_fields,
  object_kind_name, summary,
}
use oc_control_plane.Changes.Inventory.{
  InventoryObjectChange, InventoryDelta, kind_deployment, change_modified, change_deleted,
  stored_kind, deletion_has_no_revision, reduce_delta, reduce_changes, reduce_change, reduce_fields,
  object_kind_of, change_kind_of,
}
use oc_control_plane.Changes.Recordable.{IsReduced, reduce_delta-IsReduced}

abbrev image : FieldChange
image = record { field = "image"; before = "a"; after = "b" }

abbrev event : Event
event = record { kind = deployment; name = "web"; change = modified; fields = image ∷ [] }

event-summary : summary event ≡ "deployment web: image a -> b"
unfolding summary summarize_fields summarize_from rendered_field object_kind_name
event-summary = refl

abbrev added : FieldChange
added = record { field = "cpu"; before = ""; after = "2" }

abbrev change : InventoryObjectChange
change = record {
  namespace = "default";
  kind = kind_deployment;
  name = "web";
  uid = "u";
  observed_revision = "5";
  change = change_modified;
  fields = image ∷ [];
}

-- The second change is a deletion that carries a revision, which is skipped.
abbrev delta : InventoryDelta
delta = record {
  policy_revision = 1;
  baseline = false;
  observed_at = 9;
  changes = change ∷ record change { change = change_deleted } ∷ [];
}

deletion_with_revision_skipped : (reduce_delta delta 3).1 ≡ 1
unfolding reduce_delta reduce_changes reduce_change reduce_fields object_kind_of change_kind_of
deletion_with_revision_skipped = refl

reduce_delta-IsReduced_example :
    All (IsReduced false) (reduce_delta delta 3).0.changes
    × (length (reduce_delta delta 3).0.changes + (reduce_delta delta 3).1 ≡ length delta.changes)
reduce_delta-IsReduced_example = reduce_delta-IsReduced delta 3

-- A deletion in a baseline delta is kept, and the table refuses it.
abbrev first_delta : InventoryDelta
first_delta = record delta {
  baseline = true;
  changes = record change { change = change_deleted; observed_revision = "" } ∷ [];
}

baseline_deletion_kept :
    map
      (λ c. deletion_has_no_revision (stored_kind true c.change) c.observed_revision)
      (reduce_delta first_delta 3).0.changes
    ≡ false ∷ []
unfolding reduce_delta reduce_changes reduce_change reduce_fields object_kind_of change_kind_of
baseline_deletion_kept = refl
