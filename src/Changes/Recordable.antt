-- ===== src/Changes/Recordable.antt =====
-- What the reduction of internal/relay/inventory.go lets through.
use Prim.Native.String.{String, len}
use text.Mathlib.Text.{◌==◌ as str_eq}
use oc_control_plane.Prelude.{
  ℕ, ◌+◌, Bool, false, not, ◌&&◌, ◌≤◌, ◌≡◌, subst, refl, inl, inr, true, some, List, [], ◌∷◌, arith,
  Bool-cases, Option-cases, length, All,
}
use oc_control_plane.Changes.Values.{FieldChange, Change, ChangeKind}
use oc_control_plane.Changes.Inventory.{
  InventoryObjectChange, InventoryDelta, object_kind_of, change_kind_of, is_deleted, field_fits,
  stored_kind, deletion_has_no_revision, reduce_fields, bounds_fit, differ, reduce_change,
  reduce_changes, reduce_delta,
}

-- A change that the reduction keeps: within the bounds on its texts and fields, and without a
-- revision exactly where it is a deletion. The table takes it, with the kind that it is stored with,
-- unless it is a deletion of a baseline delta.
pub record IsReduced (from_baseline : Bool) (c : Change) : Type 0 where
  pub namespace : (1 ≤ len c.namespace) × (len c.namespace ≤ 63)
  pub name : (1 ≤ len c.name) × (len c.name ≤ 253)
  pub uid : (1 ≤ len c.uid) × (len c.uid ≤ 128)
  pub revision : len c.observed_revision ≤ 128
  pub deletion : str_eq c.observed_revision "" ≡ is_deleted c.change
  pub taken :
      deletion_has_no_revision (stored_kind from_baseline c.change) c.observed_revision
      ≡ not (from_baseline && is_deleted c.change)
  pub fields : All (λ f. field_fits f ≡ true) c.fields

taken_unless_baseline :
    (from_baseline : Bool) (kind : ChangeKind) (revision : String)
    → str_eq revision "" ≡ is_deleted kind
    → deletion_has_no_revision (stored_kind from_baseline kind) revision
      ≡ not (from_baseline && is_deleted kind)
taken_unless_baseline true kind revision h = ground arith
taken_unless_baseline false kind revision h = ground arith

injected {ℓ} : {A : Type ℓ} (a b : A) → some a ≡ some b → a ≡ b
injected a b e = cc

reduce_fields-fit :
    (fs fs' : List FieldChange) → reduce_fields fs ≡ some fs' → All (λ f. field_fits f ≡ true) fs'
unfolding reduce_fields
reduce_fields-fit [] [] h = tt
reduce_fields-fit [] (f ∷ fs) h = cc
reduce_fields-fit (f ∷ fs) fs' h = elim (Bool-cases (field_fits f)) [
  | inr miss ↦ cc (rw miss at h)
  | inl fits ↦ elim (Option-cases (reduce_fields fs)) [
    | inl none_left ↦ cc (rw (fits, none_left) at h)
    | inr (rest, e) ↦
        subst (All (λ g. field_fits g ≡ true)) (injected (f ∷ rest) fs' (rw (fits, e) at h))
          (fits, reduce_fields-fit fs rest e)
  ]
]

reduce_change-IsReduced :
    (from_baseline : Bool) (c : InventoryObjectChange) (c' : Change)
    → reduce_change c ≡ some c'
    → IsReduced from_baseline c'
unfolding reduce_change
reduce_change-IsReduced from_baseline c c' h = elim (Option-cases (object_kind_of c.kind)) [
  | inl no_kind ↦ cc (rw (no_kind, reduce_change) at h)
  | inr (kind, e₁) ↦ elim (Option-cases (change_kind_of c.change)) [
    | inl no_change ↦ cc (rw (e₁, no_change, reduce_change) at h)
    | inr (change, e₂) ↦ elim (Bool-cases (bounds_fit c)) [
      | inr outside ↦ cc (rw (e₁, e₂, outside, reduce_change) at h)
      | inl inside ↦
          elim (Bool-cases (differ (is_deleted change) (str_eq c.observed_revision ""))) [
            | inl differs ↦ cc (rw (e₁, e₂, inside, differs, reduce_change) at h)
            | inr agrees ↦ elim (Option-cases (reduce_fields c.fields)) [
              | inl no_fields ↦ cc (rw (e₁, e₂, inside, agrees, no_fields, reduce_change) at h)
              | inr (fields, e₃) ↦
                  let reduced : Change = record {
                    namespace = c.namespace;
                    kind = kind;
                    name = c.name;
                    uid = c.uid;
                    observed_revision = c.observed_revision;
                    change = change;
                    fields = fields;
                  } in
                  subst (IsReduced from_baseline)
                    (injected reduced c' (rw (e₁, e₂, inside, agrees, e₃, reduce_change) at h))
                    (record {
                      namespace = (ground arith, ground arith);
                      name = (ground arith, ground arith);
                      uid = (ground arith, ground arith);
                      revision = ground arith;
                      deletion = ground arith;
                      taken =
                          taken_unless_baseline from_baseline change c.observed_revision
                            (ground arith);
                      fields = reduce_fields-fit c.fields fields e₃;
                    })
            ]
          ]
    ]
  ]
]

reduce_changes-IsReduced :
    (from_baseline : Bool) (cs : List InventoryObjectChange)
    → All (IsReduced from_baseline) (reduce_changes cs).0
      × (length (reduce_changes cs).0 + (reduce_changes cs).1 ≡ length cs)
unfolding reduce_changes
reduce_changes-IsReduced from_baseline [] = (tt, refl)
reduce_changes-IsReduced from_baseline (c ∷ cs) =
    let rest = reduce_changes-IsReduced from_baseline cs in
    elim (Option-cases (reduce_change c)) [
      | inl refused ↦ rw (refused, reduce_changes) (rest.0, omega (arith, rest.1))
      | inr (c', kept) ↦
          rw (kept, reduce_changes)
            ((reduce_change-IsReduced from_baseline c c' kept, rest.0), omega (arith, rest.1))
    ]

-- Whatever the Relay sent, every change of a reduced delta is within the bounds that the reduction
-- checks and lacks a revision exactly where it is a deletion, so that the table's check on deletions
-- takes it with its stored kind unless it is a deletion of a baseline delta; and no change goes
-- missing: each one declared is either kept or counted as skipped.
pub reduce_delta-IsReduced :
    (delta : InventoryDelta) (integration : ℕ)
    → All (IsReduced delta.baseline) (reduce_delta delta integration).0.changes
      × (length (reduce_delta delta integration).0.changes + (reduce_delta delta integration).1
          ≡ length delta.changes)
unfolding reduce_delta
reduce_delta-IsReduced delta integration = reduce_changes-IsReduced delta.baseline delta.changes
