-- ===== src/Changes/Values.antt =====
-- internal/changes/changes.go: the values, and the summary of an event.
use Prim.Native.String.{String, ◌++◌}
use text.Mathlib.Text.{◌==◌ as str_eq}
use oc_control_plane.Prelude.{ℕ, suc, ◌≡◌, refl, Bool, not, List, [], ◌∷◌, ◌==◌, ltb, if◌then◌else◌}

-- The constants 1 to 5; another number is `unknown_kind`.
pub data ObjectKind : Type 0 where
  deployment stateful_set daemon_set config_map secret unknown_kind : ObjectKind

-- The constants 1 to 4; another number is `unknown_change`.
pub data ChangeKind : Type 0 where
  baseline created modified deleted unknown_change : ChangeKind

-- ObjectKind.String.
unfoldable pub object_kind_name : ObjectKind → String
object_kind_name deployment = "deployment"
object_kind_name stateful_set = "statefulset"
object_kind_name daemon_set = "daemonset"
object_kind_name config_map = "configmap"
object_kind_name secret = "secret"
object_kind_name unknown_kind = "unknown"

-- ChangeKind.String.
unfoldable pub change_kind_name : ChangeKind → String
change_kind_name baseline = "baseline"
change_kind_name created = "created"
change_kind_name modified = "modified"
change_kind_name deleted = "deleted"
change_kind_name unknown_change = "unknown"

pub record FieldChange : Type 0 where
  pub field : String
  pub before : String
  pub after : String

pub record Change : Type 0 where
  pub namespace : String
  pub kind : ObjectKind
  pub name : String
  pub uid : String
  pub observed_revision : String
  pub change : ChangeKind
  pub fields : List FieldChange

pub record Delta : Type 0 where
  pub integration_id : ℕ
  pub policy_revision : ℕ
  pub baseline : Bool
  pub observed_at : ℕ
  pub changes : List Change

-- The part of Event that its summary reads.
pub record Event : Type 0 where
  pub kind : ObjectKind
  pub name : String
  pub change : ChangeKind
  pub fields : List FieldChange

abbrev most : ℕ
most = 3

unfoldable pub rendered_field : FieldChange → String
rendered_field f =
    if str_eq f.before ""
    then f.field ++ " set to " ++ f.after
    else if str_eq f.after ""
    then f.field ++ " removed (was " ++ f.before ++ ")"
    else f.field ++ " " ++ f.before ++ " -> " ++ f.after

-- The loop of summarizeFields at the index i.
unfoldable pub summarize_from : ℕ → String → List FieldChange → String
unfolding rendered_field
summarize_from i rendered [] = rendered
summarize_from i rendered (f ∷ fs) =
    let rest =
      summarize_from (suc i) ((if ltb 0 i then rendered ++ ", " else rendered) ++ rendered_field f)
        fs in
    if i == most then rendered ++ ", and more" else rest

-- summarizeFields.
unfoldable pub summarize_fields : List FieldChange → String
unfolding summarize_from
summarize_fields fields = summarize_from 0 "" fields

-- Event.Summary.
unfoldable pub summary : Event → String
unfolding summarize_fields object_kind_name
summary e =
    let subject = object_kind_name e.kind ++ " " ++ e.name in
    let detail = summarize_fields e.fields in
    elim e.change [
      | created ↦ subject ++ " was created"
      | deleted ↦ subject ++ " was deleted"
      | modified ↦
          if not (str_eq detail "") then subject ++ ": " ++ detail else subject ++ " changed"
      | _ ↦ subject ++ " was first observed"
    ]

-- An event that says how more than three fields changed is summed up by its first three: the
-- others, at least one, only show as more.
pub summary_of_first_three :
    (e : Event) (a b c d d' : FieldChange) (more more' : List FieldChange)
    → summary (record e { fields = a ∷ b ∷ c ∷ d ∷ more })
      ≡ summary (record e { fields = a ∷ b ∷ c ∷ d' ∷ more' })
unfolding summary summarize_fields summarize_from
summary_of_first_three e a b c d d' more more' = refl
