-- ===== src/Capability/Bounds.antt =====
-- What arguments that pass Validate of internal/relay/capability/capability.go ask for.
use Prim.Native.String.{String, len}
use text.Mathlib.TextEquality.{eq_iff}
use text.Mathlib.Text.{◌==◌ as str_eq}
use oc_control_plane.Prelude.{
  ℕ, ◌⊎◌, sym, subst, leb, ◌&&◌, ◌||◌, ◌+◌, ◌≤◌, ◌<◌, ◌≡◌, refl, inl, inr, Bool, true, Option, none,
  some, List, arith, ◌==◌, Bool-cases, Option-cases,
}
use oc_control_plane.Capability.Names.{valid_namespace, valid_object_name, match_kind, match_uid}
use oc_control_plane.Capability.Arguments.{
  Arguments, InvolvedObject, validate_narrowing, WorkloadRuntime, NamespaceEvents, ContainerLogs,
  workload_runtime, namespace_events, container_logs, no_arguments, valid,
  validate_workload_runtime, validate_namespace_events, validate_container_logs, validate_window,
  validator, known, validate, verdict_of,
}

-- The capability that arguments of a kind are for.
unfoldable pub capability_of : Arguments → String
capability_of (workload_runtime args) = "kubernetes.workload.runtime"
capability_of (namespace_events args) = "kubernetes.namespace.events"
capability_of (container_logs args) = "kubernetes.container.logs"
capability_of no_arguments = ""

-- The object that events are narrowed to: each of its texts is empty, or short and well formed.
abbrev pub IsNarrow : Option InvolvedObject → Type 0
IsNarrow none = Unit {0}
IsNarrow (some o) =
    ((str_eq o.kind "" ≡ true) ⊎ ((len o.kind ≤ 63) × (match_kind o.kind ≡ true)))
    × ((str_eq o.name "" ≡ true) ⊎ (valid_object_name o.name ≡ true))
    × ((str_eq o.uid "" ≡ true) ⊎ ((len o.uid ≤ 253) × (match_uid o.uid ≡ true)))

-- The bounds on what each kind of read returns, in named objects only.
pub data IsBounded : Arguments → Type 0 where
  bounded_pods :
      (args : WorkloadRuntime)
      → args.kind_specified ≡ true
      → valid_namespace args.namespace ≡ true
      → valid_object_name args.workload_name ≡ true
      → args.max_pods ≤ 50
      → IsBounded (workload_runtime args)
  bounded_events :
      (args : NamespaceEvents) (start end : ℕ)
      → valid_namespace args.namespace ≡ true
      → args.window_start ≡ some start
      → args.window_end ≡ some end
      → start < end
      → end ≤ start + 604800000000000
      → args.max_events ≤ 200
      → IsNarrow args.involved
      → IsBounded (namespace_events args)
  bounded_logs :
      (args : ContainerLogs)
      → valid_namespace args.namespace ≡ true
      → valid_object_name args.pod_name ≡ true
      → valid_namespace args.container_name ≡ true
      → args.max_lines ≤ 2000
      → args.max_bytes ≤ 262144
      → IsBounded (container_logs args)

-- Bounded arguments of the kind that the capability takes.
abbrev pub IsAskedOf : String → Arguments → Type 0
IsAskedOf id a = (capability_of a ≡ id) × IsBounded a

narrowing-IsNarrow :
    (involved : Option InvolvedObject) → validate_narrowing involved ≡ true → IsNarrow involved
unfolding validate_narrowing
narrowing-IsNarrow none h = tt
narrowing-IsNarrow (some o) h =
    let (kind, name, uid) : ((str_eq o.kind "" || (leb (len o.kind) 63 && match_kind o.kind))
          ≡ true)
        × ((str_eq o.name "" || valid_object_name o.name) ≡ true)
        × ((str_eq o.uid "" || (leb (len o.uid) 253 && match_uid o.uid)) ≡ true) =
      ground arith in
    (
      elim (Bool-cases (str_eq o.kind "")) [
        | inl blank ↦ inl blank
        | inr given ↦ inr (ground arith, ground arith)
      ],
      elim (Bool-cases (str_eq o.name "")) [
        | inl blank ↦ inl blank
        | inr given ↦ inr (ground arith)
      ],
      elim (Bool-cases (str_eq o.uid "")) [
        | inl blank ↦ inl blank
        | inr given ↦ inr (ground arith, ground arith)
      ],
    )

runtime-IsBounded :
    (a : Arguments) → validate_workload_runtime a ≡ true → IsAskedOf "kubernetes.workload.runtime" a
unfolding validate_workload_runtime capability_of
runtime-IsBounded (workload_runtime args) h =
    (refl, bounded_pods args (ground arith) (ground arith) (ground arith) (ground arith))
runtime-IsBounded (namespace_events args) h = cc
runtime-IsBounded (container_logs args) h = cc
runtime-IsBounded no_arguments h = cc

logs-IsBounded :
    (a : Arguments) → validate_container_logs a ≡ true → IsAskedOf "kubernetes.container.logs" a
unfolding validate_container_logs capability_of
logs-IsBounded (container_logs args) h = (
  refl,
  bounded_logs args (ground arith) (ground arith) (ground arith) (ground arith) (ground arith),
)
logs-IsBounded (namespace_events args) h = cc
logs-IsBounded (workload_runtime args) h = cc
logs-IsBounded no_arguments h = cc

window_bounded :
    (first last : Option ℕ)
    → validate_window first last ≡ true
    → (start : ℕ) × (end : ℕ) × (first ≡ some start)
      × (last ≡ some end)
      × (start < end)
      × (end ≤ start + 604800000000000)
unfolding validate_window
window_bounded (some start) (some end) h = (start, end, refl, refl, ground arith, ground arith)
window_bounded (some start) none h = cc
window_bounded none last h = cc

events-IsBounded :
    (a : Arguments) → validate_namespace_events a ≡ true → IsAskedOf "kubernetes.namespace.events" a
unfolding validate_namespace_events capability_of
events-IsBounded (namespace_events args) h =
    let (start, end, first, last, ordered, narrow) =
      window_bounded args.window_start args.window_end (ground arith) in
    (
      refl,
      bounded_events args start end (ground arith) first last ordered narrow (ground arith)
          (narrowing-IsNarrow args.involved (ground arith)),
    )
events-IsBounded (container_logs args) h = cc
events-IsBounded (workload_runtime args) h = cc
events-IsBounded no_arguments h = cc

passes_of : (v w : Arguments → Bool) (a : Arguments) → some w ≡ some v → v a ≡ true → w a ≡ true
passes_of v w a e passes = cc

validator-IsBounded :
    (id : String) (version : ℕ) (v : Arguments → Bool) (a : Arguments)
    → validator id version ≡ some v
    → v a ≡ true
    → IsAskedOf id a
unfolding validator
validator-IsBounded id version v a h passes = elim (Bool-cases (version == 1)) [
  | inr other ↦ cc (rw other at h)
  | inl first ↦ elim (Bool-cases (str_eq id "kubernetes.workload.runtime")) [
    | inl hit ↦
        subst (λ name. IsAskedOf name a) (sym ((eq_iff id _).0 hit))
          (runtime-IsBounded a
            (passes_of v validate_workload_runtime a (rw (first, hit) at h) passes))
    | inr miss ↦ elim (Bool-cases (str_eq id "kubernetes.namespace.events")) [
      | inl hit₂ ↦
          subst (λ name. IsAskedOf name a) (sym ((eq_iff id _).0 hit₂))
            (events-IsBounded a
              (passes_of v validate_namespace_events a (rw (first, miss, hit₂) at h) passes))
      | inr miss₂ ↦ elim (Bool-cases (str_eq id "kubernetes.container.logs")) [
        | inl hit₃ ↦
            subst (λ name. IsAskedOf name a) (sym ((eq_iff id _).0 hit₃))
              (logs-IsBounded a
                (passes_of v validate_container_logs a (rw (first, miss, miss₂, hit₃) at h) passes))
        | inr miss₃ ↦ cc (rw (first, miss, miss₂, miss₃) at h)
      ]
    ]
  ]
]

-- Arguments that pass are those of a capability that this build dispatches, decode to the kind of
-- arguments which that capability takes, name their objects, stay within the bounds on pods, events,
-- lines, bytes and the width of a window, and narrow events only to a well-formed object.
pub validated_arguments-IsBounded :
    (decode : List ℕ → Option Arguments) (id : String) (version : ℕ) (arguments : List ℕ)
    → validate decode id version arguments ≡ valid
    → (known id version ≡ true) × ((a : Arguments) × (decode arguments ≡ some a) × IsAskedOf id a)
unfolding validate known
validated_arguments-IsBounded decode id version arguments h =
    elim (Option-cases (validator id version)) [
      | inl none_registered ↦ cc (rw (none_registered, validate) at h)
      | inr (v, registered) ↦ elim (Option-cases (decode arguments)) [
        | inl garbled ↦ cc (rw (registered, garbled, validate) at h)
        | inr (a, decoded) ↦ (
          rw (registered, known) refl,
          (
            a,
            decoded,
            validator-IsBounded id version v a registered
                (accepted (v a) (rw (registered, decoded, validate) at h)),
          ),
        )
      ]
    ]
  where
    accepted : (b : Bool) → verdict_of b ≡ valid → b ≡ true
    accepted b e = ground arith
