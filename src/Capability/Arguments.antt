-- ===== src/Capability/Arguments.antt =====
-- internal/relay/capability/capability.go: which capabilities are dispatched, and with which
-- arguments. proto.Unmarshal, which is not part of the repository's code, is the parameter `decode`;
-- an instant is a number of nanoseconds.
use Prim.Native.String.{String, len}
use text.Mathlib.Text.{◌==◌ as str_eq}
use oc_control_plane.Prelude.{
  ℕ, ◌+◌, Bool, true, false, not, ◌&&◌, ◌||◌, Option, none, some, List, leb, ltb, ◌==◌,
  if◌then◌else◌,
}
use oc_control_plane.Capability.Names.{valid_namespace, valid_object_name, match_kind, match_uid}

abbrev pub max_pods : ℕ
max_pods = 50

abbrev pub max_events : ℕ
max_events = 200

abbrev pub max_lines : ℕ
max_lines = 2000

abbrev pub max_bytes : ℕ
max_bytes = 262144

-- Seven days in nanoseconds.
abbrev pub max_event_window : ℕ
max_event_window = 604800000000000

pub record WorkloadRuntime : Type 0 where
  pub kind_specified : Bool
  pub namespace : String
  pub workload_name : String
  pub max_pods : ℕ

pub record InvolvedObject : Type 0 where
  pub kind : String
  pub name : String
  pub uid : String

pub record NamespaceEvents : Type 0 where
  pub namespace : String
  pub window_start : Option ℕ
  pub window_end : Option ℕ
  pub max_events : ℕ
  pub involved : Option InvolvedObject

pub record ContainerLogs : Type 0 where
  pub namespace : String
  pub pod_name : String
  pub container_name : String
  pub max_lines : ℕ
  pub max_bytes : ℕ

-- CapabilityArguments of the protocol.
pub data Arguments : Type 0 where
  workload_runtime : WorkloadRuntime → Arguments
  namespace_events : NamespaceEvents → Arguments
  container_logs : ContainerLogs → Arguments
  no_arguments : Arguments

-- nil, ErrInvalidArguments and ErrUnknownCapability.
pub data Validated : Type 0 where
  valid invalid_arguments unknown_capability : Validated

abbrev pub verdict_of : Bool → Validated
verdict_of true = valid
verdict_of false = invalid_arguments

unfoldable pub validate_workload_runtime : Arguments → Bool
validate_workload_runtime (workload_runtime args) =
    args.kind_specified
    && valid_namespace args.namespace
    && valid_object_name args.workload_name
    && leb args.max_pods max_pods
validate_workload_runtime _ = false

-- validateNarrowing.
unfoldable pub validate_narrowing : Option InvolvedObject → Bool
validate_narrowing none = true
validate_narrowing (some o) =
    (str_eq o.kind "" || (leb (len o.kind) 63 && match_kind o.kind))
    && (str_eq o.name "" || valid_object_name o.name)
    && (str_eq o.uid "" || (leb (len o.uid) 253 && match_uid o.uid))

-- The window is bounded at both ends, in order, and not too wide.
unfoldable pub validate_window : Option ℕ → Option ℕ → Bool
validate_window (some start) (some end) = ltb start end && leb end (start + max_event_window)
validate_window _ _ = false

unfoldable pub validate_namespace_events : Arguments → Bool
unfolding validate_narrowing validate_window
validate_namespace_events (namespace_events args) =
    valid_namespace args.namespace
    && validate_window args.window_start args.window_end
    && leb args.max_events max_events
    && validate_narrowing args.involved
validate_namespace_events _ = false

unfoldable pub validate_container_logs : Arguments → Bool
validate_container_logs (container_logs args) =
    valid_namespace args.namespace
    && valid_object_name args.pod_name
    && valid_namespace args.container_name
    && leb args.max_lines max_lines
    && leb args.max_bytes max_bytes
validate_container_logs _ = false

-- The map `validators`, by identifier and version.
unfoldable pub validator : String → ℕ → Option (Arguments → Bool)
validator id version =
    if not (version == 1)
    then none
    else if str_eq id "kubernetes.workload.runtime"
    then some validate_workload_runtime
    else if str_eq id "kubernetes.namespace.events"
    then some validate_namespace_events
    else if str_eq id "kubernetes.container.logs"
    then some validate_container_logs
    else none

-- Known.
unfoldable pub known : String → ℕ → Bool
unfolding validator
known id version = elim (validator id version) [ none ↦ false | some v ↦ true ]

-- Validate.
unfoldable pub validate : (List ℕ → Option Arguments) → String → ℕ → List ℕ → Validated
unfolding validator
validate decode id version arguments = elim (validator id version) [
  | none ↦ unknown_capability
  | some v ↦ elim (decode arguments) [
    | none ↦ invalid_arguments
    | some decoded ↦ verdict_of (v decoded)
  ]
]
