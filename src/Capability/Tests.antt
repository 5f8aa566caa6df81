-- ===== src/Capability/Tests.antt =====
-- The theorems on capabilities, at small concrete inputs.
use oc_control_plane.Prelude.{ℕ, ◌≡◌, refl, true, false, Option, some, List, []}
use oc_control_plane.Capability.Names.{
  match_label, match_subdomain, valid_namespace, valid_object_name,
}
use oc_control_plane.Capability.Arguments.{
  Arguments, ContainerLogs, container_logs, validate_container_logs, validator, validate, known,
}
use oc_control_plane.Capability.Bounds.{IsAskedOf, validated_arguments-IsBounded}

-- A dot separates labels, and no label begins or ends in a dash.
dotted_names :
    (valid_object_name "a.b-c" ≡ true)
    × (valid_namespace "a.b-c" ≡ false)
    × (valid_object_name "a-.b" ≡ false)
    × (valid_object_name "a..b" ≡ false)
unfolding valid_object_name valid_namespace match_label match_subdomain
dotted_names = (refl, refl, refl, refl)

abbrev logs : ContainerLogs
logs = record {
  namespace = "default";
  pod_name = "web-0";
  container_name = "web";
  max_lines = 2000;
  max_bytes = 1;
}

abbrev decode : List ℕ → Option Arguments
decode bytes = some (container_logs logs)

validated_arguments-IsBounded_example :
    (known "kubernetes.container.logs" 1 ≡ true)
    × ((a : Arguments) × (decode [] ≡ some a) × IsAskedOf "kubernetes.container.logs" a)
unfolding validate validator validate_container_logs valid_namespace valid_object_name match_label
    match_subdomain
validated_arguments-IsBounded_example =
    validated_arguments-IsBounded decode "kubernetes.container.logs" 1 [] refl
