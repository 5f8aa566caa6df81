-- ===== src/Authz/Tests.antt =====
-- The theorems on authorization, at small concrete inputs.
use Prim.Native.String.{String}
use text.Mathlib.Text.{◌==◌ as str_eq}
use oc_control_plane.Prelude.{◌≡◌, refl, true, false, Option, none, [], ◌∷◌}
use oc_control_plane.Authz.Roles.{declared, granted, grants}
use oc_control_plane.Authz.Principals.{Membership, Principal, have_permission}
use oc_control_plane.Authz.Router.{
  Route, Url, route_id, route_error, register, router, origin_is_allowed,
}
use oc_control_plane.Authz.Protection.{
  Request, resolved, IsAuthorized, protect, authorize, served-IsAuthorized,
}
use oc_control_plane.Authz.Mounting.{IsMounted, router-IsMounted}

-- An editor reads and merges, and does not manage members.
editor_limits : (grants "editor" "member.manage" ≡ false) × (grants "unknown" "audit.read" ≡ false)
unfolding grants granted
editor_limits = (refl, refl)

abbrev trim : String → String
trim text = text

abbrev no_url : String → Option Url
no_url text = none

abbrev membership : Membership
membership = record { organization = 4; display_name = "team"; role = "editor" }

abbrev principal : Principal
principal = record {
  user_id = 5;
  session_id = 6;
  display_name = "name";
  membership = membership;
  source_address = "";
  request_id = "";
  email = "mail";
}

abbrev merge_route : Route
merge_route = record {
  method = "GET";
  pattern = "/incidents";
  permission = "incident.merge";
  has_handler = true;
}

abbrev manage_route : Route
manage_route = record merge_route { pattern = "/members"; permission = "member.manage" }

abbrev get : Request
get = record { method = "GET"; origin = "" }

served-IsAuthorized_example :
    IsAuthorized no_url trim str_eq "https://example.test" merge_route get
      (resolved principal)
      principal
unfolding protect authorize origin_is_allowed have_permission grants granted
served-IsAuthorized_example =
    served-IsAuthorized no_url trim str_eq true "https://example.test" merge_route get
      (resolved principal) principal refl

router-IsMounted_example : (true ≡ true) × IsMounted [] (merge_route ∷ manage_route ∷ [])
unfolding router register route_error route_id declared
router-IsMounted_example = router-IsMounted (merge_route ∷ manage_route ∷ []) true refl
