-- ===== src/Authz/Router.antt =====
-- internal/auth/authz/router.go and refusal.go: the table of routes, and the guard in front of each
-- handler. net/url and strings are the parameters `parse_url`, `trim` and `equal_fold`; a handler
-- is known by the principal that it is served with, and what the guard records is a list of events.
use Prim.Native.String.{String, ◌++◌ as str_append}
use text.Mathlib.Text.{◌==◌ as str_eq, starts_with}
use oc_control_plane.Prelude.{
  Bool, true, false, not, ◌&&◌, ◌||◌, Option, none, some, List, [], ◌∷◌, if◌then◌else◌,
}
use oc_control_plane.Authz.Roles.{Permission, lists, declared}

pub record Route : Type 0 where
  pub method : String
  pub pattern : String
  pub permission : Permission
  pub has_handler : Bool

-- routeID.
unfoldable pub route_id : Route → String
route_id route = str_append route.method (str_append " " route.pattern)

pub data RouterError : Type 0 where
  no_routes no_resolver no_handler malformed_route undeclared_permission duplicate_route :
      RouterError

-- The switch in the loop of Router.
unfoldable pub route_error : Route → Option RouterError
route_error route =
    if not route.has_handler
    then some no_handler
    else if str_eq route.method "" || not (starts_with route.pattern "/")
    then some malformed_route
    else if not (str_eq route.permission "") && not (declared route.permission)
    then some undeclared_permission
    else none

-- The loop of Router: the routes that the mux serves, after those that were seen.
unfoldable pub register : List String → List Route → Option RouterError
unfolding route_error route_id
register seen [] = none
register seen (route ∷ routes) =
    let rest = register (route_id route ∷ seen) routes in
    elim (route_error route) [
      | some error ↦ some error
      | none ↦ if lists seen (route_id route) then some duplicate_route else rest
    ]

-- Router: the error that it returns, or none for a mux that serves every route.
unfoldable pub router : List Route → Bool → Option RouterError
unfolding register
router [] has_resolver = some no_routes
router (route ∷ routes) has_resolver =
    if has_resolver then register [] (route ∷ routes) else some no_resolver

-- The errors of Guard.Resolve; a refusal carries its reason.
pub data AuthError : Type 0 where
  no_credential authentication_unavailable other_error : AuthError
  refusal : String → AuthError

-- reasonOf.
unfoldable pub reason_of : AuthError → String
reason_of (refusal reason) = if str_eq reason "" then "credential_rejected" else reason
reason_of _ = "credential_rejected"

-- The fields of net/url.URL that an origin is read from.
pub record Url : Type 0 where
  pub has_user : Bool
  pub opaque : String
  pub scheme : String
  pub host : String
  pub hostname : String
  pub port : String
  pub path : String
  pub raw_query : String
  pub fragment : String

module _ (parse_url : String → Option Url) (trim : String → String)
    (equal_fold : String → String → Bool) where
  -- isOrigin.
  unfoldable pub is_origin : Url → Bool
  is_origin u =
      not u.has_user
      && str_eq u.opaque ""
      && not (str_eq u.host "")
      && (equal_fold u.scheme "http" || equal_fold u.scheme "https")
      && (str_eq u.path "" || str_eq u.path "/")
      && str_eq u.raw_query ""
      && str_eq u.fragment ""

  -- portOf.
  unfoldable pub port_of : Url → String
  port_of u =
      if not (str_eq u.port "") then u.port else if equal_fold u.scheme "https" then "443" else "80"

  unfoldable pub same_place : Url → Url → Bool
  unfolding port_of
  same_place first second =
      equal_fold first.scheme second.scheme
      && equal_fold first.hostname second.hostname
      && str_eq (port_of first) (port_of second)

  -- An address that parses to an origin.
  unfoldable pub origin_at : String → Option Url
  unfolding is_origin
  origin_at text = elim (parse_url text) [
    | none ↦ none
    | some u ↦ if is_origin u then some u else none
  ]

  -- sameOrigin.
  unfoldable pub same_origin : String → String → Bool
  unfolding origin_at same_place
  same_origin presented allowed = elim (origin_at presented) [
    | none ↦ false
    | some first ↦ elim (origin_at (trim allowed)) [
      | none ↦ false
      | some second ↦ same_place first second
    ]
  ]

  -- CookieOriginAllowed.
  unfoldable pub cookie_origin_allowed : String → String → Bool
  unfolding same_origin
  cookie_origin_allowed origin allowed =
      if str_eq (trim origin) "" then false else same_origin (trim origin) allowed

  abbrev pub is_safe : String → Bool
  is_safe method = str_eq method "GET" || str_eq method "HEAD" || str_eq method "OPTIONS"

  -- Guard.originIsAllowed.
  unfoldable pub origin_is_allowed : String → String → String → Bool
  unfolding cookie_origin_allowed
  origin_is_allowed method origin allowed =
      if is_safe method then true else cookie_origin_allowed origin allowed
