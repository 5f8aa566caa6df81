-- ===== src/Authz/Protection.antt =====
-- Guard.protect of internal/auth/authz/router.go, and what gets past it.
use Prim.Native.String.{String}
use text.Mathlib.Text.{◌==◌ as str_eq}
use oc_control_plane.Prelude.{
  ℕ, ◌≡◌, ◌≢◌, ◌⊎◌, inl, inr, Bool, true, false, not, ◌&&◌, Option, List, [], ◌∷◌, arith,
  if◌then◌else◌, Bool-cases,
}
use oc_control_plane.Authz.Roles.{Permission, grants}
use oc_control_plane.Authz.Principals.{Principal, is_empty, have_permission}
use oc_control_plane.Authz.Router.{
  Route, route_id, AuthError, no_credential, authentication_unavailable, other_error, refusal,
  reason_of, Url, origin_is_allowed,
}

-- What Guard.Resolve returns.
pub data Resolved : Type 0 where
  unresolved : AuthError → Resolved
  resolved : Principal → Resolved

pub record Request : Type 0 where
  pub method : String
  pub origin : String

-- The event that recordRefusal records: whose organization, for which route and why.
pub record Event : Type 0 where
  pub organization : ℕ
  pub actor : ℕ
  pub route : String
  pub because : String
  pub requires : Permission

pub data Response : Type 0 where
  served : Principal → Response
  unavailable origin_refused : Response
  unauthorized : String → Response
  forbidden : Permission → Response

-- refuseUnauthenticated after the check on ErrAuthenticationUnavailable.
unfoldable pub refuse : AuthError → Response
refuse authentication_unavailable = unavailable
refuse no_credential = unauthorized "credential_rejected"
refuse error = unauthorized (reason_of error)

unfoldable pub refusal_event : Principal → Route → String → Event
refusal_event p route because = record {
  organization = p.membership.organization;
  actor = p.user_id;
  route = route_id route;
  because = because;
  requires = route.permission;
}

-- recordRefusal: nothing where the guard has no Record.
unfoldable pub record_refusal : Bool → Principal → Route → String → List Event
unfolding refusal_event
record_refusal records p route because = if records then refusal_event p route because ∷ [] else []

refuse-served : (error : AuthError) (p : Principal) → refuse error ≢ served p
unfolding refuse
refuse-served authentication_unavailable p h = cc
refuse-served no_credential p h = cc
refuse-served other_error p h = cc
refuse-served (refusal reason) p h = cc

module _ (parse_url : String → Option Url) (trim : String → String)
    (equal_fold : String → String → Bool) where
  -- protect, once a principal is resolved.
  unfoldable pub authorize : Bool → String → Route → Request → Principal → Response × List Event
  unfolding record_refusal
  authorize records allowed route request p =
      if not (origin_is_allowed parse_url trim equal_fold request.method request.origin allowed)
      then (origin_refused, record_refusal records p route "origin not allowed")
      else if not (str_eq route.permission "") && not (have_permission p route.permission)
      then (forbidden route.permission, record_refusal records p route "role does not grant it")
      else (served p, [])

  -- protect: a nil error with an empty principal is refused as rejected.
  unfoldable pub protect : Bool → String → Route → Request → Resolved → Response × List Event
  unfolding authorize refuse
  protect records allowed route request (unresolved error) = (refuse error, [])
  protect records allowed route request (resolved p) =
      if is_empty p
      then (unauthorized "credential_rejected", [])
      else authorize records allowed route request p

  -- What a handler can rely on when it is served.
  pub record IsAuthorized (allowed : String) (route : Route) (request : Request)
      (resolution : Resolved) (p : Principal) : Type 0 where
    pub identified : resolution ≡ resolved p
    pub not_empty : is_empty p ≡ false
    pub same_origin :
        origin_is_allowed parse_url trim equal_fold request.method request.origin allowed ≡ true
    pub permitted :
        (str_eq route.permission "" ≡ true) ⊎ (grants p.membership.role route.permission ≡ true)

  authorized :
      (records : Bool) (allowed : String) (route : Route) (request : Request) (q p : Principal)
      → is_empty q ≡ false
      → (authorize records allowed route request q).0 ≡ served p
      → IsAuthorized allowed route request (resolved q) p
  unfolding authorize have_permission
  authorized records allowed route request q p known h = record {
    identified = ground arith;
    not_empty = ground arith;
    same_origin = ground arith;
    permitted = ground arith;
  }

  -- A handler behind the guard is served only with the principal that the request resolved to,
  -- which is not empty, whose origin is allowed, and whose role grants the permission of the route
  -- where the route names one.
  pub served-IsAuthorized :
      (records : Bool) (allowed : String) (route : Route) (request : Request)
      (resolution : Resolved) (p : Principal)
      → (protect records allowed route request resolution).0 ≡ served p
      → IsAuthorized allowed route request resolution p
  unfolding protect authorize refuse have_permission
  served-IsAuthorized records allowed route request (unresolved error) p h =
      absurd (refuse-served error p h)
  served-IsAuthorized records allowed route request (resolved q) p h =
      elim (Bool-cases (is_empty q)) [
        | inl empty ↦ cc (rw (empty, protect) at h)
        | inr known ↦
            let e : (authorize records allowed route request q).0 ≡ served p =
              rw (known, protect) at h in
            authorized records allowed route request q p known e
      ]

  -- Where the guard records, a resolved request that is not served leaves exactly one event, which
  -- names the principal's organization and the route, and a served one leaves none.
  pub refusals_are_recorded :
      (allowed : String) (route : Route) (request : Request) (p : Principal)
      → is_empty p ≡ false
      → (((protect true allowed route request (resolved p)).0 ≡ served p)
          × ((protect true allowed route request (resolved p)).1 ≡ []))
        ⊎ ((because : String) × ((protect true allowed route request (resolved p)).1
              ≡ refusal_event p route because ∷ []))
  unfolding protect authorize record_refusal
  refusals_are_recorded allowed route request p h = ground arith
