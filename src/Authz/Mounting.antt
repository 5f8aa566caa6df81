-- ===== src/Authz/Mounting.antt =====
-- Which tables of routes Router of internal/auth/authz/router.go mounts.
use Prim.Native.String.{String}
use text.Mathlib.Text.{◌==◌ as str_eq}
use oc_control_plane.Prelude.{
  ◌≡◌, ◌⊎◌, refl, inl, inr, Bool, true, false, none, List, [], ◌∷◌, arith, Bool-cases, Option-cases,
}
use oc_control_plane.Authz.Roles.{lists, declared}
use oc_control_plane.Authz.Router.{Route, route_id, route_error, register, router}

-- Each route is well formed, and its identifier is not among those before it.
abbrev pub IsMounted : List String → List Route → Type 0
IsMounted seen [] = Unit {0}
IsMounted seen (route ∷ routes) =
    (route.has_handler ≡ true)
    × ((str_eq route.permission "" ≡ true) ⊎ (declared route.permission ≡ true))
    × (lists seen (route_id route) ≡ false)
    × IsMounted (route_id route ∷ seen) routes

well_formed :
    (route : Route)
    → route_error route ≡ none
    → (route.has_handler ≡ true)
      × ((str_eq route.permission "" ≡ true) ⊎ (declared route.permission ≡ true))
unfolding route_error
well_formed route h = ground arith

register-IsMounted :
    (seen : List String) (routes : List Route) → register seen routes ≡ none → IsMounted seen routes
unfolding register
register-IsMounted seen [] h = tt
register-IsMounted seen (route ∷ routes) h = elim (Option-cases (route_error route)) [
  | inr (error, wrong) ↦ cc (rw (wrong, register) at h)
  | inl right ↦ elim (Bool-cases (lists seen (route_id route))) [
    | inl duplicate ↦ cc (rw (right, duplicate, register) at h)
    | inr fresh ↦
        let w = well_formed route right in
        (
          w.0,
          w.1,
          fresh,
          register-IsMounted (route_id route ∷ seen) routes (rw (right, fresh, register) at h),
        )
  ]
]

-- A table that is mounted has a resolver, and every route in it has a handler, requires no
-- permission or a declared one, and shares its method and pattern with no route before it.
pub router-IsMounted :
    (routes : List Route) (has_resolver : Bool)
    → router routes has_resolver ≡ none
    → (has_resolver ≡ true) × IsMounted [] routes
unfolding router
router-IsMounted [] has_resolver h = cc
router-IsMounted (route ∷ routes) true h = (refl, register-IsMounted [] (route ∷ routes) h)
router-IsMounted (route ∷ routes) false h = cc
