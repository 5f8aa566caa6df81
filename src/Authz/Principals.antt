-- ===== src/Authz/Principals.antt =====
-- internal/auth/authz/principal.go: who a request comes from. strings.TrimSpace, which is not part
-- of the repository's code, is the parameter `trim`; a length is Go's, in bytes.
use Prim.Native.String.{String, len}
use oc_control_plane.Prelude.{
  ℕ, ◌≡◌, Bool, true, false, not, ◌||◌, Option, none, some, arith, ltb, ◌==◌, if◌then◌else◌,
}
use oc_control_plane.Authz.Roles.{Role, Permission, known_role, grants}

abbrev pub max_identifier_length : ℕ
max_identifier_length = 256

pub record Membership : Type 0 where
  pub organization : ℕ
  pub display_name : String
  pub role : Role

pub record Principal : Type 0 where
  pub user_id : ℕ
  pub session_id : ℕ
  pub display_name : String
  pub membership : Membership
  pub source_address : String
  pub request_id : String
  pub email : String

-- NewPrincipal; `none` is ErrInvalidPrincipal.
unfoldable pub new_principal :
    (String → String) → ℕ → ℕ → String → String → Membership → Option Principal
new_principal trim user session display_name email membership =
    if user == 0 || session == 0
    then none
    else if membership.organization == 0 || not (known_role membership.role)
    then none
    else if ltb max_identifier_length (len display_name)
    then none
    else some (record {
      user_id = user;
      session_id = session;
      display_name = trim display_name;
      membership = membership;
      source_address = "";
      request_id = "";
      email = trim email;
    })

-- WithRequest.
unfoldable pub with_request : Principal → String → String → Principal
with_request p source_address request_id = record p {
  source_address = source_address;
  request_id = request_id;
}

-- IsEmpty.
abbrev pub is_empty : Principal → Bool
is_empty p = p.user_id == 0

-- HavePermission.
unfoldable pub have_permission : Principal → Permission → Bool
have_permission p permission = grants p.membership.role permission

-- A principal has a user, a session and an organization, and one of the three roles.
pub record IsPrincipal (p : Principal) : Type 0 where
  pub user : is_empty p ≡ false
  pub session : (p.session_id == 0) ≡ false
  pub organization : (p.membership.organization == 0) ≡ false
  pub role : known_role p.membership.role ≡ true

-- Every principal that is made is one, for any membership that it is made from, and stays one
-- when a request's address and identifier are put in.
pub new_principal-IsPrincipal :
    (trim : String → String) (user session : ℕ) (display_name email : String)
    (membership : Membership) (p : Principal) (source_address request_id : String)
    → new_principal trim user session display_name email membership ≡ some p
    → IsPrincipal (with_request p source_address request_id)
unfolding new_principal with_request
new_principal-IsPrincipal trim user session display_name email membership p source_address
      request_id h =
    record {
      user = ground arith;
      session = ground arith;
      organization = ground arith;
      role = ground arith;
    }
