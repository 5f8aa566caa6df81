-- ===== src/Authz/Roles.antt =====
-- internal/auth/authz/roles.go: the permissions, the roles, and what each role grants.
use Prim.Native.String.{String}
use text.Mathlib.Text.{◌==◌ as str_eq}
use text.Mathlib.TextEquality.{eq_iff}
use oc_control_plane.Prelude.{
  ◌≡◌, ◌⊎◌, refl, sym, subst, inl, inr, Bool, true, false, ◌||◌, List, [], ◌∷◌, ◌++◌, arith,
  if◌then◌else◌, Bool-cases, any, All, any-append,
}

abbrev pub Permission : Type 0
Permission = String

abbrev pub Role : Type 0
Role = String

-- slices.Contains.
abbrev pub lists : List String → String → Bool
lists values wanted = any (λ v. str_eq v wanted) values

abbrev pub all_permissions : List Permission
all_permissions =
    "integration.read" ∷ "integration.create" ∷ "integration.update" ∷ "integration.delete"
    ∷ "integration.verify" ∷ "integration.webhook-secret.rotate" ∷ "relay.read"
    ∷ "relay.conflict.clear" ∷ "relay.bootstrap-token.issue" ∷ "incident.read" ∷ "incident.merge"
    ∷ "postmortem.read" ∷ "postmortem.write" ∷ "investigation.read"
    ∷ "investigation.observation.read" ∷ "investigation.open" ∷ "investigation.cancel"
    ∷ "slack-message.recover" ∷ "conversation.read" ∷ "conversation.write" ∷ "identity.read"
    ∷ "identity.configure" ∷ "member.read" ∷ "member.manage" ∷ "audit.read" ∷ []

-- Declared.
unfoldable pub declared : Permission → Bool
declared permission = lists all_permissions permission

abbrev pub roles : List Role
roles = "admin" ∷ "editor" ∷ "viewer" ∷ []

unfoldable pub known_role : Role → Bool
known_role role = lists roles role

abbrev pub estate_reads : List Permission
estate_reads =
    "integration.read" ∷ "relay.read" ∷ "incident.read" ∷ "postmortem.read" ∷ "investigation.read"
    ∷ "conversation.read" ∷ "audit.read" ∷ []

abbrev pub editor_writes : List Permission
editor_writes =
    "integration.verify" ∷ "integration.update" ∷ "incident.merge" ∷ "investigation.open"
    ∷ "investigation.observation.read" ∷ "investigation.cancel" ∷ "conversation.write"
    ∷ "postmortem.write" ∷ []

-- The map `granted`: the permissions of a role, none for a role that is not there.
unfoldable pub granted : Role → List Permission
granted role =
    if str_eq role "admin"
    then all_permissions
    else if str_eq role "editor"
    then estate_reads ++ editor_writes
    else if str_eq role "viewer"
    then estate_reads
    else []

-- Role.Grants.
unfoldable pub grants : Role → Permission → Bool
unfolding granted
grants role permission = lists (granted role) permission

lists-All :
    (P : String → Type 0) (values : List String) (wanted : String)
    → All P values
    → lists values wanted ≡ true
    → P wanted
lists-All P [] wanted every h = cc
lists-All P (v ∷ values) wanted every h = elim (Bool-cases (str_eq v wanted)) [
  | inl hit ↦ subst P ((eq_iff v wanted).0 hit) every.0
  | inr miss ↦ lists-All P values wanted every.1 (rw miss at h)
]

estate_reads-declared : All (λ p. declared p ≡ true) estate_reads
unfolding declared
estate_reads-declared = (refl, (refl, (refl, (refl, (refl, (refl, (refl, tt)))))))

editor_writes-declared : All (λ p. declared p ≡ true) (estate_reads ++ editor_writes)
unfolding declared
editor_writes-declared = (
  refl,
  (
    refl,
    (
      refl,
      (
        refl,
        (refl, (refl, (refl, (refl, (refl, (refl, (refl, (refl, (refl, (refl, (refl, tt))))))))))),
      ),
    ),
  ),
)

all_permissions-declared : All (λ p. declared p ≡ true) all_permissions
unfolding declared
all_permissions-declared = (
  refl,
  (
    refl,
    (
      refl,
      (
        refl,
        (
          refl,
          (
            refl,
            (
              refl,
              (
                refl,
                (
                  refl,
                  (
                    refl,
                    (
                      refl,
                      (
                        refl,
                        (
                          refl,
                          (
                            refl,
                            (
                              refl,
                              (
                                refl,
                                (
                                  refl,
                                  (
                                    refl,
                                    (refl, (refl, (refl, (refl, (refl, (refl, (refl, tt))))))),
                                  ),
                                ),
                              ),
                            ),
                          ),
                        ),
                      ),
                    ),
                  ),
                ),
              ),
            ),
          ),
        ),
      ),
    ),
  ),
)

known_of :
    (name role : Role) → known_role name ≡ true → str_eq role name ≡ true → known_role role ≡ true
known_of name role known same =
    subst (λ r. known_role r ≡ true) (sym ((eq_iff role name).0 same)) known

or_true : (a b c : Bool) → c ≡ (a || b) → a ≡ true → c ≡ true
or_true a b c e h = ground arith

-- A role that grants anything is one of the three, and grants declared permissions only.
pub grants-declared :
    (role : Role) (permission : Permission)
    → grants role permission ≡ true
    → (known_role role ≡ true) × (declared permission ≡ true)
unfolding grants granted known_role
grants-declared role permission h = elim (Bool-cases (str_eq role "admin")) [
  | inl admin ↦ (
    known_of "admin" role refl admin,
    lists-All (λ p. declared p ≡ true) all_permissions permission all_permissions-declared
        (rw admin at h),
  )
  | inr not_admin ↦ elim (Bool-cases (str_eq role "editor")) [
    | inl editor ↦ (
      known_of "editor" role refl editor,
      lists-All (λ p. declared p ≡ true) (estate_reads ++ editor_writes) permission
          editor_writes-declared (rw (not_admin, editor) at h),
    )
    | inr not_editor ↦ elim (Bool-cases (str_eq role "viewer")) [
      | inl viewer ↦ (
        known_of "viewer" role refl viewer,
        lists-All (λ p. declared p ≡ true) estate_reads permission estate_reads-declared
            (rw (not_admin, not_editor, viewer) at h),
      )
      | inr none_known ↦ cc (rw (not_admin, not_editor, none_known) at h)
    ]
  ]
]

-- The roles are nested: the viewer's permissions are the editor's, the editor's are the
-- administrator's, and the administrator has every declared one.
pub roles_nested :
    (permission : Permission)
    → ((grants "viewer" permission ≡ false) ⊎ (grants "editor" permission ≡ true))
      × ((grants "editor" permission ≡ false) ⊎ (grants "admin" permission ≡ true))
      × (grants "admin" permission ≡ declared permission)
unfolding grants granted declared
roles_nested permission = (
  elim (Bool-cases (lists estate_reads permission)) [
    | inl reads ↦ inr (
        or_true (lists estate_reads permission) (lists editor_writes permission) _
          (any-append (λ v. str_eq v permission) estate_reads editor_writes) reads)
    | inr other ↦ inl other
  ],
  elim (Bool-cases (lists (estate_reads ++ editor_writes) permission)) [
    | inl edits ↦ inr (
        lists-All (λ p. declared p ≡ true) (estate_reads ++ editor_writes) permission
          editor_writes-declared edits)
    | inr other ↦ inl other
  ],
  refl,
)
