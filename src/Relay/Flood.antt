-- ===== src/Relay/Flood.antt =====
-- internal/relay/flood.go: the fixed-window limiter in front of Relay registration.
use oc_control_plane.Prelude.{
  ℕ, ◌+◌, Bool, true, false, not, ◌&&◌, none, some, List, [], leb, if◌then◌else◌, length, lookup,
  insert, is_some,
}

pub record FloodLimits : Type 0 where
  pub window : ℕ
  pub per_organization : ℕ
  pub global : ℕ
  pub max_tracked_organizations : ℕ

pub record FloodLimiter : Type 0 where
  pub limits : FloodLimits
  pub window_start : ℕ
  pub global_count : ℕ
  pub per_org_count : List (ℕ × ℕ)

-- DefaultFloodLimits of internal/relay/registration.go, a minute in nanoseconds.
unfoldable pub default_flood_limits : FloodLimits
default_flood_limits = record {
  window = 60000000000;
  per_organization = 20;
  global = 200;
  max_tracked_organizations = 10000;
}

-- newFloodLimiter; the zero time is 0.
unfoldable pub new_flood_limiter : FloodLimits → FloodLimiter
new_flood_limiter limits = record {
  limits = limits;
  window_start = 0;
  global_count = 0;
  per_org_count = [];
}

-- `now.Sub(l.windowStart) >= l.window`, and the reset.
unfoldable pub roll : FloodLimiter → ℕ → FloodLimiter
roll l now =
    if leb (l.window_start + l.limits.window) now
    then record l { window_start = now; global_count = 0; per_org_count = [] }
    else l

-- The count that Go reads as 0 where the organization is not there.
abbrev pub counted : ℕ → List (ℕ × ℕ) → ℕ
counted org m = elim (lookup org m) [ none ↦ 0 | some n ↦ n ]

unfoldable pub admits : FloodLimiter → ℕ → Bool
admits l org =
    if leb l.limits.global l.global_count
    then false
    else if not (is_some (lookup org l.per_org_count))
        && leb l.limits.max_tracked_organizations (length l.per_org_count)
    then false
    else if leb l.limits.per_organization (counted org l.per_org_count)
    then false
    else true

unfoldable pub charge : FloodLimiter → ℕ → FloodLimiter
charge l org = record l {
  per_org_count = insert org (counted org l.per_org_count + 1) l.per_org_count;
  global_count = l.global_count + 1;
}

-- allow, at the time `now`.
unfoldable pub allow : FloodLimiter → ℕ → ℕ → FloodLimiter × Bool
unfolding admits charge
allow l now org =
    let rolled = roll l now in
    if admits rolled org then (charge rolled org, true) else (rolled, false)
