-- ===== src/Relay/FloodBounds.antt =====
-- The bounds that the limiter of internal/relay/flood.go keeps, on its memory and on what passes.
use oc_control_plane.Prelude.{
  ℕ, ◌+◌, ◌≤◌, ◌<◌, ◌≡◌, refl, inl, inr, Bool, true, ◌&&◌, List, [], ◌∷◌, arith, leb, ◌==◌,
  if◌then◌else◌, Bool-cases, Option-cases, length, count, All, All-mono, lookup, insert,
  length-insert, All-insert, lookup-All, lookup-insert,
}
use oc_control_plane.Relay.Flood.{
  FloodLimits, FloodLimiter, new_flood_limiter, roll, counted, admits, charge, allow,
}

abbrev pub total : List (ℕ × ℕ) → ℕ
total [] = 0
total ((org, n) ∷ m) = n + total m

total-insert : (k v : ℕ) (m : List (ℕ × ℕ)) → total (insert k v m) + counted k m ≡ total m + v
total-insert k v [] = omega arith
total-insert k v ((j, w) ∷ m) = ground (arith, total-insert k v m)

-- No counter passes its limit, the global one is the sum of the others, and no more
-- organizations are tracked than may be.
pub record IsWithin (l : FloodLimiter) : Type 0 where
  pub per_org : All (λ e. e.1 ≤ l.limits.per_organization) l.per_org_count
  pub global : l.global_count ≤ l.limits.global
  pub summed : total l.per_org_count ≡ l.global_count
  pub tracked : length l.per_org_count ≤ l.limits.max_tracked_organizations

new-IsWithin : (limits : FloodLimits) → IsWithin (new_flood_limiter limits)
unfolding new_flood_limiter
new-IsWithin limits = record {
  per_org = tt;
  global = omega arith;
  summed = refl;
  tracked = omega arith;
}

roll-IsWithin : (l : FloodLimiter) (now : ℕ) → IsWithin l → IsWithin (roll l now)
unfolding roll
roll-IsWithin l now w = elim (Bool-cases (leb (l.window_start + l.limits.window) now)) [
  | inl over ↦
      rw over (record { per_org = tt; global = omega arith; summed = refl; tracked = omega arith })
  | inr inside ↦ rw inside w
]

charge-IsWithin :
    (l : FloodLimiter) (org : ℕ) → admits l org ≡ true → IsWithin l → IsWithin (charge l org)
unfolding admits charge
charge-IsWithin l org h w = record {
  per_org =
      All-insert (λ e. e.1 ≤ l.limits.per_organization) org (counted org l.per_org_count + 1)
        l.per_org_count w.per_org (ground arith);
  global = ground arith;
  summed =
      ground (arith, total-insert org (counted org l.per_org_count + 1) l.per_org_count, w.summed);
  tracked =
      ground
        (arith, length-insert org (counted org l.per_org_count + 1) l.per_org_count, w.tracked);
}

-- Every call keeps the limiter within its limits, whatever the clock says.
pub allow-IsWithin : (l : FloodLimiter) (now org : ℕ) → IsWithin l → IsWithin (allow l now org).0
unfolding allow
allow-IsWithin l now org w = elim (Bool-cases (admits (roll l now) org)) [
  | inl pass ↦ rw pass (charge-IsWithin (roll l now) org pass (roll-IsWithin l now w))
  | inr shed ↦ rw shed (roll-IsWithin l now w)
]

-- The organizations that a sequence of calls (time, organization) lets through.
unfoldable pub admitted : FloodLimiter → List (ℕ × ℕ) → List ℕ
admitted l [] = []
admitted l ((now, org) ∷ calls) =
    let (l', pass) = allow l now org in
    let rest = admitted l' calls in if pass then org ∷ rest else rest

unfoldable pub after_calls : FloodLimiter → List (ℕ × ℕ) → FloodLimiter
after_calls l [] = l
after_calls l ((now, org) ∷ calls) = after_calls (allow l now org).0 calls

after_calls-IsWithin :
    (l : FloodLimiter) (calls : List (ℕ × ℕ)) → IsWithin l → IsWithin (after_calls l calls)
unfolding after_calls
after_calls-IsWithin l [] w = w
after_calls-IsWithin l ((now, org) ∷ calls) w =
    after_calls-IsWithin (allow l now org).0 calls (allow-IsWithin l now org w)

-- From a new limiter, whatever calls come at whatever times, no organization's counter passes its
-- limit, the global counter is the sum of them and passes none, and no more organizations are
-- tracked than may be.
pub flood_limits_hold :
    (limits : FloodLimits) (calls : List (ℕ × ℕ))
    → IsWithin (after_calls (new_flood_limiter limits) calls)
flood_limits_hold limits calls =
    after_calls-IsWithin (new_flood_limiter limits) calls (new-IsWithin limits)

-- The calls of one window leave its start alone, and count what passes.
record Passes (l l' : FloodLimiter) (org : ℕ) (pass : Bool) : Type 0 where
  same_limits : l'.limits ≡ l.limits
  same_start : l'.window_start ≡ l.window_start
  globally : l'.global_count ≡ l.global_count + (if pass then 1 else 0)
  locally :
      (o : ℕ)
      → counted o l'.per_org_count ≡ counted o l.per_org_count + (if pass && org == o then 1 else 0)

allow-Passes :
    (l : FloodLimiter) (now org : ℕ)
    → now < l.window_start + l.limits.window
    → Passes l (allow l now org).0 org (allow l now org).1
unfolding allow roll charge
allow-Passes l now org inside = record {
  same_limits = ground arith;
  same_start = ground arith;
  globally = ground arith;
  locally =
      λ o. ground (arith, lookup-insert org o (counted org l.per_org_count + 1) l.per_org_count);
}

counted-le :
    (l : FloodLimiter) (org : ℕ)
    → IsWithin l
    → counted org l.per_org_count ≤ l.limits.per_organization
counted-le l org w = elim (Option-cases (lookup org l.per_org_count)) [
  | inl missing ↦ rw (missing, counted) (omega arith)
  | inr (n, found) ↦
      rw (found, counted)
        (lookup-All (λ e. e.1 ≤ l.limits.per_organization) org n l.per_org_count w.per_org found)
]

still_inside :
    (l : FloodLimiter) (now org : ℕ)
    → now < l.window_start + l.limits.window
    → (c : ℕ × ℕ) → c.0 < l.window_start + l.limits.window
    → let l' = (allow l now org).0 in c.0 < l'.window_start + l'.limits.window
still_inside l now org inside c k = let step = allow-Passes l now org inside in ground (arith, step)

-- From a limiter within its limits, of the calls that come before its window ends no organization
-- passes more often than its limit leaves room for, nor all together more than the global limit.
pub window_admissions_bounded :
    (l : FloodLimiter) (calls : List (ℕ × ℕ)) (org : ℕ)
    → IsWithin l
    → All (λ c. c.0 < l.window_start + l.limits.window) calls
    → (count (λ o. o == org) (admitted l calls) + counted org l.per_org_count
        ≤ l.limits.per_organization)
      × (length (admitted l calls) + l.global_count ≤ l.limits.global)
unfolding admitted
window_admissions_bounded l [] org w h =
    (omega (arith, counted-le l org w), omega (arith, w.global))
window_admissions_bounded l ((now, caller) ∷ calls) org w h =
    let step = allow-Passes l now caller h.0 in
    let rest =
      window_admissions_bounded (allow l now caller).0 calls org (allow-IsWithin l now caller w)
        (All-mono (still_inside l now caller h.0) calls h.1) in
    ground (arith, step, step.locally org, rest)
