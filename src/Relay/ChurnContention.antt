-- ===== src/Relay/ChurnContention.antt =====
-- internal/relay/churn.go: takeovers that follow one another inside the window are remembered, so
-- the third is always reported as contested.
use Prim.Native.String.{String}
use oc_control_plane.Prelude.{
  ℕ, ◌+◌, ◌≤◌, ◌<◌, ◌≡◌, ◌≢◌, refl, inl, inr, true, Option, some, List, [], ◌∷◌, ◌++◌, arith, leb,
  ltb, ◌==◌, Bool-cases, Option-cases, length, All, length-append, lookup, lookup-insert,
}
use mathlib.Core.List.{append_assoc}
use oc_control_plane.Relay.Churn.{
  Takeover, ChurnWatch, churn_window, churn_memory, minimum_session_lifetime, forget_old, make_room,
  add_takeover, verdict, sweep_entries, sweep, host_of, history_for, record_takeover,
}
use oc_control_plane.Relay.ChurnBounds.{Call, watch}

-- The history ends in the takeovers `s`.
abbrev EndsIn : List Takeover → List Takeover → Type 0
EndsIn s ts = (before : List Takeover) × (ts ≡ before ++ s)

forget_old-EndsIn :
    (now : ℕ) (a : Takeover) (s before : List Takeover)
    → now < a.at + churn_window
    → EndsIn (a ∷ s) (forget_old now (before ++ a ∷ s))
unfolding forget_old
forget_old-EndsIn now a s [] fresh = ([], ground arith)
forget_old-EndsIn now a s (t ∷ before) fresh = elim (Bool-cases (leb (t.at + churn_window) now)) [
  | inl old ↦ rw old (forget_old-EndsIn now a s before fresh)
  | inr recent ↦ rw recent (t ∷ before, refl)
]

-- Room is made at the front: of up to seven last takeovers none is lost.
make_room-EndsIn :
    (a : Takeover) (s before : List Takeover)
    → length (a ∷ s) < churn_memory
    → EndsIn (a ∷ s) (make_room (before ++ a ∷ s))
unfolding make_room
make_room-EndsIn a s [] few = ([], ground arith)
make_room-EndsIn a s (t ∷ before) few =
    elim (Bool-cases (length ((t ∷ before) ++ a ∷ s) == churn_memory)) [
      | inl full ↦ rw full (before, refl)
      | inr room ↦ rw room (t ∷ before, refl)
    ]

add_takeover-EndsIn :
    (now : ℕ) (host : String) (a : Takeover) (s ts : List Takeover)
    → now < a.at + churn_window
    → length (a ∷ s) < churn_memory
    → EndsIn (a ∷ s) ts
    → EndsIn (a ∷ s ++ record { at = now; host = host } ∷ []) (add_takeover now host ts)
unfolding add_takeover
add_takeover-EndsIn now host a s ts fresh few (before, e) =
    let (kept, e₁) = forget_old-EndsIn now a s before fresh in
    let (left, e₂) = make_room-EndsIn a s kept few in
    (left, rw (e, e₁, e₂) (append_assoc left (a ∷ s) (record { at = now; host = host } ∷ [])))

abbrev pub Remembers : ℕ → List Takeover → ChurnWatch → Type 0
Remembers registration s c =
    (h : List Takeover) × (lookup registration c.by_registration ≡ some h) × EndsIn s h

lookup-sweep_entries :
    (now registration : ℕ) (m : List (ℕ × List Takeover)) (h : List Takeover)
    → lookup registration m ≡ some h
    → 0 < length (forget_old now h)
    → lookup registration (sweep_entries now m) ≡ some (forget_old now h)
unfolding sweep_entries
lookup-sweep_entries now registration [] h e kept = cc
lookup-sweep_entries now registration ((r, g) ∷ m) h e kept =
    elim (Bool-cases (r == registration)) [
      | inl hit ↦ let same : g ≡ h = ground arith in rw same (ground arith)
      | inr miss ↦ ground (arith, lookup-sweep_entries now registration m h (ground arith) kept)
    ]

sweep-Remembers :
    (now registration : ℕ) (a : Takeover) (s : List Takeover) (c : ChurnWatch)
    → now < a.at + churn_window
    → Remembers registration (a ∷ s) c
    → Remembers registration (a ∷ s) (sweep now c)
unfolding sweep
sweep-Remembers now registration a s c fresh (h, found, (before, e)) =
    elim (Bool-cases (ltb now (c.last_swept + churn_window))) [
      | inl early ↦ rw early (h, found, (before, e))
      | inr due ↦
          let (kept, e') = forget_old-EndsIn now a s before fresh in
          rw due (
            forget_old now h,
            lookup-sweep_entries now registration c.by_registration h found
                (rw (e, e') (omega (arith, length-append kept (a ∷ s)))),
            (kept, rw e e'),
          )
    ]

-- A further takeover of a remembered registration is added behind the others, and judged.
next_takeover :
    (split : String → Option String) (now registration : ℕ) (peer : String) (a : Takeover)
    (s : List Takeover) (c : ChurnWatch)
    → now < a.at + churn_window
    → length (a ∷ s) < churn_memory
    → Remembers registration (a ∷ s) c
    → let r = record_takeover split now registration peer c in
      (h : List Takeover) × (lookup registration r.0.by_registration ≡ some h)
      × EndsIn (a ∷ s ++ record { at = now; host = host_of split peer } ∷ []) h
      × (r.1 ≡ verdict h)
unfolding record_takeover
next_takeover split now registration peer a s c fresh few known =
    let (h, found, ends) = sweep-Remembers now registration a s c fresh known in
    let here : history_for registration (sweep now c) ≡ some h =
      unfold history_for in rw (found, history_for) in
    rw (here, record_takeover)
      (
        add_takeover now (host_of split peer) h,
        ground (
          arith,
          lookup-insert registration registration (add_takeover now (host_of split peer) h)
              (sweep now c).by_registration,
        ),
        add_takeover-EndsIn now (host_of split peer) a s h fresh few ends,
        refl,
      )

-- A call about another registration.
other-Remembers :
    (split : String → Option String) (k : Call) (registration : ℕ) (a : Takeover)
    (s : List Takeover) (c : ChurnWatch)
    → k.registration ≢ registration
    → k.now < a.at + churn_window
    → Remembers registration (a ∷ s) c
    → Remembers registration (a ∷ s) (record_takeover split k.now k.registration k.peer c).0
unfolding record_takeover
other-Remembers split k registration a s c differs fresh known =
    let (h, found, ends) = sweep-Remembers k.now registration a s c fresh known in
    elim (Option-cases (history_for k.registration (sweep k.now c))) [
      | inl none_left ↦ rw (none_left, record_takeover) (h, found, ends)
      | inr (g, here) ↦
          rw (here, record_takeover)
            (
              h,
              ground (
                arith,
                lookup-insert k.registration registration
                    (add_takeover k.now (host_of split k.peer) g) (sweep k.now c).by_registration,
              ),
              ends,
            )
    ]

-- Calls about other registrations, before a time.
abbrev pub IsElsewhere : ℕ → ℕ → Call → Type 0
IsElsewhere registration until k = (k.registration ≢ registration) × (k.now < until)

watch-Remembers :
    (split : String → Option String) (ks : List Call) (registration : ℕ) (a : Takeover)
    (s : List Takeover) (c : ChurnWatch)
    → All (IsElsewhere registration (a.at + churn_window)) ks
    → Remembers registration (a ∷ s) c
    → Remembers registration (a ∷ s) (watch split c ks)
unfolding watch
watch-Remembers split [] registration a s c elsewhere known = known
watch-Remembers split (k ∷ ks) registration a s c elsewhere known =
    watch-Remembers split ks registration a s
      (record_takeover split k.now k.registration k.peer c).0 elsewhere.1
      (other-Remembers split k registration a s c elsewhere.0.0 elsewhere.0.1 known)

first_takeover :
    (split : String → Option String) (now registration : ℕ) (peer : String) (c : ChurnWatch)
    (h : List Takeover)
    → history_for registration (sweep now c) ≡ some h
    → Remembers registration
        (record { at = now; host = host_of split peer } ∷ [])
        (record_takeover split now registration peer c).0
unfolding record_takeover add_takeover
first_takeover split now registration peer c h here =
    rw (here, record_takeover)
      (
        add_takeover now (host_of split peer) h,
        ground (
          arith,
          lookup-insert registration registration (add_takeover now (host_of split peer) h)
              (sweep now c).by_registration,
        ),
        (make_room (forget_old now h), refl),
      )

verdict_of_three :
    (h : List Takeover)
    → 3 ≤ length h
    → ((verdict h).contested ≡ true)
      × ((verdict h).backoff ≡ minimum_session_lifetime)
      × (3 ≤ (verdict h).takeovers)
unfolding verdict
verdict_of_three h many = ground arith

-- When a registration that the watch tracks, or has room for, is taken over a second and a third
-- time less than the window after a first, the third is reported as contested and as held back
-- for the minimum lifetime, whatever takeovers of other registrations come in between.
pub third_takeover_contested :
    (split : String → Option String) (first second third registration : ℕ)
    (peer₁ peer₂ peer₃ : String) (between₁ between₂ : List Call) (c : ChurnWatch)
    (h : List Takeover)
    → history_for registration (sweep first c) ≡ some h
    → second < first + churn_window
    → third < first + churn_window
    → All (IsElsewhere registration (first + churn_window)) between₁
    → All (IsElsewhere registration (first + churn_window)) between₂
    → let c₁ = watch split (record_takeover split first registration peer₁ c).0 between₁ in
      let c₂ = watch split (record_takeover split second registration peer₂ c₁).0 between₂ in
      let v = (record_takeover split third registration peer₃ c₂).1 in
      (v.contested ≡ true) × (v.backoff ≡ minimum_session_lifetime) × (3 ≤ v.takeovers)
third_takeover_contested split first second third registration peer₁ peer₂ peer₃ between₁ between₂ c
      h here soon₂ soon₃ elsewhere₁ elsewhere₂ =
    let a : Takeover = record { at = first; host = host_of split peer₁ } in
    let b : Takeover = record { at = second; host = host_of split peer₂ } in
    let c₁ = watch split (record_takeover split first registration peer₁ c).0 between₁ in
    let c₂ = watch split (record_takeover split second registration peer₂ c₁).0 between₂ in
    let known₁ =
      watch-Remembers split between₁ registration a [] _ elsewhere₁
        (first_takeover split first registration peer₁ c h here) in
    let (h₂, found₂, ends₂, _) =
      next_takeover split second registration peer₂ a [] c₁ soon₂ (omega arith) known₁ in
    let known₂ =
      watch-Remembers split between₂ registration a (b ∷ []) _ elsewhere₂ (h₂, found₂, ends₂) in
    let (h₃, _, (before, e), v) =
      next_takeover split third registration peer₃ a (b ∷ []) c₂ soon₃ (omega arith) known₂ in
    rw v (verdict_of_three h₃ (rw e (omega (arith, length-append before (a ∷ b ∷ _)))))
