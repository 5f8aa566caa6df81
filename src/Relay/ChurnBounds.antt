-- ===== src/Relay/ChurnBounds.antt =====
-- What the watch of internal/relay/churn.go remembers, and what its verdicts mean.
use Prim.Native.String.{String}
use oc_control_plane.Prelude.{
  ℕ, ◌+◌, ◌≤◌, ◌<◌, ◌≡◌, ◌⊎◌, ◌↔◌, refl, inl, inr, true, false, Option, none, some, List, [], ◌∷◌,
  arith, leb, ltb, ◌==◌, Bool-cases, Option-cases, length, length-append, length-drop, All, lookup,
  lookup-All, All-insert, length-insert,
}
use oc_control_plane.Relay.Churn.{
  Takeover, ChurnWatch, churn_window, churn_memory, max_tracked_registrations,
  minimum_session_lifetime, new_churn_watch, forget_old, make_room, add_takeover, distinct_hosts,
  verdict, sweep_entries, sweep, host_of, history_for, record_takeover,
}

length-forget_old : (now : ℕ) (ts : List Takeover) → length (forget_old now ts) ≤ length ts
unfolding forget_old
length-forget_old now [] = omega arith
length-forget_old now (t ∷ ts) = ground (arith, length-forget_old now ts)

length-add_takeover :
    (now : ℕ) (host : String) (ts : List Takeover)
    → length ts ≤ churn_memory
    → length (add_takeover now host ts) ≤ churn_memory
unfolding add_takeover
length-add_takeover now host ts h = ground (
  arith,
  length-forget_old now ts,
  length-drop 1 (forget_old now ts),
  length-append (make_room (forget_old now ts)) (record { at = now; host = host } ∷ []),
)

abbrev pub Fits : ℕ × List Takeover → Type 0
Fits e = length e.1 ≤ churn_memory

-- No history is longer than the memory, and no more registrations are tracked than may be.
pub record IsBounded (c : ChurnWatch) : Type 0 where
  pub remembered : All Fits c.by_registration
  pub tracked : length c.by_registration ≤ max_tracked_registrations

sweep_entries-Fits :
    (now : ℕ) (m : List (ℕ × List Takeover)) → All Fits m → All Fits (sweep_entries now m)
unfolding sweep_entries
sweep_entries-Fits now [] h = tt
sweep_entries-Fits now ((r, ts) ∷ m) h = elim (Bool-cases (length (forget_old now ts) == 0)) [
  | inl empty ↦ rw empty (sweep_entries-Fits now m h.1)
  | inr some_left ↦
      rw some_left (omega (arith, length-forget_old now ts, h.0), sweep_entries-Fits now m h.1)
]

length-sweep_entries :
    (now : ℕ) (m : List (ℕ × List Takeover)) → length (sweep_entries now m) ≤ length m
unfolding sweep_entries
length-sweep_entries now [] = omega arith
length-sweep_entries now ((r, ts) ∷ m) = ground (arith, length-sweep_entries now m)

sweep-IsBounded : (now : ℕ) (c : ChurnWatch) → IsBounded c → IsBounded (sweep now c)
unfolding sweep
sweep-IsBounded now c b = elim (Bool-cases (ltb now (c.last_swept + churn_window))) [
  | inl early ↦ rw early b
  | inr due ↦ rw due (record {
    remembered = sweep_entries-Fits now c.by_registration b.remembered;
    tracked = omega (arith, length-sweep_entries now c.by_registration, b.tracked);
  })
]

-- A history is found where it is kept, or is new where there is room.
pub history_for-cases :
    (registration : ℕ) (c : ChurnWatch)
    → (history_for registration c ≡ none)
      ⊎ ((h : List Takeover) × (history_for registration c ≡ some h)
          × ((lookup registration c.by_registration ≡ some h)
              ⊎ ((h ≡ [])
                  × (lookup registration c.by_registration ≡ none)
                  × (length c.by_registration < max_tracked_registrations))))
unfolding history_for
history_for-cases registration c = elim (Option-cases (lookup registration c.by_registration)) [
  | inr (h, found) ↦ inr (h, rw (found, history_for), inl found)
  | inl missing ↦ elim (Bool-cases (leb max_tracked_registrations (length c.by_registration))) [
    | inl full ↦ inl (rw (missing, history_for) (rw full))
    | inr room ↦ inr ([], rw (missing, history_for) (rw room), inr (refl, missing, ground arith))
  ]
]

history_fits :
    (registration : ℕ) (c : ChurnWatch) (h : List Takeover)
    → IsBounded c
    → (lookup registration c.by_registration ≡ some h)
      ⊎ ((h ≡ [])
          × (lookup registration c.by_registration ≡ none)
          × (length c.by_registration < max_tracked_registrations))
    → length h ≤ churn_memory
history_fits registration c h b (inl found) =
    lookup-All Fits registration h c.by_registration b.remembered found
history_fits registration c h b (inr (e, _, _)) = rw e (omega arith)

record_takeover-IsBounded :
    (split : String → Option String) (now registration : ℕ) (peer : String) (c : ChurnWatch)
    → IsBounded c
    → IsBounded (record_takeover split now registration peer c).0
unfolding record_takeover
record_takeover-IsBounded split now registration peer c b =
    elim (history_for-cases registration (sweep now c)) [
      | inl none_left ↦ rw (none_left, record_takeover) swept
      | inr (history, found, tracked_or_room) ↦
          rw (found, record_takeover)
            (record {
              remembered =
                  All-insert Fits registration _ (sweep now c).by_registration swept.remembered (
                    length-add_takeover now (host_of split peer) history
                      (history_fits registration (sweep now c) history swept tracked_or_room));
              tracked = ground (
                arith,
                length-insert registration (add_takeover now (host_of split peer) history)
                    (sweep now c).by_registration,
                swept,
                tracked_or_room,
              );
            })
    ]
  where
    swept : IsBounded (sweep now c)
    swept = sweep-IsBounded now c b

-- A call of churnWatch.record: the clock, the registration and the peer's address.
pub record Call : Type 0 where
  pub now : ℕ
  pub registration : ℕ
  pub peer : String

unfoldable pub watch : (String → Option String) → ChurnWatch → List Call → ChurnWatch
watch split c [] = c
watch split c (k ∷ ks) = watch split (record_takeover split k.now k.registration k.peer c).0 ks

watch-IsBounded :
    (split : String → Option String) (c : ChurnWatch) (ks : List Call)
    → IsBounded c
    → IsBounded (watch split c ks)
unfolding watch
watch-IsBounded split c [] b = b
watch-IsBounded split c (k ∷ ks) b =
    watch-IsBounded split (record_takeover split k.now k.registration k.peer c).0 ks
      (record_takeover-IsBounded split k.now k.registration k.peer c b)

-- Whatever takeovers are recorded at whatever times, a new watch never remembers more than eight
-- takeovers of a registration, nor tracks more than 4096 registrations.
pub churn_watch-IsBounded :
    (split : String → Option String) (ks : List Call) → IsBounded (watch split new_churn_watch ks)
unfolding new_churn_watch
churn_watch-IsBounded split ks =
    watch-IsBounded split new_churn_watch ks (record { remembered = tt; tracked = omega arith })

distinct_hosts-le : (ts : List Takeover) → distinct_hosts ts ≤ length ts
unfolding distinct_hosts
distinct_hosts-le [] = omega arith
distinct_hosts-le (t ∷ ts) = ground (arith, distinct_hosts-le ts)

-- A registration is contested exactly when three takeovers are remembered or two hosts are
-- contending, and one that is contested holds new work back for a session's minimum lifetime.
pub verdict-contested :
    (ts : List Takeover)
    → (((verdict ts).contested ≡ true) ↔ ((3 ≤ length ts) ⊎ (2 ≤ distinct_hosts ts)))
      × (((verdict ts).contested ≡ false) ⊎ ((verdict ts).backoff ≡ minimum_session_lifetime))
unfolding verdict
verdict-contested ts = (ground (arith, distinct_hosts-le ts), ground (arith, distinct_hosts-le ts))
