-- ===== src/Investigations/Endings.antt =====
-- An investigation ends once, whichever of the statements of internal/store/postgres ends it.
use oc_control_plane.Prelude.{
  ℕ, ◌≡◌, ◌≢◌, ◌⊎◌, ◌<◌, ap, holds, refl, inl, inr, Bool, true, false, ◌&&◌, none, some, List, [],
  ◌∷◌, arith, ◌==◌, Bool-cases, find, any, any_of_IsIn, any_mono, find-some-IsIn,
}
use oc_control_plane.Jobs.Statements.{live}
use oc_control_plane.Investigations.Row.{is_running, Investigation, Database, ended, unknown}
use oc_control_plane.Investigations.Statements.{
  is_investigation, update_investigations, holds_lease, release_investigation, Ending, end_row,
  end_investigation,
}
use oc_control_plane.Investigations.History.{Operation, run, IsKeyed, KeepsKey, keyed_test}
use oc_control_plane.Investigations.Lasting.{Stands, run-Stands}

none_held :
    (org id token now : ℕ) (vs : List Investigation) (v : Investigation)
    → is_running v.status ≡ false
    → Stands org id v vs
    → any (holds_lease org id token now) vs ≡ false
none_held org id token now vs v finished s =
    elim (Bool-cases (any (holds_lease org id token now) vs)) [
      | inr none_there ↦ none_there
      | inl one ↦
          let key = (find-some-IsIn (is_investigation org id) vs v s.found).1 in
          let held = keyed_test org id (holds_lease org id token now) vs v s.keyed s.found (
            any_mono (holds_lease org id token now)
              (λ w. holds_lease org id token now w && (w.investigation_id == v.investigation_id)) vs
              (λ w k. ground arith) one) in
          ground arith
    ]

-- An investigation ends once. In a keyed table, a row that is not running is the same after any
-- history of claims, heartbeats, endings, cancellations and recoveries, and an ending under any
-- token then changes nothing and is refused.
pub ended_once :
    (org id token now : ℕ) (ending : Ending) (v : Investigation) (db : Database)
    (ops : List Operation)
    → IsKeyed db.investigations
    → find (is_investigation org id) db.investigations ≡ some v
    → is_running v.status ≡ false
    → (find (is_investigation org id) (run db ops).investigations ≡ some v)
      × (end_investigation org id token ending now (run db ops) ≡ (run db ops, unknown))
unfolding end_investigation
ended_once org id token now ending v db ops u h finished =
    let s = run-Stands org id v db ops finished (record { keyed = u; found = h }) in
    (s.found, rw (none_held org id token now (run db ops).investigations v finished s) refl)

find-update-held :
    (org id : ℕ) (test : Investigation → Bool) (write : Investigation → Investigation)
    (vs : List Investigation) (v : Investigation)
    → KeepsKey write
    → find (is_investigation org id) vs ≡ some v
    → test v ≡ true
    → find (is_investigation org id) (update_investigations test write vs) ≡ some (write v)
unfolding update_investigations
find-update-held org id test write [] v same h hit = cc
find-update-held org id test write (w ∷ vs) v same h hit =
    ground (arith, same w, find-update-held org id test write vs v same)

-- The lease decides. An ending under the token of the row's lease, before the lease runs out and
-- while the investigation runs, ends it: status, conclusion, what stopped it, its error and its spend
-- are those of the ending, it is concluded at that moment, no worker, token or expiry of a lease is
-- left, and every other column that is modelled is as it was.
pub held_lease_ends :
    (org id token now until : ℕ) (ending : Ending) (v : Investigation) (db : Database)
    → find (is_investigation org id) db.investigations ≡ some v
    → is_running v.status ≡ true
    → v.lease_token ≡ some token
    → v.lease_expires_at ≡ some until
    → now < until
    → let after = end_investigation org id token ending now db in
      (after.1 ≡ ended)
      × ((w : Investigation) × (find (is_investigation org id) after.0.investigations ≡ some w)
          × (w ≡ record v {
            status = ending.status;
            conclusion = ending.conclusion;
            stopped_by = ending.stopped_by;
            error = ending.reason;
            spend_input_tokens = ending.usage.input_tokens;
            spend_output_tokens = ending.usage.output_tokens;
            concluded_at = some now;
            lease_worker = "";
            lease_token = none;
            lease_expires_at = none;
          }))
unfolding end_investigation end_row release_investigation
held_lease_ends org id token now until ending v db h running_still leased_to lasts in_time =
    let key = find-some-IsIn (is_investigation org id) db.investigations v h in
    let held : holds_lease org id token now v ≡ true =
      ground (arith, key.1, ap (λ t. holds t token) leased_to, ap (λ t. live t now) lasts) in
    rw (any_of_IsIn (holds_lease org id token now) v db.investigations key.0 held) (
      refl,
      (
        end_row ending now v,
        find-update-held org id (holds_lease org id token now) (end_row ending now)
            db.investigations v (λ w. (refl, refl)) h held,
        refl,
      ),
    )

not_both : (a b : Bool) → (a ≡ false) ⊎ (b ≡ false) → (a && b) ≢ true
not_both a b (inl neither) h = ground arith
not_both a b (inr neither) h = ground arith

-- In a keyed table, an ending under another token than that of the row's lease, or at or after the
-- moment the lease runs out, is refused and changes nothing.
pub lost_lease_refused :
    (org id token now : ℕ) (ending : Ending) (v : Investigation) (db : Database)
    → IsKeyed db.investigations
    → find (is_investigation org id) db.investigations ≡ some v
    → (holds v.lease_token token ≡ false) ⊎ (live v.lease_expires_at now ≡ false)
    → end_investigation org id token ending now db ≡ (db, unknown)
unfolding end_investigation
lost_lease_refused org id token now ending v db u h lost =
    elim (Bool-cases (any (holds_lease org id token now) db.investigations)) [
      | inr none_there ↦ rw none_there refl
      | inl one ↦
          let key = (find-some-IsIn (is_investigation org id) db.investigations v h).1 in
          let held : holds_lease org id token now v ≡ true =
            keyed_test org id (holds_lease org id token now) db.investigations v u h (
              any_mono (holds_lease org id token now)
                (λ w. holds_lease org id token now w && (w.investigation_id == v.investigation_id))
                db.investigations (λ w k. ground arith) one) in
          absurd
            (not_both (holds v.lease_token token) (live v.lease_expires_at now) lost (ground arith))
    ]
