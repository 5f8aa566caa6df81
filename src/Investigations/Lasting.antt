-- ===== src/Investigations/Lasting.antt =====
-- No statement of internal/store/postgres touches the row of an investigation that is not running.
use text.Mathlib.Text.{◌==◌ as str_eq}
use oc_control_plane.Prelude.{
  ℕ, ◌≡◌, refl, inl, inr, Bool, false, not, ◌&&◌, some, List, [], ◌∷◌, arith, ◌==◌, max, Bool-cases,
  Option-cases, find, any, keep, take, contains, any-map, any-take, any-keep,
}
use oc_control_plane.Investigations.Row.{is_running, Investigation, Database, Claim}
use oc_control_plane.Investigations.Statements.{
  is_investigation, update_investigations, holds_lease, is_waiting, oldest, lease_row,
  claim_investigation, renew_row, heartbeat, release_investigation, Ending, end_row,
  end_investigation, cancel_investigation_row, cancel_investigation, is_stale, by_expiry,
  recover_row, swept, recover_stale,
}
use oc_control_plane.Investigations.History.{
  Operation, claim, beat, finish, cancel, recover, step, run, IsKeyed, KeepsKey, update-IsKeyed,
  find-update, keyed_test, oldest-any, any-by_expiry,
}

-- The table is keyed, and the row of the identifier is this one.
pub record Stands (org id : ℕ) (v : Investigation) (vs : List Investigation) : Type 0 where
  pub keyed : IsKeyed vs
  pub found : find (is_investigation org id) vs ≡ some v

update-Stands :
    (org id : ℕ) (test : Investigation → Bool) (write : Investigation → Investigation)
    (vs : List Investigation) (v : Investigation)
    → KeepsKey write
    → test v ≡ false
    → Stands org id v vs
    → Stands org id v (update_investigations test write vs)
update-Stands org id test write vs v same untouched s = record {
  keyed = update-IsKeyed test write vs same s.keyed;
  found = find-update org id test write vs v same s.found untouched;
}

-- No row with the identifier of one that is not running is waiting or stale.
not_waiting :
    (org id : ℕ) (locked : ℕ → Bool) (vs : List Investigation) (v c : Investigation)
    → Stands org id v vs
    → is_running v.status ≡ false
    → oldest (keep (λ w. is_waiting w && not (locked w.investigation_id)) vs) ≡ some c
    → (v.investigation_id == c.investigation_id) ≡ false
not_waiting org id locked vs v c s finished h =
    elim (Bool-cases (v.investigation_id == c.investigation_id)) [
      | inr differs ↦ differs
      | inl same ↦
          let waits = keyed_test org id open_to_claim vs v s.keyed s.found (
            any-keep open_to_claim (λ w. w.investigation_id == v.investigation_id) vs
              (oldest-any (λ w. w.investigation_id == v.investigation_id) (keep open_to_claim vs) c
                h (ground arith))) in
          ground arith
    ]
  where
    open_to_claim : Investigation → Bool
    open_to_claim w = is_waiting w && not (locked w.investigation_id)

not_swept :
    (org id limit now : ℕ) (locked : ℕ → Bool) (vs : List Investigation) (v : Investigation)
    → Stands org id v vs
    → is_running v.status ≡ false
    → contains (swept locked limit now vs) v.investigation_id ≡ false
unfolding swept
not_swept org id limit now locked vs v s finished =
    elim (Bool-cases (contains (swept locked limit now vs) v.investigation_id)) [
      | inr out ↦ out
      | inl hit ↦
          let gone = keyed_test org id lost vs v s.keyed s.found (
            any-keep lost is_key vs (
              rw (any-by_expiry is_key (keep lost vs)) at (
                any-take limit is_key (by_expiry (keep lost vs)) (
                  rw
                    (any-map (λ x. x == v.investigation_id)
                      (λ (w : Investigation). w.investigation_id)
                      (take limit (by_expiry (keep lost vs))))
                    at hit)))) in
          ground arith
    ]
  where
    lost : Investigation → Bool
    lost w = is_stale now w && not (locked w.investigation_id)

    is_key : Investigation → Bool
    is_key w = w.investigation_id == v.investigation_id

claim-Stands :
    (org id : ℕ) (v : Investigation) (db : Database) (c : Claim) (locked : ℕ → Bool) (now : ℕ)
    → is_running v.status ≡ false
    → Stands org id v db.investigations
    → Stands org id v (claim_investigation c locked now db).0.investigations
unfolding claim_investigation lease_row
claim-Stands org id v db c locked now finished s =
    elim (Option-cases
      (oldest (keep (λ w. is_waiting w && not (locked w.investigation_id)) db.investigations))) [
        | inl none_waiting ↦ rw (none_waiting, claim_investigation) s
        | inr (w, e) ↦
            rw (e, claim_investigation)
              (update-Stands org id (λ x. x.investigation_id == w.investigation_id)
                (lease_row c now) db.investigations v (λ x. (refl, refl))
                (not_waiting org id locked db.investigations v w s finished e) s)
      ]

end-Stands :
    (org id : ℕ) (v : Investigation) (db : Database) (org' id' token : ℕ) (ending : Ending)
    (now : ℕ)
    → is_running v.status ≡ false
    → Stands org id v db.investigations
    → Stands org id v (end_investigation org' id' token ending now db).0.investigations
unfolding end_investigation end_row release_investigation
end-Stands org id v db org' id' token ending now finished s =
    elim (Bool-cases (any (holds_lease org' id' token now) db.investigations)) [
      | inl held ↦ rw held (
          update-Stands org id (holds_lease org' id' token now) (end_row ending now)
            db.investigations v (λ x. (refl, refl)) (ground arith) s)
      | inr lost ↦ rw lost s
    ]

cancel-Stands :
    (org id : ℕ) (v : Investigation) (db : Database) (org' id' kind : ℕ) (payload : List ℕ)
    (now : ℕ)
    → is_running v.status ≡ false
    → Stands org id v db.investigations
    → Stands org id v (cancel_investigation org' id' kind payload now db).0.investigations
unfolding cancel_investigation cancel_investigation_row release_investigation
cancel-Stands org id v db org' id' kind payload now finished s =
    elim (Bool-cases
      (any (λ w. is_investigation org' id' w && is_running w.status) db.investigations)) [
        | inl there ↦ rw there (
            update-Stands org id (λ w. is_investigation org' id' w && is_running w.status)
              (cancel_investigation_row now) db.investigations v (λ x. (refl, refl)) (ground arith)
              s)
        | inr gone ↦ elim (Bool-cases (any (is_investigation org' id') db.investigations)) [
          | inl ended_before ↦ rw (gone, ended_before) s
          | inr not_there ↦ rw (gone, not_there) s
        ]
      ]

step-Stands :
    (org id : ℕ) (v : Investigation) (db : Database) (op : Operation)
    → is_running v.status ≡ false
    → Stands org id v db.investigations
    → Stands org id v (step db op).investigations
unfolding step heartbeat recover_stale renew_row recover_row release_investigation
step-Stands org id v db (claim c locked now) finished s =
    claim-Stands org id v db c locked now finished s
step-Stands org id v db (beat org' id' c now) finished s =
    update-Stands org id (λ w. holds_lease org' id' c.token now w && str_eq w.lease_worker c.worker)
      (renew_row c now) db.investigations v (λ x. (refl, refl)) (ground arith) s
step-Stands org id v db (finish org' id' token ending now) finished s =
    end-Stands org id v db org' id' token ending now finished s
step-Stands org id v db (cancel org' id' kind payload now) finished s =
    cancel-Stands org id v db org' id' kind payload now finished s
step-Stands org id v db (recover reason limit locked kind payload now) finished s =
    update-Stands org id
      (λ w. contains (swept locked (max limit 1) now db.investigations) w.investigation_id)
      (recover_row reason now) db.investigations v (λ x. (refl, refl))
      (not_swept org id (max limit 1) now locked db.investigations v s finished) s

pub run-Stands :
    (org id : ℕ) (v : Investigation) (db : Database) (ops : List Operation)
    → is_running v.status ≡ false
    → Stands org id v db.investigations
    → Stands org id v (run db ops).investigations
unfolding run
run-Stands org id v db [] finished s = s
run-Stands org id v db (op ∷ ops) finished s =
    run-Stands org id v (step db op) ops finished (step-Stands org id v db op finished s)
