-- ===== src/Investigations/History.antt =====
-- Histories of the investigations, and the rows that no statement touches any more.
use Prim.Native.String.{String}
use oc_control_plane.Prelude.{
  ℕ, ◌≡◌, refl, ap, sym, ◌∙◌, inl, inr, Bool, true, false, ◌&&◌, ◌||◌, some, List, [], ◌∷◌, arith,
  ◌==◌, Bool-cases, Option-cases, find, any, any_of_IsIn, any_mono, find-some-IsIn, &&-true,
}
use oc_control_plane.Investigations.Row.{Investigation, Database, Claim}
use oc_control_plane.Investigations.Statements.{
  is_investigation, update_investigations, oldest, claim_investigation, heartbeat, Ending,
  end_investigation, cancel_investigation, insert_by_expiry, by_expiry, recover_stale,
}

-- A call of a writing method of Database, with its arguments and the instant it runs at.
pub data Operation : Type 0 where
  claim : Claim → (ℕ → Bool) → ℕ → Operation
  beat : ℕ → ℕ → Claim → ℕ → Operation
  finish : ℕ → ℕ → ℕ → Ending → ℕ → Operation
  cancel : ℕ → ℕ → ℕ → List ℕ → ℕ → Operation
  recover : String → ℕ → (ℕ → Bool) → ℕ → List ℕ → ℕ → Operation

unfoldable pub step : Database → Operation → Database
step db (claim c locked now) = (claim_investigation c locked now db).0
step db (beat org id c now) = (heartbeat org id c now db).0
step db (finish org id token ending now) = (end_investigation org id token ending now db).0
step db (cancel org id kind payload now) = (cancel_investigation org id kind payload now db).0
step db (recover reason limit locked kind payload now) =
    (recover_stale reason limit locked kind payload now db).0

unfoldable pub run : Database → List Operation → Database
run db [] = db
run db (op ∷ ops) = run (step db op) ops

-- No two rows have one identifier.
abbrev pub IsKeyed : List Investigation → Type 0
IsKeyed [] = Unit {0}
IsKeyed (v ∷ vs) = (any (λ w. w.investigation_id == v.investigation_id) vs ≡ false) × IsKeyed vs

-- A write that leaves the identity of a row alone.
abbrev pub KeepsKey : (Investigation → Investigation) → Type 0
KeepsKey write =
    (v : Investigation)
    → ((write v).investigation_id ≡ v.investigation_id) × ((write v).org_id ≡ v.org_id)

any-update :
    (i : ℕ) (test : Investigation → Bool) (write : Investigation → Investigation)
    (vs : List Investigation)
    → KeepsKey write
    → any (λ w. w.investigation_id == i) (update_investigations test write vs)
      ≡ any (λ w. w.investigation_id == i) vs
unfolding update_investigations
any-update i test write [] same = refl
any-update i test write (v ∷ vs) same = ground (arith, same v, any-update i test write vs same)

pub update-IsKeyed :
    (test : Investigation → Bool) (write : Investigation → Investigation) (vs : List Investigation)
    → KeepsKey write
    → IsKeyed vs
    → IsKeyed (update_investigations test write vs)
unfolding update_investigations
update-IsKeyed test write [] same u = tt
update-IsKeyed test write (v ∷ vs) same u = (
  ground (arith, same v, u.0, any-update v.investigation_id test write vs same),
  update-IsKeyed test write vs same u.1,
)

-- A row that a test does not pass stays what it is.
pub find-update :
    (org id : ℕ) (test : Investigation → Bool) (write : Investigation → Investigation)
    (vs : List Investigation) (v : Investigation)
    → KeepsKey write
    → find (is_investigation org id) vs ≡ some v
    → test v ≡ false
    → find (is_investigation org id) (update_investigations test write vs) ≡ some v
unfolding update_investigations
find-update org id test write [] v same h untouched = cc
find-update org id test write (w ∷ vs) v same h untouched =
    ground (arith, same w, find-update org id test write vs v same)

-- In a keyed table, a test that holds of some row with the identifier of one that is there holds of that one.
pub keyed_test :
    (org id : ℕ) (p : Investigation → Bool) (vs : List Investigation) (v : Investigation)
    → IsKeyed vs
    → find (is_investigation org id) vs ≡ some v
    → any (λ w. p w && (w.investigation_id == v.investigation_id)) vs ≡ true
    → p v ≡ true
keyed_test org id p [] v u h q = cc
keyed_test org id p (w ∷ vs) v u h q = elim (Bool-cases (is_investigation org id w)) [
  | inl hit ↦
      let e : w ≡ v = ground arith in
      elim (Bool-cases (p w)) [
        | inl good ↦ sym (ap p e) ∙ good
        | inr bad ↦ cc (
          u.0,
          any_mono (λ x. p x && (x.investigation_id == v.investigation_id))
              (λ x. x.investigation_id == w.investigation_id) vs
              (λ x k. rw e (&&-true (p x) (x.investigation_id == v.investigation_id) k).1)
              (rw bad at q),
        )
      ]
  | inr miss ↦
      let found : find (is_investigation org id) vs ≡ some v = ground arith in
      elim (Bool-cases (w.investigation_id == v.investigation_id)) [
        | inl same ↦ cc (
          u.0,
          any_of_IsIn (λ x. x.investigation_id == w.investigation_id) v vs
              (find-some-IsIn (is_investigation org id) vs v found).0 (ground arith),
        )
        | inr differs ↦ keyed_test org id p vs v u.1 found (ground arith)
      ]
]

pub oldest-any :
    (q : Investigation → Bool) (vs : List Investigation) (v : Investigation)
    → oldest vs ≡ some v
    → q v ≡ true
    → any q vs ≡ true
unfolding oldest
oldest-any q [] v h k = cc
oldest-any q (w ∷ vs) v h k = elim (Option-cases (oldest vs)) [
  | inl none_left ↦ let e : some w ≡ some v = rw none_left at h in ground (arith, e)
  | inr (x, e) ↦ ground (arith, oldest-any q vs x e, rw e at h)
]

any-insert_by_expiry :
    (q : Investigation → Bool) (v : Investigation) (vs : List Investigation)
    → any q (insert_by_expiry v vs) ≡ (q v || any q vs)
unfolding insert_by_expiry
any-insert_by_expiry q v [] = refl
any-insert_by_expiry q v (w ∷ vs) = ground (arith, any-insert_by_expiry q v vs)

pub any-by_expiry :
    (q : Investigation → Bool) (vs : List Investigation) → any q (by_expiry vs) ≡ any q vs
unfolding by_expiry
any-by_expiry q [] = refl
any-by_expiry q (v ∷ vs) =
    ground (arith, any-insert_by_expiry q v (by_expiry vs), any-by_expiry q vs)
