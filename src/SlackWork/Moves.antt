-- ===== src/SlackWork/Moves.antt =====
-- What each statement of internal/store/postgres/slack_message_work.go does to a row: the writing
-- moves the state that the row stands for along the steps of the machine.
use Prim.Native.String.{String}
use text.Mathlib.Text.{◌==◌ as str_eq}
use oc_control_plane.Prelude.{
  ℕ, suc, ◌≡◌, refl, inl, inr, Bool, true, false, not, ◌&&◌, ◌||◌, some, List, [], ◌∷◌, ◌++◌, arith,
  Bool-cases, Option-cases, keep, ltb, ◌==◌, ◌+◌, find, any, subst, if◌then◌else◌,
}
use oc_control_plane.SlackWork.Rows.{
  WorkStatus, ready, leased, retry, terminal, complete, is_leased, is_terminal, is_waiting, WorkRow,
  Held,
}
use oc_control_plane.SlackWork.Queue.{
  update, is_work, is_held, enqueue_slack_message_work, is_message, claimable, oldest, lease_row,
  claim_slack_message_work, complete_row, complete_slack_message_work, is_buried, revive_row,
  apply_slack_message_work,
}
use oc_control_plane.SlackWork.Machine.{
  State, waiting, held, buried, finished, grant, take_over, give_back, bury, finish, revive, Steps,
  stays, one,
}

abbrev pub state_at : WorkStatus → ℕ → State
state_at ready e = waiting e
state_at retry e = waiting e
state_at leased e = held e
state_at terminal e = buried e
state_at complete e = finished e

-- The state that a row stands for.
abbrev pub state_of : WorkRow → State
state_of row = state_at row.status row.lease_epoch

-- The table has the work still, and its state is one that the machine reaches from `s`.
pub record IsReached (org id : ℕ) (s : State) (rows : List WorkRow) : Type 0 where
  pub row : WorkRow
  pub found : find (is_work org id) rows ≡ some row
  pub steps : Steps s (state_of row)

-- A writing that leaves a row its name, and moves the state of the rows that it is for.
pub record IsMove (test : WorkRow → Bool) (write : WorkRow → WorkRow) : Type 0 where
  pub same : (org id : ℕ) (r : WorkRow) → is_work org id (write r) ≡ is_work org id r
  pub moved : (r : WorkRow) → test r ≡ true → Steps (state_of r) (state_of (write r))

update-IsReached :
    (org id : ℕ) (test : WorkRow → Bool) (write : WorkRow → WorkRow)
    → IsMove test write
    → (rows : List WorkRow) (r : WorkRow) → find (is_work org id) rows ≡ some r
    → IsReached org id (state_of r) (update test write rows)
update-IsReached org id test write m [] r h = absurd (ground arith)
update-IsReached org id test write m (x ∷ rows) r h = elim (Bool-cases (is_work org id x)) [
  | inr other ↦
      let rest = update-IsReached org id test write m rows r (ground arith) in
      record {
        row = rest.row;
        found = elim (Bool-cases (test x)) [
          | inl hit ↦ let same = m.same org id x in let after = rest.found in ground arith
          | inr miss ↦ let after = rest.found in ground arith
        ];
        steps = rest.steps;
      }
  | inl hit ↦
      let same : x ≡ r = ground arith in
      elim (Bool-cases (test x)) [
        | inl chosen ↦ record {
          row = write x;
          found = let kept = m.same org id x in ground arith;
          steps = subst (λ v. Steps (state_of v) (state_of (write x))) same (m.moved x chosen);
        }
        | inr passed ↦ record {
          row = x;
          found = ground arith;
          steps = subst (λ v. Steps (state_of v) (state_of x)) same stays;
        }
      ]
]

grants :
    (s : WorkStatus) (e : ℕ)
    → (is_waiting s || is_leased s) ≡ true
    → Steps (state_at s e) (held (suc e))
grants ready e h = one _ _ (grant e)
grants retry e h = one _ _ (grant e)
grants leased e h = one _ _ (take_over e)
grants terminal e h = absurd (ground arith)
grants complete e h = absurd (ground arith)

held_moves :
    (s : WorkStatus) (e : ℕ) (t : State)
    → is_leased s ≡ true
    → Steps (held e) t
    → Steps (state_at s e) t
held_moves leased e t h step = step
held_moves ready e t h step = absurd (ground arith)
held_moves retry e t h step = absurd (ground arith)
held_moves terminal e t h step = absurd (ground arith)
held_moves complete e t h step = absurd (ground arith)

buried_moves : (s : WorkStatus) (e : ℕ) → is_terminal s ≡ true → Steps (state_at s e) (waiting e)
buried_moves terminal e h = one _ _ (revive e)
buried_moves ready e h = absurd (ground arith)
buried_moves retry e h = absurd (ground arith)
buried_moves leased e h = absurd (ground arith)
buried_moves complete e h = absurd (ground arith)

claim-IsMove :
    (org id : ℕ) (owner : String) (lease now : ℕ)
    → IsMove (λ row. is_work org id row && claimable now row) (lease_row owner lease now)
unfolding lease_row claimable
claim-IsMove org id owner lease now = record {
  same = λ o i r. refl;
  moved = λ r h. grants r.status r.lease_epoch (ground arith);
}

pub held-IsMove :
    (h : Held) (now : ℕ) (write : WorkRow → WorkRow)
    → ((o i : ℕ) (r : WorkRow) → is_work o i (write r) ≡ is_work o i r)
    → ((r : WorkRow) → Steps (held r.lease_epoch) (state_of (write r)))
    → IsMove (is_held h now) write
unfolding is_held
held-IsMove h now write same moved = record {
  same = same;
  moved = λ r hit. held_moves r.status r.lease_epoch (state_of (write r)) (ground arith) (moved r);
}

pub recover-IsMove :
    (org conversation sequence now : ℕ)
    → IsMove (is_buried org conversation sequence) (revive_row now)
recover-IsMove org conversation sequence now = record {
  same = λ o i r. refl;
  moved = λ r h. buried_moves r.status r.lease_epoch (ground arith);
}

-- What a step of the table does to a row of it, whichever the row is.
abbrev pub IsRealised : (List WorkRow → List WorkRow) → Type 0
IsRealised change =
    (org id : ℕ) (rows : List WorkRow) (r : WorkRow)
    → find (is_work org id) rows ≡ some r
    → IsReached org id (state_of r) (change rows)

pub unchanged-IsRealised : IsRealised (λ rows. rows)
unchanged-IsRealised org id rows r h = record { row = r; found = h; steps = stays }

find-append :
    (p : WorkRow → Bool) (rows more : List WorkRow) (r : WorkRow)
    → find p rows ≡ some r
    → find p (rows ++ more) ≡ some r
find-append p [] more r h = absurd (ground arith)
find-append p (x ∷ rows) more r h = elim (Bool-cases (p x)) [
  | inl hit ↦ ground arith
  | inr miss ↦ let rest = find-append p rows more r (ground arith) in ground arith
]

pub enqueue-IsRealised :
    (id org delivery conversation sequence now : ℕ)
    → IsRealised (enqueue_slack_message_work id org delivery conversation sequence now)
unfolding enqueue_slack_message_work
enqueue-IsRealised id org delivery conversation sequence now o i rows r h =
    elim (Bool-cases (
      any (λ row. (row.work_id == id) || is_message org delivery conversation sequence row) rows)) [
        | inl hit ↦ rw hit (unchanged-IsRealised o i rows r h)
        | inr miss ↦
            rw miss
              (record { row = r; found = find-append (is_work o i) rows _ r h; steps = stays })
      ]

pub claim-IsRealised :
    (owner : String) (lease : ℕ) (locked : ℕ → Bool) (now : ℕ)
    → IsRealised (λ rows. (claim_slack_message_work owner lease locked now rows).0)
unfolding claim_slack_message_work
claim-IsRealised owner lease locked now org id rows r h =
    elim (Bool-cases (str_eq owner "" || (lease == 0))) [
      | inl refused ↦ rw (refused) (unchanged-IsRealised org id rows r h)
      | inr named ↦
          elim (Option-cases
            (oldest (keep (λ row. claimable now row && not (locked row.work_id)) rows))) [
              | inl nothing ↦ rw (named, nothing) (unchanged-IsRealised org id rows r h)
              | inr (selected, chosen) ↦
                  rw (named, chosen)
                    (update-IsReached org id _ _
                      (claim-IsMove selected.org_id selected.work_id owner lease now) rows r h)
            ]
    ]

pub update-IsRealised :
    (test : WorkRow → Bool) (write : WorkRow → WorkRow)
    → IsMove test write
    → IsRealised (update test write)
update-IsRealised test write m org id rows r h = update-IsReached org id test write m rows r h

pub apply-IsRealised :
    (work : Held) (limit queued : ℕ) (opened : Bool) (now : ℕ)
    → IsRealised (λ rows. (apply_slack_message_work work limit queued opened now rows).0)
unfolding apply_slack_message_work complete_slack_message_work
apply-IsRealised work limit queued opened now org id rows r h =
    elim (Bool-cases (ltb 0 limit && ltb limit (queued + 1))) [
      | inl full ↦ rw full (unchanged-IsRealised org id rows r h)
      | inr free ↦ elim (Bool-cases (any (is_held work now) rows)) [
        | inl kept ↦
            rw (free, kept)
              (update-IsReached org id _ _
                (held-IsMove work now complete_row (λ o i r. refl)
                  (λ r. one _ _ (finish r.lease_epoch)))
                rows r h)
        | inr lost ↦ rw (free, lost) (unchanged-IsRealised org id rows r h)
      ]
    ]

pub ends :
    (is_last : Bool) (e : ℕ) → Steps (held e) (state_at (if is_last then terminal else retry) e)
ends true e = one _ _ (bury e)
ends false e = one _ _ (give_back e)
