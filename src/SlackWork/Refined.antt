-- ===== src/SlackWork/Refined.antt =====
-- How internal/store/postgres/slack_message_work.go realises the machine: every statement, in any
-- order, moves the row of a piece of work along its steps.
use Prim.Native.String.{String}
use oc_control_plane.Prelude.{
  ℕ, leb, ◌*◌, ◌⊎◌, ◌≡◌, refl, inl, inr, Bool, some, List, [], ◌∷◌, Bool-cases, Option-cases, find,
  if◌then◌else◌,
}
use oc_control_plane.SlackWork.Rows.{retry, terminal, WorkRow, Held}
use oc_control_plane.SlackWork.Queue.{
  is_work, enqueue_slack_message_work, max_attempts, claim_slack_message_work,
  heartbeat_slack_message_work, transition_row, fail_slack_message_work, defer_row,
  defer_slack_message_work, recover_slack_message, Applied, applied, at_capacity, lease_lost,
  apply_slack_message_work,
}
use oc_control_plane.SlackWork.Machine.{State, give_back, stays, one, join}
use oc_control_plane.SlackWork.Moves.{
  state_of, IsReached, IsRealised, update-IsRealised, enqueue-IsRealised, claim-IsRealised,
  apply-IsRealised, held-IsMove, recover-IsMove, ends, unchanged-IsRealised,
}
use oc_control_plane.SlackWork.Worker.{
  MessageWorker, fail as failed, process_one, or_default, second,
}

pub data Operation : Type 0 where
  enqueue : ℕ → ℕ → ℕ → ℕ → ℕ → Operation
  claim : String → ℕ → (ℕ → Bool) → Operation
  beat : Held → ℕ → Operation
  apply : Held → ℕ → ℕ → Bool → Operation
  fail : Held → Bool → ℕ → String → String → Operation
  defer : Held → ℕ → Operation
  recover : ℕ → ℕ → ℕ → Operation
  process : MessageWorker → (ℕ → Bool) → ℕ → ℕ → ℕ → Bool → Bool → Operation

unfoldable pub step : Operation → ℕ → List WorkRow → List WorkRow
step (enqueue id org delivery conversation sequence) now rows =
    enqueue_slack_message_work id org delivery conversation sequence now rows
step (claim owner lease locked) now rows = (claim_slack_message_work owner lease locked now rows).0
step (beat work lease) now rows = (heartbeat_slack_message_work work lease now rows).0
step (apply work limit queued opened) now rows =
    (apply_slack_message_work work limit queued opened now rows).0
step (fail work is_last delay class message) now rows =
    (fail_slack_message_work work is_last delay class message now rows).0
step (defer work delay) now rows = (defer_slack_message_work work delay now rows).0
step (recover org conversation sequence) now rows =
    (recover_slack_message org conversation sequence now rows).0
step (process worker locked later last queued opened breaks) now rows =
    (process_one worker locked now later last queued opened breaks rows).0

-- The operations of a history, each with its instant.
unfoldable pub run : List (Operation × ℕ) → List WorkRow → List WorkRow
run [] rows = rows
run ((operation, now) ∷ rest) rows = run rest (step operation now rows)

further :
    (change : List WorkRow → List WorkRow)
    → IsRealised change
    → (org id : ℕ) (s : State) (rows : List WorkRow) → IsReached org id s rows
    → IsReached org id s (change rows)
further change realised org id s rows before =
    let after = realised org id rows before.row before.found in
    record { row = after.row; found = after.found; steps = join before.steps after.steps }

fail-IsRealised :
    (work : Held) (is_last : Bool) (delay : ℕ) (class message : String) (now : ℕ)
    → IsRealised (λ rows. (fail_slack_message_work work is_last delay class message now rows).0)
unfolding fail_slack_message_work
fail-IsRealised work is_last delay class message now = update-IsRealised _ _ (
    held-IsMove work now
      (transition_row (if is_last then terminal else retry) delay now class message) (λ o i r. refl)
      (λ r. ends is_last r.lease_epoch))

defer-IsRealised :
    (work : Held) (delay now : ℕ)
    → IsRealised (λ rows. (defer_slack_message_work work delay now rows).0)
unfolding defer_slack_message_work
defer-IsRealised work delay now = update-IsRealised _ _ (
    held-IsMove work now (defer_row delay now) (λ o i r. refl)
      (λ r. one _ _ (give_back r.lease_epoch)))

Applied-cases :
    (a : Applied) → ((turn : Bool) × (a ≡ applied turn)) ⊎ ((a ≡ at_capacity) ⊎ (a ≡ lease_lost))
Applied-cases (applied turn) = inl (turn, refl)
Applied-cases at_capacity = inr (inl refl)
Applied-cases lease_lost = inr (inr refl)

process-IsRealised :
    (w : MessageWorker) (locked : ℕ → Bool) (now later last queued : ℕ) (opened breaks : Bool)
    → IsRealised (λ rows. (process_one w locked now later last queued opened breaks rows).0)
unfolding process_one failed
process-IsRealised w locked now later last queued opened breaks org id rows r h =
    elim (Option-cases (claim_slack_message_work w.owner lease locked now rows).1) [
      | inl none_due ↦ rw (process_one, none_due) first
      | inr (work, due) ↦
          let tried =
            further _ (apply-IsRealised work w.max_waiting_turns queued opened later) org id
              (state_of r) claimed first in
          elim (Bool-cases (leb max_attempts work.attempts)) [
            | inl spent ↦
                rw (process_one, due, spent)
                  (further _ (fail-IsRealised work _ _ _ _ later) org id (state_of r) claimed first)
            | inr early ↦ elim (Bool-cases breaks) [
              | inl broken ↦
                  rw (process_one, due, early, broken)
                    (further _ (fail-IsRealised work _ _ _ _ last) org id (state_of r) claimed
                      first)
              | inr works ↦
                  elim (Applied-cases
                    (apply_slack_message_work work w.max_waiting_turns queued opened later
                      claimed).1) [
                        | inl (turn, done) ↦ rw (process_one, due, early, works, done) tried
                        | inr (inl full) ↦
                            rw (process_one, due, early, works, full)
                              (further _ (defer-IsRealised work second last) org id (state_of r) _
                                tried)
                        | inr (inr lost) ↦ rw (process_one, due, early, works, lost) tried
                      ]
            ]
          ]
    ]
  where
    lease : ℕ
    lease = or_default (60 * second) w.lease

    claimed : List WorkRow
    claimed = (claim_slack_message_work w.owner lease locked now rows).0

    first : IsReached org id (state_of r) claimed
    first = claim-IsRealised w.owner lease locked now org id rows r h

step-IsRealised : (operation : Operation) (now : ℕ) → IsRealised (step operation now)
unfolding step heartbeat_slack_message_work fail_slack_message_work defer_slack_message_work
    recover_slack_message
step-IsRealised (enqueue id org delivery conversation sequence) now =
    enqueue-IsRealised id org delivery conversation sequence now
step-IsRealised (claim owner lease locked) now = claim-IsRealised owner lease locked now
step-IsRealised (beat work lease) now =
    update-IsRealised _ _ (record { same = λ o i r. refl; moved = λ r hit. stays })
step-IsRealised (apply work limit queued opened) now = apply-IsRealised work limit queued opened now
step-IsRealised (fail work is_last delay class message) now =
    fail-IsRealised work is_last delay class message now
step-IsRealised (defer work delay) now = defer-IsRealised work delay now
step-IsRealised (recover org conversation sequence) now =
    update-IsRealised _ _ (recover-IsMove org conversation sequence now)
step-IsRealised (process worker locked later last queued opened breaks) now =
    process-IsRealised worker locked now later last queued opened breaks

-- A piece of work that the table has is in it after any history of statements and workers, at
-- whatever instants they come, and its state then is one that the machine of SlackWork/Machine
-- reaches from its state before.
pub histories_realise_machine :
    (history : List (Operation × ℕ)) (org id : ℕ) (rows : List WorkRow) (r : WorkRow)
    → find (is_work org id) rows ≡ some r
    → IsReached org id (state_of r) (run history rows)
unfolding run
histories_realise_machine [] org id rows r h = unchanged-IsRealised org id rows r h
histories_realise_machine ((operation, now) ∷ rest) org id rows r h =
    let first = step-IsRealised operation now org id rows r h in
    let later =
      histories_realise_machine rest org id (step operation now rows) first.row first.found in
    record { row = later.row; found = later.found; steps = join first.steps later.steps }
