-- ===== src/SlackWork/Completed.antt =====
-- The work of internal/store/postgres/slack_message_work.go that is complete.
use oc_control_plane.Prelude.{ℕ, ◌≡◌, refl, some, List, ap, ◌∙◌, find, true, arith}
use oc_control_plane.SlackWork.Rows.{WorkStatus, ready, leased, retry, terminal, complete, WorkRow}
use oc_control_plane.SlackWork.Queue.{is_work}
use oc_control_plane.SlackWork.Machine.{is_finished, finished_stays}
use oc_control_plane.SlackWork.Moves.{state_at, state_of}
use oc_control_plane.SlackWork.Refined.{Operation, run, histories_realise_machine}

is_finished-complete : (s : WorkStatus) (e : ℕ) → is_finished (state_at s e) ≡ true → s ≡ complete
is_finished-complete complete e h = refl
is_finished-complete ready e h = absurd (ground arith)
is_finished-complete leased e h = absurd (ground arith)
is_finished-complete retry e h = absurd (ground arith)
is_finished-complete terminal e h = absurd (ground arith)

-- Work that is complete is found complete after any history of the table: no claim, no worker that
-- comes late and no recovery takes it up again.
pub completed_for_good :
    (history : List (Operation × ℕ)) (org id : ℕ) (rows : List WorkRow) (r : WorkRow)
    → find (is_work org id) rows ≡ some r
    → r.status ≡ complete
    → (w : WorkRow) × (find (is_work org id) (run history rows) ≡ some w) × (w.status ≡ complete)
completed_for_good history org id rows r h done =
    let reached = histories_realise_machine history org id rows r h in
    let over : is_finished (state_of r) ≡ true =
      ap (λ s. is_finished (state_at s r.lease_epoch)) done in
    let same = finished_stays over reached.steps in
    (
      reached.row,
      reached.found,
      is_finished-complete reached.row.status reached.row.lease_epoch (ap is_finished same ∙ over),
    )
