-- ===== src/SlackWork/Tests.antt =====
-- The Slack work of one message.
use oc_control_plane.Prelude.{ℕ, ◌≡◌, refl, true, false, none, some, List, [], ◌∷◌, find}
use oc_control_plane.SlackWork.Rows.{ready, complete, WorkRow}
use oc_control_plane.SlackWork.Queue.{
  is_work, enqueue_slack_message_work, claim_slack_message_work, apply_slack_message_work,
  complete_slack_message_work, recover_slack_message, lease_row, claimable, is_held,
}
use oc_control_plane.SlackWork.Worker.{MessageWorker, process_one}
use oc_control_plane.SlackWork.Machine.{waiting}
use oc_control_plane.SlackWork.Moves.{IsReached}
use oc_control_plane.SlackWork.Refined.{
  Operation, enqueue, claim, process, recover, step, run, histories_realise_machine,
}
use oc_control_plane.SlackWork.Completed.{completed_for_good}

abbrev accepted : WorkRow
accepted = record {
  work_id = 7;
  org_id = 1;
  status = ready;
  delivery_id = 3;
  conversation_id = 4;
  message_sequence = 2;
  attempts = 0;
  available_at = 10;
  lease_owner = "";
  lease_epoch = 0;
  lease_expires_at = none;
  failure_class = "";
  failure_message = "";
  created_at = 10;
}

abbrev settled : WorkRow
settled = record accepted { status = complete; lease_epoch = 1; attempts = 1 }

abbrev worker : MessageWorker
worker = record {
  owner = "worker-1";
  lease = 100;
  retry_base = 0;
  max_retries = 0;
  max_waiting_turns = 5;
}

-- Work that the same message asks for again, a worker, a recovery and a second worker.
abbrev busy : List (Operation × ℕ)
busy =
    (enqueue 8 1 3 4 2, 11)
    ∷ (process worker (λ id. false) 21 22 0 true false, 20)
    ∷ (recover 1 4 2, 30)
    ∷ (claim "worker-2" 100 (λ id. false), 40)
    ∷ []

runs_to_completion :
    run busy (accepted ∷ []) ≡ record settled { lease_owner = ""; lease_expires_at = none } ∷ []
unfolding run step process_one enqueue_slack_message_work claim_slack_message_work
    apply_slack_message_work complete_slack_message_work recover_slack_message lease_row claimable
    is_held
runs_to_completion = refl

histories_realise_machine_example : IsReached 1 7 (waiting 0) (run busy (accepted ∷ []))
histories_realise_machine_example = histories_realise_machine busy 1 7 (accepted ∷ []) accepted refl

completed_for_good_example :
    (w : WorkRow) × (find (is_work 1 7) (run busy (settled ∷ [])) ≡ some w) × (w.status ≡ complete)
completed_for_good_example = completed_for_good busy 1 7 (settled ∷ []) settled refl refl
