-- ===== src/SlackWork/Worker.antt =====
-- internal/webhooks/slack/message_worker.go: ProcessOne, and the retry that fail decides on. The
-- heartbeats of the lease and the lookup of references are left out.
use Prim.Native.String.{String}
use oc_control_plane.Prelude.{
  ℕ, zero, suc, ◌-◌, ◌*◌, min, Bool, true, false, none, some, List, leb, if◌then◌else◌,
}
use oc_control_plane.SlackWork.Rows.{WorkRow, Held}
use oc_control_plane.SlackWork.Queue.{
  max_attempts, claim_slack_message_work, fail_slack_message_work, defer_slack_message_work,
  applied, at_capacity, lease_lost, apply_slack_message_work,
}

pub record MessageWorker : Type 0 where
  pub owner : String
  pub lease : ℕ
  pub retry_base : ℕ
  pub max_retries : ℕ
  pub max_waiting_turns : ℕ

abbrev pub second : ℕ
second = 1000000000

abbrev pub or_default : ℕ → ℕ → ℕ
or_default default zero = default
or_default default (suc n) = suc n

-- `base << n`.
abbrev pub doubled : ℕ → ℕ → ℕ
doubled base zero = base
doubled base (suc n) = 2 * doubled base n

-- MessageWorker.fail.
unfoldable pub fail : MessageWorker → Held → ℕ → List WorkRow → List WorkRow
fail w held now rows =
    let is_last = leb (or_default 8 w.max_retries) held.attempts in
    let delay = doubled (or_default second w.retry_base) (min (held.attempts - 1) 8) in
    let settled =
      fail_slack_message_work held is_last delay "provider-job-failed"
        "the accepted webhook delivery could not be processed" now rows in
    settled.0

-- MessageWorker.ProcessOne: claim at `now`, apply at `later`, and settle at `last`; whether it
-- worked. Where the processing `breaks`, its transaction leaves the table as it was.
unfoldable pub process_one :
    MessageWorker → (ℕ → Bool) → ℕ → ℕ → ℕ → ℕ → Bool → Bool → List WorkRow → List WorkRow × Bool
process_one w locked now later last waiting opened breaks rows =
    let (claimed, found) =
      claim_slack_message_work w.owner (or_default (60 * second) w.lease) locked now rows in
    elim found [
      | none ↦ (claimed, false)
      | some held ↦
          if leb max_attempts held.attempts
          then (fail w held later claimed, true)
          else if breaks
          then (fail w held last claimed, true)
          else let (after, result) =
              apply_slack_message_work held w.max_waiting_turns waiting opened later claimed in
            elim result [
              | applied turn ↦ (after, true)
              | lease_lost ↦ (after, true)
              | at_capacity ↦ ((defer_slack_message_work held second last after).0, true)
            ]
    ]
