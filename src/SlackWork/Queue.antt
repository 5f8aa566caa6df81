-- ===== src/SlackWork/Queue.antt =====
-- internal/store/postgres/slack_message_work.go: its statements, each at the instant `now`, with
-- whether it found its row. The turn that ApplySlackMessageWork opens is the parameter `opened`,
-- and the number of investigations that wait is `waiting`.
use Prim.Native.String.{String}
use text.Mathlib.Text.{◌==◌ as str_eq}
use oc_control_plane.Prelude.{
  ℕ, suc, ◌+◌, ◌-◌, Bool, false, not, ◌&&◌, ◌||◌, Option, none, some, List, [], ◌∷◌, ◌++◌, ltb, leb,
  ◌==◌, if◌then◌else◌, map, any, keep,
}
use oc_control_plane.SlackWork.Rows.{
  WorkStatus, ready, leased, retry, terminal, complete, is_leased, is_terminal, is_waiting, WorkRow,
  Held,
}

abbrev pub update : (WorkRow → Bool) → (WorkRow → WorkRow) → List WorkRow → List WorkRow
update test write rows = map (λ row. if test row then write row else row) rows

abbrev pub max_attempts : ℕ
max_attempts = 12

-- `lease_expires_at > now()`.
abbrev pub lasts : ℕ → Option ℕ → Bool
lasts now none = false
lasts now (some until) = ltb now until

abbrev pub is_work : ℕ → ℕ → WorkRow → Bool
is_work org id row = (row.org_id == org) && (row.work_id == id)

-- The condition that the statements of a holder share.
unfoldable pub is_held : Held → ℕ → WorkRow → Bool
is_held held now row =
    is_work held.org_id held.work_id row
    && (is_leased row.status
        && (str_eq row.lease_owner held.lease_owner
            && ((row.lease_epoch == held.lease_epoch) && lasts now row.lease_expires_at)))

-- The unique index of the table.
abbrev pub is_message : ℕ → ℕ → ℕ → ℕ → WorkRow → Bool
is_message org delivery conversation sequence row =
    (row.org_id == org)
    && ((row.delivery_id == delivery)
        && ((row.conversation_id == conversation) && (row.message_sequence == sequence)))

-- enqueueSlackMessageWork: nothing where the message has its work already.
unfoldable pub enqueue_slack_message_work : ℕ → ℕ → ℕ → ℕ → ℕ → ℕ → List WorkRow → List WorkRow
enqueue_slack_message_work id org delivery conversation sequence now rows =
    if any (λ row. (row.work_id == id) || is_message org delivery conversation sequence row) rows
    then rows
    else rows
      ++ record {
        work_id = id;
        org_id = org;
        status = ready;
        delivery_id = delivery;
        conversation_id = conversation;
        message_sequence = sequence;
        attempts = 0;
        available_at = now;
        lease_owner = "";
        lease_epoch = 0;
        lease_expires_at = none;
        failure_class = "";
        failure_message = "";
        created_at = now;
      }
        ∷ []

unfoldable pub claimable : ℕ → WorkRow → Bool
claimable now row =
    (is_waiting row.status && leb row.available_at now)
    || (is_leased row.status && not (lasts now row.lease_expires_at))

-- `ORDER BY available_at, created_at, work_id`.
abbrev pub precedes : WorkRow → WorkRow → Bool
precedes a b =
    ltb a.available_at b.available_at
    || ((a.available_at == b.available_at)
        && (ltb a.created_at b.created_at
            || ((a.created_at == b.created_at) && leb a.work_id b.work_id)))

abbrev pub oldest : List WorkRow → Option WorkRow
oldest [] = none
oldest (row ∷ rows) = elim (oldest rows) [
  | none ↦ some row
  | some other ↦ if precedes row other then some row else some other
]

unfoldable pub lease_row : String → ℕ → ℕ → WorkRow → WorkRow
lease_row owner lease now row = record row {
  status = leased;
  lease_owner = owner;
  lease_epoch = suc row.lease_epoch;
  lease_expires_at = some (now + lease);
  attempts = if leb max_attempts row.attempts then row.attempts else suc row.attempts;
  failure_class = "";
  failure_message = "";
}

abbrev pub held_of : WorkRow → Held
held_of row = record {
  org_id = row.org_id;
  work_id = row.work_id;
  lease_owner = row.lease_owner;
  lease_epoch = row.lease_epoch;
  attempts = row.attempts;
}

-- ClaimSlackMessageWork. `locked` are the rows that SKIP LOCKED passes over. The row that it
-- selects is locked, so it is still to be claimed when it is written.
unfoldable pub claim_slack_message_work :
    String → ℕ → (ℕ → Bool) → ℕ → List WorkRow → List WorkRow × Option Held
claim_slack_message_work owner lease locked now rows =
    if str_eq owner "" || (lease == 0)
    then (rows, none)
    else elim (oldest (keep (λ row. claimable now row && not (locked row.work_id)) rows)) [
      | none ↦ (rows, none)
      | some selected ↦ (
        update (λ row. is_work selected.org_id selected.work_id row && claimable now row)
            (lease_row owner lease now) rows,
        some (held_of (lease_row owner lease now selected)),
      )
    ]

abbrev pub renew_row : ℕ → ℕ → WorkRow → WorkRow
renew_row lease now row = record row { lease_expires_at = some (now + lease) }

-- HeartbeatSlackMessageWork.
unfoldable pub heartbeat_slack_message_work : Held → ℕ → ℕ → List WorkRow → List WorkRow × Bool
heartbeat_slack_message_work held lease now rows =
    (update (is_held held now) (renew_row lease now) rows, any (is_held held now) rows)

abbrev pub complete_row : WorkRow → WorkRow
complete_row row = record row { status = complete; lease_owner = ""; lease_expires_at = none }

-- completeSlackMessageWorkTx.
unfoldable pub complete_slack_message_work : Held → ℕ → List WorkRow → List WorkRow × Bool
complete_slack_message_work held now rows =
    (update (is_held held now) complete_row rows, any (is_held held now) rows)

abbrev pub transition_row : WorkStatus → ℕ → ℕ → String → String → WorkRow → WorkRow
transition_row status delay now class message row = record row {
  status = status;
  available_at = now + delay;
  lease_owner = "";
  lease_expires_at = none;
  failure_class = class;
  failure_message = message;
}

-- FailSlackMessageWork, by transitionSlackMessageWork; the texts are within their bounds.
unfoldable pub fail_slack_message_work :
    Held → Bool → ℕ → String → String → ℕ → List WorkRow → List WorkRow × Bool
fail_slack_message_work held is_last delay class message now rows = (
  update (is_held held now)
      (transition_row (if is_last then terminal else retry) delay now class message) rows,
  any (is_held held now) rows,
)

abbrev pub defer_row : ℕ → ℕ → WorkRow → WorkRow
defer_row delay now row = record row {
  status = retry;
  attempts = row.attempts - 1;
  available_at = now + delay;
  lease_owner = "";
  lease_expires_at = none;
  failure_class = "organization-at-capacity";
  failure_message = "the Organization has reached its waiting Investigation limit";
}

-- DeferSlackMessageWork.
unfoldable pub defer_slack_message_work : Held → ℕ → ℕ → List WorkRow → List WorkRow × Bool
defer_slack_message_work held delay now rows =
    (update (is_held held now) (defer_row delay now) rows, any (is_held held now) rows)

abbrev pub is_buried : ℕ → ℕ → ℕ → WorkRow → Bool
is_buried org conversation sequence row =
    (row.org_id == org)
    && ((row.conversation_id == conversation)
        && ((row.message_sequence == sequence) && is_terminal row.status))

abbrev pub revive_row : ℕ → WorkRow → WorkRow
revive_row now row = record row {
  status = ready;
  attempts = 0;
  available_at = now;
  failure_class = "";
  failure_message = "";
}

-- RecoverSlackMessage.
unfoldable pub recover_slack_message : ℕ → ℕ → ℕ → ℕ → List WorkRow → List WorkRow × Bool
recover_slack_message org conversation sequence now rows = (
  update (is_buried org conversation sequence) (revive_row now) rows,
  any (is_buried org conversation sequence) rows,
)

pub data Applied : Type 0 where
  applied : Bool → Applied
  at_capacity lease_lost : Applied

-- ApplySlackMessageWork, with reserveWaitingInvestigations; a limit of zero is none.
unfoldable pub apply_slack_message_work :
    Held → ℕ → ℕ → Bool → ℕ → List WorkRow → List WorkRow × Applied
apply_slack_message_work held max_waiting waiting opened now rows =
    let (after, found) = complete_slack_message_work held now rows in
    if ltb 0 max_waiting && ltb max_waiting (waiting + 1)
    then (rows, at_capacity)
    else if found
    then (after, applied opened)
    else (rows, lease_lost)
