-- ===== src/Investigations/Statements.antt =====
-- The statements of internal/store/postgres/investigation_lease.go and investigation.go that lease,
-- end and cancel investigations, at one instant `now`. gen_random_uuid is the token that claim is
-- given, and the rows that SKIP LOCKED passes over are a predicate. The Conversation that an
-- ending also writes its answer to is left out.
use Prim.Native.String.{String}
use mathlib.Core.Option
use text.Mathlib.Text.{◌==◌ as str_eq}
use oc_control_plane.Prelude.{
  ℕ, ◌+◌, Bool, not, ◌&&◌, ◌||◌, Option, none, some, List, [], ◌∷◌, ◌++◌, map, ltb, leb, ◌==◌,
  if◌then◌else◌, max, holds, keep, count, any, take, contains,
}
use oc_control_plane.Jobs.Statements.{cancel_owned_jobs, lapsed, live}
use oc_control_plane.Investigations.Row.{
  Status, is_running, Investigation, Event, Database, Claim, Usage, Ended, ended, unknown,
  already_ended,
}

abbrev pub is_investigation : ℕ → ℕ → Investigation → Bool
is_investigation org id v = (v.org_id == org) && (v.investigation_id == id)

-- UPDATE investigation SET write WHERE test.
unfoldable pub update_investigations :
    (Investigation → Bool)
    → (Investigation → Investigation)
    → List Investigation
    → List Investigation
update_investigations test write [] = []
update_investigations test write (v ∷ vs) =
    (if test v then write v else v) ∷ update_investigations test write vs

-- `lease_token = $9 AND lease_expires_at > clock_timestamp()` on a running row.
abbrev pub holds_lease : ℕ → ℕ → ℕ → ℕ → Investigation → Bool
holds_lease org id token now v =
    is_investigation org id v
    && is_running v.status
    && holds v.lease_token token
    && live v.lease_expires_at now

-- The WHERE clause of the subquery of ClaimInvestigation.
abbrev pub is_waiting : Investigation → Bool
is_waiting v = is_running v.status && str_eq v.lease_worker ""

-- ORDER BY created_at, investigation_id LIMIT 1.
abbrev pub precedes : Investigation → Investigation → Bool
precedes v w =
    ltb v.created_at w.created_at
    || ((v.created_at == w.created_at) && leb v.investigation_id w.investigation_id)

unfoldable pub oldest : List Investigation → Option Investigation
oldest [] = none
oldest (v ∷ vs) = elim (oldest vs) [
  | none ↦ some v
  | some w ↦ if precedes v w then some v else some w
]

unfoldable pub lease_row : Claim → ℕ → Investigation → Investigation
lease_row claim now v = record v {
  lease_worker = claim.worker;
  lease_token = some claim.token;
  lease_expires_at = some (now + claim.lease_for);
}

-- ClaimInvestigation.
unfoldable pub claim_investigation :
    Claim → (ℕ → Bool) → ℕ → Database → Database × Option Investigation
unfolding update_investigations oldest lease_row
claim_investigation claim locked now db =
    elim (oldest (keep (λ v. is_waiting v && not (locked v.investigation_id)) db.investigations)) [
      | none ↦ (db, none)
      | some v ↦ (
        record db {
          investigations =
              update_investigations (λ w. w.investigation_id == v.investigation_id)
                (lease_row claim now) db.investigations;
        },
        some (lease_row claim now v),
      )
    ]

unfoldable pub renew_row : Claim → ℕ → Investigation → Investigation
renew_row claim now v = record v { lease_expires_at = some (now + claim.lease_for) }

-- Heartbeat.
unfoldable pub heartbeat : ℕ → ℕ → Claim → ℕ → Database → Database × Bool
unfolding update_investigations renew_row
heartbeat org id claim now db =
    let renewed : Investigation → Bool =
      λ v. holds_lease org id claim.token now v && str_eq v.lease_worker claim.worker in
    (
      record db {
        investigations = update_investigations renewed (renew_row claim now) db.investigations;
      },
      count renewed db.investigations == 1,
    )

-- The row after an ending of any kind: the lease goes with it.
unfoldable pub release_investigation : Investigation → Investigation
release_investigation v = record v {
  lease_worker = "";
  lease_token = none;
  lease_expires_at = none;
}

-- `coalesce(max(sequence), 0) + 1` over the events that pass the test.
unfoldable pub next_sequence : (Event → Bool) → List Event → ℕ
next_sequence test [] = 1
next_sequence test (e ∷ es) =
    let rest = next_sequence test es in if test e then max (e.sequence + 1) rest else rest

unfoldable pub append_event : (Event → Bool) → ℕ → ℕ → ℕ → List ℕ → List Event → List Event
unfolding next_sequence
append_event test org id kind payload es =
    es
    ++ record {
      investigation_id = id;
      org_id = org;
      sequence = next_sequence test es;
      kind = kind;
      payload = payload;
    }
      ∷ []

-- The events of an investigation in its organization, and by its identifier alone.
abbrev pub is_event_of : ℕ → ℕ → Event → Bool
is_event_of org id e = (e.investigation_id == id) && (e.org_id == org)

abbrev pub names_investigation : ℕ → Event → Bool
names_investigation id e = e.investigation_id == id

-- What endInvestigation is called with by ConcludeInvestigation and FailInvestigation.
pub record Ending : Type 0 where
  pub status : Status
  pub conclusion : List ℕ
  pub stopped_by : String
  pub reason : String
  pub usage : Usage
  pub kind : ℕ
  pub payload : List ℕ

unfoldable pub end_row : Ending → ℕ → Investigation → Investigation
unfolding release_investigation
end_row ending now v = release_investigation (record v {
  status = ending.status;
  conclusion = ending.conclusion;
  stopped_by = ending.stopped_by;
  error = ending.reason;
  spend_input_tokens = ending.usage.input_tokens;
  spend_output_tokens = ending.usage.output_tokens;
  concluded_at = some now;
})

-- endInvestigation.
unfoldable pub end_investigation : ℕ → ℕ → ℕ → Ending → ℕ → Database → Database × Ended
unfolding update_investigations end_row append_event
end_investigation org id token ending now db =
    if any (holds_lease org id token now) db.investigations
    then (
      record db {
        investigations =
            update_investigations (holds_lease org id token now) (end_row ending now)
              db.investigations;
        events = append_event (is_event_of org id) org id ending.kind ending.payload db.events;
      },
      ended,
    )
    else (db, unknown)

unfoldable pub cancel_investigation_row : ℕ → Investigation → Investigation
unfolding release_investigation
cancel_investigation_row now v = release_investigation (record v {
  status = Status.cancelled;
  concluded_at = some now;
  cancel_requested_at = some now;
})

-- CancelInvestigation, with the payload of its event and EventCancelled as parameters `payload` and `kind`.
unfoldable pub cancel_investigation : ℕ → ℕ → ℕ → List ℕ → ℕ → Database → Database × Ended
unfolding update_investigations cancel_investigation_row append_event
cancel_investigation org id kind payload now db =
    if any (λ v. is_investigation org id v && is_running v.status) db.investigations
    then (
      record {
        investigations =
            update_investigations (λ v. is_investigation org id v && is_running v.status)
              (cancel_investigation_row now) db.investigations;
        events = append_event (is_event_of org id) org id kind payload db.events;
        jobs = cancel_owned_jobs org id now db.jobs;
      },
      ended,
    )
    else if any (is_investigation org id) db.investigations
    then (db, already_ended)
    else (db, unknown)

-- The WHERE clause of the subquery of recoverStaleIn.
abbrev pub is_stale : ℕ → Investigation → Bool
is_stale now v =
    is_running v.status && not (str_eq v.lease_worker "") && lapsed v.lease_expires_at now

-- ORDER BY lease_expires_at.
unfoldable pub insert_by_expiry : Investigation → List Investigation → List Investigation
insert_by_expiry v [] = v ∷ []
insert_by_expiry v (w ∷ vs) =
    let rest = insert_by_expiry v vs in
    if leb (Option.get_or v.lease_expires_at 0) (Option.get_or w.lease_expires_at 0)
    then v ∷ w ∷ vs
    else w ∷ rest

unfoldable pub by_expiry : List Investigation → List Investigation
unfolding insert_by_expiry
by_expiry [] = []
by_expiry (v ∷ vs) = insert_by_expiry v (by_expiry vs)

unfoldable pub recover_row : String → ℕ → Investigation → Investigation
unfolding release_investigation
recover_row reason now v =
    release_investigation
      (record v { status = Status.failed; error = reason; concluded_at = some now })

-- The rows that one sweep fails.
unfoldable pub swept : (ℕ → Bool) → ℕ → ℕ → List Investigation → List ℕ
unfolding by_expiry
swept locked limit now vs =
    map (λ v. v.investigation_id)
      (take limit (by_expiry (keep (λ v. is_stale now v && not (locked v.investigation_id)) vs)))

-- The loop that ends the stream of each row that was swept.
unfoldable pub end_streams : ℕ → List ℕ → List Investigation → List Event → List Event
unfolding append_event
end_streams kind payload [] es = es
end_streams kind payload (v ∷ vs) es = end_streams kind payload vs (
    append_event (names_investigation v.investigation_id) v.org_id v.investigation_id kind payload
      es)

-- RecoverStale: a limit of zero stands for one.
unfoldable pub recover_stale : String → ℕ → (ℕ → Bool) → ℕ → List ℕ → ℕ → Database → Database × ℕ
unfolding update_investigations recover_row swept end_streams
recover_stale reason limit locked kind payload now db =
    let ids = swept locked (max limit 1) now db.investigations in
    (
      record db {
        investigations =
            update_investigations (λ v. contains ids v.investigation_id) (recover_row reason now)
              db.investigations;
        events =
            end_streams kind payload (keep (λ v. contains ids v.investigation_id) db.investigations)
              db.events;
      },
      count (λ v. contains ids v.investigation_id) db.investigations,
    )
