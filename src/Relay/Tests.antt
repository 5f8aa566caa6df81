-- ===== src/Relay/Tests.antt =====
-- The theorems on sessions and their handshake, at small concrete inputs.
use Prim.Native.String.{String}
use text.Mathlib.Text.{◌==◌ as str_eq}
use oc_control_plane.Prelude.{
  if◌then◌else◌, ◌++◌, find, ℕ, ◌+◌, ◌≤◌, ◌≡◌, refl, true, false, Option, none, some, List, [], ◌∷◌,
  arith, ◌==◌, length, count, All, lookup,
}
use oc_control_plane.Jobs.Row.{Job, JobStatus}
use oc_control_plane.Jobs.Statements.{is_row, stranded, adopt_in_flight_leases}
use oc_control_plane.Relay.Flood.{default_flood_limits, new_flood_limiter, counted}
use oc_control_plane.Relay.FloodBounds.{
  after_calls, admitted, flood_limits_hold, window_admissions_bounded,
}
use oc_control_plane.Relay.Churn.{
  Takeover, new_churn_watch, record_takeover, sweep, history_for, minimum_session_lifetime,
}
use oc_control_plane.Relay.ChurnBounds.{Call, IsBounded, watch, churn_watch-IsBounded}
use oc_control_plane.Relay.ChurnContention.{third_takeover_contested}
use oc_control_plane.Relay.Sessions.{Session, installs, removes, play, successor_stays_live}
use oc_control_plane.Relay.Handshake.{
  Declared, Hello, SessionState, Faults, named_jobs, read_roster, adopt_roster, greet,
}
use oc_control_plane.Relay.Adoption.{declared_execution_survives}
use oc_control_plane.Relay.HandshakeLaws.{complete_roster_releases_the_rest}

-- Organization 1 calls twice and organization 2 once.
abbrev calls : List (ℕ × ℕ)
calls = (60000000000, 1) ∷ (60000000001, 2) ∷ (60000000002, 1) ∷ []

abbrev inside_window : List (ℕ × ℕ)
inside_window = (5, 1) ∷ (6, 2) ∷ (7, 1) ∷ []

window_admissions_bounded_example :
    (count (λ o. o == 1) (admitted (new_flood_limiter default_flood_limits) inside_window)
        + counted 1 (new_flood_limiter default_flood_limits).per_org_count
      ≤ (new_flood_limiter default_flood_limits).limits.per_organization)
    × (length (admitted (new_flood_limiter default_flood_limits) inside_window)
          + (new_flood_limiter default_flood_limits).global_count
        ≤ (new_flood_limiter default_flood_limits).limits.global)
unfolding new_flood_limiter default_flood_limits after_calls
window_admissions_bounded_example =
    window_admissions_bounded (new_flood_limiter default_flood_limits) inside_window 1
      (flood_limits_hold default_flood_limits []) (omega arith, (omega arith, (omega arith, tt)))

-- An address that does not split is a host of its own.
abbrev no_split : String → Option String
no_split peer = none

abbrev takeovers : List Call
takeovers =
    record { now = 5; registration = 2; peer = "a" }
    ∷ record { now = 6; registration = 3; peer = "b" }
    ∷ []

churn_watch-IsBounded_example : IsBounded (watch no_split new_churn_watch takeovers)
churn_watch-IsBounded_example = churn_watch-IsBounded no_split takeovers

abbrev two_hosts : List Takeover
two_hosts = record { at = 5; host = "a" } ∷ record { at = 6; host = "b" } ∷ []

abbrev ThirdVerdict : Type 0
ThirdVerdict =
    let c₁ = (record_takeover no_split 100 2 "a" new_churn_watch).0 in
    let c₂ = (record_takeover no_split 200 2 "a" c₁).0 in
    let v = (record_takeover no_split 300 2 "a" c₂).1 in
    (v.contested ≡ true) × (v.backoff ≡ minimum_session_lifetime) × (3 ≤ v.takeovers)

third_takeover_contested_example : ThirdVerdict
unfolding new_churn_watch sweep history_for watch
third_takeover_contested_example =
    third_takeover_contested no_split 100 200 300 2 "a" "a" "a" [] [] new_churn_watch [] refl
      (omega arith) (omega arith) tt tt

abbrev first_session : Session
first_session = record { registration_id = 2; id = 7 }

abbrev second_session : Session
second_session = record { registration_id = 2; id = 8 }

-- The displaced session closes after its successor opened.
successor_stays_live_example :
    lookup 2 (play ((2, first_session) ∷ []) (installs second_session ∷ removes first_session ∷ []))
    ≡ some second_session
successor_stays_live_example =
    successor_stays_live second_session ((2, first_session) ∷ []) (removes first_session ∷ [])
      (ground arith, tt)

-- "job" names the job 11; nothing else is an identifier.
abbrev parse : String → Option ℕ
parse name = if str_eq name "job" then some 11 else none

abbrev session : SessionState
session = record { organization = 1; registration_id = 2; id = 8; contested = false }

abbrev whole_hello : Hello
whole_hello = record {
  protocol_version = 1;
  max_concurrent_jobs = 40;
  in_flight = record { job_id = "job"; lease_epoch = 4 } ∷ [];
}

abbrev partial_hello : Hello
partial_hello = record whole_hello {
  in_flight = record { job_id = "no job"; lease_epoch = 4 } ∷ [];
}

abbrev healthy : Faults
healthy = record { adopting = false; releasing = false }

-- Leased to session 7, which the session 8 follows.
abbrev running : Job
running = record {
  job_id = 11;
  org_id = 1;
  registration_id = 2;
  integration_id = 3;
  capability_id = "kubernetes.container.logs";
  capability_version = 1;
  arguments = [];
  status = JobStatus.leased;
  lease_session = some 7;
  lease_epoch = 4;
  lease_expires_at = some 20;
  cancel_requested_at = none;
  outcome = none;
  terminal_at = none;
  created_at = 5;
  investigation_id = none;
}

-- Another job of the registration, which the roster does not name.
abbrev forgotten : Job
forgotten = record running { job_id = 12; lease_epoch = 2 }

abbrev table : List Job
table = running ∷ forgotten ∷ []

complete_roster_releases_the_rest_example :
    All (λ j. stranded 1 2 8 j ≡ false) (greet parse session whole_hello healthy 9 table).0
unfolding adopt_roster read_roster named_jobs adopt_in_flight_leases
complete_roster_releases_the_rest_example =
    complete_roster_releases_the_rest parse session whole_hello healthy 9 table refl refl refl refl

abbrev sixteen : Declared → List Declared
sixteen d =
    let four = λ (rest : List Declared). d ∷ d ∷ d ∷ d ∷ rest in four (four (four (four [])))

-- The job is named behind sixteen other entries.
abbrev long_hello : Hello
long_hello = record whole_hello {
  in_flight =
      sixteen (record { job_id = "no job"; lease_epoch = 4 })
      ++ record { job_id = "job"; lease_epoch = 4 } ∷ [];
}

declared_execution_survives_example :
    (k : Job) × (find (is_row 1 11) (greet parse session long_hello healthy 9 table).0 ≡ some k)
    × (k.status ≡ JobStatus.leased)
    × (k.lease_epoch ≡ 4)
    × (k.lease_session ≡ some 7)
declared_execution_survives_example =
    declared_execution_survives parse session long_hello healthy 9 11 table running refl refl refl
      refl refl refl
