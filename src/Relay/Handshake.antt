-- ===== src/Relay/Handshake.antt =====
-- internal/relay/session.go: greet, capacityFrom, adopt, readRoster and
-- releaseWhatTheRelayIsNotRunning, on the relay_job table. uuid.Parse, which is not part of the
-- repository's code, is the parameter `parse`; logging and the goroutines that greet starts are left out.
use Prim.Native.String.{String}
use oc_control_plane.Prelude.{
  ℕ, Bool, true, false, not, ◌&&◌, Option, none, some, List, [], ◌∷◌, leb, ltb, ◌==◌, if◌then◌else◌,
  min, length, take,
}
use oc_control_plane.Jobs.Row.{Job, InFlightJob, LeaseAdoption}
use oc_control_plane.Jobs.Statements.{adopt_in_flight_leases, release_stranded_leases}

abbrev pub max_jobs_in_flight : ℕ
max_jobs_in_flight = 16

-- leaseDuration, ten minutes in nanoseconds.
abbrev pub lease_duration : ℕ
lease_duration = 600000000000

abbrev pub protocol_version : ℕ
protocol_version = 1

-- supportsProtocol of internal/relay/registration.go.
abbrev pub supports_protocol : ℕ → Bool
supports_protocol version = leb protocol_version version

-- InFlightJob of the protocol.
pub record Declared : Type 0 where
  pub job_id : String
  pub lease_epoch : ℕ

pub record Hello : Type 0 where
  pub protocol_version : ℕ
  pub max_concurrent_jobs : ℕ
  pub in_flight : List Declared

-- The part of sessionState that the handshake reads.
pub record SessionState : Type 0 where
  pub organization : ℕ
  pub registration_id : ℕ
  pub id : ℕ
  pub contested : Bool

-- Which of the two statements of the handshake the database fails.
pub record Faults : Type 0 where
  pub adopting : Bool
  pub releasing : Bool

unfoldable pub capacity_from : Hello → ℕ
capacity_from hello =
    if hello.max_concurrent_jobs == 0
    then max_jobs_in_flight
    else min hello.max_concurrent_jobs max_jobs_in_flight

-- The loop of readRoster: the jobs that are named, and whether all are.
unfoldable pub named_jobs : (String → Option ℕ) → List Declared → List InFlightJob × Bool
named_jobs parse [] = ([], true)
named_jobs parse (d ∷ ds) =
    let (named, complete) = named_jobs parse ds in
    elim (parse d.job_id) [
      | none ↦ (named, false)
      | some id ↦ (record { job_id = id; lease_epoch = d.lease_epoch } ∷ named, complete)
    ]

-- readRoster: no more than the first sixteen are considered.
unfoldable pub read_roster : (String → Option ℕ) → List Declared → List InFlightJob × Bool
unfolding named_jobs
read_roster parse declared =
    let (named, complete) = named_jobs parse (take max_jobs_in_flight declared) in
    (named, if ltb max_jobs_in_flight (length declared) then false else complete)

unfoldable pub adoption : SessionState → List InFlightJob → LeaseAdoption
adoption session in_flight = record {
  registration_id = session.registration_id;
  session_id = session.id;
  lease_for = lease_duration;
  in_flight = in_flight;
}

-- adopt: the table, and whether the roster was read and adopted completely.
unfoldable pub adopt_roster :
    (String → Option ℕ) → SessionState → List Declared → Bool → ℕ → List Job → List Job × Bool
unfolding read_roster adoption
adopt_roster parse session declared fails now jobs =
    let (in_flight, complete) = read_roster parse declared in
    if length in_flight == 0
    then (jobs, complete)
    else if fails
    then (jobs, false)
    else let (adopted_jobs, adopted) =
        adopt_in_flight_leases session.organization (adoption session in_flight) now jobs in
      (adopted_jobs, complete && length adopted == length in_flight)

pub data Greeting : Type 0 where
  unsupported_protocol : Greeting
  greeted : ℕ → Greeting

-- releaseWhatTheRelayIsNotRunning.
unfoldable pub release_unrunning : SessionState → Bool → List Job → List Job
release_unrunning session fails jobs =
    if fails
    then jobs
    else (release_stranded_leases session.organization session.registration_id session.id jobs).0

-- What follows the adoption in greet.
unfoldable pub after_adoption : SessionState → Bool → List Job × Bool → List Job
unfolding release_unrunning
after_adoption session fails (jobs, complete) =
    if complete && not session.contested then release_unrunning session fails jobs else jobs

-- greet: the table, and the capacity that is stored.
unfoldable pub greet :
    (String → Option ℕ) → SessionState → Hello → Faults → ℕ → List Job → List Job × Greeting
unfolding capacity_from after_adoption
greet parse session hello faults now jobs =
    if supports_protocol hello.protocol_version
    then (
      after_adoption session faults.releasing
          (adopt_roster parse session hello.in_flight faults.adopting now jobs),
      greeted (capacity_from hello),
    )
    else (jobs, unsupported_protocol)
