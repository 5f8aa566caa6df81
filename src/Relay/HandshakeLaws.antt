-- ===== src/Relay/HandshakeLaws.antt =====
-- What the handshake of internal/relay/session.go does to the leases of a registration.
use Prim.Native.String.{String}
use oc_control_plane.Prelude.{
  ℕ, ◌≤◌, ◌<◌, ◌≡◌, ◌⊎◌, refl, inl, inr, Bool, true, false, not, Option, some, List, [], ◌∷◌, arith,
  ◌==◌, if◌then◌else◌, Bool-cases, length, take, find, any, All, is_some,
}
use oc_control_plane.Jobs.Row.{Job, JobStatus, LeaseAdoption}
use oc_control_plane.Jobs.Statements.{
  is_row, adoptable, adopt_row, adopt_in_flight_leases, stranded, release_row,
  release_stranded_leases,
}
use oc_control_plane.Jobs.Rows.{KeepsKey, find-update}
use oc_control_plane.Relay.Handshake.{
  Declared, Hello, SessionState, Faults, max_jobs_in_flight, capacity_from, named_jobs, read_roster,
  adoption, adopt_roster, release_unrunning, after_adoption, greet, supports_protocol,
}

-- A session's capacity is at least one job and at most sixteen, whatever the Relay declares.
pub capacity_from_bounds :
    (hello : Hello) → (1 ≤ capacity_from hello) × (capacity_from hello ≤ max_jobs_in_flight)
unfolding capacity_from
capacity_from_bounds hello = ground arith

none_stranded :
    (org registration holder : ℕ) (t : List Job)
    → All
        (λ j. stranded org registration holder j ≡ false)
        (release_stranded_leases org registration holder t).0
unfolding release_stranded_leases release_row
none_stranded org registration holder [] = tt
none_stranded org registration holder (x ∷ t) =
    (ground arith, none_stranded org registration holder t)

named_jobs-incomplete :
    (parse : String → Option ℕ) (ds : List Declared)
    → any (λ d. not (is_some (parse d.job_id))) ds ≡ true
    → (named_jobs parse ds).1 ≡ false
unfolding named_jobs
named_jobs-incomplete parse [] h = cc
named_jobs-incomplete parse (d ∷ ds) h = ground (arith, named_jobs-incomplete parse ds)

-- The roster is one that the Relay may not be running in full: longer than what it can hold, or
-- with a job that has no readable name.
abbrev pub IsPartial : (String → Option ℕ) → List Declared → Type 0
IsPartial parse ds =
    (max_jobs_in_flight < length ds)
    ⊎ (any (λ d. not (is_some (parse d.job_id))) (take max_jobs_in_flight ds) ≡ true)

read_roster-IsPartial :
    (parse : String → Option ℕ) (ds : List Declared)
    → IsPartial parse ds
    → (read_roster parse ds).1 ≡ false
unfolding read_roster
read_roster-IsPartial parse ds (inl long) = ground arith
read_roster-IsPartial parse ds (inr unnamed) =
    ground (arith, named_jobs-incomplete parse (take max_jobs_in_flight ds) unnamed)

pub adopt_roster-IsPartial :
    (parse : String → Option ℕ) (session : SessionState) (ds : List Declared) (fails : Bool)
    (now : ℕ) (t : List Job)
    → IsPartial parse ds
    → (adopt_roster parse session ds fails now t).1 ≡ false
unfolding adopt_roster
adopt_roster-IsPartial parse session ds fails now t partial =
    ground (arith, read_roster-IsPartial parse ds partial)

-- The row is leased at the epoch that it had.
abbrev pub StaysLeased : ℕ → ℕ → Job → List Job → Type 0
StaysLeased org id j t =
    (k : Job) × (find (is_row org id) t ≡ some k)
    × (k.status ≡ JobStatus.leased)
    × (k.lease_epoch ≡ j.lease_epoch)

pub adopt_row-KeepsKey : (a : LeaseAdoption) (now : ℕ) → KeepsKey (adopt_row a now)
unfolding adopt_row
adopt_row-KeepsKey a now j = (refl, refl)

adopt_in_flight_leases-StaysLeased :
    (caller : ℕ) (a : LeaseAdoption) (now org id : ℕ) (t : List Job) (j : Job)
    → find (is_row org id) t ≡ some j
    → j.status ≡ JobStatus.leased
    → StaysLeased org id j (adopt_in_flight_leases caller a now t).0
unfolding adopt_in_flight_leases adopt_row
adopt_in_flight_leases-StaysLeased caller a now org id t j h leased = (
  if adoptable caller a j then adopt_row a now j else j,
  find-update org id (adoptable caller a) (adopt_row a now) t (adopt_row-KeepsKey a now) j h,
  ground arith,
  ground arith,
)

adopt_roster-StaysLeased :
    (parse : String → Option ℕ) (session : SessionState) (ds : List Declared) (fails : Bool)
    (now org id : ℕ) (t : List Job) (j : Job)
    → find (is_row org id) t ≡ some j
    → j.status ≡ JobStatus.leased
    → StaysLeased org id j (adopt_roster parse session ds fails now t).0
unfolding adopt_roster
adopt_roster-StaysLeased parse session ds fails now org id t j h leased =
    elim (Bool-cases (length (read_roster parse ds).0 == 0)) [
      | inl none_named ↦ rw none_named (j, h, leased, refl)
      | inr some_named ↦ elim (Bool-cases fails) [
        | inl failed ↦ rw some_named (rw failed (j, h, leased, refl))
        | inr worked ↦ rw some_named (
            rw worked (
              adopt_in_flight_leases-StaysLeased session.organization
                (adoption session (read_roster parse ds).0) now org id t j h leased))
      ]
    ]

pub nothing_released :
    (session : SessionState) (fails : Bool) (r : List Job × Bool)
    → (r.1 ≡ false) ⊎ (session.contested ≡ true)
    → after_adoption session fails r ≡ r.0
unfolding after_adoption
nothing_released session fails (jobs, complete) risky = ground arith

risky_adoption :
    (parse : String → Option ℕ) (session : SessionState) (ds : List Declared) (fails : Bool)
    (now : ℕ) (t : List Job)
    → IsPartial parse ds ⊎ (session.contested ≡ true)
    → ((adopt_roster parse session ds fails now t).1 ≡ false) ⊎ (session.contested ≡ true)
risky_adoption parse session ds fails now t (inl partial) =
    inl (adopt_roster-IsPartial parse session ds fails now t partial)
risky_adoption parse session ds fails now t (inr contested) = inr contested

-- Greeting a Relay whose roster may be partial, or a session whose registration is contested,
-- takes no lease away: every leased job stays leased at its epoch, whether or not the database
-- fails a statement.
pub partial_roster_releases_nothing :
    (parse : String → Option ℕ) (session : SessionState) (hello : Hello) (faults : Faults)
    (now org id : ℕ) (t : List Job) (j : Job)
    → IsPartial parse hello.in_flight ⊎ (session.contested ≡ true)
    → find (is_row org id) t ≡ some j
    → j.status ≡ JobStatus.leased
    → StaysLeased org id j (greet parse session hello faults now t).0
unfolding greet
partial_roster_releases_nothing parse session hello faults now org id t j risky h leased =
    elim (Bool-cases (supports_protocol hello.protocol_version)) [
      | inr unsupported ↦ rw unsupported (j, h, leased, refl)
      | inl supported ↦ rw supported (
          rw
            (nothing_released session faults.releasing
              (adopt_roster parse session hello.in_flight faults.adopting now t)
              (risky_adoption parse session hello.in_flight faults.adopting now t risky))
            (adopt_roster-StaysLeased parse session hello.in_flight faults.adopting now org id t j h
              leased))
    ]

all_released :
    (session : SessionState) (fails : Bool) (r : List Job × Bool)
    → r.1 ≡ true
    → session.contested ≡ false
    → fails ≡ false
    → after_adoption session fails r
      ≡ (release_stranded_leases session.organization session.registration_id session.id r.0).0
unfolding after_adoption release_unrunning
all_released session fails (jobs, complete) whole calm works = ground arith

-- After a complete roster was adopted for a session that is not contested, and the release went
-- through, no job of the registration is leased to any other session.
pub complete_roster_releases_the_rest :
    (parse : String → Option ℕ) (session : SessionState) (hello : Hello) (faults : Faults) (now : ℕ)
    (t : List Job)
    → supports_protocol hello.protocol_version ≡ true
    → (adopt_roster parse session hello.in_flight faults.adopting now t).1 ≡ true
    → session.contested ≡ false
    → faults.releasing ≡ false
    → All
        (λ j. stranded session.organization session.registration_id session.id j ≡ false)
        (greet parse session hello faults now t).0
unfolding greet
complete_roster_releases_the_rest parse session hello faults now t supported complete calm worked =
    rw supported (
      rw
        (all_released session faults.releasing
          (adopt_roster parse session hello.in_flight faults.adopting now t) complete calm worked)
        (none_stranded session.organization session.registration_id session.id
          (adopt_roster parse session hello.in_flight faults.adopting now t).0))
