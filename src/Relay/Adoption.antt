-- ===== src/Relay/Adoption.antt =====
-- The jobs that the handshake of internal/relay/session.go leaves with the session it greets.
use Prim.Native.String.{String}
use oc_control_plane.Prelude.{
  ℕ, zero, suc, ◌<◌, ◌∙◌, take, find-some-IsIn, Option-cases, ◌≡◌, refl, inl, inr, Bool, true,
  false, not, ◌&&◌, Option, some, List, [], ◌∷◌, arith, ◌==◌, if◌then◌else◌, Bool-cases, length,
  find, any, none,
}
use oc_control_plane.Jobs.Row.{Job, JobStatus, InFlightJob}
use oc_control_plane.Jobs.Statements.{
  is_row, declares, adoptable, adopt_row, adopt_in_flight_leases, stranded, release_row,
  release_stranded_leases,
}
use oc_control_plane.Jobs.Rows.{KeepsKey, find-update}
use oc_control_plane.Relay.Handshake.{
  Declared, Hello, SessionState, Faults, max_jobs_in_flight, named_jobs, read_roster, adoption,
  adopt_roster, release_unrunning, after_adoption, greet, supports_protocol,
}
use oc_control_plane.Relay.HandshakeLaws.{
  adopt_row-KeepsKey, adopt_roster-IsPartial, nothing_released,
}

-- The row is leased to the session, at the epoch that it had.
abbrev pub HeldBy : SessionState → ℕ → Job → List Job → Type 0
HeldBy session id j t =
    (k : Job) × (find (is_row session.organization id) t ≡ some k)
    × (k.status ≡ JobStatus.leased)
    × (k.lease_epoch ≡ j.lease_epoch)
    × (k.lease_session ≡ some session.id)

release_row-KeepsKey : KeepsKey release_row
unfolding release_row
release_row-KeepsKey j = (refl, refl)

release_stranded_leases-HeldBy :
    (session : SessionState) (id : ℕ) (j : Job) (t : List Job)
    → HeldBy session id j t
    → HeldBy session id j
        (release_stranded_leases session.organization session.registration_id session.id t).0
unfolding release_stranded_leases release_row
release_stranded_leases-HeldBy session id j t (k, h, leased, epoch, held) = (
  if stranded session.organization session.registration_id session.id k then release_row k else k,
  find-update session.organization id
      (stranded session.organization session.registration_id session.id) release_row t
      release_row-KeepsKey k h,
  ground arith,
  ground arith,
  ground arith,
)

after_adoption-HeldBy :
    (session : SessionState) (fails : Bool) (id : ℕ) (j : Job) (r : List Job × Bool)
    → HeldBy session id j r.0
    → HeldBy session id j (after_adoption session fails r)
unfolding after_adoption release_unrunning
after_adoption-HeldBy session fails id j (jobs, complete) held =
    elim (Bool-cases (complete && not session.contested)) [
      | inr kept ↦ rw kept held
      | inl whole ↦ rw whole (elim (Bool-cases fails) [
        | inl failed ↦ rw failed held
        | inr worked ↦ rw worked (release_stranded_leases-HeldBy session id j jobs held)
      ])
    ]

adopt_in_flight_leases-HeldBy :
    (session : SessionState) (in_flight : List InFlightJob) (now id : ℕ) (t : List Job) (j : Job)
    → find (is_row session.organization id) t ≡ some j
    → adoptable session.organization (adoption session in_flight) j ≡ true
    → HeldBy session id j
        (adopt_in_flight_leases session.organization (adoption session in_flight) now t).0
unfolding adopt_in_flight_leases adopt_row adoption
adopt_in_flight_leases-HeldBy session in_flight now id t j h declared = (
  if adoptable session.organization (adoption session in_flight) j
      then adopt_row (adoption session in_flight) now j
      else j,
  find-update session.organization id (adoptable session.organization (adoption session in_flight))
      (adopt_row (adoption session in_flight) now) t
      (adopt_row-KeepsKey (adoption session in_flight) now) j h,
  ground arith,
  ground arith,
  ground arith,
)

adoptable_of_some_named :
    (session : SessionState) (in_flight : List InFlightJob) (j : Job)
    → adoptable session.organization (adoption session in_flight) j ≡ true
    → (length in_flight == 0) ≡ false
unfolding adoption
adoptable_of_some_named session [] j h = ground arith
adoptable_of_some_named session (d ∷ ds) j h = ground arith

-- An entry of a roster that names the job at its epoch.
abbrev pub is_named : (String → Option ℕ) → Job → Declared → Bool
is_named parse j d = elim (parse d.job_id) [
  | none ↦ false
  | some id ↦ (id == j.job_id) && (d.lease_epoch == j.lease_epoch)
]

named_jobs-declares :
    (parse : String → Option ℕ) (ds : List Declared) (j : Job)
    → any (declares j) (named_jobs parse ds).0 ≡ any (is_named parse j) ds
unfolding named_jobs
named_jobs-declares parse [] j = refl
named_jobs-declares parse (d ∷ ds) j = elim (Option-cases (parse d.job_id)) [
  | inl garbled ↦ ground (arith, named_jobs-declares parse ds j)
  | inr (id, e) ↦ ground (arith, named_jobs-declares parse ds j)
]

read_roster-declares :
    (parse : String → Option ℕ) (ds : List Declared) (j : Job)
    → any (declares j) (read_roster parse ds).0
      ≡ any (is_named parse j) (take max_jobs_in_flight ds)
unfolding read_roster
read_roster-declares parse ds j = named_jobs-declares parse (take max_jobs_in_flight ds) j

long_of_late {ℓ} :
    {A : Type ℓ} (p : A → Bool) (n : ℕ) (t : List A)
    → any p t ≡ true
    → any p (take n t) ≡ false
    → n < length t
long_of_late p n [] h late = cc
long_of_late p zero (x ∷ t) h late = omega arith
long_of_late p (suc n) (x ∷ t) h late = ground (arith, long_of_late p n t)

adopt_roster-HeldBy :
    (parse : String → Option ℕ) (session : SessionState) (ds : List Declared) (now id : ℕ)
    (t : List Job) (j : Job)
    → find (is_row session.organization id) t ≡ some j
    → adoptable session.organization (adoption session (read_roster parse ds).0) j ≡ true
    → HeldBy session id j (adopt_roster parse session ds false now t).0
unfolding adopt_roster
adopt_roster-HeldBy parse session ds now id t j h declared =
    rw (adoptable_of_some_named session (read_roster parse ds).0 j declared)
      (adopt_in_flight_leases-HeldBy session (read_roster parse ds).0 now id t j h declared)

-- Where no entry that is read names the job, its row is left as it is.
adopt_roster-leaves :
    (parse : String → Option ℕ) (session : SessionState) (ds : List Declared) (now id : ℕ)
    (t : List Job) (j : Job)
    → find (is_row session.organization id) t ≡ some j
    → any (declares j) (read_roster parse ds).0 ≡ false
    → find (is_row session.organization id) (adopt_roster parse session ds false now t).0 ≡ some j
unfolding adopt_roster adopt_in_flight_leases adoption
adopt_roster-leaves parse session ds now id t j h unnamed =
    let ready = adoption session (read_roster parse ds).0 in
    let kept =
      find-update session.organization id (adoptable session.organization ready)
        (adopt_row ready now) t (adopt_row-KeepsKey ready now) j h in
    elim (Bool-cases (length (read_roster parse ds).0 == 0)) [
      | inl none_named ↦ rw none_named h
      | inr some_named ↦ rw some_named (ground (arith, kept))
    ]

-- A leased job of the registration that the roster names at its epoch, at whatever place, is not
-- lost by the handshake, where the protocol is supported and the adoption goes through: its row
-- stays leased at that epoch, to the new session where one of the first sixteen entries names it,
-- and to the session before where only later entries do.
pub declared_execution_survives :
    (parse : String → Option ℕ) (session : SessionState) (hello : Hello) (faults : Faults)
    (now id : ℕ) (t : List Job) (j : Job)
    → supports_protocol hello.protocol_version ≡ true
    → faults.adopting ≡ false
    → find (is_row session.organization id) t ≡ some j
    → j.registration_id ≡ session.registration_id
    → j.status ≡ JobStatus.leased
    → any (is_named parse j) hello.in_flight ≡ true
    → (k : Job) × (find (is_row session.organization id) (greet parse session hello faults now t).0
        ≡ some k)
      × (k.status ≡ JobStatus.leased)
      × (k.lease_epoch ≡ j.lease_epoch)
      × (k.lease_session ≡ (
          if any (is_named parse j) (take max_jobs_in_flight hello.in_flight)
          then some session.id
          else j.lease_session))
unfolding greet
declared_execution_survives parse session hello faults now id t j supported worked h own leased
      named =
    elim (Bool-cases (any (is_named parse j) (take max_jobs_in_flight hello.in_flight))) [
      | inl early ↦
          let org = (find-some-IsIn (is_row session.organization id) t j h).1 in
          let listed = read_roster-declares parse hello.in_flight j in
          rw (supported, worked, early)
            (after_adoption-HeldBy session faults.releasing id j
              (adopt_roster parse session hello.in_flight false now t)
              (adopt_roster-HeldBy parse session hello.in_flight now id t j h
                (unfold adoption in ground arith)))
      | inr late ↦
          let long =
            long_of_late (is_named parse j) max_jobs_in_flight hello.in_flight named late in
          let kept =
            nothing_released session faults.releasing
              (adopt_roster parse session hello.in_flight false now t)
              (inl (adopt_roster-IsPartial parse session hello.in_flight false now t (inl long))) in
          rw (supported, worked, late)
            (
              j,
              rw kept (
                  adopt_roster-leaves parse session hello.in_flight now id t j h
                    (read_roster-declares parse hello.in_flight j ∙ late)),
              leased,
              refl,
              refl,
            )
    ]
