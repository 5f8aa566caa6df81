-- ===== src/Relay/Sessions.antt =====
-- internal/relay/sessions.go: the live sessions, one for each registration, and how a session ends.
use oc_control_plane.Prelude.{
  ℕ, ◌≡◌, ◌≢◌, refl, inl, inr, Bool, false, Option, none, some, List, [], ◌∷◌, arith, ◌==◌,
  if◌then◌else◌, Bool-cases, All, lookup, insert, delete, lookup-insert, lookup-delete,
}

-- A session by its registration and its own identifier, which uuid.New makes unique.
pub record Session : Type 0 where
  pub registration_id : ℕ
  pub id : ℕ

-- byRegistration.
abbrev pub LiveSessions : Type 0
LiveSessions = List (ℕ × Session)

-- install: the new map, and the session that it displaced.
unfoldable pub install : Session → LiveSessions → LiveSessions × Option Session
install s live = (insert s.registration_id s live, lookup s.registration_id live)

-- `byRegistration[r] == session`.
is_live : Session → Option Session → Bool
is_live s none = false
is_live s (some t) = t.id == s.id

-- remove: a session takes out itself only.
unfoldable pub remove : Session → LiveSessions → LiveSessions
unfolding is_live
remove s live =
    if is_live s (lookup s.registration_id live) then delete s.registration_id live else live

-- What the concurrent streams do to the map, in the order of the mutex.
pub data LiveEvent : Type 0 where
  installs removes : Session → LiveEvent

unfoldable pub play : LiveSessions → List LiveEvent → LiveSessions
play live [] = live
play live (installs s ∷ es) = play (install s live).0 es
play live (removes s ∷ es) = play (remove s live) es

-- An event that neither opens a session of the registration nor closes the session itself.
abbrev pub IsStale : Session → LiveEvent → Type 0
IsStale s (installs t) = t.registration_id ≢ s.registration_id
IsStale s (removes t) = t.id ≢ s.id

remove-IsStale :
    (s t : Session) (live : LiveSessions)
    → lookup s.registration_id live ≡ some s
    → t.id ≢ s.id
    → lookup s.registration_id (remove t live) ≡ some s
unfolding remove
remove-IsStale s t live h differs = elim (Bool-cases (t.registration_id == s.registration_id)) [
  | inl same ↦
      let e : t.registration_id ≡ s.registration_id = ground arith in rw (e, h) (ground arith)
  | inr elsewhere ↦ ground (arith, lookup-delete t.registration_id s.registration_id live)
]

play-IsStale :
    (s : Session) (live : LiveSessions) (es : List LiveEvent)
    → lookup s.registration_id live ≡ some s
    → All (IsStale s) es
    → lookup s.registration_id (play live es) ≡ some s
unfolding play install remove
play-IsStale s live [] h stale = h
play-IsStale s live (installs t ∷ es) h stale =
    play-IsStale s (install t live).0 es
      (ground (arith, lookup-insert t.registration_id s.registration_id t live, stale.0)) stale.1
play-IsStale s live (removes t ∷ es) h stale =
    play-IsStale s (remove t live) es (remove-IsStale s t live h stale.0) stale.1

-- The session opened last for a registration stays the live one, whatever sessions of other
-- registrations open and whichever other sessions close after it: a displaced session that closes
-- late takes nothing away from its successor.
pub successor_stays_live :
    (s : Session) (live : LiveSessions) (es : List LiveEvent)
    → All (IsStale s) es
    → lookup s.registration_id (play live (installs s ∷ es)) ≡ some s
unfolding play install
successor_stays_live s live es stale =
    play-IsStale s (install s live).0 es
      (ground (arith, lookup-insert s.registration_id s.registration_id s live)) stale

-- The codes that sessions end with.
pub data Code : Type 0 where
  aborted deadline_exceeded failed_precondition invalid_argument unauthenticated unavailable : Code

-- end: the first reason stays (CompareAndSwap from nil).
unfoldable pub end_session : Code → Option Code → Option Code
end_session code none = some code
end_session code (some first) = some first

-- ending: the reason that the session was ended for, or else the error at hand.
unfoldable pub ending : Option Code → Option Code → Option Code
ending none error = error
ending (some reason) error = some reason

unfoldable pub end_all : List Code → Option Code → Option Code
end_all [] ended = ended
end_all (c ∷ cs) ended = end_all cs (end_session c ended)

end_all-some : (cs : List Code) (c : Code) → end_all cs (some c) ≡ some c
unfolding end_all end_session
end_all-some [] c = refl
end_all-some (d ∷ cs) c = end_all-some cs c

-- However many parts of the server end a session, and whatever error its stream then meets, the
-- stream reports the first reason.
pub first_reason_reported :
    (c : Code) (cs : List Code) (error : Option Code)
    → ending (end_all (c ∷ cs) none) error ≡ some c
unfolding end_all end_session ending
first_reason_reported c cs error = rw (end_all-some cs c)
