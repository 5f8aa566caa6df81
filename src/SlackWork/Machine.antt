-- ===== src/SlackWork/Machine.antt =====
-- The life of a piece of Slack work as a state machine, apart from how
-- internal/store/postgres/slack_message_work.go stores it: who may work on it is decided by the
-- epoch of the last grant.
use oc_control_plane.Prelude.{ℕ, suc, Bool, true, false, ◌≡◌, refl, ap, arith}

-- Every state carries the epoch of its last grant.
pub data State : Type 0 where
  waiting held buried finished : ℕ → State

pub data Step : State → State → Type 0 where
  grant : (e : ℕ) → Step (waiting e) (held (suc e))
  take_over : (e : ℕ) → Step (held e) (held (suc e))
  give_back : (e : ℕ) → Step (held e) (waiting e)
  bury : (e : ℕ) → Step (held e) (buried e)
  finish : (e : ℕ) → Step (held e) (finished e)
  revive : (e : ℕ) → Step (buried e) (waiting e)

pub data Steps (s : State) : State → Type 0 where
  stays : Steps s s
  moves : {t u : State} → Steps s t → Step t u → Steps s u

pub one : (s t : State) → Step s t → Steps s t
one s t step = moves stays step

pub join : {s t u : State} → Steps s t → Steps t u → Steps s u
join a stays = a
join a (moves b step) = moves (join a b) step

abbrev pub is_finished : State → Bool
is_finished (finished e) = true
is_finished _ = false

Step-is_finished : {s t : State} → Step s t → is_finished s ≡ false
Step-is_finished (grant e) = refl
Step-is_finished (take_over e) = refl
Step-is_finished (give_back e) = refl
Step-is_finished (bury e) = refl
Step-is_finished (finish e) = refl
Step-is_finished (revive e) = refl

-- No step leaves a finished state.
pub finished_stays : {s t : State} → is_finished s ≡ true → Steps s t → t ≡ s
finished_stays h stays = refl
finished_stays h (moves a step) =
    let same = ap is_finished (finished_stays h a) in
    let left = Step-is_finished step in absurd (ground arith)
