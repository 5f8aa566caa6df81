-- ===== src/Relay/Churn.antt =====
-- internal/relay/churn.go: the watch over sessions of one registration that keep taking over from
-- one another. Times are nanoseconds; `now` is the clock's value at the call. A host is a text, and
-- net.SplitHostPort, which is not part of the repository's code, is the parameter `split`.
use Prim.Native.String.{String}
use text.Mathlib.Text.{◌==◌ as str_eq}
use oc_control_plane.Prelude.{
  ℕ, suc, ◌+◌, ◌*◌, Bool, true, false, ◌&&◌, ◌||◌, Option, none, some, List, [], ◌∷◌, ◌++◌, leb,
  ltb, ◌==◌, if◌then◌else◌, length, drop, any, lookup, insert,
}

-- heartbeatInterval and sessionIdleTimeout of internal/relay/session.go.
abbrev pub heartbeat_interval : ℕ
heartbeat_interval = 15000000000

abbrev pub session_idle_timeout : ℕ
session_idle_timeout = 3 * heartbeat_interval

abbrev pub churn_window : ℕ
churn_window = 2 * session_idle_timeout

abbrev pub churn_threshold : ℕ
churn_threshold = 3

abbrev pub contending_hosts : ℕ
contending_hosts = 2

abbrev pub minimum_session_lifetime : ℕ
minimum_session_lifetime = session_idle_timeout

abbrev pub churn_memory : ℕ
churn_memory = 8

abbrev pub max_tracked_registrations : ℕ
max_tracked_registrations = 4096

abbrev pub churn_sweep_interval : ℕ
churn_sweep_interval = churn_window

pub record Takeover : Type 0 where
  pub at : ℕ
  pub host : String

pub record ChurnVerdict : Type 0 where
  pub contested : Bool
  pub takeovers : ℕ
  pub distinct_hosts : ℕ
  pub backoff : ℕ
  pub untracked : Bool

pub record ChurnWatch : Type 0 where
  pub by_registration : List (ℕ × List Takeover)
  pub last_swept : ℕ

-- newChurnWatch.
unfoldable pub new_churn_watch : ChurnWatch
new_churn_watch = record { by_registration = []; last_swept = 0 }

-- forgetBefore at the cutoff `now - churnWindow`: the leading takeovers at or before it go.
unfoldable pub forget_old : ℕ → List Takeover → List Takeover
forget_old now [] = []
forget_old now (t ∷ ts) =
    let rest = forget_old now ts in if leb (t.at + churn_window) now then rest else t ∷ ts

-- The oldest takeover makes room once the memory is full.
unfoldable pub make_room : List Takeover → List Takeover
make_room recent = if length recent == churn_memory then drop 1 recent else recent

-- takeovers.add.
unfoldable pub add_takeover : ℕ → String → List Takeover → List Takeover
unfolding make_room
add_takeover now host recent =
    make_room (forget_old now recent) ++ record { at = now; host = host } ∷ []

-- takeovers.hosts: the size of the set of hosts.
unfoldable pub distinct_hosts : List Takeover → ℕ
distinct_hosts [] = 0
distinct_hosts (t ∷ ts) =
    let rest = distinct_hosts ts in if any (λ u. str_eq u.host t.host) ts then rest else suc rest

-- takeovers.verdict.
unfoldable pub verdict : List Takeover → ChurnVerdict
verdict recent =
    let hosts = distinct_hosts recent in
    record {
      contested =
          leb churn_threshold (length recent)
          || (leb contending_hosts hosts && leb contending_hosts (length recent));
      takeovers = length recent;
      distinct_hosts = hosts;
      backoff = if leb contending_hosts (length recent) then minimum_session_lifetime else 0;
      untracked = false;
    }

-- The loop of sweep: every history forgets, and an empty one goes.
unfoldable pub sweep_entries : ℕ → List (ℕ × List Takeover) → List (ℕ × List Takeover)
sweep_entries now [] = []
sweep_entries now ((registration, history) ∷ m) =
    let rest = sweep_entries now m in
    if length (forget_old now history) == 0
    then rest
    else (registration, forget_old now history) ∷ rest

-- churnWatch.sweep.
unfoldable pub sweep : ℕ → ChurnWatch → ChurnWatch
sweep now c =
    if ltb now (c.last_swept + churn_sweep_interval)
    then c
    else record { by_registration = sweep_entries now c.by_registration; last_swept = now }

-- hostOf: the host of an address, or the address where it does not split.
unfoldable pub host_of : (String → Option String) → String → String
host_of split peer = elim (split peer) [ none ↦ peer | some host ↦ host ]

abbrev pub untracked_verdict : ChurnVerdict
untracked_verdict = record {
  contested = false;
  takeovers = 0;
  distinct_hosts = 0;
  backoff = 0;
  untracked = true;
}

-- The history of a registration, or none where it is not tracked and no room is left.
unfoldable pub history_for : ℕ → ChurnWatch → Option (List Takeover)
history_for registration c = elim (lookup registration c.by_registration) [
  | none ↦ if leb max_tracked_registrations (length c.by_registration) then none else some []
  | some history ↦ some history
]

-- churnWatch.record.
unfoldable pub record_takeover :
    (String → Option String) → ℕ → ℕ → String → ChurnWatch → ChurnWatch × ChurnVerdict
unfolding host_of
record_takeover split now registration peer c =
    let swept = sweep now c in
    elim (history_for registration swept) [
      | none ↦ (swept, untracked_verdict)
      | some history ↦
          let recent = add_takeover now (host_of split peer) history in
          (
            record swept { by_registration = insert registration recent swept.by_registration },
            verdict recent,
          )
    ]
