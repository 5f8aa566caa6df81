-- ===== src/Agent/Loop.antt =====
-- internal/investigation/agent/run.go: the loop of Agent.Run, from its first turn to the ending
-- that it stores. What is read before the loop is its arguments; a terminal write that fails is
-- `unrecorded`.
use Prim.Native.String.{String}
use oc_control_plane.Prelude.{
  ℕ, zero, suc, Bool, false, not, ◌&&◌, ◌||◌, Option, none, some, List, [], ◌∷◌, ◌++◌, ltb, leb,
  ◌==◌, if◌then◌else◌, length,
}
use oc_control_plane.Prelude.Integers.{ℤ, pos, negsuc}
use oc_control_plane.Agent.Documents.{EvidenceRef, Conclusion}
use oc_control_plane.Agent.Values.{Brief, ToolRun, ToolResultTurn, Turn, Usage}
use oc_control_plane.Agent.Prompts.{
  Orientation, StoppedBy, unstopped, by_tool_runs, by_reasoner_turns, by_wall_clock, is_unstopped,
  conclude_reason,
}
use oc_control_plane.Agent.Exchange.{
  Model, Exchange, Move, undecided, reads, concludes, fails, Failure,
}
use oc_control_plane.Agent.Attempts.{exchange}
use oc_control_plane.Agent.Reads.{Reads, Credentials, Batch}
use oc_control_plane.Agent.Batch.{take_calls}

pub data FailureReason : Type 0 where
  interrupted no_conclusion unread : FailureReason
  exchange_failed : Failure → FailureReason

-- What is written when the run ends: ConcludeInvestigation or FailInvestigation.
pub data Ending : Type 0 where
  concluded : Conclusion → StoppedBy → Usage → Ending
  failed : FailureReason → Usage → Ending

-- runState, and the variables of the loop.
pub record RunState : Type 0 where
  pub runs : List ToolRun
  pub executed : ℕ
  pub turns : ℕ
  pub usage : Usage
  pub transcript : List Turn
  pub missing_evidence : Bool
  pub credentials : Credentials
  pub history_identities : List String
  pub prior : List EvidenceRef
  pub orientation : Orientation
  pub results : List ToolResultTurn
  pub stopped_by : StoppedBy

-- The limits of a run, and what it asks at each turn: whether its context has ended, and whether
-- its deadline is nearer than the reserve.
pub record Setting : Type 0 where
  pub model : Model
  pub sources : Reads
  pub max_turns : ℕ
  pub context_ended : ℕ → Bool
  pub almost_over : ℕ → Bool

-- A limit of zero or less stands for the default.
abbrev pub limit_or : ℕ → ℤ → ℕ
limit_or default (pos zero) = default
limit_or default (pos (suc n)) = suc n
limit_or default (negsuc n) = default

abbrev pub default_max_tool_runs : ℕ
default_max_tool_runs = 30

abbrev pub default_max_turns : ℕ
default_max_turns = 20

abbrev pub brief_history : Option Brief → ℕ
brief_history none = 0
brief_history (some brief) = brief.history_before

abbrev pub brief_lacks : Option Brief → Bool
brief_lacks none = false
brief_lacks (some brief) = brief.missing_evidence

-- The limits of the agent, and what it makes of them and of the brief before the loop.
unfoldable pub prepared : ℤ → ℤ → Orientation → Setting → Setting
prepared max_tool_runs max_turns orientation setting = record setting {
  max_turns = limit_or default_max_turns max_turns;
  sources = record setting.sources {
    max_runs = limit_or default_max_tool_runs max_tool_runs;
    history_before = brief_history orientation.brief;
  };
}

unfoldable pub initial : Orientation → RunState
initial orientation = record {
  runs = [];
  executed = 0;
  turns = 0;
  usage = record { input_tokens = 0; output_tokens = 0 };
  transcript = [];
  missing_evidence = brief_lacks orientation.brief;
  credentials = record { opened = []; failures = [] };
  history_identities = [];
  prior = [];
  orientation = orientation;
  results = [];
  stopped_by = unstopped;
}

-- A turn ends the run, or leaves it to the next turn.
pub data Turned : Type 0 where
  ends : Ending → RunState → Turned
  goes_on : RunState → Turned

module _ (setting : Setting) where
  abbrev pub offered_count : ℕ
  offered_count = length setting.sources.offered

  -- The ceiling that a turn meets.
  unfoldable pub ceiling : ℕ → RunState → StoppedBy
  ceiling turn s =
      if not (is_unstopped s.stopped_by)
      then s.stopped_by
      else if leb setting.sources.max_runs s.executed
      then by_tool_runs
      else if ltb setting.max_turns turn
      then by_reasoner_turns
      else if setting.almost_over turn
      then by_wall_clock
      else unstopped

  abbrev pub must_conclude : StoppedBy → Bool
  must_conclude by =
      not (is_unstopped by) || ((offered_count == 0) && leb setting.sources.history_before 1)

  -- The results of the last turn join the transcript.
  abbrev pub append_results : List ToolResultTurn → List Turn → List Turn
  append_results results [] =
      record { text = ""; calls = []; tool_results = results; instruction = "" } ∷ []
  append_results results (turn ∷ []) =
      record turn { tool_results = turn.tool_results ++ results } ∷ []
  append_results results (turn ∷ next ∷ turns) = turn ∷ append_results results (next ∷ turns)

  abbrev pub with_results : List ToolResultTurn → List Turn → List Turn
  with_results [] turns = turns
  with_results (result ∷ results) turns = append_results (result ∷ results) turns

  -- The exchange of a turn.
  unfoldable pub begin : ℕ → RunState → Exchange
  begin turn s =
      let by = ceiling turn s in
      record {
        orientation = s.orientation;
        transcript = with_results s.results s.transcript;
        usage = s.usage;
        stopped_by = by;
        forced = must_conclude by;
        reason = conclude_reason by offered_count;
      }

  abbrev pub after_exchange : RunState → Exchange → RunState
  after_exchange s x = record s {
    turns = suc s.turns;
    usage = x.usage;
    transcript = x.transcript;
    orientation = x.orientation;
    stopped_by = x.stopped_by;
    results = [];
  }

  abbrev pub batch_of : RunState → Batch
  batch_of s = record {
    runs = s.runs;
    executed = s.executed;
    credentials = s.credentials;
    history_identities = s.history_identities;
    missing_evidence = s.missing_evidence;
    prior = s.prior;
    results = [];
    identities = [];
  }

  abbrev pub after_batch : RunState → Batch → RunState
  after_batch s batch = record s {
    runs = batch.runs;
    executed = batch.executed;
    credentials = batch.credentials;
    history_identities = batch.history_identities;
    missing_evidence = batch.missing_evidence;
    prior = batch.prior;
    results = batch.results;
  }

  -- What a turn does with the move of its exchange.
  unfoldable pub follow : RunState → Bool → Move → Turned
  follow s forced undecided = ends (failed no_conclusion s.usage) s
  follow s forced (fails because) = ends (failed (exchange_failed because) s.usage) s
  follow s forced (concludes c) = ends (concluded c s.stopped_by s.usage) s
  follow s forced (reads calls) =
      if forced
      then ends (failed no_conclusion s.usage) s
      else elim (take_calls setting.sources (batch_of s) calls) [
        | none ↦ ends (failed unread s.usage) s
        | some batch ↦ goes_on (after_batch s batch)
      ]

  -- One turn of the loop.
  unfoldable pub take_turn : ℕ → RunState → Turned
  take_turn turn s =
      if setting.context_ended turn
      then ends (failed interrupted s.usage) s
      else let (x, move) =
          exchange setting.model turn s.missing_evidence s.runs s.prior offered_count
            (begin turn s) in
        follow (after_exchange s x) x.forced move

  -- The loop, on fuel; `none` is a loop that is not over.
  unfoldable pub run_from : ℕ → ℕ → RunState → Option (Ending × RunState)
  run_from zero turn s = none
  run_from (suc fuel) turn s = elim (take_turn turn s) [
    | ends ending t ↦ some (ending, t)
    | goes_on t ↦ run_from fuel (suc turn) t
  ]

-- The loop of Agent.Run from its first turn on, with fuel for one turn past the last.
unfoldable pub run : ℤ → ℤ → Orientation → Setting → Option (Ending × RunState)
run max_tool_runs max_turns orientation setting =
    let ready = prepared max_tool_runs max_turns orientation setting in
    run_from ready (suc ready.max_turns) 1 (initial orientation)
