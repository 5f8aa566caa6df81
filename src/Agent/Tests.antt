-- ===== src/Agent/Tests.antt =====
-- The theorems on the agent, on a model that reads once and then concludes.
use Prim.Native.String.{String, len}
use text.Mathlib.Text.{◌==◌ as str_eq}
use oc_control_plane.Prelude.{
  ℕ, ◌≤◌, ◌≡◌, refl, Bool, true, false, Option, none, some, [], ◌∷◌, ◌==◌, if◌then◌else◌, map,
}
use oc_control_plane.Prelude.Integers.{pos, negsuc}
use oc_control_plane.Agent.Documents.{
  run_succeeded, run_failed, observation, inconclusive, Conclusion, ConclusionDocument,
}
use oc_control_plane.Agent.Conclusions.{accepted}
use oc_control_plane.Agent.Decoding.{decode_conclusion}
use oc_control_plane.Agent.Cited.{IsWellCited}
use oc_control_plane.Agent.Values.{
  OfferedSource, CompletionCall, Usage, ToolRun, no_fields, field, object, no_content,
}
use oc_control_plane.Agent.Observations.{prepare_observation}
use oc_control_plane.Agent.Observed.{rune_count, IsPresentable, prepared_observation_bounded}
use oc_control_plane.Agent.Prompts.{Orientation, unstopped, Prompt, allowed_references}
use oc_control_plane.Agent.Exchange.{stop_complete, Completion, Model}
use oc_control_plane.Agent.Reads.{Reads, succeeded}
use oc_control_plane.Agent.Loop.{Setting, RunState, Ending, concluded, run}
use oc_control_plane.Agent.Loop.{prepared, initial, run_from, take_turn, ceiling, begin, follow}
use oc_control_plane.Agent.Exchange.{mark_missing_evidence}
use oc_control_plane.Agent.Attempts.{exchange, attempt, consider, settle, judge, verify}
use oc_control_plane.Agent.Conclusions.{check_evidence}
use oc_control_plane.Agent.Decoding.{
  check_conclusion, decode_impact, decode_finding, conclusion_status_error,
}
use oc_control_plane.Agent.Calls.{
  split_from, decode_tool_call, read_envelope, read_input, read_selection, read_purpose, tool_named,
}
use oc_control_plane.Agent.Observations.{max_observation_bytes}
use oc_control_plane.Prelude.{List, arith, count, ◌⊎◌, ◌≤◌, none, true, length, ◌+◌}
use oc_control_plane.Agent.Batch.{
  prepared_run, take_calls, take_call, select_source, take_selected, take_read, record_run,
  render_run,
}
use oc_control_plane.Agent.Execution.{execute, open_credential, run_offered, request_for}
use oc_control_plane.Agent.Observations.{
  hide_secrets, redact, secrets_of, safe_fields, safe_json, bound_text, compact_arguments,
  result_lines, bounded_json,
}
use oc_control_plane.Agent.Prompts.{conclude_reason, model_prompt, exchange_tools}
use oc_control_plane.Agent.Observations.{observation as observation_of}
use oc_control_plane.Agent.Turns.{run-ends}
use oc_control_plane.Agent.Accounts.{brought, IsNumbered}
use oc_control_plane.Agent.Outcomes.{run-concluded-IsWellCited}
use oc_control_plane.Agent.Spending.{run-IsInBudget}

abbrev quiet : Usage
quiet = record { input_tokens = 2; output_tokens = 3 }

abbrev source : OfferedSource
source = record {
  integration = record { id = 4; provider = 1; name = "cluster"; credential_sealed = "" };
  tools = record { name = "logs"; supports_thread_scope = false } ∷ [];
}

abbrev orientation : Orientation
orientation = record {
  about = "";
  question = "";
  sources = source ∷ [];
  inventory = [];
  brief = none;
}

-- A conclusion whose hypothesis cites the first run.
abbrev document : ConclusionDocument
document = record {
  status = "inconclusive";
  summary = "nothing found";
  impact = some (record { summary = some "none"; run_refs = some [] });
  findings =
      record {
        statement = "the log is empty";
        kind = "observation";
        mechanism = "";
        run_refs = pos 1 ∷ [];
        evidence_refs = [];
      }
      ∷ [];
  hypotheses = [];
  actions = [];
  limitations = [];
}

abbrev parse : String → Option ConclusionDocument
parse text = if str_eq text "doc" then some document else none

abbrev call : String → String → String → CompletionCall
call id name arguments = record { id = id; name = name; arguments = arguments }

abbrev complete : ℕ → Bool → Prompt → Completion
complete turn first prompt = record {
  error = none;
  stop = stop_complete;
  document = "";
  tool_calls = if turn == 1 then call "a" "logs" "read" ∷ [] else call "b" "conclude" "doc" ∷ [];
  usage = quiet;
}

abbrev model : Model
model = record {
  complete = complete;
  evidence_missing = λ turn first refs. some false;
  parse = parse;
  unmarshal = λ text. some (field "input" (object no_fields) no_fields);
  explain = λ because. "refused";
  trim = λ text. text;
  rune_count = rune_count;
  render_length = λ o. 10;
}

abbrev reads : Reads
reads = record {
  investigation_id = 1;
  conversation_id = 0;
  window_from = 0;
  window_until = 9;
  offered = source ∷ [];
  origin = none;
  max_runs = 0;
  history_before = 0;
  run_tool = λ ordinal s tool request. succeeded (record {
    window = none;
    truncated = false;
    summary = "none";
    sources = [];
    content = no_content;
  });
  record_tool_run = λ r. true;
  record_unseal = λ id. true;
  open_sealed = λ id sealed. none;
  conversation_history = λ n before. none;
  evidence_missing = λ n refs. none;
  before_sequence = λ arguments. none;
  marshal = λ arguments. "{}";
  marshal_page = λ page. "{}";
  uuid_text = λ id. "id";
  itoa = λ n. "n";
  replace_all = λ pairs text. text;
  marshal_json = λ v. "{}";
  quoted = λ text. text;
  stamp = λ at. "t";
  names_a_credential = λ key. false;
}

abbrev setting : Setting
setting = record {
  model = model;
  sources = reads;
  max_turns = 0;
  context_ended = λ turn. false;
  almost_over = λ turn. false;
}

run-ends_example :
    (ending : Ending) × (t : RunState) × (run (pos 1) (negsuc 0) orientation setting
      ≡ some (ending, t))
    × (t.turns ≤ 21)
run-ends_example = run-ends (pos 1) (negsuc 0) orientation setting

abbrev ending_of : Option (Ending × RunState) → RunState → RunState
ending_of none s = s
ending_of (some (ending, t)) s = t

abbrev conclusion : Conclusion
conclusion = record {
  status = inconclusive;
  summary = "nothing found";
  impact = record { summary = "none"; run_refs = [] };
  findings =
      record {
        statement = "the log is empty";
        kind = observation;
        mechanism = "";
        run_refs = pos 1 ∷ [];
        evidence_refs = [];
      }
      ∷ [];
  hypotheses = [];
  actions = [];
  limitations = [];
}

-- The state that the run ends in, with its one read.
abbrev final : RunState
final = ending_of (run (pos 5) (pos 3) orientation setting) (initial orientation)

abbrev spent : Usage
spent = record { input_tokens = 4; output_tokens = 6 }

ends_concluded :
    run (pos 5) (pos 3) orientation setting ≡ some (concluded conclusion unstopped spent, final)
unfolding run prepared initial run_from take_turn ceiling begin follow exchange attempt consider
    settle judge verify decode_conclusion check_conclusion decode_impact decode_finding
    check_evidence conclusion_status_error mark_missing_evidence split_from decode_tool_call
    read_envelope read_input read_selection read_purpose tool_named take_calls take_call
    select_source take_selected take_read record_run execute open_credential run_offered request_for
    render_run prepare_observation hide_secrets redact secrets_of safe_fields safe_json bound_text
    observation_of compact_arguments result_lines bounded_json conclude_reason allowed_references
    model_prompt exchange_tools rune_count
ends_concluded = refl

run-concluded-IsWellCited_example :
    IsWellCited
      (map (λ r. r.outcome) final.runs)
      (allowed_references final.prior final.orientation.brief)
      conclusion
run-concluded-IsWellCited_example =
    run-concluded-IsWellCited (pos 5) (pos 3) orientation setting final conclusion unstopped spent
      ends_concluded

run-IsInBudget_example :
    (count brought final.runs + length final.history_identities ≤ final.executed)
    × (final.executed ≤ 5)
    × IsNumbered final.runs
run-IsInBudget_example =
    run-IsInBudget (pos 5) (pos 3) orientation setting final (concluded conclusion unstopped spent)
      ends_concluded

is_accepted :
    decode_conclusion (λ text. text) rune_count parse "doc" (run_succeeded ∷ []) []
    ≡ accepted conclusion
unfolding decode_conclusion check_conclusion decode_impact decode_finding check_evidence
    conclusion_status_error rune_count
is_accepted = refl

-- A run that failed.
abbrev raw : ToolRun
raw = record {
  integration_id = 4;
  ordinal = 1;
  tool = "logs";
  purpose = "";
  arguments = none;
  window_from = 0;
  window_until = 9;
  window_applied = false;
  outcome = run_failed;
  truncated = false;
  summary = "";
  sources = [];
  error = "unreachable";
  content = no_content;
  observation_text = "";
  model_clipped = false;
}

abbrev masked_by : List (ℕ × String) → String → String
masked_by =
    redact reads.replace_all reads.marshal_json reads.marshal_page reads.quoted reads.itoa
      reads.stamp reads.names_a_credential

prepared_observation_bounded_example :
    (len (prepared_run reads [] raw).observation_text ≤ max_observation_bytes)
    × ((len (
            observation_of reads.replace_all reads.marshal_json reads.marshal_page reads.quoted
              reads.itoa reads.stamp reads.names_a_credential
              (masked_by [])
              (hide_secrets reads.replace_all reads.marshal_json reads.marshal_page reads.quoted
                reads.itoa reads.stamp reads.names_a_credential [] raw))
          ≤ max_observation_bytes)
        ⊎ (((prepared_run reads [] raw).model_clipped ≡ true)
            × ((prepared_run reads [] raw).arguments ≡ none)))
    × IsPresentable raw (prepared_run reads [] raw)
prepared_observation_bounded_example =
    prepared_observation_bounded reads.replace_all reads.marshal_json reads.marshal_page
      reads.quoted reads.itoa reads.stamp reads.names_a_credential [] raw (omega arith)
      (omega arith)
