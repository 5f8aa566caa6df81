-- ===== src/Agent/Calls.antt =====
-- internal/investigation/agent: the calls of a completion. splitCalls of conclusion.go,
-- decodeToolCalls and toolNamed of tools.go, callIdentityOf of run.go. strings.TrimSpace, the JSON
-- decoder and encoder and uuid's rendering are the parameters `trim`, `unmarshal`, `marshal` and
-- `uuid_text`.
use Prim.Native.String.{String, ◌++◌ as str_append}
use text.Mathlib.Text.{◌==◌ as str_eq}
use oc_control_plane.Prelude.{
  ℕ, Bool, true, not, ◌&&◌, ◌||◌, Option, none, some, List, [], ◌∷◌, ◌++◌, if◌then◌else◌, map, any,
}
use oc_control_plane.Agent.Values.{
  Json, string, object, Fields, no_fields, field, CompletionCall, ToolCall, Tool, OfferedSource,
}

abbrev pub conclude_tool_name : String
conclude_tool_name = "conclude"

abbrev pub history_tool_name : String
history_tool_name = "read_conversation_history"

-- The reads and the conclusions of a completion, or none where an id is empty or comes twice;
-- `seen` holds the ids before.
unfoldable pub split_from :
    (String → String)
    → List String
    → List CompletionCall
    → Option (List CompletionCall × List CompletionCall)
split_from trim seen [] = some ([], [])
split_from trim seen (call ∷ calls) =
    let rest = split_from trim (call.id ∷ seen) calls in
    if str_eq (trim call.id) "" || any (str_eq call.id) seen then none else elim rest [
      | none ↦ none
      | some (reads, conclusions) ↦
          if str_eq call.name conclude_tool_name
          then some (reads, call ∷ conclusions)
          else some (call ∷ reads, conclusions)
    ]

-- splitCalls.
abbrev pub split_calls :
    (String → String) → List CompletionCall → Option (List CompletionCall × List CompletionCall)
split_calls trim calls = split_from trim [] calls

abbrev pub look_up : String → Fields → Option Json
look_up key no_fields = none
look_up key (field name value fields) = if str_eq name key then some value else look_up key fields

abbrev pub only_known : Fields → Bool
only_known no_fields = true
only_known (field name value fields) =
    (str_eq name "purpose" || (str_eq name "input" || str_eq name "integrationId"))
    && only_known fields

-- The fields that decodeToolCalls sets while it reads the arguments, in its order.
unfoldable pub read_selection : Option Json → ToolCall → ToolCall
read_selection none call = call
read_selection (some (string id)) call =
    if str_eq id ""
    then record call { error = "Tool integrationId must be a nonempty string when supplied" }
    else record call { integration_id = id }
read_selection (some _) call = record call {
  error = "Tool integrationId must be a nonempty string when supplied";
}

unfoldable pub read_input : Option Json → ToolCall → ToolCall
read_input (some (object input)) call = record call { arguments = some input }
read_input _ call = record call { error = "Tool input must be a JSON object" }

unfoldable pub read_purpose : Option Json → ToolCall → ToolCall
read_purpose none call = call
read_purpose (some (string purpose)) call = record call { purpose = purpose }
read_purpose (some _) call = record call { error = "Tool purpose must be a string when supplied" }

unfoldable pub read_envelope : Fields → ToolCall → ToolCall
read_envelope arguments call =
    let read = read_purpose (look_up "purpose" arguments) (
      read_input (look_up "input" arguments)
        (read_selection (look_up "integrationId" arguments) call)) in
    if only_known arguments then read else record read {
      error = "Tool arguments accept only input, optional purpose and source selection";
    }

-- decodeToolCalls, at one call.
unfoldable pub decode_tool_call : (String → Option Fields) → CompletionCall → ToolCall
decode_tool_call unmarshal call =
    let blank : ToolCall = record {
      id = call.id;
      tool = call.name;
      integration_id = "";
      purpose = "";
      arguments = none;
      error = "";
    } in
    elim (unmarshal call.arguments) [
      | none ↦ record blank { error = "Tool arguments must be a valid JSON object" }
      | some arguments ↦
          if str_eq call.name history_tool_name
          then record blank { arguments = some arguments }
          else read_envelope arguments blank
    ]

abbrev pub decode_tool_calls : (String → Option Fields) → List CompletionCall → List ToolCall
decode_tool_calls unmarshal calls = map (decode_tool_call unmarshal) calls

-- The tools of a source that bear the name, each with its source.
abbrev pub named_of : String → OfferedSource → List Tool → List (OfferedSource × Tool)
named_of name source [] = []
named_of name source (tool ∷ tools) =
    let rest = named_of name source tools in
    if str_eq tool.name name then (source, tool) ∷ rest else rest

abbrev pub matches : (ℕ → String) → List OfferedSource → ToolCall → List (OfferedSource × Tool)
matches uuid_text [] call = []
matches uuid_text (source ∷ sources) call =
    let rest = matches uuid_text sources call in
    if not (str_eq call.integration_id "")
      && not (str_eq (uuid_text source.integration.id) call.integration_id)
    then rest
    else named_of call.tool source source.tools ++ rest

-- toolNamed: the one tool that a call can mean.
unfoldable pub tool_named :
    (ℕ → String) → List OfferedSource → ToolCall → Option (OfferedSource × Tool)
tool_named uuid_text sources call = elim (matches uuid_text sources call) [
  | [] ↦ none
  | found ∷ others ↦ elim others [ [] ↦ some found | other ∷ more ↦ none ]
]

-- callIdentityOf; `marshal` renders the arguments, `none` a nil map.
abbrev pub call_identity : (Option Fields → String) → ToolCall → String
call_identity marshal call =
    str_append call.tool
      (str_append " " (str_append call.integration_id (str_append " " (marshal call.arguments))))
