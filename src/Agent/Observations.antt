-- ===== src/Agent/Observations.antt =====
-- internal/investigation/agent/tools.go: prepareObservation, what the model and the store get to
-- see of a tool run. strings.NewReplacer is the parameter `replace_all`, encoding/json `marshal`
-- (with `quoted` for a text less its quotation marks), strconv.Itoa `itoa`, the rendering of a
-- time `stamp`, and audit.NamesACredential `names_a_credential`.
use Prim.Native.Char.{len_utf8}
use Prim.Native.String.{String, [] as empty, ◌∷◌ as char_cons, ◌++◌ as str_append, len}
use text.Mathlib.Text.{◌==◌ as str_eq}
use oc_control_plane.Prelude.{
  ℕ, zero, suc, ◌+◌, ◌-◌, Bool, true, false, Option, none, some, List, [], ◌∷◌, leb, if◌then◌else◌,
  map,
}
use oc_control_plane.Agent.Documents.{run_succeeded, run_failed}
use oc_control_plane.Agent.Values.{
  Json, string, scalar, array, object, Items, no_items, item, Fields, no_fields, field, Content,
  no_content, value, history, ToolRun, HistoryPage,
}

abbrev pub max_observation_bytes : ℕ
max_observation_bytes = 65536

abbrev pub max_run_content_bytes : ℕ
max_run_content_bytes = 16384

-- boundText: the first `limit` characters.
unfoldable pub bound_text : String → ℕ → String
bound_text empty limit = empty
bound_text (char_cons c text) zero = empty
bound_text (char_cons c text) (suc limit) = char_cons c (bound_text text limit)

-- `strings.ToValidUTF8(text[:limit], "")`: the characters that end within `limit` bytes.
unfoldable pub cut_bytes : String → ℕ → String
cut_bytes empty limit = empty
cut_bytes (char_cons c text) limit =
    let rest = cut_bytes text (limit - len_utf8 c) in
    if leb (len_utf8 c) limit then char_cons c rest else empty

-- sort.Slice by length, the longest first.
abbrev pub place : String → List String → List String
place secret [] = secret ∷ []
place secret (other ∷ secrets) =
    let rest = place secret secrets in
    if leb (len other) (len secret) then secret ∷ other ∷ secrets else other ∷ rest

abbrev pub longest_first : List String → List String
longest_first [] = []
longest_first (secret ∷ secrets) = place secret (longest_first secrets)

-- The closure `argument`.
unfoldable mutual
  pub safe_json : (String → Bool) → (String → String) → Json → Json
  safe_json is_secret hide (string s) = string (hide s)
  safe_json is_secret hide (scalar s) = scalar s
  safe_json is_secret hide (array items) = array (safe_items is_secret hide items)
  safe_json is_secret hide (object fields) = object (safe_fields is_secret hide fields)

  pub safe_items : (String → Bool) → (String → String) → Items → Items
  safe_items is_secret hide no_items = no_items
  safe_items is_secret hide (item v items) =
      item (safe_json is_secret hide v) (safe_items is_secret hide items)

  pub safe_fields : (String → Bool) → (String → String) → Fields → Fields
  safe_fields is_secret hide no_fields = no_fields
  safe_fields is_secret hide (field key v fields) =
      let rest = safe_fields is_secret hide fields in
      if is_secret key then rest else field (hide key) (safe_json is_secret hide v) rest

module _ (replace_all : List (String × String) → String → String) (marshal : Json → String)
    (marshal_page : HistoryPage → String) (quoted : String → String) (itoa stamp : ℕ → String)
    (names_a_credential : String → Bool) where
  -- The secrets of the opened credentials, each as it is and as JSON writes it.
  unfoldable pub secrets_of : List (ℕ × String) → List String
  secrets_of [] = []
  secrets_of ((id, credential) ∷ opened) =
      let rest = secrets_of opened in
      if str_eq credential "" then rest else credential ∷ quoted credential ∷ rest

  unfoldable pub redact : List (ℕ × String) → String → String
  redact opened =
      replace_all (map (λ secret. (secret, "[redacted]")) (longest_first (secrets_of opened)))

  abbrev pub safe_arguments : (String → String) → Option Fields → Option Fields
  safe_arguments hide none = none
  safe_arguments hide (some fields) = some (safe_fields names_a_credential hide fields)

  -- compactArguments.
  unfoldable pub compact_arguments : Option Fields → String
  compact_arguments none = "{}"
  compact_arguments (some no_fields) = "{}"
  compact_arguments (some fields) = marshal (object fields)

  -- The loop of boundedList; `rendered` is the text so far.
  unfoldable pub list_from : (String → String) → String → ℕ → Items → String × ℕ
  list_from hide rendered kept no_items = (rendered, kept)
  list_from hide rendered kept (item v items) =
      let text = hide (marshal v) in
      let joined = str_append rendered (if leb 1 kept then str_append "," text else text) in
      let rest = list_from hide joined (suc kept) items in
      if leb (len rendered + len text + (if leb 1 kept then 2 else 1)) max_run_content_bytes
      then rest
      else (rendered, kept)

  abbrev pub count_items : Items → ℕ
  count_items no_items = 0
  count_items (item v items) = suc (count_items items)

  -- boundedList.
  unfoldable pub bounded_list : (String → String) → Items → String × ℕ
  bounded_list hide items =
      let (rendered, kept) = list_from hide "[" 0 items in
      let closed = str_append rendered "]" in
      (
        if leb (count_items items) kept
            then closed
            else str_append closed (
                str_append " … [" (
                  str_append (itoa kept) (
                    str_append " of " (
                      str_append (itoa (count_items items)) (
                        str_append " items; the rest cut at "
                          (str_append (itoa max_run_content_bytes) " bytes]")))))),
        kept,
      )

  unfoldable pub cut_json : String → String
  cut_json text =
      str_append (cut_bytes text max_run_content_bytes)
        (str_append "… [cut at " (str_append (itoa max_run_content_bytes) " bytes]"))

  -- boundedJSON, and whether it clipped.
  unfoldable pub bounded_json : (String → String) → Content → String × Bool
  bounded_json hide no_content = ("null", false)
  bounded_json hide (history page) =
      let text = hide (marshal_page page) in
      if leb (len text) max_run_content_bytes then (text, false) else (cut_json text, true)
  bounded_json hide (value (array items)) =
      let text = hide (marshal (array items)) in
      let (rendered, kept) = bounded_list hide items in
      if leb (len text) max_run_content_bytes
      then (text, false)
      else if leb 1 kept
      then (rendered, true)
      else (cut_json text, true)
  bounded_json hide (value v) =
      let text = hide (marshal v) in
      if leb (len text) max_run_content_bytes then (text, false) else (cut_json text, true)

  -- The lines of a run that succeeded.
  unfoldable pub result_lines : (String → String) → ToolRun → String
  result_lines hide run =
      str_append
        (if run.window_applied
          then str_append "WINDOW: effective bounds " (
              str_append (stamp run.window_from)
                (str_append " to " (str_append (stamp run.window_until) "\n")))
          else "")
        (str_append
          (if str_eq run.summary ""
            then ""
            else str_append "SUMMARY: " (str_append run.summary "\n"))
          (str_append
            (if run.truncated
              then "SOURCE: this result may be incomplete; additional records are not proven.\n"
              else "")
            (str_append "CONTENT: " (str_append (bounded_json hide run.content).0 "\n"))))

  abbrev pub run_mark : ToolRun → String
  run_mark run = str_append "[run " (str_append (itoa run.ordinal) (str_append "] " run.tool))

  unfoldable pub observation : (String → String) → ToolRun → String
  observation hide run = str_append (run_mark run) (
      str_append " " (
        str_append (compact_arguments run.arguments) (
          str_append "\n" (elim run.outcome [
            | run_failed ↦ str_append "FAILED: " (str_append run.error "\n")
            | run_succeeded ↦ result_lines hide run
          ]))))

  abbrev pub clipped_by : (String → String) → ToolRun → Bool
  clipped_by hide run = elim run.outcome [
    | run_failed ↦ run.model_clipped
    | run_succeeded ↦ (bounded_json hide run.content).1
  ]

  unfoldable pub unavailable : ToolRun → String
  unavailable run = str_append (run_mark run) (
      str_append " {}\nOBSERVATION UNAVAILABLE: prepared result exceeded "
        (str_append (itoa max_observation_bytes) " bytes; arguments and content were omitted.\n"))

  -- The part before the text is built: every text without the secrets, and bounded.
  unfoldable pub hide_secrets : List (ℕ × String) → ToolRun → ToolRun
  hide_secrets opened run =
      let hide = redact opened in
      record run {
        arguments = safe_arguments hide run.arguments;
        tool = bound_text (hide run.tool) 128;
        purpose = bound_text (hide run.purpose) 512;
        summary = bound_text (hide run.summary) 512;
        error = bound_text (hide run.error) 1024;
        sources = elim (secrets_of opened) [
          | [] ↦ run.sources
          | secret ∷ secrets ↦ map hide run.sources
        ];
      }

  -- prepareObservation, with the credentials opened so far.
  unfoldable pub prepare_observation : List (ℕ × String) → ToolRun → ToolRun
  prepare_observation opened run =
      let safe = hide_secrets opened run in
      let shown = observation (redact opened) safe in
      if leb (len shown) max_observation_bytes
      then record safe {
        observation_text = shown;
        model_clipped = clipped_by (redact opened) safe;
        content = no_content;
      }
      else record safe {
        arguments = none;
        model_clipped = true;
        observation_text = unavailable safe;
        content = no_content;
      }
