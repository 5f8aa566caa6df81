-- ===== src/Agent/Observed.antt =====
-- internal/investigation/agent/tools.go: how much of a run prepareObservation lets through.
use Prim.Native.Char.{Char, len_utf8, len_utf8_def, width}
use Prim.Native.Nat.{Ordering}
use Prim.Native.String.len as len_laws
use text.Mathlib.TextPositions.{len-append}
use Prim.Native.String.{String, ◌++◌ as str_append, [] as empty, ◌∷◌ as char_cons, len}
use oc_control_plane.Prelude.{
  ℕ, ◌*◌, ◌⊎◌, none, true, zero, suc, ◌≤◌, ◌≡◌, refl, inl, inr, Bool, Option, List, arith, leb,
  Bool-cases,
}
use oc_control_plane.Agent.Values.{Json, HistoryPage, no_content, ToolRun, Fields}
use oc_control_plane.Agent.Observations.{
  bound_text, redact, observation, hide_secrets, unavailable, prepare_observation,
  max_observation_bytes,
}

-- utf8.RuneCountInString.
unfoldable pub rune_count : String → ℕ
rune_count empty = 0
rune_count (char_cons c text) = suc (rune_count text)

rune_count-bound_text-le : (text : String) (limit : ℕ) → rune_count (bound_text text limit) ≤ limit
unfolding rune_count bound_text
rune_count-bound_text-le empty limit = omega arith
rune_count-bound_text-le (char_cons c text) zero = omega arith
rune_count-bound_text-le (char_cons c text) (suc limit) =
    omega (arith, rune_count-bound_text-le text limit)

-- The bounds on the texts of a run that a prompt shows and the store keeps.
pub record IsPresentable (run shown : ToolRun) : Type 0 where
  pub same_ordinal : shown.ordinal ≡ run.ordinal
  pub same_outcome : shown.outcome ≡ run.outcome
  pub same_integration : shown.integration_id ≡ run.integration_id
  pub no_raw_content : shown.content ≡ no_content
  pub short_tool : rune_count shown.tool ≤ 128
  pub short_purpose : rune_count shown.purpose ≤ 512
  pub short_summary : rune_count shown.summary ≤ 512
  pub short_error : rune_count shown.error ≤ 1024

width-le : (o p q : Ordering) → width o p q ≤ 4
width-le Ordering.lt p q = omega arith
width-le Ordering.eq Ordering.lt q = omega arith
width-le Ordering.eq Ordering.eq Ordering.lt = omega arith
width-le Ordering.eq Ordering.eq Ordering.eq = omega arith
width-le Ordering.eq Ordering.eq Ordering.gt = omega arith
width-le Ordering.eq Ordering.gt Ordering.lt = omega arith
width-le Ordering.eq Ordering.gt Ordering.eq = omega arith
width-le Ordering.eq Ordering.gt Ordering.gt = omega arith
width-le Ordering.gt Ordering.lt q = omega arith
width-le Ordering.gt Ordering.eq Ordering.lt = omega arith
width-le Ordering.gt Ordering.eq Ordering.eq = omega arith
width-le Ordering.gt Ordering.eq Ordering.gt = omega arith
width-le Ordering.gt Ordering.gt Ordering.lt = omega arith
width-le Ordering.gt Ordering.gt Ordering.eq = omega arith
width-le Ordering.gt Ordering.gt Ordering.gt = omega arith

len_utf8-le : (c : Char) → len_utf8 c ≤ 4
len_utf8-le c = rw (len_utf8_def c) (width-le _ _ _)

-- A character takes at most four bytes.
len-rune_count-le : (text : String) → len text ≤ 4 * rune_count text
unfolding rune_count
len-rune_count-le empty = omega (arith, len_laws.nil)
len-rune_count-le (char_cons c text) =
    omega (arith, len_laws.cons c text, len_utf8-le c, len-rune_count-le text)

module _ (replace_all : List (String × String) → String → String) (marshal : Json → String)
    (marshal_page : HistoryPage → String) (quoted : String → String) (itoa stamp : ℕ → String)
    (names_a_credential : String → Bool) where
  abbrev prepare : List (ℕ × String) → ToolRun → ToolRun
  prepare =
      prepare_observation replace_all marshal marshal_page quoted itoa stamp names_a_credential

  abbrev masked : List (ℕ × String) → String → String
  masked = redact replace_all marshal marshal_page quoted itoa stamp names_a_credential

  abbrev hide : List (ℕ × String) → ToolRun → ToolRun
  hide = hide_secrets replace_all marshal marshal_page quoted itoa stamp names_a_credential

  -- The text of a run whose secrets are hidden.
  abbrev shown_text : List (ℕ × String) → ToolRun → String
  shown_text opened run =
      observation replace_all marshal marshal_page quoted itoa stamp names_a_credential
        (masked opened) (hide opened run)

  hidden-IsPresentable :
      (opened : List (ℕ × String)) (run : ToolRun) (text : String) (clipped : Bool)
      (arguments : Option Fields)
      → IsPresentable run (record (hide opened run) {
        observation_text = text;
        model_clipped = clipped;
        content = no_content;
        arguments = arguments;
      })
  unfolding hide_secrets
  hidden-IsPresentable opened run text clipped arguments = record {
    same_ordinal = refl;
    same_outcome = refl;
    same_integration = refl;
    no_raw_content = refl;
    short_tool = rune_count-bound_text-le (masked opened run.tool) 128;
    short_purpose = rune_count-bound_text-le (masked opened run.purpose) 512;
    short_summary = rune_count-bound_text-le (masked opened run.summary) 512;
    short_error = rune_count-bound_text-le (masked opened run.error) 1024;
  }

  -- Preparing a run for the model keeps its ordinal, its outcome and its integration, drops its
  -- raw content and bounds its texts, whatever the tool brought and whatever is replaced.
  pub prepare_observation-IsPresentable :
      (opened : List (ℕ × String)) (run : ToolRun) → IsPresentable run (prepare opened run)
  unfolding prepare_observation
  prepare_observation-IsPresentable opened run =
      let safe = hide opened run in
      elim (Bool-cases (
        leb
          (len (
            observation replace_all marshal marshal_page quoted itoa stamp names_a_credential
              (masked opened) safe))
          max_observation_bytes)) [
            | inl fits ↦ rw (fits, prepare_observation) (hidden-IsPresentable opened run _ _ _)
            | inr large ↦ rw (large, prepare_observation) (hidden-IsPresentable opened run _ _ _)
          ]

  -- The text that stands for an observation that is too long.
  unavailable_short :
      (run : ToolRun)
      → rune_count run.tool ≤ 128
      → len (itoa run.ordinal) ≤ 20
      → len (itoa max_observation_bytes) ≤ 20
      → len (unavailable replace_all marshal marshal_page quoted itoa stamp names_a_credential run)
        ≤ max_observation_bytes
  unfolding unavailable
  unavailable_short run tool ordinal most =
      let bytes = len-rune_count-le run.tool in
      rw
        (
          len-append (str_append "[run " (str_append (itoa run.ordinal) (str_append "] " run.tool)))
              (str_append " {}\nOBSERVATION UNAVAILABLE: prepared result exceeded " (
                str_append (itoa max_observation_bytes)
                  " bytes; arguments and content were omitted.\n")),
          len-append "[run " (str_append (itoa run.ordinal) (str_append "] " run.tool)),
          len-append (itoa run.ordinal) (str_append "] " run.tool),
          len-append "] " run.tool,
          len-append " {}\nOBSERVATION UNAVAILABLE: prepared result exceeded " (
              str_append (itoa max_observation_bytes)
                " bytes; arguments and content were omitted.\n"),
          len-append (itoa max_observation_bytes) " bytes; arguments and content were omitted.\n",
        )
        (omega arith)

  -- What the model sees of a run takes at most 65536 bytes, however large the result is, where the
  -- decimal texts of its ordinal and of that limit take at most 20; a run whose text would be longer
  -- is marked as clipped and shows no arguments. Preparing a run keeps its ordinal, its outcome and
  -- its integration, drops its raw content and bounds its tool, purpose, summary and error.
  pub prepared_observation_bounded :
      (opened : List (ℕ × String)) (run : ToolRun)
      → len (itoa run.ordinal) ≤ 20
      → len (itoa max_observation_bytes) ≤ 20
      → (len (prepare opened run).observation_text ≤ max_observation_bytes)
        × (len (shown_text opened run) ≤ max_observation_bytes
            ⊎ (((prepare opened run).model_clipped ≡ true)
                × ((prepare opened run).arguments ≡ none)))
        × IsPresentable run (prepare opened run)
  unfolding prepare_observation hide_secrets
  prepared_observation_bounded opened run ordinal most =
      elim (Bool-cases (leb (len (shown_text opened run)) max_observation_bytes)) [
        | inl fits ↦
            rw (fits, prepare_observation)
              (ground arith, inl (ground arith), hidden-IsPresentable opened run _ _ _)
        | inr large ↦
            rw (large, prepare_observation)
              (
                unavailable_short (hide opened run)
                    (rune_count-bound_text-le (masked opened run.tool) 128) ordinal most,
                inr (refl, refl),
                hidden-IsPresentable opened run _ _ _,
              )
      ]
