-- ===== src/Agent/Budgets.antt =====
-- internal/investigation/agent/run.go: what the loop may spend, and that it ends.
use oc_control_plane.Prelude.{
  ℕ, ◌≡◌, refl, ◌⊎◌, inl, inr, Bool, true, false, some, List, arith, Option-cases,
}
use oc_control_plane.Agent.Documents.{EvidenceRef}
use oc_control_plane.Agent.Values.{ToolCall, ToolRun, CompletionCall}
use oc_control_plane.Agent.Calls.{split_calls}
use oc_control_plane.Agent.Exchange.{
  Model, Exchange, Completion, Move, Attempted, ends, again, add_usage, reads,
}
use oc_control_plane.Agent.Attempts.{shrink, settle, consider, attempt, exchange, prompt_of}
use oc_control_plane.Agent.Loop.{RunState, Ending, goes_on, Turned}

pub Attempted-cases :
    (r : Attempted)
    → ((x : Exchange) × (move : Move) × (r ≡ ends x move)) ⊎ ((x : Exchange) × (r ≡ again x))
Attempted-cases (ends x move) = inl (x, move, refl)
Attempted-cases (again x) = inr (x, refl)

pub Turned-cases :
    (r : Turned)
    → ((ending : Ending) × (t : RunState) × (r ≡ Turned.ends ending t))
      ⊎ ((t : RunState) × (r ≡ goes_on t))
Turned-cases (Turned.ends ending t) = inl (ending, t, refl)
Turned-cases (goes_on t) = inr (t, refl)

module _ (model : Model) (turn : ℕ) (missing : Bool) (runs : List ToolRun)
    (prior : List EvidenceRef) (offered : ℕ) where
  abbrev pub settled :
      Bool → Exchange → Completion → List CompletionCall → List CompletionCall → Attempted
  settled = settle model turn missing runs prior offered

  abbrev pub considered : Bool → Exchange → Completion → Attempted
  considered = consider model turn missing runs prior offered

  abbrev pub attempted : Bool → Exchange → Attempted
  attempted = attempt model turn missing runs prior offered

  pub shrink-forced :
      (x y : Exchange)
      → x.forced ≡ true
      → shrink model turn missing runs prior offered x ≡ some y
      → y.forced ≡ true
  unfolding shrink
  shrink-forced x y h e = ground arith

  -- An attempt on which a conclusion is forced stays so, and reads nothing.
  pub settle-again :
      (first : Bool) (x y : Exchange) (c : Completion) (r s : List CompletionCall)
      → settled first x c r s ≡ again y
      → (first ≡ true) × (y.forced ≡ true)
  unfolding settle
  settle-again first x y c r s e = ground arith

  pub settle-ends :
      (first : Bool) (x y : Exchange) (c : Completion) (r s : List CompletionCall) (move : Move)
      → settled first x c r s ≡ ends y move
      → (y.forced ≡ x.forced) × (y.orientation ≡ x.orientation)
  unfolding settle
  settle-ends first x y c r s move e = ground arith

  pub settle-reads :
      (first : Bool) (x y : Exchange) (c : Completion) (r s : List CompletionCall)
      (calls : List ToolCall)
      → settled first x c r s ≡ ends y (reads calls)
      → x.forced ≡ false
  unfolding settle
  settle-reads first x y c r s calls e = ground arith

  pub consider-again :
      (first : Bool) (x y : Exchange) (c : Completion)
      → considered first x c ≡ again y
      → (y.forced ≡ true) ⊎ (y ≡ x)
  unfolding consider
  consider-again first x y c e = elim (Option-cases (split_calls model.trim c.tool_calls)) [
    | inl malformed ↦ ground arith
    | inr ((r, s), split) ↦ ground (arith, settle-again first x y c r s)
  ]

  pub consider-ends :
      (first : Bool) (x y : Exchange) (c : Completion) (move : Move)
      → considered first x c ≡ ends y move
      → (y.forced ≡ x.forced) × (y.orientation ≡ x.orientation)
  unfolding consider
  consider-ends first x y c move e = elim (Option-cases (split_calls model.trim c.tool_calls)) [
    | inl malformed ↦ ground arith
    | inr ((r, s), split) ↦ ground (arith, settle-ends first x y c r s move)
  ]

  pub consider-reads :
      (first : Bool) (x y : Exchange) (c : Completion) (calls : List ToolCall)
      → considered first x c ≡ ends y (reads calls)
      → x.forced ≡ false
  unfolding consider
  consider-reads first x y c calls e = elim (Option-cases (split_calls model.trim c.tool_calls)) [
    | inl malformed ↦ ground arith
    | inr ((r, s), split) ↦ ground (arith, settle-reads first x y c r s calls)
  ]

  -- The exchange with the tokens of an attempt added, and the attempt's completion.
  abbrev pub completion_of : Bool → Exchange → Completion
  completion_of first x =
      model.complete turn first (prompt_of model turn missing runs prior offered x)

  abbrev pub spent : Bool → Exchange → Exchange
  spent first x = record x { usage = add_usage x.usage (completion_of first x).usage }

  pub attempt-again :
      (first : Bool) (x y : Exchange)
      → attempted first x ≡ again y
      → x.forced ≡ true
      → y.forced ≡ true
  unfolding attempt
  attempt-again first x y e h = elim (Option-cases (completion_of first x).error) [
    | inl fine ↦ ground (arith, consider-again first (spent first x) y (completion_of first x))
    | inr (because, bad) ↦
        elim (Option-cases (shrink model turn missing runs prior offered (spent first x))) [
          | inl stuck ↦ ground arith
          | inr (z, smaller) ↦ ground (arith, shrink-forced (spent first x) z)
        ]
  ]

  pub attempt-ends :
      (first : Bool) (x y : Exchange) (move : Move)
      → attempted first x ≡ ends y move
      → y.forced ≡ x.forced
  unfolding attempt
  attempt-ends first x y move e = elim (Option-cases (completion_of first x).error) [
    | inl fine ↦ ground (arith, consider-ends first (spent first x) y (completion_of first x) move)
    | inr (because, bad) ↦
        elim (Option-cases (shrink model turn missing runs prior offered (spent first x))) [
          | inl stuck ↦ ground arith
          | inr (z, smaller) ↦ ground arith
        ]
  ]

  pub attempt-reads :
      (first : Bool) (x y : Exchange) (calls : List ToolCall)
      → attempted first x ≡ ends y (reads calls)
      → x.forced ≡ false
  unfolding attempt
  attempt-reads first x y calls e = elim (Option-cases (completion_of first x).error) [
    | inl fine ↦
        ground (arith, consider-reads first (spent first x) y (completion_of first x) calls)
    | inr (because, bad) ↦
        elim (Option-cases (shrink model turn missing runs prior offered (spent first x))) [
          | inl stuck ↦ ground arith
          | inr (z, smaller) ↦ ground arith
        ]
  ]

  -- An exchange that must conclude asks for no reads.
  pub exchange-reads :
      (x y : Exchange) (calls : List ToolCall)
      → exchange model turn missing runs prior offered x ≡ (y, reads calls)
      → x.forced ≡ false
  unfolding exchange
  exchange-reads x y calls e = elim (Attempted-cases (attempted true x)) [
    | inl (z, move, one) ↦ ground (arith, attempt-reads true x y calls)
    | inr (z, more) ↦ elim (Attempted-cases (attempted false z)) [
      | inl (w, move, two) ↦
          ground (arith, attempt-again true x z more, attempt-reads false z y calls)
      | inr (w, again_more) ↦ ground arith
    ]
  ]
