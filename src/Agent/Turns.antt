-- ===== src/Agent/Turns.antt =====
-- internal/investigation/agent/run.go: the loop ends.
use oc_control_plane.Prelude.{
  ℕ, zero, suc, ◌+◌, ◌≤◌, ◌<◌, ◌≡◌, refl, ap, inl, inr, Bool, true, some, List, arith, ltb, ltb→lt,
  Bool-cases, Option-cases,
}
use oc_control_plane.Prelude.Integers.{ℤ}
use oc_control_plane.Agent.Values.{ToolCall}
use oc_control_plane.Agent.Prompts.{Orientation}
use oc_control_plane.Agent.Exchange.{Exchange, Move, reads, concludes, fails, undecided}
use oc_control_plane.Agent.Attempts.{exchange}
use oc_control_plane.Agent.Reads.{Batch}
use oc_control_plane.Agent.Batch.{take_calls}
use oc_control_plane.Agent.Loop.{
  Setting, RunState, Ending, ceiling, must_conclude, begin, follow, take_turn, run_from, goes_on,
  Turned, run, initial, prepared, limit_or, default_max_turns, offered_count, batch_of, after_batch,
  after_exchange,
}
use oc_control_plane.Agent.Budgets.{Turned-cases, exchange-reads}

module _ (setting : Setting) where
  abbrev pub exchanged : ℕ → RunState → Exchange × Move
  exchanged turn s =
      exchange setting.model turn s.missing_evidence s.runs s.prior (offered_count setting)
        (begin setting turn s)

  follow-goes_on :
      (s t : RunState) (forced : Bool) (move : Move)
      → follow setting s forced move ≡ goes_on t
      → (calls : List ToolCall) × (batch : Batch) × (move ≡ reads calls)
        × (take_calls setting.sources (batch_of setting s) calls ≡ some batch)
        × (t ≡ after_batch setting s batch)
  unfolding follow
  follow-goes_on s t forced undecided e = cc
  follow-goes_on s t forced (fails because) e = cc
  follow-goes_on s t forced (concludes c) e = cc
  follow-goes_on s t forced (reads calls) e =
      elim (Option-cases (take_calls setting.sources (batch_of setting s) calls)) [
        | inl cut ↦ absurd (ground arith)
        | inr (batch, done) ↦ (calls, batch, refl, done, ground arith)
      ]

  follow-turns :
      (s t : RunState) (forced : Bool) (move : Move) (ending : Ending)
      → follow setting s forced move ≡ Turned.ends ending t
      → t.turns ≡ s.turns
  unfolding follow
  follow-turns s t forced undecided ending e = ground arith
  follow-turns s t forced (fails because) ending e = ground arith
  follow-turns s t forced (concludes c) ending e = ground arith
  follow-turns s t forced (reads calls) ending e =
      elim (Option-cases (take_calls setting.sources (batch_of setting s) calls)) [
        | inl cut ↦ ground arith
        | inr (batch, done) ↦ ground arith
      ]

  -- A turn that leaves the run to the next one was not bound to conclude.
  pub take_turn-goes_on :
      (turn : ℕ) (s t : RunState)
      → take_turn setting turn s ≡ goes_on t
      → (x : Exchange) × (calls : List ToolCall) × (batch : Batch) × (exchanged turn s
          ≡ (x, reads calls))
        × (take_calls setting.sources (batch_of setting (after_exchange setting s x)) calls
            ≡ some batch)
        × (t ≡ after_batch setting (after_exchange setting s x) batch)
  unfolding take_turn
  take_turn-goes_on turn s t e =
      let (x, move) = exchanged turn s in
      let (calls, batch, asked, done, after) =
        follow-goes_on (after_exchange setting s x) t x.forced move (ground arith) in
      (x, calls, batch, ap (λ m. (x, m)) asked, done, after)

  ceiling_at_end :
      (turn : ℕ) (s : RunState)
      → setting.max_turns < turn
      → must_conclude setting (ceiling setting turn s) ≡ true
  unfolding ceiling
  ceiling_at_end turn s late = ground arith

  -- A turn past the last ends the run.
  last_turn_ends :
      (turn : ℕ) (s : RunState)
      → setting.max_turns < turn
      → (ending : Ending) × (t : RunState) × (take_turn setting turn s ≡ Turned.ends ending t)
  unfolding begin
  last_turn_ends turn s late = elim (Turned-cases (take_turn setting turn s)) [
    | inl done ↦ done
    | inr (t, e) ↦
        let (x, calls, batch, asked, _, _) = take_turn-goes_on turn s t e in
        let free =
          exchange-reads setting.model turn s.missing_evidence s.runs s.prior
            (offered_count setting) (begin setting turn s) x calls asked in
        absurd (cc (free, ceiling_at_end turn s late))
  ]

  take_turn-turns :
      (turn : ℕ) (s t : RunState) (ending : Ending)
      → take_turn setting turn s ≡ Turned.ends ending t
      → t.turns ≤ suc s.turns
  unfolding take_turn
  take_turn-turns turn s t ending e =
      let (x, move) = exchanged turn s in
      ground (arith, follow-turns (after_exchange setting s x) t x.forced move ending)

  not_last :
      (turn : ℕ) (s t : RunState) → take_turn setting turn s ≡ goes_on t → turn ≤ setting.max_turns
  not_last turn s t e = elim (Bool-cases (ltb setting.max_turns turn)) [
    | inl late ↦
        let (ending, u, done) = last_turn_ends turn s (ltb→lt setting.max_turns turn late) in
        absurd (ground arith)
    | inr in_time ↦ ground arith
  ]

  goes_on-turns :
      (turn : ℕ) (s t : RunState) → take_turn setting turn s ≡ goes_on t → t.turns ≡ suc s.turns
  goes_on-turns turn s t e =
      let (x, calls, batch, asked, done, after) = take_turn-goes_on turn s t e in
      ap (λ r. r.turns) after

  run_from-ends :
      (fuel turn : ℕ) (s : RunState)
      → 1 ≤ fuel
      → suc setting.max_turns < turn + fuel
      → (ending : Ending) × (t : RunState) × (run_from setting fuel turn s ≡ some (ending, t))
        × (t.turns ≤ s.turns + fuel)
  unfolding run_from
  run_from-ends zero turn s some_fuel enough = absurd (omega (arith, some_fuel))
  run_from-ends (suc fuel) turn s some_fuel enough =
      elim (Turned-cases (take_turn setting turn s)) [
        | inl (ending, t, e) ↦
            (ending, t, rw (e, run_from) refl, omega (arith, take_turn-turns turn s t ending e))
        | inr (t, e) ↦
            let more : 1 ≤ fuel = omega (arith, not_last turn s t e) in
            let (ending, u, done, few) =
              run_from-ends fuel (suc turn) t more (omega (arith, enough)) in
            (ending, u, rw (e, run_from) done, omega (arith, few, goes_on-turns turn s t e))
      ]

-- The loop ends, whatever the model, the tools and the store answer: after at most one turn more
-- than the limit it has a conclusion or a failure to store.
pub run-ends :
    (max_tool_runs max_turns : ℤ) (orientation : Orientation) (setting : Setting)
    → (ending : Ending) × (t : RunState) × (run max_tool_runs max_turns orientation setting
        ≡ some (ending, t))
      × (t.turns ≤ suc (limit_or default_max_turns max_turns))
unfolding run prepared initial
run-ends max_tool_runs max_turns orientation setting =
    let (ending, t, done, few) =
      run_from-ends (prepared max_tool_runs max_turns orientation setting)
        (suc (limit_or default_max_turns max_turns)) 1 (initial orientation) (omega arith)
        (omega arith) in
    (ending, t, done, omega (arith, few))
