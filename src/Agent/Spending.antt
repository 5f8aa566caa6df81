-- ===== src/Agent/Spending.antt =====
-- internal/investigation/agent/run.go: a run stays within its reads and numbers its runs.
use oc_control_plane.Prelude.{
  ℕ, zero, suc, ◌+◌, count, length, ◌≤◌, ◌≡◌, sym, subst, inl, inr, some, arith, Bool-cases,
}
use oc_control_plane.Prelude.Integers.{ℤ}
use oc_control_plane.Agent.Prompts.{Orientation}
use oc_control_plane.Agent.Loop.{
  Setting, RunState, Ending, take_turn, run_from, goes_on, Turned, run, initial, prepared, limit_or,
  default_max_tool_runs, batch_of, after_exchange,
}
use oc_control_plane.Agent.Budgets.{Turned-cases}
use oc_control_plane.Agent.Turns.{exchanged, take_turn-goes_on}
use oc_control_plane.Agent.Accounts.{brought, none-IsNumbered, IsNumbered}
use oc_control_plane.Agent.Charges.{take_calls-IsAccounted}
use oc_control_plane.Agent.Outcomes.{follow-ends}

IsInBudget : Setting → RunState → Type 0
IsInBudget setting s =
    (s.executed ≤ setting.sources.max_runs)
    × (count brought s.runs + length s.history_identities ≤ s.executed)
    × IsNumbered s.runs

module _ (setting : Setting) where
  goes_on-IsInBudget :
      (turn : ℕ) (s t : RunState)
      → IsInBudget setting s
      → take_turn setting turn s ≡ goes_on t
      → IsInBudget setting t
  unfolding IsInBudget
  goes_on-IsInBudget turn s t h e =
      let (x, calls, batch, asked, done, after) = take_turn-goes_on setting turn s t e in
      let (within, counted, numbered) = h in
      let held =
        take_calls-IsAccounted setting.sources calls (batch_of setting (after_exchange setting s x))
          batch (record { within = within; counted = counted; numbered = numbered }) done in
      subst (IsInBudget setting) (sym after) (held.within, held.counted, held.numbered)

  ends-IsInBudget :
      (turn : ℕ) (s t : RunState) (ending : Ending)
      → IsInBudget setting s
      → take_turn setting turn s ≡ Turned.ends ending t
      → IsInBudget setting t
  unfolding IsInBudget take_turn
  ends-IsInBudget turn s t ending h e = elim (Bool-cases (setting.context_ended turn)) [
    | inl over ↦ let same : s ≡ t = ground arith in subst (IsInBudget setting) same h
    | inr still ↦
        let (x, move) = exchanged setting turn s in
        subst (IsInBudget setting)
          (follow-ends setting (after_exchange setting s x) t x.forced move ending (ground arith)) h
  ]

  run_from-IsInBudget :
      (fuel turn : ℕ) (s t : RunState) (ending : Ending)
      → IsInBudget setting s
      → run_from setting fuel turn s ≡ some (ending, t)
      → IsInBudget setting t
  unfolding run_from
  run_from-IsInBudget zero turn s t ending h e = cc
  run_from-IsInBudget (suc fuel) turn s t ending h e =
      elim (Turned-cases (take_turn setting turn s)) [
        | inl (other, u, done) ↦ ends-IsInBudget turn s t ending h (ground arith)
        | inr (u, more) ↦
            run_from-IsInBudget fuel (suc turn) u t ending (goes_on-IsInBudget turn s u h more)
              (ground arith)
      ]

-- Whatever the model asks for, the reads of tools that brought a result and the pages of history
-- that were read are together no more than the reads that the run counted, those are no more than
-- its limit, and the runs it records are numbered one after the other from one.
pub run-IsInBudget :
    (max_tool_runs max_turns : ℤ) (orientation : Orientation) (setting : Setting) (t : RunState)
    (ending : Ending)
    → run max_tool_runs max_turns orientation setting ≡ some (ending, t)
    → (count brought t.runs + length t.history_identities ≤ t.executed)
      × (t.executed ≤ limit_or default_max_tool_runs max_tool_runs)
      × IsNumbered t.runs
unfolding run prepared initial IsInBudget
run-IsInBudget max_tool_runs max_turns orientation setting t ending e =
    let ready = prepared max_tool_runs max_turns orientation setting in
    let (within, counted, numbered) =
      run_from-IsInBudget ready (suc ready.max_turns) 1 (initial orientation) t ending
        (omega arith, omega arith, none-IsNumbered) e in
    (counted, within, numbered)
