-- ===== src/Agent/Accounts.antt =====
-- internal/investigation/agent/run.go: what the reads of a run may cost, and how its runs are
-- numbered.
use Prim.Native.String.{String}
use oc_control_plane.Prelude.{
  ℕ, zero, suc, ◌≤◌, ◌≡◌, refl, ap, sym, ◌∙◌, ◌⊎◌, inl, inr, some, List, [], ◌∷◌, ◌++◌, arith,
  count, ◌+◌, Bool, if◌then◌else◌, length, get_elem?,
}
use oc_control_plane.Agent.Values.{ToolRun}
use oc_control_plane.Agent.Conclusions.{is_success}
use oc_control_plane.Agent.Reads.{Batch, ToolOutcome, ToolResult, succeeded, failed}

-- The run at every place is numbered by its place, from one.
pub IsNumbered : List ToolRun → Type 0
IsNumbered runs = (i : ℕ) (run : ToolRun) → get_elem? runs i ≡ some run → run.ordinal ≡ suc i

pub none-IsNumbered : IsNumbered []
unfolding IsNumbered
none-IsNumbered i run h = cc

-- A run that brought a result.
abbrev pub brought : ToolRun → Bool
brought run = is_success run.outcome

pub record IsAccounted (max_runs : ℕ) (batch : Batch) : Type 0 where
  pub within : batch.executed ≤ max_runs
  pub counted : count brought batch.runs + length batch.history_identities ≤ batch.executed
  pub numbered : IsNumbered batch.runs

pub get_elem?-append {ℓ} :
    {A : Type ℓ} (t : List A) (a b : A) (i : ℕ)
    → get_elem? (t ++ a ∷ []) i ≡ some b
    → (get_elem? t i ≡ some b) ⊎ ((i ≡ length t) × (a ≡ b))
get_elem?-append [] a b zero h = inr (refl, ground arith)
get_elem?-append [] a b (suc i) h = absurd (ground arith)
get_elem?-append (x ∷ t) a b zero h = inl h
get_elem?-append (x ∷ t) a b (suc i) h = elim (get_elem?-append t a b i h) [
  | inl before ↦ inl before
  | inr (last, e) ↦ inr (ap suc last, e)
]

pub append-IsNumbered :
    (runs : List ToolRun) (run : ToolRun)
    → IsNumbered runs
    → run.ordinal ≡ suc (length runs)
    → IsNumbered (runs ++ run ∷ [])
unfolding IsNumbered
append-IsNumbered runs run all_before here i other h = elim (get_elem?-append runs run other i h) [
  | inl before ↦ all_before i other before
  | inr (last, e) ↦ ap (λ r. r.ordinal) (sym e) ∙ here ∙ ap suc (sym last)
]

pub ToolOutcome-cases :
    (o : ToolOutcome)
    → ((r : ToolResult) × (o ≡ succeeded r)) ⊎ ((because : String) × (o ≡ failed because))
ToolOutcome-cases (succeeded r) = inl (r, refl)
ToolOutcome-cases (failed because) = inr (because, refl)

pub sum-cases {ℓ κ} :
    {A : Type ℓ} {B : Type κ} (s : A ⊎ B) → ((a : A) × (s ≡ inl a)) ⊎ ((b : B) × (s ≡ inr b))
sum-cases (inl a) = inl (a, refl)
sum-cases (inr b) = inr (b, refl)

pub count-append_one :
    (p : ToolRun → Bool) (runs : List ToolRun) (run : ToolRun)
    → count p (runs ++ run ∷ []) ≡ count p runs + (if p run then 1 else 0)
count-append_one p [] run = ground arith
count-append_one p (x ∷ runs) run = ground (arith, count-append_one p runs run)

pub one_more :
    (runs pages executed : ℕ) (b : Bool)
    → runs + pages ≤ executed
    → runs + (if b then 1 else 0) + pages ≤ suc executed
one_more runs pages executed b h = ground arith
