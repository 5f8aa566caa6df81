-- ===== src/Jobs/Results.antt =====
-- RecordResult of internal/store/postgres/result.go: which result is recorded, and what a refused
-- one is told.
use oc_control_plane.Prelude.{
  ℕ, ◌<◌, ◌≡◌, refl, subst, ◌∙◌, ◌⊎◌, inl, inr, Bool, true, false, none, some, List, [], ◌∷◌, arith,
  ◌==◌, if◌then◌else◌, Bool-cases, count, count_of_any, find, any, any_mono,
}
use oc_control_plane.Jobs.Row.{Job, JobFence, JobOutcome, ResultRefusal, is_terminal}
use oc_control_plane.Jobs.Statements.{
  is_row, update, fenced, record_row, record_result, explain_refused_result,
}
use oc_control_plane.Jobs.Rows.{IsKeyed}

none-fenced :
    (org : ℕ) (fence : JobFence) (i : ℕ) (t : List Job)
    → i ≡ fence.job_id
    → any (λ k. k.job_id == i) t ≡ false
    → any (fenced org fence) t ≡ false
none-fenced org fence i t e h = elim (Bool-cases (any (fenced org fence) t)) [
  | inl hit ↦ cc (h, any_mono (fenced org fence) (λ k. k.job_id == i) t (λ k q. ground arith) hit)
  | inr miss ↦ miss
]

-- The WHERE clause of RecordResult picks the row of its job, or no row.
count-fenced :
    (org : ℕ) (fence : JobFence) (t : List Job) (j : Job)
    → IsKeyed t
    → find (is_row org fence.job_id) t ≡ some j
    → count (fenced org fence) t ≡ (if fenced org fence j then 1 else 0)
count-fenced org fence [] j u h = cc
count-fenced org fence (x ∷ t) j u h = elim (Bool-cases (is_row org fence.job_id x)) [
  | inl hit ↦
      let e : x ≡ j = ground arith in
      let rest : count (fenced org fence) t ≡ 0 =
        count_of_any (fenced org fence) t (none-fenced org fence x.job_id t (ground arith) u.0) in
      subst (λ (k : Job). count (fenced org fence) (x ∷ t) ≡ (if fenced org fence k then 1 else 0))
        e (rw rest)
  | inr miss ↦ rw miss (count-fenced org fence t j u.1 (rw miss at h))
]

pub update_none :
    (test : Job → Bool) (write : Job → Job) (t : List Job)
    → count test t ≡ 0
    → update test write t ≡ t
update_none test write [] h = refl
update_none test write (x ∷ t) h = ground (arith, update_none test write t)

-- A result under a fence that does not hold changes nothing, and its refusal is explained by the
-- row of the job.
pub refused_result :
    (org : ℕ) (fence : JobFence) (o : JobOutcome) (now : ℕ) (t : List Job) (j : Job)
    → IsKeyed t
    → find (is_row org fence.job_id) t ≡ some j
    → fenced org fence j ≡ false
    → record_result org fence o now t ≡ (t, some (explain_refused_result fence (some j)))
unfolding record_result
refused_result org fence o now t j u h miss =
    let none_match : count (fenced org fence) t ≡ 0 = rw miss at (count-fenced org fence t j u h) in
    rw (none_match, h, update_none (fenced org fence) (record_row o now) t none_match)

pub recorded_result :
    (org : ℕ) (fence : JobFence) (o : JobOutcome) (now : ℕ) (t : List Job) (j : Job)
    → IsKeyed t
    → find (is_row org fence.job_id) t ≡ some j
    → fenced org fence j ≡ true
    → record_result org fence o now t ≡ (update (fenced org fence) (record_row o now) t, none)
unfolding record_result
recorded_result org fence o now t j u h hit =
    let one_match : count (fenced org fence) t ≡ 1 = rw hit at (count-fenced org fence t j u h) in
    rw one_match

pub terminal_refused :
    (org : ℕ) (fence : JobFence) (o : JobOutcome) (now : ℕ) (t : List Job) (j : Job)
    → IsKeyed t
    → find (is_row org fence.job_id) t ≡ some j
    → is_terminal j.status ≡ true
    → record_result org fence o now t ≡ (t, some ResultRefusal.already_recorded)
terminal_refused org fence o now t j u h final =
    refused_result org fence o now t j u h (ground arith)
    ∙ unfold explain_refused_result in rw final

pub superseded_refused :
    (org : ℕ) (fence : JobFence) (o : JobOutcome) (now : ℕ) (t : List Job) (j : Job)
    → IsKeyed t
    → find (is_row org fence.job_id) t ≡ some j
    → fence.lease_epoch < j.lease_epoch
    → (r : ResultRefusal) × (record_result org fence o now t ≡ (t, some r))
      × ((r ≡ ResultRefusal.already_recorded) ⊎ (r ≡ ResultRefusal.fence_superseded))
unfolding explain_refused_result
superseded_refused org fence o now t j u h old = (
  explain_refused_result fence (some j),
  refused_result org fence o now t j u h (ground arith),
  ground arith,
)
