-- ===== src/Jobs/Evolution.antt =====
-- How a table and one of its rows change over any history of statements.
use oc_control_plane.Prelude.{
  ℕ, ◌≡◌, refl, inl, inr, Bool, true, false, some, List, [], ◌∷◌, ◌++◌, arith, ◌==◌, if◌then◌else◌,
  Bool-cases, find, any, All, All-append, IsIn, find-some-IsIn, any-append,
}
use oc_control_plane.Jobs.Row.{Job}
use oc_control_plane.Jobs.Statements.{is_row, update}
use oc_control_plane.Jobs.Rows.{IsKeyed, KeepsKey, find-update}
use oc_control_plane.Jobs.History.{Operation, IsLawful, step, run}
use oc_control_plane.Jobs.Effects.{
  Advances, Advances-refl, Advances-trans, IsWhole, Changes, Effect, inserts, writes, leaves,
  step-Effect,
}

any-key-update :
    (id : ℕ) (test : Job → Bool) (write : Job → Job) (t : List Job)
    → KeepsKey write
    → any (λ k. k.job_id == id) (update test write t) ≡ any (λ k. k.job_id == id) t
any-key-update id test write [] same = refl
any-key-update id test write (x ∷ t) same =
    ground (arith, same x, any-key-update id test write t same)

written_key :
    (test : Job → Bool) (write : Job → Job) (x : Job)
    → KeepsKey write
    → (if test x then write x else x).job_id ≡ x.job_id
written_key test write x same = ground (arith, same x)

IsKeyed-update :
    (test : Job → Bool) (write : Job → Job) (t : List Job)
    → KeepsKey write
    → IsKeyed t
    → IsKeyed (update test write t)
IsKeyed-update test write [] same u = u
IsKeyed-update test write (x ∷ t) same u = (
  rw (any-key-update (if test x then write x else x).job_id test write t same)
      (rw (written_key test write x same) u.0),
  IsKeyed-update test write t same u.1,
)

find-append :
    (org id : ℕ) (t s : List Job) (j : Job)
    → find (is_row org id) t ≡ some j
    → find (is_row org id) (t ++ s) ≡ some j
find-append org id [] s j h = cc
find-append org id (x ∷ t) s j h = ground (arith, find-append org id t s j)

IsKeyed-append :
    (t : List Job) (j : Job)
    → IsKeyed t
    → any (λ k. k.job_id == j.job_id) t ≡ false
    → IsKeyed (t ++ j ∷ [])
IsKeyed-append [] j u h = (refl, tt)
IsKeyed-append (x ∷ t) j u h = (
  rw (any-append (λ k. k.job_id == x.job_id) t (j ∷ [])) (ground arith),
  IsKeyed-append t j u.1 (ground arith),
)

Effect-IsKeyed : {op : Operation} (t u : List Job) → Effect op t u → IsKeyed t → IsKeyed u
Effect-IsKeyed t u (inserts j fresh whole e) k = rw e (IsKeyed-append t j k fresh)
Effect-IsKeyed t u (writes test write same change e) k = rw e (IsKeyed-update test write t same k)
Effect-IsKeyed t u (leaves e) k = rw e k

-- Every statement keeps job_id a key of the table.
pub step-IsKeyed : (t : List Job) (op : Operation) → IsKeyed t → IsKeyed (step t op)
step-IsKeyed t op u = Effect-IsKeyed t (step t op) (step-Effect t op u) u

pub run-IsKeyed : (t : List Job) (ops : List Operation) → IsKeyed t → IsKeyed (run t ops)
unfolding run
run-IsKeyed t [] u = u
run-IsKeyed t (op ∷ ops) u = run-IsKeyed (step t op) ops (step-IsKeyed t op u)

Effect-Advances :
    {op : Operation} (t u : List Job) (org id : ℕ) (j : Job)
    → Effect op t u
    → find (is_row org id) t ≡ some j
    → (k : Job) × (find (is_row org id) u ≡ some k) × Advances j k
Effect-Advances t u org id j (inserts new fresh whole e) h =
    (j, rw e (find-append org id t (new ∷ []) j h), Advances-refl j)
Effect-Advances t u org id j (writes test write same change e) h = (
  if test j then write j else j,
  rw e (find-update org id test write t same j h),
  elim (Bool-cases (test j)) [
    | inl hit ↦ rw hit (change j (find-some-IsIn (is_row org id) t j h).0 hit).advances
    | inr miss ↦ rw miss (Advances-refl j)
  ],
)
Effect-Advances t u org id j (leaves e) h = (j, rw e h, Advances-refl j)

-- Over any history a job stays in the table, its epoch never falls, and once terminal it never
-- changes again.
pub run-Advances :
    (t : List Job) (ops : List Operation) (org id : ℕ) (j : Job)
    → IsKeyed t
    → find (is_row org id) t ≡ some j
    → (k : Job) × (find (is_row org id) (run t ops) ≡ some k) × Advances j k
unfolding run
run-Advances t [] org id j u h = (j, h, Advances-refl j)
run-Advances t (op ∷ ops) org id j u h =
    let (k, found, a) = Effect-Advances t (step t op) org id j (step-Effect t op u) h in
    let (l, later, b) = run-Advances (step t op) ops org id k (step-IsKeyed t op u) found in
    (l, later, Advances-trans j k l a b)

All-IsWhole-update :
    {op : Operation} (test : Job → Bool) (write : Job → Job) (t : List Job)
    → IsLawful op
    → ((j : Job) → IsIn j t → test j ≡ true → Changes op j (write j))
    → All IsWhole t
    → All IsWhole (update test write t)
All-IsWhole-update test write [] lawful change w = tt
All-IsWhole-update test write (x ∷ t) lawful change w = (
  elim (Bool-cases (test x)) [
    | inl hit ↦ rw hit ((change x (inl refl) hit).stays_whole lawful w.0)
    | inr miss ↦ rw miss w.0
  ],
  All-IsWhole-update test write t lawful (λ j i h. change j (inr i) h) w.1,
)

step-IsWhole :
    {op : Operation} (t u : List Job) → IsLawful op → Effect op t u → All IsWhole t → All IsWhole u
step-IsWhole t u lawful (inserts j fresh whole e) w =
    rw e (All-append IsWhole t (j ∷ []) w (whole, tt))
step-IsWhole t u lawful (writes test write same change e) w =
    rw e (All-IsWhole-update test write t lawful change w)
step-IsWhole t u lawful (leaves e) w = rw e w

pub run-IsWhole :
    (t : List Job) (ops : List Operation)
    → IsKeyed t
    → All IsWhole t
    → All IsLawful ops
    → IsKeyed (run t ops) × All IsWhole (run t ops)
unfolding run
run-IsWhole t [] u w l = (u, w)
run-IsWhole t (op ∷ ops) u w l =
    run-IsWhole (step t op) ops (step-IsKeyed t op u)
      (step-IsWhole t (step t op) l.0 (step-Effect t op u) w) l.1
