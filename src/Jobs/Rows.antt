-- ===== src/Jobs/Rows.antt =====
-- Laws of a table of relay_job rows under UPDATE: what is found, counted and kept.
use oc_control_plane.Prelude.{
  ℕ, ◌+◌, ◌≤◌, ◌≡◌, sym, ap, ◌∙◌, inl, inr, Bool, true, false, ◌&&◌, some, List, [], ◌∷◌, arith,
  ◌==◌, ==_iff, if◌then◌else◌, Bool-cases, &&-true, length, count, find, any, contains, IsIn,
  any_of_IsIn, any_mono, count_of_any, count-||-le, count_none,
}
use oc_control_plane.Jobs.Row.{Job}
use oc_control_plane.Jobs.Statements.{is_row, update}

-- relay_job_pkey: no two rows have one job_id.
abbrev pub IsKeyed : List Job → Type 0
IsKeyed [] = Unit {0}
IsKeyed (x ∷ t) = (any (λ k. k.job_id == x.job_id) t ≡ false) × IsKeyed t

-- A write that leaves the identity of a row alone.
abbrev pub KeepsKey : (Job → Job) → Type 0
KeepsKey f = (j : Job) → ((f j).job_id ≡ j.job_id) × ((f j).org_id ≡ j.org_id)

-- In a keyed table a row with the key of `j` is `j`.
pub IsKeyed-any :
    (p : Job → Bool) (j : Job) (t : List Job)
    → IsKeyed t
    → IsIn j t
    → any (λ k. p k && (k.job_id == j.job_id)) t ≡ true
    → p j ≡ true
IsKeyed-any p j [] u h q = absurd h.1
IsKeyed-any p j (x ∷ t) u (inl e) q = elim (Bool-cases (p x)) [
  | inl hit ↦ sym (ap p e) ∙ hit
  | inr miss ↦ cc (
    u.0,
    any_mono (λ k. p k && (k.job_id == j.job_id)) (λ k. k.job_id == x.job_id) t
        (λ k h. rw e (&&-true (p k) _ h).1) (rw miss at q),
  )
]
IsKeyed-any p j (x ∷ t) u (inr h) q = elim (Bool-cases (x.job_id == j.job_id)) [
  | inl same ↦ cc (
    u.0,
    any_of_IsIn (λ k. k.job_id == x.job_id) j t h
        ((==_iff _ _).1 (sym ((==_iff x.job_id j.job_id).0 same))),
  )
  | inr differs ↦ IsKeyed-any p j t u.1 h (ground arith)
]

-- A test that implies another passes no row where the other passes none.
none_of_none :
    (p q : Job → Bool) (t : List Job)
    → ((j : Job) → p j ≡ true → q j ≡ true)
    → any q t ≡ false
    → any p t ≡ false
none_of_none p q t le none_q = elim (Bool-cases (any p t)) [
  | inl some_p ↦ cc (none_q, any_mono p q t le some_p)
  | inr none_p ↦ none_p
]

pub count-key-le : (i : ℕ) (t : List Job) → IsKeyed t → count (λ j. i == j.job_id) t ≤ 1
count-key-le i [] u = omega arith
count-key-le i (x ∷ t) u = elim (Bool-cases (i == x.job_id)) [
  | inl hit ↦ rw hit (
      omega (
        arith,
        count_of_any (λ j. i == j.job_id) t
            (none_of_none _ (λ k. k.job_id == x.job_id) t (λ k h. ground arith) u.0),
      ))
  | inr miss ↦ rw miss (count-key-le i t u.1)
]

-- Of a keyed table at most one row goes by each listed key.
pub count-contains-le :
    (ids : List ℕ) (t : List Job) → IsKeyed t → count (λ j. contains ids j.job_id) t ≤ length ids
count-contains-le [] t u = omega (arith, count_none t)
count-contains-le (i ∷ ids) t u = omega (
  arith,
  count-||-le (λ j. i == j.job_id) (λ j. contains ids j.job_id) t,
  count-key-le i t u,
  count-contains-le ids t u,
)

pub find-update :
    (org id : ℕ) (test : Job → Bool) (write : Job → Job) (t : List Job)
    → KeepsKey write
    → (j : Job) → find (is_row org id) t ≡ some j
    → find (is_row org id) (update test write t) ≡ some (if test j then write j else j)
find-update org id test write [] same j h = cc
find-update org id test write (x ∷ t) same j h =
    ground (arith, same x, find-update org id test write t same j)

-- An UPDATE adds at most the rows that it touches to those that pass a test.
pub count-update-le :
    (p test : Job → Bool) (write : Job → Job) (t : List Job)
    → count p (update test write t) ≤ count p t + count test t
count-update-le p test write [] = omega arith
count-update-le p test write (x ∷ t) = ground (arith, count-update-le p test write t)
