-- ===== src/Jobs/Claimed.antt =====
-- Which rows a claim takes: claimable ones, up to the room that its session has left.
use oc_control_plane.Prelude.{
  ℕ, ◌-◌, ◌≤◌, ◌≡◌, refl, max, Bool, true, not, ◌&&◌, ◌||◌, List, [], ◌∷◌, arith, ◌==◌, length,
  count, any, any-map, any-take, any-keep, contains, IsIn, keep, take, length-map, length-take-le,
}
use oc_control_plane.Jobs.Row.{Job, JobClaim}
use oc_control_plane.Jobs.Statements.{
  is_held, claimable, insert_by_age, by_age, claimed_ids, claim_row, claim_jobs,
}
use oc_control_plane.Jobs.Rows.{IsKeyed, IsKeyed-any, count-contains-le, count-update-le}

any-insert_by_age :
    (p : Job → Bool) (j : Job) (t : List Job) → any p (insert_by_age j t) ≡ (p j || any p t)
unfolding insert_by_age
any-insert_by_age p j [] = refl
any-insert_by_age p j (x ∷ t) = ground (arith, any-insert_by_age p j t)

any-by_age : (p : Job → Bool) (t : List Job) → any p (by_age t) ≡ any p t
unfolding by_age
any-by_age p [] = refl
any-by_age p (x ∷ t) = ground (arith, any-insert_by_age p x (by_age t), any-by_age p t)

-- A row that a claim takes was claimable, in a table with unique keys.
pub claimed_ids-claimable :
    (org : ℕ) (claim : JobClaim) (locked : ℕ → Bool) (now : ℕ) (t : List Job) (j : Job)
    → IsKeyed t
    → IsIn j t
    → contains (claimed_ids org claim locked now t) j.job_id ≡ true
    → (claimable org claim.registration_id now j && not (locked j.job_id)) ≡ true
unfolding claimed_ids
claimed_ids-claimable org claim locked now t j u i h = IsKeyed-any open_to_claim j t u i (
    any-keep open_to_claim is_key t (
      rw (any-by_age is_key (keep open_to_claim t)) at (
        any-take _ is_key (by_age (keep open_to_claim t))
          (rw (any-map (λ x. x == j.job_id) (λ (k : Job). k.job_id) _) at h))))
  where
    open_to_claim : Job → Bool
    open_to_claim k = claimable org claim.registration_id now k && not (locked k.job_id)

    is_key : Job → Bool
    is_key k = k.job_id == j.job_id

length-claimed_ids :
    (org : ℕ) (claim : JobClaim) (locked : ℕ → Bool) (now : ℕ) (t : List Job)
    → length (claimed_ids org claim locked now t)
      ≤ claim.capacity - count (is_held org claim.session_id now) t
unfolding claimed_ids
length-claimed_ids org claim locked now t =
    rw (length-map (take _ _) (λ (j : Job). j.job_id)) (length-take-le _ _)

-- After a claim its session holds no more live leases than the capacity it gave, or than it
-- already held where that was more.
pub claim_jobs_within_capacity :
    (org : ℕ) (claim : JobClaim) (locked : ℕ → Bool) (now : ℕ) (t : List Job)
    → IsKeyed t
    → count (is_held org claim.session_id now) (claim_jobs org claim locked now t).0
      ≤ max claim.capacity (count (is_held org claim.session_id now) t)
unfolding claim_jobs
claim_jobs_within_capacity org claim locked now t u =
    let ids = claimed_ids org claim locked now t in
    omega (
      arith,
      count-update-le (is_held org claim.session_id now) (λ j. contains ids j.job_id)
          (claim_row claim now) t,
      count-contains-le ids t u,
      length-claimed_ids org claim locked now t,
    )
