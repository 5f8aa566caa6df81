-- ===== src/Jobs/Effects.antt =====
-- What one statement does to the table and to each of its rows.
use oc_control_plane.Prelude.{
  ℕ, ◌≤◌, ◌≡◌, refl, ap, ◌∙◌, inl, inr, Bool, true, false, List, [], ◌∷◌, ◌++◌, arith, ◌==◌,
  is_some, Bool-cases, &&-true, count, any, contains, IsIn,
}
use oc_control_plane.Jobs.Row.{
  Job, NewJob, IntegrationRow, InvestigationRow, JobClaim, LeaseAdoption, JobFence, JobOutcome,
  is_leased, is_terminal,
}
use oc_control_plane.Jobs.Statements.{
  update, enqueue_verified_job, enqueue_admits, enqueued_row, request_job_cancellation, cancellable,
  cancel_row, is_owned, cancel_owned_jobs, claim_jobs, claimed_ids, claim_row, claimable,
  adopt_in_flight_leases, adoptable, adopt_row, release_stranded_leases, stranded, release_row,
  record_result, fenced, record_row,
}
use oc_control_plane.Jobs.Rows.{IsKeyed, KeepsKey}
use oc_control_plane.Jobs.Claimed.{claimed_ids-claimable}
use oc_control_plane.Jobs.History.{
  Operation, enqueue, request_cancellation, cancel_owned, claim, adopt, release, store_result,
  IsLawful, step,
}

-- `k` is a later state of row `j`: one job, an epoch that never falls, and no change at all once
-- the job is terminal.
pub record Advances (j k : Job) : Type 0 where
  pub same_job : k.job_id ≡ j.job_id
  pub same_org : k.org_id ≡ j.org_id
  pub epoch_grows : j.lease_epoch ≤ k.lease_epoch
  pub stays_final : is_terminal j.status ≡ true → k ≡ j

pub Advances-refl : (j : Job) → Advances j j
Advances-refl j = record {
  same_job = refl;
  same_org = refl;
  epoch_grows = omega arith;
  stays_final = λ _. refl;
}

pub Advances-trans : (i j k : Job) → Advances i j → Advances j k → Advances i k
Advances-trans i j k a b = record {
  same_job = b.same_job ∙ a.same_job;
  same_org = b.same_org ∙ a.same_org;
  epoch_grows = omega arith;
  stays_final = λ f.
      b.stays_final (ap (λ (r : Job). is_terminal r.status) (a.stays_final f) ∙ f)
      ∙ a.stays_final f;
}

-- The checks relay_job_lease_is_whole and relay_job_terminal_is_stamped of the schema, and what the
-- schema does not check: that a row is leased exactly when it names a session.
pub record IsWhole (j : Job) : Type 0 where
  pub lease_is_whole : is_some j.lease_session ≡ is_some j.lease_expires_at
  pub leased_by_a_session : is_leased j.status ≡ is_some j.lease_session
  pub terminal_is_stamped : is_terminal j.status ≡ is_some j.terminal_at

pub record Changes (op : Operation) (j k : Job) : Type 0 where
  pub advances : Advances j k
  pub stays_whole : IsLawful op → IsWhole j → IsWhole k

-- A statement inserts a row under a new key, or writes rows in place, or leaves the table.
pub data Effect (op : Operation) (t u : List Job) : Type 0 where
  inserts :
      (j : Job)
      → any (λ k. k.job_id == j.job_id) t ≡ false
      → IsWhole j
      → u ≡ t ++ j ∷ []
      → Effect op t u
  writes :
      (test : Job → Bool) (write : Job → Job)
      → KeepsKey write
      → ((j : Job) → IsIn j t → test j ≡ true → Changes op j (write j))
      → u ≡ update test write t
      → Effect op t u
  leaves : u ≡ t → Effect op t u

enqueue-Effect :
    (org : ℕ) (job : NewJob) (is : List IntegrationRow) (vs : List InvestigationRow) (now : ℕ)
    (t : List Job)
    → Effect (enqueue org job is vs now) t (enqueue_verified_job org job is vs now t).0
unfolding enqueue_verified_job enqueued_row
enqueue-Effect org job is vs now t = elim (Bool-cases (enqueue_admits org job is vs)) [
  | inl admitted ↦ elim (Bool-cases (any (λ j. j.job_id == job.job_id) t)) [
    | inl taken ↦ rw (admitted, taken) (leaves refl)
    | inr fresh ↦
        rw (admitted, fresh)
          (inserts (enqueued_row org job now) (unfold enqueued_row in fresh)
            (unfold enqueued_row in
              record {
                lease_is_whole = refl;
                leased_by_a_session = refl;
                terminal_is_stamped = refl;
              })
            refl)
  ]
  | inr refused ↦ rw refused (leaves refl)
]

cancel-Changes :
    (org id now : ℕ) (j : Job)
    → cancellable org id j ≡ true
    → Changes (request_cancellation org id now) j (cancel_row now j)
unfolding cancel_row
cancel-Changes org id now j h = ground arith

cancel_owned-Changes :
    (org investigation now : ℕ) (j : Job)
    → is_owned org investigation j ≡ true
    → Changes (cancel_owned org investigation now) j (cancel_row now j)
unfolding cancel_row
cancel_owned-Changes org investigation now j h = ground arith

claim-Changes :
    (org : ℕ) (c : JobClaim) (locked : ℕ → Bool) (now : ℕ) (j : Job)
    → claimable org c.registration_id now j ≡ true
    → Changes (claim org c locked now) j (claim_row c now j)
unfolding claim_row
claim-Changes org c locked now j h = ground arith

adopt-Changes :
    (org : ℕ) (a : LeaseAdoption) (now : ℕ) (j : Job)
    → adoptable org a j ≡ true
    → Changes (adopt org a now) j (adopt_row a now j)
unfolding adopt_row
adopt-Changes org a now j h = ground arith

release-Changes :
    (org registration holder : ℕ) (j : Job)
    → stranded org registration holder j ≡ true
    → Changes (release org registration holder) j (release_row j)
unfolding release_row
release-Changes org registration holder j h = ground arith

record-Changes :
    (org : ℕ) (fence : JobFence) (o : JobOutcome) (now : ℕ) (j : Job)
    → fenced org fence j ≡ true
    → Changes (store_result org fence o now) j (record_row o now j)
unfolding record_row
record-Changes org fence o now j h = ground arith

record_result-table :
    (org : ℕ) (fence : JobFence) (o : JobOutcome) (now : ℕ) (t : List Job)
    → (record_result org fence o now t).0 ≡ update (fenced org fence) (record_row o now) t
unfolding record_result
record_result-table org fence o now t = elim (Bool-cases (count (fenced org fence) t == 1)) [
  | inl one ↦ rw one
  | inr other ↦ rw other
]

pub step-Effect : (t : List Job) (op : Operation) → IsKeyed t → Effect op t (step t op)
unfolding step
step-Effect t (enqueue org job is vs now) u = enqueue-Effect org job is vs now t
step-Effect t (request_cancellation org id now) u =
    unfold request_job_cancellation cancel_row in
    writes (cancellable org id) (cancel_row now) (λ j. (refl, refl))
      (λ j i h. cancel-Changes org id now j h) refl
step-Effect t (cancel_owned org investigation now) u =
    unfold cancel_owned_jobs cancel_row in
    writes (is_owned org investigation) (cancel_row now) (λ j. (refl, refl))
      (λ j i h. cancel_owned-Changes org investigation now j h) refl
step-Effect t (claim org c locked now) u =
    unfold claim_jobs claim_row in
    writes (λ j. contains (claimed_ids org c locked now t) j.job_id) (claim_row c now)
      (λ j. (refl, refl))
      (λ j i h.
        claim-Changes org c locked now j
          (&&-true _ _ (claimed_ids-claimable org c locked now t j u i h)).0)
      refl
step-Effect t (adopt org a now) u =
    unfold adopt_in_flight_leases adopt_row in
    writes (adoptable org a) (adopt_row a now) (λ j. (refl, refl))
      (λ j i h. adopt-Changes org a now j h) refl
step-Effect t (release org registration holder) u =
    unfold release_stranded_leases release_row in
    writes (stranded org registration holder) release_row (λ j. (refl, refl))
      (λ j i h. release-Changes org registration holder j h) refl
step-Effect t (store_result org fence o now) u =
    unfold record_row in
    writes (fenced org fence) (record_row o now) (λ j. (refl, refl))
      (λ j i h. record-Changes org fence o now j h) (record_result-table org fence o now t)
