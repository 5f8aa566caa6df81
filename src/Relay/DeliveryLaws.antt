-- ===== src/Relay/DeliveryLaws.antt =====
-- What the rounds of internal/relay/delivery.go send.
use oc_control_plane.Prelude.{
  ◌≡◌, refl, ap, inl, inr, Bool, true, List, [], ◌∷◌, arith, Bool-cases, Option-cases, any, keep,
  All, IsIn-All, All-of_IsIn, any_of_IsIn,
}
use oc_control_plane.Jobs.Row.{Job, JobFence, InFlightJob}
use oc_control_plane.Jobs.Statements.{pending_cancellations}
use oc_control_plane.Relay.Handshake.{SessionState}
use oc_control_plane.Relay.Delivery.{
  cancellation, same_execution, knows, Outbound, send, execution_of, tell, dispatch_cancellations,
}

-- Everything in one set is in the other.
abbrev Covers : List InFlightJob → List InFlightJob → Type 0
Covers small large = (e : InFlightJob) → knows small e ≡ true → knows large e ≡ true

tell-Covers :
    (fences : List JobFence) (told : List InFlightJob) (out : Outbound)
    → Covers told (tell fences told out).0
unfolding tell
tell-Covers [] told out e h = h
tell-Covers (f ∷ fs) told out e h = elim (Bool-cases (knows told (execution_of f))) [
  | inl known ↦ rw (known, tell) (tell-Covers fs told out e h)
  | inr unknown ↦ elim (Option-cases (send (cancellation (execution_of f)) out)) [
    | inl full ↦ rw (unknown, full, tell) h
    | inr (out', went) ↦
        rw (unknown, went, tell) (tell-Covers fs (execution_of f ∷ told) out' e (ground arith))
  ]
]

-- Where every send went through, each of the cancellations has been told.
tell-All :
    (fences : List JobFence) (told : List InFlightJob) (out : Outbound)
    (r : List InFlightJob × Outbound × Bool)
    → tell fences told out ≡ r
    → r.2 ≡ true
    → All (λ f. knows r.0 (execution_of f) ≡ true) fences
unfolding tell
tell-All [] told out r e h = tt
tell-All (f ∷ fs) told out r e h = elim (Bool-cases (knows told (execution_of f))) [
  | inl known ↦
      let rest : tell fs told out ≡ r = rw (known, tell) at e in
      (rw rest at (tell-Covers fs told out (execution_of f) known), tell-All fs told out r rest h)
  | inr unknown ↦ elim (Option-cases (send (cancellation (execution_of f)) out)) [
    | inl full ↦ cc (rw (unknown, full, tell) at e, h)
    | inr (out', went) ↦
        let rest : tell fs (execution_of f ∷ told) out' ≡ r = rw (unknown, went, tell) at e in
        (
          rw rest at (tell-Covers fs (execution_of f ∷ told) out' (execution_of f) (ground arith)),
          tell-All fs (execution_of f ∷ told) out' r rest h,
        )
  ]
]

-- What is known already is not sent again.
tell_known :
    (fences : List JobFence) (told : List InFlightJob) (out : Outbound)
    → All (λ f. knows told (execution_of f) ≡ true) fences
    → tell fences told out ≡ (told, out, true)
unfolding tell
tell_known [] told out h = refl
tell_known (f ∷ fs) told out h = rw (h.0, tell) (tell_known fs told out h.1)

knows-keep :
    (p : InFlightJob → Bool) (set : List InFlightJob) (e : InFlightJob)
    → ((d : InFlightJob) → same_execution e d ≡ true → p d ≡ true)
    → knows set e ≡ true
    → knows (keep p set) e ≡ true
knows-keep p [] e same h = h
knows-keep p (x ∷ set) e same h = ground (arith, same x, knows-keep p set e same)

-- After a round whose sends all went through, another round over the same jobs sends nothing and
-- goes through, whatever room its stream has: a cancellation is sent once while it stays pending.
pub cancellation_told_once :
    (session : SessionState) (jobs : List Job) (told : List InFlightJob) (out later : Outbound)
    → (dispatch_cancellations session jobs told out).2 ≡ true
    → let again =
        dispatch_cancellations session jobs
          (dispatch_cancellations session jobs told out).0
          later in
      (again.1 ≡ later) × (again.2 ≡ true)
unfolding dispatch_cancellations
cancellation_told_once session jobs told out later passed = (
  ap (λ (r : List InFlightJob × Outbound × Bool). r.1) same,
  ap (λ (r : List InFlightJob × Outbound × Bool). r.2) same,
)
  where
    pending : List JobFence
    pending = pending_cancellations session.organization session.id jobs

    stays : InFlightJob → Bool
    stays e = any (λ f. same_execution e (execution_of f)) pending

    same :
        tell pending (keep stays (tell pending (keep stays told) out).0) later
        ≡ (keep stays (tell pending (keep stays told) out).0, later, true)
    same = tell_known pending (keep stays (tell pending (keep stays told) out).0) later (
        All-of_IsIn
          (λ f. knows (keep stays (tell pending (keep stays told) out).0) (execution_of f) ≡ true)
          pending
          (λ f i.
            knows-keep stays (tell pending (keep stays told) out).0 (execution_of f)
              (λ d same.
                any_of_IsIn (λ g. same_execution d (execution_of g)) f pending i (ground arith))
              (IsIn-All (λ g. knows (tell pending (keep stays told) out).0 (execution_of g) ≡ true)
                f pending
                (tell-All pending (keep stays told) out (tell pending (keep stays told) out) refl
                  passed)
                i)))
