-- ===== src/Prelude/Search.antt =====
-- What the searches over a list find and count.
use Prim.Native.Nat.{ℕ, ◌+◌, ◌≤◌}
use mathlib.Core.Path.{◌≡◌, refl, ap, subst, ◌∙◌}
use mathlib.Core.Logic.{◌⊎◌, inl, inr}
use mathlib.Core.Bool.{Bool, true, false, ◌||◌, ◌&&◌}
use mathlib.Core.List.{List, [], ◌∷◌, ◌++◌, map}
use mathlib.Core.Option.{none, some}
use native.Mathlib.Omega.{arith}
use oc_control_plane.Prelude.Tests.{Bool-cases}
use oc_control_plane.Prelude.Lists.{keep, count, find, any, take, All}

module _ {ℓ} {A : Type ℓ} where
  abbrev pub IsIn : A → List A → Type ℓ
  IsIn a [] = Unit {ℓ} × ⊥
  IsIn a (x ∷ t) = (x ≡ a) ⊎ IsIn a t

  pub any_of_IsIn : (p : A → Bool) (a : A) (t : List A) → IsIn a t → p a ≡ true → any p t ≡ true
  any_of_IsIn p a [] h q = absurd h.1
  any_of_IsIn p a (x ∷ t) (inl e) q = ground (arith, ap p e)
  any_of_IsIn p a (x ∷ t) (inr h) q = ground (arith, any_of_IsIn p a t h q)

  -- A search that succeeds returns an element that passes the test.
  pub find-some-IsIn :
      (p : A → Bool) (t : List A) (a : A) → find p t ≡ some a → IsIn a t × (p a ≡ true)
  find-some-IsIn p [] a h = cc
  find-some-IsIn p (x ∷ t) a h = elim (Bool-cases (p x)) [
    | inl hit ↦ let e : x ≡ a = ground arith in (inl e, ground (arith, ap p e))
    | inr miss ↦ let (i, q) = find-some-IsIn p t a (ground arith) in (inr i, q)
  ]

  pub find_of_any : (p : A → Bool) (t : List A) → any p t ≡ false → find p t ≡ none
  find_of_any p [] h = refl
  find_of_any p (x ∷ t) h = ground (arith, find_of_any p t)

  pub count_of_any : (p : A → Bool) (t : List A) → any p t ≡ false → count p t ≡ 0
  count_of_any p [] h = refl
  count_of_any p (x ∷ t) h = ground (arith, count_of_any p t)

  pub count-||-le :
      (p q : A → Bool) (t : List A) → count (λ a. p a || q a) t ≤ count p t + count q t
  count-||-le p q [] = omega arith
  count-||-le p q (x ∷ t) = ground (arith, count-||-le p q t)

  pub count_none : (t : List A) → count (λ _. false) t ≡ 0
  count_none [] = refl
  count_none (x ∷ t) = count_none t

  -- A stronger test passes fewer elements.
  pub any_mono :
      (p q : A → Bool) (t : List A)
      → ((a : A) → p a ≡ true → q a ≡ true)
      → any p t ≡ true
      → any q t ≡ true
  any_mono p q [] le h = h
  any_mono p q (x ∷ t) le h = ground (arith, le x, any_mono p q t le)

  pub any-keep :
      (p q : A → Bool) (t : List A) → any q (keep p t) ≡ true → any (λ a. p a && q a) t ≡ true
  any-keep p q [] h = h
  any-keep p q (x ∷ t) h = ground (arith, any-keep p q t)

  pub any-take : (n : ℕ) (p : A → Bool) (t : List A) → any p (take n t) ≡ true → any p t ≡ true
  any-take ℕ.zero p t h = cc
  any-take (ℕ.suc n) p [] h = h
  any-take (ℕ.suc n) p (x ∷ t) h = ground (arith, any-take n p t)

  pub any-append : (p : A → Bool) (s t : List A) → any p (s ++ t) ≡ (any p s || any p t)
  any-append p [] t = refl
  any-append p (x ∷ s) t = ground (arith, any-append p s t)

  pub All-append {κ} : (P : A → Type κ) (s t : List A) → All P s → All P t → All P (s ++ t)
  All-append P [] t hs ht = ht
  All-append P (x ∷ s) t hs ht = (hs.0, All-append P s t hs.1 ht)

  pub All-of_IsIn {κ} : (P : A → Type κ) (t : List A) → ((a : A) → IsIn a t → P a) → All P t
  All-of_IsIn P [] h = tt
  All-of_IsIn P (x ∷ t) h = (h x (inl refl), All-of_IsIn P t (λ a i. h a (inr i)))

  pub IsIn-All {κ} : (P : A → Type κ) (a : A) (t : List A) → All P t → IsIn a t → P a
  IsIn-All P a [] h i = absurd i.1
  IsIn-All P a (x ∷ t) h (inl e) = subst P e h.0
  IsIn-All P a (x ∷ t) h (inr i) = IsIn-All P a t h.1 i

  pub IsIn-keep : (p : A → Bool) (a : A) (t : List A) → IsIn a t → p a ≡ true → IsIn a (keep p t)
  IsIn-keep p a [] h q = absurd h.1
  IsIn-keep p a (x ∷ t) (inl e) q = rw (ap p e ∙ q) (inl e)
  IsIn-keep p a (x ∷ t) (inr h) q = elim (Bool-cases (p x)) [
    | inl hit ↦ rw hit (inr (IsIn-keep p a t h q))
    | inr miss ↦ rw miss (IsIn-keep p a t h q)
  ]

module _ {ℓ κ} {A : Type ℓ} {B : Type κ} where
  pub IsIn-map : (f : A → B) (a : A) (t : List A) → IsIn a t → IsIn (f a) (map f t)
  IsIn-map f a [] h = absurd h.1
  IsIn-map f a (x ∷ t) (inl e) = inl (ap f e)
  IsIn-map f a (x ∷ t) (inr h) = inr (IsIn-map f a t h)

  pub any-map : (p : B → Bool) (f : A → B) (t : List A) → any p (map f t) ≡ any (λ a. p (f a)) t
  any-map p f [] = refl
  any-map p f (x ∷ t) = ground (arith, any-map p f t)

  pub All-map {μ} :
      (P : B → Type μ) (f : A → B) (t : List A) → All (λ a. P (f a)) t → All P (map f t)
  All-map P f [] h = tt
  All-map P f (x ∷ t) h = (h.0, All-map P f t h.1)
