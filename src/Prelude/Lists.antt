-- ===== src/Prelude/Lists.antt =====
-- Lists under native numbers, membership as a Boolean, and Python's `any`, `all` and filters.
use Prim.Native.Nat.{ℕ, suc, ◌+◌}
use mathlib.Core.Path.{◌≡◌, refl}
use mathlib.Core.Logic.{◌⊎◌, inl, inr}
use mathlib.Core.Bool.{Bool, true, false, ◌&&◌, ◌||◌}
use mathlib.Core.Option.{Option, none, some}
use mathlib.Core.List.{List, [], ◌∷◌, ◌++◌}
use native.Mathlib.Omega.{arith}
use jarvis_development.Prelude.Tests.{if◌then◌else◌}
use jarvis_development.Prelude.Equality.{Equal, ◌==◌, ==-refl}

module _ {ℓ} {A : Type ℓ} where
  abbrev pub length : List A → ℕ
  length [] = 0
  length (x ∷ xs) = suc (length xs)

  -- `any(p(x) for x in xs)`
  abbrev pub any : (A → Bool) → List A → Bool
  any p [] = false
  any p (x ∷ xs) = p x || any p xs

  -- `all(p(x) for x in xs)`
  abbrev pub all : (A → Bool) → List A → Bool
  all p [] = true
  all p (x ∷ xs) = p x && all p xs

  -- `[x for x in xs if p(x)]`
  abbrev pub filter : (A → Bool) → List A → List A
  filter p [] = []
  filter p (x ∷ xs) = let rest = filter p xs in if p x then x ∷ rest else rest

  -- `next((x for x in xs if p(x)), None)`
  abbrev pub find? : (A → Bool) → List A → Option A
  find? p [] = none
  find? p (x ∷ xs) = if p x then some x else find? p xs

  pub List-cases : (xs : List A) → (xs ≡ []) ⊎ ((x : A) × (rest : List A) × (xs ≡ x ∷ rest))
  List-cases [] = inl refl
  List-cases (x ∷ xs) = inr (x, xs, refl)

  pub append-eq_nil : (xs ys : List A) → xs ++ ys ≡ [] → (xs ≡ []) × (ys ≡ [])
  append-eq_nil [] ys h = (refl, h)
  append-eq_nil (x ∷ xs) ys h = cc

  pub length-append : (xs ys : List A) → length (xs ++ ys) ≡ length xs + length ys
  length-append [] ys = omega arith
  length-append (x ∷ xs) ys = omega (arith, length-append xs ys)

  pub find?-eq_some : (p : A → Bool) (xs : List A) {x : A} → find? p xs ≡ some x → p x ≡ true
  find?-eq_some p [] h = ground arith
  find?-eq_some p (y ∷ ys) {x} h = ground (arith, find?-eq_some p ys {x = x})

  -- Every element satisfies a predicate.
  abbrev pub All {κ} : (A → Type κ) → List A → Type κ
  All P [] = Unit
  All P (x ∷ xs) = P x × All P xs

module _ {ℓ} {A : Type ℓ} ⦃e : Equal A⦄ where
  -- Python `a in xs`, for a list or for a set that is kept as one
  abbrev pub contains : List A → A → Bool
  contains [] a = false
  contains (x ∷ xs) a = x == a || contains xs a

module _ {ℓ} {A : Type ℓ} ⦃e : Equal A⦄ where
  pub contains-append :
      (xs ys : List A) (a : A) → contains (xs ++ ys) a ≡ (contains xs a || contains ys a)
  contains-append [] ys a = refl
  contains-append (x ∷ xs) ys a = ground (arith, contains-append xs ys a)

  pub contains-head : (x : A) (xs : List A) → contains (x ∷ xs) x ≡ true
  contains-head x xs = ground (arith, ==-refl x)

  pub contains-tail : (x y : A) (xs : List A) → contains xs y ≡ true → contains (x ∷ xs) y ≡ true
  contains-tail x y xs h = ground arith

  pub contains-cons :
      (x y : A) (xs : List A) → contains (x ∷ xs) y ≡ true → (x ≡ y) ⊎ (contains xs y ≡ true)
  contains-cons x y xs h = ground (arith, e.same_iff x y)

module _ {ℓ} {A : Type ℓ} where
  -- The reasons whose test holds, in order: a series of `if test: reasons.append(reason)`.
  abbrev pub reported : List (Bool × A) → List A
  reported [] = []
  reported ((test, reason) ∷ checks) = if test then reason ∷ reported checks else reported checks

  pub reported-nil :
      (checks : List (Bool × A)) → reported checks ≡ [] → All (λ check. check.0 ≡ false) checks
  reported-nil [] h = tt
  reported-nil ((true, reason) ∷ checks) h = cc
  reported-nil ((false, reason) ∷ checks) h = (refl, reported-nil checks h)
