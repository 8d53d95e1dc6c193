-- ===== src/Prelude/Dicts.antt =====
-- Python's dict as an association list in insertion order.
use mathlib.Core.Path.{◌≡◌, refl}
use mathlib.Core.Logic.{◌⊎◌, inl, inr}
use mathlib.Core.Bool.{false}
use mathlib.Core.Option.{Option, none, some}
use mathlib.Core.List.{List, [], ◌∷◌}
use native.Mathlib.Omega.{arith}
use jarvis_development.Prelude.Tests.{if◌then◌else◌, Bool-cases}
use jarvis_development.Prelude.Equality.{Equal, ◌==◌}
use jarvis_development.Prelude.Lists.{contains}

abbrev pub Dict {ℓ κ} : Type ℓ → Type κ → Type (ℓ ⊔ κ)
Dict K V = List (K × V)

module _ {ℓ κ} {K : Type ℓ} {V : Type κ} ⦃e : Equal K⦄ where
  -- `d.get(k)`
  abbrev pub get : Dict K V → K → Option V
  get [] k = none
  get ((j, v) ∷ d) k = if j == k then some v else get d k

  -- `d.get(k, default)`
  abbrev pub get_or : Dict K V → K → V → V
  get_or [] k default = default
  get_or ((j, v) ∷ d) k default = if j == k then v else get_or d k default

  -- `d[k] = v`
  abbrev pub put : Dict K V → K → V → Dict K V
  put [] k v = (k, v) ∷ []
  put ((j, w) ∷ d) k v = if j == k then (k, v) ∷ d else (j, w) ∷ put d k v

  abbrev pub keys : Dict K V → List K
  keys [] = []
  keys ((j, v) ∷ d) = j ∷ keys d

module _ {ℓ κ} {K : Type ℓ} {V : Type κ} ⦃e : Equal K⦄ where
  pub get_or-missing :
      (d : Dict K V) (k : K) (default : V)
      → contains (keys d) k ≡ false
      → get_or d k default ≡ default
  get_or-missing [] k default h = refl
  get_or-missing ((j, v) ∷ d) k default h = ground (arith, get_or-missing d k default)

  pub get_or-put :
      (d : Dict K V) (k j : K) (v default : V)
      → get_or (put d k v) j default ≡ (if k == j then v else get_or d j default)
  get_or-put [] k j v default = refl
  get_or-put ((i, w) ∷ d) k j v default =
      ground (arith, e.same_iff k j, e.same_iff i k, e.same_iff i j, get_or-put d k j v default)

  pub get-put :
      (d : Dict K V) (k j : K) (v : V) → get (put d k v) j ≡ (if k == j then some v else get d j)
  get-put [] k j v = refl
  get-put ((i, w) ∷ d) k j v =
      ground (arith, e.same_iff k j, e.same_iff i k, e.same_iff i j, get-put d k j v)

  pub get-put_cases :
      (d : Dict K V) (k j : K) (v w : V)
      → get (put d k v) j ≡ some w
      → ((k ≡ j) × (v ≡ w)) ⊎ (get d j ≡ some w)
  get-put_cases d k j v w h = elim (Bool-cases (k == j)) [
    | inl same ↦ inl ((e.same_iff k j).0 same, ground (arith, h, same, get-put d k j v))
    | inr other ↦ inr (ground (arith, h, other, get-put d k j v))
  ]

  pub get-put_other :
      (d : Dict K V) (k j : K) (v : V) → (k == j) ≡ false → get (put d k v) j ≡ get d j
  get-put_other d k j v h = ground (arith, h, get-put d k j v)
