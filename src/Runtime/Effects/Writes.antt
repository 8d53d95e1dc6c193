-- ===== src/Runtime/Effects/Writes.antt =====
-- What the transactions of effects.py leave as it was.
use jarvis_development.Prelude.{
  ℕ, Bool, true, false, not, Option, none, some, ◌≡◌, inl, inr, String, string_eq, Option-cases,
  arith,
}
use jarvis_development.Runtime.Store.{Run, RunLease}
use jarvis_development.Runtime.Ownership.{RunFence, admit}
use jarvis_development.Runtime.Effects.{
  EffectStatus, Effect, World, guarded, is_prepared, prepare, Request, Opening, ready, open_effect,
  record_effect, poll_effect,
}

pub guarded-cases :
    {A : Type 0}
    → (fence : RunFence) (now now' : ℕ) (body : Run → World → Option (World × A)) (w : World)
    → {after : World} {result : A} → guarded fence now now' body w ≡ some (after, result)
    → (run : Run) × (lease : RunLease) × (admit fence now w.store ≡ some (run, lease))
      × (body run w ≡ some (after, result))
unfolding guarded
guarded-cases fence now now' body w {after} {result} h =
    elim (Option-cases (admit fence now w.store)) [
      | inl refused ↦ ground (arith, refused)
      | inr ((run, lease), admitted) ↦ (run, lease, admitted, ground (arith, admitted))
    ]

-- The row is there and is past `prepared`.
abbrev pub is_past : Option Effect → Bool
is_past none = false
is_past (some effect) = not (is_prepared effect.status)

-- The leases stay, and a row past `prepared` stays past it.
pub record Keeps (w after : World) : Type 0 where
  pub leases : after.store.leases ≡ w.store.leases
  pub past : is_past w.effect ≡ true → is_past after.effect ≡ true

pub record_effect-past :
    (status : EffectStatus) (identity result : Option String) (at : ℕ) (run : Run) (w : World)
    {after : World} {turned : Bool}
    → is_prepared status ≡ false
    → record_effect status identity result at run w ≡ some (after, turned)
    → (after.store.leases ≡ w.store.leases) × (is_past after.effect ≡ true)
unfolding record_effect
record_effect-past status identity result at run w {after} {turned} later h = ground arith

pub poll_effect-Keeps :
    (run : Run) (w : World) {after : World} {cancel : Bool}
    → poll_effect run w ≡ some (after, cancel)
    → Keeps w after
unfolding poll_effect
poll_effect-Keeps run w {after} {cancel} h = record {
  leases = ground arith;
  past = λ p. ground arith;
}

pub open_effect-Keeps :
    (request : Request) (generation : ℕ) (run : Run) (w : World) {after : World} {opening : Opening}
    → open_effect request generation run w ≡ some (after, opening)
    → Keeps w after
unfolding open_effect prepare
open_effect-Keeps request generation run w {after} {opening} h = record {
  leases = ground arith;
  past = λ p. ground arith;
}

-- A row that is past `prepared` opens as one that may have been dispatched.
pub open_effect-before :
    (request : Request) (generation : ℕ) (run : Run) (w : World) {after : World}
    → is_past w.effect ≡ true
    → open_effect request generation run w ≡ some (after, ready false)
    → ⊥
unfolding open_effect prepare
open_effect-before request generation run w {after} past h = ground arith
