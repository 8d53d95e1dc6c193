-- ===== src/Runtime/Ownership/Selection.antt =====
-- Which run `claim` takes, and that its new holder passes the check of `fenced`.
use mathlib.Core.List.{Memᴰ}
use jarvis_development.Prelude.{
  ◌∙◌, sym, ℕ, Bool, true, false, ◌&&◌, Option, none, some, List, [], ◌∷◌, ◌≡◌, refl, inl, inr, ◌⊎◌,
  arith, nat_eq, string_eq, Bool-cases, Option-cases, All, String, is_some, subst,
}
use jarvis_development.Runtime.Store.{Mode, Run, Recovery, Store, find_run, save_run}
use jarvis_development.Runtime.Ownership.{
  RunFence, comes_before, select_run, is_eligible, at_capacity, acquire, claim_run, claim,
}
use jarvis_development.Runtime.Ownership.Claims.{Chosen, claim-elim, select_run-eligible}

comes_before-irreflexive : (a : Run) → comes_before a a ≡ false
comes_before-irreflexive a = ground arith

comes_before-asymmetric : (a b : Run) → comes_before a b ≡ true → comes_before b a ≡ false
comes_before-asymmetric a b h = ground arith

comes_before_trans :
    (a b c : Run) → comes_before a b ≡ false → comes_before b c ≡ false → comes_before a c ≡ false
comes_before_trans a b c h k = ground arith

and-right : (a b : Bool) → b ≡ false → (a && b) ≡ false
and-right a b h = ground arith

-- No eligible run of the list comes before this one.
abbrev pub IsFirst : (Run → Bool) → Run → List Run → Type 0
IsFirst eligible best rs = All (λ r. (eligible r && comes_before r best) ≡ false) rs

none_eligible :
    (eligible : Run → Bool) (rs : List Run) (best : Run)
    → select_run eligible rs ≡ none
    → IsFirst eligible best rs
unfolding select_run
none_eligible eligible [] best e = tt
none_eligible eligible (r ∷ rs) best e = ground (arith, none_eligible eligible rs best)

IsFirst-trans :
    (eligible : Run → Bool) (rs : List Run) (a b : Run)
    → IsFirst eligible a rs
    → comes_before a b ≡ false
    → IsFirst eligible b rs
IsFirst-trans eligible [] a b h k = tt
IsFirst-trans eligible (r ∷ rs) a b (h, hs) k =
    (behind (Bool-cases (eligible r)), IsFirst-trans eligible rs a b hs k)
  where
    behind : (eligible r ≡ true) ⊎ (eligible r ≡ false) → (eligible r && comes_before r b) ≡ false
    behind (inr out) = rw out refl
    behind (inl in_) =
        rw in_ (comes_before_trans r a b (subst (λ x. (x && comes_before r a) ≡ false) in_ h) k)

abbrev FirstResult : (Run → Bool) → List Run → Option Run → Type 0
FirstResult eligible rs none = Unit
FirstResult eligible rs (some best) = IsFirst eligible best rs

select_run-first :
    (eligible : Run → Bool) (rs : List Run) → FirstResult eligible rs (select_run eligible rs)
unfolding select_run
select_run-first eligible [] = tt
select_run-first eligible (r ∷ rs) = elim (Option-cases (select_run eligible rs)) [
  | inl nothing ↦
      rw (nothing, select_run)
        (elim (Bool-cases (eligible r)) [
          | inl taken ↦ rw taken (
            and-right (eligible r) (comes_before r r) (comes_before-irreflexive r),
            none_eligible eligible rs r nothing,
          )
          | inr out ↦ rw out tt
        ])
  | inr (best, found) ↦
      let rest : IsFirst eligible best rs =
        subst (FirstResult eligible rs) found (select_run-first eligible rs) in
      rw (found, select_run)
        (elim (Bool-cases (eligible r)) [
          | inl taken ↦ rw taken (elim (Bool-cases (comes_before best r)) [
            | inl before ↦ rw before (
              and-right (eligible r) (comes_before r best) (comes_before-asymmetric best r before),
              rest,
            )
            | inr behind ↦ rw behind (
              and-right (eligible r) (comes_before r r) (comes_before-irreflexive r),
              IsFirst-trans eligible rs best r rest behind,
            )
          ])
          | inr out ↦ rw out (rw out refl, rest)
        ])
]

picked-head : (x : Run) (rs : List Run) (r : Run) → some x ≡ some r → Memᴰ r (x ∷ rs)
picked-head x rs r e = Memᴰ.head (let same : r ≡ x = cc in same)

picked-tail :
    (x : Run) (rs : List Run) (r : Run) {best : Run}
    → Memᴰ best rs
    → some best ≡ some r
    → Memᴰ r (x ∷ rs)
picked-tail x rs r {best} rest e =
    Memᴰ.tail (subst (λ b. Memᴰ b rs) (let same : best ≡ r = cc in same) rest)

select_run-listed :
    (eligible : Run → Bool) (rs : List Run) {r : Run} → select_run eligible rs ≡ some r → Memᴰ r rs
unfolding select_run
select_run-listed eligible [] e = cc
select_run-listed eligible (x ∷ rs) {r} e = elim (Option-cases (select_run eligible rs)) [
  | inl nothing ↦ elim (Bool-cases (eligible x)) [
    | inl taken ↦ picked-head x rs r (sym (picks (rw (nothing, taken, select_run) refl)) ∙ e)
    | inr out ↦ absurd (ground (arith, e, nothing, out))
  ]
  | inr (best, found) ↦
      let rest = select_run-listed eligible rs found in
      elim (Bool-cases (eligible x)) [
        | inl taken ↦ elim (Bool-cases (comes_before best x)) [
          | inl before ↦
              picked-tail x rs r rest (sym (picks (rw (found, taken, before, select_run) refl)) ∙ e)
          | inr behind ↦
              picked-head x rs r (sym (picks (rw (found, taken, behind, select_run) refl)) ∙ e)
        ]
        | inr out ↦ picked-tail x rs r rest (sym (picks (rw (found, out, select_run) refl)) ∙ e)
      ]
]
  where
    picks : {o : Option Run} → select_run eligible (x ∷ rs) ≡ o → select_run eligible (x ∷ rs) ≡ o
    picks h = h

pub select_run-found :
    (eligible : Run → Bool) (rs : List Run) {r : Run}
    → select_run eligible rs ≡ some r
    → is_some (find_run rs r.id) ≡ true
unfolding select_run
select_run-found eligible [] e = cc
select_run-found eligible (x ∷ rs) {r} e = ground (arith, select_run-found eligible rs {r = r})

pub find_run-save :
    (rs : List Run) (r : Run)
    → is_some (find_run rs r.id) ≡ true
    → find_run (save_run rs r) r.id ≡ some r
find_run-save [] r h = cc
find_run-save (x ∷ rs) r h = ground (arith, find_run-save rs r)

-- What `claim` promises of the fence that it returned.
pub record Claimed (capacity : Option ℕ) (mode : Option Mode) (locked : ℕ → Bool) (now : ℕ)
    (s : Store) (f : RunFence) : Type 0 where
  pub run : Run
  pub listed : Memᴰ run s.runs
  pub its : f.run_id ≡ run.id
  pub eligible : is_eligible mode now locked s.leases run ≡ true
  pub first : IsFirst (is_eligible mode now locked s.leases) run s.runs
  pub free : at_capacity capacity now s.leases ≡ false

abbrev ClaimedResult :
    Option ℕ → Option Mode → (ℕ → Bool) → ℕ → Store → Option RunFence × Store → Type 0
ClaimedResult capacity mode locked now s (none, t) = Unit
ClaimedResult capacity mode locked now s (some f, t) = Claimed capacity mode locked now s f

claim_run-Claimed :
    (owner : String) (ttl : ℕ) (capacity : Option ℕ) (mode : Option Mode) (locked : ℕ → Bool)
    (now now' : ℕ) (s : Store) (recovery : Recovery) (run : Run)
    → Chosen capacity mode locked now s recovery run
    → ClaimedResult capacity mode locked now s
        (claim_run owner ttl now now' recovery.generation run s)
unfolding claim_run
claim_run-Claimed owner ttl capacity mode locked now now' s recovery run c =
    elim (Option-cases (acquire run.id owner ttl now' s.leases)) [
      | inl refused ↦ rw (refused, claim_run) tt
      | inr ((leases, lease), got) ↦
          rw (got, claim_run)
            (record {
              run = run;
              listed = select_run-listed eligible s.runs c.first;
              its = refl;
              eligible = select_run-eligible eligible s.runs c.first;
              first =
                  subst (FirstResult eligible s.runs) c.first (select_run-first eligible s.runs);
              free = c.free;
            })
    ]
  where
    eligible : Run → Bool
    eligible = is_eligible mode now locked s.leases

-- If `claim` returns a fence, fewer leases than the capacity were live, and the run is one of a
-- claimable status, due, of the mode asked for, without a live lease and not locked, such that no
-- such run has a higher priority, or at the same priority an earlier due time, creation time or id.
pub claim-Claimed :
    (owner : String) (ttl : ℕ) (capacity : Option ℕ) (mode : Option Mode) (locked : ℕ → Bool)
    (now now' : ℕ) (s : Store) {f : RunFence} {t : Store}
    → claim owner ttl capacity mode locked now now' s ≡ (some f, t)
    → Claimed capacity mode locked now s f
claim-Claimed owner ttl capacity mode locked now now' s e =
    subst (ClaimedResult capacity mode locked now s) e (
      claim-elim (ClaimedResult capacity mode locked now s) owner ttl capacity mode locked now now'
        s tt (claim_run-Claimed owner ttl capacity mode locked now now' s))
