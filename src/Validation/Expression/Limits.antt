-- ===== src/Validation/Expression/Limits.antt =====
-- What a predicate without issues is like.
use jarvis_development.Prelude.{
  ℕ, zero, suc, ◌+◌, ◌≤◌, Bool, true, false, not, ◌&&◌, ◌||◌, Option, List, [], ◌∷◌, ◌++◌, ◌≡◌,
  refl, ◌↔◌, String, arith, ltb, leb, is_some, Bool-cases, inl, inr, subst, ◌∙◌,
}
use jarvis_development.Worklist.{push_all}
use jarvis_development.Contracts.Json.{Json}
use jarvis_development.Contracts.Workflow.{Predicate, predicate, Arguments, PredicateOperator}
use jarvis_development.Predicates.{ordered_number}
use jarvis_development.Validation.Expression.{
  max_predicate_depth, max_predicate_count, path_approved, list_fits, is_ordering, is_null,
  has_args, own_issues, children, predicate_walk, predicate_issues,
}

-- The number of predicates in a tree.
abbrev mutual
  pub size : Predicate → ℕ
  size (predicate op path value args) = suc (sizes args)

  pub sizes : Arguments → ℕ
  sizes Arguments.nil = 0
  sizes (Arguments.cons p ps) = size p + sizes ps

-- What holds of one predicate of the tree.
abbrev pub is_proper : PredicateOperator → Option String → Json → Arguments → Bool
is_proper op path value args =
    path_approved path
    && (list_fits op value
        && ((not (is_ordering op) || is_some (ordered_number value))
            && (not (has_args args) || is_null value)))

-- All predicates of a tree at this depth are proper, and none is deeper than the limit.
abbrev mutual
  pub fits : Predicate → ℕ → Bool
  fits (predicate op path value args) depth =
      leb depth max_predicate_depth && (is_proper op path value args && all_fit args (depth + 1))

  pub all_fit : Arguments → ℕ → Bool
  all_fit Arguments.nil depth = true
  all_fit (Arguments.cons p ps) depth = fits p depth && all_fit ps depth

abbrev total : List (Predicate × ℕ) → ℕ
total [] = 0
total ((p, depth) ∷ rest) = size p + total rest

abbrev pending_fit : List (Predicate × ℕ) → Bool
pending_fit [] = true
pending_fit ((p, depth) ∷ rest) = fits p depth && pending_fit rest

total-push : (xs ys : List (Predicate × ℕ)) → total (push_all xs ys) ≡ total xs + total ys
total-push [] ys = omega arith
total-push ((p, depth) ∷ xs) ys = omega (arith, total-push xs ((p, depth) ∷ ys))

fit-push :
    (xs ys : List (Predicate × ℕ))
    → pending_fit (push_all xs ys) ≡ (pending_fit xs && pending_fit ys)
fit-push [] ys = refl
fit-push ((p, depth) ∷ xs) ys = ground (arith, fit-push xs ((p, depth) ∷ ys))

total-children : (args : Arguments) (depth : ℕ) → total (children args depth) ≡ sizes args
total-children Arguments.nil depth = refl
total-children (Arguments.cons p ps) depth = omega (arith, total-children ps depth)

fit-children :
    (args : Arguments) (depth : ℕ) → pending_fit (children args depth) ≡ all_fit args depth
fit-children Arguments.nil depth = refl
fit-children (Arguments.cons p ps) depth = ground (arith, fit-children ps depth)

abbrev is_nil {ℓ} : {A : Type ℓ} → List A → Bool
is_nil [] = true
is_nil (x ∷ xs) = false

is_nil-append {ℓ} : {A : Type ℓ} (xs ys : List A) → is_nil (xs ++ ys) ≡ (is_nil xs && is_nil ys)
is_nil-append [] ys = refl
is_nil-append (x ∷ xs) ys = refl

is_nil_iff {ℓ} : {A : Type ℓ} (xs : List A) → (xs ≡ []) ↔ (is_nil xs ≡ true)
is_nil_iff xs = ground arith

size-positive : (p : Predicate) → 1 ≤ size p
size-positive (predicate op path value args) = omega arith

own_issues-proper :
    (edge : String) (op : PredicateOperator) (path : Option String) (value : Json)
    (args : Arguments)
    → is_nil (own_issues edge (predicate op path value args)) ≡ is_proper op path value args
unfolding own_issues
own_issues-proper edge op path value args = ground arith

regroup :
    (proper fit rest : Bool) (s t n : ℕ)
    → (proper && ((fit && rest) && leb ((s + t) + (n + 1)) max_predicate_count))
      ≡ (((proper && fit) && rest) && leb ((suc s + t) + n) max_predicate_count)
regroup proper fit rest s t n = ground arith

predicate_walk-silent :
    (edge : String) (k : ℕ) (pending : List (Predicate × ℕ)) (count : ℕ)
    → count + k ≡ max_predicate_count
    → is_nil (predicate_walk edge (suc k) pending count)
      ≡ (pending_fit pending && leb (total pending + count) max_predicate_count)
unfolding predicate_walk
predicate_walk-silent edge k [] count h = ground arith
predicate_walk-silent edge zero ((p, depth) ∷ pending) count h =
    rw (full, over (size-positive p)) (both_false (fits p depth && pending_fit pending))
  where
    full : (ltb max_predicate_depth depth || ltb max_predicate_count (count + 1)) ≡ true
    full = ground arith

    over : 1 ≤ size p → leb ((size p + total pending) + count) max_predicate_count ≡ false
    over positive = ground arith

    both_false : (b : Bool) → false ≡ (b && false)
    both_false true = refl
    both_false false = refl
predicate_walk-silent edge (suc k) ((predicate op path value args, depth) ∷ pending) count h =
    elim (Bool-cases (ltb max_predicate_depth depth)) [
      | inl deep ↦ rw (deep, leb_deep deep) refl
      | inr shallow ↦
          let pushed = push_all (children args (depth + 1)) pending in
          rw
            (
              shallow,
              leb_shallow shallow,
              room,
              is_nil-append (own_issues edge (predicate op path value args))
                  (predicate_walk edge (suc k) pushed (count + 1)),
              own_issues-proper edge op path value args,
              predicate_walk-silent edge k pushed (count + 1) (omega arith),
              total-push (children args (depth + 1)) pending,
              fit-push (children args (depth + 1)) pending,
              total-children args (depth + 1),
              fit-children args (depth + 1),
            )
            (regroup (is_proper op path value args) (all_fit args (depth + 1)) (pending_fit pending)
              (sizes args) (total pending) count)
    ]
  where
    leb_deep : ltb max_predicate_depth depth ≡ true → leb depth max_predicate_depth ≡ false
    leb_deep e = ground arith

    leb_shallow : ltb max_predicate_depth depth ≡ false → leb depth max_predicate_depth ≡ true
    leb_shallow e = ground arith

    room : ltb max_predicate_count (count + 1) ≡ false
    room = ground arith

fits-commute :
    (b : Bool) (s : ℕ)
    → ((b && true) && leb ((s + 0) + 0) max_predicate_count) ≡ (b && leb s max_predicate_count)
fits-commute b s = ground arith

-- `_predicate_issues` reports nothing exactly if the tree has at most `MAX_PREDICATE_COUNT`
-- predicates, none deeper than `MAX_PREDICATE_DEPTH`, and every one has an approved path or none,
-- a list of at most 64 values if it is `in`, a number if it is an ordering, and no value if it
-- has arguments.
pub predicate_issues-silent_iff :
    (p : Predicate) (edge : String)
    → (predicate_issues p edge ≡ []) ↔ ((fits p 1 && leb (size p) max_predicate_count) ≡ true)
unfolding predicate_issues
predicate_issues-silent_iff p edge =
    subst (λ b. (predicate_issues p edge ≡ []) ↔ (b ≡ true))
      (predicate_walk-silent edge max_predicate_count ((p, 1) ∷ []) 0 (omega arith)
        ∙ fits-commute (fits p 1) (size p))
      (is_nil_iff (predicate_issues p edge))
