-- ===== src/ModelCalls/Spent.antt =====
-- What `run_spend` adds up, and when it can tell.
use jarvis_development.Prelude.{
  ℕ, ◌+◌, Bool, true, false, not, ◌&&◌, ◌||◌, Option, none, some, List, [], ◌∷◌, ◌≡◌, refl, inl,
  inr, String, string_eq, nat_eq, ◌==◌, any, contains, Bool-cases, Option-cases, if◌then◌else◌,
  arith,
}
use jarvis_development.Budget.Rows.{CallRow, rows_of_run}
use jarvis_development.Budget.{row_amount, spend_walk, run_spend}

abbrev pub add_amounts : Option ℕ → Option ℕ → Option ℕ
add_amounts none total = none
add_amounts (some amount) none = none
add_amounts (some amount) (some total) = some (amount + total)

-- The cost of the finished calls, where every one is known.
unfoldable pub finished_cost : List CallRow → Option ℕ
finished_cost [] = some 0
finished_cost (row ∷ rows) =
    let rest = finished_cost rows in
    if row.stage == "result" then add_amounts (row_amount row) rest else rest

-- A row of a call and a stage.
unfoldable pub has_stage : String → List CallRow → ℕ → Bool
has_stage stage [] id = false
has_stage stage (row ∷ rows) id =
    row.stage == stage && row.correlation_id == id || has_stage stage rows id

any-none :
    (started completed : List ℕ) (id : ℕ)
    → any (λ j. not (contains completed j)) started ≡ false
    → contains started id ≡ true
    → contains completed id ≡ true
any-none [] completed id h k = cc
any-none (j ∷ js) completed id h k = ground (arith, nat_eq.same_iff j id, any-none js completed id)

-- A total is known only if every finished call's cost is, and every started call is finished.
pub record Adds (rows : List CallRow) (started completed : List ℕ) (before total : ℕ) : Type 0 where
  pub cost : ℕ
  pub cost_known : finished_cost rows ≡ some cost
  pub sum : total ≡ before + cost
  pub settled :
      (id : ℕ)
      → (contains started id || has_stage "started" rows id) ≡ true
      → (contains completed id || has_stage "result" rows id) ≡ true

pub spend_walk-Adds :
    (rows : List CallRow) (started completed : List ℕ) (before : ℕ) {total : ℕ}
    → spend_walk rows started completed before ≡ some total
    → Adds rows started completed before total
unfolding spend_walk finished_cost has_stage
spend_walk-Adds [] started completed before {total} h =
    elim (Bool-cases (any (λ j. not (contains completed j)) started)) [
      | inl lost ↦ let e : none ≡ some total = rw lost at h in cc
      | inr fine ↦
          let e : some before ≡ some total = rw fine at h in
          record {
            cost = 0;
            cost_known = refl;
            sum = ground (arith, e);
            settled = λ id s. ground (arith, any-none started completed id fine);
          }
    ]
spend_walk-Adds (row ∷ rows) started completed before {total} h =
    elim (Bool-cases (row.stage == "started")) [
      | inl starts ↦
          let name = (string_eq.same_iff row.stage "started").0 starts in
          let a =
            spend_walk-Adds rows (row.correlation_id ∷ started) completed before {total = total}
              (rw starts at h) in
          record {
            cost = a.cost;
            cost_known = rw name a.cost_known;
            sum = a.sum;
            settled = λ id s. rw name (a.settled id (ground (arith, s, starts)));
          }
      | inr going ↦ elim (Bool-cases (row.stage == "result")) [
        | inr other ↦
            let a =
              spend_walk-Adds rows started completed before {total = total}
                (rw (going, other) at h) in
            record {
              cost = a.cost;
              cost_known = rw other a.cost_known;
              sum = a.sum;
              settled = λ id s. rw other (a.settled id (rw going at s));
            }
        | inl ends ↦ elim (Option-cases (row_amount row)) [
          | inl unknown ↦ let e : none ≡ some total = rw (going, ends, unknown) at h in cc
          | inr (amount, known) ↦
              let a =
                spend_walk-Adds rows started (row.correlation_id ∷ completed) (before + amount)
                  {total = total} (rw (going, ends, known) at h) in
              record {
                cost = amount + a.cost;
                cost_known = rw (ends, known, a.cost_known) refl;
                sum = omega (arith, a.sum);
                settled = λ id s. ground (arith, a.settled id (rw going at s), ends);
              }
        ]
      ]
    ]

pub run_spend-Adds :
    (rows : List CallRow) (run : ℕ) {total : ℕ}
    → run_spend rows run ≡ some total
    → Adds (rows_of_run rows run) [] [] 0 total
unfolding run_spend
run_spend-Adds rows run h = spend_walk-Adds (rows_of_run rows run) [] [] 0 h
