-- ===== src/Routing/MaxMap.antt =====
-- orchestrator/app/jarvis_orchestrator/workflows/state.py: `max_map`, the reducer of the counters.
-- Its sorting of the keys is left out: a dict's order is not observed by a lookup.
use jarvis_development.Prelude.{
  ℕ, ◌≤◌, max, [], ◌∷◌, String, string_eq, ◌==◌, arith, get_or, put, get_or-put, Bool-cases, inl,
  inr, ==-refl,
}
use jarvis_development.Routing.{Counters}

unfoldable pub max_map : Counters → Counters → Counters
max_map left [] = left
max_map left ((k, v) ∷ right) = max_map (put left k (max (get_or left k 0) v)) right

pub put-grows :
    (counters : Counters) (k key : String) (v : ℕ)
    → get_or counters key 0 ≤ get_or (put counters k (max (get_or counters k 0) v)) key 0
put-grows counters k key v =
    rw (get_or-put counters k key (max (get_or counters k 0) v) 0) (elim (Bool-cases (k == key)) [
      | inl same ↦ rw (same, (string_eq.same_iff k key).0 same) (omega arith)
      | inr other ↦ rw other (omega arith)
    ])

-- A merge lowers no counter.
pub max_map-grows :
    (left right : Counters) (key : String) → get_or left key 0 ≤ get_or (max_map left right) key 0
unfolding max_map
max_map-grows left [] key = omega arith
max_map-grows left ((k, v) ∷ right) key =
    omega (
      arith,
      put-grows left k key v,
      max_map-grows (put left k (max (get_or left k 0) v)) right key,
    )

-- A merge brings the first entry of its right argument in.
pub max_map-head :
    (left right : Counters) (k : String) (v : ℕ) → v ≤ get_or (max_map left ((k, v) ∷ right)) k 0
unfolding max_map
max_map-head left right k v =
    omega (arith, max_map-grows (put left k (max (get_or left k 0) v)) right k, put-reads)
  where
    put-reads : v ≤ get_or (put left k (max (get_or left k 0) v)) k 0
    put-reads = rw (get_or-put left k k (max (get_or left k 0) v) 0, ==-refl k) (omega arith)
