-- ===== src/CompileCache/Tests.antt =====
-- A cache of two entries: the third key drops the one that was not used since.
use jarvis_development.Prelude.{ℕ, some, List, [], ◌∷◌, ◌≡◌, refl, keys, nat_eq, false}
use jarvis_development.CompileCache.{Cache, create, fetch, store}
use jarvis_development.CompileCache.Recent.{Uses, created, stored, hit, Uses-recent}

abbrev cache_of : List (ℕ × ℕ) → Cache ℕ ℕ
cache_of entries = record { max_entries = 2; entries = entries; closed = false }

new_cache : create 2 ≡ some (cache_of [])
unfolding create
new_cache = refl

fetch_one :
    fetch 1 (store 2 20 (store 1 10 (cache_of [])))
    ≡ some (some 10, cache_of ((1, 10) ∷ (2, 20) ∷ []))
unfolding fetch store
fetch_one = refl

three-Uses : Uses 2 (3 ∷ 1 ∷ 2 ∷ 1 ∷ []) (store 3 30 (cache_of ((1, 10) ∷ (2, 20) ∷ [])))
three-Uses = stored 3 30 (hit 1 10 (stored 2 20 (stored 1 10 (created new_cache))) fetch_one)

Uses-recent_example : keys (store 3 30 (cache_of ((1, 10) ∷ (2, 20) ∷ []))).entries ≡ 3 ∷ 1 ∷ []
Uses-recent_example = Uses-recent 2 three-Uses
