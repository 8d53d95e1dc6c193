-- ===== src/Routing/Keys.antt =====
-- The names of the iteration counters are not injective.
use text.Mathlib.TextLemmas.{append_assoc}
use jarvis_development.Prelude.{
  ℕ, ◌≤◌, some, ◌≡◌, sym, String, string_eq, get_or, arith, nat_eq, true,
}
use jarvis_development.Contracts.Json.{Fields}
use jarvis_development.Contracts.Workflow.{WorkflowEdge}
use jarvis_development.Predicates.{get_path}
use jarvis_development.Routing.{
  Counters, failed, iterations_exceeded, iterate_route, iterate_key, progress_key, shown,
  progress_of, advanced,
}

iterate_key-progress : (k : String) → iterate_key (progress_key k) ≡ progress_key (iterate_key k)
iterate_key-progress k = sym (append_assoc "iterate:" k ":progress")

-- An iterator whose key is another iterator's key `k` followed by ":progress" takes the other's
-- recorded progress for its own count: once that has reached its bound, its edge fails as
-- exceeded, however often it was taken, though its progress grows.
pub iterate_route-collides :
    (k : String) (e : WorkflowEdge) (state : Fields) (counters : Counters) (limit progress : ℕ)
    → progress_of (get_path state (shown e.progress_path)) ≡ some progress
    → advanced counters (progress_key (iterate_key (progress_key k))) progress ≡ true
    → limit ≤ get_or counters (progress_key (iterate_key k)) 0
    → iterate_route
        (record e { iteration_key = some (progress_key k); max_iterations = some limit })
        state
        counters
      ≡ failed iterations_exceeded
unfolding iterate_route
iterate_route-collides k e state counters limit progress found grown reached =
    ground (arith, found, grown, exceeded)
  where
    exceeded : limit ≤ get_or counters (iterate_key (progress_key k)) 0
    exceeded = rw (iterate_key-progress k) reached
