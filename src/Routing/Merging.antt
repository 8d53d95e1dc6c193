-- ===== src/Routing/Merging.antt =====
-- orchestrator/app/jarvis_orchestrator/workflows/state.py: `merge_by_id`, the reducer of the result
-- channels. A value is compared by its canonical JSON. The sorting of the keys is left out: a
-- dict's order is not observed by a lookup.
mod Reads
pub mod Order
mod Tests
use jarvis_development.Prelude.{
  Bool, true, false, Option, none, some, List, [], ◌∷◌, ◌≡◌, Dict, get, put, String, string_eq,
  ◌==◌, ◌>>=◌,
}

-- Whether an entry may be added: there is none of its key, or one of the same value.
abbrev pub fits : Option String → String → Bool
fits none text = true
fits (some stored) text = stored == text

-- The keys of a dict are distinct.
abbrev pub IsDict : {V : Type 0} → Dict String V → Type 0
IsDict [] = Unit
IsDict ((k, v) ∷ d) = (get d k ≡ none) × IsDict d

module _ {V : Type 0} (canonical_json : V → String) where
  -- The canonical JSON of an entry.
  unfoldable pub read : Dict String V → String → Option String
  read d key = elim (get d key) [ none ↦ none | some v ↦ some (canonical_json v) ]

  -- `none` is the `WorkflowInvariantError` of a conflicting completion.
  unfoldable pub merge_by_id : Dict String V → Dict String V → Option (Dict String V)
  unfolding read
  merge_by_id left [] = some left
  merge_by_id left ((k, v) ∷ right) =
      let rest = merge_by_id (put left k v) right in
      elim (fits (read left k) (canonical_json v)) [ true ↦ rest | false ↦ none ]
