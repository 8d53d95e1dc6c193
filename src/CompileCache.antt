-- ===== src/CompileCache.antt =====
-- orchestrator/app/jarvis_orchestrator/workflows/compiler.py, `CompileCache`: the cache of compiled
-- workflows, which drops the least recently used.
pub mod Recent
mod Tests
use jarvis_development.Prelude.{
  ℕ, zero, suc, Bool, true, false, not, ◌||◌, Option, none, some, List, [], ◌∷◌, Equal, ◌==◌, get,
  keys, leb, ltb, if◌then◌else◌,
}

-- `_entries` is in order of use: the head is the end of the `OrderedDict`.
pub record Cache (K V : Type 0) : Type 0 where
  pub max_entries : ℕ
  pub entries : List (K × V)
  pub closed : Bool

module _ {K V : Type 0} ⦃e : Equal K⦄ where
  -- The entries without a key.
  abbrev pub without_key : K → List (K × V) → List (K × V)
  without_key k [] = []
  without_key k ((j, v) ∷ rest) = if j == k then rest else (j, v) ∷ without_key k rest

  -- `while len(self._entries) > self.max_entries: popitem(last=False)`: the oldest go.
  abbrev pub trimmed : ℕ → List (K × V) → List (K × V)
  trimmed zero xs = []
  trimmed (suc n) [] = []
  trimmed (suc n) (x ∷ xs) = x ∷ trimmed n xs

  -- `CompileCache(max_entries)`: `none` is its `ValueError`.
  unfoldable pub create : ℕ → Option (Cache K V)
  create max_entries =
      if not (leb 1 max_entries) || ltb 256 max_entries
      then none
      else some (record { max_entries = max_entries; entries = []; closed = false })

  -- `close`
  unfoldable pub close : Cache K V → Cache K V
  close c = record c { entries = []; closed = true }

  -- `_get`: `none` is its `RuntimeError`.
  unfoldable pub fetch : K → Cache K V → Option (Option V × Cache K V)
  fetch k c = if c.closed then none else elim (get c.entries k) [
    | none ↦ some (none, c)
    | some v ↦ some (some v, record c { entries = (k, v) ∷ without_key k c.entries })
  ]

  -- `_put`
  unfoldable pub store : K → V → Cache K V → Cache K V
  store k v c = record c { entries = trimmed c.max_entries ((k, v) ∷ without_key k c.entries) }
