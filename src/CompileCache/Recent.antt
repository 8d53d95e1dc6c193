-- ===== src/CompileCache/Recent.antt =====
-- The cache holds the most recently used keys, each with the value stored last.
use jarvis_development.Prelude.{
  ℕ, zero, suc, true, not, ◌||◌, Option, none, some, List, [], ◌∷◌, ◌≡◌, refl, arith, Equal, ◌==◌,
  get, keys, leb, ltb, if◌then◌else◌, contains, Bool-cases, Option-cases, inl, inr, ap, ◌∙◌, sym,
  subst,
}
use jarvis_development.CompileCache.{Cache, without_key, trimmed, create, fetch, store}

module _ {K : Type 0} ⦃e : Equal K⦄ where
  abbrev pub drop_key : K → List K → List K
  drop_key k [] = []
  drop_key k (j ∷ ks) = if j == k then ks else j ∷ drop_key k ks

  -- The keys of a history of uses, newest first, each once.
  abbrev pub recent : List K → List K
  recent [] = []
  recent (k ∷ ks) = k ∷ drop_key k (recent ks)

  abbrev pub first : ℕ → List K → List K
  first zero ks = []
  first (suc n) [] = []
  first (suc n) (k ∷ ks) = k ∷ first n ks

  first-drop :
      (n : ℕ) (k : K) (ks : List K)
      → first n (drop_key k (first (suc n) ks)) ≡ first n (drop_key k ks)
  first-drop n k [] = refl
  first-drop zero k (j ∷ ks) = refl
  first-drop (suc n) k (j ∷ ks) = ground (arith, first-drop n k ks, first-first (suc n) ks)
    where
      first-first : (m : ℕ) (ks : List K) → first m (first m ks) ≡ first m ks
      first-first zero ks = refl
      first-first (suc m) [] = refl
      first-first (suc m) (x ∷ xs) = ap (λ ys. x ∷ ys) (first-first m xs)

  drop-first :
      (n : ℕ) (k : K) (ks : List K)
      → contains (first (suc n) ks) k ≡ true
      → drop_key k (first (suc n) ks) ≡ first n (drop_key k ks)
  drop-first n k [] h = ground arith
  drop-first zero k (j ∷ ks) h = ground arith
  drop-first (suc n) k (j ∷ ks) h = ground (arith, drop-first n k ks)

  first-cons :
      (m : ℕ) (k : K) (ks rest : List K)
      → ks ≡ first m rest
      → first m (k ∷ drop_key k ks) ≡ first m (k ∷ drop_key k rest)
  first-cons zero k ks rest same = refl
  first-cons (suc m) k ks rest same =
      subst (λ xs. first (suc m) (k ∷ drop_key k xs) ≡ first (suc m) (k ∷ drop_key k rest))
        (sym same) (ap (λ xs. k ∷ xs) (first-drop m k rest))

  hit-cons :
      (m : ℕ) (k : K) (ks rest : List K)
      → ks ≡ first m rest
      → contains ks k ≡ true
      → k ∷ drop_key k ks ≡ first m (k ∷ drop_key k rest)
  hit-cons zero k ks rest same found = ground (arith, same)
  hit-cons (suc m) k ks rest same found =
      subst (λ xs. k ∷ drop_key k xs ≡ first (suc m) (k ∷ drop_key k rest)) (sym same)
        (ap (λ xs. k ∷ xs) (drop-first m k rest (subst (λ xs. contains xs k ≡ true) same found)))

module _ {K V : Type 0} ⦃e : Equal K⦄ where
  keys-without_key : (k : K) (xs : List (K × V)) → keys (without_key k xs) ≡ drop_key k (keys xs)
  keys-without_key k [] = refl
  keys-without_key k ((j, v) ∷ xs) = ground (arith, keys-without_key k xs)

  keys-trimmed : (n : ℕ) (xs : List (K × V)) → keys (trimmed n xs) ≡ first n (keys xs)
  keys-trimmed zero xs = refl
  keys-trimmed (suc n) [] = refl
  keys-trimmed (suc n) ((j, v) ∷ xs) = ap (λ ks. j ∷ ks) (keys-trimmed n xs)

  get-contains :
      (xs : List (K × V)) (k : K) {v : V} → get xs k ≡ some v → contains (keys xs) k ≡ true
  get-contains [] k h = cc
  get-contains ((j, w) ∷ xs) k {v} h = ground (arith, get-contains xs k {v = v})

  -- What has happened to an open cache of this capacity: the uses of its keys, newest first.
  pub data Uses (n : ℕ) : List K → Cache K V → Type 0 where
    created : {c : Cache K V} → create n ≡ some c → Uses n [] c
    stored :
        {h : List K} {c : Cache K V} (k : K) (v : V) → Uses n h c → Uses n (k ∷ h) (store k v c)
    hit :
        {h : List K} {c c' : Cache K V} (k : K) (v : V)
        → Uses n h c
        → fetch k c ≡ some (some v, c')
        → Uses n (k ∷ h) c'
    missed :
        {h : List K} {c c' : Cache K V} (k : K)
        → Uses n h c
        → fetch k c ≡ some (none, c')
        → Uses n h c'

  module _ (n : ℕ) where
    record Recency (h : List K) (c : Cache K V) : Type 0 where
      bound : c.max_entries ≡ n
      used : keys c.entries ≡ first n (recent h)

    store-Recency :
        {h : List K} {c : Cache K V} (k : K) (v : V) → Recency h c → Recency (k ∷ h) (store k v c)
    unfolding store
    store-Recency {h} {c} k v r = record {
      bound = r.bound;
      used =
          keys-trimmed c.max_entries ((k, v) ∷ without_key k c.entries)
          ∙ subst
              (λ m.
                first m (k ∷ keys (without_key k c.entries)) ≡ first n (k ∷ drop_key k (recent h)))
              (sym r.bound)
              (subst (λ ks. first n (k ∷ ks) ≡ first n (k ∷ drop_key k (recent h)))
                (sym (keys-without_key k c.entries))
                (first-cons n k (keys c.entries) (recent h) r.used));
    }

    abbrev FetchResult : K → List K → Option (Option V × Cache K V) → Type 0
    FetchResult k h none = Unit
    FetchResult k h (some (none, c')) = Recency h c'
    FetchResult k h (some (some v, c')) = Recency (k ∷ h) c'

    fetch-Recency : {h : List K} {c : Cache K V} (k : K) → Recency h c → FetchResult k h (fetch k c)
    unfolding fetch
    fetch-Recency {h} {c} k r = elim (Bool-cases c.closed) [
      | inl closed ↦ rw (closed, fetch) tt
      | inr open_ ↦
          rw (open_, fetch)
            (elim (Option-cases (get c.entries k)) [
              | inl missing ↦ rw missing r
              | inr (v, found) ↦ rw found (record {
                bound = r.bound;
                used =
                    subst (λ ks. k ∷ ks ≡ first n (k ∷ drop_key k (recent h)))
                      (sym (keys-without_key k c.entries))
                      (hit-cons n k (keys c.entries) (recent h) r.used
                        (get-contains c.entries k found));
              })
            ])
    ]

    abbrev CreateResult : Option (Cache K V) → Type 0
    CreateResult none = Unit
    CreateResult (some c) = Recency [] c

    create-Recency : {c : Cache K V} → create n ≡ some c → Recency [] c
    unfolding create
    create-Recency p = elim (Bool-cases (not (leb 1 n) || ltb 256 n)) [
      | inl outside ↦ ground (arith, outside)
      | inr inside ↦
          subst CreateResult p (rw (inside, create) (record { bound = refl; used = none_first n }))
    ]
      where
        none_first : (m : ℕ) → ◌≡◌ {A = List K} [] (first m [])
        none_first zero = refl
        none_first (suc m) = refl

    Uses-Recency : {h : List K} {c : Cache K V} → Uses n h c → Recency h c
    Uses-Recency (created p) = create-Recency p
    Uses-Recency (stored k v before) = store-Recency k v (Uses-Recency before)
    Uses-Recency (hit {h = h} k v before p) =
        subst (FetchResult k h) p (fetch-Recency k (Uses-Recency before))
    Uses-Recency (missed {h = h} k before p) =
        subst (FetchResult k h) p (fetch-Recency k (Uses-Recency before))

  -- After any sequence of stores, hits and misses, a new cache holds the keys used most recently, as
  -- many as its capacity, newest first: it drops the least recently used.
  pub Uses-recent :
      (n : ℕ) {h : List K} {c : Cache K V} → Uses n h c → keys c.entries ≡ first n (recent h)
  Uses-recent n before = (Uses-Recency n before).used
