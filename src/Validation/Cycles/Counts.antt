-- ===== src/Validation/Cycles/Counts.antt =====
-- The counts of incoming edges.
use jarvis_development.Prelude.{
  ℕ, suc, ◌+◌, ◌≤◌, true, false, List, [], ◌∷◌, ◌++◌, ◌≡◌, refl, arith, String, string_eq, nat_eq,
  ◌==◌, Dict, get_or, put, keys, max, contains, if◌then◌else◌,
}
use jarvis_development.Contracts.Workflow.{WorkflowEdge}
use jarvis_development.Graph.{Adjacency, add_edge, adjacency_from, adjacency_of, targets}
use jarvis_development.Validation.Cycles.{count_targets, indegree_from, indegrees}

-- How often a name stands in a list.
abbrev pub occ : String → List String → ℕ
occ x [] = 0
occ x (y ∷ ys) = let rest = occ x ys in if y == x then suc rest else rest

pub occ-append : (x : String) (ys zs : List String) → occ x (ys ++ zs) ≡ occ x ys + occ x zs
occ-append x [] zs = omega arith
occ-append x (y ∷ ys) zs = ground (arith, occ-append x ys zs)

pub occ-contains : (x : String) (ys : List String) → contains ys x ≡ false → occ x ys ≡ 0
occ-contains x [] h = refl
occ-contains x (y ∷ ys) h = ground (arith, occ-contains x ys)

pub contains-occ : (x : String) (ys : List String) → contains ys x ≡ true → 1 ≤ occ x ys
contains-occ x [] h = ground arith
contains-occ x (y ∷ ys) h = ground (arith, contains-occ x ys)

-- The edges into `t` from sources that are not in `seen`.
abbrev pub incoming : List String → Adjacency → String → ℕ
incoming seen [] t = 0
incoming seen ((s, ts) ∷ rest) t =
    let others = incoming seen rest t in if contains seen s then others else occ t ts + others

pub get_put :
    (d : Dict String ℕ) (k x : String) (v : ℕ)
    → get_or (put d k v) x 0 ≡ (if k == x then v else get_or d x 0)
get_put [] k x v = refl
get_put ((j, w) ∷ d) k x v =
    ground (
      arith,
      get_put d k x v,
      string_eq.same_iff j k,
      string_eq.same_iff k x,
      string_eq.same_iff j x,
    )

count_targets-get :
    (counts : Dict String ℕ) (ts : List String) (x : String)
    → get_or (count_targets counts ts) x 0 ≡ get_or counts x 0 + occ x ts
count_targets-get counts [] x = omega arith
count_targets-get counts (t ∷ ts) x = ground (
  arith,
  count_targets-get (put counts t (get_or counts t 0 + 1)) ts x,
  get_put counts t x (get_or counts t 0 + 1),
  string_eq.same_iff t x,
)

indegree_from-get :
    (counts : Dict String ℕ) (adjacency : Adjacency) (x : String)
    → get_or (indegree_from counts adjacency) x 0 ≡ get_or counts x 0 + incoming [] adjacency x
indegree_from-get counts [] x = omega arith
indegree_from-get counts ((s, ts) ∷ rest) x =
    omega (arith, indegree_from-get (count_targets counts ts) rest x, count_targets-get counts ts x)

-- The counts at the start are those of all edges.
pub indegrees-get :
    (adjacency : Adjacency) (x : String)
    → get_or (indegrees adjacency) x 0 ≡ incoming [] adjacency x
unfolding indegrees
indegrees-get adjacency x = omega (arith, indegree_from-get [] adjacency x)

-- The keys of an adjacency are distinct.
abbrev pub KeysDistinct : Adjacency → Type 0
KeysDistinct adjacency = (x : String) → occ x (keys adjacency) ≤ 1

occ-keys-put :
    (d : Adjacency) (k x : String) (v : List String)
    → occ x (keys (put d k v)) ≡ max (occ x (keys d)) (if k == x then 1 else 0)
occ-keys-put [] k x v = ground arith
occ-keys-put ((j, w) ∷ d) k x v = ground (
  arith,
  occ-keys-put d k x v,
  string_eq.same_iff j k,
  string_eq.same_iff k x,
  string_eq.same_iff j x,
)

adjacency_from-KeysDistinct :
    (result : Adjacency) (edges : List WorkflowEdge)
    → KeysDistinct result
    → KeysDistinct (adjacency_from result edges)
unfolding adjacency_from
adjacency_from-KeysDistinct result [] h = h
adjacency_from-KeysDistinct result (e ∷ es) h =
    adjacency_from-KeysDistinct (add_edge result e.source e.target) es (λ x.
      ground
        (arith, h x, occ-keys-put result e.source x (get_or result e.source [] ++ e.target ∷ [])))

pub adjacency_of-KeysDistinct : (edges : List WorkflowEdge) → KeysDistinct (adjacency_of edges)
unfolding adjacency_of
adjacency_of-KeysDistinct edges = adjacency_from-KeysDistinct [] edges (λ x. omega arith)

incoming-absent :
    (adjacency : Adjacency) (seen : List String) (n t : String)
    → occ n (keys adjacency) ≡ 0
    → incoming (n ∷ seen) adjacency t ≡ incoming seen adjacency t
incoming-absent [] seen n t h = refl
incoming-absent ((s, ts) ∷ rest) seen n t h =
    ground (arith, incoming-absent rest seen n t, string_eq.same_iff n s, string_eq.same_iff s n)

targets-absent :
    (adjacency : Adjacency) (n : String) → occ n (keys adjacency) ≡ 0 → targets adjacency n ≡ []
targets-absent [] n h = refl
targets-absent ((s, ts) ∷ rest) n h = ground (arith, targets-absent rest n)

-- Visiting a node takes its own edges off the counts.
pub incoming-visit :
    (adjacency : Adjacency) (seen : List String) (n t : String)
    → occ n (keys adjacency) ≤ 1
    → contains seen n ≡ false
    → incoming (n ∷ seen) adjacency t + occ t (targets adjacency n) ≡ incoming seen adjacency t
incoming-visit [] seen n t h new = refl
incoming-visit ((s, ts) ∷ rest) seen n t h new = ground (
  arith,
  incoming-visit rest seen n t,
  incoming-absent rest seen n t,
  string_eq.same_iff n s,
  string_eq.same_iff s n,
)

-- An edge into a node that has no edge from outside `seen` comes from `seen`.
pub incoming-none :
    (adjacency : Adjacency) (seen : List String) (x t : String)
    → incoming seen adjacency t ≡ 0
    → contains (targets adjacency x) t ≡ true
    → contains seen x ≡ true
incoming-none [] seen x t h e = ground arith
incoming-none ((s, ts) ∷ rest) seen x t h e =
    ground (arith, incoming-none rest seen x t, contains-occ t ts, string_eq.same_iff s x)
