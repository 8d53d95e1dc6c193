-- ===== src/Validation/Cycles/Order.antt =====
-- The nodes that `_acyclic_nodes` visits are in topological order, so none of them is on a cycle.
use jarvis_development.Prelude.{
  ℕ, zero, suc, ◌+◌, ◌-◌, ◌≤◌, true, false, List, [], ◌∷◌, ◌++◌, ◌≡◌, refl, arith, String,
  string_eq, nat_eq, ◌==◌, ==-refl, Dict, get_or, max, contains, if◌then◌else◌, inl, inr,
  Bool-cases, contains-cons, subst, sym, min, ap,
}
use jarvis_development.Contracts.Workflow.{WorkflowEdge, distinct}
use jarvis_development.Graph.{Adjacency, adjacency_of, targets}
use jarvis_development.Validation.Cycles.{
  Kahn, indegrees, roots, relax_one, relax, kahn_walk, kahn_start, kahn_fuel, acyclic_nodes,
}
use jarvis_development.Validation.Cycles.Counts.{
  occ, occ-append, occ-contains, contains-occ, incoming, get_put, indegrees-get, KeysDistinct,
  adjacency_of-KeysDistinct, incoming-visit, incoming-none,
}

-- One or more edges lead from the first node to the second.
pub data Leads (adjacency : Adjacency) : String → String → Type 0 where
  edge : {x y : String} → contains (targets adjacency x) y ≡ true → Leads adjacency x y
  more :
      {x y z : String}
      → contains (targets adjacency x) y ≡ true
      → Leads adjacency y z
      → Leads adjacency x z

-- All edges into a visited node come from nodes visited before it.
abbrev IsTopological : Adjacency → List String → Type 0
IsTopological adjacency [] = Unit
IsTopological adjacency (n ∷ ns) = (incoming ns adjacency n ≡ 0) × IsTopological adjacency ns

module _ (adjacency : Adjacency) where
  source-visited :
      (L : List String) (x y : String)
      → IsTopological adjacency L
      → contains L y ≡ true
      → contains (targets adjacency x) y ≡ true
      → contains L x ≡ true
  source-visited [] x y h e into = ground arith
  source-visited (n ∷ ns) x y h e into =
      ground
        (arith, source-visited ns x y h.1, incoming-none adjacency ns x y, string_eq.same_iff n y)

  -- What leads to the newest node was visited before.
  leads-before :
      (n : String) (ns : List String) {x : String}
      → IsTopological adjacency (n ∷ ns)
      → Leads adjacency x n
      → contains ns x ≡ true
  leads-before n ns {x} h (edge e) = incoming-none adjacency ns x n h.0 e
  leads-before n ns {x} h (more {y = y} e rest) =
      source-visited ns x y h.1 (leads-before n ns h rest) e

  no_cycle :
      (L : List String) (y : String)
      → IsTopological adjacency L
      → contains L y ≡ true
      → Leads adjacency y y
      → ⊥
  no_cycle [] y h e cycle = ground arith
  no_cycle (n ∷ ns) y h e cycle = elim (Bool-cases (contains ns y)) [
    | inl before ↦ no_cycle ns y h.1 before cycle
    | inr newest ↦ elim (contains-cons n y ns e) [
      | inr before ↦ no_cycle ns y h.1 before cycle
      | inl same ↦
          no_cycle ns y h.1
            (leads-before n ns h (subst (λ z. Leads adjacency y z) (sym same) cycle)) cycle
    ]
  ]

abbrev names : List (String × ℕ) → List String
names [] = []
names ((n, level) ∷ rest) = n ∷ names rest

names-append : (xs ys : List (String × ℕ)) → names (xs ++ ys) ≡ names xs ++ names ys
names-append [] ys = refl
names-append ((n, level) ∷ xs) ys = ap (λ zs. n ∷ zs) (names-append xs ys)

module _ (adjacency : Adjacency) (distinct_keys : KeysDistinct adjacency) where
  -- The loop's invariant, in the inner loop with targets still to relax: the counts are those of
  -- the edges from nodes that are not visited, every node is pending or visited at most once and
  -- has then no count, and the visited nodes are in topological order.
  record Invariant (w : Kahn) (left : List String) : Type 0 where
    counts : (x : String) → get_or w.indegree x 0 ≡ incoming w.visited adjacency x + occ x left
    once :
        (x : String)
        → (occ x (names w.pending) + occ x w.visited) + min 1 (get_or w.indegree x 0) ≤ 1
    order : IsTopological adjacency w.visited

  relax_one-Invariant :
      (level : ℕ) (t : String) (ts : List String) (w : Kahn)
      → Invariant w (t ∷ ts)
      → Invariant (relax_one level t w) ts
  unfolding relax_one
  relax_one-Invariant level t ts w i = record {
    counts = λ x. ground (
      arith,
      i.counts x,
      get_put w.indegree t x (get_or w.indegree t 0 - 1),
      string_eq.same_iff t x,
    );
    once = λ x. once_after x;
    order = i.order;
  }
    where
      distance : ℕ
      distance = max (get_or w.distances t 1) (level + 1)

      once_after :
          (x : String)
          → (occ x (names (relax_one level t w).pending) + occ x w.visited)
              + min 1 (get_or (relax_one level t w).indegree x 0)
            ≤ 1
      once_after x = ground (
        arith,
        i.once x,
        i.counts t,
        get_put w.indegree t x (get_or w.indegree t 0 - 1),
        string_eq.same_iff t x,
        names-append w.pending ((t, distance) ∷ []),
        occ-append x (names w.pending) (t ∷ []),
      )

  relax-Invariant :
      (level : ℕ) (ts : List String) (w : Kahn) → Invariant w ts → Invariant (relax level ts w) []
  unfolding relax
  relax-Invariant level [] w i = i
  relax-Invariant level (t ∷ ts) w i =
      relax-Invariant level ts (relax_one level t w) (relax_one-Invariant level t ts w i)

  visit-Invariant :
      (n : String) (level : ℕ) (rest : List (String × ℕ)) (w : Kahn)
      → w.pending ≡ (n, level) ∷ rest
      → Invariant w []
      → Invariant
          (record w { pending = rest; visited = n ∷ w.visited; depth = max w.depth level })
          (targets adjacency n)
  visit-Invariant n level rest w p i = record {
    counts = λ x.
        omega
          (arith, i.counts x, incoming-visit adjacency w.visited n x (distinct_keys n) unvisited);
    once = λ x. ground (arith, once_before x);
    order = (omega (arith, i.counts n, once_before n, occ-head), i.order);
  }
    where
      once_before :
          (x : String)
          → (occ x (n ∷ names rest) + occ x w.visited) + min 1 (get_or w.indegree x 0) ≤ 1
      once_before x =
          subst (λ q. (occ x (names q) + occ x w.visited) + min 1 (get_or w.indegree x 0) ≤ 1) p
            (i.once x)

      occ-head : 1 ≤ occ n (n ∷ names rest)
      occ-head = ground (arith, ==-refl n)

      unvisited : contains w.visited n ≡ false
      unvisited = ground (arith, once_before n, contains-occ n w.visited, ==-refl n)

  kahn_walk-Invariant :
      (fuel : ℕ) (w : Kahn) → Invariant w [] → Invariant (kahn_walk adjacency fuel w) []
  unfolding kahn_walk
  kahn_walk-Invariant zero w i = i
  kahn_walk-Invariant (suc fuel) w i =
      by_pending (λ v j. kahn_walk-Invariant fuel v j) w.pending refl
    where
      by_pending :
          ((v : Kahn) → Invariant v [] → Invariant (kahn_walk adjacency fuel v) [])
          → (q : List (String × ℕ)) → w.pending ≡ q
          → Invariant
              (elim q [
                | [] ↦ w
                | (node, level) ∷ rest ↦ kahn_walk adjacency fuel (
                    relax level (targets adjacency node) (record w {
                      pending = rest;
                      visited = node ∷ w.visited;
                      depth = max w.depth level;
                    }))
              ])
              []
      by_pending again [] p = i
      by_pending again ((node, level) ∷ rest) p =
          again _ (
            relax-Invariant level (targets adjacency node) _
              (visit-Invariant node level rest w p i))

  occ-roots :
      (indegree : Dict String ℕ) (nodes : List String) (x : String)
      → occ x (names (roots indegree nodes)) ≡ (if get_or indegree x 0 == 0 then occ x nodes else 0)
  occ-roots indegree [] x = ground arith
  occ-roots indegree (n ∷ ns) x = ground (arith, occ-roots indegree ns x, string_eq.same_iff n x)

  kahn_start-Invariant :
      (nodes : List String)
      → ((x : String) → occ x nodes ≤ 1)
      → Invariant (kahn_start adjacency nodes) []
  unfolding kahn_start
  kahn_start-Invariant nodes once = record {
    counts = λ x. omega (arith, indegrees-get adjacency x);
    once = λ x. ground (arith, once x, occ-roots (indegrees adjacency) nodes x);
    order = tt;
  }

distinct-occ : (xs : List String) (x : String) → distinct xs ≡ true → occ x xs ≤ 1
distinct-occ [] x h = omega arith
distinct-occ (y ∷ ys) x h =
    ground (arith, distinct-occ ys x, occ-contains x ys, string_eq.same_iff y x)

-- No node that `_acyclic_nodes` returns leads back to itself, if the names of the nodes are
-- distinct.
pub acyclic_nodes-acyclic :
    (nodes : List String) (edges : List WorkflowEdge) (n : String)
    → distinct nodes ≡ true
    → contains (acyclic_nodes nodes edges).visited n ≡ true
    → ¬ Leads (adjacency_of edges) n n
unfolding acyclic_nodes
acyclic_nodes-acyclic nodes edges n once visited cycle =
    let adjacency = adjacency_of edges in
    let distinct_keys = adjacency_of-KeysDistinct edges in
    let i =
      kahn_walk-Invariant adjacency distinct_keys (kahn_fuel adjacency nodes)
        (kahn_start adjacency nodes)
        (kahn_start-Invariant adjacency distinct_keys nodes (λ x. distinct-occ nodes x once)) in
    no_cycle adjacency (acyclic_nodes nodes edges).visited n i.order visited cycle
