-- ===== src/Validation/FanoutIssues/Disjoint.antt =====
-- The regions of a fanout about which `_fanout_issues` reports nothing.
use jarvis_development.Prelude.{
  Bool, true, false, not, ◌||◌, none, some, List, [], ◌∷◌, ◌++◌, ◌≡◌, refl, arith, String,
  string_eq, append-eq_nil, Bool-cases, Option-cases, inl, inr, if◌then◌else◌, subst, sym, ◌∙◌, All,
}
use jarvis_development.Contracts.Workflow.{WorkflowNode, WorkflowSpec, node_at}
use jarvis_development.Validation.Issue.{Issue, node_issue, fanout_overlap, fanout_child}
use jarvis_development.Validation.Protected.{set_union, report_unless}
use jarvis_development.Validation.Protected.Grants.{contains-set_union}
use jarvis_development.Validation.FanoutIssues.{
  Regions, intersects, is_fanout, is_entry, branch_issues, branches_issues, own_fanout_issues,
  fanouts_issues, fanout_issues, regions_of, join_entry_issues,
}

-- The regions have no node in common.
abbrev pub IsDisjoint : Regions → Type 0
IsDisjoint [] = Unit
IsDisjoint ((child, region) ∷ rest) =
    All (λ entry. intersects entry.1 region ≡ false) rest × IsDisjoint rest

intersects-union :
    (xs a b : List String) → intersects xs (set_union a b) ≡ (intersects xs a || intersects xs b)
intersects-union [] a b = refl
intersects-union (x ∷ xs) a b = ground (arith, intersects-union xs a b, contains-set_union a b x)

apart :
    (owned region : List String) (regions : Regions)
    → All (λ entry. intersects entry.1 (set_union owned region) ≡ false) regions
    → All (λ entry. intersects entry.1 owned ≡ false) regions
      × All (λ entry. intersects entry.1 region ≡ false) regions
apart owned region [] h = (tt, tt)
apart owned region ((child, r) ∷ rest) (h, hs) =
    let (outside, inside) = apart owned region rest hs in
    let (a, b) =
      split (intersects r owned) (intersects r region)
        (sym (intersects-union r owned region) ∙ h) in
    ((a, outside), (b, inside))
  where
    split : (a b : Bool) → (a || b) ≡ false → (a ≡ false) × (b ≡ false)
    split false b k = (refl, k)
    split true b k = ground arith

first_of :
    (b : Bool) (p q : List Issue × List String) → b ≡ true → (if b then p else q).0 ≡ [] → p.0 ≡ []
first_of true p q e h = h
first_of false p q e h = ground arith

second_of :
    (b : Bool) (p q : List Issue × List String) → b ≡ false → (if b then p else q).0 ≡ [] → q.0 ≡ []
second_of true p q e h = ground arith
second_of false p q e h = h

module _ (spec : WorkflowSpec) (all_owned : List String) (n : WorkflowNode) where
  branch_issues-apart :
      (owned : List String) (child : String) (region : List String)
      → branch_issues spec all_owned owned n child region ≡ []
      → intersects region owned ≡ false
  unfolding branch_issues
  branch_issues-apart owned child region h =
      by_overlap (append-eq_nil _ _ (append-eq_nil _ _ (append-eq_nil _ _ h).0).0).0
    where
      by_overlap :
          report_unless
              (not (intersects region owned || intersects region all_owned))
              (node_issue fanout_overlap n.id)
            ≡ []
          → intersects region owned ≡ false
      by_overlap k = ground (arith, k)

  branches_issues-apart :
      (owned : List String) (regions : Regions)
      → (branches_issues spec all_owned n owned regions).0 ≡ []
      → All (λ entry. intersects entry.1 owned ≡ false) regions × IsDisjoint regions
  unfolding branches_issues
  branches_issues-apart owned [] h = (tt, tt)
  branches_issues-apart owned ((child, region) ∷ rest) h =
      elim (Bool-cases (is_entry spec n child)) [
        | inr skipped ↦ ground (arith, skipped)
        | inl entry ↦
            let (own, others) = append-eq_nil _ _ (taken entry) in
            let (outside, disjoint) = branches_issues-apart (set_union owned region) rest others in
            let (a, b) = apart owned region rest outside in
            ((branch_issues-apart owned child region own, a), (b, disjoint))
      ]
    where
      taken :
          is_entry spec n child ≡ true
          → branch_issues spec all_owned owned n child region
              ++ (branches_issues spec all_owned n (set_union owned region) rest).0
            ≡ []
      taken entry =
          first_of (is_entry spec n child)
            (
              branch_issues spec all_owned owned n child region
                  ++ (branches_issues spec all_owned n (set_union owned region) rest).0,
              (branches_issues spec all_owned n (set_union owned region) rest).1,
            )
            (
              node_issue fanout_child n.id ∷ (branches_issues spec all_owned n owned rest).0,
              (branches_issues spec all_owned n owned rest).1,
            )
            entry h

-- The branches of a fanout node were checked, against the nodes of the fanouts before it.
Checked : WorkflowSpec → WorkflowNode → Type 0
Checked spec n =
    (all_owned : List String) × ((branches_issues spec all_owned n [] (regions_of spec n)).0 ≡ [])

fanouts_issues-node :
    (spec : WorkflowSpec) (claimed all_owned : List String) (ns : List WorkflowNode) (id : String)
    {n : WorkflowNode}
    → (fanouts_issues spec claimed all_owned ns).0 ≡ []
    → node_at ns id ≡ some n
    → is_fanout n.type ≡ true
    → Checked spec n
unfolding fanouts_issues Checked
fanouts_issues-node spec claimed all_owned [] id h e fan = cc
fanouts_issues-node spec claimed all_owned (x ∷ xs) id {n} h e fan =
    elim (Bool-cases (is_fanout x.type)) [
      | inr plain ↦ elim (Option-cases (node_at xs id)) [
        | inl missing ↦ ground (arith, missing, plain)
        | inr (m, later) ↦
            fanouts_issues-node spec claimed all_owned xs id
              (second_of (is_fanout x.type) taken (fanouts_issues spec claimed all_owned xs) plain
                h)
              (later ∙ newest m later) fan
      ]
      | inl parallel ↦
          let silent =
            first_of (is_fanout x.type) taken (fanouts_issues spec claimed all_owned xs) parallel
              h in
          let (front, after) = append-eq_nil (own ++ branches.0 ++ joins) others.0 silent in
          elim (Option-cases (node_at xs id)) [
            | inr (m, later) ↦
                fanouts_issues-node spec (x.config.join_id ∷ claimed)
                  (set_union all_owned branches.1) xs id after (later ∙ newest m later) fan
            | inl missing ↦ subst (Checked spec) (only missing) (
              all_owned,
              (append-eq_nil own branches.0 (append-eq_nil (own ++ branches.0) joins front).0).1,
            )
          ]
    ]
  where
    branches : List Issue × List String
    branches = branches_issues spec all_owned x [] (regions_of spec x)

    own : List Issue
    own = own_fanout_issues spec claimed x

    joins : List Issue
    joins = join_entry_issues x.config.join_id branches.1 spec.edges

    others : List Issue × List String
    others = fanouts_issues spec (x.config.join_id ∷ claimed) (set_union all_owned branches.1) xs

    taken : List Issue × List String
    taken = (own ++ branches.0 ++ joins ++ others.0, others.1)

    newest : (m : WorkflowNode) → node_at xs id ≡ some m → some m ≡ some n
    newest m later = ground (arith, later, e)

    only : node_at xs id ≡ none → x ≡ n
    only missing = ground (arith, missing, e)

-- If `_fanout_issues` reports nothing, the regions of the branches of a fanout have no node in
-- common.
pub fanout_issues-IsDisjoint :
    (spec : WorkflowSpec) (id : String) {n : WorkflowNode}
    → fanout_issues spec ≡ []
    → node_at spec.nodes id ≡ some n
    → is_fanout n.type ≡ true
    → IsDisjoint (regions_of spec n)
unfolding fanout_issues Checked
fanout_issues-IsDisjoint spec id {n} h found fan =
    let (all_owned, silent) =
      fanouts_issues-node spec [] [] spec.nodes id (append-eq_nil _ _ h).0 found fan in
    (branches_issues-apart spec all_owned n [] (regions_of spec n) silent).1
