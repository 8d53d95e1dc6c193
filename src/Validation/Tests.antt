-- ===== src/Validation/Tests.antt =====
-- Tests of the validator's checks, and its theorems at concrete workflows.
use jarvis_development.Prelude.{
  true, some, List, [], ◌∷◌, ◌≡◌, refl, String, string_eq, contains, ◌↔◌,
}
use jarvis_development.Contracts.Workflow.{WorkflowNode, github_publish, validate_references}
use jarvis_development.Graph.{adjacency_of, adjacency_from, targets, reachable}
use jarvis_development.Worklist.{walk, round, start}
use jarvis_development.Worklist.Termination.{budget}
use jarvis_development.Worklist.Reach.{Reaches}
use jarvis_development.Validation.Sample.{sample, shortcut, node, publish_policy}
use jarvis_development.Validation.Issue.{
  node_issue, security_verification_bypass, security_review_bypass,
}
use jarvis_development.Validation.Policy.{effective_policy}
use jarvis_development.Validation.Protected.{path_walk, protected_paths, approval_issues, grant_of}
use jarvis_development.Validation.Protected.States.{all_states}
use jarvis_development.Validation.Protected.Trails.{Trail, begin, extend}
use jarvis_development.Validation.Protected.Paths.{IsSafe, path_walk-silent_iff}
use jarvis_development.Validation.Protected.Grants.{granted, granted_of_silent}
use jarvis_development.Graph.Laws.{reachable_iff}
use jarvis_development.Prelude.{option_is}

sample-protected_paths : protected_paths sample ≡ []
unfolding protected_paths all_states effective_policy walk round start budget reachable adjacency_of
    adjacency_from
sample-protected_paths = refl

shortcut-protected_paths :
    protected_paths shortcut
    ≡ node_issue security_verification_bypass "p"
      ∷ node_issue security_review_bypass "p"
      ∷ node_issue security_verification_bypass "end"
      ∷ []
unfolding protected_paths all_states effective_policy walk round start budget reachable adjacency_of
    adjacency_from
shortcut-protected_paths = refl

abbrev before_publication : List String
before_publication = "ok" ∷ "r" ∷ "v" ∷ "w" ∷ []

to_publication : Trail sample "p" before_publication
to_publication = extend (extend (extend (extend (begin refl) refl) refl) refl) refl

path_walk-silent_iff_example :
    ((path_walk sample).out ≡ [])
    ↔ ((v : String) (before : List String) → Trail sample v before → IsSafe sample v before)
path_walk-silent_iff_example = path_walk-silent_iff sample

abbrev publication : WorkflowNode
publication = record (node "p" github_publish) { policy = publish_policy }

sample-approvals : approval_issues sample sample.nodes ≡ []
unfolding approval_issues all_states effective_policy walk round start budget reachable adjacency_of
    adjacency_from
sample-approvals = refl

sample-grant : grant_of sample publication ≡ some "ok"
unfolding grant_of effective_policy
sample-grant = refl

granted_of_silent_example : granted sample "ok" "p" before_publication ≡ true
granted_of_silent_example =
    granted_of_silent sample "ok" "p" publication before_publication sample-approvals refl
      sample-grant refl to_publication

sample-references : validate_references sample ≡ true
unfolding validate_references
sample-references = refl

reachable_iff_example :
    (contains (reachable (adjacency_of sample.edges) (some "r") "w") "p" ≡ true)
    ↔ Reaches (option_is (some "r")) (targets (adjacency_of sample.edges)) "w" "p"
reachable_iff_example = reachable_iff (adjacency_of sample.edges) (some "r") "w" "p"
