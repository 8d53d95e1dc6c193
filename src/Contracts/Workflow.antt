-- ===== src/Contracts/Workflow.antt =====
-- packages/contracts/src/jarvis_contracts/workflow.py and workflow_nodes.py: the declarative
-- workflow specification. Revision ids are UUIDs, which are only compared; they are numbers here.
use jarvis_development.Prelude.{
  ℕ, Bool, true, false, Option, none, some, List, [], ◌∷◌, ◌&&◌, not, if◌then◌else◌, String, Equal,
  ◌==◌, string_eq, contains, is_some,
}
use jarvis_development.Contracts.Failures.{FailureClass}
use jarvis_development.Contracts.Json.{Json, ℤ}

pub data WorkflowNodeType : Type 0 where
  organizer architect task_dispatch worker verify reviewer integrate : WorkflowNodeType
  router fanout join approval github_publish finalize : WorkflowNodeType

pub data WorkflowEdgeKind : Type 0 where
  always on_result retry iterate on_failure : WorkflowEdgeKind

pub data PredicateOperator : Type 0 where
  eq neq in_list exists lt lte gt gte and_all or_any not_one : PredicateOperator

-- `Predicate`: its operator, path, value (null where absent) and arguments.
mutual
  pub data Predicate : Type 0 where
    predicate : PredicateOperator → Option String → Json → Arguments → Predicate

  pub data Arguments : Type 0 where
    nil : Arguments
    cons : Predicate → Arguments → Arguments

pub data ActionType : Type 0 where
  github_push_and_pr git_integrate worker_execute : ActionType

pub record ApprovalPolicy : Type 0 where
  pub required_grant_from : Option String
  pub action_type : Option ActionType

-- Without the acceptance checks, which only the runtime reads.
pub record VerificationPolicy : Type 0 where
  pub required : Bool
  pub profile_revision_ids : List ℕ

pub record WorkerSelector : Type 0 where
  pub revision_id : ℕ
  pub requires : List String

-- A field that is `none` was not set, `accepts_instructions` included.
pub record NodePolicy : Type 0 where
  pub worker_selector : Option WorkerSelector
  pub model_route_ref : Option ℕ
  pub retry_policy_ref : Option ℕ
  pub permission_policy_ref : Option ℕ
  pub verification : Option VerificationPolicy
  pub approval_policy : Option ApprovalPolicy
  pub timeout_seconds : Option ℕ
  pub max_concurrency : Option ℕ
  pub accepts_instructions : Option Bool

pub data Outcome : Type 0 where
  derive failed blocked cancelled : Outcome

-- The fields of the node configurations that the validator and the compiler read; a node reads
-- those of its own type.
pub record NodeConfig : Type 0 where
  pub max_tasks : ℕ
  pub children : List String
  pub join_id : String
  pub max_fanout : ℕ
  pub fanout_id : String
  pub granted_action : ActionType
  pub outcome : Outcome

pub record WorkflowNode : Type 0 where
  pub id : String
  pub type : WorkflowNodeType
  pub config : NodeConfig
  pub policy : NodePolicy

pub record WorkflowEdge : Type 0 where
  pub id : String
  pub source : String
  pub target : String
  pub kind : WorkflowEdgeKind
  pub when : Option Predicate
  pub priority : ℤ
  pub fallback : Bool
  pub retry_class : Option FailureClass
  pub iteration_key : Option String
  pub progress_path : Option String
  pub max_iterations : Option ℕ

pub record WorkflowSpec : Type 0 where
  pub entrypoint : String
  pub defaults : NodePolicy
  pub nodes : List WorkflowNode
  pub edges : List WorkflowEdge

abbrev pub node_ids : List WorkflowNode → List String
node_ids [] = []
node_ids (n ∷ ns) = n.id ∷ node_ids ns

-- `len(xs) == len(set(xs))`
abbrev pub distinct {ℓ} : {A : Type ℓ} ⦃e : Equal A⦄ → List A → Bool
distinct [] = true
distinct (x ∷ xs) = not (contains xs x) && distinct xs

unfoldable pub edges_known : List String → List WorkflowEdge → Bool
edges_known ids [] = true
edges_known ids (e ∷ es) = contains ids e.source && contains ids e.target && edges_known ids es

abbrev edge_ids : List WorkflowEdge → List String
edge_ids [] = []
edge_ids (e ∷ es) = e.id ∷ edge_ids es

-- `WorkflowSpec.validate_references` returns, and does not raise.
unfoldable pub validate_references : WorkflowSpec → Bool
unfolding edges_known
validate_references s =
    distinct (node_ids s.nodes)
    && (distinct (edge_ids s.edges)
        && (contains (node_ids s.nodes) s.entrypoint && edges_known (node_ids s.nodes) s.edges))

-- `{node.id: node for node in nodes}.get(id)`: a later node wins.
abbrev pub node_at : List WorkflowNode → String → Option WorkflowNode
node_at [] id = none
node_at (n ∷ ns) id = elim (node_at ns id) [
  | some m ↦ some m
  | none ↦ if n.id == id then some n else none
]

-- `WorkflowEdge.validate_kind_fields` returns, and does not raise.
abbrev pub filled : Option String → Bool
filled none = false
filled (some text) = not (text == "")

abbrev pub validate_kind_fields : WorkflowEdge → Bool
validate_kind_fields e = elim e.kind [
  | always ↦ not (is_some e.when)
  | retry ↦ is_some e.retry_class
  | iterate ↦ filled e.iteration_key && (filled e.progress_path && is_some e.max_iterations)
  | _ ↦ true
]
