-- ===== src/Lib.antt =====
-- Jarvis Mission Control: the checks a workflow passes before it is published, the routing of a
-- published workflow, and the queue of runs that executors share.
--
-- Programs and files, with paths from the repository's root:
-- - packages/contracts/src/jarvis_contracts: `Contracts`. `workflow.py` and `workflow_nodes.py`
--   are `Contracts.Workflow`, `enums.py` and `failures.py` are `Contracts.Failures`, and JSON
--   values with Python's equality are `Contracts.Json`.
-- - orchestrator/app/jarvis_orchestrator/workflows/validation.py: `Graph` holds `_adjacency` and
--   `_reachable`, `Validation.Policy` holds `effective_policy`, `Validation.Expression` holds
--   `_predicate_issues`, `Validation.Cycles` holds `_acyclic_nodes`, `Validation.GraphIssues` holds
--   `_graph_issues`, `Validation.FanoutIssues` holds `fanout_regions` and `_fanout_issues`, and
--   `Validation.Protected` holds `_protected_paths`; their proofs stand in their children.
--   `Worklist` is the depth-first loop over a stack of pending entries and a set of handled ones,
--   which these functions share.
-- - orchestrator/app/jarvis_orchestrator/workflows/predicates.py: `Predicates`. The compiler calls
--   it to choose an edge.
-- - orchestrator/app/jarvis_orchestrator/workflows/compiler.py: `Routing` holds `_choose_route`,
--   with the counters of retries and iterations, and `Routing.Dispatch` the edges it is given;
--   `Routing.MaxMap` is `max_map` of workflows/state.py, which merges the counters of parallel
--   branches, and `Routing.Merging` is `merge_by_id`, which merges their results.
--   `CompileCache` is the cache of compiled workflows.
-- - orchestrator/app/jarvis_orchestrator/runtime: `Runtime`. `Runtime.Commands` is commands.py, the
--   operator's commands to runs; `Runtime.Ownership` is ownership.py, the leases of runs, with
--   `LeaseRepository` of packages/persistence/src/jarvis_persistence/repositories.py;
--   `Runtime.Store` holds the rows of models.py beside it. `Runtime.Effects` is effects.py, the
--   protocol of external effects: its transactions, and in `Runtime.Effects.Protocol` what happens
--   between them and the steps of concurrent executors. `Runtime.Approvals` is approvals.py, with
--   the endpoint of api/app/jarvis_api/approvals.py: `Runtime.Approvals.Requests` has what an
--   executor does, `Runtime.Approvals.Decisions` the decision and the expiry, and
--   `Runtime.Approvals.Steps` any order of them. The event log is kept as a list.
-- - orchestrator/app/jarvis_orchestrator/workers/leases.py: `Workers.Slots`, under the fence of
--   `Runtime.Ownership`, with its rows in `Workers.Rows`.
-- - packages/contracts/src/jarvis_contracts/registry.py: `Contracts.Registry`, the registry rows.
-- - api/app/jarvis_api/routing/policies.py: `Permissions` is `evaluate_permission`, `Spend` is
--   `calculate_cost` and `evaluate_spend`, and `RouteChoice` is `resolve_route`, whose loop over the
--   candidates is `RouteChoice.Candidates`.
-- - orchestrator/app/jarvis_orchestrator/providers: `Budget` is budget.py, with team_resources.py;
--   `Budget.Rows` holds its tables. `ModelCalls` is runtime.py, which asks `Budget` for a grant
--   before a provider is called; `Spend` decides.
-- - api/app/jarvis_api/auth: `Auth` is the sessions of service.py, with the queries of
--   repository.py, and `Auth.Login` the login and its limits; `Auth.Steps` is any order of the
--   transactions on sessions.
--
-- Conventions. Identifiers of nodes and edges are texts; UUIDs are only compared and are
-- numbers. A set is a list of its elements, in reverse order of insertion where a loop builds it.
-- A stack is a list whose head is the end of Python's list. A dict is an association list.
-- The `while` loops take fuel: `budget`, one round more than the entries that can ever be pushed,
-- and theorems state that with it nothing is left pending; `kahn_fuel`, a round for each node and
-- each edge; and for predicates one more than the count at which the code stops.
-- A float is a number m / 2 ^ k; infinities and NaN, which JSON lacks, are left out. Counters are
-- natural numbers, as `max_map` requires.
-- Amounts of money are whole numbers of 10^-16 units and prices of a million tokens of 10^-10, so
-- that a cost is exact; digests are parameters.
-- A transaction is a function of the store, since every one holds the lock of the event counter or
-- of its rows until it commits; where it raises, the store is as before. Each clock reading is an
-- argument. Times are natural numbers, and lease rows are listed newest first.
--
-- Not modelled: event rows, but those of approvals, hashing, LangGraph, model providers and remote workers; the texts of
-- issue messages and errors.
pub mod Auth
pub mod Prelude
pub mod Worklist
pub mod Contracts
pub mod Graph
pub mod Predicates
pub mod Permissions
pub mod Spend
pub mod RouteChoice
pub mod Budget
pub mod ModelCalls
pub mod Validation
pub mod Routing
pub mod CompileCache
pub mod Runtime
pub mod Workers
