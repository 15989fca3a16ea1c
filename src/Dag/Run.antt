-- ===== src/Dag/Run.antt =====
-- task_dag.py: `execute_dag`, one node after the other, and what a failed node blocks.
use autonomous_ai_scout.Base.{
  ℕ, suc, zero, String, Bool, true, false, not, ◌&&◌, is_nil, List, [], ◌∷◌, ◌++◌, any, contains,
  length, if◌then◌else◌, lookup, Option, some, none, Result, err, ok, Error, key_error, value_error,
}
use autonomous_ai_scout.Dag.Graph.{
  DagNode, TaskDagPlan, Sorting, sorted, cyclic, out_of_fuel, topological_order, index_nodes,
  node_ids,
}

pub record DagExecutionResult : Type 0 where
  pub completed : List String
  pub blocked : List String
  pub failed_node : Option String

pub data Execution : Type 0 where
  finished : DagExecutionResult → Execution
  raised : Error → Execution
  unfinished : Execution

-- `x is None`
abbrev pub is_absent : Option String → Bool
is_absent none = true
is_absent (some x) = false

-- `success`: True where no node is blocked and none has failed.
abbrev pub is_success : DagExecutionResult → Bool
is_success result = is_nil result.blocked && is_absent result.failed_node

-- `ok = bool(runner(node))`, False where the runner raises. A run asks for a node once, so what the
-- runner does with it is a function of the node.
abbrev pub succeeds : Result Bool → Bool
succeeds (ok answer) = answer
succeeds (err e) = false

-- The variables of the loop behind a failed node.
pub record Spread : Type 0 where
  pub descendants : List String
  pub affected : List String
  pub changed : Bool

unfoldable pub spread_node : Spread → DagNode → Spread
spread_node s candidate =
    if contains candidate.node_id s.descendants
    then s
    else if any (λ dep. contains dep s.descendants) candidate.depends_on
    then record {
      descendants = candidate.node_id ∷ s.descendants;
      affected = s.affected ++ candidate.node_id ∷ [];
      changed = true;
    }
    else s

unfoldable pub spread_nodes : Spread → List DagNode → Spread
unfolding spread_node
spread_nodes s [] = s
spread_nodes s (candidate ∷ nodes) = spread_nodes (spread_node s candidate) nodes

-- `while changed:`
unfoldable pub spread : ℕ → List DagNode → Spread → Option Spread
unfolding spread_nodes
spread zero nodes s = if s.changed then none else some s
spread (suc fuel) nodes s =
    let rest = spread fuel nodes (spread_nodes (record s { changed = false }) nodes) in
    if s.changed then rest else some s

abbrev pub failed_at : String → Spread
failed_at failed = record { descendants = failed ∷ []; affected = []; changed = true }

-- Each pass but the last reaches a node, so one more pass than nodes is enough.
unfoldable pub affected_by : List DagNode → String → Option Spread
unfolding spread
affected_by nodes failed = spread (suc (length nodes)) nodes (failed_at failed)

-- `return DagExecutionResult(tuple(completed), tuple(blocked) + tuple(affected), failed)`
abbrev pub stop_at : List String → List String → String → Option Spread → Execution
stop_at completed blocked failed none = unfinished
stop_at completed blocked failed (some s) =
    finished
      (record { completed = completed; blocked = blocked ++ s.affected; failed_node = some failed })

module _ (runner : DagNode → Result Bool) (nodes : List DagNode) where
  -- One round of the loop over the order: `skip` and `go_on` are the rounds behind it.
  unfoldable pub run_node :
      String → List String → List String → Execution → Execution → Option DagNode → Execution
  unfolding affected_by
  run_node node_id completed blocked skip go_on none = raised (key_error node_id)
  run_node node_id completed blocked skip go_on (some node) =
      if any (λ dep. contains dep blocked) node.depends_on
      then skip
      else if any (λ dep. not (contains dep completed)) node.depends_on
      then skip
      else if not (succeeds (runner node))
      then stop_at completed blocked node_id (affected_by nodes node_id)
      else go_on

  unfoldable pub run_nodes : List String → List String → List String → Execution
  unfolding run_node lookup index_nodes
  run_nodes [] completed blocked =
      finished (record { completed = completed; blocked = blocked; failed_node = none })
  run_nodes (node_id ∷ order) completed blocked =
      let skip = run_nodes order completed (blocked ++ node_id ∷ []) in
      let go_on = run_nodes order (completed ++ node_id ∷ []) blocked in
      run_node node_id completed blocked skip go_on (lookup node_id (index_nodes [] nodes))

  unfoldable pub run_sorted : Sorting → Execution
  unfolding run_nodes
  run_sorted (sorted order) = run_nodes order [] []
  run_sorted cyclic = raised (value_error "task DAG contains a dependency cycle")
  run_sorted out_of_fuel = unfinished

-- `execute_dag`
unfoldable pub execute_dag : TaskDagPlan → (DagNode → Result Bool) → Execution
unfolding run_sorted topological_order
execute_dag dag runner =
    if not dag.executable
    then finished (record { completed = []; blocked = node_ids dag.nodes; failed_node = none })
    else run_sorted runner dag.nodes (topological_order dag.nodes)
