-- ===== src/Dag/Execution.antt =====
-- task_dag.py: what `execute_dag` returns, from the order of the nodes and the answers of the runner.
use autonomous_ai_scout.Base.{
  append-cons, append-nil, ◌≤◌, String, Bool, true, false, not, ◌||◌, List, [], ◌∷◌, ◌++◌, ◌≡◌,
  refl, all, any, contains, length, if◌then◌else◌, text_eq_iff, arith, lookup, Option, some, none,
  inl, inr, Bool-cases, Dict, insert, lookup-insert, Result, map, strip,
}
use autonomous_ai_scout.Dag.Graph.{
  DagNode, TaskDagPlan, DagTaskSpec, TaskPlan, Sorting, sorted, cyclic, out_of_fuel,
  topological_order, index_nodes, dependencies, deps_of, node_ids, max_dag_nodes, validate_specs,
  normalize_spec, plan_sorted, plan_valid, plan, node_of, all_executable,
}
use autonomous_ai_scout.Dag.Counts.{count-contains}
use autonomous_ai_scout.Dag.Ordered.{respects}
use autonomous_ai_scout.Dag.Order.{topological_order-lem}
use autonomous_ai_scout.Dag.Run.{
  DagExecutionResult, Execution, finished, succeeds, run_node, run_nodes, run_sorted, execute_dag,
  affected_by, stop_at,
}
use autonomous_ai_scout.Dag.Blocked.{affected_by-Downstream, contains-snoc}

-- The ids up to the first that does not work, and that one.
unfoldable pub before_failure : (String → Bool) → List String → List String
before_failure works [] = []
before_failure works (x ∷ xs) =
    let rest = before_failure works xs in if works x then x ∷ rest else []

unfoldable pub first_failure : (String → Bool) → List String → Option String
first_failure works [] = none
first_failure works (x ∷ xs) = let rest = first_failure works xs in if works x then rest else some x

-- The runner's answer to a node that is there.
unfoldable pub works_on : (DagNode → Result Bool) → Option DagNode → Bool
works_on runner none = false
works_on runner (some node) = succeeds (runner node)

unfoldable pub works : (DagNode → Result Bool) → List DagNode → String → Bool
unfolding works_on lookup index_nodes
works runner nodes x = works_on runner (lookup x (index_nodes [] nodes))

-- The result where all of some nodes are completed, and one has failed or none has.
unfoldable pub ended : List DagNode → List String → Option String → Execution
ended nodes completed none =
    finished (record { completed = completed; blocked = []; failed_node = none })
ended nodes completed (some failed) = stop_at completed [] failed (affected_by nodes failed)

abbrev present : Option DagNode → Bool
present none = false
present (some node) = true

index_nodes-present :
    (index : Dict DagNode) (nodes : List DagNode) (x : String)
    → present (lookup x (index_nodes index nodes))
      ≡ (present (lookup x index) || contains x (node_ids nodes))
unfolding index_nodes
index_nodes-present index [] x = ground arith
index_nodes-present index (node ∷ nodes) x = ground (
  arith,
  index_nodes-present (insert node.node_id node index) nodes x,
  lookup-insert node.node_id x node index,
)

guards_pass :
    (deps before completed : List String)
    → all (λ d. contains d before) deps ≡ true
    → ((d : String) → contains d before ≡ contains d completed)
    → (any (λ dep. contains dep []) deps ≡ false)
      × (any (λ dep. not (contains dep completed)) deps ≡ false)
guards_pass [] before completed h same = (refl, refl)
guards_pass (d ∷ deps) before completed h same =
    ground (arith, h, same d, guards_pass deps before completed)

-- The step behind a node that is there, whose dependencies are completed.
run_node-ended :
    (runner : DagNode → Result Bool) (nodes : List DagNode) (x : String)
    (xs completed : List String) (skip go_on : Execution) (found : Option DagNode)
    → lookup x (index_nodes [] nodes) ≡ found
    → present found ≡ true
    → (any (λ dep. contains dep []) (dependencies found) ≡ false)
      × (any (λ dep. not (contains dep completed)) (dependencies found) ≡ false)
    → go_on
      ≡ ended nodes
          ((completed ++ x ∷ []) ++ before_failure (works runner nodes) xs)
          (first_failure (works runner nodes) xs)
    → run_node runner nodes x completed [] skip go_on found
      ≡ ended nodes
          (completed ++ before_failure (works runner nodes) (x ∷ xs))
          (first_failure (works runner nodes) (x ∷ xs))
unfolding run_node before_failure first_failure works works_on ended
run_node-ended runner nodes x xs completed skip go_on none e here guards rest = cc
run_node-ended runner nodes x xs completed skip go_on (some node) e here guards rest =
    rw e rw guards.0 rw guards.1 elim (Bool-cases (succeeds (runner node))) [
      | inl good ↦
          rw good rw (← append-cons completed x (before_failure (works runner nodes) xs)) rest
      | inr bad ↦ rw bad rw (append-nil completed) refl
    ]

run_nodes-ended :
    (runner : DagNode → Result Bool) (nodes : List DagNode) (before completed order : List String)
    → ((d : String) → contains d before ≡ contains d completed)
    → ((x : String) → contains x order ≡ true → contains x (node_ids nodes) ≡ true)
    → respects (deps_of nodes) before order ≡ true
    → run_nodes runner nodes order completed []
      ≡ ended nodes
          (completed ++ before_failure (works runner nodes) order)
          (first_failure (works runner nodes) order)
unfolding run_nodes respects before_failure first_failure ended deps_of lookup
run_nodes-ended runner nodes before completed [] same known o = rw (append-nil completed) refl
run_nodes-ended runner nodes before completed (x ∷ xs) same known o =
    run_node-ended runner nodes x xs completed _ _ (lookup x (index_nodes [] nodes)) refl
      (ground (arith, index_nodes-present [] nodes x, known x, text_eq_iff x x))
      (guards_pass (deps_of nodes x) before completed (ground (arith, o)) same)
      (run_nodes-ended runner nodes (x ∷ before) (completed ++ x ∷ []) xs
        (λ d. ground (arith, same d, contains-snoc d x completed))
        (λ y inside. known y (ground (arith, inside))) (ground (arith, o)))

-- An executable plan whose nodes have an order is executed along it: the nodes are completed in that
-- order up to the first that the runner fails on or raises for, and behind it the run stops with the
-- nodes that depend on it blocked. Neither guard of the loop ever holds a node back.
pub execute_dag-ended :
    (dag : TaskDagPlan) (runner : DagNode → Result Bool) (order : List String)
    → dag.executable ≡ true
    → topological_order dag.nodes ≡ sorted order
    → execute_dag dag runner
      ≡ ended dag.nodes
          (before_failure (works runner dag.nodes) order)
          (first_failure (works runner dag.nodes) order)
unfolding execute_dag run_sorted
execute_dag-ended dag runner order go e =
    let facts = topological_order-lem dag.nodes order e in
    rw go rw e (
      run_nodes-ended runner dag.nodes [] [] order (λ d. refl)
        (λ x inside. ground (arith, inside, facts.0 x, count-contains x order)) facts.1)

ended-finished :
    (nodes : List DagNode) (completed : List String) (failed : Option String)
    → (result : DagExecutionResult) × (ended nodes completed failed ≡ finished result)
unfolding ended
ended-finished nodes completed none =
    (record { completed = completed; blocked = []; failed_node = none }, refl)
ended-finished nodes completed (some failed) =
    let found = affected_by-Downstream nodes failed in
    (
      record { completed = completed; blocked = [] ++ found.0.affected; failed_node = some failed },
      rw found.1 refl,
    )

validate_specs-bound :
    (specs : List DagTaskSpec) → validate_specs specs ≡ none → length specs ≤ max_dag_nodes
unfolding validate_specs
validate_specs-bound specs h = ground (arith, h)

length-map : {A B : Type 0} (f : A → B) (xs : List A) → length (map f xs) ≡ length xs
length-map f [] = refl
length-map f (x ∷ xs) = omega (arith, length-map f xs)

-- What makes a plan fit to be executed.
Fit : TaskDagPlan → Type 0
Fit dag =
    (dag.executable ≡ true)
    × (length dag.nodes ≤ max_dag_nodes)
    × (order : List String) × (topological_order dag.nodes ≡ sorted order)

module _ (plan_task : String → TaskPlan) (sha256 : String → List DagNode → String) where
  Fit-plan_sorted :
      (objective : String) (nodes : List DagNode) (sorting : Sorting)
      → topological_order nodes ≡ sorting
      → length nodes ≤ max_dag_nodes
      → (plan_sorted plan_task sha256 objective nodes sorting).executable ≡ true
      → Fit (plan_sorted plan_task sha256 objective nodes sorting)
  unfolding Fit plan_sorted
  Fit-plan_sorted objective nodes (sorted order) e bound go =
      elim (Bool-cases (all_executable nodes)) [
        | inl good ↦ rw good (refl, bound, order, e)
        | inr bad ↦ ground (arith, go, bad)
      ]
  Fit-plan_sorted objective nodes cyclic e bound go = cc
  Fit-plan_sorted objective nodes out_of_fuel e bound go = cc

  Fit-plan_valid :
      (objective : String) (specs : List DagTaskSpec) (checked : Option String)
      → validate_specs specs ≡ checked
      → (plan_valid plan_task sha256 objective specs checked).executable ≡ true
      → Fit (plan_valid plan_task sha256 objective specs checked)
  unfolding plan_valid
  Fit-plan_valid objective specs (some error) e go = cc
  Fit-plan_valid objective specs none e go =
      Fit-plan_sorted objective (map (node_of plan_task sha256) specs)
        (topological_order (map (node_of plan_task sha256) specs)) refl
        (omega (arith, validate_specs-bound specs e, length-map (node_of plan_task sha256) specs))
        go

  Fit-plan :
      (objective : String) (specs : List DagTaskSpec)
      → (plan plan_task sha256 objective specs).executable ≡ true
      → Fit (plan plan_task sha256 objective specs)
  unfolding plan
  Fit-plan objective specs go =
      Fit-plan_valid (strip objective) (map normalize_spec specs)
        (validate_specs (map normalize_spec specs)) refl go

  -- A plan that the planner calls executable has no more than 16 nodes, and its execution ends with
  -- a result whatever the runner does: it neither reports a cycle nor misses a node.
  pub plan-finished :
      (objective : String) (specs : List DagTaskSpec) (runner : DagNode → Result Bool)
      → (plan plan_task sha256 objective specs).executable ≡ true
      → (length (plan plan_task sha256 objective specs).nodes ≤ 16)
        × (result : DagExecutionResult) × (execute_dag
              (plan plan_task sha256 objective specs)
              runner
            ≡ finished result)
  unfolding Fit
  plan-finished objective specs runner go =
      let dag = plan plan_task sha256 objective specs in
      let fit = Fit-plan objective specs go in
      let end =
        ended-finished dag.nodes (before_failure (works runner dag.nodes) fit.2)
          (first_failure (works runner dag.nodes) fit.2) in
      (fit.1, end.0, rw (← end.1) (execute_dag-ended dag runner fit.2 go fit.3))
