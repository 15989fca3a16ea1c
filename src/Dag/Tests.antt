-- ===== src/Dag/Tests.antt =====
-- Concrete graphs of tasks.
use autonomous_ai_scout.Base.{
  count, strip, String, ◌≡◌, refl, ◌≢◌, ◌≤◌, ◌↔◌, true, false, not, none, some, ok, err, Result,
  Bool, value_error, List, [], ◌∷◌, text_eq, if◌then◌else◌, contains, length,
}
use autonomous_ai_scout.Dag.Graph.{
  DagNode, DagTaskSpec, TaskPlan, TaskDagPlan, sorted, cyclic, topological_order, deps_of, node_ids,
  plan,
}
use autonomous_ai_scout.Dag.Ordered.{respects}
use autonomous_ai_scout.Dag.Order.{topological_order-lem, topological_order-Stuck, Stuck}
use autonomous_ai_scout.Dag.Run.{DagExecutionResult, finished, Spread, affected_by, execute_dag}
use autonomous_ai_scout.Dag.Blocked.{Downstream, affected_by-Downstream}
use autonomous_ai_scout.Dag.Execution.{
  ended, before_failure, first_failure, works, execute_dag-ended, plan-finished,
}

abbrev task_plan : TaskPlan
task_plan = record { executable = true; plan_digest = "d" }

abbrev node : String → List String → DagNode
node id deps = record { node_id = id; task = "run tests"; depends_on = deps; plan = task_plan }

-- "c" waits for "a" and "b", "b" for "a", and nothing for "d".
abbrev diamond : List DagNode
diamond = node "c" ("a" ∷ "b" ∷ []) ∷ node "b" ("a" ∷ []) ∷ node "a" [] ∷ node "d" [] ∷ []

abbrev ring : List DagNode
ring = node "a" ("b" ∷ []) ∷ node "b" ("a" ∷ []) ∷ node "c" [] ∷ []

abbrev diamond_dag : TaskDagPlan
diamond_dag = record {
  objective = "o";
  nodes = diamond;
  digest = "d";
  executable = true;
  reason = "";
}

-- The runner fails on "b" and raises for "d".
abbrev runner : DagNode → Result Bool
runner n =
    if text_eq n.node_id "b"
    then ok false
    else if text_eq n.node_id "d"
    then err (value_error "d")
    else ok true

abbrev spec : String → List String → DagTaskSpec
spec id deps = record { node_id = id; task = "run  tests"; depends_on = deps }

abbrev specs : List DagTaskSpec
specs = spec "b" ("a" ∷ "a" ∷ []) ∷ spec " a " [] ∷ []

diamond_order : topological_order diamond ≡ sorted ("a" ∷ "d" ∷ "b" ∷ "c" ∷ [])
unfolding topological_order
diamond_order = refl

ring_order : topological_order ring ≡ cyclic
unfolding topological_order
ring_order = refl

diamond_run :
    execute_dag diamond_dag (λ n. ok true)
    ≡ finished (record { completed = "a" ∷ "d" ∷ "b" ∷ "c" ∷ []; blocked = []; failed_node = none })
unfolding execute_dag
diamond_run = refl

diamond_failure :
    execute_dag diamond_dag (λ n. ok (not (text_eq n.node_id "b")))
    ≡ finished (record { completed = "a" ∷ "d" ∷ []; blocked = "c" ∷ []; failed_node = some "b" })
unfolding execute_dag
diamond_failure = refl

specs_plan : (plan (λ t. task_plan) (λ o n. "digest") " o " specs).executable ≡ true
unfolding plan strip
specs_plan = refl

topological_order-lem_example :
    ((x : String)
      → count x ("a" ∷ "d" ∷ "b" ∷ "c" ∷ []) ≡ (if contains x (node_ids diamond) then 1 else 0))
    × (respects (deps_of diamond) [] ("a" ∷ "d" ∷ "b" ∷ "c" ∷ []) ≡ true)
topological_order-lem_example =
    topological_order-lem diamond ("a" ∷ "d" ∷ "b" ∷ "c" ∷ []) diamond_order

topological_order-Stuck_example : (stuck : List String) × Stuck (deps_of ring) (node_ids ring) stuck
topological_order-Stuck_example = topological_order-Stuck ring ring_order

affected_by-Downstream_example :
    (after : Spread) × (affected_by diamond "b" ≡ some after)
    × ((x : String) → x ≢ "b" → (contains x after.affected ≡ true) ↔ Downstream diamond "b" x)
affected_by-Downstream_example = affected_by-Downstream diamond "b"

execute_dag-ended_example :
    execute_dag diamond_dag runner
    ≡ ended diamond
        (before_failure (works runner diamond) ("a" ∷ "d" ∷ "b" ∷ "c" ∷ []))
        (first_failure (works runner diamond) ("a" ∷ "d" ∷ "b" ∷ "c" ∷ []))
execute_dag-ended_example =
    execute_dag-ended diamond_dag runner ("a" ∷ "d" ∷ "b" ∷ "c" ∷ []) refl diamond_order

plan-finished_example :
    (length (plan (λ t. task_plan) (λ o n. "digest") " o " specs).nodes ≤ 16)
    × (result : DagExecutionResult) × (execute_dag
          (plan (λ t. task_plan) (λ o n. "digest") " o " specs)
          runner
        ≡ finished result)
plan-finished_example =
    plan-finished (λ t. task_plan) (λ o n. "digest") " o " specs runner specs_plan
