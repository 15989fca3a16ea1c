-- ===== src/Dag/Graph.antt =====
-- task_dag.py: the nodes, the checks of `_validate_specs`, and `topological_order`.
use autonomous_ai_scout.Base.{
  keys, ℕ, zero, suc, String, Bool, true, false, not, Option, none, some, List, [], ◌∷◌, ◌++◌, map,
  any, keep, contains, distinct, length, is_nil, is_blank, if◌then◌else◌, ltb, sort_texts, Dict,
  insert, lookup, ◌+++◌, join, strip, squeeze, all,
}

abbrev pub max_dag_nodes : ℕ
max_dag_nodes = 16

pub record DagTaskSpec : Type 0 where
  pub node_id : String
  pub task : String
  pub depends_on : List String

-- The fields of a task's plan that the graph reads.
pub record TaskPlan : Type 0 where
  pub executable : Bool
  pub plan_digest : String

pub record DagNode : Type 0 where
  pub node_id : String
  pub task : String
  pub depends_on : List String
  pub plan : TaskPlan

pub record TaskDagPlan : Type 0 where
  pub objective : String
  pub nodes : List DagNode
  pub digest : String
  pub executable : Bool
  pub reason : String

-- The dependencies that each node still waits for. Of a set only its members are asked for, so it is
-- kept as the list that it is made from.
abbrev pub Waiting : Type 0
Waiting = Dict (List String)

abbrev pub is_ready : String × List String → Bool
is_ready entry = is_nil entry.1

-- `sorted(node_id for node_id, deps in remaining.items() if not deps)`
unfoldable pub ready_nodes : Waiting → List String
unfolding sort_texts keep
ready_nodes remaining = sort_texts (keys (keep is_ready remaining))

abbrev pub is_left : List String → String × List String → Bool
is_left ready entry = not (contains entry.0 ready)

-- `deps.difference_update(ready)`, of every entry
unfoldable pub drop_dependencies : List String → Waiting → Waiting
unfolding keep
drop_dependencies ready [] = []
drop_dependencies ready ((id, deps) ∷ w) =
    (id, keep (λ d. not (contains d ready)) deps) ∷ drop_dependencies ready w

-- What is left behind a round: each ready node is popped, and none waits for it any more.
unfoldable pub next_waiting : List String → Waiting → Waiting
unfolding keep drop_dependencies
next_waiting ready remaining = drop_dependencies ready (keep (is_left ready) remaining)

pub data Sorting : Type 0 where
  sorted : List String → Sorting
  -- `ValueError("task DAG contains a dependency cycle")`
  cyclic : Sorting
  out_of_fuel : Sorting

-- The `while` loop of `topological_order`, by rounds.
unfoldable pub rounds : ℕ → Waiting → List String → Sorting
unfolding ready_nodes next_waiting
rounds fuel [] order = sorted order
rounds zero (entry ∷ w) order = out_of_fuel
rounds (suc fuel) (entry ∷ w) order =
    let ready = ready_nodes (entry ∷ w) in
    let rest = rounds fuel (next_waiting ready (entry ∷ w)) (order ++ ready) in
    if is_nil ready then cyclic else rest

-- `{node.node_id: set(node.depends_on) for node in nodes}` behind the entries taken already.
unfoldable pub take_nodes : Waiting → List DagNode → Waiting
unfolding insert
take_nodes w [] = w
take_nodes w (node ∷ nodes) = take_nodes (insert node.node_id node.depends_on w) nodes

unfoldable pub waiting_of : List DagNode → Waiting
unfolding take_nodes
waiting_of nodes = take_nodes [] nodes

-- `topological_order`; a round takes a node away, so there are no more rounds than nodes.
unfoldable pub topological_order : List DagNode → Sorting
unfolding rounds waiting_of
topological_order nodes = rounds (length (waiting_of nodes)) (waiting_of nodes) []

-- `dict.fromkeys(xs)` as a tuple: the first of each.
unfoldable pub first_of_each : List String → List String → List String
first_of_each seen [] = []
first_of_each seen (x ∷ xs) =
    let later = first_of_each seen xs in
    let rest = first_of_each (x ∷ seen) xs in if contains x seen then later else x ∷ rest

unfoldable pub normalize_spec : DagTaskSpec → DagTaskSpec
unfolding squeeze first_of_each
normalize_spec spec = record {
  node_id = squeeze spec.node_id;
  task = squeeze spec.task;
  depends_on = first_of_each [] spec.depends_on;
}

-- The loop of `_validate_specs` over the specifications.
unfoldable pub validate_dependencies : List String → List DagTaskSpec → Option String
unfolding join keep
validate_dependencies known [] = none
validate_dependencies known (spec ∷ specs) =
    let missing = keep (λ d. not (contains d known)) spec.depends_on in
    let rest = validate_dependencies known specs in
    if not (is_nil missing)
    then some
        ("node " +++ spec.node_id +++ " references missing dependencies: " +++ join ", " missing)
    else if contains spec.node_id spec.depends_on
    then some ("node " +++ spec.node_id +++ " cannot depend on itself")
    else rest

-- `_validate_specs`: none where the specifications are valid.
unfoldable pub validate_specs : List DagTaskSpec → Option String
unfolding validate_dependencies
validate_specs specs =
    let ids = map (λ (spec : DagTaskSpec). spec.node_id) specs in
    if is_nil specs
    then some "task DAG must contain at least one node"
    else if ltb max_dag_nodes (length specs)
    then some "task DAG exceeds bounded node limit of 16"
    else if any (λ id. is_blank id) ids
    then some "task DAG node ids must be non-empty"
    else if not (distinct ids)
    then some "task DAG contains duplicate node ids"
    else validate_dependencies ids specs

abbrev pub all_executable : List DagNode → Bool
all_executable nodes = all (λ (node : DagNode). node.plan.executable) nodes

abbrev pub stuck_nodes : List DagNode → List String
unfolding keep
stuck_nodes nodes =
    map (λ (node : DagNode). node.node_id)
      (keep (λ (node : DagNode). not node.plan.executable) nodes)

-- `{node.node_id: node for node in dag.nodes}` behind the nodes taken already.
unfoldable pub index_nodes : Dict DagNode → List DagNode → Dict DagNode
unfolding insert
index_nodes index [] = index
index_nodes index (node ∷ nodes) = index_nodes (insert node.node_id node index) nodes

abbrev pub dependencies : Option DagNode → List String
dependencies none = []
dependencies (some node) = node.depends_on

-- The dependencies of the node that has an id.
unfoldable pub deps_of : List DagNode → String → List String
unfolding lookup index_nodes
deps_of nodes x = dependencies (lookup x (index_nodes [] nodes))

abbrev pub node_ids : List DagNode → List String
node_ids nodes = map (λ (node : DagNode). node.node_id) nodes

-- `plan_task` gives the plan of a task for the grants of the call, and `sha256` the digest of the
-- objective and the nodes.
module _ (plan_task : String → TaskPlan) (sha256 : String → List DagNode → String) where
  abbrev pub node_of : DagTaskSpec → DagNode
  node_of spec = record {
    node_id = spec.node_id;
    task = spec.task;
    depends_on = spec.depends_on;
    plan = plan_task spec.task;
  }

  unfoldable pub plan_sorted : String → List DagNode → Sorting → TaskDagPlan
  unfolding join stuck_nodes
  plan_sorted objective nodes (sorted order) =
      if not (all_executable nodes)
      then record {
        objective = objective;
        nodes = nodes;
        digest = sha256 objective nodes;
        executable = false;
        reason = "DAG contains non-executable nodes: " +++ join ", " (stuck_nodes nodes);
      }
      else record {
        objective = objective;
        nodes = nodes;
        digest = sha256 objective nodes;
        executable = true;
        reason = "all DAG nodes are executable";
      }
  plan_sorted objective nodes _ = record {
    objective = objective;
    nodes = nodes;
    digest = "";
    executable = false;
    reason = "task DAG contains a dependency cycle";
  }

  unfoldable pub plan_valid : String → List DagTaskSpec → Option String → TaskDagPlan
  unfolding topological_order plan_sorted
  plan_valid objective specs (some error) = record {
    objective = objective;
    nodes = [];
    digest = "";
    executable = false;
    reason = error;
  }
  plan_valid objective specs none =
      plan_sorted objective (map node_of specs) (topological_order (map node_of specs))

  -- `LongHorizonPlanner.plan`
  unfoldable pub plan : String → List DagTaskSpec → TaskDagPlan
  unfolding validate_specs normalize_spec plan_valid
  plan objective specs =
      plan_valid (strip objective) (map normalize_spec specs)
        (validate_specs (map normalize_spec specs))
