-- ===== src/Dag/Order.antt =====
-- task_dag.py: what `topological_order` promises: it ends, each node once and behind those that it
-- depends on, and a reported cycle is one.
use autonomous_ai_scout.Base.{
  count, keys, ℕ, suc, zero, ◌+◌, ◌≤◌, String, true, false, not, ◌||◌, ◌&&◌, List, [], ◌∷◌, ◌++◌,
  ◌≡◌, refl, keep, any, contains, is_nil, length, if◌then◌else◌, text_eq, text_eq_iff, arith,
  lookup, Option, some, none, ◌≢◌, inl, inr, Bool-cases, Dict, insert, lookup-insert,
}
use autonomous_ai_scout.Dag.Graph.{
  DagNode, Waiting, is_ready, ready_nodes, next_waiting, sorted, cyclic, rounds, out_of_fuel,
  topological_order, waiting_of, take_nodes, index_nodes, deps_of, node_ids,
}
use autonomous_ai_scout.Dag.Counts.{
  count-append, count-next_waiting, count-absent, count-take_nodes, ready-contains,
}
use autonomous_ai_scout.Dag.Ordered.{respects}
use autonomous_ai_scout.Dag.Rounds.{
  rounds-ends, count-rounds, respects-rounds, Waits, Waits-next_waiting,
}

-- `topological_order` ends within as many rounds as it has nodes.
pub topological_order-ends : (nodes : List DagNode) → topological_order nodes ≢ out_of_fuel
unfolding topological_order
topological_order-ends nodes =
    rounds-ends (length (waiting_of nodes)) (waiting_of nodes) [] (omega arith)

count-waiting_of :
    (nodes : List DagNode) (x : String)
    → count x (keys (waiting_of nodes)) ≡ (if contains x (node_ids nodes) then 1 else 0)
unfolding count waiting_of
count-waiting_of nodes x = count-take_nodes x [] nodes (omega arith)

waiting_of-once : (nodes : List DagNode) (x : String) → count x (keys (waiting_of nodes)) ≤ 1
waiting_of-once nodes x = ground (arith, count-waiting_of nodes x)

count-topological_order :
    (nodes : List DagNode) (order : List String)
    → topological_order nodes ≡ sorted order
    → (x : String) → count x order ≡ (if contains x (node_ids nodes) then 1 else 0)
unfolding topological_order count
count-topological_order nodes order h x = ground (
  arith,
  count-rounds (length (waiting_of nodes)) (waiting_of nodes) [] order (waiting_of-once nodes) h x,
  count-waiting_of nodes x,
)

abbrev as_index : Option DagNode → Option (List String)
as_index none = none
as_index (some node) = some node.depends_on

lookup-take_nodes :
    (w : Waiting) (index : Dict DagNode) (nodes : List DagNode)
    → ((x : String) → lookup x w ≡ as_index (lookup x index))
    → (x : String) → lookup x (take_nodes w nodes) ≡ as_index (lookup x (index_nodes index nodes))
unfolding take_nodes index_nodes
lookup-take_nodes w index [] same x = same x
lookup-take_nodes w index (node ∷ nodes) same x =
    lookup-take_nodes (insert node.node_id node.depends_on w) (insert node.node_id node index) nodes
      (λ y. ground (
        arith,
        same y,
        lookup-insert node.node_id y node.depends_on w,
        lookup-insert node.node_id y node index,
      ))
      x

waiting_of-Waits : (nodes : List DagNode) → Waits (deps_of nodes) (waiting_of nodes) []
unfolding lookup waiting_of deps_of
waiting_of-Waits nodes x left h d = waits (lookup x (index_nodes [] nodes)) refl
  where
    waits :
        (found : Option DagNode)
        → lookup x (index_nodes [] nodes) ≡ found
        → contains d left ≡ (contains d (deps_of nodes x) && not (contains d []))
    waits none e = ground (arith, e, h, lookup-take_nodes [] [] nodes (λ y. refl) x)
    waits (some node) e = ground (arith, e, h, lookup-take_nodes [] [] nodes (λ y. refl) x)

respects-topological_order :
    (nodes : List DagNode) (order : List String)
    → topological_order nodes ≡ sorted order
    → respects (deps_of nodes) [] order ≡ true
unfolding topological_order respects
respects-topological_order nodes order h =
    respects-rounds (deps_of nodes) (length (waiting_of nodes)) (waiting_of nodes) [] order
      (waiting_of-once nodes) (waiting_of-Waits nodes) refl h

-- An order that `topological_order` returns has the id of each node once and no other text, and in
-- it each node comes behind all those it depends on.
pub topological_order-lem :
    (nodes : List DagNode) (order : List String)
    → topological_order nodes ≡ sorted order
    → ((x : String) → count x order ≡ (if contains x (node_ids nodes) then 1 else 0))
      × (respects (deps_of nodes) [] order ≡ true)
topological_order-lem nodes order h =
    (count-topological_order nodes order h, respects-topological_order nodes order h)

-- What blocks an order: each of some ids waits for one of them, possibly itself, or for an id that no
-- node has.
abbrev pub Stuck : (String → List String) → List String → List String → Type 0
Stuck deps ids stuck =
    (is_nil stuck ≡ false)
    × ((x : String)
        → contains x stuck ≡ true
        → (d : String) × (contains d (deps x) ≡ true)
          × ((contains d stuck || not (contains d ids)) ≡ true))

some-ready :
    (w : Waiting)
    → any is_ready w ≡ true
    → (x : String) × (contains x (keys (keep is_ready w)) ≡ true)
unfolding keep
some-ready [] h = ground (arith, h)
some-ready ((id, []) ∷ w) h = (id, ground (arith, text_eq_iff id id))
some-ready ((id, d ∷ deps) ∷ w) h = some-ready w (ground (arith, h))

nil_contains : (xs : List String) (x : String) → is_nil xs ≡ true → contains x xs ≡ true → ⊥
nil_contains [] x h inside = cc
nil_contains (y ∷ ys) x h inside = cc

any_ready-nil : (w : Waiting) → is_nil (ready_nodes w) ≡ true → any is_ready w ≡ false
any_ready-nil w h = elim (Bool-cases (any is_ready w)) [
  | inl e ↦
      let found = some-ready w e in
      absurd (nil_contains (ready_nodes w) found.0 h (ready-contains w found.0 found.1))
  | inr e ↦ e
]

lookup-unready :
    (x : String) (w : Waiting)
    → any is_ready w ≡ false
    → contains x (keys w) ≡ true
    → (d : String) × (left : List String) × (lookup x w ≡ some (d ∷ left))
unfolding lookup
lookup-unready x [] h inside = ground (arith, inside)
lookup-unready x ((id, []) ∷ w) h inside = ground (arith, h)
lookup-unready x ((id, d ∷ deps) ∷ w) h inside = elim (Bool-cases (text_eq id x)) [
  | inl e ↦ (d, deps, rw e refl)
  | inr e ↦ rw e (lookup-unready x w (ground (arith, h)) (ground (arith, inside)))
]

Stuck-rounds :
    (deps : String → List String) (ids : List String) (fuel : ℕ) (w : Waiting) (order : List String)
    → ((x : String) → count x order + count x (keys w) ≡ (if contains x ids then 1 else 0))
    → Waits deps w order
    → rounds fuel w order ≡ cyclic
    → (stuck : List String) × Stuck deps ids stuck
unfolding rounds
Stuck-rounds deps ids fuel [] order counts waits h = ground (arith, h)
Stuck-rounds deps ids zero (entry ∷ w) order counts waits h = ground (arith, h)
Stuck-rounds deps ids (suc fuel) (entry ∷ w) order counts waits h =
    elim (Bool-cases (is_nil (ready_nodes (entry ∷ w)))) [
      | inl e ↦ (
        keys (entry ∷ w),
        (
          refl,
          λ x inside. unready x (lookup-unready x (entry ∷ w) (any_ready-nil (entry ∷ w) e) inside),
        ),
      )
      | inr e ↦
          Stuck-rounds deps ids fuel (next_waiting (ready_nodes (entry ∷ w)) (entry ∷ w))
            (order ++ ready_nodes (entry ∷ w))
            (λ x. ground (
              arith,
              counts x,
              count-next_waiting x (entry ∷ w),
              count-append x order (ready_nodes (entry ∷ w)),
            ))
            (Waits-next_waiting deps (entry ∷ w) order (ready_nodes (entry ∷ w)) waits)
            (ground (arith, e, h))
    ]
  where
    unready :
        (x : String)
        → (d : String) × (left : List String) × (lookup x (entry ∷ w) ≡ some (d ∷ left))
        → (d : String) × (contains d (deps x) ≡ true)
          × ((contains d (keys (entry ∷ w)) || not (contains d ids)) ≡ true)
    unready x (d, left, found) = (
      d,
      ground (arith, waits x (d ∷ left) found d, text_eq_iff d d),
      ground (
        arith,
        waits x (d ∷ left) found d,
        text_eq_iff d d,
        counts d,
        count-absent d order,
        count-absent d (keys (entry ∷ w)),
      ),
    )

-- Where `topological_order` reports a cycle, there is a set of ids, not empty, each of which depends
-- on one of the set, possibly itself, or on an id that no node has.
pub topological_order-Stuck :
    (nodes : List DagNode)
    → topological_order nodes ≡ cyclic
    → (stuck : List String) × Stuck (deps_of nodes) (node_ids nodes) stuck
unfolding topological_order count
topological_order-Stuck nodes h =
    Stuck-rounds (deps_of nodes) (node_ids nodes) (length (waiting_of nodes)) (waiting_of nodes) []
      (λ x. omega (arith, count-waiting_of nodes x)) (waiting_of-Waits nodes) h
