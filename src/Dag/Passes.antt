-- ===== src/Dag/Passes.antt =====
-- task_dag.py: the passes of `execute_dag` behind a failed node, which take in more nodes until
-- nothing changes.
use autonomous_ai_scout.Base.{
  ℕ, suc, ◌≤◌, ◌<◌, String, Bool, true, false, not, ◌||◌, List, [], ◌∷◌, ◌≡◌, ◌⊎◌, refl, all, any,
  contains, length, if◌then◌else◌, text_eq_iff, arith,
}
use autonomous_ai_scout.Dag.Graph.{DagNode, node_ids}
use autonomous_ai_scout.Dag.Run.{Spread, spread_node, spread_nodes}

-- How many nodes are not among the descendants.
unfoldable pub outside : List String → List DagNode → ℕ
outside descendants [] = 0
outside descendants (node ∷ nodes) =
    let rest = outside descendants nodes in
    if contains node.node_id descendants then rest else suc rest

-- No node outside depends on a descendant.
abbrev pub closed : List String → List DagNode → Bool
closed descendants nodes =
    all
      (λ (c : DagNode).
        contains c.node_id descendants || not (any (λ dep. contains dep descendants) c.depends_on))
      nodes

outside-cons_le :
    (x : String) (ds : List String) (nodes : List DagNode)
    → outside (x ∷ ds) nodes ≤ outside ds nodes
unfolding outside
outside-cons_le x ds [] = omega arith
outside-cons_le x ds (node ∷ nodes) = ground (arith, outside-cons_le x ds nodes)

pub outside-le_length : (ds : List String) (nodes : List DagNode) → outside ds nodes ≤ length nodes
unfolding outside
outside-le_length ds [] = omega arith
outside-le_length ds (node ∷ nodes) = ground (arith, outside-le_length ds nodes)

outside-cons_lt :
    (x : String) (ds : List String) (nodes : List DagNode)
    → contains x ds ≡ false
    → contains x (node_ids nodes) ≡ true
    → outside (x ∷ ds) nodes < outside ds nodes
unfolding outside
outside-cons_lt x ds [] fresh h = ground (arith, h)
outside-cons_lt x ds (node ∷ nodes) fresh h = ground (
  arith,
  fresh,
  h,
  text_eq_iff node.node_id x,
  text_eq_iff x node.node_id,
  outside-cons_lt x ds nodes,
  outside-cons_le x ds nodes,
)

-- A pass takes nodes from outside, and says so.
unfoldable pub Shrinks : List DagNode → Spread → Spread → Type 0
Shrinks nodes s after =
    (outside after.descendants nodes ≤ outside s.descendants nodes)
    × (after.changed ≡ true
        → (s.changed ≡ true) ⊎ (outside after.descendants nodes < outside s.descendants nodes))

Shrinks-spread_node :
    (nodes : List DagNode) (s : Spread) (c : DagNode)
    → contains c.node_id (node_ids nodes) ≡ true
    → Shrinks nodes s (spread_node s c)
unfolding spread_node Shrinks
Shrinks-spread_node nodes s c inside = ground (
  arith,
  inside,
  outside-cons_le c.node_id s.descendants nodes,
  outside-cons_lt c.node_id s.descendants nodes,
)

pub Shrinks-spread_nodes :
    (nodes : List DagNode) (s : Spread) (cs : List DagNode)
    → ((x : String) → contains x (node_ids cs) ≡ true → contains x (node_ids nodes) ≡ true)
    → Shrinks nodes s (spread_nodes s cs)
unfolding spread_nodes Shrinks
Shrinks-spread_nodes nodes s [] sub = ground arith
Shrinks-spread_nodes nodes s (c ∷ cs) sub =
    let one =
      Shrinks-spread_node nodes s c
        (sub c.node_id (ground (arith, text_eq_iff c.node_id c.node_id))) in
    let rest =
      Shrinks-spread_nodes nodes (spread_node s c) cs
        (λ x inside. sub x (ground (arith, inside))) in
    ground (arith, one, rest)

changed-stays :
    (s : Spread) (cs : List DagNode) → s.changed ≡ true → (spread_nodes s cs).changed ≡ true
unfolding spread_nodes spread_node
changed-stays s [] h = h
changed-stays s (c ∷ cs) h = changed-stays (spread_node s c) cs (ground (arith, h))

spread_node-cases :
    (s : Spread) (c : DagNode)
    → ((spread_node s c).changed ≡ true)
      ⊎ (spread_node s c ≡ s)
        × ((contains c.node_id s.descendants
              || not (any (λ dep. contains dep s.descendants) c.depends_on))
            ≡ true)
unfolding spread_node
spread_node-cases s c = ground arith

-- A pass that changed nothing has found the descendants closed.
pub closed-unchanged :
    (s : Spread) (cs : List DagNode)
    → (spread_nodes s cs).changed ≡ false
    → (closed s.descendants cs ≡ true) × (spread_nodes s cs ≡ s)
unfolding spread_nodes
closed-unchanged s [] h = (refl, refl)
closed-unchanged s (c ∷ cs) h =
    let rest = closed-unchanged (spread_node s c) cs h in
    ground (arith, h, rest, spread_node-cases s c, changed-stays (spread_node s c) cs)
