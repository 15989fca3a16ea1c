-- ===== src/Dag/Blocked.antt =====
-- task_dag.py: the nodes that `execute_dag` blocks behind a failed node are those that depend on it.
use mathlib.Core.List.{Memᴰ}
use autonomous_ai_scout.Base.{
  ℕ, suc, zero, ◌<◌, String, true, false, ◌||◌, List, [], ◌∷◌, ◌++◌, ◌≡◌, ◌≢◌, ◌↔◌, refl, any,
  contains, length, text_eq, text_eq_iff, arith, some, inl, inr, Bool-cases, subst,
}
use autonomous_ai_scout.Dag.Graph.{DagNode}
use autonomous_ai_scout.Dag.Run.{Spread, spread_node, spread_nodes, spread, failed_at, affected_by}
use autonomous_ai_scout.Dag.Passes.{
  outside, closed, outside-le_length, Shrinks, Shrinks-spread_nodes, closed-unchanged,
}

-- The nodes that depend on a failed one, at once or by way of others.
pub data Downstream (nodes : List DagNode) (failed : String) : String → Type 0 where
  directly :
      {node : DagNode}
      → Memᴰ node nodes
      → contains failed node.depends_on ≡ true
      → Downstream nodes failed node.node_id
  further :
      {node : DagNode} {dep : String}
      → Memᴰ node nodes
      → contains dep node.depends_on ≡ true
      → Downstream nodes failed dep
      → Downstream nodes failed node.node_id

-- What a pass keeps: the descendants are the failed node and the affected ones, and each of these
-- depends on it.
Reached : List DagNode → String → Spread → Type 0
Reached nodes failed s =
    ((x : String) → contains x s.descendants ≡ (text_eq failed x || contains x s.affected))
    × ((x : String) → contains x s.affected ≡ true → Downstream nodes failed x)

pub contains-snoc :
    (x y : String) (xs : List String) → contains x (xs ++ y ∷ []) ≡ (contains x xs || text_eq y x)
contains-snoc x y [] = ground arith
contains-snoc x y (z ∷ xs) = ground (arith, contains-snoc x y xs)

-- Of some texts two of which stand in both lists, one is found.
common :
    (xs ys : List String)
    → any (λ x. contains x ys) xs ≡ true
    → (x : String) × (contains x xs ≡ true) × (contains x ys ≡ true)
common [] ys h = ground (arith, h)
common (x ∷ xs) ys h = elim (Bool-cases (contains x ys)) [
  | inl e ↦ (x, ground (arith, text_eq_iff x x), e)
  | inr e ↦
      let found = common xs ys (ground (arith, h, e)) in (found.0, ground (arith, found.1), found.2)
]

Downstream-of :
    (nodes : List DagNode) (failed : String) (s : Spread) (c : DagNode)
    → Memᴰ c nodes
    → Reached nodes failed s
    → any (λ dep. contains dep s.descendants) c.depends_on ≡ true
    → Downstream nodes failed c.node_id
unfolding Reached
Downstream-of nodes failed s c here (members, below) h =
    let found = common c.depends_on s.descendants h in
    elim (Bool-cases (text_eq failed found.0)) [
      | inl e ↦ directly here (rw ((text_eq_iff failed found.0).0 e) found.1)
      | inr e ↦ further here found.1 (below found.0 (ground (arith, members found.0, found.2, e)))
    ]

Reached-spread_node :
    (nodes : List DagNode) (failed : String) (s : Spread) (c : DagNode)
    → Memᴰ c nodes
    → Reached nodes failed s
    → Reached nodes failed (spread_node s c)
unfolding Reached spread_node
Reached-spread_node nodes failed s c here (members, below) =
    elim (Bool-cases (contains c.node_id s.descendants)) [
      | inl e ↦ rw e (members, below)
      | inr e ↦ rw e elim (Bool-cases (any (λ dep. contains dep s.descendants) c.depends_on)) [
        | inl f ↦ rw f (
          λ x. ground (arith, members x, contains-snoc x c.node_id s.affected),
          λ x h. elim (Bool-cases (text_eq c.node_id x)) [
            | inl g ↦
                rw (← (text_eq_iff c.node_id x).0 g)
                  (Downstream-of nodes failed s c here (members, below) f)
            | inr g ↦ below x (ground (arith, h, g, contains-snoc x c.node_id s.affected))
          ],
        )
        | inr f ↦ rw f (members, below)
      ]
    ]

Reached-spread_nodes :
    (nodes : List DagNode) (failed : String) (s : Spread) (cs : List DagNode)
    → ((c : DagNode) → Memᴰ c cs → Memᴰ c nodes)
    → Reached nodes failed s
    → Reached nodes failed (spread_nodes s cs)
unfolding spread_nodes
Reached-spread_nodes nodes failed s [] sub h = h
Reached-spread_nodes nodes failed s (c ∷ cs) sub h =
    Reached-spread_nodes nodes failed (spread_node s c) cs (λ d inside. sub d (Memᴰ.tail inside))
      (Reached-spread_node nodes failed s c (sub c (Memᴰ.head refl)) h)

Reached-again :
    (nodes : List DagNode) (failed : String) (s : Spread)
    → Reached nodes failed s
    → Reached nodes failed (record s { changed = false })
unfolding Reached
Reached-again nodes failed s h = h

Reached-failed_at :
    (nodes : List DagNode) (failed : String) → Reached nodes failed (failed_at failed)
unfolding Reached
Reached-failed_at nodes failed = (λ x. refl, λ x h. ground (arith, h))

pass-Shrinks :
    (nodes : List DagNode) (s : Spread)
    → Shrinks nodes
        (record s { changed = false })
        (spread_nodes (record s { changed = false }) nodes)
pass-Shrinks nodes s =
    Shrinks-spread_nodes nodes (record s { changed = false }) nodes λ x inside. inside

shrunk :
    (nodes : List DagNode) (s : Spread) {fuel : ℕ}
    → (spread_nodes (record s { changed = false }) nodes).changed ≡ true
    → outside s.descendants nodes < suc fuel
    → outside (spread_nodes (record s { changed = false }) nodes).descendants nodes < fuel
unfolding Shrinks
shrunk nodes s more enough = ground (arith, more, enough, pass-Shrinks nodes s)

-- The loop ends, with the descendants closed, when there is more fuel than nodes outside.
spread-ends :
    (fuel : ℕ) (nodes : List DagNode) (failed : String) (s : Spread)
    → (s.changed ≡ true → outside s.descendants nodes < fuel)
    → (s.changed ≡ false → closed s.descendants nodes ≡ true)
    → Reached nodes failed s
    → (after : Spread) × (spread fuel nodes s ≡ some after)
      × (closed after.descendants nodes ≡ true)
      × Reached nodes failed after
unfolding spread
spread-ends zero nodes failed s enough shut reached = elim (Bool-cases s.changed) [
  | inl e ↦ absurd (omega (arith, enough e))
  | inr e ↦ (s, rw e refl, shut e, reached)
]
spread-ends (suc fuel) nodes failed s enough shut reached = elim (Bool-cases s.changed) [
  | inl e ↦
      rw e
        let again = record s { changed = false } in
          spread-ends fuel nodes failed (spread_nodes again nodes)
            (λ more. shrunk nodes s more (enough e))
            (λ ended. let end = closed-unchanged again nodes ended in rw end.1 end.0)
            (Reached-spread_nodes nodes failed again nodes (λ c inside. inside)
              (Reached-again nodes failed s reached))
  | inr e ↦ (s, rw e refl, shut e, reached)
]

any-common :
    (x : String) (xs ys : List String)
    → contains x xs ≡ true
    → contains x ys ≡ true
    → any (λ y. contains y ys) xs ≡ true
any-common x [] ys h inside = ground (arith, h)
any-common x (z ∷ xs) ys h inside = ground (arith, h, inside, text_eq_iff z x, any-common x xs ys)

-- A node that depends on the failed one is among the descendants when these are closed.
closed-contains :
    (ds : List String) (nodes : List DagNode) (node : DagNode) (dep : String)
    → closed ds nodes ≡ true
    → Memᴰ node nodes
    → contains dep node.depends_on ≡ true
    → contains dep ds ≡ true
    → contains node.node_id ds ≡ true
closed-contains ds [] node dep shut nowhere here inside = elim nowhere [ ]
closed-contains ds (c ∷ nodes) node dep shut (Memᴰ.head e) here inside =
    let met = any-common dep node.depends_on ds here inside in
    rw e (
      ground
        (arith, shut, subst (λ (n : DagNode). any (λ d. contains d ds) n.depends_on ≡ true) e met))
closed-contains ds (c ∷ nodes) node dep shut (Memᴰ.tail later) here inside =
    closed-contains ds nodes node dep (ground (arith, shut)) later here inside

Downstream-contains :
    (nodes : List DagNode) (failed : String) (ds : List String)
    → closed ds nodes ≡ true
    → contains failed ds ≡ true
    → (x : String) → Downstream nodes failed x
    → contains x ds ≡ true
Downstream-contains nodes failed ds shut start x (directly {node} here dep) =
    closed-contains ds nodes node failed shut here dep start
Downstream-contains nodes failed ds shut start x (further {node} {dep} here inside rest) =
    closed-contains ds nodes node dep shut here inside
      (Downstream-contains nodes failed ds shut start dep rest)

among :
    (nodes : List DagNode) (failed : String) (after : Spread)
    → closed after.descendants nodes ≡ true
    → Reached nodes failed after
    → (x : String) → x ≢ failed
    → Downstream nodes failed x
    → contains x after.affected ≡ true
unfolding Reached
among nodes failed after shut (members, sound) x other below =
    let start : contains failed after.descendants ≡ true =
      ground (arith, members failed, text_eq_iff failed failed) in
    ground (
      arith,
      other,
      members x,
      text_eq_iff failed x,
      Downstream-contains nodes failed after.descendants shut start x below,
    )

-- `execute_dag` finds the nodes behind a failed one in as many passes as there are nodes and one:
-- they are the other nodes that depend on it, at once or by way of others.
pub affected_by-Downstream :
    (nodes : List DagNode) (failed : String)
    → (after : Spread) × (affected_by nodes failed ≡ some after)
      × ((x : String) → x ≢ failed → (contains x after.affected ≡ true) ↔ Downstream nodes failed x)
unfolding affected_by Reached
affected_by-Downstream nodes failed =
    let end =
      spread-ends (suc (length nodes)) nodes failed (failed_at failed)
        (λ more. omega (arith, outside-le_length (failed ∷ []) nodes)) (λ ended. cc)
        (Reached-failed_at nodes failed) in
    (
      end.0,
      end.1,
      λ x other. (end.3.1 x, λ below. among nodes failed end.0 end.2 end.3 x other below),
    )
