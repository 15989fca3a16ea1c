-- ===== src/Dag/Counts.antt =====
-- task_dag.py: how often an id stands in the ready nodes, among the waiting ones and in the order,
-- and that a round takes nodes away.
use autonomous_ai_scout.Base.{
  count, keys, suc, ◌+◌, ◌≤◌, ◌<◌, String, Bool, true, false, ◌||◌, List, [], ◌∷◌, ◌++◌, ◌≡◌, refl,
  keep, any, contains, is_nil, length, if◌then◌else◌, text_eq, text_eq_iff, insert_text, sort_texts,
  insert, arith, not, ◌&&◌,
}
use autonomous_ai_scout.Dag.Graph.{
  Waiting, is_ready, is_left, ready_nodes, drop_dependencies, next_waiting, take_nodes, DagNode,
  node_ids,
}

pub count-contains : (x : String) (xs : List String) → contains x xs ≡ true → 1 ≤ count x xs
unfolding count
count-contains x [] h = ground (arith, h)
count-contains x (y ∷ ys) h = ground (arith, h, count-contains x ys)

pub count-absent : (x : String) (xs : List String) → contains x xs ≡ false → count x xs ≡ 0
unfolding count
count-absent x [] h = refl
count-absent x (y ∷ ys) h = ground (arith, h, count-absent x ys)

pub count-append : (x : String) (xs ys : List String) → count x (xs ++ ys) ≡ count x xs + count x ys
unfolding count
count-append x [] ys = omega arith
count-append x (y ∷ xs) ys = ground (arith, count-append x xs ys)

count-insert_text :
    (x y : String) (ys : List String) → count x (insert_text y ys) ≡ count x (y ∷ ys)
unfolding count insert_text
count-insert_text x y [] = refl
count-insert_text x y (z ∷ zs) = ground (arith, count-insert_text x y zs)

pub count-sort_texts : (x : String) (xs : List String) → count x (sort_texts xs) ≡ count x xs
unfolding count sort_texts
count-sort_texts x [] = refl
count-sort_texts x (y ∷ ys) =
    ground (arith, count-insert_text x y (sort_texts ys), count-sort_texts x ys)

-- Whether an id is contained can be read off its count.
pub contains-eq-count :
    (x : String) (xs ys : List String) → count x xs ≡ count x ys → contains x xs ≡ contains x ys
contains-eq-count x xs ys e =
    ground (arith, count-contains x xs, count-contains x ys, count-absent x xs, count-absent x ys)

pub contains-sort_texts :
    (x : String) (xs : List String) → contains x (sort_texts xs) ≡ contains x xs
contains-sort_texts x xs = contains-eq-count x (sort_texts xs) xs (count-sort_texts x xs)

count-keep_le :
    (x : String) (p : String × List String → Bool) (w : Waiting)
    → count x (keys (keep p w)) ≤ count x (keys w)
unfolding count keep
count-keep_le x p [] = omega arith
count-keep_le x p (entry ∷ w) = ground (arith, count-keep_le x p w)

pub keys-drop_dependencies :
    (ready : List String) (w : Waiting) → keys (drop_dependencies ready w) ≡ keys w
unfolding drop_dependencies
keys-drop_dependencies ready [] = refl
keys-drop_dependencies ready ((id, deps) ∷ w) = rw (keys-drop_dependencies ready w) refl

count-left :
    (x : String) (ready : List String) (w : Waiting)
    → count x (keys (keep (is_left ready) w)) ≡ (if contains x ready then 0 else count x (keys w))
unfolding count keep
count-left x ready [] = ground arith
count-left x ready ((id, deps) ∷ w) = ground (arith, count-left x ready w, text_eq_iff id x)

-- A round moves the ready ids from the waiting ones into the order.
pub count-next_waiting :
    (x : String) (w : Waiting)
    → count x (keys w) ≤ 1
    → count x (ready_nodes w) + count x (keys (next_waiting (ready_nodes w) w)) ≡ count x (keys w)
unfolding ready_nodes next_waiting
count-next_waiting x w once =
    rw (keys-drop_dependencies (ready_nodes w) (keep (is_left (ready_nodes w)) w)) ground (
      arith,
      count-left x (ready_nodes w) w,
      count-contains x (ready_nodes w),
      count-absent x (ready_nodes w),
      count-sort_texts x (keys (keep is_ready w)),
      count-keep_le x is_ready w,
    )

some_ready : (w : Waiting) → is_nil (ready_nodes w) ≡ false → any is_ready w ≡ true
unfolding ready_nodes sort_texts keep
some_ready [] h = ground (arith, h)
some_ready (entry ∷ w) h = ground (arith, h, some_ready w)

length-left_le : (ready : List String) (w : Waiting) → length (keep (is_left ready) w) ≤ length w
unfolding keep
length-left_le ready [] = omega arith
length-left_le ready (entry ∷ w) = ground (arith, length-left_le ready w)

length-left_lt :
    (ready : List String) (w : Waiting)
    → ((x : String) → contains x (keys (keep is_ready w)) ≡ true → contains x ready ≡ true)
    → any is_ready w ≡ true
    → length (keep (is_left ready) w) < length w
unfolding keep
length-left_lt ready [] sub h = ground (arith, h)
length-left_lt ready ((id, []) ∷ w) sub h =
    ground (arith, sub id, text_eq_iff id id, length-left_le ready w)
length-left_lt ready ((id, dep ∷ deps) ∷ w) sub h = ground (arith, h, length-left_lt ready w sub)

length-drop_dependencies :
    (ready : List String) (w : Waiting) → length (drop_dependencies ready w) ≡ length w
unfolding drop_dependencies
length-drop_dependencies ready [] = refl
length-drop_dependencies ready ((id, deps) ∷ w) = omega (arith, length-drop_dependencies ready w)

pub ready-contains :
    (w : Waiting) (x : String)
    → contains x (keys (keep is_ready w)) ≡ true
    → contains x (ready_nodes w) ≡ true
unfolding ready_nodes
ready-contains w x inside = rw (contains-sort_texts x (keys (keep is_ready w))) inside

-- A round that has a ready node leaves fewer nodes behind.
pub length-next_waiting :
    (w : Waiting)
    → is_nil (ready_nodes w) ≡ false
    → length (next_waiting (ready_nodes w) w) < length w
unfolding next_waiting
length-next_waiting w h =
    rw (length-drop_dependencies (ready_nodes w) (keep (is_left (ready_nodes w)) w))
      (length-left_lt (ready_nodes w) w (ready-contains w) (some_ready w h))

count-insert :
    (x k : String) (v : List String) (w : Waiting)
    → count x (keys (insert k v w)) ≡ (
        if text_eq k x && not (contains k (keys w))
        then suc (count x (keys w))
        else count x (keys w))
unfolding count insert
count-insert x k v [] = ground arith
count-insert x k v ((j, deps) ∷ w) =
    ground (arith, count-insert x k v w, text_eq_iff j k, text_eq_iff j x, text_eq_iff k x)

-- Each node's id is a key, once, however often it stands in the list.
pub count-take_nodes :
    (x : String) (w : Waiting) (nodes : List DagNode)
    → count x (keys w) ≤ 1
    → count x (keys (take_nodes w nodes))
      ≡ (if contains x (keys w) || contains x (node_ids nodes) then 1 else 0)
unfolding take_nodes
count-take_nodes x w [] once = ground (arith, count-contains x (keys w), count-absent x (keys w))
count-take_nodes x w (node ∷ nodes) once = ground (
  arith,
  count-insert x node.node_id node.depends_on w,
  count-contains x (keys w),
  count-absent x (keys w),
  count-contains x (keys (insert node.node_id node.depends_on w)),
  count-absent x (keys (insert node.node_id node.depends_on w)),
  text_eq_iff node.node_id x,
  count-take_nodes x (insert node.node_id node.depends_on w) nodes,
)
