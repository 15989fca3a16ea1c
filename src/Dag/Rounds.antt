-- ===== src/Dag/Rounds.antt =====
-- task_dag.py: what the rounds of `topological_order` keep, from the waiting nodes to the order.
use autonomous_ai_scout.Base.{
  count, keys, ℕ, suc, zero, ◌+◌, ◌≤◌, String, Bool, true, not, ◌||◌, ◌&&◌, List, [], ◌∷◌, ◌++◌,
  ◌≡◌, refl, keep, contains, is_nil, length, if◌then◌else◌, text_eq_iff, arith, lookup, Option,
  some, none, ◌≢◌, inl, inr, Bool-cases,
}
use autonomous_ai_scout.Dag.Graph.{
  Waiting, is_ready, ready_nodes, drop_dependencies, next_waiting, sorted, out_of_fuel, rounds,
}
use autonomous_ai_scout.Dag.Counts.{
  count-append, count-next_waiting, length-next_waiting, contains-sort_texts,
}
use autonomous_ai_scout.Dag.Ordered.{respects, respects-append}

pub rounds-ends :
    (fuel : ℕ) (w : Waiting) (order : List String)
    → length w ≤ fuel
    → rounds fuel w order ≢ out_of_fuel
unfolding rounds
rounds-ends fuel [] order enough h = cc
rounds-ends zero (entry ∷ w) order enough h = absurd (omega arith)
rounds-ends (suc fuel) (entry ∷ w) order enough h =
    elim (Bool-cases (is_nil (ready_nodes (entry ∷ w)))) [
      | inl e ↦ ground (arith, e, h)
      | inr e ↦
          rounds-ends fuel (next_waiting (ready_nodes (entry ∷ w)) (entry ∷ w))
            (order ++ ready_nodes (entry ∷ w)) (omega (arith, length-next_waiting (entry ∷ w) e))
            (ground (arith, e, h))
    ]

pub next-once :
    (w : Waiting) (x : String)
    → count x (keys w) ≤ 1
    → count x (keys (next_waiting (ready_nodes w) w)) ≤ 1
next-once w x once = omega (arith, count-next_waiting x w once)

pub count-rounds :
    (fuel : ℕ) (w : Waiting) (order out : List String)
    → ((x : String) → count x (keys w) ≤ 1)
    → rounds fuel w order ≡ sorted out
    → (x : String) → count x out ≡ count x order + count x (keys w)
unfolding rounds count
count-rounds fuel [] order out once h x = ground (arith, h)
count-rounds zero (entry ∷ w) order out once h x = cc
count-rounds (suc fuel) (entry ∷ w) order out once h x =
    elim (Bool-cases (is_nil (ready_nodes (entry ∷ w)))) [
      | inl e ↦ ground (arith, e, h)
      | inr e ↦ omega (
        arith,
        count-rounds fuel (next_waiting (ready_nodes (entry ∷ w)) (entry ∷ w))
            (order ++ ready_nodes (entry ∷ w)) out (λ y. next-once (entry ∷ w) y (once y))
            (ground (arith, e, h)) x,
        count-next_waiting x (entry ∷ w) (once x),
        count-append x order (ready_nodes (entry ∷ w)),
      )
    ]

kept-key :
    (x : String) (w : Waiting) → contains x (keys (keep is_ready w)) ≡ true → 1 ≤ count x (keys w)
unfolding keep count
kept-key x [] h = ground (arith, h)
kept-key x (entry ∷ w) h = ground (arith, h, kept-key x w)

lookup-ready :
    (x : String) (w : Waiting)
    → count x (keys w) ≤ 1
    → contains x (keys (keep is_ready w)) ≡ true
    → lookup x w ≡ some []
unfolding lookup keep count
lookup-ready x [] once h = ground (arith, h)
lookup-ready x ((id, []) ∷ w) once h = ground (arith, h, lookup-ready x w, text_eq_iff id x)
lookup-ready x ((id, d ∷ deps) ∷ w) once h =
    ground (arith, h, lookup-ready x w, text_eq_iff id x, kept-key x w)

-- The dependencies that a node still waits for behind a round.
unfoldable left_of : List String → Option (List String) → Option (List String)
unfolding keep
left_of ready none = none
left_of ready (some deps) = some (keep (λ d. not (contains d ready)) deps)

lookup-next_waiting :
    (x : String) (ready : List String) (w : Waiting)
    → lookup x (next_waiting ready w)
      ≡ (if contains x ready then none else left_of ready (lookup x w))
unfolding next_waiting drop_dependencies lookup keep left_of
lookup-next_waiting x ready [] = ground arith
lookup-next_waiting x ready ((id, deps) ∷ w) =
    ground (arith, text_eq_iff id x, lookup-next_waiting x ready w)

contains-keep :
    (x : String) (p : String → Bool) (xs : List String)
    → contains x (keep p xs) ≡ (contains x xs && p x)
unfolding keep
contains-keep x p [] = refl
contains-keep x p (y ∷ ys) = ground (arith, text_eq_iff y x, contains-keep x p ys)

contains-append :
    (x : String) (xs ys : List String) → contains x (xs ++ ys) ≡ (contains x xs || contains x ys)
contains-append x [] ys = refl
contains-append x (y ∷ xs) ys = ground (arith, contains-append x xs ys)

-- What a waiting node still waits for are those of its dependencies that are not in the order.
abbrev pub Waits : (String → List String) → Waiting → List String → Type 0
Waits deps w order =
    (x : String) (left : List String)
    → lookup x w ≡ some left
    → (d : String) → contains d left ≡ (contains d (deps x) && not (contains d order))

pub Waits-next_waiting :
    (deps : String → List String) (w : Waiting) (order ready : List String)
    → Waits deps w order
    → Waits deps (next_waiting ready w) (order ++ ready)
unfolding left_of
Waits-next_waiting deps w order ready waits x left h d =
    let before : (old : List String)
        → lookup x w ≡ some old
        → contains d old ≡ (contains d (deps x) && not (contains d order)) =
      λ old e. waits x old e d in
    still_waits (lookup x w) refl before
  where
    still_waits :
        (found : Option (List String))
        → lookup x w ≡ found
        → ((old : List String)
            → lookup x w ≡ some old
            → contains d old ≡ (contains d (deps x) && not (contains d order)))
        → contains d left ≡ (contains d (deps x) && not (contains d (order ++ ready)))
    still_waits none e before = ground (arith, e, h, lookup-next_waiting x ready w)
    still_waits (some old) e before = ground (
      arith,
      e,
      h,
      before old e,
      lookup-next_waiting x ready w,
      contains-keep d (λ d. not (contains d ready)) old,
      contains-append d order ready,
    )

-- What a ready node depends on is in the order.
ready_done :
    (deps : String → List String) (w : Waiting) (order : List String)
    → ((x : String) → count x (keys w) ≤ 1)
    → Waits deps w order
    → (x d : String) → contains x (ready_nodes w) ≡ true
    → contains d (deps x) ≡ true
    → contains d order ≡ true
unfolding ready_nodes
ready_done deps w order once waits x d inside dep =
    let found =
      lookup-ready x w (once x)
        (ground (arith, inside, contains-sort_texts x (keys (keep is_ready w)))) in
    ground (arith, dep, waits x [] found d)

pub respects-rounds :
    (deps : String → List String) (fuel : ℕ) (w : Waiting) (order out : List String)
    → ((x : String) → count x (keys w) ≤ 1)
    → Waits deps w order
    → respects deps [] order ≡ true
    → rounds fuel w order ≡ sorted out
    → respects deps [] out ≡ true
unfolding rounds
respects-rounds deps fuel [] order out once waits o h = ground (arith, h, o)
respects-rounds deps zero (entry ∷ w) order out once waits o h = cc
respects-rounds deps (suc fuel) (entry ∷ w) order out once waits o h =
    elim (Bool-cases (is_nil (ready_nodes (entry ∷ w)))) [
      | inl e ↦ ground (arith, e, h)
      | inr e ↦
          respects-rounds deps fuel (next_waiting (ready_nodes (entry ∷ w)) (entry ∷ w))
            (order ++ ready_nodes (entry ∷ w)) out (λ y. next-once (entry ∷ w) y (once y))
            (Waits-next_waiting deps (entry ∷ w) order (ready_nodes (entry ∷ w)) waits)
            (respects-append deps [] order (ready_nodes (entry ∷ w)) o λ y d inside dep.
              ground (arith, dep, ready_done deps (entry ∷ w) order once waits y d inside))
            (ground (arith, e, h))
    ]
