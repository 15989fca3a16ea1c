-- ===== src/Dag/Ordered.antt =====
-- task_dag.py: lists in which each id comes behind those that it depends on.
use autonomous_ai_scout.Base.{
  String, Bool, true, ◌||◌, ◌&&◌, List, [], ◌∷◌, ◌++◌, ◌≡◌, refl, all, contains, text_eq_iff, arith,
}

-- Each text of a list has its dependencies before it, in the list or among those that came earlier.
unfoldable pub respects : (String → List String) → List String → List String → Bool
respects deps before [] = true
respects deps before (x ∷ xs) =
    all (λ d. contains d before) (deps x) && respects deps (x ∷ before) xs

pub all-of_each :
    (p : String → Bool) (xs : List String)
    → ((x : String) → contains x xs ≡ true → p x ≡ true)
    → all p xs ≡ true
all-of_each p [] h = refl
all-of_each p (x ∷ xs) h =
    let rest = all-of_each p xs λ y inside. h y (ground (arith, inside)) in
    ground (arith, h x, text_eq_iff x x, rest)

pub each-of_all :
    (p : String → Bool) (xs : List String) (x : String)
    → all p xs ≡ true
    → contains x xs ≡ true
    → p x ≡ true
each-of_all p [] x h inside = ground (arith, inside)
each-of_all p (y ∷ ys) x h inside = ground (arith, h, inside, text_eq_iff y x, each-of_all p ys x)

-- The nodes behind an respects list may follow it when what they depend on came before.
respects-behind :
    (deps : String → List String) (before xs : List String)
    → ((x d : String)
        → contains x xs ≡ true
        → contains d (deps x) ≡ true
        → contains d before ≡ true)
    → respects deps before xs ≡ true
unfolding respects
respects-behind deps before [] h = refl
respects-behind deps before (x ∷ xs) h =
    let first =
      all-of_each (λ d. contains d before) (deps x) λ d. h x d (ground (arith, text_eq_iff x x)) in
    let later =
      respects-behind deps (x ∷ before) xs λ y d inside dep. ground (arith, h y d, inside, dep) in
    ground (arith, first, later)

pub respects-append :
    (deps : String → List String) (before xs ys : List String)
    → respects deps before xs ≡ true
    → ((y d : String)
        → contains y ys ≡ true
        → contains d (deps y) ≡ true
        → (contains d before || contains d xs) ≡ true)
    → respects deps before (xs ++ ys) ≡ true
unfolding respects
respects-append deps before [] ys o h =
    respects-behind deps before ys λ y d inside dep. ground (arith, h y d inside dep)
respects-append deps before (x ∷ xs) ys o h =
    let later = λ (o1 : respects deps (x ∷ before) xs ≡ true).
      respects-append deps (x ∷ before) xs ys o1
        λ y d inside dep. ground (arith, h y d inside dep) in
    ground (arith, o, later)
