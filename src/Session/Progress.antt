-- ===== src/Session/Progress.antt =====
-- Lemmas on the lists and mappings in which a session (workflow/session.py) keeps its progress.
use autonomous_ai_scout.Base.{
  keys, ℕ, ◌≤◌, String, ◌≡◌, refl, Bool, true, false, ◌&&◌, ◌||◌, List, [], ◌∷◌, ◌++◌, length,
  contains, text_eq, text_eq_comm, insert, Dict, Bool-cases, inl, inr, arith, distinct,
}
use autonomous_ai_scout.Session.Model.{take_last, add_once}

pub length-take_last : (n : ℕ) (xs : List String) → length (take_last n xs) ≤ n
unfolding take_last
length-take_last n [] = omega arith
length-take_last n (x ∷ xs) = ground (arith, length-take_last n xs)

pub contains-keys-insert :
    (x k v : String) (d : Dict String)
    → contains x (keys d) ≡ true
    → contains x (keys (insert k v d)) ≡ true
unfolding insert
contains-keys-insert x k v [] h = cc
contains-keys-insert x k v ((j, w) ∷ d) h = ground (arith, contains-keys-insert x k v d)

pub distinct-append :
    (x : String) (xs : List String)
    → distinct xs ≡ true
    → contains x xs ≡ false
    → distinct (xs ++ x ∷ []) ≡ true
distinct-append x [] d h = refl
distinct-append x (y ∷ xs) d h =
    ground (arith, distinct-append x xs, contains-append y x xs, text_eq_comm x y)
  where
    contains-append :
        (z w : String) (ys : List String)
        → contains z (ys ++ w ∷ []) ≡ (contains z ys || text_eq w z)
    contains-append z w [] = ground arith
    contains-append z w (v ∷ ys) = ground (arith, contains-append z w ys)

pub add_once-distinct :
    (x : String) (xs : List String) → distinct xs ≡ true → distinct (add_once x xs) ≡ true
add_once-distinct x xs d = elim (Bool-cases (contains x xs)) [
  | inl e ↦ rw e d
  | inr e ↦ rw e (distinct-append x xs d e)
]

-- Each text of the first list is in the second.
unfoldable pub are_in : List String → List String → Bool
are_in [] ys = true
are_in (x ∷ xs) ys = contains x ys && are_in xs ys

pub are_in-insert :
    (k v : String) (d : Dict String) (xs : List String)
    → are_in xs (keys d) ≡ true
    → are_in xs (keys (insert k v d)) ≡ true
unfolding are_in
are_in-insert k v d [] h = refl
are_in-insert k v d (x ∷ xs) h =
    ground (arith, contains-keys-insert x k v d, are_in-insert k v d xs)

pub are_in-append :
    (x : String) (xs ys : List String)
    → are_in xs ys ≡ true
    → contains x ys ≡ true
    → are_in (xs ++ x ∷ []) ys ≡ true
unfolding are_in
are_in-append x [] ys h c = ground arith
are_in-append x (z ∷ xs) ys h c = ground (arith, are_in-append x xs ys)

pub are_in-add_once :
    (x : String) (xs ys : List String)
    → are_in xs ys ≡ true
    → contains x ys ≡ true
    → are_in (add_once x xs) ys ≡ true
are_in-add_once x xs ys h c = ground (arith, are_in-append x xs ys h c)
