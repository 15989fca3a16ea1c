-- ===== src/Queue/Replaced.antt =====
-- The loops that rewrite one item: what they return, and which item they chose.
use autonomous_ai_scout.Base.{
  ℕ, String, ◌≡◌, refl, ap, true, false, ◌⊎◌, inl, inr, some, Result, ok, List, [], ◌∷◌, ◌++◌,
  text_eq, Bool-cases, All, arith,
}
use autonomous_ai_scout.Queue.Item.{QueueItem, is_pending, ready}
use autonomous_ai_scout.Queue.Store.{Outside, update_first, claim_first, claimed}
use autonomous_ai_scout.Queue.Moves.{Moved, Evolves, Evolves-refl}

-- `ys` is `xs` with one item `x` replaced by `y`; `Skipped` holds of the items before it.
pub record Replaced (Skipped : QueueItem → Type 0) (xs ys : List QueueItem) (x y : QueueItem)
    : Type 0 where
  pub before : List QueueItem
  pub after : List QueueItem
  pub skipped : All Skipped before
  pub was : xs ≡ before ++ x ∷ after
  pub is : ys ≡ before ++ y ∷ after

splice-Evolves :
    (before after : List QueueItem) {x y : QueueItem}
    → Moved x y
    → Evolves (before ++ x ∷ after) (before ++ y ∷ after)
splice-Evolves [] after m = (inr m, Evolves-refl after)
splice-Evolves (z ∷ before) after m = (inl refl, splice-Evolves before after m)

splice-All :
    (P : QueueItem → Type 0) (before after : List QueueItem) {x y : QueueItem}
    → All P (before ++ x ∷ after)
    → (P x → P y)
    → All P (before ++ y ∷ after)
splice-All P [] after h f = (f h.0, h.1)
splice-All P (z ∷ before) after h f = (h.0, splice-All P before after h.1 f)

module _ {Skipped : QueueItem → Type 0} where
  pub Replaced-here :
      (xs : List QueueItem) (x y : QueueItem) → Replaced Skipped (x ∷ xs) (y ∷ xs) x y
  Replaced-here xs x y = record { before = []; after = xs; skipped = tt; was = refl; is = refl }

  pub Replaced-later :
      {xs ys : List QueueItem} {x y : QueueItem} (z : QueueItem)
      → Skipped z
      → Replaced Skipped xs ys x y
      → Replaced Skipped (z ∷ xs) (z ∷ ys) x y
  Replaced-later z s r = record {
    before = z ∷ r.before;
    after = r.after;
    skipped = (s, r.skipped);
    was = ap (λ l. z ∷ l) r.was;
    is = ap (λ l. z ∷ l) r.is;
  }

  pub Replaced-Evolves :
      {xs ys : List QueueItem} {x y : QueueItem}
      → Moved x y
      → Replaced Skipped xs ys x y
      → Evolves xs ys
  Replaced-Evolves m r = rw (r.was, r.is) (splice-Evolves r.before r.after m)

  pub Replaced-All :
      {xs ys : List QueueItem} {x y : QueueItem} (P : QueueItem → Type 0)
      → All P xs
      → (P x → P y)
      → Replaced Skipped xs ys x y
      → All P ys
  Replaced-All P h f r = rw r.is (splice-All P r.before r.after (rw r.was at h) f)

module _ (task_id : String) (f : QueueItem → Result QueueItem) (x : QueueItem) (xs : List QueueItem)
    {y : QueueItem} {ys : List QueueItem}
    (found : update_first task_id f (x ∷ xs) ≡ ok (y, ys)) where
  update_first-here : text_eq x.task_id task_id ≡ true → (f x ≡ ok y) × (ys ≡ y ∷ xs)
  unfolding update_first
  update_first-here e = ground arith

  update_first-there :
      text_eq x.task_id task_id ≡ false
      → (zs : List QueueItem) × (update_first task_id f xs ≡ ok (y, zs)) × (ys ≡ x ∷ zs)
  unfolding update_first
  update_first-there e = ground arith

-- The item that `update_first` finds is the first with the id.
pub update_first-Replaced :
    (task_id : String) (f : QueueItem → Result QueueItem) (xs : List QueueItem) {y : QueueItem}
    {ys : List QueueItem}
    → update_first task_id f xs ≡ ok (y, ys)
    → (x : QueueItem) × (text_eq x.task_id task_id ≡ true)
      × (f x ≡ ok y)
      × Replaced (λ z. text_eq z.task_id task_id ≡ false) xs ys x y
update_first-Replaced task_id f [] h = absurd (unfold update_first in cc)
update_first-Replaced task_id f (x ∷ xs) {y} {ys} h =
    elim (Bool-cases (text_eq x.task_id task_id)) [
      | inl e ↦
          let (done, same) = update_first-here task_id f x xs h e in
          (x, e, done, rw same (Replaced-here xs x y))
      | inr e ↦
          let (zs, later, same) = update_first-there task_id f x xs h e in
          let (x', named, done, r) = update_first-Replaced task_id f xs later in
          (x', named, done, rw same (Replaced-later x e r))
    ]

-- Not claimable at the instant: not pending, or not due.
abbrev pub IsPassedOver : Outside → ℕ → QueueItem → Type 0
IsPassedOver outside instant x =
    (is_pending x.state ≡ false) ⊎ (ready outside.calendar instant x ≡ ok false)

module _ (outside : Outside) (instant : ℕ) (now : String) (x : QueueItem) (xs : List QueueItem)
    {y : QueueItem} {ys : List QueueItem}
    (found : claim_first outside instant now (x ∷ xs) ≡ ok (some (y, ys))) where
  claim_first-cases :
      (is_pending x.state ≡ true)
        × (ready outside.calendar instant x ≡ ok true)
        × (y ≡ claimed now x)
        × (ys ≡ claimed now x ∷ xs)
      ⊎ (zs : List QueueItem) × IsPassedOver outside instant x
        × (claim_first outside instant now xs ≡ ok (some (y, zs)))
        × (ys ≡ x ∷ zs)
  unfolding claim_first
  claim_first-cases = ground arith

-- The item that `claim_first` claims is the first that is pending and due.
pub claim_first-Replaced :
    (outside : Outside) (instant : ℕ) (now : String) (xs : List QueueItem) {y : QueueItem}
    {ys : List QueueItem}
    → claim_first outside instant now xs ≡ ok (some (y, ys))
    → (x : QueueItem) × (is_pending x.state ≡ true)
      × (ready outside.calendar instant x ≡ ok true)
      × (y ≡ claimed now x)
      × Replaced (IsPassedOver outside instant) xs ys x (claimed now x)
claim_first-Replaced outside instant now [] h = absurd (unfold claim_first in cc)
claim_first-Replaced outside instant now (x ∷ xs) h =
    elim (claim_first-cases outside instant now x xs h) [
      | inl (p, due, e, same) ↦ (x, p, due, e, rw same (Replaced-here xs x (claimed now x)))
      | inr (zs, passed, later, same) ↦
          let (x', p, due, e, r) = claim_first-Replaced outside instant now xs later in
          (x', p, due, e, rw same (Replaced-later x passed r))
    ]

splice-at :
    (P : QueueItem → Type 0) (before after : List QueueItem) {x : QueueItem}
    → All P (before ++ x ∷ after)
    → P x
splice-at P [] after h = h.0
splice-at P (z ∷ before) after h = splice-at P before after h.1

-- What holds of all items holds of the one that was replaced.
pub Replaced-at :
    {Skipped : QueueItem → Type 0} {xs ys : List QueueItem} {x y : QueueItem}
    (P : QueueItem → Type 0)
    → All P xs
    → Replaced Skipped xs ys x y
    → P x
Replaced-at P h r = splice-at P r.before r.after (rw r.was at h)
