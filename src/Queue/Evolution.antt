-- ===== src/Queue/Evolution.antt =====
-- Every call moves the items along the state machine, and no run takes back what finished.
use autonomous_ai_scout.Base.{
  ℕ, suc, String, ◌≡◌, refl, Bool, true, inl, inr, Option, none, some, Result, ok, err, ◌>>=◌,
  ok_unique, subst, List, [], ◌∷◌, ◌++◌, text_eq, Bool-cases, any, arith,
}
use autonomous_ai_scout.Storage.{File}
use autonomous_ai_scout.Queue.Item.{pending, is_pending, is_running, QueueItem, validate_item}
use autonomous_ai_scout.Queue.Store.{
  Outside, Change, saved, update_first, confirmed, completed, withdrawn, claimed, recovered,
  recover_all, recover_items, prepare, transact_prepared, enqueue_item, claim_first, claim_items,
  claim_change, enqueue, recover_running, confirm_recovery, claim_next, complete, cancel, transact,
}
use autonomous_ai_scout.Queue.Replaced.{
  Replaced-Evolves, update_first-Replaced, claim_first-Replaced,
}
use autonomous_ai_scout.Queue.Writes.{Writes, loads, transact-Writes}
use autonomous_ai_scout.Queue.Moves.{Moved, ItemStep, Evolves, Evolves-refl}
use autonomous_ai_scout.Queue.Command.{
  Command, enqueue_task, recover, confirm, claim, finish, withdraw, step,
}

confirmed-Moved :
    (now : String) (x : QueueItem) {y : QueueItem} → confirmed now x ≡ ok y → Moved x y
unfolding confirmed
confirmed-Moved now x h = ground arith

completed-Moved :
    (now : String) (success : Bool) (error : String) (x : QueueItem) {y : QueueItem}
    → completed now success error x ≡ ok y
    → Moved x y
unfolding completed
completed-Moved now success error x h = ground arith

withdrawn-Moved :
    (now : String) (x : QueueItem) {y : QueueItem} → withdrawn now x ≡ ok y → Moved x y
unfolding withdrawn
withdrawn-Moved now x h = ground arith

claimed-Moved : (now : String) (x : QueueItem) → is_pending x.state ≡ true → Moved x (claimed now x)
unfolding claimed
claimed-Moved now x h = ground arith

recovered-ItemStep : (now : String) (x : QueueItem) → ItemStep x (recovered now x)
unfolding recovered
recovered-ItemStep now x = elim (Bool-cases (is_running x.state)) [
  | inl e ↦ rw e (inr (ground arith))
  | inr e ↦ rw e (inl refl)
]

-- What an operation that rewrites one item saves.
saved-Evolves :
    (xs : List QueueItem) (r : Result (QueueItem × List QueueItem))
    → ((y : QueueItem) (ys : List QueueItem) → r ≡ ok (y, ys) → Evolves xs ys)
    → Writes (Evolves xs) (saved r)
saved-Evolves xs (ok (y, ys)) h = h y ys refl
saved-Evolves xs (err e) h = tt

update_first-Evolves :
    (task_id : String) (f : QueueItem → Result QueueItem)
    → ((x : QueueItem) (y : QueueItem) → f x ≡ ok y → Moved x y)
    → (xs : List QueueItem) → Writes (Evolves xs) (saved (update_first task_id f xs))
update_first-Evolves task_id f moves xs = saved-Evolves xs (update_first task_id f xs) λ y ys e.
    let (x, _, done, r) = update_first-Replaced task_id f xs e in
    Replaced-Evolves (moves x y done) r

recover_all-Evolves :
    (clock : ℕ → String) (n : ℕ) (xs : List QueueItem) → Evolves xs (recover_all clock n xs)
unfolding recover_all
recover_all-Evolves clock n [] = tt
recover_all-Evolves clock n (x ∷ xs) =
    (recovered-ItemStep (clock n) x, recover_all-Evolves clock (suc n) xs)

recover_items-Evolves :
    (outside : Outside) (clock : ℕ → String) (xs : List QueueItem)
    → Writes (Evolves xs) (recover_items outside clock xs)
unfolding recover_items
recover_items-Evolves outside clock xs =
    elim (Bool-cases (any (λ (item : QueueItem). is_running item.state) xs)) [
      | inl e ↦ rw e (recover_all-Evolves clock 0 xs)
      | inr e ↦ rw e tt
    ]

append-Evolves :
    (xs : List QueueItem) (y : QueueItem) → y.state ≡ pending → Evolves xs (xs ++ y ∷ [])
append-Evolves [] y h = (h, tt)
append-Evolves (x ∷ xs) y h = (inl refl, append-Evolves xs y h)

enqueue_item-Evolves :
    (outside : Outside) (item : QueueItem) (xs : List QueueItem)
    → item.state ≡ pending
    → Writes (Evolves xs) (enqueue_item outside item xs)
unfolding enqueue_item
enqueue_item-Evolves outside item xs h =
    elim (Bool-cases (any (λ (other : QueueItem). text_eq other.task_id item.task_id) xs)) [
      | inl e ↦ rw e tt
      | inr e ↦ rw e (checked (validate_item outside.calendar item))
    ]
  where
    checked :
        (r : Result (Unit {0})) → Writes (Evolves xs) (r >>= λ _. ok (item, some (xs ++ item ∷ [])))
    checked (ok u) = append-Evolves xs item h
    checked (err e) = tt

claim_items-Evolves :
    (outside : Outside) (instant : ℕ) (now : String) (xs : List QueueItem)
    → Writes (Evolves xs) (claim_items outside instant now xs)
unfolding claim_items
claim_items-Evolves outside instant now xs = go (claim_first outside instant now xs) refl
  where
    go :
        (r : Result (Option (QueueItem × List QueueItem)))
        → claim_first outside instant now xs ≡ r
        → Writes (Evolves xs) (r >>= claim_change)
    go (ok none) e = tt
    go (ok (some (y, ys))) e =
        let (x, p, _, _, r) = claim_first-Replaced outside instant now xs e in
        Replaced-Evolves (claimed-Moved now x p) r
    go (err _) e = tt

prepare-pending :
    (outside : Outside) (task task_id execution_id : String) (available_at : Option String)
    (arrival now : String) {item : QueueItem}
    → prepare outside task task_id execution_id available_at arrival now ≡ ok item
    → item.state ≡ pending
unfolding prepare
prepare-pending outside task task_id execution_id available_at arrival now h = ground arith

module _ (outside : Outside) {xs ys : List QueueItem} (file : File)
    (loaded : loads outside file ≡ ok xs) where
  evolves :
      {A : Type 0} (f : List QueueItem → Change A)
      → Writes (Evolves xs) (f xs)
      → loads outside (transact outside f file).1 ≡ ok ys
      → Evolves xs ys
  evolves f w h = transact-Writes outside (Evolves xs) file loaded (Evolves-refl xs) f w h

  enqueue-Evolves :
      (task task_id execution_id : String) (available_at : Option String) (arrival now : String)
      → loads outside (enqueue outside task task_id execution_id available_at arrival now file).1
        ≡ ok ys
      → Evolves xs ys
  unfolding enqueue
  enqueue-Evolves task task_id execution_id available_at arrival now h =
      go (prepare outside task task_id execution_id available_at arrival now) refl h
    where
      go :
          (r : Result QueueItem)
          → prepare outside task task_id execution_id available_at arrival now ≡ r
          → loads outside (transact_prepared outside r file).1 ≡ ok ys
          → Evolves xs ys
      go (ok item) e h =
          evolves (enqueue_item outside item)
            (enqueue_item-Evolves outside item xs
              (prepare-pending outside task task_id execution_id available_at arrival now e))
            h
      go (err _) e h = subst (Evolves xs) (ok_unique loaded h) (Evolves-refl xs)

  -- One call of any operation, when the queue loads before and after it: each item keeps its place,
  -- its identity, its task and its schedule, is unchanged or makes a move of the state machine, and
  -- an item that is new stands last and is pending.
  pub step-Evolves : (c : Command) → loads outside (step outside c file) ≡ ok ys → Evolves xs ys
  unfolding step enqueue recover_running confirm_recovery claim_next complete cancel
  step-Evolves (recover clock) h =
      evolves (recover_items outside clock) (recover_items-Evolves outside clock xs) h
  step-Evolves (confirm task_id now) h =
      evolves (λ items. saved (update_first task_id (confirmed now) items))
        (update_first-Evolves task_id (confirmed now) (λ x y. confirmed-Moved now x) xs) h
  step-Evolves (claim instant now) h =
      evolves (claim_items outside instant now) (claim_items-Evolves outside instant now xs) h
  step-Evolves (finish task_id success error now) h =
      evolves (λ items. saved (update_first task_id (completed now success error) items))
        (update_first-Evolves task_id (completed now success error)
          (λ x y. completed-Moved now success error x) xs)
        h
  step-Evolves (withdraw task_id now) h =
      evolves (λ items. saved (update_first task_id (withdrawn now) items))
        (update_first-Evolves task_id (withdrawn now) (λ x y. withdrawn-Moved now x) xs) h
  step-Evolves (enqueue_task task task_id execution_id available_at arrival now) h =
      enqueue-Evolves task task_id execution_id available_at arrival now h
