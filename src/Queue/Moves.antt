-- ===== src/Queue/Moves.antt =====
-- What a call may do to the items: the state machine of the queue.
use autonomous_ai_scout.Base.{◌≡◌, refl, Bool, true, false, ◌⊎◌, inl, List, [], ◌∷◌}
use autonomous_ai_scout.Queue.Item.{
  QueueState, pending, running, recovery_required, succeeded, failed, cancelled, QueueItem,
}

-- The moves of the state machine: a claim, a lost worker, a confirmed recovery, the two ways to
-- finish, and a cancellation before the work starts.
abbrev pub may_move : QueueState → QueueState → Bool
may_move pending running = true
may_move running recovery_required = true
may_move recovery_required pending = true
may_move running succeeded = true
may_move running failed = true
may_move pending cancelled = true
may_move recovery_required cancelled = true
may_move _ _ = false

-- An item that moved: its identity, its task and its schedule stay.
pub record Moved (x y : QueueItem) : Type 0 where
  pub move : may_move x.state y.state ≡ true
  pub task_id : y.task_id ≡ x.task_id
  pub task : y.task ≡ x.task
  pub execution_id : y.execution_id ≡ x.execution_id
  pub created_at : y.created_at ≡ x.created_at
  pub available_at : y.available_at ≡ x.available_at

abbrev pub ItemStep : QueueItem → QueueItem → Type 0
ItemStep x y = (y ≡ x) ⊎ Moved x y

-- Item by item, in place; new items come last and are pending.
abbrev pub Evolves : List QueueItem → List QueueItem → Type 0
Evolves [] [] = Unit
Evolves [] (y ∷ ys) = (y.state ≡ pending) × Evolves [] ys
Evolves (x ∷ xs) [] = ⊥
Evolves (x ∷ xs) (y ∷ ys) = ItemStep x y × Evolves xs ys

pub Evolves-refl : (xs : List QueueItem) → Evolves xs xs
Evolves-refl [] = tt
Evolves-refl (x ∷ xs) = (inl refl, Evolves-refl xs)
