-- ===== src/Queue/Claims.antt =====
-- Which task `claim_next` takes, and what happens at the attempt bound.
use autonomous_ai_scout.Base.{
  ℕ, String, ◌≡◌, refl, true, inl, inr, none, some, ok, ◌>>=◌, List, [], ◌∷◌, ◌++◌, All, arith, pos,
  ◌≢◌,
}
use autonomous_ai_scout.Storage.{File}
use autonomous_ai_scout.Queue.Item.{QueueItem, is_pending, ready, validate_item, IsValidItem}
use autonomous_ai_scout.Queue.Disk.{save, load-save_inv}
use autonomous_ai_scout.Queue.Store.{
  Outside, claim_first, claim_items, claim_next, claimed, pass_over,
}
use autonomous_ai_scout.Queue.Writes.{loads}
use autonomous_ai_scout.Queue.Replaced.{IsPassedOver}

module _ (outside : Outside) (instant : ℕ) (now : String) where
  claim_first-skip :
      (x : QueueItem) (xs : List QueueItem)
      → IsPassedOver outside instant x
      → claim_first outside instant now (x ∷ xs)
        ≡ (claim_first outside instant now xs >>= λ rest. ok (pass_over x rest))
  unfolding claim_first
  claim_first-skip x xs (inl e) = rw e
  claim_first-skip x xs (inr e) = ground arith

  claim_first-take :
      (x : QueueItem) (xs : List QueueItem)
      → is_pending x.state ≡ true
      → ready outside.calendar instant x ≡ ok true
      → claim_first outside instant now (x ∷ xs) ≡ ok (some (claimed now x, claimed now x ∷ xs))
  unfolding claim_first
  claim_first-take x xs p due = rw (p, due)

  claim_first-found :
      (before after : List QueueItem) (x : QueueItem)
      → All (IsPassedOver outside instant) before
      → is_pending x.state ≡ true
      → ready outside.calendar instant x ≡ ok true
      → claim_first outside instant now (before ++ x ∷ after)
        ≡ ok (some (claimed now x, before ++ claimed now x ∷ after))
  claim_first-found [] after x skipped p due = claim_first-take x after p due
  claim_first-found (z ∷ before) after x skipped p due = rw (
    claim_first-skip z (before ++ x ∷ after) skipped.0,
    claim_first-found before after x skipped.1 p due,
  )

  claim_first-none :
      (xs : List QueueItem)
      → All (IsPassedOver outside instant) xs
      → claim_first outside instant now xs ≡ ok none
  claim_first-none [] h = unfold claim_first in refl
  claim_first-none (x ∷ xs) h = rw (claim_first-skip x xs h.0, claim_first-none xs h.1)

  -- A claim takes the first task that is pending and due: it returns that task, running and with one
  -- more attempt, and saves the queue with this one item replaced and the others as they were.
  pub claim_next-first :
      (file : File) (before after : List QueueItem) (x : QueueItem)
      → loads outside file ≡ ok (before ++ x ∷ after)
      → All (IsPassedOver outside instant) before
      → is_pending x.state ≡ true
      → ready outside.calendar instant x ≡ ok true
      → claim_next outside instant now file
        ≡ (ok (some (claimed now x)), save (before ++ claimed now x ∷ after))
  unfolding claim_next claim_items
  claim_next-first file before after x loaded skipped p due =
      rw (loaded, claim_first-found before after x skipped p due)

  -- Where no task is pending and due, a claim returns none and does not write.
  pub claim_next-none :
      (file : File) (xs : List QueueItem)
      → loads outside file ≡ ok xs
      → All (IsPassedOver outside instant) xs
      → claim_next outside instant now file ≡ (ok none, file)
  unfolding claim_next claim_items
  claim_next-none file xs loaded skipped = rw (loaded, claim_first-none xs skipped)

  claimed-not_valid :
      (x : QueueItem) → x.attempts ≡ pos 1000 → IsValidItem outside.calendar (claimed now x) → ⊥
  unfolding claimed validate_item
  claimed-not_valid x full valid = ground arith

  All-here :
      (P : QueueItem → Type 0) (before after : List QueueItem) (x : QueueItem)
      → All P (before ++ x ∷ after)
      → P x
  All-here P [] after x h = h.0
  All-here P (z ∷ before) after x h = All-here P before after x h.1

  -- A claim of a task that already has 1000 attempts returns the task, and saves a queue that no
  -- later call can load.
  pub claim_next-bricks :
      (file : File) (before after : List QueueItem) (x : QueueItem)
      → loads outside file ≡ ok (before ++ x ∷ after)
      → All (IsPassedOver outside instant) before
      → is_pending x.state ≡ true
      → ready outside.calendar instant x ≡ ok true
      → x.attempts ≡ pos 1000
      → ((claim_next outside instant now file).0 ≡ ok (some (claimed now x)))
        × ((ys : List QueueItem) → loads outside (claim_next outside instant now file).1 ≢ ok ys)
  claim_next-bricks file before after x loaded skipped p due full =
      rw (claim_next-first file before after x loaded skipped p due) (
        refl,
        λ ys h. claimed-not_valid x full (
            All-here (IsValidItem outside.calendar) before after (claimed now x)
              (load-save_inv outside.calendar outside.convert (before ++ claimed now x ∷ after)
                h).1),
      )
