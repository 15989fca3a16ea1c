-- ===== src/Worker/Rounds.antt =====
-- background_worker.py: the rounds of a run of the worker, and what its result counts.
use autonomous_ai_scout.Base.{
  ℕ, zero, suc, ◌+◌, ◌≤◌, ◌<◌, String, ◌≡◌, refl, sym, subst, Option, none, some, Result, ok, err,
  List, [], ◌∷◌, length, arith, if◌then◌else◌, ◌⊎◌, inl, inr,
}
use autonomous_ai_scout.Storage.{File}
use autonomous_ai_scout.Queue.Item.{
  QueueItem, QueueState, pending, running, recovery_required, succeeded, failed, cancelled,
}
use autonomous_ai_scout.Queue.Store.{Outside, recover_running}
use autonomous_ai_scout.Leases.Store.{Floats, Limits}
use autonomous_ai_scout.Worker.Loop.{
  Handled, WorkerResult, Times, World, run_once, count_item, is_succeeded, behind_round, work,
  behind_recovery, run_until_empty, nothing_counted,
}

-- 1 for the state of an item that succeeded.
unfoldable pub successes : QueueState → ℕ
successes pending = 0
successes running = 0
successes recovery_required = 0
successes succeeded = 1
successes failed = 0
successes cancelled = 0

-- How many of some items succeeded.
unfoldable pub number_succeeded : List QueueItem → ℕ
unfolding successes
number_succeeded [] = 0
number_succeeded (item ∷ items) = successes item.state + number_succeeded items

successes-is_succeeded : (s : QueueState) → successes s ≡ (if is_succeeded s then 1 else 0)
unfolding successes
successes-is_succeeded pending = refl
successes-is_succeeded running = refl
successes-is_succeeded recovery_required = refl
successes-is_succeeded succeeded = refl
successes-is_succeeded failed = refl
successes-is_succeeded cancelled = refl

module _ {Float : Type 0} (outside : Outside) (floats : Floats Float) (lease_store : Option Limits)
    (handler : QueueItem → Handled) where
  -- Rounds from a number on, each of which returns an item: the world before, the items, the world
  -- after.
  unfoldable pub Rounds : (ℕ → Times Float) → ℕ → World → List QueueItem → World → Type 0
  Rounds times n before [] after = before ≡ after
  Rounds times n before (item ∷ items) after =
      (next : World) × (run_once outside floats lease_store handler (times n) before
        ≡ (ok (some item), next))
      × Rounds times (suc n) next items after

  -- The end of a run behind its rounds: it counts them, and either as many were made as were asked
  -- for, or the next one found no item; or the next one raised.
  unfoldable pub Ends :
      (ℕ → Times Float)
      → ℕ
      → ℕ
      → WorkerResult
      → List QueueItem
      → World
      → Result WorkerResult × World
      → Type 0
  Ends times left n counts items last (ok final, after) =
      (final.processed ≡ n + length items)
      × (length items ≤ left)
      × (final.succeeded_count ≡ counts.succeeded_count + number_succeeded items)
      × (final.succeeded_count + final.failed_count
          ≡ counts.succeeded_count + counts.failed_count + length items)
      × (((length items ≡ left) × (after ≡ last))
          ⊎ (run_once outside floats lease_store handler (times final.processed) last
              ≡ (ok none, after)))
  Ends times left n counts items last (err e, after) =
      (i : ℕ) × (i ≡ n + length items)
      × (length items < left)
      × (run_once outside floats lease_store handler (times i) last ≡ (err e, after))

  abbrev Worked :
      (ℕ → Times Float) → ℕ → ℕ → WorkerResult → World → Result WorkerResult × World → Type 0
  Worked times left n counts before outcome =
      (items : List QueueItem) × (last : World) × Rounds times n before items last
      × Ends times left n counts items last outcome

  count_item-lem :
      (item : QueueItem) (counts : WorkerResult) (counted : WorkerResult)
      → count_item outside floats lease_store handler item counts ≡ counted
      → (counted.processed ≡ suc counts.processed)
        × (counted.succeeded_count ≡ successes item.state + counts.succeeded_count)
        × (counted.succeeded_count + counted.failed_count
            ≡ suc (counts.succeeded_count + counts.failed_count))
  unfolding count_item
  count_item-lem item counts counted h = ground (arith, h, successes-is_succeeded item.state)

  module _ (times : ℕ → Times Float) (left n : ℕ) where
    Ends-cons :
        (item : QueueItem) (items : List QueueItem) (counts counted : WorkerResult) (last : World)
        (outcome : Result WorkerResult × World)
        → count_item outside floats lease_store handler item counts ≡ counted
        → Ends times left (suc n) counted items last outcome
        → Ends times (suc left) n counts (item ∷ items) last outcome
    unfolding Ends number_succeeded
    Ends-cons item items counts counted last (ok final, after) e (processed, few, good, sum, stop) =
        let c = count_item-lem item counts counted e in
        (
          omega (arith, processed),
          omega (arith, few),
          omega (arith, good, c.1),
          omega (arith, sum, c.2),
          elim stop [
            | inl (all_made, same) ↦ inl (omega (arith, all_made), same)
            | inr none_left ↦ inr none_left
          ],
        )
    Ends-cons item items counts counted last (err x, after) e (i, at_i, few, raised) =
        (i, omega (arith, at_i), omega (arith, few), raised)

    go_on :
        (counts : WorkerResult) (w : World) (round : Result (Option QueueItem) × World)
        → n ≡ counts.processed
        → run_once outside floats lease_store handler (times counts.processed) w ≡ round
        → ((more : WorkerResult) (next : World)
            → suc n ≡ more.processed
            → Worked times left
                (suc n)
                more
                next
                (work outside floats lease_store handler left times more next))
        → Worked times (suc left) n counts w (
            behind_round outside floats lease_store handler
              (work outside floats lease_store handler left times)
              counts
              round)
    unfolding Rounds Ends number_succeeded
    go_on counts w (ok (some item), next) same e rest =
        let counted = count_item outside floats lease_store handler item counts in
        let c = count_item-lem item counts counted refl in
        let (items, last, rounds, ends) = rest counted next (omega (arith, same, c.0)) in
        (
          item ∷ items,
          last,
          (
            next,
            subst
                (λ k.
                  run_once outside floats lease_store handler (times k) w ≡ (ok (some item), next))
                (sym same) e,
            rounds,
          ),
          Ends-cons item items counts counted last _ refl ends,
        )
    go_on counts w (ok none, next) same e rest =
        ([], w, refl, (omega (arith, same), omega arith, omega arith, omega arith, inr e))
    go_on counts w (err x, next) same e rest =
        ([], w, refl, (counts.processed, omega (arith, same), omega arith, e))

  work-Worked :
      (times : ℕ → Times Float) (left n : ℕ) (counts : WorkerResult) (w : World)
      → n ≡ counts.processed
      → Worked times left n counts w (work outside floats lease_store handler left times counts w)
  unfolding work Rounds Ends number_succeeded
  work-Worked times zero n counts w same =
      ([], w, refl, (omega (arith, same), omega arith, omega arith, omega arith, inl (refl, refl)))
  work-Worked times (suc left) n counts w same =
      go_on times left n counts w
        (run_once outside floats lease_store handler (times counts.processed) w) same refl
        (λ more next e. work-Worked times left (suc n) more next e)

  -- A run of the worker behind the recovery of the queue.
  unfoldable pub Finishes :
      (ℕ → Times Float) → ℕ → List QueueItem → World → Result WorkerResult × World → Type 0
  Finishes times max_items items last (ok counts, after) =
      (counts.processed ≡ length items)
      × (length items ≤ max_items)
      × (counts.succeeded_count ≡ number_succeeded items)
      × (counts.succeeded_count + counts.failed_count ≡ length items)
      × (((length items ≡ max_items) × (after ≡ last))
          ⊎ (run_once outside floats lease_store handler (times counts.processed) last
              ≡ (ok none, after)))
  Finishes times max_items items last (err e, after) =
      (i : ℕ) × (i ≡ length items)
      × (length items < max_items)
      × (run_once outside floats lease_store handler (times i) last ≡ (err e, after))

  Ends-Finishes :
      (times : ℕ → Times Float) (max_items : ℕ) (items : List QueueItem) (last : World)
      (outcome : Result WorkerResult × World)
      → Ends times max_items 0
          (nothing_counted outside floats lease_store handler)
          items
          last
          outcome
      → Finishes times max_items items last outcome
  unfolding Ends Finishes
  Ends-Finishes times max_items items last (ok counts, after) (processed, few, good, sum, stop) =
      (omega (arith, processed), few, omega (arith, good), omega (arith, sum), stop)
  Ends-Finishes times max_items items last (err e, after) (i, at_i, few, raised) =
      (i, omega (arith, at_i), few, raised)

  -- What the recovery of the queue gives, and the run behind it.
  unfoldable pub HasRun :
      (ℕ → Times Float)
      → ℕ
      → File
      → Result (List QueueItem) × File
      → Result WorkerResult × World
      → Type 0
  HasRun times max_items leases (ok _, queue) outcome =
      (items : List QueueItem) × (last : World) × Rounds times 0
        (record { queue = queue; leases = leases }) items last
      × Finishes times max_items items last outcome
  HasRun times max_items leases (err e, queue) outcome =
      outcome ≡ (err e, record { queue = queue; leases = leases })

  -- A run of the worker first recovers the queue, and raises what this raises. Otherwise it makes
  -- rounds, each of which returns an item, and no more than it was asked for. If it returns, its
  -- result counts the items of these rounds, those that have succeeded among them, and all others as
  -- failed, and it ended because it had made as many rounds as it was asked for or because the next
  -- one found no item. If it raises, the next round has raised this.
  pub run_until_empty-HasRun :
      (max_items : ℕ) (clock : ℕ → String) (times : ℕ → Times Float) (start : World)
      → HasRun times max_items start.leases
          (recover_running outside clock start.queue)
          (run_until_empty outside floats lease_store handler max_items clock times start)
  unfolding run_until_empty HasRun
  run_until_empty-HasRun max_items clock times start =
      go (recover_running outside clock start.queue)
    where
      go :
          (recovered : Result (List QueueItem) × File)
          → HasRun times max_items start.leases recovered (
              behind_recovery outside floats lease_store handler max_items times start.leases
                recovered)
      go (ok items, queue) =
          let (made, last, rounds, ends) =
            work-Worked times max_items 0 (nothing_counted outside floats lease_store handler)
              (record { queue = queue; leases = start.leases }) refl in
          (made, last, rounds, Ends-Finishes times max_items made last _ ends)
      go (err e, queue) = refl
