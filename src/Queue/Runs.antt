-- ===== src/Queue/Runs.antt =====
-- Runs of calls: what finished stays, and a queue that does not load stays as it is.
use autonomous_ai_scout.Base.{
  ◌≡◌, refl, subst, sym, ◌∙◌, ap, Bool, true, false, inl, inr, Result, ok, err, Error, List, [],
  ◌∷◌, ok_unique, err-ne-ok, arith,
}
use autonomous_ai_scout.Storage.{File}
use autonomous_ai_scout.Queue.Item.{QueueState, succeeded, failed, cancelled, QueueItem}
use autonomous_ai_scout.Queue.Store.{
  Outside, Change, transact, transact_prepared, prepare, enqueue_item, enqueue, recover_running,
  confirm_recovery, claim_next, complete, cancel, recover_items, claim_items, saved, update_first,
  confirmed, completed, withdrawn,
}
use autonomous_ai_scout.Queue.Writes.{loads}
use autonomous_ai_scout.Queue.Moves.{Moved, ItemStep, Evolves}
use autonomous_ai_scout.Queue.Evolution.{step-Evolves}
use autonomous_ai_scout.Queue.Command.{
  Command, enqueue_task, recover, confirm, claim, finish, withdraw, step, run,
}

abbrev pub is_finished : QueueState → Bool
is_finished succeeded = true
is_finished failed = true
is_finished cancelled = true
is_finished _ = false

-- Each item of the first list that is finished stands unchanged at its place in the second.
abbrev pub KeepsFinished : List QueueItem → List QueueItem → Type 0
KeepsFinished [] ys = Unit
KeepsFinished (x ∷ xs) [] = ⊥
KeepsFinished (x ∷ xs) (y ∷ ys) = (is_finished x.state ≡ true → y ≡ x) × KeepsFinished xs ys

Moved-not_finished : {x y : QueueItem} → Moved x y → is_finished x.state ≡ true → ⊥
Moved-not_finished m h = ground (arith, m.move)

ItemStep-finished : {x y : QueueItem} → ItemStep x y → is_finished x.state ≡ true → y ≡ x
ItemStep-finished (inl same) h = same
ItemStep-finished (inr m) h = absurd (Moved-not_finished m h)

Evolves-KeepsFinished : (xs ys : List QueueItem) → Evolves xs ys → KeepsFinished xs ys
Evolves-KeepsFinished [] ys h = tt
Evolves-KeepsFinished (x ∷ xs) [] h = h
Evolves-KeepsFinished (x ∷ xs) (y ∷ ys) h = (ItemStep-finished h.0, Evolves-KeepsFinished xs ys h.1)

KeepsFinished-refl : (xs : List QueueItem) → KeepsFinished xs xs
KeepsFinished-refl [] = tt
KeepsFinished-refl (x ∷ xs) = ((λ _. refl), KeepsFinished-refl xs)

KeepsFinished-trans :
    (xs ys zs : List QueueItem) → KeepsFinished xs ys → KeepsFinished ys zs → KeepsFinished xs zs
KeepsFinished-trans [] ys zs h k = tt
KeepsFinished-trans (x ∷ xs) [] zs h k = absurd h
KeepsFinished-trans (x ∷ xs) (y ∷ ys) [] h k = k
KeepsFinished-trans (x ∷ xs) (y ∷ ys) (z ∷ zs) h k = (
  (λ fin.
      let same : y ≡ x = h.0 fin in
      k.0 (subst (λ (q : QueueItem). is_finished q.state ≡ true) (sym same) fin) ∙ same),
  KeepsFinished-trans xs ys zs h.1 k.1,
)

module _ (outside : Outside) (file : File) {e : Error} (broken : loads outside file ≡ err e) where
  transact-broken :
      {A : Type 0} (f : List QueueItem → Change A) → (transact outside f file).1 ≡ file
  transact-broken f = rw broken

  prepared-broken : (r : Result QueueItem) → (transact_prepared outside r file).1 ≡ file
  prepared-broken (ok item) = transact-broken (enqueue_item outside item)
  prepared-broken (err _) = refl

  -- A queue whose file does not load is left as it is by every call.
  pub step-broken : (c : Command) → step outside c file ≡ file
  unfolding step enqueue recover_running confirm_recovery claim_next complete cancel
  step-broken (enqueue_task task task_id execution_id available_at arrival now) =
      prepared-broken (prepare outside task task_id execution_id available_at arrival now)
  step-broken (recover clock) = transact-broken (recover_items outside clock)
  step-broken (confirm task_id now) =
      transact-broken (λ items. saved (update_first task_id (confirmed now) items))
  step-broken (claim instant now) = transact-broken (claim_items outside instant now)
  step-broken (finish task_id success error now) =
      transact-broken (λ items. saved (update_first task_id (completed now success error) items))
  step-broken (withdraw task_id now) =
      transact-broken (λ items. saved (update_first task_id (withdrawn now) items))

run-broken :
    (outside : Outside) (cs : List Command) (file : File) {e : Error}
    → loads outside file ≡ err e
    → run outside cs file ≡ file
unfolding run
run-broken outside [] file h = refl
run-broken outside (c ∷ cs) file h =
    let same = step-broken outside file h c in
    ap (run outside cs) same ∙ run-broken outside cs file h

-- After any run of calls that leaves a queue which loads, each item that had succeeded, failed or
-- been cancelled before the run is the same item at the same place.
pub run-KeepsFinished :
    (outside : Outside) (cs : List Command) (file : File) (xs ys : List QueueItem)
    → loads outside file ≡ ok xs
    → loads outside (run outside cs file) ≡ ok ys
    → KeepsFinished xs ys
unfolding run
run-KeepsFinished outside [] file xs ys h k =
    subst (KeepsFinished xs) (ok_unique h k) (KeepsFinished-refl xs)
run-KeepsFinished outside (c ∷ cs) file xs ys h k =
    go (loads outside (step outside c file)) refl
      (run-KeepsFinished outside cs (step outside c file))
  where
    go :
        (r : Result (List QueueItem))
        → loads outside (step outside c file) ≡ r
        → ((zs ws : List QueueItem)
            → loads outside (step outside c file) ≡ ok zs
            → loads outside (run outside cs (step outside c file)) ≡ ok ws
            → KeepsFinished zs ws)
        → KeepsFinished xs ys
    go (ok zs) e rest =
        KeepsFinished-trans xs zs ys (Evolves-KeepsFinished xs zs (step-Evolves outside file h c e))
          (rest zs ys e k)
    go (err x) e rest =
        let same = run-broken outside cs (step outside c file) e in
        absurd (err-ne-ok (sym e ∙ (sym (ap (loads outside) same) ∙ k)))
