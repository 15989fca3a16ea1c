-- ===== src/Queue/Validity.antt =====
-- Which calls leave a queue that loads.
use autonomous_ai_scout.Base.{
  ℕ, suc, String, ◌≡◌, refl, subst, ◌≤◌, Bool, true, inl, inr, Option, none, some, Result, ok, err,
  ◌>>=◌, List, [], ◌∷◌, ◌++◌, All, All-append, arith, ℤ, next_int, int_within, text_length,
  text_length-take, Bool-cases, any, text_eq, ok-injective, err-ne-ok, text_take, if◌then◌else◌,
  ◌||◌, next_int-within,
}
use autonomous_ai_scout.Storage.{File}
use autonomous_ai_scout.Clock.{Calendar}
use autonomous_ai_scout.Queue.Item.{
  QueueState, pending, succeeded, failed, cancelled, QueueItem, validate_item, validate_timestamp,
  IsValidItem, is_pending, is_running, is_recovery_required, running, recovery_required,
}
use autonomous_ai_scout.Queue.Disk.{load-AreValid}
use autonomous_ai_scout.Queue.Store.{
  Outside, transact_prepared, prepare, enqueue_item, enqueue, recover_running, confirm_recovery,
  claim_next, complete, cancel, confirmed, completed, withdrawn, claimed, recovered, recover_all,
  recover_items, saved, update_first, claim_items, claim_change, claim_first,
}
use autonomous_ai_scout.Queue.Writes.{Writes, loads, AreValid, transact-loads}
use autonomous_ai_scout.Queue.Replaced.{
  Replaced-All, Replaced-at, update_first-Replaced, claim_first-Replaced,
}
use autonomous_ai_scout.Queue.Command.{
  Command, enqueue_task, recover, confirm, claim, finish, withdraw, step,
}

-- A text that `_validate_timestamp` accepts.
abbrev pub IsTimestamp : Calendar → String → Type 0
IsTimestamp calendar now = (label : String) → validate_timestamp calendar now label ≡ ok tt

module _ (calendar : Calendar) (now : String) (stamp : IsTimestamp calendar now) (x : QueueItem)
    (valid : IsValidItem calendar x) where
  -- What the operations write for a valid item is valid, if the attempts and the error fit.
  touched-IsValidItem :
      (state : QueueState) (attempts : ℤ) (error : String)
      → int_within 1000 attempts ≡ true
      → text_length error ≤ 500
      → IsValidItem calendar
          (record x { state = state; updated_at = now; attempts = attempts; last_error = error })
  unfolding validate_item
  touched-IsValidItem state attempts error a e = ground (arith, stamp "updated_at")

  attempts-within : int_within 1000 x.attempts ≡ true
  unfolding validate_item
  attempts-within = ground arith

  error-within : text_length x.last_error ≤ 500
  unfolding validate_item
  error-within = ground arith

  confirmed-IsValidItem : {y : QueueItem} → confirmed now x ≡ ok y → IsValidItem calendar y
  unfolding confirmed text_length
  confirmed-IsValidItem h = elim (Bool-cases (is_recovery_required x.state)) [
    | inl e ↦ subst (IsValidItem calendar) (ok-injective (rw e at h)) (
        touched-IsValidItem pending x.attempts "recovery explicitly confirmed" attempts-within
          (omega arith))
    | inr e ↦ absurd (err-ne-ok (rw e at h))
  ]

  completed-IsValidItem :
      (success : Bool) (error : String) {y : QueueItem}
      → completed now success error x ≡ ok y
      → IsValidItem calendar y
  unfolding completed
  completed-IsValidItem success error h = elim (Bool-cases (is_running x.state)) [
    | inl e ↦ subst (IsValidItem calendar) (ok-injective (rw e at h)) (
        touched-IsValidItem (if success then succeeded else failed) x.attempts (text_take 500 error)
          attempts-within (text_length-take 500 error))
    | inr e ↦ absurd (err-ne-ok (rw e at h))
  ]

  withdrawn-IsValidItem : {y : QueueItem} → withdrawn now x ≡ ok y → IsValidItem calendar y
  unfolding withdrawn
  withdrawn-IsValidItem h = elim (Bool-cases (is_pending x.state || is_recovery_required x.state)) [
    | inl e ↦
        subst (IsValidItem calendar) (ok-injective (rw e at h))
          (touched-IsValidItem cancelled x.attempts x.last_error attempts-within error-within)
    | inr e ↦ absurd (err-ne-ok (rw e at h))
  ]

  recovered-IsValidItem : IsValidItem calendar (recovered now x)
  unfolding recovered text_length
  recovered-IsValidItem = elim (Bool-cases (is_running x.state)) [
    | inl e ↦ rw e (
        touched-IsValidItem recovery_required x.attempts
          "worker restarted while task was running; explicit recovery confirmation required"
          attempts-within (omega arith))
    | inr e ↦ rw e valid
  ]

  claimed-IsValidItem : int_within 999 x.attempts ≡ true → IsValidItem calendar (claimed now x)
  unfolding claimed text_length
  claimed-IsValidItem room =
      touched-IsValidItem running (next_int x.attempts) "" (next_int-within 999 x.attempts room)
        (omega arith)

recover_all-AreValid :
    (calendar : Calendar) (clock : ℕ → String)
    → ((n : ℕ) → IsTimestamp calendar (clock n))
    → (n : ℕ) (xs : List QueueItem) → All (IsValidItem calendar) xs
    → All (IsValidItem calendar) (recover_all clock n xs)
unfolding recover_all
recover_all-AreValid calendar clock stamps n [] h = tt
recover_all-AreValid calendar clock stamps n (x ∷ xs) h = (
  recovered-IsValidItem calendar (clock n) (stamps n) x h.0,
  recover_all-AreValid calendar clock stamps (suc n) xs h.1,
)

-- What a call needs in order to write a queue that loads: its times are timestamps with a
-- timezone, and a claim meets no task that was claimed a thousand times.
abbrev pub Fits : Outside → Command → List QueueItem → Type 0
Fits outside (enqueue_task task task_id execution_id available_at arrival now) xs = Unit
Fits outside (recover clock) xs = (n : ℕ) → IsTimestamp outside.calendar (clock n)
Fits outside (confirm task_id now) xs = IsTimestamp outside.calendar now
Fits outside (claim instant now) xs =
    IsTimestamp outside.calendar now × All (λ (x : QueueItem). int_within 999 x.attempts ≡ true) xs
Fits outside (finish task_id success error now) xs = IsTimestamp outside.calendar now
Fits outside (withdraw task_id now) xs = IsTimestamp outside.calendar now

module _ (outside : Outside) (xs : List QueueItem) (valid : AreValid outside xs) where
  saved-AreValid :
      (task_id : String) (f : QueueItem → Result QueueItem)
      → ((x : QueueItem)
          → IsValidItem outside.calendar x
          → (y : QueueItem) → f x ≡ ok y
          → IsValidItem outside.calendar y)
      → Writes (AreValid outside) (saved (update_first task_id f xs))
  saved-AreValid task_id f keeps = go (update_first task_id f xs) refl
    where
      go :
          (r : Result (QueueItem × List QueueItem))
          → update_first task_id f xs ≡ r
          → Writes (AreValid outside) (saved r)
      go (ok (y, ys)) e =
          let (x, _, done, r) = update_first-Replaced task_id f xs e in
          Replaced-All (IsValidItem outside.calendar) valid (λ v. keeps x v y done) r
      go (err _) e = tt

  recover_items-AreValid :
      (clock : ℕ → String)
      → ((n : ℕ) → IsTimestamp outside.calendar (clock n))
      → Writes (AreValid outside) (recover_items outside clock xs)
  unfolding recover_items
  recover_items-AreValid clock stamps =
      elim (Bool-cases (any (λ (item : QueueItem). is_running item.state) xs)) [
        | inl e ↦ rw e (recover_all-AreValid outside.calendar clock stamps 0 xs valid)
        | inr e ↦ rw e tt
      ]

  enqueue_item-AreValid :
      (item : QueueItem) → Writes (AreValid outside) (enqueue_item outside item xs)
  unfolding enqueue_item
  enqueue_item-AreValid item =
      elim (Bool-cases (any (λ (other : QueueItem). text_eq other.task_id item.task_id) xs)) [
        | inl e ↦ rw e tt
        | inr e ↦ rw e (checked (validate_item outside.calendar item) refl)
      ]
    where
      checked :
          (r : Result (Unit {0}))
          → validate_item outside.calendar item ≡ r
          → Writes (AreValid outside) (r >>= λ _. ok (item, some (xs ++ item ∷ [])))
      checked (ok u) e = All-append (IsValidItem outside.calendar) xs (item ∷ []) valid (e, tt)
      checked (err _) e = tt

  claim_items-AreValid :
      (instant : ℕ) (now : String)
      → IsTimestamp outside.calendar now
      → All (λ (x : QueueItem). int_within 999 x.attempts ≡ true) xs
      → Writes (AreValid outside) (claim_items outside instant now xs)
  unfolding claim_items
  claim_items-AreValid instant now stamp room = go (claim_first outside instant now xs) refl
    where
      go :
          (r : Result (Option (QueueItem × List QueueItem)))
          → claim_first outside instant now xs ≡ r
          → Writes (AreValid outside) (r >>= claim_change)
      go (ok none) e = tt
      go (ok (some (y, ys))) e =
          let (x, _, _, _, r) = claim_first-Replaced outside instant now xs e in
          Replaced-All (IsValidItem outside.calendar) valid
            (λ v.
              claimed-IsValidItem outside.calendar now stamp x v
                (Replaced-at (λ (z : QueueItem). int_within 999 z.attempts ≡ true) room r))
            r
      go (err _) e = tt

  prepared-loads :
      (file : File)
      → loads outside file ≡ ok xs
      → (r : Result QueueItem)
      → (ys : List QueueItem) × (loads outside (transact_prepared outside r file).1 ≡ ok ys)
  prepared-loads file loaded (ok item) =
      transact-loads outside file loaded (enqueue_item outside item) (enqueue_item-AreValid item)
  prepared-loads file loaded (err e) = (xs, loaded)

  writes-loads :
      (file : File) (c : Command)
      → loads outside file ≡ ok xs
      → Fits outside c xs
      → (ys : List QueueItem) × (loads outside (step outside c file) ≡ ok ys)
  unfolding step enqueue recover_running confirm_recovery claim_next complete cancel
  writes-loads file (enqueue_task task task_id execution_id available_at arrival now) loaded fits =
      prepared-loads file loaded
        (prepare outside task task_id execution_id available_at arrival now)
  writes-loads file (recover clock) loaded fits =
      transact-loads outside file loaded (recover_items outside clock)
        (recover_items-AreValid clock fits)
  writes-loads file (confirm task_id now) loaded fits =
      transact-loads outside file loaded
        (λ items. saved (update_first task_id (confirmed now) items))
        (saved-AreValid task_id (confirmed now)
          (λ x v y. confirmed-IsValidItem outside.calendar now fits x v))
  writes-loads file (claim instant now) loaded fits =
      transact-loads outside file loaded (claim_items outside instant now)
        (claim_items-AreValid instant now fits.0 fits.1)
  writes-loads file (finish task_id success error now) loaded fits =
      transact-loads outside file loaded
        (λ items. saved (update_first task_id (completed now success error) items))
        (saved-AreValid task_id (completed now success error)
          (λ x v y. completed-IsValidItem outside.calendar now fits x v success error))
  writes-loads file (withdraw task_id now) loaded fits =
      transact-loads outside file loaded
        (λ items. saved (update_first task_id (withdrawn now) items))
        (saved-AreValid task_id (withdrawn now)
          (λ x v y. withdrawn-IsValidItem outside.calendar now fits x v))

-- After a call on a queue that loads, the queue loads again, if the times that the call reads are
-- timestamps with a timezone and, for a claim, no task in the queue has more than 999 attempts.
pub step-loads :
    (outside : Outside) (file : File) (xs : List QueueItem) (c : Command)
    → loads outside file ≡ ok xs
    → Fits outside c xs
    → (ys : List QueueItem) × (loads outside (step outside c file) ≡ ok ys)
step-loads outside file xs c loaded fits =
    writes-loads outside xs (load-AreValid outside.calendar outside.convert file loaded) file c
      loaded fits
