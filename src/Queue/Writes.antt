-- ===== src/Queue/Writes.antt =====
-- A rule for the operations: a property of the written items carries over to the file.
use autonomous_ai_scout.Base.{◌≡◌, sym, subst, none, some, Result, ok, err, ok_unique, List, All}
use autonomous_ai_scout.Storage.{File}
use autonomous_ai_scout.Queue.Item.{QueueItem, IsValidItem}
use autonomous_ai_scout.Queue.Disk.{load, load-save, load-save_inv}
use autonomous_ai_scout.Queue.Store.{Outside, Change, settle, transact}

-- `P` holds of the items that the operation saves, if it saves.
abbrev pub Writes : {A : Type 0} → (List QueueItem → Type 0) → Change A → Type 0
Writes P (ok (a, some items)) = P items
Writes P (ok (a, none)) = Unit
Writes P (err e) = Unit

module _ (outside : Outside) where
  abbrev pub loads : File → Result (List QueueItem)
  loads = load outside.calendar outside.convert

  abbrev pub AreValid : List QueueItem → Type 0
  AreValid = All (IsValidItem outside.calendar)

  module _ (P : List QueueItem → Type 0) {xs ys : List QueueItem} (file : File)
      (loaded : loads file ≡ ok xs) (before : P xs) where
    settle-Writes :
        {A : Type 0} (c : Change A) → Writes P c → loads (settle file c).1 ≡ ok ys → P ys
    settle-Writes (ok (a, some items)) w h =
        subst P (sym (load-save_inv outside.calendar outside.convert items h).0) w
    settle-Writes (ok (a, none)) w h = subst P (ok_unique loaded h) before
    settle-Writes (err e) w h = subst P (ok_unique loaded h) before

    pub transact-Writes :
        {A : Type 0} (f : List QueueItem → Change A)
        → Writes P (f xs)
        → loads (transact outside f file).1 ≡ ok ys
        → P ys
    transact-Writes f w h = settle-Writes (f xs) w (rw loaded at h)

  module _ {xs : List QueueItem} (file : File) (loaded : loads file ≡ ok xs) where
    settle-loads :
        {A : Type 0} (c : Change A)
        → Writes AreValid c
        → (ys : List QueueItem) × (loads (settle file c).1 ≡ ok ys)
    settle-loads (ok (a, some items)) w =
        (items, load-save outside.calendar outside.convert items w)
    settle-loads (ok (a, none)) w = (xs, loaded)
    settle-loads (err e) w = (xs, loaded)

    -- An operation that writes valid items leaves a queue that loads.
    pub transact-loads :
        {A : Type 0} (f : List QueueItem → Change A)
        → Writes AreValid (f xs)
        → (ys : List QueueItem) × (loads (transact outside f file).1 ≡ ok ys)
    transact-loads f w = rw loaded (settle-loads (f xs) w)
