-- ===== src/Effects/Once.antt =====
-- An external side effect is allowed at most once.
use autonomous_ai_scout.Base.{
  String, ◌≡◌, refl, sym, subst, ◌∙◌, ap, Bool, true, false, Option, none, some, Result, ok, err,
  ◌>>◌, ok-injective, err-ne-ok, List, [], ◌∷◌, text_eq, text_eq_refl, strip, if◌then◌else◌,
  Bool-cases, inl, inr, arith, not, ◌||◌, raise_if, value_error, some-ne-none, some_injective,
}
use autonomous_ai_scout.Storage.{File}
use autonomous_ai_scout.Effects.Record.{
  SideEffectState, reserved, executed, failed, unknown, SideEffectRecord, validate,
}
use autonomous_ai_scout.Effects.Disk.{Records, find, has_key, put, load, save}
use autonomous_ai_scout.Effects.Store.{
  Outside, Change, SideEffectDecision, settle, with_loaded, transact, candidate, claim_existing,
  decide_existing, claim, claim_validated, update_current, update, updated, is_reserved,
  mark_executed, mark_failed, mark_unknown, Command, claim_effect, executed_effect, failed_effect,
  unknown_effect, step, run,
}
use autonomous_ai_scout.Effects.Keys.{has_key-put, find_of_has_key, load-save-has_key}

abbrev pub loads : Outside → File → Result Records
loads outside = load outside.calendar outside.convert

-- Whenever the ledger loads, it has a record of the key.
abbrev pub IsRecorded : Outside → String → File → Type 0
IsRecorded outside k file = (rs : Records) → loads outside file ≡ ok rs → has_key k rs ≡ true

-- The records that an operation saves, if it saves, have the key.
abbrev SavesKey : {A : Type 0} → String → Change A → Type 0
SavesKey k (ok (a, some rs)) = has_key k rs ≡ true
SavesKey k (ok (a, none)) = Unit
SavesKey k (err e) = Unit

if_true : (b : Bool) {c : Bool} → c ≡ true → (if b then true else c) ≡ true
if_true true h = refl
if_true false h = h

module _ (outside : Outside) (k : String) where
  save-IsRecorded : (rs : Records) → has_key k rs ≡ true → IsRecorded outside k (save rs)
  save-IsRecorded rs has rs' h = load-save-has_key outside.calendar outside.convert k rs h has

  settle-IsRecorded :
      {A : Type 0} (file : File) (c : Change A)
      → IsRecorded outside k file
      → SavesKey k c
      → IsRecorded outside k (settle file c).1
  settle-IsRecorded file (ok (a, some rs)) was saves = save-IsRecorded rs saves
  settle-IsRecorded file (ok (a, none)) was saves = was
  settle-IsRecorded file (err e) was saves = was

  transact-IsRecorded :
      {A : Type 0} (f : Records → Change A) (file : File)
      → ((rs : Records) → has_key k rs ≡ true → SavesKey k (f rs))
      → IsRecorded outside k file
      → IsRecorded outside k (transact outside f file).1
  transact-IsRecorded {A} f file keeps was = go (loads outside file) refl
    where
      go :
          (r : Result Records)
          → loads outside file ≡ r
          → IsRecorded outside k (with_loaded file f r).1
      go (ok rs) e = settle-IsRecorded file (f rs) was (keeps rs (was rs e))
      go (err x) e = was

  put-has_key :
      (r : SideEffectRecord) (rs : Records) → has_key k rs ≡ true → has_key k (put r rs) ≡ true
  put-has_key r rs has = rw (has_key-put k r rs) (if_true (text_eq r.key k) has)

  decide-SavesKey :
      (existing : SideEffectRecord) (s : SideEffectState) → SavesKey k (decide_existing existing s)
  unfolding decide_existing
  decide-SavesKey existing reserved = tt
  decide-SavesKey existing _ = tt

  existing-SavesKey :
      (new : SideEffectRecord) (rs : Records) (found : Option SideEffectRecord)
      → has_key k rs ≡ true
      → SavesKey k (claim_existing new rs found)
  unfolding claim_existing
  existing-SavesKey new rs none has = put-has_key new rs has
  existing-SavesKey new rs (some existing) has =
      elim (Bool-cases (
        not (text_eq existing.operation new.operation)
        || not (text_eq existing.request_digest new.request_digest))) [
          | inl e ↦ rw e tt
          | inr e ↦ rw e (decide-SavesKey existing existing.state)
        ]

  current-SavesKey :
      (state : SideEffectState) (digest reason now : String) (rs : Records)
      (found : Option SideEffectRecord)
      → has_key k rs ≡ true
      → SavesKey k (update_current outside state digest reason now rs found)
  unfolding update_current
  current-SavesKey state digest reason now rs none has = tt
  current-SavesKey state digest reason now rs (some current) has =
      go
        (raise_if (not (is_reserved current.state))
          (value_error "side-effect record is no longer claimable"))
        (validate outside.calendar new)
    where
      new : SideEffectRecord
      new = updated state digest reason now current

      go : (a b : Result (Unit {0})) → SavesKey k (a >> (b >> ok (new, some (put new rs))))
      go (ok _) (ok _) = put-has_key new rs has
      go (ok _) (err _) = tt
      go (err _) b = tt

  update-IsRecorded :
      (key : String) (state : SideEffectState) (digest reason now : String) (file : File)
      → IsRecorded outside k file
      → IsRecorded outside k (update outside key state digest reason now file).1
  unfolding update
  update-IsRecorded key state digest reason now file was =
      transact-IsRecorded (λ rs. update_current outside state digest reason now rs (find key rs))
        file (λ rs has. current-SavesKey state digest reason now rs (find key rs) has) was

  validated-IsRecorded :
      (new : SideEffectRecord) (file : File) (r : Result (Unit {0}))
      → IsRecorded outside k file
      → IsRecorded outside k (claim_validated outside new file r).1
  validated-IsRecorded new file (ok _) was =
      transact-IsRecorded (λ rs. claim_existing new rs (find new.key rs)) file
        (λ rs has. existing-SavesKey new rs (find new.key rs) has) was
  validated-IsRecorded new file (err _) was = was

  step-IsRecorded :
      (c : Command) (file : File)
      → IsRecorded outside k file
      → IsRecorded outside k (step outside c file)
  unfolding step claim mark_executed mark_failed mark_unknown
  step-IsRecorded (claim_effect key operation digest now) file was =
      validated-IsRecorded (candidate key operation digest now) file
        (validate outside.calendar (candidate key operation digest now)) was
  step-IsRecorded (executed_effect key digest now) file was =
      update-IsRecorded key executed digest "" now file was
  step-IsRecorded (failed_effect key reason now) file was =
      update-IsRecorded key failed "" reason now file was
  step-IsRecorded (unknown_effect key reason now) file was =
      update-IsRecorded key unknown "" reason now file was

  run-IsRecorded :
      (cs : List Command) (file : File)
      → IsRecorded outside k file
      → IsRecorded outside k (run outside cs file)
  unfolding run
  run-IsRecorded [] file was = was
  run-IsRecorded (c ∷ cs) file was =
      run-IsRecorded cs (step outside c file) (step-IsRecorded c file was)

  -- What a claim returns when the ledger has a record of the key is a refusal.
  existing-refused :
      (new : SideEffectRecord) (rs : Records) (r : SideEffectRecord) {d : SideEffectDecision}
      {saves : Option Records}
      → claim_existing new rs (some r) ≡ ok (d, saves)
      → d.allowed ≡ false
  unfolding claim_existing
  existing-refused new rs r h = ground arith

  existing-allowed :
      (new : SideEffectRecord) (rs : Records) (found : Option SideEffectRecord)
      {d : SideEffectDecision} {saves : Option Records}
      → claim_existing new rs found ≡ ok (d, saves)
      → d.allowed ≡ true
      → saves ≡ some (put new rs)
  unfolding claim_existing
  existing-allowed new rs found h a = ground arith

  -- A claim that is allowed leaves a record of its key.
  claim-IsRecorded :
      (key operation digest now : String) (file : File) {d : SideEffectDecision}
      → (claim outside key operation digest now file).0 ≡ ok d
      → d.allowed ≡ true
      → strip key ≡ k
      → IsRecorded outside k (claim outside key operation digest now file).1
  unfolding claim candidate
  claim-IsRecorded key operation digest now file {d} h a named =
      validated (validate outside.calendar new) h
    where
      new : SideEffectRecord
      new = candidate key operation digest now

      settled :
          (rs : Records) (c : Change SideEffectDecision)
          → claim_existing new rs (find new.key rs) ≡ c
          → (settle file c).0 ≡ ok d
          → IsRecorded outside k (settle file c).1
      settled rs (ok (d', none)) e q = absurd (
          some-ne-none (
            sym (
              existing-allowed new rs (find new.key rs) e
                (subst (λ (z : SideEffectDecision). z.allowed ≡ true) (sym (ok-injective q)) a))))
      settled rs (ok (d', some rs')) e q =
          subst (λ (z : Records). IsRecorded outside k (save z))
            (sym (
              some_injective (
                existing-allowed new rs (find new.key rs) e
                  (subst (λ (z : SideEffectDecision). z.allowed ≡ true) (sym (ok-injective q)) a))))
            (save-IsRecorded (put new rs) (rw (has_key-put k new rs, named, text_eq_refl k)))
      settled rs (err e') e q = absurd (err-ne-ok q)

      loaded :
          (r : Result Records)
          → (with_loaded file (λ rs. claim_existing new rs (find new.key rs)) r).0 ≡ ok d
          → IsRecorded outside k
              (with_loaded file (λ rs. claim_existing new rs (find new.key rs)) r).1
      loaded (ok rs) q = settled rs (claim_existing new rs (find new.key rs)) refl q
      loaded (err e) q = absurd (err-ne-ok q)

      validated :
          (r : Result (Unit {0}))
          → (claim_validated outside new file r).0 ≡ ok d
          → IsRecorded outside k (claim_validated outside new file r).1
      validated (ok _) q = loaded (loads outside file) q
      validated (err e) q = absurd (err-ne-ok q)

  claim-refused :
      (key operation digest now : String) (file : File) {d : SideEffectDecision}
      → IsRecorded outside k file
      → strip key ≡ k
      → (claim outside key operation digest now file).0 ≡ ok d
      → d.allowed ≡ false
  unfolding claim candidate
  claim-refused key operation digest now file {d} was named h =
      validated (validate outside.calendar new) h
    where
      new : SideEffectRecord
      new = candidate key operation digest now

      settled :
          (rs : Records) (r : SideEffectRecord) (c : Change SideEffectDecision)
          → claim_existing new rs (some r) ≡ c
          → (settle file c).0 ≡ ok d
          → d.allowed ≡ false
      settled rs r (ok (d', none)) e q =
          existing-refused new rs r (e ∙ ap (λ z. ok (z, none)) (ok-injective q))
      settled rs r (ok (d', some rs')) e q =
          existing-refused new rs r (e ∙ ap (λ z. ok (z, some rs')) (ok-injective q))
      settled rs r (err e') e q = absurd (err-ne-ok q)

      loaded :
          (r : Result Records)
          → loads outside file ≡ r
          → (with_loaded file (λ rs. claim_existing new rs (find new.key rs)) r).0 ≡ ok d
          → d.allowed ≡ false
      loaded (ok rs) e q =
          let (r, found) = find_of_has_key new.key rs (rw named (was rs e)) in
          settled rs r (claim_existing new rs (some r)) refl (rw found at q)
      loaded (err x) e q = absurd (err-ne-ok q)

      validated :
          (r : Result (Unit {0}))
          → (claim_validated outside new file r).0 ≡ ok d
          → d.allowed ≡ false
      validated (ok _) q = loaded (loads outside file) refl q
      validated (err e) q = absurd (err-ne-ok q)

-- A side effect is allowed at most once. After a claim that was allowed, and any further calls on
-- the ledger, a claim of the same key is not allowed, whatever its operation, request and time.
pub claim_once :
    (outside : Outside) (file : File) (key operation digest now : String)
    (first : SideEffectDecision) (cs : List Command) (key' operation' digest' now' : String)
    (second : SideEffectDecision)
    → (claim outside key operation digest now file).0 ≡ ok first
    → first.allowed ≡ true
    → strip key' ≡ strip key
    → (claim outside key' operation' digest' now'
        (run outside cs (claim outside key operation digest now file).1)).0
      ≡ ok second
    → second.allowed ≡ false
claim_once outside file key operation digest now first cs key' operation' digest' now' second h a
      same h' =
    claim-refused outside (strip key) key' operation' digest' now'
      (run outside cs (claim outside key operation digest now file).1)
      (run-IsRecorded outside (strip key) cs (claim outside key operation digest now file).1
        (claim-IsRecorded outside (strip key) key operation digest now file h a refl))
      same h'
