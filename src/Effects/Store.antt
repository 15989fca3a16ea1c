-- ===== src/Effects/Store.antt =====
-- The operations of `ExternalSideEffectStore` (external_side_effects.py). Each holds the lock from
-- its load to its save, so it is one step on the file; an operation that raises has not written.
use autonomous_ai_scout.Base.{
  String, Bool, true, false, not, ◌||◌, Option, none, some, Result, ok, err, ◌>>◌, raise_if,
  value_error, List, [], ◌∷◌, text_eq, if◌then◌else◌, strip, text_take,
}
use autonomous_ai_scout.Storage.{File, Conversions}
use autonomous_ai_scout.Clock.{Calendar}
use autonomous_ai_scout.Effects.Record.{
  SideEffectState, reserved, executed, failed, unknown, SideEffectRecord, validate, max_text,
}
use autonomous_ai_scout.Effects.Disk.{Records, find, put, load, save}

pub record SideEffectDecision : Type 0 where
  pub allowed : Bool
  pub replay_blocked : Bool
  pub reason : String
  pub decided : SideEffectRecord

pub record Outside : Type 0 where
  pub calendar : Calendar
  pub convert : Conversions

-- The result of an operation on the loaded records, with the records to save if it saves.
abbrev pub Change : Type 0 → Type 0
Change A = Result (A × Option Records)

abbrev pub settle : {A : Type 0} → File → Change A → Result A × File
settle file (ok (a, none)) = (ok a, file)
settle file (ok (a, some records)) = (ok a, save records)
settle file (err e) = (err e, file)

abbrev pub with_loaded :
    {A : Type 0} → File → (Records → Change A) → Result Records → Result A × File
with_loaded file f (ok records) = settle file (f records)
with_loaded file f (err e) = (err e, file)

abbrev pub refuse : String → SideEffectRecord → Change SideEffectDecision
refuse reason existing =
    ok
      (record { allowed = false; replay_blocked = true; reason = reason; decided = existing }, none)

-- The decision of `claim` on a record of the same request.
unfoldable pub decide_existing : SideEffectRecord → SideEffectState → Change SideEffectDecision
decide_existing existing executed =
    refuse
      "side effect was already executed; it has already been executed; automatic replay is blocked"
      existing
decide_existing existing reserved =
    refuse "side effect has an unresolved prior execution; reconciliation is required before replay"
      existing
decide_existing existing unknown =
    refuse "side effect has an unresolved prior execution; reconciliation is required before replay"
      existing
decide_existing existing failed =
    refuse "side effect has a terminal failed record; automatic replay is blocked" existing

unfoldable pub candidate : String → String → String → String → SideEffectRecord
candidate key operation request_digest now = record {
  key = strip key;
  operation = strip operation;
  request_digest = strip request_digest;
  state = reserved;
  result_digest = "";
  reason = "";
  created_at = now;
  updated_at = now;
}

-- The part of `claim` under the lock.
unfoldable pub claim_existing :
    SideEffectRecord → Records → Option SideEffectRecord → Change SideEffectDecision
unfolding decide_existing
claim_existing new records none = ok (
  record {
    allowed = true;
    replay_blocked = false;
    reason = "side effect reserved for one external execution";
    decided = new;
  },
  some (put new records),
)
claim_existing new records (some existing) =
    if not (text_eq existing.operation new.operation)
      || not (text_eq existing.request_digest new.request_digest)
    then err (value_error "side-effect key was reused for a different request")
    else decide_existing existing existing.state

-- The part of `_update` behind the lookup.
abbrev pub is_reserved : SideEffectState → Bool
is_reserved reserved = true
is_reserved _ = false

unfoldable pub updated :
    SideEffectState → String → String → String → SideEffectRecord → SideEffectRecord
updated state result_digest reason now current = record current {
  state = state;
  result_digest = text_take 64 result_digest;
  reason = text_take max_text reason;
  updated_at = now;
}

module _ (outside : Outside) where
  abbrev pub transact : {A : Type 0} → (Records → Change A) → File → Result A × File
  transact f file = with_loaded file f (load outside.calendar outside.convert file)

  -- `get`
  unfoldable pub get : String → File → Result (Option SideEffectRecord) × File
  get key = transact (λ records. ok (find key records, none))

  abbrev pub claim_validated :
      SideEffectRecord → File → Result (Unit {0}) → Result SideEffectDecision × File
  claim_validated new file (ok _) =
      transact (λ records. claim_existing new records (find new.key records)) file
  claim_validated new file (err e) = (err e, file)

  -- `claim`; `now` is what `_now()` gives.
  unfoldable pub claim : String → String → String → String → File → Result SideEffectDecision × File
  claim key operation request_digest now file =
      let new = candidate key operation request_digest now in
      claim_validated new file (validate outside.calendar new)

  unfoldable pub update_current :
      SideEffectState
      → String
      → String
      → String
      → Records
      → Option SideEffectRecord
      → Change SideEffectRecord
  unfolding updated
  update_current state result_digest reason now records none =
      err (value_error "side-effect record does not exist")
  update_current state result_digest reason now records (some current) = do
    raise_if (not (is_reserved current.state))
        (value_error "side-effect record is no longer claimable")
    validate outside.calendar (updated state result_digest reason now current)
    ok (
      updated state result_digest reason now current,
      some (put (updated state result_digest reason now current) records),
    )

  -- `_update`
  unfoldable pub update :
      String → SideEffectState → String → String → String → File → Result SideEffectRecord × File
  update key state result_digest reason now =
      transact λ records. update_current state result_digest reason now records (find key records)

  unfoldable pub mark_executed : String → String → String → File → Result SideEffectRecord × File
  unfolding update
  mark_executed key result_digest now = update key executed result_digest "" now

  unfoldable pub mark_failed : String → String → String → File → Result SideEffectRecord × File
  unfolding update
  mark_failed key reason now = update key failed "" reason now

  unfoldable pub mark_unknown : String → String → String → File → Result SideEffectRecord × File
  unfolding update
  mark_unknown key reason now = update key unknown "" reason now

-- The calls that can change the file, as data.
pub data Command : Type 0 where
  claim_effect : String → String → String → String → Command
  executed_effect failed_effect unknown_effect : String → String → String → Command

module _ (outside : Outside) where
  -- The file after the call, whether it returns or raises.
  unfoldable pub step : Command → File → File
  step (claim_effect key operation request_digest now) file =
      (claim outside key operation request_digest now file).1
  step (executed_effect key result_digest now) file =
      (mark_executed outside key result_digest now file).1
  step (failed_effect key reason now) file = (mark_failed outside key reason now file).1
  step (unknown_effect key reason now) file = (mark_unknown outside key reason now file).1

  unfoldable pub run : List Command → File → File
  run [] file = file
  run (c ∷ cs) file = run cs (step c file)
