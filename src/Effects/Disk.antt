-- ===== src/Effects/Disk.antt =====
-- `_load_unlocked` and `_save_unlocked` of external_side_effects.py. A dictionary of records is the
-- list of its values in order: the key of each entry is the field `key` of its record.
use autonomous_ai_scout.Base.{
  String, Bool, true, false, Option, none, some, Result, ok, err, ◌>>=◌, ◌>>◌, raise_if,
  value_error, List, [], ◌∷◌, length, text_eq, text_le, ltb, if◌then◌else◌,
}
use autonomous_ai_scout.Storage.{
  Json, text, array, object, Elements, nil, cons, Fields, end, field, File, missing, unreadable,
  content, Conversions, find_field, text_field, text_field_or, encode_all,
}
use autonomous_ai_scout.Clock.{Calendar}
use autonomous_ai_scout.Effects.Record.{
  SideEffectRecord, state_text, parse_state, validate, max_records,
}

abbrev pub Records : Type 0
Records = List SideEffectRecord

-- `records.get(key)`
unfoldable pub find : String → Records → Option SideEffectRecord
find key [] = none
find key (r ∷ rs) = if text_eq r.key key then some r else find key rs

-- `key in records`
unfoldable pub has_key : String → Records → Bool
has_key key [] = false
has_key key (r ∷ rs) = if text_eq r.key key then true else has_key key rs

-- `records[record.key] = record`
unfoldable pub put : SideEffectRecord → Records → Records
put record' [] = record' ∷ []
put record' (r ∷ rs) =
    let rest = put record' rs in if text_eq r.key record'.key then record' ∷ rs else r ∷ rest

-- `sorted(records.values(), key=lambda item: item.key)`
unfoldable pub insert_sorted : SideEffectRecord → Records → Records
insert_sorted record' [] = record' ∷ []
insert_sorted record' (r ∷ rs) =
    let rest = insert_sorted record' rs in
    if text_le record'.key r.key then record' ∷ r ∷ rs else r ∷ rest

unfoldable pub sort_records : Records → Records
sort_records [] = []
sort_records (r ∷ rs) = insert_sorted r (sort_records rs)

-- The dictionary that `_save_unlocked` writes for a record.
unfoldable pub encode_record : SideEffectRecord → Json
encode_record r = object (
    field "created_at" (text r.created_at) (
      field "key" (text r.key) (
        field "operation" (text r.operation) (
          field "reason" (text r.reason) (
            field "request_digest" (text r.request_digest) (
              field "result_digest" (text r.result_digest) (
                field "state" (text (state_text r.state))
                  (field "updated_at" (text r.updated_at) end))))))))

-- `_save_unlocked`
unfoldable pub save : Records → File
save records =
    content (object (field "records" (array (encode_all encode_record (sort_records records))) end))

-- `except (KeyError, TypeError, ValueError)` around the construction of a record.
abbrev pub malformed : Result SideEffectRecord → Result SideEffectRecord
malformed (ok r) = ok r
malformed (err e) = err (value_error "side-effect record is malformed")

module _ (calendar : Calendar) (convert : Conversions) where
  unfoldable pub read_fields : Fields → Result SideEffectRecord
  read_fields raw = do
    key ← text_field convert "key" raw
    operation ← text_field convert "operation" raw
    request_digest ← text_field convert "request_digest" raw
    state_value ← text_field convert "state" raw
    state ← parse_state state_value
    created_at ← text_field convert "created_at" raw
    updated_at ← text_field convert "updated_at" raw
    ok (record {
      key = key;
      operation = operation;
      request_digest = request_digest;
      state = state;
      result_digest = text_field_or convert "result_digest" "" raw;
      reason = text_field_or convert "reason" "" raw;
      created_at = created_at;
      updated_at = updated_at;
    })

  unfoldable pub decode_record : Json → Result SideEffectRecord
  unfolding read_fields
  decode_record (object raw) = malformed (read_fields raw)
  decode_record _ = err (value_error "side-effect record is invalid")

  -- One round of the loop over the records in the file.
  unfoldable pub add_record : Records → SideEffectRecord → Result Records
  add_record records r = do
    validate calendar r
    raise_if (has_key r.key records) (value_error "side-effect ledger contains duplicate keys")
    raise_if (ltb max_records (length (put r records)))
        (value_error "side-effect ledger exceeds its record limit")
    ok (put r records)

  unfoldable pub add_records : Records → Elements → Result Records
  unfolding add_record decode_record
  add_records records nil = ok records
  add_records records (cons raw rest) = do
    r ← decode_record raw
    records' ← add_record records r
    add_records records' rest

  unfoldable pub decode_schema : Option Json → Result Records
  unfolding add_records
  decode_schema (some (array raws)) = add_records [] raws
  decode_schema _ = err (value_error "side-effect ledger has an invalid schema")

  unfoldable pub decode_payload : Json → Result Records
  unfolding decode_schema
  decode_payload (object fields) = decode_schema (find_field "records" fields)
  decode_payload _ = err (value_error "side-effect ledger has an invalid schema")

  -- `_load_unlocked`
  unfoldable pub load : File → Result Records
  unfolding decode_payload
  load missing = ok []
  load unreadable = err (value_error "side-effect ledger is unreadable")
  load (content payload) = decode_payload payload
