-- ===== src/Queue/Disk.antt =====
-- `_load_unlocked` and `_save_unlocked` of task_queue.py, and that a saved queue loads.
use autonomous_ai_scout.Base.{
  ◌≡◌, refl, Option, some, Result, ok, err, ◌>>=◌, ◌>>◌, value_error, pos, List, [], ◌∷◌, All,
  >>=-eq-ok, ok-injective, sym, subst,
}
use autonomous_ai_scout.Storage.{
  Json, null, int, text, array, object, Elements, nil, cons, Fields, end, field, File, missing,
  unreadable, content, Conversions, find_field, require_field, text_of, int_of, text_field,
  text_field_or, int_field_or, encode_all,
}
use autonomous_ai_scout.Clock.{Calendar}
use autonomous_ai_scout.Queue.Item.{
  QueueItem, state_text, parse_state, parse_state-state_text, validate_item, IsValidItem,
}

-- The dictionary that `_save_unlocked` writes for an item.
unfoldable pub encode_item : QueueItem → Json
encode_item item = object (
    field "attempts" (int item.attempts) (
      field "available_at" (text item.available_at) (
        field "created_at" (text item.created_at) (
          field "execution_id" (text item.execution_id) (
            field "last_error" (text item.last_error) (
              field "state" (text (state_text item.state)) (
                field "task" (text item.task) (
                  field "task_id" (text item.task_id)
                    (field "updated_at" (text item.updated_at) end)))))))))

-- `_save_unlocked`
unfoldable pub save : List QueueItem → File
save items = content (object (field "items" (array (encode_all encode_item items)) end))

module _ (calendar : Calendar) (convert : Conversions) where
  unfoldable pub read_fields : Fields → Result QueueItem
  read_fields item = do
    task_id ← text_field convert "task_id" item
    task ← text_field convert "task" item
    execution_id ← text_field convert "execution_id" item
    state_value ← text_field convert "state" item
    state ← parse_state state_value
    created_at ← text_field convert "created_at" item
    updated_at ← text_field convert "updated_at" item
    available_at ← text_field convert "available_at" item
    attempts ← int_field_or convert "attempts" (pos 0) item
    ok (record {
      task_id = task_id;
      task = task;
      execution_id = execution_id;
      state = state;
      created_at = created_at;
      updated_at = updated_at;
      available_at = available_at;
      attempts = attempts;
      last_error = text_field_or convert "last_error" "" item;
    })

  unfoldable pub decode_item : Json → Result QueueItem
  unfolding read_fields
  decode_item (object item) = do
    queue_item ← read_fields item
    validate_item calendar queue_item
    ok queue_item
  decode_item _ = err (value_error "task queue item is invalid")

  unfoldable pub decode_items : Elements → Result (List QueueItem)
  decode_items nil = ok []
  decode_items (cons v rest) = do item ← decode_item v; items ← decode_items rest; ok (item ∷ items)

  -- The test on the schema: an object whose field `items` is an array.
  unfoldable pub decode_schema : Option Json → Result (List QueueItem)
  unfolding decode_items
  decode_schema (some (array items)) = decode_items items
  decode_schema _ = err (value_error "task queue has an invalid schema")

  unfoldable pub decode_payload : Json → Result (List QueueItem)
  unfolding decode_schema
  decode_payload (object fields) = decode_schema (find_field "items" fields)
  decode_payload _ = err (value_error "task queue has an invalid schema")

  -- `_load_unlocked`
  unfoldable pub load : File → Result (List QueueItem)
  unfolding decode_payload
  load missing = ok []
  load unreadable = err (value_error "task queue is unreadable")
  load (content payload) = decode_payload payload

  pub decode-encode_item :
      (item : QueueItem) → IsValidItem calendar item → decode_item (encode_item item) ≡ ok item
  unfolding decode_item encode_item text_field require_field find_field text_of int_field_or int_of
      text_field_or
  decode-encode_item item valid = rw (parse_state-state_text, valid)

  pub decode-encode_items :
      (items : List QueueItem)
      → All (IsValidItem calendar) items
      → decode_items (encode_all encode_item items) ≡ ok items
  unfolding decode_items encode_all
  decode-encode_items [] h = refl
  decode-encode_items (item ∷ items) h =
      rw (decode-encode_item item h.0, decode-encode_items items h.1)

  -- A queue whose items are all valid loads as it was saved: every field of every item, in order.
  pub load-save :
      (items : List QueueItem) → All (IsValidItem calendar) items → load (save items) ≡ ok items
  unfolding load save find_field
  load-save items h = decode-encode_items items h

  -- Loading what was saved raises, or gives the saved items.
  decode-encode_item_inv :
      (item : QueueItem) {y : QueueItem}
      → decode_item (encode_item item) ≡ ok y
      → (y ≡ item) × IsValidItem calendar item
  unfolding decode_item encode_item text_field require_field find_field text_of int_field_or int_of
      text_field_or
  decode-encode_item_inv item {y} h =
      let h' : (validate_item calendar item >>= λ _. ok item) ≡ ok y =
        rw parse_state-state_text at h in
      let (u, valid, e) = >>=-eq-ok (validate_item calendar item) (λ _. ok item) h' in
      (ok-injective (sym e), valid)

  decode-encode_items_inv :
      (items : List QueueItem) {ys : List QueueItem}
      → decode_items (encode_all encode_item items) ≡ ok ys
      → (ys ≡ items) × All (IsValidItem calendar) items
  unfolding decode_items encode_all
  decode-encode_items_inv [] h = (cc, tt)
  decode-encode_items_inv (item ∷ items) h =
      let (x, e, h') = >>=-eq-ok (decode_item (encode_item item)) _ h in
      let (zs, e', h'') = >>=-eq-ok (decode_items (encode_all encode_item items)) _ h' in
      let (p, v) = decode-encode_item_inv item e in
      let (q, w) = decode-encode_items_inv items e' in (cc, (v, w))

  pub load-save_inv :
      (items : List QueueItem) {ys : List QueueItem}
      → load (save items) ≡ ok ys
      → (ys ≡ items) × All (IsValidItem calendar) items
  unfolding load save find_field
  load-save_inv items h = decode-encode_items_inv items h

  -- Every item of a loaded queue passed the validation.
  decode_item-IsValidItem :
      (v : Json) {y : QueueItem} → decode_item v ≡ ok y → IsValidItem calendar y
  unfolding decode_item
  decode_item-IsValidItem (object item) h =
      let (x, _, h') = >>=-eq-ok (read_fields item) _ h in
      let (u, valid, e) = >>=-eq-ok (validate_item calendar x) (λ _. ok x) h' in
      subst (IsValidItem calendar) (ok-injective e) valid
  decode_item-IsValidItem null h = cc
  decode_item-IsValidItem v h = cc

  decode_items-AreValid :
      (vs : Elements) {ys : List QueueItem}
      → decode_items vs ≡ ok ys
      → All (IsValidItem calendar) ys
  unfolding decode_items
  decode_items-AreValid nil h = subst (All (IsValidItem calendar)) (ok-injective h) tt
  decode_items-AreValid (cons v vs) h =
      let (x, e, h') = >>=-eq-ok (decode_item v) _ h in
      let (xs, e', h'') = >>=-eq-ok (decode_items vs) _ h' in
      subst (All (IsValidItem calendar)) (ok-injective h'')
        (decode_item-IsValidItem v e, decode_items-AreValid vs e')

  schema-AreValid :
      (v : Option Json) {ys : List QueueItem}
      → decode_schema v ≡ ok ys
      → All (IsValidItem calendar) ys
  unfolding decode_schema
  schema-AreValid (some (array items)) h = decode_items-AreValid items h
  schema-AreValid (some null) h = cc
  schema-AreValid _ h = cc

  pub load-AreValid :
      (file : File) {ys : List QueueItem} → load file ≡ ok ys → All (IsValidItem calendar) ys
  unfolding load
  load-AreValid missing h = subst (All (IsValidItem calendar)) (ok-injective h) tt
  load-AreValid unreadable h = cc
  load-AreValid (content (object fields)) h = schema-AreValid (find_field "items" fields) h
  load-AreValid (content null) h = cc
  load-AreValid (content _) h = cc
