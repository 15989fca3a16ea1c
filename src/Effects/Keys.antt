-- ===== src/Effects/Keys.antt =====
-- No operation, no save and no load loses a key.
use autonomous_ai_scout.Base.{
  String, ◌≡◌, refl, subst, ◌∙◌, Bool, true, false, some, ok, ◌>>=◌, >>=-eq-ok, ok-injective, [],
  ◌∷◌, text_eq, text_eq_iff, if◌then◌else◌, Bool-cases, inl, inr, arith,
}
use autonomous_ai_scout.Storage.{
  Elements, nil, cons, Conversions, find_field, require_field, text_of, text_field, text_field_or,
  encode_all,
}
use autonomous_ai_scout.Clock.{Calendar}
use autonomous_ai_scout.Effects.Record.{SideEffectRecord, parse_state-state_text}
use autonomous_ai_scout.Effects.Disk.{
  Records, find, has_key, put, insert_sorted, sort_records, encode_record, save, decode_record,
  add_record, add_records, load,
}

pub has_key-put :
    (k : String) (r : SideEffectRecord) (rs : Records)
    → has_key k (put r rs) ≡ (if text_eq r.key k then true else has_key k rs)
unfolding has_key put
has_key-put k r [] = refl
has_key-put k r (x ∷ rs) =
    ground
      (arith, text_eq_iff r.key k, text_eq_iff x.key k, text_eq_iff x.key r.key, has_key-put k r rs)

has_key-insert_sorted :
    (k : String) (r : SideEffectRecord) (rs : Records)
    → has_key k (insert_sorted r rs) ≡ (if text_eq r.key k then true else has_key k rs)
unfolding has_key insert_sorted
has_key-insert_sorted k r [] = refl
has_key-insert_sorted k r (x ∷ rs) = ground (arith, has_key-insert_sorted k r rs)

pub has_key-sort_records : (k : String) (rs : Records) → has_key k (sort_records rs) ≡ has_key k rs
unfolding has_key sort_records
has_key-sort_records k [] = refl
has_key-sort_records k (r ∷ rs) =
    has_key-insert_sorted k r (sort_records rs) ∙ ground (arith, has_key-sort_records k rs)

pub find_of_has_key :
    (k : String) (rs : Records)
    → has_key k rs ≡ true
    → (r : SideEffectRecord) × (find k rs ≡ some r)
unfolding has_key find
find_of_has_key k [] h = cc
find_of_has_key k (r ∷ rs) h = elim (Bool-cases (text_eq r.key k)) [
  | inl e ↦ (r, rw e)
  | inr e ↦ rw e (find_of_has_key k rs (rw e at h))
]

pub find-key :
    (k : String) (rs : Records) (r : SideEffectRecord) → find k rs ≡ some r → text_eq r.key k ≡ true
unfolding find
find-key k [] r h = cc
find-key k (x ∷ rs) r h = ground (arith, find-key k rs r)

module _ (calendar : Calendar) (convert : Conversions) where
  pub decode-encode_record :
      (r : SideEffectRecord) → decode_record calendar convert (encode_record r) ≡ ok r
  unfolding decode_record encode_record text_field require_field find_field text_of text_field_or
  decode-encode_record r = rw parse_state-state_text

  pub add_record-put :
      (rs : Records) (r : SideEffectRecord) {rs' : Records}
      → add_record calendar convert rs r ≡ ok rs'
      → rs' ≡ put r rs
  unfolding add_record
  add_record-put rs r h = ground arith

  -- The loop over the records of a file keeps the keys that it has.
  add_records-has_key :
      (k : String) (raws : Elements) (rs : Records) {rs' : Records}
      → add_records calendar convert rs raws ≡ ok rs'
      → has_key k rs ≡ true
      → has_key k rs' ≡ true
  unfolding add_records
  add_records-has_key k nil rs h has =
      subst (λ (q : Records). has_key k q ≡ true) (ok-injective h) has
  add_records-has_key k (cons raw raws) rs h has =
      let (r, e, h') = >>=-eq-ok (decode_record calendar convert raw) _ h in
      let (mid, e', h'') = >>=-eq-ok (add_record calendar convert rs r) _ h' in
      add_records-has_key k raws mid h''
        (rw (add_record-put rs r e', has_key-put k r rs) (if_true (text_eq r.key k) has))
    where
      if_true : (b : Bool) {c : Bool} → c ≡ true → (if b then true else c) ≡ true
      if_true true h = refl
      if_true false h = h

  add_records-encoded :
      (k : String) (l rs : Records) {rs' : Records}
      → add_records calendar convert rs (encode_all encode_record l) ≡ ok rs'
      → has_key k l ≡ true
      → has_key k rs' ≡ true
  unfolding add_records encode_all
  add_records-encoded k [] rs h has = absurd (unfold has_key in cc)
  add_records-encoded k (r ∷ l) rs {rs'} h has =
      let h' : (add_record calendar convert rs r >>= λ q.
      add_records calendar convert q (encode_all encode_record l))
          ≡ ok rs' =
        rw (decode-encode_record r) at h in
      let (mid, e, h'') = >>=-eq-ok (add_record calendar convert rs r) _ h' in
      elim (Bool-cases (text_eq r.key k)) [
        | inl named ↦
            add_records-has_key k (encode_all encode_record l) mid h''
              (rw (add_record-put rs r e, has_key-put k r rs, named) refl)
        | inr other ↦ add_records-encoded k l mid h'' (unfold has_key in (rw other at has))
      ]

  -- A saved ledger that loads has every key that was saved.
  pub load-save-has_key :
      (k : String) (rs : Records) {rs' : Records}
      → load calendar convert (save rs) ≡ ok rs'
      → has_key k rs ≡ true
      → has_key k rs' ≡ true
  unfolding load save find_field
  load-save-has_key k rs h has =
      add_records-encoded k (sort_records rs) [] h (rw (has_key-sort_records k rs) has)
