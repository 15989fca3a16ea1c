-- ===== src/Leases/Store.antt =====
-- concurrency.py: `ExecutionLeaseStore`. Each method holds both locks from its load to its save, so it
-- is one step on the file.
use autonomous_ai_scout.Base.{
  ℕ, String, Bool, true, false, not, ◌||◌, Option, none, some, Result, ok, err, ◌>>=◌, ◌>>◌,
  raise_if, value_error, List, [], ◌∷◌, ◌++◌, any, keep, length, text_eq, if◌then◌else◌, ltb, leb,
  ◌==◌, is_empty, strip, text_length,
}
use autonomous_ai_scout.Storage.{
  Json, text, array, object, Elements, nil, cons, Fields, end, field, File, missing, unreadable,
  content, Conversions, require_field, text_field, encode_all,
}

-- The floating-point numbers: `float(value)`, the number that is written for one, `a > b`, and the
-- sum with a number of seconds.
pub record Floats (Float : Type 0) : Type 0 where
  pub float : Json → Result Float
  pub number : Float → Json
  pub is_later : Float → Float → Bool
  pub plus_seconds : Float → ℕ → Float

pub record ExecutionLease (Float : Type 0) : Type 0 where
  pub lease_id : String
  pub resource : String
  pub owner : String
  pub expires_at : Float

-- The fields of the store: the constructor keeps `max_active` from 1 to 64.
pub record Limits : Type 0 where
  pub max_active : ℕ
  pub ttl_seconds : ℕ

unfoldable pub make_limits : ℕ → ℕ → Result Limits
make_limits max_active ttl_seconds = do
  raise_if (ltb max_active 1 || ltb 64 max_active)
      (value_error "max_active must be between 1 and 64")
  raise_if (ltb ttl_seconds 1 || ltb 3600 ttl_seconds)
      (value_error "ttl_seconds must be between 1 and 3600")
  ok (record { max_active = max_active; ttl_seconds = ttl_seconds })

module _ {Float : Type 0} (floats : Floats Float) (convert : Conversions) where
  -- The dictionary that `_save` writes for a lease.
  unfoldable pub encode_lease : ExecutionLease Float → Json
  encode_lease lease = object (
      field "expires_at" (floats.number lease.expires_at) (
        field "lease_id" (text lease.lease_id)
          (field "owner" (text lease.owner) (field "resource" (text lease.resource) end))))

  -- `_save`
  unfoldable pub save : List (ExecutionLease Float) → File
  save leases = content (array (encode_all encode_lease leases))

  abbrev pub malformed : {A : Type 0} → Result A → Result A
  malformed (ok a) = ok a
  malformed (err e) = err (value_error "lease record is malformed")

  unfoldable pub read_lease : Fields → Result (ExecutionLease Float)
  read_lease item = malformed (do
    lease_id ← text_field convert "lease_id" item
    resource ← text_field convert "resource" item
    owner ← text_field convert "owner" item
    expires ← require_field "expires_at" item
    expires_at ← floats.float expires
    ok (record {
      lease_id = lease_id;
      resource = resource;
      owner = owner;
      expires_at = expires_at;
    }))

  unfoldable pub decode_lease : Json → Result (ExecutionLease Float)
  unfolding read_lease
  decode_lease (object item) = read_lease item
  decode_lease _ = err (value_error "lease record is invalid")

  -- The loop of `_load`: a lease that has expired at `now` is left out.
  unfoldable pub decode_leases : Float → Elements → Result (List (ExecutionLease Float))
  unfolding decode_lease
  decode_leases now nil = ok []
  decode_leases now (cons item rest) = do
    lease ← decode_lease item
    leases ← decode_leases now rest
    ok (if floats.is_later lease.expires_at now then lease ∷ leases else leases)

  -- `_load`, at the time `now`
  unfoldable pub load : Float → File → Result (List (ExecutionLease Float))
  unfolding decode_leases
  load now missing = ok []
  load now unreadable = err (value_error "lease store is unreadable")
  load now (content (array items)) = decode_leases now items
  load now (content _) = err (value_error "lease store schema is invalid")

  -- What a method returns, with the leases that it saves if it saves.
  abbrev pub Change : Type 0 → Type 0
  Change A = A × Option (List (ExecutionLease Float))

  abbrev pub settle : {A : Type 0} → File → Change A → Result A × File
  settle file (a, none) = (ok a, file)
  settle file (a, some leases) = (ok a, save leases)

  abbrev pub with_loaded :
      {A : Type 0}
      → File
      → (List (ExecutionLease Float) → Change A)
      → Result (List (ExecutionLease Float))
      → Result A × File
  with_loaded file f (ok leases) = settle file (f leases)
  with_loaded file f (err e) = (err e, file)

  -- The part of `acquire` under the locks; `lease` is the one it would add.
  unfoldable pub grant :
      ℕ
      → ExecutionLease Float
      → List (ExecutionLease Float)
      → Change (Option (ExecutionLease Float))
  grant max_active lease leases =
      if any (λ (item : ExecutionLease Float). text_eq item.resource lease.resource) leases
      then (none, none)
      else if leb max_active (length leases)
      then (none, none)
      else (some lease, some (leases ++ lease ∷ []))

  abbrev pub when_valid :
      {A : Type 0} → File → Result (Unit {0}) → Result A × File → Result A × File
  when_valid file (ok _) rest = rest
  when_valid file (err e) rest = (err e, file)

  unfoldable pub new_lease : Limits → String → Float → String → String → ExecutionLease Float
  unfolding strip
  new_lease limits lease_id later resource owner = record {
    lease_id = lease_id;
    resource = strip resource;
    owner = strip owner;
    expires_at = floats.plus_seconds later limits.ttl_seconds;
  }

  -- `acquire`; `now` is the time of the load, `later` that of the lease, and `lease_id` is new.
  unfoldable pub acquire :
      Limits
      → String
      → Float
      → Float
      → String
      → String
      → File
      → Result (Option (ExecutionLease Float)) × File
  unfolding load grant save new_lease strip
  acquire limits lease_id now later resource owner file =
      when_valid file
        (raise_if
          (is_empty (strip resource)
            || is_empty (strip owner)
            || ltb 256 (text_length (strip resource))
            || ltb 256 (text_length (strip owner)))
          (value_error "resource and owner are required and bounded"))
        (with_loaded file (grant limits.max_active (new_lease limits lease_id later resource owner))
          (load now file))

  unfoldable pub drop_lease : String → List (ExecutionLease Float) → Change Bool
  unfolding keep
  drop_lease lease_id leases =
      let remaining =
        keep (λ (lease : ExecutionLease Float). not (text_eq lease.lease_id lease_id)) leases in
      if length remaining == length leases then (false, none) else (true, some remaining)

  -- `release`
  unfoldable pub release : Float → String → File → Result Bool × File
  unfolding load drop_lease save
  release now lease_id file = with_loaded file (drop_lease lease_id) (load now file)

  -- `active`
  unfoldable pub active : Float → File → Result (List (ExecutionLease Float)) × File
  unfolding load save
  active now file = with_loaded file (λ leases. (leases, some leases)) (load now file)

  -- The calls on a store, each with the times at which it looks at the clock.
  pub data Call : Type 0 where
    call_acquire :
        (lease_id : String)
        → (now : Float) → (later : Float) → (resource : String) → (owner : String) → Call
    call_release : (now : Float) → (lease_id : String) → Call
    call_active : (now : Float) → Call

  -- The file behind some calls, in the order in which they get the locks.
  unfoldable pub after_calls : Limits → List Call → File → File
  unfolding acquire release active
  after_calls limits [] file = file
  after_calls limits (call_acquire lease_id now later resource owner ∷ calls) file =
      after_calls limits calls (acquire limits lease_id now later resource owner file).1
  after_calls limits (call_release now lease_id ∷ calls) file =
      after_calls limits calls (release now lease_id file).1
  after_calls limits (call_active now ∷ calls) file = after_calls limits calls (active now file).1
