-- ===== src/Leases/Held.antt =====
-- concurrency.py: how many leases are held, and that no two are for one resource.
use autonomous_ai_scout.Base.{
  ℕ, ◌≤◌, String, ◌≡◌, ◌⊎◌, inl, inr, refl, sym, subst, some_injective, some-ne-none, Bool, true,
  false, not, ◌||◌, Option, none, some, ok, List, [], ◌∷◌, ◌++◌, map, any, keep, length,
  length-append, length-keep, text_eq, text_eq_iff, ◌==◌, contains, distinct, Bool-cases, arith,
  is_empty, strip, ltb, text_length,
}
use autonomous_ai_scout.Storage.{
  File, missing, Conversions, find_field, require_field, text_field, text_of, encode_all,
}
use autonomous_ai_scout.Leases.Store.{
  Floats, ExecutionLease, Limits, save, encode_lease, decode_lease, read_lease, decode_leases, load,
  settle, with_loaded, grant, acquire, new_lease, drop_lease, release, active, Call, call_acquire,
  call_release, call_active, after_calls,
}

module _ {Float : Type 0} where
  abbrev pub resources : List (ExecutionLease Float) → List String
  resources leases = map (λ (lease : ExecutionLease Float). lease.resource) leases

  -- No more leases than the limit, and no two of one resource.
  unfoldable pub IsBounded : ℕ → List (ExecutionLease Float) → Type 0
  IsBounded max_active leases = (length leases ≤ max_active) × (distinct (resources leases) ≡ true)

  contains-keep_le :
      (p : ExecutionLease Float → Bool) (r : String) (leases : List (ExecutionLease Float))
      → contains r (resources leases) ≡ false
      → contains r (resources (keep p leases)) ≡ false
  unfolding keep
  contains-keep_le p r [] h = refl
  contains-keep_le p r (lease ∷ leases) h = ground (arith, h, contains-keep_le p r leases)

  distinct-keep :
      (p : ExecutionLease Float → Bool) (leases : List (ExecutionLease Float))
      → distinct (resources leases) ≡ true
      → distinct (resources (keep p leases)) ≡ true
  unfolding keep
  distinct-keep p [] h = refl
  distinct-keep p (lease ∷ leases) h =
      ground (arith, h, distinct-keep p leases, contains-keep_le p lease.resource leases)

  IsBounded-keep :
      (max_active : ℕ) (p : ExecutionLease Float → Bool) (leases : List (ExecutionLease Float))
      → IsBounded max_active leases
      → IsBounded max_active (keep p leases)
  unfolding IsBounded
  IsBounded-keep max_active p leases h =
      (omega (arith, h.0, length-keep p leases), distinct-keep p leases h.1)

  contains-snoc :
      (r : String) (lease : ExecutionLease Float) (leases : List (ExecutionLease Float))
      → contains r (resources (leases ++ lease ∷ []))
        ≡ (contains r (resources leases) || text_eq lease.resource r)
  contains-snoc r lease [] = ground arith
  contains-snoc r lease (x ∷ leases) = ground (arith, contains-snoc r lease leases)

  distinct-snoc :
      (lease : ExecutionLease Float) (leases : List (ExecutionLease Float))
      → distinct (resources leases) ≡ true
      → any (λ (item : ExecutionLease Float). text_eq item.resource lease.resource) leases ≡ false
      → distinct (resources (leases ++ lease ∷ [])) ≡ true
  distinct-snoc lease [] h free = refl
  distinct-snoc lease (x ∷ leases) h free = ground (
    arith,
    h,
    free,
    distinct-snoc lease leases,
    contains-snoc x.resource lease leases,
    text_eq_iff lease.resource x.resource,
    text_eq_iff x.resource lease.resource,
  )

module _ {Float : Type 0} (floats : Floats Float) (convert : Conversions)
    (float-number : (x : Float) → floats.float (floats.number x) ≡ ok x) where
  abbrev alive : Float → ExecutionLease Float → Bool
  alive now lease = floats.is_later lease.expires_at now

  decode-encode_lease :
      (lease : ExecutionLease Float)
      → decode_lease floats convert (encode_lease floats convert lease) ≡ ok lease
  unfolding decode_lease encode_lease read_lease text_field require_field find_field text_of
  decode-encode_lease lease = rw (float-number lease.expires_at) refl

  decode-encode_leases :
      (now : Float) (leases : List (ExecutionLease Float))
      → decode_leases floats convert now (encode_all (encode_lease floats convert) leases)
        ≡ ok (keep (alive now) leases)
  unfolding decode_leases encode_all keep
  decode-encode_leases now [] = refl
  decode-encode_leases now (lease ∷ leases) =
      rw (decode-encode_lease lease) rw (decode-encode_leases now leases) refl

  load-save :
      (now : Float) (leases : List (ExecutionLease Float))
      → load floats convert now (save floats convert leases) ≡ ok (keep (alive now) leases)
  unfolding load save
  load-save now leases = decode-encode_leases now leases

  -- A file that the store has written, or none yet.
  IsHeld : ℕ → File → Type 0
  IsHeld max_active file =
      (file ≡ missing)
      ⊎ (leases : List (ExecutionLease Float)) × (file ≡ save floats convert leases)
        × IsBounded max_active leases

  load-IsHeld :
      (max_active : ℕ) (now : Float) (file : File)
      → IsHeld max_active file
      → (leases : List (ExecutionLease Float)) × (load floats convert now file ≡ ok leases)
        × IsBounded max_active leases
  unfolding IsHeld IsBounded load
  load-IsHeld max_active now file (inl none_yet) = ([], rw none_yet refl, (omega arith, refl))
  load-IsHeld max_active now file (inr (leases, written, bounded)) = (
    keep (alive now) leases,
    rw written (load-save now leases),
    IsBounded-keep max_active (alive now) leases bounded,
  )

  -- A method keeps a file that is held if what it saves is bounded.
  with_loaded-IsHeld :
      {A : Type 0} (max_active : ℕ) (now : Float) (file : File)
      (f : List (ExecutionLease Float) → A × Option (List (ExecutionLease Float)))
      → IsHeld max_active file
      → ((leases saved : List (ExecutionLease Float))
          → IsBounded max_active leases
          → (f leases).1 ≡ some saved
          → IsBounded max_active saved)
      → IsHeld max_active (with_loaded floats convert file f (load floats convert now file)).1
  unfolding IsHeld
  with_loaded-IsHeld {A} max_active now file f held saves =
      let (leases, loaded, bounded) = load-IsHeld max_active now file held in
      rw loaded (settled (f leases) (λ saved. saves leases saved bounded))
    where
      settled :
          (change : A × Option (List (ExecutionLease Float)))
          → ((saved : List (ExecutionLease Float))
              → change.1 ≡ some saved
              → IsBounded max_active saved)
          → IsHeld max_active (settle floats convert file change).1
      settled (a, none) bounds = held
      settled (a, some saved) bounds = inr (saved, refl, bounds saved refl)

  grant-IsBounded :
      (max_active : ℕ) (lease : ExecutionLease Float) (leases saved : List (ExecutionLease Float))
      → IsBounded max_active leases
      → (grant floats convert max_active lease leases).1 ≡ some saved
      → IsBounded max_active saved
  unfolding grant IsBounded
  grant-IsBounded max_active lease leases saved bounded h =
      ground (arith, bounded, h, distinct-snoc lease leases, length-append leases (lease ∷ []))

  drop_lease-IsBounded :
      (max_active : ℕ) (lease_id : String) (leases saved : List (ExecutionLease Float))
      → IsBounded max_active leases
      → (drop_lease floats convert lease_id leases).1 ≡ some saved
      → IsBounded max_active saved
  unfolding drop_lease
  drop_lease-IsBounded max_active lease_id leases saved bounded h =
      let remaining =
        keep (λ (lease : ExecutionLease Float). not (text_eq lease.lease_id lease_id)) leases in
      let kept =
        IsBounded-keep max_active
          (λ (lease : ExecutionLease Float). not (text_eq lease.lease_id lease_id)) leases
          bounded in
      elim (Bool-cases (length remaining == length leases)) [
        | inl e ↦ absurd (some-ne-none (sym (rw e at h)))
        | inr e ↦ subst (IsBounded max_active) (some_injective (rw e at h)) kept
      ]

  acquire-IsHeld :
      (limits : Limits) (lease_id : String) (now later : Float) (resource owner : String)
      (file : File)
      → IsHeld limits.max_active file
      → IsHeld limits.max_active
          (acquire floats convert limits lease_id now later resource owner file).1
  unfolding acquire
  acquire-IsHeld limits lease_id now later resource owner file held =
      let lease = new_lease floats convert limits lease_id later resource owner in
      elim (Bool-cases (
        is_empty (strip resource)
        || is_empty (strip owner)
        || ltb 256 (text_length (strip resource))
        || ltb 256 (text_length (strip owner)))) [
          | inl e ↦ rw e held
          | inr e ↦ rw e (
              with_loaded-IsHeld limits.max_active now file
                (grant floats convert limits.max_active lease) held
                (grant-IsBounded limits.max_active lease))
        ]

  call-IsHeld :
      (limits : Limits) (calls : List (Call floats convert)) (file : File)
      → IsHeld limits.max_active file
      → IsHeld limits.max_active (after_calls floats convert limits calls file)
  unfolding after_calls release active
  call-IsHeld limits [] file held = held
  call-IsHeld limits (call_acquire lease_id now later resource owner ∷ calls) file held =
      call-IsHeld limits calls _ (acquire-IsHeld limits lease_id now later resource owner file held)
  call-IsHeld limits (call_release now lease_id ∷ calls) file held = call-IsHeld limits calls _ (
      with_loaded-IsHeld limits.max_active now file (drop_lease floats convert lease_id) held
        (drop_lease-IsBounded limits.max_active lease_id))
  call-IsHeld limits (call_active now ∷ calls) file held = call-IsHeld limits calls _ (
      with_loaded-IsHeld limits.max_active now file (λ leases. (leases, some leases)) held
        (λ leases saved bounded same.
          subst (IsBounded limits.max_active) (some_injective same) bounded))

  -- Behind any calls on a new store, in any order and at any times, the leases can be loaded: there
  -- are no more of them than the limit, and no two of one resource. It is assumed that a number is
  -- read back from the file as it was written.
  pub after_calls-IsBounded :
      (limits : Limits) (calls : List (Call floats convert)) (now : Float)
      → (leases : List (ExecutionLease Float)) × (load floats convert now
            (after_calls floats convert limits calls missing)
          ≡ ok leases)
        × IsBounded limits.max_active leases
  unfolding IsHeld
  after_calls-IsBounded limits calls now =
      load-IsHeld limits.max_active now (after_calls floats convert limits calls missing)
        (call-IsHeld limits calls missing (inl refl))
