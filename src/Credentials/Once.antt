-- ===== src/Credentials/Once.antt =====
-- auth_broker.py: a handle gives its secret once.
use autonomous_ai_scout.Base.{
  ℕ, ◌+◌, ◌≤◌, String, ◌≡◌, refl, Bool, true, false, not, ◌||◌, ◌&&◌, Option, none, some, Result,
  ok, err, List, [], ◌∷◌, keep, contains, count, keys, Dict, lookup, insert, erase, text_eq,
  text_eq_iff, if◌then◌else◌, arith, leb, ℤ, inl, inr, Bool-cases, is_empty,
}
use autonomous_ai_scout.Credentials.Broker.{
  CredentialRef, CredentialLease, Leases, purge_expired, is_live, issue, when_allowed,
  authorize_scopes, lease_duration, acquire_credential, checked_secret, use_lease, revoke_lease,
  Call, acquire_call, use_call, revoke_call, purge_call, note_secret, handed_out, issued,
  note_lease,
}

contains-keep-keys :
    {V : Type 0} (h : String) (p : String × V → Bool) (d : Dict V)
    → contains h (keys (keep p d)) ≡ true
    → contains h (keys d) ≡ true
unfolding keep
contains-keep-keys h p [] inside = inside
contains-keep-keys h p ((k, v) ∷ d) inside = ground (arith, inside, contains-keep-keys h p d)

contains-insert :
    {V : Type 0} (h k : String) (v : V) (d : Dict V)
    → contains h (keys (insert k v d)) ≡ (text_eq k h || contains h (keys d))
unfolding insert
contains-insert h k v [] = ground arith
contains-insert h k v ((j, w) ∷ d) =
    ground (arith, contains-insert h k v d, text_eq_iff j k, text_eq_iff k h, text_eq_iff j h)

contains-erase :
    {V : Type 0} (h k : String) (d : Dict V)
    → contains h (keys (erase k d)) ≡ (contains h (keys d) && not (text_eq k h))
unfolding erase
contains-erase h k [] = refl
contains-erase h k ((j, w) ∷ d) =
    ground (arith, contains-erase h k d, text_eq_iff j k, text_eq_iff k h, text_eq_iff j h)

lookup-contains :
    {V : Type 0} (k : String) (d : Dict V) (v : V)
    → lookup k d ≡ some v
    → contains k (keys d) ≡ true
unfolding lookup
lookup-contains k [] v h = cc
lookup-contains k ((j, w) ∷ d) v h = ground (arith, h, lookup-contains k d v)

-- 1 if the handle stands for a lease, 0 if not.
abbrev held : String → Leases → ℕ
held h leases = if contains h (keys leases) then 1 else 0

held-purge_expired :
    (h : String) (now : ℕ) (leases : Leases) → held h (purge_expired now leases) ≤ held h leases
unfolding purge_expired
held-purge_expired h now leases = ground (arith, contains-keep-keys h (is_live now) leases)

held-erase : (h k : String) (leases : Leases) → held h (erase k leases) ≤ held h leases
held-erase h k leases = ground (arith, contains-erase h k leases)

module _ (provider : CredentialRef → Result String) where
  held-issue :
      (h : String) (reference : CredentialRef) (duration : ℕ) (handle : String) (now : ℕ)
      (answer : Result String) (leases : Leases) (rest : List String)
      → count h rest + held h (issue provider reference duration handle now answer leases).1
        ≤ count h (
            note_lease provider (issue provider reference duration handle now answer leases).0 rest)
          + held h leases
  unfolding issue count
  held-issue h reference duration handle now (err e) leases rest = ground arith
  held-issue h reference duration handle now (ok secret) leases rest =
      elim (Bool-cases (is_empty secret)) [
        | inl e ↦ rw e (omega arith)
        | inr e ↦ rw e (ground (arith, contains-insert h handle (secret, now + duration) leases))
      ]

  -- A lease that is returned is counted for the handle that is held from then on.
  held-acquire_credential :
      (h : String) (reference : CredentialRef) (granted : List String) (seconds : ℤ)
      (purged_at now : ℕ) (handle : String) (leases : Leases) (rest : List String)
      → count h rest
          + held h
              (acquire_credential provider reference granted seconds purged_at now handle leases).1
        ≤ count h (
            note_lease provider
              (acquire_credential provider reference granted seconds purged_at now handle leases).0
              rest)
          + held h leases
  unfolding acquire_credential
  held-acquire_credential h reference granted seconds purged_at now handle leases rest =
      let purged = purge_expired purged_at leases in
      let fewer = held-purge_expired h purged_at leases in
      allowed (authorize_scopes reference.scopes granted)
        (issue provider reference (lease_duration seconds) handle now (provider reference) purged)
        (omega (
          arith,
          fewer,
          held-issue h reference (lease_duration seconds) handle now (provider reference) purged
              rest,
        ))
    where
      allowed :
          (decision : Bool × String) (made : Result CredentialLease × Leases)
          → count h rest + held h made.1 ≤ count h (note_lease provider made.0 rest) + held h leases
          → count h rest
              + held h (when_allowed provider decision (purge_expired purged_at leases) made).1
            ≤ count h (
                note_lease provider
                  (when_allowed provider decision (purge_expired purged_at leases) made).0
                  rest)
              + held h leases
      allowed (true, reason) made more = more
      allowed (false, reason) made more = omega (arith, held-purge_expired h purged_at leases)

  -- Where a handle gives its secret, it is taken away.
  checked_secret-spends :
      (h k : String) (now : ℕ) (leases : Leases) (rest : List String) (found : Option (String × ℕ))
      → lookup k leases ≡ found
      → count h (note_secret provider k (checked_secret provider now found) rest)
          + held h (erase k leases)
        ≤ count h rest + held h leases
  unfolding count
  checked_secret-spends h k now leases rest none e = ground (arith, contains-erase h k leases)
  checked_secret-spends h k now leases rest (some (secret, expires)) e = ground (
    arith,
    contains-erase h k leases,
    lookup-contains k leases (secret, expires) e,
    text_eq_iff k h,
  )

  use_lease-spends :
      (h : String) (lease : CredentialLease) (purged_at now : ℕ) (leases : Leases)
      (rest : List String)
      → count h (
            note_secret provider lease.secret_handle
              (use_lease provider lease purged_at now leases).0
              rest)
          + held h (use_lease provider lease purged_at now leases).1
        ≤ count h rest + held h leases
  unfolding use_lease
  use_lease-spends h lease purged_at now leases rest =
      let purged = purge_expired purged_at leases in
      let fewer = held-purge_expired h purged_at leases in
      elim (Bool-cases (leb lease.expires_at now)) [
        | inl e ↦ rw e (omega (arith, fewer, held-erase h lease.secret_handle purged))
        | inr e ↦ rw e (
            omega (
              arith,
              fewer,
              checked_secret-spends h lease.secret_handle now purged rest
                  (lookup lease.secret_handle purged) refl,
            ))
      ]

  -- A broker gives the secret of a handle to a consumer no more often than its calls return a lease
  -- of the handle, whatever calls are made, with whatever leases; a handle that it held before counts
  -- as one more.
  pub handed_out-issued :
      (calls : List (Call provider)) (leases : Leases) (h : String)
      → count h (handed_out provider calls leases)
        ≤ count h (issued provider calls leases) + (if contains h (keys leases) then 1 else 0)
  unfolding handed_out issued count revoke_lease
  handed_out-issued [] leases h = omega arith
  handed_out-issued (acquire_call reference granted seconds purged_at now handle ∷ calls) leases h =
      let after =
        (acquire_credential provider reference granted seconds purged_at now handle leases).1 in
      omega (
        arith,
        handed_out-issued calls after h,
        held-acquire_credential h reference granted seconds purged_at now handle leases
            (issued provider calls after),
      )
  handed_out-issued (use_call lease purged_at now ∷ calls) leases h =
      let after = (use_lease provider lease purged_at now leases).1 in
      omega (
        arith,
        handed_out-issued calls after h,
        use_lease-spends h lease purged_at now leases (handed_out provider calls after),
      )
  handed_out-issued (revoke_call lease ∷ calls) leases h = omega (
    arith,
    handed_out-issued calls (erase lease.secret_handle leases) h,
    held-erase h lease.secret_handle leases,
  )
  handed_out-issued (purge_call now ∷ calls) leases h =
      omega (
        arith,
        handed_out-issued calls (purge_expired now leases) h,
        held-purge_expired h now leases,
      )
