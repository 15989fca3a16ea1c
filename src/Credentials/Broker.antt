-- ===== src/Credentials/Broker.antt =====
-- auth_broker.py: `PermissionBroker` and `CredentialBroker`. The broker's lock covers each change of the
-- leases; the state is the dictionary of the leases.
use autonomous_ai_scout.Base.{
  ℕ, ◌+◌, String, Bool, true, false, not, Option, none, some, Result, ok, err, permission_error,
  runtime_error, List, [], ◌∷◌, map, keep, is_nil, contains, sort_texts, strip, is_empty, join,
  if◌then◌else◌, leb, min, max, ◌+++◌, Dict, lookup, insert, erase, clamp_at_zero, ℤ,
}

-- A reference that the constructor has accepted.
pub record CredentialRef : Type 0 where
  pub provider : String
  pub subject : String
  pub resource : String
  pub scopes : List String

pub record CredentialLease : Type 0 where
  pub reference : CredentialRef
  pub issued_at : ℕ
  pub expires_at : ℕ
  pub secret_handle : String

abbrev pub max_lease_seconds : ℕ
max_lease_seconds = 300

-- `self._leases`: the secret of a handle, and the instant at which it expires.
abbrev pub Leases : Type 0
Leases = Dict (String × ℕ)

-- `{str(item).strip() for item in items if str(item).strip()}`, as a list
unfoldable pub normalize_scopes : List String → List String
unfolding keep strip
normalize_scopes items = keep (λ item. not (is_empty item)) (map strip items)

-- Each text once, for a set that is sorted.
unfoldable pub unique : List String → List String
unique [] = []
unique (x ∷ xs) = let rest = unique xs in if contains x rest then rest else x ∷ rest

-- `PermissionBroker.authorize`
unfoldable pub authorize_scopes : List String → List String → Bool × String
unfolding normalize_scopes unique sort_texts keep join
authorize_scopes requested granted =
    let granted_set = normalize_scopes granted in
    let missing =
      sort_texts
        (unique (keep (λ item. not (contains item granted_set)) (normalize_scopes requested))) in
    if is_nil missing
    then (true, "permission scopes authorized")
    else (false, "missing permission scopes: " +++ join ", " missing)

abbrev pub is_live : ℕ → String × (String × ℕ) → Bool
is_live now entry = not (leb entry.1.1 now)

-- `purge_expired`: a lease has expired when `now >= expires`.
unfoldable pub purge_expired : ℕ → Leases → Leases
unfolding keep
purge_expired now leases = keep (is_live now) leases

-- `max(1, min(int(lease_seconds), MAX_LEASE_SECONDS))`
abbrev pub lease_duration : ℤ → ℕ
lease_duration lease_seconds = max 1 (min (clamp_at_zero lease_seconds) max_lease_seconds)

-- `provider` gives the secret of a reference.
module _ (provider : CredentialRef → Result String) where
  -- The end of `acquire`, behind the call of the provider.
  unfoldable pub issue :
      CredentialRef → ℕ → String → ℕ → Result String → Leases → Result CredentialLease × Leases
  unfolding insert
  issue reference duration handle now (err e) leases = (err e, leases)
  issue reference duration handle now (ok secret) leases =
      if is_empty secret
      then (err (runtime_error "credential provider returned no credential"), leases)
      else (
        ok (record {
          reference = reference;
          issued_at = now;
          expires_at = now + duration;
          secret_handle = handle;
        }),
        insert handle (secret, now + duration) leases,
      )

  abbrev pub when_allowed :
      Bool × String → Leases → Result CredentialLease × Leases → Result CredentialLease × Leases
  when_allowed (true, reason) leases rest = rest
  when_allowed (false, reason) leases rest = (err (permission_error reason), leases)

  -- `acquire`; `purged_at` and `now` are the times that it reads, and `handle` is the new one.
  unfoldable pub acquire_credential :
      CredentialRef → List String → ℤ → ℕ → ℕ → String → Leases → Result CredentialLease × Leases
  unfolding issue authorize_scopes purge_expired
  acquire_credential reference granted_scopes lease_seconds purged_at now handle leases =
      let purged = purge_expired purged_at leases in
      when_allowed (authorize_scopes reference.scopes granted_scopes) purged
        (issue reference (lease_duration lease_seconds) handle now (provider reference) purged)

  -- What `use_lease` does with the record that it popped: the secret for the consumer, or what is raised.
  abbrev pub checked_secret : ℕ → Option (String × ℕ) → Result String
  checked_secret now none = err (permission_error "credential lease is invalid or already consumed")
  checked_secret now (some (secret, expires)) =
      if leb expires now then err (permission_error "credential lease has expired") else ok secret

  -- `use_lease` up to the call of the consumer
  unfoldable pub use_lease : CredentialLease → ℕ → ℕ → Leases → Result String × Leases
  unfolding lookup erase purge_expired
  use_lease lease purged_at now leases =
      let purged = purge_expired purged_at leases in
      let found = lookup lease.secret_handle purged in
      if leb lease.expires_at now
      then (err (permission_error "credential lease has expired"), erase lease.secret_handle purged)
      else (checked_secret now found, erase lease.secret_handle purged)

  abbrev pub is_present : Option (String × ℕ) → Bool
  is_present none = false
  is_present (some entry) = true

  unfoldable pub revoke_lease : CredentialLease → Leases → Bool × Leases
  unfolding lookup erase
  revoke_lease lease leases =
      (is_present (lookup lease.secret_handle leases), erase lease.secret_handle leases)

  -- The calls on a broker. A caller may make up a lease, or change one that it was given.
  pub data Call : Type 0 where
    acquire_call : CredentialRef → List String → ℤ → ℕ → ℕ → String → Call
    use_call : CredentialLease → ℕ → ℕ → Call
    revoke_call : CredentialLease → Call
    purge_call : ℕ → Call

  abbrev pub note_secret : String → Result String → List String → List String
  note_secret handle (ok secret) rest = handle ∷ rest
  note_secret handle (err e) rest = rest

  -- The handles whose secrets some calls hand to a consumer, in order.
  unfoldable pub handed_out : List Call → Leases → List String
  unfolding acquire_credential use_lease revoke_lease purge_expired
  handed_out [] leases = []
  handed_out (acquire_call reference granted seconds purged_at now handle ∷ calls) leases =
      handed_out calls (acquire_credential reference granted seconds purged_at now handle leases).1
  handed_out (use_call lease purged_at now ∷ calls) leases =
      note_secret lease.secret_handle (use_lease lease purged_at now leases).0
        (handed_out calls (use_lease lease purged_at now leases).1)
  handed_out (revoke_call lease ∷ calls) leases = handed_out calls (revoke_lease lease leases).1
  handed_out (purge_call now ∷ calls) leases = handed_out calls (purge_expired now leases)

  abbrev pub note_lease : Result CredentialLease → List String → List String
  note_lease (ok lease) rest = lease.secret_handle ∷ rest
  note_lease (err e) rest = rest

  -- The handles of the leases that some calls return, in order.
  unfoldable pub issued : List Call → Leases → List String
  unfolding acquire_credential use_lease revoke_lease purge_expired
  issued [] leases = []
  issued (acquire_call reference granted seconds purged_at now handle ∷ calls) leases =
      note_lease (acquire_credential reference granted seconds purged_at now handle leases).0
        (issued calls (acquire_credential reference granted seconds purged_at now handle leases).1)
  issued (use_call lease purged_at now ∷ calls) leases =
      issued calls (use_lease lease purged_at now leases).1
  issued (revoke_call lease ∷ calls) leases = issued calls (revoke_lease lease leases).1
  issued (purge_call now ∷ calls) leases = issued calls (purge_expired now leases)
