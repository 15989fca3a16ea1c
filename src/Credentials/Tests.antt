-- ===== src/Credentials/Tests.antt =====
-- Concrete credentials.
use autonomous_ai_scout.Base.{
  ◌+◌, ◌≤◌, String, ◌≡◌, refl, false, Result, ok, List, [], ◌∷◌, pos, if◌then◌else◌, count,
  contains, keys,
}
use autonomous_ai_scout.Credentials.Broker.{
  CredentialRef, CredentialLease, Leases, authorize_scopes, Call, acquire_call, use_call,
  handed_out, issued,
}
use autonomous_ai_scout.Credentials.Once.{handed_out-issued}

abbrev mail : CredentialRef
mail = record { provider = "gmail"; subject = "user"; resource = "inbox"; scopes = "read" ∷ [] }

abbrev provider : CredentialRef → Result String
provider reference = ok "s3cret"

abbrev lease : String → CredentialLease
lease handle = record { reference = mail; issued_at = 0; expires_at = 60; secret_handle = handle }

-- The first handle is used twice, the second when it has expired, and the third is not granted.
abbrev calls : List (Call provider)
calls =
    acquire_call mail ("read" ∷ []) (pos 60) 0 0 "1"
    ∷ acquire_call mail ("read" ∷ "write" ∷ []) (pos 5) 0 0 "2"
    ∷ acquire_call mail ("write" ∷ []) (pos 60) 0 0 "3"
    ∷ use_call (lease "1") 1 1
    ∷ use_call (lease "1") 2 2
    ∷ use_call (lease "2") 5 5
    ∷ use_call (lease "3") 6 6
    ∷ []

one_secret : handed_out provider calls [] ≡ "1" ∷ []
unfolding handed_out
one_secret = refl

missing_scope :
    authorize_scopes ("write" ∷ " read " ∷ []) ("read" ∷ [])
    ≡ (false, "missing permission scopes: write")
unfolding authorize_scopes
missing_scope = refl

abbrev no_leases : Leases
no_leases = []

handed_out-issued_example :
    count "1" (handed_out provider calls no_leases)
    ≤ count "1" (issued provider calls no_leases) + (if contains "1" (keys no_leases) then 1 else 0)
handed_out-issued_example = handed_out-issued provider calls no_leases "1"
