-- ===== src/Leases/Tests.antt =====
-- Concrete leases, with whole seconds for the floating-point numbers.
use autonomous_ai_scout.Base.{
  text_length, ℕ, ◌+◌, ◌≡◌, refl, Result, ok, err, value_error, List, [], ◌∷◌, pos, ltb,
}
use autonomous_ai_scout.Storage.{text_field, encode_all, Json, int, missing, Conversions}
use autonomous_ai_scout.Leases.Store.{
  encode_lease, Floats, ExecutionLease, Limits, load, Call, call_acquire, call_release, after_calls,
}
use autonomous_ai_scout.Leases.Held.{IsBounded, after_calls-IsBounded}

abbrev float_of : Json → Result ℕ
float_of (int (pos n)) = ok n
float_of _ = err (value_error "could not convert to float")

abbrev seconds : Floats ℕ
seconds = record {
  float = float_of;
  number = λ n. int (pos n);
  is_later = λ a b. ltb b a;
  plus_seconds = λ a b. a + b;
}

abbrev convert : Conversions
convert = record { render = λ _. ""; parse_int = λ _. err (value_error "invalid literal") }

abbrev limits : Limits
limits = record { max_active = 2; ttl_seconds = 10 }

-- The second call asks for a resource that is held, and the fourth finds two leases.
abbrev calls : List (Call seconds convert)
calls =
    call_acquire "1" 0 0 "task:a" "x"
    ∷ call_acquire "2" 1 1 " task:a" "y"
    ∷ call_acquire "3" 2 2 "task:b" "y"
    ∷ call_acquire "4" 3 3 "task:c" "z"
    ∷ call_release 4 "3"
    ∷ call_acquire "5" 5 5 "task:d" "z"
    ∷ []

held_then_expired :
    load seconds convert 12 (after_calls seconds convert limits calls missing)
    ≡ ok (record { lease_id = "5"; resource = "task:d"; owner = "z"; expires_at = 15 } ∷ [])
unfolding load after_calls text_length encode_all encode_lease text_field
held_then_expired = refl

read_back : (n : ℕ) → seconds.float (seconds.number n) ≡ ok n
read_back n = refl

after_calls-IsBounded_example :
    (leases : List (ExecutionLease ℕ)) × (load seconds convert 6
        (after_calls seconds convert limits calls missing)
      ≡ ok leases)
    × IsBounded 2 leases
after_calls-IsBounded_example = after_calls-IsBounded seconds convert read_back limits calls 6
