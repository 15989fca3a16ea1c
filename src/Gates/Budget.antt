-- ===== src/Gates/Budget.antt =====
-- budget.py: a ledger that counts what an execution uses against its budget.
use autonomous_ai_scout.Base.{
  ℕ, ◌≡◌, refl, ◌≤◌, ◌+◌, Bool, true, false, ◌||◌, Result, ok, err, ◌>>◌, raise_if, runtime_error,
  value_error, List, [], ◌∷◌, if◌then◌else◌, ltb, ℤ, pos, negsuc, clamp_at_zero, arith, Error,
  err-ne-ok, sym, ◌∙◌, ◌⊎◌, inl, inr,
}

-- The floating-point seconds: 0.0, the sum, `max(0.0, s)` and `a > b`.
pub record Seconds : Type 1 where
  pub Duration : Type 0
  pub none_yet : Duration
  pub add : Duration → Duration → Duration
  pub at_least_zero : Duration → Duration
  pub exceeds : Duration → Duration → Bool

abbrev is_negative : ℤ → Bool
is_negative (pos n) = false
is_negative (negsuc n) = true

module _ (seconds : Seconds) where
  open seconds use {Duration, none_yet, add, at_least_zero, exceeds}

  -- `ResourceBudget`, of numbers that are not negative.
  pub record ResourceBudget : Type 0 where
    pub attempts : ℕ
    pub tool_calls : ℕ
    pub wall_seconds : Duration
    pub output_bytes : ℕ
    pub external_side_effects : ℕ

  pub record BudgetUsage : Type 0 where
    pub attempts : ℕ
    pub tool_calls : ℕ
    pub wall_seconds : Duration
    pub output_bytes : ℕ
    pub external_side_effects : ℕ

  -- The arguments of one call of `consume`.
  pub record Request : Type 0 where
    pub attempts : ℤ
    pub tool_calls : ℤ
    pub wall_seconds : Duration
    pub output_bytes : ℤ
    pub external_side_effects : ℤ

  -- `ResourceBudget(...)` with its `__post_init__`
  unfoldable pub make_budget : ℤ → ℤ → Duration → ℤ → ℤ → Result ResourceBudget
  make_budget attempts tool_calls wall_seconds output_bytes external_side_effects =
      if is_negative attempts
        || is_negative tool_calls
        || exceeds none_yet wall_seconds
        || is_negative output_bytes
        || is_negative external_side_effects
      then err (value_error "resource budgets cannot be negative")
      else ok (record {
        attempts = clamp_at_zero attempts;
        tool_calls = clamp_at_zero tool_calls;
        wall_seconds = wall_seconds;
        output_bytes = clamp_at_zero output_bytes;
        external_side_effects = clamp_at_zero external_side_effects;
      })

  abbrev pub no_usage : BudgetUsage
  no_usage = record {
    attempts = 0;
    tool_calls = 0;
    wall_seconds = none_yet;
    output_bytes = 0;
    external_side_effects = 0;
  }

  unfoldable pub next_usage : BudgetUsage → Request → BudgetUsage
  next_usage usage request = record {
    attempts = usage.attempts + clamp_at_zero request.attempts;
    tool_calls = usage.tool_calls + clamp_at_zero request.tool_calls;
    wall_seconds = add usage.wall_seconds (at_least_zero request.wall_seconds);
    output_bytes = usage.output_bytes + clamp_at_zero request.output_bytes;
    external_side_effects =
        usage.external_side_effects + clamp_at_zero request.external_side_effects;
  }

  -- The loop over the five checks.
  unfoldable pub check_usage : ResourceBudget → BudgetUsage → Result (Unit {0})
  check_usage budget next = do
    raise_if (ltb budget.attempts next.attempts) (runtime_error "attempt budget exceeded")
    raise_if (ltb budget.tool_calls next.tool_calls) (runtime_error "tool-call budget exceeded")
    raise_if (exceeds next.wall_seconds budget.wall_seconds)
        (runtime_error "wall-clock budget exceeded")
    raise_if (ltb budget.output_bytes next.output_bytes)
        (runtime_error "output-byte budget exceeded")
    raise_if (ltb budget.external_side_effects next.external_side_effects)
        (runtime_error "external side-effect budget exceeded")

  abbrev pub commit :
      BudgetUsage → BudgetUsage → Result (Unit {0}) → Result BudgetUsage × BudgetUsage
  commit usage next (ok _) = (ok next, next)
  commit usage next (err e) = (err e, usage)

  -- `BudgetLedger.consume`: the result, and the usage that the ledger holds afterwards.
  unfoldable pub consume : ResourceBudget → BudgetUsage → Request → Result BudgetUsage × BudgetUsage
  unfolding next_usage check_usage
  consume budget usage request =
      commit usage (next_usage usage request) (check_usage budget (next_usage usage request))

  unfoldable pub consume_all : ResourceBudget → BudgetUsage → List Request → BudgetUsage
  consume_all budget usage [] = usage
  consume_all budget usage (request ∷ requests) =
      consume_all budget (consume budget usage request).1 requests

  -- No counter is above its limit.
  pub record IsWithin (budget : ResourceBudget) (usage : BudgetUsage) : Type 0 where
    pub attempts : usage.attempts ≤ budget.attempts
    pub tool_calls : usage.tool_calls ≤ budget.tool_calls
    pub wall_seconds : exceeds usage.wall_seconds budget.wall_seconds ≡ false
    pub output_bytes : usage.output_bytes ≤ budget.output_bytes
    pub external_side_effects : usage.external_side_effects ≤ budget.external_side_effects

  checked-IsWithin :
      (budget : ResourceBudget) (next : BudgetUsage)
      → check_usage budget next ≡ ok tt
      → IsWithin budget next
  unfolding check_usage
  checked-IsWithin budget next h = ground arith

  within-checked :
      (budget : ResourceBudget) (next : BudgetUsage)
      → IsWithin budget next
      → check_usage budget next ≡ ok tt
  unfolding check_usage
  within-checked budget next w = ground arith

  commit-IsWithin :
      (budget : ResourceBudget) (usage next : BudgetUsage) (r : Result (Unit {0}))
      → check_usage budget next ≡ r
      → IsWithin budget usage
      → IsWithin budget (commit usage next r).1
  commit-IsWithin budget usage next (ok u) e h = checked-IsWithin budget next e
  commit-IsWithin budget usage next (err x) e h = h

  consume-IsWithin :
      (budget : ResourceBudget) (usage : BudgetUsage) (request : Request)
      → IsWithin budget usage
      → IsWithin budget (consume budget usage request).1
  unfolding consume
  consume-IsWithin budget usage request =
      commit-IsWithin budget usage (next_usage usage request)
        (check_usage budget (next_usage usage request)) refl

  no_usage-IsWithin :
      (a t : ℤ) (w : Duration) (o e : ℤ) {budget : ResourceBudget}
      → make_budget a t w o e ≡ ok budget
      → IsWithin budget no_usage
  unfolding make_budget
  no_usage-IsWithin a t w o e h = ground arith

  consume_all-IsWithin :
      (budget : ResourceBudget) (usage : BudgetUsage) (requests : List Request)
      → IsWithin budget usage
      → IsWithin budget (consume_all budget usage requests)
  unfolding consume_all
  consume_all-IsWithin budget usage [] h = h
  consume_all-IsWithin budget usage (request ∷ requests) h =
      consume_all-IsWithin budget (consume budget usage request).1 requests
        (consume-IsWithin budget usage request h)

  -- From a budget that was accepted and no usage, after any requests, negative or refused ones
  -- included, no counter of the ledger is above its limit.
  pub budget-holds :
      (a t : ℤ) (w : Duration) (o e : ℤ) (budget : ResourceBudget) (requests : List Request)
      → make_budget a t w o e ≡ ok budget
      → IsWithin budget (consume_all budget no_usage requests)
  budget-holds a t w o e budget requests made =
      consume_all-IsWithin budget no_usage requests (no_usage-IsWithin a t w o e made)

  -- `after` is `before` with an amount counted, a negative amount as zero.
  pub IsCounted : ℤ → ℕ → ℕ → Type 0
  IsCounted (pos n) before after = after ≡ before + n
  IsCounted (negsuc n) before after = after ≡ before

  counted : (amount : ℤ) (before : ℕ) → IsCounted amount before (before + clamp_at_zero amount)
  unfolding IsCounted
  counted (pos n) before = refl
  counted (negsuc n) before = ground arith

  -- `after` is `before` with each of the five amounts of a request counted.
  pub record IsUsageAfter (before : BudgetUsage) (request : Request) (after : BudgetUsage)
      : Type 0 where
    pub attempts : IsCounted request.attempts before.attempts after.attempts
    pub tool_calls : IsCounted request.tool_calls before.tool_calls after.tool_calls
    pub wall_seconds :
        after.wall_seconds ≡ add before.wall_seconds (at_least_zero request.wall_seconds)
    pub output_bytes : IsCounted request.output_bytes before.output_bytes after.output_bytes
    pub external_side_effects :
        IsCounted request.external_side_effects before.external_side_effects
          after.external_side_effects

  next_usage-IsUsageAfter :
      (usage : BudgetUsage) (request : Request)
      → IsUsageAfter usage request (next_usage usage request)
  unfolding next_usage
  next_usage-IsUsageAfter usage request = record {
    attempts = counted request.attempts usage.attempts;
    tool_calls = counted request.tool_calls usage.tool_calls;
    wall_seconds = refl;
    output_bytes = counted request.output_bytes usage.output_bytes;
    external_side_effects = counted request.external_side_effects usage.external_side_effects;
  }

  -- For a request there is the usage with its five amounts counted, a negative amount as zero. If
  -- this usage is within the budget, it is the result and the usage held from then on. If not, the
  -- request raises and leaves the usage as it was.
  pub consume-cases :
      (budget : ResourceBudget) (usage : BudgetUsage) (request : Request)
      → (next : BudgetUsage) × IsUsageAfter usage request next
        × ((IsWithin budget next × (consume budget usage request ≡ (ok next, next)))
            ⊎ (((consume budget usage request).1 ≡ usage)
                × ((e : Error) × ((consume budget usage request).0 ≡ err e))
                × (¬ IsWithin budget next)))
  unfolding consume
  consume-cases budget usage request =
      (next, next_usage-IsUsageAfter usage request, go (check_usage budget next) refl)
    where
      next : BudgetUsage
      next = next_usage usage request

      go :
          (r : Result (Unit {0}))
          → check_usage budget next ≡ r
          → (IsWithin budget next × (commit usage next r ≡ (ok next, next)))
            ⊎ (((commit usage next r).1 ≡ usage)
                × ((e : Error) × ((commit usage next r).0 ≡ err e))
                × (¬ IsWithin budget next))
      go (ok u) e = inl (checked-IsWithin budget next e, refl)
      go (err x) e = inr (refl, (x, refl), λ w. err-ne-ok (sym e ∙ within-checked budget next w))
