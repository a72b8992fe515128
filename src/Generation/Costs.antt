-- ===== src/Generation/Costs.antt =====
-- The cost of a call, and the check of the month's spend against the cap.
use native.Mathlib.Nat.{mul-le-mul_right}
use win_back_ai.Base.{
  ℕ, ◌/◌, ◌*◌, ◌+◌, ◌≡◌, some, ◌≤◌, ◌<◌, ◌↔◌, arith, refl, ltb, Bool, ◌≢◌, true, if◌then◌else◌,
  false,
}
use win_back_ai.Generation.{
  ModelCostRate, estimate_cost_microcents, Provider, Model, provider_cost_rates, cost_at,
  sum_month_spend,
}
use win_back_ai.Generation.Handler.{
  check_spend, HandlerEnv, StateEvent, AiSettings, GenerationDb, estimated_input_tokens,
  monthly_cap_exceeded, cap_microcents, generate_for, HandlerEnd, create_generation, check_estimate,
}

-- What a call costs in millionths of a microcent.
abbrev pub exact_cost : ModelCostRate → ℕ → ℕ → ℕ
exact_cost r input output = input * r.input_per_1m + output * r.output_per_1m

smaller :
    (a a' b b' : ℕ) → a ≤ a' → b ≤ b' → a / 1000000 + b / 1000000 ≤ a' / 1000000 + b' / 1000000
smaller a a' b b' h k = omega arith

not_above : (a b : ℕ) → (a / 1000000 + b / 1000000) * 1000000 ≤ a + b
not_above a b = omega arith

nearly : (a b : ℕ) → a + b < (a / 1000000 + b / 1000000 + 2) * 1000000
nearly a b = omega arith

-- The cost that is booked for a call of a known model is at most the exact cost and misses less than two microcents of it;
-- it does not go down when there are more tokens. So the estimate made with more tokens than are used covers the call.
pub cost_bounds :
    (p : Provider) (m : Model) (i o i' o' : ℕ) {r : ModelCostRate}
    → provider_cost_rates p m ≡ some r
    → i ≤ i'
    → o ≤ o'
    → (c : ℕ) × (c' : ℕ) × (estimate_cost_microcents p m i o ≡ some c)
      × (estimate_cost_microcents p m i' o' ≡ some c')
      × (c ≤ c')
      × (c * 1000000 ≤ exact_cost r i o)
      × (exact_cost r i o < (c + 2) * 1000000)
unfolding estimate_cost_microcents
cost_bounds p m i o i' o' {r} e h k = (
  cost_at r i o,
  cost_at r i' o',
  rw (e, estimate_cost_microcents) refl,
  rw (e, estimate_cost_microcents) refl,
  smaller (i * r.input_per_1m) (i' * r.input_per_1m) (o * r.output_per_1m) (o' * r.output_per_1m)
      (mul-le-mul_right r.input_per_1m h) (mul-le-mul_right r.output_per_1m k),
  not_above (i * r.input_per_1m) (o * r.output_per_1m),
  nearly (i * r.input_per_1m) (o * r.output_per_1m),
)

generate_for-other :
    (env : HandlerEnv) (e : StateEvent) (st : AiSettings) (db : GenerationDb)
    → (generate_for env e st db).1 ≢ monthly_cap_exceeded
unfolding generate_for create_generation
generate_for-other env e st db = ground arith

-- A test decides how a run ends.
ends_if :
    (b : Bool) (x y : GenerationDb × HandlerEnd) {P : Type 0}
    → x.1 ≡ monthly_cap_exceeded
    → y.1 ≢ monthly_cap_exceeded
    → (b ≡ true) ↔ P
    → ((if b then x else y).1 ≡ monthly_cap_exceeded) ↔ P
ends_if true x y h k p = (λ e. p.0 refl, λ q. h)
ends_if false x y h k p = (λ e. absurd (k e), λ q. cc (p.1 q))

-- By the unit of the cost table: a dollar is 100,000,000 microcents.
abbrev pub microcents_per_cent : ℕ
microcents_per_cent = 100000000 / 100

-- The check denies a generation exactly when ten times the month's spend with the estimate is above the
-- cap in the unit of the cost table: the cap that it enforces is a tenth of the configured one.
pub spend_check_exact :
    (env : HandlerEnv) (e : StateEvent) (st : AiSettings) (db : GenerationDb) (estimate : ℕ)
    → estimate_cost_microcents env.config.ai_provider env.config.ai_model estimated_input_tokens
        env.config.ai_max_tokens
      ≡ some estimate
    → ((check_spend env e st db).1 ≡ monthly_cap_exceeded) ↔ (
        st.monthly_ai_spend_cap_cents * microcents_per_cent
        < 10 * (sum_month_spend env.month_start env.now db.buckets + estimate))
unfolding check_spend check_estimate
spend_check_exact env e st db estimate h = rw h (
    ends_if
      (ltb (cap_microcents st) (sum_month_spend env.month_start env.now db.buckets + estimate)) _ _
      refl (generate_for-other env e st db) (ground arith))
