-- ===== src/RateLimit/Examples.antt =====
-- Tests of the limiters, after backend/internal/middleware/rate_limit_test.go.
use Prim.Native.Nat.{min}
use nexa_flow.RateLimit.Budget.{lone, times_of, verdicts-budget, verdicts-eq-lone}
use nexa_flow.Prelude.{
  ℕ, String, arith, count_if, string_eq, ◌≡◌, refl, true, false, List, [], ◌∷◌, some,
  String_discrete,
}
use nexa_flow.Prelude.Int.{pos}
use nexa_flow.RateLimit.{zero_bucket, hit, evict, rate_limit, verdicts, redis_answer, too_many}
use nexa_flow.Prelude.Maps.{lookup, insert}

third_refused :
    verdicts 2 60 "a" [] ((1, "a") ∷ (2, "b") ∷ (3, "a") ∷ (4, "a") ∷ (61, "a") ∷ [])
    ≡ true ∷ true ∷ false ∷ true ∷ []
unfolding verdicts rate_limit hit evict lookup insert String_discrete
third_refused = refl

redis_refused : redis_answer 5 (some (pos 6 ∷ pos 1500 ∷ [])) ≡ too_many 0 2
unfolding redis_answer
redis_refused = refl

abbrev arrivals : List (ℕ × String)
arrivals = (1, "a") ∷ (2, "b") ∷ (3, "a") ∷ (4, "a") ∷ []

verdicts-budget_example : count_if (λ b. b) (verdicts 2 60 "a" [] arrivals) ≡ min 2 3
unfolding String_discrete
verdicts-budget_example =
    verdicts-budget 2 60 0 1 "a" arrivals (3 ∷ 4 ∷ [])
      (omega arith, (omega arith, (omega arith, (omega arith, tt)))) refl
      (omega arith, (omega arith, tt))

verdicts-eq-lone_example :
    verdicts 2 60 "a" [] arrivals ≡ lone 2 60 zero_bucket (times_of "a" arrivals)
verdicts-eq-lone_example =
    verdicts-eq-lone 2 60 0 "a" arrivals
      (omega arith, (omega arith, (omega arith, (omega arith, tt))))
