-- ===== src/Tests/Limiter.antt =====
-- A rate limiter with whole-number tokens.
use bakery_go.Common.{◌≡◌, refl, false, List, [], ◌∷◌, String}
use bakery_go.Common.Int.{ℤ, pos, ◌+ℤ◌, ◌-ℤ◌, ◌*ℤ◌}
use bakery_go.Resilience.Limiter.{
  RateLimiter, Request, new_rate_limiter, limiter_allow, limiter_run,
}
use bakery_go.Resilience.Limiter.Isolation.{requests_of, limiter_allow_alone}
use bakery_go.Tests.Matching.{cents}

abbrev at : String → ℤ → Request
at id t = record { id = id; found_at = t; now = t }

abbrev one_each : RateLimiter ℤ
one_each = new_rate_limiter (pos 0) (pos 1)

abbrev earlier : List Request
earlier = at "cid:1" (pos 5) ∷ at "cid:2" (pos 6) ∷ []

limiter_allow_alone_example :
    (limiter_allow cents
      (λ t. t)
      (at "cid:2" (pos 7))
      (limiter_run cents (λ t. t) earlier one_each)).0
    ≡ (limiter_allow cents
        (λ t. t)
        (at "cid:2" (pos 7))
        (limiter_run cents (λ t. t) (requests_of "cid:2" earlier) one_each)).0
limiter_allow_alone_example =
    limiter_allow_alone cents (λ t. t) earlier (at "cid:2" (pos 7)) one_each

spent :
    (limiter_allow cents
      (λ t. t)
      (at "cid:2" (pos 7))
      (limiter_run cents (λ t. t) earlier one_each)).0
    ≡ false
unfolding limiter_allow limiter_run ◌+ℤ◌ ◌-ℤ◌ ◌*ℤ◌
spent = refl
