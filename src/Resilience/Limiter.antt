-- ===== src/Resilience/Limiter.antt =====
-- TokenBucket and RateLimiter of pkg/resilience/circuit_breaker.go. `F` stands for float64, and
-- `seconds` for Duration.Seconds. The locks make each `Allow` of a bucket atomic.
pub mod Isolation
use bakery_go.Common.{
  Bool, true, false, List, [], ◌∷◌, Option, none, some, String, if◌then◌else◌, str_eq, ◌||◌,
}
use bakery_go.Common.Int.{ℤ}
use bakery_go.Common.Floats.{Floats}
use bakery_go.Resilience.Breaker.{time_sub}

pub record TokenBucket (F : Type 0) : Type 0 where
  pub tokens : F
  pub max_tokens : F
  pub refill_rate : F
  pub last_refill : ℤ

-- The map holds pointers to buckets that only the limiter uses: it is a function to the buckets.
pub record RateLimiter (F : Type 0) : Type 0 where
  pub limiter : String → Option (TokenBucket F)
  pub default_rate : F
  pub default_burst : F

-- A request: its identity, and the clock when its bucket is looked up and when it is used.
pub record Request : Type 0 where
  pub id : String
  pub found_at : ℤ
  pub now : ℤ

module _ {F : Type 0} where
  abbrev pub new_token_bucket : F → F → ℤ → TokenBucket F
  new_token_bucket rate burst now = record {
    tokens = burst;
    max_tokens = burst;
    refill_rate = rate;
    last_refill = now;
  }

  abbrev pub new_rate_limiter : F → F → RateLimiter F
  new_rate_limiter rate burst = record {
    limiter = λ _. none;
    default_rate = rate;
    default_burst = burst;
  }

  abbrev pub bucket_for : RateLimiter F → ℤ → Option (TokenBucket F) → TokenBucket F
  bucket_for rl now none = new_token_bucket rl.default_rate rl.default_burst now
  bucket_for rl now (some tb) = tb

  abbrev pub put_bucket : String → TokenBucket F → RateLimiter F → RateLimiter F
  put_bucket id tb rl = record rl { limiter = λ j. if str_eq j id then some tb else rl.limiter j }

  module _ (fl : Floats F) (seconds : ℤ → F) where
    abbrev pub refill : TokenBucket F → ℤ → TokenBucket F
    refill tb now =
        let tokens =
          fl.add tb.tokens (fl.mul (seconds (time_sub now tb.last_refill)) tb.refill_rate) in
        record tb {
          tokens = if fl.lt tb.max_tokens tokens then tb.max_tokens else tokens;
          last_refill = now;
        }

    -- tokens >= 1
    abbrev pub take_token : TokenBucket F → Bool × TokenBucket F
    take_token tb =
        if fl.lt fl.one tb.tokens || fl.eq fl.one tb.tokens
        then (true, record tb { tokens = fl.sub tb.tokens fl.one })
        else (false, tb)

    unfoldable pub bucket_allow : TokenBucket F → ℤ → Bool × TokenBucket F
    unfolding time_sub
    bucket_allow tb now = take_token (refill tb now)

    unfoldable pub limiter_allow : Request → RateLimiter F → Bool × RateLimiter F
    unfolding bucket_allow
    limiter_allow r rl =
        let (allowed, tb) = bucket_allow (bucket_for rl r.found_at (rl.limiter r.id)) r.now in
        (allowed, put_bucket r.id tb rl)

    unfoldable pub limiter_run : List Request → RateLimiter F → RateLimiter F
    unfolding limiter_allow
    limiter_run [] rl = rl
    limiter_run (r ∷ rs) rl = limiter_run rs (limiter_allow r rl).1
