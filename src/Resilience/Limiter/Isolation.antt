-- ===== src/Resilience/Limiter/Isolation.antt =====
-- One identity of a rate limiter beside the others.
use bakery_go.Common.{
  ◌≡◌, refl, Bool, true, false, List, [], ◌∷◌, Option, some, String, if◌then◌else◌, str_eq, eq_iff,
  Bool-cases, inl, inr, ap, ◌∙◌, subst,
}
use bakery_go.Common.Int.{ℤ}
use bakery_go.Common.Floats.{Floats}
use bakery_go.Resilience.Limiter.{
  TokenBucket, RateLimiter, Request, bucket_for, bucket_allow, limiter_allow, limiter_run,
}

-- The requests of one identity.
unfoldable pub requests_of : String → List Request → List Request
requests_of id [] = []
requests_of id (r ∷ rs) = let rest = requests_of id rs in if str_eq id r.id then r ∷ rest else rest

module _ {F : Type 0} (fl : Floats F) (seconds : ℤ → F) where
  -- Two limiters that one identity cannot tell apart.
  abbrev Agree : String → RateLimiter F → RateLimiter F → Type 0
  Agree id a b =
      (a.limiter id ≡ b.limiter id)
      × (a.default_rate ≡ b.default_rate)
      × (a.default_burst ≡ b.default_burst)

  abbrev used : RateLimiter F → Request → Bool × TokenBucket F
  used rl r = bucket_allow fl seconds (bucket_for rl r.found_at (rl.limiter r.id)) r.now

  used-Agree : (r : Request) (a b : RateLimiter F) → Agree r.id a b → used a r ≡ used b r
  used-Agree r a b h =
      ap (λ (o : Option (TokenBucket F)). bucket_allow fl seconds (bucket_for a r.found_at o) r.now)
        h.0
      ∙ ap
          (λ (rate : F).
            bucket_allow fl seconds
              (bucket_for (record a { default_rate = rate }) r.found_at (b.limiter r.id)) r.now)
          h.1
      ∙ ap
          (λ (burst : F).
            bucket_allow fl seconds
              (bucket_for (record b { default_burst = burst }) r.found_at (b.limiter r.id)) r.now)
          h.2

  other-Agree :
      (id : String) (r : Request) (a b : RateLimiter F)
      → str_eq id r.id ≡ false
      → Agree id a b
      → Agree id (limiter_allow fl seconds r a).1 b
  unfolding limiter_allow
  other-Agree id r a b ne h = (rw ne h.0, h.1, h.2)

  own-Agree :
      (id : String) (r : Request) (a b : RateLimiter F)
      → str_eq id r.id ≡ true
      → Agree id a b
      → Agree id (limiter_allow fl seconds r a).1 (limiter_allow fl seconds r b).1
  unfolding limiter_allow
  own-Agree id r a b e h =
      let same : id ≡ r.id = (eq_iff id r.id).0 e in
      let h' = subst (λ (j : String). Agree j a b) same h in
      (rw e (ap (λ (u : Bool × TokenBucket F). some u.1) (used-Agree r a b h')), h.1, h.2)

  limiter_run-Agree :
      (id : String) (rs : List Request) (a b : RateLimiter F)
      → Agree id a b
      → Agree id (limiter_run fl seconds rs a) (limiter_run fl seconds (requests_of id rs) b)
  unfolding limiter_run requests_of
  limiter_run-Agree id [] a b h = h
  limiter_run-Agree id (r ∷ rs) a b h = elim (Bool-cases (str_eq id r.id)) [
    | inl own ↦ rw own (
        limiter_run-Agree id rs (limiter_allow fl seconds r a).1 (limiter_allow fl seconds r b).1
          (own-Agree id r a b own h))
    | inr other ↦
        rw other (
          limiter_run-Agree id rs (limiter_allow fl seconds r a).1 b (other-Agree id r a b other h))
  ]

  -- Whether a request is allowed does not depend on other identities: after any requests, the answer
  -- is the one that is given after the requests of its own identity alone.
  pub limiter_allow_alone :
      (rs : List Request) (r : Request) (rl : RateLimiter F)
      → (limiter_allow fl seconds r (limiter_run fl seconds rs rl)).0
        ≡ (limiter_allow fl seconds r (limiter_run fl seconds (requests_of r.id rs) rl)).0
  unfolding limiter_allow
  limiter_allow_alone rs r rl =
      ap (λ (u : Bool × TokenBucket F). u.0)
        (used-Agree r (limiter_run fl seconds rs rl)
          (limiter_run fl seconds (requests_of r.id rs) rl)
          (limiter_run-Agree r.id rs rl rl (refl, refl, refl)))
