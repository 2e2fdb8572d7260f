-- ===== src/RateLimit.antt =====
-- internal/ratelimit: the limiters (limiter.go) and the two layers of buckets (manager.go).
-- The token bucket of golang.org/x/time/rate is a parameter: `Bucket`, how one is made from a rate
-- per minute and a burst, and what `Allow` and `Wait` do to it at a moment `now`. The manager's
-- mutex makes the get-or-create of a model's bucket one step.
pub mod Layers
use oh_my_api.Base.{
  ℕ, suc, ◌/◌, max, Bool, true, false, ◌&&◌, Option, none, some, List, [], ◌∷◌, ◌++◌, ltb, leb,
  if◌then◌else◌, Text, Map, lookup, insert, ℤ, pos, ltb_ℤ, leb_ℤ, pos_part,
}

-- The documented operations of rate.Limiter. `wait` answers whether the token came, and `none`
-- for an error.
pub record TokenBucket : Type 1 where
  pub Bucket : Type 0
  pub new_bucket : ℕ → ℕ → Bucket
  pub allow_bucket : ℕ → Bucket → Bool × Bucket
  pub wait_bucket : ℕ → Bucket → Bool × Bucket

-- providerName + "/" + upstreamModel
unfoldable pub identity : Text → Text → Text
identity provider upstream_model = provider ++ (b'/' ∷ upstream_model)

module _ (rate : TokenBucket) where
  open rate use {Bucket, new_bucket, allow_bucket, wait_bucket}

  -- tokenBucketLimiter and noopLimiter
  pub data Limiter : Type 0 where
    token_bucket : Bucket → Limiter
    noop : Limiter

  -- NewLimiter. The rate is qpm / 60 per second, so `int(r)` is the quotient.
  unfoldable pub new_limiter : ℤ → Limiter
  new_limiter qpm =
      if leb_ℤ qpm (pos 0)
      then noop
      else token_bucket (new_bucket (pos_part qpm) (max 1 (pos_part qpm / 60)))

  unfoldable pub limiter_allow : ℕ → Limiter → Bool × Limiter
  limiter_allow now noop = (true, noop)
  limiter_allow now (token_bucket b) = let (ok, b') = allow_bucket now b in (ok, token_bucket b')

  unfoldable pub limiter_wait : ℕ → Limiter → Bool × Limiter
  limiter_wait now noop = (true, noop)
  limiter_wait now (token_bucket b) = let (ok, b') = wait_bucket now b in (ok, token_bucket b')

  pub record Manager : Type 0 where
    pub limiters : Map Limiter
    pub model_limiters : Map Limiter

  -- NewManager, from the providers and their `rate_limit.qpm`.
  unfoldable pub new_manager : List (Text × ℤ) → Manager
  unfolding new_limiter
  new_manager providers = record { limiters = build providers; model_limiters = [] }
    where
      build : List (Text × ℤ) → Map Limiter
      build [] = []
      build ((name, qpm) ∷ ps) = (name, new_limiter qpm) ∷ build ps

  -- modelLimiter: the bucket of the identity, made at the first use.
  unfoldable pub model_limiter : Text → ℤ → Manager → Limiter × Manager
  unfolding new_limiter
  model_limiter key qpm m = elim (lookup key m.model_limiters) [
    | some l ↦ (l, m)
    | none ↦ (
      new_limiter qpm,
      record m { model_limiters = insert key (new_limiter qpm) m.model_limiters },
    )
  ]

  -- A limiter is a pointer: what `op` does to it is seen through the map.
  use_model : (ℕ → Limiter → Bool × Limiter) → ℕ → Text → ℤ → Manager → Bool × Manager
  use_model op now key qpm m =
      let (l, m1) = model_limiter key qpm m in
      let (ok, l') = op now l in
      (ok, record m1 { model_limiters = insert key l' m1.model_limiters })

  -- The provider's bucket first, and the model's only if that one let the request through.
  use_both : (ℕ → Limiter → Bool × Limiter) → ℕ → Text → Text → ℤ → Manager → Bool × Manager
  use_both op now provider upstream_model model_qpm m = elim (lookup provider m.limiters) [
    | none ↦ (true, m)
    | some l ↦
        let (ok, l') = op now l in
        let m1 = record m { limiters = insert provider l' m.limiters } in
        if ok
        then (if ltb_ℤ (pos 0) model_qpm
            then use_model op now (identity provider upstream_model) model_qpm m1
            else (true, m1))
        else (false, m1)
  ]

  unfoldable pub allow : ℕ → Text → Text → ℤ → Manager → Bool × Manager
  unfolding use_both use_model model_limiter identity limiter_allow
  allow = use_both limiter_allow

  -- Wait; the Boolean is whether it returned no error.
  unfoldable pub wait : ℕ → Text → Text → ℤ → Manager → Bool × Manager
  unfolding use_both use_model model_limiter identity limiter_wait
  wait = use_both limiter_wait
