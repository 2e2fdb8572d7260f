-- ===== src/Examples/RateLimit.antt =====
-- The rate limits (internal/ratelimit) at work, over buckets that never refill.
use oh_my_api.Base.{ℕ, zero, suc, Bool, true, false, [], ◌∷◌, Text, txt}
use oh_my_api.RateLimit.{TokenBucket, token_bucket, Manager}

abbrev take_one : ℕ → Bool × ℕ
take_one zero = (false, 0)
take_one (suc n) = (true, n)

abbrev pub counted : TokenBucket
counted = record {
  Bucket = ℕ;
  new_bucket = λ rate burst. burst;
  allow_bucket = λ now b. take_one b;
  wait_bucket = λ now b. take_one b;
}

abbrev a : Text
a = txt "a"

abbrev b : Text
b = txt "b"

abbrev manager : Manager counted
manager = record {
  limiters = (a, token_bucket 0) ∷ (b, token_bucket 2) ∷ [];
  model_limiters = (txt "b/m", token_bucket 5) ∷ [];
}
