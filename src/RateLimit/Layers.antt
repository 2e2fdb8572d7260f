-- ===== src/RateLimit/Layers.antt =====
-- The order of the two layers, and which buckets a request can touch.
use oh_my_api.Base.{
  ℕ, ◌≡◌, refl, ◌≢◌, inl, inr, Bool, true, false, some, [], ◌∷◌, arith, All, Text, text_eq,
  text_eq_iff, lookup, insert, lookup-insert, Option-cases, ltb_ℤ, ℤ, pos,
}
use oh_my_api.RateLimit.{
  TokenBucket, Limiter, new_limiter, Manager, model_limiter, identity, use_model, use_both, allow,
  limiter_allow,
}

-- A provider's name without the separator of an identity.
abbrev pub HasNoSlash : Text → Type 0
HasNoSlash = All (λ c. c ≢ b'/')

pub identity-injective :
    (p q m n : Text) → HasNoSlash p → HasNoSlash q → identity p m ≡ identity q n → (p ≡ q) × (m ≡ n)
unfolding identity
identity-injective [] [] m n hp hq e = (refl, ground arith)
identity-injective [] (b ∷ q) m n hp hq e = absurd (hq.0 (ground arith))
identity-injective (a ∷ p) [] m n hp hq e = absurd (hp.0 (ground arith))
identity-injective (a ∷ p) (b ∷ q) m n hp hq e =
    let tails : identity p m ≡ identity q n = ground arith in
    let (x, y) = identity-injective p q m n hp.1 hq.1 tails in (ground arith, y)

module _ (rate : TokenBucket) where
  model_limiter-others :
      (key k : Text) (qpm : ℤ) (m : Manager rate)
      → text_eq key k ≡ false
      → (lookup k (model_limiter rate key qpm m).1.model_limiters ≡ lookup k m.model_limiters)
        × ((model_limiter rate key qpm m).1.limiters ≡ m.limiters)
  unfolding model_limiter
  model_limiter-others key k qpm m h = elim (Option-cases (lookup key m.model_limiters)) [
    | inl e ↦ ground (arith, lookup-insert key k (new_limiter rate qpm) m.model_limiters)
    | inr (l, e) ↦ ground arith
  ]

  use_model-others :
      (op : ℕ → Limiter rate → Bool × Limiter rate) (now : ℕ) (key k : Text) (qpm : ℤ)
      (m : Manager rate)
      → text_eq key k ≡ false
      → (lookup k (use_model rate op now key qpm m).1.model_limiters ≡ lookup k m.model_limiters)
        × ((use_model rate op now key qpm m).1.limiters ≡ m.limiters)
  unfolding use_model
  use_model-others op now key k qpm m h =
      let (l, m1) = model_limiter rate key qpm m in
      ground (
        arith,
        model_limiter-others key k qpm m h,
        lookup-insert key k (op now l).1 m1.model_limiters,
      )

  use_model-known :
      (op : ℕ → Limiter rate → Bool × Limiter rate) (now : ℕ) (key : Text) (a b : ℤ)
      (m : Manager rate) (l : Limiter rate)
      → lookup key m.model_limiters ≡ some l
      → use_model rate op now key a m ≡ use_model rate op now key b m
  unfolding use_model model_limiter
  use_model-known op now key a b m l e = ground arith

  -- Once the model's bucket exists, the rate that a request carries no longer matters: two positive
  -- rates give the same answer and leave the same buckets.
  pub allow_first_rate :
      (now : ℕ) (p u : Text) (a b : ℤ) (m : Manager rate) (l : Limiter rate)
      → lookup (identity p u) m.model_limiters ≡ some l
      → ltb_ℤ (pos 0) a ≡ true
      → ltb_ℤ (pos 0) b ≡ true
      → allow rate now p u a m ≡ allow rate now p u b m
  unfolding allow
  allow_first_rate now p u a b m l e ha hb = elim (Option-cases (lookup p m.limiters)) [
    | inl absent ↦ ground arith
    | inr (k, present) ↦
        let m1 = record m { limiters = insert p (limiter_allow rate now k).1 m.limiters } in
        ground (arith, use_model-known (limiter_allow rate) now (identity p u) a b m1 l e)
  ]

  use_both-others :
      (op : ℕ → Limiter rate → Bool × Limiter rate) (now : ℕ) (p u : Text) (qpm : ℤ)
      (m : Manager rate) (q k : Text)
      → text_eq p q ≡ false
      → text_eq (identity p u) k ≡ false
      → (lookup q (use_both rate op now p u qpm m).1.limiters ≡ lookup q m.limiters)
        × (lookup k (use_both rate op now p u qpm m).1.model_limiters ≡ lookup k m.model_limiters)
  unfolding use_both
  use_both-others op now p u qpm m q k hq hk = elim (Option-cases (lookup p m.limiters)) [
    | inl e ↦ ground arith
    | inr (l, e) ↦
        let m1 = record m { limiters = insert p (op now l).1 m.limiters } in
        ground (
          arith,
          lookup-insert p q (op now l).1 m.limiters,
          use_model-others op now (identity p u) k qpm m1 hk,
        )
  ]

  -- For two different providers without a slash in their names, a request for the first leaves
  -- alone the bucket of the second and the buckets of all the second one's models, whatever the
  -- models' names hold.
  pub allow_isolated :
      (now : ℕ) (p u : Text) (qpm : ℤ) (m : Manager rate) (q v : Text)
      → HasNoSlash p
      → HasNoSlash q
      → p ≢ q
      → let m' = (allow rate now p u qpm m).1 in
        (lookup q m'.limiters ≡ lookup q m.limiters)
        × (lookup (identity q v) m'.model_limiters ≡ lookup (identity q v) m.model_limiters)
  unfolding allow
  allow_isolated now p u qpm m q v hp hq ne =
      use_both-others (limiter_allow rate) now p u qpm m q (identity q v)
        (ground (arith, text_eq_iff p q)) (differs (text_eq (identity p u) (identity q v)) refl)
    where
      differs :
          (b : Bool)
          → text_eq (identity p u) (identity q v) ≡ b
          → text_eq (identity p u) (identity q v) ≡ false
      differs false e = e
      differs true e = absurd (ne (identity-injective p q u v hp hq ((text_eq_iff _ _).0 e)).0)
