-- ===== src/Health/Keys.antt =====
-- Health keys tell providers and protocols apart.
use oh_my_api.Base.{
  ◌≡◌, refl, ◌≢◌, ◌⊎◌, inl, inr, true, false, [], ◌∷◌, ◌++◌, arith, Text, text_eq, text_eq_iff,
  trim_space, All, sym, ◌∙◌, Bool-cases,
}
use oh_my_api.Health.{make_health_key}

-- A name without the separator of the key.
abbrev pub HasNoBar : Text → Type 0
HasNoBar = All (λ c. c ≢ b'|')

split_at_bar :
    (p q r s : Text)
    → HasNoBar p
    → HasNoBar q
    → p ++ (b'|' ∷ r) ≡ q ++ (b'|' ∷ s)
    → (p ≡ q) × (r ≡ s)
split_at_bar [] [] r s hp hq e = (refl, ground arith)
split_at_bar [] (b ∷ q) r s hp hq e = absurd (hq.0 (ground arith))
split_at_bar (a ∷ p) [] r s hp hq e = absurd (hp.0 (ground arith))
split_at_bar (a ∷ p) (b ∷ q) r s hp hq e =
    let tails : p ++ (b'|' ∷ r) ≡ q ++ (b'|' ∷ s) = ground arith in
    let (x, y) = split_at_bar p q r s hp.1 hq.1 tails in (ground arith, y)

no_bar : (p q s : Text) → HasNoBar p → p ≢ q ++ (b'|' ∷ s)
no_bar [] [] s h e = cc
no_bar [] (b ∷ q) s h e = cc
no_bar (a ∷ p) [] s h e = h.0 (ground arith)
no_bar (a ∷ p) (b ∷ q) s h e = no_bar p q s h.1 (ground arith)

-- If neither provider's trimmed name holds a `|`, two health keys are equal only for the same
-- trimmed provider and the same trimmed protocol.
pub make_health_key-injective :
    (p o q r : Text)
    → HasNoBar (trim_space p)
    → HasNoBar (trim_space q)
    → make_health_key p o ≡ make_health_key q r
    → (trim_space p ≡ trim_space q) × (trim_space o ≡ trim_space r)
unfolding make_health_key
make_health_key-injective p o q r hp hq e =
    go (Bool-cases (text_eq (trim_space o) [])) (Bool-cases (text_eq (trim_space r) []))
  where
    go :
        ((text_eq (trim_space o) [] ≡ true) ⊎ (text_eq (trim_space o) [] ≡ false))
        → ((text_eq (trim_space r) [] ≡ true) ⊎ (text_eq (trim_space r) [] ≡ false))
        → (trim_space p ≡ trim_space q) × (trim_space o ≡ trim_space r)
    go (inl a) (inl b) = (ground arith, (text_eq_iff _ _).0 a ∙ sym ((text_eq_iff _ _).0 b))
    go (inl a) (inr b) =
        absurd (no_bar (trim_space p) (trim_space q) (trim_space r) hp (ground arith))
    go (inr a) (inl b) =
        absurd (no_bar (trim_space q) (trim_space p) (trim_space o) hq (ground arith))
    go (inr a) (inr b) =
        split_at_bar (trim_space p) (trim_space q) (trim_space o) (trim_space r) hp hq
          (ground arith)
