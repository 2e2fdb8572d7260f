-- ===== src/Model/Graph/Colors.antt =====
-- What the search of Model.Graph keeps about the colours of the names.
use oh_my_api.Base.{
  ℕ, ◌+◌, ◌≤◌, ◌<◌, ◌≡◌, refl, inl, inr, sym, subst, true, none, some, List, [], ◌∷◌, arith, length,
  is_some, if◌then◌else◌, Bool-cases, Text, text_eq, text_eq_iff, Map, lookup, insert,
  lookup-insert, Some,
}
use oh_my_api.Model.Graph.{ModelGroupDef, Resolver, Refers, Color, in_stack, done}

abbrev pub Among : Text → List Text → Type 0
Among x xs = Some (λ z. z ≡ x) xs

-- The groups without a colour.
abbrev pub uncolored : Map ModelGroupDef → Map Color → ℕ
uncolored [] c = 0
uncolored ((k, def) ∷ rest) c =
    let others = uncolored rest c in if is_some (lookup k c) then others else others + 1

pub uncolored_none : (groups : Map ModelGroupDef) → uncolored groups [] ≡ length groups
unfolding lookup
uncolored_none [] = refl
uncolored_none ((k, def) ∷ rest) = omega (arith, uncolored_none rest)

pub uncolored-insert-le :
    (groups : Map ModelGroupDef) (x : Text) (v : Color) (c : Map Color)
    → uncolored groups (insert x v c) ≤ uncolored groups c
uncolored-insert-le [] x v c = omega arith
uncolored-insert-le ((k, def) ∷ rest) x v c =
    ground (arith, lookup-insert x k v c, uncolored-insert-le rest x v c)

pub uncolored-insert-lt :
    (groups : Map ModelGroupDef) (x : Text) (v : Color) (c : Map Color) (def : ModelGroupDef)
    → lookup x groups ≡ some def
    → lookup x c ≡ none
    → uncolored groups (insert x v c) < uncolored groups c
unfolding lookup
uncolored-insert-lt [] x v c def h e = cc
uncolored-insert-lt ((k, d) ∷ rest) x v c def h e = elim (Bool-cases (text_eq k x)) [
  | inl same ↦
      let old : lookup k c ≡ none =
        subst (λ y. lookup y c ≡ none) (sym ((text_eq_iff k x).0 same)) e in
      let here : text_eq x k ≡ true = (text_eq_iff x k).1 (sym ((text_eq_iff k x).0 same)) in
      rw (lookup-insert x k v c, here, old) (ground (arith, uncolored-insert-le rest x v c))
  | inr other ↦
      ground
        (arith, other, lookup-insert x k v c, uncolored-insert-lt rest x v c def (rw other at h) e)
]

module _ (r : Resolver) where
  -- Each name of the list refers only to names behind it.
  abbrev pub Ordered : List Text → Type 0
  Ordered [] = Unit {0}
  Ordered (x ∷ xs) = ((y : Text) → Refers r x y → Among y xs) × Ordered xs

  -- The names that are done can be put in such a list.
  abbrev pub Finished : Map Color → Type 0
  Finished c =
      (order : List Text) × Ordered order × ((x : Text) → lookup x c ≡ some done → Among x order)

  -- What a part of the search makes of the colours.
  pub record Extends (c c' : Map Color) : Type 0 where
    pub finished : Finished c'
    pub keeps : (x : Text) → lookup x c ≡ some done → lookup x c' ≡ some done
    pub stack : (x : Text) → lookup x c' ≡ some in_stack → lookup x c ≡ some in_stack
    pub left : uncolored r.groups c' ≤ uncolored r.groups c
