-- ===== src/Model/Plan/Entries.antt =====
-- The leaves under a group, and what one entry adds to them.
use oh_my_api.Base.{
  ℕ, ◌≡◌, refl, ◌≢◌, ◌⊎◌, inl, inr, sym, subst, ◌∙◌, true, Option, some, none, List, [], ◌∷◌, Text,
  lookup, split_first, Some, Some-map, is_some, arith,
}
use oh_my_api.Config.Provider.{ProviderConfig}
use oh_my_api.Model.Graph.{
  ModelEntry, ModelGroupDef, Resolver, Refers, entry_target, resolve_internal_name,
}
use oh_my_api.Model.Graph.Sound.{same-def}
use oh_my_api.Model.Plan.{◌>>=◌, Attempt, got, group_missing, no_fuel, LeafKey}

-- An attempt that succeeds, with a value that satisfies `P`.
abbrev pub Gives : {A : Type 0} → (A → Type 0) → Attempt A → Type 0
Gives P (got a) = P a
Gives P (group_missing g) = ⊥
Gives P no_fuel = ⊥

pub Gives-map :
    {A : Type 0} {P Q : A → Type 0}
    → ((a : A) → P a → Q a)
    → (m : Attempt A) → Gives P m
    → Gives Q m
Gives-map f (got a) h = f a h
Gives-map f (group_missing g) h = h
Gives-map f no_fuel h = h

pub Gives->>= :
    {A B : Type 0} (P : A → Type 0) (Q : B → Type 0) (m : Attempt A) (f : A → Attempt B)
    → Gives P m
    → ((a : A) → P a → Gives Q (f a))
    → Gives Q (m >>= f)
Gives->>= P Q (got a) f h k = k a h
Gives->>= P Q (group_missing g) f h k = absurd h
Gives->>= P Q no_fuel f h k = absurd h

pub no_slash : {k : LeafKey} {o : Option LeafKey} → o ≡ none → o ≡ some k → ⊥
no_slash h q = cc

pub is_some_of : {o : Option ProviderConfig} {x : ProviderConfig} → o ≡ some x → is_some o ≡ true
is_some_of h = ground arith

pub nonempty : {a : ℕ} {t : Text} → a ∷ t ≡ [] → ⊥
nonempty h = cc

key_of_some : {k k' : LeafKey} → some k ≡ some k' → k ≡ k'
key_of_some h = cc

module _ (r : Resolver) where
  -- The key stands in the group, or in one that the group refers to, and so on.
  pub data LeafUnder (k : LeafKey) : Text → Type 0 where
    direct :
        {x : Text} (def : ModelGroupDef)
        → lookup x r.groups ≡ some def
        → Some (λ e. split_first b'/' e.model ≡ some k) def.models
        → LeafUnder k x
    through : {x y : Text} → Refers r x y → LeafUnder k y → LeafUnder k x

  -- The provider of the key is configured.
  abbrev pub Known : LeafKey → Type 0
  Known k = is_some (lookup k.0 r.providers) ≡ true

  abbrev pub EntryHas : LeafKey → ModelEntry → Type 0
  EntryHas k e =
      (split_first b'/' e.model ≡ some k)
      ⊎ ((entry_target r e ≢ []) × LeafUnder k (entry_target r e))

  -- The same for some entries of a group.
  abbrev pub InEntries : LeafKey → List ModelEntry → Type 0
  InEntries k es = Some (EntryHas k) es

  pub InEntries-LeafUnder :
      (k : LeafKey) (x : Text) (def : ModelGroupDef)
      → lookup x r.groups ≡ some def
      → InEntries k def.models
      → LeafUnder k x
  InEntries-LeafUnder k x def g h =
      go def.models (λ s. direct def g s) (λ y s ne u. through (def, g, s, ne) u) h
    where
      go :
          (es : List ModelEntry)
          → (Some (λ e. split_first b'/' e.model ≡ some k) es → LeafUnder k x)
          → ((y : Text)
              → Some (λ e. entry_target r e ≡ y) es
              → y ≢ []
              → LeafUnder k y
              → LeafUnder k x)
          → InEntries k es
          → LeafUnder k x
      go [] f f' h = absurd h
      go (e ∷ es) f f' (inl (inl s)) = f (inl s)
      go (e ∷ es) f f' (inl (inr u)) = f' (entry_target r e) (inl refl) u.0 u.1
      go (e ∷ es) f f' (inr h) = go es (λ s. f (inr s)) (λ y s. f' y (inr s)) h

  pub LeafUnder-InEntries :
      (k : LeafKey) (x : Text) (def : ModelGroupDef)
      → lookup x r.groups ≡ some def
      → LeafUnder k x
      → InEntries k def.models
  LeafUnder-InEntries k x def g (direct d h s) =
      same-def (InEntries k) g h (Some-map (λ e q. inl q) d.models s)
  LeafUnder-InEntries k x def g (through {y} ref u) = same-def (InEntries k) g ref.1 (
      Some-map (λ e q. inr (subst (λ z. z ≢ []) (sym q) ref.3, subst (LeafUnder k) (sym q) u))
        ref.0.models ref.2)

  pub unknown : {k k' : LeafKey} → lookup k'.0 r.providers ≡ none → k' ≡ k → Known k → ⊥
  unknown {k} h q known = false_known (subst (λ z. lookup z.0 r.providers ≡ none) q h) known
    where
      false_known : {o : Option ProviderConfig} → o ≡ none → is_some o ≡ true → ⊥
      false_known e f = ground arith

  pub internal_target :
      (e : ModelEntry) {t : Text}
      → split_first b'/' e.model ≡ none
      → resolve_internal_name r e.model ≡ t
      → entry_target r e ≡ t
  unfolding entry_target
  internal_target e s h = rw (s, entry_target) h

  pub nothing :
      (k : LeafKey) (e : ModelEntry)
      → split_first b'/' e.model ≡ none
      → resolve_internal_name r e.model ≡ []
      → EntryHas k e
      → ⊥
  nothing k e s h (inl q) = no_slash s q
  nothing k e s h (inr u) = u.0 (internal_target e s h)

  pub slash-EntryHas :
      (k k' : LeafKey) (e : ModelEntry) → split_first b'/' e.model ≡ some k' → EntryHas k e → k' ≡ k
  unfolding entry_target
  slash-EntryHas k k' e s (inl q) = key_of_some (sym s ∙ q)
  slash-EntryHas k k' e s (inr u) = absurd (u.0 (rw (s, entry_target) refl))
