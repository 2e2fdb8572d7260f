-- ===== src/Model/Resolve/Construct.antt =====
-- What NewResolver guarantees of the resolver that it returns.
use oh_my_api.Base.{
  ◌≡◌, refl, ◌≢◌, ◌⊎◌, inl, inr, sym, subst, ap, ◌∙◌, Bool, true, false, Option, none, some, List,
  [], ◌∷◌, arith, is_some, if◌then◌else◌, Bool-cases, Option-cases, Text, text_eq, text_eq_iff,
  split_first, Map, lookup, insert, lookup-insert, All, Some, ℤ,
}
use oh_my_api.Model.Redirects.{
  RedirectConfig, Resolved, group_found, circular, not_found, out_of_fuel, is_among, resolve_target,
}
use oh_my_api.Model.Redirects.Sound.{resolve_target-Answers, Answers}
use oh_my_api.Model.Graph.Acyclic.{detect_cycles_iff}
use oh_my_api.Model.Graph.{
  Chain, one, more, Refers, ModelEntry, ModelGroupDef, RedirectDef, SmartRouteIndex, Resolver,
  entry_target, resolve_internal_name, Search, searched, cycle, detect_cycles, accepts, dfs,
  detect_from, visit_entries,
}
use oh_my_api.Model.Plan.Depth.{IsGroup, IsClosed}
use oh_my_api.Model.Resolve.{
  Config, Checked, ok, err, ◌>>=◌, has_slash, names_of, redirect_def, with_target, build_groups,
  check_redirects, resolve_redirects, build_redirects, check_refs, validate_group_refs,
  accept_references, smart_route_of, SmartRouteConfig, build_smart_route_index, base_resolver,
  new_resolver,
}

-- A property of the value that a check returns, if it is no error.
abbrev pub Ensures : {A : Type 0} → (A → Type 0) → Checked A → Type 0
Ensures P (ok a) = P a
Ensures P (err e) = Unit {0}

Ensures->>= :
    {A B : Type 0} (P : A → Type 0) (Q : B → Type 0) (m : Checked A) (k : A → Checked B)
    → Ensures P m
    → ((a : A) → P a → Ensures Q (k a))
    → Ensures Q (m >>= k)
Ensures->>= P Q (ok a) k h f = f a h
Ensures->>= P Q (err e) k h f = tt

Ensures-if :
    {A : Type 0} (P : A → Type 0) (b : Bool) (x y : Checked A)
    → (b ≡ true → Ensures P x)
    → (b ≡ false → Ensures P y)
    → Ensures P (if b then x else y)
Ensures-if P true x y h k = h refl
Ensures-if P false x y h k = k refl

Ensures-map :
    {A : Type 0} {P Q : A → Type 0}
    → ((a : A) → P a → Q a)
    → (m : Checked A) → Ensures P m
    → Ensures Q m
Ensures-map f (ok a) h = f a h
Ensures-map f (err e) h = tt

not-is_some : {A : Type 0} (o : Option A) → is_some o ≡ false → o ≡ none
not-is_some none h = refl
not-is_some (some a) h = cc

Ensures-any : {A : Type 0} (m : Checked A) → Ensures (λ _. Unit {0}) m
Ensures-any (ok a) = tt
Ensures-any (err e) = tt

-- An entry that names a provider, or a group or redirect that is there.
abbrev pub IsRef : Resolver → ModelEntry → Type 0
IsRef r e = (has_slash e.model ≡ true) ⊎ (resolve_internal_name r e.model ≢ [])

pub record IsValid (r : Resolver) : Type 0 where
  pub closed : IsClosed r
  pub acyclic : (x : Text) → ¬ Chain r x x
  pub apart :
      (s : Text) (d : RedirectDef) → lookup s r.redirects ≡ some d → lookup s r.groups ≡ none
  pub finals :
      (s : Text) (d : RedirectDef) → lookup s r.redirects ≡ some d → IsGroup r d.final_group
  pub refs :
      (x : Text) (def : ModelGroupDef) → lookup x r.groups ≡ some def → All (IsRef r) def.models

module _ (groups : Map ModelGroupDef) where
  abbrev HasGroup : Text → Type 0
  HasGroup x = (def : ModelGroupDef) × (lookup x groups ≡ some def)

  among-lookup :
      (x : Text) (gs : Map ModelGroupDef)
      → is_among x (names_of gs) ≡ true
      → (def : ModelGroupDef) × (lookup x gs ≡ some def)
  unfolding lookup
  among-lookup x [] h = cc
  among-lookup x ((k, d) ∷ gs) h = elim (Bool-cases (text_eq k x)) [
    | inl e ↦ rw e (d, refl)
    | inr e ↦ rw e (among-lookup x gs (rw e at h))
  ]

  check_redirects-Ensures :
      (rcs : List RedirectConfig)
      → Ensures (λ _. All (λ rc. lookup rc.source groups ≡ none) rcs) (check_redirects groups rcs)
  unfolding check_redirects
  check_redirects-Ensures [] = tt
  check_redirects-Ensures (rc ∷ rcs) =
      Ensures-if _ (has_slash rc.source) _ _ (λ _. tt)
        (λ _.
          Ensures-if _ (has_slash rc.target) _ _ (λ _. tt)
            (λ _.
              Ensures-if _ (is_some (lookup rc.source groups)) _ _ (λ _. tt)
                (λ e.
                  Ensures-map (λ _ h. (not-is_some (lookup rc.source groups) e, h))
                    (check_redirects groups rcs) (check_redirects-Ensures rcs))))

  -- What is known of the redirects resolved so far.
  abbrev Resolves : Map RedirectDef → Type 0
  Resolves m =
      (s : Text) (d : RedirectDef)
      → lookup s m ≡ some d
      → (lookup s groups ≡ none) × HasGroup d.final_group

  found-HasGroup :
      (cfg : List RedirectConfig) (x g : Text)
      → resolve_target (names_of groups) cfg x ≡ group_found g
      → HasGroup g
  found-HasGroup cfg x g h =
      among-lookup g groups
        (subst (Answers (names_of groups) cfg x) h
          (resolve_target-Answers (names_of groups) cfg x)).1

  with_target-Ensures :
      (P : Map RedirectDef → Type 0) (rc : RedirectConfig) (k : Text → Checked (Map RedirectDef))
      (res : Resolved)
      → ((final : Text) → res ≡ group_found final → Ensures P (k final))
      → Ensures P (with_target rc k res)
  with_target-Ensures P rc k (group_found g) h = h g refl
  with_target-Ensures P rc k (circular c) h = tt
  with_target-Ensures P rc k (not_found c) h = tt
  with_target-Ensures P rc k out_of_fuel h = tt

  insert-Resolves :
      (rc : RedirectConfig) (final : Text) (m : Map RedirectDef)
      → lookup rc.source groups ≡ none
      → HasGroup final
      → Resolves m
      → Resolves (insert rc.source (redirect_def rc final) m)
  insert-Resolves rc final m apart g h s d e = elim (Bool-cases (text_eq rc.source s)) [
    | inl same ↦
        let new : redirect_def rc final ≡ d =
          ground (arith, same, lookup-insert rc.source s (redirect_def rc final) m) in
        (
          subst (λ z. lookup z groups ≡ none) ((text_eq_iff rc.source s).0 same) apart,
          subst HasGroup (ap (λ (x : RedirectDef). x.final_group) new) g,
        )
    | inr other ↦ h s d (ground (arith, other, lookup-insert rc.source s (redirect_def rc final) m))
  ]

  resolve_redirects-Resolves :
      (cfg rcs : List RedirectConfig) (m : Map RedirectDef)
      → All (λ rc. lookup rc.source groups ≡ none) rcs
      → Resolves m
      → Ensures Resolves (resolve_redirects groups cfg rcs m)
  unfolding resolve_redirects
  resolve_redirects-Resolves cfg [] m a h = h
  resolve_redirects-Resolves cfg (rc ∷ rcs) m a h =
      with_target-Ensures Resolves rc _ (resolve_target (names_of groups) cfg rc.target) (λ final e.
        resolve_redirects-Resolves cfg rcs (insert rc.source (redirect_def rc final) m) a.1
          (insert-Resolves rc final m a.0 (found-HasGroup cfg rc.target final e) h))

  build_redirects-Resolves :
      (cfg : List RedirectConfig) → Ensures Resolves (build_redirects groups cfg)
  unfolding build_redirects
  build_redirects-Resolves cfg =
      Ensures->>= (λ _. All (λ rc. lookup rc.source groups ≡ none) cfg) Resolves
        (check_redirects groups cfg) _ (check_redirects-Ensures cfg)
        (λ _ a. resolve_redirects-Resolves cfg cfg [] a (λ s d e. unfold lookup in cc))

module _ (r : Resolver) where
  check_refs-Ensures :
      (name : Text) (es : List ModelEntry) → Ensures (λ _. All (IsRef r) es) (check_refs r name es)
  unfolding check_refs
  check_refs-Ensures name [] = tt
  check_refs-Ensures name (e ∷ es) =
      Ensures-if _ (has_slash e.model) _ _
        (λ slash.
          Ensures-map (λ _ h. (inl slash, h)) (check_refs r name es) (check_refs-Ensures name es))
        (λ _.
          Ensures-if _ (text_eq (resolve_internal_name r e.model) []) _ _ (λ _. tt)
            (λ k.
              Ensures-map (λ _ h. (inr (λ z. full z k), h)) (check_refs r name es)
                (check_refs-Ensures name es)))
    where
      full : {t : Text} → t ≡ [] → text_eq t [] ≡ false → ⊥
      full {t} z k = ground (arith, text_eq_iff t [])

  abbrev AllRefs : Map ModelGroupDef → Type 0
  AllRefs gs = (x : Text) (def : ModelGroupDef) → lookup x gs ≡ some def → All (IsRef r) def.models

  validate_group_refs-Ensures :
      (gs : Map ModelGroupDef) → Ensures (λ _. AllRefs gs) (validate_group_refs r gs)
  unfolding validate_group_refs lookup
  validate_group_refs-Ensures [] = λ x def e. unfold lookup in cc
  validate_group_refs-Ensures ((k, d) ∷ rest) =
      Ensures->>= (λ _. All (IsRef r) d.models) _ (check_refs r k d.models)
        (λ _. validate_group_refs r rest) (check_refs-Ensures k d.models)
        (λ _ here.
          Ensures-map (λ _ there x def e. head x def here there e) (validate_group_refs r rest)
            (validate_group_refs-Ensures rest))
    where
      head :
          (x : Text) (def : ModelGroupDef)
          → All (IsRef r) d.models
          → AllRefs rest
          → lookup x ((k, d) ∷ rest) ≡ some def
          → All (IsRef r) def.models
      head x def here there e = elim (Bool-cases (text_eq k x)) [
        | inl same ↦
            let eq : d ≡ def = ground (arith, same) in
            subst (λ (m : ModelGroupDef). All (IsRef r) m.models) eq here
        | inr other ↦ there x def (rw other at e)
      ]

  accept_references-Ensures : (s : Search) → Ensures (λ _. accepts s ≡ true) (accept_references s)
  accept_references-Ensures (searched c) = refl
  accept_references-Ensures (cycle a b) = tt
  accept_references-Ensures Search.out_of_fuel = tt

  -- The final group of a redirect is a group.
  abbrev FinalsOk : Type 0
  FinalsOk = (s : Text) (d : RedirectDef) → lookup s r.redirects ≡ some d → IsGroup r d.final_group

  name-IsGroup : FinalsOk → (x y : Text) → resolve_internal_name r x ≡ y → y ≢ [] → IsGroup r y
  unfolding resolve_internal_name
  name-IsGroup f x y e ne = elim (Option-cases (lookup x r.groups)) [
    | inr (def, g) ↦
        let same : x ≡ y = sym (rw (g, resolve_internal_name) refl) ∙ e in
        subst (IsGroup r) same (def, g)
    | inl g ↦ elim (Option-cases (lookup x r.redirects)) [
      | inr (d, h) ↦
          let same : d.final_group ≡ y = sym (rw (g, h, resolve_internal_name) refl) ∙ e in
          subst (IsGroup r) same (f x d h)
      | inl h ↦
          let same : [] ≡ y = sym (rw (g, h, resolve_internal_name) refl) ∙ e in
          absurd (ne (sym same))
    ]
  ]

  target-IsGroup :
      FinalsOk → (e : ModelEntry) (y : Text) → entry_target r e ≡ y → y ≢ [] → IsGroup r y
  unfolding entry_target
  target-IsGroup f e y h ne = elim (Option-cases (split_first b'/' e.model)) [
    | inr (k, s) ↦ let same : [] ≡ y = sym (rw (s, entry_target) refl) ∙ h in absurd (ne (sym same))
    | inl s ↦
        let same : resolve_internal_name r e.model ≡ y = sym (rw (s, entry_target) refl) ∙ h in
        name-IsGroup f e.model y same ne
  ]

  finals-closed : FinalsOk → IsClosed r
  finals-closed f x y ref = go ref.0.models ref.2
    where
      go : (es : List ModelEntry) → Some (λ e. entry_target r e ≡ y) es → IsGroup r y
      go [] h = absurd h
      go (e ∷ es) (inl h) = target-IsGroup f e y h ref.3
      go (e ∷ es) (inr h) = go es h

  smart-Refers :
      (i : SmartRouteIndex) (x y : Text)
      → Refers (record r { smart_route = some i }) x y
      → Refers r x y
  unfolding entry_target resolve_internal_name
  smart-Refers i x y h = h

  smart-Chain :
      (i : SmartRouteIndex) (x y : Text)
      → Chain (record r { smart_route = some i }) x y
      → Chain r x y
  smart-Chain i x y (one h) = one (smart-Refers i x y h)
  smart-Chain i x y (more {y = z} ch h) = more (smart-Chain i x z ch) (smart-Refers i z y h)

  smart-IsValid : (i : SmartRouteIndex) → IsValid r → IsValid (record r { smart_route = some i })
  unfolding entry_target resolve_internal_name detect_cycles dfs detect_from visit_entries
  smart-IsValid i v = record {
    closed = v.closed;
    acyclic = λ x ch. v.acyclic x (smart-Chain i x x ch);
    apart = v.apart;
    finals = v.finals;
    refs = v.refs;
  }

smart_route_of-IsValid :
    (r : Resolver) (sr : Option SmartRouteConfig)
    → IsValid r
    → Ensures IsValid (smart_route_of r sr)
smart_route_of-IsValid r none v = v
smart_route_of-IsValid r (some sr) v =
    Ensures->>= (λ _. Unit {0}) IsValid (build_smart_route_index r sr) _
      (Ensures-any (build_smart_route_index r sr)) (λ i _. smart-IsValid r i v)

-- In a resolver that NewResolver returns, every name that is referred to is a group, every entry of a
-- group names a provider or something that is there, every redirect ends at a group and has the name
-- of none, and there is no chain of references from a name to itself.
pub new_resolver-IsValid :
    (parse_duration : Text → Option ℤ) (cfg : Config)
    → Ensures IsValid (new_resolver parse_duration cfg)
unfolding new_resolver
new_resolver-IsValid parse_duration cfg =
    Ensures->>= (λ _. Unit {0}) IsValid (build_groups parse_duration cfg.model_groups []) _
      (Ensures-any (build_groups parse_duration cfg.model_groups []))
      (λ groups _.
        Ensures->>= (Resolves groups) IsValid (build_redirects groups cfg.redirect) _
          (build_redirects-Resolves groups cfg.redirect)
          (λ redirects resolves.
            let r = base_resolver cfg groups redirects in
            Ensures->>= (λ _. AllRefs r groups) IsValid (validate_group_refs r groups) _
              (validate_group_refs-Ensures r groups)
              (λ _ refs.
                Ensures->>= (λ _. accepts (detect_cycles r) ≡ true) IsValid
                  (accept_references (detect_cycles r)) _
                  (accept_references-Ensures r (detect_cycles r))
                  (λ _ acyclic. smart_route_of-IsValid r cfg.smart_route (record {
                    closed = finals-closed r (λ s d e. (resolves s d e).1);
                    acyclic = (detect_cycles_iff r).0 acyclic;
                    apart = λ s d e. (resolves s d e).0;
                    finals = λ s d e. (resolves s d e).1;
                    refs = refs;
                  })))))
