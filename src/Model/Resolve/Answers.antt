-- ===== src/Model/Resolve/Answers.antt =====
-- What the lookups of a resolver that NewResolver returned answer.
use oh_my_api.Base.{
  ℕ, zero, suc, ◌≤◌, ◌≡◌, refl, ◌≢◌, inl, inr, ◌↔◌, sym, subst, ap, ◌∙◌, Bool, true, false, ◌||◌,
  Option, none, some, List, [], ◌∷◌, ◌++◌, keep, arith, if◌then◌else◌, Bool-cases, Option-cases,
  Text, lookup, All, All-append, ℤ,
}
use oh_my_api.Model.Redirects.{Exposure, public, hidden, internal}
use oh_my_api.Model.Graph.{Resolver}
use oh_my_api.Model.Graph.Acyclic.{detect_cycles_iff}
use oh_my_api.Model.Plan.{
  PlanLeaf, PlanNode, node, PlanNodes, no_nodes, and_nodes, has_any_leaf, some_has_leaf,
  collect_leaves, collect_all, Attempt, got, group_missing, no_fuel, LeafKey, key_of,
  build_plan_node, collect_group_leaves,
}
use oh_my_api.Model.Plan.Depth.{IsGroup, Shallow, accepts-Shallow}
use oh_my_api.Model.Plan.Entries.{Gives, LeafUnder, Known}
use oh_my_api.Model.Plan.Leaves.{HasKey, PlanOf, build_plan_node-PlanOf}
use oh_my_api.Model.Plan.Visible.{InKeys, AreDistinct, collect_group_leaves-Adds}
use oh_my_api.Model.Resolve.{
  Config, ok, new_resolver, callable_group, direct_callable, exposure_listed,
}
use oh_my_api.Model.Lookup.{
  no_valid_provider, model_not_found, ResolveResult, Resolution, resolved, unresolved, tasks_of,
  resolution_of, resolve_by_name, visible_model_leaves, listed_redirect, listed_group,
  list_user_models,
}
use oh_my_api.Model.Resolve.Construct.{IsValid, Ensures, new_resolver-IsValid}

append-eq-nil : (xs ys : List PlanLeaf) → xs ++ ys ≡ [] → (xs ≡ []) × (ys ≡ [])
append-eq-nil [] ys h = (refl, h)
append-eq-nil (x ∷ xs) ys h = cc

or_false : (a b : Bool) → a || b ≡ false → (a ≡ false) × (b ≡ false)
or_false false b h = (refl, h)
or_false true b h = cc

-- hasAnyLeaf looks for what collectLeaves collects.
mutual
  unfolding has_any_leaf collect_leaves

  has_any_leaf-true : (p : PlanNode) → has_any_leaf p ≡ true → collect_leaves p ≢ []
  has_any_leaf-true (node g m w [] cs o s) h e = some_has_leaf-true cs h e
  has_any_leaf-true (node g m w (l ∷ ls) cs o s) h e = cc

  some_has_leaf-true : (cs : PlanNodes) → some_has_leaf cs ≡ true → collect_all cs ≢ []
  some_has_leaf-true no_nodes h e = cc
  some_has_leaf-true (and_nodes c cs) h e = elim (Bool-cases (has_any_leaf c)) [
    | inl some_c ↦
        has_any_leaf-true c some_c (append-eq-nil (collect_leaves c) (collect_all cs) e).0
    | inr no_c ↦
        some_has_leaf-true cs (rw no_c at h) (append-eq-nil (collect_leaves c) (collect_all cs) e).1
  ]

mutual
  unfolding has_any_leaf collect_leaves

  has_any_leaf-false : (p : PlanNode) → has_any_leaf p ≡ false → collect_leaves p ≡ []
  has_any_leaf-false (node g m w [] cs o s) h = some_has_leaf-false cs h
  has_any_leaf-false (node g m w (l ∷ ls) cs o s) h = cc

  some_has_leaf-false : (cs : PlanNodes) → some_has_leaf cs ≡ false → collect_all cs ≡ []
  some_has_leaf-false no_nodes h = refl
  some_has_leaf-false (and_nodes c cs) h =
      let (no_c, no_cs) = or_false (has_any_leaf c) (some_has_leaf cs) h in
      rw (has_any_leaf-false c no_c, some_has_leaf-false cs no_cs) refl

tasks_of-collect : (p : PlanNode) → tasks_of p ≡ collect_leaves p
unfolding collect_leaves
tasks_of-collect (node g m w ls cs o s) = refl

some_leaf : (ls : List PlanLeaf) → ls ≢ [] → (k : LeafKey) × HasKey k ls
some_leaf [] h = absurd (h refl)
some_leaf (l ∷ ls) h = (key_of l, inl refl)

allowed : (b : Bool) (x y : Text) → (if b then some x else none) ≡ some y → x ≡ y
allowed true x y h = ground arith
allowed false x y h = ground arith

keep-All :
    (p : Text → Bool) (P : Text → Type 0) (xs : List Text)
    → ((x : Text) → p x ≡ true → P x)
    → All P (keep p xs)
keep-All p P [] h = tt
keep-All p P (x ∷ xs) h = elim (Bool-cases (p x)) [
  | inl e ↦ rw e (h x e, keep-All p P xs h)
  | inr e ↦ rw e (keep-All p P xs h)
]

Gives-cases :
    {A : Type 0} (P : A → Type 0) (a : Attempt A) → Gives P a → (x : A) × (a ≡ got x) × P x
Gives-cases P (got x) h = (x, refl, h)
Gives-cases P (group_missing g) h = absurd h
Gives-cases P no_fuel h = absurd h

exposure_listed-direct_callable :
    (e : Exposure) → exposure_listed e ≡ true → direct_callable e ≡ true
exposure_listed-direct_callable public h = refl
exposure_listed-direct_callable hidden h = refl
exposure_listed-direct_callable internal h = cc

module _ (r : Resolver) where
  -- What an answer to a name says.
  abbrev pub Answers : Text → Bool → Resolution → Type 0
  Answers name allow_internal (resolved res) =
      (callable_group r name allow_internal ≡ some res.model_group)
      × ((k : LeafKey) → HasKey k res.tasks ↔ (LeafUnder r k res.model_group × Known r k))
      × (res.tasks ≢ [])
  Answers name allow_internal model_not_found = callable_group r name allow_internal ≡ none
  Answers name allow_internal no_valid_provider =
      (group : Text) × (callable_group r name allow_internal ≡ some group)
      × ((k : LeafKey) → LeafUnder r k group → ¬ Known r k)
  Answers name allow_internal (unresolved a) = ⊥

  Shallow-le : (n m : ℕ) (x : Text) → n ≤ m → Shallow r n x → Shallow r m x
  Shallow-le zero m x le h = absurd h
  Shallow-le (suc n) zero x le h = absurd (omega arith)
  Shallow-le (suc n) (suc m) x le h = (h.0, λ y ref. Shallow-le n m y (omega arith) (h.1 y ref))

  callable-IsGroup :
      IsValid r
      → (name : Text) (allow : Bool) {g : Text} → callable_group r name allow ≡ some g
      → IsGroup r g
  unfolding callable_group
  callable-IsGroup v name allow {g} h = elim (Option-cases (lookup name r.groups)) [
    | inr (def, e) ↦
        let h' : (if allow || direct_callable def.exposure then some name else none) ≡ some g =
          sym (rw (e, callable_group) refl) ∙ h in
        subst (IsGroup r) (allowed _ _ _ h') (def, e)
    | inl e ↦ elim (Option-cases (lookup name r.redirects)) [
      | inr (d, f) ↦
          let h' : (if allow || direct_callable d.exposure then some d.final_group else none)
              ≡ some g =
            sym (rw (e, f, callable_group) refl) ∙ h in
          subst (IsGroup r) (allowed _ _ _ h') (v.finals name d f)
      | inl f ↦ let h' : none ≡ some g = sym (rw (e, f, callable_group) refl) ∙ h in cc
    ]
  ]

  resolution_of-Answers :
      (name : Text) (allow : Bool) (g : Text) (a : Attempt PlanNode)
      → callable_group r name allow ≡ some g
      → Gives (PlanOf r g) a
      → Answers name allow (resolution_of g a)
  resolution_of-Answers name allow g (got plan) c h = elim (Bool-cases (has_any_leaf plan)) [
    | inl e ↦ rw (e, tasks_of-collect plan) (c, h, has_any_leaf-true plan e)
    | inr e ↦
        rw e (g, c, λ k u known. subst (HasKey k) (has_any_leaf-false plan e) ((h k).1 (u, known)))
  ]
  resolution_of-Answers name allow g (group_missing x) c h = absurd h
  resolution_of-Answers name allow g no_fuel c h = absurd h

  -- Enough fuel for every group.
  abbrev Enough : ℕ → Type 0
  Enough n = (x : Text) → IsGroup r x → Shallow r n x

  resolve-Enough :
      IsValid r
      → (n : ℕ) → Enough n
      → (name : Text) (allow : Bool) → Answers name allow (resolve_by_name r n name allow)
  unfolding resolve_by_name
  resolve-Enough v n enough name allow = elim (Option-cases (callable_group r name allow)) [
    | inl e ↦ rw (e, resolve_by_name) e
    | inr (g, e) ↦
        rw (e, resolve_by_name)
          (resolution_of-Answers name allow g (build_plan_node r n g) e
            (build_plan_node-PlanOf r n g (enough g (callable-IsGroup v name allow e))))
  ]

module _ (parse_duration : Text → Option ℤ) (cfg : Config) (r : Resolver)
    (built : new_resolver parse_duration cfg ≡ ok r) where
  valid : IsValid r
  valid = subst (Ensures IsValid) built (new_resolver-IsValid parse_duration cfg)

  enough : (n : ℕ) × ((m : ℕ) → n ≤ m → Enough r m)
  enough =
      let (n, shallow) = accepts-Shallow r valid.closed ((detect_cycles_iff r).1 valid.acyclic) in
      (n, λ m le x g. Shallow-le r n m x le (shallow x g))

  -- A resolver that NewResolver returned answers every name, whatever it is, with one bound on the
  -- depth of the plans: it returns tasks, one at least, that are exactly the leaves with a configured
  -- provider in the final group and the groups it refers to; or there is no such leaf; or the name
  -- is not known or may not be called.
  pub resolve_by_name-Answers :
      (n : ℕ) × ((m : ℕ)
        → n ≤ m
        → (name : Text) (allow_internal : Bool)
        → Answers r name allow_internal (resolve_by_name r m name allow_internal))
  resolve_by_name-Answers =
      (enough.0, λ m le name allow. resolve-Enough r valid m (enough.1 m le) name allow)

  tasks :
      (m : ℕ)
      → Enough r m
      → (name : Text) (res : ResolveResult) → resolve_by_name r m name false ≡ resolved res
      → (found : List LeafKey) × (visible_model_leaves r m name ≡ some (got found))
        × AreDistinct found
        × ((k : LeafKey) → HasKey k res.tasks ↔ (InKeys k found × Known r k))
  unfolding visible_model_leaves
  tasks m many name res e =
      let (callable, its, some_task) =
        subst (Answers r name false) e (resolve-Enough r valid m many name false) in
      let shallow = many res.model_group (callable-IsGroup r valid name false callable) in
      let (found, got_it, (keys, distinct)) =
        Gives-cases _ (collect_group_leaves r m res.model_group [])
          (collect_group_leaves-Adds r m res.model_group [] shallow) in
      (
        found,
        rw (callable, visible_model_leaves) (ap some got_it),
        distinct tt,
        λ k. (
          (λ h. let (u, known) = (its k).0 h in ((keys k).1 (inr u), known)),
          (λ h. (its k).1 (elim ((keys k).0 h.0) [ inl a ↦ absurd a | inr u ↦ u ], h.1)),
        ),
      )

  -- For a name that may be called from outside, and with the bound that is enough,
  -- VisibleModelLeaves lists each key once; and the tasks of the name are exactly the listed leaves
  -- with a configured provider.
  pub visible_model_leaves-tasks :
      (n : ℕ) × ((m : ℕ)
        → n ≤ m
        → (name : Text) (res : ResolveResult) → resolve_by_name r m name false ≡ resolved res
        → (found : List LeafKey) × (visible_model_leaves r m name ≡ some (got found))
          × AreDistinct found
          × ((k : LeafKey) → HasKey k res.tasks ↔ (InKeys k found × Known r k)))
  visible_model_leaves-tasks = (enough.0, λ m le name res e. tasks m (enough.1 m le) name res e)

  redirect_callable :
      (x : Text) → listed_redirect r x ≡ true → (g : Text) × (callable_group r x false ≡ some g)
  unfolding callable_group
  redirect_callable x h = elim (Option-cases (lookup x r.redirects)) [
    | inl e ↦ ground (arith, e)
    | inr (d, e) ↦
        let may =
          exposure_listed-direct_callable d.exposure (sym (rw (e, listed_redirect) refl) ∙ h) in
        (d.final_group, rw (valid.apart x d e, e, may, callable_group) refl)
  ]

  group_callable :
      (x : Text) → listed_group r x ≡ true → (g : Text) × (callable_group r x false ≡ some g)
  unfolding callable_group
  group_callable x h = elim (Option-cases (lookup x r.groups)) [
    | inl e ↦ ground (arith, e)
    | inr (d, e) ↦
        let may =
          exposure_listed-direct_callable d.exposure (sym (rw (e, listed_group) refl) ∙ h) in
        (x, rw (e, may, callable_group) refl)
  ]

  -- Every model of the list of models may be called from outside, by the name listed.
  pub list_user_models-callable :
      All (λ name. (g : Text) × (callable_group r name false ≡ some g)) (list_user_models r)
  unfolding list_user_models
  list_user_models-callable =
      All-append _ (keep (listed_redirect r) r.redirect_order) (keep (listed_group r) r.group_order)
        (keep-All (listed_redirect r) _ r.redirect_order redirect_callable)
        (keep-All (listed_group r) _ r.group_order group_callable)
