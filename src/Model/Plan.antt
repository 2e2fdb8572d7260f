-- ===== src/Model/Plan.antt =====
-- internal/model/resolver.go: the plan tree of a group and its leaves. A node is built for each
-- reference anew, to the depth of the references, which the fuel bounds. Where Go appends to the
-- lists of a node, the model puts the rest of the entries behind an entry; `i` and `j` are the
-- lengths of node.Leaves and node.Children at that moment. Logs are left out.
pub mod Depth
pub mod Entries
pub mod Leaves
pub mod Visible
use oh_my_api.Base.{
  ℕ, zero, suc, ◌+◌, ◌≡◌, Bool, true, false, ◌&&◌, ◌||◌, Option, none, some, List, [], ◌∷◌, ◌++◌,
  any, if◌then◌else◌, Text, text_eq, split_first, lookup, ℤ, pos,
}
use oh_my_api.Config.Provider.{ProviderConfig}
use oh_my_api.Model.Graph.{StickyMeta, ModelEntry, ModelGroupDef, Resolver, resolve_internal_name}

pub record PlanLeaf : Type 0 where
  pub provider_name : Text
  pub provider : ProviderConfig
  pub upstream_model : Text
  pub weight : ℤ

pub record OrderEntry : Type 0 where
  pub is_leaf : Bool
  pub index : ℕ

mutual
  pub data PlanNode : Type 0 where
    node :
        (group_name mode : Text) (weight : ℤ) (leaves : List PlanLeaf) (children : PlanNodes)
        (model_order : List OrderEntry) (sticky : Option StickyMeta)
        → PlanNode

  pub data PlanNodes : Type 0 where
    no_nodes : PlanNodes
    and_nodes : PlanNode → PlanNodes → PlanNodes

unfoldable mutual
  -- hasAnyLeaf
  pub has_any_leaf : PlanNode → Bool
  has_any_leaf (node g m w [] cs o s) = some_has_leaf cs
  has_any_leaf (node g m w (l ∷ ls) cs o s) = true

  pub some_has_leaf : PlanNodes → Bool
  some_has_leaf no_nodes = false
  some_has_leaf (and_nodes c cs) = has_any_leaf c || some_has_leaf cs

unfoldable mutual
  -- collectLeaves, what it appends.
  pub collect_leaves : PlanNode → List PlanLeaf
  collect_leaves (node g m w ls cs o s) = ls ++ collect_all cs

  pub collect_all : PlanNodes → List PlanLeaf
  collect_all no_nodes = []
  collect_all (and_nodes c cs) = collect_leaves c ++ collect_all cs

-- child.Weight = weight
abbrev pub with_weight : ℤ → PlanNode → PlanNode
with_weight v (node g m w ls cs o s) = node g m v ls cs o s

-- What buildPlanNode returns: a value, or the error about a group that is not there.
pub data Attempt (A : Type 0) : Type 0 where
  got : A → Attempt A
  group_missing : Text → Attempt A
  no_fuel : Attempt A

infixl 5 ◌>>=◌
abbrev pub ◌>>=◌ : {A B : Type 0} → Attempt A → (A → Attempt B) → Attempt B
got a >>= k = k a
group_missing g >>= k = group_missing g
no_fuel >>= k = no_fuel

-- The three lists of a node.
pub record Parts : Type 0 where
  pub leaves : List PlanLeaf
  pub children : PlanNodes
  pub model_order : List OrderEntry

abbrev pub add_leaf : ℕ → PlanLeaf → Parts → Attempt Parts
add_leaf i leaf p = got (record {
  leaves = leaf ∷ p.leaves;
  children = p.children;
  model_order = record { is_leaf = true; index = i } ∷ p.model_order;
})

abbrev pub add_child : ℕ → PlanNode → Parts → Attempt Parts
add_child j child p = got (record {
  leaves = p.leaves;
  children = and_nodes child p.children;
  model_order = record { is_leaf = false; index = j } ∷ p.model_order;
})

abbrev pub finish_node : Text → ModelGroupDef → Parts → Attempt PlanNode
finish_node name def p =
    got (node name def.mode (pos 0) p.leaves p.children p.model_order def.sticky)

-- A provider and the model's name there (ProviderModelKey).
abbrev pub LeafKey : Type 0
LeafKey = Text × Text

abbrev pub key_eq : LeafKey → LeafKey → Bool
key_eq a b = text_eq a.0 b.0 && text_eq a.1 b.1

abbrev pub key_of : PlanLeaf → LeafKey
key_of l = (l.provider_name, l.upstream_model)

-- if !seen[key]; `seen` holds exactly the keys of the result.
abbrev pub add_key : LeafKey → List LeafKey → List LeafKey
add_key k seen = if any (λ s. key_eq s k) seen then seen else seen ++ (k ∷ [])

module _ (r : Resolver) where
  -- The loop of buildPlanNode.
  unfoldable pub build_entries : (Text → Attempt PlanNode) → ℕ → ℕ → List ModelEntry → Attempt Parts
  build_entries build i j [] = got (record { leaves = []; children = no_nodes; model_order = [] })
  build_entries build i j (e ∷ es) = elim (split_first b'/' e.model) [
    | some (p, m) ↦ elim (lookup p r.providers) [
      | none ↦ build_entries build i j es
      | some prov ↦
          let leaf : PlanLeaf = record {
            provider_name = p;
            provider = prov;
            upstream_model = m;
            weight = e.weight;
          } in
          build_entries build (i + 1) j es >>= add_leaf i leaf
    ]
    | none ↦ elim (resolve_internal_name r e.model) [
      | [] ↦ build_entries build i j es
      | c ∷ t ↦ build (c ∷ t) >>= λ child.
          build_entries build i (j + 1) es >>= add_child j (with_weight e.weight child)
    ]
  ]

  -- buildPlanNode
  unfoldable pub build_plan_node : ℕ → Text → Attempt PlanNode
  build_plan_node zero name = no_fuel
  build_plan_node (suc n) name = elim (lookup name r.groups) [
    | none ↦ group_missing name
    | some def ↦ build_entries (build_plan_node n) 0 0 def.models >>= finish_node name def
  ]

  -- The loop of collectGroupLeaves.
  unfoldable pub collect_entries :
      (Text → List LeafKey → Attempt (List LeafKey))
      → List ModelEntry
      → List LeafKey
      → Attempt (List LeafKey)
  collect_entries collect [] seen = got seen
  collect_entries collect (e ∷ es) seen = elim (split_first b'/' e.model) [
    | some key ↦ collect_entries collect es (add_key key seen)
    | none ↦ elim (resolve_internal_name r e.model) [
      | [] ↦ collect_entries collect es seen
      | c ∷ t ↦ collect (c ∷ t) seen >>= collect_entries collect es
    ]
  ]

  -- collectGroupLeaves
  unfoldable pub collect_group_leaves : ℕ → Text → List LeafKey → Attempt (List LeafKey)
  collect_group_leaves zero name seen = no_fuel
  collect_group_leaves (suc n) name seen = elim (lookup name r.groups) [
    | none ↦ got seen
    | some def ↦ collect_entries (collect_group_leaves n) def.models seen
  ]
