-- ===== src/Model/Lookup.antt =====
-- internal/model/resolver.go: the lookups of a resolver by and the lists of names. The
-- list of callable entries is left out.
use oh_my_api.Base.{
  ℕ, Bool, true, false, Option, none, some, List, [], ◌++◌, keep, if◌then◌else◌, Text, lookup,
}
use oh_my_api.Model.Graph.{Resolver}
use oh_my_api.Model.Plan.{
  PlanLeaf, PlanNode, node, no_nodes, and_nodes, has_any_leaf, collect_all, Attempt, got, LeafKey,
  build_plan_node, collect_group_leaves,
}
use oh_my_api.Model.Resolve.{exposure_listed, callable_group}

pub record ResolveResult : Type 0 where
  pub mode : Text
  pub model_group : Text
  pub plan : PlanNode
  pub tasks : List PlanLeaf

-- What resolveByName returns: a result or an error. A task holds the four fields of a leaf.
pub data Resolution : Type 0 where
  resolved : ResolveResult → Resolution
  model_not_found no_valid_provider : Resolution
  unresolved : Attempt PlanNode → Resolution

abbrev pub mode_of : PlanNode → Text
mode_of (node g m w ls cs o s) = m

-- The leaves of the root, then those of its children.
abbrev pub tasks_of : PlanNode → List PlanLeaf
tasks_of (node g m w ls cs o s) = ls ++ collect_all cs

abbrev pub resolution_of : Text → Attempt PlanNode → Resolution
resolution_of group (got plan) =
    if has_any_leaf plan
    then resolved
        (record { mode = mode_of plan; model_group = group; plan = plan; tasks = tasks_of plan })
    else no_valid_provider
resolution_of group other = unresolved other

module _ (r : Resolver) where
  -- resolveByName; Resolve and ResolveInternal are its two cases.
  unfoldable pub resolve_by_name : ℕ → Text → Bool → Resolution
  resolve_by_name n name allow_internal = elim (callable_group r name allow_internal) [
    | none ↦ model_not_found
    | some group ↦ resolution_of group (build_plan_node r n group)
  ]

  -- VisibleModelLeaves; `none` is ErrModelNotFound.
  unfoldable pub visible_model_leaves : ℕ → Text → Option (Attempt (List LeafKey))
  visible_model_leaves n name = elim (callable_group r name false) [
    | none ↦ none
    | some group ↦ some (collect_group_leaves r n group [])
  ]

  -- FinalGroupName
  unfoldable pub final_group_name : Text → Text
  final_group_name name = elim (lookup name r.groups) [
    | some def ↦ name
    | none ↦ elim (lookup name r.redirects) [ some d ↦ d.final_group | none ↦ name ]
  ]

  abbrev pub listed_redirect : Text → Bool
  listed_redirect name = elim (lookup name r.redirects) [
    | none ↦ false
    | some d ↦ exposure_listed d.exposure
  ]

  abbrev pub listed_group : Text → Bool
  listed_group name = elim (lookup name r.groups) [
    | none ↦ false
    | some d ↦ exposure_listed d.exposure
  ]

  -- ListUserModels
  unfoldable pub list_user_models : List Text
  list_user_models = keep listed_redirect r.redirect_order ++ keep listed_group r.group_order

-- IsEmbeddingsCompatiblePlan of a plan that is not nil
unfoldable pub is_embeddings_compatible_plan : PlanNode → Bool
is_embeddings_compatible_plan (node g m w ls no_nodes o s) = true
is_embeddings_compatible_plan (node g m w ls (and_nodes c cs) o s) = false

-- GetAliasSmartRouteInfo
unfoldable pub get_alias_smart_route_info : Resolver → Text → Option Text
get_alias_smart_route_info r name = elim r.smart_route [
  | none ↦ none
  | some index ↦ lookup name index.default_groups
]
