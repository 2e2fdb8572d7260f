-- ===== src/Model/Graph.antt =====
-- internal/model/resolver.go: the groups of a resolver, how one refers to another, and detectCycles,
-- the depth-first search for a reference that leads back. The maps are association lists, in the
-- order in which one iteration of Go meets them. The search takes fuel, one for each name on its
-- path.
pub mod Colors
pub mod Sound
pub mod Acyclic
use oh_my_api.Base.{
  ℕ, zero, suc, ◌+◌, ◌≡◌, ◌≢◌, Bool, true, false, not, ◌&&◌, Option, none, some, List, [], ◌∷◌,
  ◌++◌, all, length, is_some, if◌then◌else◌, Text, split_first, Map, lookup, insert, ℤ, Some,
}
use oh_my_api.Config.Provider.{ProviderConfig}
use oh_my_api.Model.Redirects.{Exposure}

pub record ModelEntry : Type 0 where
  pub model : Text
  pub weight : ℤ

-- StickyMeta, its duration in nanoseconds.
pub record StickyMeta : Type 0 where
  pub enabled : Bool
  pub idle_timeout : ℤ

pub record ModelGroupDef : Type 0 where
  pub mode : Text
  pub exposure : Exposure
  pub models : List ModelEntry
  pub context_length : Option ℤ
  pub sticky : Option StickyMeta

pub record RedirectDef : Type 0 where
  pub target : Text
  pub final_group : Text
  pub exposure : Exposure

-- The groups that smart routes lead to; `default_groups` is the map EnabledModelInfo.
pub record SmartRouteIndex : Type 0 where
  pub cheap_group : Text
  pub scout_group : Text
  pub default_groups : Map Text

pub record Resolver : Type 0 where
  pub groups : Map ModelGroupDef
  pub redirects : Map RedirectDef
  pub providers : Map ProviderConfig
  pub group_order : List Text
  pub redirect_order : List Text
  pub smart_route : Option SmartRouteIndex

module _ (r : Resolver) where
  -- resolveInternalName
  unfoldable pub resolve_internal_name : Text → Text
  resolve_internal_name name = elim (lookup name r.groups) [
    | some def ↦ name
    | none ↦ elim (lookup name r.redirects) [ some def ↦ def.final_group | none ↦ [] ]
  ]

  -- The name that an entry without a slash refers to; empty for one with a slash.
  unfoldable pub entry_target : ModelEntry → Text
  entry_target e = elim (split_first b'/' e.model) [
    | some leaf ↦ []
    | none ↦ resolve_internal_name e.model
  ]

  -- A group refers to a name through one of its entries.
  abbrev pub Refers : Text → Text → Type 0
  Refers x y =
      (def : ModelGroupDef) × (lookup x r.groups ≡ some def)
      × Some (λ e. entry_target e ≡ y) def.models
      × (y ≢ [])

  -- A chain of at least one reference.
  pub data Chain : Text → Text → Type 0 where
    one : {x y : Text} → Refers x y → Chain x y
    more : {x y z : Text} → Chain x y → Refers y z → Chain x z

pub data Color : Type 0 where
  in_stack done : Color

-- What the search returns: the colours, or an error with the first name of the path and the name
-- that is met again.
pub data Search : Type 0 where
  searched : Map Color → Search
  cycle : Text → Text → Search
  out_of_fuel : Search

abbrev pub first_of : List Text → Text
first_of [] = []
first_of (x ∷ xs) = x

abbrev pub then_search : Search → (Map Color → Search) → Search
then_search (searched color) k = k color
then_search (cycle a b) k = cycle a b
then_search out_of_fuel k = out_of_fuel

module _ (r : Resolver) where
  -- The loop of dfs over the entries of a group.
  unfoldable pub visit_entries : (Text → Map Color → Search) → List ModelEntry → Map Color → Search
  visit_entries visit [] color = searched color
  visit_entries visit (e ∷ es) color = elim (entry_target r e) [
    | [] ↦ visit_entries visit es color
    | c ∷ t ↦ then_search (visit (c ∷ t) color) (visit_entries visit es)
  ]

  -- dfs
  unfoldable pub dfs : ℕ → Text → List Text → Map Color → Search
  dfs zero name path color = out_of_fuel
  dfs (suc n) name path color = elim (lookup name color) [
    | some done ↦ searched color
    | some in_stack ↦ cycle (first_of path) name
    | none ↦ elim (lookup name r.groups) [
      | none ↦ searched (insert name done (insert name in_stack color))
      | some def ↦
          then_search
            (visit_entries (λ t. dfs n t (path ++ (name ∷ []))) def.models
              (insert name in_stack color))
            (λ color'. searched (insert name done color'))
    ]
  ]

  -- The loop of detectCycles.
  unfoldable pub detect_from : ℕ → Map ModelGroupDef → Map Color → Search
  detect_from n [] color = searched color
  detect_from n ((name, def) ∷ rest) color = then_search (dfs n name [] color) (detect_from n rest)

  -- detectCycles
  unfoldable pub detect_cycles : Search
  unfolding dfs detect_from
  detect_cycles = detect_from (length r.groups + 1) r.groups []

-- detectCycles returns nil.
abbrev pub accepts : Search → Bool
accepts (searched color) = true
accepts _ = false
