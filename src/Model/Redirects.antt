-- ===== src/Model/Redirects.antt =====
-- internal/model/resolver.go: resolveAlias, from a name over a chain of redirects to a model group.
-- `groups` are the names of the groups. The recursion takes fuel, one for each name of the chain.
pub mod Sound
use oh_my_api.Base.{
  ℕ, zero, suc, ◌+◌, Bool, true, false, Option, none, some, List, [], ◌∷◌, any, length,
  if◌then◌else◌, Text, text_eq,
}

pub data Exposure : Type 0 where
  public hidden internal : Exposure

pub record RedirectConfig : Type 0 where
  pub source : Text
  pub target : Text
  pub exposure : Option Exposure

-- What resolveAlias returns: a group, or an error with the name that it is about.
pub data Resolved : Type 0 where
  group_found : Text → Resolved
  circular : Text → Resolved
  not_found : Text → Resolved
  out_of_fuel : Resolved

abbrev pub is_among : Text → List Text → Bool
is_among name names = any (λ n. text_eq n name) names

-- The target of the first redirect with the source.
unfoldable pub find_target : List RedirectConfig → Text → Option Text
find_target [] name = none
find_target (rc ∷ rcs) name =
    let rest = find_target rcs name in if text_eq rc.source name then some rc.target else rest

module _ (groups : List Text) (cfg : List RedirectConfig) where
  unfoldable pub resolve_alias : ℕ → Text → List Text → Resolved
  resolve_alias zero name visited = out_of_fuel
  resolve_alias (suc n) name visited = elim (is_among name visited) [
    | true ↦ circular name
    | false ↦ elim (is_among name groups) [
      | true ↦ group_found name
      | false ↦ elim (find_target cfg name) [
        | none ↦ not_found name
        | some target ↦ resolve_alias n target (name ∷ visited)
      ]
    ]
  ]

  -- resolveAlias as it is called, with nothing visited.
  unfoldable pub resolve_target : Text → Resolved
  unfolding resolve_alias
  resolve_target name = resolve_alias (length cfg + 1) name []
