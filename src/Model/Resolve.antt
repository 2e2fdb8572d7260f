-- ===== src/Model/Resolve.antt =====
-- internal/model/resolver.go: NewResolver with its checks, and ParseStickyMeta of
-- internal/scheduler/sticky.go, whose time.ParseDuration is `parse_duration`. Errors keep what they
-- are about, not their wording.
pub mod Construct
pub mod Answers
use oh_my_api.Base.{
  ℕ, zero, suc, ◌+◌, ◌≡◌, Bool, true, false, not, ◌&&◌, ◌||◌, Option, none, some, List, [], ◌∷◌,
  ◌++◌, map, keep, length, is_some, if◌then◌else◌, Text, txt, text_eq, contains, Map, lookup,
  insert, ℤ, pos, leb_ℤ,
}
use oh_my_api.Config.Provider.{ProviderConfig}
use oh_my_api.Model.Redirects.{
  Exposure, public, hidden, internal, RedirectConfig, Resolved, group_found, resolve_target,
}
use oh_my_api.Model.Graph.{
  ModelEntry, StickyMeta, ModelGroupDef, RedirectDef, SmartRouteIndex, Resolver,
  resolve_internal_name, Search, searched, detect_cycles,
}
use oh_my_api.Model.Plan.{
  PlanLeaf, PlanNode, node, no_nodes, and_nodes, has_any_leaf, collect_all, Attempt, got,
  group_missing, no_fuel, LeafKey, build_plan_node, collect_group_leaves,
}

-- exposureDirectCallable, exposureListed
abbrev pub direct_callable : Exposure → Bool
direct_callable internal = false
direct_callable _ = true

abbrev pub exposure_listed : Exposure → Bool
exposure_listed public = true
exposure_listed _ = false

abbrev pub or_public : Option Exposure → Exposure
or_public none = public
or_public (some e) = e

pub record StickyConfig : Type 0 where
  pub enabled : Bool
  pub idle_timeout : Text

pub record ModelGroup : Type 0 where
  pub name : Text
  pub mode : Text
  pub exposure : Option Exposure
  pub models : List ModelEntry
  pub context_length : Option ℤ
  pub sticky : Option StickyConfig

pub record SmartRouteConfig : Type 0 where
  pub cheap : Text
  pub scout : Text
  pub enabled_models : List Text

-- The parts of the configuration that NewResolver reads.
pub record Config : Type 0 where
  pub model_groups : List ModelGroup
  pub redirect : List RedirectConfig
  pub providers : Map ProviderConfig
  pub smart_route : Option SmartRouteConfig

pub data ConfigError : Type 0 where
  slash_in_group bad_sticky slash_in_source slash_in_target source_is_group : Text → ConfigError
  bad_redirect : Text → Resolved → ConfigError
  ref_not_found : Text → Text → ConfigError
  references : Search → ConfigError
  bad_smart_route : Text → ConfigError

pub data Checked (A : Type 0) : Type 0 where
  ok : A → Checked A
  err : ConfigError → Checked A

infixl 5 ◌>>=◌
abbrev pub ◌>>=◌ : {A B : Type 0} → Checked A → (A → Checked B) → Checked B
ok a >>= k = k a
err e >>= k = err e

abbrev pub has_slash : Text → Bool
has_slash name = contains name (b'/' ∷ [])

-- 10 minutes in nanoseconds.
abbrev pub default_sticky_idle_timeout : ℤ
default_sticky_idle_timeout = pos 600000000000

-- A parsed idle time, if it is positive.
abbrev positive_timeout : Option ℤ → Option (Option StickyMeta)
positive_timeout none = none
positive_timeout (some d) =
    if leb_ℤ d (pos 0) then none else some (some (record { enabled = true; idle_timeout = d }))

-- ParseStickyMeta; `none` is the error.
unfoldable pub parse_sticky_meta : (Text → Option ℤ) → Bool → Text → Option (Option StickyMeta)
parse_sticky_meta parse_duration enabled idle_timeout =
    if not enabled
    then some none
    else if text_eq idle_timeout []
    then some (some (record { enabled = true; idle_timeout = default_sticky_idle_timeout }))
    else positive_timeout (parse_duration idle_timeout)

abbrev sticky_of : (Text → Option ℤ) → Option StickyConfig → Option (Option StickyMeta)
sticky_of parse_duration none = some none
sticky_of parse_duration (some s) = parse_sticky_meta parse_duration s.enabled s.idle_timeout

abbrev pub group_mode : Text → Text
group_mode mode =
    if text_eq mode []
    then txt "failover"
    else if text_eq mode (txt "loadbalance")
    then txt "load-balance"
    else mode

abbrev pub group_def : ModelGroup → Option StickyMeta → ModelGroupDef
group_def g sticky = record {
  mode = group_mode g.mode;
  exposure = or_public g.exposure;
  models = g.models;
  context_length = g.context_length;
  sticky = sticky;
}

-- The loop of NewResolver over the groups, with the map so far.
unfoldable pub build_groups :
    (Text → Option ℤ) → List ModelGroup → Map ModelGroupDef → Checked (Map ModelGroupDef)
build_groups parse_duration [] groups = ok groups
build_groups parse_duration (g ∷ gs) groups = elim (has_slash g.name) [
  | true ↦ err (slash_in_group g.name)
  | false ↦ elim (sticky_of parse_duration g.sticky) [
    | none ↦ err (bad_sticky g.name)
    | some sticky ↦ build_groups parse_duration gs (insert g.name (group_def g sticky) groups)
  ]
]

-- The first loop of buildRedirects.
unfoldable pub check_redirects : Map ModelGroupDef → List RedirectConfig → Checked (Unit {0})
check_redirects groups [] = ok tt
check_redirects groups (rc ∷ rcs) =
    if has_slash rc.source
    then err (slash_in_source rc.source)
    else if has_slash rc.target
    then err (slash_in_target rc.target)
    else if is_some (lookup rc.source groups)
    then err (source_is_group rc.source)
    else check_redirects groups rcs

abbrev pub names_of : Map ModelGroupDef → List Text
names_of groups = map (λ (g : Text × ModelGroupDef). g.0) groups

abbrev pub redirect_def : RedirectConfig → Text → RedirectDef
redirect_def rc final = record {
  target = rc.target;
  final_group = final;
  exposure = or_public rc.exposure;
}

abbrev pub with_target :
    RedirectConfig → (Text → Checked (Map RedirectDef)) → Resolved → Checked (Map RedirectDef)
with_target rc k (group_found final) = k final
with_target rc k other = err (bad_redirect rc.source other)

-- The second loop of buildRedirects; `cfg` are all redirects.
unfoldable pub resolve_redirects :
    Map ModelGroupDef
    → List RedirectConfig
    → List RedirectConfig
    → Map RedirectDef
    → Checked (Map RedirectDef)
resolve_redirects groups cfg [] result = ok result
resolve_redirects groups cfg (rc ∷ rcs) result =
    with_target rc
      (λ final. resolve_redirects groups cfg rcs (insert rc.source (redirect_def rc final) result))
      (resolve_target (names_of groups) cfg rc.target)

-- buildRedirects
unfoldable pub build_redirects : Map ModelGroupDef → List RedirectConfig → Checked (Map RedirectDef)
unfolding check_redirects resolve_redirects
build_redirects groups cfg = check_redirects groups cfg >>= λ _. resolve_redirects groups cfg cfg []

module _ (r : Resolver) where
  -- The loop of validateGroupRefs over the entries of a group.
  unfoldable pub check_refs : Text → List ModelEntry → Checked (Unit {0})
  check_refs name [] = ok tt
  check_refs name (e ∷ es) =
      if has_slash e.model
      then check_refs name es
      else if text_eq (resolve_internal_name r e.model) []
      then err (ref_not_found e.model name)
      else check_refs name es

  -- validateGroupRefs
  unfoldable pub validate_group_refs : Map ModelGroupDef → Checked (Unit {0})
  unfolding check_refs
  validate_group_refs [] = ok tt
  validate_group_refs ((name, def) ∷ rest) =
      check_refs name def.models >>= λ _. validate_group_refs rest

  abbrev pub resolve_or_fail : Text → Checked Text
  resolve_or_fail name =
      if text_eq (resolve_internal_name r name) []
      then err (bad_smart_route name)
      else ok (resolve_internal_name r name)

  -- The loop of buildSmartRouteIndex over enabled_models.
  unfoldable pub enabled_info : List Text → Map Text → Checked (Map Text)
  enabled_info [] info = ok info
  enabled_info (name ∷ names) info =
      resolve_or_fail name >>= λ group. enabled_info names (insert name group info)

  -- buildSmartRouteIndex
  unfoldable pub build_smart_route_index : SmartRouteConfig → Checked SmartRouteIndex
  unfolding enabled_info
  build_smart_route_index sr = do
    cheap ← resolve_or_fail sr.cheap
    scout ← resolve_or_fail sr.scout
    info ← enabled_info sr.enabled_models []
    ok (record { cheap_group = cheap; scout_group = scout; default_groups = info })

  -- resolveByName and VisibleModelLeaves, up to the final group: `none` if the name is not known, or
  -- may not be called from outside.
  unfoldable pub callable_group : Text → Bool → Option Text
  callable_group name allow_internal = elim (lookup name r.groups) [
    | some def ↦ if allow_internal || direct_callable def.exposure then some name else none
    | none ↦ elim (lookup name r.redirects) [
      | none ↦ none
      | some d ↦ if allow_internal || direct_callable d.exposure then some d.final_group else none
    ]
  ]

abbrev pub accept_references : Search → Checked (Unit {0})
accept_references (searched color) = ok tt
accept_references other = err (references other)

abbrev pub smart_route_of : Resolver → Option SmartRouteConfig → Checked Resolver
smart_route_of r none = ok r
smart_route_of r (some sr) =
    build_smart_route_index r sr >>= λ index. ok (record r { smart_route = some index })

abbrev pub base_resolver : Config → Map ModelGroupDef → Map RedirectDef → Resolver
base_resolver cfg groups redirects = record {
  groups = groups;
  redirects = redirects;
  providers = cfg.providers;
  group_order = map (λ (g : ModelGroup). g.name) cfg.model_groups;
  redirect_order = map (λ (rc : RedirectConfig). rc.source) cfg.redirect;
  smart_route = none;
}

-- NewResolver
unfoldable pub new_resolver : (Text → Option ℤ) → Config → Checked Resolver
unfolding build_groups build_redirects validate_group_refs build_smart_route_index
new_resolver parse_duration cfg = do
  groups ← build_groups parse_duration cfg.model_groups []
  redirects ← build_redirects groups cfg.redirect
  let r = base_resolver cfg groups redirects
  _ ← validate_group_refs r groups
  _ ← accept_references (detect_cycles r)
  smart_route_of r cfg.smart_route
