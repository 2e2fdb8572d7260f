-- ===== src/Examples/Resolver.antt =====
-- A resolver (internal/model) at work.
use oh_my_api.Base.{
  ◌≡◌, refl, ◌↔◌, ℕ, ◌≤◌, Bool, false, Option, none, some, List, [], ◌∷◌, Text, txt, ℤ, pos, All,
  text_eq, contains, split_first, lookup, insert,
}
use oh_my_api.Config.Provider.{ProviderConfig}
use oh_my_api.Model.Redirects.{internal, resolve_target}
use oh_my_api.Model.Graph.{
  ModelEntry, Resolver, detect_cycles, resolve_internal_name, visit_entries, entry_target,
}
use oh_my_api.Model.Graph.Acyclic.{detect_cycles-Decides, Decides}
use oh_my_api.Model.Plan.{LeafKey, got}
use oh_my_api.Model.Plan.Entries.{Known}
use oh_my_api.Model.Plan.Leaves.{HasKey}
use oh_my_api.Model.Plan.Visible.{InKeys, AreDistinct}
use oh_my_api.Model.Resolve.{Config, ModelGroup, group_def, new_resolver, ok, callable_group}
use oh_my_api.Model.Lookup.{
  list_user_models, resolve_by_name, visible_model_leaves, ResolveResult, resolved,
}
use oh_my_api.Model.Resolve.Construct.{IsValid, Ensures, new_resolver-IsValid}
use oh_my_api.Model.Resolve.Answers.{
  Answers, resolve_by_name-Answers, visible_model_leaves-tasks, list_user_models-callable,
}

abbrev entry : Text → ModelEntry
entry m = record { model = m; weight = pos 1 }

abbrev group : Text → List ModelEntry → ModelGroup
group n es = record {
  name = n;
  mode = [];
  exposure = none;
  models = es;
  context_length = none;
  sticky = none;
}

abbrev acme : ProviderConfig
acme = record { endpoint = txt "u"; endpoints = []; protocols = [] }

-- The group "m" refers to "b" through the redirect "f"; the provider "z" is not configured.
abbrev config : Config
config = record {
  model_groups =
      group (txt "m") (entry (txt "a/x") ∷ entry (txt "f") ∷ [])
      ∷ group (txt "b") (entry (txt "a/y") ∷ entry (txt "z/y") ∷ [])
      ∷ [];
  redirect = record { source = txt "f"; target = txt "b"; exposure = some internal } ∷ [];
  providers = (txt "a", acme) ∷ [];
  smart_route = none;
}

abbrev no_durations : Text → Option ℤ
no_durations t = none

abbrev resolver : Resolver
resolver = record {
  groups =
      (txt "m", group_def (group (txt "m") (entry (txt "a/x") ∷ entry (txt "f") ∷ [])) none)
      ∷ (txt "b", group_def (group (txt "b") (entry (txt "a/y") ∷ entry (txt "z/y") ∷ [])) none)
      ∷ [];
  redirects =
      (txt "f", record { target = txt "b"; final_group = txt "b"; exposure = internal }) ∷ [];
  providers = (txt "a", acme) ∷ [];
  group_order = txt "m" ∷ txt "b" ∷ [];
  redirect_order = txt "f" ∷ [];
  smart_route = none;
}

built : new_resolver no_durations config ≡ ok resolver
unfolding new_resolver contains lookup insert text_eq resolve_target resolve_internal_name
    detect_cycles visit_entries entry_target split_first
built = refl

new_resolver-IsValid_example : Ensures IsValid (new_resolver no_durations config)
new_resolver-IsValid_example = new_resolver-IsValid no_durations config

detect_cycles-Decides_example : Decides resolver (detect_cycles resolver)
detect_cycles-Decides_example = detect_cycles-Decides resolver

resolve_by_name-Answers_example :
    (n : ℕ) × ((m : ℕ)
      → n ≤ m
      → (name : Text) (allow_internal : Bool)
      → Answers resolver name allow_internal (resolve_by_name resolver m name allow_internal))
resolve_by_name-Answers_example = resolve_by_name-Answers no_durations config resolver built

visible_model_leaves-tasks_example :
    (n : ℕ) × ((m : ℕ)
      → n ≤ m
      → (name : Text) (res : ResolveResult) → resolve_by_name resolver m name false ≡ resolved res
      → (found : List LeafKey) × (visible_model_leaves resolver m name ≡ some (got found))
        × AreDistinct found
        × ((k : LeafKey) → HasKey k res.tasks ↔ (InKeys k found × Known resolver k)))
visible_model_leaves-tasks_example = visible_model_leaves-tasks no_durations config resolver built

list_user_models-callable_example :
    All
      (λ name. (g : Text) × (callable_group resolver name false ≡ some g))
      (list_user_models resolver)
list_user_models-callable_example = list_user_models-callable no_durations config resolver built
