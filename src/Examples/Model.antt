-- ===== src/Examples/Model.antt =====
-- The resolution of model names (internal/model) at work.
use oh_my_api.Base.{◌≡◌, refl, none, List, [], ◌∷◌, Text, txt, text_eq}
use oh_my_api.Model.Redirects.{
  RedirectConfig, circular, group_found, find_target, resolve_alias, resolve_target,
}

abbrev groups : List Text
groups = txt "main" ∷ []

abbrev redirects : List RedirectConfig
redirects =
    record { source = txt "fast"; target = txt "best"; exposure = none }
    ∷ record { source = txt "best"; target = txt "main"; exposure = none }
    ∷ record { source = txt "x"; target = txt "y"; exposure = none }
    ∷ record { source = txt "y"; target = txt "x"; exposure = none }
    ∷ []

fast_is_main : resolve_target groups redirects (txt "fast") ≡ group_found (txt "main")
unfolding resolve_target resolve_alias find_target text_eq
fast_is_main = refl

x_is_circular : resolve_target groups redirects (txt "x") ≡ circular (txt "x")
unfolding resolve_target resolve_alias find_target text_eq
x_is_circular = refl
