-- ===== src/Model/Redirects/Sound.antt =====
-- What the resolution of a redirect finds, and that it ends.
use oh_my_api.Base.{
  ℕ, zero, suc, ◌+◌, ◌≤◌, ◌<◌, ◌≡◌, sym, subst, inl, inr, true, false, none, some, List, [], ◌∷◌,
  length, arith, if◌then◌else◌, Bool-cases, Option-cases, Text, text_eq, text_eq_iff, All, All-map,
}
use oh_my_api.Model.Redirects.{
  RedirectConfig, Resolved, group_found, circular, not_found, out_of_fuel, is_among, find_target,
  resolve_alias, resolve_target,
}

-- A chain of redirects from one name to another.
pub data Leads (cfg : List RedirectConfig) : Text → Text → Type 0 where
  here : (x : Text) → Leads cfg x x
  further : {x y z : Text} → Leads cfg x y → find_target cfg y ≡ some z → Leads cfg x z

-- A chain of at least one redirect.
abbrev pub Redirects : List RedirectConfig → Text → Text → Type 0
Redirects cfg x z = (y : Text) × (find_target cfg x ≡ some y) × Leads cfg y z

module _ (groups : List Text) (cfg : List RedirectConfig) where
  -- What an answer for a name says.
  abbrev pub Answers : Text → Resolved → Type 0
  Answers name (group_found g) = Leads cfg name g × (is_among g groups ≡ true)
  Answers name (circular c) = Leads cfg name c × Redirects cfg c c
  Answers name (not_found m) =
      Leads cfg name m × (is_among m groups ≡ false) × (find_target cfg m ≡ none)
  Answers name out_of_fuel = ⊥

  -- The redirects whose source was not visited.
  abbrev unvisited : List Text → List RedirectConfig → ℕ
  unvisited visited [] = 0
  unvisited visited (rc ∷ rcs) =
      let rest = unvisited visited rcs in if is_among rc.source visited then rest else rest + 1

  unvisited-le :
      (visited : List Text) (rcs : List RedirectConfig) → unvisited visited rcs ≤ length rcs
  unvisited-le visited [] = omega arith
  unvisited-le visited (rc ∷ rcs) = ground (arith, unvisited-le visited rcs)

  unvisited-more :
      (name : Text) (visited : List Text) (rcs : List RedirectConfig)
      → unvisited (name ∷ visited) rcs ≤ unvisited visited rcs
  unvisited-more name visited [] = omega arith
  unvisited-more name visited (rc ∷ rcs) = ground (arith, unvisited-more name visited rcs)

  is_among-eq :
      (a b : Text) (visited : List Text)
      → text_eq a b ≡ true
      → is_among b visited ≡ false
      → is_among a visited ≡ false
  is_among-eq a b visited e h =
      subst (λ x. is_among x visited ≡ false) (sym ((text_eq_iff a b).0 e)) h

  -- Visiting the source of a redirect leaves one less.
  unvisited-less :
      (name target : Text) (visited : List Text) (rcs : List RedirectConfig)
      → is_among name visited ≡ false
      → find_target rcs name ≡ some target
      → unvisited (name ∷ visited) rcs + 1 ≤ unvisited visited rcs
  unfolding find_target
  unvisited-less name target visited [] h e = cc
  unvisited-less name target visited (rc ∷ rcs) h e = elim (Bool-cases (text_eq rc.source name)) [
    | inl k ↦
        let fresh = is_among-eq rc.source name visited k h in
        ground (
          arith,
          k,
          fresh,
          (text_eq_iff rc.source name).0 k,
          unvisited-more name visited rcs,
          text_eq_iff name rc.source,
        )
    | inr k ↦
        let rest : find_target rcs name ≡ some target = ground (arith, k, e) in
        let less = unvisited-less name target visited rcs h rest in
        ground (arith, k, less, text_eq_iff name rc.source, text_eq_iff rc.source name)
  ]

  among-Redirects :
      (name : Text) (visited : List Text)
      → All (λ v. Redirects cfg v name) visited
      → is_among name visited ≡ true
      → Redirects cfg name name
  among-Redirects name [] all e = cc
  among-Redirects name (v ∷ vs) all e = elim (Bool-cases (text_eq v name)) [
    | inl k ↦ subst (λ x. Redirects cfg x name) ((text_eq_iff v name).0 k) all.0
    | inr k ↦ among-Redirects name vs all.1 (rw k at e)
  ]

  resolve_alias-Answers :
      (n : ℕ) (start name : Text) (visited : List Text)
      → Leads cfg start name
      → All (λ v. Redirects cfg v name) visited
      → unvisited visited cfg < n
      → Answers start (resolve_alias groups cfg n name visited)
  unfolding resolve_alias
  resolve_alias-Answers zero start name visited l all h = absurd (omega (arith, h))
  resolve_alias-Answers (suc n) start name visited l all h =
      elim (Bool-cases (is_among name visited)) [
        | inl a ↦ rw (a, resolve_alias) (l, among-Redirects name visited all a)
        | inr a ↦ elim (Bool-cases (is_among name groups)) [
          | inl b ↦ rw (a, b, resolve_alias) (l, b)
          | inr b ↦ elim (Option-cases (find_target cfg name)) [
            | inl c ↦ rw (a, b, c, resolve_alias) (l, b, c)
            | inr (t, c) ↦
                let reached : All (λ v. Redirects cfg v t) (name ∷ visited) =
                  ((t, c, here t), All-map (λ v r. (r.0, r.1, further r.2 c)) visited all) in
                rw (a, b, c, resolve_alias)
                  (resolve_alias-Answers n start t (name ∷ visited) (further l c) reached
                    (omega (arith, h, unvisited-less name t visited cfg a c)))
          ]
        ]
      ]

  -- The resolution of a name ends, whatever the redirects are: with a group to which a chain of
  -- redirects leads from the name; or with a name on that chain that redirects lead back to; or
  -- with one that is neither a group nor a redirect.
  pub resolve_target-Answers : (name : Text) → Answers name (resolve_target groups cfg name)
  unfolding resolve_target
  resolve_target-Answers name =
      resolve_alias-Answers (length cfg + 1) name name [] (here name) tt
        (omega (arith, unvisited-le [] cfg))
