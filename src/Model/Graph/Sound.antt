-- ===== src/Model/Graph/Sound.antt =====
-- One search from a name: what it returns is right, and its fuel is enough.
use oh_my_api.Base.{
  ℕ, zero, suc, ◌<◌, ◌≡◌, refl, ◌≢◌, ◌⊎◌, inl, inr, sym, ◌∙◌, subst, Option, none, some, List, [],
  ◌∷◌, ◌++◌, arith, Bool-cases, Option-cases, Text, text_eq, text_eq_iff, Map, lookup, insert,
  lookup-insert, lookup-insert_self, Some, ap,
}
use oh_my_api.Model.Graph.{
  ModelGroupDef, ModelEntry, Resolver, Refers, Chain, one, more, Color, in_stack, done, Search,
  searched, cycle, out_of_fuel, entry_target, then_search, visit_entries, dfs,
}
use oh_my_api.Model.Graph.Colors.{
  Among, uncolored, uncolored-insert-le, uncolored-insert-lt, Finished, Extends,
}

-- A search that ends, with colours of which `P` holds or with a name of which `Q` does.
abbrev pub Ends : (Map Color → Type 0) → (Text → Type 0) → Search → Type 0
Ends P Q (searched c) = P c
Ends P Q (cycle a b) = Q b
Ends P Q out_of_fuel = ⊥

pub then_search-Ends :
    (P P' : Map Color → Type 0) (Q : Text → Type 0) (s : Search) (k : Map Color → Search)
    → Ends P Q s
    → ((c : Map Color) → P c → Ends P' Q (k c))
    → Ends P' Q (then_search s k)
then_search-Ends P P' Q (searched c) k h f = f c h
then_search-Ends P P' Q (cycle a b) k h f = h
then_search-Ends P P' Q out_of_fuel k h f = absurd h

pub Ends-map :
    {P P' : Map Color → Type 0} (Q : Text → Type 0)
    → ((c : Map Color) → P c → P' c)
    → (s : Search) → Ends P Q s
    → Ends P' Q s
Ends-map Q f (searched c) h = f c h
Ends-map Q f (cycle a b) h = h
Ends-map Q f out_of_fuel h = h

pub Text-cases : (t : Text) → (t ≡ []) ⊎ ((a : ℕ) × (s : Text) × (t ≡ a ∷ s))
Text-cases [] = inl refl
Text-cases (a ∷ s) = inr (a, s, refl)

not-some : {o : Option ModelGroupDef} {def : ModelGroupDef} → o ≡ none → o ≡ some def → ⊥
not-some h k = cc

pub same-def :
    {o : Option ModelGroupDef} {def def' : ModelGroupDef} (P : List ModelEntry → Type 0)
    → o ≡ some def
    → o ≡ some def'
    → P def'.models
    → P def.models
same-def P h k p = subst P (ap models_of (sym k ∙ h)) p
  where
    models_of : Option ModelGroupDef → List ModelEntry
    models_of none = []
    models_of (some d) = d.models

still-done :
    (x : Text) (c : Map Color)
    → lookup x c ≡ none
    → (y : Text) → lookup y (insert x in_stack c) ≡ some done
    → lookup y c ≡ some done
still-done x c e y k = elim (Bool-cases (text_eq x y)) [
  | inl same ↦ ground (arith, same, lookup-insert x y in_stack c)
  | inr other ↦ ground (arith, other, lookup-insert x y in_stack c)
]

module _ (r : Resolver) where
  Extends-trans : {c d e : Map Color} → Extends r c d → Extends r d e → Extends r c e
  Extends-trans h k = record {
    finished = k.finished;
    keeps = λ x p. k.keeps x (h.keeps x p);
    stack = λ x p. h.stack x (k.stack x p);
    left = omega (arith, h.left, k.left);
  }

  abbrev pub Loops : Text → Type 0
  Loops b = Chain r b b

  -- What holds when the search comes to `x`: the names on the stack lead to it.
  pub record Ready (n : ℕ) (x : Text) (c : Map Color) : Type 0 where
    pub finished : Finished r c
    pub leads : (s : Text) → lookup s c ≡ some in_stack → Chain r s x
    pub fuel : uncolored r.groups c < n

  Ready-later : {n : ℕ} {x : Text} {c d : Map Color} → Ready n x c → Extends r c d → Ready n x d
  Ready-later h k = record {
    finished = k.finished;
    leads = λ s p. h.leads s (k.stack s p);
    fuel = omega (arith, h.fuel, k.left);
  }

  -- What a search from `x` leaves.
  abbrev pub After : Text → Map Color → Map Color → Type 0
  After x c c' = Extends r c c' × (lookup x c' ≡ some done)

  -- The names that the entries refer to are done.
  abbrev pub AllDone : Map Color → List ModelEntry → Type 0
  AllDone d es = (y : Text) → Some (λ e. entry_target r e ≡ y) es → y ≢ [] → lookup y d ≡ some done

  -- The same, with the first name given.
  abbrev HeadDone : Text → Map Color → List ModelEntry → Type 0
  HeadDone t d es =
      (y : Text) → (t ≡ y) ⊎ Some (λ e. entry_target r e ≡ y) es → y ≢ [] → lookup y d ≡ some done

  skip : (d : Map Color) (es : List ModelEntry) → AllDone d es → HeadDone [] d es
  skip d es h y (inl k) ne = absurd (ne (sym k))
  skip d es h y (inr k) ne = h y k ne

  both :
      (t : Text) (d : Map Color) (es : List ModelEntry)
      → AllDone d es
      → lookup t d ≡ some done
      → HeadDone t d es
  both t d es h here y (inl k) ne = subst (λ z. lookup z d ≡ some done) k here
  both t d es h here y (inr k) ne = h y k ne

  module _ (n : ℕ) (x : Text) (visit : Text → Map Color → Search)
      (spec : (t : Text) (c : Map Color) → Ready n t c → Ends (After t c) Loops (visit t c)) where
    -- What the loop over the entries needs at each of them.
    abbrev Within : Map Color → Type 0
    Within c =
        Finished r c
        × ((t s : Text) → Refers r x t → lookup s c ≡ some in_stack → Chain r s t)
        × (uncolored r.groups c < n)

    Within-later : (c d : Map Color) → Within c → Extends r c d → Within d
    Within-later c d w k =
        (k.finished, (λ t s ref p. w.1 t s ref (k.stack s p)), omega (arith, w.2, k.left))

    visit_entries-Ends :
        (es : List ModelEntry)
        → ((y : Text) → Some (λ e. entry_target r e ≡ y) es → y ≢ [] → Refers r x y)
        → (c : Map Color) → Within c
        → Ends (λ c'. Extends r c c' × AllDone c' es) Loops (visit_entries r visit es c)
    unfolding visit_entries
    visit_entries-Ends [] sub c w = (
      record { finished = w.0; keeps = λ y p. p; stack = λ y p. p; left = omega arith },
      λ y h. absurd h,
    )
    visit_entries-Ends (e ∷ es) sub c w = elim (Text-cases (entry_target r e)) [
      | inl empty ↦
          rw (empty, visit_entries)
            (Ends-map Loops (λ c' h. (h.0, skip c' es h.1)) (visit_entries r visit es c)
              (visit_entries-Ends es (λ y k. sub y (inr k)) c w))
      | inr (a, t, full) ↦
          let ref = sub (a ∷ t) (inl full) (λ k. cc) in
          let ready : Ready n (a ∷ t) c = record {
            finished = w.0;
            leads = λ s k. w.1 (a ∷ t) s ref k;
            fuel = w.2;
          } in
          rw (full, visit_entries)
            (then_search-Ends _ _ Loops (visit (a ∷ t) c) (visit_entries r visit es)
              (spec (a ∷ t) c ready)
              (λ c' h.
                Ends-map Loops
                  (λ d k. (Extends-trans h.0 k.0, both (a ∷ t) d es k.1 (k.0.keeps (a ∷ t) h.1)))
                  (visit_entries r visit es c')
                  (visit_entries-Ends es (λ y k. sub y (inr k)) c' (Within-later c c' w h.0))))
    ]

  finish :
      (n : ℕ) (x : Text) (c c' : Map Color)
      → lookup x c ≡ none
      → Extends r (insert x in_stack c) c'
      → ((y : Text) → Refers r x y → lookup y c' ≡ some done)
      → After x c (insert x done c')
  finish n x c c' e k all = (
    record {
      finished = (x ∷ k.finished.0, ((λ y ref. k.finished.2 y (all y ref)), k.finished.1), cover);
      keeps = keeps;
      stack = stack;
      left = omega (
        arith,
        k.left,
        uncolored-insert-le r.groups x in_stack c,
        uncolored-insert-le r.groups x done c',
      );
    },
    lookup-insert_self x done c',
  )
    where
      cover : (y : Text) → lookup y (insert x done c') ≡ some done → Among y (x ∷ k.finished.0)
      cover y h = elim (Bool-cases (text_eq x y)) [
        | inl same ↦ inl ((text_eq_iff x y).0 same)
        | inr other ↦ inr (k.finished.2 y (ground (arith, other, lookup-insert x y done c')))
      ]

      keeps : (y : Text) → lookup y c ≡ some done → lookup y (insert x done c') ≡ some done
      keeps y h = elim (Bool-cases (text_eq x y)) [
        | inl same ↦ ground (arith, same, lookup-insert x y done c')
        | inr other ↦
            ground
              (arith, other, lookup-insert x y done c', lookup-insert x y in_stack c, k.keeps y)
      ]

      stack : (y : Text) → lookup y (insert x done c') ≡ some in_stack → lookup y c ≡ some in_stack
      stack y h = elim (Bool-cases (text_eq x y)) [
        | inl same ↦ ground (arith, same, lookup-insert x y done c')
        | inr other ↦
            ground
              (arith, other, lookup-insert x y done c', lookup-insert x y in_stack c, k.stack y)
      ]

  started :
      (n : ℕ) (x : Text) (c : Map Color) (def : ModelGroupDef)
      → Ready (suc n) x c
      → lookup x c ≡ none
      → lookup x r.groups ≡ some def
      → Finished r (insert x in_stack c)
        × ((t s : Text)
            → Refers r x t
            → lookup s (insert x in_stack c) ≡ some in_stack
            → Chain r s t)
        × (uncolored r.groups (insert x in_stack c) < n)
  started n x c def h e g = (
    (h.finished.0, h.finished.1, λ y k. h.finished.2 y (still-done x c e y k)),
    leads,
    omega (arith, h.fuel, uncolored-insert-lt r.groups x in_stack c def g e),
  )
    where
      leads :
          (t s : Text) → Refers r x t → lookup s (insert x in_stack c) ≡ some in_stack → Chain r s t
      leads t s ref k = elim (Bool-cases (text_eq x s)) [
        | inl same ↦ subst (λ z. Chain r z t) ((text_eq_iff x s).0 same) (one ref)
        | inr other ↦ more (h.leads s (ground (arith, other, lookup-insert x s in_stack c))) ref
      ]

  pub dfs-Ends :
      (n : ℕ) (x : Text) (path : List Text) (c : Map Color)
      → Ready n x c
      → Ends (After x c) Loops (dfs r n x path c)
  unfolding dfs
  dfs-Ends zero x path c h = absurd (omega (arith, h.fuel))
  dfs-Ends (suc n) x path c h = elim (Option-cases (lookup x c)) [
    | inr (in_stack, e) ↦ rw (e, dfs) (h.leads x e)
    | inr (done, e) ↦
        rw (e, dfs)
          (
            record {
              finished = h.finished;
              keeps = λ y p. p;
              stack = λ y p. p;
              left = omega arith;
            },
            e,
          )
    | inl e ↦ elim (Option-cases (lookup x r.groups)) [
      | inl g ↦
          let unchanged : Extends r (insert x in_stack c) (insert x in_stack c) = record {
            finished = (h.finished.0, h.finished.1, λ y k. h.finished.2 y (still-done x c e y k));
            keeps = λ y p. p;
            stack = λ y p. p;
            left = omega arith;
          } in
          rw (e, g, dfs)
            (finish n x c (insert x in_stack c) e unchanged (λ y ref. absurd (not-some g ref.1)))
      | inr (def, g) ↦
          let within = started n x c def h e g in
          rw (e, g, dfs)
            (then_search-Ends _ _ Loops
              (visit_entries r (λ t. dfs r n t (path ++ (x ∷ []))) def.models (insert x in_stack c))
              (λ d. searched (insert x done d))
              (visit_entries-Ends n x (λ t. dfs r n t (path ++ (x ∷ [])))
                (λ t d ready. dfs-Ends n t (path ++ (x ∷ [])) d ready) def.models
                (λ y k ne. (def, g, k, ne)) (insert x in_stack c) within)
              (λ d k.
                finish n x c d e k.0 (λ y ref.
                  k.1 y (same-def (Some (λ e. entry_target r e ≡ y)) g ref.1 ref.2) ref.3)))
    ]
  ]
