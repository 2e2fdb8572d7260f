-- ===== src/Model/Plan/Leaves.antt =====
-- Which leaves the plan of a group has.
use oh_my_api.Base.{
  ℕ, zero, suc, ◌+◌, ◌≡◌, refl, ◌≢◌, ◌⊎◌, inl, inr, ◌↔◌, sym, subst, ap, ◌∙◌, some, none, List, [],
  ◌∷◌, ◌++◌, ℤ, Text, lookup, split_first, Some, Option-cases,
}
use oh_my_api.Model.Graph.{ModelEntry, Resolver, Refers, entry_target, resolve_internal_name}
use oh_my_api.Model.Graph.Sound.{Text-cases}
use oh_my_api.Model.Plan.{
  ◌>>=◌, PlanLeaf, PlanNode, node, collect_leaves, collect_all, Attempt, Parts, LeafKey, key_of,
  build_entries, build_plan_node, with_weight, add_leaf, add_child, finish_node,
}
use oh_my_api.Model.Plan.Depth.{Shallow}
use oh_my_api.Model.Plan.Entries.{
  Gives, Gives-map, Gives->>=, LeafUnder, Known, EntryHas, InEntries, InEntries-LeafUnder,
  LeafUnder-InEntries, no_slash, unknown, is_some_of, nonempty, internal_target, nothing,
  slash-EntryHas,
}

-- Some leaf of the list has the key.
abbrev pub HasKey : LeafKey → List PlanLeaf → Type 0
HasKey k ls = Some (λ l. key_of l ≡ k) ls

HasKey-append :
    (k : LeafKey) (xs ys : List PlanLeaf) → HasKey k (xs ++ ys) ↔ (HasKey k xs ⊎ HasKey k ys)
HasKey-append k [] ys = ((λ h. inr h), (λ h. elim h [ inl a ↦ absurd a | inr b ↦ b ]))
HasKey-append k (x ∷ xs) ys =
    let rest = HasKey-append k xs ys in
    (
      (λ h. elim h [
        | inl a ↦ inl (inl a)
        | inr b ↦ elim (rest.0 b) [ inl a ↦ inl (inr a) | inr c ↦ inr c ]
      ]),
      (λ h. elim h [
        | inl a ↦ elim a [ inl b ↦ inl b | inr b ↦ inr (rest.1 (inl b)) ]
        | inr b ↦ inr (rest.1 (inr b))
      ]),
    )

collect-with_weight : (v : ℤ) (p : PlanNode) → collect_leaves (with_weight v p) ≡ collect_leaves p
unfolding collect_leaves
collect-with_weight v (node g m w ls cs o s) = refl

module _ (r : Resolver) where
  -- What the lists of a node say of the entries they come from.
  abbrev pub PartsOf : List ModelEntry → Parts → Type 0
  PartsOf es p =
      (k : LeafKey) → HasKey k (p.leaves ++ collect_all p.children) ↔ (InEntries r k es × Known r k)

  -- The leaves of a plan are those under the group whose provider is configured.
  abbrev pub PlanOf : Text → PlanNode → Type 0
  PlanOf x plan = (k : LeafKey) → HasKey k (collect_leaves plan) ↔ (LeafUnder r k x × Known r k)

  -- An entry that adds nothing r.
  pass :
      (e : ModelEntry) (es : List ModelEntry) (p : Parts)
      → ((k : LeafKey) → EntryHas r k e → Known r k → ⊥)
      → PartsOf es p
      → PartsOf (e ∷ es) p
  pass e es p none_in h k = (
    (λ q. let (a, b) = (h k).0 q in (inr a, b)),
    (λ q. elim q.0 [ inl a ↦ absurd (none_in k a q.1) | inr b ↦ (h k).1 (b, q.1) ]),
  )

  -- An entry that adds leaves: those of the list `new`.
  adds :
      (e : ModelEntry) (es : List ModelEntry) (p : Parts) (new every : List PlanLeaf)
      → ((k : LeafKey) → HasKey k new ↔ (EntryHas r k e × Known r k))
      → ((k : LeafKey)
          → HasKey k every ↔ (HasKey k new ⊎ HasKey k (p.leaves ++ collect_all p.children)))
      → PartsOf es p
      → (k : LeafKey) → HasKey k every ↔ (InEntries r k (e ∷ es) × Known r k)
  adds e es p new every its here h k = (
    (λ q. elim ((here k).0 q) [
      | inl a ↦ let (u, v) = (its k).0 a in (inl u, v)
      | inr b ↦ let (u, v) = (h k).0 b in (inr u, v)
    ]),
    (λ q.
        (here k).1
          (elim q.0 [ inl a ↦ inl ((its k).1 (a, q.1)) | inr b ↦ inr ((h k).1 (b, q.1)) ])),
  )

  add_leaf-PartsOf :
      (i : ℕ) (leaf : PlanLeaf) (e : ModelEntry) (es : List ModelEntry) (p : Parts)
      → split_first b'/' e.model ≡ some (key_of leaf)
      → Known r (key_of leaf)
      → PartsOf es p
      → Gives (PartsOf (e ∷ es)) (add_leaf i leaf p)
  add_leaf-PartsOf i leaf e es p s known h =
      adds e es p (leaf ∷ []) (leaf ∷ (p.leaves ++ collect_all p.children))
        (λ k. (
          (λ q. elim q [
            | inl a ↦ (inl (s ∙ ap some a), subst (Known r) a known)
            | inr b ↦ absurd b
          ]),
          (λ q. inl (slash-EntryHas r k (key_of leaf) e s q.0)),
        ))
        (λ k. (
          (λ q. elim q [ inl a ↦ inl (inl a) | inr b ↦ inr b ]),
          (λ q. elim q [ inl a ↦ elim a [ inl b ↦ inl b | inr b ↦ absurd b ] | inr b ↦ inr b ]),
        ))
        h

  add_child-PartsOf :
      (j : ℕ) (v : ℤ) (child : PlanNode) (e : ModelEntry) (es : List ModelEntry) (p : Parts)
      → split_first b'/' e.model ≡ none
      → entry_target r e ≢ []
      → PlanOf (entry_target r e) child
      → PartsOf es p
      → Gives (PartsOf (e ∷ es)) (add_child j (with_weight v child) p)
  unfolding collect_leaves
  add_child-PartsOf j v child e es p s ne c h =
      adds e es p (collect_leaves (with_weight v child))
        (p.leaves ++ (collect_leaves (with_weight v child) ++ collect_all p.children))
        (λ k. rw (collect-with_weight v child) (
          (λ q. let (a, b) = (c k).0 q in (inr (ne, a), b)),
          (λ q. elim q.0 [ inl a ↦ absurd (no_slash s a) | inr u ↦ (c k).1 (u.1, q.1) ]),
        ))
        (λ k.
          let new = collect_leaves (with_weight v child) in
          let old = collect_all p.children in
          let outer = HasKey-append k p.leaves (new ++ old) in
          let inner = HasKey-append k new old in
          let before = HasKey-append k p.leaves old in
          (
            (λ q. elim (outer.0 q) [
              | inl a ↦ inr (before.1 (inl a))
              | inr b ↦ elim (inner.0 b) [ inl d ↦ inl d | inr d ↦ inr (before.1 (inr d)) ]
            ]),
            (λ q. elim q [
              | inl a ↦ outer.1 (inr (inner.1 (inl a)))
              | inr b ↦ elim (before.0 b) [
                | inl d ↦ outer.1 (inl d)
                | inr d ↦ outer.1 (inr (inner.1 (inr d)))
              ]
            ]),
          ))
        h

  module _ (build : Text → Attempt PlanNode) (x : Text)
      (spec : (y : Text) → Refers r x y → Gives (PlanOf y) (build y)) where
    build_entries-PartsOf :
        (i j : ℕ) (es : List ModelEntry)
        → ((y : Text) → Some (λ e. entry_target r e ≡ y) es → y ≢ [] → Refers r x y)
        → Gives (PartsOf es) (build_entries r build i j es)
    unfolding build_entries collect_all
    build_entries-PartsOf i j [] sub = λ k. ((λ q. absurd q), (λ q. absurd q.0))
    build_entries-PartsOf i j (e ∷ es) sub = elim (Option-cases (split_first b'/' e.model)) [
      | inr ((p, m), s) ↦ elim (Option-cases (lookup p r.providers)) [
        | inl gone ↦
            rw (s, gone, build_entries)
              (Gives-map
                (λ parts h.
                  pass e es parts
                    (λ k q known. unknown r gone (slash-EntryHas r k (p, m) e s q) known) h)
                (build_entries r build i j es)
                (build_entries-PartsOf i j es (λ y q. sub y (inr q))))
        | inr (prov, here) ↦
            let leaf : PlanLeaf = record {
              provider_name = p;
              provider = prov;
              upstream_model = m;
              weight = e.weight;
            } in
            rw (s, here, build_entries)
              (Gives->>= (PartsOf es) _ (build_entries r build (i + 1) j es) (add_leaf i leaf)
                (build_entries-PartsOf (i + 1) j es (λ y q. sub y (inr q)))
                (λ parts h. add_leaf-PartsOf i leaf e es parts s (is_some_of here) h))
      ]
      | inl s ↦ elim (Text-cases (resolve_internal_name r e.model)) [
        | inl empty ↦
            rw (s, empty, build_entries)
              (Gives-map (λ parts h. pass e es parts (λ k q known. nothing r k e s empty q) h)
                (build_entries r build i j es)
                (build_entries-PartsOf i j es (λ y q. sub y (inr q))))
        | inr (a, t, full) ↦
            let target = internal_target r e s full in
            let ne : entry_target r e ≢ [] = λ z. nonempty (sym target ∙ z) in
            rw (s, full, build_entries)
              (Gives->>= (PlanOf (entry_target r e)) _ (build (a ∷ t))
                (λ child.
                  build_entries r build i (j + 1) es >>= add_child j (with_weight e.weight child))
                (subst (λ y. Gives (PlanOf (entry_target r e)) (build y)) target
                  (spec (entry_target r e) (sub (entry_target r e) (inl refl) ne)))
                (λ child c.
                  Gives->>= (PartsOf es) _ (build_entries r build i (j + 1) es)
                    (add_child j (with_weight e.weight child))
                    (build_entries-PartsOf i (j + 1) es (λ y q. sub y (inr q)))
                    (λ parts h. add_child-PartsOf j e.weight child e es parts s ne c h)))
      ]
    ]

  -- The plan of a group is built, and has exactly the leaves under it.
  pub build_plan_node-PlanOf :
      (n : ℕ) (x : Text) → Shallow r n x → Gives (PlanOf x) (build_plan_node r n x)
  unfolding build_plan_node collect_leaves
  build_plan_node-PlanOf zero x h = absurd h
  build_plan_node-PlanOf (suc n) x ((def, g), below) =
      rw (g, build_plan_node)
        (Gives->>= (PartsOf def.models) (PlanOf x)
          (build_entries r (build_plan_node r n) 0 0 def.models) (finish_node x def)
          (build_entries-PartsOf (build_plan_node r n) x
            (λ y ref. build_plan_node-PlanOf n y (below y ref)) 0 0 def.models
            (λ y q ne. (def, g, q, ne)))
          (λ p h k. (
            (λ q. let (a, b) = (h k).0 q in (InEntries-LeafUnder r k x def g a, b)),
            (λ q. (h k).1 (LeafUnder-InEntries r k x def g q.0, q.1)),
          )))
