-- ===== src/Model/Plan/Visible.antt =====
-- Which leaves collectGroupLeaves finds.
use oh_my_api.Base.{
  ℕ, zero, suc, ◌≡◌, refl, ◌≢◌, ◌⊎◌, inl, inr, ◌↔◌, sym, subst, ap, ◌∙◌, true, false, some, none,
  List, [], ◌∷◌, ◌++◌, Text, split_first, Some, All, any, Option-cases, Bool-cases, arith,
  text_eq_iff,
}
use oh_my_api.Model.Graph.{ModelEntry, Resolver, Refers, entry_target, resolve_internal_name}
use oh_my_api.Model.Graph.Sound.{Text-cases}
use oh_my_api.Model.Plan.{
  ◌>>=◌, Attempt, LeafKey, key_eq, add_key, collect_entries, collect_group_leaves,
}
use oh_my_api.Model.Plan.Depth.{Shallow}
use oh_my_api.Model.Plan.Entries.{
  Gives, Gives-map, Gives->>=, LeafUnder, EntryHas, InEntries, InEntries-LeafUnder,
  LeafUnder-InEntries, no_slash, nonempty, internal_target, nothing, slash-EntryHas,
}

abbrev pub InKeys : LeafKey → List LeafKey → Type 0
InKeys k ks = Some (λ s. s ≡ k) ks

-- No key occurs twice.
abbrev pub AreDistinct : List LeafKey → Type 0
AreDistinct [] = Unit {0}
AreDistinct (x ∷ xs) = All (λ y. y ≢ x) xs × AreDistinct xs

key_eq_iff : (a b : LeafKey) → (key_eq a b ≡ true) ↔ (a ≡ b)
key_eq_iff (p, m) (q, n) = ground (arith, text_eq_iff p q, text_eq_iff m n)

any_seen : (k : LeafKey) (ks : List LeafKey) → any (λ s. key_eq s k) ks ≡ true → InKeys k ks
any_seen k [] h = cc
any_seen k (s ∷ ks) h = elim (Bool-cases (key_eq s k)) [
  | inl e ↦ inl ((key_eq_iff s k).0 e)
  | inr e ↦ inr (any_seen k ks (ground arith))
]

not_seen :
    (k : LeafKey) (ks : List LeafKey) → any (λ s. key_eq s k) ks ≡ false → All (λ s. s ≢ k) ks
not_seen k [] h = tt
not_seen k (s ∷ ks) h = (ground (arith, key_eq_iff s k), not_seen k ks (ground arith))

InKeys-append :
    (k new : LeafKey) (ks : List LeafKey) → InKeys k (ks ++ (new ∷ [])) ↔ (InKeys k ks ⊎ (new ≡ k))
InKeys-append k new [] = (
  (λ h. elim h [ inl a ↦ inr a | inr b ↦ absurd b ]),
  (λ h. elim h [ inl a ↦ absurd a | inr b ↦ inl b ]),
)
InKeys-append k new (s ∷ ks) =
    let rest = InKeys-append k new ks in
    (
      (λ h. elim h [
        | inl a ↦ inl (inl a)
        | inr b ↦ elim (rest.0 b) [ inl c ↦ inl (inr c) | inr d ↦ inr d ]
      ]),
      (λ h. elim h [
        | inl a ↦ elim a [ inl c ↦ inl c | inr d ↦ inr (rest.1 (inl d)) ]
        | inr b ↦ inr (rest.1 (inr b))
      ]),
    )

AreDistinct-append :
    (new : LeafKey) (ks : List LeafKey)
    → AreDistinct ks
    → All (λ s. s ≢ new) ks
    → AreDistinct (ks ++ (new ∷ []))
AreDistinct-append new [] d h = (tt, tt)
AreDistinct-append new (s ∷ ks) d h = (behind ks d.0, AreDistinct-append new ks d.1 h.1)
  where
    behind : (l : List LeafKey) → All (λ y. y ≢ s) l → All (λ y. y ≢ s) (l ++ (new ∷ []))
    behind [] q = ((λ e. h.0 (sym e)), tt)
    behind (y ∷ ys) q = (q.0, behind ys q.1)

-- `keys` are those of `seen` and one more, or the same if it was seen.
add_key_lem :
    (new : LeafKey) (seen : List LeafKey)
    → ((k : LeafKey) → InKeys k (add_key new seen) ↔ (InKeys k seen ⊎ (new ≡ k)))
      × (AreDistinct seen → AreDistinct (add_key new seen))
add_key_lem new seen = elim (Bool-cases (any (λ s. key_eq s new) seen)) [
  | inl old ↦ rw old (
    (λ k. (
      (λ h. inl h),
      (λ h. elim h [ inl a ↦ a | inr e ↦ subst (λ z. InKeys z seen) e (any_seen new seen old) ]),
    )),
    (λ d. d),
  )
  | inr fresh ↦ rw fresh (
    (λ k. InKeys-append k new seen),
    (λ d. AreDistinct-append new seen d (not_seen new seen fresh)),
  )
]

module _ (r : Resolver) where
  -- The keys found are those seen before and those that `Has`, each once.
  abbrev Adds : (LeafKey → Type 0) → List LeafKey → List LeafKey → Type 0
  Adds Has seen found =
      ((k : LeafKey) → InKeys k found ↔ (InKeys k seen ⊎ Has k))
      × (AreDistinct seen → AreDistinct found)

  Adds-step :
      (e : ModelEntry) (es : List ModelEntry) (seen mid found : List LeafKey)
      → Adds (λ k. EntryHas r k e) seen mid
      → Adds (λ k. InEntries r k es) mid found
      → Adds (λ k. InEntries r k (e ∷ es)) seen found
  Adds-step e es seen mid found f g = (
    (λ k. (
      (λ h. elim ((g.0 k).0 h) [
        | inl a ↦ elim ((f.0 k).0 a) [ inl b ↦ inl b | inr b ↦ inr (inl b) ]
        | inr c ↦ inr (inr c)
      ]),
      (λ h. elim h [
        | inl a ↦ (g.0 k).1 (inl ((f.0 k).1 (inl a)))
        | inr b ↦ elim b [ inl c ↦ (g.0 k).1 (inl ((f.0 k).1 (inr c))) | inr d ↦ (g.0 k).1 (inr d) ]
      ]),
    )),
    (λ d. g.1 (f.1 d)),
  )

  leaf-Adds :
      (e : ModelEntry) (key : LeafKey) (seen : List LeafKey)
      → split_first b'/' e.model ≡ some key
      → Adds (λ k. EntryHas r k e) seen (add_key key seen)
  leaf-Adds e key seen s =
      let (its, distinct) = add_key_lem key seen in
      (
        (λ k. (
          (λ q. elim ((its k).0 q) [ inl a ↦ inl a | inr b ↦ inr (inl (s ∙ ap some b)) ]),
          (λ q. (its k).1 (elim q [ inl a ↦ inl a | inr b ↦ inr (slash-EntryHas r k key e s b) ])),
        )),
        distinct,
      )

  idle-Adds :
      (e : ModelEntry) (seen : List LeafKey)
      → split_first b'/' e.model ≡ none
      → resolve_internal_name r e.model ≡ []
      → Adds (λ k. EntryHas r k e) seen seen
  idle-Adds e seen s h = (
    (λ k. ((λ q. inl q), (λ q. elim q [ inl a ↦ a | inr b ↦ absurd (nothing r k e s h b) ]))),
    (λ d. d),
  )

  child-Adds :
      (e : ModelEntry) (seen mid : List LeafKey)
      → split_first b'/' e.model ≡ none
      → entry_target r e ≢ []
      → Adds (λ k. LeafUnder r k (entry_target r e)) seen mid
      → Adds (λ k. EntryHas r k e) seen mid
  child-Adds e seen mid s ne c = (
    (λ k. (
      (λ q. elim ((c.0 k).0 q) [ inl a ↦ inl a | inr b ↦ inr (inr (ne, b)) ]),
      (λ q. (c.0 k).1 (elim q [
        | inl a ↦ inl a
        | inr b ↦ elim b [ inl d ↦ absurd (no_slash s d) | inr u ↦ inr u.1 ]
      ])),
    )),
    c.1,
  )

  module _ (collect : Text → List LeafKey → Attempt (List LeafKey)) (x : Text)
      (spec : (y : Text) (seen : List LeafKey)
        → Refers r x y
        → Gives (Adds (λ k. LeafUnder r k y) seen) (collect y seen)) where
    collect_leaf :
        (e : ModelEntry) (es : List ModelEntry) (key : LeafKey) (seen : List LeafKey)
        → split_first b'/' e.model ≡ some key
        → collect_entries r collect (e ∷ es) seen ≡ collect_entries r collect es (add_key key seen)
    unfolding collect_entries
    collect_leaf e es key seen s = rw (s, collect_entries) refl

    collect_idle :
        (e : ModelEntry) (es : List ModelEntry) (seen : List LeafKey)
        → split_first b'/' e.model ≡ none
        → resolve_internal_name r e.model ≡ []
        → collect_entries r collect (e ∷ es) seen ≡ collect_entries r collect es seen
    unfolding collect_entries
    collect_idle e es seen s h = rw (s, h, collect_entries) refl

    collect_child :
        (e : ModelEntry) (es : List ModelEntry) (seen : List LeafKey) {a : ℕ} {t : Text}
        → split_first b'/' e.model ≡ none
        → resolve_internal_name r e.model ≡ a ∷ t
        → collect_entries r collect (e ∷ es) seen
          ≡ (collect (a ∷ t) seen >>= collect_entries r collect es)
    unfolding collect_entries
    collect_child e es seen s h = rw (s, h, collect_entries) refl

    collect_entries-Adds :
        (es : List ModelEntry) (seen : List LeafKey)
        → ((y : Text) → Some (λ e. entry_target r e ≡ y) es → y ≢ [] → Refers r x y)
        → Gives (Adds (λ k. InEntries r k es) seen) (collect_entries r collect es seen)
    unfolding collect_entries
    collect_entries-Adds [] seen sub =
        ((λ k. ((λ h. inl h), (λ h. elim h [ inl a ↦ a | inr b ↦ absurd b ]))), (λ d. d))
    collect_entries-Adds (e ∷ es) seen sub = elim (Option-cases (split_first b'/' e.model)) [
      | inr (key, s) ↦ subst (Gives _) (sym (collect_leaf e es key seen s)) (
          Gives-map
            (λ found h. Adds-step e es seen (add_key key seen) found (leaf-Adds e key seen s) h)
            (collect_entries r collect es (add_key key seen))
            (collect_entries-Adds es (add_key key seen) (λ y q. sub y (inr q))))
      | inl s ↦ elim (Text-cases (resolve_internal_name r e.model)) [
        | inl empty ↦ subst (Gives _) (sym (collect_idle e es seen s empty)) (
            Gives-map (λ found h. Adds-step e es seen seen found (idle-Adds e seen s empty) h)
              (collect_entries r collect es seen)
              (collect_entries-Adds es seen (λ y q. sub y (inr q))))
        | inr (a, t, full) ↦
            let target = internal_target r e s full in
            let ne : entry_target r e ≢ [] = λ z. nonempty (sym target ∙ z) in
            subst (Gives _) (sym (collect_child e es seen s full)) (
              Gives->>= (Adds (λ k. LeafUnder r k (entry_target r e)) seen) _ (collect (a ∷ t) seen)
                (collect_entries r collect es)
                (subst
                  (λ y. Gives (Adds (λ k. LeafUnder r k (entry_target r e)) seen) (collect y seen))
                  target (spec (entry_target r e) seen (sub (entry_target r e) (inl refl) ne)))
                (λ mid c.
                  Gives-map
                    (λ found h. Adds-step e es seen mid found (child-Adds e seen mid s ne c) h)
                    (collect_entries r collect es mid)
                    (collect_entries-Adds es mid (λ y q. sub y (inr q)))))
      ]
    ]

  pub collect_group_leaves-Adds :
      (n : ℕ) (x : Text) (seen : List LeafKey)
      → Shallow r n x
      → Gives (Adds (λ k. LeafUnder r k x) seen) (collect_group_leaves r n x seen)
  unfolding collect_group_leaves
  collect_group_leaves-Adds zero x seen h = absurd h
  collect_group_leaves-Adds (suc n) x seen ((def, g), below) =
      rw (g, collect_group_leaves)
        (Gives-map
          (λ found h. (
            (λ k. (
              (λ q. elim ((h.0 k).0 q) [
                | inl a ↦ inl a
                | inr b ↦ inr (InEntries-LeafUnder r k x def g b)
              ]),
              (λ q. elim q [
                | inl a ↦ (h.0 k).1 (inl a)
                | inr b ↦ (h.0 k).1 (inr (LeafUnder-InEntries r k x def g b))
              ]),
            )),
            h.1,
          ))
          (collect_entries r (collect_group_leaves r n) def.models seen)
          (collect_entries-Adds (collect_group_leaves r n) x
            (λ y s ref. collect_group_leaves-Adds n y s (below y ref)) def.models seen
            (λ y q ne. (def, g, q, ne))))
