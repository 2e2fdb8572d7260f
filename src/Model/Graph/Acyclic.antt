-- ===== src/Model/Graph/Acyclic.antt =====
-- detectCycles decides whether a name refers back to itself.
use oh_my_api.Base.{
  ℕ, ◌+◌, ◌<◌, ◌≡◌, refl, ◌≢◌, ◌↔◌, inl, inr, sym, subst, true, some, List, [], ◌∷◌, arith, length,
  Bool-cases, Text, text_eq, text_eq_iff, Map, lookup,
}
use oh_my_api.Model.Graph.{
  ModelGroupDef, Resolver, Refers, Chain, one, more, Color, in_stack, done, Search, searched, cycle,
  out_of_fuel, dfs, detect_from, detect_cycles, accepts,
}
use oh_my_api.Model.Graph.Colors.{Among, uncolored, uncolored_none, Ordered, Finished, Extends}
use oh_my_api.Model.Graph.Sound.{Ends, then_search-Ends, Ends-map, Loops, dfs-Ends}

module _ (r : Resolver) where
  -- Between two searches from a group nothing is on the stack.
  record Idle (n : ℕ) (c : Map Color) : Type 0 where
    finished : Finished r c
    empty : (s : Text) → lookup s c ≢ some in_stack
    fuel : uncolored r.groups c < n

  -- The groups of a list are done, and what was done before is.
  record Covers (c c' : Map Color) (groups : Map ModelGroupDef) : Type 0 where
    pub finished : Finished r c'
    pub keeps : (x : Text) → lookup x c ≡ some done → lookup x c' ≡ some done
    pub covers :
        (x : Text) (def : ModelGroupDef) → lookup x groups ≡ some def → lookup x c' ≡ some done

  detect_from-Ends :
      (n : ℕ) (groups : Map ModelGroupDef) (c : Map Color)
      → Idle n c
      → Ends (λ c'. Covers c c' groups) (Loops r) (detect_from r n groups c)
  unfolding detect_from lookup
  detect_from-Ends n [] c h = record {
    finished = h.finished;
    keeps = λ x p. p;
    covers = λ x def p. cc;
  }
  detect_from-Ends n ((k, d) ∷ rest) c h =
      then_search-Ends _ _ (Loops r) (dfs r n k [] c) (detect_from r n rest)
        (dfs-Ends r n k [] c
          (record { finished = h.finished; leads = λ s p. absurd (h.empty s p); fuel = h.fuel }))
        (λ c' p.
          Ends-map (Loops r) (λ e q. later c' e p q) (detect_from r n rest c')
            (detect_from-Ends n rest c' (record {
              finished = p.0.finished;
              empty = λ s q. h.empty s (p.0.stack s q);
              fuel = omega (arith, h.fuel, p.0.left);
            })))
    where
      later :
          (c' e : Map Color)
          → Extends r c c' × (lookup k c' ≡ some done)
          → Covers c' e rest
          → Covers c e ((k, d) ∷ rest)
      later c' e p q = record {
        finished = q.finished;
        keeps = λ x s. q.keeps x (p.0.keeps x s);
        covers = λ x def g. elim (Bool-cases (text_eq k x)) [
          | inl same ↦
              subst (λ y. lookup y e ≡ some done) ((text_eq_iff k x).0 same) (q.keeps k p.1)
          | inr other ↦ q.covers x def (rw other at g)
        ];
      }

  closed :
      (order : List Text)
      → Ordered r order
      → (x : Text) {y : Text} → Among x order
      → Refers r x y
      → Among y order
  closed [] o x k ref = absurd k
  closed (z ∷ zs) o x {y} (inl e) ref = inr (o.0 y (subst (λ w. Refers r w y) (sym e) ref))
  closed (z ∷ zs) o x (inr k) ref = inr (closed zs o.1 x k ref)

  closed_chain :
      (order : List Text)
      → Ordered r order
      → (x : Text) {y : Text} → Among x order
      → Chain r x y
      → Among y order
  closed_chain order o x k (one ref) = closed order o x k ref
  closed_chain order o x k (more {y} ch ref) = closed order o y (closed_chain order o x k ch) ref

  -- A chain from the first name of an ordered list stays behind it.
  behind : (z : Text) (zs : List Text) → Ordered r (z ∷ zs) → {y : Text} → Chain r z y → Among y zs
  behind z zs o {y} (one ref) = o.0 y ref
  behind z zs o (more {y} ch ref) = closed zs o.1 y (behind z zs o ch) ref

  pub Ordered-acyclic :
      (order : List Text) → Ordered r order → (x : Text) → Among x order → ¬ Chain r x x
  Ordered-acyclic [] o x k ch = k
  Ordered-acyclic (z ∷ zs) o x (inr k) ch = Ordered-acyclic zs o.1 x k ch
  Ordered-acyclic (z ∷ zs) o x (inl e) ch =
      let ch' = subst (λ w. Chain r w w) (sym e) ch in
      Ordered-acyclic zs o.1 z (behind z zs o ch') ch'

  pub detect_cycles-Ends :
      Ends
        (λ c.
          Finished r c
          × ((x : Text) (def : ModelGroupDef)
              → lookup x r.groups ≡ some def
              → lookup x c ≡ some done))
        (Loops r)
        (detect_cycles r)
  unfolding detect_cycles
  detect_cycles-Ends =
      Ends-map (Loops r) (λ c h. (h.finished, h.covers))
        (detect_from r (length r.groups + 1) r.groups [])
        (detect_from-Ends (length r.groups + 1) r.groups [] (record {
          finished = ([], tt, λ x h. unfold lookup in cc);
          empty = λ s h. unfold lookup in cc;
          fuel = omega (arith, uncolored_none r.groups);
        }))

  Chain-start : {x y : Text} → Chain r x y → (def : ModelGroupDef) × (lookup x r.groups ≡ some def)
  Chain-start (one ref) = (ref.0, ref.1)
  Chain-start (more ch ref) = Chain-start ch

  -- The names of the groups, those behind that they refer to.
  pub accepts-Ordered :
      accepts (detect_cycles r) ≡ true
      → (order : List Text) × Ordered r order
        × ((x : Text) (def : ModelGroupDef) → lookup x r.groups ≡ some def → Among x order)
  accepts-Ordered e = go (detect_cycles r) detect_cycles-Ends e
    where
      go :
          (s : Search)
          → Ends
              (λ c.
                Finished r c
                × ((x : Text) (def : ModelGroupDef)
                    → lookup x r.groups ≡ some def
                    → lookup x c ≡ some done))
              (Loops r)
              s
          → accepts s ≡ true
          → (order : List Text) × Ordered r order
            × ((x : Text) (def : ModelGroupDef) → lookup x r.groups ≡ some def → Among x order)
      go (searched c) h k = (h.0.0, h.0.1, λ x def g. h.0.2 x (h.1 x def g))
      go (cycle a b) h k = cc
      go out_of_fuel h k = cc

  acyclic-accepts :
      (P : Map Color → Type 0) (s : Search)
      → Ends P (Loops r) s
      → ((x : Text) → ¬ Chain r x x)
      → accepts s ≡ true
  acyclic-accepts P (searched c) h k = refl
  acyclic-accepts P (cycle a b) h k = absurd (k b h)
  acyclic-accepts P out_of_fuel h k = absurd h

  -- detectCycles returns nil exactly if no name refers back to itself.
  pub detect_cycles_iff : (accepts (detect_cycles r) ≡ true) ↔ ((x : Text) → ¬ Chain r x x)
  detect_cycles_iff = (
    (λ e x ch.
        let (order, o, covers) = accepts-Ordered e in
        let (def, g) = Chain-start ch in Ordered-acyclic order o x (covers x def g) ch),
    acyclic-accepts _ (detect_cycles r) detect_cycles-Ends,
  )

  -- What the search may answer: that there is no cycle, or a name that refers back to itself.
  abbrev pub Decides : Search → Type 0
  Decides (searched color) = (x : Text) → ¬ Chain r x x
  Decides (cycle a b) = Chain r b b
  Decides out_of_fuel = ⊥

  -- The search for cycles ends. It returns nil only if no name refers back to itself, over other
  -- groups and redirects or at once; and an error only with a name, met again, that does.
  pub detect_cycles-Decides : Decides (detect_cycles r)
  detect_cycles-Decides = decided _ (detect_cycles r) detect_cycles-Ends detect_cycles_iff.0
    where
      decided :
          (P : Map Color → Type 0) (s : Search)
          → Ends P (Loops r) s
          → (accepts s ≡ true → (x : Text) → ¬ Chain r x x)
          → Decides s
      decided P (searched color) h k = k refl
      decided P (cycle a b) h k = h
      decided P out_of_fuel h k = h
