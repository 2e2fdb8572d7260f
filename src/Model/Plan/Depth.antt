-- ===== src/Model/Plan/Depth.antt =====
-- How deep the references of a group go, which bounds the recursion over them.
use oh_my_api.Base.{
  ℕ, zero, suc, ◌≡◌, inl, inr, sym, subst, true, some, List, [], ◌∷◌, length, Text, lookup,
}
use oh_my_api.Model.Graph.{ModelGroupDef, Resolver, Refers, detect_cycles, accepts}
use oh_my_api.Model.Graph.Colors.{Among, Ordered}
use oh_my_api.Model.Graph.Acyclic.{accepts-Ordered}

module _ (r : Resolver) where
  abbrev pub IsGroup : Text → Type 0
  IsGroup x = (def : ModelGroupDef) × (lookup x r.groups ≡ some def)

  -- Whatever a group refers to is a group.
  abbrev pub IsClosed : Type 0
  IsClosed = (x y : Text) → Refers r x y → IsGroup y

  -- A group from which a chain of references has less than `n` of them.
  abbrev pub Shallow : ℕ → Text → Type 0
  Shallow zero x = ⊥
  Shallow (suc n) x = IsGroup x × ((y : Text) → Refers r x y → Shallow n y)

  pub Shallow-suc : (n : ℕ) (x : Text) → Shallow n x → Shallow (suc n) x
  Shallow-suc zero x h = absurd h
  Shallow-suc (suc n) x h = (h.0, λ y ref. Shallow-suc n y (h.1 y ref))

  Ordered-Shallow :
      IsClosed
      → (order : List Text) → Ordered r order
      → (x : Text) → IsGroup x
      → Among x order
      → Shallow (length order) x
  Ordered-Shallow closed [] o x g k = absurd k
  Ordered-Shallow closed (z ∷ zs) o x g (inl e) = subst (Shallow (suc (length zs))) e (
    subst IsGroup (sym e) g,
    λ y ref. Ordered-Shallow closed zs o.1 y (closed z y ref) (o.0 y ref),
  )
  Ordered-Shallow closed (z ∷ zs) o x g (inr k) =
      Shallow-suc (length zs) x (Ordered-Shallow closed zs o.1 x g k)

  -- Without cycles there is one bound for all groups.
  pub accepts-Shallow :
      IsClosed → accepts (detect_cycles r) ≡ true → (n : ℕ) × ((x : Text) → IsGroup x → Shallow n x)
  accepts-Shallow closed e =
      let (order, o, covers) = accepts-Ordered r e in
      (length order, λ x g. Ordered-Shallow closed order o x g (covers x g.0 g.1))
