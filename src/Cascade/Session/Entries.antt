-- ===== src/Cascade/Session/Entries.antt =====
-- Entries and calls that an operation of a session leaves alone.
use mathlib.Core.Option.{some-injective}
use oh_my_api.Base.{
  ℕ, zero, suc, ◌≡◌, ◌≢◌, refl, ap, subst, ◌∙◌, inl, inr, some, List, [], ◌∷◌, ◌++◌, Text,
  get_elem?, erase_idx, length, All, Some, Map, lookup, insert, delete, arith, text_eq, Bool-cases,
}
use oh_my_api.Cascade.Waiter.{Fault, fail}
use oh_my_api.Cascade.Session.{Job, Call, update, on_waiter, fail_listed}
use oh_my_api.Cascade.Session.Updates.{lookup-Some}

pub get-append :
    (js : List Job) (y : Job) (k : ℕ) (j : Job)
    → get_elem? js k ≡ some j
    → (get_elem? (js ++ (y ∷ [])) k ≡ some j) × (length js ≢ k)
get-append [] y k j h = cc
get-append (x ∷ js) y zero j h = (h, λ e. omega (arith, e))
get-append (x ∷ js) y (suc k) j h =
    let (g, n) = get-append js y k j h in (g, λ e. n (omega (arith, e)))

pub update-other :
    (i : ℕ) (f : Job → Job) (js : List Job) (k : ℕ)
    → i ≢ k
    → get_elem? (update i f js) k ≡ get_elem? js k
update-other i f [] k n = refl
update-other zero f (x ∷ js) zero n = absurd (n refl)
update-other zero f (x ∷ js) (suc k) n = refl
update-other (suc i) f (x ∷ js) zero n = refl
update-other (suc i) f (x ∷ js) (suc k) n = update-other i f js k (λ e. n (ap suc e))

pub insert-All :
    (id : Text) (i k : ℕ) (m : Map ℕ)
    → i ≢ k
    → All (λ p. p.1 ≢ k) m
    → All (λ p. p.1 ≢ k) (insert id i m)
unfolding insert
insert-All id i k [] n ps = (n, ps)
insert-All id i k ((j, w) ∷ m) n ps = elim (Bool-cases (text_eq j id)) [
  | inl e ↦ rw e (n, ps.1)
  | inr e ↦ rw e (ps.0, insert-All id i k m n ps.1)
]

pub delete-All :
    (id : Text) (k : ℕ) (m : Map ℕ) → All (λ p. p.1 ≢ k) m → All (λ p. p.1 ≢ k) (delete id m)
unfolding delete
delete-All id k [] ps = ps
delete-All id k ((j, w) ∷ m) ps = elim (Bool-cases (text_eq j id)) [
  | inl e ↦ rw e (delete-All id k m ps.1)
  | inr e ↦ rw e (ps.0, delete-All id k m ps.1)
]

pub lookup-other :
    (id : Text) (i k : ℕ) (m : Map ℕ) → All (λ p. p.1 ≢ k) m → lookup id m ≡ some i → i ≢ k
lookup-other id i k m ps l = from_Some m ps (lookup-Some id i m l)
  where
    from_Some : (m : Map ℕ) → All (λ p. p.1 ≢ k) m → Some (λ p. p.1 ≡ i) m → i ≢ k
    from_Some [] ps s = absurd s
    from_Some (p ∷ m) ps (inl e) = subst (λ n. n ≢ k) e ps.0
    from_Some (p ∷ m) ps (inr s) = from_Some m ps.1 s

pub fail_listed-other :
    (e : Fault) (m : Map ℕ) (js : List Job) (k : ℕ)
    → All (λ p. p.1 ≢ k) m
    → get_elem? (fail_listed e m js) k ≡ get_elem? js k
unfolding fail_listed
fail_listed-other e [] js k ps = refl
fail_listed-other e ((id, i) ∷ m) js k ps =
    fail_listed-other e m (update i (on_waiter (fail e)) js) k ps.1
    ∙ update-other i (on_waiter (fail e)) js k ps.0

module _ (P : Call → Type 0) where
  pub erase_idx-All : (cs : List Call) (n : ℕ) → All P cs → All P (erase_idx cs n)
  erase_idx-All [] n ps = ps
  erase_idx-All (x ∷ cs) zero ps = ps.1
  erase_idx-All (x ∷ cs) (suc n) ps = (ps.0, erase_idx-All cs n ps.1)

  pub erase_idx-Some :
      (cs : List Call) (n : ℕ) (c : Call)
      → get_elem? cs n ≡ some c
      → (P c → ⊥)
      → Some P cs
      → Some P (erase_idx cs n)
  erase_idx-Some [] n c h not_c s = cc
  erase_idx-Some (x ∷ cs) zero c h not_c (inl p) = absurd (not_c (subst P (some-injective _ _ h) p))
  erase_idx-Some (x ∷ cs) zero c h not_c (inr s) = s
  erase_idx-Some (x ∷ cs) (suc n) c h not_c (inl p) = inl p
  erase_idx-Some (x ∷ cs) (suc n) c h not_c (inr s) = inr (erase_idx-Some cs n c h not_c s)

  pub Some-left : (cs ds : List Call) → Some P cs → Some P (cs ++ ds)
  Some-left [] ds s = absurd s
  Some-left (x ∷ cs) ds (inl p) = inl p
  Some-left (x ∷ cs) ds (inr s) = inr (Some-left cs ds s)

  pub All-at : (cs : List Call) (n : ℕ) (c : Call) → All P cs → get_elem? cs n ≡ some c → P c
  All-at [] n c ps h = cc
  All-at (x ∷ cs) zero c ps h = subst P (some-injective _ _ h) ps.0
  All-at (x ∷ cs) (suc n) c ps h = All-at cs n c ps.1 h
