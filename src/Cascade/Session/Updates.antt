-- ===== src/Cascade/Session/Updates.antt =====
-- What the operations of a session leave of the jobs in its list.
use mathlib.Core.Option.{some-injective}
use oh_my_api.Base.{
  ℕ, zero, suc, ◌≡◌, ◌≢◌, refl, sym, ap, subst, ◌∙◌, ◌⊎◌, inl, inr, true, false, Option, none, some,
  List, [], ◌∷◌, ◌++◌, Text, is_some, get_elem?, length, All, Some, Map, lookup, arith, text_eq,
  Bool-cases,
}
use oh_my_api.Cascade.Waiter.{
  Fault, JobWaiter, finish_locked, fail, append_locked, write_chunk, finish_chunk, Pipe, no_pipe,
  open_pipe, closed_pipe, close_pipe, first_fault, is_open,
}
use oh_my_api.Cascade.Session.{
  Job, Call, failing, appending, writing, finishing, update, on_waiter, fail_listed, call_waiter,
}

pub update-get :
    (k : ℕ) (f : Job → Job) (js : List Job) (i : ℕ) (j : Job)
    → get_elem? (update k f js) i ≡ some j
    → (a : Job) × (get_elem? js i ≡ some a) × (((k ≡ i) × (j ≡ f a)) ⊎ ((k ≢ i) × (j ≡ a)))
update-get k f [] i j h = cc
update-get zero f (x ∷ js) zero j h = (x, refl, inl (refl, sym (some-injective _ _ h)))
update-get zero f (x ∷ js) (suc i) j h = (j, h, inr (λ e. omega (arith, e), refl))
update-get (suc k) f (x ∷ js) zero j h =
    (x, refl, inr (λ e. omega (arith, e), sym (some-injective _ _ h)))
update-get (suc k) f (x ∷ js) (suc i) j h =
    let (a, g, c) = update-get k f js i j h in
    (
      a,
      g,
      elim c [ inl p ↦ inl (ap suc p.0, p.1) | inr p ↦ inr (λ e. p.0 (omega (arith, e)), p.1) ],
    )

pub append-get :
    (js : List Job) (y : Job) (i : ℕ) (j : Job)
    → get_elem? (js ++ (y ∷ [])) i ≡ some j
    → (get_elem? js i ≡ some j) ⊎ ((length js ≡ i) × (y ≡ j))
append-get [] y zero j h = inr (refl, some-injective _ _ h)
append-get [] y (suc i) j h = cc
append-get (x ∷ js) y zero j h = inl h
append-get (x ∷ js) y (suc i) j h = elim (append-get js y i j h) [
  | inl g ↦ inl g
  | inr p ↦ inr (ap suc p.0, p.1)
]

pub All-get :
    (P : Job → Type 0) (js : List Job) (i : ℕ) (j : Job) → All P js → get_elem? js i ≡ some j → P j
All-get P [] i j ps h = cc
All-get P (x ∷ js) zero j ps h = subst P (some-injective _ _ h) ps.0
All-get P (x ∷ js) (suc i) j ps h = All-get P js i j ps.1 h

-- The pipe of a waiter that is done has been closed.
abbrev pub IsSettled : JobWaiter → Type 0
IsSettled w = w.done ≡ true → is_open w.pipe ≡ false

-- The job at an index of a list comes from the one at this index of another.
pub record Comes (js : List Job) (i : ℕ) (j : Job) : Type 0 where
  pub before : Job
  pub there : get_elem? js i ≡ some before
  pub same_id : before.id ≡ j.id
  pub same_phase : before.phase ≡ j.phase
  pub still_done : before.waiter.done ≡ true → j.waiter.done ≡ true
  pub still_settled : IsSettled before.waiter → IsSettled j.waiter

finish_locked-done : (e : Option Fault) (w : JobWaiter) → (finish_locked e w).done ≡ true
unfolding finish_locked
finish_locked-done e w = ground arith

pub call_waiter-done : (c : Call) (w : JobWaiter) → w.done ≡ true → (call_waiter c w).done ≡ true
unfolding fail append_locked write_chunk finish_chunk finish_locked
call_waiter-done (failing k e) w d = ground (arith, d)
call_waiter-done (appending k c) w d = ground (arith, d)
call_waiter-done (writing k c) w d = ground (arith, d)
call_waiter-done (finishing k) w d = ground (arith, d)

is_open-close_pipe : (e : Option Fault) (p : Pipe) → is_open (close_pipe e p) ≡ false
is_open-close_pipe e no_pipe = refl
is_open-close_pipe e open_pipe = refl
is_open-close_pipe e (closed_pipe e') = refl

finish_locked-IsSettled :
    (e : Option Fault) (w : JobWaiter) → IsSettled w → IsSettled (finish_locked e w)
unfolding finish_locked
finish_locked-IsSettled e w h d =
    ground (arith, h, d, is_open-close_pipe (first_fault w.err e) w.pipe)

pub call_waiter-IsSettled : (c : Call) (w : JobWaiter) → IsSettled w → IsSettled (call_waiter c w)
unfolding fail append_locked write_chunk finish_chunk
call_waiter-IsSettled (failing k e) w h d = finish_locked-IsSettled (some e) w h d
call_waiter-IsSettled (appending k c) w h d = ground (arith, h, d)
call_waiter-IsSettled (writing k c) w h d = ground (arith, h, d)
call_waiter-IsSettled (finishing k) w h d = elim (Bool-cases (is_some w.err)) [
  | inl e ↦ rw e (h (rw e at d))
  | inr e ↦ rw e (finish_locked-IsSettled none w h (rw e at d))
]

pub on_waiter-Comes :
    (k : ℕ) (f : JobWaiter → JobWaiter)
    → ((w : JobWaiter) → w.done ≡ true → (f w).done ≡ true)
    → ((w : JobWaiter) → IsSettled w → IsSettled (f w))
    → (js : List Job) (i : ℕ) (j : Job) → get_elem? (update k (on_waiter f) js) i ≡ some j
    → Comes js i j
on_waiter-Comes k f keeps settles js i j h =
    let (a, g, c) = update-get k (on_waiter f) js i j h in
    elim c [
      | inl p ↦ record {
        before = a;
        there = g;
        same_id = sym (ap (λ x. x.id) p.1);
        same_phase = sym (ap (λ x. x.phase) p.1);
        still_done = λ d. ap (λ x. x.waiter.done) p.1 ∙ keeps a.waiter d;
        still_settled = λ d. subst (λ x. IsSettled x.waiter) (sym p.1) (settles a.waiter d);
      }
      | inr p ↦ record {
        before = a;
        there = g;
        same_id = sym (ap (λ x. x.id) p.1);
        same_phase = sym (ap (λ x. x.phase) p.1);
        still_done = λ d. ap (λ x. x.waiter.done) p.1 ∙ d;
        still_settled = λ d. subst (λ x. IsSettled x.waiter) (sym p.1) d;
      }
    ]

pub same-Comes : (js : List Job) (i : ℕ) (j : Job) → get_elem? js i ≡ some j → Comes js i j
same-Comes js i j h = record {
  before = j;
  there = h;
  same_id = refl;
  same_phase = refl;
  still_done = λ d. d;
  still_settled = λ d. d;
}

pub trans-Comes :
    {js : List Job} {ks : List Job} {i : ℕ} {j : Job}
    → ((b : Job) → get_elem? ks i ≡ some b → Comes js i b)
    → Comes ks i j
    → Comes js i j
trans-Comes f c =
    let b = f c.before c.there in
    record {
      before = b.before;
      there = b.there;
      same_id = b.same_id ∙ c.same_id;
      same_phase = b.same_phase ∙ c.same_phase;
      still_done = λ d. c.still_done (b.still_done d);
      still_settled = λ d. c.still_settled (b.still_settled d);
    }

fail-done : (e : Fault) (w : JobWaiter) → w.done ≡ true → (fail e w).done ≡ true
unfolding fail
fail-done e w d = finish_locked-done (some e) w

fail-IsSettled : (e : Fault) (w : JobWaiter) → IsSettled w → IsSettled (fail e w)
unfolding fail
fail-IsSettled e w h = finish_locked-IsSettled (some e) w h

updated-done :
    (e : Fault) (k : ℕ) (js : List Job) (i : ℕ) (j : Job)
    → k ≡ i
    → get_elem? (update k (on_waiter (fail e)) js) i ≡ some j
    → j.waiter.done ≡ true
unfolding fail
updated-done e k js i j same h =
    let (a, g, c) = update-get k (on_waiter (fail e)) js i j h in
    elim c [
      | inl p ↦ ap (λ x. x.waiter.done) p.1 ∙ finish_locked-done (some e) a.waiter
      | inr p ↦ absurd (p.0 same)
    ]

pub fail_listed-Comes :
    (e : Fault) (m : Map ℕ) (js : List Job) (i : ℕ) (j : Job)
    → get_elem? (fail_listed e m js) i ≡ some j
    → Comes js i j × (Some (λ p. p.1 ≡ i) m → j.waiter.done ≡ true)
unfolding fail_listed
fail_listed-Comes e [] js i j h = (same-Comes js i j h, λ s. absurd s)
fail_listed-Comes e ((id, k) ∷ m) js i j h =
    let (c, d) = fail_listed-Comes e m (update k (on_waiter (fail e)) js) i j h in
    (
      trans-Comes (on_waiter-Comes k (fail e) (fail-done e) (fail-IsSettled e) js i) c,
      λ s. elim s [
        | inl same ↦ c.still_done (updated-done e k js i c.before same c.there)
        | inr later ↦ d later
      ],
    )

pub lookup-Some : (id : Text) (k : ℕ) (m : Map ℕ) → lookup id m ≡ some k → Some (λ p. p.1 ≡ k) m
unfolding lookup
lookup-Some id k [] h = cc
lookup-Some id k ((i, n) ∷ m) h = elim (Bool-cases (text_eq i id)) [
  | inl e ↦ inl (some-injective _ _ (rw e at h))
  | inr e ↦ inr (lookup-Some id k m (rw e at h))
]
