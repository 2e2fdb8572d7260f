-- ===== src/Cascade/Session/Kept.antt =====
-- What a session keeps: where its waiting jobs are.
use oh_my_api.Base.{
  ℕ, ◌≡◌, ◌≢◌, refl, sym, ap, subst, ◌∙◌, inl, inr, Bool, true, false, Option, some, List, Text,
  is_some, get_elem?, Map, lookup, delete, text_eq, text_eq_iff, lookup-delete, Bool-cases,
}
use oh_my_api.Cascade.Session.{Phase, begun, over, Job, Call, Session, update, in_phase, end_job}
use oh_my_api.Cascade.Session.Updates.{update-get, Comes, IsSettled}

-- A job that waits is in the map of a session that has not failed its jobs yet, or it has not been
-- sent and never will be.
pub data Safe (closed swept : Bool) (jobs : Map ℕ) (k : ℕ) (j : Job) : Type 0 where
  unsent : j.phase ≡ begun → closed ≡ true → Safe closed swept jobs k j
  live : lookup j.id jobs ≡ some k → swept ≡ false → Safe closed swept jobs k j
  finished : j.waiter.done ≡ true → Safe closed swept jobs k j
  left : j.phase ≡ over → Safe closed swept jobs k j

-- No two jobs have the same id.
abbrev pub AreDistinct : List Job → Type 0
AreDistinct js =
    (i k : ℕ) (a b : Job) → get_elem? js i ≡ some a → get_elem? js k ≡ some b → a.id ≡ b.id → i ≡ k

pub record IsKept (s : Session) : Type 0 where
  pub swept_closed : s.swept ≡ true → s.closed ≡ true
  pub sweeping_closed : is_some s.sweeping ≡ true → s.closed ≡ true
  pub distinct : AreDistinct s.all
  pub safe : (k : ℕ) (j : Job) → get_elem? s.all k ≡ some j → Safe s.closed s.swept s.jobs k j
  pub settled : (k : ℕ) (j : Job) → get_elem? s.all k ≡ some j → IsSettled j.waiter

-- A job that keeps its id and its phase stays safe where the map stays.
pub moved-Safe :
    {closed closed' swept : Bool} {jobs : Map ℕ} {js : List Job} (k : ℕ) (j : Job)
    → (closed ≡ true → closed' ≡ true)
    → (c : Comes js k j) → Safe closed swept jobs k c.before
    → Safe closed' swept jobs k j
moved-Safe k j cl c (unsent p d) = unsent (sym c.same_phase ∙ p) (cl d)
moved-Safe {jobs = jobs} k j cl c (live r n) =
    live (subst (λ i. lookup i jobs ≡ some k) c.same_id r) n
moved-Safe k j cl c (finished d) = finished (c.still_done d)
moved-Safe k j cl c (left p) = left (sym c.same_phase ∙ p)

pub moved-AreDistinct :
    (js ks : List Job)
    → AreDistinct js
    → ((i : ℕ) (j : Job)
        → get_elem? ks i ≡ some j
        → (a : Job) × (get_elem? js i ≡ some a) × (a.id ≡ j.id))
    → AreDistinct ks
moved-AreDistinct js ks distinct from i k a b g h same =
    let (a', g', e) = from i a g in
    let (b', h', f) = from k b h in distinct i k a' b' g' h' (e ∙ same ∙ sym f)

-- A step after which all jobs come from before, and the map is the same.
pub quiet-IsKept :
    (s : Session) (closed : Bool) (sweeping : Option Text) (js : List Job) (calls : List Call)
    → (s.closed ≡ true → closed ≡ true)
    → (is_some sweeping ≡ true → closed ≡ true)
    → ((i : ℕ) (j : Job) → get_elem? js i ≡ some j → Comes s.all i j)
    → IsKept s
    → IsKept (record s { closed = closed; sweeping = sweeping; all = js; calls = calls })
quiet-IsKept s closed sweeping js calls cl sc from kept = record {
  swept_closed = λ e. cl (kept.swept_closed e);
  sweeping_closed = sc;
  distinct =
      moved-AreDistinct s.all _ kept.distinct
        (λ i j g. let c = from i j g in (c.before, c.there, c.same_id));
  safe = λ k j g. let c = from k j g in moved-Safe k j cl c (kept.safe k c.before c.there);
  settled = λ k j g. let c = from k j g in c.still_settled (kept.settled k c.before c.there);
}

-- A step that moves one job to another phase and changes the map.
pub phase-IsKept :
    (s : Session) (k : ℕ) (p : Phase) (m : Map ℕ)
    → ((i : ℕ) (a : Job)
        → get_elem? s.all i ≡ some a
        → k ≢ i
        → Safe s.closed s.swept s.jobs i a
        → Safe s.closed s.swept m i a)
    → ((a : Job) → get_elem? s.all k ≡ some a → Safe s.closed s.swept m k (in_phase p a))
    → IsKept s
    → IsKept (record s { jobs = m; all = update k (in_phase p) s.all })
phase-IsKept s k p m others one kept = record {
  swept_closed = kept.swept_closed;
  sweeping_closed = kept.sweeping_closed;
  distinct = moved-AreDistinct s.all _ kept.distinct (λ i j g.
      let (a, h, c) = update-get k (in_phase p) s.all i j g in
      (a, h, elim c [ inl e ↦ sym (ap (λ x. x.id) e.1) | inr e ↦ sym (ap (λ x. x.id) e.1) ]));
  safe = λ i j g.
      let (a, h, c) = update-get k (in_phase p) s.all i j g in
      elim c [
        | inl e ↦ subst (Safe s.closed s.swept m i) (sym e.1) (
            subst (λ n. Safe s.closed s.swept m n (in_phase p a)) e.0
              (one a (subst (λ n. get_elem? s.all n ≡ some a) (sym e.0) h)))
        | inr e ↦ subst (Safe s.closed s.swept m i) (sym e.1) (others i a h e.0 (kept.safe i a h))
      ];
  settled = λ i j g.
      let (a, h, c) = update-get k (in_phase p) s.all i j g in
      elim c [
        | inl e ↦ subst (λ x. IsSettled x.waiter) (sym e.1) (kept.settled i a h)
        | inr e ↦ subst (λ x. IsSettled x.waiter) (sym e.1) (kept.settled i a h)
      ];
}

-- The entry of another id stays.
pub other-Safe :
    (closed swept : Bool) (jobs : Map ℕ) (m : Map ℕ) (i : ℕ) (a : Job)
    → lookup a.id m ≡ lookup a.id jobs
    → Safe closed swept jobs i a
    → Safe closed swept m i a
other-Safe closed swept jobs m i a e (unsent p d) = unsent p d
other-Safe closed swept jobs m i a e (live r n) = live (e ∙ r) n
other-Safe closed swept jobs m i a e (finished d) = finished d
other-Safe closed swept jobs m i a e (left p) = left p

pub end-IsKept :
    (s : Session) (k : ℕ) (j : Job) → get_elem? s.all k ≡ some j → IsKept s → IsKept (end_job k j s)
unfolding end_job
end-IsKept s k j g kept =
    phase-IsKept s k over (delete j.id s.jobs)
      (λ i a h ne.
        other-Safe s.closed s.swept s.jobs (delete j.id s.jobs) i a (kept_entry i a h ne))
      (λ a h. left refl) kept
  where
    kept_entry :
        (i : ℕ) (a : Job)
        → get_elem? s.all i ≡ some a
        → k ≢ i
        → lookup a.id (delete j.id s.jobs) ≡ lookup a.id s.jobs
    kept_entry i a h ne = elim (Bool-cases (text_eq j.id a.id)) [
      | inl e ↦ absurd (ne (kept.distinct k i j a g h ((text_eq_iff j.id a.id).0 e)))
      | inr e ↦ rw (lookup-delete, e) refl
    ]
