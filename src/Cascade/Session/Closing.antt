-- ===== src/Cascade/Session/Closing.antt =====
-- What the close of a session does to its jobs.
use mathlib.Core.Option.{some-injective}
use oh_my_api.Base.{
  not_both, ℕ, ◌≡◌, ◌≢◌, refl, sym, ap, subst, ◌∙◌, ◌⊎◌, inl, inr, Bool, true, false, Option, none,
  some, [], ◌∷◌, ◌++◌, Text, get_elem?, length, All, Some, Map, lookup, insert, text_eq,
  text_eq_iff, lookup-insert, lookup-insert_self, Bool-cases,
}
use oh_my_api.Cascade.Waiter.{
  Fault, session_closed, JobWaiter, new_job_waiter, wait, wait_done, is_open,
}
use oh_my_api.Cascade.Session.{
  Phase, begun, sent, streaming, over, Job, Session, new_session, update, on_waiter, in_phase,
  begin_job, end_job, fail_all_jobs, call_waiter, call_index, Step, begin, send, leave,
  return_stream, close_body, look_up, call, close, sweep, Steps, here, next,
}
use oh_my_api.Cascade.Session.Updates.{
  append-get, All-get, Comes, IsSettled, call_waiter-done, call_waiter-IsSettled, on_waiter-Comes,
  same-Comes, fail_listed-Comes, lookup-Some,
}
use oh_my_api.Cascade.Session.Kept.{
  Safe, unsent, live, finished, left, IsKept, moved-AreDistinct, quiet-IsKept, phase-IsKept,
  other-Safe, end-IsKept,
}

new-Safe :
    (closed swept : Bool) (m : Map ℕ) (k : ℕ) (j : Job)
    → (swept ≡ true → closed ≡ true)
    → j.phase ≡ begun
    → lookup j.id m ≡ some k
    → Safe closed swept m k j
new-Safe closed true m k j cl p l = unsent p (cl refl)
new-Safe closed false m k j cl p l = live l refl

begin-IsKept :
    (s : Session) (id : Text) (stream : Bool)
    → All (λ j. j.id ≢ id) s.all
    → IsKept s
    → IsKept (begin_job id stream s)
unfolding begin_job new_job_waiter
begin-IsKept s id stream fresh kept = record {
  swept_closed = kept.swept_closed;
  sweeping_closed = kept.sweeping_closed;
  distinct = λ i k a b g h e. elim (append-get s.all new i a g) [
    | inl g' ↦ elim (append-get s.all new k b h) [
      | inl h' ↦ kept.distinct i k a b g' h' e
      | inr q ↦ absurd (is_new i a g' (e ∙ ap (λ x. x.id) (sym q.1)))
    ]
    | inr p ↦ elim (append-get s.all new k b h) [
      | inl h' ↦ absurd (is_new k b h' (sym e ∙ ap (λ x. x.id) (sym p.1)))
      | inr q ↦ sym p.0 ∙ q.0
    ]
  ];
  safe = λ i a g. elim (append-get s.all new i a g) [
    | inl g' ↦ other-Safe s.closed s.swept s.jobs m i a (old_entry i a g') (kept.safe i a g')
    | inr p ↦
        subst (λ n. Safe s.closed s.swept m n a) p.0
          (subst (Safe s.closed s.swept m (length s.all)) p.1 (
            new-Safe s.closed s.swept m (length s.all) new kept.swept_closed refl
              (lookup-insert_self id (length s.all) s.jobs)))
  ];
  settled = λ i a g. elim (append-get s.all new i a g) [
    | inl g' ↦ kept.settled i a g'
    | inr p ↦ subst (λ x. IsSettled x.waiter) p.1 new_settled
  ];
}
  where
    new : Job
    new = record { id = id; waiter = new_job_waiter stream; phase = begun }

    m : Map ℕ
    m = insert id (length s.all) s.jobs

    is_new : (i : ℕ) (a : Job) → get_elem? s.all i ≡ some a → a.id ≢ id
    is_new i a g = All-get (λ j. j.id ≢ id) s.all i a fresh g

    old_entry : (i : ℕ) (a : Job) → get_elem? s.all i ≡ some a → lookup a.id m ≡ lookup a.id s.jobs
    old_entry i a g = elim (Bool-cases (text_eq id a.id)) [
      | inl e ↦ absurd (is_new i a g (sym ((text_eq_iff id a.id).0 e)))
      | inr e ↦ rw (lookup-insert, e) refl
    ]

    new_settled : IsSettled (new_job_waiter stream)
    new_settled d = absurd (not_both false d refl)

sweep-IsKept :
    (s : Session) (e : Fault)
    → s.closed ≡ true
    → IsKept s
    → IsKept (record (fail_all_jobs e s) { sweeping = none; swept = true })
unfolding fail_all_jobs
sweep-IsKept s e cl kept = record {
  swept_closed = λ h. cl;
  sweeping_closed = λ h. cl;
  distinct = moved-AreDistinct s.all _ kept.distinct (λ i j g.
      let c = (fail_listed-Comes e s.jobs s.all i j g).0 in (c.before, c.there, c.same_id));
  safe = λ k j g.
      let (c, d) = fail_listed-Comes e s.jobs s.all k j g in
      swept_safe k j c d (kept.safe k c.before c.there);
  settled = λ k j g.
      let c = (fail_listed-Comes e s.jobs s.all k j g).0 in
      c.still_settled (kept.settled k c.before c.there);
}
  where
    swept_safe :
        (k : ℕ) (j : Job) (c : Comes s.all k j)
        → (Some (λ p. p.1 ≡ k) s.jobs → j.waiter.done ≡ true)
        → Safe s.closed s.swept s.jobs k c.before
        → Safe s.closed true [] k j
    swept_safe k j c d (unsent p h) = unsent (sym c.same_phase ∙ p) h
    swept_safe k j c d (live r n) = finished (d (lookup-Some c.before.id k s.jobs r))
    swept_safe k j c d (finished h) = finished (c.still_done h)
    swept_safe k j c d (left p) = left (sym c.same_phase ∙ p)

sent-Safe :
    (closed swept : Bool) (m : Map ℕ) (k : ℕ) (p : Phase) (j : Job)
    → (j.phase ≡ begun → closed ≡ true → Safe closed swept m k (in_phase p j))
    → j.phase ≢ over
    → Safe closed swept m k j
    → Safe closed swept m k (in_phase p j)
sent-Safe closed swept m k p j u o (unsent b d) = u b d
sent-Safe closed swept m k p j u o (live r n) = live r n
sent-Safe closed swept m k p j u o (finished d) = finished d
sent-Safe closed swept m k p j u o (left e) = absurd (o e)

same_job : {o : Option Job} {a j : Job} (P : Job → Type 0) → o ≡ some j → o ≡ some a → P j → P a
same_job P g h = subst P (some-injective _ _ (sym g ∙ h))

begun_over : (p : Phase) → p ≡ begun → p ≢ over
begun_over p e o = cc

sent_over : (p : Phase) → p ≡ sent → p ≢ over
sent_over p e o = cc

sent-begun : (p : Phase) → p ≡ sent → p ≢ begun
sent-begun p e o = cc

Step-IsKept : {s u : Session} → Step s u → IsKept s → IsKept u
Step-IsKept (begin id stream fresh e) kept =
    subst IsKept (sym e) (begin-IsKept _ id stream fresh kept)
Step-IsKept {s} {u} (send k j g p c e) kept = subst IsKept (sym e) (
    phase-IsKept s k sent s.jobs (λ i a h ne safe. safe)
      (λ a h.
        sent-Safe s.closed s.swept s.jobs k sent a (λ b d. absurd (not_both s.closed d c))
          (same_job (λ x. x.phase ≢ over) g h (begun_over j.phase p)) (kept.safe k a h))
      kept)
Step-IsKept (leave k j g p e) kept = subst IsKept (sym e) (end-IsKept _ k j g kept)
Step-IsKept {s} {u} (return_stream k j g p st r b e) kept = subst IsKept (sym e) (
    phase-IsKept s k streaming s.jobs (λ i a h ne safe. safe)
      (λ a h.
        sent-Safe s.closed s.swept s.jobs k streaming a
          (λ b d. absurd (same_job (λ x. x.phase ≢ begun) g h (sent-begun j.phase p) b))
          (same_job (λ x. x.phase ≢ over) g h (sent_over j.phase p)) (kept.safe k a h))
      kept)
Step-IsKept {s} {u} (close_body k j g p e) kept =
    let t : Session = end_job k j s in
    let f : JobWaiter → JobWaiter = λ w. record w { reader_closed = true } in
    let kept' : IsKept t = end-IsKept s k j g kept in
    subst IsKept (sym e) (
      quiet-IsKept t t.closed t.sweeping (update k (on_waiter f) t.all) t.calls (λ c. c)
        kept'.sweeping_closed (on_waiter-Comes k f (λ w d. d) (λ w h. h) t.all) kept')
Step-IsKept {s} {u} (look_up id k c l i en e) kept = subst IsKept (sym e) (
    quiet-IsKept s s.closed s.sweeping s.all (s.calls ++ (c ∷ [])) (λ x. x) kept.sweeping_closed
      (same-Comes s.all) kept)
Step-IsKept {s} {u} (call n c j g h r e) kept = subst IsKept (sym e) (
    quiet-IsKept s s.closed s.sweeping _ _ (λ x. x) kept.sweeping_closed
      (on_waiter-Comes (call_index c) (call_waiter c) (call_waiter-done c) (call_waiter-IsSettled c)
        s.all)
      kept)
Step-IsKept {s} {u} (close reason c e) kept = subst IsKept (sym e) (
    quiet-IsKept s true (some reason) s.all s.calls (λ x. refl) (λ x. refl) (same-Comes s.all) kept)
Step-IsKept {s} {u} (sweep reason sw e) kept =
    subst IsKept (sym e)
      (sweep-IsKept s (session_closed reason) (kept.sweeping_closed (rw sw refl)) kept)

new-IsKept : IsKept new_session
unfolding new_session
new-IsKept = record {
  swept_closed = λ e. e;
  sweeping_closed = λ e. e;
  distinct = λ i k a b g h e. cc;
  safe = λ k j g. cc;
  settled = λ k j g. cc;
}

Steps-IsKept : {u : Session} → Steps new_session u → IsKept u
Steps-IsKept here = new-IsKept
Steps-IsKept (next ss st) = Step-IsKept st (Steps-IsKept ss)

-- The answer that a job waits for has come, and a stream has its end.
abbrev pub IsAnswered : JobWaiter → Type 0
IsAnswered w = ((r : Fault ⊎ Text) × (wait none w ≡ some r)) × (is_open w.pipe ≡ false)

wait-done : (w : JobWaiter) → w.done ≡ true → (r : Fault ⊎ Text) × (wait none w ≡ some r)
unfolding wait
wait-done w d = (wait_done w.err w.buf, rw d refl)

unsent_not : (p : Phase) → p ≡ begun → (p ≡ sent) ⊎ (p ≡ streaming) → ⊥
unsent_not p b (inl e) = cc
unsent_not p b (inr e) = cc

left_not : (p : Phase) → p ≡ over → (p ≡ sent) ⊎ (p ≡ streaming) → ⊥
left_not p b (inl e) = cc
left_not p b (inr e) = cc

-- In every run of a session, once the session has been closed and the close has failed all jobs, no
-- job is left that waits: a job that has been sent, and that its request has not left, has its
-- answer, an error or a body, and the pipe of a stream has been closed.
pub closed_session-answers :
    {s : Session} (k : ℕ) (j : Job)
    → Steps new_session s
    → s.swept ≡ true
    → get_elem? s.all k ≡ some j
    → (j.phase ≡ sent) ⊎ (j.phase ≡ streaming)
    → IsAnswered j.waiter
closed_session-answers {s} k j ss sw g p =
    let kept : IsKept s = Steps-IsKept ss in
    elim (kept.safe k j g) [
      | unsent b c ↦ absurd (unsent_not j.phase b p)
      | live r n ↦ absurd (not_both s.swept sw n)
      | finished d ↦ (wait-done j.waiter d, kept.settled k j g d)
      | left o ↦ absurd (left_not j.phase o p)
    ]
