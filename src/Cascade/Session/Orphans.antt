-- ===== src/Cascade/Session/Orphans.antt =====
-- What happens to a chunk whose reader has gone: ExecuteJob has left a stream before its body was
-- returned, while appendChunk was about to write to the pipe.
use mathlib.Core.Option.{some-injective}
use oh_my_api.Base.{
  not_both, ℕ, ◌≡◌, ◌≢◌, refl, sym, ap, subst, ◌∙◌, inl, inr, Bool, true, false, none, some, [],
  ◌∷◌, ◌++◌, Text, get_elem?, erase_idx, length, All, Some, lookup, Bool-cases, All-append,
  if◌then◌else◌, ◌&&◌, ==_iff, ◌==◌,
}
use oh_my_api.Cascade.Waiter.{
  Fault, session_closed, JobWaiter, Chunk, is_open, append_locked, to_pipe, is_nonempty,
  new_job_waiter,
}
use oh_my_api.Cascade.Session.{
  Phase, begun, sent, streaming, over, Job, Call, failing, appending, writing, finishing, Session,
  update, on_waiter, in_phase, begin_job, end_job, fail_all_jobs, call_next, call_index, CanGoOn,
  run_call, at_waiter, call_waiter, Step, begin, send, leave, return_stream, close_body, look_up,
  call, close, sweep, Steps, here, next,
}
use oh_my_api.Cascade.Session.Entries.{
  get-append, update-other, insert-All, delete-All, lookup-other, fail_listed-other, erase_idx-All,
  erase_idx-Some, Some-left, All-at,
}

-- The job has been left, nothing has ended its waiter or closed its pipe.
pub record IsAbandoned (j : Job) : Type 0 where
  pub phase_over : j.phase ≡ over
  pub no_err : j.waiter.err ≡ none
  pub not_done : j.waiter.done ≡ false
  pub open_pipe : is_open j.waiter.pipe ≡ true
  pub reader_open : j.waiter.reader_closed ≡ false

-- Of the calls on the waiter at `k` there is only the write of `c`.
abbrev pub Only : ℕ → Chunk → Call → Type 0
Only k c x = call_index x ≡ k → x ≡ writing k c

-- The abandoned job at index `k` is not in the map, and the only call on it is the write of `c`.
pub record IsStuck (k : ℕ) (c : Chunk) (s : Session) : Type 0 where
  pub job : Job
  pub there : get_elem? s.all k ≡ some job
  pub abandoned : IsAbandoned job
  pub unlisted : All (λ p. p.1 ≢ k) s.jobs
  pub only : All (Only k c) s.calls
  pub pending : Some (λ x. x ≡ writing k c) s.calls

-- What follows a call is a call on the same waiter.
module _ (k : ℕ) (d : Chunk) where
  when-Only : (b : Bool) (x : Call) → call_index x ≢ k → All (Only k d) (if b then x ∷ [] else [])
  when-Only true x n = ((λ e. absurd (n e)), tt)
  when-Only false x n = tt

  call_next-Only : (c : Call) (w : JobWaiter) → call_index c ≢ k → All (Only k d) (call_next c w)
  call_next-Only (failing i e) w n = tt
  call_next-Only (appending i c) w n = elim (Bool-cases (append_locked c w).1) [
    | inl e ↦ elim (Bool-cases (to_pipe c w && is_nonempty c.chunk)) [
      | inl f ↦ rw (e, f) (when-Only true (writing i c) n)
      | inr f ↦ rw (e, f) (when-Only c.final (finishing i) n)
    ]
    | inr e ↦ rw e tt
  ]
  call_next-Only (writing i c) w n = when-Only c.final (finishing i) n
  call_next-Only (finishing i) w n = tt

-- A call that can go on is not the write to an abandoned job.
cannot_go_on : (k : ℕ) (c : Chunk) (j : Job) → IsAbandoned j → CanGoOn (writing k c) j → ⊥
cannot_go_on k c j a (inl e) = cc
cannot_go_on k c j a (inr (inl e)) = cc
cannot_go_on k c j a (inr (inr (inl e))) = cc
cannot_go_on k c j a (inr (inr (inr e))) = cc

-- A step that leaves the abandoned job and the write to it alone.
moved-IsStuck :
    {k : ℕ} {c : Chunk} {s : Session} (t : IsStuck k c s) (u : Session)
    → get_elem? u.all k ≡ get_elem? s.all k
    → All (λ p. p.1 ≢ k) u.jobs
    → All (Only k c) u.calls
    → Some (λ x. x ≡ writing k c) u.calls
    → IsStuck k c u
moved-IsStuck t u g l o p = record {
  job = t.job;
  there = g ∙ t.there;
  abandoned = t.abandoned;
  unlisted = l;
  only = o;
  pending = p;
}

-- A job that has not been left is another one.
is_other :
    {k : ℕ} {c : Chunk} {s : Session} (t : IsStuck k c s) (i : ℕ) (a : Job)
    → get_elem? s.all i ≡ some a
    → (a.phase ≡ over → ⊥)
    → i ≢ k
is_other {k} {c} {s} t i a h n e = n (
    ap (λ x. x.phase)
      (some-injective a t.job (sym h ∙ subst (λ m. get_elem? s.all m ≡ some t.job) (sym e) t.there))
    ∙ t.abandoned.phase_over)

begun_not_over : (p : Phase) → p ≡ begun → p ≡ over → ⊥
begun_not_over p e o = cc

sent_not_over : (p : Phase) → p ≡ sent → p ≡ over → ⊥
sent_not_over p e o = cc

streaming_not_over : (p : Phase) → p ≡ streaming → p ≡ over → ⊥
streaming_not_over p e o = cc

-- A step that moves another job to a phase.
phase-IsStuck :
    {k : ℕ} {c : Chunk} {s : Session} (t : IsStuck k c s) (i : ℕ) (p : Phase)
    → i ≢ k
    → IsStuck k c (record s { all = update i (in_phase p) s.all })
phase-IsStuck {k} {c} {s} t i p n =
    moved-IsStuck t (record s { all = update i (in_phase p) s.all })
      (update-other i (in_phase p) s.all k n) t.unlisted t.only t.pending

end-IsStuck :
    {k : ℕ} {c : Chunk} {s : Session} (t : IsStuck k c s) (i : ℕ) (j : Job)
    → i ≢ k
    → IsStuck k c (end_job i j s)
unfolding end_job
end-IsStuck {k} {c} {s} t i j n =
    moved-IsStuck t (end_job i j s) (update-other i (in_phase over) s.all k n)
      (delete-All j.id k s.jobs t.unlisted) t.only t.pending

begin-IsStuck :
    {k : ℕ} {c : Chunk} {s : Session} (t : IsStuck k c s) (id : Text) (stream : Bool)
    → IsStuck k c (begin_job id stream s)
unfolding begin_job
begin-IsStuck {k} {c} {s} t id stream =
    let (g, n) =
      get-append s.all (record { id = id; waiter = new_job_waiter stream; phase = begun }) k t.job
        t.there in
    moved-IsStuck t (begin_job id stream s) (g ∙ sym t.there)
      (insert-All id (length s.all) k s.jobs n t.unlisted) t.only t.pending

-- A call on another waiter.
other_call-IsStuck :
    {k : ℕ} {c : Chunk} {s : Session} (t : IsStuck k c s) (n : ℕ) (x : Call) (j : Job)
    → get_elem? s.calls n ≡ some x
    → call_index x ≢ k
    → IsStuck k c (run_call n x j s)
other_call-IsStuck {k} {c} {s} t n x j g ne =
    moved-IsStuck t (run_call n x j s)
      (update-other (call_index x) (on_waiter (call_waiter x)) s.all k ne) t.unlisted
      (All-append (Only k c) (erase_idx s.calls n) (call_next x j.waiter)
        (erase_idx-All (Only k c) s.calls n t.only) (call_next-Only k c x j.waiter ne))
      (Some-left (λ y. y ≡ writing k c) (erase_idx s.calls n) (call_next x j.waiter)
        (erase_idx-Some (λ y. y ≡ writing k c) s.calls n x g (λ e. ne (ap call_index e)) t.pending))

call-IsStuck :
    {k : ℕ} {c : Chunk} {s : Session} (t : IsStuck k c s) (n : ℕ) (x : Call) (j : Job)
    → get_elem? s.calls n ≡ some x
    → get_elem? s.all (call_index x) ≡ some j
    → CanGoOn x j
    → IsStuck k c (run_call n x j s)
call-IsStuck {k} {c} {s} t n x j g h r = elim (Bool-cases (call_index x == k)) [
  | inl e ↦
      let i : call_index x ≡ k = (==_iff (call_index x) k).0 e in
      let w : x ≡ writing k c = All-at (Only k c) s.calls n x t.only g i in
      let same : j ≡ t.job =
        some-injective j t.job
          (sym h ∙ subst (λ m. get_elem? s.all m ≡ some t.job) (sym i) t.there) in
      absurd (
        cannot_go_on k c t.job t.abandoned
          (subst (CanGoOn (writing k c)) same (subst (λ y. CanGoOn y j) w r)))
  | inr e ↦
      other_call-IsStuck t n x j g
        (λ i. not_both (call_index x == k) ((==_iff (call_index x) k).1 i) e)
]

look_up-IsStuck :
    {k : ℕ} {c : Chunk} {s : Session} (t : IsStuck k c s) (id : Text) (i : ℕ) (x : Call)
    → lookup id s.jobs ≡ some i
    → call_index x ≡ i
    → IsStuck k c (record s { calls = s.calls ++ (x ∷ []) })
look_up-IsStuck {k} {c} {s} t id i x l at =
    moved-IsStuck t (record s { calls = s.calls ++ (x ∷ []) }) refl t.unlisted
      (All-append (Only k c) s.calls (x ∷ []) t.only
        ((λ e. absurd (lookup-other id i k s.jobs t.unlisted l (sym at ∙ e))), tt))
      (Some-left (λ y. y ≡ writing k c) s.calls (x ∷ []) t.pending)

sweep-IsStuck :
    {k : ℕ} {c : Chunk} {s : Session} (t : IsStuck k c s) (e : Fault)
    → IsStuck k c (record (fail_all_jobs e s) { sweeping = none; swept = true })
unfolding fail_all_jobs
sweep-IsStuck {k} {c} {s} t e =
    moved-IsStuck t (record (fail_all_jobs e s) { sweeping = none; swept = true })
      (fail_listed-other e s.jobs s.all k t.unlisted) tt t.only t.pending

Step-IsStuck : {k : ℕ} {c : Chunk} {s u : Session} → Step s u → IsStuck k c s → IsStuck k c u
Step-IsStuck {k} {c} (begin id stream fresh e) t =
    subst (IsStuck k c) (sym e) (begin-IsStuck t id stream)
Step-IsStuck {k} {c} (send i j g p cl e) t =
    subst (IsStuck k c) (sym e)
      (phase-IsStuck t i sent (is_other t i j g (begun_not_over j.phase p)))
Step-IsStuck {k} {c} (leave i j g p e) t = subst (IsStuck k c) (sym e) (
    end-IsStuck t i j (
      is_other t i j g
        (elim p [ inl b ↦ begun_not_over j.phase b | inr b ↦ sent_not_over j.phase b ])))
Step-IsStuck {k} {c} (return_stream i j g p st r b e) t =
    subst (IsStuck k c) (sym e)
      (phase-IsStuck t i streaming (is_other t i j g (sent_not_over j.phase p)))
Step-IsStuck {k} {c} {s} (close_body i j g p e) t =
    let n : i ≢ k = is_other t i j g (streaming_not_over j.phase p) in
    let ended : IsStuck k c (end_job i j s) = end-IsStuck t i j n in
    let f : JobWaiter → JobWaiter = λ w. record w { reader_closed = true } in
    subst (IsStuck k c) (sym e) (
      moved-IsStuck ended (at_waiter i f (end_job i j s))
        (update-other i (on_waiter f) (end_job i j s).all k n) ended.unlisted ended.only
        ended.pending)
Step-IsStuck {k} {c} (look_up id i x l at en e) t =
    subst (IsStuck k c) (sym e) (look_up-IsStuck t id i x l at)
Step-IsStuck {k} {c} (call n x j g h r e) t =
    subst (IsStuck k c) (sym e) (call-IsStuck t n x j g h r)
Step-IsStuck {k} {c} {s} (close reason cl e) t = subst (IsStuck k c) (sym e) (
    moved-IsStuck t (record s { closed = true; sweeping = some reason }) refl t.unlisted t.only
      t.pending)
Step-IsStuck {k} {c} (sweep reason sw e) t =
    subst (IsStuck k c) (sym e) (sweep-IsStuck t (session_closed reason))

-- A write that waits for the reader of a job which its request has left before the stream was
-- returned never goes on: when nothing else is under way on that job, and the map does not hold it,
-- this stays so in every run, whatever is cancelled, delivered or closed.
pub abandoned_write-IsStuck :
    {k : ℕ} {c : Chunk} {s u : Session} → IsStuck k c s → Steps s u → IsStuck k c u
abandoned_write-IsStuck t here = t
abandoned_write-IsStuck t (next ss st) = Step-IsStuck st (abandoned_write-IsStuck t ss)
