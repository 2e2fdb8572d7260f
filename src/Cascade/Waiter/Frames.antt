-- ===== src/Cascade/Waiter/Frames.antt =====
-- The waiter of a job (internal/cascade/job.go) after the frames of the job, one after the other.
use mathlib.Core.List.{append_assoc, append-nil}
use oh_my_api.Base.{
  ◌≡◌, refl, sym, ap, subst, ◌∙◌, inl, inr, Bool, true, false, none, List, [], ◌∷◌, ◌++◌, not_both,
  Text, if◌then◌else◌, pos, All, arith, Bool-cases,
}
use oh_my_api.Cascade.Waiter.{
  JobWaiter, new_job_waiter, open_pipe, no_pipe, closed_pipe, Chunk, is_bad_status, is_nonempty,
  append_chunk, append_locked, write_chunk, finish_chunk, finish_locked, finish_append, to_pipe,
  is_positive,
}

-- The frames of a job one after the other.
unfoldable pub deliver : List Chunk → JobWaiter → JobWaiter
deliver [] w = w
deliver (c ∷ cs) w = deliver cs (append_chunk c w)

-- The text of the frames, and the pieces of which a stream consists.
abbrev pub body_text : List Chunk → Text
body_text [] = []
body_text (c ∷ cs) = c.chunk ++ body_text cs

abbrev pub piece : Chunk → List Text
piece c = if is_nonempty c.chunk then c.chunk ∷ [] else []

abbrev pub pieces : List Chunk → List Text
pieces [] = []
pieces (c ∷ cs) = piece c ++ pieces cs

-- The waiter of a job that has ended, for its frames `cs` and its final frame `f`.
pub record IsAssembled (stream : Bool) (cs : List Chunk) (f : Chunk) (w : JobWaiter) : Type 0 where
  pub kind : w.stream ≡ stream
  pub ready : w.first_ready ≡ true
  pub body : (stream ≡ false → w.buf ≡ body_text cs ++ f.chunk)
  pub error_body : (stream ≡ true → is_bad_status f.status ≡ true → w.buf ≡ f.chunk)
  pub ended : (w.done ≡ true) × (w.err ≡ none)
  pub pipe : (stream ≡ true → w.pipe ≡ closed_pipe none)
  pub chunks :
      stream ≡ true
      → w.written ≡ (if is_bad_status f.status then pieces cs else pieces cs ++ piece f)
  pub code : w.status_code ≡ (if is_positive f.status then f.status else pos 0)

-- The waiter of a job that has not ended, and has not been failed.
abbrev pub waiting : Bool → Text → List Text → Bool → JobWaiter
waiting stream buf written ready = record {
  stream = stream;
  pipe = if stream then open_pipe else no_pipe;
  written = written;
  reader_closed = false;
  buf = buf;
  done = false;
  first_ready = ready;
  err = none;
  status_code = pos 0;
}

pub append_chunk-body :
    (c : Chunk) (buf : Text) (written : List Text) (ready : Bool)
    → c.final ≡ false
    → append_chunk c (waiting false buf written ready) ≡ waiting false (buf ++ c.chunk) written true
unfolding append_chunk append_locked
append_chunk-body c buf written ready e = rw e refl

pub append_chunk-piece :
    (c : Chunk) (buf : Text) (written : List Text) (ready : Bool)
    → c.final ≡ false
    → append_chunk c (waiting true buf written ready) ≡ waiting true buf (written ++ piece c) true
unfolding append_chunk append_locked write_chunk
append_chunk-piece c buf written ready e = elim (Bool-cases (is_nonempty c.chunk)) [
  | inl n ↦ rw (e, n) refl
  | inr n ↦ rw (e, n, append-nil) refl
]

-- The frames before the final one.
pub deliver-body :
    (cs : List Chunk) (f : Chunk) (buf : Text) (ready : Bool)
    → All (λ c. c.final ≡ false) cs
    → (r : Bool) × (deliver (cs ++ (f ∷ [])) (waiting false buf [] ready)
        ≡ append_chunk f (waiting false (buf ++ body_text cs) [] r))
unfolding deliver
deliver-body [] f buf ready h = (ready, rw append-nil refl)
deliver-body (c ∷ cs) f buf ready h =
    let (r, e) = deliver-body cs f (buf ++ c.chunk) true h.1 in
    (
      r,
      ap (deliver (cs ++ (f ∷ []))) (append_chunk-body c buf [] ready h.0)
          ∙ e
          ∙ ap (λ b. append_chunk f (waiting false b [] r))
              (append_assoc buf c.chunk (body_text cs)),
    )

pub deliver-pieces :
    (cs : List Chunk) (f : Chunk) (written : List Text) (ready : Bool)
    → All (λ c. c.final ≡ false) cs
    → (r : Bool) × (deliver (cs ++ (f ∷ [])) (waiting true [] written ready)
        ≡ append_chunk f (waiting true [] (written ++ pieces cs) r))
unfolding deliver
deliver-pieces [] f written ready h = (ready, rw append-nil refl)
deliver-pieces (c ∷ cs) f written ready h =
    let (r, e) = deliver-pieces cs f (written ++ piece c) true h.1 in
    (
      r,
      ap (deliver (cs ++ (f ∷ []))) (append_chunk-piece c [] written ready h.0)
          ∙ e
          ∙ ap (λ ps. append_chunk f (waiting true [] ps r))
              (append_assoc written (piece c) (pieces cs)),
    )

pub finish_append-status_code :
    (f : Chunk) (piped : Bool) (w : JobWaiter)
    → (finish_append f piped w).status_code ≡ w.status_code
unfolding write_chunk finish_chunk finish_locked
finish_append-status_code f piped w = ground arith

pub locked-status_code :
    (f : Chunk) (w : JobWaiter)
    → f.final ≡ true
    → w.err ≡ none
    → ((append_locked f w).1 ≡ true)
      × ((append_locked f w).0.status_code
          ≡ (if is_positive f.status then f.status else w.status_code))
unfolding append_locked
locked-status_code f w e n = (rw n refl, rw (n, e) refl)

pub append_chunk-status_code :
    (f : Chunk) (w : JobWaiter)
    → f.final ≡ true
    → w.err ≡ none
    → (append_chunk f w).status_code ≡ (if is_positive f.status then f.status else w.status_code)
unfolding append_chunk
append_chunk-status_code f w e n =
    let (goes, code) = locked-status_code f w e n in
    rw goes (finish_append-status_code f (to_pipe f w) (append_locked f w).0 ∙ code)

-- The final frame.
pub final-body :
    (cs : List Chunk) (f : Chunk) (r : Bool)
    → f.final ≡ true
    → IsAssembled false cs f (append_chunk f (waiting false (body_text cs) [] r))
unfolding append_chunk append_locked write_chunk finish_chunk finish_locked
final-body cs f r e = record {
  kind = rw e refl;
  ready = rw e refl;
  body = λ z. rw e refl;
  error_body = λ z. cc;
  ended = (rw e refl, rw e refl);
  pipe = λ z. cc;
  chunks = λ z. cc;
  code = append_chunk-status_code f (waiting false (body_text cs) [] r) e refl;
}

pub final-pieces :
    (cs : List Chunk) (f : Chunk) (r : Bool)
    → f.final ≡ true
    → IsAssembled true cs f (append_chunk f (waiting true [] (pieces cs) r))
unfolding append_chunk append_locked write_chunk finish_chunk finish_locked
final-pieces cs f r e =
    let code = append_chunk-status_code f (waiting true [] (pieces cs) r) e refl in
    elim (Bool-cases (is_bad_status f.status)) [
      | inl b ↦ record {
        kind = rw (e, b) refl;
        ready = rw (e, b) refl;
        body = λ z. cc;
        error_body = λ z k. rw (e, b) refl;
        ended = (rw (e, b) refl, rw (e, b) refl);
        pipe = λ z. rw (e, b) refl;
        chunks = λ z. rw (e, b) refl;
        code = code;
      }
      | inr b ↦ elim (Bool-cases (is_nonempty f.chunk)) [
        | inl n ↦ record {
          kind = rw (e, b, n) refl;
          ready = rw (e, b, n) refl;
          body = λ z. cc;
          error_body = λ z k. absurd (not_both (is_bad_status f.status) k b);
          ended = (rw (e, b, n) refl, rw (e, b, n) refl);
          pipe = λ z. rw (e, b, n) refl;
          chunks = λ z. rw (e, b, n) refl;
          code = code;
        }
        | inr n ↦ record {
          kind = rw (e, b, n) refl;
          ready = rw (e, b, n) refl;
          body = λ z. cc;
          error_body = λ z k. absurd (not_both (is_bad_status f.status) k b);
          ended = (rw (e, b, n) refl, rw (e, b, n) refl);
          pipe = λ z. rw (e, b, n) refl;
          chunks = λ z. rw (e, b, n, append-nil) refl;
          code = code;
        }
      ]
    ]

pub assembled :
    (stream : Bool) (cs : List Chunk) (f : Chunk)
    → All (λ c. c.final ≡ false) cs
    → f.final ≡ true
    → IsAssembled stream cs f (deliver (cs ++ (f ∷ [])) (new_job_waiter stream))
unfolding new_job_waiter
assembled false cs f h e =
    let (r, same) = deliver-body cs f [] false h in
    subst (IsAssembled false cs f) (sym same) (final-body cs f r e)
assembled true cs f h e =
    let (r, same) = deliver-pieces cs f [] false h in
    subst (IsAssembled true cs f) (sym same) (final-pieces cs f r e)

-- The frames of a stream before the final one leave it waiting.
pub deliver-waiting :
    (cs : List Chunk) (written : List Text)
    → All (λ c. c.final ≡ false) cs
    → deliver cs (waiting true [] written true) ≡ waiting true [] (written ++ pieces cs) true
unfolding deliver
deliver-waiting [] written h = rw append-nil refl
deliver-waiting (c ∷ cs) written h =
    ap (deliver cs) (append_chunk-piece c [] written true h.0)
    ∙ deliver-waiting cs (written ++ piece c) h.1
    ∙ ap (λ ps. waiting true [] ps true) (append_assoc written (piece c) (pieces cs))

pub All-left :
    (xs ys : List Chunk) → All (λ c. c.final ≡ false) (xs ++ ys) → All (λ c. c.final ≡ false) xs
All-left [] ys h = tt
All-left (x ∷ xs) ys h = (h.0, All-left xs ys h.1)

pub seen-waiting :
    (c : Chunk) (seen : List Chunk)
    → All (λ c. c.final ≡ false) (c ∷ seen)
    → deliver (c ∷ seen) (new_job_waiter true) ≡ waiting true [] (piece c ++ pieces seen) true
unfolding deliver new_job_waiter
seen-waiting c seen h =
    ap (deliver seen) (append_chunk-piece c [] [] false h.0) ∙ deliver-waiting seen (piece c) h.1
