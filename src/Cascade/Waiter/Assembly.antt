-- ===== src/Cascade/Waiter/Assembly.antt =====
-- What ExecuteJob (internal/cascade/job.go) answers for the result frames of a job.
use oh_my_api.Base.{
  ◌≡◌, refl, sym, ap, subst, ◌∙◌, inl, inr, Bool, true, false, none, List, [], ◌∷◌, ◌++◌, not_both,
  Text, if◌then◌else◌, ℤ, pos, negsuc, All, arith, Bool-cases,
}
use oh_my_api.Cascade.Waiter.{
  JobWaiter, JobResponse, new_job_waiter, closed_pipe, Chunk, is_bad_status, wait, response_status,
  is_positive, wait_first, job_response, whole, streamed, waited,
}
use oh_my_api.Cascade.Waiter.Frames.{
  deliver, body_text, piece, pieces, IsAssembled, waiting, assembled, All-left, seen-waiting,
}

-- The status of a frame, or 200 without one.
abbrev pub status_of : Chunk → ℤ
status_of f = if is_positive f.status then f.status else pos 200

-- The response to a job, for its frames `cs` and its final frame `f`.
abbrev pub IsDelivered : (stream : Bool) → List Chunk → Chunk → Type 0
IsDelivered false cs f =
    let last = deliver (cs ++ (f ∷ [])) (new_job_waiter false) in
    (first : JobWaiter) → job_response first last ≡ whole (status_of f) (body_text cs ++ f.chunk)
IsDelivered true cs f =
    let last = deliver (cs ++ (f ∷ [])) (new_job_waiter true) in
    let chunks = if is_bad_status f.status then pieces cs else pieces cs ++ piece f in
    (job_response last last ≡ (
      if is_bad_status f.status
      then whole f.status f.chunk
      else streamed chunks (closed_pipe none)))
    × ((c : Chunk) (seen later : List Chunk)
        → cs ≡ c ∷ seen ++ later
        → job_response (deliver (c ∷ seen) (new_job_waiter true)) last
          ≡ streamed chunks (closed_pipe none))

response_status-final :
    (w : JobWaiter) (status : ℤ)
    → w.status_code ≡ (if is_positive status then status else pos 0)
    → response_status w ≡ (if is_positive status then status else pos 200)
unfolding response_status is_positive
response_status-final w status h = elim (Bool-cases (is_positive status)) [
  | inl p ↦ rw (h, p, p) refl
  | inr p ↦ rw (h, p) refl
]

bad-positive : (status : ℤ) → is_bad_status status ≡ true → is_positive status ≡ true
unfolding is_bad_status is_positive
bad-positive (pos n) h = ground (arith, h)
bad-positive (negsuc n) h = ground (arith, h)

waited-whole :
    (status : ℤ) (w : JobWaiter)
    → (w.done ≡ true) × (w.err ≡ none)
    → waited status w ≡ whole status w.buf
unfolding wait
waited-whole status w h = rw (h.0, h.1) refl

response_of_body :
    (first last : JobWaiter)
    → last.stream ≡ false
    → job_response first last ≡ waited (response_status last) last
unfolding job_response
response_of_body first last h = rw (h, job_response) refl

response_of_stream :
    (first last : JobWaiter)
    → last.stream ≡ true
    → first.first_ready ≡ true
    → job_response first last ≡ (
        if is_bad_status (response_status first)
        then waited (response_status first) last
        else streamed last.written last.pipe)
unfolding job_response wait_first response_status wait
response_of_stream first last h k = rw (h, k, job_response) refl

bad-status_of : (f : Chunk) → is_bad_status (status_of f) ≡ is_bad_status f.status
unfolding is_bad_status
bad-status_of f = elim (Bool-cases (is_positive f.status)) [
  | inl p ↦ rw p refl
  | inr p ↦ elim (Bool-cases (is_bad_status f.status)) [
    | inl b ↦ absurd (not_both (is_positive f.status) (bad-positive f.status b) p)
    | inr b ↦ rw (p, b) refl
  ]
]

streamed-chunks :
    (cs : List Chunk) (f : Chunk) (w : JobWaiter)
    → IsAssembled true cs f w
    → streamed w.written w.pipe
      ≡ streamed
          (if is_bad_status f.status then pieces cs else pieces cs ++ piece f)
          (closed_pipe none)
streamed-chunks cs f w a =
    ap (λ ps. streamed ps w.pipe) (a.chunks refl)
    ∙ ap (streamed (if is_bad_status f.status then pieces cs else pieces cs ++ piece f))
        (a.pipe refl)

-- The response is read after the final frame.
read_last :
    (cs : List Chunk) (f : Chunk) (w : JobWaiter)
    → IsAssembled true cs f w
    → job_response w w ≡ (
        if is_bad_status f.status
        then whole f.status f.chunk
        else streamed
            (if is_bad_status f.status then pieces cs else pieces cs ++ piece f)
            (closed_pipe none))
read_last cs f w a =
    let status = response_status-final w f.status a.code in
    let code : is_bad_status (response_status w) ≡ is_bad_status f.status =
      ap is_bad_status status ∙ bad-status_of f in
    elim (Bool-cases (is_bad_status f.status)) [
      | inl b ↦
          let sure : status_of f ≡ f.status = rw (bad-positive f.status b) refl in
          response_of_stream w w a.kind a.ready
          ∙ if_true _ _ (code ∙ b)
          ∙ waited-whole (response_status w) w a.ended
          ∙ ap (λ z. whole z w.buf) (status ∙ sure)
          ∙ ap (whole f.status) (a.error_body refl b)
          ∙ sym (if_true _ _ b)
      | inr b ↦
          response_of_stream w w a.kind a.ready
          ∙ if_false _ _ (code ∙ b)
          ∙ streamed-chunks cs f w a
          ∙ sym (if_false _ _ b)
    ]
  where
    if_true : {b : Bool} (x y : JobResponse) → b ≡ true → (if b then x else y) ≡ x
    if_true x y e = rw e refl

    if_false : {b : Bool} (x y : JobResponse) → b ≡ false → (if b then x else y) ≡ y
    if_false x y e = rw e refl

-- It is read while a frame before the final one is the last that came.
read_early :
    (cs : List Chunk) (f : Chunk) (written : List Text) (first w : JobWaiter)
    → first ≡ waiting true [] written true
    → IsAssembled true cs f w
    → job_response first w
      ≡ streamed
          (if is_bad_status f.status then pieces cs else pieces cs ++ piece f)
          (closed_pipe none)
unfolding response_status is_positive is_bad_status
read_early cs f written first w e a =
    response_of_stream first w a.kind (rw e refl) ∙ rw e refl ∙ streamed-chunks cs f w a

-- For frames that all but the last are not final, come in their order and are read by the client as
-- they come, with nothing else that ends the job: a request that is no stream is answered with the
-- text of all frames and the status of the final frame (200 without one). A stream for which
-- ExecuteJob reads the status after a frame before the final one is answered 200, with the chunks
-- that are not empty in order and a clean end; when the final frame has an error (a status from 400 on),
-- its status and its text are in neither. Only if it reads the status after the final frame, an error
-- is answered as such, with the text of the final frame alone.
pub job_response-IsDelivered :
    (stream : Bool) (cs : List Chunk) (f : Chunk)
    → All (λ c. c.final ≡ false) cs
    → f.final ≡ true
    → IsDelivered stream cs f
job_response-IsDelivered false cs f h e =
    let w = deliver (cs ++ (f ∷ [])) (new_job_waiter false) in
    let a = assembled false cs f h e in
    λ first.
      response_of_body first w a.kind
      ∙ waited-whole (response_status w) w a.ended
      ∙ ap (λ z. whole z w.buf) (response_status-final w f.status a.code)
      ∙ ap (whole (status_of f)) (a.body refl)
job_response-IsDelivered true cs f h e =
    let w = deliver (cs ++ (f ∷ [])) (new_job_waiter true) in
    let a = assembled true cs f h e in
    (
      read_last cs f w a,
      λ c seen later same.
          let before : All (λ c. c.final ≡ false) (c ∷ seen) =
            All-left (c ∷ seen) later (subst (All (λ c. c.final ≡ false)) same h) in
          read_early cs f (piece c ++ pieces seen) (deliver (c ∷ seen) (new_job_waiter true)) w
            (seen-waiting c seen before) a,
    )
