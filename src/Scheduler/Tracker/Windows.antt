-- ===== src/Scheduler/Tracker/Windows.antt =====
-- What a window of the latency tracker holds.
use mathlib.Core.List.{append_assoc, append-nil}
use oh_my_api.Base.{
  ℕ, zero, suc, ◌+◌, ◌-◌, ◌≤◌, ◌≡◌, refl, sym, ap, ◌∙◌, inl, inr, false, List, [], ◌∷◌, ◌++◌,
  length, length-append, ltb, arith, Bool-cases, if◌then◌else◌, Text, text_eq, text_eq_refl,
  text_eq_iff, lookup, lookup-insert,
}
use oh_my_api.Scheduler.Tracker.{
  TtftSample, LatencyTracker, sample_window_size, drop, ensure_window, trim_samples, record_success,
}

-- The last 20 of a list.
abbrev pub newest : List TtftSample → List TtftSample
newest xs = drop (length xs - 20) xs

drop-length : (n : ℕ) (xs : List TtftSample) → length (drop n xs) ≡ length xs - n
drop-length zero xs = omega arith
drop-length (suc n) [] = omega arith
drop-length (suc n) (x ∷ xs) = omega (arith, drop-length n xs)

drop_at : (n m : ℕ) (xs : List TtftSample) → n ≡ m → drop n xs ≡ drop m xs
drop_at n m xs e = ap (λ k. drop k xs) e

drop_nil : (n : ℕ) → drop {A = TtftSample} n [] ≡ []
drop_nil zero = refl
drop_nil (suc n) = refl

drop-drop : (n m : ℕ) (xs : List TtftSample) → drop n (drop m xs) ≡ drop (m + n) xs
drop-drop n zero xs = drop_at n (0 + n) xs (omega arith)
drop-drop n (suc m) [] = drop_nil n ∙ sym (drop_nil (suc m + n))
drop-drop n (suc m) (x ∷ xs) =
    drop-drop n m xs ∙ drop_at (suc (m + n)) (suc m + n) (x ∷ xs) (omega arith)

drop-append :
    (n : ℕ) (xs ys : List TtftSample) → n ≤ length xs → drop n (xs ++ ys) ≡ drop n xs ++ ys
drop-append zero xs ys h = refl
drop-append (suc n) [] ys h = absurd (omega (arith, h))
drop-append (suc n) (x ∷ xs) ys h = drop-append n xs ys (omega (arith, h))

trim_samples-newest : (xs : List TtftSample) → trim_samples xs ≡ newest xs
unfolding trim_samples
trim_samples-newest xs = elim (Bool-cases (ltb sample_window_size (length xs))) [
  | inl e ↦ rw e refl
  | inr e ↦ rw e (drop_at 0 (length xs - 20) xs (ground (arith, e)))
]

-- To take the newest after each sample is to take the newest of all.
newest-append :
    (xs : List TtftSample) (s : TtftSample)
    → newest (newest xs ++ (s ∷ [])) ≡ newest (xs ++ (s ∷ []))
newest-append xs s =
    let ys : List TtftSample = xs ++ (s ∷ []) in
    let k = length xs - 20 in
    ap newest (sym (drop-append k xs (s ∷ []) (omega arith)))
    ∙ drop-drop (length (drop k ys) - 20) k ys
    ∙ drop_at (k + (length (drop k ys) - 20)) (length ys - 20) ys
        (omega (arith, drop-length k ys, length-append xs (s ∷ [])))

-- The samples of a key in a history, in their order.
abbrev pub samples_of : Text → List (Text × TtftSample) → List TtftSample
samples_of key [] = []
samples_of key ((k, s) ∷ rest) =
    if text_eq k key then s ∷ samples_of key rest else samples_of key rest

unfoldable pub record_all : List (Text × TtftSample) → LatencyTracker → LatencyTracker
record_all [] t = t
record_all ((k, s) ∷ rest) t = record_all rest (record_success k s t)

ensure_window-other :
    (key k : Text) (s : TtftSample) (t : LatencyTracker)
    → text_eq k key ≡ false
    → ensure_window key (record_success k s t) ≡ ensure_window key t
unfolding ensure_window record_success
ensure_window-other key k s t e = rw (ensure_window, lookup-insert, e) refl

ensure_window-same :
    (key : Text) (s : TtftSample) (t : LatencyTracker)
    → (ensure_window key (record_success key s t)).samples
      ≡ newest ((ensure_window key t).samples ++ (s ∷ []))
unfolding record_success ensure_window
ensure_window-same key s t =
    rw (ensure_window, lookup-insert, text_eq_refl)
      (trim_samples-newest ((ensure_window key t).samples ++ (s ∷ [])))

record_all-newest :
    (key : Text) (history : List (Text × TtftSample)) (t : LatencyTracker) (xs : List TtftSample)
    → (ensure_window key t).samples ≡ newest xs
    → (ensure_window key (record_all history t)).samples ≡ newest (xs ++ samples_of key history)
unfolding record_all
record_all-newest key [] t xs h = h ∙ ap newest (sym (append-nil xs))
record_all-newest key ((k, s) ∷ rest) t xs h = elim (Bool-cases (text_eq k key)) [
  | inl e ↦
      let same : k ≡ key = (text_eq_iff k key).0 e in
      let now : (ensure_window key (record_success k s t)).samples ≡ newest (xs ++ (s ∷ [])) =
        ap (λ x. (ensure_window key (record_success x s t)).samples) same
        ∙ ensure_window-same key s t
        ∙ ap (λ ys. newest (ys ++ (s ∷ []))) h
        ∙ newest-append xs s in
      record_all-newest key rest (record_success k s t) (xs ++ (s ∷ [])) now
      ∙ ap newest (append_assoc xs (s ∷ []) (samples_of key rest))
      ∙ rw e refl
  | inr e ↦
      record_all-newest key rest (record_success k s t) xs
        (ap (λ w. w.samples) (ensure_window-other key k s t e) ∙ h)
      ∙ rw e refl
]

-- After any history of recorded latencies, of all candidates, the window of a candidate holds the
-- last 20 of its own samples, in their order, or all of them if there are no more.
pub record_all-window :
    (key : Text) (history : List (Text × TtftSample))
    → (ensure_window key (record_all history [])).samples ≡ newest (samples_of key history)
unfolding ensure_window lookup
record_all-window key history = record_all-newest key history [] [] refl
