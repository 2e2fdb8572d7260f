-- ===== src/Scheduler/Race/Progress.antt =====
-- The race always ends.
use oh_my_api.Base.{
  ℕ, zero, suc, ◌+◌, ◌*◌, ◌≤◌, ◌<◌, ◌≡◌, refl, ap, Bool, true, false, Option, none, some, List, [],
  ◌∷◌, ◌⊎◌, length, length-append, get_elem?, erase_idx, is_some, arith,
}
use oh_my_api.Scheduler.Types.{Outcome, error, all_providers_failed}
use oh_my_api.Scheduler.Abort.{Abort}
use oh_my_api.Scheduler.Race.{
  Arrival, Held, Phase, waiting, returned, Race, receive_outcome, finish_race_abort, finish_race,
  is_returned, Step, send, drop, die, receive, abort, finish, Steps, here, next, indices,
  start_race,
}

abbrev one_unless : Bool → ℕ
one_unless true = 0
one_unless false = 1

-- The steps that can still be taken.
abbrev pub left : Race → ℕ
left s =
    2 * length s.running
    + length s.channel
    + one_unless (is_returned s.phase)
    + one_unless (is_some s.dead)

pub length-erase_idx :
    (xs : List ℕ) (k i : ℕ) → get_elem? xs k ≡ some i → length (erase_idx xs k) + 1 ≡ length xs
length-erase_idx [] k i h = cc
length-erase_idx (x ∷ xs) zero i h = omega arith
length-erase_idx (x ∷ xs) (suc k) i h = omega (arith, length-erase_idx xs k i h)

finish-returns : (h : Held) (closed : List Arrival) → is_returned (finish_race h closed).0 ≡ true
unfolding finish_race
finish-returns h closed = ground arith

abort-returns :
    (ctx : Abort) (h : Held) (closed : List Arrival)
    → is_returned (finish_race_abort ctx h closed).0 ≡ true
unfolding finish_race_abort
abort-returns ctx h closed = refl

one_unless-le : (b : Bool) → one_unless b ≤ 1
one_unless-le b = ground arith

Step-left : {s u : Race} → Step s u → left u < left s
Step-left {s} {u} (send k i o h e) = rw e (
    omega (
      arith,
      length-erase_idx s.running k i h,
      length-append {0} s.channel (record { index = i; outcome = o } ∷ []),
    ))
Step-left {s} {u} (drop k i o h l e) = rw e (omega (arith, length-erase_idx s.running k i h))
Step-left {s} {u} (die ctx h e) = rw (e, h) (omega arith)
Step-left {s} {u} (receive h a rest n p c m e) =
    rw (e, p, c) (omega (arith, one_unless-le (is_returned (receive_outcome a h s.closed).0)))
Step-left {s} {u} (abort h ctx n p d m e) = rw (e, p, abort-returns ctx h s.closed) (omega arith)
Step-left {s} {u} (finish h p m e) = rw (e, p, finish-returns h s.closed) (omega arith)

-- While the loop waits and the context lives, every outcome that it still waits for is on its way.
abbrev pub IsCounted : Race → Type 0
IsCounted s =
    is_returned s.phase ≡ false → s.dead ≡ none → length s.running + length s.channel ≡ s.remaining

lost_late :
    (s : Race)
    → is_returned s.phase ≡ false
    → s.dead ≡ none
    → (is_returned s.phase ≡ true) ⊎ (is_some s.dead ≡ true)
    → ⊥
lost_late s w d h = ground arith

Step-IsCounted : {s u : Race} → Step s u → IsCounted s → IsCounted u
Step-IsCounted {s} {u} (send k i o h e) c = rw e (λ w d. omega (
  arith,
  c w d,
  length-erase_idx s.running k i h,
  length-append {0} s.channel (record { index = i; outcome = o } ∷ []),
))
Step-IsCounted {s} {u} (drop k i o h l e) c = rw e (λ w d. absurd (lost_late s w d l))
Step-IsCounted {s} {u} (die ctx h e) c = rw e (λ w d. cc)
Step-IsCounted {s} {u} (receive h a rest n p q m e) c =
    rw e (λ w d. omega (arith, m, ap length q, c (waits p) d))
  where
    waits : s.phase ≡ waiting h → is_returned s.phase ≡ false
    waits f = rw f refl
Step-IsCounted {s} {u} (abort h ctx n p d m e) c =
    rw e (λ w _. absurd (both (abort-returns ctx h s.closed) w))
  where
    both : {b : Bool} → b ≡ true → b ≡ false → ⊥
    both x y = cc
Step-IsCounted {s} {u} (finish h p m e) c =
    rw e (λ w _. absurd (both (finish-returns h s.closed) w))
  where
    both : {b : Bool} → b ≡ true → b ≡ false → ⊥
    both x y = cc

pub length-indices : (i n : ℕ) → length (indices i n) ≡ n
length-indices i zero = refl
length-indices i (suc n) = omega (arith, length-indices (i + 1) n)

start-IsCounted : (n : ℕ) → IsCounted (start_race n)
unfolding start_race
start-IsCounted n w d = omega (arith, length-indices 0 n)

pub Steps-left : {s u : Race} {k : ℕ} → Steps s k u → k + left u ≤ left s
Steps-left here = omega arith
Steps-left (next ss st) = omega (arith, Steps-left ss, Step-left st)

pub Steps-IsCounted : (n : ℕ) {k : ℕ} {u : Race} → Steps (start_race n) k u → IsCounted u
Steps-IsCounted n here = start-IsCounted n
Steps-IsCounted n (next ss st) = Step-IsCounted st (Steps-IsCounted n ss)

left-start : (n : ℕ) → left (start_race n) ≡ 2 * n + 2
unfolding start_race
left-start n = omega (arith, length-indices 0 n)

over_already :
    {p : Phase} {kept : Option ℕ} {o : Outcome} → p ≡ returned kept o → is_returned p ≡ false → ⊥
over_already e w = ground (arith, ap is_returned e)

-- A loop that waits can go on.
can_step : (s : Race) → IsCounted s → is_returned s.phase ≡ false → (u : Race) × Step s u
can_step s c w = go s.running s.channel s.remaining s.dead s.phase refl refl refl refl refl
  where
    go :
        (run : List ℕ) (ch : List Arrival) (m : ℕ) (d : Option Abort) (ph : Phase)
        → s.running ≡ run
        → s.channel ≡ ch
        → s.remaining ≡ m
        → s.dead ≡ d
        → s.phase ≡ ph
        → (u : Race) × Step s u
    go run ch m d (returned kept o) er ec em ed ep = absurd (over_already ep w)
    go run ch zero d (waiting h) er ec em ed ep = (_, finish h ep em refl)
    go run ch (suc n) (some ctx) (waiting h) er ec em ed ep = (_, abort h ctx n ep ed em refl)
    go run (a ∷ rest) (suc n) none (waiting h) er ec em ed ep =
        (_, receive h a rest n ep ec em refl)
    go (i ∷ is) [] (suc n) none (waiting h) er ec em ed ep =
        (_, send zero i (error all_providers_failed) (rw er refl) refl)
    go [] [] (suc n) none (waiting h) er ec em ed ep =
        absurd (omega (arith, ap length er, ap length ec, em, c w ed))

-- A race of `n` candidates ends, however its goroutines are scheduled and whatever the attempts end
-- with: it takes at most 2n + 2 steps, and as long as it has not returned there is a next step.
pub race_ends :
    (n k : ℕ) (s : Race)
    → Steps (start_race n) k s
    → (k ≤ 2 * n + 2) × (is_returned s.phase ≡ false → (u : Race) × Step s u)
race_ends n k s ss = (omega (arith, Steps-left ss, left-start n), can_step s (Steps-IsCounted n ss))
