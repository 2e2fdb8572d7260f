-- ===== src/Scheduler/Race/Bodies.antt =====
-- Where the bodies of the results of a race are.
use oh_my_api.Base.{
  ℕ, zero, suc, ◌+◌, ◌≤◌, ◌≡◌, refl, ap, true, Option, none, some, List, [], ◌∷◌, ◌++◌, get_elem?,
  erase_idx, ◌==◌, ltb, if◌then◌else◌, arith,
}
use oh_my_api.Scheduler.Types.{Outcome, result, error}
use oh_my_api.Scheduler.Abort.{Abort}
use oh_my_api.Scheduler.Race.{
  Arrival, Held, Phase, waiting, returned, Race, close_result_body, close_lost, receive_outcome,
  finish_race_abort, finish_race, is_returned, Step, send, drop, die, receive, abort, finish, Steps,
  here, next, indices, start_race,
}

-- 1 if the arrival is that of attempt `i` and has a body.
abbrev body : ℕ → Arrival → ℕ
body i a = elim a.outcome [ result r ↦ if a.index == i then 1 else 0 | error e ↦ 0 ]

-- The bodies of attempt `i` in a list.
abbrev pub bodies : ℕ → List Arrival → ℕ
bodies i [] = 0
bodies i (a ∷ rest) = body i a + bodies i rest

abbrev held_body : ℕ → Option Arrival → ℕ
held_body i none = 0
held_body i (some a) = body i a

abbrev kept_body : ℕ → Option ℕ → Outcome → ℕ
kept_body i none o = 0
kept_body i (some j) o = body i (record { index = j; outcome = o })

-- The bodies of attempt `i` that the loop holds, or that the race has returned.
abbrev pub in_phase : ℕ → Phase → ℕ
in_phase i (waiting h) = held_body i h.last_hard_result + held_body i h.last_soft_result
in_phase i (returned kept o) = kept_body i kept o

bodies-append : (i : ℕ) (xs ys : List Arrival) → bodies i (xs ++ ys) ≡ bodies i xs + bodies i ys
bodies-append i [] ys = omega arith
bodies-append i (x ∷ xs) ys = omega (arith, bodies-append i xs ys)

bodies-close_result_body :
    (i : ℕ) (o : Option Arrival) (closed : List Arrival)
    → bodies i (close_result_body o closed) ≡ bodies i closed + held_body i o
bodies-close_result_body i none closed = omega arith
bodies-close_result_body i (some a) closed = omega (arith, bodies-append i closed (a ∷ []))

bodies-close_lost :
    (i : ℕ) (a : Arrival) (closed : List Arrival)
    → bodies i (close_lost a closed) ≡ bodies i closed + body i a
bodies-close_lost i a closed = ground (arith, bodies-append i closed (a ∷ []))

-- What a part of the loop does with the held bodies and the one that comes in.
abbrev Keeps : ℕ → List Arrival → ℕ → Phase × List Arrival → Type 0
Keeps i closed n p = bodies i p.1 + in_phase i p.0 ≡ bodies i closed + n

receive-Keeps :
    (i j : ℕ) (o : Outcome) (h : Held) (closed : List Arrival)
    → Keeps i closed
        (in_phase i (waiting h) + body i (record { index = j; outcome = o }))
        (receive_outcome (record { index = j; outcome = o }) h closed)
unfolding receive_outcome
receive-Keeps i j (error e) h closed = omega arith
receive-Keeps i j (result r) h closed = ground (
  arith,
  bodies-close_result_body i h.last_hard_result closed,
  bodies-close_result_body i h.last_soft_result closed,
  bodies-close_result_body i h.last_soft_result (close_result_body h.last_hard_result closed),
)

abort-Keeps :
    (i : ℕ) (ctx : Abort) (h : Held) (closed : List Arrival)
    → Keeps i closed (in_phase i (waiting h)) (finish_race_abort ctx h closed)
unfolding finish_race_abort
abort-Keeps i ctx h closed = omega (
  arith,
  bodies-close_result_body i h.last_hard_result closed,
  bodies-close_result_body i h.last_soft_result (close_result_body h.last_hard_result closed),
)

finish-Keeps :
    (i : ℕ) (h : Held) (closed : List Arrival)
    → Keeps i closed (in_phase i (waiting h)) (finish_race h closed)
unfolding finish_race
finish-Keeps i h closed = ground (arith, bodies-close_result_body i h.last_soft_result closed)

-- Every body is in one place: closed, in the channel, held by the loop, or returned.
abbrev IsAccounted : ℕ → Race → Type 0
IsAccounted i s = bodies i s.over ≡ bodies i s.closed + bodies i s.channel + in_phase i s.phase

Step-IsAccounted : (i : ℕ) {s u : Race} → Step s u → IsAccounted i s → IsAccounted i u
Step-IsAccounted i {s} {u} (send k j o g e) c =
    let a : Arrival = record { index = j; outcome = o } in
    rw e (omega (arith, c, bodies-append i s.channel (a ∷ []), bodies-append i s.over (a ∷ [])))
Step-IsAccounted i {s} {u} (drop k j o g l e) c =
    let a : Arrival = record { index = j; outcome = o } in
    rw e (omega (arith, c, bodies-close_lost i a s.closed, bodies-append i s.over (a ∷ [])))
Step-IsAccounted i {s} {u} (die ctx g e) c = rw e c
Step-IsAccounted i {s} {u} (receive h a rest n p q m e) c = rw e (
    omega
      (arith, c, ap (in_phase i) p, ap (bodies i) q, receive-Keeps i a.index a.outcome h s.closed))
Step-IsAccounted i {s} {u} (abort h ctx n p d m e) c =
    rw e (omega (arith, c, ap (in_phase i) p, abort-Keeps i ctx h s.closed))
Step-IsAccounted i {s} {u} (finish h p m e) c =
    rw e (omega (arith, c, ap (in_phase i) p, finish-Keeps i h s.closed))

start-IsAccounted : (i n : ℕ) → IsAccounted i (start_race n)
unfolding start_race
start-IsAccounted i n = omega arith

Steps-IsAccounted : (i n : ℕ) {k : ℕ} {u : Race} → Steps (start_race n) k u → IsAccounted i u
Steps-IsAccounted i n here = start-IsAccounted i n
Steps-IsAccounted i n (next ss st) = Step-IsAccounted i st (Steps-IsAccounted i n ss)

-- How often an index occurs among the attempts that run.
abbrev runs : ℕ → List ℕ → ℕ
runs i [] = 0
runs i (j ∷ js) = (if j == i then 1 else 0) + runs i js

runs-erase_idx :
    (i : ℕ) (xs : List ℕ) (k j : ℕ)
    → get_elem? xs k ≡ some j
    → runs i (erase_idx xs k) + (if j == i then 1 else 0) ≡ runs i xs
runs-erase_idx i [] k j h = cc
runs-erase_idx i (x ∷ xs) zero j h = ground arith
runs-erase_idx i (x ∷ xs) (suc k) j h = omega (arith, runs-erase_idx i xs k j h)

body-le :
    (i j : ℕ) (o : Outcome) → body i (record { index = j; outcome = o }) ≤ (if j == i then 1 else 0)
body-le i j o = ground arith

-- An attempt ends once.
abbrev IsOnce : ℕ → Race → Type 0
IsOnce i s = bodies i s.over + runs i s.running ≤ 1

Step-IsOnce : (i : ℕ) {s u : Race} → Step s u → IsOnce i s → IsOnce i u
Step-IsOnce i {s} {u} (send k j o g e) c = rw e (
    omega (
      arith,
      c,
      bodies-append i s.over (record { index = j; outcome = o } ∷ []),
      runs-erase_idx i s.running k j g,
      body-le i j o,
    ))
Step-IsOnce i {s} {u} (drop k j o g l e) c = rw e (
    omega (
      arith,
      c,
      bodies-append i s.over (record { index = j; outcome = o } ∷ []),
      runs-erase_idx i s.running k j g,
      body-le i j o,
    ))
Step-IsOnce i {s} {u} (die ctx g e) c = rw e c
Step-IsOnce i {s} {u} (receive h a rest n p q m e) c = rw e c
Step-IsOnce i {s} {u} (abort h ctx n p d m e) c = rw e c
Step-IsOnce i {s} {u} (finish h p m e) c = rw e c

runs-indices : (i j n : ℕ) → runs i (indices j n) ≤ (if ltb i j then 0 else 1)
runs-indices i j zero = ground arith
runs-indices i j (suc n) = ground (arith, runs-indices i (j + 1) n)

start-IsOnce : (i n : ℕ) → IsOnce i (start_race n)
unfolding start_race
start-IsOnce i n = ground (arith, runs-indices i 0 n)

Steps-IsOnce : (i n : ℕ) {k : ℕ} {u : Race} → Steps (start_race n) k u → IsOnce i u
Steps-IsOnce i n here = start-IsOnce i n
Steps-IsOnce i n (next ss st) = Step-IsOnce i st (Steps-IsOnce i n ss)

-- At every moment of a race, the body of an attempt that has ended with a result is in exactly one
-- place, once: it is closed, or waits in the channel, or is held by the loop, or is the one returned;
-- and an attempt that has ended otherwise, or not yet, has no body anywhere.
pub race_bodies :
    (i n k : ℕ) (s : Race)
    → Steps (start_race n) k s
    → (bodies i s.closed + bodies i s.channel + in_phase i s.phase ≡ bodies i s.over)
      × (bodies i s.over ≤ 1)
race_bodies i n k s ss =
    (omega (arith, Steps-IsAccounted i n ss), omega (arith, Steps-IsOnce i n ss))

-- The race has returned, with the phase `p`, and the channel has no less than `n` bodies.
abbrev Rests : ℕ → ℕ → Phase → Race → Type 0
Rests i n p s = (is_returned s.phase ≡ true) × (n ≤ bodies i s.channel) × (s.phase ≡ p)

not_waiting : {p : Phase} {h : Held} → is_returned p ≡ true → p ≡ waiting h → ⊥
not_waiting r e = ground (arith, ap is_returned e)

Step-Rests : (i n : ℕ) (p : Phase) {s u : Race} → Step s u → Rests i n p s → Rests i n p u
Step-Rests i n p {s} (send k j o g e) (r, m, q) =
    rw e
      (r, omega (arith, m, bodies-append i s.channel (record { index = j; outcome = o } ∷ [])), q)
Step-Rests i n p (drop k j o g l e) c = rw e c
Step-Rests i n p (die ctx g e) c = rw e c
Step-Rests i n p (receive h a rest k w q m e) c = absurd (not_waiting c.0 w)
Step-Rests i n p (abort h ctx k w d m e) c = absurd (not_waiting c.0 w)
Step-Rests i n p (finish h w m e) c = absurd (not_waiting c.0 w)

Steps-Rests :
    (i : ℕ) (s : Race)
    → is_returned s.phase ≡ true
    → {k : ℕ} {u : Race} → Steps s k u
    → Rests i (bodies i s.channel) s.phase u
Steps-Rests i s r here = (r, omega arith, refl)
Steps-Rests i s r (next ss st) = Step-Rests i (bodies i s.channel) s.phase st (Steps-Rests i s r ss)

Steps-trans : {s t u : Race} {m n : ℕ} → Steps s m t → Steps t n u → (k : ℕ) × Steps s k u
Steps-trans {m = m} ss here = (m, ss)
Steps-trans ss (next ts st) = let (k, us) = Steps-trans ss ts in (suc k, next us st)

-- Once the race of `n` candidates has returned, what it returned stays, and nobody takes an outcome
-- from the channel: when the body of an attempt is in it, also that of a loser that has sent its
-- result only then, it is there after any further steps, and has not been closed.
pub late_bodies_stay :
    (i n : ℕ) {j k : ℕ} {s u : Race}
    → Steps (start_race n) j s
    → is_returned s.phase ≡ true
    → bodies i s.channel ≡ 1
    → Steps s k u
    → (u.phase ≡ s.phase) × (bodies i u.channel ≡ 1) × (bodies i u.closed ≡ 0)
late_bodies_stay i n {s = s} {u = u} reached r one ss =
    let (_, m, q) = Steps-Rests i s r ss in
    let (k, run) = Steps-trans reached ss in
    let (sum, most) = race_bodies i n k u run in
    (q, omega (arith, one, m, sum, most), omega (arith, one, m, sum, most))
