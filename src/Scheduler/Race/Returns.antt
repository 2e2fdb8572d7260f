-- ===== src/Scheduler/Race/Returns.antt =====
-- What the race returns.
use mathlib.Core.List.{append_assoc}
use oh_my_api.Base.{
  ℕ, ◌+◌, ◌≡◌, refl, sym, ap, subst, ◌∙◌, true, false, Option, none, some, List, [], ◌∷◌, ◌++◌, ◌⊎◌,
  inl, inr, get_elem?, erase_idx, is_some, length, length-append, arith, Bool-cases, All, Some,
  All-append,
}
use oh_my_api.Scheduler.Types.{Outcome}
use oh_my_api.Scheduler.Abort.{Abort}
use oh_my_api.Scheduler.Race.{
  Arrival, Held, Phase, waiting, returned, Race, receive_outcome, finish_race, is_returned,
  close_lost, ended, with_phase, Step, send, drop, die, receive, abort, finish, Steps, here, next,
  start_race,
}
use oh_my_api.Scheduler.Race.Progress.{IsCounted, Steps-IsCounted, length-erase_idx, length-indices}
use oh_my_api.Scheduler.Race.Best.{is_success, best_failure, held_of, receive-held_of, finish-best}

abbrev NoSuccess : List Arrival → Type 0
NoSuccess xs = All (λ a. is_success a ≡ false) xs

-- Where the race stands, as long as the context lives.
data Standing (s : Race) : Type 0 where
  waits :
      (xs : List Arrival)
      → s.over ≡ xs ++ s.channel
      → s.phase ≡ waiting (held_of xs)
      → NoSuccess xs
      → Standing s
  won :
      (a : Arrival)
      → Some (λ b. b ≡ a) s.over
      → is_success a ≡ true
      → s.phase ≡ returned (some a.index) a.outcome
      → Standing s
  lost : s.running ≡ [] → NoSuccess s.over → s.phase ≡ best_failure s.over → Standing s

start-Standing : (n : ℕ) → Standing (start_race n)
unfolding start_race
start-Standing n = waits [] refl refl tt

Among-append :
    (a : Arrival) (xs ys : List Arrival) → Some (λ b. b ≡ a) xs → Some (λ b. b ≡ a) (xs ++ ys)
Among-append a [] ys h = absurd h
Among-append a (x ∷ xs) ys (inl h) = inl h
Among-append a (x ∷ xs) ys (inr h) = inr (Among-append a xs ys h)

Among-middle : (a : Arrival) (xs ys : List Arrival) → Some (λ b. b ≡ a) (xs ++ (a ∷ ys))
Among-middle a [] ys = inl refl
Among-middle a (x ∷ xs) ys = inr (Among-middle a xs ys)

none_runs : (run : List ℕ) (k i : ℕ) → run ≡ [] → get_elem? run k ≡ some i → ⊥
none_runs run k i e h = no_elem (subst (λ l. get_elem? l k ≡ some i) e h)
  where
    no_elem : none ≡ some i → ⊥
    no_elem q = cc

best-returned : (over : List Arrival) {h : Held} → best_failure over ≡ waiting h → ⊥
best-returned over e = ground arith

held-injective : {h h' : Held} → waiting h ≡ waiting h' → h ≡ h'
held-injective e = cc

returned-waiting : {h : Held} {kept : Option ℕ} {o : Outcome} → returned kept o ≡ waiting h → ⊥
returned-waiting e = cc

-- An attempt has ended; its arrival is in the channel or not.
ended-Standing :
    (s : Race) (k j : ℕ) (o : Outcome)
    → get_elem? s.running k ≡ some j
    → Standing s
    → let a : Arrival = record { index = j; outcome = o } in
      Standing (record (ended s k a) { channel = s.channel ++ (a ∷ []) })
ended-Standing s k j o g (waits xs e p ns) =
    let a : Arrival = record { index = j; outcome = o } in
    waits xs (ap (λ l. l ++ (a ∷ [])) e ∙ append_assoc xs s.channel (a ∷ [])) p ns
ended-Standing s k j o g (won b m w p) =
    won b (Among-append b s.over (record { index = j; outcome = o } ∷ []) m) w p
ended-Standing s k j o g (lost r ns p) = absurd (none_runs s.running k j r g)

dropped-Standing :
    (s : Race) (k j : ℕ) (o : Outcome) (closed : List Arrival)
    → get_elem? s.running k ≡ some j
    → is_returned s.phase ≡ true
    → Standing s
    → Standing (record (ended s k (record { index = j; outcome = o })) { closed = closed })
dropped-Standing s k j o closed g r (waits xs e p ns) = absurd (waiting_not p r)
  where
    waiting_not : {ph : Phase} {h : Held} → ph ≡ waiting h → is_returned ph ≡ true → ⊥
    waiting_not q r' = ground (arith, ap is_returned q)
dropped-Standing s k j o closed g r (won b m w p) =
    won b (Among-append b s.over (record { index = j; outcome = o } ∷ []) m) w p
dropped-Standing s k j o closed g r (lost r' ns p) = absurd (none_runs s.running k j r' g)

received-Standing :
    (s : Race) (h : Held) (a : Arrival) (rest : List Arrival) (n : ℕ)
    → s.phase ≡ waiting h
    → s.channel ≡ a ∷ rest
    → Standing s
    → Standing
        (with_phase (record s { channel = rest; remaining = n }) (receive_outcome a h s.closed))
received-Standing s h a rest n p q (waits xs e p' ns) =
    let phase =
      ap (λ x. (receive_outcome a x s.closed).0) (held-injective (sym p ∙ p'))
      ∙ receive-held_of xs a.index a.outcome s.closed in
    let over : s.over ≡ xs ++ (a ∷ rest) = e ∙ ap (λ l. xs ++ l) q in
    elim (Bool-cases (is_success a)) [
      | inl w ↦
          won a (subst (λ l. Some (λ b. b ≡ a) l) (sym over) (Among-middle a xs rest)) w
            (phase ∙ rw w refl)
      | inr l ↦
          waits (xs ++ (a ∷ [])) (over ∙ sym (append_assoc xs (a ∷ []) rest)) (phase ∙ rw l refl)
            (All-append _ xs (a ∷ []) ns (l, tt))
    ]
received-Standing s h a rest n p q (won b m w p') = absurd (returned-waiting (sym p' ∙ p))
received-Standing s h a rest n p q (lost r ns p') = absurd (best-returned s.over (sym p' ∙ p))

finished-Standing :
    (s : Race) (h : Held)
    → s.phase ≡ waiting h
    → length s.running + length s.channel ≡ 0
    → Standing s
    → Standing (with_phase s (finish_race h s.closed))
finished-Standing s h p z (waits xs e p' ns) =
    let over : s.over ≡ xs =
      e ∙ ap (λ l. xs ++ l) (empty s.channel (omega (arith, z))) ∙ append-nil xs in
    lost (empty s.running (omega (arith, z))) (subst NoSuccess (sym over) ns) (
      ap (λ x. (finish_race x s.closed).0) (held-injective (sym p ∙ p'))
      ∙ finish-best xs s.closed
      ∙ ap best_failure (sym over))
  where
    empty : {A : Type 0} (l : List A) → length l ≡ 0 → l ≡ []
    empty [] m = refl
    empty (x ∷ l) m = absurd (omega (arith, m))

    append-nil : (l : List Arrival) → l ++ [] ≡ l
    append-nil [] = refl
    append-nil (x ∷ l) = ap (◌∷◌ x) (append-nil l)
finished-Standing s h p z (won b m w p') = absurd (returned-waiting (sym p' ∙ p))
finished-Standing s h p z (lost r ns p') = absurd (best-returned s.over (sym p' ∙ p))

Step-Standing :
    {s u : Race}
    → Step s u
    → IsCounted s
    → (s.dead ≡ none → Standing s)
    → u.dead ≡ none
    → Standing u
Step-Standing {s} {u} (send k j o g e) c h alive =
    rw e (ended-Standing s k j o g (h (rw e at alive)))
Step-Standing {s} {u} (drop k j o g l e) c h alive =
    let alive' : s.dead ≡ none = rw e at alive in
    rw e (
      dropped-Standing s k j o (close_lost (record { index = j; outcome = o }) s.closed) g
        (returned_of l alive') (h alive'))
  where
    returned_of :
        (is_returned s.phase ≡ true) ⊎ (is_some s.dead ≡ true)
        → s.dead ≡ none
        → is_returned s.phase ≡ true
    returned_of (inl r) d = r
    returned_of (inr x) d = ground arith
Step-Standing {s} {u} (die ctx g e) c h alive = let dead : some ctx ≡ none = rw e at alive in cc
Step-Standing {s} {u} (receive x a rest n p q m e) c h alive =
    rw e (received-Standing s x a rest n p q (h (rw e at alive)))
Step-Standing {s} {u} (abort x ctx n p d m e) c h alive =
    let alive' : s.dead ≡ none = rw e at alive in absurd (both d alive')
  where
    both : {o : Option Abort} → o ≡ some ctx → o ≡ none → ⊥
    both x y = cc
Step-Standing {s} {u} (finish x p m e) c h alive =
    let alive' : s.dead ≡ none = rw e at alive in
    rw e (finished-Standing s x p (c (rw p refl) alive' ∙ m) (h alive'))

Steps-Standing : (n : ℕ) {k : ℕ} {u : Race} → Steps (start_race n) k u → u.dead ≡ none → Standing u
Steps-Standing n here alive = start-Standing n
Steps-Standing n (next ss st) alive =
    Step-Standing st (Steps-IsCounted n ss) (Steps-Standing n ss) alive

ended-HasAll :
    (n : ℕ) (s : Race) (k j : ℕ) (a : Arrival)
    → get_elem? s.running k ≡ some j
    → length s.over + length s.running ≡ n
    → length (s.over ++ (a ∷ [])) + length (erase_idx s.running k) ≡ n
ended-HasAll n s k j a g h =
    omega (arith, h, length-append {0} s.over (a ∷ []), length-erase_idx s.running k j g)

Step-HasAll :
    (n : ℕ) {s u : Race}
    → Step s u
    → length s.over + length s.running ≡ n
    → length u.over + length u.running ≡ n
Step-HasAll n {s} (send k j o g e) h =
    rw e (ended-HasAll n s k j (record { index = j; outcome = o }) g h)
Step-HasAll n {s} (drop k j o g l e) h =
    rw e (ended-HasAll n s k j (record { index = j; outcome = o }) g h)
Step-HasAll n (die ctx g e) h = rw e h
Step-HasAll n (receive x a rest m p q r e) h = rw e h
Step-HasAll n (abort x ctx m p d r e) h = rw e h
Step-HasAll n (finish x p m e) h = rw e h

Steps-HasAll :
    (n : ℕ) {k : ℕ} {u : Race} → Steps (start_race n) k u → length u.over + length u.running ≡ n
Steps-HasAll n here = unfold start_race in omega (arith, length-indices 0 n)
Steps-HasAll n (next ss st) = Step-HasAll n st (Steps-HasAll n ss)

-- If the race has returned and the request's context lives: it returned a success, with which an
-- attempt has ended, and keeps that attempt's context; or all attempts have ended, none with a
-- success, and it returned the last hard result, else the last error, else the last soft result, in
-- the order in which they ended, else (with no attempt) that all have failed.
pub race_returns :
    (n k : ℕ) (s : Race)
    → Steps (start_race n) k s
    → s.dead ≡ none
    → is_returned s.phase ≡ true
    → ((a : Arrival) × Some (λ b. b ≡ a) s.over
        × (is_success a ≡ true)
        × (s.phase ≡ returned (some a.index) a.outcome))
      ⊎ ((length s.over ≡ n)
          × All (λ a. is_success a ≡ false) s.over
          × (s.phase ≡ best_failure s.over))
race_returns n k s ss alive r = go (Steps-Standing n ss alive)
  where
    waiting_not : {ph : Phase} {h : Held} → ph ≡ waiting h → is_returned ph ≡ true → ⊥
    waiting_not q r' = ground (arith, ap is_returned q)

    go :
        Standing s
        → ((a : Arrival) × Some (λ b. b ≡ a) s.over
            × (is_success a ≡ true)
            × (s.phase ≡ returned (some a.index) a.outcome))
          ⊎ ((length s.over ≡ n)
              × All (λ a. is_success a ≡ false) s.over
              × (s.phase ≡ best_failure s.over))
    go (waits xs e p ns) = absurd (waiting_not p r)
    go (won a m w p) = inl (a, m, w, p)
    go (lost q ns p) = inr (omega (arith, Steps-HasAll n ss, ap length q), ns, p)
