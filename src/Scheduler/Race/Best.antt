-- ===== src/Scheduler/Race/Best.antt =====
-- The answer of a race by the outcomes in their order, and what the loop holds of them.
use oh_my_api.Base.{
  ℕ, ◌≡◌, refl, subst, Bool, true, false, Option, none, some, List, [], ◌∷◌, ◌++◌, inl, inr,
  if◌then◌else◌, arith, Bool-cases, Option-cases,
}
use oh_my_api.Scheduler.Types.{
  Err, Outcome, result, error, success, hard_failure, soft_failure, all_providers_failed,
}
use oh_my_api.Scheduler.Race.{
  Arrival, Held, Phase, waiting, returned, receive_outcome, return_error, return_soft, finish_race,
}

abbrev pub is_success : Arrival → Bool
is_success a = elim a.outcome [
  | result r ↦ elim r.failure_kind [ success ↦ true | _ ↦ false ]
  | error e ↦ false
]

abbrev pub is_hard : Arrival → Bool
is_hard a = elim a.outcome [
  | result r ↦ elim r.failure_kind [ hard_failure ↦ true | _ ↦ false ]
  | error e ↦ false
]

abbrev pub is_soft : Arrival → Bool
is_soft a = elim a.outcome [
  | result r ↦ elim r.failure_kind [ soft_failure ↦ true | _ ↦ false ]
  | error e ↦ false
]

abbrev pub is_error : Arrival → Bool
is_error a = elim a.outcome [ result r ↦ false | error e ↦ true ]

-- The last arrival of a kind; `found` if there is none.
abbrev pub last_by : (Arrival → Bool) → Option Arrival → List Arrival → Option Arrival
last_by f found [] = found
last_by f found (a ∷ rest) = last_by f (if f a then some a else found) rest

abbrev pub or_none : Option Arrival → Phase
or_none (some a) = returned (some a.index) a.outcome
or_none none = returned none (error all_providers_failed)

abbrev pub or_soft : Option Arrival → List Arrival → Phase
or_soft (some a) over = returned none a.outcome
or_soft none over = or_none (last_by is_soft none over)

abbrev pub or_error : Option Arrival → List Arrival → Phase
or_error (some a) over = returned (some a.index) a.outcome
or_error none over = or_soft (last_by is_error none over) over

-- The last hard result; else the last error; else the last soft result; else that all have failed.
abbrev pub best_failure : List Arrival → Phase
best_failure over = or_error (last_by is_hard none over) over

pub last_by-append :
    (f : Arrival → Bool) (found : Option Arrival) (xs : List Arrival) (a : Arrival)
    → last_by f found (xs ++ (a ∷ [])) ≡ (if f a then some a else last_by f found xs)
last_by-append f found [] a = refl
last_by-append f found (x ∷ xs) a = last_by-append f (if f x then some x else found) xs a

abbrev pub err_in : Option Arrival → Option Err
err_in none = none
err_in (some a) = elim a.outcome [ result r ↦ none | error e ↦ some e ]

-- What the loop holds after some arrivals.
abbrev pub held_of : List Arrival → Held
held_of xs = record {
  last_hard_result = last_by is_hard none xs;
  last_hard_err = err_in (last_by is_error none xs);
  last_soft_result = last_by is_soft none xs;
}

-- The phase after one more arrival.
pub receive-held_of :
    (xs : List Arrival) (j : ℕ) (o : Outcome) (closed : List Arrival)
    → let a : Arrival = record { index = j; outcome = o } in
      (receive_outcome a (held_of xs) closed).0
      ≡ (if is_success a then returned (some j) o else waiting (held_of (xs ++ (a ∷ []))))
unfolding receive_outcome
receive-held_of xs j (error e) closed =
    let a : Arrival = record { index = j; outcome = error e } in
    rw (
      last_by-append is_hard none xs a,
      last_by-append is_error none xs a,
      last_by-append is_soft none xs a,
    )
receive-held_of xs j (result r) closed =
    let a : Arrival = record { index = j; outcome = result r } in
    ground (
      arith,
      last_by-append is_hard none xs a,
      last_by-append is_error none xs a,
      last_by-append is_soft none xs a,
    )

-- What is found is of the kind.
abbrev pub Fits : (Arrival → Bool) → Option Arrival → Type 0
Fits f none = Unit {0}
Fits f (some a) = f a ≡ true

pub last_by_is :
    (f : Arrival → Bool) (found : Option Arrival) (xs : List Arrival)
    → Fits f found
    → (a : Arrival) → last_by f found xs ≡ some a
    → f a ≡ true
last_by_is f found [] h a e = subst (Fits f) e h
last_by_is f found (x ∷ xs) h a e =
    last_by_is f (if f x then some x else found) xs
      (elim (Bool-cases (f x)) [ inl t ↦ rw t t | inr t ↦ rw t h ]) a e

pub error_returns :
    (a : Arrival) (soft : Option Arrival) (closed : List Arrival)
    → is_error a ≡ true
    → (return_error (err_in (some a)) soft closed).0 ≡ returned none a.outcome
error_returns a soft closed h = ground arith

pub soft_returns :
    (soft : Option Arrival) (closed : List Arrival) → (return_soft soft closed).0 ≡ or_none soft
soft_returns none closed = refl
soft_returns (some a) closed = refl

pub finish-best :
    (xs : List Arrival) (closed : List Arrival)
    → (finish_race (held_of xs) closed).0 ≡ best_failure xs
unfolding finish_race
finish-best xs closed = elim (Option-cases (last_by is_hard none xs)) [
  | inr (a, e) ↦ rw (e, finish_race)
  | inl e ↦ elim (Option-cases (last_by is_error none xs)) [
    | inr (a, f) ↦
        rw (e, f, finish_race)
          (error_returns a (last_by is_soft none xs) closed (last_by_is is_error none xs tt a f))
    | inl f ↦ rw (e, f, finish_race) (soft_returns (last_by is_soft none xs) closed)
  ]
]
