-- ===== src/Examples/Scheduler/Race.antt =====
-- Runs of the concurrent strategy (concurrent.go): a race of two, in which both succeed, and the
-- loser sends its result after the race has returned.
use oh_my_api.Base.{
  ℕ, zero, ◌+◌, ◌*◌, ◌≤◌, ◌≡◌, refl, ◌⊎◌, true, false, none, some, [], ◌∷◌, length, All, Some,
}
use oh_my_api.Scheduler.Types.{success, Result, result}
use oh_my_api.Scheduler.Race.{
  Arrival, Race, returned, is_returned, receive_outcome, with_phase, Held, Step, send, receive,
  Steps, here, next, start_race,
}
use oh_my_api.Scheduler.Race.Progress.{race_ends}
use oh_my_api.Scheduler.Race.Bodies.{bodies, in_phase, race_bodies, late_bodies_stay}
use oh_my_api.Scheduler.Race.Best.{is_success, best_failure}
use oh_my_api.Scheduler.Race.Returns.{race_returns}
use oh_my_api.Scheduler.Concurrent.{execute}
use oh_my_api.Scheduler.Concurrent.Candidates.{Races, execute-Races}
use oh_my_api.Examples.Scheduler.Upstreams.{env, world, down, broke, good, result_of}

abbrev won : Result
won = record (result_of good 200) { failure_kind = success }

abbrev arrival : ℕ → Arrival
arrival i = record { index = i; outcome = result won }

abbrev nothing_held : Held
nothing_held = record { last_hard_result = none; last_hard_err = none; last_soft_result = none }

-- The first attempt has ended.
abbrev sent : Race
sent = record (start_race 2) { running = 1 ∷ []; channel = arrival 0 ∷ []; over = arrival 0 ∷ [] }

-- The loop has taken its outcome, and returned.
abbrev over : Race
over =
    with_phase (record sent { channel = []; remaining = 1 })
      (receive_outcome (arrival 0) nothing_held [])

-- The second attempt ends, and sends its result.
abbrev late : Race
late = record over { running = []; channel = arrival 1 ∷ []; over = arrival 0 ∷ arrival 1 ∷ [] }

first_step : Step (start_race 2) sent
unfolding start_race
first_step = send zero 0 (result won) refl refl

second_step : Step sent over
unfolding start_race
second_step = receive nothing_held (arrival 0) [] 1 refl refl refl refl

late_step : Step over late
unfolding start_race receive_outcome
late_step = send zero 1 (result won) refl refl

run : Steps (start_race 2) 2 over
run = next (next here first_step) second_step

over-returned : is_returned over.phase ≡ true
unfolding receive_outcome
over-returned = refl

-- The body of the loser lies in the channel of a race that is over, and is not closed.
late_body :
    (bodies 1 late.channel ≡ 1) × (bodies 1 late.closed ≡ 0) × (is_returned late.phase ≡ true)
unfolding receive_outcome start_race
late_body = (refl, refl, refl)

race_ends_example : (2 ≤ 2 * 2 + 2) × (is_returned over.phase ≡ false → (u : Race) × Step over u)
race_ends_example = race_ends 2 2 over run

race_bodies_example :
    (bodies 0 over.closed + bodies 0 over.channel + in_phase 0 over.phase ≡ bodies 0 over.over)
    × (bodies 0 over.over ≤ 1)
race_bodies_example = race_bodies 0 2 2 over run

race_returns_example :
    ((a : Arrival) × Some (λ b. b ≡ a) over.over
      × (is_success a ≡ true)
      × (over.phase ≡ returned (some a.index) a.outcome))
    ⊎ ((length over.over ≡ 2)
        × All (λ a. is_success a ≡ false) over.over
        × (over.phase ≡ best_failure over.over))
unfolding start_race
race_returns_example = race_returns 2 2 over run refl over-returned

late-returned : is_returned late.phase ≡ true
unfolding receive_outcome
late-returned = refl

late_bodies_stay_example :
    (late.phase ≡ over.phase) × (bodies 1 late.channel ≡ 1) × (bodies 1 late.closed ≡ 0)
late_bodies_stay_example = late_bodies_stay 1 2 (next run late_step) late-returned refl here

execute-Races_example :
    Races env (env.minute world.net) world (execute env (down ∷ broke ∷ good ∷ []) world)
execute-Races_example = execute-Races env (down ∷ broke ∷ good ∷ []) world
