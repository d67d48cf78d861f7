-- ===== src/Tests/Timers.antt =====
-- Runs of the timer wheel (ticktimer.cpp), and its theorems at concrete wheels.
use high_perf_server.Base.{◌+◌, ◌-◌, ◌%◌, ◌^◌, ◌≡◌, refl, ◌⊎◌, ◌↔◌, [], ◌∷◌, replicate, arith}
use high_perf_server.Timer.{
  TickTimer, new_timer, mod_timer, place, del_timer, hashed, hashed_below, hashed_in, without, turn,
  cascade, spread,
}
use high_perf_server.Timer.Wheel.{In, Sound, timer, place-Sound}
use high_perf_server.Timer.Firing.{Stands, turns, place-Stands, turn_on_time}

-- An empty wheel just before the tick wraps around.
abbrev late : TickTimer
late = record new_timer { now = 2 ^ 32 - 2 }

late-Sound : Sound late
late-Sound = record { range = omega arith; near = λ i e h. absurd h; far = λ i e h. absurd h }

-- A wheel with one timer, which is due at the next tick.
abbrev one : TickTimer
one = place late 7 1

turn_on_time_example :
    Sound (turn 9 one).1
    × (In (timer late 7 1) (turn 9 one).0 ↔ ((timer late 7 1).expires ≡ (one.now + 1) % 2 ^ 32))
    × (In (timer late 7 1) (turn 9 one).0 ⊎ Stands (timer late 7 1) (turn 9 one).1)
turn_on_time_example =
    turn_on_time 9 one (timer late 7 1)
      (place-Sound late 7 1 (omega arith) (omega arith) late-Sound) (place-Stands late 7 1)

-- A timer that is set for more than 65536 ticks is taken out too early: this one at the 256th tick.
early :
    (turn 1 (turns (replicate 255 1) (mod_timer new_timer 7 65792))).0
    ≡ timer new_timer 7 65792 ∷ []
unfolding turn cascade spread mod_timer place del_timer hashed hashed_below hashed_in without
early = refl

-- A timer that is set for 0 ticks is not taken out by the next tick, but by the 256th.
not_at_once : (turn 1 (mod_timer new_timer 7 0)).0 ≡ []
unfolding turn cascade spread mod_timer place del_timer hashed hashed_below hashed_in without
not_at_once = refl

round_later :
    (turn 1 (turns (replicate 255 1) (mod_timer new_timer 7 0))).0 ≡ timer new_timer 7 0 ∷ []
unfolding turn cascade spread mod_timer place del_timer hashed hashed_below hashed_in without
round_later = refl
