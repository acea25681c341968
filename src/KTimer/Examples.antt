-- ===== src/KTimer/Examples.antt =====
-- Three timers, two of which share a tick.
use protura.Base.{ℕ, ◌≡◌, ◌==◌, if◌then◌else◌, refl, true, false, none, some, [], ◌∷◌, arith}
use protura.KTimer.{Timers, timer_add, timer_handle_timers, is_scheduled, set_tick, insert}
use protura.KTimer.Order.{IsSorted, Inserted, timer_add-IsSorted}
use protura.KTimer.Fire.{Fires, timer_handle_timers-Fires}

abbrev quiet : ℕ → Timers → Timers
quiet t ts = ts

-- Timer 1 wakes at tick 10, timers 2 and 3 at tick 20.
abbrev three : Timers
three = record {
  timer_list = 1 ∷ 2 ∷ 3 ∷ [];
  wake_up_tick = λ t. if t == 1 then 10 else 20;
  current = none;
  fired = [];
}

-- The timer that was added last of those with the same tick is fired first.
overtakes : (timer_add 0 4 10 three).1.timer_list ≡ 1 ∷ 4 ∷ 2 ∷ 3 ∷ []
unfolding timer_add is_scheduled set_tick insert
overtakes = refl

three-IsSorted : IsSorted three.wake_up_tick three.timer_list
three-IsSorted = ((omega arith, (omega arith, tt)), ((omega arith, tt), (tt, tt)))

four_free : is_scheduled 4 three.timer_list ≡ false
unfolding is_scheduled
four_free = refl

timer_add-IsSorted_example :
    let (r, ts) = timer_add 0 4 10 three in
    (r ≡ true)
    × (ts.wake_up_tick 4 ≡ 20)
    × IsSorted ts.wake_up_tick ts.timer_list
    × Inserted ts.wake_up_tick 4 (1 ∷ 2 ∷ 3 ∷ []) ts.timer_list
timer_add-IsSorted_example = timer_add-IsSorted 0 4 10 three four_free three-IsSorted

timer_handle_timers-Fires_example :
    (ts : Timers) × (timer_handle_timers quiet 4 10 three ≡ some ts) × Fires 10 three ts
timer_handle_timers-Fires_example =
    timer_handle_timers-Fires quiet 4 10 three (λ t x. refl) (omega arith) three-IsSorted
