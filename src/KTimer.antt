-- ===== src/KTimer.antt =====
-- src/kernel/ktimer.c: the timers that wait for a tick, the soonest first. Each function runs under
-- the lock of the timers, and a callback outside of it. Ticks are counted without wrapping.
pub mod Order
pub mod Fire
mod Examples
use protura.Base.{
  ℕ, zero, suc, ◌+◌, ◌*◌, ◌/◌, ◌==◌, leb, ltb, Bool, true, false, Option, none, some, List, [], ◌∷◌,
  ◌++◌, if◌then◌else◌,
}

-- A timer is a number, and each has its `wake_up_tick`. `current` is `currently_running_timer`;
-- `fired` lists the timers whose callbacks were called, in order.
pub record Timers : Type 0 where
  pub timer_list : List ℕ
  pub wake_up_tick : ℕ → ℕ
  pub current : Option ℕ
  pub fired : List ℕ

-- `TIMER_TICKS_PER_SEC`
abbrev pub ticks_per_sec : ℕ
ticks_per_sec = 2000

-- `list_node_is_in_list`
unfoldable pub is_scheduled : ℕ → List ℕ → Bool
is_scheduled timer [] = false
is_scheduled timer (t ∷ rest) = if t == timer then true else is_scheduled timer rest

unfoldable pub set_tick : (ℕ → ℕ) → ℕ → ℕ → ℕ → ℕ
set_tick ticks timer tick t = if t == timer then tick else ticks t

-- The timer goes before the first one that is not sooner, or to the end.
unfoldable pub insert : (ℕ → ℕ) → ℕ → List ℕ → List ℕ
insert ticks timer [] = timer ∷ []
insert ticks timer (t ∷ rest) =
    if leb (ticks timer) (ticks t) then timer ∷ t ∷ rest else t ∷ insert ticks timer rest

-- False is -1. The tick is set before the list is looked at.
unfoldable pub timer_add : ℕ → ℕ → ℕ → Timers → Bool × Timers
timer_add now timer ms ts =
    let ticks = set_tick ts.wake_up_tick timer (now + ms * (ticks_per_sec / 1000)) in
    let set = record ts { wake_up_tick = ticks } in
    if is_scheduled timer ts.timer_list
    then (false, set)
    else (true, record set { timer_list = insert ticks timer ts.timer_list })

unfoldable pub remove : ℕ → List ℕ → List ℕ
remove timer [] = []
remove timer (t ∷ rest) = if t == timer then rest else t ∷ remove timer rest

unfoldable pub timer_del : ℕ → Timers → Bool × Timers
timer_del timer ts =
    if is_scheduled timer ts.timer_list
    then (true, record ts { timer_list = remove timer ts.timer_list })
    else (false, ts)

unfoldable pub timer_was_fired : ℕ → Timers → Bool
timer_was_fired timer ts = if is_scheduled timer ts.timer_list then false else true

-- The loop of `timer_handle_timers` on fuel; `none` if that runs out. A callback may do anything to
-- the timers.
unfoldable pub timer_handle_timers : (ℕ → Timers → Timers) → ℕ → ℕ → Timers → Option Timers
timer_handle_timers callback zero tick ts = none
timer_handle_timers callback (suc fuel) tick ts = elim ts.timer_list [
  | [] ↦ some (record ts { current = none })
  | timer ∷ rest ↦
      let running = record ts {
        timer_list = rest;
        current = some timer;
        fired = ts.fired ++ (timer ∷ []);
      } in
      let next = timer_handle_timers callback fuel tick (callback timer running) in
      if ltb tick (ts.wake_up_tick timer) then some (record ts { current = none }) else next
]
