-- ===== src/KTimer/Fire.antt =====
-- What a tick fires.
use protura.Base.{
  ℕ, zero, suc, ◌+◌, ◌*◌, ◌/◌, ◌<◌, ◌≤◌, ◌≡◌, inl, inr, refl, ap, sym, ◌∙◌, true, false, Option,
  none, some, List, [], ◌∷◌, ◌++◌, append-nil, append_assoc, length, All, arith, Bool-cases, ltb,
  if◌then◌else◌,
}
use protura.KTimer.{Timers, is_scheduled, set_tick, timer_add, timer_handle_timers}
use protura.KTimer.Order.{IsSorted, set_tick_self}

-- The timers that are due were fired in order, and the others wait.
pub record Fires (tick : ℕ) (ts ts' : Timers) : Type 0 where
  pub due : List ℕ
  pub parts : ts.timer_list ≡ due ++ ts'.timer_list
  pub log : ts'.fired ≡ ts.fired ++ due
  pub all_due : All (λ u. ts.wake_up_tick u ≤ tick) due
  pub none_due : All (λ u. tick < ts.wake_up_tick u) ts'.timer_list
  pub idle : ts'.current ≡ none

abbrev run : ℕ → List ℕ → Timers → Timers
run timer rest ts = record ts {
  timer_list = rest;
  current = some timer;
  fired = ts.fired ++ (timer ∷ []);
}

-- One round, by the list of timers.
module _ (callback : ℕ → Timers → Timers) (fuel tick : ℕ) (ts : Timers) where
  handle_list :
      (xs : List ℕ)
      → ts.timer_list ≡ xs
      → timer_handle_timers callback (suc fuel) tick ts ≡ elim xs [
        | [] ↦ some (record ts { current = none })
        | timer ∷ rest ↦
            if ltb tick (ts.wake_up_tick timer)
            then some (record ts { current = none })
            else timer_handle_timers callback fuel tick (callback timer (run timer rest ts))
      ]
  unfolding timer_handle_timers
  handle_list xs e =
      ap
        (λ (l : List ℕ). elim l as (λ y. Option Timers) [
          | [] ↦ some (record ts { current = none })
          | timer ∷ rest ↦
              if ltb tick (ts.wake_up_tick timer)
              then some (record ts { current = none })
              else timer_handle_timers callback fuel tick (callback timer (run timer rest ts))
        ])
        e

All-lt :
    (ticks : ℕ → ℕ) (tick a : ℕ) (xs : List ℕ)
    → tick < a
    → All (λ u. a ≤ ticks u) xs
    → All (λ u. tick < ticks u) xs
All-lt ticks tick a [] h all = tt
All-lt ticks tick a (x ∷ xs) h all = (omega (arith, h, all.0), All-lt ticks tick a xs h all.1)

nothing_due :
    (tick : ℕ) (ts : Timers) (xs : List ℕ)
    → ts.timer_list ≡ xs
    → All (λ u. tick < ts.wake_up_tick u) xs
    → Fires tick ts (record ts { current = none })
nothing_due tick ts xs e all = record {
  due = [];
  parts = refl;
  log = sym (append-nil ts.fired);
  all_due = tt;
  none_due = rw e all;
  idle = refl;
}

fire_list :
    (callback : ℕ → Timers → Timers) (xs : List ℕ) (fuel tick : ℕ) (ts : Timers)
    → ((t : ℕ) (x : Timers) → callback t x ≡ x)
    → ts.timer_list ≡ xs
    → length xs < fuel
    → IsSorted ts.wake_up_tick xs
    → (ts' : Timers) × (timer_handle_timers callback fuel tick ts ≡ some ts') × Fires tick ts ts'
fire_list callback xs zero tick ts quiet e enough s = absurd (omega arith)
fire_list callback [] (suc fuel) tick ts quiet e enough s = (
  record ts { current = none },
  handle_list callback fuel tick ts [] e,
  nothing_due tick ts [] e tt,
)
fire_list callback (timer ∷ rest) (suc fuel) tick ts quiet e enough s =
    let round = handle_list callback fuel tick ts (timer ∷ rest) e in
    elim (Bool-cases (ltb tick (ts.wake_up_tick timer))) [
      | inl early ↦
          let lt : tick < ts.wake_up_tick timer = ground arith in
          (
            record ts { current = none },
            round ∙ rw early refl,
            nothing_due tick ts (timer ∷ rest) e
                (lt, All-lt ts.wake_up_tick tick (ts.wake_up_tick timer) rest lt s.0),
          )
      | inr due ↦
          let next = run timer rest ts in
          let (ts', e', f) = fire_list callback rest fuel tick next quiet refl (omega arith) s.1 in
          (
            ts',
            round ∙ rw (due, quiet timer next) e',
            record {
              due = timer ∷ f.due;
              parts = e ∙ ap (λ t. timer ∷ t) f.parts;
              log = f.log ∙ append_assoc ts.fired (timer ∷ []) f.due;
              all_due = (ground arith, f.all_due);
              none_due = f.none_due;
              idle = f.idle;
            },
          )
    ]

-- If the timers stand in the order of their ticks, with fuel for one round more than there are
-- timers, and callbacks that leave the timers alone, a tick ends, having fired exactly the timers
-- that are due, the soonest first, and left the others.
pub timer_handle_timers-Fires :
    (callback : ℕ → Timers → Timers) (fuel tick : ℕ) (ts : Timers)
    → ((t : ℕ) (x : Timers) → callback t x ≡ x)
    → length ts.timer_list < fuel
    → IsSorted ts.wake_up_tick ts.timer_list
    → (ts' : Timers) × (timer_handle_timers callback fuel tick ts ≡ some ts') × Fires tick ts ts'
timer_handle_timers-Fires callback fuel tick ts quiet enough s =
    fire_list callback ts.timer_list fuel tick ts quiet refl enough s

scheduled_first : (timer : ℕ) (rest : List ℕ) → is_scheduled timer (timer ∷ rest) ≡ true
unfolding is_scheduled
scheduled_first timer rest = ground arith

-- If the first timer that waits is added again, for a time after `tick`, the call fails, but no timer
-- fires at `tick` any more, not even those that are due.
pub timer_add_again_delays :
    (callback : ℕ → Timers → Timers) (now timer ms tick : ℕ) (rest : List ℕ) (ts : Timers)
    → ts.timer_list ≡ timer ∷ rest
    → tick < now + 2 * ms
    → let (r, ts') = timer_add now timer ms ts in
      (r ≡ false) × (timer_handle_timers callback 1 tick ts' ≡ some (record ts' { current = none }))
unfolding timer_add
timer_add_again_delays callback now timer ms tick rest ts e h =
    let ticks = set_tick ts.wake_up_tick timer (now + ms * (2000 / 1000)) in
    let later = record ts { wake_up_tick = ticks } in
    let there = rw (← e) at (scheduled_first timer rest) in
    let due : ticks timer ≡ now + 2 * ms =
      set_tick_self ts.wake_up_tick timer (now + ms * (2000 / 1000)) ∙ omega arith in
    let early : ltb tick (ticks timer) ≡ true = ground (arith, due) in
    rw there (refl, handle_list callback 0 tick later (timer ∷ rest) e ∙ rw early refl)
