-- ===== src/KTimer/Order.antt =====
-- Adding and removing timers keeps the soonest first, unless a timer is added that waits already.
use protura.Base.{
  ℕ, ◌+◌, ◌*◌, ◌/◌, ◌<◌, ◌≤◌, ◌≡◌, ◌≢◌, inl, inr, refl, ap, ◌∙◌, true, false, List, [], ◌∷◌, ◌++◌,
  All, arith, Bool-cases, leb,
}
use protura.KTimer.{Timers, is_scheduled, set_tick, insert, timer_add}

-- The soonest first.
abbrev pub IsSorted : (ℕ → ℕ) → List ℕ → Type 0
IsSorted ticks [] = Unit
IsSorted ticks (t ∷ rest) = All (λ u. ticks t ≤ ticks u) rest × IsSorted ticks rest

-- Where a timer went in: behind the sooner ones, before all others.
pub record Inserted (ticks : ℕ → ℕ) (timer : ℕ) (old new : List ℕ) : Type 0 where
  pub before : List ℕ
  pub after : List ℕ
  pub was : old ≡ before ++ after
  pub is_now : new ≡ before ++ (timer ∷ after)
  pub sooner : All (λ u. ticks u < ticks timer) before
  pub later : All (λ u. ticks timer ≤ ticks u) after

All-le_trans :
    (ticks : ℕ → ℕ) (a b : ℕ) (xs : List ℕ)
    → a ≤ b
    → All (λ u. b ≤ ticks u) xs
    → All (λ u. a ≤ ticks u) xs
All-le_trans ticks a b [] h all = tt
All-le_trans ticks a b (x ∷ xs) h all = (omega (arith, h, all.0), All-le_trans ticks a b xs h all.1)

insert-Inserted :
    (ticks : ℕ → ℕ) (timer : ℕ) (xs : List ℕ)
    → IsSorted ticks xs
    → Inserted ticks timer xs (insert ticks timer xs)
unfolding insert
insert-Inserted ticks timer [] s = record {
  before = [];
  after = [];
  was = refl;
  is_now = refl;
  sooner = tt;
  later = tt;
}
insert-Inserted ticks timer (t ∷ rest) s = elim (Bool-cases (leb (ticks timer) (ticks t))) [
  | inl here ↦
      let le : ticks timer ≤ ticks t = ground arith in
      rw here (record {
        before = [];
        after = t ∷ rest;
        was = refl;
        is_now = refl;
        sooner = tt;
        later = (le, All-le_trans ticks (ticks timer) (ticks t) rest le s.0);
      })
  | inr sooner ↦
      let r = insert-Inserted ticks timer rest s.1 in
      rw sooner (record {
        before = t ∷ r.before;
        after = r.after;
        was = ap (λ x. t ∷ x) r.was;
        is_now = ap (λ x. t ∷ x) r.is_now;
        sooner = (ground arith, r.sooner);
        later = r.later;
      })
]

All-insert :
    (ticks : ℕ → ℕ) (a timer : ℕ) (xs : List ℕ)
    → a ≤ ticks timer
    → All (λ u. a ≤ ticks u) xs
    → All (λ u. a ≤ ticks u) (insert ticks timer xs)
unfolding insert
All-insert ticks a timer [] h all = (h, tt)
All-insert ticks a timer (t ∷ rest) h all = elim (Bool-cases (leb (ticks timer) (ticks t))) [
  | inl here ↦ rw here (h, all)
  | inr sooner ↦ rw sooner (all.0, All-insert ticks a timer rest h all.1)
]

insert-IsSorted :
    (ticks : ℕ → ℕ) (timer : ℕ) (xs : List ℕ)
    → IsSorted ticks xs
    → IsSorted ticks (insert ticks timer xs)
unfolding insert
insert-IsSorted ticks timer [] s = (tt, tt)
insert-IsSorted ticks timer (t ∷ rest) s = elim (Bool-cases (leb (ticks timer) (ticks t))) [
  | inl here ↦
      let le : ticks timer ≤ ticks t = ground arith in
      rw here ((le, All-le_trans ticks (ticks timer) (ticks t) rest le s.0), s)
  | inr sooner ↦
      let le : ticks t ≤ ticks timer = ground arith in
      rw sooner (All-insert ticks (ticks t) timer rest le s.0, insert-IsSorted ticks timer rest s.1)
]

-- The tick of a timer that does not wait is of no account to the order.
set_tick-All :
    (ticks : ℕ → ℕ) (timer tick a : ℕ) (xs : List ℕ)
    → is_scheduled timer xs ≡ false
    → All (λ u. a ≤ ticks u) xs
    → All (λ u. a ≤ set_tick ticks timer tick u) xs
unfolding is_scheduled set_tick
set_tick-All ticks timer tick a [] h all = tt
set_tick-All ticks timer tick a (x ∷ xs) h all =
    (ground (arith, all.0), set_tick-All ticks timer tick a xs (ground arith) all.1)

set_tick_other :
    (ticks : ℕ → ℕ) (timer tick x : ℕ) → x ≢ timer → set_tick ticks timer tick x ≡ ticks x
unfolding set_tick
set_tick_other ticks timer tick x h = ground arith

pub set_tick_self : (ticks : ℕ → ℕ) (timer tick : ℕ) → set_tick ticks timer tick timer ≡ tick
unfolding set_tick
set_tick_self ticks timer tick = ground arith

set_tick-IsSorted :
    (ticks : ℕ → ℕ) (timer tick : ℕ) (xs : List ℕ)
    → is_scheduled timer xs ≡ false
    → IsSorted ticks xs
    → IsSorted (set_tick ticks timer tick) xs
unfolding is_scheduled
set_tick-IsSorted ticks timer tick [] h s = tt
set_tick-IsSorted ticks timer tick (x ∷ xs) h s =
    let other : is_scheduled timer xs ≡ false = ground arith in
    let same : set_tick ticks timer tick x ≡ ticks x =
      set_tick_other ticks timer tick x (ground arith) in
    (
      rw same (set_tick-All ticks timer tick (ticks x) xs other s.0),
      set_tick-IsSorted ticks timer tick xs other s.1,
    )

-- Adding a timer that does not wait, to timers in order, succeeds and keeps them in order: the timer
-- wakes two ticks a millisecond from now, and stands behind the sooner timers and before those of
-- the same tick, which it overtakes.
pub timer_add-IsSorted :
    (now timer ms : ℕ) (ts : Timers)
    → is_scheduled timer ts.timer_list ≡ false
    → IsSorted ts.wake_up_tick ts.timer_list
    → let (r, ts') = timer_add now timer ms ts in
      (r ≡ true)
      × (ts'.wake_up_tick timer ≡ now + 2 * ms)
      × IsSorted ts'.wake_up_tick ts'.timer_list
      × Inserted ts'.wake_up_tick timer ts.timer_list ts'.timer_list
unfolding timer_add
timer_add-IsSorted now timer ms ts out s =
    let tick = now + ms * (2000 / 1000) in
    let ticks = set_tick ts.wake_up_tick timer tick in
    let sorted = set_tick-IsSorted ts.wake_up_tick timer tick ts.timer_list out s in
    rw out (
      refl,
      set_tick_self ts.wake_up_tick timer tick ∙ omega arith,
      insert-IsSorted ticks timer ts.timer_list sorted,
      insert-Inserted ticks timer ts.timer_list sorted,
    )
