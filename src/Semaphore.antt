-- ===== src/Semaphore.antt =====
-- src/kernel/sched/semaphore.c and include/protura/mutex.h: semaphores, and mutexes, which are
-- semaphores that start at 1. A step runs with the semaphore's spinlock held, from where a task takes
-- it to where it releases it, be that at the end of a call or in `sleep_event_spinlock`.
pub mod Wait
mod Examples
use protura.Base.{
  ℕ, zero, suc, ◌+◌, ◌-◌, ◌==◌, ltb, ◌≡◌, Bool, true, false, List, [], ◌∷◌, ◌++◌, if◌then◌else◌,
}
use protura.Base.Members.{is_in, delete}

-- `struct semaphore`, whether each task is in a sleeping state, and the tasks that have come down
-- and not gone up again.
pub record Semaphore : Type 0 where
  pub count : ℕ
  pub queue : List ℕ
  pub asleep : ℕ → Bool
  pub inside : List ℕ

abbrev pub set_asleep : ℕ → Bool → Semaphore → Semaphore
set_asleep t b s = record s { asleep = λ u. if u == t then b else s.asleep u }

unfoldable pub sem_init : ℕ → Semaphore
sem_init value = record { count = value; queue = []; asleep = λ t. false; inside = [] }

-- `__sem_wake_if_waiting`, on the queue
unfoldable pub wake_first : List ℕ → Semaphore → Semaphore
wake_first [] s = s
wake_first (t ∷ rest) s = set_asleep t false s

abbrev pub sem_wake_if_waiting : Semaphore → Semaphore
sem_wake_if_waiting s = wake_first s.queue s

-- The end of `__sem_down`, once the count is positive.
unfoldable pub come_down : ℕ → Semaphore → Semaphore
come_down t s =
    let s' = record s { queue = delete t s.queue; count = s.count - 1; inside = t ∷ s.inside } in
    if ltb 0 (s.count - 1) then sem_wake_if_waiting s' else s'

-- A round of `sleep_event_spinlock`: the task is set to sleep, and goes on if the count is positive.
unfoldable pub try_or_sleep : ℕ → Semaphore → Semaphore
try_or_sleep t s = if ltb 0 s.count then come_down t (set_asleep t false s) else set_asleep t true s

-- `sem_down` up to its first sleep.
unfoldable pub sem_down : ℕ → Semaphore → Semaphore
sem_down t s = try_or_sleep t (record s { queue = s.queue ++ (t ∷ []) })

unfoldable pub sem_try_down : ℕ → Semaphore → Bool × Semaphore
sem_try_down t s =
    if s.count == 0
    then (false, s)
    else (true, record s { count = s.count - 1; inside = t ∷ s.inside })

unfoldable pub sem_up : ℕ → Semaphore → Semaphore
sem_up t s = sem_wake_if_waiting (record s { count = s.count + 1; inside = delete t s.inside })

-- The steps of tasks on one semaphore. A task may be woken for other reasons as well.
pub data Step (s : Semaphore) : Semaphore → Type 0 where
  arrive : (t : ℕ) → is_in t s.queue ≡ false → Step s (sem_down t s)
  resume : (t : ℕ) → is_in t s.queue ≡ true → s.asleep t ≡ false → Step s (try_or_sleep t s)
  try_down : (t : ℕ) → is_in t s.queue ≡ false → Step s (sem_try_down t s).1
  up : (t : ℕ) → is_in t s.inside ≡ true → Step s (sem_up t s)
  woken : (t : ℕ) → Step s (set_asleep t false s)

pub data Reach (value : ℕ) : Semaphore → Type 0 where
  start : Reach value (sem_init value)
  later : {s t : Semaphore} → Reach value s → Step s t → Reach value t
