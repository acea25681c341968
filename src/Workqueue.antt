-- ===== src/Workqueue.antt =====
-- src/kernel/sched/workqueue.c: the works that threads run. A step runs with the queue's spinlock
-- held: an addition, or what a thread does from the end of a callback to the start of the next one
-- or to its sleep. The threads of a queue are known by their place in `work_threads`.
pub mod Once
pub mod Runs
pub mod Reached
pub mod Awake
mod Examples
use protura.Base.{
  ℕ, zero, suc, ◌+◌, ◌%◌, ◌==◌, ltb, ◌≡◌, Bool, true, false, ◌||◌, Option, none, some, List, [],
  ◌∷◌, ◌++◌, length, get_elem?, set, replicate, if◌then◌else◌,
}
use protura.Base.Members.{is_in, delete}

-- Where a thread is: before `sleep_event_spinlock` or in it, or in a callback, with `clear_work`.
pub data Thread : Type 0 where
  idle : Bool → Thread
  busy : ℕ → Bool → Thread

-- `struct workqueue`, and the flags of the works.
pub record Workqueue : Type 0 where
  pub work_list : List ℕ
  pub work_running_list : List ℕ
  pub threads : List Thread
  pub wake_next_thread : ℕ
  pub scheduled : ℕ → Bool
  pub oneshot : ℕ → Bool

unfoldable pub workqueue_start_multiple : ℕ → (ℕ → Bool) → Workqueue
workqueue_start_multiple thread_count oneshot = record {
  work_list = [];
  work_running_list = [];
  threads = replicate thread_count (idle false);
  wake_next_thread = 0;
  scheduled = λ w. false;
  oneshot = oneshot;
}

abbrev pub set_flag : ℕ → Bool → (ℕ → Bool) → ℕ → Bool
set_flag w b flags = λ u. if u == w then b else flags u

-- `scheduler_task_wake`
unfoldable pub wake : Thread → Thread
wake (idle asleep) = idle false
wake (busy w clear) = busy w clear

unfoldable pub wake_at : List Thread → ℕ → List Thread
wake_at [] i = []
wake_at (t ∷ ts) zero = wake t ∷ ts
wake_at (t ∷ ts) (suc i) = t ∷ wake_at ts i

abbrev pub wake_next : Workqueue → Workqueue
wake_next q =
    if ltb 0 (length q.threads)
    then record q {
      threads = wake_at q.threads q.wake_next_thread;
      wake_next_thread = (q.wake_next_thread + 1) % length q.threads;
    }
    else q

-- The flag, and the list unless the work is in one.
unfoldable pub enlist : ℕ → Workqueue → Workqueue
enlist w q = record q {
  scheduled = set_flag w true q.scheduled;
  work_list =
      if is_in w q.work_list || is_in w q.work_running_list
      then q.work_list
      else q.work_list ++ (w ∷ []);
}

unfoldable pub workqueue_add_work : ℕ → Workqueue → Workqueue
workqueue_add_work w q = wake_next (enlist w q)

-- A thread puts its work away: `list_del`, from the list that has it, and back to the end.
unfoldable pub put_away : ℕ → Workqueue → Workqueue
put_away w q =
    let rest = delete w q.work_list in
    record q {
      work_running_list = delete w q.work_running_list;
      work_list = if q.scheduled w then rest ++ (w ∷ []) else rest;
    }

-- It takes the first work, or sleeps if there is none.
unfoldable pub take_first : List ℕ → ℕ → Workqueue → Workqueue
take_first [] i q = record q { threads = set q.threads i (idle true) }
take_first (w ∷ rest) i q = record q {
  work_list = rest;
  work_running_list = if q.oneshot w then q.work_running_list else q.work_running_list ++ (w ∷ []);
  scheduled = set_flag w false q.scheduled;
  threads = set q.threads i (busy w (q.oneshot w));
}

abbrev pub take_work : ℕ → Workqueue → Workqueue
take_work i q = take_first q.work_list i q

-- The round of `workqueue_thread` that thread `i` makes from where it is.
unfoldable pub workqueue_thread : Thread → ℕ → Workqueue → Workqueue
workqueue_thread (idle asleep) i q = take_work i q
workqueue_thread (busy w clear) i q = take_work i (if clear then q else put_away w q)

pub data Step (q : Workqueue) : Workqueue → Type 0 where
  add : (w : ℕ) → Step q (workqueue_add_work w q)
  round_idle :
      (i : ℕ)
      → get_elem? q.threads i ≡ some (idle false)
      → Step q (workqueue_thread (idle false) i q)
  round_busy :
      (i w : ℕ) (clear : Bool)
      → get_elem? q.threads i ≡ some (busy w clear)
      → Step q (workqueue_thread (busy w clear) i q)
  woken : (i : ℕ) → Step q (record q { threads = wake_at q.threads i })

pub data Reach (thread_count : ℕ) (oneshot : ℕ → Bool) : Workqueue → Type 0 where
  start : Reach thread_count oneshot (workqueue_start_multiple thread_count oneshot)
  later :
      {q q' : Workqueue} → Reach thread_count oneshot q → Step q q' → Reach thread_count oneshot q'
