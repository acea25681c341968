-- ===== src/Workqueue/Examples.antt =====
-- Two threads and a work that is scheduled again while it runs.
use protura.Base.{ℕ, ◌<◌, ◌≤◌, ◌≡◌, refl, Bool, true, false, ◌⊎◌, [], ◌∷◌, ◌++◌, length, arith}
use protura.Base.Members.{is_in, count}
use protura.Workqueue.{
  Workqueue, idle, workqueue_start_multiple, wake, wake_at, enlist, workqueue_add_work, put_away,
  take_first, workqueue_thread, add, round_idle, Reach, start, later,
}
use protura.Workqueue.Once.{runs, runs_one}
use protura.Workqueue.Reached.{runs_once, schedule_kept}
use protura.Workqueue.Awake.{looking, sleepers, add_all, wakes-in_turn}

abbrev never : ℕ → Bool
never w = false

abbrev added : Workqueue
added = workqueue_add_work 5 (workqueue_start_multiple 2 never)

abbrev running : Workqueue
running = workqueue_thread (idle false) 1 added

abbrev added_again : Workqueue
added_again = workqueue_add_work 5 running

added-Reach : Reach 2 never added
added-Reach = later start (add 5)

added_again-Reach : Reach 2 never added_again
unfolding workqueue_start_multiple workqueue_add_work enlist wake_at wake is_in
added_again-Reach = later (later added-Reach (round_idle 1 refl)) (add 5)

added_again_runs : runs 5 added_again.threads ≡ 1
unfolding workqueue_start_multiple workqueue_add_work enlist wake_at wake is_in workqueue_thread
    take_first runs runs_one
added_again_runs = refl

added_again_scheduled : added_again.scheduled 5 ≡ true
unfolding workqueue_start_multiple workqueue_add_work enlist wake_at wake is_in workqueue_thread
    take_first
added_again_scheduled = refl

added_waits : 0 < length added.work_list
unfolding workqueue_start_multiple workqueue_add_work enlist wake_at wake is_in
added_waits = omega arith

runs_once_example : runs 5 added_again.threads ≤ 1
runs_once_example = runs_once 2 5 never added_again added_again-Reach refl

schedule_kept_example :
    ((count 5 added_again.work_list ≡ 1) × (runs 5 added_again.threads ≡ 0))
    ⊎ ((count 5 added_again.work_list ≡ 0)
        × (runs 5 added_again.threads ≡ 1)
        × ((put_away 5 added_again).work_list ≡ added_again.work_list ++ (5 ∷ [])))
schedule_kept_example =
    schedule_kept 2 5 never added_again added_again-Reach refl added_again_scheduled

wakes-in_turn_example :
    (0 < looking added.threads) × (sleepers (add_all (6 ∷ 7 ∷ []) added).threads ≡ 0)
wakes-in_turn_example =
    wakes-in_turn 2 never added (6 ∷ 7 ∷ []) added-Reach added_waits (omega arith) (omega arith)
