-- ===== src/Semaphore/Examples.antt =====
-- A mutex that one task holds and another waits for.
use protura.Base.{◌≤◌, ◌<◌, ◌≡◌, refl, true, [], ◌∷◌, length, arith}
use protura.Base.Members.{is_in, delete}
use protura.Semaphore.{
  Semaphore, sem_init, wake_first, come_down, try_or_sleep, sem_down, sem_up, Step, arrive, up,
  Reach, start, later,
}
use protura.Semaphore.Wait.{inside_bound, first_can_enter}

abbrev held : Semaphore
held = sem_down 7 (sem_init 1)

abbrev contended : Semaphore
contended = sem_down 8 held

abbrev freed : Semaphore
freed = sem_up 7 contended

contended-Reach : Reach 1 contended
unfolding sem_init sem_down try_or_sleep come_down is_in delete
contended-Reach = later (later start (arrive 7 refl)) (arrive 8 refl)

freed-Reach : Reach 1 freed
unfolding sem_init sem_down try_or_sleep come_down is_in delete
freed-Reach = later contended-Reach (up 7 refl)

inside_bound_example : length contended.inside ≤ 1
inside_bound_example = inside_bound 1 contended contended-Reach

freed_queue : freed.queue ≡ 8 ∷ []
unfolding sem_init sem_down try_or_sleep come_down delete sem_up wake_first
freed_queue = refl

freed_count : 0 < freed.count
unfolding sem_init sem_down try_or_sleep come_down delete sem_up wake_first
freed_count = omega arith

first_can_enter_example : (s' : Semaphore) × Step freed s' × (is_in 8 s'.inside ≡ true)
first_can_enter_example = first_can_enter 1 8 [] freed freed-Reach freed_queue freed_count
