-- ===== src/Workqueue/Reached.antt =====
-- The counts of a work in every reachable state, and what follows.
use protura.Base.{
  ℕ, zero, suc, ◌≤◌, ◌==◌, ltb, ◌≡◌, refl, ap, sym, ◌∙◌, Bool, true, false, some, List, [], ◌∷◌,
  ◌++◌, length, get_elem?, set, replicate, All, arith, Bool-cases, inl, inr, ◌⊎◌,
}
use protura.Base.Members.{count, delete-absent}
use protura.Workqueue.{
  Thread, idle, busy, Workqueue, workqueue_start_multiple, wake_next, enlist, workqueue_add_work,
  put_away, take_first, workqueue_thread, Step, add, round_idle, round_busy, woken, Reach, start,
  later,
}
use protura.Workqueue.Once.{runs_one, runs, Clears, Clears-wake_at, Clears-set, Clears-get, Once}
use protura.Workqueue.Runs.{wakes-Once, enlist-Once, round-Once}

-- What holds in every reachable state, where `oneshot` is the flag of the works.
pub record Holds (oneshot : ℕ → Bool) (q : Workqueue) : Type 0 where
  pub same : q.oneshot ≡ oneshot
  pub clears : All (Clears q.oneshot) q.threads
  pub once : (w : ℕ) → q.oneshot w ≡ false → Once w q

take_first-oneshot :
    (i : ℕ) (list : List ℕ) (q : Workqueue) → (take_first list i q).oneshot ≡ q.oneshot
unfolding take_first
take_first-oneshot i [] q = refl
take_first-oneshot i (w ∷ rest) q = refl

take_first-Clears :
    (i : ℕ) (list : List ℕ) (q : Workqueue)
    → All (Clears q.oneshot) q.threads
    → All (Clears (take_first list i q).oneshot) (take_first list i q).threads
unfolding take_first Clears
take_first-Clears i [] q h = Clears-set q.oneshot q.threads i (idle true) tt h
take_first-Clears i (w ∷ rest) q h = Clears-set q.oneshot q.threads i (busy w (q.oneshot w)) refl h

round-Clears :
    (i : ℕ) (t : Thread) (q : Workqueue)
    → All (Clears q.oneshot) q.threads
    → All (Clears (workqueue_thread t i q).oneshot) (workqueue_thread t i q).threads
unfolding workqueue_thread put_away
round-Clears i (idle asleep) q h = take_first-Clears i q.work_list q h
round-Clears i (busy x true) q h = take_first-Clears i q.work_list q h
round-Clears i (busy x false) q h = take_first-Clears i (put_away x q).work_list (put_away x q) h

round-oneshot : (i : ℕ) (t : Thread) (q : Workqueue) → (workqueue_thread t i q).oneshot ≡ q.oneshot
unfolding workqueue_thread put_away
round-oneshot i (idle asleep) q = take_first-oneshot i q.work_list q
round-oneshot i (busy x true) q = take_first-oneshot i q.work_list q
round-oneshot i (busy x false) q = take_first-oneshot i (put_away x q).work_list (put_away x q)

round-Holds :
    (f : ℕ → Bool) (i : ℕ) (t : Thread) (q : Workqueue)
    → get_elem? q.threads i ≡ some t
    → Holds f q
    → Holds f (workqueue_thread t i q)
round-Holds f i t q here h = record {
  same = round-oneshot i t q ∙ h.same;
  clears = round-Clears i t q h.clears;
  once = λ w plain.
      let before = sym (ap (λ g. g w) (round-oneshot i t q)) ∙ plain in
      round-Once w i t q before here (Clears-get q.oneshot q.threads i t here h.clears)
        (h.once w before);
}

wake_next-Holds : (f : ℕ → Bool) (q : Workqueue) → Holds f q → Holds f (wake_next q)
wake_next-Holds f q h = elim (Bool-cases (ltb 0 (length q.threads))) [
  | inl some' ↦ rw some' (record {
    same = h.same;
    clears = Clears-wake_at q.oneshot q.threads q.wake_next_thread h.clears;
    once = λ w plain. wakes-Once w q.wake_next_thread q (h.once w plain);
  })
  | inr none' ↦ rw none' h
]

Step-Holds : (f : ℕ → Bool) (q q' : Workqueue) → Step q q' → Holds f q → Holds f q'
unfolding workqueue_add_work enlist
Step-Holds f q q' (add x) h = wake_next-Holds f (enlist x q) (record {
  same = h.same;
  clears = h.clears;
  once = λ w plain. enlist-Once w x q (h.once w plain);
})
Step-Holds f q q' (round_idle i here) h = round-Holds f i (idle false) q here h
Step-Holds f q q' (round_busy i w clear here) h = round-Holds f i (busy w clear) q here h
Step-Holds f q q' (woken i) h = record {
  same = h.same;
  clears = Clears-wake_at q.oneshot q.threads i h.clears;
  once = λ w plain. wakes-Once w i q (h.once w plain);
}

idle-runs : (w n : ℕ) → runs w (replicate n (idle false)) ≡ 0
unfolding runs runs_one
idle-runs w zero = refl
idle-runs w (suc n) = omega (arith, idle-runs w n)

idle-Clears : (f : ℕ → Bool) (n : ℕ) → All (Clears f) (replicate n (idle false))
unfolding Clears
idle-Clears f zero = tt
idle-Clears f (suc n) = (tt, idle-Clears f n)

Reach-Holds : (n : ℕ) (f : ℕ → Bool) (q : Workqueue) → Reach n f q → Holds f q
unfolding workqueue_start_multiple count
Reach-Holds n f q start = record {
  same = refl;
  clears = idle-Clears f n;
  once = λ w plain. record {
    once = omega arith;
    runs_it = idle-runs w n;
    kept = λ s. cc;
    marked = λ p. absurd (omega arith);
  };
}
Reach-Holds n f q (later {q = before} r st) = Step-Holds f before q st (Reach-Holds n f before r)

-- No two threads run the same work at the same time, if it is not oneshot, whatever works are added
-- and whichever threads go on.
pub runs_once :
    (n w : ℕ) (f : ℕ → Bool) (q : Workqueue) → Reach n f q → f w ≡ false → runs w q.threads ≤ 1
runs_once n w f q r plain =
    let h = Reach-Holds n f q r in
    let v = h.once w (ap (λ g. g w) h.same ∙ plain) in omega (arith, v.once, v.runs_it)

-- A work that is not oneshot and whose WORK_SCHEDULED flag is set is in the list of waiting works,
-- once, and no thread runs it; or it is not in the list, and one thread runs it, which puts it at
-- the list's end when its callback returns.
pub schedule_kept :
    (n w : ℕ) (f : ℕ → Bool) (q : Workqueue)
    → Reach n f q
    → f w ≡ false
    → q.scheduled w ≡ true
    → ((count w q.work_list ≡ 1) × (runs w q.threads ≡ 0))
      ⊎ ((count w q.work_list ≡ 0)
          × (runs w q.threads ≡ 1)
          × ((put_away w q).work_list ≡ q.work_list ++ (w ∷ [])))
unfolding put_away
schedule_kept n w f q r plain set =
    let h = Reach-Holds n f q r in
    let v = h.once w (ap (λ g. g w) h.same ∙ plain) in
    elim (Bool-cases (count w q.work_list == 0)) [
      | inl away ↦
          let none' : count w q.work_list ≡ 0 = ground (arith, away) in
          inr (
            none',
            ground (arith, v.once, v.runs_it, v.kept set, none'),
            (rw (set, delete-absent w q.work_list none') refl),
          )
      | inr waits ↦
          inl (ground (arith, v.once, v.kept set, waits), ground (arith, v.once, v.runs_it, waits))
    ]
