-- ===== src/Workqueue/Runs.antt =====
-- What the steps do to the counts of a work that is not oneshot.
use protura.Base.{
  ℕ, ◌-◌, ◌≤◌, ◌==◌, ◌≡◌, refl, ap, ◌∙◌, Bool, true, false, ◌||◌, some, List, get_elem?, arith,
  Bool-cases, inl, inr, if◌then◌else◌,
}
use protura.Base.Members.{is_in, count, count-append, count-is_in}
use protura.Workqueue.{Thread, idle, busy, Workqueue, wake_at, enlist, put_away, workqueue_thread}
use protura.Workqueue.Once.{
  runs_one, runs, runs-wake_at, runs-set, Clears, Once, take_first-Once, put_away-IsOnce,
}

pub wakes-Once :
    (w i : ℕ) (q : Workqueue) → Once w q → Once w (record q { threads = wake_at q.threads i })
wakes-Once w i q v = record {
  once = v.once;
  runs_it = runs-wake_at w q.threads i ∙ v.runs_it;
  kept = v.kept;
  marked = v.marked;
}

pub enlist-Once : (w x : ℕ) (q : Workqueue) → Once w q → Once w (enlist x q)
unfolding enlist
enlist-Once w x q v =
    let a = count-append w x q.work_list in
    let i = count-is_in x q.work_list in
    let i' = count-is_in x q.work_running_list in
    let same : x ≡ w → (count x q.work_list ≡ count w q.work_list) =
      λ e. ap (λ y. count y q.work_list) e in
    let same' : x ≡ w → (count x q.work_running_list ≡ count w q.work_running_list) =
      λ e. ap (λ y. count y q.work_running_list) e in
    elim (Bool-cases (is_in x q.work_list || is_in x q.work_running_list)) [
      | inl there ↦ rw there (record {
        once = v.once;
        runs_it = v.runs_it;
        kept = ground (arith, v.kept, v.once, i, i', same, same');
        marked = ground (arith, v.marked);
      })
      | inr out ↦ rw out (record {
        once = ground (arith, v.once, a, i, i', same, same');
        runs_it = v.runs_it;
        kept = ground (arith, v.kept, a, i, i', same, same');
        marked = ground (arith, v.marked, a);
      })
    ]

runs_one_idle : (w : ℕ) (asleep : Bool) → runs_one w (idle asleep) ≡ 0
unfolding runs_one
runs_one_idle w asleep = refl

runs_one_busy : (w x : ℕ) (clear : Bool) → runs_one w (busy x clear) ≡ (if x == w then 1 else 0)
unfolding runs_one
runs_one_busy w x clear = refl

runs_one-runs :
    (w : ℕ) (ts : List Thread) (i : ℕ) (t : Thread)
    → get_elem? ts i ≡ some t
    → runs_one w t ≤ runs w ts
runs_one-runs w ts i t here =
    omega (arith, runs-set w ts i t (idle true) here, runs_one_idle w true)

pub round-Once :
    (w i : ℕ) (t : Thread) (q : Workqueue)
    → q.oneshot w ≡ false
    → get_elem? q.threads i ≡ some t
    → Clears q.oneshot t
    → Once w q
    → Once w (workqueue_thread t i q)
unfolding workqueue_thread Clears put_away
round-Once w i (idle asleep) q plain here c v =
    let mine : runs_one w (idle asleep) ≡ 0 = runs_one_idle w asleep in
    take_first-Once w i (idle asleep) (runs w q.threads) q.work_list q plain here
      (omega (arith, mine)) v refl
round-Once w i (busy x true) q plain here c v =
    let differ : x ≡ w → q.oneshot x ≡ q.oneshot w = λ e. ap q.oneshot e in
    let mine = runs_one_busy w x true in
    take_first-Once w i (busy x true) (runs w q.threads) q.work_list q plain here
      (ground (arith, mine, differ)) v refl
round-Once w i (busy x false) q plain here c v =
    let mine = runs_one_busy w x false in
    let bound = runs_one-runs w q.threads i (busy x false) here in
    take_first-Once w i (busy x false) (runs w q.threads - (if x == w then 1 else 0))
      (put_away x q).work_list (put_away x q) plain here (omega (arith, mine, bound))
      (put_away-IsOnce w x (runs w q.threads - (if x == w then 1 else 0)) q
        (omega (arith, mine, bound, v.runs_it)) v)
      refl
