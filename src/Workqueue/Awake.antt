-- ===== src/Workqueue/Awake.antt =====
-- The wake-ups: while works wait some thread will look at the list, and additions wake the threads
-- in turn.
use protura.Base.{
  ℕ, zero, suc, ◌+◌, ◌-◌, ◌%◌, ◌<◌, ◌≤◌, ◌==◌, ltb, leb, ◌≡◌, refl, ap, sym, subst, ◌∙◌, Bool, true,
  false, some, List, [], ◌∷◌, length, length-set, length-replicate, get_elem?, set, arith,
  Bool-cases, inl, inr, ==_iff, if◌then◌else◌,
}
use native.Mathlib.Nat.{mod-lt, mod-eq_of_lt, mod_self}
use protura.Workqueue.{
  Thread, idle, busy, Workqueue, workqueue_start_multiple, wake, wake_at, enlist,
  workqueue_add_work, put_away, take_first, workqueue_thread, Step, add, round_idle, round_busy,
  woken, Reach, start, later,
}

-- How many threads will look at the list: those that do not sleep, and those in a callback, once it
-- returns.
unfoldable pub looks_one : Thread → ℕ
looks_one (idle true) = 0
looks_one (idle false) = 1
looks_one (busy w clear) = 1

unfoldable pub looking : List Thread → ℕ
looking [] = 0
looking (t ∷ ts) = looks_one t + looking ts

looks_one-wake : (t : Thread) → looks_one (wake t) ≡ 1
unfolding looks_one wake
looks_one-wake (idle asleep) = refl
looks_one-wake (busy w clear) = refl

looks_one-bound : (t : Thread) → looks_one t ≤ 1
unfolding looks_one
looks_one-bound (idle true) = omega arith
looks_one-bound (idle false) = omega arith
looks_one-bound (busy w clear) = omega arith

length-wake_at : (ts : List Thread) (i : ℕ) → length (wake_at ts i) ≡ length ts
unfolding wake_at
length-wake_at [] i = refl
length-wake_at (t ∷ ts) zero = refl
length-wake_at (t ∷ ts) (suc i) = ap suc (length-wake_at ts i)

looking-wake_at : (ts : List Thread) (i : ℕ) → i < length ts → 0 < looking (wake_at ts i)
unfolding looking wake_at
looking-wake_at [] i h = absurd (omega arith)
looking-wake_at (t ∷ ts) zero h = omega (arith, looks_one-wake t)
looking-wake_at (t ∷ ts) (suc i) h = omega (arith, looking-wake_at ts i)

-- A wake-up puts no thread to sleep.
looking-wake_at_grows : (ts : List Thread) (i : ℕ) → looking ts ≤ looking (wake_at ts i)
unfolding looking wake_at
looking-wake_at_grows [] i = omega arith
looking-wake_at_grows (t ∷ ts) zero = omega (arith, looks_one-wake t, looks_one-bound t)
looking-wake_at_grows (t ∷ ts) (suc i) = omega (arith, looking-wake_at_grows ts i)

looking-set_busy :
    (ts : List Thread) (i w : ℕ) (t : Thread) (clear : Bool)
    → get_elem? ts i ≡ some t
    → 0 < looking (set ts i (busy w clear))
unfolding looking looks_one
looking-set_busy [] i w t clear h = cc
looking-set_busy (x ∷ ts) zero w t clear h = omega arith
looking-set_busy (x ∷ ts) (suc i) w t clear h = omega (arith, looking-set_busy ts i w t clear h)

pub record IsLive (n : ℕ) (q : Workqueue) : Type 0 where
  pub threads_count : length q.threads ≡ n
  pub next_bound : 0 < n → q.wake_next_thread < n
  pub some_looks : 0 < n → 0 < length q.work_list → 0 < looking q.threads

take_first-IsLive :
    (n i : ℕ) (t : Thread) (list : List ℕ) (q : Workqueue)
    → length q.threads ≡ n
    → (0 < n → q.wake_next_thread < n)
    → get_elem? q.threads i ≡ some t
    → q.work_list ≡ list
    → IsLive n (take_first list i q)
unfolding take_first
take_first-IsLive n i t [] q c b here e = record {
  threads_count = length-set q.threads i (idle true) ∙ c;
  next_bound = b;
  some_looks = λ p l. let none' = rw e at l in absurd (omega (arith, none'));
}
take_first-IsLive n i t (w ∷ rest) q c b here e = record {
  threads_count = length-set q.threads i (busy w (q.oneshot w)) ∙ c;
  next_bound = b;
  some_looks = λ p l. looking-set_busy q.threads i w t (q.oneshot w) here;
}

round-IsLive :
    (n i : ℕ) (t : Thread) (q : Workqueue)
    → get_elem? q.threads i ≡ some t
    → IsLive n q
    → IsLive n (workqueue_thread t i q)
unfolding workqueue_thread put_away
round-IsLive n i (idle asleep) q here v =
    take_first-IsLive n i (idle asleep) q.work_list q v.threads_count v.next_bound here refl
round-IsLive n i (busy w true) q here v =
    take_first-IsLive n i (busy w true) q.work_list q v.threads_count v.next_bound here refl
round-IsLive n i (busy w false) q here v =
    take_first-IsLive n i (busy w false) (put_away w q).work_list (put_away w q) v.threads_count
      v.next_bound here refl

add-IsLive : (n w : ℕ) (q : Workqueue) → IsLive n q → IsLive n (workqueue_add_work w q)
unfolding workqueue_add_work enlist
add-IsLive n w q v = elim (Bool-cases (ltb 0 (length q.threads))) [
  | inl some' ↦ rw some' (record {
    threads_count = length-wake_at q.threads q.wake_next_thread ∙ v.threads_count;
    next_bound = λ p.
        subst (λ m. (q.wake_next_thread + 1) % m < n) (sym v.threads_count)
          (mod-lt (q.wake_next_thread + 1) p);
    some_looks = λ p l.
        looking-wake_at q.threads q.wake_next_thread
          (ground (arith, v.threads_count, v.next_bound p));
  })
  | inr none' ↦ rw none' (record {
    threads_count = v.threads_count;
    next_bound = v.next_bound;
    some_looks = λ p l. absurd (ground (arith, v.threads_count));
  })
]

Step-IsLive : (n : ℕ) (q q' : Workqueue) → Step q q' → IsLive n q → IsLive n q'
Step-IsLive n q q' (add w) v = add-IsLive n w q v
Step-IsLive n q q' (round_idle i here) v = round-IsLive n i (idle false) q here v
Step-IsLive n q q' (round_busy i w clear here) v = round-IsLive n i (busy w clear) q here v
Step-IsLive n q q' (woken i) v = record {
  threads_count = length-wake_at q.threads i ∙ v.threads_count;
  next_bound = v.next_bound;
  some_looks = λ p l. omega (arith, v.some_looks p l, looking-wake_at_grows q.threads i);
}

Reach-IsLive : (n : ℕ) (f : ℕ → Bool) (q : Workqueue) → Reach n f q → IsLive n q
unfolding workqueue_start_multiple
Reach-IsLive n f q start = record {
  threads_count = length-replicate n (idle false);
  next_bound = λ p. p;
  some_looks = λ p l. absurd (omega arith);
}
Reach-IsLive n f q (later {q = before} r st) = Step-IsLive n before q st (Reach-IsLive n f before r)

unfoldable pub sleeps : Thread → Bool
sleeps (idle asleep) = asleep
sleeps (busy w clear) = false

-- How many threads sleep.
unfoldable pub sleepers : List Thread → ℕ
sleepers [] = 0
sleepers (t ∷ ts) = (if sleeps t then 1 else 0) + sleepers ts

unfoldable sleeps_at : List Thread → ℕ → Bool
sleeps_at [] i = false
sleeps_at (t ∷ ts) zero = sleeps t
sleeps_at (t ∷ ts) (suc i) = sleeps_at ts i

sleeps-wake : (t : Thread) → sleeps (wake t) ≡ false
unfolding sleeps wake
sleeps-wake (idle asleep) = refl
sleeps-wake (busy w clear) = refl

sleeps_at-wake_at_same : (ts : List Thread) (i : ℕ) → sleeps_at (wake_at ts i) i ≡ false
unfolding sleeps_at wake_at
sleeps_at-wake_at_same [] i = refl
sleeps_at-wake_at_same (t ∷ ts) zero = sleeps-wake t
sleeps_at-wake_at_same (t ∷ ts) (suc i) = sleeps_at-wake_at_same ts i

sleeps_at-wake_at :
    (ts : List Thread) (i j : ℕ) → sleeps_at ts j ≡ false → sleeps_at (wake_at ts i) j ≡ false
unfolding sleeps_at wake_at
sleeps_at-wake_at [] i j h = refl
sleeps_at-wake_at (t ∷ ts) zero zero h = sleeps-wake t
sleeps_at-wake_at (t ∷ ts) zero (suc j) h = h
sleeps_at-wake_at (t ∷ ts) (suc i) zero h = h
sleeps_at-wake_at (t ∷ ts) (suc i) (suc j) h = sleeps_at-wake_at ts i j h

no_sleepers :
    (ts : List Thread) → ((i : ℕ) → i < length ts → sleeps_at ts i ≡ false) → sleepers ts ≡ 0
unfolding sleeps_at sleepers
no_sleepers [] h = refl
no_sleepers (t ∷ ts) h =
    let first = h 0 (omega arith) in
    let rest = no_sleepers ts (λ i l. h (suc i) (omega (arith, l))) in
    rw first (omega (arith, rest))

-- Additions in a row.
unfoldable pub add_all : List ℕ → Workqueue → Workqueue
add_all [] q = q
add_all (w ∷ ws) q = add_all ws (workqueue_add_work w q)

workqueue_add_work-threads :
    (n w : ℕ) (q : Workqueue)
    → 0 < n
    → IsLive n q
    → ((workqueue_add_work w q).threads ≡ wake_at q.threads q.wake_next_thread)
      × ((workqueue_add_work w q).wake_next_thread ≡ (q.wake_next_thread + 1) % n)
unfolding workqueue_add_work enlist
workqueue_add_work-threads n w q p v =
    let some' : ltb 0 (length q.threads) ≡ true = ground (arith, v.threads_count) in
    rw some' (refl, ap (λ m. (q.wake_next_thread + 1) % m) v.threads_count)

-- The additions until the turn of a thread.
abbrev until_turn : ℕ → ℕ → ℕ → ℕ
until_turn n next i = if leb next i then i - next else i + n - next

until_turn-next :
    (n next i : ℕ)
    → next < n
    → i < n
    → (next == i) ≡ false
    → until_turn n ((next + 1) % n) i + 1 ≡ until_turn n next i
until_turn-next n next i h l e = elim (Bool-cases (next + 1 == n)) [
  | inl last ↦
      let same : next + 1 ≡ n = ground (arith, last) in
      let first : (next + 1) % n ≡ 0 = rw same (mod_self n) in
      rw first (ground (arith, same, h, l, e))
  | inr more ↦
      let same : (next + 1) % n ≡ next + 1 = mod-eq_of_lt (ground (arith, more, h)) in
      rw same (ground (arith, h, l, e))
]

stays_up :
    (n : ℕ) (ws : List ℕ) (q : Workqueue) (i : ℕ)
    → 0 < n
    → IsLive n q
    → sleeps_at q.threads i ≡ false
    → sleeps_at (add_all ws q).threads i ≡ false
unfolding add_all
stays_up n [] q i p v h = h
stays_up n (w ∷ ws) q i p v h = stays_up n ws (workqueue_add_work w q) i p (add-IsLive n w q v) (
    rw ((workqueue_add_work-threads n w q p v).0)
      (sleeps_at-wake_at q.threads q.wake_next_thread i h))

gets_turn :
    (n : ℕ) (ws : List ℕ) (q : Workqueue) (i : ℕ)
    → IsLive n q
    → i < n
    → until_turn n q.wake_next_thread i < length ws
    → sleeps_at (add_all ws q).threads i ≡ false
unfolding add_all
gets_turn n [] q i v l h = absurd (omega (arith, h))
gets_turn n (w ∷ ws) q i v l h =
    let p : 0 < n = omega (arith, l) in
    let after = add-IsLive n w q v in
    let t = workqueue_add_work-threads n w q p v in
    elim (Bool-cases (q.wake_next_thread == i)) [
      | inl now ↦
          stays_up n ws (workqueue_add_work w q) i p after
            (rw (t.0, (==_iff q.wake_next_thread i).0 now) (sleeps_at-wake_at_same q.threads i))
      | inr not_yet ↦ gets_turn n ws (workqueue_add_work w q) i after l (
          rw (t.1)
            (omega (arith, h, until_turn-next n q.wake_next_thread i (v.next_bound p) l not_yet)))
    ]

length-add_all :
    (n : ℕ) (ws : List ℕ) (q : Workqueue) → IsLive n q → length (add_all ws q).threads ≡ n
unfolding add_all
length-add_all n [] q v = v.threads_count
length-add_all n (w ∷ ws) q v = length-add_all n ws (workqueue_add_work w q) (add-IsLive n w q v)

-- In every reachable state of a queue with threads in which a work waits, some thread will look at
-- the list: one that does not sleep, or one in a callback, once it returns. If at least as many
-- works as there are threads are added in a row from there, each thread has been woken, and none
-- sleeps.
pub wakes-in_turn :
    (n : ℕ) (f : ℕ → Bool) (q : Workqueue) (ws : List ℕ)
    → Reach n f q
    → 0 < length q.work_list
    → 0 < n
    → n ≤ length ws
    → (0 < looking q.threads) × (sleepers (add_all ws q).threads ≡ 0)
wakes-in_turn n f q ws r l p more =
    let v = Reach-IsLive n f q r in
    (
      v.some_looks p l,
      no_sleepers (add_all ws q).threads (λ i h.
          let i_bound : i < n = omega (arith, h, length-add_all n ws q v) in
          let turn : until_turn n q.wake_next_thread i < length ws =
            ground (arith, i_bound, v.next_bound p, more) in
          gets_turn n ws q i v i_bound turn),
    )
