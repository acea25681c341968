-- ===== src/Workqueue/Once.antt =====
-- A work runs in one thread at a time, no schedule is lost, and no thread sleeps on a work for ever.
use protura.Base.{
  ℕ, zero, suc, ◌+◌, ◌<◌, ◌≤◌, ◌==◌, ◌≡◌, refl, ap, subst, ◌∙◌, Bool, true, false, some, List, [],
  ◌∷◌, get_elem?, set, All, arith, Bool-cases, inl, inr, if◌then◌else◌,
}
use protura.Base.Members.{delete, count, count-append, count-delete}
use protura.Workqueue.{Thread, idle, busy, Workqueue, wake, wake_at, put_away, take_first}

-- How many threads run a work.
unfoldable pub runs_one : ℕ → Thread → ℕ
runs_one w (idle asleep) = 0
runs_one w (busy v clear) = if v == w then 1 else 0

unfoldable pub runs : ℕ → List Thread → ℕ
runs w [] = 0
runs w (t ∷ ts) = runs_one w t + runs w ts

-- A thread's `clear_work` is the flag of its work.
unfoldable pub Clears : (ℕ → Bool) → Thread → Type 0
Clears oneshot (idle asleep) = Unit
Clears oneshot (busy w clear) = clear ≡ oneshot w

runs_one-wake : (w : ℕ) (t : Thread) → runs_one w (wake t) ≡ runs_one w t
unfolding runs_one wake
runs_one-wake w (idle asleep) = refl
runs_one-wake w (busy v clear) = refl

pub runs-wake_at : (w : ℕ) (ts : List Thread) (i : ℕ) → runs w (wake_at ts i) ≡ runs w ts
unfolding runs wake_at
runs-wake_at w [] i = refl
runs-wake_at w (t ∷ ts) zero = ap (λ n. n + runs w ts) (runs_one-wake w t)
runs-wake_at w (t ∷ ts) (suc i) = ap (λ n. runs_one w t + n) (runs-wake_at w ts i)

pub runs-set :
    (w : ℕ) (ts : List Thread) (i : ℕ) (t t' : Thread)
    → get_elem? ts i ≡ some t
    → runs w (set ts i t') + runs_one w t ≡ runs w ts + runs_one w t'
unfolding runs
runs-set w [] i t t' h = cc
runs-set w (x ∷ ts) zero t t' h = let e : x ≡ t = cc in omega (arith, ap (runs_one w) e)
runs-set w (x ∷ ts) (suc i) t t' h = omega (arith, runs-set w ts i t t' h)

Clears-wake : (f : ℕ → Bool) (t : Thread) → Clears f t → Clears f (wake t)
unfolding Clears wake
Clears-wake f (idle asleep) h = tt
Clears-wake f (busy v clear) h = h

pub Clears-wake_at :
    (f : ℕ → Bool) (ts : List Thread) (i : ℕ) → All (Clears f) ts → All (Clears f) (wake_at ts i)
unfolding wake_at
Clears-wake_at f [] i h = tt
Clears-wake_at f (t ∷ ts) zero h = (Clears-wake f t h.0, h.1)
Clears-wake_at f (t ∷ ts) (suc i) h = (h.0, Clears-wake_at f ts i h.1)

pub Clears-set :
    (f : ℕ → Bool) (ts : List Thread) (i : ℕ) (t : Thread)
    → Clears f t
    → All (Clears f) ts
    → All (Clears f) (set ts i t)
Clears-set f [] i t c h = tt
Clears-set f (x ∷ ts) zero t c h = (c, h.1)
Clears-set f (x ∷ ts) (suc i) t c h = (h.0, Clears-set f ts i t c h.1)

pub Clears-get :
    (f : ℕ → Bool) (ts : List Thread) (i : ℕ) (t : Thread)
    → get_elem? ts i ≡ some t
    → All (Clears f) ts
    → Clears f t
Clears-get f [] i t e h = absurd cc
Clears-get f (x ∷ ts) zero t e h = let same : x ≡ t = cc in subst (Clears f) same h.0
Clears-get f (x ∷ ts) (suc i) t e h = Clears-get f ts i t e h.1

-- What holds of one work that is not oneshot, from its counts in the two lists and in the threads,
-- and its flag.
pub record IsOnce (waits running : ℕ) (runs : ℕ) (scheduled : Bool) : Type 0 where
  pub once : waits + running ≤ 1
  pub runs_it : runs ≡ running
  pub kept : scheduled ≡ true → waits + running ≡ 1
  pub marked : 0 < waits → scheduled ≡ true

-- `IsOnce` of a work in a queue.
abbrev pub Once : ℕ → Workqueue → Type 0
Once w q =
    IsOnce (count w q.work_list) (count w q.work_running_list) (runs w q.threads) (q.scheduled w)

-- A thread takes work; `others` is how many other threads run `w`.
pub take_first-Once :
    (w i : ℕ) (t : Thread) (others : ℕ) (list : List ℕ) (q : Workqueue)
    → q.oneshot w ≡ false
    → get_elem? q.threads i ≡ some t
    → others + runs_one w t ≡ runs w q.threads
    → IsOnce (count w list) (count w q.work_running_list) others (q.scheduled w)
    → q.work_list ≡ list
    → Once w (take_first list i q)
unfolding take_first count runs_one
take_first-Once w i t others [] q plain here o v e = rw e (record {
  once = v.once;
  runs_it = omega (arith, runs-set w q.threads i t (idle true) here, v.runs_it, o);
  kept = v.kept;
  marked = v.marked;
})
take_first-Once w i t others (x ∷ rest) q plain here o v e =
    let r = runs-set w q.threads i t (busy x (q.oneshot x)) here in
    let c = count-append w x q.work_running_list in
    elim (Bool-cases (x == w)) [
      | inl same ↦
          let named : x ≡ w = ground arith in
          let plain' : q.oneshot x ≡ false = ap q.oneshot named ∙ plain in
          rw plain' (record {
            once = ground (arith, v.once, c);
            runs_it = ground (arith, v.runs_it, v.once, c, r, o);
            kept = ground arith;
            marked = λ p. absurd (ground (arith, v.once));
          })
      | inr other ↦ elim (Bool-cases (q.oneshot x)) [
        | inl one ↦ rw one (record {
          once = ground (arith, v.once);
          runs_it = ground (arith, v.runs_it, r, o);
          kept = ground (arith, v.kept);
          marked = ground (arith, v.marked);
        })
        | inr many ↦ rw many (record {
          once = ground (arith, v.once, c);
          runs_it = ground (arith, v.runs_it, c, r, o);
          kept = ground (arith, v.kept, c);
          marked = ground (arith, v.marked);
        })
      ]
    ]

-- A thread puts its work `x` away.
pub put_away-IsOnce :
    (w x others : ℕ) (q : Workqueue)
    → others + (if x == w then 1 else 0) ≡ count w q.work_running_list
    → Once w q
    → IsOnce
        (count w (put_away x q).work_list)
        (count w (put_away x q).work_running_list)
        others
        (q.scheduled w)
unfolding put_away
put_away-IsOnce w x others q o v =
    let d = count-delete w x q.work_running_list in
    let d' = count-delete w x q.work_list in
    let a = count-append w x (delete x q.work_list) in
    elim (Bool-cases (q.scheduled x)) [
      | inl again ↦ rw again (record {
        once = ground (arith, v.once, d, d', a);
        runs_it = ground (arith, d, o);
        kept = ground (arith, v.kept, v.once, d, d', a);
        marked = ground (arith, v.marked, d, d', a);
      })
      | inr done ↦ rw done (record {
        once = ground (arith, v.once, d, d');
        runs_it = ground (arith, d, o);
        kept = ground (arith, v.kept, v.once, d, d');
        marked = ground (arith, v.marked, d, d');
      })
    ]
