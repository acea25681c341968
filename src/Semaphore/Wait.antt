-- ===== src/Semaphore/Wait.antt =====
-- Who may be inside, and that nobody is left asleep before a free semaphore.
use protura.Base.{
  ℕ, ◌+◌, ◌-◌, ◌<◌, ◌≤◌, ◌==◌, ltb, ◌≡◌, refl, sym, subst, Bool, true, false, List, [], ◌∷◌, ◌++◌,
  length, arith, Bool-cases, inl, inr, if◌then◌else◌,
}
use protura.Base.Members.{is_in, delete, length-delete}
use protura.Semaphore.{
  Semaphore, set_asleep, sem_init, wake_first, sem_wake_if_waiting, come_down, try_or_sleep,
  sem_down, sem_try_down, sem_up, Step, arrive, resume, try_down, up, woken, Reach, start, later,
}

-- The first task of a queue is awake.
unfoldable pub FirstAwake : List ℕ → (ℕ → Bool) → Type 0
FirstAwake [] asleep = Unit
FirstAwake (t ∷ rest) asleep = asleep t ≡ false

-- The count and those inside make up the initial value, and a task waits awake if the count is
-- positive and any waits.
pub record IsSound (value : ℕ) (s : Semaphore) : Type 0 where
  pub total : s.count + length s.inside ≡ value
  pub awake : 0 < s.count → FirstAwake s.queue s.asleep

wake_first-FirstAwake : (q : List ℕ) (s : Semaphore) → FirstAwake q (wake_first q s).asleep
unfolding FirstAwake wake_first
wake_first-FirstAwake [] s = tt
wake_first-FirstAwake (t ∷ rest) s = ground arith

-- Waking changes who sleeps, and nothing else.
wake_first_rest :
    (q : List ℕ) (s : Semaphore) → wake_first q s ≡ record s { asleep = (wake_first q s).asleep }
unfolding wake_first
wake_first_rest [] s = refl
wake_first_rest (t ∷ rest) s = refl

woken-IsSound :
    (value : ℕ) (s : Semaphore)
    → s.count + length s.inside ≡ value
    → IsSound value (sem_wake_if_waiting s)
woken-IsSound value s h =
    subst (IsSound value) (sym (wake_first_rest s.queue s))
      (record { total = h; awake = λ p. wake_first-FirstAwake s.queue s })

keeps_awake :
    (q : List ℕ) (t : ℕ) (asleep : ℕ → Bool)
    → FirstAwake q asleep
    → FirstAwake q (λ u. if u == t then false else asleep u)
unfolding FirstAwake
keeps_awake [] t asleep h = tt
keeps_awake (x ∷ q) t asleep h = ground arith

come_down-IsSound :
    (value t : ℕ) (s : Semaphore)
    → 0 < s.count
    → s.count + length s.inside ≡ value
    → IsSound value (come_down t s)
unfolding come_down
come_down-IsSound value t s p h = elim (Bool-cases (ltb 0 (s.count - 1))) [
  | inl more ↦ rw more (
      woken-IsSound value
        (record s { queue = delete t s.queue; count = s.count - 1; inside = t ∷ s.inside })
        (omega (arith, h)))
  | inr none' ↦ rw none' (record { total = omega (arith, h); awake = λ q. absurd (ground arith) })
]

try_or_sleep-IsSound :
    (value t : ℕ) (s : Semaphore)
    → s.count + length s.inside ≡ value
    → IsSound value (try_or_sleep t s)
unfolding try_or_sleep
try_or_sleep-IsSound value t s h = elim (Bool-cases (ltb 0 s.count)) [
  | inl free ↦ rw free (come_down-IsSound value t (set_asleep t false s) (ground arith) h)
  | inr taken ↦ rw taken (record { total = h; awake = λ p. absurd (ground arith) })
]

Step-IsSound : (value : ℕ) (s s' : Semaphore) → Step s s' → IsSound value s → IsSound value s'
unfolding sem_down sem_up sem_try_down
Step-IsSound value s s' (arrive t out) v =
    try_or_sleep-IsSound value t (record s { queue = s.queue ++ (t ∷ []) }) v.total
Step-IsSound value s s' (resume t waits awake) v = try_or_sleep-IsSound value t s v.total
Step-IsSound value s s' (try_down t out) v = elim (Bool-cases (s.count == 0)) [
  | inl taken ↦ rw taken v
  | inr free ↦
      rw free (record { total = ground (arith, v.total); awake = λ p. v.awake (omega arith) })
]
Step-IsSound value s s' (up t has) v =
    woken-IsSound value (record s { count = s.count + 1; inside = delete t s.inside })
      (omega (arith, v.total, length-delete t s.inside has))
Step-IsSound value s s' (woken t) v = record {
  total = v.total;
  awake = λ p. keeps_awake s.queue t s.asleep (v.awake p);
}

Reach-IsSound : (value : ℕ) (s : Semaphore) → Reach value s → IsSound value s
unfolding sem_init FirstAwake
Reach-IsSound value s start = record { total = omega arith; awake = λ p. tt }
Reach-IsSound value s (later {s = before} r st) =
    Step-IsSound value before s st (Reach-IsSound value before r)

-- However tasks come down, go up and are woken, the tasks inside a semaphore are never more than its
-- initial value: a mutex is held by one task at a time.
pub inside_bound : (value : ℕ) (s : Semaphore) → Reach value s → length s.inside ≤ value
inside_bound value s r = omega (arith, (Reach-IsSound value s r).total)

come_down_inside : (t : ℕ) (s : Semaphore) → is_in t (come_down t s).inside ≡ true
unfolding come_down is_in
come_down_inside t s = elim (Bool-cases (ltb 0 (s.count - 1))) [
  | inl more ↦ rw more (
      subst (λ z. is_in t z.inside ≡ true)
        (sym (
          wake_first_rest (delete t s.queue)
            (record s { queue = delete t s.queue; count = s.count - 1; inside = t ∷ s.inside })))
        (ground arith))
  | inr none' ↦ rw none' (ground arith)
]

enters : (t : ℕ) (s : Semaphore) → 0 < s.count → is_in t (try_or_sleep t s).inside ≡ true
unfolding try_or_sleep
enters t s p =
    let free : ltb 0 s.count ≡ true = ground arith in
    rw free (come_down_inside t (set_asleep t false s))

-- No wake-up is lost: in every reachable state whose count is positive, if any task waits, the first
-- one can take a step, and this step lets it in.
pub first_can_enter :
    (value t : ℕ) (rest : List ℕ) (s : Semaphore)
    → Reach value s
    → s.queue ≡ t ∷ rest
    → 0 < s.count
    → (s' : Semaphore) × Step s s' × (is_in t s'.inside ≡ true)
unfolding FirstAwake is_in
first_can_enter value t rest s r e p =
    let awake = rw e at ((Reach-IsSound value s r).awake p) in
    let waits : is_in t s.queue ≡ true = rw e (ground arith) in
    (try_or_sleep t s, resume t waits awake, enters t s p)
