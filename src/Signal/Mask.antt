-- ===== src/Signal/Mask.antt =====
-- No sequence of calls and deliveries blocks SIGKILL or SIGSTOP.
use protura.Base.{ℕ, ◌≡◌, inl, inr, ◌||◌, ltb, refl, Bool, false, List, [], ◌∷◌, arith, Bool-cases}
use protura.Signal.{
  SigSet, Handler, sig_dfl, Action, Task, How, sig_block, sig_unblock, sig_setmask, bad_how, Put,
  put_null, put_fault, put_ok, Get, get_null, get_fault, get_ok, change_mask, sys_sigprocmask,
  set_action, install, sys_sigaction, sys_signal, sys_sigreturn, sigsuspend_start, signal_jump,
  deliver, deliver_to, send_sig, unblockable, without, union, only, at_address, sig_ign,
}

-- What may happen to the signals of a task.
pub data Event : Type 0 where
  call_sigprocmask : How → Get SigSet → Put → Event
  call_sigaction : ℕ → Get Action → Put → Event
  call_signal : ℕ → Handler → Event
  call_sigreturn : SigSet → Event
  call_sigsuspend : SigSet → Event
  delivery : ℕ → Event
  arrival : ℕ → Bool → Event

unfoldable pub step : Event → Task → Task
step (call_sigprocmask how set oldset) t = (sys_sigprocmask how set oldset t).1
step (call_sigaction signum act oldact) t = (sys_sigaction signum act oldact t).1
step (call_signal signum handler) t = (sys_signal signum handler t).1
step (call_sigreturn mask) t = sys_sigreturn mask t
step (call_sigsuspend mask) t = sigsuspend_start mask t
step (delivery signum) t = (deliver signum t).1
step (arrival signum force) t = send_sig signum force t

unfoldable pub run : List Event → Task → Task
run [] t = t
run (e ∷ es) t = run es (step e t)

-- The set lacks SIGKILL and SIGSTOP.
abbrev pub Lacks : SigSet → Type 0
Lacks set = (set 9 ≡ false) × (set 19 ≡ false)

-- Neither the mask nor that of any handler blocks them.
pub record IsKillable (t : Task) : Type 0 where
  pub blocked : Lacks t.sig_blocked
  pub masks : (s : ℕ) → Lacks (t.sig_actions s).sa_mask

without-Lacks : (a b : SigSet) → Lacks a → Lacks (without a b)
without-Lacks a b h = ground arith

unblockable-Lacks : (a : SigSet) → Lacks (without a unblockable)
unblockable-Lacks a = ground arith

union-Lacks : (a b : SigSet) → Lacks a → Lacks b → Lacks (union a b)
union-Lacks a b h k = ground arith

change_mask-IsKillable :
    (how : How) (tmp : SigSet) (t : Task)
    → Lacks tmp
    → IsKillable t
    → IsKillable (change_mask how tmp t).1
unfolding change_mask
change_mask-IsKillable sig_block tmp t l k = record {
  blocked = union-Lacks t.sig_blocked tmp k.blocked l;
  masks = k.masks;
}
change_mask-IsKillable sig_unblock tmp t l k = record {
  blocked = without-Lacks t.sig_blocked tmp k.blocked;
  masks = k.masks;
}
change_mask-IsKillable sig_setmask tmp t l k = record { blocked = l; masks = k.masks }
change_mask-IsKillable bad_how tmp t l k = k

sys_sigprocmask-IsKillable :
    (how : How) (set : Get SigSet) (oldset : Put) (t : Task)
    → IsKillable t
    → IsKillable (sys_sigprocmask how set oldset t).1
unfolding sys_sigprocmask
sys_sigprocmask-IsKillable how set put_fault t k = k
sys_sigprocmask-IsKillable how get_null put_null t k = k
sys_sigprocmask-IsKillable how get_null put_ok t k = k
sys_sigprocmask-IsKillable how get_fault put_null t k = k
sys_sigprocmask-IsKillable how get_fault put_ok t k = k
sys_sigprocmask-IsKillable how (get_ok set) put_null t k =
    change_mask-IsKillable how (without set unblockable) t (unblockable-Lacks set) k
sys_sigprocmask-IsKillable how (get_ok set) put_ok t k =
    change_mask-IsKillable how (without set unblockable) t (unblockable-Lacks set) k

set_action-IsKillable :
    (signum : ℕ) (act : Action) (t : Task)
    → Lacks act.sa_mask
    → IsKillable t
    → IsKillable (set_action signum act t)
unfolding set_action
set_action-IsKillable signum act t l k = record {
  blocked = k.blocked;
  masks = λ s. ground (arith, k.masks s);
}

install-IsKillable :
    (signum : ℕ) (act : Get Action) (oldact : Put) (t : Task)
    → IsKillable t
    → IsKillable (install signum act oldact t).1
unfolding install
install-IsKillable signum act put_fault t k = k
install-IsKillable signum get_null put_null t k = k
install-IsKillable signum get_null put_ok t k = k
install-IsKillable signum get_fault put_null t k = k
install-IsKillable signum get_fault put_ok t k = k
install-IsKillable signum (get_ok act) put_null t k =
    set_action-IsKillable signum _ t (unblockable-Lacks (union act.sa_mask (only signum))) k
install-IsKillable signum (get_ok act) put_ok t k =
    set_action-IsKillable signum _ t (unblockable-Lacks (union act.sa_mask (only signum))) k

sys_sigaction-IsKillable :
    (signum : ℕ) (act : Get Action) (oldact : Put) (t : Task)
    → IsKillable t
    → IsKillable (sys_sigaction signum act oldact t).1
unfolding sys_sigaction
sys_sigaction-IsKillable signum act oldact t k = elim (Bool-cases (ltb signum 1 || ltb 32 signum)) [
  | inl bad ↦ rw bad k
  | inr good ↦ rw good (install-IsKillable signum act oldact t k)
]

sys_signal-IsKillable :
    (signum : ℕ) (handler : Handler) (t : Task)
    → IsKillable t
    → IsKillable (sys_signal signum handler t).1
unfolding sys_signal
sys_signal-IsKillable signum handler t k =
    let act : Action = record { sa_handler = handler; sa_mask = λ s. false; oneshot = false } in
    elim (Bool-cases (ltb signum 1 || ltb 32 signum)) [
      | inl bad ↦ rw bad k
      | inr good ↦ rw good (set_action-IsKillable signum act t (refl, refl) k)
    ]

signal_jump-IsKillable : (signum : ℕ) (t : Task) → IsKillable t → IsKillable (signal_jump signum t)
unfolding signal_jump set_action
signal_jump-IsKillable signum t k = record {
  blocked = union-Lacks t.sig_blocked (t.sig_actions signum).sa_mask k.blocked (k.masks signum);
  masks = λ s. ground (arith, k.masks s, k.masks signum);
}

deliver_to-IsKillable :
    (h : Handler) (signum : ℕ) (t : Task) → IsKillable t → IsKillable (deliver_to h signum t).1
unfolding deliver_to
deliver_to-IsKillable sig_ign signum t k = k
deliver_to-IsKillable sig_dfl signum t k = k
deliver_to-IsKillable (at_address a) signum t k = signal_jump-IsKillable signum t k

deliver-IsKillable : (signum : ℕ) (t : Task) → IsKillable t → IsKillable (deliver signum t).1
unfolding deliver
deliver-IsKillable signum t k =
    let t' : Task = record t { sig_pending = without t.sig_pending (only signum) } in
    deliver_to-IsKillable (t.sig_actions signum).sa_handler signum t'
      (record { blocked = k.blocked; masks = k.masks })

pub step-IsKillable : (e : Event) (t : Task) → IsKillable t → IsKillable (step e t)
unfolding step sys_sigreturn sigsuspend_start send_sig
step-IsKillable (call_sigprocmask how set oldset) t k =
    sys_sigprocmask-IsKillable how set oldset t k
step-IsKillable (call_sigaction signum act oldact) t k =
    sys_sigaction-IsKillable signum act oldact t k
step-IsKillable (call_signal signum handler) t k = sys_signal-IsKillable signum handler t k
step-IsKillable (call_sigreturn mask) t k = record {
  blocked = unblockable-Lacks mask;
  masks = k.masks;
}
step-IsKillable (call_sigsuspend mask) t k = record {
  blocked = unblockable-Lacks mask;
  masks = k.masks;
}
step-IsKillable (delivery signum) t k = deliver-IsKillable signum t k
step-IsKillable (arrival signum force) t k = record {
  blocked = ground (arith, k.blocked);
  masks = k.masks;
}

-- However signals arrive and are delivered, and whatever masks and handlers a task sets and its
-- handlers return to, if SIGKILL and SIGSTOP are blocked by no mask of it, they never are.
pub run-IsKillable : (es : List Event) (t : Task) → IsKillable t → IsKillable (run es t)
unfolding run
run-IsKillable [] t k = k
run-IsKillable (e ∷ es) t k = run-IsKillable es (step e t) (step-IsKillable e t k)
