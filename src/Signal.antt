-- ===== src/Signal.antt =====
-- src/kernel/sched/signal.c, `send_sig` of src/kernel/sched/scheduler.c and the delivery of
-- arch/x86/kernel/signal.c: the signals of one task. A `sigset_t` is a function from the numbers of
-- signals, which stand for its bits; a set operation of the code is the one on every bit.
pub mod Mask
pub mod Kill
mod Examples
use protura.Base.{
  ℕ, zero, suc, ◌+◌, ◌-◌, ◌==◌, ◌&&◌, ◌||◌, not, ltb, Bool, true, false, Option, none, some, List,
  [], ◌∷◌, if◌then◌else◌,
}
use protura.Base.Errno.{Status, ok, err, efault, einval}

abbrev pub SigSet : Type 0
SigSet = ℕ → Bool

abbrev pub sigkill : ℕ
sigkill = 9

abbrev pub sigcont : ℕ
sigcont = 18

abbrev pub sigstop : ℕ
sigstop = 19

abbrev pub nsig : ℕ
nsig = 32

-- `SIG_UNBLOCKABLE`
abbrev pub unblockable : SigSet
unblockable s = s == sigkill || s == sigstop

-- SIGSTOP, SIGTSTP, SIGTTIN and SIGTTOU
abbrev pub is_stop : SigSet
is_stop s = s == sigstop || s == 20 || s == 21 || s == 22

abbrev pub without : SigSet → SigSet → SigSet
without a b s = a s && not (b s)

abbrev pub union : SigSet → SigSet → SigSet
union a b s = a s || b s

abbrev pub only : ℕ → SigSet
only signum s = s == signum

pub data Handler : Type 0 where
  sig_dfl : Handler
  sig_ign : Handler
  at_address : ℕ → Handler

-- `struct sigaction`
pub record Action : Type 0 where
  pub sa_handler : Handler
  pub sa_mask : SigSet
  pub oneshot : Bool

-- The states of `enum task_state` that signals tell apart.
pub data State : Type 0 where
  intr_sleeping running stopped other_state : State

-- The fields of `struct task` that signals use.
pub record Task : Type 0 where
  pub sig_pending : SigSet
  pub sig_blocked : SigSet
  pub sig_actions : ℕ → Action
  pub state : State

-- The first argument of `sigprocmask`.
pub data How : Type 0 where
  sig_block sig_unblock sig_setmask bad_how : How

-- A pointer to user memory for writing (`put`) or reading (`get`): NULL, or one that faults or not.
pub data Put : Type 0 where
  put_null put_fault put_ok : Put

pub data Get (A : Type 0) : Type 0 where
  get_null : Get A
  get_fault : Get A
  get_ok : A → Get A

unfoldable pub change_mask : How → SigSet → Task → Status × Task
change_mask sig_block tmp t = (ok, record t { sig_blocked = union t.sig_blocked tmp })
change_mask sig_unblock tmp t = (ok, record t { sig_blocked = without t.sig_blocked tmp })
change_mask sig_setmask tmp t = (ok, record t { sig_blocked = tmp })
change_mask bad_how tmp t = (err einval, t)

unfoldable pub sys_sigprocmask : How → Get SigSet → Put → Task → Status × Task
sys_sigprocmask how set put_fault t = (err efault, t)
sys_sigprocmask how get_null oldset t = (ok, t)
sys_sigprocmask how get_fault oldset t = (err efault, t)
sys_sigprocmask how (get_ok set) oldset t = change_mask how (without set unblockable) t

unfoldable pub set_action : ℕ → Action → Task → Task
set_action signum act t = record t {
  sig_actions = λ s. if s == signum then act else t.sig_actions s;
}

unfoldable pub install : ℕ → Get Action → Put → Task → Status × Task
install signum act put_fault t = (err efault, t)
install signum get_null oldact t = (ok, t)
install signum get_fault oldact t = (err efault, t)
install signum (get_ok act) oldact t = (
  ok,
  set_action signum (record act { sa_mask = without (union act.sa_mask (only signum)) unblockable })
      t,
)

unfoldable pub sys_sigaction : ℕ → Get Action → Put → Task → Status × Task
sys_sigaction signum act oldact t =
    if ltb signum 1 || ltb nsig signum then (err einval, t) else install signum act oldact t

-- `none` is SIG_ERR.
unfoldable pub sys_signal : ℕ → Handler → Task → Option Handler × Task
sys_signal signum handler t =
    let act : Action = record { sa_handler = handler; sa_mask = λ s. false; oneshot = false } in
    if ltb signum 1 || ltb nsig signum
    then (none, t)
    else (some (t.sig_actions signum).sa_handler, set_action signum act t)

-- The mask that `sys_sigreturn` takes from the user's stack.
unfoldable pub sys_sigreturn : SigSet → Task → Task
sys_sigreturn old_mask t = record t { sig_blocked = without old_mask unblockable }

-- `sys_sigsuspend` up to its wait, for a mask that could be read.
unfoldable pub sigsuspend_start : SigSet → Task → Task
sigsuspend_start mask t = record t { sig_blocked = without mask unblockable }

-- The end of `signal_jump`, behind the frame on the user's stack; SA_ONESHOT makes the handler NULL,
-- which is SIG_DFL.
unfoldable pub signal_jump : ℕ → Task → Task
signal_jump signum t =
    let action = t.sig_actions signum in
    let t' =
      if action.oneshot then set_action signum (record action { sa_handler = sig_dfl }) t else t in
    record t' { sig_blocked = union t.sig_blocked action.sa_mask }

-- What one round of the loop of `signal_handle` does with a signal.
pub data Delivery : Type 0 where
  ignored by_default handled : Delivery

unfoldable pub deliver_to : Handler → ℕ → Task → Delivery × Task
deliver_to sig_ign signum t = (ignored, t)
deliver_to sig_dfl signum t = (by_default, t)
deliver_to (at_address a) signum t = (handled, signal_jump signum t)

unfoldable pub deliver : ℕ → Task → Delivery × Task
deliver signum t =
    deliver_to (t.sig_actions signum).sa_handler signum
      (record t { sig_pending = without t.sig_pending (only signum) })

-- A stopped task goes on at SIGCONT and SIGKILL, and a sleep that signals may end ends.
unfoldable pub wake_state : ℕ → State → State
wake_state signal intr_sleeping = running
wake_state signal stopped = if signal == sigcont || signal == sigkill then running else stopped
wake_state signal running = running
wake_state signal other_state = other_state

unfoldable pub send_sig : ℕ → Bool → Task → Task
send_sig signal force t =
    let no_stops = if signal == sigcont then without t.sig_pending is_stop else t.sig_pending in
    let pending = if is_stop signal then without no_stops (only sigcont) else no_stops in
    record t {
      sig_pending = union pending (only signal);
      sig_blocked = if force then without t.sig_blocked (only signal) else t.sig_blocked;
      state = wake_state signal t.state;
    }
