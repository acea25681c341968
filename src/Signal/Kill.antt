-- ===== src/Signal/Kill.antt =====
-- A SIGKILL reaches its task, but the task may have asked to ignore it.
use protura.Base.{ℕ, ◌≡◌, ◌≢◌, refl, ◌∙◌, Bool, true, false, List, [], ◌∷◌, All, arith}
use protura.Base.Errno.{ok}
use protura.Signal.{
  SigSet, Handler, sig_dfl, Action, Task, How, sig_block, sig_unblock, sig_setmask, bad_how, Put,
  put_null, put_fault, put_ok, Get, get_null, get_fault, get_ok, change_mask, sys_sigprocmask,
  set_action, install, sys_sigaction, sys_signal, sys_sigreturn, sigsuspend_start, signal_jump,
  deliver, deliver_to, send_sig, unblockable, without, only, ignored, at_address, sig_ign, State,
  stopped, running, intr_sleeping, other_state, wake_state,
}
use protura.Signal.Mask.{
  Event, call_sigprocmask, call_sigaction, call_signal, call_sigreturn, call_sigsuspend, delivery,
  arrival, step, run, IsKillable, run-IsKillable, step-IsKillable,
}

-- An event other than the delivery of SIGKILL.
abbrev pub IsOther : Event → Type 0
IsOther (call_sigprocmask how set oldset) = Unit
IsOther (call_sigaction signum act oldact) = Unit
IsOther (call_signal signum handler) = Unit
IsOther (call_sigreturn mask) = Unit
IsOther (call_sigsuspend mask) = Unit
IsOther (delivery signum) = signum ≢ 9
IsOther (arrival signum force) = Unit

change_mask_pending :
    (how : How) (tmp : SigSet) (t : Task) → (change_mask how tmp t).1.sig_pending ≡ t.sig_pending
unfolding change_mask
change_mask_pending sig_block tmp t = refl
change_mask_pending sig_unblock tmp t = refl
change_mask_pending sig_setmask tmp t = refl
change_mask_pending bad_how tmp t = refl

sys_sigprocmask_pending :
    (how : How) (set : Get SigSet) (oldset : Put) (t : Task)
    → (sys_sigprocmask how set oldset t).1.sig_pending ≡ t.sig_pending
unfolding sys_sigprocmask
sys_sigprocmask_pending how set put_fault t = refl
sys_sigprocmask_pending how get_null put_null t = refl
sys_sigprocmask_pending how get_null put_ok t = refl
sys_sigprocmask_pending how get_fault put_null t = refl
sys_sigprocmask_pending how get_fault put_ok t = refl
sys_sigprocmask_pending how (get_ok set) put_null t =
    change_mask_pending how (without set unblockable) t
sys_sigprocmask_pending how (get_ok set) put_ok t =
    change_mask_pending how (without set unblockable) t

install_pending :
    (signum : ℕ) (act : Get Action) (oldact : Put) (t : Task)
    → (install signum act oldact t).1.sig_pending ≡ t.sig_pending
unfolding install set_action
install_pending signum act put_fault t = refl
install_pending signum get_null put_null t = refl
install_pending signum get_null put_ok t = refl
install_pending signum get_fault put_null t = refl
install_pending signum get_fault put_ok t = refl
install_pending signum (get_ok act) put_null t = refl
install_pending signum (get_ok act) put_ok t = refl

deliver_to_pending :
    (h : Handler) (signum : ℕ) (t : Task)
    → (deliver_to h signum t).1.sig_pending 9 ≡ t.sig_pending 9
unfolding deliver_to signal_jump set_action
deliver_to_pending sig_ign signum t = refl
deliver_to_pending sig_dfl signum t = refl
deliver_to_pending (at_address a) signum t = ground arith

deliver_pending :
    (signum : ℕ) (t : Task) → signum ≢ 9 → (deliver signum t).1.sig_pending 9 ≡ t.sig_pending 9
unfolding deliver
deliver_pending signum t h =
    let t' : Task = record t { sig_pending = without t.sig_pending (only signum) } in
    deliver_to_pending (t.sig_actions signum).sa_handler signum t' ∙ ground arith

step_pending :
    (e : Event) (t : Task) → IsOther e → t.sig_pending 9 ≡ true → (step e t).sig_pending 9 ≡ true
unfolding step sys_sigreturn sigsuspend_start send_sig sys_sigaction sys_signal set_action
step_pending (call_sigprocmask how set oldset) t o p =
    rw (sys_sigprocmask_pending how set oldset t) p
step_pending (call_sigaction signum act oldact) t o p =
    ground (arith, install_pending signum act oldact t)
step_pending (call_signal signum handler) t o p = ground arith
step_pending (call_sigreturn mask) t o p = p
step_pending (call_sigsuspend mask) t o p = p
step_pending (delivery signum) t o p = deliver_pending signum t o ∙ p
step_pending (arrival signum force) t o p = ground arith

run_pending :
    (es : List Event) (t : Task)
    → All IsOther es
    → t.sig_pending 9 ≡ true
    → (run es t).sig_pending 9 ≡ true
unfolding run
run_pending [] t o p = p
run_pending (e ∷ es) t o p = run_pending es (step e t) o.1 (step_pending e t o.0 p)

sent_state : (s : State) → wake_state 9 s ≢ stopped
unfolding wake_state
sent_state intr_sleeping = λ e. cc
sent_state running = λ e. cc
sent_state stopped = λ e. cc
sent_state other_state = λ e. cc

sent_not_stopped : (force : Bool) (t : Task) → (send_sig 9 force t).state ≢ stopped
unfolding send_sig
sent_not_stopped force t = sent_state t.state

sent_pending : (force : Bool) (t : Task) → (send_sig 9 force t).sig_pending 9 ≡ true
unfolding send_sig
sent_pending force t = ground arith

-- A SIGKILL that is sent to a task leaves it not stopped. Whatever happens then but its delivery, it
-- stays pending and unblocked, if the task started with no mask that blocks it.
pub send_sig_kill :
    (es : List Event) (force : Bool) (t : Task)
    → IsKillable t
    → All IsOther es
    → let sent = send_sig 9 force t in
      let after = run es sent in
      (sent.state ≢ stopped) × (after.sig_pending 9 ≡ true) × (after.sig_blocked 9 ≡ false)
unfolding step
send_sig_kill es force t k o =
    let sent = send_sig 9 force t in
    let killable : IsKillable sent = step-IsKillable (arrival 9 force) t k in
    (
      sent_not_stopped force t,
      run_pending es sent o (sent_pending force t),
      (run-IsKillable es sent killable).blocked.0,
    )

-- A task that asks by sigaction to ignore SIGKILL, with pointers that can be read and written,
-- succeeds, and the delivery of a SIGKILL that is sent to it is then ignored.
pub deliver-sys_sigaction_kill :
    (mask : SigSet) (oneshot : Bool) (t : Task)
    → let act : Action = record { sa_handler = sig_ign; sa_mask = mask; oneshot = oneshot } in
      let (r, t') = sys_sigaction 9 (get_ok act) put_ok t in
      (r ≡ ok) × ((deliver 9 (send_sig 9 false t')).0 ≡ ignored)
unfolding sys_sigaction install set_action send_sig deliver deliver_to
deliver-sys_sigaction_kill mask oneshot t = (refl, refl)
