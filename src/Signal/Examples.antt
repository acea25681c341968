-- ===== src/Signal/Examples.antt =====
-- A task that has set no mask, and the theorems at it.
use protura.Base.{◌≡◌, ◌≢◌, refl, true, false, List, [], ◌∷◌, arith}
use protura.Signal.{
  SigSet, Task, sig_dfl, at_address, stopped, sig_setmask, get_ok, put_null, send_sig,
}
use protura.Signal.Mask.{
  Event, call_sigprocmask, call_signal, delivery, call_sigreturn, run, IsKillable, run-IsKillable,
}
use protura.Signal.Kill.{send_sig_kill}

abbrev no_signals : SigSet
no_signals s = false

abbrev task : Task
task = record {
  sig_pending = no_signals;
  sig_blocked = no_signals;
  sig_actions = λ s. record { sa_handler = sig_dfl; sa_mask = no_signals; oneshot = false };
  state = stopped;
}

task-IsKillable : IsKillable task
task-IsKillable = record { blocked = (refl, refl); masks = λ s. (refl, refl) }

-- Every signal is blocked, a handler is set and run, and its frame is rewritten.
abbrev tries : List Event
tries =
    call_sigprocmask sig_setmask (get_ok (λ s. true)) put_null
    ∷ call_signal 15 (at_address 4096)
    ∷ delivery 15
    ∷ call_sigreturn (λ s. true)
    ∷ []

run-IsKillable_example : IsKillable (run tries task)
run-IsKillable_example = run-IsKillable tries task task-IsKillable

send_sig_kill_example :
    let sent = send_sig 9 false task in
    let after = run tries sent in
    (sent.state ≢ stopped) × (after.sig_pending 9 ≡ true) × (after.sig_blocked 9 ≡ false)
send_sig_kill_example =
    send_sig_kill tries false task task-IsKillable (tt, (tt, ((λ e. omega arith), (tt, tt))))
