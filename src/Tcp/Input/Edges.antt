-- ===== src/Tcp/Input/Edges.antt =====
-- The state machine of a connection under arriving segments.
use protura.Base.{
  ◌+◌, ◌≡◌, ◌≢◌, ◌⊎◌, refl, Bool, true, false, List, [], ◌∷◌, ◌++◌, arith, ◌==◌, Bool-cases, inl,
  inr,
}
use protura.Tcp.Output.{tcp_send_ack, tcp_send_reset, tcp_delack_timer_start, tcp_delack_timer_stop}
use protura.Tcp.Data.{
  fin_state, tcp_fin, tcp_recv_data, socket_recv_packet, consolidate_loop, consolidate_ooo_queue,
  add_to_ooo_queue,
}
use protura.Tcp.{
  Socket, Segment, State, established, syn_sent, syn_recv, fin_wait2, time_wait, close, close_wait,
  listen, connected,
}
use protura.Tcp.Input.{
  syn_sent_connect, tcp_syn_sent, rst_close, syn_close, rx_text, ack_advance, ack_window,
  rx_ack_synchronized, rx_ack, rx_synchronized, tcp_rx,
}

-- The states that a single segment can lead to, beside the one that the socket is in.
pub may_become : State → State → Bool
may_become syn_sent established = true
may_become syn_sent syn_recv = true
may_become syn_sent close = true
may_become syn_recv established = true
may_become syn_recv close_wait = true
may_become established close_wait = true
may_become fin_wait2 time_wait = true
may_become listen _ = false
may_become _ close = true
may_become _ _ = false

-- What a FIN does, if there was one.
abbrev AfterFin : State → State → Type 0
AfterFin a b = (b ≡ a) ⊎ (b ≡ fin_state a)

socket_recv_packet-AfterFin :
    (p : Segment) (s : Socket) → AfterFin s.tcp_state (socket_recv_packet p s).tcp_state
unfolding socket_recv_packet tcp_fin
socket_recv_packet-AfterFin p s = ground arith

AfterFin-trans : (a b c : State) → AfterFin a b → AfterFin b c → AfterFin a c
unfolding fin_state
AfterFin-trans a b c h k = ground arith

consolidate_loop-AfterFin :
    (kept rest : List Segment) (s : Socket)
    → AfterFin s.tcp_state (consolidate_loop kept rest s).tcp_state
unfolding consolidate_loop
consolidate_loop-AfterFin kept [] s = inl refl
consolidate_loop-AfterFin kept (cur ∷ rest) s = elim (Bool-cases (cur.seq == s.rcv_nxt)) [
  | inl hit ↦
      let t = socket_recv_packet cur s in
      rw hit (
        AfterFin-trans s.tcp_state t.tcp_state (consolidate_loop kept rest t).tcp_state
          (socket_recv_packet-AfterFin cur s) (consolidate_loop-AfterFin kept rest t))
  | inr miss ↦ rw miss (consolidate_loop-AfterFin (kept ++ (cur ∷ [])) rest s)
]

tcp_recv_data-AfterFin :
    (p : Segment) (s : Socket) → AfterFin s.tcp_state (tcp_recv_data p s).tcp_state
unfolding tcp_recv_data tcp_delack_timer_start tcp_delack_timer_stop tcp_send_ack add_to_ooo_queue
    consolidate_ooo_queue
tcp_recv_data-AfterFin p s =
    let t = socket_recv_packet p s in
    ground (
      arith,
      socket_recv_packet-AfterFin p s,
      consolidate_loop-AfterFin [] t.out_of_order_queue t,
      AfterFin-trans s.tcp_state t.tcp_state (consolidate_loop [] t.out_of_order_queue t).tcp_state,
    )

rx_text-AfterFin : (p : Segment) (s : Socket) → AfterFin s.tcp_state (rx_text p s).tcp_state
unfolding rx_text tcp_fin
rx_text-AfterFin p s = ground (arith, tcp_recv_data-AfterFin p s)

ack-tcp_state :
    (p : Segment) (s : Socket)
    → ((ack_advance p s).tcp_state ≡ s.tcp_state)
      × ((ack_window p (ack_advance p s)).tcp_state ≡ s.tcp_state)
unfolding ack_advance ack_window
ack-tcp_state p s = ground arith

rx_ack_synchronized-AfterFin :
    (p : Segment) (s : Socket) → AfterFin s.tcp_state (rx_ack_synchronized p s).tcp_state
unfolding rx_ack_synchronized
rx_ack_synchronized-AfterFin p s =
    let t = ack_window p (ack_advance p s) in
    let e = (ack-tcp_state p s).1 in
    ground (arith, ack-tcp_state p s, rw e at (rx_text-AfterFin p t))

abbrev Edge : State → State → Type 0
Edge a b = (b ≡ a) ⊎ (may_become a b ≡ true)

AfterFin-Edge : (a b : State) → AfterFin a b → Edge a b
unfolding fin_state may_become
AfterFin-Edge a b h = ground arith

established-Edge : (b : State) → AfterFin established b → Edge syn_recv b
unfolding fin_state may_become
established-Edge b h = ground arith

reset-tcp_state : (p : Segment) (s : Socket) → (tcp_send_reset p s).tcp_state ≡ s.tcp_state
unfolding tcp_send_reset
reset-tcp_state p s = ground arith

ack-state : (s : Socket) → (tcp_send_ack s).tcp_state ≡ s.tcp_state
unfolding tcp_send_ack tcp_delack_timer_stop
ack-state s = ground arith

rx_ack-Edge : (p : Segment) (s : Socket) → Edge s.tcp_state (rx_ack p s).tcp_state
unfolding rx_ack
rx_ack-Edge p s =
    let t = record s { tcp_state = established; state = connected } in
    ground (
      arith,
      AfterFin-Edge s.tcp_state (rx_text p s).tcp_state (rx_text-AfterFin p s),
      AfterFin-Edge s.tcp_state (rx_ack_synchronized p s).tcp_state
          (rx_ack_synchronized-AfterFin p s),
      established-Edge (rx_text p t).tcp_state (rx_text-AfterFin p t),
      reset-tcp_state p s,
    )

-- A socket that is neither closed nor listening can be closed.
may_become-close : (a : State) → a ≢ listen → may_become a close ≡ true
unfolding may_become
may_become-close a h = ground arith

rx_synchronized-Edge :
    (p : Segment) (s : Socket)
    → s.tcp_state ≢ listen
    → Edge s.tcp_state (rx_synchronized p s).tcp_state
unfolding rx_synchronized rst_close syn_close
rx_synchronized-Edge p s h =
    ground (arith, rx_ack-Edge p s, ack-state s, may_become-close s.tcp_state h)

tcp_syn_sent-Edge :
    (p : Segment) (s : Socket) → s.tcp_state ≡ syn_sent → Edge syn_sent (tcp_syn_sent p s).tcp_state
unfolding tcp_syn_sent syn_sent_connect may_become
tcp_syn_sent-Edge p s h = ground (arith, reset-tcp_state p s)

-- A segment leaves the state as it is or takes one of the listed transitions.
pub tcp_rx_edges :
    (p : Segment) (s : Socket)
    → ((tcp_rx p s).tcp_state ≡ s.tcp_state)
      ⊎ (may_become s.tcp_state (tcp_rx p s).tcp_state ≡ true)
unfolding tcp_rx
tcp_rx_edges p s =
    let t = record s { held = s.held + 1 } in
    ground (arith, rx_synchronized-Edge p t, tcp_syn_sent-Edge p t, reset-tcp_state p t)
