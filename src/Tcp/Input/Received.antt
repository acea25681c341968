-- ===== src/Tcp/Input/Received.antt =====
-- The received stream under arriving segments.
use protura.Base.{ℕ, ◌+◌, ◌≡◌, ◌≢◌, arith}
use protura.Tcp.Output.{tcp_send_ack, tcp_send_reset, tcp_delack_timer_stop}
use protura.Tcp.Data.{tcp_fin}
use protura.Tcp.Data.Stream.{IsStream, tcp_recv_data-IsStream}
use protura.Tcp.{Socket, Segment, established, syn_sent, connected}
use protura.Tcp.Input.{
  rst_error, rst_close, syn_close, rx_text, ack_advance, ack_window, rx_ack_synchronized, rx_ack,
  rx_synchronized, tcp_rx,
}

rx_text-IsStream : (a : ℕ) (p : Segment) (s : Socket) → IsStream a s → IsStream a (rx_text p s)
unfolding rx_text tcp_fin
rx_text-IsStream a p s f = ground (arith, tcp_recv_data-IsStream a p s f)

-- The received data and where it ends are the same.
abbrev SameStream : Socket → Socket → Type 0
SameStream s t = (t.recv_queue ≡ s.recv_queue) × (t.rcv_nxt ≡ s.rcv_nxt)

IsStream-same : (a : ℕ) (s t : Socket) → SameStream s t → IsStream a s → IsStream a t
IsStream-same a s t h f = rw (h.0, h.1) f

ack-SameStream :
    (p : Segment) (s : Socket)
    → SameStream s (ack_advance p s) × SameStream s (ack_window p (ack_advance p s))
unfolding ack_advance ack_window
ack-SameStream p s = ground arith

rx_ack_synchronized-IsStream :
    (a : ℕ) (p : Segment) (s : Socket) → IsStream a s → IsStream a (rx_ack_synchronized p s)
unfolding rx_ack_synchronized
rx_ack_synchronized-IsStream a p s f =
    let t = ack_advance p s in
    let u = ack_window p t in
    let g = IsStream-same a s t (ack-SameStream p s).0 f in
    let h = IsStream-same a s u (ack-SameStream p s).1 f in
    ground (arith, g, h, rx_text-IsStream a p u h)

reset-SameStream : (p : Segment) (s : Socket) → SameStream s (tcp_send_reset p s)
unfolding tcp_send_reset
reset-SameStream p s = ground arith

ack_sent-SameStream : (s : Socket) → SameStream s (tcp_send_ack s)
unfolding tcp_send_ack tcp_delack_timer_stop
ack_sent-SameStream s = ground arith

rx_ack-IsStream : (a : ℕ) (p : Segment) (s : Socket) → IsStream a s → IsStream a (rx_ack p s)
unfolding rx_ack
rx_ack-IsStream a p s f =
    let t = record s { tcp_state = established; state = connected } in
    ground (
      arith,
      rx_ack_synchronized-IsStream a p s f,
      rx_text-IsStream a p s f,
      rx_text-IsStream a p t f,
      IsStream-same a s (tcp_send_reset p s) (reset-SameStream p s) f,
    )

rst_close-SameStream : (s : Socket) → SameStream s (rst_close s)
unfolding rst_close rst_error
rst_close-SameStream s = ground arith

rx_synchronized-IsStream :
    (a : ℕ) (p : Segment) (s : Socket) → IsStream a s → IsStream a (rx_synchronized p s)
unfolding rx_synchronized syn_close
rx_synchronized-IsStream a p s f = ground (
  arith,
  rx_ack-IsStream a p s f,
  IsStream-same a s (tcp_send_ack s) (ack_sent-SameStream s) f,
  IsStream-same a s (rst_close s) (rst_close-SameStream s) f,
)

-- Outside SYN-SENT every segment leaves the receive queue a stream that starts where it did,
-- has neither gap nor overlap, and ends at `rcv_nxt`.
pub tcp_rx-IsStream :
    (a : ℕ) (p : Segment) (s : Socket)
    → s.tcp_state ≢ syn_sent
    → IsStream a s
    → IsStream a (tcp_rx p s)
unfolding tcp_rx
tcp_rx-IsStream a p s n f =
    let t = record s { held = s.held + 1 } in
    ground (
      arith,
      rx_synchronized-IsStream a p t f,
      IsStream-same a s (tcp_send_reset p t) (reset-SameStream p t) f,
    )
