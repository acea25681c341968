-- ===== src/Tcp/Input/Buffers.antt =====
-- Every packet buffer is accounted for: an arriving segment's is freed, passed to the sender of a
-- reset, or put into a queue.
use protura.Base.{◌+◌, ◌<◌, ◌≡◌, true, false, arith}
use protura.Tcp.Output.{tcp_send_ack, tcp_send_reset, tcp_delack_timer_stop}
use protura.Tcp.Data.{tcp_fin}
use protura.Tcp.Data.Frame.{
  queued, ConsumesOne, tcp_send_ack-held, tcp_send_ack-queued, tcp_recv_data-ConsumesOne,
}
use protura.Tcp.{Socket, Segment, established, connected, close}
use protura.Tcp.Input.{
  syn_sent_connect, tcp_syn_sent, rst_error, rst_close, syn_close, rx_text, ack_advance, ack_window,
  rx_ack_synchronized, rx_ack, rx_synchronized, tcp_rx,
}

reset-ConsumesOne :
    (p : Segment) (s : Socket) → p.rst ≡ false → 0 < s.held → ConsumesOne s (tcp_send_reset p s)
unfolding tcp_send_reset
reset-ConsumesOne p s r h = ground arith

rx_text-ConsumesOne : (p : Segment) (s : Socket) → 0 < s.held → ConsumesOne s (rx_text p s)
unfolding rx_text tcp_fin
rx_text-ConsumesOne p s h = ground (arith, tcp_recv_data-ConsumesOne p s h)

rst_close-buffers : (s : Socket) → ((rst_close s).held ≡ s.held) × (queued (rst_close s) ≡ queued s)
unfolding rst_close rst_error
rst_close-buffers s = ground arith

ack-buffers :
    (p : Segment) (s : Socket)
    → ((ack_advance p s).held ≡ s.held)
      × (queued (ack_advance p s) ≡ queued s)
      × ((ack_window p (ack_advance p s)).held ≡ s.held)
      × (queued (ack_window p (ack_advance p s)) ≡ queued s)
unfolding ack_advance ack_window
ack-buffers p s = ground arith

rx_ack_synchronized-ConsumesOne :
    (p : Segment) (s : Socket) → 0 < s.held → ConsumesOne s (rx_ack_synchronized p s)
unfolding rx_ack_synchronized
rx_ack_synchronized-ConsumesOne p s h =
    let b = ack-buffers p s in
    let t = ack_window p (ack_advance p s) in ground (arith, b, rx_text-ConsumesOne p t)

rx_ack-ConsumesOne :
    (p : Segment) (s : Socket) → p.rst ≡ false → 0 < s.held → ConsumesOne s (rx_ack p s)
unfolding rx_ack
rx_ack-ConsumesOne p s r h =
    let t = record s { tcp_state = established; state = connected } in
    ground (
      arith,
      rx_ack_synchronized-ConsumesOne p s h,
      rx_text-ConsumesOne p s h,
      rx_text-ConsumesOne p t h,
      reset-ConsumesOne p s r h,
    )

rx_synchronized-ConsumesOne :
    (p : Segment) (s : Socket) → 0 < s.held → ConsumesOne s (rx_synchronized p s)
unfolding rx_synchronized syn_close
rx_synchronized-ConsumesOne p s h =
    ground (
      arith,
      rx_ack-ConsumesOne p s,
      rst_close-buffers s,
      tcp_send_ack-held s,
      tcp_send_ack-queued s,
    )

syn_sent_connect-buffers :
    (p : Segment) (s : Socket)
    → ((syn_sent_connect p s).held ≡ s.held) × (queued (syn_sent_connect p s) ≡ queued s)
unfolding syn_sent_connect tcp_send_ack tcp_delack_timer_stop
syn_sent_connect-buffers p s = ground arith

tcp_syn_sent-ConsumesOne :
    (p : Segment) (s : Socket) → p.rst ≡ false → 0 < s.held → ConsumesOne s (tcp_syn_sent p s)
unfolding tcp_syn_sent
tcp_syn_sent-ConsumesOne p s r h =
    ground (arith, reset-ConsumesOne p s r h, syn_sent_connect-buffers p s)

-- Whatever the state, a segment without RST leaves TCP with as many buffers outside its queues as
-- before: its own buffer and that of any answer are freed, sent or queued.
pub tcp_rx_buffers :
    (p : Segment) (s : Socket)
    → p.rst ≡ false
    → (tcp_rx p s).held + queued s ≡ s.held + queued (tcp_rx p s)
unfolding tcp_rx
tcp_rx_buffers p s r =
    let t = record s { held = s.held + 1 } in
    ground (
      arith,
      rx_synchronized-ConsumesOne p t,
      tcp_syn_sent-ConsumesOne p t r,
      reset-ConsumesOne p t r,
    )

-- A RST that reaches a closed socket costs one buffer: the answer's, which is allocated before
-- the RST flag is looked at and never freed.
pub tcp_rx_rst_leaks :
    (p : Segment) (s : Socket)
    → p.rst ≡ true
    → s.tcp_state ≡ close
    → ((tcp_rx p s).held ≡ s.held + 1) × (queued (tcp_rx p s) ≡ queued s)
unfolding tcp_rx tcp_send_reset
tcp_rx_rst_leaks p s r c = ground arith
