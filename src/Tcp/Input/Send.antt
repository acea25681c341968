-- ===== src/Tcp/Input/Send.antt =====
-- The sending side of a socket under arriving segments.
use protura.Base.{◌-◌, ◌+◌, ◌≤◌, ◌<◌, ◌^◌, ◌≡◌, ◌≢◌, ◌⊎◌, true, arith}
use protura.Base.Word.{u32_mod, add32, sub32}
use protura.Tcp.Seq.{seq_between, seq_between_distance, not-seq_between_self}
use protura.Tcp.Output.{tcp_send_ack, tcp_delack_timer_stop}
use protura.Tcp.Data.{tcp_fin}
use protura.Tcp.Data.Frame.{
  SameSend, tcp_send_ack-SameSend, tcp_send_reset-SameSend, tcp_recv_data-SameSend,
}
use protura.Tcp.{Socket, Segment, established, connected, syn_sent}
use protura.Tcp.Input.{
  syn_sent_connect, tcp_syn_sent, rst_error, rst_close, syn_close, rx_text, ack_advance, ack_window,
  rx_ack_synchronized, rx_ack, rx_synchronized, tcp_rx,
}

rx_text-SameSend : (p : Segment) (s : Socket) → SameSend s (rx_text p s)
unfolding rx_text tcp_fin
rx_text-SameSend p s = ground (arith, tcp_recv_data-SameSend p s)

rst_close-SameSend : (s : Socket) → SameSend s (rst_close s)
unfolding rst_close rst_error
rst_close-SameSend s = ground arith

-- An acknowledgement that was followed no longer passes the test in front of the window update,
-- nor does one that was not.
ack_window-advance :
    (p : Segment) (s : Socket)
    → p.ack_seq < u32_mod
    → ack_window p (ack_advance p s) ≡ ack_advance p s
unfolding ack_window ack_advance
ack_window-advance p s h = ground (arith, not-seq_between_self p.ack_seq (add32 s.snd_nxt 1) h)

-- What an acknowledgement changes of the sending side.
abbrev Acked : Segment → Socket → Socket → Type 0
Acked p s t =
    (t.snd_nxt ≡ s.snd_nxt)
    × (t.snd_una ≡ (ack_advance p s).snd_una)
    × (t.snd_wnd ≡ s.snd_wnd)
    × (t.snd_wl1 ≡ s.snd_wl1)
    × (t.snd_wl2 ≡ s.snd_wl2)

ack_advance-Acked : (p : Segment) (s : Socket) → Acked p s (ack_advance p s)
unfolding ack_advance
ack_advance-Acked p s = ground arith

rx_ack_synchronized-Acked :
    (p : Segment) (s : Socket) → p.ack_seq < u32_mod → Acked p s (rx_ack_synchronized p s)
unfolding rx_ack_synchronized
rx_ack_synchronized-Acked p s h =
    ground
      (arith, ack_advance-Acked p s, ack_window-advance p s h, rx_text-SameSend p (ack_advance p s))

-- The numbers of the last window update.
abbrev SameWindow : Socket → Socket → Type 0
SameWindow s t = (t.snd_wnd ≡ s.snd_wnd) × (t.snd_wl1 ≡ s.snd_wl1) × (t.snd_wl2 ≡ s.snd_wl2)

-- `snd_una` stays, or follows an acknowledgement that is strictly between it and `snd_nxt + 1`.
abbrev Follows : Segment → Socket → Socket → Type 0
Follows p s t =
    (t.snd_nxt ≡ s.snd_nxt)
    × ((t.snd_una ≡ s.snd_una)
        ⊎ ((t.snd_una ≡ p.ack_seq) × (seq_between s.snd_una p.ack_seq (add32 s.snd_nxt 1) ≡ true)))

ack_advance-Follows : (p : Segment) (s : Socket) → Follows p s (ack_advance p s)
unfolding ack_advance
ack_advance-Follows p s = ground arith

rx_ack-Acked :
    (p : Segment) (s : Socket)
    → p.ack_seq < u32_mod
    → SameWindow s (rx_ack p s) × Follows p s (rx_ack p s)
unfolding rx_ack
rx_ack-Acked p s h =
    let t = record s { tcp_state = established; state = connected } in
    ground (
      arith,
      rx_ack_synchronized-Acked p s h,
      ack_advance-Follows p s,
      rx_text-SameSend p s,
      rx_text-SameSend p t,
      tcp_send_reset-SameSend p s,
    )

rx_synchronized-Acked :
    (p : Segment) (s : Socket)
    → p.ack_seq < u32_mod
    → SameWindow s (rx_synchronized p s) × Follows p s (rx_synchronized p s)
unfolding rx_synchronized syn_close
rx_synchronized-Acked p s h =
    ground (arith, rx_ack-Acked p s h, rst_close-SameSend s, tcp_send_ack-SameSend s)

syn_sent_connect-SameWindow : (p : Segment) (s : Socket) → SameWindow s (syn_sent_connect p s)
unfolding syn_sent_connect tcp_send_ack tcp_delack_timer_stop
syn_sent_connect-SameWindow p s = ground arith

tcp_syn_sent-SameWindow : (p : Segment) (s : Socket) → SameWindow s (tcp_syn_sent p s)
unfolding tcp_syn_sent
tcp_syn_sent-SameWindow p s =
    ground (arith, tcp_send_reset-SameSend p s, syn_sent_connect-SameWindow p s)

-- No segment changes the send window or the numbers of its last update, in any state.
pub tcp_rx_keeps_window :
    (p : Segment) (s : Socket)
    → p.ack_seq < u32_mod
    → ((tcp_rx p s).snd_wnd ≡ s.snd_wnd)
      × ((tcp_rx p s).snd_wl1 ≡ s.snd_wl1)
      × ((tcp_rx p s).snd_wl2 ≡ s.snd_wl2)
unfolding tcp_rx
tcp_rx_keeps_window p s h =
    let t = record s { held = s.held + 1 } in
    ground
      (arith, rx_synchronized-Acked p t h, tcp_syn_sent-SameWindow p t, tcp_send_reset-SameSend p t)

tcp_rx-Follows :
    (p : Segment) (s : Socket)
    → p.ack_seq < u32_mod
    → s.tcp_state ≢ syn_sent
    → Follows p s (tcp_rx p s)
unfolding tcp_rx
tcp_rx-Follows p s h n =
    let t = record s { held = s.held + 1 } in
    ground (arith, rx_synchronized-Acked p t h, tcp_send_reset-SameSend p t)

-- Outside SYN-SENT a segment leaves `snd_nxt` alone and never moves `snd_una` further away from
-- it, if they are less than 2 ^ 31 - 1 apart.
pub tcp_rx_acks_forward :
    (p : Segment) (s : Socket)
    → p.ack_seq < u32_mod
    → s.snd_una < u32_mod
    → s.snd_nxt < u32_mod
    → sub32 s.snd_nxt s.snd_una < 2 ^ 31 - 1
    → s.tcp_state ≢ syn_sent
    → ((tcp_rx p s).snd_nxt ≡ s.snd_nxt)
      × (sub32 s.snd_nxt (tcp_rx p s).snd_una ≤ sub32 s.snd_nxt s.snd_una)
tcp_rx_acks_forward p s ha hu hn near n = ground (
  arith,
  tcp_rx-Follows p s ha n,
  seq_between_distance s.snd_una p.ack_seq s.snd_nxt hu ha hn near,
)
