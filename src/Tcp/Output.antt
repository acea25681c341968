-- ===== src/Tcp/Output.antt =====
-- src/net/ipv4/tcp_output.c and tcp_timer.c: the segments that TCP sends, and the timer of the
-- delayed acknowledgement, which holds a reference on the socket while it is pending.
-- `packet_new` takes a buffer, and `packet_free` and the hand-over to the IP layer give one back.
-- Whether the routing table has a route for a reset, which has no socket, is not modelled.
use protura.Base.{◌+◌, ◌-◌, Bool, true, false, [], ◌∷◌, if◌then◌else◌}
use protura.Base.Word.{add32}
use protura.Tcp.{
  Socket, SocketState, unconnected, connecting, connected, disconnecting, Segment, syn_sent,
  packet_len,
}

abbrev pub packet_new : Socket → Socket
packet_new sock = record sock { held = sock.held + 1 }

abbrev pub packet_free : Socket → Socket
packet_free sock = record sock { held = sock.held - 1 }

-- `ip_packet_fill_route` without an address: only a socket that is connecting or connected has a
-- route, the cached one.
unfoldable pub has_route : SocketState → Bool
has_route connecting = true
has_route connected = true
has_route unconnected = false
has_route disconnecting = false

-- `tcp_send`: the segment goes to the IP layer with its buffer, or is freed without a route.
abbrev pub tcp_send : Segment → Socket → Socket
tcp_send p sock = record sock {
  held = sock.held - 1;
  sent = if has_route sock.state then p ∷ sock.sent else sock.sent;
}

-- `tcp_send_raw`, for a segment of no socket.
abbrev pub tcp_send_raw : Segment → Socket → Socket
tcp_send_raw p sock = record sock { held = sock.held - 1; sent = p ∷ sock.sent }

-- A fresh packet's control block: no flags, no bytes.
abbrev pub empty_segment : Segment
empty_segment = record {
  seq = 0;
  ack_seq = 0;
  window = 0;
  fin = false;
  syn = false;
  rst = false;
  psh = false;
  ack = false;
  body = [];
}

-- `kwork_delay_unschedule` succeeds only if the timer is pending.
unfoldable pub tcp_delack_timer_stop : Socket → Socket
tcp_delack_timer_stop sock =
    if sock.delack then record sock { delack = false; refs = sock.refs - 1 } else sock

-- `kwork_delay_schedule` fails if the timer is pending.
unfoldable pub tcp_delack_timer_start : Socket → Socket
tcp_delack_timer_start sock =
    if sock.delack then sock else record sock { delack = true; refs = sock.refs + 1 }

unfoldable pub tcp_send_syn : Socket → Socket
tcp_send_syn sock =
    let p = record empty_segment {
      seq = sock.snd_nxt;
      ack_seq = sock.rcv_nxt;
      window = sock.rcv_wnd;
      syn = true;
    } in
    record (tcp_send p (packet_new sock)) { tcp_state = syn_sent }

-- The acknowledgement that a socket sends.
abbrev pub ack_segment : Socket → Segment
ack_segment sock = record empty_segment {
  seq = sock.snd_nxt;
  ack_seq = sock.rcv_nxt;
  window = sock.rcv_wnd;
  ack = true;
}

unfoldable pub tcp_send_ack : Socket → Socket
tcp_send_ack sock = tcp_send (ack_segment sock) (tcp_delack_timer_stop (packet_new sock))

-- The reset that answers a segment.
abbrev pub reset_segment : Segment → Segment
reset_segment old =
    if old.ack
    then record empty_segment { seq = old.ack_seq; rst = true }
    else record empty_segment {
      ack_seq =
          if old.syn
          then add32 (add32 old.seq (packet_len old)) 1
          else add32 old.seq (packet_len old);
      rst = true;
      ack = true;
    }

-- The new packet is allocated before the test of the old one's RST flag, as in the source.
unfoldable pub tcp_send_reset : Segment → Socket → Socket
tcp_send_reset old sock =
    let sock = packet_new sock in
    packet_free (if old.rst then sock else tcp_send_raw (reset_segment old) sock)
