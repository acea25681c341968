-- ===== src/Tcp/Input.antt =====
-- src/net/ipv4/tcp_input.c: what a socket does with an arriving segment whose checksum is right.
-- A branch that ends in `drop_packet` frees the segment's buffer.
pub mod Window
pub mod Buffers
pub mod Edges
pub mod Handshake
pub mod Received
pub mod Reset
pub mod Send
use protura.Base.{
  ℕ, ◌+◌, ◌-◌, ◌==◌, ◌!=◌, ◌&&◌, ◌||◌, ltb, leb, not, Bool, true, false, some, if◌then◌else◌,
}
use protura.Base.Errno.{econnrefused, econnreset}
use protura.Base.Word.{add32, sub32}
use protura.Tcp.Seq.{seq_before, seq_after, seq_between}
use protura.Tcp.Output.{packet_free, tcp_send_ack, tcp_send_reset}
use protura.Tcp.Data.{tcp_fin, tcp_recv_data}
use protura.Tcp.{
  Socket, Segment, State, SocketState, packet_len, established, syn_sent, syn_recv, fin_wait1,
  fin_wait2, time_wait, close, close_wait, last_ack, listen, closing, unconnected, connected,
}

unfoldable pub tcp_sequence_valid : Socket → Segment → Bool
tcp_sequence_valid sock p =
    let len = packet_len p in
    let inside =
      λ (s : ℕ). seq_between (sub32 sock.rcv_nxt 1) s (add32 sock.rcv_nxt sock.rcv_wnd) in
    if len == 0
    then (if sock.rcv_wnd == 0 then p.seq == sock.rcv_nxt else inside p.seq)
    else if sock.rcv_wnd == 0
    then false
    else inside p.seq || inside (sub32 (add32 p.seq len) 1)

-- A segment in the state SYN-SENT.
unfoldable pub bad_syn_ack : Socket → Segment → Bool
bad_syn_ack sock p =
    leb p.ack_seq sock.iss || ltb sock.snd_nxt p.ack_seq || ltb p.ack_seq sock.snd_una

-- The part behind the SYN test. The sequence of the source's assignments is kept.
unfoldable pub syn_sent_connect : Segment → Socket → Socket
syn_sent_connect p sock =
    let una = if p.ack then p.ack_seq else sock.snd_una in
    let sock = record sock { rcv_nxt = add32 p.seq 1; irs = p.seq; snd_una = una } in
    if ltb sock.iss una
    then record (tcp_send_ack (record sock { snd_una = sock.snd_nxt })) {
      tcp_state = established;
      state = connected;
    }
    else record sock { tcp_state = syn_recv; snd_una = sock.iss }

unfoldable pub tcp_syn_sent : Segment → Socket → Socket
tcp_syn_sent p sock =
    if p.ack && bad_syn_ack sock p
    then tcp_send_reset p sock
    else if p.rst
    then packet_free
        (record sock { tcp_state = close; last_err = some econnrefused; state = unconnected })
    else if p.syn
    then packet_free (syn_sent_connect p sock)
    else packet_free sock

-- The switch on the state at a RST: the case of SYN-RECEIVED falls through to the next.
unfoldable pub rst_error : Socket → Socket
rst_error sock = elim sock.tcp_state [
  | syn_recv ↦ record sock { last_err = some econnreset }
  | established ↦ record sock { last_err = some econnreset }
  | fin_wait1 ↦ record sock { last_err = some econnreset }
  | fin_wait2 ↦ record sock { last_err = some econnreset }
  | close_wait ↦ record sock { last_err = some econnreset }
  | _ ↦ sock
]

unfoldable pub rst_close : Socket → Socket
rst_close sock = record (rst_error sock) { tcp_state = close; state = unconnected }

unfoldable pub syn_close : Socket → Socket
syn_close sock = record sock { last_err = some econnreset; tcp_state = close; state = unconnected }

-- The states in which the segment's text is read.
unfoldable pub takes_text : State → Bool
takes_text established = true
takes_text fin_wait1 = true
takes_text fin_wait2 = true
takes_text _ = false

-- The seventh step, and the FIN of a segment that was not taken.
unfoldable pub rx_text : Segment → Socket → Socket
rx_text p sock =
    if takes_text sock.tcp_state && (p.psh || p.fin || packet_len p != 0)
    then tcp_recv_data p sock
    else packet_free (if p.fin then tcp_fin sock else sock)

-- `snd_una` follows an acceptable acknowledgement.
unfoldable pub ack_advance : Segment → Socket → Socket
ack_advance p sock =
    if seq_between sock.snd_una p.ack_seq (add32 sock.snd_nxt 1)
    then record sock { snd_una = p.ack_seq }
    else sock

-- The update of the send window, behind a second test of the acknowledgement.
unfoldable pub ack_window : Segment → Socket → Socket
ack_window p sock =
    if seq_between sock.snd_una p.ack_seq (add32 sock.snd_nxt 1)
      && (seq_before sock.snd_wl1 p.seq
          || (sock.snd_wl1 == p.seq && seq_before (add32 sock.snd_wl2 1) p.ack_seq))
    then record sock { snd_wnd = p.window; snd_wl1 = p.seq; snd_wl2 = p.ack_seq }
    else sock

-- The fifth step in the synchronised states, with the extra processing of CLOSING.
unfoldable pub rx_ack_synchronized : Segment → Socket → Socket
rx_ack_synchronized p sock =
    let sock = ack_advance p sock in
    if seq_after p.ack_seq sock.snd_nxt
    then packet_free sock
    else let sock = ack_window p sock in
      elim sock.tcp_state [ closing ↦ packet_free sock | _ ↦ rx_text p sock ]

unfoldable pub rx_ack : Segment → Socket → Socket
rx_ack p sock = elim sock.tcp_state [
  | syn_recv ↦
      if seq_between sock.snd_una p.ack_seq (add32 sock.snd_nxt 1)
      then rx_text p (record sock { tcp_state = established; state = connected })
      else tcp_send_reset p sock
  | time_wait ↦ rx_text p sock
  | close ↦ rx_text p sock
  | syn_sent ↦ rx_text p sock
  | listen ↦ rx_text p sock
  | _ ↦ rx_ack_synchronized p sock
]

-- The checks from the first to the fifth.
unfoldable pub rx_synchronized : Segment → Socket → Socket
rx_synchronized p sock =
    if not (tcp_sequence_valid sock p)
    then packet_free (if p.rst then sock else tcp_send_ack sock)
    else if p.rst
    then packet_free (rst_close sock)
    else if p.syn
    then packet_free (syn_close sock)
    else if p.ack
    then rx_ack p sock
    else packet_free sock

-- `tcp_rx` behind the checksum, for a socket: `tcp_closed`, `tcp_listen` and the rest. The buffer
-- of the segment is TCP's from here on.
unfoldable pub tcp_rx : Segment → Socket → Socket
tcp_rx p sock =
    let sock = record sock { held = sock.held + 1 } in
    elim sock.tcp_state [
      | close ↦ tcp_send_reset p sock
      | syn_sent ↦ tcp_syn_sent p sock
      | listen ↦ packet_free sock
      | _ ↦ rx_synchronized p sock
    ]
