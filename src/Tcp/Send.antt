-- ===== src/Tcp/Send.antt =====
-- src/net/ipv4/tcp.c: opening a connection up to its wait, and sending a user's bytes.
pub mod Segments
use protura.Base.{
  ℕ, zero, suc, ◌+◌, ◌-◌, ◌==◌, ltb, Bool, true, false, Option, none, some, List, [], ◌∷◌, length,
  take, drop, if◌then◌else◌,
}
use protura.Base.Errno.{Errno, efault, eisconn}
use protura.Base.Word.{add32}
use protura.Tcp.Output.{packet_new, packet_free, tcp_send, empty_segment, tcp_send_syn}
use protura.Tcp.{Socket, Segment, connecting}

-- `IPV4_PACKET_MSS`
abbrev pub mss : ℕ
mss = 1024

-- The assignments of `tcp_connect` under the private lock, once the route is known and the
-- socket is in the lookup table, with the SYN and its sequence number.
unfoldable pub connect_start : Socket → Socket
connect_start sock =
    let sock = tcp_send_syn (record sock {
      rcv_wnd = 44477;
      iss = 200;
      snd_una = 200;
      snd_nxt = 200;
      snd_wnd = 0;
      snd_wl1 = 0;
      rcv_nxt = 0;
      state = connecting;
    }) in
    record sock { snd_nxt = add32 sock.snd_nxt 1 }

-- `tcp_sendto_packet`
abbrev pub data_segment : Socket → Bool → List ℕ → Segment
data_segment sock psh body = record empty_segment {
  seq = sock.snd_nxt;
  ack_seq = sock.rcv_nxt;
  window = sock.rcv_wnd;
  ack = true;
  psh = psh;
  body = body;
}

abbrev pub append_len : ℕ → ℕ
append_len buf_len = if ltb mss buf_len then mss else buf_len

-- The loop of `tcp_sendto`. `bytes` is what can be read of the user's buffer from the current
-- place on: a copy beyond it faults, after earlier packets have gone. Each round takes at least one
-- byte, so `buf_len` is enough fuel.
unfoldable pub sendto_loop : ℕ → ℕ → List ℕ → Socket → Option Errno × Socket
sendto_loop zero buf_len bytes sock = (none, sock)
sendto_loop (suc fuel) buf_len bytes sock =
    let n = append_len buf_len in
    let sent = tcp_send (data_segment sock (buf_len - n == 0) (take n bytes)) (packet_new sock) in
    let rest =
      sendto_loop fuel (buf_len - n) (drop n bytes)
        (record sent { snd_nxt = add32 sent.snd_nxt n }) in
    if buf_len == 0
    then (none, sock)
    else if ltb (length bytes) n
    then (some efault, packet_free (packet_new sock))
    else rest

-- The result is the error, or `none` for the whole length. `has_addr` says that the caller gave an
-- address. A pending error is returned and cleared.
unfoldable pub tcp_sendto : Bool → ℕ → List ℕ → Socket → Option Errno × Socket
tcp_sendto has_addr buf_len bytes sock =
    if has_addr then (some eisconn, sock) else elim sock.last_err [
      | some e ↦ (some e, record sock { last_err = none })
      | none ↦ sendto_loop buf_len buf_len bytes sock
    ]
