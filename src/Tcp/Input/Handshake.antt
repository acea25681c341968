-- ===== src/Tcp/Input/Handshake.antt =====
-- Opening a connection: the SYN that goes out and the answer to it.
use protura.Base.{ℕ, ◌≡◌, refl, true, false, [], ◌∷◌, arith}
use protura.Base.Word.{add32}
use protura.Tcp.Output.{has_route, ack_segment, tcp_send_ack, tcp_send_syn, tcp_delack_timer_stop}
use protura.Tcp.Data.Stream.{IsStream}
use protura.Tcp.Send.{connect_start}
use protura.Tcp.{Socket, Segment, established, connected}
use protura.Tcp.Input.{tcp_rx, tcp_syn_sent, bad_syn_ack, syn_sent_connect}

empty-IsStream : (a : ℕ) (u : Socket) → u.recv_queue ≡ [] → u.rcv_nxt ≡ a → IsStream a u
empty-IsStream a u q n = rw (q, n) refl

-- A socket that has begun to connect with an empty receive queue becomes established by any
-- segment with SYN and ACK, without RST, that acknowledges its SYN. It then expects the byte
-- behind the peer's SYN, has nothing unacknowledged, its receive queue is an empty stream from
-- there, and the last segment that it sent is the acknowledgement of exactly this.
pub handshake :
    (p : Segment) (s : Socket)
    → p.syn ≡ true
    → p.ack ≡ true
    → p.rst ≡ false
    → p.ack_seq ≡ 201
    → s.recv_queue ≡ []
    → let t = connect_start s in
      let u = tcp_rx p t in
      (u.tcp_state ≡ established)
      × (u.state ≡ connected)
      × (u.rcv_nxt ≡ add32 p.seq 1)
      × (u.snd_una ≡ u.snd_nxt)
      × IsStream (add32 p.seq 1) u
      × (u.sent ≡ ack_segment u ∷ t.sent)
unfolding connect_start tcp_send_syn tcp_rx tcp_syn_sent bad_syn_ack syn_sent_connect tcp_send_ack
    tcp_delack_timer_stop has_route
handshake p s syn ack rst num empty = (
  ground arith,
  ground arith,
  ground arith,
  ground arith,
  empty-IsStream (add32 p.seq 1) (tcp_rx p (connect_start s)) (ground arith) (ground arith),
  ground arith,
)
