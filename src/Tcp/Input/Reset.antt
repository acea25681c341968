-- ===== src/Tcp/Input/Reset.antt =====
-- RST segments, and the received stream, in the synchronised states.
use protura.Base.{◌+◌, ◌≡◌, ◌≢◌, ◌⊎◌, refl, true, false, some, arith, Bool-cases, inl, inr}
use protura.Base.Errno.{econnreset}
use protura.Tcp.{Socket, Segment, State, syn_sent, syn_recv, close, listen, unconnected}
use protura.Tcp.Input.{rst_error, rst_close, rx_synchronized, tcp_rx, tcp_sequence_valid}

abbrev pub IsSynchronized : State → Type 0
IsSynchronized a = (a ≢ close) × (a ≢ syn_sent) × (a ≢ listen)

-- The socket that owns the buffer of the segment.
abbrev with_buffer : Socket → Socket
with_buffer s = record s { held = s.held + 1 }

tcp_rx_synchronized :
    (p : Segment) (s : Socket)
    → IsSynchronized s.tcp_state
    → tcp_rx p s ≡ rx_synchronized p (with_buffer s)
unfolding tcp_rx
tcp_rx_synchronized p s n = ground arith

valid-with_buffer :
    (p : Segment) (s : Socket) → tcp_sequence_valid (with_buffer s) p ≡ tcp_sequence_valid s p
unfolding tcp_sequence_valid
valid-with_buffer p s = refl

rst_close_fields :
    (s : Socket)
    → ((rst_close s).tcp_state ≡ close)
      × ((rst_close s).state ≡ unconnected)
      × ((rst_close s).sent ≡ s.sent)
      × ((rst_close s).recv_queue ≡ s.recv_queue)
      × ((rst_close s).held ≡ s.held)
unfolding rst_close rst_error
rst_close_fields s = ground arith

rx_synchronized_rst :
    (p : Segment) (s : Socket)
    → p.rst ≡ true
    → ((tcp_sequence_valid s p ≡ false) × (rx_synchronized p (with_buffer s) ≡ s))
      ⊎ ((tcp_sequence_valid s p ≡ true)
          × ((rx_synchronized p (with_buffer s)).tcp_state ≡ close)
          × ((rx_synchronized p (with_buffer s)).state ≡ unconnected)
          × ((rx_synchronized p (with_buffer s)).sent ≡ s.sent)
          × ((rx_synchronized p (with_buffer s)).recv_queue ≡ s.recv_queue)
          × ((rx_synchronized p (with_buffer s)).held ≡ s.held))
unfolding rx_synchronized
rx_synchronized_rst p s r = elim (Bool-cases (tcp_sequence_valid s p)) [
  | inl e ↦ inr (ground (arith, valid-with_buffer p s, rst_close_fields (with_buffer s)))
  | inr e ↦ inl (e, ground (arith, valid-with_buffer p s))
]

-- In the synchronised states a RST outside the window has no effect at all. One inside it closes
-- the socket, sends nothing, leaves the received data and frees its buffer.
pub tcp_rx_rst :
    (p : Segment) (s : Socket)
    → p.rst ≡ true
    → IsSynchronized s.tcp_state
    → ((tcp_sequence_valid s p ≡ false) × (tcp_rx p s ≡ s))
      ⊎ ((tcp_sequence_valid s p ≡ true)
          × ((tcp_rx p s).tcp_state ≡ close)
          × ((tcp_rx p s).state ≡ unconnected)
          × ((tcp_rx p s).sent ≡ s.sent)
          × ((tcp_rx p s).recv_queue ≡ s.recv_queue)
          × ((tcp_rx p s).held ≡ s.held))
tcp_rx_rst p s r n = rw (tcp_rx_synchronized p s n) (rx_synchronized_rst p s r)

-- A RST inside the window in SYN-RECEIVED leaves ECONNRESET: the case sets ECONNREFUSED and falls
-- through.
pub tcp_rx_rst_error :
    (p : Segment) (s : Socket)
    → p.rst ≡ true
    → s.tcp_state ≡ syn_recv
    → tcp_sequence_valid s p ≡ true
    → (tcp_rx p s).last_err ≡ some econnreset
unfolding tcp_rx rx_synchronized rst_close rst_error
tcp_rx_rst_error p s r n v = ground (arith, valid-with_buffer p s)
