-- ===== src/Tcp/Data/Stream.antt =====
-- The receive queue holds the byte stream without a gap or an overlap.
use protura.Base.{
  ℕ, ◌==◌, ◌≡◌, refl, inl, inr, List, [], ◌∷◌, ◌++◌, ==_iff, Bool-cases, arith, if◌then◌else◌,
}
use protura.Base.Word.{add32}
use protura.Tcp.Output.{tcp_send_ack, tcp_delack_timer_start, tcp_delack_timer_stop}
use protura.Tcp.{Socket, Segment, packet_len}
use protura.Tcp.Data.{
  socket_recv_packet, consolidate_loop, consolidate_ooo_queue, add_to_ooo_queue, tcp_recv_data,
  tcp_fin,
}

-- The sequence number behind a segment: its bytes, and one for a FIN.
abbrev pub next_seq : Segment → ℕ
next_seq p = if p.fin then add32 (add32 p.seq (packet_len p)) 1 else add32 p.seq (packet_len p)

-- Every segment of the list starts where the one before it ended; the first at `a`, and the last
-- ends at `b`.
abbrev pub Follows : ℕ → List Segment → ℕ → Type 0
Follows a [] b = a ≡ b
Follows a (p ∷ ps) b = (p.seq ≡ a) × Follows (next_seq p) ps b

Follows-append :
    (a : ℕ) (ps : List Segment) (b : ℕ) (p : Segment)
    → Follows a ps b
    → p.seq ≡ b
    → Follows a (ps ++ (p ∷ [])) (next_seq p)
Follows-append a [] b p f h = (ground arith, refl)
Follows-append a (q ∷ ps) b p f h = (f.0, Follows-append (next_seq q) ps b p f.1 h)

-- The queue of a socket is a gapless stream from `a` to `rcv_nxt`.
abbrev pub IsStream : ℕ → Socket → Type 0
IsStream a sock = Follows a sock.recv_queue sock.rcv_nxt

recv_queue-socket_recv_packet :
    (p : Segment) (sock : Socket)
    → (socket_recv_packet p sock).recv_queue ≡ sock.recv_queue ++ (p ∷ [])
unfolding socket_recv_packet tcp_fin
recv_queue-socket_recv_packet p sock = ground arith

rcv_nxt-socket_recv_packet :
    (p : Segment) (sock : Socket)
    → p.seq ≡ sock.rcv_nxt
    → (socket_recv_packet p sock).rcv_nxt ≡ next_seq p
unfolding socket_recv_packet tcp_fin
rcv_nxt-socket_recv_packet p sock h = ground arith

socket_recv_packet-IsStream :
    (a : ℕ) (p : Segment) (sock : Socket)
    → IsStream a sock
    → p.seq ≡ sock.rcv_nxt
    → IsStream a (socket_recv_packet p sock)
socket_recv_packet-IsStream a p sock f h =
    rw (recv_queue-socket_recv_packet p sock, rcv_nxt-socket_recv_packet p sock h)
      (Follows-append a sock.recv_queue sock.rcv_nxt p f h)

consolidate_loop-IsStream :
    (a : ℕ) (kept rest : List Segment) (sock : Socket)
    → IsStream a sock
    → IsStream a (consolidate_loop kept rest sock)
unfolding consolidate_loop
consolidate_loop-IsStream a kept [] sock f = f
consolidate_loop-IsStream a kept (cur ∷ rest) sock f = elim (Bool-cases (cur.seq == sock.rcv_nxt)) [
  | inl hit ↦ rw hit (
      consolidate_loop-IsStream a kept rest (socket_recv_packet cur sock)
        (socket_recv_packet-IsStream a cur sock f ((==_iff _ _).0 hit)))
  | inr miss ↦ rw miss (consolidate_loop-IsStream a (kept ++ (cur ∷ [])) rest sock f)
]

consolidate_ooo_queue-IsStream :
    (a : ℕ) (sock : Socket) → IsStream a sock → IsStream a (consolidate_ooo_queue sock)
unfolding consolidate_ooo_queue
consolidate_ooo_queue-IsStream a sock f =
    consolidate_loop-IsStream a [] sock.out_of_order_queue sock f

start-IsStream :
    (a : ℕ) (sock : Socket) → IsStream a sock → IsStream a (tcp_delack_timer_start sock)
unfolding tcp_delack_timer_start
start-IsStream a sock f = elim (Bool-cases sock.delack) [ inl e ↦ rw e f | inr e ↦ rw e f ]

send_ack-IsStream : (a : ℕ) (sock : Socket) → IsStream a sock → IsStream a (tcp_send_ack sock)
unfolding tcp_send_ack tcp_delack_timer_stop
send_ack-IsStream a sock f = elim (Bool-cases sock.delack) [ inl e ↦ rw e f | inr e ↦ rw e f ]

-- Data that a socket takes in, in order or not, leaves its receive queue a gapless stream that
-- ends at `rcv_nxt`.
pub tcp_recv_data-IsStream :
    (a : ℕ) (p : Segment) (sock : Socket) → IsStream a sock → IsStream a (tcp_recv_data p sock)
unfolding tcp_recv_data add_to_ooo_queue
tcp_recv_data-IsStream a p sock f = elim (Bool-cases (sock.rcv_wnd == 0)) [
  | inl e ↦ rw e f
  | inr e ↦ elim (Bool-cases (p.seq == sock.rcv_nxt)) [
    | inl hit ↦
        rw (e, hit)
          (start-IsStream a _ (
            consolidate_ooo_queue-IsStream a _
              (socket_recv_packet-IsStream a p sock f ((==_iff _ _).0 hit))))
    | inr miss ↦ rw (e, miss) (send_ack-IsStream a _ f)
  ]
]
