-- ===== src/Tcp/Data/Frame.antt =====
-- What taking in data leaves alone, and how it accounts for packet buffers.
use protura.Base.{ℕ, ◌+◌, ◌<◌, ◌≡◌, List, [], ◌∷◌, ◌++◌, arith, length, length-append}
use protura.Tcp.Output.{tcp_send_ack, tcp_send_reset, tcp_delack_timer_start, tcp_delack_timer_stop}
use protura.Tcp.{Socket, Segment}
use protura.Tcp.Data.{
  tcp_fin, insert_ooo, add_to_ooo_queue, socket_recv_packet, consolidate_loop,
  consolidate_ooo_queue, tcp_recv_data,
}

-- The numbers of the sending side.
abbrev pub SameSend : Socket → Socket → Type 0
SameSend s t =
    (t.snd_nxt ≡ s.snd_nxt)
    × (t.snd_una ≡ s.snd_una)
    × (t.snd_wnd ≡ s.snd_wnd)
    × (t.snd_wl1 ≡ s.snd_wl1)
    × (t.snd_wl2 ≡ s.snd_wl2)

pub SameSend-trans : (s t u : Socket) → SameSend s t → SameSend t u → SameSend s u
SameSend-trans s t u h k = omega arith

socket_recv_packet-SameSend : (p : Segment) (s : Socket) → SameSend s (socket_recv_packet p s)
unfolding socket_recv_packet tcp_fin
socket_recv_packet-SameSend p s = ground arith

consolidate_loop-SameSend :
    (kept rest : List Segment) (s : Socket) → SameSend s (consolidate_loop kept rest s)
unfolding consolidate_loop
consolidate_loop-SameSend kept [] s = omega arith
consolidate_loop-SameSend kept (cur ∷ rest) s = ground (
  arith,
  socket_recv_packet-SameSend cur s,
  consolidate_loop-SameSend kept rest (socket_recv_packet cur s),
  consolidate_loop-SameSend (kept ++ (cur ∷ [])) rest s,
)

pub tcp_send_ack-SameSend : (s : Socket) → SameSend s (tcp_send_ack s)
unfolding tcp_send_ack tcp_delack_timer_stop
tcp_send_ack-SameSend s = ground arith

pub tcp_send_reset-SameSend : (p : Segment) (s : Socket) → SameSend s (tcp_send_reset p s)
unfolding tcp_send_reset
tcp_send_reset-SameSend p s = ground arith

pub tcp_recv_data-SameSend : (p : Segment) (s : Socket) → SameSend s (tcp_recv_data p s)
unfolding tcp_recv_data tcp_delack_timer_start add_to_ooo_queue consolidate_ooo_queue
tcp_recv_data-SameSend p s =
    let t = socket_recv_packet p s in
    ground (
      arith,
      socket_recv_packet-SameSend p s,
      consolidate_loop-SameSend [] t.out_of_order_queue t,
      tcp_send_ack-SameSend (record s { out_of_order_queue = insert_ooo p s.out_of_order_queue }),
    )

-- The buffers that the queues hold.
abbrev pub queued : Socket → ℕ
queued s = length s.recv_queue + length s.out_of_order_queue

-- The step from `s` to `t` queues or gives up exactly one of the buffers that TCP owned outside
-- the queues.
abbrev pub ConsumesOne : Socket → Socket → Type 0
ConsumesOne s t = t.held + queued s + 1 ≡ s.held + queued t

length-insert_ooo : (p : Segment) (q : List Segment) → length (insert_ooo p q) ≡ length q + 1
unfolding insert_ooo
length-insert_ooo p [] = omega arith
length-insert_ooo p (cur ∷ rest) = ground (arith, length-insert_ooo p rest)

held-socket_recv_packet :
    (p : Segment) (s : Socket)
    → ((socket_recv_packet p s).held ≡ s.held)
      × (length (socket_recv_packet p s).recv_queue ≡ length s.recv_queue + 1)
      × ((socket_recv_packet p s).out_of_order_queue ≡ s.out_of_order_queue)
unfolding socket_recv_packet tcp_fin
held-socket_recv_packet p s = ground (arith, length-append s.recv_queue (p ∷ []))

held-consolidate_loop :
    (kept rest : List Segment) (s : Socket)
    → ((consolidate_loop kept rest s).held ≡ s.held)
      × (queued (consolidate_loop kept rest s) ≡ length kept + length rest + length s.recv_queue)
unfolding consolidate_loop
held-consolidate_loop kept [] s = omega arith
held-consolidate_loop kept (cur ∷ rest) s = ground (
  arith,
  held-socket_recv_packet cur s,
  held-consolidate_loop kept rest (socket_recv_packet cur s),
  held-consolidate_loop (kept ++ (cur ∷ [])) rest s,
  length-append kept (cur ∷ []),
)

pub tcp_send_ack-held : (s : Socket) → (tcp_send_ack s).held ≡ s.held
unfolding tcp_send_ack tcp_delack_timer_stop
tcp_send_ack-held s = ground arith

pub tcp_send_ack-queued : (s : Socket) → queued (tcp_send_ack s) ≡ queued s
unfolding tcp_send_ack tcp_delack_timer_stop
tcp_send_ack-queued s = ground arith

-- Taking in a segment queues its buffer or frees it.
pub tcp_recv_data-ConsumesOne :
    (p : Segment) (s : Socket) → 0 < s.held → ConsumesOne s (tcp_recv_data p s)
unfolding tcp_recv_data tcp_delack_timer_start add_to_ooo_queue consolidate_ooo_queue
tcp_recv_data-ConsumesOne p s h =
    let t = socket_recv_packet p s in
    let u = record s { out_of_order_queue = insert_ooo p s.out_of_order_queue } in
    ground (
      arith,
      held-socket_recv_packet p s,
      held-consolidate_loop [] t.out_of_order_queue t,
      length-insert_ooo p s.out_of_order_queue,
      tcp_send_ack-held u,
      tcp_send_ack-queued u,
    )
