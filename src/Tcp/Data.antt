-- ===== src/Tcp/Data.antt =====
-- src/net/ipv4/tcp_data.c: in-order data goes to the receive queue, and what it joins up with
-- follows it from the out-of-order queue. Also `tcp_fin` of tcp_input.c, which it calls.
pub mod Stream
pub mod Frame
use protura.Base.{ℕ, ◌+◌, ◌==◌, Bool, true, false, List, [], ◌∷◌, ◌++◌, if◌then◌else◌}
use protura.Base.Word.{add32}
use protura.Tcp.Seq.{seq_before}
use protura.Tcp.Output.{packet_free, tcp_send_ack, tcp_delack_timer_start}
use protura.Tcp.{
  Socket, Segment, State, packet_len, established, syn_recv, fin_wait1, fin_wait2, time_wait,
  close_wait,
}

-- The state that follows a FIN.
unfoldable pub fin_state : State → State
fin_state syn_recv = close_wait
fin_state established = close_wait
fin_state fin_wait2 = time_wait
fin_state state = state

unfoldable pub tcp_fin : Socket → Socket
tcp_fin sock = record sock { tcp_state = fin_state sock.tcp_state }

-- Before the first queued segment that it precedes.
unfoldable pub insert_ooo : Segment → List Segment → List Segment
insert_ooo p [] = p ∷ []
insert_ooo p (cur ∷ rest) =
    if seq_before p.seq cur.seq then p ∷ cur ∷ rest else cur ∷ insert_ooo p rest

unfoldable pub add_to_ooo_queue : Segment → Socket → Socket
add_to_ooo_queue p sock = record sock { out_of_order_queue = insert_ooo p sock.out_of_order_queue }

unfoldable pub socket_recv_packet : Segment → Socket → Socket
socket_recv_packet p sock =
    let sock = record sock { rcv_nxt = add32 sock.rcv_nxt (packet_len p) } in
    let sock = if p.fin then tcp_fin (record sock { rcv_nxt = add32 sock.rcv_nxt 1 }) else sock in
    record sock { recv_queue = sock.recv_queue ++ (p ∷ []) }

-- One pass over the queue; `kept` are the segments passed so far, last first in the queue's order.
unfoldable pub consolidate_loop : List Segment → List Segment → Socket → Socket
consolidate_loop kept [] sock = record sock { out_of_order_queue = kept }
consolidate_loop kept (cur ∷ rest) sock =
    let taken = consolidate_loop kept rest (socket_recv_packet cur sock) in
    let passed = consolidate_loop (kept ++ (cur ∷ [])) rest sock in
    if cur.seq == sock.rcv_nxt then taken else passed

unfoldable pub consolidate_ooo_queue : Socket → Socket
consolidate_ooo_queue sock = consolidate_loop [] sock.out_of_order_queue sock

unfoldable pub tcp_recv_data : Segment → Socket → Socket
tcp_recv_data p sock =
    if sock.rcv_wnd == 0
    then packet_free sock
    else if p.seq == sock.rcv_nxt
    then tcp_delack_timer_start (consolidate_ooo_queue (socket_recv_packet p sock))
    else tcp_send_ack (add_to_ooo_queue p sock)
