-- ===== src/Tcp/Examples.antt =====
-- A connection that is opened, receives data out of order and is reset, and the theorems at it.
use protura.Base.{
  ℕ, ◌+◌, ◌/◌, ◌%◌, ◌≤◌, ◌⊎◌, All, length, ◌≡◌, ◌↔◌, refl, true, false, none, List, [], ◌∷◌, ◌++◌,
  arith,
}
use mathlib.Core.List.{reverse}
use protura.Base.Word.{sub32}
use protura.Tcp.{Socket, Segment, unconnected, connected, close, established}
use protura.Tcp.Output.{has_route, empty_segment, ack_segment}
use protura.Tcp.Data.Stream.{IsStream}
use protura.Tcp.Data.Frame.{queued}
use protura.Tcp.Send.{connect_start, tcp_sendto, mss}
use protura.Tcp.Send.Segments.{deliver, bodies, tcp_sendto_delivers}
use protura.Tcp.Input.{tcp_rx, tcp_sequence_valid}
use protura.Tcp.Input.Window.{IsAcceptable, tcp_sequence_valid_lem}
use protura.Tcp.Input.Send.{tcp_rx_acks_forward}
use protura.Tcp.Input.Buffers.{tcp_rx_buffers}
use protura.Tcp.Input.Edges.{may_become, tcp_rx_edges}
use protura.Tcp.Input.Reset.{tcp_rx_rst}
use protura.Tcp.Input.Received.{tcp_rx-IsStream}
use protura.Tcp.Input.Handshake.{handshake}
use protura.Tcp.Checksum.{tcp_checksum, tcp_checksum_verifies}

abbrev fresh : Socket
fresh = record {
  tcp_state = close;
  iss = 0;
  irs = 0;
  rcv_nxt = 0;
  rcv_wnd = 0;
  snd_nxt = 0;
  snd_una = 0;
  snd_wnd = 0;
  snd_wl1 = 0;
  snd_wl2 = 0;
  delack = false;
  state = unconnected;
  last_err = none;
  recv_queue = [];
  out_of_order_queue = [];
  refs = 1;
  held = 0;
  sent = [];
}

-- Established, with 200 sent and 201 next, expecting 101.
abbrev open_socket : Socket
open_socket = record fresh {
  tcp_state = established;
  state = connected;
  iss = 200;
  irs = 100;
  rcv_nxt = 101;
  rcv_wnd = 1000;
  snd_nxt = 205;
  snd_una = 201;
}

abbrev syn_ack : Segment
syn_ack = record empty_segment { seq = 100; ack_seq = 201; window = 50; syn = true; ack = true }

abbrev late : Segment
late = record empty_segment { seq = 103; ack_seq = 203; ack = true; body = 7 ∷ 8 ∷ [] }

abbrev reset : Segment
reset = record empty_segment { seq = 101; rst = true }

handshake_example :
    let t = connect_start fresh in
    let u = tcp_rx syn_ack t in
    (u.tcp_state ≡ established)
    × (u.state ≡ connected)
    × (u.rcv_nxt ≡ 101)
    × (u.snd_una ≡ u.snd_nxt)
    × IsStream 101 u
    × (u.sent ≡ ack_segment u ∷ t.sent)
handshake_example = handshake syn_ack fresh refl refl refl refl refl

tcp_sequence_valid_lem_example :
    (tcp_sequence_valid open_socket late ≡ true) ↔ IsAcceptable open_socket late
tcp_sequence_valid_lem_example =
    tcp_sequence_valid_lem open_socket late (omega arith) (omega arith) (omega arith) refl refl

tcp_rx-IsStream_example : IsStream 101 (tcp_rx late open_socket)
tcp_rx-IsStream_example = tcp_rx-IsStream 101 late open_socket (λ e. cc) refl

tcp_rx_edges_example :
    ((tcp_rx reset open_socket).tcp_state ≡ established)
    ⊎ (may_become established (tcp_rx reset open_socket).tcp_state ≡ true)
tcp_rx_edges_example = tcp_rx_edges reset open_socket

tcp_rx_buffers_example : (tcp_rx late open_socket).held + 0 ≡ 0 + queued (tcp_rx late open_socket)
tcp_rx_buffers_example = tcp_rx_buffers late open_socket refl

tcp_rx_rst_example :
    ((tcp_sequence_valid open_socket reset ≡ false) × (tcp_rx reset open_socket ≡ open_socket))
    ⊎ ((tcp_sequence_valid open_socket reset ≡ true)
        × ((tcp_rx reset open_socket).tcp_state ≡ close)
        × ((tcp_rx reset open_socket).state ≡ unconnected)
        × ((tcp_rx reset open_socket).sent ≡ [])
        × ((tcp_rx reset open_socket).recv_queue ≡ [])
        × ((tcp_rx reset open_socket).held ≡ 0))
tcp_rx_rst_example = tcp_rx_rst reset open_socket refl ((λ e. cc), (λ e. cc), (λ e. cc))

tcp_rx_acks_forward_example :
    ((tcp_rx late open_socket).snd_nxt ≡ 205) × (sub32 205 (tcp_rx late open_socket).snd_una ≤ 4)
tcp_rx_acks_forward_example =
    tcp_rx_acks_forward late open_socket (omega arith) (omega arith) (omega arith) (omega arith)
      (λ e. cc)

connected_route : has_route connected ≡ true
unfolding has_route
connected_route = refl

tcp_sendto_delivers_example :
    let (e, t) = tcp_sendto false 3 (5 ∷ 6 ∷ 7 ∷ []) open_socket in
    (e ≡ none)
    × (segs : List Segment) × (t.sent ≡ reverse segs ++ [])
    × All (λ p. length p.body ≤ mss) segs
    × (t.held ≡ 0)
    × ((deliver segs (record open_socket { rcv_nxt = 205 })).recv_queue ≡ [] ++ segs)
    × (bodies segs ≡ 5 ∷ 6 ∷ 7 ∷ [])
    × ((deliver segs (record open_socket { rcv_nxt = 205 })).rcv_nxt ≡ t.snd_nxt)
tcp_sendto_delivers_example =
    tcp_sendto_delivers (5 ∷ 6 ∷ 7 ∷ []) open_socket (record open_socket { rcv_nxt = 205 }) refl
      connected_route (omega arith) refl refl

abbrev checked : ℕ
checked = tcp_checksum (1 ∷ 2 ∷ []) (3 ∷ 4 ∷ 0 ∷ 0 ∷ 5 ∷ [])

tcp_checksum_verifies_example :
    tcp_checksum (1 ∷ 2 ∷ []) (3 ∷ 4 ∷ checked % 256 ∷ checked / 256 ∷ 5 ∷ []) ≡ 0
tcp_checksum_verifies_example =
    tcp_checksum_verifies 1 (1 ∷ 2 ∷ []) (3 ∷ 4 ∷ []) (5 ∷ []) (omega arith) (omega arith)
      (omega arith) (omega arith) (omega arith)
