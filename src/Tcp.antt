-- ===== src/Tcp.antt =====
-- src/net/ipv4: the TCP socket's state and sequence arithmetic (include/protura/net/ipv4/tcp.h,
-- src/net/ipv4/tcp.h). A segment stands for a packet whose header has been read; every operation
-- runs under the socket's private lock, so it is a function on the socket.
pub mod Seq
pub mod Output
pub mod Data
pub mod Input
pub mod Send
pub mod Checksum
mod Examples
use protura.Base.{ℕ, Bool, Option, List, length}
use protura.Base.Errno.{Errno}

-- The states, in the order of the source's enumeration.
pub data State : Type 0 where
  established syn_sent syn_recv fin_wait1 fin_wait2 time_wait close close_wait : State
  last_ack listen closing : State

-- `enum socket_state`
pub data SocketState : Type 0 where
  unconnected connecting connected disconnecting : SocketState

-- `struct tcp_packet_cb` and the packet's bytes. `urg` is never read.
pub record Segment : Type 0 where
  pub seq : ℕ
  pub ack_seq : ℕ
  pub window : ℕ
  pub fin : Bool
  pub syn : Bool
  pub rst : Bool
  pub psh : Bool
  pub ack : Bool
  pub body : List ℕ

-- `packet_len`, once the head stands behind the header.
abbrev pub packet_len : Segment → ℕ
packet_len p = length p.body

-- `struct tcp_socket_private` and what the code touches of `struct socket`: its state, last error,
-- queues and reference count. `held` counts the packet buffers that TCP owns, and `sent` the
-- segments that were handed to the IP layer, newest first.
pub record Socket : Type 0 where
  pub tcp_state : State
  pub iss : ℕ
  pub irs : ℕ
  pub rcv_nxt : ℕ
  pub rcv_wnd : ℕ
  pub snd_nxt : ℕ
  pub snd_una : ℕ
  pub snd_wnd : ℕ
  pub snd_wl1 : ℕ
  pub snd_wl2 : ℕ
  pub delack : Bool
  pub state : SocketState
  pub last_err : Option Errno
  pub recv_queue : List Segment
  pub out_of_order_queue : List Segment
  pub refs : ℕ
  pub held : ℕ
  pub sent : List Segment
