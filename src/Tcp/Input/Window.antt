-- ===== src/Tcp/Input/Window.antt =====
-- Which segments lie in the receive window, and what becomes of the send window.
use protura.Base.{ℕ, ◌+◌, false, if◌then◌else◌, ◌<◌, ◌^◌, ◌≡◌, ◌≢◌, ◌⊎◌, ◌↔◌, true, arith}
use protura.Base.Word.{u32_mod, add32, sub32}
use protura.Tcp.Seq.{seq_between_window}
use protura.Tcp.{Socket, Segment, packet_len}
use protura.Tcp.Input.{tcp_sequence_valid}

-- SEG.LEN of RFC 793: SYN and FIN take a number each.
abbrev pub seg_len : Segment → ℕ
seg_len p = packet_len p + (if p.syn then 1 else 0) + (if p.fin then 1 else 0)

-- The table of RFC 793: with an empty segment its number, otherwise its first or its last byte,
-- lies in the window; with a window of zero only an empty segment at `rcv_nxt` is acceptable.
abbrev pub IsAcceptable : Socket → Segment → Type 0
IsAcceptable sock p =
    ((seg_len p ≡ 0) × (sock.rcv_wnd ≡ 0) × (p.seq ≡ sock.rcv_nxt))
    ⊎ ((sock.rcv_wnd ≢ 0) × (sub32 p.seq sock.rcv_nxt < sock.rcv_wnd))
    ⊎ ((seg_len p ≢ 0)
        × (sock.rcv_wnd ≢ 0)
        × (sub32 (sub32 (add32 p.seq (seg_len p)) 1) sock.rcv_nxt < sock.rcv_wnd))

-- For a segment without SYN and FIN, and a receive window below 2 ^ 31, the sequence check accepts
-- the segment exactly if the table of RFC 793 does.
pub tcp_sequence_valid_lem :
    (sock : Socket) (p : Segment)
    → sock.rcv_nxt < u32_mod
    → p.seq < u32_mod
    → sock.rcv_wnd < 2 ^ 31
    → p.syn ≡ false
    → p.fin ≡ false
    → (tcp_sequence_valid sock p ≡ true) ↔ IsAcceptable sock p
unfolding tcp_sequence_valid
tcp_sequence_valid_lem sock p hr hs hw syn fin =
    let first = seq_between_window sock.rcv_nxt p.seq sock.rcv_wnd hr hs hw in
    let last =
      seq_between_window sock.rcv_nxt (sub32 (add32 p.seq (packet_len p)) 1) sock.rcv_wnd hr
        (omega arith) hw in
    let length : seg_len p ≡ packet_len p = rw (syn, fin) (omega arith) in
    rw length (λ h. ground (arith, first, last), λ h. ground (arith, first, last))
