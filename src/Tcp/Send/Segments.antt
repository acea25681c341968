-- ===== src/Tcp/Send/Segments.antt =====
-- What a sender cuts its bytes into, and what a receiver makes of it.
use mathlib.Core.List.{reverse, reverse-cons}
use protura.Base.{
  ℕ, zero, suc, ◌-◌, ◌≤◌, ◌≡◌, ◌≢◌, ◌==◌, refl, sym, ap, ◌∙◌, true, false, none, List, [], ◌∷◌,
  ◌++◌, length, take, drop, All, arith, length-take, length-drop, take-append-drop, append_assoc,
  append-nil,
}
use protura.Base.Word.{add32}
use protura.Tcp.Output.{has_route, packet_new, tcp_send, tcp_delack_timer_start}
use protura.Tcp.Data.{
  tcp_fin, tcp_recv_data, socket_recv_packet, consolidate_ooo_queue, consolidate_loop,
}
use protura.Tcp.Data.Stream.{next_seq, Follows}
use protura.Tcp.{Socket, Segment, packet_len}
use protura.Tcp.Send.{mss, append_len, data_segment, sendto_loop, tcp_sendto}

-- The bytes of a list of segments.
pub bodies : List Segment → List ℕ
bodies [] = []
bodies (p ∷ ps) = p.body ++ bodies ps

-- `t` has sent `segs`, oldest first, since `s`; they carry `bytes`, their numbers follow on from
-- `snd_nxt`, and none is longer than the segment size.
pub record HasSent (s : Socket) (bytes : List ℕ) (segs : List Segment) (t : Socket) : Type 0 where
  pub queue : t.sent ≡ reverse segs ++ s.sent
  pub carried : bodies segs ≡ bytes
  pub numbered : Follows s.snd_nxt segs t.snd_nxt
  pub short : All (λ p. packet_len p ≤ mss) segs
  pub buffers : t.held ≡ s.held

-- The socket after one round of the loop.
abbrev sent_one : ℕ → List ℕ → Socket → Socket
sent_one buf_len bytes s =
    let n = append_len buf_len in
    let t = tcp_send (data_segment s (buf_len - n == 0) (take n bytes)) (packet_new s) in
    record t { snd_nxt = add32 t.snd_nxt n }

sendto_loop_done : (fuel : ℕ) (bytes : List ℕ) (s : Socket) → sendto_loop fuel 0 bytes s ≡ (none, s)
unfolding sendto_loop
sendto_loop_done zero bytes s = refl
sendto_loop_done (suc fuel) bytes s = refl

sendto_loop_step :
    (fuel buf_len : ℕ) (bytes : List ℕ) (s : Socket)
    → buf_len ≢ 0
    → length bytes ≡ buf_len
    → sendto_loop (suc fuel) buf_len bytes s
      ≡ sendto_loop fuel
          (buf_len - append_len buf_len)
          (drop (append_len buf_len) bytes)
          (sent_one buf_len bytes s)
unfolding sendto_loop
sendto_loop_step fuel buf_len bytes s h e = ground arith

HasSent-cons :
    (p : Segment) (n : ℕ) (bytes : List ℕ) (segs : List Segment) (s t u : Socket)
    → p.seq ≡ s.snd_nxt
    → p.body ≡ take n bytes
    → next_seq p ≡ t.snd_nxt
    → packet_len p ≤ mss
    → t.sent ≡ p ∷ s.sent
    → t.held ≡ s.held
    → HasSent t (drop n bytes) segs u
    → HasSent s bytes (p ∷ segs) u
unfolding bodies
HasSent-cons p n bytes segs s t u seq body next short queue held h = record {
  queue =
      rw (reverse-cons p segs, append_assoc (reverse segs) (p ∷ []) s.sent)
        (h.queue ∙ ap (◌++◌ (reverse segs)) queue);
  carried = rw (body, h.carried) (take-append-drop n bytes);
  numbered = (seq, rw next h.numbered);
  short = (short, h.short);
  buffers = omega arith;
}

sendto_loop_lem :
    (fuel buf_len : ℕ) (bytes : List ℕ) (s : Socket)
    → buf_len ≤ fuel
    → length bytes ≡ buf_len
    → has_route s.state ≡ true
    → (segs : List Segment) × ((sendto_loop fuel buf_len bytes s).0 ≡ none)
      × HasSent s bytes segs (sendto_loop fuel buf_len bytes s).1
unfolding bodies
sendto_loop_lem fuel zero [] s h e route =
    rw (sendto_loop_done fuel [] s) (
      [],
      refl,
      record { queue = refl; carried = refl; numbered = refl; short = tt; buffers = refl },
    )
sendto_loop_lem fuel zero (b ∷ bytes) s h e route = absurd (omega arith)
sendto_loop_lem zero (suc n) bytes s h e route = absurd (omega arith)
sendto_loop_lem (suc fuel) (suc n) bytes s h e route =
    let k = append_len (suc n) in
    let p = data_segment s (suc n - k == 0) (take k bytes) in
    let t = sent_one (suc n) bytes s in
    let size : packet_len p ≡ k = ground (arith, length-take k bytes) in
    let (segs, fine, rest) =
      sendto_loop_lem fuel (suc n - k) (drop k bytes) t (ground arith)
        (ground (arith, length-drop k bytes)) route in
    let queue : t.sent ≡ p ∷ s.sent = rw route refl in
    rw (sendto_loop_step fuel (suc n) bytes s (omega arith) e) (
      p ∷ segs,
      fine,
      HasSent-cons p k bytes segs s t _ refl refl (ap (add32 s.snd_nxt) size) (ground (arith, size))
          queue (omega arith) rest,
    )

-- The receiver's side: the segments are handed to a socket one after another.
pub deliver : List Segment → Socket → Socket
deliver [] r = r
deliver (p ∷ ps) r = deliver ps (tcp_recv_data p r)

-- A segment at `rcv_nxt`, with nothing out of order waiting.
recv_in_order :
    (p : Segment) (r : Socket)
    → r.rcv_wnd ≢ 0
    → p.seq ≡ r.rcv_nxt
    → r.out_of_order_queue ≡ []
    → let t = tcp_recv_data p r in
      (t.rcv_wnd ≡ r.rcv_wnd)
      × (t.rcv_nxt ≡ next_seq p)
      × (t.out_of_order_queue ≡ [])
      × (t.recv_queue ≡ r.recv_queue ++ (p ∷ []))
unfolding tcp_recv_data socket_recv_packet consolidate_ooo_queue consolidate_loop
    tcp_delack_timer_start tcp_fin
recv_in_order p r h e q = ground arith

deliver_lem :
    (ps : List Segment) (b : ℕ) (r : Socket)
    → r.rcv_wnd ≢ 0
    → r.out_of_order_queue ≡ []
    → Follows r.rcv_nxt ps b
    → ((deliver ps r).recv_queue ≡ r.recv_queue ++ ps) × ((deliver ps r).rcv_nxt ≡ b)
unfolding deliver
deliver_lem [] b r h q f = (sym (append-nil r.recv_queue), f)
deliver_lem (p ∷ ps) b r h q f =
    let t = tcp_recv_data p r in
    let (wnd, nxt, ooo, queue) = recv_in_order p r h f.0 q in
    let (all, end) = deliver_lem ps b t (ground arith) ooo (rw nxt f.1) in
    (all ∙ ap (λ l. l ++ ps) queue ∙ append_assoc r.recv_queue (p ∷ []) ps, end)

-- A send of readable bytes by a socket that is connecting or connected, without a pending error,
-- succeeds. It hands segments to IP, none longer than the segment size, that, given in order to a
-- receiver which expects the sender's next number, has a window and no data out of order, put
-- exactly those bytes behind what its receive queue held.
pub tcp_sendto_delivers :
    (bytes : List ℕ) (s r : Socket)
    → s.last_err ≡ none
    → has_route s.state ≡ true
    → r.rcv_wnd ≢ 0
    → r.out_of_order_queue ≡ []
    → r.rcv_nxt ≡ s.snd_nxt
    → let (e, t) = tcp_sendto false (length bytes) bytes s in
      (e ≡ none)
      × (segs : List Segment) × (t.sent ≡ reverse segs ++ s.sent)
      × All (λ p. packet_len p ≤ mss) segs
      × (t.held ≡ s.held)
      × ((deliver segs r).recv_queue ≡ r.recv_queue ++ segs)
      × (bodies segs ≡ bytes)
      × ((deliver segs r).rcv_nxt ≡ t.snd_nxt)
unfolding tcp_sendto
tcp_sendto_delivers bytes s r calm route wnd ooo nxt =
    let n = length bytes in
    let (segs, fine, sent) = sendto_loop_lem n n bytes s (omega arith) refl route in
    let t = (sendto_loop n n bytes s).1 in
    let (all, end) = deliver_lem segs t.snd_nxt r wnd ooo (rw nxt sent.numbered) in
    rw (calm, tcp_sendto) (fine, segs, sent.queue, sent.short, sent.buffers, all, sent.carried, end)
