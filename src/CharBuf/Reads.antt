-- ===== src/CharBuf/Reads.antt =====
-- A read takes the front of the queue, whole or not at all, but for a fault behind the wrap.
use native.Mathlib.Nat.{mod-lt}
use protura.Base.{
  ℕ, ◌+◌, ◌-◌, ◌≤◌, ◌<◌, ◌≡◌, ◌≢◌, ◌==◌, inl, inr, refl, sym, List, [], ◌∷◌, ◌++◌, length, arith,
  if◌then◌else◌, true, false, Bool-cases, leb, ltb, append_assoc, append-nil, length-append,
  ℕ_discrete,
}
use protura.CharBuf.{
  CharBuf, Read, slice, copy_to, char_buf_read_user, char_buf_write_char, char_buf_write,
  char_buf_read_char,
}
use protura.CharBuf.Slices.{length-slice, slice-append}
use protura.CharBuf.Queue.{IsValid, queue, queue_wrapped, queue_flat}

abbrev ring : (ℕ → ℕ) → ℕ → ℕ → ℕ → CharBuf
ring f len s n = record { buffer = f; len = len; start_pos = s; buf_len = n }

-- The position `m` places further.
abbrev advance : ℕ → ℕ → ℕ → ℕ
advance len s m = if leb len (s + m) then s + m - len else s + m

module _ (f : ℕ → ℕ) (len s m n : ℕ) (h : s < len) (k : m + n ≤ len) where
  split_flat :
      m + n ≤ len - s
      → queue (ring f len s (m + n))
        ≡ queue (ring f len s m) ++ queue (ring f len (advance len s m) n)
  unfolding slice
  split_flat w = elim (Bool-cases (leb len (s + m))) [
    | inl full ↦
        let z : n ≡ 0 = ground arith in
        let e : s + m - len ≡ 0 = ground arith in
        let p : m + 0 ≡ m = omega arith in
        rw (full, z, e, p, queue_flat (ring f len 0 0) (omega arith))
          (sym (append-nil (queue (ring f len s m))))
    | inr more ↦
        rw
          (
            more,
            queue_flat (ring f len s (m + n)) w,
            queue_flat (ring f len s m) (omega arith),
            queue_flat (ring f len (s + m) n) (omega arith),
          )
          (slice-append f s m n)
  ]

  split_inside :
      m < len - s
      → len - s < m + n
      → queue (ring f len s (m + n))
        ≡ queue (ring f len s m) ++ queue (ring f len (advance len s m) n)
  split_inside w w' =
      let more : leb len (s + m) ≡ false = ground arith in
      let e : len - s ≡ m + (len - (s + m)) = omega arith in
      let d : m + n - (len - s) ≡ n - (len - (s + m)) = omega arith in
      let first = slice f s m in
      let second = slice f (s + m) (len - (s + m)) in
      rw
        (
          more,
          queue_wrapped (ring f len s (m + n)) (omega arith),
          queue_flat (ring f len s m) (omega arith),
          queue_wrapped (ring f len (s + m) n) (omega arith),
          d,
          e,
          slice-append f s m (len - (s + m)),
        )
        (append_assoc first second (slice f 0 (n - (len - (s + m)))))

  split_behind :
      len - s ≤ m
      → queue (ring f len s (m + n))
        ≡ queue (ring f len s m) ++ queue (ring f len (advance len s m) n)
  split_behind w =
      let full : leb len (s + m) ≡ true = ground arith in
      let d : m + n - (len - s) ≡ m - (len - s) + n = omega arith in
      let e : s + m - len ≡ 0 + (m - (len - s)) = omega arith in
      rw
        (
          full,
          queue_wrapped (ring f len s (m + n)) (omega arith),
          queue_wrapped (ring f len s m) (omega arith),
          queue_flat (ring f len (s + m - len) n) (omega arith),
          d,
          e,
          slice-append f 0 (m - (len - s)) n,
        )
        (sym (
          append_assoc (slice f s (len - s)) (slice f 0 (m - (len - s)))
            (slice f (0 + (m - (len - s))) n)))

-- A ring of `m + n` bytes is the ring of the first `m` and that of the others.
ring_split :
    (f : ℕ → ℕ) (len s m n : ℕ)
    → s < len
    → m + n ≤ len
    → queue (ring f len s (m + n))
      ≡ queue (ring f len s m) ++ queue (ring f len (advance len s m) n)
ring_split f len s m n h k = elim (Bool-cases (leb (len - s) m)) [
  | inl behind ↦ split_behind f len s m n h k (ground arith)
  | inr before ↦ elim (Bool-cases (leb (m + n) (len - s))) [
    | inl flat ↦ split_flat f len s m n h k (ground arith)
    | inr inside ↦ split_inside f len s m n h k (ground arith) (ground arith)
  ]
]

pub length-queue : (buf : CharBuf) → length (queue buf) ≡ buf.buf_len
unfolding queue
length-queue buf =
    let t = buf.len - buf.start_pos in
    let f = buf.buffer in
    let a = slice f buf.start_pos t in
    let b = slice f 0 (buf.buf_len - t) in
    ground (
      arith,
      length-append a b,
      length-slice f buf.start_pos t,
      length-slice f 0 (buf.buf_len - t),
      length-slice f buf.start_pos buf.buf_len,
    )

-- As many bytes as there are, if fewer than asked for.
abbrev pub amount : CharBuf → ℕ → ℕ
amount buf data_len = if ltb buf.buf_len data_len then buf.buf_len else data_len

amount_bound : (buf : CharBuf) (d : ℕ) → amount buf d ≤ buf.buf_len
amount_bound buf d = ground arith

module _ (buf : CharBuf) (room d n : ℕ) (e : amount buf d ≡ n) (v : IsValid buf)
    (enough : n ≤ room) where
  abbrev front : CharBuf
  front = ring buf.buffer buf.len buf.start_pos n

  abbrev left : CharBuf
  left = ring buf.buffer buf.len (advance buf.len buf.start_pos n) (buf.buf_len - n)

  abbrev all_read : Read
  all_read = record { error = false; size = n; bytes = queue front }

  read_nothing : buf.buf_len ≡ 0 → char_buf_read_user buf room d ≡ (all_read, left)
  unfolding char_buf_read_user queue slice
  read_nothing z =
      let o : n ≡ 0 = ground arith in
      let a : advance buf.len buf.start_pos 0 ≡ buf.start_pos = ground (arith, v.start) in
      ground (arith, rw (← o) at a)

  read_flat :
      buf.buf_len ≢ 0
      → n ≤ buf.len - buf.start_pos
      → char_buf_read_user buf room d ≡ (all_read, left)
  unfolding char_buf_read_user
  read_flat some' w =
      let s = buf.start_pos in
      let z : (buf.buf_len == 0) ≡ false = ground arith in
      let c : leb n (buf.len - s) ≡ true = ground arith in
      let r : ltb room n ≡ false = ground arith in
      let p : (if s + n == buf.len then 0 else s + n) ≡ advance buf.len s n =
        ground (arith, v.start) in
      rw (e, z, c, r, p, queue_flat front w) refl

  read_around :
      buf.buf_len ≢ 0
      → buf.len - buf.start_pos < n
      → char_buf_read_user buf room d ≡ (all_read, left)
  unfolding char_buf_read_user
  read_around some' w =
      let s = buf.start_pos in
      let t = buf.len - s in
      let z : (buf.buf_len == 0) ≡ false = ground arith in
      let c : leb n t ≡ false = ground arith in
      let r : ltb room t ≡ false = ground arith in
      let r' : ltb room n ≡ false = ground arith in
      let p : advance buf.len s n ≡ n - t = ground (arith, v.start) in
      let q : buf.buf_len - t - (n - t) ≡ buf.buf_len - n = omega arith in
      rw (e, z, c, r, r', p, q, queue_wrapped front (omega arith)) refl

read_all :
    (buf : CharBuf) (room d n : ℕ) (e : amount buf d ≡ n) (v : IsValid buf) (enough : n ≤ room)
    → char_buf_read_user buf room d
      ≡ (all_read buf room d n e v enough, left buf room d n e v enough)
read_all buf room d n e v enough = elim (ℕ_discrete buf.buf_len 0) [
  | yes z ↦ read_nothing buf room d n e v enough z
  | no some' ↦ elim (Bool-cases (leb n (buf.len - buf.start_pos))) [
    | inl flat ↦ read_flat buf room d n e v enough some' (ground arith)
    | inr around ↦ read_around buf room d n e v enough some' (ground arith)
  ]
]

-- A read into memory that takes it gives the front of the queue, of the length that it returns,
-- which is the one asked for or all there is, and leaves the rest in order.
pub queue-char_buf_read_user :
    (buf : CharBuf) (room d : ℕ)
    → IsValid buf
    → amount buf d ≤ room
    → let (r, b) = char_buf_read_user buf room d in
      (r.error ≡ false)
      × (r.size ≡ amount buf d)
      × (length r.bytes ≡ amount buf d)
      × (queue buf ≡ r.bytes ++ queue b)
      × IsValid b
queue-char_buf_read_user buf room d v enough =
    let n = amount buf d in
    let rest = buf.buf_len - n in
    let f = buf.buffer in
    let le = amount_bound buf d in
    let whole : n + rest ≡ buf.buf_len = omega (arith, le) in
    let parts = ring_split f buf.len buf.start_pos n rest v.start (omega (arith, le, v.fits)) in
    rw (read_all buf room d n refl v enough) (
      refl,
      refl,
      length-queue (ring f buf.len buf.start_pos n),
      rw whole at parts,
      record { start = ground (arith, v.start, le, v.fits); fits = omega (arith, v.fits) },
    )

-- A read that faults in its second part, behind the buffer's end, has given the user the front of
-- the queue and takes as many bytes off its back: they are lost, and the front is read again.
pub queue-char_buf_read_user_fault :
    (buf : CharBuf) (room d : ℕ)
    → IsValid buf
    → buf.len - buf.start_pos ≤ room
    → room < amount buf d
    → let (r, b) = char_buf_read_user buf room d in
      let tail = buf.len - buf.start_pos in
      (r.error ≡ true)
      × (length r.bytes ≡ tail)
      × ((lost : List ℕ) × (length lost ≡ tail) × (queue buf ≡ queue b ++ lost))
unfolding char_buf_read_user
queue-char_buf_read_user_fault buf room d v low high =
    let s = buf.start_pos in
    let f = buf.buffer in
    let t = buf.len - s in
    let n = amount buf d in
    let m = buf.buf_len - t in
    let le = amount_bound buf d in
    let z : (buf.buf_len == 0) ≡ false = ground (arith, le) in
    let c : leb n t ≡ false = ground arith in
    let r : ltb room t ≡ false = ground arith in
    let r' : ltb room n ≡ true = ground arith in
    let whole : m + t ≡ buf.buf_len = omega (arith, le) in
    let parts = ring_split f buf.len s m t v.start (omega (arith, le, v.fits)) in
    let lost = queue (ring f buf.len (advance buf.len s m) t) in
    rw (z, c, r, r')
      (
        refl,
        length-slice f s t,
        (lost, length-queue (ring f buf.len (advance buf.len s m) t), rw whole at parts),
      )

-- The writes of one byte are writes.
pub char_buf_write_char_lem :
    (buf : CharBuf) (c : ℕ) → IsValid buf → char_buf_write_char buf c ≡ char_buf_write buf (c ∷ [])
unfolding char_buf_write_char char_buf_write copy_to
char_buf_write_char_lem buf c v =
    let lt = mod-lt (buf.start_pos + buf.buf_len) {m = buf.len} (omega (arith, v.start)) in
    ground (arith, lt, v.start)

-- The reads of one byte are reads, unless the ring is empty.
pub char_buf_read_char_lem :
    (buf : CharBuf)
    → IsValid buf
    → buf.buf_len ≢ 0
    → let (r, b) = char_buf_read_char buf in
      char_buf_read_user buf 1 1 ≡ (record { error = false; size = 1; bytes = r ∷ [] }, b)
unfolding char_buf_read_char char_buf_read_user slice
char_buf_read_char_lem buf v some' = ground (arith, v.start)
