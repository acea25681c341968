-- ===== src/CharBuf/Queue.antt =====
-- The ring as a queue of bytes: a write appends, a read takes from the front.
use native.Mathlib.Nat.{mod-eq_of_lt, mod-eq-sub-mod}
use protura.Base.{
  ℕ, ◌+◌, ◌-◌, ◌%◌, ◌≤◌, ◌<◌, ◌≡◌, inl, inr, refl, sym, List, ◌++◌, length, take, drop, arith,
  if◌then◌else◌, true, false, leb, append_assoc, append-nil, Bool-cases, take-append-drop,
  length-take, length-drop,
}
use protura.CharBuf.{CharBuf, copy_to, slice, end_pos, char_buf_write}
use protura.CharBuf.Slices.{slice-append, slice-copy_to, slice-copy_outside}

pub record IsValid (buf : CharBuf) : Type 0 where
  pub start : buf.start_pos < buf.len
  pub fits : buf.buf_len ≤ buf.len

-- The bytes of the ring in the order of their writing: those up to the buffer's end, and those that
-- wrapped to its start.
unfoldable pub queue : CharBuf → List ℕ
queue buf =
    let tail = buf.len - buf.start_pos in
    if leb buf.buf_len tail
    then slice buf.buffer buf.start_pos buf.buf_len
    else slice buf.buffer buf.start_pos tail ++ slice buf.buffer 0 (buf.buf_len - tail)

-- The position behind the last byte, without the remainder.
end_pos_flat :
    (s n len : ℕ)
    → s < len
    → n ≤ len
    → (s + n) % len ≡ (if leb len (s + n) then s + n - len else s + n)
end_pos_flat s n len h k = ground (
  arith,
  mod-eq_of_lt {n = s + n} {m = len},
  mod-eq-sub-mod {n = s + n} {m = len},
  mod-eq_of_lt {n = s + n - len} {m = len},
)

-- A copy right behind a slice makes it longer.
pub append_flat :
    (f : ℕ → ℕ) (s n : ℕ) (xs : List ℕ)
    → slice (copy_to f (s + n) xs) s (n + length xs) ≡ slice f s n ++ xs
append_flat f s n xs =
    let g = copy_to f (s + n) xs in
    rw
      (
        slice-append g s n (length xs),
        slice-copy_outside f (s + n) s n xs (inl (omega arith)),
        slice-copy_to f (s + n) xs,
      )
      refl

-- The three places where the new bytes may go: behind the old ones, behind the old ones that
-- wrapped, and around the end.
module _ (f : ℕ → ℕ) (s n len : ℕ) (xs : List ℕ) (h : s < len) (k : n + length xs ≤ len) where
  abbrev tail : ℕ
  tail = len - s

  write_wrapped :
      tail ≤ n
      → let g = copy_to f (s + n - len) xs in
        slice g s tail ++ slice g 0 (n + length xs - tail)
        ≡ (slice f s tail ++ slice f 0 (n - tail)) ++ xs
  write_wrapped w =
      let e : s + n - len ≡ 0 + (n - tail) = omega arith in
      let d : n + length xs - tail ≡ n - tail + length xs = omega arith in
      rw
        (
          e,
          d,
          append_flat f 0 (n - tail) xs,
          slice-copy_outside f (0 + (n - tail)) s tail xs (inr (omega arith)),
        )
        (sym (append_assoc (slice f s tail) (slice f 0 (n - tail)) xs))

  write_around :
      n < tail
      → tail < n + length xs
      → let room = len - (s + n) in
        let g = copy_to f (s + n) (take room xs) in
        let g' = copy_to g 0 (drop room xs) in
        slice g' s tail ++ slice g' 0 (n + length xs - tail) ≡ slice f s n ++ xs
  write_around w w' =
      let room = len - (s + n) in
      let g = copy_to f (s + n) (take room xs) in
      let lt : length (take room xs) ≡ room = omega (arith, length-take room xs) in
      let ld = length-drop room xs in
      let e : tail ≡ n + length (take room xs) = omega (arith, lt) in
      let d : n + length xs - tail ≡ length (drop room xs) = omega (arith, ld) in
      let first =
        slice-copy_outside g 0 s (n + length (take room xs)) (drop room xs)
          (inr (omega (arith, ld))) in
      rw
        (
          d,
          slice-copy_to g 0 (drop room xs),
          e,
          first,
          append_flat f s n (take room xs),
          append_assoc (slice f s n) (take room xs) (drop room xs),
          take-append-drop room xs,
        )
        refl

-- The two forms of the queue agree at a queue that ends with the buffer.
pub queue_wrapped :
    (buf : CharBuf)
    → buf.len - buf.start_pos ≤ buf.buf_len
    → let tail = buf.len - buf.start_pos in
      queue buf ≡ slice buf.buffer buf.start_pos tail ++ slice buf.buffer 0 (buf.buf_len - tail)
unfolding queue slice
queue_wrapped buf h =
    let tail = buf.len - buf.start_pos in
    elim (Bool-cases (leb buf.buf_len tail)) [
      | inr more ↦ rw more refl
      | inl full ↦
          let e : buf.buf_len ≡ tail = ground arith in
          let z : tail - tail ≡ 0 = omega arith in
          rw (full, e, z) (sym (append-nil (slice buf.buffer buf.start_pos tail)))
    ]

pub queue_flat :
    (buf : CharBuf)
    → buf.buf_len ≤ buf.len - buf.start_pos
    → queue buf ≡ slice buf.buffer buf.start_pos buf.buf_len
unfolding queue
queue_flat buf h = ground arith

-- The buffer that a write leaves, in its three cases.
module _ (buf : CharBuf) (bytes : List ℕ) (v : IsValid buf)
    (h : buf.buf_len + length bytes ≤ buf.len) where
  abbrev s : ℕ
  s = buf.start_pos

  abbrev n : ℕ
  n = buf.buf_len

  abbrev after : CharBuf
  after = char_buf_write buf bytes

  pub after_len : (after.len ≡ buf.len) × (after.start_pos ≡ s) × (after.buf_len ≡ n + length bytes)
  unfolding char_buf_write
  after_len = ground arith

  buffer_one :
      (e : ℕ)
      → end_pos buf ≡ e
      → e + length bytes ≤ buf.len
      → after.buffer ≡ copy_to buf.buffer e bytes
  unfolding char_buf_write
  buffer_one e f k =
      let c : leb (length bytes) (buf.len - e) ≡ true = ground arith in rw (f, c) refl

  buffer_two :
      (e : ℕ)
      → end_pos buf ≡ e
      → buf.len < e + length bytes
      → let room = buf.len - e in
        after.buffer ≡ copy_to (copy_to buf.buffer e (take room bytes)) 0 (drop room bytes)
  unfolding char_buf_write
  buffer_two e f k =
      let c : leb (length bytes) (buf.len - e) ≡ false = ground arith in rw (f, c) refl

  write-IsValid : IsValid after
  write-IsValid = record {
    start = ground (arith, v.start, after_len);
    fits = ground (arith, after_len);
  }

  write_queue : queue after ≡ queue buf ++ bytes
  write_queue =
      let (la, sa, na) = after_len in
      let end = end_pos_flat s n buf.len v.start v.fits in
      let t = buf.len - s in
      elim (Bool-cases (leb t n)) [
        | inl wrapped ↦
            let b = buffer_one (s + n - buf.len) (ground arith) (omega (arith, v.start)) in
            let q = queue_wrapped after (rw (la, sa, na) (ground arith)) in
            rw (q, la, sa, na, b, queue_wrapped buf (ground arith))
              (write_wrapped buf.buffer s n buf.len bytes v.start h (ground arith))
        | inr before ↦ elim (Bool-cases (leb (n + length bytes) t)) [
          | inl one ↦
              let b = buffer_one (s + n) (ground (arith, v.start)) (ground (arith, v.start)) in
              let q = queue_flat after (rw (la, sa, na) (ground arith)) in
              rw (q, sa, na, b, queue_flat buf (ground arith)) (append_flat buf.buffer s n bytes)
          | inr two ↦
              let b = buffer_two (s + n) (ground (arith, v.start)) (ground (arith, v.start)) in
              let q = queue_wrapped after (rw (la, sa, na) (ground arith)) in
              rw (q, la, sa, na, b, queue_flat buf (ground arith))
                (write_around buf.buffer s n buf.len bytes v.start h (ground arith) (ground arith))
        ]
      ]

-- A write that fits appends its bytes to the queue.
pub queue-char_buf_write :
    (buf : CharBuf) (bytes : List ℕ)
    → IsValid buf
    → buf.buf_len + length bytes ≤ buf.len
    → IsValid (char_buf_write buf bytes) × (queue (char_buf_write buf bytes) ≡ queue buf ++ bytes)
queue-char_buf_write buf bytes v h = (write-IsValid buf bytes v h, write_queue buf bytes v h)
