-- ===== src/Pipe/Reads.antt =====
-- A read takes the front of the pipe's bytes, and no page is lost unless the user's memory faults.
use protura.Base.{
  ℕ, ◌+◌, ◌-◌, ◌≤◌, ◌<◌, ◌≡◌, ◌≢◌, ◌⊎◌, inl, inr, ◌==◌, ◌&&◌, not, ltb, refl, ap, ◌∙◌, sym, Bool,
  true, false, List, [], ◌∷◌, ◌++◌, append_assoc, length, length-append, All, arith, Bool-cases,
  if◌then◌else◌, min,
}
use protura.Base.Errno.{efault, eagain}
use protura.CharBuf.{slice}
use protura.CharBuf.Slices.{length-slice}
use protura.Pipe.{
  Page, Pipe, Copied, Outcome, failed, done, waits, read_pages, read_outcome, pipe_read,
}
use protura.Pipe.Bytes.{contents, HasBytes, IsValid, split_window}

-- What the loop over the pages does, for memory that takes all that is asked for.
pub record Takes (size : ℕ) (bufs free : List Page) (c : Copied) : Type 0 where
  pub no_fault : c.fault ≡ false
  pub front : contents bufs ≡ c.bytes ++ contents c.bufs
  pub amount : length c.bytes + c.left ≡ size
  pub pages : length c.bufs + length c.free ≡ length bufs + length free
  pub filled : All HasBytes c.bufs
  pub ends : (c.left ≡ 0) ⊎ (c.bufs ≡ [])

module _ (size room : ℕ) (p : Page) (rest free : List Page) where
  abbrev n : ℕ
  n = if ltb size p.lenb then size else p.lenb

  abbrev after : Page
  after = record p { startb = p.startb + n; lenb = p.lenb - n }

  abbrev got : List ℕ
  got = slice p.virt p.startb n

  abbrev whole : Copied
  whole = read_pages size room (p ∷ rest) free

  window : slice p.virt p.startb p.lenb ≡ got ++ slice p.virt (p.startb + n) (p.lenb - n)
  window = split_window p.virt p.startb n p.lenb (ground arith)

  got_len : length got ≡ n
  got_len = length-slice p.virt p.startb n

  -- The page keeps bytes: the read is at its end.
  keeps-Takes :
      size ≤ room → n < p.lenb → HasBytes p → All HasBytes rest → Takes size (p ∷ rest) free whole
  unfolding read_pages contents
  keeps-Takes enough keeps ok all =
      let r : ltb room n ≡ false = ground arith in
      let k : ltb n p.lenb ≡ true = ground arith in
      rw (r, k)
        (record {
          no_fault = refl;
          front =
              ap (λ t. t ++ contents rest) window
              ∙ append_assoc got (slice p.virt (p.startb + n) (p.lenb - n)) (contents rest);
          amount = ground (arith, got_len);
          pages = refl;
          filled = ((omega arith, omega arith), all);
          ends = inl (ground arith);
        })

  window_whole : p.lenb ≤ n → slice p.virt p.startb p.lenb ≡ got
  window_whole all_of_it =
      let e : n ≡ p.lenb = ground arith in ap (λ (k : ℕ). slice p.virt p.startb k) (sym e)

  -- The page is used up, and the read with it.
  stops-Takes :
      size ≤ room → p.lenb ≤ n → size - n ≡ 0 → All HasBytes rest → Takes size (p ∷ rest) free whole
  unfolding read_pages contents
  stops-Takes enough used full all =
      let r : ltb room n ≡ false = ground arith in
      let k : ltb n p.lenb ≡ false = ground arith in
      let z : (size - n == 0) ≡ true = ground arith in
      rw (r, k, z)
        (record {
          no_fault = refl;
          front = ap (λ t. t ++ contents rest) (window_whole used);
          amount = ground (arith, got_len);
          pages = omega arith;
          filled = all;
          ends = inl refl;
        })

  -- The page is used up, and the read goes on with the others.
  goes_on-Takes :
      size ≤ room
      → p.lenb ≤ n
      → size - n ≢ 0
      → Takes (size - n) rest (after ∷ free) (read_pages (size - n) (room - n) rest (after ∷ free))
      → Takes size (p ∷ rest) free whole
  unfolding read_pages contents
  goes_on-Takes enough used more t =
      let r : ltb room n ≡ false = ground arith in
      let k : ltb n p.lenb ≡ false = ground arith in
      let z : (size - n == 0) ≡ false = ground arith in
      let next = read_pages (size - n) (room - n) rest (after ∷ free) in
      rw (r, k, z)
        (record {
          no_fault = t.no_fault;
          front =
              ap (λ x. x ++ contents rest) (window_whole used)
              ∙ ap (λ x. got ++ x) t.front
              ∙ sym (append_assoc got next.bytes (contents next.bufs));
          amount = ground (arith, got_len, length-append got next.bytes, t.amount);
          pages = omega (arith, t.pages);
          filled = t.filled;
          ends = t.ends;
        })

read_pages-Takes :
    (size room : ℕ) (bufs free : List Page)
    → size ≤ room
    → size ≢ 0
    → All HasBytes bufs
    → Takes size bufs free (read_pages size room bufs free)
unfolding read_pages contents
read_pages-Takes size room [] free enough some' all = record {
  no_fault = refl;
  front = refl;
  amount = omega arith;
  pages = refl;
  filled = tt;
  ends = inr refl;
}
read_pages-Takes size room (p ∷ rest) free enough some' all =
    let m = n size room p rest free in
    elim (Bool-cases (ltb m p.lenb)) [
      | inl keeps ↦ keeps-Takes size room p rest free enough (ground arith) all.0 all.1
      | inr used ↦ elim (Bool-cases (size - m == 0)) [
        | inl full ↦ stops-Takes size room p rest free enough (ground arith) (ground arith) all.1
        | inr more ↦
            let free' = after size room p rest free ∷ free in
            let next =
              read_pages-Takes (size - m) (room - m) rest free' (omega arith) (ground arith)
                all.1 in
            goes_on-Takes size room p rest free enough (ground arith) (ground arith) next
      ]
    ]

-- The outcome by what was read.
abbrev pub outcome_of : Bool → ℕ → ℕ → Outcome
outcome_of nonblock writers n =
    if n == 0 && not (writers == 0) then (if nonblock then failed eagain else waits) else done n

read_outcome_lem :
    (nonblock : Bool) (writers size : ℕ) (c : Copied)
    → c.fault ≡ false
    → length c.bytes + c.left ≡ size
    → read_outcome nonblock writers size c ≡ outcome_of nonblock writers (length c.bytes)
unfolding read_outcome
read_outcome_lem nonblock writers size c f a =
    let e : size - c.left ≡ length c.bytes = omega arith in
    let z : (c.left == size) ≡ (length c.bytes == 0) = ground arith in rw (f, e, z) refl

amount_read :
    (size : ℕ) (bufs free : List Page) (c : Copied)
    → Takes size bufs free c
    → length c.bytes ≡ min size (length (contents bufs))
unfolding contents
amount_read size bufs free c t =
    let len = ap (λ (xs : List ℕ). length xs) t.front ∙ length-append c.bytes (contents c.bufs) in
    elim t.ends [
      | inl full ↦ ground (arith, t.amount, len)
      | inr empty ↦
          let none' : length (contents c.bufs) ≡ 0 = rw empty refl in
          ground (arith, t.amount, len, none')
    ]

-- A read of some bytes into memory that takes them gives the front of the pipe's bytes, as many as
-- were asked for or as there are, leaves the rest in order, and keeps every page. With nothing to
-- read it is at the end of the file without writers, and else waits, or fails if it must not wait.
pub contents-pipe_read :
    (nonblock : Bool) (size room : ℕ) (pipe : Pipe)
    → size ≤ room
    → size ≢ 0
    → IsValid pipe
    → let (o, bytes, pipe') = pipe_read nonblock size room pipe in
      (contents pipe.bufs ≡ bytes ++ contents pipe'.bufs)
      × (length bytes ≡ min size (length (contents pipe.bufs)))
      × (o ≡ outcome_of nonblock pipe.writers (length bytes))
      × IsValid pipe'
unfolding pipe_read
contents-pipe_read nonblock size room pipe enough some' v =
    let c = read_pages size room pipe.bufs pipe.free_pages in
    let t = read_pages-Takes size room pipe.bufs pipe.free_pages enough some' v.filled in
    let z : (size == 0) ≡ false = ground arith in
    rw z (
      t.front,
      amount_read size pipe.bufs pipe.free_pages c t,
      read_outcome_lem nonblock pipe.writers size c t.no_fault t.amount,
      record { counted = t.pages ∙ v.counted; bound = v.bound; filled = t.filled },
    )

faults :
    (size room : ℕ) (p : Page) (rest free : List Page)
    → room < size
    → room < p.lenb
    → read_pages size room (p ∷ rest) free
      ≡ record { fault = true; bytes = []; left = size; bufs = rest; free = free }
unfolding read_pages
faults size room p rest free small small' =
    let r : ltb room (if ltb size p.lenb then size else p.lenb) ≡ true = ground arith in rw r refl

-- A read whose memory does not take the bytes of the first page fails, gives none of them, and loses
-- the page with its bytes, though it still counts towards the pipe's limit.
pub pipe_read_fault :
    (nonblock : Bool) (size room : ℕ) (p : Page) (rest : List Page) (pipe : Pipe)
    → pipe.bufs ≡ p ∷ rest
    → room < size
    → room < p.lenb
    → IsValid pipe
    → let (o, bytes, pipe') = pipe_read nonblock size room pipe in
      (o ≡ failed efault)
      × (length bytes ≡ 0)
      × (contents pipe.bufs ≡ slice p.virt p.startb p.lenb ++ contents pipe'.bufs)
      × (length pipe'.bufs + length pipe'.free_pages + 1 ≡ pipe'.total_pages)
unfolding pipe_read read_outcome contents
pipe_read_fault nonblock size room p rest pipe e small small' v =
    let c = read_pages size room pipe.bufs pipe.free_pages in
    let z : (size == 0) ≡ false = ground arith in
    let stop = rw (← e) at (faults size room p rest pipe.free_pages small small') in
    let count = rw e at v.counted in rw (z, stop) (refl, refl, rw e refl, omega (arith, count))
