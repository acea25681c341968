-- ===== src/CharBuf.antt =====
-- src/kernel/char_buf.c: the ring of bytes that the terminals use in both directions. The lengths
-- are C ints and size_t; no sum of two of them is taken as wrapping, since a ring is a few pages.
pub mod Slices
pub mod Queue
pub mod Reads
mod Examples
use protura.Base.{
  ℕ, zero, suc, ◌+◌, ◌-◌, ◌%◌, ◌==◌, ltb, leb, Bool, true, false, List, [], ◌∷◌, ◌++◌, length, take,
  drop, if◌then◌else◌,
}
use protura.Base.Errno.{Errno, efault}

-- `struct char_buf`; the buffer is a function from positions.
pub record CharBuf : Type 0 where
  pub buffer : ℕ → ℕ
  pub len : ℕ
  pub start_pos : ℕ
  pub buf_len : ℕ

unfoldable pub store : (ℕ → ℕ) → ℕ → ℕ → ℕ → ℕ
store f pos v i = if i == pos then v else f i

-- `memcpy` to a position of the buffer.
unfoldable pub copy_to : (ℕ → ℕ) → ℕ → List ℕ → ℕ → ℕ
copy_to f pos [] = f
copy_to f pos (x ∷ xs) = store (copy_to f (pos + 1) xs) pos x

-- The bytes that a `memcpy` from a position of the buffer copies.
unfoldable pub slice : (ℕ → ℕ) → ℕ → ℕ → List ℕ
slice f pos zero = []
slice f pos (suc n) = f pos ∷ slice f (pos + 1) n

-- What `char_buf_init` and `char_buf_clear` leave.
unfoldable pub char_buf_init : (ℕ → ℕ) → ℕ → CharBuf
char_buf_init nbuffer buf_size = record {
  buffer = nbuffer;
  len = buf_size;
  start_pos = 0;
  buf_len = 0;
}

unfoldable pub char_buf_clear : CharBuf → CharBuf
char_buf_clear buf = record buf { start_pos = 0; buf_len = 0 }

abbrev pub end_pos : CharBuf → ℕ
end_pos buf = (buf.start_pos + buf.buf_len) % buf.len

unfoldable pub char_buf_write_char : CharBuf → ℕ → CharBuf
char_buf_write_char buf data' = record buf {
  buffer = store buf.buffer (end_pos buf) data';
  buf_len = buf.buf_len + 1;
}

-- The empty ring reads as (char)-1.
unfoldable pub char_buf_read_char : CharBuf → ℕ × CharBuf
char_buf_read_char buf =
    let next = buf.start_pos + 1 in
    if buf.buf_len == 0 then (255, buf) else (
      buf.buffer buf.start_pos,
      record buf { start_pos = if next == buf.len then 0 else next; buf_len = buf.buf_len - 1 },
    )

unfoldable pub char_buf_write : CharBuf → List ℕ → CharBuf
char_buf_write buf data' =
    let end = end_pos buf in
    let room = buf.len - end in
    let first = copy_to buf.buffer end (take room data') in
    if leb (length data') room
    then record buf { buffer = copy_to buf.buffer end data'; buf_len = buf.buf_len + length data' }
    else record buf {
      buffer = copy_to first 0 (drop room data');
      buf_len = buf.buf_len + room + (length data' - room);
    }

-- What a read gives: the error or the length, and the bytes that reached the user.
pub record Read : Type 0 where
  pub error : Bool
  pub size : ℕ
  pub bytes : List ℕ

abbrev fault : List ℕ → Read
fault bytes = record { error = true; size = 0; bytes = bytes }

-- The user's memory takes `room` bytes; a copy beyond them is -EFAULT and copies nothing. A kernel
-- buffer takes all that are read.
unfoldable pub char_buf_read_user : CharBuf → ℕ → ℕ → Read × CharBuf
char_buf_read_user buf room data_len =
    let s = buf.start_pos in
    let n = if ltb buf.buf_len data_len then buf.buf_len else data_len in
    let tail = buf.len - s in
    let first = slice buf.buffer s tail in
    let rest = n - tail in
    if buf.buf_len == 0
    then (record { error = false; size = 0; bytes = [] }, buf)
    else if leb n tail
    then (if ltb room n then (fault [], buf) else (
      record { error = false; size = n; bytes = slice buf.buffer s n },
      record buf { start_pos = if s + n == buf.len then 0 else s + n; buf_len = buf.buf_len - n },
    ))
    else if ltb room tail
    then (fault [], buf)
    else if ltb room n
    then (fault first, record buf { buf_len = buf.buf_len - tail })
    else (
      record { error = false; size = n; bytes = first ++ slice buf.buffer 0 rest },
      record buf { start_pos = rest; buf_len = buf.buf_len - tail - rest },
    )

unfoldable pub char_buf_read : CharBuf → ℕ → Read × CharBuf
char_buf_read buf data_len = char_buf_read_user buf data_len data_len
