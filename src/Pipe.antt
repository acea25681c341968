-- ===== src/Pipe.antt =====
-- src/fs/pipe.c: a pipe's pages of bytes, under its mutex. A read or a write is modelled up to the
-- place where it would wait, and starts again from there.
pub mod Bytes
pub mod Reads
pub mod Writes
pub mod Rounds
pub mod Release
mod Examples
use protura.Base.{
  ℕ, zero, suc, ◌+◌, ◌-◌, ◌/◌, ◌==◌, ◌&&◌, ◌||◌, not, ltb, leb, Bool, true, false, List, [], ◌∷◌,
  ◌++◌, length, take, drop, replicate, if◌then◌else◌,
}
use protura.Base.Errno.{Errno, efault, eagain, epipe, enxio, einval}
use protura.CharBuf.{copy_to, slice}

-- `PG_SIZE`
abbrev pub pg_size : ℕ
pg_size = 4096

-- `CONFIG_PIPE_MAX_PAGES`
abbrev pub pipe_max_pages : ℕ
pipe_max_pages = 10

-- The bytes of a page and the window of them that waits to be read.
pub record Page : Type 0 where
  pub virt : ℕ → ℕ
  pub startb : ℕ
  pub lenb : ℕ

-- `struct pipe_info`
pub record Pipe : Type 0 where
  pub readers : ℕ
  pub writers : ℕ
  pub total_pages : ℕ
  pub free_pages : List Page
  pub bufs : List Page

-- How a call ends: an error, the count of bytes, or the wait until the pipe changes.
pub data Outcome : Type 0 where
  failed : Errno → Outcome
  done : ℕ → Outcome
  waits : Outcome

unfoldable pub is_empty : List Page → Bool
is_empty [] = true
is_empty (p ∷ ps) = false

-- The loop of `pipe_read` over the pages, for `size` bytes into memory that takes `room`.
pub record Copied : Type 0 where
  pub fault : Bool
  pub bytes : List ℕ
  pub left : ℕ
  pub bufs : List Page
  pub free : List Page

unfoldable pub read_pages : ℕ → ℕ → List Page → List Page → Copied
read_pages size room [] free = record {
  fault = false;
  bytes = [];
  left = size;
  bufs = [];
  free = free;
}
read_pages size room (p ∷ rest) free =
    let n = if ltb size p.lenb then size else p.lenb in
    let p' : Page = record p { startb = p.startb + n; lenb = p.lenb - n } in
    let got = slice p.virt p.startb n in
    let more = read_pages (size - n) (room - n) rest (p' ∷ free) in
    if ltb room n
    then record { fault = true; bytes = []; left = size; bufs = rest; free = free }
    else if ltb n p.lenb
    then record { fault = false; bytes = got; left = size - n; bufs = p' ∷ rest; free = free }
    else if size - n == 0
    then record { fault = false; bytes = got; left = 0; bufs = rest; free = p' ∷ free }
    else record more { bytes = got ++ more.bytes }

-- What a read gives the user, and its outcome.
unfoldable pub read_outcome : Bool → ℕ → ℕ → Copied → Outcome
read_outcome nonblock writers size c =
    if c.fault
    then failed efault
    else if c.left == size && not (writers == 0)
    then (if nonblock then failed eagain else waits)
    else done (size - c.left)

unfoldable pub pipe_read : Bool → ℕ → ℕ → Pipe → Outcome × List ℕ × Pipe
pipe_read nonblock size room pipe =
    let c = read_pages size room pipe.bufs pipe.free_pages in
    if size == 0 then (done 0, [], pipe) else (
      read_outcome nonblock pipe.writers size c,
      c.bytes,
      record pipe { bufs = c.bufs; free_pages = c.free },
    )

-- The condition on which a reader's wait ends.
unfoldable pub read_wait_ends : Pipe → Bool
read_wait_ends pipe = not (is_empty pipe.bufs)

-- The loop of `pipe_write` over the free pages; `data'` is what can be read of the user's memory
-- from here on.
pub record Filled : Type 0 where
  pub fault : Bool
  pub rest : List ℕ
  pub left : ℕ
  pub bufs : List Page
  pub free : List Page

unfoldable pub fill_pages : ℕ → List ℕ → List Page → List Page → Filled
fill_pages size data' bufs [] = record {
  fault = false;
  rest = data';
  left = size;
  bufs = bufs;
  free = [];
}
fill_pages size data' bufs (p ∷ free) =
    let n = if ltb size pg_size then size else pg_size in
    let p' : Page = record { virt = copy_to p.virt 0 (take n data'); startb = 0; lenb = n } in
    let more = fill_pages (size - n) (drop n data') (bufs ++ (p' ∷ [])) free in
    if ltb (length data') n
    then record { fault = true; rest = data'; left = size; bufs = bufs; free = free }
    else if size - n == 0
    then record {
      fault = false;
      rest = drop n data';
      left = 0;
      bufs = bufs ++ (p' ∷ []);
      free = free;
    }
    else more

-- The pages that a write still asks for.
unfoldable pub wanted : ℕ → ℕ → ℕ
wanted size total =
    if ltb (pipe_max_pages - total) (size / pg_size + 1)
    then pipe_max_pages - total
    else size / pg_size + 1

pub record Write : Type 0 where
  pub outcome : Outcome
  pub sigpipe : Bool
  pub pipe : Pipe

abbrev pub ends : Outcome → Pipe → Write
ends o pipe = record { outcome = o; sigpipe = false; pipe = pipe }

-- The rounds of the loop of `pipe_write`, on fuel: `none` of it left counts as a wait. `fresh` is a
-- page as the page allocator gives it.
unfoldable pub write_loop : ℕ → Bool → Page → ℕ → ℕ → List ℕ → Pipe → Write
write_loop zero nonblock fresh original size data' pipe = ends waits pipe
write_loop (suc fuel) nonblock fresh original size data' pipe =
    let f = fill_pages size data' pipe.bufs pipe.free_pages in
    let filled = record pipe { bufs = f.bufs; free_pages = f.free } in
    let n = wanted f.left pipe.total_pages in
    let grown = record filled {
      total_pages = pipe.total_pages + n;
      free_pages = replicate n fresh ++ f.free;
    } in
    let next = write_loop fuel nonblock fresh original f.left f.rest grown in
    if size == 0
    then ends (done original) pipe
    else if pipe.readers == 0
    then record { outcome = failed epipe; sigpipe = true; pipe = pipe }
    else if f.fault
    then ends (failed efault) filled
    else if f.left == 0
    then ends (done original) filled
    else if ltb pipe.total_pages pipe_max_pages
    then next
    else if nonblock
    then ends (if f.left == original then failed eagain else done (original - f.left)) filled
    else ends waits filled

unfoldable pub pipe_write : Bool → Page → ℕ → List ℕ → Pipe → Write
pipe_write nonblock fresh size data' pipe = write_loop 3 nonblock fresh size size data' pipe

-- One end of the pipe is closed.
unfoldable pub pipe_release : Bool → Bool → Pipe → Pipe
pipe_release reader writer pipe = record pipe {
  readers = if reader then pipe.readers - 1 else pipe.readers;
  writers = if writer then pipe.writers - 1 else pipe.writers;
}

-- `fifo_open` up to its wait, for the flags FILE_READABLE, FILE_WRITABLE and FILE_NONBLOCK.
unfoldable pub fifo_open : Bool → Bool → Bool → Pipe → Outcome × Pipe
fifo_open true true nonblock pipe =
    (done 0, record pipe { readers = pipe.readers + 1; writers = pipe.writers + 1 })
fifo_open true false nonblock pipe = (
  if nonblock || not (pipe.writers == 0) then done 0 else waits,
  record pipe { readers = pipe.readers + 1 },
)
fifo_open false true nonblock pipe =
    if pipe.readers == 0 && nonblock
    then (failed enxio, pipe)
    else (if pipe.readers == 0 then waits else done 0, record pipe { writers = pipe.writers + 1 })
fifo_open false false nonblock pipe = (failed einval, pipe)

-- `pipe_release_pages`
unfoldable pub pipe_release_pages : Pipe → Pipe
pipe_release_pages pipe = record pipe { total_pages = 0; free_pages = []; bufs = [] }
