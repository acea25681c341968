-- ===== src/Lib.antt =====
-- Protura, a small Unix-like kernel for x86: a model of parts of its C code, and their theorems.
--
-- The program. A system call or an interrupt enters through arch/x86 and reaches src/kernel
-- (scheduling, credentials, timers), src/mm (pages and address spaces), src/fs (inodes and files),
-- src/net (interfaces and IP) or src/drivers (terminals, disks, network cards). The parts modelled
-- here meet as they do in the code: a terminal (Tty) owns two byte rings (CharBuf); a segment that
-- arrives is given by the socket lookup (Lookup) to TCP (Tcp), whose answers and data go out by the
-- routing table (Route); everything that allocates pages calls the page allocator (Palloc); system
-- calls ask the credentials (Cred) for permission. A semaphore (Semaphore) or a work queue (Workqueue)
-- puts tasks to sleep and wakes them; a formatted text (Printf) goes to a terminal's screen (Vt), which
-- answers through its tty; the page allocator and the slabs (Slab) get the memory of the boot (Bootmem).
-- A file of ext2 (Ext2) gets its blocks from the bitmaps of its file system.
--
-- The files, and the code that each is about.
--   Base       lists, words of 32 bits with their wrap-around, Boolean tests, error numbers
--   Cred       src/kernel/sys_user.c and src/fs/access.c: user and group ids, permission checks.
--              User, Group and Groups hold the system calls; Run is any sequence of them; Access is
--              `check_permission`
--   Palloc     src/mm/palloc.c: the buddy allocator. Blocks has the arithmetic of blocks, Lists and
--              Free what the free lists cover and `__pfree_add_pages`, Alloc `break_page`, and Take
--              `palloc`
--   CharBuf    src/kernel/char_buf.c: the ring of bytes. Slices and Queue show it to be a queue for
--              writes, Reads for reads
--   Tty        src/drivers/char/tty_termios.c: the line discipline. Editor is the specification, Steps
--              and Input the refinement, Echo the screen
--   Tcp        src/net/ipv4/tcp_input.c, tcp_data.c, tcp_output.c, tcp_timer.c and tcp.c. Seq has the
--              sequence numbers, Output the answers, Data the receive and out-of-order queues, Input
--              the handler of segments by its phases, Send `tcp_sendto`, Checksum the checksum
--   Route      src/net/ipv4/ip_route.c: the forwarding table. Masks, Best (lookup), Removal
--   Lookup     src/net/ipv4/ip_socket_lookup.c: the socket of a segment
--   KTimer     src/kernel/ktimer.c: the sorted list of timers. Order, Fire
--   Signal     src/kernel/sched/signal.c, `send_sig` of src/kernel/sched/scheduler.c and the delivery of
--              arch/x86/kernel/signal.c: Mask is any sequence of calls and deliveries, Kill is SIGKILL
--   Pipe       src/fs/pipe.c: pipes as lists of pages. Bytes has the contents, Reads, Writes, Rounds and
--              Release the calls
--   Semaphore  src/kernel/sched/semaphore.c and include/protura/mutex.h: Wait has the steps of any tasks
--   Workqueue  src/kernel/sched/workqueue.c: Once and Runs count where a work is, Reached has every
--              reachable state, Awake the wake-ups of the threads
--   Strtol     src/kernel/str/strtol.c
--   Printf     src/kernel/str/basic_printf.c: Args, Integer, Hex and Text have the conversions, Numbers
--              and RoundTrips what strtol reads of them, Formats how a format is put together
--   Slab       src/mm/slab.c: Align has ALIGN_2 on powers of two, Lists and Frames one frame, Search
--              and Calls the allocation, Reached every reachable state
--   Vt         src/drivers/char/vt_state_machine.c and vt_scroll.c: the virtual terminal. Screen, State and
--              Cursor have the operations, Bounds, Valid, Chars, Commands, Sequences and Safety what keeps
--              them on the screen
--   Bootmem    src/mm/bootmem.c: Pages has its addresses, Outside the regions around the kernel's
--              image, Alloc the allocation, Setup and Frames how their pages come to the page allocator
--   Ext2       src/fs/ext2/bmap.c: Bits has the search of a bitmap, Alloc, Take, Free and Release the
--              free blocks, Map the map of a file, Tree its pointers as a tree, Writes, Grow, Link,
--              Ensure, Mapped and Grown how the tree grows, Reads `ext2_bmap` and Maps
--              `ext2_bmap_alloc`
-- Each `Examples` module runs the definitions on small inputs and applies the theorems to them.
--
-- How the code is translated. A function that changes a structure takes and returns it as a record.
-- Pointers to pages, interfaces, sockets and timers are numbers. A lock that a function holds from
-- start to end leaves no trace, and neither do log messages. Unsigned words wrap around where the
-- code adds to them without a bound of its own (sequence numbers, use counts, aligned addresses);
-- the ids, lengths and counts of the other parts are natural numbers, with each subtraction of the code written out.
-- Memory that a fault can interrupt is a bound or a partial function.
--
-- Loops and fuel. `__pfree_add_pages` and `break_page` go up the six orders and recurse on the number
-- of orders that are left. `tcp_sendto` recurses on the number of bytes, which each round of the loop
-- lowers by at least one. The zones of the routing table are counted down from 32. The loop of
-- `timer_handle_timers` has fuel, and its theorem shows that the number of timers is enough. The
-- digits of a number have fuel 20 for 64 bits in base 10 and 16 in base 16, which is their greatest
-- count. The loop of `pipe_write` has fuel for three rounds, and its theorem shows that it ends in
-- two. The recursion of `bootmem_add` has a depth, and its theorem shows that two is enough if the image
-- has a page and no address is in the last page of the 32 bits. The
-- loops over groups, bytes and bits of a bitmap and over the pages of a region recurse on what is left
-- of them. All other loops recurse on a list.
--
-- Bounds. ext2 has block numbers below 2^31, since bmap.c keeps them in ints, and blocks of at most a
-- page. The objects of a slab have a size that is a power of two, as ALIGN_2 needs, and their pages end
-- a frame below 2^32. A screen has at most 255 rows, since a row is a byte. A char from 128 on matches no
-- control character, since the source compares a signed char with an unsigned one.
--
-- Not modelled: interrupts, context switches and what happens in a wait (a wait is where a modelled
-- function ends, or a step of a task); device access; the file systems but for pipes and the blocks of
-- ext2; address spaces; the user programs. A callback that changes the timers is outside of the theorem
-- on firing.
pub mod Base
pub mod Bootmem
pub mod CharBuf
pub mod Cred
pub mod Ext2
pub mod KTimer
pub mod Lookup
pub mod Palloc
pub mod Pipe
pub mod Printf
pub mod Route
pub mod Semaphore
pub mod Signal
pub mod Slab
pub mod Strtol
pub mod Tcp
pub mod Tty
pub mod Vt
pub mod Workqueue
