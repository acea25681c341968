-- ===== src/Pipe/Release.antt =====
-- A reader that waits when the last writer leaves.
use protura.Base.{ℕ, ◌≡◌, ◌≢◌, ◌==◌, refl, Bool, true, false, List, [], ◌∷◌, arith, if◌then◌else◌}
use protura.Pipe.{
  Pipe, done, waits, read_pages, read_outcome, pipe_read, read_wait_ends, is_empty, pipe_release,
}

-- What closing more ends does to a pipe without bytes.
abbrev pub closes : List (Bool × Bool) → Pipe → Pipe
closes [] pipe = pipe
closes (c ∷ cs) pipe = closes cs (pipe_release c.0 c.1 pipe)

still_empty :
    (cs : List (Bool × Bool)) (pipe : Pipe)
    → pipe.bufs ≡ []
    → read_wait_ends (closes cs pipe) ≡ false
unfolding read_wait_ends is_empty pipe_release
still_empty [] pipe e = rw e refl
still_empty (c ∷ cs) pipe e = still_empty cs (pipe_release c.0 c.1 pipe) e

read_nothing :
    (size room w : ℕ) (pipe : Pipe)
    → size ≢ 0
    → pipe.bufs ≡ []
    → pipe.writers ≡ w
    → (pipe_read false size room pipe).0 ≡ (if w == 0 then done 0 else waits)
unfolding pipe_read read_outcome read_pages
read_nothing size room w pipe some' e h =
    let z : (size == 0) ≡ false = ground arith in rw (z, e, h) (ground arith)

-- A read of an empty pipe with one writer waits. When that writer leaves, a new read would be at the
-- end of the file, but the condition on which the wait ends is false, and closing more ends never
-- makes it true: the reader sleeps on until a signal.
pub read_wait_ends-pipe_release :
    (size room : ℕ) (cs : List (Bool × Bool)) (pipe : Pipe)
    → size ≢ 0
    → pipe.bufs ≡ []
    → pipe.writers ≡ 1
    → let left = pipe_release false true pipe in
      ((pipe_read false size room pipe).0 ≡ waits)
      × ((pipe_read false size room left).0 ≡ done 0)
      × (read_wait_ends (closes cs left) ≡ false)
unfolding pipe_release
read_wait_ends-pipe_release size room cs pipe some' e one =
    let left = pipe_release false true pipe in
    (
      read_nothing size room 1 pipe some' e one,
      read_nothing size room 0 left some' e (omega (arith, one)),
      still_empty cs left e,
    )
