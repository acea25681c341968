-- ===== src/Slab.antt =====
-- src/mm/slab.c: allocators of objects of one size in frames of 32 pages. An address is a number; a
-- call runs with the slab's spinlock held, but for the call of palloc, whose result is given.
pub mod Align
pub mod Lists
pub mod Frames
pub mod Search
pub mod Calls
pub mod Reached
mod Examples
use Prim.Native.Nat.{bit_and}
use protura.Base.{
  ℕ, zero, suc, ◌+◌, ◌-◌, ◌*◌, ◌/◌, ◌%◌, ◌^◌, ◌==◌, ltb, leb, Bool, true, false, ◌&&◌, ◌||◌, Option,
  none, some, List, [], ◌∷◌, ◌++◌, if◌then◌else◌,
}
use mathlib.Core.Option

-- `struct slab_page_frame` at the address `start`. The free objects are a list.
pub record Frame : Type 0 where
  pub start : ℕ
  pub first_addr : ℕ
  pub last_addr : ℕ
  pub object_count : ℕ
  pub free_object_count : ℕ
  pub freelist : List ℕ

pub record Slab : Type 0 where
  pub object_size : ℕ
  pub frames : List Frame

-- The bytes of the pages of a frame, CONFIG_KERNEL_SLAB_ORDER being 5, and of `struct slab_page_frame`.
abbrev pub frame_size : ℕ
frame_size = 4096 * 2 ^ 5

abbrev pub header_size : ℕ
header_size = 28

-- `ALIGN_2`, on words of 32 bits
unfoldable pub align_2 : ℕ → ℕ → ℕ
align_2 v a = bit_and ((v + a - 1) % 2 ^ 32) (2 ^ 32 - a)

-- The objects from an address on, which are written and linked.
unfoldable pub objects : ℕ → ℕ → ℕ → List ℕ
objects size obj zero = []
objects size obj (suc n) = obj ∷ objects size (align_2 (obj + size) size) n

abbrev pub new_first : ℕ → ℕ → ℕ
new_first size page = align_2 (page + header_size) size

abbrev pub new_count : ℕ → ℕ → ℕ
new_count size page = (page + frame_size - new_first size page) / size

unfoldable pub new_frame : ℕ → ℕ → Frame
new_frame size page = record {
  start = page;
  first_addr = new_first size page;
  last_addr = new_first size page + new_count size page * size;
  object_count = new_count size page;
  free_object_count = new_count size page;
  freelist = objects size (new_first size page) (new_count size page);
}

-- `__slab_frame_add_new`, with the pages that palloc gives; `none` is -ENOMEM.
unfoldable pub slab_frame_add_new : Option ℕ → Slab → Option Slab
slab_frame_add_new none slab = none
slab_frame_add_new (some page) slab =
    some (record slab { frames = slab.frames ++ (new_frame slab.object_size page ∷ []) })

-- `__slab_oom`
unfoldable pub unused_freed : List Frame → List Frame
unused_freed [] = []
unused_freed (f ∷ fs) =
    if f.free_object_count == f.object_count then unused_freed fs else f ∷ unused_freed fs

abbrev pub slab_oom : Slab → Slab
slab_oom slab = record slab { frames = unused_freed slab.frames }

-- The first free object that still has its poison; those before it are lost.
unfoldable pub take_valid : (ℕ → Bool) → List ℕ → Option ℕ × List ℕ
take_valid poison_valid [] = (none, [])
take_valid poison_valid (obj ∷ objs) =
    let rest = take_valid poison_valid objs in if poison_valid obj then (some obj, objs) else rest

abbrev pub count_taken : Option ℕ → Frame → Frame
count_taken none f = f
count_taken (some obj) f = record f { free_object_count = f.free_object_count - 1 }

-- `__slab_frame_object_alloc`
unfoldable pub slab_frame_object_alloc : (ℕ → Bool) → Frame → Option ℕ × Frame
slab_frame_object_alloc poison_valid f =
    let r = take_valid poison_valid f.freelist in
    (r.0, count_taken r.0 (record f { freelist = r.1 }))

abbrev pub is_empty : List ℕ → Bool
is_empty [] = true
is_empty (x ∷ xs) = false

abbrev pub before : Frame → Option (Option ℕ × List Frame) → Option (Option ℕ × List Frame)
before f none = none
before f (some (obj, fs)) = some (obj, f ∷ fs)

-- The loop of `__slab_malloc`; `none` if no frame has a free object.
unfoldable pub malloc_in : (ℕ → Bool) → List Frame → Option (Option ℕ × List Frame)
malloc_in poison_valid [] = none
malloc_in poison_valid (f ∷ fs) =
    let later = before f (malloc_in poison_valid fs) in
    let here = slab_frame_object_alloc poison_valid f in
    if f.free_object_count == 0 || is_empty f.freelist then later else some (here.0, here.1 ∷ fs)

abbrev pub or_else :
    Option (Option ℕ × List Frame) → Slab → Option (Option ℕ × Slab) → Option (Option ℕ × Slab)
or_else (some (obj, fs)) slab later = some (obj, record slab { frames = fs })
or_else none slab later = later

abbrev pub when_added :
    Option Slab → Slab → (Slab → Option (Option ℕ × Slab)) → Option (Option ℕ × Slab)
when_added none slab try_again = some (none, slab)
when_added (some slab') slab try_again = try_again slab'

-- `__slab_malloc`, with what palloc gives each time it is called; `none` if there are more calls.
unfoldable pub slab_malloc : (ℕ → Bool) → List (Option ℕ) → Slab → Option (Option ℕ × Slab)
slab_malloc poison_valid [] slab = or_else (malloc_in poison_valid slab.frames) slab none
slab_malloc poison_valid (page ∷ pages) slab =
    or_else (malloc_in poison_valid slab.frames) slab
      (when_added (slab_frame_add_new page slab) slab (slab_malloc poison_valid pages))

-- The free list with an object, in the order of addresses; `none` if it is in a free object.
unfoldable pub insert : ℕ → ℕ → List ℕ → Option (List ℕ)
insert size obj [] = some (obj ∷ [])
insert size obj (cur ∷ rest) =
    let later = insert size obj rest in
    if leb cur obj && ltb obj (cur + size)
    then none
    else if leb obj cur
    then some (obj ∷ cur ∷ rest)
    else Option.map (◌∷◌ cur) later

abbrev pub freed : Frame → Option (List ℕ) → Frame
freed f none = f
freed f (some list) = record f { freelist = list; free_object_count = f.free_object_count + 1 }

-- `__slab_frame_object_free`, without the call of `__slab_oom`
unfoldable pub slab_frame_object_free : ℕ → ℕ → Frame → Frame
slab_frame_object_free size obj f = freed f (insert size obj f.freelist)

abbrev pub in_frame : ℕ → Frame → Bool
in_frame addr f = leb f.first_addr addr && ltb addr f.last_addr

-- `__slab_has_addr`, which returns 0 for true
unfoldable pub slab_has_addr : ℕ → List Frame → Bool
slab_has_addr addr [] = false
slab_has_addr addr (f ∷ fs) = if in_frame addr f then true else slab_has_addr addr fs

-- The frames after the object went back to the first one that it lies in, and whether that is unused
-- now; `none` is the panic.
unfoldable pub free_in : ℕ → ℕ → List Frame → Option (List Frame × Bool)
free_in size obj [] = none
free_in size obj (f ∷ fs) =
    let later = free_in size obj fs in
    let f' = slab_frame_object_free size obj f in
    if in_frame obj f
    then some (
      f' ∷ fs,
      ltb f.free_object_count f'.free_object_count && f'.free_object_count == f'.object_count,
    )
    else Option.map (λ r. (f ∷ r.0, r.1)) later

-- `__slab_free`
unfoldable pub slab_free : ℕ → Slab → Option Slab
slab_free obj slab =
    Option.map
      (λ r. let slab' = record slab { frames = r.0 } in if r.1 then slab_oom slab' else slab')
      (free_in slab.object_size obj slab.frames)
