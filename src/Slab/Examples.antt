-- ===== src/Slab/Examples.antt =====
-- An allocator of three objects in each frame.
use protura.Base.{ℕ, ◌≡◌, refl, true, some, [], ◌∷◌, arith}
use protura.Base.Members.{is_in}
use protura.Slab.{
  Frame, Slab, align_2, objects, new_frame, slab_frame_add_new, take_valid, slab_frame_object_alloc,
  malloc_in, slab_malloc, insert, slab_frame_object_free, free_in, slab_free,
}
use protura.Slab.Align.{IsPower, IsLow}
use protura.Slab.Frames.{intact, double_free}
use protura.Slab.Reached.{Sound, Reach, start, later, malloc, Reach-Sound}

abbrev size : ℕ
size = 32768

abbrev empty_slab : Slab
empty_slab = record { object_size = size; frames = [] }

abbrev frame : Frame
frame = record {
  start = 131072;
  first_addr = 163840;
  last_addr = 262144;
  object_count = 3;
  free_object_count = 2;
  freelist = 196608 ∷ 229376 ∷ [];
}

abbrev slab : Slab
slab = record { object_size = size; frames = frame ∷ [] }

size-IsPower : IsPower size
size-IsPower = (15, omega arith, refl)

first_malloc : slab_malloc intact (some 131072 ∷ []) empty_slab ≡ some (some 163840, slab)
unfolding slab_malloc malloc_in slab_frame_add_new new_frame objects align_2 slab_frame_object_alloc
    take_valid
first_malloc = refl

slab-Reach : Reach size slab
unfolding IsLow
slab-Reach = later start (malloc (some 131072) (some 163840) slab (omega arith) first_malloc)

-- The last object goes back, and the frame with it.
last_free : slab_free 163840 slab ≡ some empty_slab
unfolding slab_free free_in slab_frame_object_free insert protura.Slab.unused_freed
last_free = refl

slab-Sound : Sound size slab
slab-Sound = Reach-Sound size slab (omega arith) size-IsPower (omega arith) slab-Reach

in_freelist : is_in 196608 frame.freelist ≡ true
unfolding is_in
in_freelist = refl

double_free_example : slab_frame_object_free size 196700 frame ≡ frame
double_free_example =
    double_free size 196700 196608 frame slab-Sound.1.0 in_freelist (omega arith) (omega arith)
