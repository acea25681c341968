-- ===== src/Slab/Frames.antt =====
-- One frame: its soundness, allocation and freeing.
use protura.Base.{
  ℕ, suc, ◌+◌, ◌-◌, ◌*◌, ◌≤◌, ◌<◌, leb, ◌≡◌, refl, sym, Bool, true, some, List, ◌∷◌, length, arith,
  Bool-cases, inl, inr, Option-cases,
}
use protura.Base.Members.{is_in}
use native.Mathlib.Nat.{mul-le-mul_right}
use protura.Slab.{Frame, take_valid, slab_frame_object_alloc, insert, slab_frame_object_free}
use protura.Slab.Lists.{
  OnGrid, IsFree, OnGrid-apart, IsFree-length, IsFree-lower, insert-below, insert-inside,
  insert-IsFree,
}

-- What holds of a frame whose free objects nobody has written to.
pub record IsSound (size : ℕ) (f : Frame) : Type 0 where
  pub last : f.last_addr ≡ f.first_addr + f.object_count * size
  pub free : IsFree size f.first_addr f.first_addr f.last_addr f.freelist
  pub counted : f.free_object_count ≡ length f.freelist

-- The free objects fit into the frame.
pub IsSound-bound :
    (size : ℕ) (f : Frame) → 0 < size → IsSound size f → f.free_object_count ≤ f.object_count
IsSound-bound size f p v =
    let fit = IsFree-length size f.first_addr f.first_addr f.last_addr f.freelist v.free in
    elim (Bool-cases (leb f.free_object_count f.object_count)) [
      | inl fits ↦ ground arith
      | inr more ↦
          let m =
            mul-le-mul_right {m = suc f.object_count} {n = length f.freelist} size
              (ground (arith, v.counted)) in
          absurd (omega (arith, v.last, fit, m))
    ]

-- The memory of the free objects is as it was left.
abbrev pub intact : ℕ → Bool
intact addr = true

take_valid-cons : (obj : ℕ) (objs : List ℕ) → take_valid intact (obj ∷ objs) ≡ (some obj, objs)
unfolding take_valid
take_valid-cons obj objs = refl

-- An allocation takes the first free object.
pub slab_frame_object_alloc-Takes :
    (f : Frame) (obj : ℕ) (objs : List ℕ)
    → f.freelist ≡ obj ∷ objs
    → slab_frame_object_alloc intact f
      ≡ (some obj, record f { freelist = objs; free_object_count = f.free_object_count - 1 })
unfolding slab_frame_object_alloc
slab_frame_object_alloc-Takes f obj objs e = rw (e, take_valid-cons obj objs) refl

pub taken-IsSound :
    (size obj : ℕ) (objs : List ℕ) (f : Frame)
    → IsSound size f
    → f.freelist ≡ obj ∷ objs
    → IsSound size (record f { freelist = objs; free_object_count = f.free_object_count - 1 })
unfolding IsFree
taken-IsSound size obj objs f v e =
    let free = rw e at v.free in
    let counted = rw e at v.counted in
    record {
      last = v.last;
      free =
          IsFree-lower size f.first_addr (obj + size) f.first_addr f.last_addr objs
            (omega (arith, free.0)) free.2;
      counted = omega (arith, counted);
    }

-- Freeing an object of a sound frame leaves it sound, whether it was free or not.
pub slab_frame_object_free-IsSound :
    (size obj : ℕ) (f : Frame)
    → 0 < size
    → IsSound size f
    → OnGrid size f.first_addr obj
    → f.first_addr ≤ obj
    → obj < f.last_addr
    → IsSound size (slab_frame_object_free size obj f)
unfolding slab_frame_object_free
slab_frame_object_free-IsSound size obj f p v g l u =
    elim (Option-cases (insert size obj f.freelist)) [
      | inl refused ↦ rw refused v
      | inr (objs, taken) ↦
          let end : OnGrid size f.first_addr f.last_addr = (f.object_count, v.last) in
          let fits = OnGrid-apart size f.first_addr obj f.last_addr g end u in
          let r =
            insert-IsFree size f.first_addr f.first_addr f.last_addr obj f.freelist objs p v.free g
              l fits taken in
          rw taken (record { last = v.last; free = r.0; counted = omega (arith, v.counted, r.1) })
    ]

-- In a sound frame, the freeing of an address in a free object is refused: a double free changes
-- nothing.
pub double_free :
    (size addr obj : ℕ) (f : Frame)
    → IsSound size f
    → is_in obj f.freelist ≡ true
    → obj ≤ addr
    → addr < obj + size
    → slab_frame_object_free size addr f ≡ f
unfolding slab_frame_object_free
double_free size addr obj f v i l u =
    rw (insert-inside size f.first_addr f.first_addr f.last_addr addr obj f.freelist v.free i l u)
      refl

-- An object that a sound frame gave and gets back at once leaves the frame as it was.
pub slab_frame_object_free-slab_frame_object_alloc :
    (size obj : ℕ) (objs : List ℕ) (f : Frame)
    → 0 < size
    → IsSound size f
    → f.freelist ≡ obj ∷ objs
    → (slab_frame_object_alloc intact f).0 ≡ some obj
      × (slab_frame_object_free size obj (slab_frame_object_alloc intact f).1 ≡ f)
unfolding slab_frame_object_free IsFree
slab_frame_object_free-slab_frame_object_alloc size obj objs f p v e =
    let free = rw e at v.free in
    let counted = rw e at v.counted in
    let back = insert-below size f.first_addr obj f.last_addr objs p free.2 in
    let n : f.free_object_count - 1 + 1 ≡ f.free_object_count = omega (arith, counted) in
    rw (slab_frame_object_alloc-Takes f obj objs e, back) (refl, (rw (n, sym e) refl))
