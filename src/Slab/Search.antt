-- ===== src/Slab/Search.antt =====
-- The frames of an allocator, and the search for a free object in them.
use protura.Base.{
  ℕ, ◌+◌, ◌-◌, ◌*◌, ◌/◌, ◌^◌, ◌≤◌, ◌<◌, ◌==◌, ◌≡◌, refl, sym, true, false, ◌⊎◌, Option, none, some,
  List, [], ◌∷◌, ◌++◌, All, arith, Bool-cases, inl, inr,
}
use native.Mathlib.Nat.{div-mul-le_self, le-div_iff_mul-le}
use protura.Slab.{
  Frame, frame_size, header_size, new_first, new_count, new_frame, unused_freed, before, is_empty,
  malloc_in,
}
use protura.Slab.Align.{IsPower, IsLow, new_first_lem}
use protura.Slab.Lists.{objects-IsFree, length-objects}
use protura.Slab.Frames.{IsSound, intact, slab_frame_object_alloc-Takes}

pub new_frame-IsSound :
    (size page : ℕ)
    → 0 < size
    → IsPower size
    → header_size + size + size ≤ frame_size
    → IsLow (some page)
    → IsSound size (new_frame size page)
unfolding new_frame IsLow
new_frame-IsSound size page p power fits low =
    let e = new_first_lem size page power fits low in
    let aligned = div-mul-le_self (page + header_size + size - 1) size in
    let q = (page + header_size + size - 1) / size in
    let inside = div-mul-le_self (page + frame_size - new_first size page) size in
    let high : new_first size page + new_count size page * size + size ≤ 2 ^ 32 =
      omega (arith, e, aligned, inside, low, fits) in
    let first = new_first size page in
    let n = new_count size page in
    let start : first + 0 * size ≡ first = omega arith in
    record {
      last = refl;
      free =
          rw start at
            (objects-IsFree size first q 0 n (first + n * size) p power e high (omega arith));
      counted = sym (length-objects size first n);
    }

-- A new frame has an object, if its header and one aligned object fit into its pages.
pub new_count-positive :
    (size page : ℕ)
    → 0 < size
    → IsPower size
    → header_size + size + size ≤ frame_size
    → IsLow (some page)
    → 0 < new_count size page
new_count-positive size page p power h low =
    let e = new_first_lem size page power h low in
    let aligned = div-mul-le_self (page + header_size + size - 1) size in
    (le-div_iff_mul-le p).1 (omega (arith, e, aligned, h))

pub unused_freed-All :
    (size : ℕ) (fs : List Frame) → All (IsSound size) fs → All (IsSound size) (unused_freed fs)
unfolding unused_freed
unused_freed-All size [] h = tt
unused_freed-All size (f ∷ fs) h = elim (Bool-cases (f.free_object_count == f.object_count)) [
  | inl unused ↦ rw unused (unused_freed-All size fs h.1)
  | inr used ↦ rw used (h.0, unused_freed-All size fs h.1)
]

pub All-append :
    {A : Type 0} (P : A → Type 0) (xs : List A) (x : A) → All P xs → P x → All P (xs ++ (x ∷ []))
All-append P [] x h p = (p, tt)
All-append P (y ∷ xs) x h p = (h.0, All-append P xs x h.1 p)

-- An object comes from a frame: it was the first one free there, and nothing else changes.
pub data Took (obj : ℕ) : List Frame → List Frame → Type 0 where
  here :
      (f : Frame) (fs : List Frame) (objs : List ℕ)
      → f.freelist ≡ obj ∷ objs
      → Took obj
          (f ∷ fs)
          (record f { freelist = objs; free_object_count = f.free_object_count - 1 } ∷ fs)
  there : (f : Frame) (fs fs' : List Frame) → Took obj fs fs' → Took obj (f ∷ fs) (f ∷ fs')

-- Every frame is full.
abbrev pub IsFull : Frame → Type 0
IsFull f = f.freelist ≡ []

-- The search finds the first frame with a free object, or all are full.
pub data Search (fs : List Frame) : Option (Option ℕ × List Frame) → Type 0 where
  found : (obj : ℕ) (fs' : List Frame) → Took obj fs fs' → Search fs (some (some obj, fs'))
  full : All IsFull fs → Search fs none

Search-before :
    (f : Frame) (fs : List Frame) (r : Option (Option ℕ × List Frame))
    → IsFull f
    → Search fs r
    → Search (f ∷ fs) (before f r)
Search-before f fs r h (found obj fs' t) = found obj (f ∷ fs') (there f fs fs' t)
Search-before f fs r h (full hs) = full (h, hs)

List-cases : (xs : List ℕ) → (xs ≡ []) ⊎ ((x : ℕ) × (ys : List ℕ) × (xs ≡ x ∷ ys))
List-cases [] = inl refl
List-cases (x ∷ ys) = inr (x, ys, refl)

pub malloc_in-Search :
    (size : ℕ) (fs : List Frame) → All (IsSound size) fs → Search fs (malloc_in intact fs)
unfolding malloc_in
malloc_in-Search size [] h = full tt
malloc_in-Search size (f ∷ fs) h = elim (List-cases f.freelist) [
  | inl empty ↦
      let counted = rw empty at h.0.counted in
      let zero' : (f.free_object_count == 0) ≡ true = ground (arith, counted) in
      rw zero' (Search-before f fs (malloc_in intact fs) empty (malloc_in-Search size fs h.1))
  | inr (obj, objs, e) ↦
      let counted = rw e at h.0.counted in
      let more : (f.free_object_count == 0) ≡ false = ground (arith, counted) in
      let nonempty : is_empty f.freelist ≡ false = rw e refl in
      rw (more, nonempty, slab_frame_object_alloc-Takes f obj objs e)
        (found obj (record f { freelist = objs; free_object_count = f.free_object_count - 1 } ∷ fs)
          (here f fs objs e))
]
