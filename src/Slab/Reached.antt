-- ===== src/Slab/Reached.antt =====
-- Every state that allocations, frees and `slab_oom` can reach.
use protura.Base.{
  ℕ, ◌+◌, ◌≤◌, ◌<◌, ◌≡◌, refl, subst, Bool, true, false, Option, none, some, List, [], ◌∷◌, ◌++◌,
  All, arith, Bool-cases, inl, inr, if◌then◌else◌,
}
use mathlib.Core.Option
use mathlib.Core.Option.{some-injective}
use protura.Slab.{
  Frame, Slab, frame_size, header_size, new_frame, slab_oom, slab_malloc, in_frame, free_in,
  slab_free,
}
use protura.Slab.Align.{IsPower, IsLow}
use protura.Slab.Lists.{OnGrid}
use protura.Slab.Frames.{IsSound, intact, taken-IsSound, slab_frame_object_free-IsSound}
use protura.Slab.Search.{new_frame-IsSound, unused_freed-All, All-append, Took, here, there}
use protura.Slab.Calls.{Allocates, gives, grows, fails, slab_malloc-Allocates}

-- An address of an object, whether it is free or not.
unfoldable pub IsObject : ℕ → ℕ → List Frame → Type 0
IsObject size addr [] = ⊥
IsObject size addr (f ∷ fs) =
    if in_frame addr f then OnGrid size f.first_addr addr else IsObject size addr fs

-- Frees may be of objects that are free already.
pub data Step (slab : Slab) : Slab → Type 0 where
  malloc :
      (page obj : Option ℕ) (slab' : Slab)
      → IsLow page
      → slab_malloc intact (page ∷ []) slab ≡ some (obj, slab')
      → Step slab slab'
  free :
      (obj : ℕ) (slab' : Slab)
      → IsObject slab.object_size obj slab.frames
      → slab_free obj slab ≡ some slab'
      → Step slab slab'
  oom : Step slab (slab_oom slab)

pub data Reach (size : ℕ) : Slab → Type 0 where
  start : Reach size (record { object_size = size; frames = [] })
  later : {s t : Slab} → Reach size s → Step s t → Reach size t

Took-IsSound :
    (size obj : ℕ) (fs fs' : List Frame)
    → Took obj fs fs'
    → All (IsSound size) fs
    → All (IsSound size) fs'
Took-IsSound size obj _ _ (here f fs objs e) h = (taken-IsSound size obj objs f h.0 e, h.1)
Took-IsSound size obj _ _ (there f fs fs' t) h = (h.0, Took-IsSound size obj fs fs' t h.1)

abbrev pub Sound : ℕ → Slab → Type 0
Sound size slab = (slab.object_size ≡ size) × All (IsSound size) slab.frames

Allocates-Sound :
    (size : ℕ) (slab : Slab) (page : Option ℕ) (r : Option (Option ℕ × Slab)) (obj : Option ℕ)
    (slab' : Slab)
    → 0 < size
    → IsPower size
    → header_size + size + size ≤ frame_size
    → IsLow page
    → Allocates slab page r
    → r ≡ some (obj, slab')
    → Sound size slab
    → Sound size slab'
Allocates-Sound size slab page _ obj slab' p power fits low (gives o fs t) e h =
    let same : record slab { frames = fs } ≡ slab' = cc in
    subst (Sound size) same (h.0, Took-IsSound size o slab.frames fs t h.1)
Allocates-Sound size slab page _ obj slab' p power fits low (grows at o fs given full t) e h =
    let same : record slab { frames = fs } ≡ slab' = cc in
    let new = new_frame slab.object_size at in
    let new_sound =
      subst (λ z. IsSound z new) h.0
        (new_frame-IsSound slab.object_size at (rw h.0 p) (rw h.0 power) (rw h.0 fits)
          (subst IsLow given low)) in
    subst (Sound size) same (
      h.0,
      Took-IsSound size o (slab.frames ++ (new ∷ [])) fs t
          (All-append (IsSound size) slab.frames new h.1 new_sound),
    )
Allocates-Sound size slab page _ obj slab' p power fits low (fails none' full) e h =
    let same : slab ≡ slab' = cc in subst (Sound size) same h

free_in-later :
    (size : ℕ) (f : Frame) (fs : List Frame) (r : List Frame × Bool)
    (later' : Option (List Frame × Bool))
    → IsSound size f
    → ((z : List Frame × Bool) → later' ≡ some z → All (IsSound size) z.0)
    → Option.map (λ (z : List Frame × Bool). (f ∷ z.0, z.1)) later' ≡ some r
    → All (IsSound size) r.0
free_in-later size f fs r none h rest e = absurd cc
free_in-later size f fs r (some z) h rest e =
    subst (λ (y : List Frame × Bool). All (IsSound size) y.0) (some-injective _ _ e)
      (h, rest z refl)

free_in-IsSound :
    (size obj : ℕ) (fs : List Frame) (r : List Frame × Bool)
    → 0 < size
    → IsObject size obj fs
    → free_in size obj fs ≡ some r
    → All (IsSound size) fs
    → All (IsSound size) r.0
unfolding free_in IsObject
free_in-IsSound size obj [] r p o e h = absurd o
free_in-IsSound size obj (f ∷ fs) r p o e h = elim (Bool-cases (in_frame obj f)) [
  | inl inside' ↦
      let e' = rw inside' at e in
      let o' = rw inside' at o in
      subst (λ (y : List Frame × Bool). All (IsSound size) y.0) (some-injective _ _ e')
        (slab_frame_object_free-IsSound size obj f p h.0 o' (ground arith) (ground arith), h.1)
  | inr outside ↦
      let e' = rw outside at e in
      let o' = rw outside at o in
      free_in-later size f fs r (free_in size obj fs) h.0
        (λ z ez. free_in-IsSound size obj fs z p o' ez h.1) e'
]

slab_free-Sound :
    (size obj : ℕ) (slab slab' : Slab) (r : Option (List Frame × Bool))
    → 0 < size
    → IsObject slab.object_size obj slab.frames
    → free_in slab.object_size obj slab.frames ≡ r
    → slab_free obj slab ≡ some slab'
    → Sound size slab
    → Sound size slab'
unfolding slab_free
slab_free-Sound size obj slab slab' none p o er e h = let e' = rw er at e in absurd cc
slab_free-Sound size obj slab slab' (some (fs, true)) p o er e h =
    let e' = rw er at e in
    let v = free_in-IsSound size obj slab.frames (fs, true) p (rw h.0 at o) (rw h.0 at er) h.1 in
    subst (Sound size) (some-injective _ _ e') (h.0, unused_freed-All size fs v)
slab_free-Sound size obj slab slab' (some (fs, false)) p o er e h =
    let e' = rw er at e in
    let v = free_in-IsSound size obj slab.frames (fs, false) p (rw h.0 at o) (rw h.0 at er) h.1 in
    subst (Sound size) (some-injective _ _ e') (h.0, v)

Step-Sound :
    (size : ℕ) (slab slab' : Slab)
    → 0 < size
    → IsPower size
    → header_size + size + size ≤ frame_size
    → Step slab slab'
    → Sound size slab
    → Sound size slab'
Step-Sound size slab slab' p power fits (malloc page obj _ low e) h =
    let same = h.0 in
    Allocates-Sound size slab page (slab_malloc intact (page ∷ []) slab) obj slab' p power fits low
      (slab_malloc-Allocates page [] slab (rw same p) (rw same power) (rw same fits) low
        (rw same h.1))
      e h
Step-Sound size slab slab' p power fits (free obj _ o e) h =
    slab_free-Sound size obj slab slab' (free_in slab.object_size obj slab.frames) p o refl e h
Step-Sound size slab slab' p power fits oom h = (h.0, unused_freed-All size slab.frames h.1)

pub Reach-Sound :
    (size : ℕ) (slab : Slab)
    → 0 < size
    → IsPower size
    → header_size + size + size ≤ frame_size
    → Reach size slab
    → Sound size slab
Reach-Sound size slab p power fits start = (refl, tt)
Reach-Sound size slab p power fits (later {s = before'} r st) =
    Step-Sound size before' slab p power fits st (Reach-Sound size before' p power fits r)
