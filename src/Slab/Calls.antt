-- ===== src/Slab/Calls.antt =====
-- Allocation: the search, the call of palloc, and the search again.
use protura.Base.{
  ℕ, ◌+◌, ◌≤◌, ◌<◌, ◌≡◌, refl, ap, sym, ◌∙◌, subst, Option, none, some, List, [], ◌∷◌, ◌++◌, length,
  All, arith,
}
use protura.Slab.{
  Frame, Slab, frame_size, header_size, new_first, new_count, new_frame, slab_frame_add_new,
  malloc_in, or_else, when_added, slab_malloc,
}
use protura.Slab.Align.{IsPower, IsLow}
use protura.Slab.Lists.{length-objects}
use protura.Slab.Frames.{IsSound, intact}
use protura.Slab.Search.{
  new_frame-IsSound, new_count-positive, All-append, Took, IsFull, Search, found, full,
  malloc_in-Search,
}

-- What an allocation does, given what palloc returns if it is called.
pub data Allocates (slab : Slab) (page : Option ℕ) : Option (Option ℕ × Slab) → Type 0 where
  gives :
      (obj : ℕ) (fs : List Frame)
      → Took obj slab.frames fs
      → Allocates slab page (some (some obj, record slab { frames = fs }))
  grows :
      (start obj : ℕ) (fs : List Frame)
      → page ≡ some start
      → All IsFull slab.frames
      → Took obj (slab.frames ++ (new_frame slab.object_size start ∷ [])) fs
      → Allocates slab page (some (some obj, record slab { frames = fs }))
  fails : page ≡ none → All IsFull slab.frames → Allocates slab page (some (none, slab))

malloc-found :
    (pages : List (Option ℕ)) (slab : Slab) (obj : Option ℕ) (fs : List Frame)
    → malloc_in intact slab.frames ≡ some (obj, fs)
    → slab_malloc intact pages slab ≡ some (obj, record slab { frames = fs })
unfolding slab_malloc
malloc-found [] slab obj fs e = ap (λ r. or_else r slab none) e
malloc-found (page ∷ pages) slab obj fs e =
    ap
      (λ r.
        or_else r slab (when_added (slab_frame_add_new page slab) slab (slab_malloc intact pages)))
      e

malloc-full :
    (page : Option ℕ) (pages : List (Option ℕ)) (slab : Slab)
    → malloc_in intact slab.frames ≡ none
    → slab_malloc intact (page ∷ pages) slab
      ≡ when_added (slab_frame_add_new page slab) slab (slab_malloc intact pages)
unfolding slab_malloc
malloc-full page pages slab e =
    ap
      (λ r.
        or_else r slab (when_added (slab_frame_add_new page slab) slab (slab_malloc intact pages)))
      e

new_frame-not_full : (size page : ℕ) → 0 < new_count size page → IsFull (new_frame size page) → ⊥
unfolding new_frame
new_frame-not_full size page p h =
    let none' = ap (λ (l : List ℕ). length l) h in
    absurd (omega (arith, none', length-objects size (new_first size page) (new_count size page)))

All-last : {A : Type 0} (P : A → Type 0) (xs : List A) (x : A) → All P (xs ++ (x ∷ [])) → P x
All-last P [] x h = h.0
All-last P (y ∷ xs) x h = All-last P xs x h.1

-- After the frame was added, the search finds an object in it.
second_pass :
    (start : ℕ) (pages : List (Option ℕ)) (slab slab' : Slab) (r : Option (Option ℕ × List Frame))
    → 0 < new_count slab.object_size start
    → All IsFull slab.frames
    → slab' ≡ record slab { frames = slab.frames ++ (new_frame slab.object_size start ∷ []) }
    → malloc_in intact slab'.frames ≡ r
    → Search slab'.frames r
    → Allocates slab (some start) (slab_malloc intact pages slab')
second_pass start pages slab slab' _ room hs same e (found obj fs t) =
    let took : Took obj (slab.frames ++ (new_frame slab.object_size start ∷ [])) fs =
      subst (λ (z : Slab). Took obj z.frames fs) same t in
    let size : record slab' { frames = fs } ≡ record slab { frames = fs } =
      ap (λ (z : Slab). record z { frames = fs }) same in
    subst (Allocates slab (some start))
      (sym (malloc-found pages slab' (some obj) fs e ∙ ap (λ z. some (some obj, z)) size))
      (grows start obj fs refl hs took)
second_pass start pages slab slab' _ room hs same e (full hs') =
    let last =
      All-last IsFull slab.frames (new_frame slab.object_size start)
        (subst (λ (z : Slab). All IsFull z.frames) same hs') in
    absurd (new_frame-not_full slab.object_size start room last)

first_pass :
    (page : Option ℕ) (pages : List (Option ℕ)) (slab : Slab) (r : Option (Option ℕ × List Frame))
    → 0 < slab.object_size
    → IsPower slab.object_size
    → header_size + slab.object_size + slab.object_size ≤ frame_size
    → IsLow page
    → All (IsSound slab.object_size) slab.frames
    → malloc_in intact slab.frames ≡ r
    → Search slab.frames r
    → Allocates slab page (slab_malloc intact (page ∷ pages) slab)
unfolding slab_frame_add_new
first_pass page pages slab _ p power h low v e (found obj fs t) =
    subst (Allocates slab page) (sym (malloc-found (page ∷ pages) slab (some obj) fs e))
      (gives obj fs t)
first_pass none pages slab _ p power h low v e (full hs) =
    subst (Allocates slab none) (sym (malloc-full none pages slab e)) (fails refl hs)
first_pass (some start) pages slab _ p power h low v e (full hs) =
    let new = new_frame slab.object_size start in
    let slab' = record slab { frames = slab.frames ++ (new ∷ []) } in
    let sound =
      All-append (IsSound slab.object_size) slab.frames new v
        (new_frame-IsSound slab.object_size start p power h low) in
    subst (Allocates slab (some start)) (sym (malloc-full (some start) pages slab e)) (
      second_pass start pages slab slab' (malloc_in intact slab'.frames)
        (new_count-positive slab.object_size start p power h low) hs refl refl
        (malloc_in-Search slab.object_size slab'.frames sound))

pub slab_malloc-Allocates :
    (page : Option ℕ) (pages : List (Option ℕ)) (slab : Slab)
    → 0 < slab.object_size
    → IsPower slab.object_size
    → header_size + slab.object_size + slab.object_size ≤ frame_size
    → IsLow page
    → All (IsSound slab.object_size) slab.frames
    → Allocates slab page (slab_malloc intact (page ∷ pages) slab)
slab_malloc-Allocates page pages slab p power h low v =
    first_pass page pages slab (malloc_in intact slab.frames) p power h low v refl
      (malloc_in-Search slab.object_size slab.frames v)
