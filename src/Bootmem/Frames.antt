-- ===== src/Bootmem/Frames.antt =====
-- After the boot exactly the frames of the regions are free.
use protura.Base.{ℕ, ◌+◌, ◌*◌, ◌≡◌, Option, none, some, All}
use protura.Palloc.{Page, Buddy}
use protura.Palloc.Lists.{cover}
use protura.Palloc.Free.{IsValid}
use protura.Bootmem.{Bootmem, Image}
use protura.Bootmem.Outside.{IsOutside}
use protura.Bootmem.Alloc.{IsSmall}
use protura.Bootmem.Setup.{mark_invalid, frame_count}

-- The image's range stays.
pub record SameImage (a b : Buddy) : Type 0 where
  pub low : b.kern_start ≡ a.kern_start
  pub top : b.kern_end ≡ a.kern_end

-- From one state of the allocator to another, with the frames that became free.
pub record Frees (a b : Buddy) (count : ℕ → ℕ) : Type 0 where
  pub valid : IsValid b
  pub frames : (q : ℕ) → cover b q ≡ cover a q + count q
  pub image : SameImage a b

-- The regions that are left have no page of the image, and the allocator has exactly their frames,
-- but the memory before the array was overwritten; or there was no memory for the page array.
pub data SetsUp (k : Image) (high page_bytes : ℕ) (b : Bootmem) (w : Page) (a : Buddy)
    : Option (Bootmem × Page × Buddy) → Type 0 where
  no_memory :
      All (IsSmall (b.highest_page * page_bytes) 4096) b.memregions
      → SetsUp k high page_bytes b w a none
  sets_up :
      (b' : Bootmem) (c : Buddy)
      → All (IsOutside k) b'.memregions
      → IsValid c
      → ((q : ℕ) → cover c q ≡ frame_count high a b'.memregions q)
      → SetsUp k high page_bytes b w a (some (b', mark_invalid w, c))
