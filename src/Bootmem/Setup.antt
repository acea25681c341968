-- ===== src/Bootmem/Setup.antt =====
-- `bootmem_setup_palloc` of src/mm/bootmem.c and `palloc_init` of src/mm/palloc.c: the pages of the
-- regions are given to the page allocator.
use protura.Base.{
  ℕ, zero, suc, ◌+◌, ◌-◌, ◌*◌, ◌/◌, ◌==◌, ◌&&◌, not, ltb, leb, true, false, Option, none, some,
  List, [], ◌∷◌, if◌then◌else◌,
}
use protura.Base.Arrays.{update}
use protura.Palloc.{Page, BuddyMap, Buddy, palloc_maps, is_kernel, mark_page_free}
use protura.Slab.{align_2}
use protura.Bootmem.{Region, Bootmem, pg_size, align_2_down, bootmem_alloc_nopanic}

abbrev pub init_page : Page
init_page = record { order = none; invalid = true; use_count = 0 }

abbrev pub init_map : BuddyMap
init_map = record { free_list = []; free_count = 0 }

-- What a round of the loop of `palloc_init` writes to a page.
abbrev pub mark_invalid : Page → Page
mark_invalid p = record p { order = none; invalid = true }

-- `palloc_init` for an array of `n` pages; what follows the array stays. The first result is the
-- memory just before the array, as a `struct page`: the last round of the loop writes to it.
unfoldable pub palloc_init : ℕ → Page → Buddy → Page × Buddy
palloc_init n memory_before a = (
  mark_invalid memory_before,
  record a {
    pages = λ p. if ltb p n then init_page else a.pages p;
    maps = λ k. if ltb k palloc_maps then init_map else a.maps k;
  },
)

-- `bit_clear(&p->flags, PG_INVALID)`
unfoldable pub clear_invalid : ℕ → Buddy → Buddy
clear_invalid pn a = record a {
  pages = update a.pages pn (record (a.pages pn) { invalid = false });
}

-- The loop over the pages of a region, with `n` of them to go; `high` is where the kernel's own
-- maps begin, as a physical address.
unfoldable pub free_pages_from : ℕ → ℕ → ℕ → Buddy → Buddy
free_pages_from high zero first_page a = a
free_pages_from high (suc n) first_page a =
    let b = clear_invalid (first_page / pg_size) a in
    let rest =
      free_pages_from high n (first_page + pg_size) (mark_page_free (first_page / pg_size) b) in
    if leb high first_page then b else rest

unfoldable pub free_region : ℕ → Region → Buddy → Buddy
free_region high r a =
    let first_page = align_2 r.start pg_size in
    let last_page = align_2_down r.end pg_size in
    if r.start == 0
    then a
    else free_pages_from high ((last_page - first_page) / pg_size) first_page a

unfoldable pub free_regions : ℕ → List Region → Buddy → Buddy
free_regions high [] a = a
free_regions high (r ∷ rs) a = free_regions high rs (free_region high r a)

-- What follows the allocation of the page array; `none` is the panic of `bootmem_alloc`.
unfoldable pub setup_after :
    ℕ → ℕ → Page → Buddy → Option (ℕ × Bootmem) → Option (Bootmem × Page × Buddy)
setup_after high pages memory_before a none = none
setup_after high pages memory_before a (some (addr, b)) =
    let z = palloc_init pages memory_before a in some (b, z.0, free_regions high b.memregions z.1)

-- `page_bytes` is the size of `struct page`, and `memory_before` what lies before the new array.
unfoldable pub bootmem_setup_palloc :
    ℕ → ℕ → Bootmem → Page → Buddy → Option (Bootmem × Page × Buddy)
bootmem_setup_palloc high page_bytes b memory_before a =
    setup_after high b.highest_page memory_before a
      (bootmem_alloc_nopanic (b.highest_page * page_bytes) pg_size b)

-- A frame that the loop frees: 1 or 0.
abbrev pub frame_from : ℕ → Buddy → ℕ → ℕ → ℕ → ℕ
frame_from high a n p q =
    if (leb p q && ltb q (p + n)) && (ltb (q * 4096) high && not (is_kernel a q)) then 1 else 0

abbrev pub region_frames : ℕ → Buddy → Region → ℕ → ℕ
region_frames high a r q =
    if r.start == 0
    then 0
    else frame_from high a ((align_2_down r.end 4096 - align_2 r.start 4096) / 4096)
        (align_2 r.start 4096 / 4096) q

-- How many of the regions have a frame that is neither high memory nor the kernel's.
unfoldable pub frame_count : ℕ → Buddy → List Region → ℕ → ℕ
frame_count high a [] q = 0
frame_count high a (r ∷ rs) q = region_frames high a r q + frame_count high a rs q
