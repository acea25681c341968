-- ===== src/Bootmem/Examples.antt =====
-- A kernel of four pages, and memory around it.
use protura.Base.{◌+◌, ◌-◌, ◌*◌, ◌≤◌, ◌≡◌, refl, some, List, [], ◌∷◌, arith, inl}
use protura.Slab.{align_2}
use protura.Bootmem.{
  Region, Bootmem, Image, pg_size, align_2_down, no_region, without_zero_page, put_region,
  bootmem_add,
}
use protura.Bootmem.Pages.{IsImage, free_places}
use protura.Bootmem.Outside.{Adds, bootmem_add-Adds}
use protura.Palloc.{Buddy}
use protura.Bootmem.Setup.{init_page, init_map}

abbrev image : Image
image = record { kern_start = 1048576 + 100; kern_end = 1048576 + 4 * 4096 - 5 }

abbrev two : Bootmem
two = record { memregions = no_region ∷ no_region ∷ []; highest_page = 0 }

abbrev around : List Region
around = record { start = 4096; end = 1048576 } ∷ record { start = 1064960; end = 2097152 } ∷ []

split_around :
    bootmem_add 2 image 0 2097152 two ≡ some (record { memregions = around; highest_page = 512 })
unfolding bootmem_add put_region align_2 align_2_down
split_around = refl

image-IsImage : IsImage image
unfolding align_2 align_2_down
image-IsImage = record { some_page = omega arith; start_fits = omega arith; end_fits = omega arith }

two_places : 2 ≤ free_places two.memregions
unfolding free_places
two_places = omega arith

bootmem_add-Adds_example :
    Adds image
      (without_zero_page (align_2 0 pg_size))
      (align_2_down 2097152 pg_size)
      two
      (bootmem_add 2 image 0 2097152 two)
bootmem_add-Adds_example =
    bootmem_add-Adds 0 image 0 2097152 two image-IsImage (omega arith) (omega arith) two_places
      (inl (omega arith), (inl (omega arith), tt))

-- The allocator before its initialization.
abbrev unset : Buddy
unset = record {
  pages = λ p. init_page;
  maps = λ k. init_map;
  free_pages = 0;
  kern_start = 1048576 + 100;
  kern_end = 1048576 + 4 * 4096 - 5;
}

abbrev known : Bootmem
known = record { memregions = around; highest_page = 512 }
