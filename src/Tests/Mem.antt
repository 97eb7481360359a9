-- ===== src/Tests/Mem.antt =====
-- The allocator of src/mem_src/pim_mem.c with one unused pool.
use lut_pim_driver.Prelude.{
  ℕ, ◌+◌, ◌*◌, ◌≡◌, ◌⊎◌, ◌≤◌, ◌<◌, List, [], ◌∷◌, none, some, refl, inl, arith, true, replicate,
  sub_u32, u32,
}
use lut_pim_driver.PimMem.BitVector.{
  free_page, used_page, fill, strnstr, strnstr_from, strstr, starts_with, find_pages,
}
use lut_pim_driver.PimMem.BitVectorLaws.{IsRun}
use lut_pim_driver.PimMem.Driver.{ok, Driver, Device}
use lut_pim_driver.PimMem.Pool.{MemPool, new_pool, num_pages, page_size, pages, set_bit_vector}
use lut_pim_driver.PimMem.Pool.Laws.{IsPool}
use lut_pim_driver.PimMem.Malloc.{
  find_large, Allocator, Found, nalloc_pages, search, search_from, take_pages, pim_malloc,
}
use lut_pim_driver.PimMem.Malloc.Sizes.{nalloc_pages_lem}
use lut_pim_driver.PimMem.Malloc.Search.{ArePools, taken}
use lut_pim_driver.PimMem.Malloc.Grow.{HasRoom, next_pool, next_pool-IsPool}
use lut_pim_driver.PimMem.Malloc.Laws.{IsAllocated, pim_malloc_small}
use lut_pim_driver.PimMem.Malloc.Large.{find_large-none}
use lut_pim_driver.PimMem.Free.{pim_free}
use lut_pim_driver.PimMem.Free.Walk.{AreApart, AreFreed}
use lut_pim_driver.PimMem.Free.Laws.{pim_free-pim_malloc, next_pool-HasPages}

abbrev pub device : Device
device = record {
  opens = true;
  info_addr = 0xc1000000;
  info_size = 0x10000000;
  mapped = 0x7f0000000000;
  uninit = λ i. i;
}

abbrev empty_window : Driver
empty_window = record {
  pim_mem = 0x7f0000000000;
  pim_mem_size = 0x10000000;
  pim_mem_fd = true;
  total_size = 0;
}

abbrev first_pool : MemPool
first_pool = next_pool device empty_window

abbrev one_pool : Allocator
one_pool = record {
  ntotal_mem_pools = 1;
  curr_mem_pool = some 0;
  pools = first_pool ∷ [];
  driver = record empty_window { total_size = 0x200000 };
}

one_pool-ArePools : ArePools one_pool.pools
one_pool-ArePools = (next_pool-IsPool device empty_window, tt)

one_pool-AreApart : AreApart 0 one_pool.pools 0x7f0000200000
unfolding next_pool new_pool
one_pool-AreApart = (omega arith, next_pool-HasPages device empty_window, omega arith)

one_pool-HasRoom : HasRoom one_pool.driver
one_pool-HasRoom = record { mapped = omega arith; fits = omega arith; word = omega arith }

-- A pool of 512 pages with the pages 100 to 104 free and the index at 102.
abbrev split_bits : List ℕ
split_bits = fill (replicate 512 used_page) 100 5 free_page

pim_malloc_small_example :
    (out : ℕ × Allocator) × (pim_malloc device 10000 one_pool ≡ ok out)
    × IsAllocated device (nalloc_pages 10000) one_pool out
    × ArePools out.1.pools
pim_malloc_small_example =
    pim_malloc_small device 10000 0 one_pool (omega arith) (omega arith) refl one_pool-ArePools
      one_pool-HasRoom

pim_free-pim_malloc_example :
    (out : ℕ × Allocator) × (c : Allocator) × (pim_malloc device 10000 one_pool ≡ ok out)
    × (pim_free out.0 out.1 ≡ ok c)
    × AreFreed one_pool.pools c.pools
pim_free-pim_malloc_example =
    pim_free-pim_malloc device 10000 0 0 one_pool (omega arith) (omega arith) refl one_pool-ArePools
      one_pool-AreApart one_pool-HasRoom

abbrev part_of_page : ℕ
part_of_page = 100

nalloc_pages_lem_example :
    ((0 < nalloc_pages part_of_page)
      × (nalloc_pages part_of_page ≤ num_pages)
      × (part_of_page ≤ nalloc_pages part_of_page * page_size)
      × (nalloc_pages part_of_page * page_size < part_of_page + 2 * page_size))
    × (((part_of_page ≡ 0) × (nalloc_pages part_of_page ≡ 1))
        ⊎ (((0 < part_of_page) × (part_of_page < page_size) × (nalloc_pages part_of_page ≡ 2))
            ⊎ ((page_size ≤ part_of_page)
                × (part_of_page ≤ nalloc_pages part_of_page * page_size)
                × (nalloc_pages part_of_page * page_size < part_of_page + page_size))))
nalloc_pages_lem_example = nalloc_pages_lem part_of_page (omega arith)

-- The first pool once it has given three pages.
abbrev three_taken : MemPool
three_taken = record first_pool {
  bit_vector = fill first_pool.bit_vector 0 3 used_page;
  nfree_pages = sub_u32 first_pool.nfree_pages 3;
  curr_idx = u32 (0 + 3);
}

three_taken_eq : set_bit_vector first_pool 3 ≡ some (0, three_taken)
unfolding set_bit_vector next_pool new_pool find_pages strstr starts_with
three_taken_eq = refl

room_for_three : 3 ≤ first_pool.nfree_pages
unfolding next_pool new_pool
room_for_three = omega arith

run_found : strnstr (49 ∷ 48 ∷ 48 ∷ 49 ∷ []) (replicate 2 free_page) 4 ≡ some 1
unfolding strnstr strnstr_from starts_with
run_found = refl

run_not_found : strnstr (49 ∷ 48 ∷ 49 ∷ 48 ∷ []) (replicate 2 free_page) 4 ≡ none
unfolding strnstr strnstr_from starts_with
run_not_found = refl

abbrev split_pool : MemPool
split_pool = record first_pool { bit_vector = split_bits; nfree_pages = 5; curr_idx = 102 }

split_pool-IsPool : IsPool split_pool
unfolding fill next_pool new_pool
split_pool-IsPool = record {
  flags = refl;
  entries = (next_pool-IsPool device empty_window).entries;
  index = omega arith;
  kind = inl refl;
  free_count = inl refl;
}

split_pool-IsRun : IsRun free_page split_bits 100 4
unfolding fill
split_pool-IsRun = (refl, (refl, (refl, (refl, tt))))

split_none : set_bit_vector split_pool 4 ≡ none
unfolding set_bit_vector find_pages strstr strnstr strnstr_from starts_with fill
split_none = refl

abbrev three_found : Found
three_found = record { pos = 0; addr = 0x7f0000000000; pools = taken first_pool 0 3 ∷ [] }

three_found_eq : search_from 0 3 one_pool.pools ≡ some three_found
unfolding search_from search take_pages set_bit_vector next_pool new_pool pages find_pages strstr
    starts_with
three_found_eq = refl

find_large-none_example : find_large 3 (first_pool ∷ first_pool ∷ first_pool ∷ []) ≡ none
find_large-none_example =
    find_large-none 3 (first_pool ∷ first_pool ∷ first_pool ∷ []) (omega arith) (omega arith)
