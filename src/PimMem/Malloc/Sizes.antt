-- ===== src/PimMem/Malloc/Sizes.antt =====
-- The number of pages of an allocation, and of pools of a large one.
use lut_pim_driver.Prelude.{ℕ, ◌+◌, ◌*◌, ◌≤◌, ◌<◌, ◌≡◌, ◌⊎◌, inl, inr, arith}
use native.Mathlib.Decide.{dec_lt}
use lut_pim_driver.PimMem.Pool.{huge_page_size, page_size, num_pages}
use lut_pim_driver.PimMem.Malloc.{nalloc_pages}

-- For an allocation of at most one huge page, the number of pages is between 1 and 512, the pages
-- hold the size, and they are less than two pages more.
pub nalloc_pages_bounds :
    (size : ℕ)
    → size ≤ huge_page_size
    → (0 < nalloc_pages size)
      × (nalloc_pages size ≤ num_pages)
      × (size ≤ nalloc_pages size * page_size)
      × (nalloc_pages size * page_size < size + 2 * page_size)
unfolding nalloc_pages
nalloc_pages_bounds size h = ground arith

-- The exact number, by the size: an empty allocation takes one page, one that is smaller than a page takes two
-- pages, and any other takes as many pages as it needs: they hold the size and are less than one
-- page more.
nalloc_pages_cases :
    (size : ℕ)
    → size ≤ huge_page_size
    → ((size ≡ 0) × (nalloc_pages size ≡ 1))
      ⊎ (((0 < size) × (size < page_size) × (nalloc_pages size ≡ 2))
          ⊎ ((page_size ≤ size)
              × (size ≤ nalloc_pages size * page_size)
              × (nalloc_pages size * page_size < size + page_size)))
unfolding nalloc_pages
nalloc_pages_cases size h = elim (dec_lt 0 size) [
  | no z ↦ inl (omega arith, ground arith)
  | yes p ↦ inr (elim (dec_lt size page_size) [
    | yes l ↦ inl (p, l, ground arith)
    | no l ↦ inr (omega arith, ground arith, ground arith)
  ])
]

-- For an allocation of at most one huge page, the number of pages is between 1 and 512, the pages
-- hold the size, and they are less than two pages more; and an empty allocation takes one page, one
-- that is not empty but smaller than a page takes exactly two, and one of at least a page takes pages
-- that hold it and are less than one page more.
pub nalloc_pages_lem :
    (size : ℕ)
    → size ≤ huge_page_size
    → ((0 < nalloc_pages size)
        × (nalloc_pages size ≤ num_pages)
        × (size ≤ nalloc_pages size * page_size)
        × (nalloc_pages size * page_size < size + 2 * page_size))
      × (((size ≡ 0) × (nalloc_pages size ≡ 1))
          ⊎ (((0 < size) × (size < page_size) × (nalloc_pages size ≡ 2))
              ⊎ ((page_size ≤ size)
                  × (size ≤ nalloc_pages size * page_size)
                  × (nalloc_pages size * page_size < size + page_size))))
nalloc_pages_lem size h = (nalloc_pages_bounds size h, nalloc_pages_cases size h)
