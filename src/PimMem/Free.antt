-- ===== src/PimMem/Free.antt =====
-- `pim_free` and `_real_free` of src/mem_src/pim_mem.c.
pub mod Walk
pub mod Laws
use lut_pim_driver.Prelude.{
  ℕ, zero, suc, ◌+◌, ◌-◌, ◌/◌, List, [], ◌∷◌, none, some, Bool, false, ◌&&◌, ◌==◌, leb,
  if◌then◌else◌, get_elem?,
}
use lut_pim_driver.PimMem.Driver.{Result, ok, abort, ◌>>=◌, release_pim_drv}
use lut_pim_driver.PimMem.Pool.{MemPool, Page, huge_page_size, page_size, num_pages, clr_bit_vector}
use lut_pim_driver.PimMem.Malloc.{Allocator}

-- The address lies in the pool.
abbrev pub holds : MemPool → ℕ → Bool
holds p addr = leb p.start_va addr && leb addr (p.start_va + huge_page_size - 1)

-- The loop at the label `need_free`: up to and with the first pool without the flag.
unfoldable pub free_large : List MemPool → List MemPool
free_large [] = []
free_large (p ∷ ps) =
    if p.large_mem_pool
    then record p { nfree_pages = num_pages; large_mem_pool = false } ∷ free_large ps
    else record p { nfree_pages = num_pages } ∷ ps

abbrev pub alloc_size_at : List Page → (idx : ℕ) → ℕ
alloc_size_at [] idx = 0
alloc_size_at (page ∷ s) zero = page.alloc_size
alloc_size_at (page ∷ s) (suc idx) = alloc_size_at s idx

-- The pages that the address was given for; a size of 0 fails an `assert`.
unfoldable pub free_small : (addr : ℕ) → MemPool → Result MemPool
unfolding clr_bit_vector
free_small addr p =
    let page_idx = (addr - p.start_va) / page_size in
    let free_size = alloc_size_at p.head_page page_idx in
    if free_size == 0 then abort else ok (clr_bit_vector p page_idx free_size)

-- The walk over the pools; an address in none of them fails an `assert`.
unfoldable pub free_in : (addr : ℕ) → List MemPool → Result (List MemPool)
unfolding free_large free_small
free_in addr [] = abort
free_in addr (p ∷ ps) =
    let rest = free_in addr ps in
    if holds p addr
    then (if p.large_mem_pool
        then ok (free_large (p ∷ ps))
        else (free_small addr p >>= λ p'. ok (p' ∷ ps)))
    else (rest >>= λ qs. ok (p ∷ qs))

unfoldable pub pim_free : (addr : ℕ) → Allocator → Result Allocator
unfolding free_in
pim_free addr a = free_in addr a.pools >>= λ ps. ok (record a { pools = ps })

-- `_real_free`: the pools go, and the window is unmapped.
unfoldable pub real_free : Allocator → Allocator
unfolding release_pim_drv
real_free a = record a {
  ntotal_mem_pools = 0;
  curr_mem_pool = none;
  pools = [];
  driver = release_pim_drv a.driver;
}
