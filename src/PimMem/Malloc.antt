-- ===== src/PimMem/Malloc.antt =====
-- `pim_malloc` of src/mem_src/pim_mem.c. The doubly linked list of pools is a list from head to
-- tail, and a pointer to a pool is its position.
pub mod Sizes
pub mod Search
pub mod Grow
pub mod Laws
pub mod Large
use lut_pim_driver.Prelude.{
  ℕ, zero, suc, ◌+◌, ◌-◌, ◌*◌, ◌/◌, ◌%◌, List, [], ◌∷◌, ◌++◌, Option, none, some, Bool, true, false,
  ◌&&◌, ◌==◌, ltb, leb, if◌then◌else◌, u32, sub_u32, length, get_elem?, set,
}
use mathlib.Core.Bool.{not}
use lut_pim_driver.PimMem.Driver.{Result, ok, abort, ◌>>=◌, Driver, Device, mmap_drv, init_pim_drv}
use lut_pim_driver.PimMem.Pool.{
  MemPool, Page, huge_page_size, page_size, num_pages, new_pool, set_bit_vector,
}

-- `pim_mem`, and the state of the driver interface.
pub record Allocator : Type 0 where
  pub ntotal_mem_pools : ℕ
  pub curr_mem_pool : Option ℕ
  pub pools : List MemPool
  pub driver : Driver

-- `nalloc_pages`: below one page, a size that is not 0 counts as two.
unfoldable pub nalloc_pages : ℕ → ℕ
nalloc_pages size =
    let n = if size / page_size == 0 then 1 else u32 (size / page_size) in
    if size % page_size == 0 then n else u32 (n + 1)

abbrev pub page_addr_of : Option Page → ℕ
page_addr_of none = 0
page_addr_of (some page) = page.addr

abbrev pub page_addr : MemPool → ℕ → ℕ
page_addr p idx = page_addr_of (get_elem? p.head_page idx)

-- `head_page[idx].alloc_size = n`.
abbrev pub set_page_size : List Page → (idx n : ℕ) → List Page
set_page_size [] idx n = []
set_page_size (page ∷ s) zero n = record page { alloc_size = n } ∷ s
set_page_size (page ∷ s) (suc idx) n = page ∷ set_page_size s idx n

abbrev pub set_alloc_size : MemPool → (idx n : ℕ) → MemPool
set_alloc_size p idx n = record p { head_page = set_page_size p.head_page idx n }

-- `_mem_pool_allocation`; the calls of `malloc` succeed.
unfoldable pub mem_pool_allocation : Device → Allocator → Result (MemPool × Allocator)
unfolding mmap_drv
mem_pool_allocation dev a = mmap_drv a.driver huge_page_size >>= λ (va, drv).
    if va == 0
    then abort
    else ok (
      new_pool dev.uninit va num_pages false,
      record a { driver = drv; ntotal_mem_pools = u32 (a.ntotal_mem_pools + 1) },
    )

-- The pools `i`, ..., of a large allocation: all but the last one keep the flag.
unfoldable pub large_pools : (uninit : ℕ → ℕ) (va i n : ℕ) → List MemPool
large_pools uninit va i zero = []
large_pools uninit va i (suc n) =
    new_pool uninit (va + i * huge_page_size) 0 (not (n == 0)) ∷ large_pools uninit va (i + 1) n

abbrev pub set_first_alloc_size : List MemPool → List MemPool
set_first_alloc_size [] = []
set_first_alloc_size (p ∷ ps) = set_alloc_size p 0 num_pages ∷ ps

-- `_large_mem_pool_allocation`, with the position of the first pool that it appends.
unfoldable pub large_mem_pool_allocation : Device → (num : ℕ) → Allocator → Result (ℕ × Allocator)
unfolding mmap_drv large_pools
large_mem_pool_allocation dev num a =
    mmap_drv a.driver (u32 (huge_page_size * num)) >>= λ (va, drv).
    if va == 0
    then abort
    else ok (
      length a.pools,
      record a {
        driver = drv;
        ntotal_mem_pools = u32 (a.ntotal_mem_pools + num);
        pools = a.pools ++ set_first_alloc_size (large_pools dev.uninit va 0 num);
      },
    )

-- The walk over the pools from the tail on: `prev` is the one before, `pos` the position. The
-- result is the position of the first pool of a free stretch of `num`.
unfoldable pub search_large : (num cnt pos : ℕ) → Option MemPool → List MemPool → Option ℕ
search_large num cnt pos prev [] = none
search_large num cnt pos prev (p ∷ ps) =
    let before : Bool = elim prev [ none ↦ false | some q ↦ q.nfree_pages == num_pages ] in
    let cnt' : ℕ = if (p.nfree_pages == num_pages) && before then u32 (cnt + 1) else 0 in
    let rest = search_large num cnt' (pos + 1) (some p) ps in
    if cnt' == sub_u32 num 1 then some (pos - 1) else rest

-- `list_for_next_value`: the pools from `pos` on, `num` of them, are one large allocation.
unfoldable pub mark_large : (pos num : ℕ) → List MemPool → List MemPool
mark_large pos num [] = []
mark_large zero zero (p ∷ ps) = p ∷ ps
mark_large zero (suc num) (p ∷ ps) =
    record p { large_mem_pool = true; nfree_pages = 0 } ∷ mark_large zero num ps
mark_large (suc pos) num (p ∷ ps) = p ∷ mark_large pos num ps

-- The walk starts at the tail.
unfoldable pub find_large : (num : ℕ) → List MemPool → Option ℕ
unfolding search_large
find_large num pools =
    let tail = length pools - 1 in
    elim (get_elem? pools tail) [
      | none ↦ none
      | some p ↦
          search_large num 0 tail (if tail == 0 then none else get_elem? pools (tail - 1)) (p ∷ [])
    ]

abbrev pub num_mem_pool : ℕ → ℕ
num_mem_pool size =
    if size % huge_page_size == 0
    then u32 (size / huge_page_size)
    else u32 (size / huge_page_size + 1)

abbrev pub first_page_addr : List MemPool → ℕ → ℕ
first_page_addr pools pos = elim (get_elem? pools pos) [ none ↦ 0 | some p ↦ page_addr p 0 ]

-- The branch for more than one huge page.
unfoldable pub malloc_large : Device → (size : ℕ) → Allocator → Result (ℕ × Allocator)
unfolding find_large mark_large large_mem_pool_allocation
malloc_large dev size a = elim (find_large (num_mem_pool size) a.pools) [
  | some pos ↦ ok (
    first_page_addr a.pools pos,
    record a { curr_mem_pool = some pos; pools = mark_large pos (num_mem_pool size) a.pools },
  )
  | none ↦ large_mem_pool_allocation dev (num_mem_pool size) a >>= λ (pos, b).
      ok (first_page_addr b.pools pos, record b { curr_mem_pool = some pos })
]

-- A pool that has given `n` pages: the address of the first one, and the pool.
unfoldable pub take_pages : MemPool → (n : ℕ) → Option (ℕ × MemPool)
unfolding set_bit_vector
take_pages p n = elim (set_bit_vector p n) [
  | none ↦ none
  | some (idx, p') ↦ some (page_addr p' idx, set_alloc_size p' idx n)
]

-- What the walk over the pools finds.
pub record Found : Type 0 where
  pub pos : ℕ
  pub addr : ℕ
  pub pools : List MemPool

abbrev pub skip : MemPool → Option Found → Option Found
skip p none = none
skip p (some f) = some (record { pos = f.pos + 1; addr = f.addr; pools = p ∷ f.pools })

-- The loop at the label `find_mem_pool`: the first pool that counts enough free pages and has
-- them in one run.
unfoldable pub search : (n : ℕ) → List MemPool → Option Found
unfolding take_pages
search n [] = none
search n (p ∷ ps) =
    let rest = skip p (search n ps) in
    if leb n p.nfree_pages
    then elim (take_pages p n) [
      | some (addr, p') ↦ some (record { pos = 0; addr = addr; pools = p' ∷ ps })
      | none ↦ rest
    ]
    else rest

-- The same from position `start` on.
unfoldable pub search_from : (start n : ℕ) → List MemPool → Option Found
unfolding search
search_from zero n ps = search n ps
search_from (suc start) n [] = none
search_from (suc start) n (p ∷ ps) = skip p (search_from start n ps)

-- The pool list grows by one pool, which gives the pages. A fresh pool has every run of up to
-- 512 pages, so the last case is not reached.
unfoldable pub extend_with : (n : ℕ) → MemPool × Allocator → Result (ℕ × Allocator)
unfolding take_pages
extend_with n (p, b) = elim (take_pages p n) [
  | some (addr, p') ↦
      ok (addr, record b { pools = b.pools ++ p' ∷ []; curr_mem_pool = some (length b.pools) })
  | none ↦ abort
]

unfoldable pub extend : Device → (n : ℕ) → Allocator → Result (ℕ × Allocator)
unfolding mem_pool_allocation extend_with
extend dev n a = mem_pool_allocation dev a >>= extend_with n

-- The branch for at most one huge page: the walk starts at the current pool if that counts
-- enough free pages, and at the head if not.
unfoldable pub malloc_small : Device → (size curr : ℕ) → Allocator → Result (ℕ × Allocator)
unfolding search_from extend nalloc_pages
malloc_small dev size curr a =
    let n = nalloc_pages size in
    let free : ℕ = elim (get_elem? a.pools curr) [ none ↦ 0 | some p ↦ p.nfree_pages ] in
    elim (search_from (if ltb free n then 0 else curr) n a.pools) [
      | some f ↦ ok (f.addr, record a { pools = f.pools; curr_mem_pool = some f.pos })
      | none ↦ extend dev n a
    ]

-- The first call sets the driver up and makes the first pool.
unfoldable pub first_call : Device → Allocator → Result (ℕ × Allocator)
unfolding init_pim_drv mem_pool_allocation
first_call dev a = init_pim_drv dev a.driver >>= λ drv.
    mem_pool_allocation dev (record a { driver = drv }) >>= λ (p, b).
    ok (0, record b { pools = p ∷ []; curr_mem_pool = some 0 })

-- `if (pim_mem.curr_mem_pool == NULL)`.
unfoldable pub ensure_init : Device → Allocator → Option ℕ → Result (ℕ × Allocator)
unfolding first_call
ensure_init dev a (some curr) = ok (curr, a)
ensure_init dev a none = first_call dev a

unfoldable pub malloc_in : Device → (size : ℕ) → ℕ × Allocator → Result (ℕ × Allocator)
unfolding malloc_large malloc_small
malloc_in dev size (curr, b) =
    if ltb huge_page_size size then malloc_large dev size b else malloc_small dev size curr b

unfoldable pub pim_malloc : Device → (size : ℕ) → Allocator → Result (ℕ × Allocator)
unfolding ensure_init malloc_in
pim_malloc dev size a = ensure_init dev a a.curr_mem_pool >>= malloc_in dev size
