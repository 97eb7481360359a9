-- ===== src/PimMem/Malloc/Laws.antt =====
-- What `pim_malloc` gives for a size of at most one huge page, once the library is set up.
use lut_pim_driver.Prelude.{
  ℕ, ◌+◌, ◌≤◌, ◌<◌, ◌≡◌, ◌⊎◌, inl, inr, refl, ap, ◌∙◌, [], ◌∷◌, ◌++◌, none, some, false, get_elem?,
  ltb, if◌then◌else◌, arith, length, Option-cases, u32,
}
use lut_pim_driver.PimMem.Driver.{ok, ◌>>=◌, Device}
use lut_pim_driver.PimMem.Pool.{MemPool, huge_page_size, num_pages}
use lut_pim_driver.PimMem.Pool.Laws.{IsPool}
use lut_pim_driver.PimMem.Malloc.{
  Allocator, Found, nalloc_pages, take_pages, search_from, extend_with, extend, malloc_small,
  malloc_in, ensure_init, pim_malloc,
}
use lut_pim_driver.PimMem.Malloc.Sizes.{nalloc_pages_bounds}
use lut_pim_driver.PimMem.Malloc.Search.{
  taken, IsPlaced, ArePools, search_from-IsPlaced, IsPlaced-ArePools, ArePools-append,
}
use lut_pim_driver.PimMem.Malloc.Grow.{
  HasRoom, next_pool, take_pages-next_pool, mem_pool_allocation_lem,
}

-- The state after an allocation of `n` pages in a pool that is there.
abbrev pub placed : Allocator → Found → Allocator
placed a f = record a { pools = f.pools; curr_mem_pool = some f.pos }

-- The state after an allocation of `n` pages in a pool that is added.
abbrev pub grown : Device → (n : ℕ) → Allocator → Allocator
grown dev n a = record a {
  driver = record a.driver { total_size = a.driver.total_size + huge_page_size };
  ntotal_mem_pools = u32 (a.ntotal_mem_pools + 1);
  pools = a.pools ++ taken (next_pool dev a.driver) 0 n ∷ [];
  curr_mem_pool = some (length a.pools);
}

-- The pages come from a pool that is there, or they are the first ones of a pool that is added.
abbrev pub IsAllocated : Device → (n : ℕ) → Allocator → ℕ × Allocator → Type 0
IsAllocated dev n a (addr, b) =
    ((f : Found) × IsPlaced n a.pools f × (addr ≡ f.addr) × (b ≡ placed a f))
    ⊎ (addr ≡ a.driver.pim_mem + a.driver.total_size) × (b ≡ grown dev n a)

extend_with_lem :
    (n : ℕ) (p : MemPool) (b : Allocator) (addr : ℕ) (p' : MemPool)
    → take_pages p n ≡ some (addr, p')
    → extend_with n (p, b)
      ≡ ok (addr, record b { pools = b.pools ++ p' ∷ []; curr_mem_pool = some (length b.pools) })
unfolding extend_with
extend_with_lem n p b addr p' h = rw (extend_with, h) refl

extend_lem :
    (dev : Device) (n : ℕ) (a : Allocator)
    → 0 < n
    → n ≤ num_pages
    → HasRoom a.driver
    → (extend dev n a ≡ ok (a.driver.pim_mem + a.driver.total_size, grown dev n a))
      × IsPool (taken (next_pool dev a.driver) 0 n)
unfolding extend
extend_lem dev n a pos le w =
    let (e, v) = take_pages-next_pool dev a.driver n pos le in
    (
      ap (λ r. r >>= extend_with n) (mem_pool_allocation_lem dev a w)
          ∙ extend_with_lem n (next_pool dev a.driver)
              (record a {
                driver = record a.driver { total_size = a.driver.total_size + huge_page_size };
                ntotal_mem_pools = u32 (a.ntotal_mem_pools + 1);
              })
              _ _ e,
      v,
    )

pub malloc_small_lem :
    (dev : Device) (size curr : ℕ) (a : Allocator)
    → 0 < nalloc_pages size
    → nalloc_pages size ≤ num_pages
    → ArePools a.pools
    → HasRoom a.driver
    → (out : ℕ × Allocator) × (malloc_small dev size curr a ≡ ok out)
      × IsAllocated dev (nalloc_pages size) a out
      × ArePools out.1.pools
unfolding malloc_small
malloc_small_lem dev size curr a pos le v w =
    let n = nalloc_pages size in
    let free : ℕ = elim (get_elem? a.pools curr) [ none ↦ 0 | some p ↦ p.nfree_pages ] in
    let from : ℕ = if ltb free n then 0 else curr in
    elim (Option-cases (search_from from n a.pools)) [
      | inr (f, e) ↦
          let p = search_from-IsPlaced from n a.pools f v pos e in
          (
            (f.addr, placed a f),
            rw (malloc_small, e) refl,
            inl (f, p, refl, refl),
            IsPlaced-ArePools n a.pools f v p,
          )
      | inl e ↦
          let (g, u) = extend_lem dev n a pos le w in
          (
            (a.driver.pim_mem + a.driver.total_size, grown dev n a),
            rw (malloc_small, e) g,
            inr (refl, refl),
            ArePools-append a.pools _ v (u, tt),
          )
    ]

pub malloc_in_small :
    (dev : Device) (size curr : ℕ) (a : Allocator)
    → size ≤ huge_page_size
    → malloc_in dev size (curr, a) ≡ malloc_small dev size curr a
unfolding malloc_in
malloc_in_small dev size curr a le =
    let small : ltb huge_page_size size ≡ false = ground arith in rw small refl

-- Once the library is set up, its pools are valid and the window has room for one more pool,
-- `pim_malloc` succeeds for each size from 1 to a huge page: the result is the first of a run of
-- free pages inside one pool, which are marked as used and recorded as one allocation while no
-- other pool changes, or of a fresh pool behind all others; the pools stay valid.
pub pim_malloc_small :
    (dev : Device) (size curr : ℕ) (a : Allocator)
    → 0 < size
    → size ≤ huge_page_size
    → a.curr_mem_pool ≡ some curr
    → ArePools a.pools
    → HasRoom a.driver
    → (out : ℕ × Allocator) × (pim_malloc dev size a ≡ ok out)
      × IsAllocated dev (nalloc_pages size) a out
      × ArePools out.1.pools
unfolding pim_malloc ensure_init
pim_malloc_small dev size curr a pos le c v w =
    let (lo, hi, fits, tight) = nalloc_pages_bounds size le in
    let (out, e, i, u) = malloc_small_lem dev size curr a lo hi v w in
    (
      out,
      ap (λ o. ensure_init dev a o >>= malloc_in dev size) c
          ∙ malloc_in_small dev size curr a le
          ∙ e,
      i,
      u,
    )
