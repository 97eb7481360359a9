-- ===== src/PimMem/Malloc/Grow.antt =====
-- The pool that `_mem_pool_allocation` adds, and its first pages.
use lut_pim_driver.Prelude.{
  ℕ, zero, suc, ◌+◌, ◌^◌, ◌≤◌, ◌<◌, ◌≡◌, inl, refl, ap, ◌∙◌, some, true, false, ltb, arith,
  replicate, u32, u64, sub_u32, ◌==◌,
}
use lut_pim_driver.PimMem.BitVector.{free_page, starts_with, strstr, find_pages, fill, used_page}
use lut_pim_driver.PimMem.Driver.{ok, Driver, Device, mmap_drv}
use lut_pim_driver.PimMem.Pool.{MemPool, huge_page_size, num_pages, new_pool, pages, set_bit_vector}
use lut_pim_driver.PimMem.Pool.Laws.{IsPool, new_pool-IsPool, set_bit_vector_lem}
use lut_pim_driver.PimMem.Malloc.{
  Allocator, mem_pool_allocation, take_pages, page_addr, set_alloc_size,
}
use lut_pim_driver.PimMem.Malloc.Search.{taken, set_alloc_size-IsPool}

-- The window has room for one more pool.
pub record HasRoom (drv : Driver) : Type 0 where
  pub mapped : 0 < drv.pim_mem
  pub fits : drv.total_size + huge_page_size ≤ drv.pim_mem_size
  pub word : drv.pim_mem_size < 2 ^ 64

-- The pool that the next allocation of one adds.
unfoldable pub next_pool : Device → Driver → MemPool
next_pool dev drv = new_pool dev.uninit (drv.pim_mem + drv.total_size) num_pages false

starts_with-replicate : (m n v : ℕ) → n ≤ m → starts_with (replicate m v) (replicate n v) ≡ true
unfolding starts_with
starts_with-replicate m zero v h = refl
starts_with-replicate zero (suc n) v h = absurd (omega arith)
starts_with-replicate (suc m) (suc n) v h =
    let e : (v == v) ≡ true = ground arith in rw e (starts_with-replicate m n v (omega arith))

find_pages-replicate : (m n : ℕ) → n ≤ suc m → find_pages (replicate (suc m) free_page) 0 n ≡ some 0
unfolding find_pages strstr
find_pages-replicate m n h =
    let e = starts_with-replicate (suc m) n free_page h in rw (find_pages, e) refl

-- A pool with no page in use gives its first `n` pages.
take_pages_fresh :
    (p : MemPool) (n : ℕ)
    → IsPool p
    → p.bit_vector ≡ replicate num_pages free_page
    → p.curr_idx ≡ 0
    → 0 < n
    → n ≤ num_pages
    → n ≤ p.nfree_pages
    → (take_pages p n ≡ some (page_addr p 0, taken p 0 n)) × IsPool (taken p 0 n)
unfolding take_pages set_bit_vector
take_pages_fresh p n v b c pos le counted =
    let e : find_pages p.bit_vector p.curr_idx n ≡ some 0 =
      rw (b, c) (find_pages-replicate 511 n le) in
    let h : set_bit_vector p n
        ≡ some (
          0,
          record p {
            bit_vector = fill p.bit_vector 0 n used_page;
            nfree_pages = sub_u32 p.nfree_pages n;
            curr_idx = u32 (0 + n);
          },
        ) =
      rw (e, set_bit_vector) refl in
    let (r, inside, same, w) = set_bit_vector_lem p n 0 _ v pos counted h in
    (
      rw (h, take_pages) (ap (λ q. some (page_addr p 0, set_alloc_size q 0 n)) same),
      set_alloc_size-IsPool _ 0 n (rw same at w),
    )

pub next_pool-IsPool : (dev : Device) (drv : Driver) → IsPool (next_pool dev drv)
unfolding next_pool
next_pool-IsPool dev drv = new_pool-IsPool dev.uninit _ num_pages false (inl (refl, refl))

pub next_pool_fields :
    (dev : Device) (drv : Driver)
    → ((next_pool dev drv).bit_vector ≡ replicate num_pages free_page)
      × ((next_pool dev drv).curr_idx ≡ 0)
      × ((next_pool dev drv).nfree_pages ≡ num_pages)
unfolding next_pool new_pool
next_pool_fields dev drv = (refl, refl, refl)

pub start_va-next_pool :
    (dev : Device) (drv : Driver) → (next_pool dev drv).start_va ≡ drv.pim_mem + drv.total_size
unfolding next_pool new_pool
start_va-next_pool dev drv = refl

pub page_addr-next_pool :
    (dev : Device) (drv : Driver) → page_addr (next_pool dev drv) 0 ≡ drv.pim_mem + drv.total_size
unfolding next_pool new_pool pages
page_addr-next_pool dev drv = omega arith

pub take_pages-next_pool :
    (dev : Device) (drv : Driver) (n : ℕ)
    → 0 < n
    → n ≤ num_pages
    → (take_pages (next_pool dev drv) n
        ≡ some (drv.pim_mem + drv.total_size, taken (next_pool dev drv) 0 n))
      × IsPool (taken (next_pool dev drv) 0 n)
take_pages-next_pool dev drv n pos le =
    let (b, c, f) = next_pool_fields dev drv in
    let (e, v) =
      take_pages_fresh (next_pool dev drv) n (next_pool-IsPool dev drv) b c pos le
        (omega (arith, f)) in
    (e ∙ ap (λ addr. some (addr, taken (next_pool dev drv) 0 n)) (page_addr-next_pool dev drv), v)

pub mem_pool_allocation_lem :
    (dev : Device) (a : Allocator)
    → HasRoom a.driver
    → mem_pool_allocation dev a
      ≡ ok (
        next_pool dev a.driver,
        record a {
          driver = record a.driver { total_size = a.driver.total_size + huge_page_size };
          ntotal_mem_pools = u32 (a.ntotal_mem_pools + 1);
        },
      )
unfolding mem_pool_allocation mmap_drv next_pool
mem_pool_allocation_lem dev a w =
    let e : u64 (a.driver.total_size + huge_page_size) ≡ a.driver.total_size + huge_page_size =
      omega (arith, w.fits, w.word) in
    let room : ltb a.driver.pim_mem_size (a.driver.total_size + huge_page_size) ≡ false =
      ground (arith, w.fits) in
    let some_va : (a.driver.pim_mem + a.driver.total_size == 0) ≡ false =
      ground (arith, w.mapped) in
    rw (e, room, some_va) refl
