-- ===== src/PimMem/Session/Outcomes.antt =====
-- What a call of `pim_malloc` that returns did, whatever room the window has.
use lut_pim_driver.Prelude.{
  ℕ, ◌+◌, ◌^◌, ◌≤◌, ◌<◌, ◌≡◌, ◌⊎◌, inl, inr, refl, ap, none, some, true, get_elem?, ltb,
  if◌then◌else◌, arith, Option-cases, u64, subst, lt→ltb,
}
use native.Mathlib.Decide.{dec_lt}
use lut_pim_driver.PimMem.Driver.{Result, ok, abort, ◌>>=◌, Driver, Device, mmap_drv}
use lut_pim_driver.PimMem.Pool.{MemPool, huge_page_size, num_pages}
use lut_pim_driver.PimMem.Malloc.{
  Allocator, nalloc_pages, search_from, mem_pool_allocation, extend_with, extend, malloc_small,
}
use lut_pim_driver.PimMem.Malloc.Search.{ArePools, search_from-IsPlaced, IsPlaced-ArePools}
use lut_pim_driver.PimMem.Malloc.Grow.{HasRoom}
use lut_pim_driver.PimMem.Malloc.Laws.{placed, IsAllocated, malloc_small_lem}

-- `first` returns a value on which `next` returns `last`.
abbrev pub BothReturn : {X Y : Type 0} → Result X → (X → Result Y) → Y → Type 0
BothReturn {X} first next last = (mid : X) × (first ≡ ok mid) × (next mid ≡ ok last)

pub chain-BothReturn :
    {X Y : Type 0} (first : Result X) (next : X → Result Y) {last : Y}
    → (first >>= next) ≡ ok last
    → BothReturn first next last
chain-BothReturn abort next returned = cc
chain-BothReturn (ok mid) next returned = (mid, refl, returned)

-- The window is mapped, and it ends far enough below 2 ^ 64.
pub record IsWindow (drv : Driver) : Type 0 where
  pub mapped : 0 < drv.pim_mem
  pub within : drv.total_size ≤ drv.pim_mem_size
  pub word : drv.pim_mem_size + huge_page_size < 2 ^ 64

pub HasRoom-cases :
    (drv : Driver)
    → IsWindow drv
    → HasRoom drv ⊎ (drv.pim_mem_size < drv.total_size + huge_page_size)
HasRoom-cases drv w = elim (dec_lt drv.pim_mem_size (drv.total_size + huge_page_size)) [
  | yes p ↦ inr p
  | no p ↦ inl (record { mapped = w.mapped; fits = omega arith; word = omega (arith, w.word) })
]

-- Without room for one more pool, the assertion fails.
pub mem_pool_allocation-full :
    (dev : Device) (a : Allocator)
    → IsWindow a.driver
    → a.driver.pim_mem_size < a.driver.total_size + huge_page_size
    → mem_pool_allocation dev a ≡ abort
unfolding mem_pool_allocation mmap_drv
mem_pool_allocation-full dev a w full =
    let e : u64 (a.driver.total_size + huge_page_size) ≡ a.driver.total_size + huge_page_size =
      omega (arith, w.within, w.word) in
    let t : ltb a.driver.pim_mem_size (a.driver.total_size + huge_page_size) ≡ true =
      lt→ltb _ _ full in
    rw (e, t) refl

-- A pool that was allocated is the next one of the window, and there was room for it.
pub mem_pool_allocation-HasRoom :
    (dev : Device) (a : Allocator) {out : MemPool × Allocator}
    → IsWindow a.driver
    → mem_pool_allocation dev a ≡ ok out
    → HasRoom a.driver
mem_pool_allocation-HasRoom dev a w h = elim (HasRoom-cases a.driver w) [
  | inl room ↦ room
  | inr full ↦ cc (mem_pool_allocation-full dev a w full)
]

extend-full :
    (dev : Device) (n : ℕ) (a : Allocator)
    → mem_pool_allocation dev a ≡ abort
    → extend dev n a ≡ abort
unfolding extend
extend-full dev n a h = ap (λ r. r >>= extend_with n) h

allocated_within :
    (dev : Device) (n : ℕ) (a : Allocator) (out : ℕ × Allocator)
    → HasRoom a.driver
    → IsAllocated dev n a out
    → out.1.driver.total_size ≤ out.1.driver.pim_mem_size
allocated_within dev n a out room (inl (f, p, addr, b)) = omega (
  arith,
  room.fits,
  ap (λ (t : Allocator). t.driver.total_size) b,
  ap (λ (t : Allocator). t.driver.pim_mem_size) b,
)
allocated_within dev n a out room (inr (addr, b)) = omega (
  arith,
  room.fits,
  ap (λ (t : Allocator). t.driver.total_size) b,
  ap (λ (t : Allocator). t.driver.pim_mem_size) b,
)

-- The pages come from a pool that is there, or from a pool that is added.
pub malloc_small-ok :
    (dev : Device) (size curr : ℕ) (a : Allocator) {out : ℕ × Allocator}
    → 0 < nalloc_pages size
    → nalloc_pages size ≤ num_pages
    → ArePools a.pools
    → IsWindow a.driver
    → malloc_small dev size curr a ≡ ok out
    → IsAllocated dev (nalloc_pages size) a out
      × ArePools out.1.pools
      × (out.1.driver.total_size ≤ out.1.driver.pim_mem_size)
unfolding malloc_small
malloc_small-ok dev size curr a {out} pos le v w h = elim (HasRoom-cases a.driver w) [
  | inl room ↦
      let (o, e, i, u) = malloc_small_lem dev size curr a pos le v room in
      let same : o ≡ out = cc in
      subst
        (λ (t : ℕ × Allocator).
          IsAllocated dev (nalloc_pages size) a t
          × ArePools t.1.pools
          × (t.1.driver.total_size ≤ t.1.driver.pim_mem_size))
        same (i, u, allocated_within dev (nalloc_pages size) a o room i)
  | inr full ↦
      let n = nalloc_pages size in
      let free : ℕ = elim (get_elem? a.pools curr) [ none ↦ 0 | some p ↦ p.nfree_pages ] in
      let from : ℕ = if ltb free n then 0 else curr in
      elim (Option-cases (search_from from n a.pools)) [
        | inr (f, e) ↦
            let p = search_from-IsPlaced from n a.pools f v pos e in
            let same : ok (f.addr, placed a f) ≡ ok out = rw (e, malloc_small) at h in
            let g : (f.addr, placed a f) ≡ out = cc in
            subst
              (λ (t : ℕ × Allocator).
                IsAllocated dev n a t
                × ArePools t.1.pools
                × (t.1.driver.total_size ≤ t.1.driver.pim_mem_size))
              g (inl (f, p, refl, refl), IsPlaced-ArePools n a.pools f v p, w.within)
        | inl e ↦
            let stop : extend dev n a ≡ ok out = rw (e, malloc_small) at h in
            let none_left = extend-full dev n a (mem_pool_allocation-full dev a w full) in cc
      ]
]
