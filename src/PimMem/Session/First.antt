-- ===== src/PimMem/Session/First.antt =====
-- The first call of `pim_malloc` in src/mem_src/pim_mem.c, and the call after `_real_free`.
use lut_pim_driver.Prelude.{
  ℕ, ◌+◌, ◌≤◌, ◌≡◌, refl, subst, sym, List, [], ◌∷◌, some, true, arith, u32,
}
use lut_pim_driver.PimMem.Driver.{ok, Device, Driver, init_pim_drv}
use lut_pim_driver.PimMem.Pool.{huge_page_size}
use lut_pim_driver.PimMem.Malloc.{Allocator, first_call, mem_pool_allocation}
use lut_pim_driver.PimMem.Malloc.Grow.{next_pool, mem_pool_allocation_lem}
use lut_pim_driver.PimMem.Session.{Block}
use lut_pim_driver.PimMem.Session.Outcomes.{chain-BothReturn, mem_pool_allocation-HasRoom}
use lut_pim_driver.PimMem.Session.Invariant.{AreHeld, next_pool-AreHeld}
use lut_pim_driver.PimMem.Session.Given.{IsDevice, IsSetUp, started-IsWindow}

init_pim_drv_lem :
    (dev : Device) (d drv : Driver)
    → init_pim_drv dev d ≡ ok drv
    → drv ≡ record d { pim_mem_fd = true; pim_mem_size = dev.info_size; pim_mem = dev.mapped }
unfolding init_pim_drv
init_pim_drv_lem dev d drv h = ground arith

-- The library that the first call leaves for the allocation.
abbrev pub first_state : Device → Allocator → Driver → Allocator
first_state dev a drv = record {
  ntotal_mem_pools = u32 (a.ntotal_mem_pools + 1);
  curr_mem_pool = some 0;
  pools = next_pool dev drv ∷ [];
  driver = record drv { total_size = drv.total_size + huge_page_size };
}

abbrev pub opened : Device → Driver → Driver
opened dev d = record d { pim_mem_fd = true; pim_mem_size = dev.info_size; pim_mem = dev.mapped }

module _ (dev : Device) (d : IsDevice dev) where
  first_call_lem :
      (a : Allocator) (curr : ℕ) (b : Allocator)
      → a.driver.total_size ≤ dev.info_size
      → first_call dev a ≡ ok (curr, b)
      → (b ≡ first_state dev a (opened dev a.driver))
        × (a.driver.total_size + huge_page_size ≤ dev.info_size)
  unfolding first_call
  first_call_lem a curr b t h =
      let (drv, e1, h1) = chain-BothReturn (init_pim_drv dev a.driver) _ h in
      let same = init_pim_drv_lem dev a.driver drv e1 in
      let a1 : Allocator = record a { driver = opened dev a.driver } in
      let (o, e, h2) =
        chain-BothReturn (mem_pool_allocation dev (record a { driver = drv })) _ h1 in
      let e2 : mem_pool_allocation dev a1 ≡ ok o =
        subst (λ x. mem_pool_allocation dev (record a { driver = x }) ≡ ok o) same e in
      let room = mem_pool_allocation-HasRoom dev a1 (started-IsWindow dev d a1 refl refl t) e2 in
      let e3 = mem_pool_allocation_lem dev a1 room in
      let e4 : o ≡ (
        next_pool dev a1.driver,
        record a1 {
          driver = record a1.driver { total_size = a1.driver.total_size + huge_page_size };
          ntotal_mem_pools = u32 (a1.ntotal_mem_pools + 1);
        },
      ) =
        cc in
      (ground (arith, h2, e4), room.fits)

  -- It leaves one unused pool, and the blocks of the session are held.
  pub first_call-AreHeld :
      (a : Allocator) (live : List Block) (curr : ℕ) (b : Allocator)
      → a.pools ≡ []
      → a.driver.total_size ≤ dev.info_size
      → AreHeld dev.mapped (dev.mapped + a.driver.total_size) a.pools live
      → first_call dev a ≡ ok (curr, b)
      → IsSetUp dev b
        × (b.driver.total_size ≤ dev.info_size)
        × AreHeld dev.mapped (dev.mapped + b.driver.total_size) b.pools live
  first_call-AreHeld a live curr b p t w h =
      let (e, room) = first_call_lem a curr b t h in
      let drv = opened dev a.driver in
      let a1 : Allocator = record a { driver = drv; pools = [] } in
      let held =
        next_pool-AreHeld dev dev.mapped a1 live
          (subst (λ ps. AreHeld dev.mapped (dev.mapped + a.driver.total_size) ps live) p w) in
      let far : dev.mapped + a.driver.total_size + huge_page_size
          ≡ dev.mapped + (a.driver.total_size + huge_page_size) =
        omega arith in
      subst
        (λ (x : Allocator).
          IsSetUp dev x
          × (x.driver.total_size ≤ dev.info_size)
          × AreHeld dev.mapped (dev.mapped + x.driver.total_size) x.pools live)
        (sym e)
        (
          (refl, refl),
          room,
          subst (λ h. AreHeld dev.mapped h (next_pool dev drv ∷ []) live) far held,
        )
