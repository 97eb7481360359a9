-- ===== src/PimMem/Session/Live.antt =====
-- `pim_malloc` of src/mem_src/pim_mem.c succeeds in every session while the window has room.
use lut_pim_driver.Prelude.{
  ℕ, ◌+◌, ◌*◌, ◌≤◌, ◌<◌, ◌≡◌, ◌≢◌, inl, inr, refl, ap, ◌∙◌, true, false, ◌==◌, arith,
}
use lut_pim_driver.PimMem.Driver.{ok, ◌>>=◌, Device, Driver, init_pim_drv}
use lut_pim_driver.PimMem.Pool.{huge_page_size}
use lut_pim_driver.PimMem.Malloc.{Allocator, pim_malloc, ensure_init, first_call, malloc_in}
use lut_pim_driver.PimMem.Malloc.Sizes.{nalloc_pages_bounds}
use lut_pim_driver.PimMem.Malloc.Search.{ArePools}
use lut_pim_driver.PimMem.Malloc.Grow.{HasRoom, mem_pool_allocation_lem}
use lut_pim_driver.PimMem.Malloc.Laws.{malloc_small_lem, malloc_in_small}
use lut_pim_driver.PimMem.Session.{Session, Reach}
use lut_pim_driver.PimMem.Session.Given.{IsDevice, IsSetUp, IsLoaded, IsLoaded-IsSession}
use lut_pim_driver.PimMem.Session.First.{opened, first_state, first_call-AreHeld}
use lut_pim_driver.PimMem.Session.Laws.{Reach-IsSession}

-- The device can be opened, and it says where its memory is.
pub record Answers (dev : Device) : Type 0 where
  pub opens : dev.opens ≡ true
  pub placed : dev.info_addr ≢ 0

module _ (dev : Device) (d : IsDevice dev) where
  set_up-HasRoom :
      (a : Allocator)
      → IsSetUp dev a
      → a.driver.total_size + huge_page_size ≤ dev.info_size
      → HasRoom a.driver
  set_up-HasRoom a u le = record {
    mapped = omega (arith, u.0, d.mapped);
    fits = omega (arith, u.1);
    word = omega (arith, u.1, d.word);
  }

  malloc_in_live :
      (a : Allocator) (size curr : ℕ)
      → size ≤ huge_page_size
      → ArePools a.pools
      → HasRoom a.driver
      → (out : ℕ × Allocator) × (malloc_in dev size (curr, a) ≡ ok out)
  malloc_in_live a size curr le v room =
      let (lo, hi, fits, tight) = nalloc_pages_bounds size le in
      let (out, e, i, u) = malloc_small_lem dev size curr a lo hi v room in
      (out, malloc_in_small dev size curr a le ∙ e)

  init_live :
      (drv : Driver) → Answers dev → 0 < dev.info_size → init_pim_drv dev drv ≡ ok (opened dev drv)
  unfolding init_pim_drv
  init_live drv w pos =
      let at : (dev.info_addr == 0) ≡ false = ground (arith, w.placed) in
      let some_size : (dev.info_size == 0) ≡ false = ground arith in
      rw (w.opens, at, some_size) refl

  first_call_live :
      (a : Allocator)
      → Answers dev
      → a.driver.total_size + huge_page_size ≤ dev.info_size
      → first_call dev a ≡ ok (0, first_state dev a (opened dev a.driver))
  unfolding first_call
  first_call_live a w le =
      let b : Allocator = record a { driver = opened dev a.driver } in
      let room = set_up-HasRoom b (refl, refl) le in
      let init = init_live a.driver w (omega arith) in
      rw (init, mem_pool_allocation_lem dev b room) refl

-- After any sequence of calls from the library as it is loaded, if the device answers and the
-- window has room for two more pools, `pim_malloc` succeeds for each size of at most one huge page.
pub pim_malloc_live :
    (dev : Device) (s t : Session) (size : ℕ)
    → IsDevice dev
    → Answers dev
    → IsLoaded s
    → Reach dev s t
    → size ≤ huge_page_size
    → t.alloc.driver.total_size + 2 * huge_page_size ≤ dev.info_size
    → (out : ℕ × Allocator) × (pim_malloc dev size t.alloc ≡ ok out)
unfolding pim_malloc ensure_init
pim_malloc_live dev s t size d answers v r le room =
    let w = Reach-IsSession dev d r (IsLoaded-IsSession dev s v) in
    let a = t.alloc in
    elim w.started [
      | inr (curr, set, u) ↦
          let (out, e) =
            malloc_in_live dev d a size curr le w.blocks.valid
              (set_up-HasRoom dev d a u (omega arith)) in
          (out, ap (λ x. ensure_init dev a x >>= malloc_in dev size) set ∙ e)
      | inl (unset, no_pool) ↦
          let first = first_call_live dev d a answers (omega arith) in
          let b = first_state dev a (opened dev a.driver) in
          let (u, within, held) =
            first_call-AreHeld dev d a t.live 0 b no_pool w.total w.blocks first in
          let (out, e) =
            malloc_in_live dev d b size 0 le held.valid (set_up-HasRoom dev d b u (omega arith)) in
          (
            out,
            ap (λ x. ensure_init dev a x >>= malloc_in dev size) unset
                ∙ ap (λ x. x >>= malloc_in dev size) first
                ∙ e,
          )
    ]
