-- ===== src/PimMem/Session/Given.antt =====
-- The invariant of a session of the allocator of src/mem_src/pim_mem.c, and that a block from the
-- pools keeps it.
use lut_pim_driver.Prelude.{
  ℕ, ◌+◌, ◌^◌, ◌≤◌, ◌<◌, ◌≡◌, ◌⊎◌, inl, inr, refl, ap, ap₂, subst, sym, [], ◌∷◌, none, some, arith,
  length,
}
use lut_pim_driver.PimMem.Driver.{ok, Device}
use lut_pim_driver.PimMem.Pool.{huge_page_size, num_pages}
use lut_pim_driver.PimMem.Malloc.{Allocator, Found, nalloc_pages, malloc_small}
use lut_pim_driver.PimMem.Malloc.Sizes.{nalloc_pages_bounds}
use lut_pim_driver.PimMem.Malloc.Search.{ArePools, IsPlaced}
use lut_pim_driver.PimMem.Malloc.Laws.{placed, grown}
use lut_pim_driver.PimMem.Session.{Session}
use lut_pim_driver.PimMem.Session.Outcomes.{IsWindow, malloc_small-ok}
use lut_pim_driver.PimMem.Session.Invariant.{AreHeld, IsPlaced-AreHeld, grown-AreHeld}

-- The window that the device gives: it is not at NULL, and its size is far enough below 2 ^ 64.
pub record IsDevice (dev : Device) : Type 0 where
  pub mapped : 0 < dev.mapped
  pub word : dev.info_size + huge_page_size < 2 ^ 64

abbrev pub IsSetUp : Device → Allocator → Type 0
IsSetUp dev a = (a.driver.pim_mem ≡ dev.mapped) × (a.driver.pim_mem_size ≡ dev.info_size)

-- The session once a call gave a block of `n` pages.
abbrev pub given : (n : ℕ) → Session → ℕ × Allocator → Session
given n s (addr, b) = record { alloc = b; live = record { addr = addr; npages = n } ∷ s.live }

-- The library is set up for the window, or it has no pool.
abbrev pub IsStarted : Device → Allocator → Type 0
IsStarted dev a =
    ((a.curr_mem_pool ≡ none) × (a.pools ≡ []))
    ⊎ ((curr : ℕ) × (a.curr_mem_pool ≡ some curr) × IsSetUp dev a)

pub record IsSession (dev : Device) (s : Session) : Type 0 where
  pub started : IsStarted dev s.alloc
  pub total : s.alloc.driver.total_size ≤ dev.info_size
  pub blocks : AreHeld dev.mapped (dev.mapped + s.alloc.driver.total_size) s.alloc.pools s.live

-- The library as it is loaded: no pool, and no part of the window handed out.
pub record IsLoaded (s : Session) : Type 0 where
  pub unset : s.alloc.curr_mem_pool ≡ none
  pub no_pool : s.alloc.pools ≡ []
  pub nothing_live : s.live ≡ []
  pub window : s.alloc.driver.total_size ≡ 0

pub no_blocks : (lo hi : ℕ) → lo ≤ hi → AreHeld lo hi [] []
no_blocks lo hi le = record { valid = tt; small = tt; apart = le; held = tt; disjoint = tt }

pub IsLoaded-IsSession : (dev : Device) (s : Session) → IsLoaded s → IsSession dev s
IsLoaded-IsSession dev s w = record {
  started = inl (w.unset, w.no_pool);
  total = omega (arith, w.window);
  blocks = rw (w.no_pool, w.nothing_live) (no_blocks _ _ (omega arith));
}

module _ (dev : Device) (d : IsDevice dev) where
  pub started-IsWindow :
      (a : Allocator)
      → a.driver.pim_mem ≡ dev.mapped
      → a.driver.pim_mem_size ≡ dev.info_size
      → a.driver.total_size ≤ dev.info_size
      → IsWindow a.driver
  started-IsWindow a m z t = record {
    mapped = omega (arith, d.mapped);
    within = omega arith;
    word = omega (arith, d.word);
  }

  -- A call once the library is set up.
  placed-IsSession :
      (n : ℕ) (s : Session) (f : Found)
      → 0 < n
      → IsSetUp dev s.alloc
      → s.alloc.driver.total_size ≤ dev.info_size
      → AreHeld dev.mapped (dev.mapped + s.alloc.driver.total_size) s.alloc.pools s.live
      → ArePools f.pools
      → IsPlaced n s.alloc.pools f
      → IsSession dev (given n s (f.addr, placed s.alloc f))
  placed-IsSession n s f pos u t w v p = record {
    started = inr (f.pos, refl, u);
    total = t;
    blocks =
        IsPlaced-AreHeld dev.mapped (dev.mapped + s.alloc.driver.total_size) n s.alloc.pools s.live
          f pos v p w;
  }

  grown-IsSession :
      (n : ℕ) (s : Session)
      → 0 < n
      → n ≤ num_pages
      → IsSetUp dev s.alloc
      → s.alloc.driver.total_size + huge_page_size ≤ dev.info_size
      → AreHeld dev.mapped (dev.mapped + s.alloc.driver.total_size) s.alloc.pools s.live
      → ArePools (grown dev n s.alloc).pools
      → IsSession dev
          (given n s (s.alloc.driver.pim_mem + s.alloc.driver.total_size, grown dev n s.alloc))
  grown-IsSession n s pos le u t w v =
      let a = s.alloc in
      let end : dev.mapped + a.driver.total_size ≡ a.driver.pim_mem + a.driver.total_size =
        omega (arith, u.0) in
      let far : a.driver.pim_mem + a.driver.total_size + huge_page_size
          ≡ dev.mapped + (a.driver.total_size + huge_page_size) =
        omega (arith, u.0) in
      let before = subst (λ h. AreHeld dev.mapped h a.pools s.live) end w in
      record {
        started = inr (length a.pools, refl, u);
        total = t;
        blocks =
            subst
              (λ h.
                AreHeld dev.mapped h (grown dev n a).pools
                  (record { addr = a.driver.pim_mem + a.driver.total_size; npages = n } ∷ s.live))
              far (grown-AreHeld dev dev.mapped n a s.live pos le v before);
      }

  pub malloc_small-IsSession :
      (size curr : ℕ) (s : Session) (out : ℕ × Allocator)
      → size ≤ huge_page_size
      → IsSetUp dev s.alloc
      → s.alloc.driver.total_size ≤ dev.info_size
      → AreHeld dev.mapped (dev.mapped + s.alloc.driver.total_size) s.alloc.pools s.live
      → malloc_small dev size curr s.alloc ≡ ok out
      → IsSession dev (given (nalloc_pages size) s out)
  malloc_small-IsSession size curr s (addr, b) le u t w h =
      let a = s.alloc in
      let n = nalloc_pages size in
      let (lo, hi, fits, tight) = nalloc_pages_bounds size le in
      let (i, v, within) =
        malloc_small-ok dev size curr a lo hi w.valid (started-IsWindow a u.0 u.1 t) h in
      elim i [
        | inl (f, p, at, e) ↦
            let same : (f.addr, placed a f) ≡ (addr, b) = sym (ap₂ (λ x y. (x, y)) at e) in
            subst (λ (o : ℕ × Allocator). IsSession dev (given n s o)) same
              (placed-IsSession n s f lo u t w (subst (λ (o : Allocator). ArePools o.pools) e v) p)
        | inr (at, e) ↦
            let room : a.driver.total_size + huge_page_size ≤ dev.info_size = omega (
              arith,
              within,
              ap (λ (o : Allocator). o.driver.total_size) e,
              ap (λ (o : Allocator). o.driver.pim_mem_size) e,
              u.1,
            ) in
            let same : (a.driver.pim_mem + a.driver.total_size, grown dev n a) ≡ (addr, b) =
              sym (ap₂ (λ x y. (x, y)) at e) in
            subst (λ (o : ℕ × Allocator). IsSession dev (given n s o)) same
              (grown-IsSession n s lo hi u room w (subst (λ (o : Allocator). ArePools o.pools) e v))
      ]
