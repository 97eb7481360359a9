-- ===== src/PimMem/Free/Laws.antt =====
-- `pim_free` takes back what `pim_malloc` gave, for a size of at most one huge page.
use lut_pim_driver.Prelude.{
  ℕ, zero, suc, ◌+◌, ◌*◌, ◌≤◌, ◌<◌, ◌≡◌, inl, inr, refl, ap, ◌∙◌, sym, List, [], ◌∷◌, ◌++◌, some,
  arith, get_elem?, replicate,
}
use lut_pim_driver.PimMem.BitVector.{free_page}
use lut_pim_driver.PimMem.BitVectorLaws.{IsRun}
use lut_pim_driver.PimMem.Driver.{ok, ◌>>=◌, Driver, Device}
use lut_pim_driver.PimMem.Pool.{
  MemPool, huge_page_size, page_size, num_pages, pages, new_pool, clr_bit_vector,
}
use lut_pim_driver.PimMem.Malloc.{Allocator, nalloc_pages, page_addr_of, pim_malloc}
use lut_pim_driver.PimMem.Malloc.Sizes.{nalloc_pages_bounds}
use lut_pim_driver.PimMem.Malloc.Search.{taken, ArePools}
use lut_pim_driver.PimMem.Malloc.Grow.{
  HasRoom, next_pool, next_pool_fields, next_pool-IsPool, page_addr-next_pool, start_va-next_pool,
}
use lut_pim_driver.PimMem.Malloc.Laws.{placed, grown, pim_malloc_small}
use lut_pim_driver.PimMem.Free.{free_in, pim_free}
use lut_pim_driver.PimMem.Free.Walk.{
  HasPages, AreApart, AreFreed, free_in_walk, IsSame-clr, free_in-IsPlaced,
}

page_addr-pages :
    (u : ℕ → ℕ) (va i n j : ℕ)
    → j < n
    → page_addr_of (get_elem? (pages u va i n) j) ≡ va + (i + j) * page_size
unfolding pages
page_addr-pages u va i zero j h = absurd (omega arith)
page_addr-pages u va i (suc n) zero h = omega arith
page_addr-pages u va i (suc n) (suc j) h =
    page_addr-pages u va (i + 1) n j (omega arith) ∙ omega arith

-- A pool that is added lies behind the others, and its pages have their addresses.
pub next_pool-HasPages : (dev : Device) (drv : Driver) → HasPages (next_pool dev drv)
unfolding next_pool new_pool
next_pool-HasPages dev drv j h =
    page_addr-pages dev.uninit (drv.pim_mem + drv.total_size) 0 num_pages j h ∙ omega arith

pub AreApart-append :
    (ps : List MemPool) (p : MemPool) (lo hi : ℕ)
    → HasPages p
    → hi ≤ p.start_va
    → AreApart lo ps hi
    → AreApart lo (ps ++ p ∷ []) (p.start_va + huge_page_size)
AreApart-append [] p lo hi h le w = (omega (arith, w), h, omega arith)
AreApart-append (q ∷ ps) p lo hi h le w =
    (w.0, w.1, AreApart-append ps p (q.start_va + huge_page_size) hi h le w.2)

AreFreed-append :
    (ps : List MemPool) (q : MemPool)
    → q.bit_vector ≡ replicate num_pages free_page
    → q.nfree_pages ≡ num_pages
    → AreFreed ps (ps ++ q ∷ [])
AreFreed-append [] q b n = (b, n, tt)
AreFreed-append (p ∷ ps) q b n =
    (record { start = refl; large = refl; bits = refl; nfree = refl }, AreFreed-append ps q b n)

get_elem?-replicate : (m i v : ℕ) → i < m → get_elem? (replicate m v) i ≡ some v
get_elem?-replicate zero i v h = absurd (omega arith)
get_elem?-replicate (suc m) zero v h = refl
get_elem?-replicate (suc m) (suc i) v h = get_elem?-replicate m i v (omega arith)

pub IsRun-replicate : (m i n v : ℕ) → i + n ≤ m → IsRun v (replicate m v) i n
IsRun-replicate m i zero v h = tt
IsRun-replicate m i (suc n) v h =
    (get_elem?-replicate m i v (omega arith), IsRun-replicate m (suc i) n v (omega arith))

free_in-grown :
    (dev : Device) (n : ℕ) (a : Allocator) (lo : ℕ)
    → 0 < n
    → n ≤ num_pages
    → AreApart lo a.pools (a.driver.pim_mem + a.driver.total_size)
    → (qs : List MemPool) × (free_in (a.driver.pim_mem + a.driver.total_size) (grown dev n a).pools
        ≡ ok qs)
      × AreFreed a.pools qs
free_in-grown dev n a lo pos le w =
    let p = next_pool dev a.driver in
    let (bits, c, free) = next_pool_fields dev a.driver in
    let at_va : p.start_va ≡ a.driver.pim_mem + a.driver.total_size =
      start_va-next_pool dev a.driver in
    let apart =
      AreApart-append a.pools p lo (a.driver.pim_mem + a.driver.total_size)
        (next_pool-HasPages dev a.driver) (omega (arith, at_va)) w in
    let e =
      free_in_walk p 0 n [] (next_pool-IsPool dev a.driver) pos (omega (arith, free)) (omega arith)
        a.pools lo _ apart in
    let same =
      IsSame-clr p 0 n (rw bits (IsRun-replicate num_pages 0 n free_page (omega arith)))
        (omega (arith, free)) (omega (arith, free)) in
    (
      a.pools ++ clr_bit_vector (taken p 0 n) 0 n ∷ [],
      ap (λ addr. free_in addr (grown dev n a).pools) (sym (page_addr-next_pool dev a.driver)) ∙ e,
      AreFreed-append a.pools _ (same.bits ∙ bits) (same.nfree ∙ free),
    )

pub pim_free_lem :
    (addr : ℕ) (a : Allocator) (qs : List MemPool)
    → free_in addr a.pools ≡ ok qs
    → pim_free addr a ≡ ok (record a { pools = qs })
unfolding pim_free
pim_free_lem addr a qs h = ap (λ r. r >>= λ ps. ok (record a { pools = ps })) h

-- Once the library is set up, its pools are valid and lie behind each other in the part of the
-- window that is handed out, and the window has room for one more pool: for each size from 1 to a
-- huge page, `pim_malloc` succeeds, `pim_free` of its result succeeds, and then every pool has the
-- same free pages as before the two calls, and a pool that was added has all its pages free.
pub pim_free-pim_malloc :
    (dev : Device) (size curr lo : ℕ) (a : Allocator)
    → 0 < size
    → size ≤ huge_page_size
    → a.curr_mem_pool ≡ some curr
    → ArePools a.pools
    → AreApart lo a.pools (a.driver.pim_mem + a.driver.total_size)
    → HasRoom a.driver
    → (out : ℕ × Allocator) × (c : Allocator) × (pim_malloc dev size a ≡ ok out)
      × (pim_free out.0 out.1 ≡ ok c)
      × AreFreed a.pools c.pools
pim_free-pim_malloc dev size curr lo a pos le c v w room =
    let n = nalloc_pages size in
    let (some_pages, most, fits, tight) = nalloc_pages_bounds size le in
    let (out, e, i, u) = pim_malloc_small dev size curr a pos le c v room in
    elim i [
      | inl (f, p, addr, b) ↦
          let (qs, g, same) = free_in-IsPlaced n a.pools f lo _ some_pages w p in
          (
            out,
            record (placed a f) { pools = qs },
            e,
            rw (addr, b) (pim_free_lem f.addr (placed a f) qs g),
            same,
          )
      | inr (addr, b) ↦
          let (qs, g, same) = free_in-grown dev n a lo some_pages most w in
          (
            out,
            record (grown dev n a) { pools = qs },
            e,
            rw (addr, b) (pim_free_lem _ (grown dev n a) qs g),
            same,
          )
    ]
