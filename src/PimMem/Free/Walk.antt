-- ===== src/PimMem/Free/Walk.antt =====
-- The walk of `pim_free` to the pool that an address lies in.
use lut_pim_driver.Prelude.{
  ℕ, zero, suc, ◌+◌, ◌-◌, ◌*◌, ◌/◌, ◌^◌, ◌≤◌, ◌<◌, ◌≡◌, inl, inr, refl, ap, ◌∙◌, List, [], ◌∷◌,
  ◌++◌, true, false, ◌==◌, arith, length, replicate,
}
use lut_pim_driver.PimMem.BitVector.{free_page, used_page}
use lut_pim_driver.PimMem.BitVectorLaws.{IsRun}
use lut_pim_driver.PimMem.Fill.{fill-fill}
use lut_pim_driver.PimMem.Driver.{ok}
use lut_pim_driver.PimMem.Pool.{MemPool, Page, huge_page_size, page_size, num_pages, clr_bit_vector}
use lut_pim_driver.PimMem.Pool.Laws.{IsPool, IsPool-nfree}
use lut_pim_driver.PimMem.Malloc.{Found, page_addr, set_page_size}
use lut_pim_driver.PimMem.Malloc.Search.{taken, IsPlaced}
use lut_pim_driver.PimMem.Free.{holds, alloc_size_at, free_small, free_in}

-- The addresses of a pool's pages.
abbrev pub HasPages : MemPool → Type 0
HasPages p = (j : ℕ) → j < num_pages → page_addr p j ≡ p.start_va + j * page_size

-- The pools lie behind each other between `lo` and `hi`, as the window hands them out.
abbrev pub AreApart : (lo : ℕ) → List MemPool → (hi : ℕ) → Type 0
AreApart lo [] hi = lo ≤ hi
AreApart lo (p ∷ ps) hi =
    (lo ≤ p.start_va) × HasPages p × AreApart (p.start_va + huge_page_size) ps hi

-- The same pages are free.
pub record IsSame (p q : MemPool) : Type 0 where
  pub start : q.start_va ≡ p.start_va
  pub large : q.large_mem_pool ≡ p.large_mem_pool
  pub bits : q.bit_vector ≡ p.bit_vector
  pub nfree : q.nfree_pages ≡ p.nfree_pages

-- The same pages are free, and the pools behind the old ones are unused.
abbrev pub AreFreed : (ps qs : List MemPool) → Type 0
AreFreed [] [] = Unit
AreFreed [] (q ∷ qs) =
    (q.bit_vector ≡ replicate num_pages free_page) × (q.nfree_pages ≡ num_pages) × AreFreed [] qs
AreFreed (p ∷ ps) [] = ⊥
AreFreed (p ∷ ps) (q ∷ qs) = IsSame p q × AreFreed ps qs

pub alloc_size_at-set :
    (s : List Page) (idx n : ℕ) → idx < length s → alloc_size_at (set_page_size s idx n) idx ≡ n
alloc_size_at-set [] idx n h = absurd (omega arith)
alloc_size_at-set (page ∷ s) zero n h = refl
alloc_size_at-set (page ∷ s) (suc idx) n h = alloc_size_at-set s idx n (omega arith)

-- The pool takes back the pages that it records at the address.
pub free_in_head :
    (p : MemPool) (idx n : ℕ) (ps : List MemPool)
    → alloc_size_at p.head_page idx ≡ n
    → p.large_mem_pool ≡ false
    → 0 < n
    → idx + n ≤ num_pages
    → free_in (p.start_va + idx * page_size) (p ∷ ps) ≡ ok (clr_bit_vector p idx n ∷ ps)
unfolding free_in free_small
free_in_head p idx n ps s small pos le =
    let addr = p.start_va + idx * page_size in
    let h : holds p addr ≡ true = ground arith in
    let i : (addr - p.start_va) / page_size ≡ idx = omega arith in
    let z : (n == 0) ≡ false = ground arith in rw (h, small, i, s, z) refl

-- The pool that gave the pages takes them back.
free_in_here :
    (p : MemPool) (idx n : ℕ) (ps : List MemPool)
    → length p.head_page ≡ num_pages
    → p.large_mem_pool ≡ false
    → 0 < n
    → idx + n ≤ num_pages
    → free_in (p.start_va + idx * page_size) (taken p idx n ∷ ps)
      ≡ ok (clr_bit_vector (taken p idx n) idx n ∷ ps)
free_in_here p idx n ps e small pos le =
    free_in_head (taken p idx n) idx n ps (alloc_size_at-set p.head_page idx n (omega (arith, e)))
      small pos le

-- A pool that ends before the address is passed over.
pub free_in_skip :
    (p : MemPool) (addr : ℕ) (ps qs : List MemPool)
    → p.start_va + huge_page_size ≤ addr
    → free_in addr ps ≡ ok qs
    → free_in addr (p ∷ ps) ≡ ok (p ∷ qs)
unfolding free_in
free_in_skip p addr ps qs le e = let h : holds p addr ≡ false = ground arith in rw (h, e) refl

-- The pool is as it was, but for its index and the size that it recorded.
pub IsSame-clr :
    (p : MemPool) (idx n : ℕ)
    → IsRun free_page p.bit_vector idx n
    → n ≤ p.nfree_pages
    → p.nfree_pages < 2 ^ 32
    → IsSame p (clr_bit_vector (taken p idx n) idx n)
unfolding clr_bit_vector
IsSame-clr p idx n r le w = record {
  start = refl;
  large = refl;
  bits = fill-fill p.bit_vector idx n free_page used_page r;
  nfree = omega arith;
}

AreFreed-refl : (ps : List MemPool) → AreFreed ps ps
AreFreed-refl [] = tt
AreFreed-refl (p ∷ ps) =
    (record { start = refl; large = refl; bits = refl; nfree = refl }, AreFreed-refl ps)

pub AreApart-middle :
    (before : List MemPool) (p : MemPool) (after : List MemPool) (lo hi : ℕ)
    → AreApart lo (before ++ p ∷ after) hi
    → (lo ≤ p.start_va) × HasPages p
AreApart-middle [] p after lo hi w = (w.0, w.1)
AreApart-middle (q ∷ before) p after lo hi w =
    let (le, h) = AreApart-middle before p after (q.start_va + huge_page_size) hi w.2 in
    (omega (arith, w.0), h)

module _ (p : MemPool) (idx n : ℕ) (after : List MemPool) (valid : IsPool p) where
  module _ (pos : 0 < n) (counted : n ≤ p.nfree_pages) (inside : idx + n ≤ num_pages) where
    -- The walk comes to that pool.
    pub free_in_walk :
        (before : List MemPool) (lo hi : ℕ)
        → AreApart lo (before ++ p ∷ after) hi
        → free_in (page_addr p idx) (before ++ taken p idx n ∷ after)
          ≡ ok (before ++ clr_bit_vector (taken p idx n) idx n ∷ after)
    free_in_walk [] lo hi w =
        let e : page_addr p idx ≡ p.start_va + idx * page_size = w.1 idx (omega arith) in
        let small : p.large_mem_pool ≡ false = elim valid.kind [
          | inl q ↦ q
          | inr q ↦ absurd (omega arith)
        ] in
        ap (λ addr. free_in addr (taken p idx n ∷ after)) e
        ∙ free_in_here p idx n after valid.entries small pos inside
    free_in_walk (q ∷ before) lo hi w =
        let (le, h) = AreApart-middle before p after (q.start_va + huge_page_size) hi w.2 in
        free_in_skip q (page_addr p idx) _ _ (omega (arith, h idx (omega arith)))
          (free_in_walk before (q.start_va + huge_page_size) hi w.2)

    AreFreed-clr :
        (before : List MemPool)
        → IsRun free_page p.bit_vector idx n
        → AreFreed (before ++ p ∷ after) (before ++ clr_bit_vector (taken p idx n) idx n ∷ after)
    AreFreed-clr [] r =
        (IsSame-clr p idx n r counted (omega (arith, IsPool-nfree p valid)), AreFreed-refl after)
    AreFreed-clr (q ∷ before) r =
        (record { start = refl; large = refl; bits = refl; nfree = refl }, AreFreed-clr before r)

-- A pool that gave pages from the list takes them back.
pub free_in-IsPlaced :
    (n : ℕ) (ps : List MemPool) (f : Found) (lo hi : ℕ)
    → 0 < n
    → AreApart lo ps hi
    → IsPlaced n ps f
    → (qs : List MemPool) × (free_in f.addr f.pools ≡ ok qs) × AreFreed ps qs
free_in-IsPlaced n ps f lo hi pos w i =
    let v = rw i.from at w in
    let e = free_in_walk i.pool i.idx n i.after i.valid pos i.counted i.inside i.before lo hi v in
    let same = AreFreed-clr i.pool i.idx n i.after i.valid pos i.counted i.inside i.before i.run in
    (
      i.before ++ clr_bit_vector (taken i.pool i.idx n) i.idx n ∷ i.after,
      rw (i.addr, i.to) e,
      rw i.from same,
    )
