-- ===== src/PimMem/Session/Taken.antt =====
-- What an allocation in a pool changes for the blocks that are held.
use lut_pim_driver.Prelude.{
  ℕ, zero, suc, ◌+◌, ◌*◌, ◌≤◌, ◌<◌, ◌≡◌, ◌≢◌, inl, inr, refl, ◌∙◌, List, [], ◌∷◌, ◌++◌, arith,
  get_elem?,
}
use lut_pim_driver.PimMem.BitVector.{free_page, used_page}
use lut_pim_driver.PimMem.BitVectorLaws.{IsRun}
use lut_pim_driver.PimMem.Fill.{count-fill}
use lut_pim_driver.PimMem.Pool.{MemPool, Page, huge_page_size, page_size, num_pages}
use lut_pim_driver.PimMem.Pool.Laws.{IsPool}
use lut_pim_driver.PimMem.Malloc.{page_addr_of, set_page_size}
use lut_pim_driver.PimMem.Malloc.Search.{taken}
use lut_pim_driver.PimMem.Free.Walk.{HasPages, AreApart, AreApart-middle, alloc_size_at-set}
use lut_pim_driver.PimMem.Session.{Block}
use lut_pim_driver.PimMem.Session.Blocks.{
  end_of, IsDisjoint, InPool, Owns, IsSmall, AreSmall, IsRun-apart, IsRun-fill_ne, IsRun-fill,
  alloc_size_at-set_ne,
}

-- The block of `m` pages from page `j` of a pool on.
abbrev pub block_at : MemPool → (j m : ℕ) → Block
block_at p j m = record { addr = p.start_va + j * page_size; npages = m }

page_addr_of-set :
    (s : List Page) (j n k : ℕ)
    → page_addr_of (get_elem? (set_page_size s j n) k) ≡ page_addr_of (get_elem? s k)
page_addr_of-set [] j n k = refl
page_addr_of-set (page ∷ s) zero n zero = refl
page_addr_of-set (page ∷ s) zero n (suc k) = refl
page_addr_of-set (page ∷ s) (suc j) n zero = refl
page_addr_of-set (page ∷ s) (suc j) n (suc k) = page_addr_of-set s j n k

HasPages-taken : (p : MemPool) (j m : ℕ) → HasPages p → HasPages (taken p j m)
HasPages-taken p j m h k l = page_addr_of-set p.head_page j m k ∙ h k l

pub IsSmall-taken :
    (p : MemPool) (j m : ℕ) → IsRun free_page p.bit_vector j m → IsSmall p → IsSmall (taken p j m)
IsSmall-taken p j m r w = record {
  small = w.small;
  counted = omega (arith, count-fill p.bit_vector j m r, w.counted);
}

-- The pool holds the new block, and the blocks from before, which have no page in common with it.
InPool-new :
    (p : MemPool) (j m : ℕ)
    → IsPool p
    → 0 < m
    → j + m ≤ num_pages
    → InPool (taken p j m) (block_at p j m)
InPool-new p j m v pos le = record {
  idx = j;
  at = refl;
  some_pages = pos;
  inside = le;
  used =
      IsRun-fill used_page p.bit_vector j m j m (omega arith) (omega arith)
        (omega (arith, v.flags));
  size = alloc_size_at-set p.head_page j m (omega (arith, v.entries));
}

InPool-taken :
    (p : MemPool) (b : Block) (j m : ℕ)
    → InPool p b
    → IsRun free_page p.bit_vector j m
    → 0 < m
    → InPool (taken p j m) b × IsDisjoint b (block_at p j m)
InPool-taken p b j m w r pos =
    let h = IsRun-apart p.bit_vector w.idx b.npages j m w.used r w.some_pages pos in
    let ne : w.idx ≢ j = λ e. omega (arith, h, w.some_pages) in
    (
      record {
        idx = w.idx;
        at = w.at;
        some_pages = w.some_pages;
        inside = w.inside;
        used = IsRun-fill_ne used_page used_page p.bit_vector w.idx b.npages j m w.used h;
        size = alloc_size_at-set_ne p.head_page j m w.idx ne ∙ w.size;
      },
      omega (arith, h, w.at),
    )

-- A block lies between the ends of the pools.
pub Owns-bounds :
    (ps : List MemPool) (b : Block) (lo hi : ℕ)
    → AreApart lo ps hi
    → Owns ps b
    → (lo ≤ b.addr) × (end_of b ≤ hi)
Owns-bounds [] b lo hi w o = absurd o
Owns-bounds (p ∷ ps) b lo hi w (inl i) =
    let end = AreApart-le ps _ hi w.2 in
    (omega (arith, i.at, w.0), omega (arith, i.at, i.inside, end))
  where
    AreApart-le : (qs : List MemPool) (l h : ℕ) → AreApart l qs h → l ≤ h
    AreApart-le [] l h v = v
    AreApart-le (q ∷ qs) l h v =
        omega (arith, v.0, AreApart-le qs (q.start_va + huge_page_size) h v.2)
Owns-bounds (p ∷ ps) b lo hi w (inr o) =
    let (l, h) = Owns-bounds ps b (p.start_va + huge_page_size) hi w.2 o in (omega (arith, w.0), h)

module _ (p : MemPool) (j m : ℕ) (after : List MemPool) where
  pub AreApart-taken :
      (before : List MemPool) (lo hi : ℕ)
      → AreApart lo (before ++ p ∷ after) hi
      → AreApart lo (before ++ taken p j m ∷ after) hi
  AreApart-taken [] lo hi w = (w.0, HasPages-taken p j m w.1, w.2)
  AreApart-taken (q ∷ before) lo hi w =
      (w.0, w.1, AreApart-taken before (q.start_va + huge_page_size) hi w.2)

  module _ (run : IsRun free_page p.bit_vector j m) where
    pub AreSmall-taken :
        (before : List MemPool)
        → AreSmall (before ++ p ∷ after)
        → AreSmall (before ++ taken p j m ∷ after)
    AreSmall-taken [] w = (IsSmall-taken p j m run w.0, w.1)
    AreSmall-taken (q ∷ before) w = (w.0, AreSmall-taken before w.1)

    module _ (pos : 0 < m) (inside : j + m ≤ num_pages) where
      pub Owns-new :
          (before : List MemPool) → IsPool p → Owns (before ++ taken p j m ∷ after) (block_at p j m)
      Owns-new [] v = inl (InPool-new p j m v pos inside)
      Owns-new (q ∷ before) v = inr (Owns-new before v)

      -- The pools hold the blocks from before, and the new one is disjoint from each.
      pub Owns-taken :
          (before : List MemPool) (lo hi : ℕ) (b : Block)
          → AreApart lo (before ++ p ∷ after) hi
          → Owns (before ++ p ∷ after) b
          → Owns (before ++ taken p j m ∷ after) b × IsDisjoint b (block_at p j m)
      Owns-taken [] lo hi b w (inl i) = let (k, d) = InPool-taken p b j m i run pos in (inl k, d)
      Owns-taken [] lo hi b w (inr o) =
          let (l, h) = Owns-bounds after b _ hi w.2 o in (inr o, omega arith)
      Owns-taken (q ∷ before) lo hi b w (inl i) =
          let (le, h) = AreApart-middle before p after (q.start_va + huge_page_size) hi w.2 in
          (inl i, omega (arith, i.at, i.inside))
      Owns-taken (q ∷ before) lo hi b w (inr o) =
          let (k, d) = Owns-taken before (q.start_va + huge_page_size) hi b w.2 o in (inr k, d)
