-- ===== src/PimMem/Session/Freed.antt =====
-- `pim_free` of a block that is held succeeds, and keeps the others.
use lut_pim_driver.Prelude.{ℕ, ◌+◌, ◌≤◌, ◌≡◌, inl, inr, subst, sym, ◌∙◌, List, [], ◌∷◌, arith, u32}
use lut_pim_driver.PimMem.BitVector.{free_page, used_page, fill}
use lut_pim_driver.PimMem.BitVectorLaws.{IsRun, count}
use lut_pim_driver.PimMem.Fill.{length-fill}
use lut_pim_driver.PimMem.Driver.{ok}
use lut_pim_driver.PimMem.Pool.{MemPool, huge_page_size, num_pages, clr_bit_vector}
use lut_pim_driver.PimMem.Pool.Laws.{IsPool, count-le}
use lut_pim_driver.PimMem.Malloc.Search.{ArePools}
use lut_pim_driver.PimMem.Free.{free_in}
use lut_pim_driver.PimMem.Free.Walk.{AreApart, free_in_head, free_in_skip}
use lut_pim_driver.PimMem.Session.{Block}
use lut_pim_driver.PimMem.Session.Blocks.{
  IsDisjoint, InPool, Owns, IsSmall, AreSmall, IsRun-fill_ne, count-fill_free,
}
use lut_pim_driver.PimMem.Session.Taken.{Owns-bounds}

-- The number of free pages once a block is free again.
free_count_lem :
    (p : MemPool) (i n : ℕ)
    → IsPool p
    → IsSmall p
    → IsRun used_page p.bit_vector i n
    → u32 (p.nfree_pages + n) ≡ count free_page (fill p.bit_vector i n free_page)
free_count_lem p i n v w r =
    let gained = count-fill_free p.bit_vector i n r in
    let le = count-le free_page (fill p.bit_vector i n free_page) in
    omega (arith, gained, le, length-fill p.bit_vector i n free_page, v.flags, w.counted)

module _ (p : MemPool) (i n : ℕ) (v : IsPool p) (w : IsSmall p) where
  module _ (r : IsRun used_page p.bit_vector i n) (le : i + n ≤ num_pages) where
    IsPool-clr : IsPool (clr_bit_vector p i n)
    unfolding clr_bit_vector
    IsPool-clr = record {
      flags = length-fill p.bit_vector i n free_page ∙ v.flags;
      entries = v.entries;
      index = omega arith;
      kind = inl w.small;
      free_count = inl (free_count_lem p i n v w r);
    }

    IsSmall-clr : IsSmall (clr_bit_vector p i n)
    unfolding clr_bit_vector
    IsSmall-clr = record { small = w.small; counted = free_count_lem p i n v w r }

-- Another block of the pool stays.
InPool-clr :
    (p : MemPool) (b c : Block) (w : InPool p b)
    → InPool p c
    → IsDisjoint c b
    → InPool (clr_bit_vector p w.idx b.npages) c
unfolding clr_bit_vector
InPool-clr p b c w u d = record {
  idx = u.idx;
  at = u.at;
  some_pages = u.some_pages;
  inside = u.inside;
  used =
      IsRun-fill_ne used_page free_page p.bit_vector u.idx c.npages w.idx b.npages u.used
        (omega (arith, d, u.at, w.at));
  size = u.size;
}

-- The pools after the block was freed: they are valid, they are where they were, and they hold
-- each block that has no page in common with it.
pub record IsReleased (b : Block) (lo hi : ℕ) (ps : List MemPool) : Type 0 where
  pub pools : List MemPool
  pub freed : free_in b.addr ps ≡ ok pools
  pub valid : ArePools pools
  pub small : AreSmall pools
  pub apart : AreApart lo pools hi
  pub kept : (c : Block) → Owns ps c → IsDisjoint c b → Owns pools c

Owns-clr :
    (p : MemPool) (ps : List MemPool) (b c : Block) (w : InPool p b)
    → Owns (p ∷ ps) c
    → IsDisjoint c b
    → Owns (clr_bit_vector p w.idx b.npages ∷ ps) c
Owns-clr p ps b c w (inl u) d = inl (InPool-clr p b c w u d)
Owns-clr p ps b c w (inr o) d = inr o

Owns-behind :
    (p : MemPool) (ps qs : List MemPool) (b : Block)
    → ((c : Block) → Owns ps c → IsDisjoint c b → Owns qs c)
    → (c : Block) → Owns (p ∷ ps) c
    → IsDisjoint c b
    → Owns (p ∷ qs) c
Owns-behind p ps qs b h c (inl u) d = inl u
Owns-behind p ps qs b h c (inr o) d = inr (h c o d)

AreApart-clr :
    (p : MemPool) (ps : List MemPool) (i n lo hi : ℕ)
    → AreApart lo (p ∷ ps) hi
    → AreApart lo (clr_bit_vector p i n ∷ ps) hi
unfolding clr_bit_vector
AreApart-clr p ps i n lo hi w = w

pub Owns-IsReleased :
    (ps : List MemPool) (b : Block) (lo hi : ℕ)
    → ArePools ps
    → AreSmall ps
    → AreApart lo ps hi
    → Owns ps b
    → IsReleased b lo hi ps
Owns-IsReleased [] b lo hi v s w o = absurd o
Owns-IsReleased (p ∷ ps) b lo hi v s w (inl i) = record {
  pools = clr_bit_vector p i.idx b.npages ∷ ps;
  freed =
      subst (λ addr. free_in addr (p ∷ ps) ≡ ok (clr_bit_vector p i.idx b.npages ∷ ps)) (sym i.at)
        (free_in_head p i.idx b.npages ps i.size s.0.small i.some_pages i.inside);
  valid = (IsPool-clr p i.idx b.npages v.0 s.0 i.used i.inside, v.1);
  small = (IsSmall-clr p i.idx b.npages v.0 s.0 i.used i.inside, s.1);
  apart = AreApart-clr p ps i.idx b.npages lo hi w;
  kept = λ c u d. Owns-clr p ps b c i u d;
}
Owns-IsReleased (p ∷ ps) b lo hi v s w (inr o) =
    let r = Owns-IsReleased ps b (p.start_va + huge_page_size) hi v.1 s.1 w.2 o in
    let (le, end) = Owns-bounds ps b (p.start_va + huge_page_size) hi w.2 o in
    record {
      pools = p ∷ r.pools;
      freed = free_in_skip p b.addr ps r.pools le r.freed;
      valid = (v.0, r.valid);
      small = (s.0, r.small);
      apart = (w.0, w.1, r.apart);
      kept = Owns-behind p ps r.pools b r.kept;
    }
