-- ===== src/PimMem/Session/Invariant.antt =====
-- The invariant of the sessions, and that an allocation and a release keep it.
use lut_pim_driver.Prelude.{
  ℕ, ◌+◌, ◌*◌, ◌≤◌, ◌<◌, ◌≡◌, inl, inr, refl, subst, sym, ◌∙◌, List, [], ◌∷◌, ◌++◌, arith,
}
use lut_pim_driver.PimMem.BitVector.{free_page}
use lut_pim_driver.PimMem.BitVectorLaws.{IsRun}
use lut_pim_driver.PimMem.Driver.{Driver, Device}
use lut_pim_driver.PimMem.Pool.{MemPool, huge_page_size, page_size, num_pages, new_pool}
use lut_pim_driver.PimMem.Pool.Laws.{IsPool, count-replicate}
use lut_pim_driver.PimMem.Malloc.{Allocator, Found}
use lut_pim_driver.PimMem.Malloc.Search.{ArePools, ArePools-append, IsPlaced, taken}
use lut_pim_driver.PimMem.Malloc.Grow.{
  next_pool, next_pool-IsPool, next_pool_fields, start_va-next_pool,
}
use lut_pim_driver.PimMem.Malloc.Laws.{grown}
use lut_pim_driver.PimMem.Free.Walk.{HasPages, AreApart, AreApart-middle}
use lut_pim_driver.PimMem.Free.Laws.{next_pool-HasPages, AreApart-append, IsRun-replicate}
use lut_pim_driver.PimMem.Session.{Block}
use lut_pim_driver.PimMem.Session.Blocks.{IsDisjoint, Owns, IsSmall, AreSmall}
use lut_pim_driver.PimMem.Session.Taken.{
  block_at, Owns-new, Owns-taken, AreApart-taken, AreSmall-taken,
}

abbrev pub All : (Block → Type 0) → List Block → Type 0
All P [] = Unit {0}
All P (b ∷ bs) = P b × All P bs

-- No two of the blocks have a byte in common.
abbrev pub AreDisjoint : List Block → Type 0
AreDisjoint [] = Unit {0}
AreDisjoint (b ∷ bs) = All (λ c. IsDisjoint c b) bs × AreDisjoint bs

pub All-map :
    (P Q : Block → Type 0) (bs : List Block) → ((b : Block) → P b → Q b) → All P bs → All Q bs
All-map P Q [] h w = tt
All-map P Q (b ∷ bs) h w = (h b w.0, All-map P Q bs h w.1)

-- The pools that the blocks of a session lie in: between `lo` and `hi`.
pub record AreHeld (lo hi : ℕ) (ps : List MemPool) (live : List Block) : Type 0 where
  pub valid : ArePools ps
  pub small : AreSmall ps
  pub apart : AreApart lo ps hi
  pub held : All (Owns ps) live
  pub disjoint : AreDisjoint live

-- A block of `m` free pages of one of the pools.
taken-AreHeld :
    (lo hi : ℕ) (before : List MemPool) (p : MemPool) (after : List MemPool) (j m : ℕ)
    (live : List Block)
    → IsRun free_page p.bit_vector j m
    → 0 < m
    → j + m ≤ num_pages
    → IsPool p
    → ArePools (before ++ taken p j m ∷ after)
    → AreHeld lo hi (before ++ p ∷ after) live
    → AreHeld lo hi (before ++ taken p j m ∷ after) (block_at p j m ∷ live)
taken-AreHeld lo hi before p after j m live run pos inside v valid w =
    let kept =
      All-map (Owns (before ++ p ∷ after))
        (λ b. Owns (before ++ taken p j m ∷ after) b × IsDisjoint b (block_at p j m)) live
        (λ b o. Owns-taken p j m after run pos inside before lo hi b w.apart o) w.held in
    record {
      valid = valid;
      small = AreSmall-taken p j m after run before w.small;
      apart = AreApart-taken p j m after before lo hi w.apart;
      held = (
        Owns-new p j m after run pos inside before v,
        All-map _ (Owns (before ++ taken p j m ∷ after)) live (λ b k. k.0) kept,
      );
      disjoint =
          (All-map _ (λ b. IsDisjoint b (block_at p j m)) live (λ b k. k.1) kept, w.disjoint);
    }

pub IsPlaced-AreHeld :
    (lo hi n : ℕ) (ps : List MemPool) (live : List Block) (f : Found)
    → 0 < n
    → ArePools f.pools
    → IsPlaced n ps f
    → AreHeld lo hi ps live
    → AreHeld lo hi f.pools (record { addr = f.addr; npages = n } ∷ live)
IsPlaced-AreHeld lo hi n ps live f pos valid i w =
    let from = subst (λ t. AreHeld lo hi t live) i.from w in
    let (le, pages) = AreApart-middle i.before i.pool i.after lo hi from.apart in
    let at : i.pool.start_va + i.idx * page_size ≡ f.addr =
      sym (i.addr ∙ pages i.idx (omega (arith, i.inside))) in
    let taken_held =
      taken-AreHeld lo hi i.before i.pool i.after i.idx n live i.run pos i.inside i.valid
        (subst ArePools i.to valid) from in
    subst (λ t. AreHeld lo hi t (record { addr = f.addr; npages = n } ∷ live)) (sym i.to)
      (subst
        (λ addr.
          AreHeld lo hi (i.before ++ taken i.pool i.idx n ∷ i.after)
            (record { addr = addr; npages = n } ∷ live))
        at taken_held)

AreSmall-append :
    (ps : List MemPool) (p : MemPool) → IsSmall p → AreSmall ps → AreSmall (ps ++ p ∷ [])
AreSmall-append [] p s w = (s, tt)
AreSmall-append (q ∷ ps) p s w = (w.0, AreSmall-append ps p s w.1)

Owns-append : (ps : List MemPool) (p : MemPool) (b : Block) → Owns ps b → Owns (ps ++ p ∷ []) b
Owns-append [] p b o = absurd o
Owns-append (q ∷ ps) p b (inl i) = inl i
Owns-append (q ∷ ps) p b (inr o) = inr (Owns-append ps p b o)

next_pool-IsSmall : (dev : Device) (drv : Driver) → IsSmall (next_pool dev drv)
unfolding next_pool new_pool
next_pool-IsSmall dev drv = record { small = refl; counted = sym (count-replicate num_pages) }

-- A pool that is added behind the others.
append-AreHeld :
    (lo hi : ℕ) (ps : List MemPool) (p : MemPool) (live : List Block)
    → IsPool p
    → IsSmall p
    → HasPages p
    → p.start_va ≡ hi
    → AreHeld lo hi ps live
    → AreHeld lo (hi + huge_page_size) (ps ++ p ∷ []) live
append-AreHeld lo hi ps p live v s pages at w = record {
  valid = ArePools-append ps _ w.valid (v, tt);
  small = AreSmall-append ps p s w.small;
  apart =
      subst (λ h. AreApart lo (ps ++ p ∷ []) (h + huge_page_size)) at
        (AreApart-append ps p lo hi pages (omega (arith, at)) w.apart);
  held = All-map (Owns ps) (Owns (ps ++ p ∷ [])) live (Owns-append ps p) w.held;
  disjoint = w.disjoint;
}

-- The next pool of the window.
pub next_pool-AreHeld :
    (dev : Device) (lo : ℕ) (a : Allocator) (live : List Block)
    → AreHeld lo (a.driver.pim_mem + a.driver.total_size) a.pools live
    → AreHeld lo
        (a.driver.pim_mem + a.driver.total_size + huge_page_size)
        (a.pools ++ next_pool dev a.driver ∷ [])
        live
next_pool-AreHeld dev lo a live w =
    append-AreHeld lo _ a.pools (next_pool dev a.driver) live (next_pool-IsPool dev a.driver)
      (next_pool-IsSmall dev a.driver) (next_pool-HasPages dev a.driver)
      (start_va-next_pool dev a.driver) w

pub grown-AreHeld :
    (dev : Device) (lo n : ℕ) (a : Allocator) (live : List Block)
    → 0 < n
    → n ≤ num_pages
    → ArePools (grown dev n a).pools
    → AreHeld lo (a.driver.pim_mem + a.driver.total_size) a.pools live
    → AreHeld lo
        (a.driver.pim_mem + a.driver.total_size + huge_page_size)
        (grown dev n a).pools
        (record { addr = a.driver.pim_mem + a.driver.total_size; npages = n } ∷ live)
grown-AreHeld dev lo n a live pos le valid w =
    let p = next_pool dev a.driver in
    let (bits, c, free) = next_pool_fields dev a.driver in
    let run : IsRun free_page p.bit_vector 0 n =
      rw bits (IsRun-replicate num_pages 0 n free_page (omega arith)) in
    let more = next_pool-AreHeld dev lo a live w in
    let at : p.start_va + 0 * page_size ≡ a.driver.pim_mem + a.driver.total_size =
      omega (arith, start_va-next_pool dev a.driver) in
    subst
      (λ addr.
        AreHeld lo (a.driver.pim_mem + a.driver.total_size + huge_page_size) (grown dev n a).pools
          (record { addr = addr; npages = n } ∷ live))
      at
      (taken-AreHeld lo _ a.pools p [] 0 n live run pos (omega arith)
        (next_pool-IsPool dev a.driver) valid more)
