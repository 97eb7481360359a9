-- ===== src/PimMem/Session/Laws.antt =====
-- What holds after every sequence of calls of the allocator of src/mem_src/pim_mem.c.
use lut_pim_driver.Prelude.{
  ℕ, ◌+◌, ◌≤◌, ◌≡◌, inl, inr, refl, ap₂, subst, sym, ◌∙◌, List, [], ◌∷◌, ◌++◌, arith,
}
use lut_pim_driver.PimMem.Driver.{ok, Device, release_pim_drv}
use lut_pim_driver.PimMem.Pool.{huge_page_size}
use lut_pim_driver.PimMem.Malloc.{
  Allocator, nalloc_pages, pim_malloc, ensure_init, first_call, malloc_in,
}
use lut_pim_driver.PimMem.Malloc.Laws.{malloc_in_small}
use lut_pim_driver.PimMem.Free.{pim_free, real_free}
use lut_pim_driver.PimMem.Free.Laws.{pim_free_lem}
use lut_pim_driver.PimMem.Session.{
  Block, Session, Step, malloc, free, release, Reach, here, further,
}
use lut_pim_driver.PimMem.Session.Blocks.{end_of, IsDisjoint, Owns}
use lut_pim_driver.PimMem.Session.Taken.{Owns-bounds}
use lut_pim_driver.PimMem.Session.Freed.{IsReleased, Owns-IsReleased}
use lut_pim_driver.PimMem.Session.Outcomes.{chain-BothReturn}
use lut_pim_driver.PimMem.Session.Invariant.{All, All-map, AreDisjoint, AreHeld}
use lut_pim_driver.PimMem.Session.Given.{
  IsDevice, IsSetUp, IsStarted, IsSession, IsLoaded, IsLoaded-IsSession, given, no_blocks,
  malloc_small-IsSession,
}
use lut_pim_driver.PimMem.Session.First.{first_call-AreHeld}

All-remove :
    (P : Block → Type 0) (ls : List Block) (b : Block) (rs : List Block)
    → All P (ls ++ b ∷ rs)
    → P b × All P (ls ++ rs)
All-remove P [] b rs w = w
All-remove P (c ∷ ls) b rs w = let (p, q) = All-remove P ls b rs w.1 in (p, (w.0, q))

All-both : (P Q : Block → Type 0) (bs : List Block) → All P bs → All Q bs → All (λ b. P b × Q b) bs
All-both P Q [] v w = tt
All-both P Q (b ∷ bs) v w = ((v.0, w.0), All-both P Q bs v.1 w.1)

AreDisjoint-remove :
    (ls : List Block) (b : Block) (rs : List Block)
    → AreDisjoint (ls ++ b ∷ rs)
    → All (λ c. IsDisjoint c b) (ls ++ rs) × AreDisjoint (ls ++ rs)
AreDisjoint-remove [] b rs w = w
AreDisjoint-remove (c ∷ ls) b rs w =
    let (p, q) = AreDisjoint-remove ls b rs w.1 in
    let (d, e) = All-remove (λ x. IsDisjoint x c) ls b rs w.0 in ((omega (arith, d), p), (e, q))

-- A block that is freed leaves the session.
freed-AreHeld :
    (lo hi : ℕ) (s : Session) (ls rs : List Block) (b : Block)
    → AreHeld lo hi s.alloc.pools (ls ++ b ∷ rs)
    → (r : IsReleased b lo hi s.alloc.pools) × AreHeld lo hi r.pools (ls ++ rs)
freed-AreHeld lo hi s ls rs b w =
    let (own, held) = All-remove (Owns s.alloc.pools) ls b rs w.held in
    let (apart, disjoint) = AreDisjoint-remove ls b rs w.disjoint in
    let r = Owns-IsReleased s.alloc.pools b lo hi w.valid w.small w.apart own in
    (
      r,
      record {
        valid = r.valid;
        small = r.small;
        apart = r.apart;
        held =
            All-map _ (Owns r.pools) (ls ++ rs) (λ c k. r.kept c k.0 k.1)
              (All-both (Owns s.alloc.pools) (λ c. IsDisjoint c b) (ls ++ rs) held apart);
        disjoint = disjoint;
      },
    )

module _ (dev : Device) (d : IsDevice dev) where
  pim_free-IsSession :
      (s : Session) (ls rs : List Block) (b : Block) (c : Allocator)
      → IsSession dev s
      → s.live ≡ ls ++ b ∷ rs
      → pim_free b.addr s.alloc ≡ ok c
      → IsSession dev (record { alloc = c; live = ls ++ rs })
  pim_free-IsSession s ls rs b c w e h =
      let lo = dev.mapped in
      let hi = dev.mapped + s.alloc.driver.total_size in
      let blocks = subst (AreHeld lo hi s.alloc.pools) e w.blocks in
      let (r, held) = freed-AreHeld lo hi s ls rs b blocks in
      let f = pim_free_lem b.addr s.alloc r.pools r.freed in
      let same : record s.alloc { pools = r.pools } ≡ c = cc in
      let own = (All-remove (Owns s.alloc.pools) ls b rs blocks.held).0 in
      let started : IsStarted dev (record s.alloc { pools = r.pools }) = elim w.started [
        | inl (unset, no_pool) ↦ absurd (subst (λ ps. Owns ps b) no_pool own)
        | inr u ↦ inr u
      ] in
      subst (λ (x : Allocator). IsSession dev (record { alloc = x; live = ls ++ rs })) same
        (record { started = started; total = w.total; blocks = held })

  real_free-IsSession :
      (s : Session)
      → IsSession dev s
      → IsSession dev (record { alloc = real_free s.alloc; live = [] })
  unfolding real_free release_pim_drv
  real_free-IsSession s w = record {
    started = inl (refl, refl);
    total = w.total;
    blocks = no_blocks dev.mapped _ (omega arith);
  }

  -- A call on a library that is set up.
  malloc_in-IsSession :
      (s : Session) (size curr : ℕ) (b : Allocator) (out : ℕ × Allocator)
      → size ≤ huge_page_size
      → IsSetUp dev b
      → b.driver.total_size ≤ dev.info_size
      → AreHeld dev.mapped (dev.mapped + b.driver.total_size) b.pools s.live
      → malloc_in dev size (curr, b) ≡ ok out
      → IsSession dev (given (nalloc_pages size) s out)
  malloc_in-IsSession s size curr b out le u t w h =
      malloc_small-IsSession dev d size curr (record { alloc = b; live = s.live }) out le u t w
        (sym (malloc_in_small dev size curr b le) ∙ h)

  pim_malloc-IsSession :
      (s : Session) (size : ℕ) (out : ℕ × Allocator)
      → IsSession dev s
      → size ≤ huge_page_size
      → pim_malloc dev size s.alloc ≡ ok out
      → IsSession dev (given (nalloc_pages size) s out)
  unfolding pim_malloc
  pim_malloc-IsSession s size out w le h =
      let a = s.alloc in
      let ((curr, b), e, g) = chain-BothReturn (ensure_init dev a a.curr_mem_pool) _ h in
      elim w.started [
        | inl (unset, no_pool) ↦
            let first : first_call dev a ≡ ok (curr, b) =
              subst (λ x. ensure_init dev a x ≡ ok (curr, b)) unset e in
            let (u, t, held) =
              first_call-AreHeld dev d a s.live curr b no_pool w.total w.blocks first in
            malloc_in-IsSession s size curr b out le u t held g
        | inr (at, set, u) ↦
            let same : ok (at, a) ≡ ok (curr, b) =
              subst (λ x. ensure_init dev a x ≡ ok (curr, b)) set e in
            let pair : (at, a) ≡ (curr, b) = cc in
            let known = subst (λ (x : ℕ × Allocator). malloc_in dev size x ≡ ok out) (sym pair) g in
            malloc_in-IsSession s size at a out le u w.total w.blocks known
      ]

  Step-IsSession : (s t : Session) → Step dev s t → IsSession dev s → IsSession dev t
  Step-IsSession s t (malloc size addr le h e) w =
      subst (λ l. IsSession dev (record { alloc = t.alloc; live = l })) (sym e)
        (pim_malloc-IsSession s size (addr, t.alloc) w le h)
  Step-IsSession s t (free ls rs b e h f) w =
      subst (λ l. IsSession dev (record { alloc = t.alloc; live = l })) (sym f)
        (pim_free-IsSession s ls rs b t.alloc w e h)
  Step-IsSession s t (release e f) w =
      subst (IsSession dev) (sym (ap₂ (λ a l. record { alloc = a; live = l }) e f))
        (real_free-IsSession s w)

  pub Reach-IsSession : {s t : Session} → Reach dev s t → IsSession dev s → IsSession dev t
  Reach-IsSession here w = w
  Reach-IsSession (further {t} {u} r st) w = Step-IsSession t u st (Reach-IsSession r w)

-- A block of a session can be given back.
IsSession-free :
    (dev : Device) (t : Session) (b : Block)
    → IsSession dev t
    → Owns t.alloc.pools b
    → (c : Allocator) × (pim_free b.addr t.alloc ≡ ok c)
IsSession-free dev t b w own =
    let r =
      Owns-IsReleased t.alloc.pools b dev.mapped _ w.blocks.valid w.blocks.small w.blocks.apart
        own in
    (record t.alloc { pools = r.pools }, pim_free_lem b.addr t.alloc r.pools r.freed)

IsSession-window :
    (dev : Device) (t : Session) (b : Block)
    → IsSession dev t
    → Owns t.alloc.pools b
    → (dev.mapped ≤ b.addr) × (end_of b ≤ dev.mapped + dev.info_size)
IsSession-window dev t b w own =
    let (lo, hi) = Owns-bounds t.alloc.pools b dev.mapped _ w.blocks.apart own in
    (lo, omega (arith, w.total))

-- From the library as it is loaded, after any sequence of calls of `pim_malloc` for sizes of at
-- most one huge page, calls of `pim_free` for blocks that are live, and calls of `_real_free`: no
-- two live blocks overlap, each lies in the window that the device gave, and `pim_free` of each
-- succeeds.
pub Reach-disjoint :
    (dev : Device) (s t : Session)
    → IsDevice dev
    → IsLoaded s
    → Reach dev s t
    → AreDisjoint t.live
      × All (λ b. (dev.mapped ≤ b.addr) × (end_of b ≤ dev.mapped + dev.info_size)) t.live
      × All (λ b. (c : Allocator) × (pim_free b.addr t.alloc ≡ ok c)) t.live
Reach-disjoint dev s t d v r =
    let w = Reach-IsSession dev d r (IsLoaded-IsSession dev s v) in
    (
      w.blocks.disjoint,
      All-map (Owns t.alloc.pools) _ t.live (λ b own. IsSession-window dev t b w own) w.blocks.held,
      All-map (Owns t.alloc.pools) _ t.live (λ b own. IsSession-free dev t b w own) w.blocks.held,
    )
