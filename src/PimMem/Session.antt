-- ===== src/PimMem/Session.antt =====
-- Sequences of calls of `pim_malloc`, `pim_free` and `_real_free` of src/mem_src/pim_mem.c, for
-- sizes of at most one huge page.
pub mod Blocks
pub mod Taken
pub mod Freed
pub mod Outcomes
pub mod Invariant
pub mod Given
pub mod First
pub mod Laws
pub mod Live
use lut_pim_driver.Prelude.{ℕ, ◌+◌, ◌*◌, ◌≤◌, ◌≡◌, List, [], ◌∷◌, ◌++◌}
use lut_pim_driver.PimMem.Driver.{ok, Device}
use lut_pim_driver.PimMem.Pool.{huge_page_size}
use lut_pim_driver.PimMem.Malloc.{Allocator, nalloc_pages, pim_malloc}
use lut_pim_driver.PimMem.Free.{pim_free, real_free}

-- An address that `pim_malloc` returned, and the number of pages behind it.
pub record Block : Type 0 where
  pub addr : ℕ
  pub npages : ℕ

-- The library, and the blocks that it gave and did not get back.
pub record Session : Type 0 where
  pub alloc : Allocator
  pub live : List Block

-- A call that returns; the program frees what it was given, once.
pub data Step (dev : Device) (s t : Session) : Type 0 where
  malloc :
      (size addr : ℕ)
      → size ≤ huge_page_size
      → pim_malloc dev size s.alloc ≡ ok (addr, t.alloc)
      → t.live ≡ record { addr = addr; npages = nalloc_pages size } ∷ s.live
      → Step dev s t
  free :
      (ls rs : List Block) (b : Block)
      → s.live ≡ ls ++ b ∷ rs
      → pim_free b.addr s.alloc ≡ ok t.alloc
      → t.live ≡ ls ++ rs
      → Step dev s t
  release : t.alloc ≡ real_free s.alloc → t.live ≡ [] → Step dev s t

pub data Reach (dev : Device) (s : Session) : Session → Type 0 where
  here : Reach dev s s
  further : {t u : Session} → Reach dev s t → Step dev t u → Reach dev s u
