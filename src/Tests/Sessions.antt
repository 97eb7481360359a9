-- ===== src/Tests/Sessions.antt =====
-- A session of the allocator of src/mem_src/pim_mem.c.
use lut_pim_driver.Prelude.{ℕ, ◌+◌, ◌*◌, ◌≤◌, ◌≡◌, [], ◌∷◌, none, refl, false, arith}
use lut_pim_driver.PimMem.Driver.{Result, ok, abort}
use lut_pim_driver.PimMem.BitVector.{fill, starts_with}
use lut_pim_driver.PimMem.Pool.{huge_page_size, new_pool}
use lut_pim_driver.PimMem.Malloc.{Allocator, nalloc_pages, pim_malloc}
use lut_pim_driver.PimMem.Free.{pim_free}
use lut_pim_driver.PimMem.Session.{Block, Session, malloc, free, Reach, here, further}
use lut_pim_driver.PimMem.Session.Blocks.{end_of}
use lut_pim_driver.PimMem.Session.Invariant.{All, AreDisjoint}
use lut_pim_driver.PimMem.Session.Given.{IsDevice, IsLoaded}
use lut_pim_driver.PimMem.Session.Laws.{Reach-disjoint}
use lut_pim_driver.PimMem.Session.Live.{pim_malloc_live}
use lut_pim_driver.Tests.Mem.{device}

abbrev loaded : Allocator
loaded = record {
  ntotal_mem_pools = 0;
  curr_mem_pool = none;
  pools = [];
  driver = record { pim_mem = 0; pim_mem_size = 0; pim_mem_fd = false; total_size = 0 };
}

abbrev result_of : Result (ℕ × Allocator) → ℕ × Allocator
result_of (ok out) = out
result_of abort = (0, loaded)

abbrev state_of : Result Allocator → Allocator
state_of (ok a) = a
state_of abort = loaded

-- 10000 and 5000 bytes, and then the first block again.
abbrev first_given : Allocator
first_given = (result_of (pim_malloc device 10000 loaded)).1

abbrev both_given : Allocator
both_given = (result_of (pim_malloc device 5000 first_given)).1

abbrev one_freed : Allocator
one_freed = state_of (pim_free 0x7f0000000000 both_given)

malloc_first : pim_malloc device 10000 loaded ≡ ok (0x7f0000000000, first_given)
unfolding pim_malloc new_pool starts_with fill
malloc_first = refl

malloc_second : pim_malloc device 5000 first_given ≡ ok (0x7f0000003000, both_given)
unfolding pim_malloc new_pool starts_with fill
malloc_second = refl

free_first : pim_free 0x7f0000000000 both_given ≡ ok one_freed
unfolding pim_malloc pim_free new_pool starts_with fill
free_first = refl

abbrev first_block : Block
first_block = record { addr = 0x7f0000000000; npages = 3 }

abbrev second_block : Block
second_block = record { addr = 0x7f0000003000; npages = 2 }

abbrev pub at_load : Session
at_load = record { alloc = loaded; live = [] }

abbrev pub both_live : Session
both_live = record { alloc = both_given; live = second_block ∷ first_block ∷ [] }

pub at_load-IsLoaded : IsLoaded at_load
at_load-IsLoaded = record { unset = refl; no_pool = refl; nothing_live = refl; window = refl }

device-IsDevice : IsDevice device
device-IsDevice = record { mapped = omega arith; word = omega arith }

pub both_live-Reach : Reach device at_load both_live
unfolding nalloc_pages
both_live-Reach =
    further
      (further {t = at_load} {u = record { alloc = first_given; live = first_block ∷ [] }} here
        (malloc 10000 0x7f0000000000 (omega arith) malloc_first refl))
      (malloc 5000 0x7f0000003000 (omega arith) malloc_second refl)

one_freed-Reach : Reach device at_load (record { alloc = one_freed; live = second_block ∷ [] })
one_freed-Reach =
    further both_live-Reach (free (second_block ∷ []) [] first_block refl free_first refl)

Reach-disjoint_example :
    AreDisjoint both_live.live
    × All (λ b. (0x7f0000000000 ≤ b.addr) × (end_of b ≤ 0x7f0000000000 + 0x10000000)) both_live.live
    × All (λ b. (c : Allocator) × (pim_free b.addr both_live.alloc ≡ ok c)) both_live.live
Reach-disjoint_example =
    Reach-disjoint device at_load both_live device-IsDevice at_load-IsLoaded both_live-Reach

-- The window has room for two more pools.
window_left : one_freed.driver.total_size + 2 * huge_page_size ≤ device.info_size
unfolding pim_malloc pim_free new_pool starts_with fill
window_left = omega arith

pim_malloc_live_example : (out : ℕ × Allocator) × (pim_malloc device 0x200000 one_freed ≡ ok out)
pim_malloc_live_example =
    pim_malloc_live device at_load (record { alloc = one_freed; live = second_block ∷ [] }) 0x200000
      device-IsDevice (record { opens = refl; placed = λ e. omega (arith, e) }) at_load-IsLoaded
      one_freed-Reach (omega arith) window_left
