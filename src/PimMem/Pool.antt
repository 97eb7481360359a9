-- ===== src/PimMem/Pool.antt =====
-- `struct mem_pool` and `struct page` of src/mem_src/pim_mem.c, and the operations on one pool.
pub mod Laws
use lut_pim_driver.Prelude.{
  ℕ, zero, suc, ◌+◌, ◌-◌, ◌*◌, List, [], ◌∷◌, Option, none, some, Bool, true, false, u32, sub_u32,
  replicate,
}
use lut_pim_driver.PimMem.BitVector.{free_page, used_page, fill, find_pages}

abbrev pub huge_page_size : ℕ
huge_page_size = 0x200000

abbrev pub page_size : ℕ
page_size = 4096

abbrev pub num_pages : ℕ
num_pages = 512

pub record Page : Type 0 where
  pub addr : ℕ
  pub alloc_size : ℕ

-- `next` and `prev` are the neighbours in the list of pools (Malloc.antt).
pub record MemPool : Type 0 where
  pub start_va : ℕ
  pub curr_idx : ℕ
  pub nfree_pages : ℕ
  pub large_mem_pool : Bool
  pub head_page : List Page
  pub bit_vector : List ℕ

-- `page_obj[i]`, ..., `n` of them; `alloc_size` is what `malloc` left there.
unfoldable pub pages : (uninit : ℕ → ℕ) (start_va i n : ℕ) → List Page
pages uninit start_va i zero = []
pages uninit start_va i (suc n) =
    record { addr = start_va + i * page_size; alloc_size = uninit i }
    ∷ pages uninit start_va (i + 1) n

-- A pool at `start_va`, as both allocation functions fill it in.
unfoldable pub new_pool : (uninit : ℕ → ℕ) (start_va nfree_pages : ℕ) (large : Bool) → MemPool
unfolding pages
new_pool uninit start_va nfree_pages large = record {
  start_va = start_va;
  curr_idx = 0;
  nfree_pages = nfree_pages;
  large_mem_pool = large;
  head_page = pages uninit start_va 0 num_pages;
  bit_vector = replicate num_pages free_page;
}

-- `_set_bit_vector`; `none` is the returned -1, where the pool is as it was.
unfoldable pub set_bit_vector : MemPool → (nalloc_pages : ℕ) → Option (ℕ × MemPool)
unfolding find_pages
set_bit_vector pool nalloc_pages = elim (find_pages pool.bit_vector pool.curr_idx nalloc_pages) [
  | none ↦ none
  | some idx ↦ some (
    idx,
    record pool {
      bit_vector = fill pool.bit_vector idx nalloc_pages used_page;
      nfree_pages = sub_u32 pool.nfree_pages nalloc_pages;
      curr_idx = u32 (idx + nalloc_pages);
    },
  )
]

-- `_clr_bit_vector`.
unfoldable pub clr_bit_vector : MemPool → (idx nalloc_pages : ℕ) → MemPool
clr_bit_vector pool idx nalloc_pages = record pool {
  bit_vector = fill pool.bit_vector idx nalloc_pages free_page;
  curr_idx = idx;
  nfree_pages = u32 (pool.nfree_pages + nalloc_pages);
}
