-- ===== src/HostDma/Buffers.antt =====
-- `host_dma_mmap` and `host_dma_release` of src/drv_src/host_fops.c.
pub mod Laws
pub mod Session
use lut_pim_driver.Prelude.{
  ℕ, ◌+◌, ◌/◌, List, [], ◌∷◌, Option, none, some, ◌==◌, leb, if◌then◌else◌,
}
use lut_pim_driver.HostDma.{
  HostCode, success, emem_fault, mmap_error, Policy, wc, uc, undefined, Slot, HostDma,
}

-- The calls of the kernel; `set_memory` changes the caching of a number of pages.
pub data BufferCall : Type 0 where
  dma_alloc : Policy → (len ptr handle : ℕ) → BufferCall
  set_memory : Policy → (ptr pages : ℕ) → BufferCall
  set_memory_wb : (ptr pages : ℕ) → BufferCall
  dma_mmap : Policy → (ptr handle len : ℕ) → BufferCall
  dma_free : Policy → (len ptr handle : ℕ) → BufferCall

-- A mapping succeeds, or gives an error below 0.
pub data Mapping : Type 0 where
  mapped : Mapping
  not_mapped : (errno : ℕ) → Mapping

-- What `dma_alloc_writecombine` and `dma_alloc_coherent` give (an address and a bus address, or
-- NULL), and the two functions that map; they depend on the calls so far, the latest one first.
pub record BufferKernel : Type 0 where
  pub alloc : List BufferCall → Policy → (len : ℕ) → Option (ℕ × ℕ)
  pub mmap : List BufferCall → Policy → (ptr handle len : ℕ) → Mapping

pub record Buffers : Type 0 where
  pub host_dma : HostDma
  pub calls : List BufferCall

abbrev pub page_size : ℕ
page_size = 0x1000

-- The slot behind a call for `len` bytes that gives `got`.
abbrev pub filled : (len : ℕ) → Slot → Option (ℕ × ℕ) → Slot
filled len slot none = record slot { alloc_ptr = 0; alloc_len = len }
filled len slot (some (ptr, handle)) = record {
  alloc_ptr = ptr;
  alloc_len = len;
  dma_handle = handle;
}

-- What becomes of the slots.
abbrev pub update0 : (len : ℕ) → Option (ℕ × ℕ) → HostDma → HostDma
update0 len got h = record h { slot0 = filled len h.slot0 got }

abbrev pub update1 : (len : ℕ) → Option (ℕ × ℕ) → HostDma → HostDma
update1 len got h = record h { slot1 = filled len h.slot1 got }

-- The length goes to the slot before any check.
abbrev pub with_len0 : (len : ℕ) → Buffers → Buffers
with_len0 len s = record s {
  host_dma = record s.host_dma { slot0 = record s.host_dma.slot0 { alloc_len = len } };
}

abbrev pub with_len1 : (len : ℕ) → Buffers → Buffers
with_len1 len s = record s {
  host_dma = record s.host_dma { slot1 = record s.host_dma.slot1 { alloc_len = len } };
}

-- The test of the result of the mapping.
unfoldable pub end_mmap : Mapping → Buffers → HostCode × Buffers
end_mmap (not_mapped errno) s = (mmap_error errno, s)
end_mmap mapped s =
    (success, record s { host_dma = record s.host_dma { alloc_cnt = s.host_dma.alloc_cnt + 1 } })

module _ (k : BufferKernel) where
  -- The mapping of a buffer.
  unfoldable pub finish_mmap : (len : ℕ) → Policy → (ptr handle : ℕ) → Buffers → HostCode × Buffers
  unfolding end_mmap
  finish_mmap len policy ptr handle s =
      let cs = set_memory policy ptr (len / page_size) ∷ s.calls in
      let t = record s { calls = dma_mmap policy ptr handle len ∷ cs } in
      end_mmap (k.mmap cs policy ptr handle len) t

  -- What a call for a buffer gives, `update` writes the slot.
  unfoldable pub take_buffer :
      (len : ℕ)
      → Policy
      → (update : Option (ℕ × ℕ) → HostDma → HostDma) → Option (ℕ × ℕ)
      → Buffers
      → HostCode × Buffers
  unfolding finish_mmap
  take_buffer len policy update none s =
      (emem_fault, record s { host_dma = update none s.host_dma })
  take_buffer len policy update (some (ptr, handle)) s = finish_mmap len policy ptr handle (record {
    host_dma = update (some (ptr, handle)) s.host_dma;
    calls = dma_alloc policy len ptr handle ∷ s.calls;
  })

  -- The branch for one slot, behind its check of the length.
  unfoldable pub mmap_slot :
      (len : ℕ)
      → Policy
      → (update : Option (ℕ × ℕ) → HostDma → HostDma) → Buffers
      → HostCode × Buffers
  unfolding take_buffer
  mmap_slot len wc update s = take_buffer len wc update (k.alloc s.calls wc len) s
  mmap_slot len uc update s = take_buffer len uc update (k.alloc s.calls uc len) s
  mmap_slot len undefined update s = (emem_fault, s)

  -- `len` is `vma->vm_end - vma->vm_start`.
  unfoldable pub host_dma_mmap : (len : ℕ) → Buffers → HostCode × Buffers
  unfolding mmap_slot
  host_dma_mmap len s =
      if s.host_dma.alloc_cnt == 0
      then if leb 0x400000 len
        then (emem_fault, with_len0 len s)
        else mmap_slot len s.host_dma.mempolicy (update0 len) (with_len0 len s)
      else if s.host_dma.alloc_cnt == 1
      then mmap_slot len s.host_dma.mempolicy (update1 len) (with_len1 len s)
      else (emem_fault, s)

-- Giving one buffer back, `none` at the early return.
unfoldable pub free_slot : Policy → Slot → List BufferCall → Option (List BufferCall)
free_slot wc slot cs = some (
    dma_free wc slot.alloc_len slot.alloc_ptr slot.dma_handle
    ∷ set_memory_wb slot.alloc_ptr (slot.alloc_len / page_size)
    ∷ cs)
free_slot uc slot cs = some (
    dma_free uc slot.alloc_len slot.alloc_ptr slot.dma_handle
    ∷ set_memory_wb slot.alloc_ptr (slot.alloc_len / page_size)
    ∷ cs)
free_slot undefined slot cs = none

-- The early return behind `set_memory_wb`.
abbrev pub stopped : Slot → Buffers → HostCode × Buffers
stopped slot s = (
  emem_fault,
  record s { calls = set_memory_wb slot.alloc_ptr (slot.alloc_len / page_size) ∷ s.calls },
)

unfoldable pub release1 : Option (List BufferCall) → Buffers → HostCode × Buffers
release1 none s = stopped s.host_dma.slot1 s
release1 (some cs) s = (
  success,
  record {
    host_dma = record s.host_dma { slot1 = record s.host_dma.slot1 { alloc_ptr = 0 } };
    calls = cs;
  },
)

unfoldable pub release_second : Buffers → HostCode × Buffers
unfolding release1 free_slot
release_second s =
    if s.host_dma.slot1.alloc_ptr == 0
    then (success, s)
    else release1 (free_slot s.host_dma.mempolicy s.host_dma.slot1 s.calls) s

unfoldable pub release0 : Option (List BufferCall) → Buffers → HostCode × Buffers
unfolding release_second
release0 none s = stopped s.host_dma.slot0 s
release0 (some cs) s = release_second (record {
  host_dma = record s.host_dma { slot0 = record s.host_dma.slot0 { alloc_ptr = 0 } };
  calls = cs;
})

unfoldable pub host_dma_release : Buffers → HostCode × Buffers
unfolding release0 release_second free_slot
host_dma_release s =
    let t = record s { host_dma = record s.host_dma { alloc_cnt = 0 } } in
    if t.host_dma.slot0.alloc_ptr == 0
    then release_second t
    else release0 (free_slot t.host_dma.mempolicy t.host_dma.slot0 t.calls) t
