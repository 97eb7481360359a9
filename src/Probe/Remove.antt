-- ===== src/Probe/Remove.antt =====
-- `remove_pim_dma` of src/drv_src/dma_probe.c on x86: what it does with the buffers of the host DMA.
use lut_pim_driver.Prelude.{ℕ, ◌+◌, ◌/◌, ◌≡◌, ◌≢◌, List, [], ◌∷◌, false, ◌==◌, if◌then◌else◌, arith}
use lut_pim_driver.HostDma.{Policy, wc, uc, undefined, Slot}
use lut_pim_driver.HostDma.Buffers.{BufferCall, set_memory_wb, dma_free, Buffers, page_size}

abbrev pub wb_call : Slot → List BufferCall → List BufferCall
wb_call slot cs = set_memory_wb slot.alloc_ptr (slot.alloc_len / page_size) ∷ cs

abbrev pub free_call : Policy → Slot → List BufferCall → List BufferCall
free_call p slot cs = dma_free p slot.alloc_len slot.alloc_ptr slot.dma_handle ∷ cs

-- The branch for the first buffer, and the one for the second: with `WC` this one too names the
-- first buffer.
unfoldable pub remove_first : Policy → (slot0 : Slot) → List BufferCall → List BufferCall
remove_first wc slot0 cs = free_call wc slot0 (wb_call slot0 cs)
remove_first uc slot0 cs = free_call uc slot0 (wb_call slot0 cs)
remove_first undefined slot0 cs = wb_call slot0 cs

unfoldable pub remove_second : Policy → (slot0 slot1 : Slot) → List BufferCall → List BufferCall
remove_second wc slot0 slot1 cs = free_call wc slot0 (wb_call slot1 cs)
remove_second uc slot0 slot1 cs = free_call uc slot1 (wb_call slot1 cs)
remove_second undefined slot0 slot1 cs = wb_call slot1 cs

-- The addresses stay in the slots.
unfoldable pub remove_buffers : Buffers → Buffers
unfolding remove_first remove_second
remove_buffers s =
    let h = s.host_dma in
    let cs = if h.slot0.alloc_ptr == 0 then s.calls else remove_first h.mempolicy h.slot0 s.calls in
    record {
      host_dma = record h { alloc_cnt = 0 };
      calls = if h.slot1.alloc_ptr == 0 then cs else remove_second h.mempolicy h.slot0 h.slot1 cs;
    }

-- How often the buffer at an address is given back.
abbrev pub freed : (ptr : ℕ) → List BufferCall → ℕ
freed ptr [] = 0
freed ptr (dma_free p len a h ∷ cs) = if a == ptr then freed ptr cs + 1 else freed ptr cs
freed ptr (_ ∷ cs) = freed ptr cs

-- How often the removal gives back the two buffers of a policy.
abbrev pub first_freed : Policy → ℕ
first_freed wc = 2
first_freed uc = 1
first_freed undefined = 0

abbrev pub second_freed : Policy → ℕ
second_freed wc = 0
second_freed uc = 1
second_freed undefined = 0

remove-freed :
    (p : Policy) (slot0 slot1 : Slot) (cs : List BufferCall)
    → slot0.alloc_ptr ≢ slot1.alloc_ptr
    → let out = remove_second p slot0 slot1 (remove_first p slot0 cs) in
      (freed slot0.alloc_ptr out ≡ freed slot0.alloc_ptr cs + first_freed p)
      × (freed slot1.alloc_ptr out ≡ freed slot1.alloc_ptr cs + second_freed p)
unfolding remove_first remove_second
remove-freed wc slot0 slot1 cs ne = ground arith
remove-freed uc slot0 slot1 cs ne = ground arith
remove-freed undefined slot0 slot1 cs ne = ground arith

-- With two different buffers in the slots, the removal of the driver gives each back once if the
-- policy is UC, and none if it is neither WC nor UC; but if it is WC, it gives the first one back
-- twice and the second one not at all.
pub remove_buffers-freed :
    (s : Buffers)
    → s.host_dma.slot0.alloc_ptr ≢ 0
    → s.host_dma.slot1.alloc_ptr ≢ 0
    → s.host_dma.slot0.alloc_ptr ≢ s.host_dma.slot1.alloc_ptr
    → let h = s.host_dma in
      let out = remove_buffers s in
      (freed h.slot0.alloc_ptr out.calls
        ≡ freed h.slot0.alloc_ptr s.calls + first_freed h.mempolicy)
      × (freed h.slot1.alloc_ptr out.calls
          ≡ freed h.slot1.alloc_ptr s.calls + second_freed h.mempolicy)
unfolding remove_buffers
remove_buffers-freed s p q ne =
    let h = s.host_dma in
    let a : (h.slot0.alloc_ptr == 0) ≡ false = ground (arith, p) in
    let b : (h.slot1.alloc_ptr == 0) ≡ false = ground (arith, q) in
    rw (a, b) (remove-freed h.mempolicy h.slot0 h.slot1 s.calls ne)
