-- ===== src/Tests/Ps.antt =====
-- The buffers of src/drv_src/ps_fops.c at concrete inputs.
use lut_pim_driver.Prelude.{
  ℕ, ◌+◌, ◌<◌, ◌≡◌, ◌⊎◌, refl, ap, List, [], ◌∷◌, Option, none, some, arith,
}
use lut_pim_driver.PsDma.{PsBuffer, PsDma, PsKernel, ps_dma_mmap, ps_dma_release}
use lut_pim_driver.PsDma.Laws.{
  allocs, frees, held, IsKernel, PsFileCall, ps_mmap, ps_calls, ps_lost, ps_dma_release-lost,
}

abbrev no_buffer : PsBuffer
no_buffer = record { alloc_ptr = 0; alloc_len = 0; dma_handle = 0 }

abbrev unused : PsDma
unused = record { buffer0 = no_buffer; buffer1 = no_buffer; ps_alloc_cnt = 0; calls = [] }

-- No mapping succeeds.
abbrev refuses : PsKernel
refuses = record { alloc = λ cs len. some (0x5000, 0x6000); map = λ cs ptr handle len. some 12 }

abbrev address : Option (ℕ × ℕ) → ℕ
address none = 0
address (some (ptr, handle)) = ptr

refuses-IsKernel : IsKernel refuses
refuses-IsKernel cs len ptr handle h = let e : 0x5000 ≡ ptr = ap address h in omega (arith, e)

abbrev two_maps : List PsFileCall
two_maps = ps_mmap 0x2000 ∷ ps_mmap 0x3000 ∷ []

ps_dma_release-lost_example :
    (allocs 0x5000 0x6000 (ps_dma_release (ps_calls refuses two_maps unused)).1.calls
      ≡ frees 0x5000 0x6000 (ps_dma_release (ps_calls refuses two_maps unused)).1.calls
        + ps_lost refuses 0x5000 0x6000 two_maps unused)
    × (held (ps_dma_release (ps_calls refuses two_maps unused)).1.buffer0 ≡ 0)
    × (held (ps_dma_release (ps_calls refuses two_maps unused)).1.buffer1 ≡ 0)
    × ((ps_dma_release (ps_calls refuses two_maps unused)).1.ps_alloc_cnt ≡ 0)
    × (((ps_calls refuses two_maps unused).ps_alloc_cnt < 2)
        ⊎ ((ps_dma_mmap refuses 0x1000 (ps_calls refuses two_maps unused)).1
            ≡ record (ps_calls refuses two_maps unused) {
              ps_alloc_cnt = (ps_calls refuses two_maps unused).ps_alloc_cnt + 1;
            }))
ps_dma_release-lost_example =
    ps_dma_release-lost refuses two_maps unused 0x5000 0x6000 0x1000 refuses-IsKernel refl
