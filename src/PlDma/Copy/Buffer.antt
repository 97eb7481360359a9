-- ===== src/PlDma/Copy/Buffer.antt =====
-- What becomes of the buffer of a copy by chunk, whatever the kernel and the engine answer.
use lut_pim_driver.Prelude.{ℕ, ◌+◌, ◌≡◌, refl, List, true, Option, none, some, arith}
use lut_pim_driver.Cdma.{CdmaDev, IoctlInfo}
use lut_pim_driver.Chunks.{Round, goes_on, leaves, for_chunks-Ends, Ends, copy_len_int}
use lut_pim_driver.Kernel.{Call, alloc, Kernel, allocs, frees, given}
use lut_pim_driver.PlDma.{Code, success, edma_tx, edma_intr, efault, Engine}
use lut_pim_driver.PlDma.Copy.{
  Copying, failed, called, single_tx, copy_by_chunk, copy_with, free_buffer, pl2ps_chunk,
  ps2pl_chunk, memcpy_pl2ps, memcpy_ps2pl,
}

-- A success gives back the buffer that it took; an error gives none back.
abbrev pub IsKept : (got : Option ℕ) → (before : List Call) → Code × Copying → Type 0
IsKept got before (success r, s) =
    (allocs s.calls ≡ allocs before + 1) × (frees s.calls ≡ frees before + 1)
IsKept got before (c, s) =
    (allocs s.calls ≡ allocs before + given got) × (frees s.calls ≡ frees before)

module _ (d : CdmaDev) (hw : Engine) (k : Kernel) (info : IoctlInfo) (before : List Call) where
  -- One buffer is held; an early return is an error.
  abbrev Holds : Copying → Type 0
  Holds s = (allocs s.calls ≡ allocs before + 1) × (frees s.calls ≡ frees before)

  abbrev LeavesIt : Code → Copying → Type 0
  LeavesIt c s = (failed c ≡ true) × Holds s

  pl2ps_chunk-Ends :
      (handle len i : ℕ) (s : Copying)
      → Holds s
      → Ends LeavesIt Holds (pl2ps_chunk d hw k info handle len i s)
  unfolding pl2ps_chunk single_tx
  pl2ps_chunk-Ends handle len i s h = ground arith

  ps2pl_chunk-Ends :
      (handle len i : ℕ) (s : Copying)
      → Holds s
      → Ends LeavesIt Holds (ps2pl_chunk d hw k info handle len i s)
  unfolding ps2pl_chunk single_tx
  ps2pl_chunk-Ends handle len i s h = ground arith

  -- A copy that got its buffer.
  free_buffer-IsKept :
      (handle : ℕ) (r : Round Code Copying)
      → Ends LeavesIt Holds r
      → IsKept (some handle) before (free_buffer d hw k info handle r)
  unfolding free_buffer
  free_buffer-IsKept handle (goes_on s) h = (h.0, omega (arith, h.1))
  free_buffer-IsKept handle (leaves (success r) s) h = absurd (ground (arith, h.0))
  free_buffer-IsKept handle (leaves edma_tx s) h = h.1
  free_buffer-IsKept handle (leaves edma_intr s) h = h.1
  free_buffer-IsKept handle (leaves efault s) h = h.1

  copy_with-IsKept :
      (chunk : (handle len i : ℕ) → Copying → Round Code Copying)
      → ((handle len i : ℕ) (s : Copying) → Holds s → Ends LeavesIt Holds (chunk handle len i s))
      → (len n : ℕ) (got : Option ℕ) (s : Copying) → s.calls ≡ before
      → IsKept got before (copy_with d hw k info chunk len n got s)
  unfolding copy_with
  copy_with-IsKept chunk h len n none s e = rw e (omega arith, refl)
  copy_with-IsKept chunk h len n (some handle) s e = free_buffer-IsKept handle _ (
      for_chunks-Ends LeavesIt Holds (chunk handle len) (h handle len) n 0
        (called (alloc len handle) s) (rw e (refl, refl)))

-- Whatever the kernel and the engine answer, MEMCPY_PL2PS and MEMCPY_PS2PL give back a buffer that
-- they took if they succeed, and only then: each return with an error behind the allocation keeps
-- the buffer taken.
pub copy_by_chunk-IsKept :
    (d : CdmaDev) (hw : Engine) (k : Kernel) (info : IoctlInfo) (s : Copying)
    → let got = k.dma_alloc_coherent s.calls (copy_len_int info.src_a_size) in
      IsKept got s.calls (memcpy_pl2ps d hw k info s)
      × IsKept got s.calls (memcpy_ps2pl d hw k info s)
unfolding memcpy_pl2ps memcpy_ps2pl copy_by_chunk
copy_by_chunk-IsKept d hw k info s = (
  copy_with-IsKept d hw k info s.calls _ (pl2ps_chunk-Ends d hw k info s.calls) _ _ _ s refl,
  copy_with-IsKept d hw k info s.calls _ (ps2pl_chunk-Ends d hw k info s.calls) _ _ _ s refl,
)
