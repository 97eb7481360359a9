-- ===== src/PlDma/Dispatch/Laws.antt =====
-- What holds of the driver's counters and of its buffers across any sequence of `pl_dma_ioctl`.
use lut_pim_driver.Prelude.{
  ℕ, ◌+◌, ◌≡◌, refl, List, [], ◌∷◌, Option, none, some, if◌then◌else◌, arith,
}
use lut_pim_driver.Cdma.{CdmaDev, IoctlInfo}
use lut_pim_driver.Chunks.{copy_len_int}
use lut_pim_driver.Kernel.{Call, Kernel, allocs, frees, given}
use lut_pim_driver.PlDma.{Code, success, edma_tx, edma_intr, efault, Engine}
use lut_pim_driver.PlDma.Copy.{Copying, failed, single_tx, memcpy_pl2pl}
use lut_pim_driver.PlDma.Copy.Buffer.{IsKept, copy_by_chunk-IsKept}
use lut_pim_driver.PlDma.Dispatch.{
  Request, run, copy_pl2pl, copy_pl2ps, copy_ps2pl, time_init, get_vm_time, get_ewadd_time,
  get_ewmul_time, get_ewsub_time, get_desc_time, invalid, PlState, no_time, reset, pl_dma_ioctl,
  calls,
}

-- The buffers that one request keeps: that of a copy by chunk that got one and then failed.
abbrev kept_by : (got : Option ℕ) → Code → ℕ
kept_by got c = if failed c then given got else 0

-- What a copy does to the balance.
IsKept-balance :
    (got : Option ℕ) (before : List Call) (c : Code) (s : Copying)
    → IsKept got before (c, s)
    → allocs s.calls + frees before ≡ frees s.calls + allocs before + kept_by got c
IsKept-balance got before (success r) s h = omega (arith, h.0, h.1)
IsKept-balance got before edma_tx s h = omega (arith, h.0, h.1)
IsKept-balance got before edma_intr s h = omega (arith, h.0, h.1)
IsKept-balance got before efault s h = omega (arith, h.0, h.1)

module _ (d : CdmaDev) (hw : Engine) (k : Kernel) where
  unfoldable pub kept : Request → Option IoctlInfo → PlState → ℕ
  unfolding pl_dma_ioctl
  kept req none s = 0
  kept copy_pl2ps (some info) s =
      kept_by (k.dma_alloc_coherent s.copying.calls (copy_len_int info.src_a_size))
        (pl_dma_ioctl d hw k copy_pl2ps (some info) s).0
  kept copy_ps2pl (some info) s =
      kept_by (k.dma_alloc_coherent s.copying.calls (copy_len_int info.src_a_size))
        (pl_dma_ioctl d hw k copy_ps2pl (some info) s).0
  kept _ (some info) s = 0

  unfoldable pub all_kept : List (Request × Option IoctlInfo) → PlState → ℕ
  unfolding kept pl_dma_ioctl
  all_kept [] s = 0
  all_kept ((req, arg) ∷ cs) s = kept req arg s + all_kept cs (pl_dma_ioctl d hw k req arg s).1

  -- The buffers of a state, and what a request makes of it.
  abbrev IsAccounted : (n : ℕ) → PlState → Type 0
  IsAccounted n s = (s.timers ≡ no_time) × (allocs s.copying.calls ≡ frees s.copying.calls + n)

  pl_dma_ioctl-IsAccounted :
      (req : Request) (arg : Option IoctlInfo) (s : PlState) (n : ℕ)
      → IsAccounted n s
      → IsAccounted (n + kept req arg s) (pl_dma_ioctl d hw k req arg s).1
  unfolding pl_dma_ioctl kept memcpy_pl2pl single_tx
  pl_dma_ioctl-IsAccounted req none s n h = (h.0, omega (arith, h.1))
  pl_dma_ioctl-IsAccounted (run cmd) (some info) s n h = (h.0, omega (arith, h.1))
  pl_dma_ioctl-IsAccounted copy_pl2pl (some info) s n h = (h.0, omega (arith, h.1))
  pl_dma_ioctl-IsAccounted copy_pl2ps (some info) s n h = (
    h.0,
    omega (
      arith,
      h.1,
      IsKept-balance _ s.copying.calls _ _ (copy_by_chunk-IsKept d hw k info (reset s).copying).0,
    ),
  )
  pl_dma_ioctl-IsAccounted copy_ps2pl (some info) s n h = (
    h.0,
    omega (
      arith,
      h.1,
      IsKept-balance _ s.copying.calls _ _ (copy_by_chunk-IsKept d hw k info (reset s).copying).1,
    ),
  )
  pl_dma_ioctl-IsAccounted time_init (some info) s n h = (refl, omega (arith, h.1))
  pl_dma_ioctl-IsAccounted get_vm_time (some info) s n h = (h.0, omega (arith, h.1))
  pl_dma_ioctl-IsAccounted get_ewadd_time (some info) s n h = (h.0, omega (arith, h.1))
  pl_dma_ioctl-IsAccounted get_ewmul_time (some info) s n h = (h.0, omega (arith, h.1))
  pl_dma_ioctl-IsAccounted get_ewsub_time (some info) s n h = (h.0, omega (arith, h.1))
  pl_dma_ioctl-IsAccounted get_desc_time (some info) s n h = (h.0, omega (arith, h.1))
  pl_dma_ioctl-IsAccounted invalid (some info) s n h = (h.0, omega (arith, h.1))

  all_kept_lem :
      (cs : List (Request × Option IoctlInfo)) (s : PlState) (n : ℕ)
      → IsAccounted n s
      → IsAccounted (n + all_kept cs s) (calls d hw k cs s)
  unfolding calls all_kept
  all_kept_lem [] s n h = (h.0, omega (arith, h.1))
  all_kept_lem ((req, arg) ∷ cs) s n h =
      let t = (pl_dma_ioctl d hw k req arg s).1 in
      let p = all_kept_lem cs t _ (pl_dma_ioctl-IsAccounted req arg s n h) in
      (p.0, omega (arith, p.1))

  -- Across any sequence of calls of `pl_dma_ioctl`, whatever the engine and the kernel answer, from
  -- a state where the timers are 0 and every buffer has been given back: the timers stay 0, and the
  -- buffers that are not given back are exactly those of the copies that got a buffer and failed.
  pub calls-IsAccounted :
      (cs : List (Request × Option IoctlInfo)) (s : PlState)
      → s.timers ≡ no_time
      → allocs s.copying.calls ≡ frees s.copying.calls
      → let t = calls d hw k cs s in
        (t.timers ≡ no_time) × (allocs t.copying.calls ≡ frees t.copying.calls + all_kept cs s)
  calls-IsAccounted cs s z b =
      let p = all_kept_lem cs s 0 (z, omega (arith, b)) in (p.0, omega (arith, p.1))
