-- ===== src/HostDma/Ioctl/Kept.antt =====
-- What becomes of the buffers of `host_dma_ioctl`, whatever the kernel and the engine answer.
use lut_pim_driver.Prelude.{ℕ, ◌+◌, ◌≡◌, ◌⊎◌, List, Option, if◌then◌else◌}
use lut_pim_driver.Cdma.{IoctlInfo}
use lut_pim_driver.Chunks.{copy_len}
use lut_pim_driver.Kernel.{Call, Kernel, alloc_call, given}
use lut_pim_driver.HostDma.{HostCode, edma_tx, eioctl, efault, bad_access, HostDma}
use lut_pim_driver.HostDma.Memcpy.{DmaEngine}
use lut_pim_driver.HostDma.Ioctl.{HostCommand, host2host, host2fpga, is_bad}
use lut_pim_driver.HostDma.Ioctl.Rounds.{IsOut}

-- The buffers that a call keeps, by its result: none behind a success; the first one behind a
-- direct return; the second one behind `goto error`, if the case got that far.
abbrev pub kept_at_error : HostCommand → IoctlInfo → (dst : Option ℕ) → ℕ
kept_at_error host2host info dst = if is_bad info then 0 else given dst
kept_at_error host2fpga info dst = if is_bad info then 0 else given dst
kept_at_error _ info dst = 0

abbrev pub kept : HostCommand → IoctlInfo → (alloc dst : Option ℕ) → HostCode → ℕ
kept cmd info alloc dst efault = kept_at_error cmd info dst
kept cmd info alloc dst eioctl = given alloc
kept cmd info alloc dst edma_tx = given alloc
kept cmd info alloc dst _ = 0

-- The access was bad, or exactly these buffers are out, besides `n`.
abbrev pub IsLeft :
    HostCommand → IoctlInfo → (alloc dst : Option ℕ) → (n : ℕ) → HostCode × List Call → Type 0
IsLeft cmd info alloc dst n (c, cs) = (c ≡ bad_access) ⊎ IsOut (n + kept cmd info alloc dst c) cs

module _ (va_to_pa : ℕ → ℕ) (e : DmaEngine) (k : Kernel) (info : IoctlInfo) (n : ℕ) where
  -- The second buffer that a case asks for.
  abbrev pub second : (alloc : Option ℕ) → List Call → Option ℕ
  second alloc cs =
      k.dma_alloc_coherent (alloc_call (copy_len info.length) alloc cs) (copy_len info.length)
