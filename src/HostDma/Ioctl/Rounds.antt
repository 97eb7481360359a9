-- ===== src/HostDma/Ioctl/Rounds.antt =====
-- The rounds of the loops of `host_dma_ioctl` leave the buffers alone.
use lut_pim_driver.Prelude.{ℕ, ◌+◌, ◌≡◌, inl, inr, List, Option, none, some, arith, Bool-cases}
use lut_pim_driver.Cdma.{IoctlInfo}
use lut_pim_driver.Chunks.{Round, goes_on, leaves, Ends}
use lut_pim_driver.Kernel.{Call, Kernel, alloc_call, free_call, allocs, frees, given}
use lut_pim_driver.HostDma.{
  HostCode, success, emem_fault, edma_probe, edma_tx, eioctl, efault, mmap_error, bad_access,
}
use lut_pim_driver.HostDma.Memcpy.{DmaEngine, submit, dma_memcpy}
use lut_pim_driver.HostDma.Ioctl.{
  after_memcpy, user_to_buffer, buffer_to_user, host2host_chunk, host2fpga_chunk, fpga2host_chunk,
  ◌>>=◌,
}

-- `n` buffers are out.
abbrev pub IsOut : (n : ℕ) → List Call → Type 0
IsOut n cs = allocs cs ≡ frees cs + n

pub IsOut-alloc_call :
    (n len : ℕ) (got : Option ℕ) (cs : List Call)
    → IsOut n cs
    → IsOut (n + given got) (alloc_call len got cs)
IsOut-alloc_call n len none cs h = omega (arith, h)
IsOut-alloc_call n len (some handle) cs h = omega (arith, h)

pub IsOut-free_call :
    (n len : ℕ) (got : Option ℕ) (cs : List Call)
    → IsOut (n + given got) cs
    → IsOut n (free_call len got cs)
IsOut-free_call n len none cs h = omega (arith, h)
IsOut-free_call n len (some handle) cs h = omega (arith, h)

-- However a part ends, `n` buffers are out.
abbrev pub Keeps : (n : ℕ) → Round HostCode (List Call) → Type 0
Keeps n = Ends (λ c cs. IsOut n cs) (IsOut n)

module _ (e : DmaEngine) (n : ℕ) where
  pub dma_memcpy-IsOut :
      (dst src len : ℕ) (cs : List Call) → IsOut n cs → IsOut n (dma_memcpy e dst src len cs).1
  unfolding dma_memcpy submit
  dma_memcpy-IsOut dst src len cs h = ground (arith, h)

  after_memcpy-Keeps : (r : HostCode × List Call) → IsOut n r.1 → Keeps n (after_memcpy r)
  unfolding after_memcpy
  after_memcpy-Keeps (success, cs) h = h
  after_memcpy-Keeps (emem_fault, cs) h = h
  after_memcpy-Keeps (edma_probe, cs) h = h
  after_memcpy-Keeps (edma_tx, cs) h = h
  after_memcpy-Keeps (eioctl, cs) h = h
  after_memcpy-Keeps (efault, cs) h = h
  after_memcpy-Keeps (mmap_error n, cs) h = h
  after_memcpy-Keeps (bad_access, cs) h = h

  pub bind-Keeps :
      (r : Round HostCode (List Call)) (f : List Call → Round HostCode (List Call))
      → Keeps n r
      → ((cs : List Call) → IsOut n cs → Keeps n (f cs))
      → Keeps n (r >>= f)
  bind-Keeps (goes_on cs) f h g = g cs h
  bind-Keeps (leaves c cs) f h g = h

  module _ (k : Kernel) where
    pub user_to_buffer-Keeps :
        (addr len : ℕ) (cs : List Call) → IsOut n cs → Keeps n (user_to_buffer k addr len cs)
    unfolding user_to_buffer
    user_to_buffer-Keeps addr len cs h = elim (Bool-cases (k.copy_from_user cs addr len)) [
      | inl e ↦ rw e h
      | inr e ↦ rw e h
    ]

    buffer_to_user-Keeps :
        (addr len : ℕ) (cs : List Call) → IsOut n cs → Keeps n (buffer_to_user k addr len cs)
    unfolding buffer_to_user
    buffer_to_user-Keeps addr len cs h = elim (Bool-cases (k.copy_to_user cs addr len)) [
      | inl e ↦ rw e h
      | inr e ↦ rw e h
    ]

    module _ (va_to_pa : ℕ → ℕ) (info : IoctlInfo) where
      pub host2host_chunk-Keeps :
          (handle handle_dst len i : ℕ) (cs : List Call)
          → IsOut n cs
          → Keeps n (host2host_chunk va_to_pa e k info handle handle_dst len i cs)
      unfolding host2host_chunk
      host2host_chunk-Keeps handle handle_dst len i cs h =
          bind-Keeps _ _
            (bind-Keeps _ _ (user_to_buffer-Keeps _ len cs h)
              (λ cs h. after_memcpy-Keeps _ (dma_memcpy-IsOut handle_dst handle len cs h)))
            (buffer_to_user-Keeps _ len)

      pub host2fpga_chunk-Keeps :
          (handle len i : ℕ) (cs : List Call)
          → IsOut n cs
          → Keeps n (host2fpga_chunk va_to_pa e k info handle len i cs)
      unfolding host2fpga_chunk
      host2fpga_chunk-Keeps handle len i cs h =
          bind-Keeps _ _ (user_to_buffer-Keeps _ len cs h)
            (λ cs h. after_memcpy-Keeps _ (dma_memcpy-IsOut _ handle len cs h))

      pub fpga2host_chunk-Keeps :
          (handle len i : ℕ) (cs : List Call)
          → IsOut n cs
          → Keeps n (fpga2host_chunk va_to_pa e k info handle len i cs)
      unfolding fpga2host_chunk
      fpga2host_chunk-Keeps handle len i cs h =
          bind-Keeps _ _ (after_memcpy-Keeps _ (dma_memcpy-IsOut handle _ len cs h))
            (buffer_to_user-Keeps _ len)
