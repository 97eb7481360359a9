-- ===== src/HostDma/Ioctl.antt =====
-- `host_dma_ioctl` of src/drv_src/host_fops.c: copies by chunk through temporary buffers.
pub mod Rounds
pub mod Kept
pub mod Copies
use lut_pim_driver.Prelude.{
  ℕ, ◌+◌, List, ◌∷◌, Bool, true, false, ◌||◌, Option, none, some, ◌==◌, if◌then◌else◌, u64,
}
use lut_pim_driver.Cdma.{IoctlInfo}
use lut_pim_driver.Chunks.{Round, goes_on, leaves, for_chunks, chunk_offset, copy_len, num_chunk}
use lut_pim_driver.Kernel.{Call, from_user, to_user, Kernel, alloc_call, free_call}
use lut_pim_driver.HostDma.{
  HostCode, success, emem_fault, edma_probe, edma_tx, eioctl, efault, mmap_error, bad_access, Slot,
  HostDma,
}
use lut_pim_driver.HostDma.Memcpy.{DmaEngine, dma_memcpy}

pub data HostCommand : Type 0 where
  host2host : HostCommand
  host2fpga : HostCommand
  fpga2host : HostCommand
  h2h_zcpy : HostCommand
  other : HostCommand

-- The check of three cases.
unfoldable pub is_bad : IoctlInfo → Bool
is_bad info = info.length == 0 || info.dst_c_ptr == 0 || info.src_a_ptr == 0

-- A transfer in a loop: an error is `ret = -EDMA_TX; goto error`.
unfoldable pub after_memcpy : HostCode × List Call → Round HostCode (List Call)
after_memcpy (success, cs) = goes_on cs
after_memcpy (bad_access, cs) = leaves bad_access cs
after_memcpy (_, cs) = leaves edma_tx cs

-- Copies between the caller and a buffer: what is left uncopied is an error.
module _ (k : Kernel) where
  unfoldable pub user_to_buffer : (addr len : ℕ) → List Call → Round HostCode (List Call)
  user_to_buffer addr len cs =
      if k.copy_from_user cs addr len
      then leaves efault (from_user addr len ∷ cs)
      else goes_on (from_user addr len ∷ cs)

  unfoldable pub buffer_to_user : (addr len : ℕ) → List Call → Round HostCode (List Call)
  buffer_to_user addr len cs =
      if k.copy_to_user cs addr len
      then leaves efault (to_user addr len ∷ cs)
      else goes_on (to_user addr len ∷ cs)

-- One statement behind the other.
infixl 5 ◌>>=◌
abbrev pub ◌>>=◌ :
    Round HostCode (List Call)
    → (List Call → Round HostCode (List Call))
    → Round HostCode (List Call)
goes_on cs >>= f = f cs
leaves c cs >>= f = leaves c cs

module _ (va_to_pa : ℕ → ℕ) (e : DmaEngine) (k : Kernel) (info : IoctlInfo) where
  -- The rounds of the three loops; `handle` is the bus address of the first buffer.
  unfoldable pub host2host_chunk :
      (handle handle_dst len i : ℕ) → List Call → Round HostCode (List Call)
  unfolding after_memcpy user_to_buffer buffer_to_user dma_memcpy
  host2host_chunk handle handle_dst len i cs =
      user_to_buffer k (u64 (info.src_a_ptr + chunk_offset i)) len cs
      >>= (λ cs. after_memcpy (dma_memcpy e handle_dst handle len cs))
      >>= buffer_to_user k (u64 (info.dst_c_ptr + chunk_offset i)) len

  unfoldable pub host2fpga_chunk : (handle len i : ℕ) → List Call → Round HostCode (List Call)
  unfolding after_memcpy user_to_buffer dma_memcpy
  host2fpga_chunk handle len i cs =
      user_to_buffer k (u64 (info.src_a_ptr + chunk_offset i)) len cs >>= (λ cs.
        after_memcpy (dma_memcpy e (u64 (va_to_pa info.dst_c_ptr + chunk_offset i)) handle len cs))

  unfoldable pub fpga2host_chunk : (handle len i : ℕ) → List Call → Round HostCode (List Call)
  unfolding after_memcpy buffer_to_user dma_memcpy
  fpga2host_chunk handle len i cs =
      after_memcpy (dma_memcpy e handle (va_to_pa info.src_a_ptr) len cs)
      >>= buffer_to_user k (u64 (info.dst_c_ptr + chunk_offset i)) len

  -- The end of a case: `break`, or `goto error`, which gives back the first buffer only.
  unfoldable pub end_copy :
      (len : ℕ) (alloc dst : Option ℕ) → Round HostCode (List Call) → HostCode × List Call
  end_copy len alloc dst (goes_on cs) = (success, free_call len alloc (free_call len dst cs))
  end_copy len alloc dst (leaves bad_access cs) = (bad_access, cs)
  end_copy len alloc dst (leaves _ cs) = (efault, free_call len alloc cs)

  -- The cases with the buffers that they got, where the length is not 0. Without the first buffer, the
  -- first statement of the loop is a bad access; without the second one, the second statement.
  unfoldable pub copy_host2host :
      (len n : ℕ) (alloc dst : Option ℕ) → List Call → HostCode × List Call
  unfolding end_copy host2host_chunk for_chunks user_to_buffer
  copy_host2host len n none dst cs = (bad_access, cs)
  copy_host2host len n (some handle) none cs =
      end_copy len (some handle) none
        (user_to_buffer k (u64 (info.src_a_ptr + chunk_offset 0)) len cs >>= leaves bad_access)
  copy_host2host len n (some handle) (some handle_dst) cs =
      end_copy len (some handle) (some handle_dst)
        (for_chunks (host2host_chunk handle handle_dst len) n 0 cs)

  unfoldable pub copy_host2fpga :
      (len n : ℕ) (alloc dst : Option ℕ) → List Call → HostCode × List Call
  unfolding end_copy host2fpga_chunk for_chunks
  copy_host2fpga len n none dst cs = (bad_access, cs)
  copy_host2fpga len n (some handle) dst cs =
      end_copy len (some handle) dst (for_chunks (host2fpga_chunk handle len) n 0 cs)

  unfoldable pub copy_fpga2host : (len n : ℕ) (alloc : Option ℕ) → List Call → HostCode × List Call
  unfolding end_copy fpga2host_chunk for_chunks
  copy_fpga2host len n none cs = (bad_access, cs)
  copy_fpga2host len n (some handle) cs =
      end_copy len (some handle) none (for_chunks (fpga2host_chunk handle len) n 0 cs)

  -- `H2H_ZCPY` behind its transfer: an error returns at once.
  unfoldable pub end_zcpy :
      (len : ℕ) (alloc : Option ℕ) → HostCode × List Call → HostCode × List Call
  end_zcpy len alloc (success, cs) = (success, free_call len alloc cs)
  end_zcpy len alloc (bad_access, cs) = (bad_access, cs)
  end_zcpy len alloc (_, cs) = (edma_tx, cs)

  -- The `switch`, with the first buffer.
  unfoldable pub host_case :
      HostCommand → HostDma → (alloc : Option ℕ) → List Call → HostCode × List Call
  unfolding is_bad copy_host2host copy_host2fpga copy_fpga2host end_zcpy dma_memcpy
  host_case host2host h alloc cs =
      let len = copy_len info.length in
      let dst = k.dma_alloc_coherent cs len in
      if is_bad info
      then (efault, free_call len alloc cs)
      else copy_host2host len (num_chunk info.length) alloc dst (alloc_call len dst cs)
  host_case host2fpga h alloc cs =
      let len = copy_len info.length in
      let dst = k.dma_alloc_coherent cs len in
      if is_bad info
      then (efault, free_call len alloc cs)
      else copy_host2fpga len (num_chunk info.length) alloc dst (alloc_call len dst cs)
  host_case fpga2host h alloc cs =
      if is_bad info
      then (eioctl, cs)
      else copy_fpga2host (copy_len info.length) (num_chunk info.length) alloc cs
  host_case h2h_zcpy h alloc cs =
      if info.length == 0
      then (eioctl, cs)
      else end_zcpy (copy_len info.length) alloc
          (dma_memcpy e h.slot1.dma_handle h.slot0.dma_handle info.length cs)
  host_case other h alloc cs = (success, free_call (copy_len info.length) alloc cs)

-- The command on what `copy_from_user` gives, `none` if it fails.
unfoldable pub host_dma_ioctl :
    (va_to_pa : ℕ → ℕ)
    → DmaEngine
    → Kernel
    → HostCommand
    → HostDma
    → Option IoctlInfo
    → List Call
    → HostCode × List Call
unfolding host_case copy_len
host_dma_ioctl va_to_pa e k cmd h none cs = (efault, cs)
host_dma_ioctl va_to_pa e k cmd h (some info) cs =
    let len = copy_len info.length in
    let alloc = k.dma_alloc_coherent cs len in
    host_case va_to_pa e k info cmd h alloc (alloc_call len alloc cs)
