-- ===== src/PlDma/Copy.antt =====
-- The cases MEMCPY_PL2PL, MEMCPY_PL2PS and MEMCPY_PS2PL of `pl_dma_ioctl` in
-- src/drv_src/pl_fops.c, as built for x86 (`INTR_ENABLE`).
pub mod Laws
pub mod Buffer
use lut_pim_driver.Prelude.{
  ℕ, ◌+◌, List, ◌∷◌, Bool, true, false, Option, none, some, if◌then◌else◌, u32, u64, bit_and,
}
use lut_pim_driver.Cdma.{CdmaDev, IoctlInfo, bus_addr}
use lut_pim_driver.Chunks.{
  Round, goes_on, leaves, for_chunks, chunk_offset, copy_len_int, num_chunk_int, int_to_size,
}
use lut_pim_driver.Kernel.{Call, alloc, free, from_user, to_user, transfer, Kernel}
use lut_pim_driver.PlDma.{Code, success, edma_tx, edma_intr, efault, Trace, Engine, dma_single_tx}

-- The register writes, and the calls that the copies make.
pub record Copying : Type 0 where
  pub trace : Trace
  pub calls : List Call

-- `dma_single_tx(...) < 0`.
abbrev pub failed : Code → Bool
failed (success r) = false
failed edma_tx = true
failed edma_intr = true
failed efault = true

abbrev pub axibar : ℕ
axibar = 0x0

abbrev pub axi_mask : ℕ
axi_mask = 0x1FFFFFF

abbrev pub called : Call → Copying → Copying
called c s = record s { calls = c ∷ s.calls }

-- The bus address of the buffer as the device reaches it.
abbrev pub axi_addr : (handle : ℕ) → ℕ
axi_addr handle = u32 (bit_and (u32 handle) axi_mask + axibar)

module _ (d : CdmaDev) (hw : Engine) where
  -- The transfer, with its addresses among the calls.
  unfoldable pub single_tx : (src dst len : ℕ) → Copying → Code × Copying
  unfolding dma_single_tx
  single_tx src dst len s =
      let (c, t) = dma_single_tx hw src d.high_addr dst d.high_addr len s.trace in
      (c, record { trace = t; calls = transfer src dst len ∷ s.calls })

  -- The addresses are not corrected by `pa_offset` here.
  unfoldable pub memcpy_pl2pl : IoctlInfo → Copying → Code × Copying
  unfolding single_tx
  memcpy_pl2pl info s =
      let (c, t) =
        single_tx (u32 (d.va_to_pa info.src_a_va)) (u32 (d.va_to_pa info.dst_c_va)) info.src_a_size
          s in
      (if failed c then edma_tx else success 0, t)

  module _ (k : Kernel) (info : IoctlInfo) where
    -- The addresses of the round `i`.
    abbrev pub pl2ps_src : (i : ℕ) → ℕ
    pl2ps_src i = u32 (bus_addr d (u64 (info.src_a_va + chunk_offset i)))

    abbrev pub ps2pl_dst : ℕ
    ps2pl_dst = u32 (bus_addr d info.dst_c_va)

    -- From the device to the buffer, from the buffer to the caller.
    unfoldable pub pl2ps_chunk : (handle len i : ℕ) → Copying → Round Code Copying
    unfolding single_tx
    pl2ps_chunk handle len i s =
        let (c, t) = single_tx (pl2ps_src i) (axi_addr handle) len s in
        let addr = u64 (info.dst_c_ptr + chunk_offset i) in
        if failed c
        then leaves edma_tx t
        else if k.copy_to_user t.calls addr len
        then leaves efault (called (to_user addr len) t)
        else goes_on (called (to_user addr len) t)

    -- From the caller to the buffer, from the buffer to the device.
    unfoldable pub ps2pl_chunk : (handle len i : ℕ) → Copying → Round Code Copying
    unfolding single_tx
    ps2pl_chunk handle len i s =
        let addr = u64 (info.src_a_ptr + chunk_offset i) in
        let (c, t) = single_tx (axi_addr handle) ps2pl_dst len (called (from_user addr len) s) in
        if k.copy_from_user s.calls addr len
        then leaves efault (called (from_user addr len) s)
        else if failed c
        then leaves edma_tx t
        else goes_on t

    -- What both cases have around their rounds: the buffer of `copy_len` bytes, and its return with
    -- `srcA_size` behind the loop. An early return keeps it.
    unfoldable pub free_buffer : (handle : ℕ) → Round Code Copying → Code × Copying
    free_buffer handle (goes_on s) =
        (success 0, called (free (int_to_size info.src_a_size) handle) s)
    free_buffer handle (leaves c s) = (c, s)

    -- With what `dma_alloc_coherent` gave.
    unfoldable pub copy_with :
        (chunk : (handle len i : ℕ) → Copying → Round Code Copying) (len n : ℕ)
        → Option ℕ
        → Copying
        → Code × Copying
    unfolding free_buffer for_chunks
    copy_with chunk len n none s = (efault, s)
    copy_with chunk len n (some handle) s =
        free_buffer handle (for_chunks (chunk handle len) n 0 (called (alloc len handle) s))

    unfoldable pub copy_by_chunk :
        (chunk : (handle len i : ℕ) → Copying → Round Code Copying) → Copying → Code × Copying
    unfolding copy_with copy_len_int num_chunk_int
    copy_by_chunk chunk s =
        let len = copy_len_int info.src_a_size in
        copy_with chunk len (num_chunk_int info.src_a_size) (k.dma_alloc_coherent s.calls len) s

    unfoldable pub memcpy_pl2ps : Copying → Code × Copying
    unfolding copy_by_chunk pl2ps_chunk
    memcpy_pl2ps = copy_by_chunk pl2ps_chunk

    unfoldable pub memcpy_ps2pl : Copying → Code × Copying
    unfolding copy_by_chunk ps2pl_chunk
    memcpy_ps2pl = copy_by_chunk ps2pl_chunk
