-- ===== src/HostDma/Memcpy.antt =====
-- The transfers of src/drv_src/host_fops.c on a channel of the kernel's DMA engine: `chan_filter`,
-- `dma_memcpy` and `memcpy_dma` (whose unmap data are not modelled).
use Prim.Native.String.{String}
use text.Mathlib.Text.{◌==◌ as str_eq}
use lut_pim_driver.Prelude.{ℕ, Bool, ◌||◌, List, ◌∷◌, if◌then◌else◌}
use lut_pim_driver.Kernel.{Call, transfer, take_channel, release_channel}
use lut_pim_driver.HostDma.{HostCode, success, edma_probe, edma_tx, bad_access}

-- The channels that the file asks for, by name.
unfoldable pub chan_filter : String → Bool
chan_filter name =
    str_eq name "dma0chan0"
    || str_eq name "dma0chan1"
    || str_eq name "dma0chan2"
    || str_eq name "dma0chan3"
    || str_eq name "dma0chan4"
    || str_eq name "dma0chan5"

-- What the engine answers, by the calls so far: whether there is a channel, whether it prepares the
-- transfer, and whether this is complete when the wait is over; and, for `memcpy_dma`, whether
-- there is unmap data, whether the offsets are aligned, and the bus address of a page's bytes.
pub record DmaEngine : Type 0 where
  pub request_channel : List Call → Bool
  pub prep : List Call → (dst src len : ℕ) → Bool
  pub is_complete : List Call → Bool
  pub has_unmap_data : List Call → Bool
  pub is_copy_aligned : (src_offset dst_offset len : ℕ) → Bool
  pub map_page : (page offset len : ℕ) → ℕ

module _ (e : DmaEngine) where
  -- The submission and the wait. A submission that fails is only printed.
  unfoldable pub submit : (dst src len : ℕ) → List Call → HostCode × List Call
  submit dst src len cs =
      let cs' = transfer src dst len ∷ cs in
      if e.is_complete cs' then (success, release_channel ∷ cs') else (edma_tx, cs')

  -- The callback is set before `tx` is tested.
  unfoldable pub dma_memcpy : (dst src len : ℕ) → List Call → HostCode × List Call
  unfolding submit
  dma_memcpy dst src len cs =
      if e.request_channel cs
      then if e.prep (take_channel ∷ cs) dst src len
        then submit dst src len (take_channel ∷ cs)
        else (bad_access, take_channel ∷ cs)
      else (edma_probe, cs)

  unfoldable pub memcpy_dma :
      (dest src dest_offset src_offset len : ℕ) → List Call → HostCode × List Call
  unfolding submit
  memcpy_dma dest src dest_offset src_offset len cs =
      let from_addr = e.map_page src src_offset len in
      let to_addr = e.map_page dest dest_offset len in
      let cs' = take_channel ∷ cs in
      if e.request_channel cs
      then if e.has_unmap_data cs'
        then if e.is_copy_aligned src_offset dest_offset len
          then if e.prep cs' to_addr from_addr len
            then submit to_addr from_addr len cs'
            else (bad_access, cs')
          else (edma_tx, cs')
        else (edma_tx, cs')
      else (edma_probe, cs)
