-- ===== src/HostDma/Probe.antt =====
-- `probe_host_dma` of src/drv_src/dma_probe.c, as it is built with `DMA_COHERENT` of
-- src/drv_src/dma_lib_kernel.h: the state that the device of the host DMA starts with.
use lut_pim_driver.Prelude.{refl, List, [], ◌∷◌, Option, none, some, Bool, if◌then◌else◌, inr}
use lut_pim_driver.HostDma.{HostCode, success, edma_probe, bad_access, uc, Slot, HostDma}
use lut_pim_driver.HostDma.Buffers.Session.{IsFresh}

pub data ChanCall : Type 0 where
  chan_requested : ChanCall
  chan_released : ChanCall

-- The result, `host_dma_t` (`none` for NULL), and the calls, the latest one first.
pub record HostProbed : Type 0 where
  pub code : HostCode
  pub host_dma : Option HostDma
  pub calls : List ChanCall

-- `kzalloc`, and `mempolicy`.
abbrev empty_slot : Slot
empty_slot = record { alloc_ptr = 0; alloc_len = 0; dma_handle = 0 }

abbrev pub no_buffers : HostDma
no_buffers = record { slot0 = empty_slot; slot1 = empty_slot; alloc_cnt = 0; mempolicy = uc }

-- Whether `kzalloc` gives memory, and `dma_request_channel` a channel; the loop around the request
-- ends behind its first round. The policy is written without a test of the memory.
unfoldable pub probe_host_dma : (kzalloc got : Bool) → HostProbed
probe_host_dma kzalloc got =
    if kzalloc
    then (if got
        then record {
          code = success;
          host_dma = some no_buffers;
          calls = chan_released ∷ chan_requested ∷ [];
        }
        else record { code = edma_probe; host_dma = some no_buffers; calls = chan_requested ∷ [] })
    else record { code = bad_access; host_dma = none; calls = [] }

-- Where the memory is there, no buffer is out, with or without a channel.
pub no_buffers-IsFresh : IsFresh (record { host_dma = no_buffers; calls = [] })
no_buffers-IsFresh = record {
  policy = inr refl;
  none_out = λ ptr handle. refl;
  first = refl;
  second = refl;
}
