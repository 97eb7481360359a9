-- ===== src/PsDma/Engine.antt =====
-- `ps_buffer_alloc` and `ps_buffer_free` of src/drv_src/ps_fops.c, and `probe_ps_dma` and the end of
-- `remove_pim_dma` of src/drv_src/dma_probe.c, as built for ARM: the engine's channel and its buffer.
use lut_pim_driver.Prelude.{
  ℕ, ◌+◌, ◌≡◌, ◌≢◌, ◌⊎◌, refl, List, [], ◌∷◌, Bool, true, false, ◌&&◌, ◌==◌, if◌then◌else◌, u32,
  arith, inl, inr, zero, suc,
}

pub data EngineCall : Type 0 where
  chan_requested : EngineCall
  chan_released : EngineCall
  buffer_taken : (size ptr handle : ℕ) → EngineCall
  buffer_freed : (size ptr handle : ℕ) → EngineCall

-- `kern_addr` (NULL is 0), `bus_addr` and `size` of `ps_dma_t`, whether `ps_dma_chan` is set, and the
-- calls so far, the latest one first.
pub record PsEngine : Type 0 where
  pub kern_addr : ℕ
  pub bus_addr : ℕ
  pub size : ℕ
  pub chan : Bool
  pub calls : List EngineCall

pub data EngineCode : Type 0 where
  success : EngineCode
  edma_probe : EngineCode
  emem_fault : EngineCode

abbrev pub cpy_chunk_size : ℕ
cpy_chunk_size = 0x8000000

-- `dma_alloc_coherent` gives `ptr` and `handle`; the result tells whether the buffer is there.
unfoldable pub ps_buffer_alloc : (size ptr handle : ℕ) → PsEngine → Bool × PsEngine
ps_buffer_alloc size ptr handle s =
    let t : PsEngine = record s {
      size = u32 size;
      kern_addr = ptr;
      bus_addr = handle;
      calls = buffer_taken (u32 size) ptr handle ∷ s.calls;
    } in
    if ptr == 0 then (false, t) else (true, t)

unfoldable pub ps_buffer_free : PsEngine → PsEngine
ps_buffer_free s = if s.kern_addr == 0 then s else record s {
  size = 0;
  kern_addr = 0;
  bus_addr = 0;
  calls = buffer_freed s.size s.kern_addr s.bus_addr ∷ s.calls;
}

abbrev no_engine : PsEngine
no_engine = record { kern_addr = 0; bus_addr = 0; size = 0; chan = false; calls = [] }

-- `got` tells whether `dma_request_channel` gives a channel.
unfoldable pub probe_ps_dma : (got : Bool) (ptr handle : ℕ) → EngineCode × PsEngine
unfolding ps_buffer_alloc
probe_ps_dma got ptr handle =
    if got
    then (let (ok, t) =
          ps_buffer_alloc cpy_chunk_size ptr handle
            (record no_engine { chan = true; calls = chan_requested ∷ [] }) in
        if ok then (success, t) else (emem_fault, t))
    else (edma_probe, no_engine)

-- The end of the removal on ARM; the pointer to the channel stays.
unfoldable pub remove_ps_dma : PsEngine → PsEngine
unfolding ps_buffer_free
remove_ps_dma s =
    let t = ps_buffer_free s in if t.chan then record t { calls = chan_released ∷ t.calls } else t

-- How many buffers and channels are out: the calls that gave one, less those that took it back.
abbrev pub buffers : List EngineCall → ℕ
buffers [] = 0
buffers (buffer_taken size ptr handle ∷ cs) = if ptr == 0 then buffers cs else buffers cs + 1
buffers (_ ∷ cs) = buffers cs

abbrev pub buffers_back : List EngineCall → ℕ
buffers_back [] = 0
buffers_back (buffer_freed size ptr handle ∷ cs) = buffers_back cs + 1
buffers_back (_ ∷ cs) = buffers_back cs

abbrev pub chans : List EngineCall → ℕ
chans [] = 0
chans (chan_requested ∷ cs) = chans cs + 1
chans (_ ∷ cs) = chans cs

abbrev pub chans_back : List EngineCall → ℕ
chans_back [] = 0
chans_back (chan_released ∷ cs) = chans_back cs + 1
chans_back (_ ∷ cs) = chans_back cs

abbrev pub bit : Bool → ℕ
bit b = if b then 1 else 0

abbrev pub is_there : (ptr : ℕ) → Bool
is_there ptr = if ptr == 0 then false else true

-- The engine with its buffer, and after the removal.
abbrev ready : (ptr handle : ℕ) → PsEngine
ready ptr handle = record {
  kern_addr = ptr;
  bus_addr = handle;
  size = u32 cpy_chunk_size;
  chan = true;
  calls = buffer_taken (u32 cpy_chunk_size) ptr handle ∷ chan_requested ∷ [];
}

abbrev removed : (ptr handle : ℕ) → PsEngine
removed ptr handle = record no_engine {
  chan = true;
  calls =
      chan_released
      ∷ buffer_freed (u32 cpy_chunk_size) ptr handle
      ∷ buffer_taken (u32 cpy_chunk_size) ptr handle
      ∷ chan_requested
      ∷ [];
}

probe_ps_dma-some :
    (ptr handle : ℕ)
    → (ptr == 0) ≡ false
    → probe_ps_dma true ptr handle ≡ (success, ready ptr handle)
unfolding probe_ps_dma
probe_ps_dma-some ptr handle e = rw e refl

remove_ps_dma-ready :
    (ptr handle : ℕ) → (ptr == 0) ≡ false → remove_ps_dma (ready ptr handle) ≡ removed ptr handle
unfolding remove_ps_dma
remove_ps_dma-ready ptr handle e = rw e refl

with_buffer :
    (ptr handle : ℕ)
    → (ptr == 0) ≡ false
    → let p = probe_ps_dma true ptr handle in
      let out = remove_ps_dma p.1 in
      (((p.0 ≡ success) × (is_there ptr ≡ true)) ⊎ ((p.0 ≢ success) × (is_there ptr ≡ false)))
      × (chans out.calls ≡ 1)
      × (chans_back out.calls ≡ 1)
      × (buffers out.calls ≡ bit (is_there ptr))
      × (buffers_back out.calls ≡ bit (is_there ptr))
      × (out.kern_addr ≡ 0)
with_buffer ptr handle e =
    rw (probe_ps_dma-some ptr handle e, remove_ps_dma-ready ptr handle e, e)
      (inl (refl, refl), refl, refl, refl, refl, refl)

-- `probe_ps_dma` succeeds exactly if the kernel gives a channel and a buffer; whatever it gave, the
-- removal gives each back once, and no buffer is recorded any more.
pub remove_ps_dma-probe :
    (got : Bool) (ptr handle : ℕ)
    → let p = probe_ps_dma got ptr handle in
      let out = remove_ps_dma p.1 in
      (((p.0 ≡ success) × ((got && is_there ptr) ≡ true))
        ⊎ ((p.0 ≢ success) × ((got && is_there ptr) ≡ false)))
      × (chans out.calls ≡ bit got)
      × (chans_back out.calls ≡ bit got)
      × (buffers out.calls ≡ bit (got && is_there ptr))
      × (buffers_back out.calls ≡ bit (got && is_there ptr))
      × (out.kern_addr ≡ 0)
unfolding probe_ps_dma remove_ps_dma
remove_ps_dma-probe false ptr handle = (inr (λ e. cc, refl), refl, refl, refl, refl, refl)
remove_ps_dma-probe true zero handle = (inr (λ e. cc, refl), refl, refl, refl, refl, refl)
remove_ps_dma-probe true (suc ptr) handle = with_buffer (suc ptr) handle (ground arith)
