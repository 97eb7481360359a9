-- ===== src/PsDma.antt =====
-- `ps_dma_mmap` and `ps_dma_release` of src/drv_src/ps_fops.c, as built for ARM: two buffers that the
-- device maps for a caller. `ps_dma_open` and `ps_dma_ioctl` change nothing.
pub mod Laws
pub mod Engine
use lut_pim_driver.Prelude.{
  ℕ, ◌+◌, List, [], ◌∷◌, Bool, true, false, Option, none, some, ◌==◌, if◌then◌else◌,
}

-- A buffer's address (NULL is 0), its length, and its bus address.
pub record PsBuffer : Type 0 where
  pub alloc_ptr : ℕ
  pub alloc_len : ℕ
  pub dma_handle : ℕ

pub data PsCall : Type 0 where
  ps_alloc : (len ptr handle : ℕ) → PsCall
  ps_map : (ptr handle len : ℕ) → PsCall
  ps_free : (len ptr handle : ℕ) → PsCall

-- The buffers of `ps_dma_t`, `ps_alloc_cnt`, and the calls so far, the latest one first.
pub record PsDma : Type 0 where
  pub buffer0 : PsBuffer
  pub buffer1 : PsBuffer
  pub ps_alloc_cnt : ℕ
  pub calls : List PsCall

-- The results: `SUCCESS`, `-ENOMEM`, and the error of a mapping.
pub data PsCode : Type 0 where
  success : PsCode
  enomem : PsCode
  mmap_error : (errno : ℕ) → PsCode

-- What `dma_alloc_coherent` gives (an address and a bus address, or NULL), and the error of
-- `dma_mmap_coherent`, `none` if it succeeds.
pub record PsKernel : Type 0 where
  pub alloc : List PsCall → (len : ℕ) → Option (ℕ × ℕ)
  pub map : List PsCall → (ptr handle len : ℕ) → Option ℕ

abbrev pub taken_buffer : (len : ℕ) → PsBuffer → Option (ℕ × ℕ) → PsBuffer
taken_buffer len b none = record b { alloc_ptr = 0; alloc_len = len }
taken_buffer len b (some (ptr, handle)) = record {
  alloc_ptr = ptr;
  alloc_len = len;
  dma_handle = handle;
}

-- The buffer of the branch, by the count.
abbrev pub set_buffer : (second : Bool) (len : ℕ) → Option (ℕ × ℕ) → PsDma → PsDma
set_buffer false len got s = record s { buffer0 = taken_buffer len s.buffer0 got }
set_buffer true len got s = record s { buffer1 = taken_buffer len s.buffer1 got }

-- The test of the mapping's result, and `ps_alloc_cnt++`.
unfoldable pub ps_mapped : Option ℕ → PsDma → PsCode × PsDma
ps_mapped (some errno) s = (mmap_error errno, s)
ps_mapped none s = (success, record s { ps_alloc_cnt = s.ps_alloc_cnt + 1 })

module _ (k : PsKernel) where
  unfoldable pub ps_take : (second : Bool) (len : ℕ) → Option (ℕ × ℕ) → PsDma → PsCode × PsDma
  unfolding ps_mapped
  ps_take second len none s = (enomem, set_buffer second len none s)
  ps_take second len (some (ptr, handle)) s =
      let t = set_buffer second len (some (ptr, handle)) s in
      let cs = ps_alloc len ptr handle ∷ s.calls in
      ps_mapped (k.map cs ptr handle len) (record t { calls = ps_map ptr handle len ∷ cs })

  -- From the third call on, `ret` is still 0: it succeeds without a buffer.
  unfoldable pub ps_dma_mmap : (len : ℕ) → PsDma → PsCode × PsDma
  unfolding ps_take ps_mapped
  ps_dma_mmap len s =
      if s.ps_alloc_cnt == 0
      then ps_take false len (k.alloc s.calls len) s
      else if s.ps_alloc_cnt == 1
      then ps_take true len (k.alloc s.calls len) s
      else ps_mapped none s

abbrev pub free_held : PsBuffer → List PsCall → List PsCall
free_held b cs = if b.alloc_ptr == 0 then cs else ps_free b.alloc_len b.alloc_ptr b.dma_handle ∷ cs

unfoldable pub ps_dma_release : PsDma → PsCode × PsDma
ps_dma_release s = (
  success,
  record {
    buffer0 = record s.buffer0 { alloc_ptr = 0 };
    buffer1 = record s.buffer1 { alloc_ptr = 0 };
    ps_alloc_cnt = 0;
    calls = free_held s.buffer1 (free_held s.buffer0 s.calls);
  },
)
