-- ===== src/HostDma.antt =====
-- src/drv_src/host_fops.c as built for x86: the two buffers that the device maps for a caller, and
-- the copies on the kernel's DMA engine. Here: the state and the results.
pub mod Buffers
pub mod Memcpy
pub mod Ioctl
pub mod Probe
use lut_pim_driver.Prelude.{ℕ, List, Option}

-- The results of the file: `SUCCESS`, the negative errors, and the undefined behaviour of an access
-- through a NULL pointer or to an address that was never set.
pub data HostCode : Type 0 where
  success : HostCode
  emem_fault : HostCode
  edma_probe : HostCode
  edma_tx : HostCode
  eioctl : HostCode
  efault : HostCode
  mmap_error : (errno : ℕ) → HostCode
  bad_access : HostCode

-- `mempolicy`: `WC`, `UC`, or another value.
pub data Policy : Type 0 where
  wc : Policy
  uc : Policy
  undefined : Policy

-- `alloc_ptr0`, `alloc_len0` and `dma_handle0`, and those of the second buffer; NULL is 0.
pub record Slot : Type 0 where
  pub alloc_ptr : ℕ
  pub alloc_len : ℕ
  pub dma_handle : ℕ

-- The part of `struct host_dma` that the file uses.
pub record HostDma : Type 0 where
  pub slot0 : Slot
  pub slot1 : Slot
  pub alloc_cnt : ℕ
  pub mempolicy : Policy
