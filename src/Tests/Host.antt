-- ===== src/Tests/Host.antt =====
-- The buffers and the copies of src/drv_src/host_fops.c at concrete inputs.
use lut_pim_driver.Prelude.{
  ℕ, ◌+◌, ◌≡◌, refl, List, [], ◌∷◌, true, false, Option, none, some, inl, arith, ap,
}
use lut_pim_driver.Cdma.{IoctlInfo}
use lut_pim_driver.Chunks.{copy_len, num_chunk}
use lut_pim_driver.Kernel.{alloc, free, Kernel, IsWhole}
use lut_pim_driver.HostDma.{success, wc, Slot}
use lut_pim_driver.HostDma.Buffers.{BufferKernel, Buffers, mapped, not_mapped, host_dma_release}
use lut_pim_driver.HostDma.Buffers.Laws.{
  taken, given_back, held, IsKernel, mmap, FileCall, file_calls, lost,
}
use lut_pim_driver.HostDma.Buffers.Session.{IsFresh, host_dma_release-lost}
use lut_pim_driver.HostDma.Memcpy.{DmaEngine}
use lut_pim_driver.HostDma.Ioctl.{host2host, fpga2host, is_bad, host_dma_ioctl}
use lut_pim_driver.HostDma.Ioctl.Copies.{
  IsReady, host2host_calls, fpga2host_calls, host_dma_ioctl-host2host, host_dma_ioctl-fpga2host,
}
use lut_pim_driver.Tests.Math.{operands}

abbrev empty : Slot
empty = record { alloc_ptr = 0; alloc_len = 0; dma_handle = 0 }

abbrev probed : Buffers
probed = record {
  host_dma = record { slot0 = empty; slot1 = empty; alloc_cnt = 0; mempolicy = wc };
  calls = [];
}

-- A kernel whose buffers stand at 0x5000; one that maps them, and one that does not.
abbrev maps : BufferKernel
maps = record { alloc = λ cs p len. some (0x5000, 0x6000); mmap = λ cs p ptr handle len. mapped }

abbrev maps_not : BufferKernel
maps_not = record maps { mmap = λ cs p ptr handle len. not_mapped 12 }

abbrev ptr_of : Option (ℕ × ℕ) → ℕ
ptr_of none = 0
ptr_of (some (ptr, handle)) = ptr

maps-IsKernel : IsKernel maps
maps-IsKernel cs p len ptr handle h = let e : 0x5000 ≡ ptr = ap ptr_of h in omega (arith, e)

maps_not-IsKernel : IsKernel maps_not
maps_not-IsKernel cs p len ptr handle h = let e : 0x5000 ≡ ptr = ap ptr_of h in omega (arith, e)

probed-IsFresh : IsFresh probed
probed-IsFresh = record {
  policy = inl refl;
  none_out = λ ptr handle. refl;
  first = refl;
  second = refl;
}

abbrev two_maps : List FileCall
two_maps = mmap 0x2000 ∷ mmap 0x3000 ∷ []

host_dma_release-lost_example :
    ((host_dma_release (file_calls maps_not two_maps probed)).0 ≡ success)
    × ((host_dma_release (file_calls maps_not two_maps probed)).1.host_dma.alloc_cnt ≡ 0)
    × (held (host_dma_release (file_calls maps_not two_maps probed)).1.host_dma.slot0 ≡ 0)
    × (held (host_dma_release (file_calls maps_not two_maps probed)).1.host_dma.slot1 ≡ 0)
    × (taken 0x5000 0x6000 (host_dma_release (file_calls maps_not two_maps probed)).1.calls
        ≡ given_back 0x5000 0x6000 (host_dma_release (file_calls maps_not two_maps probed)).1.calls
          + lost maps_not 0x5000 0x6000 two_maps probed)
host_dma_release-lost_example =
    host_dma_release-lost maps_not two_maps probed 0x5000 0x6000 maps_not-IsKernel probed-IsFresh

-- A copy of 2.5 chunks.
abbrev long_copy : IoctlInfo
long_copy = record operands { src_a_ptr = 0x7000_0000; dst_c_ptr = 0x7800_0000; length = 0x280000 }

abbrev engine : DmaEngine
engine = record {
  request_channel = λ cs. true;
  prep = λ cs dst src len. true;
  is_complete = λ cs. true;
  has_unmap_data = λ cs. true;
  is_copy_aligned = λ a b c. true;
  map_page = λ page offset len. page + offset;
}

abbrev broken : DmaEngine
broken = record engine { is_complete = λ cs. false }

engine-IsReady : IsReady engine
engine-IsReady cs dst src len = (refl, refl, refl)

abbrev kernel : Kernel
kernel = record {
  dma_alloc_coherent = λ cs size. some 0x9000;
  copy_from_user = λ cs addr len. false;
  copy_to_user = λ cs addr len. false;
}

kernel-IsWhole : IsWhole kernel
kernel-IsWhole cs addr len = (refl, refl)

long_copy_ok : is_bad long_copy ≡ false
unfolding is_bad
long_copy_ok = refl

abbrev phys : ℕ → ℕ
phys va = va + 0x1000

host_dma_ioctl-host2host_example :
    host_dma_ioctl phys engine kernel host2host probed.host_dma (some long_copy) [] ≡ (
      success,
      free (copy_len 0x280000) 0x9000
          ∷ free (copy_len 0x280000) 0x9000
          ∷ host2host_calls phys engine kernel long_copy 0x9000 0x9000
              (copy_len 0x280000)
              (alloc (copy_len 0x280000) 0x9000 ∷ alloc (copy_len 0x280000) 0x9000 ∷ [])
              (num_chunk 0x280000),
    )
host_dma_ioctl-host2host_example =
    host_dma_ioctl-host2host phys engine kernel long_copy probed.host_dma [] 0x9000 0x9000
      engine-IsReady kernel-IsWhole (omega arith) long_copy_ok refl refl

host_dma_ioctl-fpga2host_example :
    host_dma_ioctl phys engine kernel fpga2host probed.host_dma (some long_copy) [] ≡ (
      success,
      free (copy_len 0x280000) 0x9000
          ∷ fpga2host_calls phys engine kernel long_copy 0x9000
              (copy_len 0x280000)
              (alloc (copy_len 0x280000) 0x9000 ∷ [])
              (num_chunk 0x280000),
    )
host_dma_ioctl-fpga2host_example =
    host_dma_ioctl-fpga2host phys engine kernel long_copy probed.host_dma [] 0x9000 engine-IsReady
      kernel-IsWhole (omega arith) long_copy_ok refl
