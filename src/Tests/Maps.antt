-- ===== src/Tests/Maps.antt =====
-- The probes of src/drv_src/dma_probe.c and src/drv_src/pim_mem_probe.c at concrete answers.
use lut_pim_driver.Prelude.{
  ◌+◌, ◌*◌, ◌≤◌, ◌≡◌, refl, [], true, false, arith, length, ltb, if◌then◌else◌,
}
use lut_pim_driver.Probe.Maps.{unmaps}
use lut_pim_driver.Probe.PlX86.{PciKernel, PciBars, probe_pl_dma_x86}
use lut_pim_driver.Probe.PlArm.{ArmKernel, ArmResources}
use lut_pim_driver.PimMem.Session.Invariant.{All}
use lut_pim_driver.MemDev.{
  MemState, MemKernel, probe_pim_mem_x86, fops_ioctl, pim_mem_info, info, page_size,
}
use lut_pim_driver.MemDev.Registers.{AllMapped}
use lut_pim_driver.MemDev.Laws.{phys, IsApart, blocks-registers-IsApart}
use lut_pim_driver.Tests.Mem.{device}
use lut_pim_driver.Tests.Sessions.{at_load, at_load-IsLoaded, both_live, both_live-Reach}

abbrev pub bars : PciBars
bars = record {
  mem_start = 0xc0000000;
  dma_start = 0xd8000000;
  dma_len = 0x10000;
  pci_start = 0xd9000000;
  pci_len = 0x10000;
  dev_irq = 17;
}

-- The third mapping fails.
abbrev pub two_regions : PciKernel
two_regions = record {
  finds = true;
  enable_err = 0;
  kzalloc = true;
  ioremap = λ cs start len. if ltb (length cs) 2 then 0x1000 + length cs else 0;
}

twice : unmaps (probe_pl_dma_x86 two_regions bars).calls ≡ 2
unfolding probe_pl_dma_x86
twice = refl

-- The configuration registers are not in the device tree.
abbrev one_node : ArmKernel
one_node = record {
  dma_node = true;
  dma_resource = true;
  conf_node = false;
  conf_resource = false;
  kzalloc = true;
  ioremap = λ cs start len. 0x1000;
  irq_granted = true;
}

abbrev resources : ArmResources
resources = record {
  dma_start = 0x40000000;
  dma_len = 0x10000;
  conf_start = 0x50000000;
  dev_irq = 9;
}

-- A board with 272 MB in resource 0.
abbrev pub board : MemKernel
board = record {
  finds = true;
  enables = true;
  bar_start = 0xc0000000;
  bar_len = 0x11000000;
  wide_mask = true;
  wide_consistent = false;
  relaxed = true;
  ioremap = λ start len. 0xffff0000;
}

abbrev unprobed : MemState
unprobed = record { mem_start = 0; mem_len = 0; pim_mem_reg = 0; calls = [] }

abbrev probed : MemState
probed = (probe_pim_mem_x86 board unprobed).1

probed_eq : probe_pim_mem_x86 board unprobed ≡ (true, probed)
unfolding probe_pim_mem_x86
probed_eq = refl

answered : fops_ioctl true true pim_mem_info probed ≡ info 0xc1000000 0x10000000
unfolding fops_ioctl probe_pim_mem_x86
answered = refl

blocks-registers-IsApart_example :
    All (λ b. phys device b + b.npages * page_size ≤ 0xc0000000 + 0x11000000) both_live.live
    × AllMapped (IsApart bars device both_live.live) (probe_pl_dma_x86 two_regions bars).calls
blocks-registers-IsApart_example =
    blocks-registers-IsApart board unprobed probed two_regions bars device at_load both_live refl
      (omega arith) (omega arith) probed_eq answered (omega arith) at_load-IsLoaded both_live-Reach
