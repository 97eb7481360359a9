-- ===== src/Tests/Startup.antt =====
-- The start and the end of the module (src/drv_src/pim_drv_main.c) at concrete answers.
use lut_pim_driver.Prelude.{◌+◌, ◌≡◌, refl, length, [], some, true, false}
use lut_pim_driver.HostDma.Buffers.{Buffers}
use lut_pim_driver.HostDma.Probe.{probe_host_dma, no_buffers}
use lut_pim_driver.Probe.PlX86.{probe_pl_dma_x86}
use lut_pim_driver.Probe.Maps.{success}
use lut_pim_driver.MemDev.{probe_pim_mem_x86}
use lut_pim_driver.Probe.Register.{register_pim_mem, register_pl_drv, register_host_drv}
use lut_pim_driver.Startup.{X86Kernel, started, pim_drv_init_x86, Unloaded, pim_dma_exit_x86}
use lut_pim_driver.Startup.Ready.{IsReady, pim_drv_init_x86-IsReady}
use lut_pim_driver.Startup.GivenBack.{granted, before_start}
use lut_pim_driver.Startup.Unload.{IsRestored, pim_dma_exit_x86-init}
use lut_pim_driver.Tests.Maps.{bars, two_regions, board}

-- The third register file of the PL-DMA cannot be mapped.
abbrev partly_mapped : X86Kernel
partly_mapped = record {
  mem = board;
  mem_reg = granted;
  pci = two_regions;
  bars = bars;
  pl_reg = granted;
  host_kzalloc = true;
  host_chan = true;
  host_reg = granted;
}

starts_partly :
    pim_drv_init_x86 partly_mapped before_start ≡ some (started partly_mapped before_start)
unfolding pim_drv_init_x86 started probe_pl_dma_x86 probe_host_dma probe_pim_mem_x86
    register_pim_mem register_host_drv
starts_partly = refl

pim_drv_init_x86-IsReady_example : IsReady (started partly_mapped before_start)
pim_drv_init_x86-IsReady_example =
    pim_drv_init_x86-IsReady partly_mapped before_start (started partly_mapped before_start)
      starts_partly

-- Each step succeeds, but the host has no channel.
abbrev no_channel : X86Kernel
no_channel = record partly_mapped {
  pci = record two_regions { ioremap = λ cs start len. 0x1000 + length cs };
  host_chan = false;
}

starts : pim_drv_init_x86 no_channel before_start ≡ some (started no_channel before_start)
unfolding pim_drv_init_x86 started probe_pl_dma_x86 probe_host_dma probe_pim_mem_x86
    register_pim_mem register_pl_drv
starts = refl

probes : (started no_channel before_start).pl.code ≡ success
unfolding started probe_pl_dma_x86
probes = refl

abbrev unopened : Buffers
unopened = record { host_dma = no_buffers; calls = [] }

pim_dma_exit_x86-init_example :
    (u : Unloaded) × (pim_dma_exit_x86 (started no_channel before_start) unopened ≡ some u)
    × IsRestored (started no_channel before_start) u
pim_dma_exit_x86-init_example =
    pim_dma_exit_x86-init no_channel (started no_channel before_start) unopened refl refl refl
      starts probes
