-- ===== src/Tests/Probe.antt =====
-- The start and the removal of the driver (src/drv_src/dma_probe.c) at concrete inputs.
use lut_pim_driver.Prelude.{ℕ, ◌+◌, ◌≤◌, ◌<◌, ◌≡◌, ◌≢◌, ◌⊎◌, refl, [], ◌∷◌, u32, arith}
use lut_pim_driver.Cdma.{bus_addr}
use lut_pim_driver.HostDma.{wc, Slot}
use lut_pim_driver.HostDma.Buffers.{Buffers}
use lut_pim_driver.Probe.Pci.{
  PciBus, bus, no_bus, and_bus, find_vendor, pciem_find_device_recur, devices,
  pciem_find_device_recur-find_vendor,
}
use lut_pim_driver.Probe.Offset.{dram_offset, probe_bases, bus_addr-probe_bases}
use lut_pim_driver.Probe.Remove.{
  remove_buffers, freed, first_freed, second_freed, remove_buffers-freed,
}
use lut_pim_driver.Tests.Math.{device}

-- The device stands below the second child of the root.
abbrev root : PciBus
root = bus (record { vendor = 0x8086; slot = 0 } ∷ []) (
    and_bus (bus [] no_bus)
      (and_bus (bus (record { vendor = 0x10ee; slot = 3 } ∷ []) no_bus) no_bus))

pciem_find_device_recur-find_vendor_example :
    pciem_find_device_recur root ≡ find_vendor (devices root)
pciem_find_device_recur-find_vendor_example = pciem_find_device_recur-find_vendor root

-- The memory starts above 2 GB.
abbrev bar_0 : ℕ
bar_0 = 0x9000_0000

bus_addr-probe_bases_example :
    ((dram_offset ≤ bar_0)
      × (u32 (bus_addr (probe_bases bar_0 device) 0x9000_0234) ≡ u32 (dram_offset + 0x1234)))
    ⊎ ((bar_0 < dram_offset)
        × ((bar_0 ≡ 0)
            ⊎ (u32 (bus_addr (probe_bases bar_0 device) 0x9000_0234) ≢ u32 (dram_offset + 0x1234))))
bus_addr-probe_bases_example =
    bus_addr-probe_bases bar_0 0x1234 0x9000_0234 device (omega arith) refl

abbrev slot_at : (ptr : ℕ) → Slot
slot_at ptr = record { alloc_ptr = ptr; alloc_len = 0x2000; dma_handle = ptr + 0x1000 }

abbrev two_buffers : Buffers
two_buffers = record {
  host_dma = record {
    slot0 = slot_at 0x5000;
    slot1 = slot_at 0x9000;
    alloc_cnt = 2;
    mempolicy = wc;
  };
  calls = [];
}

remove_buffers-freed_example :
    (freed 0x5000 (remove_buffers two_buffers).calls ≡ freed 0x5000 [] + first_freed wc)
    × (freed 0x9000 (remove_buffers two_buffers).calls ≡ freed 0x9000 [] + second_freed wc)
remove_buffers-freed_example =
    remove_buffers-freed two_buffers (omega arith) (omega arith) (omega arith)
