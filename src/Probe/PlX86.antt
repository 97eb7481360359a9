-- ===== src/Probe/PlX86.antt =====
-- `probe_pl_dma_x86` of src/drv_src/dma_probe.c, as it is built with `INTR_ENABLE`.
use lut_pim_driver.Prelude.{ℕ, ◌+◌, ◌-◌, List, [], ◌∷◌, none, some, Bool, ◌==◌, if◌then◌else◌, u32}
use lut_pim_driver.PlDma.{cdma_reg_cr, cdma_reg_sr, cdma_reg_cr_reset, cdma_reg_sr_iocirq}
use lut_pim_driver.Probe.Maps.{
  CdmaMaps, zeroed, ProbeCall, unmapped, irq_requested, irq_freed, written, pl_drv_removed, success,
  edma_probe, eiomap_fault, enable_error, null_pointer, Probed, map_reg,
}

-- The addresses and lengths of the PCI resources 0, 1 and 3, and the interrupt.
pub record PciBars : Type 0 where
  pub mem_start : ℕ
  pub dma_start : ℕ
  pub dma_len : ℕ
  pub pci_start : ℕ
  pub pci_len : ℕ
  pub dev_irq : ℕ

-- `pciem_find_device`, the error of `pcim_enable_device`, `kzalloc` and `ioremap_nocache`.
pub record PciKernel : Type 0 where
  pub finds : Bool
  pub enable_err : ℕ
  pub kzalloc : Bool
  pub ioremap : List ProbeCall → (start len : ℕ) → ℕ

abbrev pub conf_reg_len : ℕ
conf_reg_len = 0x200000

abbrev pub conf_mem_offset : ℕ
conf_mem_offset = 0x400000

abbrev pub conf_mem_len : ℕ
conf_mem_len = 0x400000

abbrev pub desc_mem_offset : ℕ
desc_mem_offset = 0x800000

abbrev pub desc_mem_len : ℕ
desc_mem_len = 0x400000

-- The label `error`, for a device that was allocated.
unfoldable pub error_x86 : CdmaMaps → List ProbeCall → Probed
error_x86 c cs = record {
  code = eiomap_fault;
  cdma_dev = some c;
  calls =
      pl_drv_removed
      ∷ unmapped c.config_mem
      ∷ unmapped c.config_reg
      ∷ unmapped c.dma_desc
      ∷ unmapped c.dma_ctl_reg
      ∷ unmapped c.pci_ctl_reg
      ∷ irq_freed c.irq
      ∷ cs;
}

-- The addresses, the reset of the engine, and the interrupt; an error of `request_irq` is printed.
unfoldable pub finish_x86 : PciBars → CdmaMaps → List ProbeCall → Probed
finish_x86 bars c cs = record {
  code = success;
  cdma_dev = some (record c {
    dram_base = bars.mem_start;
    conf_mem_base = u32 (bars.mem_start + conf_mem_offset);
    desc_mem_base = bars.mem_start + desc_mem_offset;
    irq = bars.dev_irq;
  });
  calls =
      irq_requested bars.dev_irq
      ∷ written (record { reg = cdma_reg_cr; value = cdma_reg_sr_iocirq })
      ∷ written (record { reg = cdma_reg_sr; value = cdma_reg_sr_iocirq })
      ∷ written (record { reg = cdma_reg_cr; value = cdma_reg_cr_reset })
      ∷ cs;
}

module _ (k : PciKernel) (bars : PciBars) where
  unfoldable pub map_config_mem : CdmaMaps → List ProbeCall → Probed
  unfolding map_reg error_x86 finish_x86
  map_config_mem =
      map_reg k.ioremap (bars.mem_start + conf_mem_offset) (conf_mem_len - 1)
        (λ va c. record c { config_mem = va }) error_x86 (finish_x86 bars)

  unfoldable pub map_dma_desc : CdmaMaps → List ProbeCall → Probed
  unfolding map_config_mem
  map_dma_desc =
      map_reg k.ioremap (bars.mem_start + desc_mem_offset) (desc_mem_len - 1)
        (λ va c. record c { dma_desc = va }) error_x86 map_config_mem

  unfoldable pub map_config_reg : CdmaMaps → List ProbeCall → Probed
  unfolding map_dma_desc
  map_config_reg =
      map_reg k.ioremap bars.mem_start conf_reg_len (λ va c. record c { config_reg = va }) error_x86
        map_dma_desc

  unfoldable pub map_dma_ctl : CdmaMaps → List ProbeCall → Probed
  unfolding map_config_reg
  map_dma_ctl =
      map_reg k.ioremap bars.dma_start bars.dma_len (λ va c. record c { dma_ctl_reg = va })
        error_x86 map_config_reg

  unfoldable pub map_pci_ctl : CdmaMaps → List ProbeCall → Probed
  unfolding map_dma_ctl
  map_pci_ctl =
      map_reg k.ioremap bars.pci_start bars.pci_len (λ va c. record c { pci_ctl_reg = va })
        error_x86 map_dma_ctl

  -- `cdma_dev` is NULL before. Where `kzalloc` fails, the label `error` reads `cdma_dev->irq`.
  unfoldable pub probe_pl_dma_x86 : Probed
  unfolding map_pci_ctl
  probe_pl_dma_x86 =
      if k.finds
      then (if k.enable_err == 0
          then (if k.kzalloc
              then map_pci_ctl zeroed []
              else record { code = null_pointer; cdma_dev = none; calls = [] })
          else record { code = enable_error k.enable_err; cdma_dev = none; calls = [] })
      else record { code = edma_probe; cdma_dev = none; calls = [] }
