-- ===== src/Probe/PlArm.antt =====
-- `probe_pl_dma_arm` of src/drv_src/dma_probe.c, as it is built with `INTR_ENABLE`.
use lut_pim_driver.Prelude.{ℕ, ◌+◌, ◌-◌, List, [], ◌∷◌, none, some, Bool, ◌&&◌, if◌then◌else◌, u32}
use lut_pim_driver.Probe.Maps.{
  CdmaMaps, zeroed, ProbeCall, irq_requested, ProbeCode, success, edma_probe, eiomap_fault,
  null_pointer, Probed, map_reg,
}
use lut_pim_driver.Probe.PlX86.{
  conf_reg_len, conf_mem_offset, conf_mem_len, desc_mem_offset, desc_mem_len,
}

-- The nodes of the device tree (whether `of_parse_phandle` finds one and `of_address_to_resource`
-- gives its address), `kzalloc`, `ioremap_nocache`, and whether `devm_request_irq` succeeds.
pub record ArmKernel : Type 0 where
  pub dma_node : Bool
  pub dma_resource : Bool
  pub conf_node : Bool
  pub conf_resource : Bool
  pub kzalloc : Bool
  pub ioremap : List ProbeCall → (start len : ℕ) → ℕ
  pub irq_granted : Bool

-- The two resources, and the interrupt.
pub record ArmResources : Type 0 where
  pub dma_start : ℕ
  pub dma_len : ℕ
  pub conf_start : ℕ
  pub dev_irq : ℕ

-- The returns with an error: what is mapped stays.
abbrev pub return_arm : ProbeCode → CdmaMaps → List ProbeCall → Probed
return_arm code c cs = record { code = code; cdma_dev = some c; calls = cs }

unfoldable pub finish_arm : (irq_granted : Bool) → ArmResources → CdmaMaps → List ProbeCall → Probed
finish_arm irq_granted res c cs =
    let d = record c {
      dram_base = res.conf_start;
      conf_mem_base = u32 (res.conf_start + conf_mem_offset);
      desc_mem_base = res.conf_start + desc_mem_offset;
      irq = res.dev_irq;
    } in
    if irq_granted
    then return_arm success d (irq_requested res.dev_irq ∷ cs)
    else return_arm edma_probe (record d { irq = 0 }) cs

module _ (k : ArmKernel) (res : ArmResources) where
  unfoldable pub arm_config_mem : CdmaMaps → List ProbeCall → Probed
  unfolding map_reg finish_arm
  arm_config_mem =
      map_reg k.ioremap (res.conf_start + conf_mem_offset) (conf_mem_len - 1)
        (λ va c. record c { config_mem = va }) (return_arm eiomap_fault)
        (finish_arm k.irq_granted res)

  unfoldable pub arm_dma_desc : CdmaMaps → List ProbeCall → Probed
  unfolding arm_config_mem
  arm_dma_desc =
      map_reg k.ioremap (res.conf_start + desc_mem_offset) (desc_mem_len - 1)
        (λ va c. record c { dma_desc = va }) (return_arm eiomap_fault) arm_config_mem

  unfoldable pub arm_config_reg : CdmaMaps → List ProbeCall → Probed
  unfolding arm_dma_desc
  arm_config_reg c cs =
      if k.conf_node && k.conf_resource
      then map_reg k.ioremap res.conf_start conf_reg_len (λ va d. record d { config_reg = va })
          (return_arm eiomap_fault) arm_dma_desc c cs
      else return_arm edma_probe c cs

  unfoldable pub arm_dma_ctl : CdmaMaps → List ProbeCall → Probed
  unfolding arm_config_reg
  arm_dma_ctl =
      map_reg k.ioremap res.dma_start res.dma_len (λ va c. record c { dma_ctl_reg = va })
        (return_arm eiomap_fault) arm_config_reg

  -- `cdma_dev` is NULL before. Where `kzalloc` fails, the label `error` reads a field of it.
  unfoldable pub probe_pl_dma_arm : Probed
  unfolding arm_dma_ctl
  probe_pl_dma_arm =
      if k.dma_node && k.dma_resource
      then (if k.kzalloc
          then arm_dma_ctl zeroed []
          else record { code = null_pointer; cdma_dev = none; calls = [] })
      else record { code = edma_probe; cdma_dev = none; calls = [] }
