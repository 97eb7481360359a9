-- ===== src/Probe/Maps.antt =====
-- The register files of the PL-DMA device that the probes of src/drv_src/dma_probe.c map, and what
-- `remove_pim_dma` unmaps. The kernel's answers are parameters.
use lut_pim_driver.Prelude.{
  ℕ, ◌+◌, List, [], ◌∷◌, Option, none, some, Bool, true, false, ◌==◌, if◌then◌else◌,
}
use lut_pim_driver.PlDma.{Write}

-- The pointers and the addresses of `cdma_dev_t`; NULL is 0.
pub record CdmaMaps : Type 0 where
  pub irq : ℕ
  pub pci_ctl_reg : ℕ
  pub dma_ctl_reg : ℕ
  pub dma_desc : ℕ
  pub config_reg : ℕ
  pub config_mem : ℕ
  pub desc_mem_base : ℕ
  pub conf_mem_base : ℕ
  pub dram_base : ℕ

-- `kzalloc`.
abbrev pub zeroed : CdmaMaps
zeroed = record {
  irq = 0;
  pci_ctl_reg = 0;
  dma_ctl_reg = 0;
  dma_desc = 0;
  config_reg = 0;
  config_mem = 0;
  desc_mem_base = 0;
  conf_mem_base = 0;
  dram_base = 0;
}

-- The calls of the kernel: `ioremap_nocache` with its result, `iounmap`, the request and the release
-- of the interrupt, the register writes, and the removal of the character device.
pub data ProbeCall : Type 0 where
  mapped : (start len va : ℕ) → ProbeCall
  unmapped : (va : ℕ) → ProbeCall
  irq_requested : (irq : ℕ) → ProbeCall
  irq_freed : (irq : ℕ) → ProbeCall
  written : Write → ProbeCall
  pl_drv_removed : ProbeCall

-- The results; `null_pointer` where the code follows a NULL pointer.
pub data ProbeCode : Type 0 where
  success : ProbeCode
  edma_probe : ProbeCode
  eiomap_fault : ProbeCode
  enable_error : (err : ℕ) → ProbeCode
  null_pointer : ProbeCode

-- The result, `cdma_dev` (`none` for NULL), and the calls, the latest one first.
pub record Probed : Type 0 where
  pub code : ProbeCode
  pub cdma_dev : Option CdmaMaps
  pub calls : List ProbeCall

-- One `ioremap_nocache`: the pointer is kept, and tested for NULL.
unfoldable pub map_reg :
    (ioremap : List ProbeCall → (start len : ℕ) → ℕ) (start len : ℕ) (set : ℕ → CdmaMaps → CdmaMaps)
    (on_null next : CdmaMaps → List ProbeCall → Probed)
    → CdmaMaps
    → List ProbeCall
    → Probed
map_reg ioremap start len set on_null next c cs =
    let va = ioremap cs start len in
    let cs' = mapped start len va ∷ cs in
    if va == 0 then on_null (set va c) cs' else next (set va c) cs'

abbrev pub unmap_if : (va : ℕ) → List ProbeCall → List ProbeCall
unmap_if va cs = if va == 0 then cs else unmapped va ∷ cs

-- `if (pl_class != NULL)`.
abbrev pub remove_class : (pl_class : Bool) → List ProbeCall → List ProbeCall
remove_class true cs = pl_drv_removed ∷ cs
remove_class false cs = cs

abbrev pub free_irq_if : (irq : ℕ) → List ProbeCall → List ProbeCall
free_irq_if irq cs = if irq == 0 then cs else irq_freed irq ∷ cs

-- The part of `remove_pim_dma` for `cdma_dev`, which it reads before it tests it for NULL.
unfoldable pub remove_maps_x86 :
    (pl_class : Bool) → Option CdmaMaps → List ProbeCall → Option (List ProbeCall)
remove_maps_x86 pl_class none cs = none
remove_maps_x86 pl_class (some c) cs =
    let cs4 =
      unmap_if c.config_mem
        (unmap_if c.dma_desc (unmap_if c.config_reg (unmap_if c.dma_ctl_reg cs))) in
    some (unmap_if c.pci_ctl_reg (free_irq_if c.irq (remove_class pl_class cs4)))

unfoldable pub remove_maps_arm :
    (pl_class : Bool) → Option CdmaMaps → List ProbeCall → Option (List ProbeCall)
remove_maps_arm pl_class none cs = none
remove_maps_arm pl_class (some c) cs =
    let cs4 =
      unmap_if c.config_mem
        (unmap_if c.dma_desc (unmap_if c.config_reg (unmap_if c.dma_ctl_reg cs))) in
    some (free_irq_if c.irq (remove_class pl_class cs4))

-- How many mappings were made, and how often one was taken back: the kernel ignores NULL.
abbrev pub maps : List ProbeCall → ℕ
maps [] = 0
maps (mapped start len va ∷ cs) = if va == 0 then maps cs else maps cs + 1
maps (_ ∷ cs) = maps cs

abbrev pub unmaps : List ProbeCall → ℕ
unmaps [] = 0
unmaps (unmapped va ∷ cs) = if va == 0 then unmaps cs else unmaps cs + 1
unmaps (_ ∷ cs) = unmaps cs
