-- ===== src/Probe/RemovalX86.antt =====
-- `probe_pl_dma_x86` and then `remove_pim_dma` of src/drv_src/dma_probe.c.
use lut_pim_driver.Prelude.{
  ℕ, ◌+◌, ◌*◌, ◌≡◌, ◌≢◌, ◌⊎◌, inl, inr, refl, sym, ◌∙◌, List, [], ◌∷◌, none, some, Bool, ◌==◌,
  arith, Bool-cases, u32,
}
use lut_pim_driver.Probe.Maps.{
  CdmaMaps, zeroed, ProbeCall, unmapped, irq_freed, pl_drv_removed, success, eiomap_fault, Probed,
  unmap_if, remove_class, free_irq_if, remove_maps_x86, maps, unmaps,
}
use lut_pim_driver.Probe.PlX86.{
  PciKernel, PciBars, conf_mem_offset, desc_mem_offset, error_x86, finish_x86, map_config_mem,
  map_dma_desc, map_config_reg, map_dma_ctl, map_pci_ctl, probe_pl_dma_x86,
}
use lut_pim_driver.Probe.MapsLaws.{
  live, IsAt, unmaps-unmapped, unmaps-unmap_if, maps-unmap_if, other_calls, map_reg_lem,
}

-- The removal gives each pointer back that is not NULL.
pub remove_x86_lem :
    (pl_class : Bool) (c : CdmaMaps) (cs : List ProbeCall)
    → (out : List ProbeCall) × (remove_maps_x86 pl_class (some c) cs ≡ some out)
      × (maps out ≡ maps cs)
      × (unmaps out ≡ unmaps cs + live c)
unfolding remove_maps_x86
remove_x86_lem pl_class c cs =
    let c1 = unmap_if c.dma_ctl_reg cs in
    let c2 = unmap_if c.config_reg c1 in
    let c3 = unmap_if c.dma_desc c2 in
    let c4 = unmap_if c.config_mem c3 in
    let c5 = free_irq_if c.irq (remove_class pl_class c4) in
    let (m5, u5) = other_calls pl_class c.irq c4 in
    (
      unmap_if c.pci_ctl_reg c5,
      refl,
      maps-unmap_if c.pci_ctl_reg c5
          ∙ m5
          ∙ maps-unmap_if c.config_mem c3
          ∙ maps-unmap_if c.dma_desc c2
          ∙ maps-unmap_if c.config_reg c1
          ∙ maps-unmap_if c.dma_ctl_reg cs,
      omega (
        arith,
        unmaps-unmap_if c.pci_ctl_reg c5,
        u5,
        unmaps-unmap_if c.config_mem c3,
        unmaps-unmap_if c.dma_desc c2,
        unmaps-unmap_if c.config_reg c1,
        unmaps-unmap_if c.dma_ctl_reg cs,
      ),
    )

module _ (pl_class : Bool) where
  -- The outcomes of the probe on x86, and of the removal after each.
  abbrev pub IsRemovedX86 : Probed → Type 0
  IsRemovedX86 p =
      ((p.code ≡ success)
        × (maps p.calls ≡ 5)
        × (unmaps p.calls ≡ 0)
        × ((out : List ProbeCall) × (remove_maps_x86 pl_class p.cdma_dev p.calls ≡ some out)
            × (maps out ≡ 5)
            × (unmaps out ≡ 5)))
      ⊎ (((p.code ≡ eiomap_fault)
            × (unmaps p.calls ≡ maps p.calls)
            × ((out : List ProbeCall) × (remove_maps_x86 pl_class p.cdma_dev p.calls ≡ some out)
                × (maps out ≡ maps p.calls)
                × (unmaps out ≡ 2 * maps p.calls)))
          ⊎ ((p.code ≢ success)
              × (maps p.calls ≡ 0)
              × (remove_maps_x86 pl_class p.cdma_dev p.calls ≡ none)))

  error_x86_lem :
      (n : ℕ) (c : CdmaMaps) (cs : List ProbeCall) → IsAt n c cs → IsRemovedX86 (error_x86 c cs)
  unfolding error_x86
  error_x86_lem n c cs i =
      let c1 = irq_freed c.irq ∷ cs in
      let c2 = unmapped c.pci_ctl_reg ∷ c1 in
      let c3 = unmapped c.dma_ctl_reg ∷ c2 in
      let c4 = unmapped c.dma_desc ∷ c3 in
      let c5 = unmapped c.config_reg ∷ c4 in
      let c6 = unmapped c.config_mem ∷ c5 in
      let gone : unmaps c6 ≡ n = omega (
        arith,
        unmaps-unmapped c.pci_ctl_reg c1,
        unmaps-unmapped c.dma_ctl_reg c2,
        unmaps-unmapped c.dma_desc c3,
        unmaps-unmapped c.config_reg c4,
        unmaps-unmapped c.config_mem c5,
        i.pointers,
        i.kept,
      ) in
      let (out, e, m, u) = remove_x86_lem pl_class c (pl_drv_removed ∷ c6) in
      inr (inl (refl, gone ∙ sym i.made, (out, e, m, omega (arith, u, gone, i.pointers, i.made))))

  finish_x86_lem :
      (bars : PciBars) (c : CdmaMaps) (cs : List ProbeCall)
      → IsAt 5 c cs
      → IsRemovedX86 (finish_x86 bars c cs)
  unfolding finish_x86
  finish_x86_lem bars c cs i =
      let p = finish_x86 bars c cs in
      let d = record c {
        dram_base = bars.mem_start;
        conf_mem_base = u32 (bars.mem_start + conf_mem_offset);
        desc_mem_base = bars.mem_start + desc_mem_offset;
        irq = bars.dev_irq;
      } in
      let (out, e, m, u) = remove_x86_lem pl_class d p.calls in
      inl (
        refl,
        i.made,
        i.kept,
        (out, e, omega (arith, m, i.made), omega (arith, u, i.kept, i.pointers)),
      )

  module _ (k : PciKernel) (bars : PciBars) where
    map_config_mem_lem :
        (a b c d : ℕ) (cs : List ProbeCall)
        → let m = record zeroed {
          pci_ctl_reg = a;
          dma_ctl_reg = b;
          config_reg = c;
          dma_desc = d;
        } in
          IsAt 4 m cs → IsRemovedX86 (map_config_mem k bars m cs)
    unfolding map_config_mem
    map_config_mem_lem a b c d cs i =
        map_reg_lem IsRemovedX86 k.ioremap _ _ 4 (λ va m. record m { config_mem = va }) error_x86
          (finish_x86 bars) _ cs (λ va. omega arith) i (λ va ds j. error_x86_lem 4 _ ds j)
          (λ e ds j. finish_x86_lem bars _ ds j)

    map_dma_desc_lem :
        (a b c : ℕ) (cs : List ProbeCall)
        → let m = record zeroed { pci_ctl_reg = a; dma_ctl_reg = b; config_reg = c } in
          IsAt 3 m cs → IsRemovedX86 (map_dma_desc k bars m cs)
    unfolding map_dma_desc
    map_dma_desc_lem a b c cs i =
        map_reg_lem IsRemovedX86 k.ioremap _ _ 3 (λ va m. record m { dma_desc = va }) error_x86
          (map_config_mem k bars) _ cs (λ va. omega arith) i (λ va ds j. error_x86_lem 3 _ ds j)
          (λ d ds j. map_config_mem_lem a b c d ds j)

    map_config_reg_lem :
        (a b : ℕ) (cs : List ProbeCall)
        → let m = record zeroed { pci_ctl_reg = a; dma_ctl_reg = b } in
          IsAt 2 m cs → IsRemovedX86 (map_config_reg k bars m cs)
    unfolding map_config_reg
    map_config_reg_lem a b cs i =
        map_reg_lem IsRemovedX86 k.ioremap _ _ 2 (λ va m. record m { config_reg = va }) error_x86
          (map_dma_desc k bars) _ cs (λ va. omega arith) i (λ va ds j. error_x86_lem 2 _ ds j)
          (λ c ds j. map_dma_desc_lem a b c ds j)

    map_dma_ctl_lem :
        (a : ℕ) (cs : List ProbeCall)
        → let m = record zeroed { pci_ctl_reg = a } in
          IsAt 1 m cs → IsRemovedX86 (map_dma_ctl k bars m cs)
    unfolding map_dma_ctl
    map_dma_ctl_lem a cs i =
        map_reg_lem IsRemovedX86 k.ioremap _ _ 1 (λ va m. record m { dma_ctl_reg = va }) error_x86
          (map_config_reg k bars) _ cs (λ va. omega arith) i (λ va ds j. error_x86_lem 1 _ ds j)
          (λ b ds j. map_config_reg_lem a b ds j)

    map_pci_ctl_lem : IsRemovedX86 (map_pci_ctl k bars zeroed [])
    unfolding map_pci_ctl
    map_pci_ctl_lem =
        map_reg_lem IsRemovedX86 k.ioremap _ _ 0 (λ va m. record m { pci_ctl_reg = va }) error_x86
          (map_dma_ctl k bars) zeroed [] (λ va. omega arith)
          (record { pointers = refl; made = refl; kept = refl }) (λ va ds j. error_x86_lem 0 _ ds j)
          (λ a ds j. map_dma_ctl_lem a ds j)

pub remove_maps-probe_x86 :
    (k : PciKernel) (bars : PciBars) (pl_class : Bool)
    → IsRemovedX86 pl_class (probe_pl_dma_x86 k bars)
unfolding probe_pl_dma_x86 remove_maps_x86
remove_maps-probe_x86 k bars pl_class = elim (Bool-cases k.finds) [
  | inr e ↦ rw e (inr (inr (λ n. cc, refl, refl)))
  | inl e ↦ rw e (elim (Bool-cases (k.enable_err == 0)) [
    | inr f ↦ rw f (inr (inr (λ n. cc, refl, refl)))
    | inl f ↦ rw f (elim (Bool-cases k.kzalloc) [
      | inr g ↦ rw g (inr (inr (λ n. cc, refl, refl)))
      | inl g ↦ rw g (map_pci_ctl_lem pl_class k bars)
    ])
  ])
]
