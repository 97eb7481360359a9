-- ===== src/Probe/RemovalArm.antt =====
-- `probe_pl_dma_arm` and then `remove_pim_dma` of src/drv_src/dma_probe.c.
use lut_pim_driver.Prelude.{
  ℕ, ◌+◌, ◌≡◌, ◌≢◌, ◌⊎◌, inl, inr, refl, ◌∙◌, List, [], none, some, Bool, true, false, ◌&&◌, arith,
  Bool-cases,
}
use lut_pim_driver.Probe.Maps.{
  CdmaMaps, zeroed, ProbeCall, ProbeCode, success, edma_probe, eiomap_fault, Probed, unmap_if,
  remove_class, free_irq_if, remove_maps_arm, maps, unmaps,
}
use lut_pim_driver.Probe.PlArm.{
  ArmKernel, ArmResources, return_arm, finish_arm, arm_config_mem, arm_dma_desc, arm_config_reg,
  arm_dma_ctl, probe_pl_dma_arm,
}
use lut_pim_driver.Probe.MapsLaws.{
  bit, live, IsAt, unmaps-unmap_if, maps-unmap_if, other_calls, map_reg_lem,
}

-- The outcomes of the probe on ARM, and of the removal after each.
abbrev pub IsRemovedArm : (pl_class : Bool) → Probed → Type 0
IsRemovedArm pl_class p =
    (unmaps p.calls ≡ 0)
    × ((p.code ≢ success) ⊎ (maps p.calls ≡ 4))
    × (((out : List ProbeCall) × (remove_maps_arm pl_class p.cdma_dev p.calls ≡ some out)
          × (maps out ≡ maps p.calls)
          × (unmaps out ≡ maps p.calls))
        ⊎ ((maps p.calls ≡ 0) × (remove_maps_arm pl_class p.cdma_dev p.calls ≡ none)))

-- The removal gives each pointer back that is not NULL, but for the one that ARM does not use.
remove_arm_lem :
    (pl_class : Bool) (c : CdmaMaps) (cs : List ProbeCall)
    → c.pci_ctl_reg ≡ 0
    → (out : List ProbeCall) × (remove_maps_arm pl_class (some c) cs ≡ some out)
      × (maps out ≡ maps cs)
      × (unmaps out ≡ unmaps cs + live c)
unfolding remove_maps_arm
remove_arm_lem pl_class c cs unused =
    let c1 = unmap_if c.dma_ctl_reg cs in
    let c2 = unmap_if c.config_reg c1 in
    let c3 = unmap_if c.dma_desc c2 in
    let c4 = unmap_if c.config_mem c3 in
    let (m5, u5) = other_calls pl_class c.irq c4 in
    let nil : bit c.pci_ctl_reg ≡ 0 = ground arith in
    (
      free_irq_if c.irq (remove_class pl_class c4),
      refl,
      m5
          ∙ maps-unmap_if c.config_mem c3
          ∙ maps-unmap_if c.dma_desc c2
          ∙ maps-unmap_if c.config_reg c1
          ∙ maps-unmap_if c.dma_ctl_reg cs,
      omega (
        arith,
        nil,
        u5,
        unmaps-unmap_if c.config_mem c3,
        unmaps-unmap_if c.dma_desc c2,
        unmaps-unmap_if c.config_reg c1,
        unmaps-unmap_if c.dma_ctl_reg cs,
      ),
    )

module _ (pl_class : Bool) where
  return_arm_lem :
      (code : ProbeCode) (n : ℕ) (c : CdmaMaps) (cs : List ProbeCall)
      → c.pci_ctl_reg ≡ 0
      → (code ≢ success) ⊎ (n ≡ 4)
      → IsAt n c cs
      → IsRemovedArm pl_class (return_arm code c cs)
  return_arm_lem code n c cs unused h i =
      let (out, e, m, u) = remove_arm_lem pl_class c cs unused in
      let four : (code ≢ success) ⊎ (maps cs ≡ 4) = elim h [
        | inl ne ↦ inl ne
        | inr four ↦ inr (i.made ∙ four)
      ] in
      (i.kept, four, inl (out, e, m, omega (arith, u, i.kept, i.pointers, i.made)))

  finish_arm_lem :
      (granted : Bool) (res : ArmResources) (c : CdmaMaps) (cs : List ProbeCall)
      → c.pci_ctl_reg ≡ 0
      → IsAt 4 c cs
      → IsRemovedArm pl_class (finish_arm granted res c cs)
  unfolding finish_arm
  finish_arm_lem true res c cs unused i =
      return_arm_lem success 4 _ _ unused (inr refl)
        (record { pointers = i.pointers; made = i.made; kept = i.kept })
  finish_arm_lem false res c cs unused i =
      return_arm_lem edma_probe 4 _ cs unused (inr refl)
        (record { pointers = i.pointers; made = i.made; kept = i.kept })

  module _ (k : ArmKernel) (res : ArmResources) where
    arm_config_mem_lem :
        (a b c : ℕ) (cs : List ProbeCall)
        → let m = record zeroed { dma_ctl_reg = a; config_reg = b; dma_desc = c } in
          IsAt 3 m cs → IsRemovedArm pl_class (arm_config_mem k res m cs)
    unfolding arm_config_mem
    arm_config_mem_lem a b c cs i =
        map_reg_lem (IsRemovedArm pl_class) k.ioremap _ _ 3 (λ va m. record m { config_mem = va })
          (return_arm eiomap_fault) (finish_arm k.irq_granted res) _ cs (λ va. omega arith) i
          (λ d ds j. return_arm_lem eiomap_fault 3 _ ds refl (inl (λ e. cc)) j)
          (λ d ds j. finish_arm_lem k.irq_granted res _ ds refl j)

    arm_dma_desc_lem :
        (a b : ℕ) (cs : List ProbeCall)
        → let m = record zeroed { dma_ctl_reg = a; config_reg = b } in
          IsAt 2 m cs → IsRemovedArm pl_class (arm_dma_desc k res m cs)
    unfolding arm_dma_desc
    arm_dma_desc_lem a b cs i =
        map_reg_lem (IsRemovedArm pl_class) k.ioremap _ _ 2 (λ va m. record m { dma_desc = va })
          (return_arm eiomap_fault) (arm_config_mem k res) _ cs (λ va. omega arith) i
          (λ d ds j. return_arm_lem eiomap_fault 2 _ ds refl (inl (λ e. cc)) j)
          (λ c ds j. arm_config_mem_lem a b c ds j)

    arm_config_reg_lem :
        (a : ℕ) (cs : List ProbeCall)
        → let m = record zeroed { dma_ctl_reg = a } in
          IsAt 1 m cs → IsRemovedArm pl_class (arm_config_reg k res m cs)
    unfolding arm_config_reg
    arm_config_reg_lem a cs i = elim (Bool-cases (k.conf_node && k.conf_resource)) [
      | inr e ↦ rw e (return_arm_lem edma_probe 1 _ cs refl (inl (λ f. cc)) i)
      | inl e ↦ rw e (
          map_reg_lem (IsRemovedArm pl_class) k.ioremap _ _ 1 (λ va m. record m { config_reg = va })
            (return_arm eiomap_fault) (arm_dma_desc k res) _ cs (λ va. omega arith) i
            (λ d ds j. return_arm_lem eiomap_fault 1 _ ds refl (inl (λ e. cc)) j)
            (λ b ds j. arm_dma_desc_lem a b ds j))
    ]

    arm_dma_ctl_lem : IsRemovedArm pl_class (arm_dma_ctl k res zeroed [])
    unfolding arm_dma_ctl
    arm_dma_ctl_lem =
        map_reg_lem (IsRemovedArm pl_class) k.ioremap _ _ 0 (λ va m. record m { dma_ctl_reg = va })
          (return_arm eiomap_fault) (arm_config_reg k res) zeroed [] (λ va. omega arith)
          (record { pointers = refl; made = refl; kept = refl })
          (λ d ds j. return_arm_lem eiomap_fault 0 _ ds refl (inl (λ e. cc)) j)
          (λ a ds j. arm_config_reg_lem a ds j)

pub remove_maps-probe_arm :
    (k : ArmKernel) (res : ArmResources) (pl_class : Bool)
    → IsRemovedArm pl_class (probe_pl_dma_arm k res)
unfolding probe_pl_dma_arm remove_maps_arm
remove_maps-probe_arm k res pl_class = elim (Bool-cases (k.dma_node && k.dma_resource)) [
  | inr e ↦ rw e (refl, inl (λ f. cc), inr (refl, refl))
  | inl e ↦ rw e (elim (Bool-cases k.kzalloc) [
    | inr g ↦ rw g (refl, inl (λ f. cc), inr (refl, refl))
    | inl g ↦ rw g (arm_dma_ctl_lem pl_class k res)
  ])
]
