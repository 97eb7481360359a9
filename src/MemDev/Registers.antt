-- ===== src/MemDev/Registers.antt =====
-- The register files that `probe_pl_dma_x86` of src/drv_src/dma_probe.c maps lie in the part of
-- resource 0 that src/drv_src/pim_mem_probe.c reserves.
use lut_pim_driver.Prelude.{
  ℕ, ◌+◌, ◌≤◌, ◌≡◌, ◌⊎◌, inl, inr, refl, List, [], ◌∷◌, ◌==◌, arith, Bool-cases,
}
use lut_pim_driver.Probe.Maps.{CdmaMaps, zeroed, ProbeCall, mapped, Probed, map_reg}
use lut_pim_driver.Probe.PlX86.{
  PciKernel, PciBars, error_x86, finish_x86, map_config_mem, map_dma_desc, map_config_reg,
  map_dma_ctl, map_pci_ctl, probe_pl_dma_x86,
}
use lut_pim_driver.MemDev.{reserved}

abbrev pub AllMapped : ((start len : ℕ) → Type 0) → List ProbeCall → Type 0
AllMapped Q [] = Unit {0}
AllMapped Q (mapped start len va ∷ cs) = Q start len × AllMapped Q cs
AllMapped Q (_ ∷ cs) = AllMapped Q cs

-- A range of one of the resources 1 and 3, or a part of the reserved bytes of resource 0.
abbrev pub IsRegisters : PciBars → (start len : ℕ) → Type 0
IsRegisters bars start len =
    (start ≡ bars.pci_start)
    ⊎ ((start ≡ bars.dma_start)
        ⊎ ((bars.mem_start ≤ start) × (start + len ≤ bars.mem_start + reserved)))

module _ (Q : (start len : ℕ) → Type 0) where
  map_reg-AllMapped :
      (ioremap : List ProbeCall → (start len : ℕ) → ℕ) (start len : ℕ)
      (set : ℕ → CdmaMaps → CdmaMaps) (on_null next : CdmaMaps → List ProbeCall → Probed)
      (c : CdmaMaps) (cs : List ProbeCall)
      → Q start len
      → AllMapped Q cs
      → ((d : CdmaMaps) (ds : List ProbeCall) → AllMapped Q ds → AllMapped Q (on_null d ds).calls)
      → ((d : CdmaMaps) (ds : List ProbeCall) → AllMapped Q ds → AllMapped Q (next d ds).calls)
      → AllMapped Q (map_reg ioremap start len set on_null next c cs).calls
  unfolding map_reg
  map_reg-AllMapped ioremap start len set on_null next c cs q w fails goes =
      let va = ioremap cs start len in
      elim (Bool-cases (va == 0)) [
        | inl e ↦ rw e (fails (set va c) (mapped start len va ∷ cs) (q, w))
        | inr e ↦ rw e (goes (set va c) (mapped start len va ∷ cs) (q, w))
      ]

  error_x86-AllMapped :
      (c : CdmaMaps) (cs : List ProbeCall) → AllMapped Q cs → AllMapped Q (error_x86 c cs).calls
  unfolding error_x86
  error_x86-AllMapped c cs w = w

module _ (k : PciKernel) (bars : PciBars) where
  abbrev Ok : Probed → Type 0
  Ok p = AllMapped (IsRegisters bars) p.calls

  config_mem-AllMapped :
      (c : CdmaMaps) (cs : List ProbeCall)
      → AllMapped (IsRegisters bars) cs
      → Ok (map_config_mem k bars c cs)
  unfolding map_config_mem finish_x86
  config_mem-AllMapped c cs w =
      map_reg-AllMapped (IsRegisters bars) k.ioremap _ _ (λ va m. record m { config_mem = va })
        error_x86 (finish_x86 bars) c cs (inr (inr (omega arith, omega arith))) w
        (error_x86-AllMapped (IsRegisters bars)) (λ d ds v. v)

  dma_desc-AllMapped :
      (c : CdmaMaps) (cs : List ProbeCall)
      → AllMapped (IsRegisters bars) cs
      → Ok (map_dma_desc k bars c cs)
  unfolding map_dma_desc
  dma_desc-AllMapped c cs w =
      map_reg-AllMapped (IsRegisters bars) k.ioremap _ _ (λ va m. record m { dma_desc = va })
        error_x86 (map_config_mem k bars) c cs (inr (inr (omega arith, omega arith))) w
        (error_x86-AllMapped (IsRegisters bars)) config_mem-AllMapped

  config_reg-AllMapped :
      (c : CdmaMaps) (cs : List ProbeCall)
      → AllMapped (IsRegisters bars) cs
      → Ok (map_config_reg k bars c cs)
  unfolding map_config_reg
  config_reg-AllMapped c cs w =
      map_reg-AllMapped (IsRegisters bars) k.ioremap _ _ (λ va m. record m { config_reg = va })
        error_x86 (map_dma_desc k bars) c cs (inr (inr (omega arith, omega arith))) w
        (error_x86-AllMapped (IsRegisters bars)) dma_desc-AllMapped

  dma_ctl-AllMapped :
      (c : CdmaMaps) (cs : List ProbeCall)
      → AllMapped (IsRegisters bars) cs
      → Ok (map_dma_ctl k bars c cs)
  unfolding map_dma_ctl
  dma_ctl-AllMapped c cs w =
      map_reg-AllMapped (IsRegisters bars) k.ioremap _ _ (λ va m. record m { dma_ctl_reg = va })
        error_x86 (map_config_reg k bars) c cs (inr (inl refl)) w
        (error_x86-AllMapped (IsRegisters bars)) config_reg-AllMapped

  pci_ctl-AllMapped : Ok (map_pci_ctl k bars zeroed [])
  unfolding map_pci_ctl
  pci_ctl-AllMapped =
      map_reg-AllMapped (IsRegisters bars) k.ioremap _ _ (λ va m. record m { pci_ctl_reg = va })
        error_x86 (map_dma_ctl k bars) zeroed [] (inl refl) tt
        (error_x86-AllMapped (IsRegisters bars)) dma_ctl-AllMapped

  pub probe_pl_dma_x86-AllMapped : Ok (probe_pl_dma_x86 k bars)
  unfolding probe_pl_dma_x86
  probe_pl_dma_x86-AllMapped = elim (Bool-cases k.finds) [
    | inr e ↦ rw e tt
    | inl e ↦ rw e (elim (Bool-cases (k.enable_err == 0)) [
      | inr f ↦ rw f tt
      | inl f ↦
          rw f (elim (Bool-cases k.kzalloc) [ inr g ↦ rw g tt | inl g ↦ rw g pci_ctl-AllMapped ])
    ])
  ]
