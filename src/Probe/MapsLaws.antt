-- ===== src/Probe/MapsLaws.antt =====
-- Counting what the probes of src/drv_src/dma_probe.c map and unmap.
use lut_pim_driver.Prelude.{
  ℕ, suc, ◌+◌, ◌≡◌, inl, inr, refl, ◌∙◌, List, ◌∷◌, Bool, true, false, ◌==◌, if◌then◌else◌, arith,
  Bool-cases,
}
use lut_pim_driver.Probe.Maps.{
  CdmaMaps, ProbeCall, mapped, unmapped, Probed, map_reg, unmap_if, remove_class, free_irq_if, maps,
  unmaps,
}

abbrev pub bit : (va : ℕ) → ℕ
bit va = if va == 0 then 0 else 1

-- The pointers that are not NULL.
abbrev pub live : CdmaMaps → ℕ
live c =
    bit c.pci_ctl_reg + bit c.dma_ctl_reg + bit c.dma_desc + bit c.config_reg + bit c.config_mem

pub unmaps-unmapped :
    (va : ℕ) (cs : List ProbeCall) → unmaps (unmapped va ∷ cs) ≡ unmaps cs + bit va
unmaps-unmapped va cs = ground arith

pub unmaps-unmap_if : (va : ℕ) (cs : List ProbeCall) → unmaps (unmap_if va cs) ≡ unmaps cs + bit va
unmaps-unmap_if va cs = ground arith

pub maps-unmap_if : (va : ℕ) (cs : List ProbeCall) → maps (unmap_if va cs) ≡ maps cs
maps-unmap_if va cs = ground arith

pub maps-mapped :
    (start len va : ℕ) (cs : List ProbeCall) → maps (mapped start len va ∷ cs) ≡ maps cs + bit va
maps-mapped start len va cs = ground arith

pub other_calls :
    (pl_class : Bool) (irq : ℕ) (cs : List ProbeCall)
    → let out = free_irq_if irq (remove_class pl_class cs) in
      (maps out ≡ maps cs) × (unmaps out ≡ unmaps cs)
other_calls true irq cs = ground arith
other_calls false irq cs = ground arith

-- `n` regions are mapped, the pointers to them are in the device, and none was unmapped.
pub record IsAt (n : ℕ) (c : CdmaMaps) (cs : List ProbeCall) : Type 0 where
  pub pointers : live c ≡ n
  pub made : maps cs ≡ n
  pub kept : unmaps cs ≡ 0

pub map_reg_lem :
    (P : Probed → Type 0) (ioremap : List ProbeCall → (start len : ℕ) → ℕ) (start len n : ℕ)
    (set : ℕ → CdmaMaps → CdmaMaps) (on_null next : CdmaMaps → List ProbeCall → Probed)
    (c : CdmaMaps) (cs : List ProbeCall)
    → ((va : ℕ) → live (set va c) ≡ live c + bit va)
    → IsAt n c cs
    → ((va : ℕ) (ds : List ProbeCall) → IsAt n (set va c) ds → P (on_null (set va c) ds))
    → ((va : ℕ) (ds : List ProbeCall) → IsAt (suc n) (set va c) ds → P (next (set va c) ds))
    → P (map_reg ioremap start len set on_null next c cs)
unfolding map_reg
map_reg_lem P ioremap start len n set on_null next c cs h i fails goes =
    let va = ioremap cs start len in
    let more : live (set va c) ≡ live c + bit va = h va in
    let count = maps-mapped start len va cs in
    elim (Bool-cases (va == 0)) [
      | inl e ↦
          let nil : bit va ≡ 0 = rw e refl in
          rw e (
            fails va (mapped start len va ∷ cs) (record {
              pointers = more ∙ omega (arith, nil, i.pointers);
              made = count ∙ omega (arith, nil, i.made);
              kept = i.kept;
            }))
      | inr e ↦
          let one : bit va ≡ 1 = rw e refl in
          rw e (
            goes va (mapped start len va ∷ cs) (record {
              pointers = more ∙ omega (arith, one, i.pointers);
              made = count ∙ omega (arith, one, i.made);
              kept = i.kept;
            }))
    ]
