-- ===== src/Startup/Arm.antt =====
-- The start of src/drv_src/pim_drv_main.c on ARM, and its end.
use lut_pim_driver.Prelude.{
  ℕ, ◌≡◌, ◌≢◌, ◌⊎◌, inl, inr, refl, subst, none, some, Bool, true, false, ◌&&◌, ◌==◌, arith,
  Bool-cases,
}
use lut_pim_driver.Probe.Maps.{maps}
use lut_pim_driver.Probe.PlArm.{ArmKernel, ArmResources, probe_pl_dma_arm}
use lut_pim_driver.Probe.RemovalArm.{remove_maps-probe_arm}
use lut_pim_driver.Probe.Register.{register_pl_drv, register_ps_drv}
use lut_pim_driver.PsDma.Engine.{probe_ps_dma, ps_buffer_alloc}
use lut_pim_driver.Startup.{
  RegKernel, pl_succeeds, ps_succeeds, pl_returns, reg_returns, ArmLoaded, started_arm,
  pim_drv_init_arm,
}
use lut_pim_driver.Startup.Ready.{cdevs, succeeds-cases, register_if-none}

-- No device is open to programs before what it works on is set up.
pub record IsArmReady (t : ArmLoaded) : Type 0 where
  pub engine : (cdevs t.pl_drv ≡ 0) ⊎ (maps t.pl.calls ≡ 4)
  pub buffer : (cdevs t.ps_drv ≡ 0) ⊎ ((t.ps.1.chan ≡ true) × (t.ps.1.kern_addr ≢ 0))

probe_pl_dma_arm-maps :
    (k : ArmKernel) (res : ArmResources)
    → (pl_succeeds (probe_pl_dma_arm k res).code ≡ false)
      ⊎ (maps (probe_pl_dma_arm k res).calls ≡ 4)
probe_pl_dma_arm-maps k res =
    let (u, cases, r) = remove_maps-probe_arm k res true in
    elim (succeeds-cases (probe_pl_dma_arm k res).code) [
      | inl e ↦ inl e
      | inr e ↦ elim cases [ inl n ↦ absurd (n e) | inr m ↦ inr m ]
    ]

probe_ps_dma-buffer :
    (got : Bool) (ptr handle : ℕ)
    → let (code, s) = probe_ps_dma got ptr handle in
      (ps_succeeds code ≡ false) ⊎ ((s.chan ≡ true) × (s.kern_addr ≢ 0))
unfolding probe_ps_dma ps_buffer_alloc
probe_ps_dma-buffer false ptr handle = inl refl
probe_ps_dma-buffer true ptr handle = elim (Bool-cases (ptr == 0)) [
  | inl e ↦ rw e (inl refl)
  | inr e ↦ rw e (inr (refl, λ z. ground (arith, z, e)))
]

started_arm-IsArmReady :
    (k : ArmKernel) (res : ArmResources) (pl_reg : RegKernel) (ps_chan : Bool) (ptr handle : ℕ)
    (ps_reg : RegKernel)
    → IsArmReady (started_arm k res pl_reg ps_chan ptr handle ps_reg)
unfolding started_arm
started_arm-IsArmReady k res pl_reg ps_chan ptr handle ps_reg = record {
  engine = register_if-none _ register_pl_drv pl_reg (probe_pl_dma_arm-maps k res);
  buffer = register_if-none _ register_ps_drv ps_reg (probe_ps_dma-buffer ps_chan ptr handle);
}

-- Where the start on ARM returns, the device of the PL-DMA is open to programs only if its four
-- register files are mapped, and that of the PS DMA only if it has its channel and its buffer.
pub pim_drv_init_arm-IsArmReady :
    (k : ArmKernel) (res : ArmResources) (pl_reg : RegKernel) (ps_chan : Bool) (ptr handle : ℕ)
    (ps_reg : RegKernel) (t : ArmLoaded)
    → pim_drv_init_arm k res pl_reg ps_chan ptr handle ps_reg ≡ some t
    → IsArmReady t
unfolding pim_drv_init_arm
pim_drv_init_arm-IsArmReady k res pl_reg ps_chan ptr handle ps_reg t h =
    let u = started_arm k res pl_reg ps_chan ptr handle ps_reg in
    let ready = started_arm-IsArmReady k res pl_reg ps_chan ptr handle ps_reg in
    elim (Bool-cases (pl_returns u.pl.code && reg_returns u.pl_drv && reg_returns u.ps_drv)) [
      | inr e ↦ let stop : none ≡ some t = rw e at h in cc
      | inl e ↦
          let same : some u ≡ some t = rw e at h in let g : u ≡ t = cc in subst IsArmReady g ready
    ]
