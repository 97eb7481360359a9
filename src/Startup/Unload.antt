-- ===== src/Startup/Unload.antt =====
-- A start of src/drv_src/pim_drv_main.c on x86, and then its end.
use lut_pim_driver.Prelude.{◌≡◌, inl, inr, sym, ap, subst, List, some, arith}
use lut_pim_driver.HostDma.Buffers.{Buffers}
use lut_pim_driver.HostDma.Probe.{probe_host_dma}
use lut_pim_driver.MemDev.{probe_pim_mem_x86}
use lut_pim_driver.Probe.Maps.{ProbeCall, success, remove_maps_x86, maps, unmaps}
use lut_pim_driver.Probe.PlX86.{probe_pl_dma_x86}
use lut_pim_driver.Probe.RemovalX86.{remove_maps-probe_x86}
use lut_pim_driver.Startup.GivenBack.{
  granted, before_start, IsGivenBack, IsMemGivenBack, register_pl_drv-IsGivenBack,
  register_host_drv-IsGivenBack, remove_pim_mem_lem, probe_pim_mem-IsProbed,
}
use lut_pim_driver.Startup.Ready.{pim_drv_init_x86_lem}
use lut_pim_driver.Startup.{
  holds_class, pl_succeeds, host_succeeds, X86Kernel, Loaded, started, pim_drv_init_x86, Unloaded,
  unload, unload_with, pim_dma_exit_x86,
}

-- The end of the module gives back what its start took.
pub record IsRestored (t : Loaded) (u : Unloaded) : Type 0 where
  pub maps_kept : maps u.pl ≡ maps t.pl.calls
  pub maps : unmaps u.pl ≡ maps t.pl.calls
  pub pl : IsGivenBack u.pl_drv
  pub host : IsGivenBack u.host_drv
  pub mem : IsMemGivenBack t.mem_drv.1 u.mem.calls

unload-IsRestored :
    (k : X86Kernel) (buffers : Buffers) (cs : List ProbeCall)
    → k.mem_reg ≡ granted
    → k.pl_reg ≡ granted
    → k.host_reg ≡ granted
    → maps cs ≡ maps (started k before_start).pl.calls
    → unmaps cs ≡ maps (started k before_start).pl.calls
    → IsRestored (started k before_start) (unload (started k before_start) buffers cs)
unfolding started
unload-IsRestored k buffers cs e1 e2 e3 m u = record {
  maps_kept = m;
  maps = u;
  pl = rw e2 (register_pl_drv-IsGivenBack (pl_succeeds (probe_pl_dma_x86 k.pci k.bars).code));
  host = rw e3 (
      register_host_drv-IsGivenBack
        (host_succeeds (probe_host_dma k.host_kzalloc k.host_chan).code));
  mem = rw e1 (
      remove_pim_mem_lem (probe_pim_mem_x86 k.mem before_start).0
        (probe_pim_mem_x86 k.mem before_start).1 (probe_pim_mem-IsProbed k.mem));
}

-- The end of the module runs through, and `IsRestored` holds.
abbrev Ends : Loaded → Buffers → Type 0
Ends t buffers = (u : Unloaded) × (pim_dma_exit_x86 t buffers ≡ some u) × IsRestored t u

pim_dma_exit_x86-some :
    (t : Loaded) (buffers : Buffers) (out : List ProbeCall)
    → remove_maps_x86 (holds_class t.pl_drv.1) t.pl.cdma_dev t.pl.calls ≡ some out
    → pim_dma_exit_x86 t buffers ≡ some (unload t buffers out)
unfolding pim_dma_exit_x86
pim_dma_exit_x86-some t buffers out r = ap (unload_with t buffers) r

started-Ends :
    (k : X86Kernel) (buffers : Buffers)
    → k.mem_reg ≡ granted
    → k.pl_reg ≡ granted
    → k.host_reg ≡ granted
    → (started k before_start).pl.code ≡ success
    → Ends (started k before_start) buffers
unfolding started
started-Ends k buffers e1 e2 e3 ok =
    let t = started k before_start in
    elim (remove_maps-probe_x86 k.pci k.bars (holds_class t.pl_drv.1)) [
      | inr (inl (e, u, x)) ↦ cc
      | inr (inr (n, m, x)) ↦ absurd (n ok)
      | inl (e, m, u, (out, r, mo, uo)) ↦ (
        unload t buffers out,
        pim_dma_exit_x86-some t buffers out r,
        unload-IsRestored k buffers out e1 e2 e3 (omega (arith, m, mo)) (omega (arith, m, uo)),
      )
    ]

-- Where the module starts, the probe of the PL-DMA succeeds, and no step of a registration fails:
-- whatever the open files leave of the buffers, the end of the module runs through. It unmaps the
-- register files and the PIM memory as often as they were mapped, and gives each region of device
-- numbers, class, device and character device back as often as it was taken. This holds too where the
-- probes of the PIM memory or of the host DMA fail.
pub pim_dma_exit_x86-init :
    (k : X86Kernel) (t : Loaded) (buffers : Buffers)
    → k.mem_reg ≡ granted
    → k.pl_reg ≡ granted
    → k.host_reg ≡ granted
    → pim_drv_init_x86 k before_start ≡ some t
    → t.pl.code ≡ success
    → (u : Unloaded) × (pim_dma_exit_x86 t buffers ≡ some u) × IsRestored t u
pim_dma_exit_x86-init k t buffers e1 e2 e3 h ok =
    let same = pim_drv_init_x86_lem k before_start t h in
    subst (λ x. Ends x buffers) same
      (started-Ends k buffers e1 e2 e3 (subst (λ x. x.pl.code ≡ success) (sym same) ok))
