-- ===== src/Startup/Ready.antt =====
-- The devices that the start of src/drv_src/pim_drv_main.c on x86 opens to programs.
use lut_pim_driver.Prelude.{
  ℕ, ◌≡◌, ◌≢◌, ◌⊎◌, inl, inr, refl, ap, subst, List, [], Option, none, some, Bool, true, false,
  arith, Bool-cases, Option-cases,
}
use lut_pim_driver.HostDma.{HostDma}
use lut_pim_driver.HostDma.Buffers.Session.{IsFresh}
use lut_pim_driver.HostDma.Probe.{probe_host_dma, no_buffers, no_buffers-IsFresh}
use lut_pim_driver.MemDev.{
  set_mask, clear_ordering, dma_mask, consistent_mask, MemState, MemKernel, map_memory,
  probe_pim_mem_x86,
}
use lut_pim_driver.Probe.Maps.{
  CdmaMaps, ProbeCall, ProbeCode, success, edma_probe, eiomap_fault, enable_error, null_pointer,
  remove_maps_x86, unmaps,
}
use lut_pim_driver.Probe.MapsLaws.{live}
use lut_pim_driver.Probe.PlX86.{PciKernel, PciBars, probe_pl_dma_x86}
use lut_pim_driver.Probe.RemovalX86.{remove_x86_lem, remove_maps-probe_x86}
use lut_pim_driver.Probe.Register.{Pointer, register_pim_mem, register_pl_drv, register_host_drv}
use lut_pim_driver.Probe.Unregister.{calls_of, cdev_in}
use lut_pim_driver.Startup.{
  RegKernel, Registered, register_if, pl_succeeds, host_succeeds, all_return, X86Kernel, Loaded,
  started, pim_drv_init_x86,
}

-- How many character devices are there for programs to open.
abbrev pub cdevs : Registered → ℕ
cdevs r = calls_of cdev_in r.1

-- `cdma_dev` has its five mappings.
abbrev pub IsMapped : Option CdmaMaps → Type 0
IsMapped dev = (c : CdmaMaps) × (dev ≡ some c) × (live c ≡ 5)

abbrev pub HasNoBuffer : Option HostDma → Type 0
HasNoBuffer dev = (h : HostDma) × (dev ≡ some h) × IsFresh (record { host_dma = h; calls = [] })

-- No device is open to programs before what it works on is set up.
pub record IsReady (t : Loaded) : Type 0 where
  pub memory : (cdevs t.mem_drv ≡ 0) ⊎ (t.mem.pim_mem_reg ≢ 0)
  pub engine : (cdevs t.pl_drv ≡ 0) ⊎ IsMapped t.pl.cdma_dev
  pub buffers : (cdevs t.host_drv ≡ 0) ⊎ HasNoBuffer t.host.host_dma

map_memory-mapped :
    (k : MemKernel) (m : MemState)
    → ((map_memory k m).0 ≡ false) ⊎ ((map_memory k m).1.pim_mem_reg ≢ 0)
unfolding map_memory
map_memory-mapped k m = ground arith

probe_pim_mem-mapped :
    (k : MemKernel) (m : MemState)
    → ((probe_pim_mem_x86 k m).0 ≡ false) ⊎ ((probe_pim_mem_x86 k m).1.pim_mem_reg ≢ 0)
unfolding probe_pim_mem_x86
probe_pim_mem-mapped k m = elim (Bool-cases k.finds) [
  | inr e ↦ rw e (inl refl)
  | inl e ↦ rw e (elim (Bool-cases k.enables) [
    | inr f ↦ rw f (inl refl)
    | inl f ↦ rw f (
        map_memory-mapped k (record m {
          calls =
              clear_ordering k.relaxed (
                set_mask k.wide_consistent consistent_mask (set_mask k.wide_mask dma_mask m.calls));
        }))
  ])
]

remove_maps-none : (cs : List ProbeCall) → remove_maps_x86 true none cs ≡ none
unfolding remove_maps_x86
remove_maps-none cs = refl

probe_pl_dma-IsMapped :
    (k : PciKernel) (bars : PciBars)
    → (probe_pl_dma_x86 k bars).code ≡ success
    → IsMapped (probe_pl_dma_x86 k bars).cdma_dev
probe_pl_dma-IsMapped k bars ok =
    let p = probe_pl_dma_x86 k bars in
    elim (remove_maps-probe_x86 k bars true) [
      | inr (inl (e, u, x)) ↦ cc
      | inr (inr (n, m, x)) ↦ absurd (n ok)
      | inl (e, m, u, (out, r, mo, uo)) ↦ elim (Option-cases p.cdma_dev) [
        | inl g ↦
            let r3 : remove_maps_x86 true none p.calls ≡ some out =
              subst (λ d. remove_maps_x86 true d p.calls ≡ some out) g r in
            let stop = remove_maps-none p.calls in cc
        | inr (c, g) ↦
            let (out2, r2, m2, u2) = remove_x86_lem true c p.calls in
            let r3 : remove_maps_x86 true (some c) p.calls ≡ some out =
              subst (λ d. remove_maps_x86 true d p.calls ≡ some out) g r in
            let same : out ≡ out2 = cc in (c, g, omega (arith, u2, u, uo, ap unmaps same))
      ]
    ]

pub succeeds-cases : (c : ProbeCode) → (pl_succeeds c ≡ false) ⊎ (c ≡ success)
succeeds-cases success = inr refl
succeeds-cases edma_probe = inl refl
succeeds-cases eiomap_fault = inl refl
succeeds-cases (enable_error err) = inl refl
succeeds-cases null_pointer = inl refl

probe_host-HasNoBuffer :
    (kzalloc got : Bool)
    → (host_succeeds (probe_host_dma kzalloc got).code ≡ false)
      ⊎ HasNoBuffer (probe_host_dma kzalloc got).host_dma
unfolding probe_host_dma
probe_host-HasNoBuffer false got = inl refl
probe_host-HasNoBuffer true false = inl refl
probe_host-HasNoBuffer true true = inr (no_buffers, refl, no_buffers-IsFresh)

-- Behind a probe with an error there is no device.
pub register_if-none :
    (probed : Bool) (drv : (region : Bool) (class device : Pointer) (cdev : Bool) → Registered)
    (r : RegKernel) {P : Type 0}
    → (probed ≡ false) ⊎ P
    → (cdevs (register_if probed drv r) ≡ 0) ⊎ P
register_if-none probed drv r (inl e) = inl (rw e refl)
register_if-none probed drv r (inr p) = inr p

started-IsReady : (k : X86Kernel) (s : MemState) → IsReady (started k s)
unfolding started
started-IsReady k s = record {
  memory = register_if-none _ register_pim_mem k.mem_reg (probe_pim_mem-mapped k.mem s);
  engine =
      register_if-none _ register_pl_drv k.pl_reg
        (elim (succeeds-cases (probe_pl_dma_x86 k.pci k.bars).code) [
          | inl e ↦ inl e
          | inr e ↦ inr (probe_pl_dma-IsMapped k.pci k.bars e)
        ]);
  buffers =
      register_if-none _ register_host_drv k.host_reg
        (probe_host-HasNoBuffer k.host_kzalloc k.host_chan);
}

-- Where the start returns, it leaves the state of its probes and registrations.
pub pim_drv_init_x86_lem :
    (k : X86Kernel) (s : MemState) (t : Loaded) → pim_drv_init_x86 k s ≡ some t → started k s ≡ t
unfolding pim_drv_init_x86
pim_drv_init_x86_lem k s t h =
    let u = started k s in
    elim (Bool-cases (all_return u)) [
      | inr e ↦ let stop : none ≡ some t = rw e at h in cc
      | inl e ↦ let same : some u ≡ some t = rw e at h in cc
    ]

-- Whatever the kernel answers to the probes and to the registrations, and although `pim_drv_init_x86`
-- goes on behind each error: where it returns, the device of the PIM memory is open to programs only
-- if the memory is mapped, that of the PL-DMA only if all five register files are mapped, and that of
-- the host DMA only if its state is allocated and holds no buffer.
pub pim_drv_init_x86-IsReady :
    (k : X86Kernel) (s : MemState) (t : Loaded) → pim_drv_init_x86 k s ≡ some t → IsReady t
pim_drv_init_x86-IsReady k s t h =
    subst IsReady (pim_drv_init_x86_lem k s t h) (started-IsReady k s)
