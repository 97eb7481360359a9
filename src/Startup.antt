-- ===== src/Startup.antt =====
-- The start and the end of the module in src/drv_src/pim_drv_main.c: the probes and the registrations
-- in their order, on x86 and on ARM, and the removals.
pub mod Ready
pub mod GivenBack
pub mod Unload
pub mod Arm
use lut_pim_driver.Prelude.{
  ℕ, List, [], ◌∷◌, Option, none, some, Bool, true, false, ◌&&◌, if◌then◌else◌,
}
use lut_pim_driver.HostDma
use lut_pim_driver.HostDma.{HostCode}
use lut_pim_driver.HostDma.Buffers.{Buffers}
use lut_pim_driver.HostDma.Probe.{HostProbed, probe_host_dma}
use lut_pim_driver.MemDev.{
  MemState, MemKernel, probe_pim_mem_x86, probe_pim_mem_arm, remove_pim_mem,
}
use lut_pim_driver.Probe.Maps.{ProbeCall, ProbeCode, Probed, remove_maps_x86, remove_maps_arm}
use lut_pim_driver.Probe.Maps
use lut_pim_driver.Probe.PlX86.{PciKernel, PciBars, probe_pl_dma_x86}
use lut_pim_driver.Probe.PlArm.{ArmKernel, ArmResources, probe_pl_dma_arm}
use lut_pim_driver.Probe.Register.{
  RegCall, class_created, Pointer, Report, failure, no_return, register_pl_drv, register_ps_drv,
  register_pim_mem, register_host_drv,
}
use lut_pim_driver.Probe.Remove.{remove_buffers}
use lut_pim_driver.Probe.Unregister.{remove_pl_class, remove_host_class, remove_ps_class}
use lut_pim_driver.PsDma.Engine.{EngineCode, PsEngine, probe_ps_dma, remove_ps_dma}
use lut_pim_driver.PsDma.Engine

-- The kernel's answers to one registration.
pub record RegKernel : Type 0 where
  pub region : Bool
  pub class : Pointer
  pub device : Pointer
  pub cdev : Bool

-- What a registration reports, and its calls; nothing is called behind a probe with an
-- error.
abbrev pub Registered : Type 0
Registered = Report × List RegCall

abbrev pub register_if :
    (probed : Bool) (drv : (region : Bool) (class device : Pointer) (cdev : Bool) → Registered)
    → RegKernel
    → Registered
register_if probed drv r = if probed then drv r.region r.class r.device r.cdev else (failure, [])

-- Whether a class was created, which is whether the static pointer to it is set.
abbrev pub holds_class : List RegCall → Bool
holds_class [] = false
holds_class (class_created ∷ cs) = true
holds_class (_ ∷ cs) = holds_class cs

abbrev pub pl_succeeds : ProbeCode → Bool
pl_succeeds Maps.success = true
pl_succeeds _ = false

abbrev pub host_succeeds : HostCode → Bool
host_succeeds HostDma.success = true
host_succeeds _ = false

abbrev pub ps_succeeds : EngineCode → Bool
ps_succeeds Engine.success = true
ps_succeeds _ = false

-- The probes that follow a NULL pointer do not return.
abbrev pub pl_returns : ProbeCode → Bool
pl_returns Maps.null_pointer = false
pl_returns _ = true

abbrev pub host_returns : HostCode → Bool
host_returns HostDma.bad_access = false
host_returns _ = true

pub record X86Kernel : Type 0 where
  pub mem : MemKernel
  pub mem_reg : RegKernel
  pub pci : PciKernel
  pub bars : PciBars
  pub pl_reg : RegKernel
  pub host_kzalloc : Bool
  pub host_chan : Bool
  pub host_reg : RegKernel

-- The state of the module behind its start.
pub record Loaded : Type 0 where
  pub mem : MemState
  pub mem_drv : Registered
  pub pl : Probed
  pub pl_drv : Registered
  pub host : HostProbed
  pub host_drv : Registered

-- The probes and the registrations, each behind its own probe.
unfoldable pub started : X86Kernel → MemState → Loaded
started k s =
    let (mem_ok, mem) = probe_pim_mem_x86 k.mem s in
    let pl = probe_pl_dma_x86 k.pci k.bars in
    let host = probe_host_dma k.host_kzalloc k.host_chan in
    record {
      mem = mem;
      mem_drv = register_if mem_ok register_pim_mem k.mem_reg;
      pl = pl;
      pl_drv = register_if (pl_succeeds pl.code) register_pl_drv k.pl_reg;
      host = host;
      host_drv = register_if (host_succeeds host.code) register_host_drv k.host_reg;
    }

abbrev pub reg_returns : Registered → Bool
reg_returns (no_return, cs) = false
reg_returns (_, cs) = true

-- Each probe and each registration returns.
abbrev pub all_return : Loaded → Bool
all_return t =
    pl_returns t.pl.code
    && host_returns t.host.code
    && reg_returns t.mem_drv
    && reg_returns t.pl_drv
    && reg_returns t.host_drv

-- The result is always `SUCCESS`; `none` where a probe follows a NULL pointer, or a registration an
-- error pointer.
unfoldable pub pim_drv_init_x86 : X86Kernel → MemState → Option Loaded
pim_drv_init_x86 k s = let t = started k s in if all_return t then some t else none

-- What is left behind the end.
pub record Unloaded : Type 0 where
  pub mem : MemState
  pub pl : List ProbeCall
  pub pl_drv : List RegCall
  pub host_drv : List RegCall
  pub buffers : Buffers

-- Behind `remove_pim_dma` and `remove_pim_mem`. `buffers` is the state of the host DMA that the open
-- files left.
abbrev pub unload : Loaded → Buffers → (pl : List ProbeCall) → Unloaded
unload t buffers pl = record {
  mem = remove_pim_mem (holds_class t.mem_drv.1) t.mem;
  pl = pl;
  pl_drv = remove_pl_class (holds_class t.pl_drv.1) t.pl_drv.1;
  host_drv = remove_host_class (holds_class t.host_drv.1) t.host_drv.1;
  buffers = remove_buffers buffers;
}

-- `none` where `cdma_dev` is NULL: nothing follows.
abbrev pub unload_with : Loaded → Buffers → Option (List ProbeCall) → Option Unloaded
unload_with t buffers none = none
unload_with t buffers (some pl) = some (unload t buffers pl)

unfoldable pub pim_dma_exit_x86 : Loaded → (buffers : Buffers) → Option Unloaded
pim_dma_exit_x86 t buffers =
    unload_with t buffers (remove_maps_x86 (holds_class t.pl_drv.1) t.pl.cdma_dev t.pl.calls)

-- The state on ARM; the result of `pim_drv_init_arm` is always `SUCCESS` too.
pub record ArmLoaded : Type 0 where
  pub pl : Probed
  pub pl_drv : Registered
  pub ps : EngineCode × PsEngine
  pub ps_drv : Registered

unfoldable pub started_arm :
    ArmKernel
    → ArmResources
    → (pl_reg : RegKernel) (ps_chan : Bool) (ptr handle : ℕ) (ps_reg : RegKernel) → ArmLoaded
started_arm k res pl_reg ps_chan ptr handle ps_reg =
    let pl = probe_pl_dma_arm k res in
    let ps = probe_ps_dma ps_chan ptr handle in
    record {
      pl = pl;
      pl_drv = register_if (pl_succeeds pl.code) register_pl_drv pl_reg;
      ps = ps;
      ps_drv = register_if (ps_succeeds ps.0) register_ps_drv ps_reg;
    }

unfoldable pub pim_drv_init_arm :
    ArmKernel
    → ArmResources
    → (pl_reg : RegKernel) (ps_chan : Bool) (ptr handle : ℕ) (ps_reg : RegKernel) → Option ArmLoaded
pim_drv_init_arm k res pl_reg ps_chan ptr handle ps_reg =
    let t = started_arm k res pl_reg ps_chan ptr handle ps_reg in
    if pl_returns t.pl.code && reg_returns t.pl_drv && reg_returns t.ps_drv then some t else none

pub record ArmUnloaded : Type 0 where
  pub pl : List ProbeCall
  pub pl_drv : List RegCall
  pub ps : PsEngine
  pub ps_drv : List RegCall

abbrev pub unload_arm : ArmLoaded → Option (List ProbeCall) → Option ArmUnloaded
unload_arm t none = none
unload_arm t (some pl) = some (record {
  pl = pl;
  pl_drv = remove_pl_class (holds_class t.pl_drv.1) t.pl_drv.1;
  ps = remove_ps_dma t.ps.1;
  ps_drv = remove_ps_class (holds_class t.ps_drv.1) t.ps_drv.1;
})

-- `pim_drv_exit_arm`: `remove_pim_dma`; `none` where `cdma_dev` is NULL.
unfoldable pub pim_drv_exit_arm : ArmLoaded → Option ArmUnloaded
pim_drv_exit_arm t =
    unload_arm t (remove_maps_arm (holds_class t.pl_drv.1) t.pl.cdma_dev t.pl.calls)

-- `pim_mem_init_arm`: its result is that of the probe, or that of the registration.
unfoldable pub pim_mem_init_arm :
    (node resource : Bool) (start len : ℕ) (ioremap : ℕ → ℕ → ℕ)
    → RegKernel
    → MemState
    → Report × MemState × List RegCall
pim_mem_init_arm node resource start len ioremap r s =
    let (probed, mem) = probe_pim_mem_arm node resource start len ioremap s in
    let (ok, calls) = register_if probed register_pim_mem r in (ok, mem, calls)
