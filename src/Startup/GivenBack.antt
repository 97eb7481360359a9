-- ===== src/Startup/GivenBack.antt =====
-- What the end of the module gives back of each device (src/drv_src/dma_probe.c and
-- src/drv_src/pim_mem_probe.c) behind a registration.
use lut_pim_driver.Prelude.{
  ◌≡◌, inl, inr, refl, List, [], Bool, true, false, ◌==◌, if◌then◌else◌, arith, Bool-cases,
}
use lut_pim_driver.MemDev
use lut_pim_driver.MemDev.{
  MemCall, remapped, unmapped, region_unregistered, set_mask, clear_ordering, dma_mask,
  consistent_mask, MemState, MemKernel, map_memory, probe_pim_mem_x86, remove_pim_mem,
}
use lut_pim_driver.Probe.Register.{
  RegCall, valid, register_pim_mem, register_pl_drv, register_host_drv,
}
use lut_pim_driver.Probe.Unregister.{
  remove_pl_class, remove_host_class, calls_of, region_in, region_out, class_in, class_out,
  device_in, device_out, cdev_in, cdev_out,
}
use lut_pim_driver.Startup.{RegKernel, register_if, holds_class}

-- Each step of a registration succeeds.
abbrev pub granted : RegKernel
granted = record { region = true; class = valid; device = valid; cdev = true }

-- The static variables of src/drv_src/pim_mem_probe.c before the start.
abbrev pub before_start : MemState
before_start = record { mem_start = 0; mem_len = 0; pim_mem_reg = 0; calls = [] }

abbrev pub memory_in : MemCall → Bool
memory_in (remapped start len va) = if va == 0 then false else true
memory_in _ = false

abbrev pub memory_out : MemCall → Bool
memory_out (unmapped va) = true
memory_out _ = false

abbrev pub mem_region_out : MemCall → Bool
mem_region_out region_unregistered = true
mem_region_out _ = false

abbrev pub mem_class_out : MemCall → Bool
mem_class_out MemDev.class_destroyed = true
mem_class_out _ = false

abbrev pub mem_device_out : MemCall → Bool
mem_device_out MemDev.device_destroyed = true
mem_device_out _ = false

abbrev pub mem_cdev_out : MemCall → Bool
mem_cdev_out MemDev.cdev_deleted = true
mem_cdev_out _ = false

-- The region, the class, the device and the character device are given back as often as taken.
pub record IsGivenBack (cs : List RegCall) : Type 0 where
  pub region : calls_of region_out cs ≡ calls_of region_in cs
  pub class : calls_of class_out cs ≡ calls_of class_in cs
  pub device : calls_of device_out cs ≡ calls_of device_in cs
  pub cdev : calls_of cdev_out cs ≡ calls_of cdev_in cs

-- The same of the device of the PIM memory, and of its mapping.
pub record IsMemGivenBack (reg : List RegCall) (cs : List MemCall) : Type 0 where
  pub memory : calls_of memory_out cs ≡ calls_of memory_in cs
  pub region : calls_of mem_region_out cs ≡ calls_of region_in reg
  pub class : calls_of mem_class_out cs ≡ calls_of class_in reg
  pub device : calls_of mem_device_out cs ≡ calls_of device_in reg
  pub cdev : calls_of mem_cdev_out cs ≡ calls_of cdev_in reg

pub register_pl_drv-IsGivenBack :
    (probed : Bool)
    → let r = register_if probed register_pl_drv granted in
      IsGivenBack (remove_pl_class (holds_class r.1) r.1)
unfolding register_pl_drv remove_pl_class
register_pl_drv-IsGivenBack false = record {
  region = refl;
  class = refl;
  device = refl;
  cdev = refl;
}
register_pl_drv-IsGivenBack true = record {
  region = refl;
  class = refl;
  device = refl;
  cdev = refl;
}

pub register_host_drv-IsGivenBack :
    (probed : Bool)
    → let r = register_if probed register_host_drv granted in
      IsGivenBack (remove_host_class (holds_class r.1) r.1)
unfolding register_host_drv remove_host_class
register_host_drv-IsGivenBack false = record {
  region = refl;
  class = refl;
  device = refl;
  cdev = refl;
}
register_host_drv-IsGivenBack true = record {
  region = refl;
  class = refl;
  device = refl;
  cdev = refl;
}

-- Calls that neither map the memory nor take anything back.
abbrev IsQuiet : List MemCall → Type 0
IsQuiet cs =
    (calls_of memory_in cs ≡ 0)
    × (calls_of memory_out cs ≡ 0)
    × (calls_of mem_region_out cs ≡ 0)
    × (calls_of mem_class_out cs ≡ 0)
    × (calls_of mem_device_out cs ≡ 0)
    × (calls_of mem_cdev_out cs ≡ 0)

set_dma_mask-IsQuiet :
    (wide : Bool) (cs : List MemCall) → IsQuiet cs → IsQuiet (set_mask wide dma_mask cs)
set_dma_mask-IsQuiet true cs q = q
set_dma_mask-IsQuiet false cs q = q

set_consistent_mask-IsQuiet :
    (wide : Bool) (cs : List MemCall) → IsQuiet cs → IsQuiet (set_mask wide consistent_mask cs)
set_consistent_mask-IsQuiet true cs q = q
set_consistent_mask-IsQuiet false cs q = q

clear_ordering-IsQuiet :
    (relaxed : Bool) (cs : List MemCall) → IsQuiet cs → IsQuiet (clear_ordering relaxed cs)
clear_ordering-IsQuiet true cs q = q
clear_ordering-IsQuiet false cs q = q

-- What the probe of the PIM memory leaves: at most its mapping, with its pointer.
pub record IsProbed (m : MemState) : Type 0 where
  memory : calls_of memory_in m.calls ≡ (if m.pim_mem_reg == 0 then 0 else 1)
  no_memory : calls_of memory_out m.calls ≡ 0
  no_region : calls_of mem_region_out m.calls ≡ 0
  no_class : calls_of mem_class_out m.calls ≡ 0
  no_device : calls_of mem_device_out m.calls ≡ 0
  no_cdev : calls_of mem_cdev_out m.calls ≡ 0

pub remove_pim_mem_lem :
    (probed : Bool) (m : MemState)
    → IsProbed m
    → let r = register_if probed register_pim_mem granted in
      IsMemGivenBack r.1 (remove_pim_mem (holds_class r.1) m).calls
unfolding register_pim_mem remove_pim_mem
remove_pim_mem_lem false m p = record {
  memory = ground (arith, p.memory, p.no_memory);
  region = ground (arith, p.no_region);
  class = ground (arith, p.no_class);
  device = ground (arith, p.no_device);
  cdev = ground (arith, p.no_cdev);
}
remove_pim_mem_lem true m p = record {
  memory = ground (arith, p.memory, p.no_memory);
  region = ground (arith, p.no_region);
  class = ground (arith, p.no_class);
  device = ground (arith, p.no_device);
  cdev = ground (arith, p.no_cdev);
}

map_memory-IsProbed : (k : MemKernel) (m : MemState) → IsQuiet m.calls → IsProbed (map_memory k m).1
unfolding map_memory
map_memory-IsProbed k m (no_map, no_memory, no_region, no_class, no_device, no_cdev) = record {
  memory = ground (arith, no_map);
  no_memory = ground (arith, no_memory);
  no_region = ground (arith, no_region);
  no_class = ground (arith, no_class);
  no_device = ground (arith, no_device);
  no_cdev = ground (arith, no_cdev);
}

before_start-IsProbed : IsProbed before_start
before_start-IsProbed = record {
  memory = refl;
  no_memory = refl;
  no_region = refl;
  no_class = refl;
  no_device = refl;
  no_cdev = refl;
}

pub probe_pim_mem-IsProbed : (k : MemKernel) → IsProbed (probe_pim_mem_x86 k before_start).1
unfolding probe_pim_mem_x86
probe_pim_mem-IsProbed k = elim (Bool-cases k.finds) [
  | inr e ↦ rw e before_start-IsProbed
  | inl e ↦ rw e (elim (Bool-cases k.enables) [
    | inr f ↦ rw f before_start-IsProbed
    | inl f ↦ rw f (
        let cs1 = set_mask k.wide_mask dma_mask [] in
        let cs2 = set_mask k.wide_consistent consistent_mask cs1 in
        let q1 = set_dma_mask-IsQuiet k.wide_mask [] (refl, refl, refl, refl, refl, refl) in
        let q2 = set_consistent_mask-IsQuiet k.wide_consistent cs1 q1 in
        map_memory-IsProbed k (record before_start { calls = clear_ordering k.relaxed cs2 })
          (clear_ordering-IsQuiet k.relaxed cs2 q2))
  ])
]
