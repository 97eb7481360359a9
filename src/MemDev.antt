-- ===== src/MemDev.antt =====
-- The device `pim_mem` of src/drv_src/pim_mem_probe.c, through which src/mem_src/drv_interface.c
-- maps the PIM memory: its probes, its file operations, and its removal. `fops_open` and
-- `fops_release` change nothing. The kernel's answers are parameters.
pub mod Registers
pub mod Laws
use lut_pim_driver.Prelude.{
  ℕ, ◌+◌, ◌-◌, ◌/◌, List, [], ◌∷◌, Option, none, some, Bool, true, false, ◌==◌, if◌then◌else◌, u64,
  sub_u64,
}

abbrev pub reserved : ℕ
reserved = 0x1000000

abbrev pub page_size : ℕ
page_size = 4096

abbrev pub pim_mem_info : ℕ
pim_mem_info = 0

-- The calls of the kernel that have an effect.
pub data MemCall : Type 0 where
  dma_mask : (bits : ℕ) → MemCall
  consistent_mask : (bits : ℕ) → MemCall
  ordering_cleared : MemCall
  remapped : (start len va : ℕ) → MemCall
  set_uc : (va npages : ℕ) → MemCall
  device_destroyed : MemCall
  class_destroyed : MemCall
  cdev_deleted : MemCall
  chrdev_unregistered : MemCall
  region_unregistered : MemCall
  unmapped : (va : ℕ) → MemCall

-- `mem_start`, `mem_len`, `pim_mem_reg` (NULL is 0), and the calls, the latest one first.
pub record MemState : Type 0 where
  pub mem_start : ℕ
  pub mem_len : ℕ
  pub pim_mem_reg : ℕ
  pub calls : List MemCall

-- On x86: the search for the device, its activation, resource 0, the 64-bit masks, the state of
-- relaxed ordering, and `ioremap_nocache`.
pub record MemKernel : Type 0 where
  pub finds : Bool
  pub enables : Bool
  pub bar_start : ℕ
  pub bar_len : ℕ
  pub wide_mask : Bool
  pub wide_consistent : Bool
  pub relaxed : Bool
  pub ioremap : (start len : ℕ) → ℕ

-- Where the 64-bit mask is refused, the one of 32 bits is set.
abbrev pub set_mask : (wide : Bool) → (ℕ → MemCall) → List MemCall → List MemCall
set_mask true call cs = call 64 ∷ cs
set_mask false call cs = call 32 ∷ call 64 ∷ cs

abbrev pub clear_ordering : (relaxed : Bool) → List MemCall → List MemCall
clear_ordering true cs = ordering_cleared ∷ cs
clear_ordering false cs = cs

-- Resource 0 without its first `RESERVED` bytes is mapped, and the two static variables keep it; the
-- result tells whether the probe succeeds.
unfoldable pub map_memory : MemKernel → MemState → Bool × MemState
map_memory k s =
    let start = u64 (k.bar_start + reserved) in
    let len = sub_u64 k.bar_len reserved in
    let va = k.ioremap start len in
    let cs = remapped start len va ∷ s.calls in
    let t : MemState = record { mem_start = start; mem_len = len; pim_mem_reg = va; calls = cs } in
    if va == 0 then (false, t) else (true, record t { calls = set_uc va (len / page_size) ∷ cs })

unfoldable pub probe_pim_mem_x86 : MemKernel → MemState → Bool × MemState
unfolding map_memory
probe_pim_mem_x86 k s =
    if k.finds
    then (if k.enables
        then map_memory k (record s {
          calls =
              clear_ordering k.relaxed (
                set_mask k.wide_consistent consistent_mask (set_mask k.wide_mask dma_mask s.calls));
        })
        else (false, s))
    else (false, s)

-- On ARM: whether the device tree has the node and its address, the region, and the mapping.
unfoldable pub probe_pim_mem_arm :
    (node resource : Bool) (start len : ℕ) (ioremap : ℕ → ℕ → ℕ) → MemState → Bool × MemState
probe_pim_mem_arm node resource start len ioremap s =
    if node
    then (if resource
        then (let va = ioremap start len in
            let t : MemState = record {
              mem_start = start;
              mem_len = len;
              pim_mem_reg = va;
              calls = remapped start len va ∷ s.calls;
            } in
            if va == 0 then (false, t) else (true, t))
        else (false, s))
    else (false, s)

-- What `fops_ioctl` answers: -EFAULT, the filled-in `pim_mem_info`, or a success that writes
-- nothing.
pub data MemAnswer : Type 0 where
  efault : MemAnswer
  info : (addr size : ℕ) → MemAnswer
  ignored : MemAnswer

-- `copies_in` and `copies_out` tell whether the copies from and to the caller succeed.
unfoldable pub fops_ioctl : (copies_in copies_out : Bool) (cmd : ℕ) → MemState → MemAnswer
fops_ioctl copies_in copies_out cmd s =
    if copies_in
    then (if cmd == pim_mem_info
        then (if copies_out then info s.mem_start s.mem_len else efault)
        else ignored)
    else efault

pub record Vma : Type 0 where
  pub vm_start : ℕ
  pub vm_end : ℕ
  pub vm_pgoff : ℕ

-- `fops_mmap`: the frames that the caller asks for, whatever `mem_start` and `mem_len` are. `none`
-- is -EAGAIN, else the region's address, its first frame and its length.
unfoldable pub fops_mmap : (remaps : Bool) → Vma → Option (ℕ × ℕ × ℕ)
fops_mmap remaps vma =
    if remaps then some (vma.vm_start, vma.vm_pgoff, vma.vm_end - vma.vm_start) else none

-- `pim_class` tells whether the class exists; the pointers are not reset.
unfoldable pub remove_pim_mem : (pim_class : Bool) → MemState → MemState
remove_pim_mem pim_class s =
    let cs : List MemCall =
      if pim_class
      then region_unregistered ∷ chrdev_unregistered ∷ cdev_deleted ∷ class_destroyed
        ∷ device_destroyed ∷ s.calls
      else s.calls in
    record s { calls = if s.pim_mem_reg == 0 then cs else unmapped s.pim_mem_reg ∷ cs }
