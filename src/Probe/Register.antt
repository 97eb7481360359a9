-- ===== src/Probe/Register.antt =====
-- The registration of the four character devices: `register_pl_drv`, `register_ps_drv` and
-- `register_host_drv` of src/drv_src/dma_probe.c, `register_pim_mem` of
-- src/drv_src/pim_mem_probe.c.
use lut_pim_driver.Prelude.{List, [], ◌∷◌, Bool, if◌then◌else◌}

-- The calls of the kernel that have an effect.
pub data RegCall : Type 0 where
  region_taken : RegCall
  region_given_back : RegCall
  class_created : RegCall
  device_created : RegCall
  cdev_added : RegCall
  device_destroyed : RegCall
  class_destroyed : RegCall
  cdev_deleted : RegCall
  chrdev_unregistered : RegCall

-- What `class_create` and `device_create` return. The kernel documents an error pointer for a failure,
-- and the code tests for NULL.
pub data Pointer : Type 0 where
  null : Pointer
  error_pointer : Pointer
  valid : Pointer

-- The step that ended the registration; `bad_pointer` where it writes through an error pointer.
pub data Stage : Type 0 where
  at_region : Stage
  at_class : Stage
  at_device : Stage
  at_cdev : Stage
  bad_pointer : Stage
  done : Stage

-- `cdev_add`, where the device passed the test.
unfoldable pub register_cdev : (cdev : Bool) → List RegCall → Stage × List RegCall
register_cdev cdev cs = if cdev then (done, cdev_added ∷ cs) else (at_cdev, region_given_back ∷ cs)

unfoldable pub register_device :
    (device : Pointer) (cdev : Bool) → List RegCall → Stage × List RegCall
unfolding register_cdev
register_device null cdev cs = (at_device, region_given_back ∷ cs)
register_device error_pointer cdev cs = register_cdev cdev cs
register_device valid cdev cs = register_cdev cdev (device_created ∷ cs)

-- Behind the test, `dev_uevent` is written to the class.
unfoldable pub register_class :
    (class device : Pointer) (cdev : Bool) → List RegCall → Stage × List RegCall
unfolding register_device
register_class null device cdev cs = (at_class, region_given_back ∷ cs)
register_class error_pointer device cdev cs = (bad_pointer, cs)
register_class valid device cdev cs = register_device device cdev (class_created ∷ cs)

-- The steps in their order, with the kernel's answers; each error but the first one jumps to
-- `out_unalloc_region`.
unfoldable pub register :
    (region : Bool) (class device : Pointer) (cdev : Bool) → Stage × List RegCall
unfolding register_class
register region class device cdev =
    if region then register_class class device cdev (region_taken ∷ []) else (at_region, [])

-- A registration reports a success or an error, or does not return.
pub data Report : Type 0 where
  success : Report
  failure : Report
  no_return : Report

-- Three of them return a constant at each error; `register_host_drv` returns `ret`, which still holds
-- the result of `alloc_chrdev_region` where the class or the device is NULL.
abbrev pub report : Stage → Report
report bad_pointer = no_return
report done = success
report _ = failure

abbrev pub host_report : Stage → Report
host_report at_region = failure
host_report at_class = success
host_report at_device = success
host_report at_cdev = failure
host_report bad_pointer = no_return
host_report done = success

unfoldable pub register_pl_drv :
    (region : Bool) (class device : Pointer) (cdev : Bool) → Report × List RegCall
unfolding register
register_pl_drv region class device cdev =
    let (stage, calls) = register region class device cdev in (report stage, calls)

unfoldable pub register_ps_drv :
    (region : Bool) (class device : Pointer) (cdev : Bool) → Report × List RegCall
unfolding register
register_ps_drv region class device cdev =
    let (stage, calls) = register region class device cdev in (report stage, calls)

unfoldable pub register_pim_mem :
    (region : Bool) (class device : Pointer) (cdev : Bool) → Report × List RegCall
unfolding register
register_pim_mem region class device cdev =
    let (stage, calls) = register region class device cdev in (report stage, calls)

unfoldable pub register_host_drv :
    (region : Bool) (class device : Pointer) (cdev : Bool) → Report × List RegCall
unfolding register
register_host_drv region class device cdev =
    let (stage, calls) = register region class device cdev in (host_report stage, calls)
