-- ===== src/Probe/Unregister.antt =====
-- The parts of `remove_pim_dma` of src/drv_src/dma_probe.c that take the character devices back.
use lut_pim_driver.Prelude.{ℕ, ◌+◌, List, [], ◌∷◌, Bool, true, false, if◌then◌else◌}
use lut_pim_driver.Probe.Register.{
  RegCall, region_taken, region_given_back, class_created, device_created, cdev_added,
  device_destroyed, class_destroyed, cdev_deleted, chrdev_unregistered,
}

-- `class` tells whether the static pointer to the class is set.
unfoldable pub remove_pl_class : (class : Bool) → List RegCall → List RegCall
remove_pl_class class cs =
    if class
    then region_given_back ∷ chrdev_unregistered ∷ cdev_deleted ∷ class_destroyed ∷ device_destroyed
      ∷ cs
    else cs

unfoldable pub remove_host_class : (class : Bool) → List RegCall → List RegCall
remove_host_class class cs =
    if class then region_given_back ∷ cdev_deleted ∷ class_destroyed ∷ device_destroyed ∷ cs else cs

unfoldable pub remove_ps_class : (class : Bool) → List RegCall → List RegCall
remove_ps_class class cs =
    if class then region_given_back ∷ cdev_deleted ∷ class_destroyed ∷ device_destroyed ∷ cs else cs

-- How many calls of a kind there are.
abbrev pub calls_of {ℓ} : {A : Type ℓ} → (A → Bool) → List A → ℕ
calls_of test [] = 0
calls_of test (c ∷ cs) = if test c then calls_of test cs + 1 else calls_of test cs

abbrev pub region_in : RegCall → Bool
region_in region_taken = true
region_in _ = false

abbrev pub region_out : RegCall → Bool
region_out region_given_back = true
region_out _ = false

abbrev pub class_in : RegCall → Bool
class_in class_created = true
class_in _ = false

abbrev pub class_out : RegCall → Bool
class_out class_destroyed = true
class_out _ = false

abbrev pub device_in : RegCall → Bool
device_in device_created = true
device_in _ = false

abbrev pub device_out : RegCall → Bool
device_out device_destroyed = true
device_out _ = false

abbrev pub cdev_in : RegCall → Bool
cdev_in cdev_added = true
cdev_in _ = false

abbrev pub cdev_out : RegCall → Bool
cdev_out cdev_deleted = true
cdev_out _ = false
