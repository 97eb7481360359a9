-- ===== src/Probe/Pci.antt =====
-- `pciem_find_device_recur` of src/drv_src/dma_probe.c (and of src/drv_src/pim_mem_probe.c): the
-- search of the PCI buses for a device of the vendor 0x10ee.
use lut_pim_driver.Prelude.{
  ℕ, ◌≡◌, refl, ap, ap₂, sym, ◌∙◌, List, [], ◌∷◌, ◌++◌, Option, none, some, ◌==◌, if◌then◌else◌,
  Bool-cases, inl, inr,
}

pub record PciDev : Type 0 where
  pub vendor : ℕ
  pub slot : ℕ

-- A bus: its devices and its child buses.
mutual
  pub data PciBus : Type 0 where
    bus : List PciDev → PciBuses → PciBus

  pub data PciBuses : Type 0 where
    no_bus : PciBuses
    and_bus : PciBus → PciBuses → PciBuses

abbrev pub or_else {ℓ} : {A : Type ℓ} → Option A → Option A → Option A
or_else none o = o
or_else (some a) o = some a

-- The loop over the devices of a bus.
unfoldable pub find_vendor : List PciDev → Option PciDev
find_vendor [] = none
find_vendor (dev ∷ devs) = if dev.vendor == 0x10ee then some dev else find_vendor devs

-- The devices of the bus first, then its child buses in order.
unfoldable mutual
  unfolding find_vendor

  pub pciem_find_device_recur : PciBus → Option PciDev
  pciem_find_device_recur (bus devs children) = or_else (find_vendor devs) (find_children children)

  pub find_children : PciBuses → Option PciDev
  find_children no_bus = none
  find_children (and_bus b bs) = or_else (pciem_find_device_recur b) (find_children bs)

-- All devices below a bus, those of a bus before those of its children.
unfoldable mutual
  pub devices : PciBus → List PciDev
  devices (bus devs children) = devs ++ devices_of children

  pub devices_of : PciBuses → List PciDev
  devices_of no_bus = []
  devices_of (and_bus b bs) = devices b ++ devices_of bs

find_vendor-append :
    (xs ys : List PciDev) → find_vendor (xs ++ ys) ≡ or_else (find_vendor xs) (find_vendor ys)
unfolding find_vendor
find_vendor-append [] ys = refl
find_vendor-append (x ∷ xs) ys = elim (Bool-cases (x.vendor == 0x10ee)) [
  | inl e ↦ rw e refl
  | inr e ↦ rw e (find_vendor-append xs ys)
]

mutual
  unfolding pciem_find_device_recur devices find_vendor

  recur_lem : (b : PciBus) → pciem_find_device_recur b ≡ find_vendor (devices b)
  recur_lem (bus devs children) =
      ap (or_else (find_vendor devs)) (children_lem children)
      ∙ sym (find_vendor-append devs (devices_of children))

  children_lem : (bs : PciBuses) → find_children bs ≡ find_vendor (devices_of bs)
  children_lem no_bus = refl
  children_lem (and_bus b bs) =
      ap₂ or_else (recur_lem b) (children_lem bs)
      ∙ sym (find_vendor-append (devices b) (devices_of bs))

-- The recursive search of a bus finds what one pass over the list of all devices below the bus
-- finds, where the devices of a bus stand before those of its child buses: the first device of the
-- vendor, or none if there is none.
pub pciem_find_device_recur-find_vendor :
    (b : PciBus) → pciem_find_device_recur b ≡ find_vendor (devices b)
pciem_find_device_recur-find_vendor b = recur_lem b
