-- ===== src/PimMem/Driver.antt =====
-- src/mem_src/drv_interface.c as it is built with `__FPGA__`: the window of PIM memory that the
-- driver maps, handed out from its start. A failed `assert` ends the program.
use lut_pim_driver.Prelude.{
  ℕ, ◌+◌, ◌-◌, ◌^◌, Bool, true, false, ◌||◌, ◌==◌, ltb, if◌then◌else◌, u64,
}

pub data Result {ℓ} (A : Type ℓ) : Type ℓ where
  ok : A → Result A
  abort : Result A

infixl 5 ◌>>=◌
abbrev pub ◌>>=◌ {ℓ κ} : {A : Type ℓ} {B : Type κ} → Result A → (A → Result B) → Result B
ok a >>= f = f a
abort >>= f = abort

-- The static variables.
pub record Driver : Type 0 where
  pub pim_mem : ℕ
  pub pim_mem_size : ℕ
  pub pim_mem_fd : Bool
  pub total_size : ℕ

-- What the device gives: whether it opens, the answer to `PIM_MEM_INFO`, the result of `mmap`,
-- and what `malloc` leaves in the memory of the pages.
pub record Device : Type 0 where
  pub opens : Bool
  pub info_addr : ℕ
  pub info_size : ℕ
  pub mapped : ℕ
  pub uninit : ℕ → ℕ

-- An `int` of the bit pattern `w`, converted to `uint64_t`.
abbrev pub int_to_u64 : ℕ → ℕ
int_to_u64 w = if ltb w (2 ^ 31) then w else w + (2 ^ 64 - 2 ^ 32)

-- `mmap_drv(size)`, `size` the bit pattern of an `int`.
unfoldable pub mmap_drv : Driver → ℕ → Result (ℕ × Driver)
mmap_drv drv size =
    let total = u64 (drv.total_size + int_to_u64 size) in
    if ltb drv.pim_mem_size total
    then abort
    else ok (drv.pim_mem + drv.total_size, record drv { total_size = total })

-- `__init_pim_drv`.
unfoldable pub init_pim_drv : Device → Driver → Result Driver
init_pim_drv dev drv =
    if dev.opens
    then (if (dev.info_addr == 0) || (dev.info_size == 0)
        then abort
        else ok
            (record drv { pim_mem_fd = true; pim_mem_size = dev.info_size; pim_mem = dev.mapped }))
    else abort

-- `__release_pim_drv`; neither `pim_mem_size` nor `total_size` is reset.
unfoldable pub release_pim_drv : Driver → Driver
release_pim_drv drv = record drv { pim_mem_fd = false; pim_mem = 0 }
