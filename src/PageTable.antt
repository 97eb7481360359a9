-- ===== src/PageTable.antt =====
-- `va_to_pa` of src/drv_src/pim_drv_main.c: the walk through a process's page table. The table is
-- the kernel's and a parameter.
pub mod Laws
use lut_pim_driver.Prelude.{
  ℕ, ◌+◌, ◌-◌, ◌^◌, Bool, true, false, Option, none, some, if◌then◌else◌, bit_or, bit_and, u64,
}

-- `find_vma` gives the `vm_flags` of a region, `none` for NULL. The functions named `_offset` give
-- the address of an entry, the tests read it; the entry of the third level is read twice.
pub record PageTable : Type 0 where
  pub find_vma : (vaddr : ℕ) → Option ℕ
  pub pgd_offset : (vaddr : ℕ) → ℕ
  pub pgd_none : ℕ → Bool
  pub pud_offset : (pgd vaddr : ℕ) → ℕ
  pub pud_none : ℕ → Bool
  pub pmd_offset : (pud vaddr : ℕ) → ℕ
  pub pmd_none : ℕ → Bool
  pub pmd_none_again : ℕ → Bool
  pub pte_offset_kernel : (pmd vaddr : ℕ) → ℕ
  pub pte_none : ℕ → Bool
  pub pte_val : ℕ → ℕ

-- ~(PAGE_SIZE - 1), and its complement.
abbrev pub page_mask : ℕ
page_mask = 2 ^ 64 - 2 ^ 12

abbrev pub page_offset_mask : ℕ
page_offset_mask = 2 ^ 12 - 1

-- return -1
abbrev pub not_mapped : ℕ
not_mapped = 2 ^ 64 - 1

-- page_addr | page_offset
unfoldable pub page_pa : (pte vaddr : ℕ) → ℕ
page_pa pte vaddr = bit_or (bit_and pte page_mask) (bit_and vaddr page_offset_mask)

-- The message of an empty entry in the last level reads `vma_t->vm_flags`.
unfoldable pub pte_missing : Option ℕ → Option ℕ
pte_missing none = none
pte_missing (some vm_flags) = some not_mapped

-- The result is `none` where the code follows a NULL pointer.
module _ (t : PageTable) (vaddr : ℕ) where
  unfoldable pub walk_pte : (pmd : ℕ) → Option ℕ
  unfolding pte_missing page_pa
  walk_pte pmd =
      let pte = t.pte_offset_kernel pmd vaddr in
      if t.pte_none pte
      then pte_missing (t.find_vma vaddr)
      else some (page_pa (t.pte_val pte) vaddr)

  unfoldable pub walk_pmd : (pud : ℕ) → Option ℕ
  unfolding walk_pte
  walk_pmd pud =
      let pmd = t.pmd_offset pud vaddr in
      if t.pmd_none pmd
      then (if t.pmd_none_again pmd then some not_mapped else walk_pte pmd)
      else walk_pte pmd

  unfoldable pub va_to_pa : Option ℕ
  unfolding walk_pmd
  va_to_pa =
      let pgd = t.pgd_offset vaddr in
      let pud = t.pud_offset pgd vaddr in
      if t.pgd_none pgd
      then some not_mapped
      else if t.pud_none pud
      then some not_mapped
      else walk_pmd pud
