-- ===== src/PageTable/Laws.antt =====
-- The address that `va_to_pa` of src/drv_src/pim_drv_main.c gives.
use lut_pim_driver.Prelude.{
  ℕ, ◌+◌, ◌*◌, ◌/◌, ◌%◌, ◌^◌, ◌<◌, ◌≡◌, ◌≢◌, ◌⊎◌, inl, inr, Bool, true, false, Option, none, some,
  ◌&&◌, ◌||◌, refl, arith,
}
use lut_pim_driver.Prelude.Bits.{bit_and-page_mask, bit_and-page_offset, bit_or-page}
use lut_pim_driver.PageTable.{
  PageTable, va_to_pa, walk_pmd, walk_pte, pte_missing, page_pa, not_mapped,
}

-- An entry of the last level has the number of its page frame in the digits 12 to 51; the digits
-- from 52 on are attributes of the page, such as the one that forbids to execute it.
abbrev pub frame : (pte : ℕ) → ℕ
frame pte = pte / 2 ^ 12 % 2 ^ 40

abbrev pub attributes : (pte : ℕ) → ℕ
attributes pte = pte / 2 ^ 52

page_pa_lem :
    (pte vaddr : ℕ)
    → pte < 2 ^ 64
    → page_pa pte vaddr ≡ attributes pte * 2 ^ 52 + frame pte * 2 ^ 12 + vaddr % 2 ^ 12
unfolding page_pa
page_pa_lem pte vaddr h =
    let e = bit_or-page (pte / 4096) (vaddr % 4096) (omega arith) in
    rw (bit_and-page_mask pte h, bit_and-page_offset vaddr) omega (arith, e)

-- The entry of the last level, and whether one of the tables above it is missing: the entry of the
-- third level is missing if both looks find it empty.
module _ (t : PageTable) (vaddr : ℕ) where
  abbrev pub pmd_of : ℕ
  pmd_of = t.pmd_offset (t.pud_offset (t.pgd_offset vaddr) vaddr) vaddr

  abbrev pub pte_of : ℕ
  pte_of = t.pte_offset_kernel pmd_of vaddr

  abbrev pub no_table : Bool
  no_table =
      t.pgd_none (t.pgd_offset vaddr)
      || t.pud_none (t.pud_offset (t.pgd_offset vaddr) vaddr)
      || (t.pmd_none pmd_of && t.pmd_none_again pmd_of)

  -- The address of the page's frame with the offset in the page, and above it the attributes.
  abbrev pub pa_of : ℕ
  pa_of =
      attributes (t.pte_val pte_of) * 2 ^ 52 + frame (t.pte_val pte_of) * 2 ^ 12 + vaddr % 2 ^ 12

  walk_pte_lem :
      ((e : ℕ) → t.pte_val e < 2 ^ 64)
      → ((t.pte_none pte_of ≡ false) × (walk_pte t vaddr pmd_of ≡ some pa_of))
        ⊎ ((t.pte_none pte_of ≡ true) × (walk_pte t vaddr pmd_of ≡ pte_missing (t.find_vma vaddr)))
  unfolding walk_pte
  walk_pte_lem h = ground (arith, page_pa_lem (t.pte_val pte_of) vaddr (h pte_of))

  pte_missing_lem :
      (v : Option ℕ)
      → ((v ≡ none) × (pte_missing v ≡ none)) ⊎ ((v ≢ none) × (pte_missing v ≡ some not_mapped))
  unfolding pte_missing
  pte_missing_lem none = inl (refl, refl)
  pte_missing_lem (some x) = inr (ground arith, refl)

  -- If a table on the way is missing, `va_to_pa` gives `-1`. If only the last entry is empty, it
  -- gives `-1` when the address has a region at or above it, and follows a NULL pointer when it has
  -- none. Otherwise it gives the frame and the offset in the page, with the attributes of the entry
  -- standing above them.
  pub va_to_pa_lem :
      ((e : ℕ) → t.pte_val e < 2 ^ 64)
      → ((no_table ≡ true) × (va_to_pa t vaddr ≡ some not_mapped))
        ⊎ ((no_table ≡ false)
            × (((t.pte_none pte_of ≡ false) × (va_to_pa t vaddr ≡ some pa_of))
                ⊎ ((t.pte_none pte_of ≡ true)
                    × (((t.find_vma vaddr ≡ none) × (va_to_pa t vaddr ≡ none))
                        ⊎ ((t.find_vma vaddr ≢ none) × (va_to_pa t vaddr ≡ some not_mapped))))))
  unfolding va_to_pa walk_pmd
  va_to_pa_lem h = ground (arith, walk_pte_lem h, pte_missing_lem (t.find_vma vaddr))
