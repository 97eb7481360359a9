-- ===== src/Tests/Walk.antt =====
-- `va_to_pa` of src/drv_src/pim_drv_main.c at a concrete page table.
use lut_pim_driver.Prelude.{
  ◌+◌, ◌^◌, ◌/◌, ◌==◌, ◌≡◌, ◌≢◌, ◌⊎◌, refl, true, false, none, some, if◌then◌else◌, arith,
}
use lut_pim_driver.PageTable.{
  PageTable, va_to_pa, not_mapped, walk_pmd, walk_pte, page_pa, pte_missing,
}
use lut_pim_driver.PageTable.Laws.{no_table, pte_of, pa_of, va_to_pa_lem}

-- One page, that must not be executed, at the frame 0x12345; its region ends at 0x8000.
abbrev one_page : PageTable
one_page = record {
  find_vma = λ vaddr. if vaddr / 0x8000 == 0 then some 3 else none;
  pgd_offset = λ vaddr. 0x1000;
  pgd_none = λ pgd. false;
  pud_offset = λ pgd vaddr. 0x2000;
  pud_none = λ pud. false;
  pmd_offset = λ pud vaddr. 0x3000;
  pmd_none = λ pmd. true;
  pmd_none_again = λ pmd. false;
  pte_offset_kernel = λ pmd vaddr. vaddr / 0x1000;
  pte_none = λ pte. if pte == 7 then false else true;
  pte_val = λ pte. 2 ^ 63 + 0x12345067;
}

walked : va_to_pa one_page 0x7abc ≡ some (2 ^ 63 + 0x12345abc)
unfolding va_to_pa walk_pmd walk_pte page_pa
walked = refl

above : va_to_pa one_page 0x9000 ≡ none
unfolding va_to_pa walk_pmd walk_pte pte_missing
above = refl

va_to_pa_lem_example :
    ((no_table one_page 0x7abc ≡ true) × (va_to_pa one_page 0x7abc ≡ some not_mapped))
    ⊎ ((no_table one_page 0x7abc ≡ false)
        × (((one_page.pte_none (pte_of one_page 0x7abc) ≡ false)
              × (va_to_pa one_page 0x7abc ≡ some (pa_of one_page 0x7abc)))
            ⊎ ((one_page.pte_none (pte_of one_page 0x7abc) ≡ true)
                × (((one_page.find_vma 0x7abc ≡ none) × (va_to_pa one_page 0x7abc ≡ none))
                    ⊎ ((one_page.find_vma 0x7abc ≢ none)
                        × (va_to_pa one_page 0x7abc ≡ some not_mapped))))))
va_to_pa_lem_example = va_to_pa_lem one_page 0x7abc (λ e. omega arith)
