-- ===== src/PimMem/Malloc/Large.antt =====
-- The search of `pim_malloc` for a stretch of free pools.
use lut_pim_driver.Prelude.{
  ℕ, ◌-◌, ◌^◌, ◌≤◌, ◌<◌, ◌≡◌, List, [], ◌∷◌, Option, none, some, ◌==◌, if◌then◌else◌, arith, length,
  get_elem?, Option-cases, inl, inr, refl,
}
use lut_pim_driver.PimMem.Pool.{MemPool}
use lut_pim_driver.PimMem.Malloc.{search_large, find_large}

search_large_tail :
    (num pos : ℕ) (prev : Option MemPool) (p : MemPool)
    → 3 ≤ num
    → num < 2 ^ 32
    → search_large num 0 pos prev (p ∷ []) ≡ none
unfolding search_large
search_large_tail num pos none p lo hi = ground arith
search_large_tail num pos (some q) p lo hi = ground arith

-- An allocation of three pools or more never finds a stretch of free pools, whatever the list of
-- pools is.
pub find_large-none :
    (num : ℕ) (pools : List MemPool) → 3 ≤ num → num < 2 ^ 32 → find_large num pools ≡ none
unfolding find_large
find_large-none num pools lo hi =
    let tail = length pools - 1 in
    elim (Option-cases (get_elem? pools tail)) [
      | inl e ↦ rw (find_large, e) refl
      | inr (p, e) ↦
          rw (find_large, e)
            (search_large_tail num tail (if tail == 0 then none else get_elem? pools (tail - 1)) p
              lo hi)
    ]
