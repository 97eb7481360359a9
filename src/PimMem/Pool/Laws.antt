-- ===== src/PimMem/Pool/Laws.antt =====
-- The representation invariant of a pool, and what `_set_bit_vector` and `_clr_bit_vector` do.
use lut_pim_driver.Prelude.{
  ℕ, zero, suc, ◌+◌, ◌-◌, ◌≤◌, ◌<◌, ◌≡◌, ◌⊎◌, inl, inr, refl, ap, ◌∙◌, sym, List, [], ◌∷◌, none,
  some, Bool, false, arith, length, u32, sub_u32, replicate, length-replicate,
}
use lut_pim_driver.PimMem.BitVector.{free_page, used_page, fill, find_pages}
use lut_pim_driver.PimMem.BitVectorLaws.{IsRun, count, IsRun-le, find_pages-IsRun, find_pages-none}
use lut_pim_driver.PimMem.Fill.{length-fill, fill-fill, count-fill}
use lut_pim_driver.PimMem.Pool.{MemPool, num_pages, pages, new_pool, set_bit_vector, clr_bit_vector}

-- One flag for each page, and the number of free pages is right; a pool of a large allocation has
-- no page to give, whatever its flags are.
pub record IsPool (p : MemPool) : Type 0 where
  pub flags : length p.bit_vector ≡ num_pages
  pub entries : length p.head_page ≡ num_pages
  pub index : p.curr_idx ≤ num_pages
  pub kind : (p.large_mem_pool ≡ false) ⊎ (p.nfree_pages ≡ 0)
  pub free_count : (p.nfree_pages ≡ count free_page p.bit_vector) ⊎ (p.nfree_pages ≡ 0)

pub count-le : (v : ℕ) (s : List ℕ) → count v s ≤ length s
count-le v [] = omega arith
count-le v (x ∷ s) = ground (arith, count-le v s)

pub IsPool-nfree : (p : MemPool) → IsPool p → p.nfree_pages ≤ num_pages
IsPool-nfree p v = omega (arith, count-le free_page p.bit_vector, v.flags, v.free_count)

-- What a successful `_set_bit_vector` is.
set_bit_vector-some :
    (p : MemPool) (n idx : ℕ) (p' : MemPool)
    → set_bit_vector p n ≡ some (idx, p')
    → (find_pages p.bit_vector p.curr_idx n ≡ some idx)
      × (p' ≡ record p {
        bit_vector = fill p.bit_vector idx n used_page;
        nfree_pages = sub_u32 p.nfree_pages n;
        curr_idx = u32 (idx + n);
      })
unfolding set_bit_vector
set_bit_vector-some p n idx p' h = ground arith

-- A successful `_set_bit_vector` on a valid pool takes `n` free pages in one run inside the pool:
-- they were free, their flags are set, every other field but the count and the index stays, and
-- the pool is valid again.
pub set_bit_vector_lem :
    (p : MemPool) (n idx : ℕ) (p' : MemPool)
    → IsPool p
    → 0 < n
    → n ≤ p.nfree_pages
    → set_bit_vector p n ≡ some (idx, p')
    → IsRun free_page p.bit_vector idx n
      × (idx + n ≤ num_pages)
      × (p' ≡ record p {
        bit_vector = fill p.bit_vector idx n used_page;
        nfree_pages = p.nfree_pages - n;
        curr_idx = idx + n;
      })
      × IsPool p'
set_bit_vector_lem p zero idx p' v pos le h = absurd (omega arith)
set_bit_vector_lem p (suc n) idx p' v pos le h =
    let (e, q) = set_bit_vector-some p (suc n) idx p' h in
    let r = find_pages-IsRun p.bit_vector p.curr_idx n idx e in
    let inside : idx + suc n ≤ num_pages =
      omega (arith, IsRun-le free_page p.bit_vector idx n r, v.flags) in
    let counted = count-fill p.bit_vector idx (suc n) r in
    let bound : p.nfree_pages ≤ num_pages =
      omega (arith, count-le free_page p.bit_vector, v.flags, v.free_count) in
    let nfree : sub_u32 p.nfree_pages (suc n) ≡ p.nfree_pages - suc n = omega arith in
    let index : u32 (idx + suc n) ≡ idx + suc n = omega arith in
    let same : p' ≡ record p {
      bit_vector = fill p.bit_vector idx (suc n) used_page;
      nfree_pages = p.nfree_pages - suc n;
      curr_idx = idx + suc n;
    } =
      rw (nfree, index) at q in
    (
      r,
      inside,
      same,
      rw same (record {
        flags = length-fill p.bit_vector idx (suc n) used_page ∙ v.flags;
        entries = v.entries;
        index = inside;
        kind = elim v.kind [ inl e ↦ inl e | inr e ↦ inr (omega (arith, e)) ];
        free_count = inl (omega (arith, counted, v.free_count));
      }),
    )

-- Freeing the pages again gives the flags and the count back; the index stays at these pages.
pub clr_bit_vector-set_bit_vector :
    (p : MemPool) (n idx : ℕ) (p' : MemPool)
    → IsPool p
    → 0 < n
    → n ≤ p.nfree_pages
    → set_bit_vector p n ≡ some (idx, p')
    → clr_bit_vector p' idx n ≡ record p { curr_idx = idx }
unfolding clr_bit_vector
clr_bit_vector-set_bit_vector p n idx p' v pos le h =
    let (r, inside, same, w) = set_bit_vector_lem p n idx p' v pos le h in
    let bound : p.nfree_pages ≤ num_pages =
      omega (arith, count-le free_page p.bit_vector, v.flags, v.free_count) in
    let nfree : u32 (p.nfree_pages - n + n) ≡ p.nfree_pages = omega arith in
    rw (same, nfree, fill-fill p.bit_vector idx n free_page used_page r) refl

-- If `_set_bit_vector` fails, every run of `n` free pages of the pool lies across the character
-- before the current index, which neither round of the search looks at together with both sides.
pub set_bit_vector-none :
    (p : MemPool) (n k : ℕ)
    → IsPool p
    → 0 < n
    → set_bit_vector p n ≡ none
    → IsRun free_page p.bit_vector k n
    → (k < p.curr_idx) × (p.curr_idx ≤ k + n)
unfolding set_bit_vector
set_bit_vector-none p zero k v pos h r = absurd (omega arith)
set_bit_vector-none p (suc n) k v pos h r =
    let e : find_pages p.bit_vector p.curr_idx (suc n) ≡ none = ground arith in
    find_pages-none p.bit_vector p.curr_idx n k (omega (arith, v.index)) e r

-- A pool just set up is valid.
length-pages : (u : ℕ → ℕ) (va i n : ℕ) → length (pages u va i n) ≡ n
unfolding pages
length-pages u va i zero = refl
length-pages u va i (suc n) = ap suc (length-pages u va (i + 1) n)

pub count-replicate : (n : ℕ) → count free_page (replicate n free_page) ≡ n
count-replicate zero = refl
count-replicate (suc n) = ap suc (count-replicate n)

pub new_pool-IsPool :
    (u : ℕ → ℕ) (va nfree : ℕ) (large : Bool)
    → (nfree ≡ num_pages) × (large ≡ false) ⊎ (nfree ≡ 0)
    → IsPool (new_pool u va nfree large)
unfolding new_pool
new_pool-IsPool u va nfree large h = record {
  flags = length-replicate num_pages free_page;
  entries = length-pages u va 0 num_pages;
  index = omega arith;
  kind = elim h [ inl (e, l) ↦ inl l | inr e ↦ inr e ];
  free_count = elim h [ inl (e, l) ↦ inl (e ∙ sym (count-replicate num_pages)) | inr e ↦ inr e ];
}
