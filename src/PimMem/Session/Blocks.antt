-- ===== src/PimMem/Session/Blocks.antt =====
-- The pools of src/mem_src/pim_mem.c that hold the blocks of a session.
use lut_pim_driver.Prelude.{
  ℕ, zero, suc, ◌+◌, ◌*◌, ◌≤◌, ◌<◌, ◌≡◌, ◌≢◌, ◌⊎◌, inl, inr, refl, ap, ◌∙◌, List, [], ◌∷◌, some,
  false, arith, length, get_elem?, subst,
}
use native.Mathlib.Decide.{dec_lt}
use lut_pim_driver.PimMem.BitVector.{free_page, used_page, fill}
use lut_pim_driver.PimMem.BitVectorLaws.{IsRun, IsRun-tail, count}
use lut_pim_driver.PimMem.Fill.{get_elem?-fill_ne, get_elem?-fill_self}
use lut_pim_driver.PimMem.Pool.{MemPool, Page, page_size, num_pages}
use lut_pim_driver.PimMem.Malloc.{set_page_size}
use lut_pim_driver.PimMem.Free.{alloc_size_at}
use lut_pim_driver.PimMem.Session.{Block}

abbrev pub end_of : Block → ℕ
end_of b = b.addr + b.npages * page_size

abbrev pub IsDisjoint : Block → Block → Type 0
IsDisjoint b c = (end_of b ≤ c.addr) ⊎ (end_of c ≤ b.addr)

-- The block is a run of used pages of the pool, and its first page records its size.
pub record InPool (p : MemPool) (b : Block) : Type 0 where
  pub idx : ℕ
  pub at : b.addr ≡ p.start_va + idx * page_size
  pub some_pages : 0 < b.npages
  pub inside : idx + b.npages ≤ num_pages
  pub used : IsRun used_page p.bit_vector idx b.npages
  pub size : alloc_size_at p.head_page idx ≡ b.npages

-- One of the pools holds the block.
abbrev pub Owns : List MemPool → Block → Type 0
Owns [] b = ⊥
Owns (p ∷ ps) b = InPool p b ⊎ Owns ps b

-- A pool that is not part of a large allocation, and counts its free pages.
pub record IsSmall (p : MemPool) : Type 0 where
  pub small : p.large_mem_pool ≡ false
  pub counted : p.nfree_pages ≡ count free_page p.bit_vector

abbrev pub AreSmall : List MemPool → Type 0
AreSmall [] = Unit {0}
AreSmall (p ∷ ps) = IsSmall p × AreSmall ps

IsRun-get_elem? :
    (v : ℕ) (s : List ℕ) (i n k : ℕ) → IsRun v s i n → i ≤ k → k < i + n → get_elem? s k ≡ some v
IsRun-get_elem? v s i zero k r lo hi = absurd (omega arith)
IsRun-get_elem? v s i (suc n) k r lo hi = elim (dec_lt i k) [
  | yes p ↦ IsRun-get_elem? v s (suc i) n k r.1 (omega arith) (omega arith)
  | no p ↦ let e : i ≡ k = omega arith in subst (λ j. get_elem? s j ≡ some v) e r.0
]

-- A run of used pages and a run of free pages have no page in common.
pub IsRun-apart :
    (s : List ℕ) (i n j m : ℕ)
    → IsRun used_page s i n
    → IsRun free_page s j m
    → 0 < n
    → 0 < m
    → (i + n ≤ j) ⊎ (j + m ≤ i)
IsRun-apart s i n j m r q pn pm =
    let both : (k : ℕ) → i ≤ k → k < i + n → j ≤ k → k < j + m → ⊥ = λ k a b c d.
      let used = IsRun-get_elem? used_page s i n k r a b in
      let free = IsRun-get_elem? free_page s j m k q c d in ground (arith, used, free) in
    elim (dec_lt j (i + n)) [
      | no p ↦ inl (omega arith)
      | yes p ↦ elim (dec_lt i (j + m)) [
        | no q ↦ inr (omega arith)
        | yes q ↦ elim (dec_lt i j) [
          | yes l ↦ absurd (both j (omega arith) p (omega arith) (omega arith))
          | no l ↦ absurd (both i (omega arith) (omega arith) (omega arith) q)
        ]
      ]
    ]

pub IsRun-fill_ne :
    (v w : ℕ) (s : List ℕ) (i n j m : ℕ)
    → IsRun v s i n
    → (i + n ≤ j) ⊎ (j + m ≤ i)
    → IsRun v (fill s j m w) i n
IsRun-fill_ne v w s i zero j m r h = tt
IsRun-fill_ne v w s i (suc n) j m r h = (
  get_elem?-fill_ne s j m w i (omega (arith, h)) ∙ r.0,
  IsRun-fill_ne v w s (suc i) n j m r.1 (omega (arith, h)),
)

pub IsRun-fill :
    (v : ℕ) (s : List ℕ) (j m i n : ℕ)
    → j ≤ i
    → i + n ≤ j + m
    → j + m ≤ length s
    → IsRun v (fill s j m v) i n
IsRun-fill v s j m i zero lo hi le = tt
IsRun-fill v s j m i (suc n) lo hi le = (
  get_elem?-fill_self s j m v i lo (omega arith) (omega arith),
  IsRun-fill v s j m (suc i) n (omega arith) (omega arith) le,
)

pub alloc_size_at-set_ne :
    (s : List Page) (j n idx : ℕ)
    → idx ≢ j
    → alloc_size_at (set_page_size s j n) idx ≡ alloc_size_at s idx
alloc_size_at-set_ne [] j n idx h = refl
alloc_size_at-set_ne (page ∷ s) zero n zero h = absurd (h refl)
alloc_size_at-set_ne (page ∷ s) zero n (suc idx) h = refl
alloc_size_at-set_ne (page ∷ s) (suc j) n zero h = refl
alloc_size_at-set_ne (page ∷ s) (suc j) n (suc idx) h =
    alloc_size_at-set_ne s j n idx (λ e. h (ap suc e))

-- Freeing `n` used pages adds `n` free ones.
pub count-fill_free :
    (s : List ℕ) (i n : ℕ)
    → IsRun used_page s i n
    → count free_page (fill s i n free_page) ≡ count free_page s + n
unfolding fill
count-fill_free [] i zero r = refl
count-fill_free [] i (suc n) r = absurd (ground (arith, r.0))
count-fill_free (x ∷ s) zero zero r = omega arith
count-fill_free (x ∷ s) zero (suc n) r =
    ground (arith, r.0, count-fill_free s zero n (IsRun-tail used_page x s 0 n r.1))
count-fill_free (x ∷ s) (suc i) n r =
    ground (arith, count-fill_free s i n (IsRun-tail used_page x s i n r))
