-- ===== src/PimMem/Fill.antt =====
-- What filling a part of the bit vector changes.
use lut_pim_driver.Prelude.{
  ℕ, zero, suc, ◌+◌, ◌≤◌, ◌<◌, ◌≡◌, ◌⊎◌, refl, ap, ap₂, List, [], ◌∷◌, some, arith, length,
  get_elem?,
}
use lut_pim_driver.PimMem.BitVector.{free_page, used_page, fill}
use lut_pim_driver.PimMem.BitVectorLaws.{IsRun, count, IsRun-tail}

pub length-fill : (s : List ℕ) (i n v : ℕ) → length (fill s i n v) ≡ length s
unfolding fill
length-fill [] i n v = refl
length-fill (x ∷ s) zero zero v = refl
length-fill (x ∷ s) zero (suc n) v = ap suc (length-fill s zero n v)
length-fill (x ∷ s) (suc i) n v = ap suc (length-fill s i n v)

-- Outside the pages `i`, ..., `i + n - 1` nothing changes.
pub get_elem?-fill_ne :
    (s : List ℕ) (i n v j : ℕ) → (j < i) ⊎ (i + n ≤ j) → get_elem? (fill s i n v) j ≡ get_elem? s j
unfolding fill
get_elem?-fill_ne [] i n v j h = refl
get_elem?-fill_ne (x ∷ s) zero zero v j h = refl
get_elem?-fill_ne (x ∷ s) zero (suc n) v zero h = absurd (omega arith)
get_elem?-fill_ne (x ∷ s) zero (suc n) v (suc j) h = get_elem?-fill_ne s zero n v j (omega arith)
get_elem?-fill_ne (x ∷ s) (suc i) n v zero h = refl
get_elem?-fill_ne (x ∷ s) (suc i) n v (suc j) h = get_elem?-fill_ne s i n v j (omega arith)

-- Inside, every page holds the value.
pub get_elem?-fill_self :
    (s : List ℕ) (i n v j : ℕ)
    → i ≤ j
    → j < i + n
    → j < length s
    → get_elem? (fill s i n v) j ≡ some v
unfolding fill
get_elem?-fill_self [] i n v j lo hi l = absurd (omega arith)
get_elem?-fill_self (x ∷ s) zero zero v j lo hi l = absurd (omega arith)
get_elem?-fill_self (x ∷ s) zero (suc n) v zero lo hi l = refl
get_elem?-fill_self (x ∷ s) zero (suc n) v (suc j) lo hi l =
    get_elem?-fill_self s zero n v j (omega arith) (omega arith) (omega arith)
get_elem?-fill_self (x ∷ s) (suc i) n v zero lo hi l = absurd (omega arith)
get_elem?-fill_self (x ∷ s) (suc i) n v (suc j) lo hi l =
    get_elem?-fill_self s i n v j (omega arith) (omega arith) (omega arith)

-- Using free pages and freeing them again gives the bit vector back.
pub fill-fill : (s : List ℕ) (i n v w : ℕ) → IsRun v s i n → fill (fill s i n w) i n v ≡ s
unfolding fill
fill-fill [] i n v w r = refl
fill-fill (x ∷ s) zero zero v w r = refl
fill-fill (x ∷ s) zero (suc n) v w r =
    ap₂ ◌∷◌ (ground (arith, r.0)) (fill-fill s zero n v w (IsRun-tail v x s 0 n r.1))
fill-fill (x ∷ s) (suc i) n v w r = ap (λ t. x ∷ t) (fill-fill s i n v w (IsRun-tail v x s i n r))

-- Using `n` free pages leaves `n` fewer of them.
pub count-fill :
    (s : List ℕ) (i n : ℕ)
    → IsRun free_page s i n
    → count free_page (fill s i n used_page) + n ≡ count free_page s
unfolding fill
count-fill [] i zero r = refl
count-fill [] i (suc n) r = absurd (ground (arith, r.0))
count-fill (x ∷ s) zero zero r = omega arith
count-fill (x ∷ s) zero (suc n) r =
    ground (arith, r.0, count-fill s zero n (IsRun-tail free_page x s 0 n r.1))
count-fill (x ∷ s) (suc i) n r = ground (arith, count-fill s i n (IsRun-tail free_page x s i n r))
