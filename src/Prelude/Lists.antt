-- ===== src/Prelude/Lists.antt =====
-- Lists measured and indexed by native numbers, under the library's names.
use Prim.Native.Nat.{ℕ, zero, suc, ◌+◌, ◌*◌}
use mathlib.Core.Path.{◌≡◌, refl, sym, ap, ◌∙◌}
use mathlib.Core.List.{List, [], ◌∷◌, ◌++◌, append_assoc, append-nil}
use mathlib.Core.Option.{Option, none, some}
use native.Mathlib.Omega.{arith}

module _ {ℓ} {A : Type ℓ} where
  abbrev pub length : List A → ℕ
  length [] = 0
  length (x ∷ xs) = suc (length xs)

  abbrev pub get_elem? : List A → ℕ → Option A
  get_elem? [] i = none
  get_elem? (x ∷ xs) zero = some x
  get_elem? (x ∷ xs) (suc i) = get_elem? xs i

  -- A write out of bounds changes nothing.
  abbrev pub set : List A → ℕ → A → List A
  set [] i v = []
  set (x ∷ xs) zero v = v ∷ xs
  set (x ∷ xs) (suc i) v = x ∷ set xs i v

  abbrev pub replicate : ℕ → A → List A
  replicate zero a = []
  replicate (suc n) a = a ∷ replicate n a

  pub length-append : (xs ys : List A) → length (xs ++ ys) ≡ length xs + length ys
  length-append [] ys = omega arith
  length-append (x ∷ xs) ys = omega (arith, length-append xs ys)

  pub length-replicate : (n : ℕ) (a : A) → length (replicate n a) ≡ n
  length-replicate zero a = refl
  length-replicate (suc n) a = ap suc (length-replicate n a)

  pub length-set : (xs : List A) (i : ℕ) (v : A) → length (set xs i v) ≡ length xs
  length-set [] i v = refl
  length-set (x ∷ xs) zero v = refl
  length-set (x ∷ xs) (suc i) v = ap suc (length-set xs i v)

  -- The lists that `F` gives at `i`, `i + step`, ..., `m` of them, one behind the other.
  unfoldable pub grid : (m step i : ℕ) → (ℕ → List A) → List A
  grid zero step i F = []
  grid (suc m) step i F = F i ++ grid m step (i + step) F

  pub length-grid :
      (F : ℕ → List A) (c m step i : ℕ)
      → ((k : ℕ) → length (F k) ≡ c)
      → length (grid m step i F) ≡ m * c
  unfolding grid
  length-grid F c zero step i h = omega arith
  length-grid F c (suc m) step i h = omega (
    arith,
    length-append (F i) (grid m step (i + step) F),
    h i,
    length-grid F c m step (i + step) h,
  )

  -- The last list of a grid.
  pub grid-suc :
      (m step i : ℕ) (F : ℕ → List A) → grid (suc m) step i F ≡ grid m step i F ++ F (i + m * step)
  unfolding grid
  grid-suc zero step i F = let e : i + 0 * step ≡ i = omega arith in rw e (append-nil (F i))
  grid-suc (suc m) step i F =
      let e : i + suc m * step ≡ i + step + m * step = omega arith in
      rw e (
        ap (λ xs. F i ++ xs) (grid-suc m step (i + step) F)
        ∙ sym (append_assoc (F i) (grid m step (i + step) F) _))
