-- ===== src/PimMath/Runs.antt =====
-- The loops `for (i = 0; i < n; i = i + step)` over a `uint32_t` in src/drv_src/pim_math as a
-- relation, which says nothing where a loop has no end.
use native.Mathlib.Nat.{mul-le-mul_left, mul-suc, mul-zero}
use native.Mathlib.Decide.{dec_lt}
use lut_pim_driver.Prelude.{
  ℕ, zero, suc, ◌+◌, ◌*◌, ◌%◌, ◌^◌, ◌≤◌, ◌<◌, ◌≡◌, sym, ap, ◌∙◌, true, false, ltb, lt→ltb, arith,
  loop_u32, for_u32,
}

-- From the counter `i` on, the loop takes one state to another; `round i` is what a round does.
pub data Runs {S : Type 0} (step n : ℕ) (round : ℕ → S → S → Type 0) : ℕ → S → S → Type 0 where
  leaves : {i : ℕ} {s : S} → n ≤ i → Runs step n round i s s
  goes_on :
      {i : ℕ} {s t u : S}
      → i < n
      → round i s t
      → Runs step n round ((i + step) % 2 ^ 32) t u
      → Runs step n round i s u

module _ {S : Type 0} (step n : ℕ) (body : ℕ → S → S) (round : ℕ → S → S → Type 0) (p : 0 < step)
    (fits : n + step ≤ 2 ^ 32) (does : (i : ℕ) (s : S) → i < n → round i s (body i s)) where
  loop_u32-Runs :
      (fuel i : ℕ) (s : S) → n ≤ i + fuel → Runs step n round i s (loop_u32 fuel step n body i s)
  unfolding loop_u32
  loop_u32-Runs zero i s h = leaves (omega arith)
  loop_u32-Runs (suc fuel) i s h = elim (dec_lt i n) [
    | yes l ↦
        let e : ltb i n ≡ true = lt→ltb i n l in
        let q : (i + step) % 2 ^ 32 ≡ i + step = omega arith in
        let rest = loop_u32-Runs fuel (i + step) (body i s) (omega arith) in
        rw (e, loop_u32) (goes_on l (does i s l) (rw q rest))
    | no l ↦ let e : ltb i n ≡ false = ground arith in rw (e, loop_u32) (leaves (omega arith))
  ]

  -- A loop whose bound and one step more fit in 32 bits does what `for_u32` does.
  pub for_u32-Runs : (s : S) → Runs step n round 0 s (for_u32 step n body s)
  unfolding for_u32
  for_u32-Runs s = loop_u32-Runs n 0 s (omega arith)

-- A loop with a round to do does one.
pub Runs-round :
    {S : Type 0} (step n : ℕ) (round : ℕ → S → S → Type 0) {i : ℕ} {s u : S}
    → i < n
    → Runs step n round i s u
    → (t : S) × round i s t
Runs-round step n round l (leaves h) = absurd (omega arith)
Runs-round step n round l (goes_on {t} h r rest) = (t, r)

module _ {S : Type 0} (step c n : ℕ) (round : ℕ → S → S → Type 0) (whole : step * c ≡ 2 ^ 32)
    (p : 0 < step) (wraps : 2 ^ 32 < n + step) where
  -- The counter is a multiple of `step`, below the bound, and so is the next one.
  multiple_lem :
      (t : ℕ)
      → t < c
      → (step * t < n) × ((u : ℕ) × (u < c) × ((step * t + step) % 2 ^ 32 ≡ step * u))
  multiple_lem t h =
      let a : step * suc t ≤ step * c = mul-le-mul_left step h in
      let b = mul-suc step t in
      (
        omega (arith, a, b, whole),
        elim (dec_lt (suc t) c) [
          | yes l ↦
              let d : step * suc (suc t) ≤ step * c = mul-le-mul_left step l in
              let e = mul-suc step (suc t) in (suc t, l, omega (arith, b, d, e, whole))
          | no l ↦
              let g : suc t ≡ c = omega arith in
              let f : step * suc t ≡ 2 ^ 32 = ap (λ x. step * x) g ∙ whole in
              (0, omega arith, omega (arith, b, f))
        ],
      )

  Runs-multiple : {i : ℕ} {s u : S} → Runs step n round i s u → (t : ℕ) → t < c → ¬ (i ≡ step * t)
  Runs-multiple (leaves h) t l e = let (a, b) = multiple_lem t l in absurd (omega (arith, a, e))
  Runs-multiple (goes_on {i} h r rest) t l e =
      let (a, (v, k, q)) = multiple_lem t l in
      Runs-multiple rest v k (ap (λ x. (x + step) % 2 ^ 32) e ∙ q)

  -- A loop whose step divides 2 ^ 32, and whose bound and one step more do not fit in 32 bits, has
  -- no end: the counter wraps around before it reaches the bound.
  pub Runs-endless : 0 < c → {s u : S} → ¬ (Runs step n round 0 s u)
  Runs-endless l r = Runs-multiple r 0 l (sym (mul-zero step))
