-- ===== src/Prelude/Loops.antt =====
-- The loop `for (i = 0; i < n; i = i + step)` over a `uint32_t`, and its counted form.
use Prim.Native.Nat.{ℕ, zero, suc, ◌+◌, ◌*◌, ◌%◌, ◌^◌, ◌≤◌, ◌<◌}
use mathlib.Core.Path.{◌≡◌, refl, ap, subst, ◌∙◌}
use mathlib.Core.Bool.{true, false}
use native.Mathlib.Omega.{arith}
use lut_pim_driver.Prelude.Tests.{ltb, lt→ltb}

module _ {ℓ} {S : Type ℓ} where
  -- The loop on fuel, from `i` on; the increment wraps at 2 ^ 32.
  unfoldable pub loop_u32 : (fuel step n : ℕ) → (ℕ → S → S) → ℕ → S → S
  loop_u32 zero step n body i s = s
  loop_u32 (suc fuel) step n body i s = elim (ltb i n) [
    | true ↦ loop_u32 fuel step n body ((i + step) % 2 ^ 32) (body i s)
    | false ↦ s
  ]

  -- Each round raises `i`, so `n` rounds are enough, where the increment does not wrap.
  unfoldable pub for_u32 : (step n : ℕ) → (ℕ → S → S) → S → S
  unfolding loop_u32
  for_u32 step n body s = loop_u32 n step n body 0 s

  -- `m` rounds, at `i`, `i + step`, ...
  unfoldable pub for_step : (m step i : ℕ) → (ℕ → S → S) → S → S
  for_step zero step i body s = s
  for_step (suc m) step i body s = for_step m step (i + step) body (body i s)

  -- Where the increment does not wrap, the loop makes the `m` rounds that reach `n`.
  loop_u32_lem :
      (fuel step n m : ℕ) (body : ℕ → S → S) (i : ℕ) (s : S)
      → 0 < step
      → n + step ≤ 2 ^ 32
      → n ≤ i + m * step
      → i + m * step < n + step
      → m ≤ fuel
      → loop_u32 fuel step n body i s ≡ for_step m step i body s
  unfolding loop_u32 for_step
  loop_u32_lem zero step n zero body i s p w lo hi f = refl
  loop_u32_lem zero step n (suc m) body i s p w lo hi f = absurd (omega arith)
  loop_u32_lem (suc fuel) step n zero body i s p w lo hi f =
      let e : ltb i n ≡ false = ground arith in rw (e, loop_u32)
  loop_u32_lem (suc fuel) step n (suc m) body i s p w lo hi f =
      let e : ltb i n ≡ true = lt→ltb i n (omega arith) in
      let q : (i + step) % 2 ^ 32 ≡ i + step = omega arith in
      rw (e, loop_u32, q)
        (loop_u32_lem fuel step n m body (i + step) (body i s) p w (omega arith) (omega arith)
          (omega arith))

  pub for_u32_lem :
      (step n m : ℕ) (body : ℕ → S → S) (s : S)
      → 0 < step
      → n + step ≤ 2 ^ 32
      → n ≤ m * step
      → m * step < n + step
      → m ≤ n
      → for_u32 step n body s ≡ for_step m step 0 body s
  unfolding for_u32
  for_u32_lem step n m body s p w lo hi f =
      loop_u32_lem n step n m body 0 s p w (omega arith) (omega arith) f

  -- Where each round takes `at k` to `at (k + 1)`, the loop takes `at 0` to `at m`.
  for_step-at :
      (at : ℕ → S) (body : ℕ → S → S) (step m n k : ℕ)
      → n ≡ m + k
      → ((j : ℕ) → j < n → body (j * step) (at j) ≡ at (suc j))
      → for_step m step (k * step) body (at k) ≡ at n
  unfolding for_step
  for_step-at at body step zero n k e h = ap at (omega arith)
  for_step-at at body step (suc m) n k e h =
      let i : k * step + step ≡ suc k * step = omega arith in
      rw (h k (omega arith), i) (for_step-at at body step m n (suc k) (omega arith) h)

  pub for_u32-at :
      (at : ℕ → S) (body : ℕ → S → S) (step n m : ℕ)
      → 0 < step
      → n + step ≤ 2 ^ 32
      → n ≤ m * step
      → m * step < n + step
      → m ≤ n
      → ((j : ℕ) → j < m → body (j * step) (at j) ≡ at (suc j))
      → for_u32 step n body (at 0) ≡ at m
  for_u32-at at body step n m p w lo hi f h =
      let e : 0 * step ≡ 0 = omega arith in
      for_u32_lem step n m body (at 0) p w lo hi f
      ∙ subst (λ i. for_step m step i body (at 0) ≡ at m) e
          (for_step-at at body step m m 0 (omega arith) h)
