-- ===== src/PimMath/Tiling.antt =====
-- Loops over tiles, as sequences of emitted or cleared descriptors.
use lut_pim_driver.Prelude.{ℕ, ◌+◌, ◌*◌, ◌^◌, ◌≤◌, ◌<◌, ◌≡◌, ◌∙◌, List, grid, for_u32, for_u32_lem}
use lut_pim_driver.Cdma.{CdmaDev}
use lut_pim_driver.Cdma.Emit.{
  Fields, Gen, emit_all, clear_all, for_step-emit_all, for_step-clear_all,
}

-- `m` is the number of rounds of a loop to `n` by `step`, and the counter does not wrap.
pub record IsRounds (step n m : ℕ) : Type 0 where
  pub step_pos : 0 < step
  pub no_wrap : n + step ≤ 2 ^ 32
  pub reaches : n ≤ m * step
  pub needed : m * step < n + step
  pub enough : m ≤ n

pub for_u32-emit_all :
    (d : CdmaDev) (step n m : ℕ) (F : ℕ → List Fields) (body : ℕ → Gen → Gen) (g : Gen)
    → IsRounds step n m
    → ((i : ℕ) (h : Gen) → body i h ≡ emit_all d (F i) h)
    → for_u32 step n body g ≡ emit_all d (grid m step 0 F) g
for_u32-emit_all d step n m F body g r h =
    for_u32_lem step n m body g r.step_pos r.no_wrap r.reaches r.needed r.enough
    ∙ for_step-emit_all d F body h m step 0 g

pub for_u32-clear_all :
    (step n m c : ℕ) (body : ℕ → Gen → Gen) (g : Gen)
    → IsRounds step n m
    → ((i : ℕ) (h : Gen) → body i h ≡ clear_all c h)
    → for_u32 step n body g ≡ clear_all (m * c) g
for_u32-clear_all step n m c body g r h =
    for_u32_lem step n m body g r.step_pos r.no_wrap r.reaches r.needed r.enough
    ∙ for_step-clear_all c body h m step 0 g
