-- ===== src/PlDma/Outcomes.antt =====
-- What the results of the transfers say of the engine, and when a wait is completed.
use lut_pim_driver.Prelude.{
  ℕ, zero, suc, ◌+◌, ◌/◌, ◌%◌, ◌≤◌, ◌<◌, ◌≡◌, ◌⊎◌, inl, inr, sub_u32, refl, true, false, ◌==◌, ltb,
  arith, Bool-cases, bit_and,
}
use native.Mathlib.Decide.{dec_lt}
use mathlib.Core.Logic.{◌↔◌}
use mathlib.Core.Bool.{not}
use lut_pim_driver.Cdma.{CdmaDev}
use lut_pim_driver.PlDma.{
  Code, success, edma_tx, edma_intr, efault, Trace, Engine, Tx, next, stop, returned, ◌>>=◌,
  cdma_max_coalesce, wait_intr, sg_submit, sg_small, sg_chunks, sg_remain, dma_sg_tx,
  pl_dma_irq_handler,
}

-- The writes behind `t` are transfers whose waits were completed, each without an error of the engine.
pub data Passed (d : CdmaDev) (hw : Engine) (t : Trace) : Trace → Type 0 where
  no_transfer : Passed d hw t t
  transfer :
      {u : Trace} (num_intr start_desc end_desc : ℕ)
      → Passed d hw t u
      → 0 < (hw (sg_submit d num_intr start_desc end_desc u)).ret
      → (hw (sg_submit d num_intr start_desc end_desc u)).err ≡ false
      → Passed d hw t (sg_submit d num_intr start_desc end_desc u)

-- The last transfer, behind others that passed.
pub record IsLast (d : CdmaDev) (hw : Engine) (t u : Trace) : Type 0 where
  pub before : Trace
  pub passed : Passed d hw t before
  pub num_intr : ℕ
  pub start_desc : ℕ
  pub end_desc : ℕ
  pub writes : u ≡ sg_submit d num_intr start_desc end_desc before

-- The outcome of the last transfer is the reason for the result.
abbrev pub IsReason : Engine → (desc_idx : ℕ) → Code × Trace → Type 0
IsReason hw desc_idx (success r, u) =
    (0 < r) × ((hw u).ret ≡ r) × ((desc_idx < cdma_max_coalesce) ⊎ ((hw u).err ≡ false))
IsReason hw desc_idx (edma_tx, u) = (hw u).ret ≡ 0
IsReason hw desc_idx (edma_intr, u) =
    (cdma_max_coalesce ≤ desc_idx) × (0 < (hw u).ret) × ((hw u).err ≡ true)
IsReason hw desc_idx (efault, u) = ⊥

module _ (d : CdmaDev) (hw : Engine) (desc_idx : ℕ) (t : Trace) where
  abbrev pub IsOutcome : Code × Trace → Type 0
  IsOutcome out = IsLast d hw t out.1 × IsReason hw desc_idx out

  -- A part goes on only behind a transfer that passed, with what `f` reads as the time left.
  abbrev IsPart {ℓ} : {A : Type ℓ} → (A → ℕ) → Tx A → Type 0
  IsPart f (next a u) =
      IsLast d hw t u × Passed d hw t u × (0 < f a) × ((hw u).ret ≡ f a) × ((hw u).err ≡ false)
  IsPart f (stop c u) = IsOutcome (c, u)

  wait_intr-IsPart :
      cdma_max_coalesce ≤ desc_idx
      → (num_intr start_desc end_desc : ℕ) (u : Trace) → Passed d hw t u
      → IsPart (λ r. r) (wait_intr hw (sg_submit d num_intr start_desc end_desc u))
  unfolding wait_intr
  wait_intr-IsPart big num_intr start_desc end_desc u p =
      let v = sg_submit d num_intr start_desc end_desc u in
      let last : IsLast d hw t v = record {
        before = u;
        passed = p;
        num_intr = num_intr;
        start_desc = start_desc;
        end_desc = end_desc;
        writes = refl;
      } in
      elim (Bool-cases ((hw v).ret == 0)) [
        | inl z ↦ rw z (last, ground (arith, z))
        | inr z ↦
            let pos : 0 < (hw v).ret = ground (arith, z) in
            elim (Bool-cases (hw v).err) [
              | inl e ↦ rw (z, e) (last, (big, pos, e))
              | inr e ↦
                  rw (z, e) (last, transfer num_intr start_desc end_desc p pos e, pos, refl, e)
            ]
      ]

  bind-IsPart {ℓ κ} :
      {A : Type ℓ} {B : Type κ} (f : A → ℕ) (g : B → ℕ) (tx : Tx A) (k : A → Trace → Tx B)
      → IsPart f tx
      → ((a : A) (u : Trace) → IsPart f (next a u) → IsPart g (k a u))
      → IsPart g (tx >>= k)
  bind-IsPart f g (next a u) k p h = h a u p
  bind-IsPart f g (stop c u) k p h = p

  returned-IsOutcome : (tx : Tx ℕ) → IsPart (λ r. r) tx → IsOutcome (returned success tx)
  returned-IsOutcome (next r u) (last, p, pos, e, ok) = (last, (pos, e, inr ok))
  returned-IsOutcome (stop c u) p = p

  sg_chunks-IsPart :
      cdma_max_coalesce ≤ desc_idx
      → (n k ret end_desc : ℕ) (u : Trace) → Passed d hw t u
      → (0 < n) ⊎ IsPart (λ r. r) (next ret u)
      → IsPart (λ p. p.0) (sg_chunks d hw n k ret end_desc u)
  unfolding sg_chunks
  sg_chunks-IsPart big zero k ret end_desc u v (inl p) = absurd (omega arith)
  sg_chunks-IsPart big zero k ret end_desc u v (inr p) = p
  sg_chunks-IsPart big (suc n) k ret end_desc u v p =
      bind-IsPart (λ r. r) (λ p. p.0) _ _ (wait_intr-IsPart big cdma_max_coalesce _ _ u v)
        λ r x q. sg_chunks-IsPart big n (k + 1) r _ x q.1 (inr q)

  sg_remain-IsPart :
      cdma_max_coalesce ≤ desc_idx
      → (remain_desc next_desc ret end_desc : ℕ) (u : Trace) → IsPart (λ r. r) (next ret u)
      → IsPart (λ r. r) (sg_remain d hw remain_desc next_desc ret end_desc u)
  unfolding sg_remain
  sg_remain-IsPart big remain_desc next_desc ret end_desc u p =
      elim (Bool-cases (remain_desc == 0)) [
        | inl q ↦ rw q p
        | inr q ↦ rw q (wait_intr-IsPart big remain_desc _ _ u p.1)
      ]

  sg_small-IsOutcome :
      desc_idx < cdma_max_coalesce
      → (next_desc : ℕ) → IsOutcome (sg_small d hw desc_idx next_desc t)
  unfolding sg_small
  sg_small-IsOutcome small next_desc =
      let u = sg_submit d desc_idx d.desc_mem_base (sub_u32 next_desc 0x40) t in
      let last : IsLast d hw t u = record {
        before = t;
        passed = no_transfer;
        num_intr = desc_idx;
        start_desc = d.desc_mem_base;
        end_desc = sub_u32 next_desc 0x40;
        writes = refl;
      } in
      elim (Bool-cases ((hw u).ret == 0)) [
        | inl q ↦ rw q (last, ground (arith, q))
        | inr q ↦ rw q (last, (ground (arith, q), refl, inl small))
      ]

  -- The transfers before the last one all had their waits completed without an error of the engine,
  -- and the last one is the reason for the result: at a success its wait was completed with that time
  -- left and, from 255 descriptors on, without an error; a timeout is that of its wait; and the error
  -- of the engine, which is reported from 255 descriptors on only, was set when its wait was
  -- completed. There is no other result.
  pub dma_sg_tx-IsOutcome : (next_desc : ℕ) → IsOutcome (dma_sg_tx d hw desc_idx next_desc t)
  unfolding dma_sg_tx
  dma_sg_tx-IsOutcome next_desc = elim (dec_lt desc_idx cdma_max_coalesce) [
    | yes l ↦
        let q : ltb desc_idx cdma_max_coalesce ≡ true = ground (arith, l) in
        rw q (sg_small-IsOutcome l next_desc)
    | no l ↦
        let q : ltb desc_idx cdma_max_coalesce ≡ false = ground (arith, l) in
        let big : cdma_max_coalesce ≤ desc_idx = omega (arith, l) in
        let n : 0 < desc_idx / cdma_max_coalesce = omega (arith, big) in
        rw q (
          returned-IsOutcome _ (
            bind-IsPart (λ p. p.0) (λ r. r) _ _
              (sg_chunks-IsPart big (desc_idx / cdma_max_coalesce) 0 0 0 t no_transfer (inl n))
              λ (r, e) u p. sg_remain-IsPart big (desc_idx % cdma_max_coalesce) next_desc r e u p))
  ]

-- The interrupt handler completes the wait, and clears the error, exactly when the status word has
-- neither the error bit nor the delay bit; in the other cases it sets the error.
pub pl_dma_irq_handler_lem :
    (status : ℕ) (t : Trace)
    → let out = pl_dma_irq_handler status t in
      ((out.completed ≡ true) ↔ ((bit_and status 0x4000 ≡ 0) × (bit_and status 0x2000 ≡ 0)))
      × (out.err ≡ not out.completed)
unfolding pl_dma_irq_handler
pl_dma_irq_handler_lem status t = ground arith
