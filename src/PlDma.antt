-- ===== src/PlDma.antt =====
-- src/drv_src/pl_fops.c as it is built with `INTR_ENABLE`: the transfers that `pl_dma_ioctl` makes
-- on the CDMA engine, and the interrupt handler. The engine sees the sequence of the register
-- writes; what it and the handler make of it is the outcome of a wait.
pub mod Cover
pub mod Outcomes
pub mod Copy
pub mod Ioctl
pub mod Lock
pub mod Dispatch
use lut_pim_driver.Prelude.{
  ℕ, zero, suc, ◌+◌, ◌-◌, ◌*◌, ◌/◌, ◌%◌, List, [], ◌∷◌, Bool, true, false, ◌==◌, ltb, if◌then◌else◌,
  u32, sub_u32, bit_or, bit_and,
}
use lut_pim_driver.Cdma.{CdmaDev}

-- The registers.
abbrev pub cdma_reg_cr : ℕ
cdma_reg_cr = 0x00

abbrev pub cdma_reg_sr : ℕ
cdma_reg_sr = 0x04

abbrev pub cdma_curdesc_pntr_l : ℕ
cdma_curdesc_pntr_l = 0x08

abbrev pub cdma_curdesc_pntr_h : ℕ
cdma_curdesc_pntr_h = 0x0C

abbrev pub cdma_taildesc_pntr_l : ℕ
cdma_taildesc_pntr_l = 0x10

abbrev pub cdma_taildesc_pntr_h : ℕ
cdma_taildesc_pntr_h = 0x14

abbrev pub cdma_reg_sa_l : ℕ
cdma_reg_sa_l = 0x18

abbrev pub cdma_reg_sa_h : ℕ
cdma_reg_sa_h = 0x1C

abbrev pub cdma_reg_da_l : ℕ
cdma_reg_da_l = 0x20

abbrev pub cdma_reg_da_h : ℕ
cdma_reg_da_h = 0x24

abbrev pub cdma_reg_bytetrans : ℕ
cdma_reg_bytetrans = 0x28

-- `CDMA_REG_CR_SG_EN`, `_ALL_IRQ_MASK`, `_DELAY_MASK`, `CDMA_REG_SR_IOCIRQ`, the bits 13 and 14.
abbrev pub cdma_reg_cr_reset : ℕ
cdma_reg_cr_reset = 0x4

abbrev pub cdma_reg_cr_sg_en : ℕ
cdma_reg_cr_sg_en = 0x8

abbrev pub cdma_reg_cr_all_irq_mask : ℕ
cdma_reg_cr_all_irq_mask = 0x5000

abbrev pub cdma_reg_cr_delay_mask : ℕ
cdma_reg_cr_delay_mask = 0

abbrev pub cdma_reg_sr_iocirq : ℕ
cdma_reg_sr_iocirq = 0x1000

abbrev pub cdma_reg_sr_dly_cnt_irq : ℕ
cdma_reg_sr_dly_cnt_irq = 0x2000

abbrev pub cdma_reg_sr_err_irq : ℕ
cdma_reg_sr_err_irq = 0x4000

abbrev pub cdma_reg_sr_all_err_mask : ℕ
cdma_reg_sr_all_err_mask = 0x670

abbrev pub cdma_reg_sr_err_recover_mask : ℕ
cdma_reg_sr_err_recover_mask = 0x990

abbrev pub cdma_max_coalesce : ℕ
cdma_max_coalesce = 0xff

abbrev pub cdma_coalesce : ℕ → ℕ
cdma_coalesce n = n * 0x10000

-- What a function returns: a count that is not negative, or a negative error.
pub data Code : Type 0 where
  success : ℕ → Code
  edma_tx : Code
  edma_intr : Code
  efault : Code

pub record Write : Type 0 where
  pub reg : ℕ
  pub value : ℕ

-- What `wait_for_completion_timeout` returns (0 at a timeout), and whether `cdma_dev->err` is
-- negative then.
pub record Outcome : Type 0 where
  pub ret : ℕ
  pub err : Bool

-- The writes so far, the latest one first.
abbrev pub Trace : Type 0
Trace = List Write

abbrev pub dma_ctrl_write : (offset value : ℕ) → Trace → Trace
dma_ctrl_write offset value t = record { reg = offset; value = u32 value } ∷ t

-- The outcome of the transfer that the writes ask for.
abbrev pub Engine : Type 0
Engine = Trace → Outcome

-- A part of a function: it goes on with a value, or returns.
pub data Tx {ℓ} (A : Type ℓ) : Type ℓ where
  next : A → Trace → Tx A
  stop : Code → Trace → Tx A

infixl 5 ◌>>=◌
abbrev pub ◌>>=◌ {ℓ κ} : {A : Type ℓ} {B : Type κ} → Tx A → (A → Trace → Tx B) → Tx B
next a t >>= f = f a t
stop c t >>= f = stop c t

abbrev pub returned {ℓ} : {A : Type ℓ} → (A → Code) → Tx A → Code × Trace
returned f (next a t) = (f a, t)
returned f (stop c t) = (c, t)

-- The wait after `init_completion`, with the two checks.
unfoldable pub wait_intr : Engine → Trace → Tx ℕ
wait_intr hw t =
    if (hw t).ret == 0
    then stop edma_tx t
    else if (hw t).err
    then stop edma_intr t
    else next (hw t).ret t

unfoldable pub dma_single_tx :
    Engine → (src_low src_high dst_low dst_high copy_len : ℕ) → Trace → Code × Trace
unfolding wait_intr
dma_single_tx hw src_low src_high dst_low dst_high copy_len t =
    returned (λ ret. success 0)
      (wait_intr hw (
        dma_ctrl_write cdma_reg_cr
          (bit_or (bit_or cdma_reg_cr_all_irq_mask cdma_reg_cr_delay_mask) (cdma_coalesce 1))
          (dma_ctrl_write cdma_reg_bytetrans copy_len (
            dma_ctrl_write cdma_reg_da_h dst_high (
              dma_ctrl_write cdma_reg_da_l dst_low (
                dma_ctrl_write cdma_reg_sa_h src_high (
                  dma_ctrl_write cdma_reg_sa_l src_low
                    (dma_ctrl_write cdma_reg_sr cdma_reg_sr_iocirq t))))))))

-- The control word of a scatter-gather transfer with `n` interrupts.
abbrev pub sg_control : ℕ → ℕ
sg_control n =
    bit_or (bit_or (bit_or cdma_reg_cr_sg_en cdma_reg_cr_all_irq_mask) cdma_reg_cr_delay_mask)
      (cdma_coalesce n)

-- The descriptors from `start_desc` to `end_desc` go to the engine.
unfoldable pub sg_submit : CdmaDev → (num_intr start_desc end_desc : ℕ) → Trace → Trace
sg_submit d num_intr start_desc end_desc t = dma_ctrl_write cdma_taildesc_pntr_h d.high_addr (
    dma_ctrl_write cdma_taildesc_pntr_l end_desc (
      dma_ctrl_write cdma_curdesc_pntr_h d.high_addr (
        dma_ctrl_write cdma_curdesc_pntr_l start_desc (
          dma_ctrl_write cdma_reg_sr cdma_reg_sr_iocirq
            (dma_ctrl_write cdma_reg_cr (sg_control num_intr) t)))))

module _ (d : CdmaDev) (hw : Engine) where
  -- The branch for fewer than 255 descriptors; it looks at the timeout only.
  unfoldable pub sg_small : (desc_idx next_desc : ℕ) → Trace → Code × Trace
  unfolding sg_submit
  sg_small desc_idx next_desc t =
      let u = sg_submit d desc_idx d.desc_mem_base (sub_u32 next_desc 0x40) t in
      if (hw u).ret == 0 then (edma_tx, u) else (success (hw u).ret, u)

  -- The loop over the chunks from `k` on, with `ret` and `end_desc` of the last one.
  unfoldable pub sg_chunks : (n k ret end_desc : ℕ) → Trace → Tx (ℕ × ℕ)
  unfolding sg_submit wait_intr
  sg_chunks zero k ret end_desc t = next (ret, end_desc) t
  sg_chunks (suc n) k ret end_desc t =
      let start_desc = u32 (d.desc_mem_base + k * cdma_max_coalesce * 0x40) in
      let tail = u32 (start_desc + (cdma_max_coalesce - 1) * 0x40) in
      wait_intr hw (sg_submit d cdma_max_coalesce start_desc tail t) >>= λ ret' u.
      sg_chunks n (k + 1) ret' tail u

  -- The descriptors that are left, if `desc_idx` is not a multiple of 255.
  unfoldable pub sg_remain : (remain_desc next_desc ret end_desc : ℕ) → Trace → Tx ℕ
  unfolding sg_submit wait_intr
  sg_remain remain_desc next_desc ret end_desc t =
      if remain_desc == 0
      then next ret t
      else wait_intr hw (sg_submit d remain_desc (u32 (end_desc + 0x40)) (sub_u32 next_desc 0x40) t)

  unfoldable pub dma_sg_tx : (desc_idx next_desc : ℕ) → Trace → Code × Trace
  unfolding sg_small sg_chunks sg_remain
  dma_sg_tx desc_idx next_desc t =
      if ltb desc_idx cdma_max_coalesce
      then sg_small desc_idx next_desc t
      else returned success (
          sg_chunks (desc_idx / cdma_max_coalesce) 0 0 0 t >>= λ (ret, end_desc) u.
          sg_remain (desc_idx % cdma_max_coalesce) next_desc ret end_desc u)

-- What the interrupt handler does: its writes, `cdma_dev->err < 0`, and whether it completes the
-- wait. The test of each error bit only prints.
pub record Handled : Type 0 where
  pub writes : Trace
  pub err : Bool
  pub completed : Bool

abbrev pub sr_all_irq : ℕ
sr_all_irq = bit_or (bit_or cdma_reg_sr_iocirq cdma_reg_sr_dly_cnt_irq) cdma_reg_sr_err_irq

unfoldable pub pl_dma_irq_handler : (status : ℕ) → Trace → Handled
pl_dma_irq_handler status t =
    if bit_and status cdma_reg_sr_err_irq == 0
    then (if bit_and status cdma_reg_sr_dly_cnt_irq == 0
        then record {
          writes = dma_ctrl_write cdma_reg_sr sr_all_irq t;
          err = false;
          completed = true;
        }
        else record {
          writes = dma_ctrl_write cdma_reg_sr sr_all_irq t;
          err = true;
          completed = false;
        })
    else record {
      writes = dma_ctrl_write cdma_reg_cr cdma_reg_cr_reset (
          dma_ctrl_write cdma_reg_sr
            (bit_and (bit_and status cdma_reg_sr_all_err_mask) cdma_reg_sr_err_recover_mask) t);
      err = true;
      completed = false;
    }
