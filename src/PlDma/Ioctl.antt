-- ===== src/PlDma/Ioctl.antt =====
-- The cases of `pl_dma_ioctl` in src/drv_src/pl_fops.c that run an operation of pim_math:
-- the operation on a copy of the caller's `ioctl_info`, then the transfers.
pub mod Laws
use lut_pim_driver.Prelude.{ℕ, Option, none, some}
use lut_pim_driver.Cdma.{CdmaDev, IoctlInfo, Regs}
use lut_pim_driver.PimMath.EleWise.{elewise}
use lut_pim_driver.PimMath.MatMul.{matmul}
use lut_pim_driver.PimMath.Decoupled.{matmul_decoupled}
use lut_pim_driver.PimMath.Gemm.{gemm}
use lut_pim_driver.PimMath.GemmBias.{gemm_bias}
use lut_pim_driver.PimMath.Activation.{activation}
use lut_pim_driver.PimMath.BiasOp.{bias_op}
use lut_pim_driver.PimMath.Lut.{lut_op}
use lut_pim_driver.PlDma.{
  Code, success, edma_tx, edma_intr, efault, Trace, Engine, dma_ctrl_write, dma_sg_tx, cdma_reg_cr,
  cdma_reg_cr_reset,
}

pub data Command : Type 0 where
  cmd_matmul : Command
  cmd_matmul_decoupled : Command
  cmd_lut_ops : Command
  cmd_gemm : Command
  cmd_gemm_bias : Command
  cmd_elewise_add : Command
  cmd_elewise_sub : Command
  cmd_elewise_mul : Command
  cmd_active_sigmoid : Command
  cmd_active_tanh : Command
  cmd_bias_add : Command
  cmd_bias_sub : Command
  cmd_bias_mul : Command

abbrev pub opcode_type : Command → ℕ
opcode_type cmd_matmul = 0x851F
opcode_type cmd_matmul_decoupled = 0x1051F
opcode_type cmd_lut_ops = 0x0000
opcode_type cmd_gemm = 0x851F
opcode_type cmd_gemm_bias = 0x851F
opcode_type cmd_elewise_add = 0x42F
opcode_type cmd_elewise_sub = 0x44F
opcode_type cmd_elewise_mul = 0x48F
opcode_type cmd_active_sigmoid = 0x150F
opcode_type cmd_active_tanh = 0xd0f
opcode_type cmd_bias_add = 0x42F
opcode_type cmd_bias_sub = 0x44F
opcode_type cmd_bias_mul = 0x48F

-- `if (dma_sg_tx(...) < 0) return -EDMA_TX`, and `SUCCESS` at the end.
abbrev pub ioctl_code : Code → Code
ioctl_code (success r) = success 0
ioctl_code edma_tx = edma_tx
ioctl_code edma_intr = edma_tx
ioctl_code efault = edma_tx

module _ (d : CdmaDev) where
  unfoldable pub operation : Command → IoctlInfo → (opcode : ℕ) → Regs → Regs × IoctlInfo
  unfolding matmul matmul_decoupled lut_op gemm gemm_bias elewise activation bias_op
  operation cmd_matmul info = matmul d info
  operation cmd_matmul_decoupled info = matmul_decoupled d info
  operation cmd_lut_ops info = lut_op d info
  operation cmd_gemm info = gemm d info
  operation cmd_gemm_bias info = gemm_bias d info
  operation cmd_elewise_add info = elewise d info
  operation cmd_elewise_sub info = elewise d info
  operation cmd_elewise_mul info = elewise d info
  operation cmd_active_sigmoid info = activation d info
  operation cmd_active_tanh info = activation d info
  operation cmd_bias_add info = bias_op d info
  operation cmd_bias_sub info = bias_op d info
  operation cmd_bias_mul info = bias_op d info

  -- The command on what `copy_from_user` gives, `none` if it fails.
  unfoldable pub pl_dma_operation :
      Engine → Command → Option IoctlInfo → Regs → Trace → Code × Regs × Trace
  unfolding operation dma_sg_tx
  pl_dma_operation hw cmd none r t = (efault, r, t)
  pl_dma_operation hw cmd (some info) r t =
      let (r', info') = operation cmd info (opcode_type cmd) r in
      let (code, u) =
        dma_sg_tx d hw info'.desc_idx info'.next_desc
          (dma_ctrl_write cdma_reg_cr cdma_reg_cr_reset t) in
      (ioctl_code code, r', u)
