-- ===== src/Tests/Math.antt =====
-- The operations of src/drv_src/pim_math on small operands.
use lut_pim_driver.Prelude.{◌^◌, ◌≤◌, ◌<◌, ◌⊎◌, ◌+◌, ◌≡◌, [], ◌∷◌, ◌++◌, arith, length, replicate}
use lut_pim_driver.Cdma.{CdmaDev, IoctlInfo, Regs, dma_desc_read, cdma_desc_status}
use lut_pim_driver.Cdma.Read.{descriptors, statuses, chain}
use lut_pim_driver.Cdma.Program.{IsChained, IsStarted, IsReported, IsProgrammed}
use lut_pim_driver.PimMath.{clear_counters}
use lut_pim_driver.Cdma.Emit.{Gen, start}
use lut_pim_driver.PimMath.EleWise.Ends.{ClearRuns, FillRuns, elewise_ends}
use lut_pim_driver.PimMath.EleWise.{elewise_clear, elewise_fill, elewise, elewise_tiles}
use lut_pim_driver.PimMath.EleWise.Chain.{elewise-IsProgrammed}
use lut_pim_driver.PimMath.MatMul.{matmul, matmul_cells}
use lut_pim_driver.PimMath.MatMul.Chain.{FitsMatMul, matmul-IsProgrammed}
use lut_pim_driver.PimMath.Gemm.{gemm, gemm_program, opcode_ele_add}
use lut_pim_driver.PimMath.Gemm.Chain.{gemm-IsProgrammed}
use lut_pim_driver.PimMath.GemmBias.{gemm_bias, gemm_bias_program}
use lut_pim_driver.PimMath.GemmBias.Chain.{gemm_bias-IsChained}
use lut_pim_driver.PimMath.Activation.{activation, activation_tiles, activation_length}
use lut_pim_driver.PimMath.Activation.Chain.{activation-IsChained, status-activation}
use lut_pim_driver.PimMath.BiasOp.{bias_op, bias_op_tiles}
use lut_pim_driver.PimMath.BiasOp.Chain.{bias_op-IsProgrammed}
use lut_pim_driver.PimMath.Lut.{lut_op, lut_op_tiles, lut_op_opcode}
use lut_pim_driver.PimMath.Lut.Chain.{lut_op-IsProgrammed}

abbrev pub device : CdmaDev
device = record {
  high_addr = 4;
  desc_mem_base = 0x800000;
  conf_mem_base = 0x400000;
  dram_base = 0;
  pa_offset = 0x1000;
  va_to_pa = λ va. va + 0x1000;
}

-- Two rows, an inner dimension of 64, and 1024 columns.
abbrev pub operands : IoctlInfo
operands = record {
  src_a_ptr = 0;
  dst_c_ptr = 0;
  src_a_va = 0x10000;
  src_b_va = 0x20000;
  bias_va = 0x30000;
  dst_c_va = 0x40000;
  src_a_size = 64;
  src_b_size = 64;
  p_size = 2;
  q_size = 64;
  r_size = 1024;
  desc_idx = 0;
  next_desc = 0;
  length = 0;
}

-- Every word holds 7.
abbrev pub before : Regs
before = record { dma_desc = λ a. 7; config_reg = λ a. 7 }

fits : FitsMatMul operands
fits = record { p_fits = omega arith; q_fits = omega arith }

elewise-IsProgrammed_example :
    IsProgrammed device
      (elewise_tiles device operands 0x42F ++ clear_counters device 0x42F 4 ∷ [])
      (elewise device operands 0x42F before)
elewise-IsProgrammed_example =
    elewise-IsProgrammed device operands 0x42F before
      (record { p_fits = omega arith; r_fits = omega arith; short = omega arith })

matmul-IsProgrammed_example :
    IsProgrammed device
      (matmul_cells device operands 0x851F ++ clear_counters device 0x851F 0x0 ∷ [])
      (matmul device operands 0x851F before)
matmul-IsProgrammed_example = matmul-IsProgrammed device operands 0x851F before fits (omega arith)

gemm-IsProgrammed_example :
    IsProgrammed device
      (gemm_program device operands 0x851F ++ clear_counters device opcode_ele_add 4 ∷ [])
      (gemm device operands 0x851F before)
gemm-IsProgrammed_example =
    gemm-IsProgrammed device operands 0x851F before
      (record { product = fits; r_fits = omega arith; short = omega arith })

gemm_bias-IsChained_example :
    IsChained device
      (gemm_bias_program device operands 0x851F ++ clear_counters device opcode_ele_add 0x0 ∷ [])
      (gemm_bias device operands 0x851F before).0.dma_desc
    × IsStarted device
        (gemm_bias_program device operands 0x851F ++ clear_counters device opcode_ele_add 0x0 ∷ [])
        (gemm_bias device operands 0x851F before).0.config_reg
    × ((gemm_bias device operands 0x851F before).1 ≡ operands)
gemm_bias-IsChained_example =
    gemm_bias-IsChained device operands 0x851F before
      (record { product = fits; q_pos = omega arith; r_fits = omega arith; short = omega arith })

activation-IsChained_example :
    (descriptors
        (activation device operands 0x150F before).0.dma_desc
        0
        (length (activation_tiles device operands 0x150F ++ clear_counters device 0x150F 0 ∷ []))
      ≡ chain 4 0x800040
          (activation_tiles device operands 0x150F ++ clear_counters device 0x150F 0 ∷ []))
    × IsStarted device
        (activation_tiles device operands 0x150F ++ clear_counters device 0x150F 0 ∷ [])
        (activation device operands 0x150F before).0.config_reg
    × IsReported device
        (activation_tiles device operands 0x150F ++ clear_counters device 0x150F 0 ∷ [])
        (activation device operands 0x150F before).1
activation-IsChained_example =
    activation-IsChained device operands 0x150F before
      (record { p_fits = omega arith; r_fits = omega arith; short = omega arith })

status-activation_example :
    (statuses
        (activation device operands 0x150F before).0.dma_desc
        0
        (activation_length operands + 1)
      ≡ replicate (activation_length operands + 1) 0)
    × (dma_desc_read
          (activation_length operands + 1)
          cdma_desc_status
          (activation device operands 0x150F before).0.dma_desc
        ≡ dma_desc_read (activation_length operands + 1) cdma_desc_status before.dma_desc)
status-activation_example =
    status-activation device operands 0x150F before
      (record { p_fits = omega arith; r_fits = omega arith; short = omega arith })

bias_op-IsProgrammed_example :
    IsProgrammed device
      (bias_op_tiles device operands 0x44F ++ clear_counters device 0x44F 4 ∷ [])
      (bias_op device operands 0x44F before)
bias_op-IsProgrammed_example =
    bias_op-IsProgrammed device operands 0x44F before
      (record { q_fits = omega arith; r_fits = omega arith; short = omega arith })

lut_op-IsProgrammed_example :
    IsProgrammed device
      (lut_op_tiles device operands ++ clear_counters device (lut_op_opcode operands 0x0) 4 ∷ [])
      (lut_op device operands 0x0 before)
lut_op-IsProgrammed_example =
    lut_op-IsProgrammed device operands 0x0 before
      (record { p_fits = omega arith; q_fits = omega arith; short = omega arith })

-- `r_size` is the bit pattern of -1.
abbrev endless : IoctlInfo
endless = record operands { r_size = 0xffffffff }

abbrev at_start : Gen
at_start = start device before

elewise_ends_example :
    (((endless.p_size ≡ 0) ⊎ (0xffffffff + 512 ≤ 2 ^ 32))
      × ClearRuns endless at_start (elewise_clear endless at_start)
      × FillRuns endless device 0x42F at_start (elewise_fill device endless 0x42F at_start))
    ⊎ ((0 < endless.p_size)
        × (2 ^ 32 < 0xffffffff + 512)
        × (¬ (ClearRuns endless at_start at_start))
        × (¬ (FillRuns endless device 0x42F at_start at_start)))
elewise_ends_example = elewise_ends endless device 0x42F at_start at_start (omega arith)
