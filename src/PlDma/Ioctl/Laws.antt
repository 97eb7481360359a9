-- ===== src/PlDma/Ioctl/Laws.antt =====
-- A command writes its chain of descriptors, and the transfers cover that chain.
use lut_pim_driver.Prelude.{
  ℕ, ◌+◌, ◌-◌, ◌*◌, ◌%◌, ◌^◌, ◌≤◌, ◌<◌, ◌≡◌, ◌≢◌, ◌⊎◌, inl, inr, ap, List, [], ◌∷◌, ◌++◌, none,
  some, arith, length,
}
use lut_pim_driver.Cdma.{CdmaDev, IoctlInfo, Regs}
use lut_pim_driver.Cdma.Emit.{Fields}
use lut_pim_driver.Cdma.Read.{descriptors, chain}
use lut_pim_driver.Cdma.Program.{IsReported, IsProgrammed}
use lut_pim_driver.PimMath.{clear_counters}
use lut_pim_driver.PimMath.EleWise.{elewise_tiles}
use lut_pim_driver.PimMath.EleWise.Chain.{FitsEleWise, elewise-IsProgrammed}
use lut_pim_driver.PimMath.MatMul.{matmul_cells, matmul_length}
use lut_pim_driver.PimMath.MatMul.Chain.{FitsMatMul, matmul-IsProgrammed}
use lut_pim_driver.PimMath.Decoupled.{decoupled_opcode}
use lut_pim_driver.PimMath.Decoupled.Rows.{FitsDecoupled, decoupled_cells}
use lut_pim_driver.PimMath.Decoupled.Chain.{
  decoupled_length, decoupled_last, matmul_decoupled-IsProgrammed,
}
use lut_pim_driver.PimMath.Gemm.{gemm_program, opcode_ele_add}
use lut_pim_driver.PimMath.Gemm.Chain.{FitsGemm, gemm-IsProgrammed}
use lut_pim_driver.PimMath.GemmBias.{gemm_bias_program}
use lut_pim_driver.PimMath.Activation.{activation_tiles}
use lut_pim_driver.PimMath.Activation.Chain.{FitsActivation, activation-IsChained}
use lut_pim_driver.PimMath.BiasOp.{bias_op_tiles}
use lut_pim_driver.PimMath.BiasOp.Chain.{FitsBiasOp, bias_op-IsProgrammed}
use lut_pim_driver.PimMath.Lut.{lut_op_tiles, lut_op_opcode}
use lut_pim_driver.PimMath.Lut.Chain.{FitsLut, lut_op-IsProgrammed}
use lut_pim_driver.PlDma.{
  success, Trace, Engine, dma_sg_tx, dma_ctrl_write, cdma_reg_cr, cdma_reg_cr_reset,
}
use lut_pim_driver.PlDma.Cover.{sg_runs, IsCover, Completes, dma_sg_tx-IsCover}
use lut_pim_driver.PlDma.Ioctl.{
  Command, cmd_matmul, cmd_matmul_decoupled, cmd_lut_ops, cmd_gemm, cmd_gemm_bias, cmd_elewise_add,
  cmd_elewise_sub, cmd_elewise_mul, cmd_active_sigmoid, cmd_active_tanh, cmd_bias_add, cmd_bias_sub,
  cmd_bias_mul, opcode_type, operation, ioctl_code, pl_dma_operation,
}

-- The sizes fit, and the operation reports its chain, which `gemm_bias` does not.
abbrev pub Reports : Command → IoctlInfo → Type 0
Reports cmd_matmul info = FitsMatMul info × (matmul_length info < 2 ^ 26)
Reports cmd_matmul_decoupled info = FitsDecoupled info × (decoupled_length info < 2 ^ 26)
Reports cmd_lut_ops info = FitsLut info
Reports cmd_gemm info = FitsGemm info
Reports cmd_gemm_bias info = ⊥
Reports cmd_elewise_add info = FitsEleWise info
Reports cmd_elewise_sub info = FitsEleWise info
Reports cmd_elewise_mul info = FitsEleWise info
Reports cmd_active_sigmoid info = FitsActivation info
Reports cmd_active_tanh info = FitsActivation info
Reports cmd_bias_add info = FitsBiasOp info
Reports cmd_bias_sub info = FitsBiasOp info
Reports cmd_bias_mul info = FitsBiasOp info

module _ (d : CdmaDev) where
  -- The chain that a command describes.
  abbrev chain_of : Command → IoctlInfo → (opcode : ℕ) → List Fields
  chain_of cmd_matmul info o = matmul_cells d info o ++ clear_counters d o 0x0 ∷ []
  chain_of cmd_matmul_decoupled info o =
      decoupled_cells d info (decoupled_opcode info o)
      ++ decoupled_last d info (decoupled_opcode info o) ∷ []
  chain_of cmd_lut_ops info o =
      lut_op_tiles d info ++ clear_counters d (lut_op_opcode info o) d.high_addr ∷ []
  chain_of cmd_gemm info o =
      gemm_program d info o ++ clear_counters d opcode_ele_add d.high_addr ∷ []
  chain_of cmd_gemm_bias info o =
      gemm_bias_program d info o ++ clear_counters d opcode_ele_add 0x0 ∷ []
  chain_of cmd_elewise_add info o = elewise_tiles d info o ++ clear_counters d o d.high_addr ∷ []
  chain_of cmd_elewise_sub info o = elewise_tiles d info o ++ clear_counters d o d.high_addr ∷ []
  chain_of cmd_elewise_mul info o = elewise_tiles d info o ++ clear_counters d o d.high_addr ∷ []
  chain_of cmd_active_sigmoid info o = activation_tiles d info o ++ clear_counters d o 0 ∷ []
  chain_of cmd_active_tanh info o = activation_tiles d info o ++ clear_counters d o 0 ∷ []
  chain_of cmd_bias_add info o = bias_op_tiles d info o ++ clear_counters d o d.high_addr ∷ []
  chain_of cmd_bias_sub info o = bias_op_tiles d info o ++ clear_counters d o d.high_addr ∷ []
  chain_of cmd_bias_mul info o = bias_op_tiles d info o ++ clear_counters d o d.high_addr ∷ []

  abbrev pub program : Command → IoctlInfo → List Fields
  program cmd info = chain_of cmd info (opcode_type cmd)

  -- The chain is in the memory, and its end is reported.
  abbrev IsWritten : List Fields → Regs × IoctlInfo → Type 0
  IsWritten fs out =
      (descriptors out.0.dma_desc 0 (length fs) ≡ chain d.high_addr (d.desc_mem_base + 0x40) fs)
      × IsReported d fs out.1

  IsProgrammed-IsWritten :
      (fs : List Fields) (out : Regs × IoctlInfo) → IsProgrammed d fs out → IsWritten fs out
  IsProgrammed-IsWritten fs out w = (w.chained.descs, w.reported)

  operation-IsWritten :
      (cmd : Command) (info : IoctlInfo) (o : ℕ) (r : Regs)
      → Reports cmd info
      → IsWritten (chain_of cmd info o) (operation d cmd info o r)
  unfolding operation
  operation-IsWritten cmd_matmul info o r w =
      IsProgrammed-IsWritten _ _ (matmul-IsProgrammed d info o r w.0 w.1)
  operation-IsWritten cmd_matmul_decoupled info o r w =
      IsProgrammed-IsWritten _ _ (matmul_decoupled-IsProgrammed d info o r w.0 w.1)
  operation-IsWritten cmd_lut_ops info o r w =
      IsProgrammed-IsWritten _ _ (lut_op-IsProgrammed d info o r w)
  operation-IsWritten cmd_gemm info o r w =
      IsProgrammed-IsWritten _ _ (gemm-IsProgrammed d info o r w)
  operation-IsWritten cmd_gemm_bias info o r w = absurd w
  operation-IsWritten cmd_elewise_add info o r w =
      IsProgrammed-IsWritten _ _ (elewise-IsProgrammed d info o r w)
  operation-IsWritten cmd_elewise_sub info o r w =
      IsProgrammed-IsWritten _ _ (elewise-IsProgrammed d info o r w)
  operation-IsWritten cmd_elewise_mul info o r w =
      IsProgrammed-IsWritten _ _ (elewise-IsProgrammed d info o r w)
  operation-IsWritten cmd_active_sigmoid info o r w =
      let p = activation-IsChained d info o r w in (p.0, p.2)
  operation-IsWritten cmd_active_tanh info o r w =
      let p = activation-IsChained d info o r w in (p.0, p.2)
  operation-IsWritten cmd_bias_add info o r w =
      IsProgrammed-IsWritten _ _ (bias_op-IsProgrammed d info o r w)
  operation-IsWritten cmd_bias_sub info o r w =
      IsProgrammed-IsWritten _ _ (bias_op-IsProgrammed d info o r w)
  operation-IsWritten cmd_bias_mul info o r w =
      IsProgrammed-IsWritten _ _ (bias_op-IsProgrammed d info o r w)

  -- The transfers of what is reported, after the reset.
  dma_sg_tx-reported :
      (hw : Engine) (fs : List Fields) (info : IoctlInfo) (t : Trace)
      → Completes hw
      → IsReported d fs info
      → sg_runs none t ≡ []
      → d.desc_mem_base + 0x40 * length fs < 2 ^ 32
      → (length fs ≤ 255) ⊎ ((length fs - 1) % 255 ≢ 0)
      → let out =
          dma_sg_tx d hw info.desc_idx info.next_desc
            (dma_ctrl_write cdma_reg_cr cdma_reg_cr_reset t) in
        (ioctl_code out.0 ≡ success 0)
        × IsCover d.desc_mem_base (d.desc_mem_base + 0x40 * length fs) (sg_runs none out.1)
  unfolding sg_runs
  dma_sg_tx-reported hw fs info t ok w fresh fits side =
      let last : info.desc_idx ≡ length fs - 1 = omega (arith, w.count) in
      let near : (info.desc_idx < 255) ⊎ (info.desc_idx % 255 ≢ 0) = elim side [
        | inl p ↦ inl (omega (arith, w.count))
        | inr p ↦ inr (rw last p)
      ] in
      let ((r, pos, e), c) =
        dma_sg_tx-IsCover d hw ok fs info w (dma_ctrl_write cdma_reg_cr cdma_reg_cr_reset t) fresh
          fits near in
      (ap ioctl_code e, c)

  -- From a state without transfers, a command whose operation reports its chain, with sizes that
  -- fit, on an engine that completes each transfer, where the addresses of the chain do not wrap
  -- and the number of its descriptors before the last one is no positive multiple of 255: the
  -- result is `SUCCESS`, the descriptor memory holds the chain of the command, and the transfers
  -- cover exactly the descriptors of that chain, without a gap.
  pub pl_dma_operation-IsSent :
      (hw : Engine) (cmd : Command) (info : IoctlInfo) (r : Regs) (t : Trace)
      → Completes hw
      → Reports cmd info
      → sg_runs none t ≡ []
      → d.desc_mem_base + 0x40 * length (program cmd info) < 2 ^ 32
      → (length (program cmd info) ≤ 255) ⊎ ((length (program cmd info) - 1) % 255 ≢ 0)
      → let out = pl_dma_operation d hw cmd (some info) r t in
        let fs = program cmd info in
        (out.0 ≡ success 0)
        × (descriptors out.1.dma_desc 0 (length fs) ≡ chain d.high_addr (d.desc_mem_base + 0x40) fs)
        × IsCover d.desc_mem_base (d.desc_mem_base + 0x40 * length fs) (sg_runs none out.2)
  unfolding pl_dma_operation
  pl_dma_operation-IsSent hw cmd info r t ok w fresh fits side =
      let o = opcode_type cmd in
      let (descs, reported) = operation-IsWritten cmd info o r w in
      let (code, cover) =
        dma_sg_tx-reported hw (chain_of cmd info o) (operation d cmd info o r).1 t ok reported fresh
          fits side in
      (code, descs, cover)
