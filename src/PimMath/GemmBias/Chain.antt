-- ===== src/PimMath/GemmBias/Chain.antt =====
-- The chain that `gemm_bias` leaves in the descriptor memory, and what it does not report.
use lut_pim_driver.Prelude.{
  ℕ, ◌+◌, ◌*◌, ◌^◌, ◌≤◌, ◌<◌, ◌≡◌, refl, sym, ap, ap₂, ◌∙◌, [], ◌∷◌, ◌++◌, arith, grid, length,
  length-grid, length-append,
}
use lut_pim_driver.Cdma.{CdmaDev, IoctlInfo, Regs}
use lut_pim_driver.Cdma.Emit.{
  Gen, emit_all, emit_all-append, clear_last, clear_all, clear_all-add, start,
}
use lut_pim_driver.Cdma.Program.{
  finish, cleared, IsChained, IsStarted, IsChained_lem, IsStarted_lem,
}
use lut_pim_driver.PimMath.{clear_counters, rounds}
use lut_pim_driver.PimMath.Tiling.{for_u32-emit_all, for_u32-clear_all}
use lut_pim_driver.PimMath.MatMul.{matmul_cells, matmul_length}
use lut_pim_driver.PimMath.MatMul.Chain.{
  FitsMatMul, matmul_clear_lem, matmul_fill_lem, length-matmul_cells,
}
use lut_pim_driver.PimMath.Gemm.{opcode_ele_add}
use lut_pim_driver.PimMath.GemmBias.{
  gemm_bias_clear, gemm_bias_tiles, gemm_bias_add, gemm_bias, gemm_bias_sum, gemm_bias_column,
  gemm_bias_program, gemm_bias_cleared, gemm_bias_length,
}

-- The sizes at which no loop counter wraps, the inner dimension is not empty, and the chain fits.
pub record FitsGemmBias (info : IoctlInfo) : Type 0 where
  pub product : FitsMatMul info
  pub q_pos : 0 < info.q_size
  pub r_fits : info.r_size + 512 ≤ 2 ^ 32
  pub short : gemm_bias_cleared info < 2 ^ 26

module _ (d : CdmaDev) (info : IoctlInfo) (opcode : ℕ) where
  gemm_bias_clear_lem :
      (g : Gen)
      → FitsGemmBias info
      → gemm_bias_clear info g ≡ clear_last (clear_all (gemm_bias_cleared info) g)
  unfolding gemm_bias_clear clear_all
  gemm_bias_clear_lem g w = ap clear_last (
      for_u32-clear_all 512 info.r_size (rounds info.r_size 512) (info.q_size * 3) _ _ (omega arith)
        (λ r h. for_u32-clear_all 1 info.q_size info.q_size 3 _ h (omega arith) (λ q k. refl))
      ∙ ap (clear_all (rounds info.r_size 512 * (info.q_size * 3)))
          (matmul_clear_lem info g w.product)
      ∙ sym (clear_all-add (matmul_length info) _ g))

  gemm_bias_fill_lem :
      (g : Gen)
      → FitsGemmBias info
      → gemm_bias_add d info (gemm_bias_tiles d info opcode g)
        ≡ emit_all d (gemm_bias_program d info opcode) g
  unfolding gemm_bias_add gemm_bias_tiles emit_all
  gemm_bias_fill_lem g w =
      for_u32-emit_all d 512 info.r_size (rounds info.r_size 512) (gemm_bias_column d info) _ _
        (omega arith)
        (λ r h. for_u32-emit_all d 1 1 1 (gemm_bias_sum d info r) _ h (omega arith) (λ q k. refl))
      ∙ ap (emit_all d (grid (rounds info.r_size 512) 512 0 (gemm_bias_column d info)))
          (matmul_fill_lem d info opcode g w.product)
      ∙ sym (emit_all-append d (matmul_cells d info opcode) _ g)

  length-gemm_bias_program : length (gemm_bias_program d info opcode) ≡ gemm_bias_length info
  length-gemm_bias_program =
      length-append (matmul_cells d info opcode) _
      ∙ ap₂ ◌+◌ (length-matmul_cells d info opcode) (
          length-grid (gemm_bias_column d info) _ (rounds info.r_size 512) 512 0
            λ r. length-grid (gemm_bias_sum d info r) 3 1 1 0 (λ k. refl))

  length-le-cleared : 0 < info.q_size → gemm_bias_length info ≤ gemm_bias_cleared info
  length-le-cleared h = grind arith

  -- For sizes that fit and a non-empty inner dimension, `gemm_bias` leaves in the descriptor
  -- memory one linked chain, the cells of the product, the tiles of the addition and the counter
  -- write, with the status words of these descriptors clear, and starts the engine with it, but
  -- hands the caller's `ioctl_info` back as it was, `desc_idx` and `next_desc` included.
  pub gemm_bias-IsChained :
      (r : Regs)
      → FitsGemmBias info
      → let out = gemm_bias d info opcode r in
        let program = gemm_bias_program d info opcode ++ clear_counters d opcode_ele_add 0x0 ∷ [] in
        IsChained d program out.0.dma_desc × IsStarted d program out.0.config_reg × (out.1 ≡ info)
  unfolding gemm_bias finish
  gemm_bias-IsChained r w =
      let e = length-gemm_bias_program in
      let l = length-le-cleared w.q_pos in
      rw
        (
          gemm_bias_clear_lem (start d r) w,
          gemm_bias_fill_lem (cleared d r (gemm_bias_cleared info)) w,
        )
        (
          IsChained_lem d r _ (gemm_bias_program d info opcode) _ (omega arith) (omega arith),
          (IsStarted_lem d r info _ (gemm_bias_program d info opcode) _ (omega arith)).0,
          refl,
        )
