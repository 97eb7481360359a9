-- ===== src/PimMath/Gemm/Chain.antt =====
-- The chain that `gemm` leaves in the descriptor memory.
use lut_pim_driver.Prelude.{
  ℕ, ◌+◌, ◌*◌, ◌^◌, ◌≤◌, ◌<◌, ◌≡◌, refl, sym, ap, ap₂, ◌∙◌, [], ◌∷◌, ◌++◌, arith, grid, length,
  length-grid, length-append,
}
use lut_pim_driver.Cdma.{CdmaDev, IoctlInfo, Regs}
use lut_pim_driver.Cdma.Emit.{
  Gen, emit_all, emit_all-append, clear_last, clear_all, clear_all-add, start,
}
use lut_pim_driver.Cdma.Program.{cleared, IsProgrammed, IsProgrammed_lem}
use lut_pim_driver.PimMath.{clear_counters, rounds}
use lut_pim_driver.PimMath.Tiling.{for_u32-emit_all, for_u32-clear_all}
use lut_pim_driver.PimMath.MatMul.{matmul_cells, matmul_length}
use lut_pim_driver.PimMath.MatMul.Chain.{
  FitsMatMul, matmul_clear_lem, matmul_fill_lem, length-matmul_cells,
}
use lut_pim_driver.PimMath.Gemm.{
  gemm_clear, gemm_tiles, gemm_add, gemm, gemm_sum, gemm_row, gemm_program, gemm_length,
  opcode_ele_add,
}

-- The sizes at which no loop counter wraps and the chain fits.
pub record FitsGemm (info : IoctlInfo) : Type 0 where
  pub product : FitsMatMul info
  pub r_fits : info.r_size + 512 ≤ 2 ^ 32
  pub short : gemm_length info < 2 ^ 26

module _ (d : CdmaDev) (info : IoctlInfo) (opcode : ℕ) where
  gemm_clear_lem :
      (g : Gen) → FitsGemm info → gemm_clear info g ≡ clear_last (clear_all (gemm_length info) g)
  unfolding gemm_clear clear_all
  gemm_clear_lem g w = ap clear_last (
      for_u32-clear_all 1 info.p_size info.p_size (rounds info.r_size 512 * 3) _ _ (omega arith)
        (λ p h.
          for_u32-clear_all 512 info.r_size (rounds info.r_size 512) 3 _ h (omega arith)
            (λ q k. refl))
      ∙ ap (clear_all (info.p_size * (rounds info.r_size 512 * 3)))
          (matmul_clear_lem info g w.product)
      ∙ sym (clear_all-add (matmul_length info) _ g))

  gemm_fill_lem :
      (g : Gen)
      → FitsGemm info
      → gemm_add d info (gemm_tiles d info opcode g) ≡ emit_all d (gemm_program d info opcode) g
  unfolding gemm_add gemm_tiles emit_all
  gemm_fill_lem g w =
      for_u32-emit_all d 1 info.p_size info.p_size (gemm_row d info) _ _ (omega arith) (λ p h.
        for_u32-emit_all d 512 info.r_size (rounds info.r_size 512) (gemm_sum d info p) _ h
          (omega arith) (λ q k. refl))
      ∙ ap (emit_all d (grid info.p_size 1 0 (gemm_row d info)))
          (matmul_fill_lem d info opcode g w.product)
      ∙ sym (emit_all-append d (matmul_cells d info opcode) _ g)

  length-gemm_program : length (gemm_program d info opcode) ≡ gemm_length info
  length-gemm_program =
      length-append (matmul_cells d info opcode) _
      ∙ ap₂ ◌+◌ (length-matmul_cells d info opcode) (
          length-grid (gemm_row d info) _ info.p_size 1 0
            λ p. length-grid (gemm_sum d info p) 3 (rounds info.r_size 512) 512 0 (λ k. refl))

  -- For sizes that fit, `gemm` leaves in the descriptor memory one linked chain: all the cells of
  -- the product, all the tiles of the addition (read the bias, read the product, write), and the
  -- counter write, with the status words of these descriptors clear; it starts the engine with the
  -- base and the size of the chain, and reports its length and its end to the caller.
  pub gemm-IsProgrammed :
      (r : Regs)
      → FitsGemm info
      → IsProgrammed d
          (gemm_program d info opcode ++ clear_counters d opcode_ele_add d.high_addr ∷ [])
          (gemm d info opcode r)
  unfolding gemm
  gemm-IsProgrammed r w =
      rw (gemm_clear_lem (start d r) w, gemm_fill_lem (cleared d r (gemm_length info)) w)
        (IsProgrammed_lem d r info _ (gemm_program d info opcode) _ (sym length-gemm_program)
          (omega (arith, length-gemm_program)))
