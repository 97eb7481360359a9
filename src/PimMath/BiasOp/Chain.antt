-- ===== src/PimMath/BiasOp/Chain.antt =====
-- The chain that `bias_op` leaves in the descriptor memory.
use lut_pim_driver.Prelude.{
  ℕ, ◌+◌, ◌*◌, ◌^◌, ◌≤◌, ◌<◌, ◌≡◌, refl, sym, ap, [], ◌∷◌, ◌++◌, arith, length, length-grid,
}
use lut_pim_driver.Cdma.{CdmaDev, IoctlInfo, Regs}
use lut_pim_driver.Cdma.Emit.{Gen, emit_all, clear_last, clear_all, start}
use lut_pim_driver.Cdma.Program.{cleared, IsProgrammed, IsProgrammed_lem}
use lut_pim_driver.PimMath.{clear_counters, rounds}
use lut_pim_driver.PimMath.Tiling.{for_u32-emit_all, for_u32-clear_all}
use lut_pim_driver.PimMath.BiasOp.{
  bias_op_clear, bias_op_fill, bias_op, bias_op_tile, bias_op_column, bias_op_tiles, bias_op_length,
}

-- The sizes at which no loop counter wraps and the chain fits.
pub record FitsBiasOp (info : IoctlInfo) : Type 0 where
  pub q_fits : info.q_size < 2 ^ 32
  pub r_fits : info.r_size + 512 ≤ 2 ^ 32
  pub short : bias_op_length info < 2 ^ 26

module _ (d : CdmaDev) (info : IoctlInfo) (opcode : ℕ) where
  bias_op_clear_lem :
      (g : Gen)
      → FitsBiasOp info
      → bias_op_clear info g ≡ clear_last (clear_all (bias_op_length info) g)
  unfolding bias_op_clear clear_all
  bias_op_clear_lem g w = ap clear_last (
      for_u32-clear_all 512 info.r_size (rounds info.r_size 512) (info.q_size * 3) _ g (omega arith)
        λ r h. for_u32-clear_all 1 info.q_size info.q_size 3 _ h (omega arith) (λ q k. refl))

  bias_op_fill_lem :
      (g : Gen)
      → FitsBiasOp info
      → bias_op_fill d info opcode g ≡ emit_all d (bias_op_tiles d info opcode) g
  unfolding bias_op_fill emit_all
  bias_op_fill_lem g w =
      for_u32-emit_all d 512 info.r_size (rounds info.r_size 512) (bias_op_column d info opcode) _ g
        (omega arith)
        λ r h.
          for_u32-emit_all d 1 info.q_size info.q_size (bias_op_tile d info opcode r) _ h
            (omega arith) (λ q k. refl)

  length-bias_op_tiles : length (bias_op_tiles d info opcode) ≡ bias_op_length info
  length-bias_op_tiles =
      length-grid (bias_op_column d info opcode) _ (rounds info.r_size 512) 512 0
        λ r. length-grid (bias_op_tile d info opcode r) 3 info.q_size 1 0 (λ k. refl)

  -- For sizes that fit, `bias_op` leaves in the descriptor memory the linked chain of all its
  -- tiles (for each stretch of 512 columns and each row: read the bias, read B, write C) and of
  -- the counter write, with the status words of these descriptors clear; it starts the engine with
  -- the base and the size of the chain, and reports its length and its end to the caller.
  pub bias_op-IsProgrammed :
      (r : Regs)
      → FitsBiasOp info
      → IsProgrammed d
          (bias_op_tiles d info opcode ++ clear_counters d opcode d.high_addr ∷ [])
          (bias_op d info opcode r)
  unfolding bias_op
  bias_op-IsProgrammed r w =
      rw (bias_op_clear_lem (start d r) w, bias_op_fill_lem (cleared d r (bias_op_length info)) w)
        (IsProgrammed_lem d r info _ (bias_op_tiles d info opcode) _ (sym length-bias_op_tiles)
          (omega (arith, length-bias_op_tiles)))
