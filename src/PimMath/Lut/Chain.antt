-- ===== src/PimMath/Lut/Chain.antt =====
-- The chain that `lut_op` leaves in the descriptor memory.
use lut_pim_driver.Prelude.{
  ℕ, ◌+◌, ◌*◌, ◌^◌, ◌≤◌, ◌<◌, ◌≡◌, refl, sym, ap, [], ◌∷◌, ◌++◌, arith, length, length-grid,
}
use lut_pim_driver.Cdma.{CdmaDev, IoctlInfo, Regs}
use lut_pim_driver.Cdma.Emit.{Gen, emit_all, clear_last, clear_all, start}
use lut_pim_driver.Cdma.Program.{cleared, IsProgrammed, IsProgrammed_lem}
use lut_pim_driver.PimMath.{clear_counters, rounds}
use lut_pim_driver.PimMath.Tiling.{for_u32-emit_all, for_u32-clear_all}
use lut_pim_driver.PimMath.Lut.{
  lut_op_clear, lut_op_fill, lut_op, lut_op_tile, lut_op_row, lut_op_tiles, lut_op_length,
  lut_op_opcode,
}

-- The sizes at which no loop counter wraps and the chain fits.
pub record FitsLut (info : IoctlInfo) : Type 0 where
  pub p_fits : info.p_size < 2 ^ 32
  pub q_fits : info.q_size + 512 ≤ 2 ^ 32
  pub short : lut_op_length info < 2 ^ 26

module _ (d : CdmaDev) (info : IoctlInfo) where
  lut_op_clear_lem :
      (g : Gen) → FitsLut info → lut_op_clear info g ≡ clear_last (clear_all (lut_op_length info) g)
  unfolding lut_op_clear clear_all
  lut_op_clear_lem g w = ap clear_last (
      for_u32-clear_all 1 info.p_size info.p_size (rounds info.q_size 512 * 5) _ g (omega arith)
        λ p h.
          for_u32-clear_all 512 info.q_size (rounds info.q_size 512) 5 _ h (omega arith)
            (λ q k. refl))

  lut_op_fill_lem :
      (g : Gen) → FitsLut info → lut_op_fill d info g ≡ emit_all d (lut_op_tiles d info) g
  unfolding lut_op_fill emit_all
  lut_op_fill_lem g w =
      for_u32-emit_all d 1 info.p_size info.p_size (lut_op_row d info) _ g (omega arith) λ p h.
        for_u32-emit_all d 512 info.q_size (rounds info.q_size 512) (lut_op_tile d info p) _ h
          (omega arith) (λ q k. refl)

  length-lut_op_tiles : length (lut_op_tiles d info) ≡ lut_op_length info
  length-lut_op_tiles =
      length-grid (lut_op_row d info) _ info.p_size 1 0
        λ p. length-grid (lut_op_tile d info p) 5 (rounds info.q_size 512) 512 0 (λ k. refl)

  -- For sizes that fit, `lut_op` leaves in the descriptor memory the linked chain of all its tiles
  -- (for each row and each stretch of 512 columns, five descriptors) and of the counter write,
  -- with the status words of these descriptors clear; it starts the engine with the base and the
  -- size of the chain, and reports its length and its end to the caller.
  pub lut_op-IsProgrammed :
      (opcode : ℕ) (r : Regs)
      → FitsLut info
      → IsProgrammed d
          (lut_op_tiles d info ++ clear_counters d (lut_op_opcode info opcode) d.high_addr ∷ [])
          (lut_op d info opcode r)
  unfolding lut_op
  lut_op-IsProgrammed opcode r w =
      rw (lut_op_clear_lem (start d r) w, lut_op_fill_lem (cleared d r (lut_op_length info)) w)
        (IsProgrammed_lem d r info _ (lut_op_tiles d info) _ (sym length-lut_op_tiles)
          (omega (arith, length-lut_op_tiles)))
