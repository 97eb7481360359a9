-- ===== src/PimMath/EleWise/Chain.antt =====
-- The chain that `elewise` leaves in the descriptor memory.
use lut_pim_driver.Prelude.{
  ℕ, ◌+◌, ◌*◌, ◌^◌, ◌≤◌, ◌<◌, ◌≡◌, refl, sym, ap, [], ◌∷◌, ◌++◌, arith, length, length-grid,
}
use lut_pim_driver.Cdma.{CdmaDev, IoctlInfo, Regs}
use lut_pim_driver.Cdma.Emit.{Gen, emit_all, clear_last, clear_all, start}
use lut_pim_driver.Cdma.Program.{cleared, IsProgrammed, IsProgrammed_lem}
use lut_pim_driver.PimMath.{clear_counters, rounds}
use lut_pim_driver.PimMath.Tiling.{for_u32-emit_all, for_u32-clear_all}
use lut_pim_driver.PimMath.EleWise.{
  elewise_clear, elewise_fill, elewise, elewise_tile, elewise_row, elewise_tiles, elewise_length,
}

-- The sizes at which no loop counter wraps and the chain fits.
pub record FitsEleWise (info : IoctlInfo) : Type 0 where
  pub p_fits : info.p_size < 2 ^ 32
  pub r_fits : info.r_size + 512 ≤ 2 ^ 32
  pub short : elewise_length info < 2 ^ 26

module _ (d : CdmaDev) (info : IoctlInfo) (opcode : ℕ) where
  elewise_clear_lem :
      (g : Gen)
      → FitsEleWise info
      → elewise_clear info g ≡ clear_last (clear_all (elewise_length info) g)
  unfolding elewise_clear clear_all
  elewise_clear_lem g w = ap clear_last (
      for_u32-clear_all 1 info.p_size info.p_size (rounds info.r_size 512 * 3) _ g (omega arith)
        λ p h.
          for_u32-clear_all 512 info.r_size (rounds info.r_size 512) 3 _ h (omega arith)
            (λ r k. refl))

  elewise_fill_lem :
      (g : Gen)
      → FitsEleWise info
      → elewise_fill d info opcode g ≡ emit_all d (elewise_tiles d info opcode) g
  unfolding elewise_fill emit_all
  elewise_fill_lem g w =
      for_u32-emit_all d 1 info.p_size info.p_size (elewise_row d info opcode) _ g (omega arith)
        λ p h.
          for_u32-emit_all d 512 info.r_size (rounds info.r_size 512) (elewise_tile d info opcode p)
            _ h (omega arith) (λ r k. refl)

  length-elewise_tiles : length (elewise_tiles d info opcode) ≡ elewise_length info
  length-elewise_tiles =
      length-grid (elewise_row d info opcode) _ info.p_size 1 0
        λ p. length-grid (elewise_tile d info opcode p) 3 (rounds info.r_size 512) 512 0 (λ k. refl)

  -- For sizes that fit, `elewise` leaves in the descriptor memory the linked chain of all its
  -- tiles (for each row and each stretch of 512 columns: read A, read B, write C) and of the
  -- counter write, with the status words of these descriptors clear; it starts the engine with the
  -- base and the size of the chain, and reports its length and its end to the caller.
  pub elewise-IsProgrammed :
      (r : Regs)
      → FitsEleWise info
      → IsProgrammed d
          (elewise_tiles d info opcode ++ clear_counters d opcode d.high_addr ∷ [])
          (elewise d info opcode r)
  unfolding elewise
  elewise-IsProgrammed r w =
      rw (elewise_clear_lem (start d r) w, elewise_fill_lem (cleared d r (elewise_length info)) w)
        (IsProgrammed_lem d r info _ (elewise_tiles d info opcode) _ (sym length-elewise_tiles)
          (omega (arith, length-elewise_tiles)))
