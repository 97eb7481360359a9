-- ===== src/PimMath/Decoupled/Chain.antt =====
-- The chain that `matmul_decoupled` leaves in the descriptor memory.
use lut_pim_driver.Prelude.{
  ℕ, ◌+◌, ◌*◌, ◌^◌, ◌<◌, ◌≡◌, refl, sym, ap, ◌∙◌, [], ◌∷◌, ◌++◌, arith, grid, length, length-grid,
  length-append,
}
use lut_pim_driver.Cdma.{CdmaDev, IoctlInfo, Regs}
use lut_pim_driver.Cdma.Emit.{Fields, Gen, clear_all, clear_all-add, start}
use lut_pim_driver.Cdma.Program.{cleared, IsProgrammed, IsProgrammed_lem}
use lut_pim_driver.PimMath.{clear_counters}
use lut_pim_driver.PimMath.Tiling.{for_u32-clear_all}
use lut_pim_driver.PimMath.Decoupled.{
  decoupled_clear, decoupled_finish, decoupled_opcode, matmul_decoupled, with_config,
}
use lut_pim_driver.PimMath.Decoupled.Tile.{config_before}
use lut_pim_driver.PimMath.Decoupled.Rows.{
  FitsDecoupled, p_rounds, q_rounds, r_rounds, decoupled_pair, decoupled_cell, decoupled_row,
  decoupled_cells, decoupled_fill_lem,
}

-- The length of the chain without its last descriptor.
abbrev pub decoupled_length : IoctlInfo → ℕ
decoupled_length info = p_rounds info * (r_rounds info * (q_rounds info * 2 + 3))

decoupled_clear_lem :
    (info : IoctlInfo) (g : Gen)
    → FitsDecoupled info
    → decoupled_clear info g ≡ clear_all (decoupled_length info) g
unfolding decoupled_clear clear_all
decoupled_clear_lem info g w =
    let q = q_rounds info in
    for_u32-clear_all 32 info.p_size (p_rounds info) _ _ g (omega arith) λ p h.
      for_u32-clear_all 16 info.r_size (r_rounds info) (q * 2 + 3) _ h (omega arith) λ r k.
        ap (clear_all 3) (for_u32-clear_all 32 info.q_size q 2 _ k (omega arith) (λ i l. refl))
        ∙ sym (clear_all-add (q * 2) 3 k)

module _ (d : CdmaDev) (info : IoctlInfo) where
  length-decoupled_cells :
      (opcode : ℕ) → length (decoupled_cells d info opcode) ≡ decoupled_length info
  length-decoupled_cells opcode =
      let q = q_rounds info in
      length-grid (decoupled_row d info opcode) _ (p_rounds info) 1 0 λ i.
        length-grid (λ j. decoupled_cell d info opcode i (i * r_rounds info + j)) (q * 2 + 3)
          (r_rounds info) 1 0
          λ j.
            length-append (grid q 1 0 (decoupled_pair d info opcode i (i * r_rounds info + j))) _
            ∙ ap (λ n. n + 3)
                (length-grid (decoupled_pair d info opcode i (i * r_rounds info + j)) 2 q 1 0
                  (λ k. refl))

  abbrev pub decoupled_last : (opcode : ℕ) → Fields
  decoupled_last opcode =
      with_config (config_before info (p_rounds info)) (clear_counters d opcode 0)

  -- For sizes that fit, where no division by zero happens, `matmul_decoupled` leaves in the descriptor memory the linked chain of all
  -- its cells (for each tile of rows and each group of 16 columns: the pairs of B and A over the
  -- inner dimension, a barrier, the write of C, a barrier) and of the counter write, with the
  -- status words of these descriptors clear. Each descriptor carries the operation code and the
  -- configuration of its tile of rows: for the last tile, if it has 8, 16 or 24 rows, their number
  -- over 8, less 1; for a tile of 32 rows 0, which is the code of 8 rows. B and C
  -- advance by what was moved from cell to cell, A does so from the first row of its tile, anew for
  -- each group of columns; the places in B and A wrap at the products of the sizes, taken in 32 bits.
  -- It starts the
  -- engine with the base and the size of the chain, and reports its length and its end to the
  -- caller.
  pub matmul_decoupled-IsProgrammed :
      (opcode : ℕ) (r : Regs)
      → FitsDecoupled info
      → decoupled_length info < 2 ^ 26
      → IsProgrammed d
          (decoupled_cells d info (decoupled_opcode info opcode)
            ++ decoupled_last (decoupled_opcode info opcode) ∷ [])
          (matmul_decoupled d info opcode r)
  unfolding matmul_decoupled decoupled_finish
  matmul_decoupled-IsProgrammed opcode r w h =
      let o = decoupled_opcode info opcode in
      let (g, c) = decoupled_fill_lem d info o w (cleared d r (decoupled_length info)) in
      rw (decoupled_clear_lem info (start d r) w, g, c)
        (IsProgrammed_lem d r info _ (decoupled_cells d info o) _ (sym (length-decoupled_cells o))
          (omega (arith, length-decoupled_cells o)))
