-- ===== src/PimMath/MatMul/Chain.antt =====
-- The chain that `matmul` leaves in the descriptor memory.
use lut_pim_driver.Prelude.{
  ℕ, ◌+◌, ◌*◌, ◌^◌, ◌≤◌, ◌<◌, ◌≡◌, refl, sym, ap, ◌∙◌, [], ◌∷◌, ◌++◌, arith, grid, length,
  length-grid, length-append,
}
use lut_pim_driver.Cdma.{CdmaDev, IoctlInfo, Regs}
use lut_pim_driver.Cdma.Emit.{Gen, emit_all, emit_all-append, clear_all, clear_all-add, start}
use lut_pim_driver.Cdma.Program.{cleared, IsProgrammed, IsProgrammed_lem}
use lut_pim_driver.PimMath.{conf_barrier, clear_counters, rounds}
use lut_pim_driver.PimMath.Tiling.{for_u32-emit_all, for_u32-clear_all}
use lut_pim_driver.PimMath.MatMul.{
  r_loop_var, matmul_clear, matmul_a, matmul_b, matmul_c, matmul_fill, matmul, matmul_cell,
  matmul_row, matmul_cells, matmul_length,
}

-- The sizes at which no loop counter wraps.
pub record FitsMatMul (info : IoctlInfo) : Type 0 where
  pub p_fits : info.p_size < 2 ^ 32
  pub q_fits : info.q_size + 32 ≤ 2 ^ 32

pub matmul_clear_lem :
    (info : IoctlInfo) (g : Gen)
    → FitsMatMul info
    → matmul_clear info g ≡ clear_all (matmul_length info) g
unfolding matmul_clear clear_all
matmul_clear_lem info g w =
    let q = rounds info.q_size 32 in
    for_u32-clear_all 1 info.p_size info.p_size _ _ g (omega arith) λ p h.
      for_u32-clear_all 1 (r_loop_var info) (r_loop_var info) (q * 2 + 3) _ h (omega arith) λ r k.
        ap (clear_all 3) (for_u32-clear_all 32 info.q_size q 2 _ k (omega arith) (λ i l. refl))
        ∙ sym (clear_all-add (q * 2) 3 k)

module _ (d : CdmaDev) (info : IoctlInfo) (opcode : ℕ) where
  pub matmul_fill_lem :
      (g : Gen)
      → FitsMatMul info
      → matmul_fill d info opcode g ≡ emit_all d (matmul_cells d info opcode) g
  unfolding matmul_fill emit_all
  matmul_fill_lem g w =
      let q = rounds info.q_size 32 in
      for_u32-emit_all d 1 info.p_size info.p_size (matmul_row d info opcode) _ g (omega arith)
        λ p h.
          for_u32-emit_all d 1 (r_loop_var info) (r_loop_var info) (matmul_cell d info opcode p) _ h
            (omega arith)
            λ r k.
              ap
                (emit_all d
                  (conf_barrier d opcode ∷ matmul_c d info opcode p r ∷ conf_barrier d opcode ∷ []))
                (for_u32-emit_all d 32 info.q_size q
                  (λ i. matmul_a d info opcode p i ∷ matmul_b d info opcode r i ∷ []) _ k
                  (omega arith) (λ i l. refl))
              ∙ sym (
                  emit_all-append d
                    (grid q 32 0
                      (λ i. matmul_a d info opcode p i ∷ matmul_b d info opcode r i ∷ []))
                    _ k)

  pub length-matmul_cells : length (matmul_cells d info opcode) ≡ matmul_length info
  length-matmul_cells =
      let q = rounds info.q_size 32 in
      length-grid (matmul_row d info opcode) _ info.p_size 1 0 λ p.
        length-grid (matmul_cell d info opcode p) (q * 2 + 3) (r_loop_var info) 1 0 λ r.
          length-append
            (grid q 32 0 (λ i. matmul_a d info opcode p i ∷ matmul_b d info opcode r i ∷ [])) _
          ∙ ap (λ n. n + 3)
              (length-grid (λ i. matmul_a d info opcode p i ∷ matmul_b d info opcode r i ∷ []) 2 q
                32 0 (λ k. refl))

  -- For sizes that fit, `matmul` leaves in the descriptor memory the linked chain of all its cells
  -- (for each row and each group of columns: the pairs of A and B over the inner dimension, a
  -- barrier, the write of C, a barrier) and of the counter write, with the status words of these
  -- descriptors clear; it starts the engine with the base and the size of the chain, and reports
  -- its length and its end to the caller.
  pub matmul-IsProgrammed :
      (r : Regs)
      → FitsMatMul info
      → matmul_length info < 2 ^ 26
      → IsProgrammed d
          (matmul_cells d info opcode ++ clear_counters d opcode 0x0 ∷ [])
          (matmul d info opcode r)
  unfolding matmul
  matmul-IsProgrammed r w h =
      rw (matmul_clear_lem info (start d r) w, matmul_fill_lem (cleared d r (matmul_length info)) w)
        (IsProgrammed_lem d r info _ (matmul_cells d info opcode) _ (sym length-matmul_cells)
          (omega (arith, length-matmul_cells)))
