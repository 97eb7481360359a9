-- ===== src/PimMath/Activation/Chain.antt =====
-- The chain that `activation` leaves in the descriptor memory, and the status word that it does
-- not clear.
use lut_pim_driver.Prelude.{
  ℕ, ◌+◌, ◌*◌, ◌^◌, ◌≤◌, ◌<◌, ◌≡◌, refl, ap, ◌∙◌, List, [], ◌∷◌, ◌++◌, arith, grid, length,
  length-grid, replicate,
}
use lut_pim_driver.Cdma.{CdmaDev, IoctlInfo, Regs, dma_desc_read, dma_desc_write, cdma_desc_status}
use lut_pim_driver.Cdma.Emit.{
  Fields, Gen, emit_last, emit_all, clear_here, clear_last, clear_all, start,
}
use lut_pim_driver.Cdma.Read.{descriptors, statuses, chain, statuses_zero, read-write_ne}
use lut_pim_driver.Cdma.Program.{
  finish, cleared, IsStarted, IsReported, IsStarted_lem, descriptors-cleared, status-cleared,
  status-not_cleared,
}
use lut_pim_driver.PimMath.{clear_counters, rounds}
use lut_pim_driver.PimMath.Tiling.{for_u32-emit_all, for_u32-clear_all}
use lut_pim_driver.PimMath.Activation.{
  activation_clear, activation_b, activation_c, activation_fill, activation, activation_row,
  activation_tiles, activation_length,
}

-- The sizes at which no loop counter wraps and the chain fits.
pub record FitsActivation (info : IoctlInfo) : Type 0 where
  pub p_fits : info.p_size < 2 ^ 32
  pub r_fits : info.r_size + 512 ≤ 2 ^ 32
  pub short : activation_length info + 1 < 2 ^ 26

-- The descriptor memory once the first status word is written.
first_cleared : Regs → Regs
first_cleared r = record r { dma_desc = dma_desc_write 0 cdma_desc_status 0 r.dma_desc }

activation_clear_lem :
    (d : CdmaDev) (info : IoctlInfo) (r : Regs)
    → FitsActivation info
    → activation_clear info (start d r) ≡ cleared d (first_cleared r) (activation_length info)
unfolding activation_clear clear_all clear_here start first_cleared
activation_clear_lem d info r w = ap clear_last (
    for_u32-clear_all 1 info.p_size info.p_size (rounds info.r_size 512 * 2) _ _ (omega arith)
      λ p h.
        for_u32-clear_all 512 info.r_size (rounds info.r_size 512) 2 _ h (omega arith)
          (λ i l. refl))

module _ (d : CdmaDev) (info : IoctlInfo) (opcode : ℕ) where
  activation_fill_lem :
      (g : Gen)
      → FitsActivation info
      → activation_fill d info opcode g ≡ emit_all d (activation_tiles d info opcode) g
  unfolding activation_fill emit_all
  activation_fill_lem g w =
      for_u32-emit_all d 1 info.p_size info.p_size (activation_row d info opcode) _ _ (omega arith)
        λ p h.
          for_u32-emit_all d 512 info.r_size (rounds info.r_size 512)
            (λ r. activation_b d info opcode p r ∷ activation_c d info opcode p r ∷ []) _ h
            (omega arith) (λ r k. refl)

  length-activation_tiles : length (activation_tiles d info opcode) ≡ activation_length info + 1
  length-activation_tiles =
      let e : length (grid info.p_size 1 0 (activation_row d info opcode))
          ≡ activation_length info =
        length-grid (activation_row d info opcode) _ info.p_size 1 0 λ p.
          length-grid (λ r. activation_b d info opcode p r ∷ activation_c d info opcode p r ∷ []) 2
            (rounds info.r_size 512) 512 0 (λ k. refl) in
      omega arith

  -- What `activation` leaves behind.
  module _ (r : Regs) (w : FitsActivation info) where
    abbrev program : List Fields
    program = activation_tiles d info opcode ++ clear_counters d opcode 0 ∷ []

    activation_lem :
        activation d info opcode r
        ≡ finish d info (first_cleared r) (
            emit_last d (clear_counters d opcode 0) (
              emit_all d
                (activation_tiles d info opcode)
                (cleared d (first_cleared r) (activation_length info))))
    unfolding activation finish first_cleared
    activation_lem = rw (activation_clear_lem d info r w, activation_fill_lem _ w) refl

    -- For sizes that fit, `activation` leaves in the descriptor memory the linked chain of its
    -- tiles and of the counter write, starts the engine with the base and the size of the chain,
    -- and reports its length and its end to the caller.
    pub activation-IsChained :
        (descriptors (activation d info opcode r).0.dma_desc 0 (length program)
          ≡ chain d.high_addr (d.desc_mem_base + 0x40) program)
        × IsStarted d program (activation d info opcode r).0.config_reg
        × IsReported d program (activation d info opcode r).1
    unfolding finish
    activation-IsChained =
        let fs = activation_tiles d info opcode in
        let last = clear_counters d opcode 0 in
        let n = activation_length info in
        let h : length fs < 2 ^ 26 = omega (arith, length-activation_tiles) in
        let s = IsStarted_lem d (first_cleared r) info n fs last h in
        rw activation_lem
          (descriptors-cleared d (first_cleared r) n fs last (omega arith), s.0, s.1)

    -- For sizes that fit, the status words of all descriptors of `activation` but the last one are
    -- clear afterwards, and that of the last one is what it was before.
    pub status-activation :
        (statuses (activation d info opcode r).0.dma_desc 0 (activation_length info + 1)
          ≡ replicate (activation_length info + 1) 0)
        × (dma_desc_read
              (activation_length info + 1)
              cdma_desc_status
              (activation d info opcode r).0.dma_desc
            ≡ dma_desc_read (activation_length info + 1) cdma_desc_status r.dma_desc)
    unfolding finish first_cleared
    status-activation =
        let fs = activation_tiles d info opcode in
        let last = clear_counters d opcode 0 in
        let n = activation_length info in
        let e : length fs ≡ n + 1 = length-activation_tiles in
        rw activation_lem (
          statuses_zero _ 0 (n + 1) (λ j lo hi.
              status-cleared d (first_cleared r) fs last n j (omega arith) (omega arith)
                (omega arith)),
          status-not_cleared d (first_cleared r) fs last n (n + 1) (omega arith) (omega arith)
                (omega arith)
              ∙ read-write_ne 0 (n + 1) cdma_desc_status 0 r.dma_desc (omega arith) (omega arith)
                  (omega arith),
        )
