-- ===== src/PimMath/Lut.antt =====
-- src/drv_src/pim_math/lut.c, `lut_op`: C = table[A] over `p_size` rows of `q_size` elements in
-- tiles of 512, the table of `srcB_size / 2` entries of two bytes loaded anew for each tile.
pub mod Chain
use lut_pim_driver.Prelude.{
  ℕ, ◌+◌, ◌*◌, ◌/◌, ◌-◌, u32, u64, for_u32, List, [], ◌∷◌, grid, ◌==◌, if◌then◌else◌, ◌||◌,
}
use lut_pim_driver.Cdma.{CdmaDev, IoctlInfo, Regs, bus_addr, vacc_size, num_banks, type_size}
use lut_pim_driver.Cdma.Emit.{Fields, Gen, emit, emit_last, clear, clear_last, start}
use lut_pim_driver.Cdma.Program.{finish}
use lut_pim_driver.PimMath.{read_operand, write_result, clear_counters, rounds}

-- The operation codes that the loop assigns to `opcode`.
abbrev pub opcode_load : ℕ
opcode_load = 0x22F

abbrev pub opcode_table : ℕ
opcode_table = 0x11040F

unfoldable pub lut_op_clear : IoctlInfo → Gen → Gen
lut_op_clear info g = clear_last (
    for_u32 1 info.p_size
      (λ p.
        for_u32 (vacc_size * num_banks) info.q_size
          (λ q h. clear (clear (clear (clear (clear h))))))
      g)

-- `opcode` behind the loops: the argument, if no tile was visited.
abbrev pub lut_op_opcode : IoctlInfo → ℕ → ℕ
lut_op_opcode info opcode =
    if (info.p_size == 0) || (info.q_size == 0) then opcode else opcode_table

module _ (d : CdmaDev) (info : IoctlInfo) where
  abbrev pub lut_op_offset : (p q : ℕ) → ℕ
  lut_op_offset p q = u32 (u32 (p * info.q_size) * type_size + q * type_size)

  unfoldable pub lut_op_a : (p q : ℕ) → Fields
  unfolding read_operand
  lut_op_a p q =
      read_operand d 0x2 opcode_load (bus_addr d (u64 (info.src_a_va + lut_op_offset p q)))
        (vacc_size * num_banks * type_size)

  unfoldable pub lut_op_b : Fields
  unfolding read_operand
  lut_op_b =
      read_operand d 0x4 opcode_table (bus_addr d info.src_b_va) (info.src_b_size / 2 * type_size)

  unfoldable pub lut_op_barrier : Fields
  unfolding clear_counters
  lut_op_barrier = clear_counters d opcode_table d.high_addr

  unfoldable pub lut_op_c : (p q : ℕ) → Fields
  unfolding write_result
  lut_op_c p q =
      write_result d opcode_table (bus_addr d (u64 (info.dst_c_va + lut_op_offset p q)))
        (vacc_size * num_banks * type_size)

  unfoldable pub lut_op_fill : Gen → Gen
  lut_op_fill = for_u32 1 info.p_size (λ p. for_u32 (vacc_size * num_banks) info.q_size (λ q h.
      emit d lut_op_barrier (
        emit d (lut_op_c p q) (emit d lut_op_barrier (emit d lut_op_b (emit d (lut_op_a p q) h))))))

  unfoldable pub lut_op : (opcode : ℕ) → Regs → Regs × IoctlInfo
  unfolding lut_op_clear lut_op_fill
  lut_op opcode r = finish d info r (
      emit_last d (clear_counters d (lut_op_opcode info opcode) d.high_addr)
        (lut_op_fill (lut_op_clear info (start d r))))

  abbrev pub lut_op_tile : (p q : ℕ) → List Fields
  lut_op_tile p q = lut_op_a p q ∷ lut_op_b ∷ lut_op_barrier ∷ lut_op_c p q ∷ lut_op_barrier ∷ []

  abbrev pub lut_op_row : (p : ℕ) → List Fields
  lut_op_row p = grid (rounds info.q_size 512) 512 0 (lut_op_tile p)

  abbrev pub lut_op_tiles : List Fields
  lut_op_tiles = grid info.p_size 1 0 lut_op_row

abbrev pub lut_op_length : IoctlInfo → ℕ
lut_op_length info = info.p_size * (rounds info.q_size 512 * 5)
