-- ===== src/PimMath/BiasOp.antt =====
-- src/drv_src/pim_math/elewise.c, `bias_op`: C = bias op B, column tile by column tile over the
-- `q_size` rows. The addresses come from `va_to_pa` alone, without `pa_offset`.
pub mod Chain
use lut_pim_driver.Prelude.{
  ℕ, ◌+◌, ◌*◌, ◌/◌, ◌-◌, ◌%◌, u32, u64, for_u32, List, [], ◌∷◌, grid, ◌==◌, if◌then◌else◌,
}
use lut_pim_driver.Cdma.{CdmaDev, IoctlInfo, Regs, vacc_size, num_banks, type_size}
use lut_pim_driver.Cdma.Emit.{Fields, Gen, emit, emit_last, clear, clear_last, start}
use lut_pim_driver.Cdma.Program.{finish}
use lut_pim_driver.PimMath.{read_operand, write_result, clear_counters, align_32, rounds}

unfoldable pub bias_op_clear : IoctlInfo → Gen → Gen
bias_op_clear info g = clear_last (
    for_u32 (vacc_size * num_banks) info.r_size
      (λ r. for_u32 1 info.q_size (λ q h. clear (clear (clear h)))) g)

module _ (d : CdmaDev) (info : IoctlInfo) (opcode : ℕ) where
  abbrev pub bias_op_offset : (q r : ℕ) → ℕ
  bias_op_offset q r = u32 (u32 (q * align_32 info.r_size) * type_size + r * type_size)

  unfoldable pub bias_op_a : (r : ℕ) → Fields
  unfolding read_operand
  bias_op_a r =
      read_operand d 0x2 opcode (d.va_to_pa (u64 (info.src_a_va + r * type_size)))
        (vacc_size * num_banks * type_size)

  unfoldable pub bias_op_b : (q r : ℕ) → Fields
  unfolding read_operand
  bias_op_b q r =
      read_operand d 0x4 opcode (d.va_to_pa (u64 (info.src_b_va + bias_op_offset q r)))
        (vacc_size * num_banks * type_size)

  unfoldable pub bias_op_c : (q r : ℕ) → Fields
  unfolding write_result
  bias_op_c q r =
      write_result d opcode (d.va_to_pa (u64 (info.dst_c_va + bias_op_offset q r)))
        (vacc_size * num_banks * type_size)

  unfoldable pub bias_op_fill : Gen → Gen
  bias_op_fill = for_u32 (vacc_size * num_banks) info.r_size (λ r.
      for_u32 1 info.q_size
        (λ q h. emit d (bias_op_c q r) (emit d (bias_op_b q r) (emit d (bias_op_a r) h))))

  unfoldable pub bias_op : Regs → Regs × IoctlInfo
  unfolding bias_op_clear bias_op_fill
  bias_op r = finish d info r (
      emit_last d (clear_counters d opcode d.high_addr)
        (bias_op_fill (bias_op_clear info (start d r))))

  abbrev pub bias_op_tile : (r q : ℕ) → List Fields
  bias_op_tile r q = bias_op_a r ∷ bias_op_b q r ∷ bias_op_c q r ∷ []

  abbrev pub bias_op_column : (r : ℕ) → List Fields
  bias_op_column r = grid info.q_size 1 0 (bias_op_tile r)

  abbrev pub bias_op_tiles : List Fields
  bias_op_tiles = grid (rounds info.r_size 512) 512 0 bias_op_column

abbrev pub bias_op_length : IoctlInfo → ℕ
bias_op_length info = rounds info.r_size 512 * (info.q_size * 3)
