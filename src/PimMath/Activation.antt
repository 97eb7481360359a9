-- ===== src/PimMath/Activation.antt =====
-- src/drv_src/pim_math/elewise.c, `activation`: one descriptor loads the table of A, then C = f(B)
-- in tiles of 512 elements.
pub mod Chain
use lut_pim_driver.Prelude.{ℕ, ◌+◌, ◌*◌, ◌/◌, ◌-◌, u32, u64, for_u32, List, [], ◌∷◌, grid}
use lut_pim_driver.Cdma.{CdmaDev, IoctlInfo, Regs, bus_addr, vacc_size, num_banks, type_size}
use lut_pim_driver.Cdma.Emit.{Fields, Gen, emit, emit_last, clear, clear_here, clear_last, start}
use lut_pim_driver.Cdma.Program.{finish}
use lut_pim_driver.PimMath.{read_operand, write_result, clear_counters, rounds}

-- The status word of the first descriptor is written twice, once before the loops.
unfoldable pub activation_clear : IoctlInfo → Gen → Gen
activation_clear info g = clear_last (
    for_u32 1 info.p_size
      (λ p. for_u32 (vacc_size * num_banks) info.r_size (λ r h. clear (clear h))) (clear_here g))

module _ (d : CdmaDev) (info : IoctlInfo) (opcode : ℕ) where
  abbrev pub activation_offset : (p r : ℕ) → ℕ
  activation_offset p r = u32 (u32 (p * info.r_size) * type_size + r * type_size)

  unfoldable pub activation_a : Fields
  unfolding read_operand
  activation_a = read_operand d 0x2 opcode (bus_addr d info.src_a_va) 0x40

  unfoldable pub activation_b : (p r : ℕ) → Fields
  unfolding read_operand
  activation_b p r =
      read_operand d 0x4 opcode (bus_addr d (u64 (info.src_b_va + activation_offset p r)))
        (vacc_size * num_banks * type_size)

  unfoldable pub activation_c : (p r : ℕ) → Fields
  unfolding write_result
  activation_c p r =
      write_result d opcode (bus_addr d (u64 (info.dst_c_va + activation_offset p r)))
        (vacc_size * num_banks * type_size)

  unfoldable pub activation_fill : Gen → Gen
  activation_fill g =
      for_u32 1 info.p_size
        (λ p.
          for_u32 (vacc_size * num_banks) info.r_size
            (λ r h. emit d (activation_c p r) (emit d (activation_b p r) h)))
        (emit d activation_a g)

  unfoldable pub activation : Regs → Regs × IoctlInfo
  unfolding activation_clear activation_fill
  activation r = finish d info r (
      emit_last d (clear_counters d opcode 0) (activation_fill (activation_clear info (start d r))))

  abbrev pub activation_row : (p : ℕ) → List Fields
  activation_row p =
      grid (rounds info.r_size 512) 512 0 (λ r. activation_b p r ∷ activation_c p r ∷ [])

  abbrev pub activation_tiles : List Fields
  activation_tiles = activation_a ∷ grid info.p_size 1 0 activation_row

abbrev pub activation_length : IoctlInfo → ℕ
activation_length info = info.p_size * (rounds info.r_size 512 * 2)
