-- ===== src/PimMath/EleWise.antt =====
-- src/drv_src/pim_math/elewise.c, `elewise`: C = A op B over `p_size` rows of `r_size` elements of
-- two bytes, in tiles of 512 elements.
pub mod Chain
pub mod Ends
use lut_pim_driver.Prelude.{
  ℕ, ◌+◌, ◌*◌, ◌/◌, ◌-◌, ◌%◌, u32, u64, for_u32, List, [], ◌∷◌, grid, ◌==◌, if◌then◌else◌,
}
use lut_pim_driver.Cdma.{CdmaDev, IoctlInfo, Regs, bus_addr, vacc_size, num_banks, type_size}
use lut_pim_driver.Cdma.Emit.{Fields, Gen, emit, emit_last, clear, clear_last, start}
use lut_pim_driver.Cdma.Program.{finish}
use lut_pim_driver.PimMath.{read_operand, write_result, clear_counters, align_32, rounds}

abbrev pub tile_len : ℕ
tile_len = vacc_size * num_banks

unfoldable pub elewise_clear : IoctlInfo → Gen → Gen
elewise_clear info g =
    clear_last
      (for_u32 1 info.p_size (λ p. for_u32 tile_len info.r_size (λ r h. clear (clear (clear h)))) g)

module _ (d : CdmaDev) (info : IoctlInfo) where
  abbrev pub elewise_offset : (p r : ℕ) → ℕ
  elewise_offset p r = u32 (u32 (p * align_32 info.r_size) * type_size + r * type_size)

  unfoldable pub elewise_a : (opcode p r : ℕ) → Fields
  unfolding read_operand
  elewise_a opcode p r =
      read_operand d 0x2 opcode (bus_addr d (u64 (info.src_a_va + elewise_offset p r)))
        (tile_len * type_size)

  unfoldable pub elewise_b : (opcode p r : ℕ) → Fields
  unfolding read_operand
  elewise_b opcode p r =
      read_operand d 0x4 opcode (bus_addr d (u64 (info.src_b_va + elewise_offset p r)))
        (tile_len * type_size)

  unfoldable pub elewise_c : (opcode p r : ℕ) → Fields
  unfolding write_result
  elewise_c opcode p r =
      write_result d opcode (bus_addr d (u64 (info.dst_c_va + elewise_offset p r)))
        (tile_len * type_size)

  unfoldable pub elewise_fill : (opcode : ℕ) → Gen → Gen
  elewise_fill opcode g =
      for_u32 1 info.p_size
        (λ p. for_u32 tile_len info.r_size (λ r h.
          emit d (elewise_c opcode p r)
            (emit d (elewise_b opcode p r) (emit d (elewise_a opcode p r) h))))
        g

  unfoldable pub elewise : (opcode : ℕ) → Regs → Regs × IoctlInfo
  unfolding elewise_clear elewise_fill
  elewise opcode r = finish d info r (
      emit_last d (clear_counters d opcode d.high_addr)
        (elewise_fill opcode (elewise_clear info (start d r))))

  -- The three descriptors of a tile, and the tiles row by row.
  abbrev pub elewise_tile : (opcode p r : ℕ) → List Fields
  elewise_tile opcode p r = elewise_a opcode p r ∷ elewise_b opcode p r ∷ elewise_c opcode p r ∷ []

  abbrev pub elewise_row : (opcode p : ℕ) → List Fields
  elewise_row opcode p = grid (rounds info.r_size 512) 512 0 (elewise_tile opcode p)

  abbrev pub elewise_tiles : (opcode : ℕ) → List Fields
  elewise_tiles opcode = grid info.p_size 1 0 (elewise_row opcode)

abbrev pub elewise_length : IoctlInfo → ℕ
elewise_length info = info.p_size * (rounds info.r_size 512 * 3)
