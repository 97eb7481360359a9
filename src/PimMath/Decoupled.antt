-- ===== src/PimMath/Decoupled.antt =====
-- src/drv_src/pim_math/matmul_decoupled.c, `matmul_decoupled`: C = A B in tiles of 32 rows, 16
-- columns and 32 elements of the inner dimension; the last tile of rows may be 8, 16 or 24 high.
pub mod Tile
pub mod Rows
pub mod Chain
use lut_pim_driver.Prelude.{
  ℕ, ◌+◌, ◌-◌, ◌*◌, ◌/◌, ◌%◌, ◌^◌, Bool, u32, u64, sub_u32, for_u32, List, [], ◌∷◌, ◌++◌, grid,
  ◌==◌, ltb, leb, if◌then◌else◌, bit_or,
}
use lut_pim_driver.Cdma.{
  CdmaDev, IoctlInfo, Regs, bus_addr, reg_size, num_banks, type_size, compute_way,
}
use lut_pim_driver.Cdma.Emit.{Fields, Gen, emit, emit_last, clear, clear_last, start}
use lut_pim_driver.Cdma.Program.{finish}
use lut_pim_driver.PimMath.{read_operand, write_result, conf_barrier, clear_counters, rounds}

-- The local variables that the loops change.
pub record Pass : Type 0 where
  pub gen : Gen
  pub cnt_a : ℕ
  pub cnt_b : ℕ
  pub cnt_c : ℕ
  pub config : ℕ

-- The clearing loops, before the last write.
unfoldable pub decoupled_clear : IoctlInfo → Gen → Gen
decoupled_clear info = for_u32 reg_size info.p_size (λ p.
    for_u32 num_banks info.r_size
      (λ r g. clear (clear (clear (for_u32 reg_size info.q_size (λ q h. clear (clear h)) g)))))

-- `A_ROW_PAD`, `p_size` rounded up to a multiple of 8.
unfoldable pub a_row_pad : IoctlInfo → ℕ
a_row_pad info = sub_u32 (info.p_size + compute_way) 1 / compute_way * compute_way

-- `p + REG_SIZE > A_ROW_PAD`.
unfoldable pub is_short : IoctlInfo → (p : ℕ) → Bool
unfolding a_row_pad
is_short info p = ltb (a_row_pad info) (u32 (p + reg_size))

-- `p_size_tile`, as a `uint32_t`; it is not negative unless `A_ROW_PAD` wraps.
unfoldable pub p_size_tile : IoctlInfo → (p : ℕ) → ℕ
unfolding a_row_pad is_short
p_size_tile info p =
    if is_short info p
    then sub_u32 (a_row_pad info) (info.p_size / reg_size * reg_size)
    else reg_size

-- The `switch`; without a case, the value stays.
unfoldable pub tile_config : (tile config : ℕ) → ℕ
tile_config tile config =
    if tile == 8
    then 0
    else if tile == 16
    then 1
    else if tile == 24
    then 2
    else if tile == 32
    then 3
    else config

-- `Decoupled_config` in the loop's round at `p`.
unfoldable pub decoupled_config : IoctlInfo → (p config : ℕ) → ℕ
unfolding is_short p_size_tile tile_config
decoupled_config info p config =
    if is_short info p then tile_config (p_size_tile info p) config else config

abbrev pub opcode_mat_mul_decoupled_8x4 : ℕ
opcode_mat_mul_decoupled_8x4 = 0x3051F

unfoldable pub decoupled_opcode : IoctlInfo → (opcode : ℕ) → ℕ
decoupled_opcode info opcode =
    if info.p_size % reg_size == 0 then opcode else opcode_mat_mul_decoupled_8x4

-- The information word with `| (Decoupled_config << 22)`.
unfoldable pub with_config : (config : ℕ) → Fields → Fields
with_config config f = record f { info = bit_or f.info (u32 (config * 2 ^ 22)) }

module _ (d : CdmaDev) (info : IoctlInfo) (opcode : ℕ) where
  -- The elements of B, A and C that a descriptor moves; B and A wrap at the products of their sizes,
  -- taken in 32 bits. Where such a product is 0, the source divides by zero, which stops the kernel;
  -- here `%` then gives some number, and `FitsDecoupled` excludes these sizes.
  abbrev pub decoupled_b_va : (cnt_b : ℕ) → ℕ
  decoupled_b_va cnt_b = u64 (info.src_b_va + cnt_b % u32 (info.q_size * info.r_size) * type_size)

  abbrev pub decoupled_a_va : (p cnt_a : ℕ) → ℕ
  decoupled_a_va p cnt_a = u64 (
      info.src_a_va
      + u64 (u32 (p * info.q_size) + cnt_a) % u32 (info.p_size * info.q_size) * type_size)

  abbrev pub decoupled_c_va : (cnt_c : ℕ) → ℕ
  decoupled_c_va cnt_c = u64 (info.dst_c_va + cnt_c * type_size)

  unfoldable pub decoupled_b : (config cnt_b : ℕ) → Fields
  unfolding read_operand with_config
  decoupled_b config cnt_b = with_config config (
      read_operand d 0x2 opcode (bus_addr d (decoupled_b_va cnt_b))
        (reg_size * num_banks * type_size))

  unfoldable pub decoupled_a : (config p tile cnt_a : ℕ) → Fields
  unfolding read_operand with_config
  decoupled_a config p tile cnt_a = with_config config (
      read_operand d 0x4 opcode (bus_addr d (decoupled_a_va p cnt_a)) (reg_size * tile * type_size))

  unfoldable pub decoupled_c : (config cnt_c : ℕ) → Fields
  unfolding write_result with_config
  decoupled_c config cnt_c =
      with_config config (
        write_result d opcode (bus_addr d (decoupled_c_va cnt_c))
          (reg_size * num_banks * type_size))

  unfoldable pub decoupled_barrier : (config : ℕ) → Fields
  unfolding conf_barrier with_config
  decoupled_barrier config = with_config config (conf_barrier d opcode)

  -- The body of the innermost loop: B first, then A.
  unfoldable pub decoupled_q : (p tile : ℕ) → Pass → Pass
  unfolding decoupled_a decoupled_b
  decoupled_q p tile s = record s {
    gen =
        emit d (decoupled_a s.config p tile s.cnt_a) (emit d (decoupled_b s.config s.cnt_b) s.gen);
    cnt_a = u64 (s.cnt_a + reg_size * tile);
    cnt_b = u32 (s.cnt_b + 512);
  }

  -- What follows the innermost loop: C between two barriers.
  unfoldable pub decoupled_result : Pass → Pass
  unfolding decoupled_c decoupled_barrier
  decoupled_result s = record s {
    gen =
        emit d (decoupled_barrier s.config)
          (emit d (decoupled_c s.config s.cnt_c) (emit d (decoupled_barrier s.config) s.gen));
    cnt_c = u32 (s.cnt_c + reg_size * num_banks);
  }

  unfoldable pub decoupled_r : (p tile : ℕ) → Pass → Pass
  unfolding decoupled_q decoupled_result
  decoupled_r p tile s =
      decoupled_result
        (for_u32 reg_size info.q_size (λ q. decoupled_q p tile) (record s { cnt_a = 0 }))

  unfoldable pub decoupled_p : (p : ℕ) → Pass → Pass
  unfolding decoupled_r decoupled_config p_size_tile
  decoupled_p p s =
      for_u32 num_banks info.r_size (λ r. decoupled_r p (p_size_tile info p))
        (record s { config = decoupled_config info p s.config })

  unfoldable pub decoupled_fill : Gen → Pass
  unfolding decoupled_p
  decoupled_fill g =
      for_u32 reg_size info.p_size decoupled_p
        (record { gen = g; cnt_a = 0; cnt_b = 0; cnt_c = 0; config = 0 })

-- The last descriptor, with the configuration that the loops leave.
unfoldable pub decoupled_finish :
    CdmaDev → IoctlInfo → (opcode : ℕ) → Regs → Pass → Regs × IoctlInfo
unfolding finish with_config clear_counters
decoupled_finish d info opcode r s =
    finish d info r (emit_last d (with_config s.config (clear_counters d opcode 0)) s.gen)

unfoldable pub matmul_decoupled : CdmaDev → IoctlInfo → (opcode : ℕ) → Regs → Regs × IoctlInfo
unfolding decoupled_clear decoupled_fill decoupled_opcode decoupled_finish
matmul_decoupled d info opcode r =
    let o = decoupled_opcode info opcode in
    decoupled_finish d info o r
      (decoupled_fill d info o (clear_last (decoupled_clear info (start d r))))
