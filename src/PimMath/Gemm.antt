-- ===== src/PimMath/Gemm.antt =====
-- src/drv_src/pim_math/matmul.c, `gemm`: the product of `matmul`, then C = bias + C in tiles of
-- 512 elements, in one chain.
pub mod Chain
use lut_pim_driver.Prelude.{ℕ, ◌+◌, ◌*◌, ◌/◌, ◌-◌, u32, u64, for_u32, List, [], ◌∷◌, ◌++◌, grid}
use lut_pim_driver.Cdma.{CdmaDev, IoctlInfo, Regs, bus_addr}
use lut_pim_driver.Cdma.Emit.{Fields, Gen, emit, emit_last, clear, clear_last, start}
use lut_pim_driver.Cdma.Program.{finish}
use lut_pim_driver.PimMath.{read_operand, write_result, clear_counters, rounds}
use lut_pim_driver.PimMath.MatMul.{matmul_clear, matmul_fill, matmul_cells, matmul_length}

abbrev pub opcode_ele_add : ℕ
opcode_ele_add = 0x42F

unfoldable pub gemm_clear : IoctlInfo → Gen → Gen
unfolding matmul_clear
gemm_clear info g = clear_last (
    for_u32 1 info.p_size (λ p. for_u32 512 info.r_size (λ r h. clear (clear (clear h))))
      (matmul_clear info g))

module _ (d : CdmaDev) (info : IoctlInfo) where
  -- `base + (p * r_size * sizeof(Bfloat16)) + (r * sizeof(Bfloat16))`.
  abbrev pub gemm_va : (base p r : ℕ) → ℕ
  gemm_va base p r = u64 (base + u32 (p * info.r_size) * 2 + r * 2)

  unfoldable pub gemm_a : (p r : ℕ) → Fields
  unfolding read_operand
  gemm_a p r = read_operand d 0x2 opcode_ele_add (bus_addr d (gemm_va info.bias_va p r)) 1024

  unfoldable pub gemm_b : (p r : ℕ) → Fields
  unfolding read_operand
  gemm_b p r = read_operand d 0x4 opcode_ele_add (bus_addr d (gemm_va info.dst_c_va p r)) 1024

  unfoldable pub gemm_c : (p r : ℕ) → Fields
  unfolding write_result
  gemm_c p r = write_result d opcode_ele_add (bus_addr d (gemm_va info.dst_c_va p r)) 1024

  -- The loops of the product, as in `matmul`.
  unfoldable pub gemm_tiles : (opcode : ℕ) → Gen → Gen
  unfolding matmul_fill
  gemm_tiles opcode = matmul_fill d info opcode

  -- The loops of the addition.
  unfoldable pub gemm_add : Gen → Gen
  gemm_add = for_u32 1 info.p_size (λ p.
      for_u32 512 info.r_size
        (λ r h. emit d (gemm_c p r) (emit d (gemm_b p r) (emit d (gemm_a p r) h))))

  unfoldable pub gemm : (opcode : ℕ) → Regs → Regs × IoctlInfo
  unfolding gemm_clear gemm_tiles gemm_add
  gemm opcode r = finish d info r (
      emit_last d (clear_counters d opcode_ele_add d.high_addr)
        (gemm_add (gemm_tiles opcode (gemm_clear info (start d r)))))

  abbrev pub gemm_sum : (p r : ℕ) → List Fields
  gemm_sum p r = gemm_a p r ∷ gemm_b p r ∷ gemm_c p r ∷ []

  abbrev pub gemm_row : (p : ℕ) → List Fields
  gemm_row p = grid (rounds info.r_size 512) 512 0 (gemm_sum p)

  abbrev pub gemm_program : (opcode : ℕ) → List Fields
  gemm_program opcode = matmul_cells d info opcode ++ grid info.p_size 1 0 gemm_row

abbrev pub gemm_length : IoctlInfo → ℕ
gemm_length info = matmul_length info + info.p_size * (rounds info.r_size 512 * 3)
