-- ===== src/PimMath/GemmBias.antt =====
-- src/drv_src/pim_math/matmul.c, `gemm_bias`: the product of `matmul`, then C = bias + C for the
-- first row of C. It does not report the end of the chain to the caller's `ioctl_info`, and the
-- addresses of the addition come from `va_to_pa` alone, without `pa_offset`.
pub mod Chain
use lut_pim_driver.Prelude.{
  ℕ, ◌+◌, ◌*◌, ◌/◌, ◌-◌, ◌%◌, u32, u64, for_u32, List, [], ◌∷◌, ◌++◌, grid, ◌==◌, if◌then◌else◌,
}
use lut_pim_driver.Cdma.{CdmaDev, IoctlInfo, Regs}
use lut_pim_driver.Cdma.Emit.{Fields, Gen, emit, emit_last, clear, clear_last, start}
use lut_pim_driver.Cdma.Program.{start_engine}
use lut_pim_driver.PimMath.{read_operand, write_result, clear_counters, align_32, rounds}
use lut_pim_driver.PimMath.MatMul.{matmul_clear, matmul_fill, matmul_cells, matmul_length}
use lut_pim_driver.PimMath.Gemm.{opcode_ele_add}

unfoldable pub gemm_bias_clear : IoctlInfo → Gen → Gen
unfolding matmul_clear
gemm_bias_clear info g = clear_last (
    for_u32 512 info.r_size (λ r. for_u32 1 info.q_size (λ q h. clear (clear (clear h))))
      (matmul_clear info g))

module _ (d : CdmaDev) (info : IoctlInfo) where
  unfoldable pub gemm_bias_a : (r : ℕ) → Fields
  unfolding read_operand
  gemm_bias_a r = read_operand d 0x2 opcode_ele_add (d.va_to_pa (u64 (info.bias_va + r * 2))) 1024

  -- `dstC_va + q*r_size_aligned*sizeof(Bfloat16) + r*sizeof(Bfloat16)`.
  abbrev pub gemm_bias_va : (q r : ℕ) → ℕ
  gemm_bias_va q r = u64 (info.dst_c_va + u32 (q * align_32 info.r_size) * 2 + r * 2)

  unfoldable pub gemm_bias_b : (q r : ℕ) → Fields
  unfolding read_operand
  gemm_bias_b q r = read_operand d 0x4 opcode_ele_add (d.va_to_pa (gemm_bias_va q r)) 1024

  unfoldable pub gemm_bias_c : (q r : ℕ) → Fields
  unfolding write_result
  gemm_bias_c q r = write_result d opcode_ele_add (d.va_to_pa (gemm_bias_va q r)) 1024

  -- The loops of the product, as in `matmul`.
  unfoldable pub gemm_bias_tiles : (opcode : ℕ) → Gen → Gen
  unfolding matmul_fill
  gemm_bias_tiles opcode = matmul_fill d info opcode

  -- The loops of the addition; `q_loop_var` is 1.
  unfoldable pub gemm_bias_add : Gen → Gen
  gemm_bias_add = for_u32 512 info.r_size (λ r.
      for_u32 1 1
        (λ q h. emit d (gemm_bias_c q r) (emit d (gemm_bias_b q r) (emit d (gemm_bias_a r) h))))

  unfoldable pub gemm_bias : (opcode : ℕ) → Regs → Regs × IoctlInfo
  unfolding gemm_bias_clear gemm_bias_tiles gemm_bias_add start_engine
  gemm_bias opcode r = (
    start_engine d
        (emit_last d (clear_counters d opcode_ele_add 0x0)
          (gemm_bias_add (gemm_bias_tiles opcode (gemm_bias_clear info (start d r)))))
        r,
    info,
  )

  abbrev pub gemm_bias_sum : (r q : ℕ) → List Fields
  gemm_bias_sum r q = gemm_bias_a r ∷ gemm_bias_b q r ∷ gemm_bias_c q r ∷ []

  abbrev pub gemm_bias_column : (r : ℕ) → List Fields
  gemm_bias_column r = grid 1 1 0 (gemm_bias_sum r)

  abbrev pub gemm_bias_program : (opcode : ℕ) → List Fields
  gemm_bias_program opcode =
      matmul_cells d info opcode ++ grid (rounds info.r_size 512) 512 0 gemm_bias_column

-- The status words that the clearing loops reach, and the descriptors that the others write.
abbrev pub gemm_bias_cleared : IoctlInfo → ℕ
gemm_bias_cleared info = matmul_length info + rounds info.r_size 512 * (info.q_size * 3)

abbrev pub gemm_bias_length : IoctlInfo → ℕ
gemm_bias_length info = matmul_length info + rounds info.r_size 512 * 3
