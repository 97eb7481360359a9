-- ===== src/PimMath/MatMul.antt =====
-- src/drv_src/pim_math/matmul.c, `matmul`: C = A B, over the rows `p` of A, the column tiles `r` of
-- 512 elements, and the steps `q` of 32 elements along the inner dimension.
pub mod Chain
use lut_pim_driver.Prelude.{ℕ, ◌+◌, ◌*◌, ◌/◌, ◌-◌, u32, u64, for_u32, List, [], ◌∷◌, ◌++◌, grid}
use lut_pim_driver.Cdma.{CdmaDev, IoctlInfo, Regs, bus_addr, info_word}
use lut_pim_driver.Cdma.Emit.{Fields, Gen, emit, emit_last, clear, clear_last, start}
use lut_pim_driver.Cdma.Program.{finish}
use lut_pim_driver.PimMath.{read_operand, conf_barrier, clear_counters, rounds}

-- `r_loop_var`, the number of column tiles.
abbrev pub r_loop_var : IoctlInfo → ℕ
r_loop_var info = u32 (u64 (info.r_size * 2) / 1024)

-- The clearing loops, before the last write.
unfoldable pub matmul_clear : IoctlInfo → Gen → Gen
matmul_clear info = for_u32 1 info.p_size (λ p.
    for_u32 1 (r_loop_var info)
      (λ r g. clear (clear (clear (for_u32 32 info.q_size (λ q h. clear (clear h)) g)))))

module _ (d : CdmaDev) (info : IoctlInfo) (opcode : ℕ) where
  -- The addresses of the operands' tiles.
  abbrev pub matmul_a_va : (p q : ℕ) → ℕ
  matmul_a_va p q = u64 (info.src_a_va + q * 2 + u64 (u64 (info.q_size * 2) * p))

  abbrev pub matmul_b_va : (r q : ℕ) → ℕ
  matmul_b_va r q = u64 (info.src_b_va + u32 (info.q_size * 1024 * r) + u32 (q * 1024))

  abbrev pub matmul_c_va : (p r : ℕ) → ℕ
  matmul_c_va p r = u64 (info.dst_c_va + u32 (r * 1024) + u32 (p * info.r_size) * 2)

  unfoldable pub matmul_a : (p q : ℕ) → Fields
  unfolding read_operand
  matmul_a p q = read_operand d 0x2 opcode (bus_addr d (matmul_a_va p q)) 64

  unfoldable pub matmul_b : (r q : ℕ) → Fields
  unfolding read_operand
  matmul_b r q = read_operand d 0x4 opcode (bus_addr d (matmul_b_va r q)) (32 * 1024)

  -- The result leaves through the configuration memory.
  unfoldable pub matmul_c : (p r : ℕ) → Fields
  matmul_c p r = record {
    sa_l = d.conf_mem_base;
    sa_h = d.high_addr;
    da_l = bus_addr d (matmul_c_va p r);
    da_h = d.high_addr;
    len = 1024;
    info = info_word 0x9 opcode;
  }

  unfoldable pub matmul_fill : Gen → Gen
  unfolding conf_barrier
  matmul_fill = for_u32 1 info.p_size (λ p. for_u32 1 (r_loop_var info) (λ r g.
      emit d (conf_barrier d opcode) (
        emit d (matmul_c p r) (
          emit d (conf_barrier d opcode)
            (for_u32 32 info.q_size (λ q h. emit d (matmul_b r q) (emit d (matmul_a p q) h)) g)))))

  unfoldable pub matmul : Regs → Regs × IoctlInfo
  unfolding matmul_clear matmul_fill
  matmul r = finish d info r (
      emit_last d (clear_counters d opcode 0x0)
        (matmul_fill (clear_last (matmul_clear info (start d r)))))

  -- The chain that the loops describe: for each row and column tile the operand tiles along the
  -- inner dimension, then the result between two barriers.
  abbrev pub matmul_cell : (p r : ℕ) → List Fields
  matmul_cell p r =
      grid (rounds info.q_size 32) 32 0 (λ q. matmul_a p q ∷ matmul_b r q ∷ [])
      ++ (conf_barrier d opcode ∷ matmul_c p r ∷ conf_barrier d opcode ∷ [])

  abbrev pub matmul_row : (p : ℕ) → List Fields
  matmul_row p = grid (r_loop_var info) 1 0 (matmul_cell p)

  abbrev pub matmul_cells : List Fields
  matmul_cells = grid info.p_size 1 0 matmul_row

-- The length of the chain without its last descriptor.
abbrev pub matmul_length : IoctlInfo → ℕ
matmul_length info = info.p_size * (r_loop_var info * (rounds info.q_size 32 * 2 + 3))
