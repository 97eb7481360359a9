-- ===== src/PimMath.antt =====
-- The operations of src/drv_src/pim_math: each clears the status words of the descriptors that it
-- is about to use, writes a chain of descriptors over the tiles of its operands, and starts the
-- engine. Here: the descriptors that they share. `dma_desc_write` keeps the low 32 bits.
pub mod Runs
pub mod Tiling
pub mod EleWise
pub mod MatMul
pub mod Gemm
pub mod GemmBias
pub mod Activation
pub mod BiasOp
pub mod Lut
pub mod Decoupled
use lut_pim_driver.Prelude.{ℕ, ◌+◌, ◌-◌, ◌*◌, ◌/◌, ◌%◌, ◌==◌, if◌then◌else◌, u32, u64}
use lut_pim_driver.Cdma.{CdmaDev, info_word, pl_dummy_pa, conf_offset_hpc_clr}
use lut_pim_driver.Cdma.Emit.{Fields}

-- Reading an operand into the PIM: 0x2 for the first, 0x4 for the second.
unfoldable pub read_operand : CdmaDev → (kind opcode pa len : ℕ) → Fields
read_operand d kind opcode pa len = record {
  sa_l = pa;
  sa_h = d.high_addr;
  da_l = pl_dummy_pa;
  da_h = 0x0;
  len = len;
  info = info_word kind opcode;
}

-- Writing the result from the PIM.
unfoldable pub write_result : CdmaDev → (opcode pa len : ℕ) → Fields
write_result d opcode pa len = record {
  sa_l = pl_dummy_pa;
  sa_h = 0;
  da_l = pa;
  da_h = d.high_addr;
  len = len;
  info = info_word 0x9 opcode;
}

-- The write barrier through the configuration memory.
unfoldable pub conf_barrier : CdmaDev → (opcode : ℕ) → Fields
conf_barrier d opcode = record {
  sa_l = d.conf_mem_base;
  sa_h = d.high_addr;
  da_l = u32 (d.conf_mem_base + 1024);
  da_h = d.high_addr;
  len = 1024;
  info = info_word 0x0 opcode;
}

-- The write to the counter register, which ends each chain.
unfoldable pub clear_counters : CdmaDev → (opcode sa_h : ℕ) → Fields
clear_counters d opcode sa_h = record {
  sa_l = pl_dummy_pa;
  sa_h = sa_h;
  da_l = u64 (d.dram_base + conf_offset_hpc_clr);
  da_h = d.high_addr;
  len = 0x40;
  info = info_word 0x0 opcode;
}

-- `r_size` rounded up to a multiple of 32 where `r_size & 0x1F` is not 0.
abbrev pub align_32 : ℕ → ℕ
align_32 r_size = if r_size % 32 == 0 then r_size else u32 ((r_size / 32 + 1) * 32)

-- The rounds of `for (i = 0; i < n; i += step)`.
abbrev pub rounds : ℕ → ℕ → ℕ
rounds n step = (n + step - 1) / step
