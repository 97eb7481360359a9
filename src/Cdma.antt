-- ===== src/Cdma.antt =====
-- The CDMA device as src/drv_src/dma_lib_kernel.h sees it: the descriptor memory, the PIM
-- configuration registers, the constants, and the descriptors that the operations write.
pub mod Emit
pub mod Program
pub mod Read
use lut_pim_driver.Prelude.{
  ℕ, ◌+◌, ◌*◌, ◌/◌, ◌%◌, ◌^◌, Bool, List, [], ◌∷◌, u32, u64, sub_u64, ◌==◌, if◌then◌else◌, bit_or,
}

-- `ioctl_info`: the addresses are those of the caller, a size is the bit pattern of the C `int`
-- as the `uint32_t` that every operation converts it to.
pub record IoctlInfo : Type 0 where
  pub src_a_ptr : ℕ
  pub dst_c_ptr : ℕ
  pub src_a_va : ℕ
  pub src_b_va : ℕ
  pub bias_va : ℕ
  pub dst_c_va : ℕ
  pub src_a_size : ℕ
  pub src_b_size : ℕ
  pub p_size : ℕ
  pub q_size : ℕ
  pub r_size : ℕ
  pub desc_idx : ℕ
  pub next_desc : ℕ
  pub length : ℕ

-- What the operations read of `cdma_dev`, of the build (`HIGH_ADDR`), and of the address
-- translation (`va_to_pa`, `pa_offset`).
pub record CdmaDev : Type 0 where
  pub high_addr : ℕ
  pub desc_mem_base : ℕ
  pub conf_mem_base : ℕ
  pub dram_base : ℕ
  pub pa_offset : ℕ
  pub va_to_pa : ℕ → ℕ

-- `cdma_dev->dma_desc` by 32-bit word and `cdma_dev->config_reg` by 64-bit word.
pub record Regs : Type 0 where
  pub dma_desc : ℕ → ℕ
  pub config_reg : ℕ → ℕ

abbrev pub update : (ℕ → ℕ) → ℕ → ℕ → ℕ → ℕ
update m a v b = if b == a then v else m b

-- The offsets of the fields of a descriptor.
abbrev pub cdma_next_de_l : ℕ
cdma_next_de_l = 0x00

abbrev pub cdma_next_de_h : ℕ
cdma_next_de_h = 0x04

abbrev pub cdma_desc_sa_l : ℕ
cdma_desc_sa_l = 0x08

abbrev pub cdma_desc_sa_h : ℕ
cdma_desc_sa_h = 0x0C

abbrev pub cdma_desc_da_l : ℕ
cdma_desc_da_l = 0x10

abbrev pub cdma_desc_da_h : ℕ
cdma_desc_da_h = 0x14

abbrev pub cdma_desc_len : ℕ
cdma_desc_len = 0x18

abbrev pub cdma_desc_status : ℕ
cdma_desc_status = 0x1C

abbrev pub cdma_desc_info : ℕ
cdma_desc_info = 0x24

-- PIM configuration registers, the dummy address and the operation codes.
abbrev pub conf_offset_desc_base : ℕ
conf_offset_desc_base = 0x0

abbrev pub conf_offset_desc_num : ℕ
conf_offset_desc_num = 0x100

abbrev pub conf_offset_aim_working : ℕ
conf_offset_aim_working = 0x4000

abbrev pub conf_offset_hpc_clr : ℕ
conf_offset_hpc_clr = 0x5000

abbrev pub pl_dummy_pa : ℕ
pl_dummy_pa = 0xd000_0000

-- `vACC_SIZE`, `NUM_BANKS`, `TYPE_SIZE`, `REG_SIZE`, `COMPUTE_WAY`.
abbrev pub vacc_size : ℕ
vacc_size = 32

abbrev pub num_banks : ℕ
num_banks = 16

abbrev pub type_size : ℕ
type_size = 2

abbrev pub reg_size : ℕ
reg_size = 32

abbrev pub compute_way : ℕ
compute_way = 8

-- The index of a field's word; the index arithmetic is that of `u32`.
unfoldable pub word : ℕ → ℕ → ℕ
word offset pos = u32 (offset * 0x10 + pos / 4)

-- The parameters are `u32`, so a wider argument loses its high bits.
unfoldable pub dma_desc_write : (offset pos value : ℕ) → (ℕ → ℕ) → ℕ → ℕ
unfolding word
dma_desc_write offset pos value m = update m (word offset pos) (u32 value)

unfoldable pub dma_desc_read : (offset pos : ℕ) → (ℕ → ℕ) → ℕ
unfolding word
dma_desc_read offset pos m = m (word offset pos)

unfoldable pub pim_conf_write : (offset value : ℕ) → (ℕ → ℕ) → ℕ → ℕ
pim_conf_write offset value m = update m (offset / 8) (u32 value)

-- `va_to_pa(va) - pa_offset`, in 64 bits.
abbrev pub bus_addr : CdmaDev → ℕ → ℕ
bus_addr d va = sub_u64 (d.va_to_pa va) (u64 d.pa_offset)

-- `info | (opcode << 4)`.
abbrev pub info_word : ℕ → ℕ → ℕ
info_word kind opcode = bit_or kind (u32 (opcode * 16))
