-- ===== src/PimMem.antt =====
-- src/mem_src/pim_mem.c and src/mem_src/drv_interface.c: the allocator of PIM memory.
pub mod BitVector
pub mod BitVectorLaws
pub mod Fill
pub mod Pool
pub mod Driver
pub mod Malloc
pub mod Free
pub mod Session
