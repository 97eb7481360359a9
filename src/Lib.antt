-- ===== src/Lib.antt =====
-- Verification of the PIM memory library and of the PIM DMA driver.
--
-- The program has two halves. The library (src/mem_src) hands out device memory: pim_malloc keeps a
-- list of pools of 2 MB, each with 512 pages and a string with one character for each page, and
-- drv_interface.c takes the pools from a window that the driver maps. The driver (src/drv_src)
-- computes on that memory: an operation of pim_math writes a chain of descriptors for the CDMA
-- engine into the descriptor memory, starts the PIM engine through its configuration registers and
-- reports the length of the chain in the caller's ioctl_info; dma_sg_tx of pl_fops.c then hands the
-- chain to the CDMA engine, in parts of at most 255 interrupts, and waits for the interrupt
-- handler. Two further ways move data: pl_dma_ioctl copies chunk by chunk through a DMA buffer on
-- the CDMA engine, and host_fops.c does so on a channel of the host's DMA engine, or between two
-- buffers that it maps for the caller.
--
-- The files, and what of the repository they model:
--   Prelude          shared names; wrap-around of 32-bit and 64-bit words, & and | of page fields; the C loop over a uint32_t
--                    as recursion on fuel, and its counted form
--   Cdma             ioctl_info of include/pim.h; cdma_dev_t, the constants and the register accesses
--                    of src/drv_src/dma_lib_kernel.h
--   Cdma/Emit        one descriptor written at (desc_idx, next_desc), one status word cleared
--   Cdma/Read        the descriptor memory read back as a list of descriptors
--   Cdma/Program     the writes that end each operation; what a programmed engine is
--   Chunks           copy_len, num_chunk and the loop over the chunks of pl_fops.c and host_fops.c
--   Kernel           the kernel's calls that the copies make, as a sequence, and its answers
--   PimMath/*        matmul, gemm and gemm_bias of src/drv_src/pim_math/matmul.c, elewise, activation
--                    and bias_op of elewise.c, lut_op of lut.c; the theorems stand in X/Chain;
--                    Runs has their loops as a relation, EleWise/Ends is about
--                    the end of those of elewise
--   PimMath/Decoupled matmul_decoupled of matmul_decoupled.c; Tile has the heights of the tiles of rows,
--                    Rows the descriptors that the loops write
--   PimMem/BitVector _strnstr and the search of _set_bit_vector of src/mem_src/pim_mem.c
--   PimMem/Pool      struct mem_pool, _set_bit_vector, _clr_bit_vector
--   PimMem/Driver    src/mem_src/drv_interface.c as built with __FPGA__
--   PimMem/Malloc    pim_malloc, _mem_pool_allocation, _large_mem_pool_allocation
--   PimMem/Free      pim_free, _real_free
--   PimMem/Session   sequences of calls of pim_malloc, pim_free and _real_free, as a step relation: Blocks
--                    has what the pools hold, Invariant and Given what each call keeps
--   PlDma            dma_single_tx, dma_sg_tx and pl_dma_irq_handler of src/drv_src/pl_fops.c
--   PlDma/Ioctl      the cases of pl_dma_ioctl that run an operation of pim_math
--   PlDma/Copy       the cases MEMCPY_PL2PL, MEMCPY_PL2PS and MEMCPY_PS2PL
--   PlDma/Dispatch   pl_dma_ioctl as a whole, with its timers
--   PlDma/Lock       pl_dma_open and pl_dma_release over the lock, as a step relation
--   HostDma/Buffers  host_dma_mmap and host_dma_release of src/drv_src/host_fops.c
--   HostDma/Memcpy   chan_filter, dma_memcpy and memcpy_dma
--   HostDma/Ioctl    host_dma_ioctl: Rounds and Kept for its buffers, Copies for what it copies
--   PageTable        va_to_pa of src/drv_src/pim_drv_main.c
--   MemDev           the device pim_mem of src/drv_src/pim_mem_probe.c; Registers and Laws join it with
--                    PlX86 and the sessions of the library
--   PsDma            ps_dma_mmap and ps_dma_release of src/drv_src/ps_fops.c
--   PsDma/Engine     ps_buffer_alloc and ps_buffer_free, probe_ps_dma and the removal
--   Probe            the search of the PCI buses, pa_offset, the registrations and the removal of the
--                    host's buffers (src/drv_src/dma_probe.c, pim_mem_probe.c); Unregister has the
--                    removal of the character devices
--   Probe/PlX86      probe_pl_dma_x86; PlArm has probe_pl_dma_arm, Maps the mappings that both make and
--                    what remove_pim_dma unmaps
--   HostDma/Probe    probe_host_dma
--   Startup          the start and the end of the module on x86 and on ARM (src/drv_src/pim_drv_main.c):
--                    Ready and Arm for what is open to programs, GivenBack and
--                    Unload for the end
--   Tests            the theorems at concrete inputs
--
-- How state is modelled. The descriptor memory and the configuration registers are functions from
-- the word's index to its value; an operation takes and returns them. The control registers of the
-- CDMA engine are the sequence of the writes to them, and the engine, with the interrupt handler,
-- is a function from that sequence to the outcome of the wait. The doubly linked list of pools is a
-- list from head to tail, a pointer to a pool its position. The calls of the kernel that take, give
-- back and copy are a sequence, the latest one first, and each answer of the kernel may depend on
-- all of them; what is out is counted on that sequence. A session of the library is a step relation
-- on its state and the blocks that are live: the program frees only what it was given, once. A loop
-- over chunks ends with a state that goes on, or with one that leaves the function with an error. A
-- failed assert of the library is the result abort. Machine words are natural numbers with their
-- wrap-around written out.
--
-- Bounds and fuel. A loop over a uint32_t gets its bound as fuel: each round raises the counter, so
-- that is enough unless the increment wraps; the records Fits* hold the sizes at which no counter
-- wraps and the chain has fewer than 2^26 descriptors, which is where the index of a descriptor's
-- word wraps. The descriptor memory has no end in the model: the driver maps DESC_MEM_LEN - 1
-- bytes, 65536 descriptors, and what a write beyond them does is not modelled.
--
-- A loop over num_chunk chunks makes num_chunk rounds; its counter does not wrap.
--
-- Parameters. va_to_pa, pa_offset and the addresses of the device (CdmaDev), the answers of the
-- device file and the content of fresh memory (Device), the PCI device and the device tree
-- (PciKernel, PciBars, ArmKernel, ArmResources, MemKernel, RegKernel), the page table (PageTable),
-- the outcomes of the waits (Engine), the kernel's memory, copies and mappings (Kernel,
-- BufferKernel), the host's DMA engine (DmaEngine), and the kernel's mutex with the behaviour of
-- trylock and unlock (Mutex).
--
-- Not modelled: the end of the mapped descriptor memory; the stop of the kernel at a division by
-- zero, whose sizes FitsDecoupled excludes; calls of malloc are taken to succeed; the polling
-- loops, which are not built with INTR_ENABLE; the timers' measurements, which are not built
-- without PERF_TIME; the parts of pl_fops.c that are built for ARM only; the copy archive_matmul.c,
-- which no build file names; the unmap data of memcpy_dma and the caching attributes of a mapping;
-- log output.
pub mod Prelude
pub mod Cdma
pub mod Chunks
pub mod Kernel
pub mod PageTable
pub mod MemDev
pub mod PimMath
pub mod PimMem
pub mod PlDma
pub mod HostDma
pub mod PsDma
pub mod Startup
pub mod Probe
pub mod Tests
