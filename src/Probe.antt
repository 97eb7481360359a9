-- ===== src/Probe.antt =====
-- What src/drv_src/dma_probe.c and src/drv_src/pim_mem_probe.c compute when the driver starts: the
-- PCI device, the offset of its memory, the registration of the
-- character devices, and what the removal gives back.
pub mod Pci
pub mod Offset
pub mod Register
pub mod Unregister
pub mod Remove
pub mod Maps
pub mod PlX86
pub mod PlArm
pub mod MapsLaws
pub mod RemovalX86
pub mod RemovalArm
