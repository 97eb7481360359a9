-- ===== src/Probe/Offset.antt =====
-- `pa_offset` as `probe_pl_dma_x86` of src/drv_src/dma_probe.c computes it, and the bus addresses
-- that the operations get with it.
use lut_pim_driver.Prelude.{
  ℕ, ◌+◌, ◌-◌, ◌^◌, ◌≤◌, ◌<◌, ◌≡◌, ◌≢◌, ◌⊎◌, inl, inr, leb, if◌then◌else◌, u32, arith, true, false,
}
use native.Mathlib.Decide.{dec_lt}
use lut_pim_driver.Cdma.{CdmaDev, bus_addr}

abbrev pub dram_offset : ℕ
dram_offset = 0x8000_0000

-- `start` is the address of BAR 0.
unfoldable pub probe_pa_offset : (start : ℕ) → ℕ
probe_pa_offset start = if leb dram_offset start then start - dram_offset else dram_offset - start

-- The addresses that the probe keeps of the device's memory; the one of the configuration memory is
-- a `uint32_t`.
unfoldable pub probe_bases : (start : ℕ) → CdmaDev → CdmaDev
unfolding probe_pa_offset
probe_bases start d = record d {
  dram_base = start;
  conf_mem_base = u32 (start + 0x400000);
  desc_mem_base = start + 0x800000;
  pa_offset = probe_pa_offset start;
}

-- For the byte `x` of the device's memory, on a host with 63-bit physical addresses: where the
-- memory starts at 2 GB or above, the bus address that the descriptors hold (its low 32 bits) is
-- that of the byte `x` behind 2 GB; where it starts below 2 GB, but not at 0, it is another address.
pub bus_addr-probe_bases :
    (start x va : ℕ) (d : CdmaDev)
    → start + x < 2 ^ 63
    → d.va_to_pa va ≡ start + x
    → ((dram_offset ≤ start) × (u32 (bus_addr (probe_bases start d) va) ≡ u32 (dram_offset + x)))
      ⊎ ((start < dram_offset)
          × ((start ≡ 0) ⊎ (u32 (bus_addr (probe_bases start d) va) ≢ u32 (dram_offset + x))))
unfolding probe_bases probe_pa_offset
bus_addr-probe_bases start x va d w e = rw e (elim (dec_lt start dram_offset) [
  | yes l ↦
      let t : leb dram_offset start ≡ false = ground arith in
      inr (
        l,
        elim (dec_lt 0 start) [
          | yes p ↦ inr (λ q. absurd (let q' = rw t at q in omega (arith, q')))
          | no p ↦ inl (omega arith)
        ],
      )
  | no l ↦
      let t : leb dram_offset start ≡ true = ground arith in rw t (inl (omega arith, omega arith))
])
