-- ===== src/MemDev/Laws.antt =====
-- The PIM memory from src/drv_src/pim_mem_probe.c to the blocks of src/mem_src/pim_mem.c, and the
-- register files of src/drv_src/dma_probe.c.
use lut_pim_driver.Prelude.{
  ℕ, ◌+◌, ◌-◌, ◌*◌, ◌^◌, ◌≤◌, ◌<◌, ◌≡◌, ◌⊎◌, inl, inr, ap, sym, ◌∙◌, List, [], ◌∷◌, true, arith,
  Bool-cases,
}
use mathlib.Core.Bool.{false≢true}
use lut_pim_driver.PimMem.Driver.{Device}
use lut_pim_driver.PimMem.Pool.{huge_page_size}
use lut_pim_driver.PimMem.Session.{Block, Session, Reach}
use lut_pim_driver.PimMem.Session.Invariant.{All, All-map}
use lut_pim_driver.PimMem.Session.Given.{IsLoaded}
use lut_pim_driver.PimMem.Session.Laws.{Reach-disjoint}
use lut_pim_driver.Probe.Maps.{
  ProbeCall, mapped, unmapped, irq_requested, irq_freed, written, pl_drv_removed,
}
use lut_pim_driver.Probe.PlX86.{PciKernel, PciBars, probe_pl_dma_x86}
use lut_pim_driver.MemDev.{
  reserved, page_size, set_mask, clear_ordering, dma_mask, consistent_mask, pim_mem_info, MemState,
  MemKernel, map_memory, probe_pim_mem_x86, info, fops_ioctl,
}
use lut_pim_driver.MemDev.Registers.{AllMapped, IsRegisters, probe_pl_dma_x86-AllMapped}

map_memory_lem :
    (k : MemKernel) (m : MemState)
    → k.bar_start + k.bar_len < 2 ^ 64
    → reserved ≤ k.bar_len
    → ((map_memory k m).1.mem_start ≡ k.bar_start + reserved)
      × ((map_memory k m).1.mem_len ≡ k.bar_len - reserved)
unfolding map_memory
map_memory_lem k m fits le = ground arith

probe_pim_mem-map_memory :
    (k : MemKernel) (m s : MemState)
    → probe_pim_mem_x86 k m ≡ (true, s)
    → (t : MemState) × (map_memory k t ≡ (true, s))
unfolding probe_pim_mem_x86
probe_pim_mem-map_memory k m s h = elim (Bool-cases k.finds) [
  | inr e ↦ absurd (false≢true (ap (λ r. r.0) (rw (e, probe_pim_mem_x86) at h)))
  | inl e ↦ elim (Bool-cases k.enables) [
    | inr f ↦ absurd (false≢true (ap (λ r. r.0) (rw (e, f, probe_pim_mem_x86) at h)))
    | inl f ↦ (
      record m {
        calls =
            clear_ordering k.relaxed
              (set_mask k.wide_consistent consistent_mask (set_mask k.wide_mask dma_mask m.calls));
      },
      rw (e, f, probe_pim_mem_x86) at h,
    )
  ]
]

-- After a probe that succeeded, the device answers with the memory behind the reserved bytes.
probe_pim_mem_lem :
    (k : MemKernel) (m s : MemState)
    → k.bar_start + k.bar_len < 2 ^ 64
    → reserved ≤ k.bar_len
    → probe_pim_mem_x86 k m ≡ (true, s)
    → (s.mem_start ≡ k.bar_start + reserved) × (s.mem_len ≡ k.bar_len - reserved)
probe_pim_mem_lem k m s fits le h =
    let (t, e) = probe_pim_mem-map_memory k m s h in
    let (start, len) = map_memory_lem k t fits le in
    let same : (map_memory k t).1 ≡ s = ap (λ r. r.1) e in
    (
      ap (λ (x : MemState). x.mem_start) (sym same) ∙ start,
      ap (λ (x : MemState). x.mem_len) (sym same) ∙ len,
    )

fops_ioctl_lem :
    (s : MemState) (addr size : ℕ)
    → fops_ioctl true true pim_mem_info s ≡ info addr size
    → (s.mem_start ≡ addr) × (s.mem_len ≡ size)
unfolding fops_ioctl
fops_ioctl_lem s addr size h = ground arith

-- Where a block of the library lies in the device's memory: the window shows it in order.
abbrev pub phys : Device → Block → ℕ
phys dev b = dev.info_addr + (b.addr - dev.mapped)

-- A register range, and a block that starts behind the reserved bytes.
abbrev pub IsApart : PciBars → Device → List Block → (start len : ℕ) → Type 0
IsApart bars dev live start len =
    (start ≡ bars.pci_start) ⊎ ((start ≡ bars.dma_start) ⊎ All (λ b. start + len ≤ phys dev b) live)

IsRegisters-IsApart :
    (bars : PciBars) (dev : Device) (live : List Block) (start len : ℕ)
    → All (λ b. bars.mem_start + reserved ≤ phys dev b) live
    → IsRegisters bars start len
    → IsApart bars dev live start len
IsRegisters-IsApart bars dev live start len w (inl e) = inl e
IsRegisters-IsApart bars dev live start len w (inr (inl e)) = inr (inl e)
IsRegisters-IsApart bars dev live start len w (inr (inr (lo, hi))) =
    inr (inr (All-map _ (λ b. start + len ≤ phys dev b) live (λ b v. omega arith) w))

AllMapped-map :
    (P Q : (start len : ℕ) → Type 0) (cs : List ProbeCall)
    → ((start len : ℕ) → P start len → Q start len)
    → AllMapped P cs
    → AllMapped Q cs
AllMapped-map P Q [] h w = tt
AllMapped-map P Q (mapped start len va ∷ cs) h w = (h start len w.0, AllMapped-map P Q cs h w.1)
AllMapped-map P Q (unmapped va ∷ cs) h w = AllMapped-map P Q cs h w
AllMapped-map P Q (irq_requested irq ∷ cs) h w = AllMapped-map P Q cs h w
AllMapped-map P Q (irq_freed irq ∷ cs) h w = AllMapped-map P Q cs h w
AllMapped-map P Q (written write ∷ cs) h w = AllMapped-map P Q cs h w
AllMapped-map P Q (pl_drv_removed ∷ cs) h w = AllMapped-map P Q cs h w

-- Both drivers were probed for one PCI device whose resource 0 holds the reserved 16 MB, and the
-- library uses the window that `PIM_MEM_INFO` answers with: in every session, each live block lies
-- inside resource 0, and behind every range of it that the PL-DMA driver mapped as registers or
-- descriptors, the others being those of the resources 3 and 1.
pub blocks-registers-IsApart :
    (k : MemKernel) (m s : MemState) (pci : PciKernel) (bars : PciBars) (dev : Device)
    (l t : Session)
    → bars.mem_start ≡ k.bar_start
    → reserved ≤ k.bar_len
    → k.bar_start + k.bar_len < 2 ^ 64
    → probe_pim_mem_x86 k m ≡ (true, s)
    → fops_ioctl true true pim_mem_info s ≡ info dev.info_addr dev.info_size
    → 0 < dev.mapped
    → IsLoaded l
    → Reach dev l t
    → All (λ b. phys dev b + b.npages * page_size ≤ k.bar_start + k.bar_len) t.live
      × AllMapped (IsApart bars dev t.live) (probe_pl_dma_x86 pci bars).calls
blocks-registers-IsApart k m s pci bars dev l t one le fits h answer pos v r =
    let (start, len) = probe_pim_mem_lem k m s fits le h in
    let (addr, size) = fops_ioctl_lem s dev.info_addr dev.info_size answer in
    let word : dev.info_size + huge_page_size < 2 ^ 64 = omega arith in
    let (d, inside, e) = Reach-disjoint dev l t (record { mapped = pos; word = word }) v r in
    (
      All-map _ (λ b. phys dev b + b.npages * page_size ≤ k.bar_start + k.bar_len) t.live
          (λ b w. omega arith) inside,
      AllMapped-map (IsRegisters bars) (IsApart bars dev t.live) (probe_pl_dma_x86 pci bars).calls
          (λ x y q.
            IsRegisters-IsApart bars dev t.live x y
              (All-map _ (λ b. bars.mem_start + reserved ≤ phys dev b) t.live (λ b w. omega arith)
                inside)
              q)
          (probe_pl_dma_x86-AllMapped pci bars),
    )
