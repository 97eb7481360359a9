-- ===== src/Cdma/Program.antt =====
-- The frame that the operations of src/drv_src/pim_math share: clear the status words, write the
-- descriptors and the last one, start the PIM engine, report to the caller's `ioctl_info`.
use lut_pim_driver.Prelude.{
  ℕ, ◌+◌, ◌*◌, ◌^◌, ◌≤◌, ◌<◌, ◌≡◌, refl, ◌∙◌, ap, List, [], ◌∷◌, ◌++◌, u32, arith, length,
  replicate, length-append,
}
use lut_pim_driver.Cdma.{
  CdmaDev, IoctlInfo, Regs, pim_conf_write, dma_desc_read, cdma_desc_status, conf_offset_hpc_clr,
  conf_offset_aim_working, conf_offset_desc_base, conf_offset_desc_num,
}
use lut_pim_driver.Cdma.Emit.{
  Fields, Gen, emit, emit_last, emit_all, emit_all-append, clear, clear_last, clear_all,
  clear_all-add, start,
}
use lut_pim_driver.Cdma.Read.{
  descriptors, statuses, chain, desc_limit, descriptors-emit_all, status-emit_all, status-clear_all,
  status-clear_all_above, statuses_zero, next_desc-clear_all, next_desc-emit_all, desc_idx-emit_all,
}

-- The four configuration writes.
unfoldable pub start_engine : CdmaDev → Gen → Regs → Regs
start_engine d g r = record {
  dma_desc = g.mem;
  config_reg = pim_conf_write conf_offset_desc_num (u32 (g.desc_idx * 0x40)) (
      pim_conf_write conf_offset_desc_base d.desc_mem_base (
        pim_conf_write conf_offset_aim_working 0x1
          (pim_conf_write conf_offset_hpc_clr 0x0 r.config_reg)));
}

-- `user_info->desc_idx = desc_idx; user_info->next_desc = next_desc`.
unfoldable pub report : Gen → IoctlInfo → IoctlInfo
report g info = record info { desc_idx = g.desc_idx; next_desc = g.next_desc }

unfoldable pub finish : CdmaDev → IoctlInfo → Regs → Gen → Regs × IoctlInfo
unfolding start_engine report
finish d info r g = (start_engine d g r, report g info)

-- The descriptor memory holds `program` as a chain from its start, and the status words of its
-- descriptors are clear.
pub record IsChained (d : CdmaDev) (program : List Fields) (m : ℕ → ℕ) : Type 0 where
  pub descs : descriptors m 0 (length program) ≡ chain d.high_addr (d.desc_mem_base + 0x40) program
  pub cleared : statuses m 0 (length program) ≡ replicate (length program) 0

-- The engine is told the base and the size of the chain; the last descriptor is not counted.
pub record IsStarted (d : CdmaDev) (program : List Fields) (config : ℕ → ℕ) : Type 0 where
  pub desc_base : config 0 ≡ u32 d.desc_mem_base
  pub desc_num : config 0x20 + 0x40 ≡ 0x40 * length program
  pub working : config 0x800 ≡ 1
  pub counters : config 0xa00 ≡ 0

-- The caller is told where the chain ends: `next_desc` is the address behind the last descriptor.
pub record IsReported (d : CdmaDev) (program : List Fields) (info : IoctlInfo) : Type 0 where
  pub count : info.desc_idx + 1 ≡ length program
  pub tail : info.next_desc ≡ u32 (d.desc_mem_base + 0x40 + 0x40 * info.desc_idx)

pub record IsProgrammed (d : CdmaDev) (program : List Fields) (out : Regs × IoctlInfo)
    : Type 0 where
  pub chained : IsChained d program out.0.dma_desc
  pub started : IsStarted d program out.0.config_reg
  pub reported : IsReported d program out.1

module _ (d : CdmaDev) (r : Regs) where
  -- The state once the status words are clear.
  abbrev pub cleared : ℕ → Gen
  cleared n = clear_last (clear_all n (start d r))

  mem-emit_last :
      (f : Fields) (fs : List Fields) (g : Gen)
      → (emit_last d f (emit_all d fs g)).mem ≡ (emit_all d (fs ++ f ∷ []) g).mem
  unfolding emit_last emit_all emit
  mem-emit_last f fs g = rw (emit_all-append d fs (f ∷ []) g) refl

  mem-cleared : (n : ℕ) → (cleared n).mem ≡ (clear_all (n + 1) (start d r)).mem
  unfolding clear_last clear_all clear
  mem-cleared n = rw (clear_all-add n 1 (start d r)) refl

  next_desc-cleared : (n : ℕ) → (cleared n).next_desc ≡ u32 (d.desc_mem_base + 0x40)
  unfolding clear_last start
  next_desc-cleared n = rw (next_desc-clear_all n (start d r)) (omega arith)

  -- The status word of descriptor `j`, if the pass reached it, and if it did not.
  pub status-cleared :
      (fs : List Fields) (last : Fields) (n j : ℕ)
      → j < n + 1
      → n < desc_limit
      → length fs < desc_limit
      → dma_desc_read j cdma_desc_status (emit_last d last (emit_all d fs (cleared n))).mem ≡ 0
  unfolding start clear_last
  status-cleared fs last n j h l w = rw (mem-emit_last last fs (cleared n)) (
      status-emit_all d (fs ++ last ∷ []) (cleared n) j (omega arith)
        (omega (arith, length-append {0} fs (last ∷ [])))
      ∙ ap (dma_desc_read j cdma_desc_status) (mem-cleared n)
      ∙ status-clear_all (n + 1) (start d r) j (omega arith) (omega arith) (omega arith))

  pub status-not_cleared :
      (fs : List Fields) (last : Fields) (n j : ℕ)
      → n < j
      → j < desc_limit
      → length fs < desc_limit
      → dma_desc_read j cdma_desc_status (emit_last d last (emit_all d fs (cleared n))).mem
        ≡ dma_desc_read j cdma_desc_status r.dma_desc
  unfolding start clear_last
  status-not_cleared fs last n j h l w = rw (mem-emit_last last fs (cleared n)) (
      status-emit_all d (fs ++ last ∷ []) (cleared n) j l
        (omega (arith, length-append {0} fs (last ∷ [])))
      ∙ ap (dma_desc_read j cdma_desc_status) (mem-cleared n)
      ∙ status-clear_all_above (n + 1) (start d r) j (omega arith) l)

  pub descriptors-cleared :
      (n : ℕ) (fs : List Fields) (last : Fields)
      → length fs < desc_limit
      → descriptors (emit_last d last (emit_all d fs (cleared n))).mem 0 (length (fs ++ last ∷ []))
        ≡ chain d.high_addr (d.desc_mem_base + 0x40) (fs ++ last ∷ [])
  unfolding clear_last
  descriptors-cleared n fs last h = rw (mem-emit_last last fs (cleared n)) (
      descriptors-emit_all d (fs ++ last ∷ []) (cleared n) (d.desc_mem_base + 0x40)
        (next_desc-cleared n) (omega (arith, length-append {0} fs (last ∷ []))))

  -- A pass that reaches every descriptor but the last one, and the write that ends it.
  pub IsChained_lem :
      (n : ℕ) (fs : List Fields) (last : Fields)
      → length fs ≤ n
      → n < desc_limit
      → IsChained d (fs ++ last ∷ []) (emit_last d last (emit_all d fs (cleared n))).mem
  IsChained_lem n fs last e h = record {
    descs = descriptors-cleared n fs last (omega arith);
    cleared = statuses_zero _ 0 (length (fs ++ last ∷ [])) (λ j lo hi.
        status-cleared fs last n j (omega (arith, length-append {0} fs (last ∷ []))) h
          (omega arith));
  }

  -- Where the last descriptor's writes leave the two variables.
  ends :
      (n : ℕ) (fs : List Fields) (last : Fields)
      → length fs < desc_limit
      → let g = emit_last d last (emit_all d fs (cleared n)) in
        (g.desc_idx ≡ length fs) × (g.next_desc ≡ u32 (d.desc_mem_base + 0x40 + 0x40 * length fs))
  unfolding emit_last clear_last
  ends n fs last h = (
    omega (arith, desc_idx-emit_all d fs (cleared n) (omega arith)),
    next_desc-emit_all d fs (cleared n) (d.desc_mem_base + 0x40) (next_desc-cleared n),
  )

  pub IsStarted_lem :
      (info : IoctlInfo) (n : ℕ) (fs : List Fields) (last : Fields)
      → length fs < 2 ^ 26
      → let out = finish d info r (emit_last d last (emit_all d fs (cleared n))) in
        IsStarted d (fs ++ last ∷ []) out.0.config_reg × IsReported d (fs ++ last ∷ []) out.1
  unfolding finish pim_conf_write
  IsStarted_lem info n fs last h =
      let (i, t) = ends n fs last (omega arith) in
      let c : length (fs ++ last ∷ []) ≡ length fs + 1 = length-append fs (last ∷ []) in
      (
        record { desc_base = refl; desc_num = omega arith; working = refl; counters = refl },
        record { count = omega arith; tail = rw i t },
      )

  pub IsProgrammed_lem :
      (info : IoctlInfo) (n : ℕ) (fs : List Fields) (last : Fields)
      → n ≡ length fs
      → length fs < 2 ^ 26
      → IsProgrammed d
          (fs ++ last ∷ [])
          (finish d info r (emit_last d last (emit_all d fs (cleared n))))
  unfolding finish
  IsProgrammed_lem info n fs last e h = record {
    chained = IsChained_lem n fs last (omega arith) (omega arith);
    started = (IsStarted_lem info n fs last h).0;
    reported = (IsStarted_lem info n fs last h).1;
  }
