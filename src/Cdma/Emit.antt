-- ===== src/Cdma/Emit.antt =====
-- The eight writes that fill one descriptor and the write that clears its status, as they recur in
-- src/drv_src/pim_math: `desc_idx` and `next_desc` are the local variables of an operation.
use lut_pim_driver.Prelude.{
  ℕ, zero, suc, ◌+◌, ◌*◌, ◌≡◌, refl, List, [], ◌∷◌, ◌++◌, u32, u64, arith, grid, for_step,
}
use lut_pim_driver.Cdma.{
  CdmaDev, Regs, dma_desc_write, cdma_next_de_l, cdma_next_de_h, cdma_desc_sa_l, cdma_desc_sa_h,
  cdma_desc_da_l, cdma_desc_da_h, cdma_desc_len, cdma_desc_status, cdma_desc_info,
}

-- The fields of a descriptor that an operation chooses.
pub record Fields : Type 0 where
  pub sa_l : ℕ
  pub sa_h : ℕ
  pub da_l : ℕ
  pub da_h : ℕ
  pub len : ℕ
  pub info : ℕ

pub record Gen : Type 0 where
  pub mem : ℕ → ℕ
  pub desc_idx : ℕ
  pub next_desc : ℕ

-- The eight `dma_desc_write` calls, in their order.
unfoldable pub write_fields : (high_addr desc_idx next_desc : ℕ) → Fields → (ℕ → ℕ) → ℕ → ℕ
write_fields high_addr desc_idx next_desc f m = dma_desc_write desc_idx cdma_desc_info f.info (
    dma_desc_write desc_idx cdma_desc_len f.len (
      dma_desc_write desc_idx cdma_desc_da_h f.da_h (
        dma_desc_write desc_idx cdma_desc_da_l f.da_l (
          dma_desc_write desc_idx cdma_desc_sa_h f.sa_h (
            dma_desc_write desc_idx cdma_desc_sa_l f.sa_l (
              dma_desc_write desc_idx cdma_next_de_h high_addr
                (dma_desc_write desc_idx cdma_next_de_l next_desc m)))))))

-- The writes, then `desc_idx++` and `next_desc += 0x40`.
unfoldable pub emit : CdmaDev → Fields → Gen → Gen
emit d f g = record {
  mem = write_fields d.high_addr g.desc_idx g.next_desc f g.mem;
  desc_idx = u32 (g.desc_idx + 1);
  next_desc = u32 (g.next_desc + 0x40);
}

-- The writes of the last descriptor, which moves neither variable.
unfoldable pub emit_last : CdmaDev → Fields → Gen → Gen
emit_last d f g = record g { mem = write_fields d.high_addr g.desc_idx g.next_desc f g.mem }

-- `dma_desc_write(desc_idx++, CDMA_DESC_STATUS, 0)`.
unfoldable pub clear : Gen → Gen
clear g = record g {
  mem = dma_desc_write g.desc_idx cdma_desc_status 0 g.mem;
  desc_idx = u32 (g.desc_idx + 1);
}

-- `dma_desc_write(desc_idx, CDMA_DESC_STATUS, 0); desc_idx = 0`.
unfoldable pub clear_last : Gen → Gen
clear_last g = record g { mem = dma_desc_write g.desc_idx cdma_desc_status 0 g.mem; desc_idx = 0 }

-- `desc_idx = 0; next_desc = cdma_dev->desc_mem_base + 0x40`.
unfoldable pub start : CdmaDev → Regs → Gen
start d r = record {
  mem = r.dma_desc;
  desc_idx = 0;
  next_desc = u32 (u64 (d.desc_mem_base + 0x40));
}

module _ (d : CdmaDev) where
  unfoldable pub emit_all : List Fields → Gen → Gen
  emit_all [] g = g
  emit_all (f ∷ fs) g = emit_all fs (emit d f g)

  pub emit_all-append :
      (xs ys : List Fields) (g : Gen) → emit_all (xs ++ ys) g ≡ emit_all ys (emit_all xs g)
  unfolding emit_all
  emit_all-append [] ys g = refl
  emit_all-append (x ∷ xs) ys g = emit_all-append xs ys (emit d x g)

  -- A loop whose rounds each emit a list emits the grid of these lists.
  pub for_step-emit_all :
      (F : ℕ → List Fields) (body : ℕ → Gen → Gen)
      → ((i : ℕ) (g : Gen) → body i g ≡ emit_all (F i) g)
      → (m step i : ℕ) (g : Gen) → for_step m step i body g ≡ emit_all (grid m step i F) g
  unfolding for_step emit_all grid
  for_step-emit_all F body h zero step i g = refl
  for_step-emit_all F body h (suc m) step i g =
      rw (h i g, emit_all-append (F i) (grid m step (i + step) F) g)
        (for_step-emit_all F body h m step (i + step) (emit_all (F i) g))

unfoldable pub clear_all : ℕ → Gen → Gen
clear_all zero g = g
clear_all (suc n) g = clear_all n (clear g)

pub clear_all-add : (m n : ℕ) (g : Gen) → clear_all (m + n) g ≡ clear_all n (clear_all m g)
unfolding clear_all
clear_all-add zero n g = let e : 0 + n ≡ n = omega arith in rw e
clear_all-add (suc m) n g =
    let e : suc m + n ≡ suc (m + n) = omega arith in rw e (clear_all-add m n (clear g))

-- A loop whose rounds each clear `c` descriptors clears `m * c`.
pub for_step-clear_all :
    (c : ℕ) (body : ℕ → Gen → Gen)
    → ((i : ℕ) (g : Gen) → body i g ≡ clear_all c g)
    → (m step i : ℕ) (g : Gen) → for_step m step i body g ≡ clear_all (m * c) g
unfolding for_step clear_all
for_step-clear_all c body h zero step i g = let e : 0 * c ≡ 0 = omega arith in rw e
for_step-clear_all c body h (suc m) step i g =
    let e : suc m * c ≡ c + m * c = omega arith in
    rw (e, clear_all-add c (m * c) g, h i g)
      (for_step-clear_all c body h m step (i + step) (clear_all c g))

-- `dma_desc_write(desc_idx, CDMA_DESC_STATUS, 0)`, which leaves `desc_idx` alone.
unfoldable pub clear_here : Gen → Gen
clear_here g = record g { mem = dma_desc_write g.desc_idx cdma_desc_status 0 g.mem }
