-- ===== src/PlDma/Cover.antt =====
-- Which descriptors `dma_sg_tx` hands to the engine.
use lut_pim_driver.Prelude.{
  ℕ, zero, suc, ap, ap₂, ◌∙◌, ◌+◌, ◌-◌, ◌*◌, ◌/◌, ◌%◌, ◌^◌, ◌≤◌, ◌<◌, ◌≡◌, ◌≢◌, ◌⊎◌, inl, inr, refl,
  List, [], ◌∷◌, Option, none, some, true, false, ◌==◌, ltb, if◌then◌else◌, u32, sub_u32, arith,
  length,
}
use native.Mathlib.Decide.{dec_lt}
use lut_pim_driver.Cdma.{CdmaDev, IoctlInfo}
use lut_pim_driver.Cdma.Emit.{Fields}
use lut_pim_driver.Cdma.Program.{IsReported}
use lut_pim_driver.PlDma.{
  Code, success, Trace, Engine, Tx, next, wait_intr, sg_submit, sg_small, sg_chunks, sg_remain,
  dma_sg_tx, returned, ◌>>=◌, cdma_taildesc_pntr_l, cdma_curdesc_pntr_l,
}

-- The first and the last descriptor of each transfer, the latest transfer first; `tail` is a
-- write of the tail pointer whose current pointer is still to come.
unfoldable pub sg_runs : (tail : Option ℕ) → Trace → List (ℕ × ℕ)
sg_runs tail [] = []
sg_runs none (w ∷ t) =
    if w.reg == cdma_taildesc_pntr_l then sg_runs (some w.value) t else sg_runs none t
sg_runs (some e) (w ∷ t) =
    if w.reg == cdma_curdesc_pntr_l then (w.value, e) ∷ sg_runs none t else sg_runs (some e) t

-- The transfers follow each other without a gap, from the descriptor at `lo` to the one before
-- `hi`, with at most 256 descriptors each.
abbrev pub IsCover : (lo hi : ℕ) → List (ℕ × ℕ) → Type 0
IsCover lo hi [] = lo ≡ hi
IsCover lo hi ((s, e) ∷ rs) = (e + 0x40 ≡ hi) × (s ≤ e) × (e ≤ s + 0x40 * 255) × IsCover lo s rs

-- The engine completes each transfer without an error.
abbrev pub Completes : Engine → Type 0
Completes hw = (t : Trace) → (0 < (hw t).ret) × ((hw t).err ≡ false)

sg_runs-sg_submit :
    (d : CdmaDev) (n s e : ℕ) (t : Trace)
    → s < 2 ^ 32
    → e < 2 ^ 32
    → sg_runs none (sg_submit d n s e t) ≡ (s, e) ∷ sg_runs none t
unfolding sg_runs sg_submit
sg_runs-sg_submit d n s e t hs he =
    let a : u32 s ≡ s = omega arith in let b : u32 e ≡ e = omega arith in rw (a, b) refl

pub wait_intr_ok : (hw : Engine) (t : Trace) → Completes hw → wait_intr hw t ≡ next (hw t).ret t
unfolding wait_intr
wait_intr_ok hw t ok =
    let e : ((hw t).ret == 0) ≡ false = ground (arith, (ok t).0) in rw (e, (ok t).1) refl

-- A part that goes on with the transfers made up to the descriptor at `hi`.
record IsSubmitted (lo hi : ℕ) (tx : Tx (ℕ × ℕ)) : Type 0 where
  ret : ℕ
  end_desc : ℕ
  trace : Trace
  same : tx ≡ next (ret, end_desc) trace
  pos : 0 < ret
  last : end_desc + 0x40 ≡ hi
  cover : IsCover lo hi (sg_runs none trace)

-- A success, with transfers that cover the first `n` descriptors.
abbrev pub IsSent : CdmaDev → Code × Trace → (n : ℕ) → Type 0
IsSent d (c, t) n =
    ((r : ℕ) × (0 < r) × (c ≡ success r))
    × IsCover d.desc_mem_base (d.desc_mem_base + 0x40 * n) (sg_runs none t)

module _ (d : CdmaDev) (hw : Engine) (ok : Completes hw) where
  -- The address of the chunk `k`.
  abbrev chunk : ℕ → ℕ
  chunk k = d.desc_mem_base + 0x40 * (255 * k)

  abbrev chunk_trace : ℕ → Trace → Trace
  chunk_trace k t = sg_submit d 255 (chunk k) (chunk k + 254 * 0x40) t

  sg_chunks-suc :
      (n k ret end_desc : ℕ) (t : Trace)
      → chunk (k + 1) < 2 ^ 32
      → sg_chunks d hw (suc n) k ret end_desc t
        ≡ sg_chunks d hw n
            (k + 1)
            (hw (chunk_trace k t)).ret
            (chunk k + 254 * 0x40)
            (chunk_trace k t)
  unfolding sg_chunks
  sg_chunks-suc n k ret end_desc t fits =
      let start : ℕ = u32 (d.desc_mem_base + k * 255 * 0x40) in
      let e : start ≡ chunk k = omega arith in
      let w : u32 (start + 254 * 0x40) ≡ chunk k + 254 * 0x40 = omega arith in
      ap₂
        (λ s f.
          wait_intr hw (sg_submit d 255 s f t) >>= λ ret' u. sg_chunks d hw n (k + 1) ret' f u)
        e w
      ∙ ap (λ x. x >>= λ ret' u. sg_chunks d hw n (k + 1) ret' (chunk k + 254 * 0x40) u)
          (wait_intr_ok hw (chunk_trace k t) ok)

  chunk_trace-IsCover :
      (k : ℕ) (t : Trace)
      → chunk (k + 1) < 2 ^ 32
      → IsCover d.desc_mem_base (chunk k) (sg_runs none t)
      → IsCover d.desc_mem_base (chunk (k + 1)) (sg_runs none (chunk_trace k t))
  chunk_trace-IsCover k t fits c =
      rw (sg_runs-sg_submit d 255 (chunk k) (chunk k + 254 * 0x40) t (omega arith) (omega arith))
        (omega arith, omega arith, omega arith, c)

  -- The state behind the chunks, for `n` more of them.
  sg_chunks_lem :
      (n k ret end_desc : ℕ) (t : Trace)
      → chunk (k + n) < 2 ^ 32
      → 0 < ret
      → end_desc + 0x40 ≡ chunk k
      → IsCover d.desc_mem_base (chunk k) (sg_runs none t)
      → IsSubmitted d.desc_mem_base (chunk (k + n)) (sg_chunks d hw n k ret end_desc t)
  unfolding sg_chunks
  sg_chunks_lem zero k ret end_desc t fits r last c =
      let m : k + 0 ≡ k = omega arith in
      rw m (record {
        ret = ret;
        end_desc = end_desc;
        trace = t;
        same = refl;
        pos = r;
        last = last;
        cover = c;
      })
  sg_chunks_lem (suc n) k ret end_desc t fits r last c =
      let m : k + suc n ≡ k + 1 + n = omega arith in
      rw (sg_chunks-suc n k ret end_desc t (omega arith), m)
        (sg_chunks_lem n (k + 1) _ _ (chunk_trace k t) (omega arith) (ok _).0 (omega arith)
          (chunk_trace-IsCover k t (omega arith) c))

  -- The whole loop, from a state without transfers.
  chunks_lem :
      (t : Trace) (n : ℕ)
      → sg_runs none t ≡ []
      → chunk n < 2 ^ 32
      → 0 < n
      → IsSubmitted d.desc_mem_base (chunk n) (sg_chunks d hw n 0 0 0 t)
  chunks_lem t zero h fits p = absurd (omega arith)
  chunks_lem t (suc n) h fits p =
      let m : suc n ≡ 1 + n = omega arith in
      let e : sg_chunks d hw (suc n) 0 0 0 t ≡ _ = sg_chunks-suc n 0 0 0 t (omega arith) in
      rw e (
        rw m (
          sg_chunks_lem n 1 _ _ (chunk_trace 0 t) (omega arith) (ok _).0 (omega arith)
            (chunk_trace-IsCover 0 t (omega arith) (rw h (omega arith)))))

  module _ (program : List Fields) (info : IoctlInfo) (w : IsReported d program info) (t : Trace)
      (none_yet : sg_runs none t ≡ []) where
    -- One transfer, or the chunks and the descriptors that are left.
    small :
        d.desc_mem_base + 0x40 * length program < 2 ^ 32
        → info.desc_idx < 255
        → IsSent d (dma_sg_tx d hw info.desc_idx info.next_desc t) (length program)
    unfolding dma_sg_tx sg_small sg_runs
    small fits lo =
        let i = info.desc_idx in
        let less : ltb i 255 ≡ true = ground arith in
        let e : sub_u32 info.next_desc 0x40 ≡ d.desc_mem_base + 0x40 * i =
          omega (arith, w.tail, w.count) in
        let u = sg_submit d i d.desc_mem_base (d.desc_mem_base + 0x40 * i) t in
        let n : ((hw u).ret == 0) ≡ false = ground (arith, (ok u).0) in
        rw (less, e, n)
          (
            ((hw u).ret, (ok u).0, refl),
            (
              omega (arith, w.count),
              omega (arith, w.count),
              omega (arith, w.count),
              rw none_yet (omega arith),
            ),
          )

    large :
        d.desc_mem_base + 0x40 * length program < 2 ^ 32
        → 255 ≤ info.desc_idx
        → info.desc_idx % 255 ≢ 0
        → IsSent d (dma_sg_tx d hw info.desc_idx info.next_desc t) (length program)
    unfolding dma_sg_tx sg_remain
    large fits lo side =
        let i = info.desc_idx in
        let big : ltb i 255 ≡ false = ground arith in
        let rest : (i % 255 == 0) ≡ false = ground arith in
        let c = chunks_lem t (i / 255) none_yet (omega (arith, w.count)) (omega arith) in
        let s : u32 (c.end_desc + 0x40) ≡ chunk (i / 255) = omega (arith, c.last, w.count) in
        let e : sub_u32 info.next_desc 0x40 ≡ d.desc_mem_base + 0x40 * i =
          omega (arith, w.tail, w.count) in
        let u = sg_submit d (i % 255) (chunk (i / 255)) (d.desc_mem_base + 0x40 * i) c.trace in
        let q : returned success (wait_intr hw u) ≡ (success (hw u).ret, u) =
          ap (returned success) (wait_intr_ok hw u ok) in
        rw (big, c.same, rest, s, e, q)
          (
            ((hw u).ret, (ok u).0, refl),
            rw
                (sg_runs-sg_submit d (i % 255) (chunk (i / 255)) (d.desc_mem_base + 0x40 * i)
                  c.trace (omega (arith, w.count)) (omega (arith, w.count)))
                (omega (arith, w.count), omega arith, omega arith, c.cover),
          )

    -- From a state without transfers: where the engine completes each transfer and the addresses do not wrap, `dma_sg_tx` succeeds
    -- on what an operation reports, and its transfers cover the descriptors of the program without
    -- a gap, with at most 256 in each, unless the number of descriptors before the last one is a
    -- positive multiple of 255.
    pub dma_sg_tx-IsCover :
        d.desc_mem_base + 0x40 * length program < 2 ^ 32
        → (info.desc_idx < 255) ⊎ (info.desc_idx % 255 ≢ 0)
        → IsSent d (dma_sg_tx d hw info.desc_idx info.next_desc t) (length program)
    dma_sg_tx-IsCover fits side =
        let i = info.desc_idx in
        elim (dec_lt i 255) [
          | yes p ↦ small fits p
          | no p ↦ large fits (omega arith) (elim side [ inl q ↦ absurd (omega arith) | inr q ↦ q ])
        ]

    -- From a state without transfers, where the engine completes each transfer and the addresses do
    -- not wrap: if the number of descriptors before the last one is a positive multiple of 255,
    -- `dma_sg_tx` succeeds on what an operation reports, but its transfers leave the last descriptor out.
    pub dma_sg_tx-skips_last :
        d.desc_mem_base + 0x40 * length program < 2 ^ 32
        → 255 ≤ info.desc_idx
        → info.desc_idx % 255 ≡ 0
        → IsSent d (dma_sg_tx d hw info.desc_idx info.next_desc t) (length program - 1)
    unfolding dma_sg_tx sg_remain
    dma_sg_tx-skips_last fits lo side =
        let i = info.desc_idx in
        let big : ltb i 255 ≡ false = ground arith in
        let rest : (i % 255 == 0) ≡ true = ground arith in
        let c = chunks_lem t (i / 255) none_yet (omega (arith, w.count)) (omega arith) in
        let m : chunk (i / 255) ≡ d.desc_mem_base + 0x40 * (length program - 1) =
          omega (arith, w.count) in
        rw (big, c.same, rest) ((c.ret, c.pos, refl), rw m at c.cover)
