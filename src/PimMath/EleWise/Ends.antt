-- ===== src/PimMath/EleWise/Ends.antt =====
-- Whether the loops of `elewise` of src/drv_src/pim_math/elewise.c end.
use lut_pim_driver.Prelude.{ℕ, ◌+◌, ◌^◌, ◌≤◌, ◌<◌, ◌≡◌, ◌⊎◌, inl, inr, refl, arith, for_u32}
use native.Mathlib.Decide.{dec_lt}
use lut_pim_driver.Cdma.{CdmaDev, IoctlInfo}
use lut_pim_driver.Cdma.Emit.{Gen, emit_all, clear_all, clear_last}
use lut_pim_driver.PimMath.EleWise.{elewise_clear, elewise_fill, elewise_tile}
use lut_pim_driver.PimMath.Runs.{Runs, for_u32-Runs, Runs-round, Runs-endless}

module _ (info : IoctlInfo) where
  -- The two nested loops, with what they do for the tile at `p` and `r`.
  abbrev pub TileRuns : (tile : (p r : ℕ) → Gen → Gen) → Gen → Gen → Type 0
  TileRuns tile g h =
      Runs 1 info.p_size (λ p. Runs 512 info.r_size (λ r k l. l ≡ tile p r k) 0) 0 g h

  -- The clearing loops, with three status words for each tile, and the write behind them.
  abbrev pub ClearRuns : Gen → Gen → Type 0
  ClearRuns g h = (k : Gen) × TileRuns (λ p r. clear_all 3) g k × (h ≡ clear_last k)

  -- The loops that write the three descriptors of each tile.
  abbrev pub FillRuns : CdmaDev → (opcode : ℕ) → Gen → Gen → Type 0
  FillRuns d opcode = TileRuns (λ p r. emit_all d (elewise_tile d info opcode p r))

  TileRuns-endless :
      (tile : (p r : ℕ) → Gen → Gen) (g h : Gen)
      → 0 < info.p_size
      → 2 ^ 32 < info.r_size + 512
      → ¬ (TileRuns tile g h)
  TileRuns-endless tile g h p w runs =
      let (t, row) = Runs-round 1 info.p_size _ p runs in
      Runs-endless 512 0x800000 info.r_size _ refl (omega arith) w (omega arith) row

  TileRuns-for_u32 :
      (tile : (p r : ℕ) → Gen → Gen) (g : Gen)
      → info.p_size < 2 ^ 32
      → (info.p_size ≡ 0) ⊎ (info.r_size + 512 ≤ 2 ^ 32)
      → TileRuns tile g (for_u32 1 info.p_size (λ p. for_u32 512 info.r_size (tile p)) g)
  TileRuns-for_u32 tile g w fits =
      for_u32-Runs 1 info.p_size (λ p. for_u32 512 info.r_size (tile p)) _ (omega arith)
        (omega arith)
        (λ p s l. elim fits [
          | inl z ↦ absurd (omega (arith, z, l))
          | inr f ↦ for_u32-Runs 512 info.r_size (tile p) _ (omega arith) f (λ r k q. refl) s
        ])
        g

  elewise-ClearRuns :
      (g : Gen)
      → info.p_size < 2 ^ 32
      → (info.p_size ≡ 0) ⊎ (info.r_size + 512 ≤ 2 ^ 32)
      → ClearRuns g (elewise_clear info g)
  unfolding elewise_clear clear_all
  elewise-ClearRuns g w fits = (
    for_u32 1 info.p_size (λ p. for_u32 512 info.r_size (λ r. clear_all 3)) g,
    TileRuns-for_u32 (λ p r. clear_all 3) g w fits,
    refl,
  )

  elewise-FillRuns :
      (d : CdmaDev) (opcode : ℕ) (g : Gen)
      → info.p_size < 2 ^ 32
      → (info.p_size ≡ 0) ⊎ (info.r_size + 512 ≤ 2 ^ 32)
      → FillRuns d opcode g (elewise_fill d info opcode g)
  unfolding elewise_fill emit_all
  elewise-FillRuns d opcode g w fits =
      TileRuns-for_u32 (λ p r. emit_all d (elewise_tile d info opcode p r)) g w fits

  -- For a 32-bit `p_size`: if there are no rows, or `r_size` and one tile of 512 more fit in 32 bits,
  -- then the loops of `elewise` end, those that clear the status words and those that write the
  -- descriptors, and they leave what `elewise_clear` and `elewise_fill` say. In all other cases neither
  -- of them ends, from whatever state and in whatever state.
  pub elewise_ends :
      (d : CdmaDev) (opcode : ℕ) (g h : Gen)
      → info.p_size < 2 ^ 32
      → (((info.p_size ≡ 0) ⊎ (info.r_size + 512 ≤ 2 ^ 32))
          × ClearRuns g (elewise_clear info g)
          × FillRuns d opcode g (elewise_fill d info opcode g))
        ⊎ ((0 < info.p_size)
            × (2 ^ 32 < info.r_size + 512)
            × (¬ (ClearRuns g h))
            × (¬ (FillRuns d opcode g h)))
  elewise_ends d opcode g h w = elim (dec_lt (2 ^ 32) (info.r_size + 512)) [
    | no l ↦
        let fits : info.r_size + 512 ≤ 2 ^ 32 = omega arith in
        inl (inr fits, elewise-ClearRuns g w (inr fits), elewise-FillRuns d opcode g w (inr fits))
    | yes l ↦ elim (dec_lt 0 info.p_size) [
      | no z ↦
          let empty : info.p_size ≡ 0 = omega arith in
          inl (
            inl empty,
            elewise-ClearRuns g w (inl empty),
            elewise-FillRuns d opcode g w (inl empty),
          )
      | yes z ↦
          inr (z, l, (λ (k, runs, e). TileRuns-endless _ g k z l runs), TileRuns-endless _ g h z l)
    ]
  ]
