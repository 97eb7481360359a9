-- ===== src/PimMath/Decoupled/Rows.antt =====
-- The descriptors that the loops of `matmul_decoupled` write, as lists.
use lut_pim_driver.Prelude.{
  ℕ, zero, suc, ◌+◌, ◌*◌, ◌^◌, ◌≤◌, ◌<◌, ◌≡◌, ◌⊎◌, refl, sym, ap, ap₂, ◌∙◌, List, [], ◌∷◌, ◌++◌,
  u32, u64, arith, grid, grid-suc, for_u32, for_u32-at,
}
use lut_pim_driver.Cdma.{CdmaDev, IoctlInfo}
use lut_pim_driver.Cdma.Emit.{Fields, Gen, emit_all, emit_all-append}
use lut_pim_driver.PimMath.{rounds}
use lut_pim_driver.PimMath.Decoupled.{
  Pass, decoupled_a, decoupled_b, decoupled_c, decoupled_barrier, decoupled_q, decoupled_result,
  decoupled_r, decoupled_p, decoupled_fill,
}
use lut_pim_driver.PimMath.Decoupled.Tile.{
  tile_rows, left_config, config_before, p_size_tile_lem, decoupled_config_lem,
}

-- The sizes at which no loop counter wraps, and no round divides by zero.
pub record FitsDecoupled (info : IoctlInfo) : Type 0 where
  pub p_fits : info.p_size + 32 ≤ 2 ^ 32
  pub q_fits : info.q_size + 32 ≤ 2 ^ 32
  pub r_fits : info.r_size + 16 ≤ 2 ^ 32
  pub divides :
      ((info.p_size ≡ 0) ⊎ ((info.q_size ≡ 0) ⊎ (info.r_size ≡ 0)))
      ⊎ ((0 < u32 (info.q_size * info.r_size)) × (0 < u32 (info.p_size * info.q_size)))

emit_all-grid :
    (d : CdmaDev) (F : ℕ → List Fields) (k : ℕ) (g : Gen)
    → emit_all d (grid (suc k) 1 0 F) g ≡ emit_all d (F k) (emit_all d (grid k 1 0 F) g)
emit_all-grid d F k g =
    let e : 0 + k * 1 ≡ k = omega arith in
    ap (λ xs. emit_all d xs g) (grid-suc k 1 0 F)
    ∙ emit_all-append d (grid k 1 0 F) (F (0 + k * 1)) g
    ∙ ap (λ j. emit_all d (F j) (emit_all d (grid k 1 0 F) g)) e

-- The rounds of the three loops.
abbrev pub p_rounds : IoctlInfo → ℕ
p_rounds info = rounds info.p_size 32

abbrev pub q_rounds : IoctlInfo → ℕ
q_rounds info = rounds info.q_size 32

abbrev pub r_rounds : IoctlInfo → ℕ
r_rounds info = rounds info.r_size 16

module _ (d : CdmaDev) (info : IoctlInfo) (opcode : ℕ) where
  -- The pair `k` of the cell `n` (cells are counted over all rows of tiles), in the tile `i`.
  abbrev pub decoupled_pair : (i n k : ℕ) → List Fields
  decoupled_pair i n k =
      decoupled_b d info opcode (left_config info i) (u32 (512 * (n * q_rounds info + k)))
      ∷ decoupled_a d info opcode (left_config info i) (i * 32) (tile_rows info i)
          (u64 (32 * tile_rows info i * k))
      ∷ []

  abbrev pub decoupled_cell : (i n : ℕ) → List Fields
  decoupled_cell i n =
      grid (q_rounds info) 1 0 (decoupled_pair i n)
      ++ (decoupled_barrier d info opcode (left_config info i)
          ∷ decoupled_c d info opcode (left_config info i) (u32 (512 * n))
          ∷ decoupled_barrier d info opcode (left_config info i)
          ∷ [])

  abbrev pub decoupled_row : (i : ℕ) → List Fields
  decoupled_row i = grid (r_rounds info) 1 0 (λ j. decoupled_cell i (i * r_rounds info + j))

  abbrev pub decoupled_cells : List Fields
  decoupled_cells = grid (p_rounds info) 1 0 decoupled_row

  -- The state before the pair `k` of the cell `n`.
  abbrev at_pair : (i n : ℕ) → Gen → (k : ℕ) → Pass
  at_pair i n g k = record {
    gen = emit_all d (grid k 1 0 (decoupled_pair i n)) g;
    cnt_a = u64 (32 * tile_rows info i * k);
    cnt_b = u32 (512 * (n * q_rounds info + k));
    cnt_c = u32 (512 * n);
    config = left_config info i;
  }

  at_pair-suc :
      (i n : ℕ) (g : Gen) (k : ℕ)
      → decoupled_q d info opcode (i * 32) (tile_rows info i) (at_pair i n g k)
        ≡ at_pair i n g (suc k)
  unfolding decoupled_q emit_all
  at_pair-suc i n g k =
      let a : u64 (u64 (32 * tile_rows info i * k) + 32 * tile_rows info i)
          ≡ u64 (32 * tile_rows info i * suc k) =
        omega arith in
      let b : u32 (u32 (512 * (n * q_rounds info + k)) + 512)
          ≡ u32 (512 * (n * q_rounds info + suc k)) =
        omega arith in
      rw (a, b, emit_all-grid d (decoupled_pair i n) k g) refl

  -- The state before the cell `n`; `a` is what `cnt_A` was left at.
  abbrev cells : (i n : ℕ) (g : Gen) (a : ℕ) → Pass
  cells i n g a = record {
    gen = g;
    cnt_a = a;
    cnt_b = u32 (512 * (n * q_rounds info));
    cnt_c = u32 (512 * n);
    config = left_config info i;
  }

  at_pair-zero :
      (i n : ℕ) (g : Gen) (a : ℕ) → record (cells i n g a) { cnt_a = 0 } ≡ at_pair i n g 0
  unfolding emit_all grid
  at_pair-zero i n g a =
      let z : u64 (32 * tile_rows info i * 0) ≡ 0 = omega arith in
      let b : n * q_rounds info + 0 ≡ n * q_rounds info = omega arith in rw (z, b) refl

  decoupled_result_lem :
      (i n : ℕ) (g : Gen)
      → decoupled_result d info opcode (at_pair i n g (q_rounds info))
        ≡ cells i
            (suc n)
            (emit_all d (decoupled_cell i n) g)
            (u64 (32 * tile_rows info i * q_rounds info))
  unfolding decoupled_result emit_all
  decoupled_result_lem i n g =
      let b : n * q_rounds info + q_rounds info ≡ suc n * q_rounds info = omega arith in
      let c : u32 (u32 (512 * n) + 512) ≡ u32 (512 * suc n) = omega arith in
      rw (b, c, emit_all-append d (grid (q_rounds info) 1 0 (decoupled_pair i n)) _ g) refl

  module _ (w : FitsDecoupled info) where
    decoupled_r_lem :
        (i n : ℕ) (g : Gen) (a : ℕ)
        → decoupled_r d info opcode (i * 32) (tile_rows info i) (cells i n g a)
          ≡ cells i
              (suc n)
              (emit_all d (decoupled_cell i n) g)
              (u64 (32 * tile_rows info i * q_rounds info))
    unfolding decoupled_r
    decoupled_r_lem i n g a =
        ap
          (λ s.
            decoupled_result d info opcode (
              for_u32 32 info.q_size (λ q. decoupled_q d info opcode (i * 32) (tile_rows info i))
                s))
          (at_pair-zero i n g a)
        ∙ ap (decoupled_result d info opcode) (
            for_u32-at (at_pair i n g) _ 32 info.q_size (q_rounds info) (omega arith)
              (omega (arith, w.q_fits)) (omega arith) (omega arith) (omega arith)
              (λ k h. at_pair-suc i n g k))
        ∙ decoupled_result_lem i n g

    -- `cnt_A` behind `j` cells.
    abbrev left : (i a j : ℕ) → ℕ
    left i a zero = a
    left i a (suc j) = u64 (32 * tile_rows info i * q_rounds info)

    abbrev at_cell : (i : ℕ) (g : Gen) (a j : ℕ) → Pass
    at_cell i g a j =
        cells i (i * r_rounds info + j)
          (emit_all d (grid j 1 0 (λ j. decoupled_cell i (i * r_rounds info + j))) g) (left i a j)

    at_cell-suc :
        (i : ℕ) (g : Gen) (a j : ℕ)
        → decoupled_r d info opcode (i * 32) (tile_rows info i) (at_cell i g a j)
          ≡ at_cell i g a (suc j)
    at_cell-suc i g a j =
        let m : suc (i * r_rounds info + j) ≡ i * r_rounds info + suc j = omega arith in
        decoupled_r_lem i (i * r_rounds info + j) _ _
        ∙ ap₂ (λ n h. cells i n h (left i a (suc j))) m
            (sym (emit_all-grid d (λ j. decoupled_cell i (i * r_rounds info + j)) j g))

    -- The state before the tile of rows `i`.
    abbrev rows : (i : ℕ) (g : Gen) (a : ℕ) → Pass
    rows i g a = record {
      gen = g;
      cnt_a = a;
      cnt_b = u32 (512 * (i * r_rounds info * q_rounds info));
      cnt_c = u32 (512 * (i * r_rounds info));
      config = config_before info i;
    }

    at_cell-zero :
        (i : ℕ) (g : Gen) (a : ℕ)
        → record (rows i g a) { config = left_config info i } ≡ at_cell i g a 0
    unfolding emit_all grid
    at_cell-zero i g a =
        let e : i * r_rounds info + 0 ≡ i * r_rounds info = omega arith in rw e refl

    at_cell-rows :
        (i : ℕ) (g : Gen) (a : ℕ)
        → at_cell i g a (r_rounds info)
          ≡ rows (suc i) (emit_all d (decoupled_row i) g) (left i a (r_rounds info))
    at_cell-rows i g a =
        let e : i * r_rounds info + r_rounds info ≡ suc i * r_rounds info = omega arith in rw e refl

    decoupled_p_lem :
        (i : ℕ) (g : Gen) (a : ℕ)
        → i < p_rounds info
        → decoupled_p d info opcode (i * 32) (rows i g a)
          ≡ rows (suc i) (emit_all d (decoupled_row i) g) (left i a (r_rounds info))
    unfolding decoupled_p
    decoupled_p_lem i g a h =
        let loop : ℕ → Pass → Pass =
          λ t. for_u32 16 info.r_size (λ r. decoupled_r d info opcode (i * 32) t) in
        ap₂ (λ t c. loop t (record (rows i g a) { config = c })) (p_size_tile_lem info w.p_fits i h)
          (decoupled_config_lem info w.p_fits i h)
        ∙ ap (loop (tile_rows info i)) (at_cell-zero i g a)
        ∙ for_u32-at (at_cell i g a) _ 16 info.r_size (r_rounds info) (omega arith)
            (omega (arith, w.r_fits)) (omega arith) (omega arith) (omega arith)
            (λ j l. at_cell-suc i g a j)
        ∙ at_cell-rows i g a

    -- `cnt_A` behind `i` tiles of rows.
    abbrev left_rows : (i : ℕ) → ℕ
    left_rows zero = 0
    left_rows (suc i) = left i (left_rows i) (r_rounds info)

    abbrev at_rows : Gen → (i : ℕ) → Pass
    at_rows g i = rows i (emit_all d (grid i 1 0 decoupled_row) g) (left_rows i)

    at_rows-suc :
        (g : Gen) (i : ℕ)
        → i < p_rounds info
        → decoupled_p d info opcode (i * 32) (at_rows g i) ≡ at_rows g (suc i)
    at_rows-suc g i h =
        decoupled_p_lem i _ (left_rows i) h
        ∙ ap (λ k. rows (suc i) k (left_rows (suc i))) (sym (emit_all-grid d decoupled_row i g))

    at_rows-zero :
        (g : Gen) → record { gen = g; cnt_a = 0; cnt_b = 0; cnt_c = 0; config = 0 } ≡ at_rows g 0
    unfolding emit_all grid
    at_rows-zero g =
        let b : u32 (512 * (0 * r_rounds info * q_rounds info)) ≡ 0 = omega arith in
        let c : u32 (512 * (0 * r_rounds info)) ≡ 0 = omega arith in rw (b, c) refl

    pub decoupled_fill_lem :
        (g : Gen)
        → let s = decoupled_fill d info opcode g in
          (s.gen ≡ emit_all d decoupled_cells g) × (s.config ≡ config_before info (p_rounds info))
    unfolding decoupled_fill emit_all grid
    decoupled_fill_lem g =
        let e : decoupled_fill d info opcode g ≡ at_rows g (p_rounds info) =
          ap (for_u32 32 info.p_size (decoupled_p d info opcode)) (at_rows-zero g)
          ∙ for_u32-at (at_rows g) (decoupled_p d info opcode) 32 info.p_size (p_rounds info)
              (omega arith) (omega (arith, w.p_fits)) (omega arith) (omega arith) (omega arith)
              (at_rows-suc g) in
        rw e (refl, refl)
