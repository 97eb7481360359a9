-- ===== src/PimMath/Decoupled/Tile.antt =====
-- The height of a tile of rows and the configuration that goes with it.
use lut_pim_driver.Prelude.{
  ℕ, zero, suc, ◌+◌, ◌-◌, ◌*◌, ◌/◌, ◌^◌, ◌≤◌, ◌<◌, ◌≡◌, ◌⊎◌, inl, inr, leb, if◌then◌else◌, arith,
}
use native.Mathlib.Decide.{dec_lt}
use lut_pim_driver.Cdma.{IoctlInfo}
use lut_pim_driver.PimMath.{rounds}
use lut_pim_driver.PimMath.Decoupled.{
  a_row_pad, is_short, p_size_tile, tile_config, decoupled_config,
}

-- The rows of A, padded to a multiple of 8, that the tile `i` holds.
abbrev pub padded_rows : IoctlInfo → ℕ
padded_rows info = (info.p_size + 7) / 8 * 8

abbrev pub tile_rows : IoctlInfo → (i : ℕ) → ℕ
tile_rows info i = if leb (i * 32 + 32) (padded_rows info) then 32 else padded_rows info - i * 32

-- `Decoupled_config` in the round of the tile `i`: the code of a tile of 8, 16 or 24 rows, and at a
-- full tile still the initial 0, which is the code of 8 rows; the `switch` has the code 3 for 32.
abbrev pub left_config : IoctlInfo → (i : ℕ) → ℕ
left_config info i =
    if leb (i * 32 + 32) (padded_rows info) then 0 else (padded_rows info - i * 32) / 8 - 1

-- The value before the round of the tile `i`: that of the round before it.
abbrev pub config_before : IoctlInfo → (i : ℕ) → ℕ
config_before info zero = 0
config_before info (suc i) = left_config info i

module _ (info : IoctlInfo) (fits : info.p_size + 32 ≤ 2 ^ 32) where
  a_row_pad_lem : a_row_pad info ≡ padded_rows info
  unfolding a_row_pad
  a_row_pad_lem = omega arith

  pub p_size_tile_lem :
      (i : ℕ) → i < rounds info.p_size 32 → p_size_tile info (i * 32) ≡ tile_rows info i
  unfolding p_size_tile is_short
  p_size_tile_lem i h = rw a_row_pad_lem (ground arith)

  pub decoupled_config_lem :
      (i : ℕ)
      → i < rounds info.p_size 32
      → decoupled_config info (i * 32) (config_before info i) ≡ left_config info i
  unfolding decoupled_config p_size_tile is_short tile_config
  decoupled_config_lem zero h = rw a_row_pad_lem (ground arith)
  decoupled_config_lem (suc i) h = rw a_row_pad_lem (ground arith)

  -- Where `p_size` and one step more fit in 32 bits: in each round of the loop over the tiles of rows, the tile is either full (32 rows) and leaves
  -- the configuration as it was, whatever it was, or it has fewer than 32 rows, a positive multiple
  -- of 8, and the configuration becomes that number of rows over 8, less 1. So case 32 of the
  -- switch is not reached for these sizes.
  pub decoupled_config_cases :
      (i config : ℕ)
      → i < rounds info.p_size 32
      → ((p_size_tile info (i * 32) ≡ 32) × (decoupled_config info (i * 32) config ≡ config))
        ⊎ ((p_size_tile info (i * 32) < 32)
            × (p_size_tile info (i * 32) ≡ 8 * (decoupled_config info (i * 32) config + 1)))
  unfolding decoupled_config p_size_tile is_short tile_config
  decoupled_config_cases i config h =
      rw a_row_pad_lem (elim (dec_lt (padded_rows info) (i * 32 + 32)) [
        | yes l ↦ inr (ground arith, ground arith)
        | no l ↦ inl (ground arith, ground arith)
      ])

-- The heights that the loop gives to its first `n` tiles of rows, added up.
unfoldable pub heights : IoctlInfo → (n : ℕ) → ℕ
unfolding p_size_tile
heights info zero = 0
heights info (suc n) = heights info n + p_size_tile info (n * 32)

module _ (info : IoctlInfo) (fits : info.p_size + 32 ≤ 2 ^ 32) where
  heights_lem : (n : ℕ) → n < rounds info.p_size 32 → heights info n ≡ n * 32
  unfolding heights
  heights_lem zero h = omega arith
  heights_lem (suc n) h = ground (arith, heights_lem n, p_size_tile_lem info fits n (omega arith))

  -- Where `p_size` fits, the tiles of rows cover the rows of A, rounded up to a multiple of 8, exactly:
  -- their heights add up to that number.
  pub heights-padded_rows : heights info (rounds info.p_size 32) ≡ padded_rows info
  unfolding heights
  heights-padded_rows = elim (dec_lt 0 info.p_size) [
    | yes l ↦
        let n = rounds info.p_size 32 - 1 in
        let e : rounds info.p_size 32 ≡ suc n = omega arith in
        rw e (ground (arith, heights_lem n, p_size_tile_lem info fits n (omega arith)))
    | no l ↦ let e : rounds info.p_size 32 ≡ 0 = omega arith in rw e (omega arith)
  ]
