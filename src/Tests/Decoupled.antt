-- ===== src/Tests/Decoupled.antt =====
-- `matmul_decoupled` of src/drv_src/pim_math on 70 rows: two tiles of 32 rows and one of 8.
use lut_pim_driver.Prelude.{◌+◌, ◌*◌, ◌<◌, ◌≡◌, ◌⊎◌, inr, [], ◌∷◌, ◌++◌, arith}
use lut_pim_driver.Cdma.{IoctlInfo}
use lut_pim_driver.Cdma.Program.{IsProgrammed}
use lut_pim_driver.PimMath.Decoupled.{
  matmul_decoupled, decoupled_opcode, p_size_tile, decoupled_config,
}
use lut_pim_driver.PimMath.Decoupled.Tile.{decoupled_config_cases}
use lut_pim_driver.PimMath.Decoupled.Rows.{FitsDecoupled, decoupled_cells}
use lut_pim_driver.PimMath.Decoupled.Chain.{decoupled_last, matmul_decoupled-IsProgrammed}
use lut_pim_driver.Tests.Math.{device, operands, before}

abbrev rows_70 : IoctlInfo
rows_70 = record operands { p_size = 70; q_size = 64; r_size = 32 }

rows_70-FitsDecoupled : FitsDecoupled rows_70
rows_70-FitsDecoupled = record {
  p_fits = omega arith;
  q_fits = omega arith;
  r_fits = omega arith;
  divides = inr (omega arith, omega arith);
}

matmul_decoupled-IsProgrammed_example :
    IsProgrammed device
      (decoupled_cells device rows_70 (decoupled_opcode rows_70 0x1051F)
        ++ decoupled_last device rows_70 (decoupled_opcode rows_70 0x1051F) ∷ [])
      (matmul_decoupled device rows_70 0x1051F before)
matmul_decoupled-IsProgrammed_example =
    matmul_decoupled-IsProgrammed device rows_70 0x1051F before rows_70-FitsDecoupled (omega arith)

decoupled_config_cases_example :
    ((p_size_tile rows_70 (2 * 32) ≡ 32) × (decoupled_config rows_70 (2 * 32) 5 ≡ 5))
    ⊎ ((p_size_tile rows_70 (2 * 32) < 32)
        × (p_size_tile rows_70 (2 * 32) ≡ 8 * (decoupled_config rows_70 (2 * 32) 5 + 1)))
decoupled_config_cases_example = decoupled_config_cases rows_70 (omega arith) 2 5 (omega arith)
