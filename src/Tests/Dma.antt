-- ===== src/Tests/Dma.antt =====
-- Transfers of src/drv_src/pl_fops.c on a chain of more than 255 descriptors.
use lut_pim_driver.Prelude.{
  ℕ, ◌+◌, ◌*◌, ◌-◌, ◌≡◌, [], List, inl, inr, none, some, refl, arith, length, ltb, replicate,
  length-replicate, grid, false,
}
use lut_pim_driver.Cdma.{IoctlInfo}
use lut_pim_driver.Cdma.Emit.{Fields}
use lut_pim_driver.Cdma.Program.{IsReported}
use lut_pim_driver.PimMath.{clear_counters}
use lut_pim_driver.PlDma.{Engine, dma_sg_tx}
use lut_pim_driver.PlDma.Cover.{
  sg_runs, IsCover, IsSent, Completes, dma_sg_tx-IsCover, dma_sg_tx-skips_last,
}
use lut_pim_driver.PlDma.Outcomes.{IsOutcome, dma_sg_tx-IsOutcome}
use lut_pim_driver.PlDma.Ioctl.{cmd_elewise_add, pl_dma_operation}
use lut_pim_driver.PlDma.Ioctl.Laws.{program, pl_dma_operation-IsSent}
use lut_pim_driver.Cdma.Read.{descriptors, chain}
use lut_pim_driver.PlDma.{success}
use lut_pim_driver.Tests.Math.{device, operands, before}

-- An engine that completes each transfer, and one that sets the error at the third one.
abbrev prompt : Engine
prompt = λ t. record { ret = 5; err = false }

abbrev failing : Engine
failing = λ t. record { ret = 5; err = ltb 12 (length t) }

prompt-Completes : Completes prompt
prompt-Completes t = (omega arith, refl)

abbrev descs : ℕ → List Fields
descs n = replicate n (clear_counters device 0x42F 4)

no_runs : sg_runs none [] ≡ []
unfolding sg_runs
no_runs = refl

-- The report on a chain of 600 descriptors, and on one of 511.
abbrev info_600 : IoctlInfo
info_600 = record operands { desc_idx = 599; next_desc = 0x800040 + 0x40 * 599 }

abbrev info_511 : IoctlInfo
info_511 = record operands { desc_idx = 510; next_desc = 0x800040 + 0x40 * 510 }

report_600 : IsReported device (descs 600) info_600
report_600 = record {
  count = omega (arith, length-replicate 600 (clear_counters device 0x42F 4));
  tail = refl;
}

report_511 : IsReported device (descs 511) info_511
report_511 = record {
  count = omega (arith, length-replicate 511 (clear_counters device 0x42F 4));
  tail = refl;
}

dma_sg_tx-IsCover_example :
    IsSent device (dma_sg_tx device prompt 599 (0x800040 + 0x40 * 599) []) (length (descs 600))
dma_sg_tx-IsCover_example =
    dma_sg_tx-IsCover device prompt prompt-Completes (descs 600) info_600 report_600 [] no_runs
      (omega (arith, length-replicate 600 (clear_counters device 0x42F 4))) (inr (omega arith))

dma_sg_tx-skips_last_example :
    IsSent device (dma_sg_tx device prompt 510 (0x800040 + 0x40 * 510) []) (length (descs 511) - 1)
dma_sg_tx-skips_last_example =
    dma_sg_tx-skips_last device prompt prompt-Completes (descs 511) info_511 report_511 [] no_runs
      (omega (arith, length-replicate 511 (clear_counters device 0x42F 4))) (omega arith) refl

dma_sg_tx-IsOutcome_example :
    IsOutcome device failing 599 [] (dma_sg_tx device failing 599 (0x800040 + 0x40 * 599) [])
dma_sg_tx-IsOutcome_example = dma_sg_tx-IsOutcome device failing 599 [] (0x800040 + 0x40 * 599)

-- The chain of an addition of two rows of 1024 elements.
length_of_addition : length (program device cmd_elewise_add operands) ≡ 13
unfolding grid
length_of_addition = refl

pl_dma_operation-IsSent_example :
    ((pl_dma_operation device prompt cmd_elewise_add (some operands) before []).0 ≡ success 0)
    × (descriptors
          (pl_dma_operation device prompt cmd_elewise_add (some operands) before []).1.dma_desc
          0
          (length (program device cmd_elewise_add operands))
        ≡ chain 4 0x800040 (program device cmd_elewise_add operands))
    × IsCover 0x800000
        (0x800000 + 0x40 * length (program device cmd_elewise_add operands))
        (sg_runs none (pl_dma_operation device prompt cmd_elewise_add (some operands) before []).2)
pl_dma_operation-IsSent_example =
    pl_dma_operation-IsSent device prompt cmd_elewise_add operands before [] prompt-Completes
      (record { p_fits = omega arith; r_fits = omega arith; short = omega arith }) no_runs
      (omega (arith, length_of_addition)) (inl (omega (arith, length_of_addition)))
