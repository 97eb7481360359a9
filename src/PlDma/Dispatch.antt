-- ===== src/PlDma/Dispatch.antt =====
-- `pl_dma_ioctl` of src/drv_src/pl_fops.c as a whole: the copy of the caller's `ioctl_info`, the
-- reset of the engine, and the `switch`, as built for x86 without PERF_TIME (so no case measures).
pub mod Laws
use lut_pim_driver.Prelude.{ℕ, ◌/◌, ◌≡◌, refl, List, [], ◌∷◌, Option, none, some}
use lut_pim_driver.Cdma.{CdmaDev, IoctlInfo, Regs}
use lut_pim_driver.Kernel.{Kernel}
use lut_pim_driver.PlDma.{
  Code, success, efault, Trace, Engine, dma_ctrl_write, cdma_reg_cr, cdma_reg_cr_reset,
}
use lut_pim_driver.PlDma.Copy.{Copying, memcpy_pl2pl, memcpy_pl2ps, memcpy_ps2pl}
use lut_pim_driver.PlDma.Ioctl.{Command, pl_dma_operation}

-- The counters that `TIME_INIT` clears.
pub record Timers : Type 0 where
  pub vm_time : ℕ
  pub ew_add_time : ℕ
  pub ew_mul_time : ℕ
  pub ew_sub_time : ℕ
  pub desc_time : ℕ

pub data Request : Type 0 where
  run : Command → Request
  copy_pl2pl : Request
  copy_pl2ps : Request
  copy_ps2pl : Request
  time_init : Request
  get_vm_time : Request
  get_ewadd_time : Request
  get_ewmul_time : Request
  get_ewsub_time : Request
  get_desc_time : Request
  invalid : Request

pub record PlState : Type 0 where
  pub regs : Regs
  pub copying : Copying
  pub timers : Timers

abbrev pub no_time : Timers
no_time = record { vm_time = 0; ew_add_time = 0; ew_mul_time = 0; ew_sub_time = 0; desc_time = 0 }

-- What an operation, and what a copy, makes of the state.
abbrev pub ran : PlState → Code × Regs × Trace → Code × PlState
ran s (c, r, t) = (c, record s { regs = r; copying = record s.copying { trace = t } })

abbrev pub copied : PlState → Code × Copying → Code × PlState
copied s (c, t) = (c, record s { copying = t })

abbrev pub reset : PlState → PlState
reset s = record s {
  copying = record s.copying {
    trace = dma_ctrl_write cdma_reg_cr cdma_reg_cr_reset s.copying.trace;
  };
}

module _ (d : CdmaDev) (hw : Engine) (k : Kernel) where
  -- The request on what `copy_from_user` gives, `none` if it fails.
  unfoldable pub pl_dma_ioctl : Request → Option IoctlInfo → PlState → Code × PlState
  unfolding pl_dma_operation memcpy_pl2pl memcpy_pl2ps memcpy_ps2pl
  pl_dma_ioctl req none s = (efault, s)
  pl_dma_ioctl (run cmd) (some info) s =
      ran s (pl_dma_operation d hw cmd (some info) s.regs s.copying.trace)
  pl_dma_ioctl copy_pl2pl (some info) s = copied s (memcpy_pl2pl d hw info (reset s).copying)
  pl_dma_ioctl copy_pl2ps (some info) s = copied s (memcpy_pl2ps d hw k info (reset s).copying)
  pl_dma_ioctl copy_ps2pl (some info) s = copied s (memcpy_ps2pl d hw k info (reset s).copying)
  pl_dma_ioctl time_init (some info) s = (success 0, record (reset s) { timers = no_time })
  pl_dma_ioctl get_vm_time (some info) s = (success (s.timers.vm_time / 1000), reset s)
  pl_dma_ioctl get_ewadd_time (some info) s = (success (s.timers.ew_add_time / 1000), reset s)
  pl_dma_ioctl get_ewmul_time (some info) s = (success (s.timers.ew_mul_time / 1000), reset s)
  pl_dma_ioctl get_ewsub_time (some info) s = (success (s.timers.ew_sub_time / 1000), reset s)
  pl_dma_ioctl get_desc_time (some info) s = (success (s.timers.desc_time / 1000), reset s)
  pl_dma_ioctl invalid (some info) s = (success 0, reset s)

  -- A sequence of calls, and the state behind it.
  unfoldable pub calls : List (Request × Option IoctlInfo) → PlState → PlState
  unfolding pl_dma_ioctl
  calls [] s = s
  calls ((req, arg) ∷ cs) s = calls cs (pl_dma_ioctl req arg s).1
