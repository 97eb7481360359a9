-- ===== src/Tests/Copy.antt =====
-- The copies, the lock and the dispatch of src/drv_src/pl_fops.c at concrete inputs.
use lut_pim_driver.Prelude.{
  ℕ, ◌+◌, ◌≡◌, ◌⊎◌, refl, List, [], ◌∷◌, Bool, true, false, Option, none, some, arith,
}
use lut_pim_driver.Cdma.{IoctlInfo}
use lut_pim_driver.Chunks.{copy_len, num_chunk}
use lut_pim_driver.Kernel.{alloc, free, Kernel, IsWhole, allocs, frees}
use lut_pim_driver.PlDma.{success, efault, Engine}
use lut_pim_driver.PlDma.Cover.{Completes}
use lut_pim_driver.PlDma.Copy.{Copying, memcpy_pl2ps, memcpy_ps2pl}
use lut_pim_driver.PlDma.Copy.Laws.{pl2ps_calls, ps2pl_calls, memcpy_pl2ps_lem, memcpy_ps2pl_lem}
use lut_pim_driver.PlDma.Lock.{
  Mutex, LockState, IsInitial, Reach, here, further, opened, pl_dma_open, pl_dma_open-Reach,
}
use lut_pim_driver.PlDma.Dispatch.{Request, run, copy_ps2pl, get_vm_time, PlState, no_time, calls}
use lut_pim_driver.PlDma.Dispatch.Laws.{all_kept, calls-IsAccounted}
use lut_pim_driver.PlDma.Ioctl.{cmd_matmul}
use lut_pim_driver.Tests.Math.{device, operands, before}

-- 2.5 chunks.
abbrev two_and_a_half : IoctlInfo
two_and_a_half = record operands {
  src_a_ptr = 0x7000_0000;
  dst_c_ptr = 0x7800_0000;
  src_a_size = 0x280000;
}

-- An engine that completes each transfer, a kernel that always has the buffer at 0x9000, and one
-- that copies nothing from the caller.
abbrev prompt : Engine
prompt = λ t. record { ret = 5; err = false }

prompt-Completes : Completes prompt
prompt-Completes t = (omega arith, refl)

abbrev kernel : Kernel
kernel = record {
  dma_alloc_coherent = λ cs size. some 0x9000;
  copy_from_user = λ cs addr len. false;
  copy_to_user = λ cs addr len. false;
}

kernel-IsWhole : IsWhole kernel
kernel-IsWhole cs addr len = (refl, refl)

abbrev faulty : Kernel
faulty = record kernel { copy_from_user = λ cs addr len. true }

abbrev idle : Copying
idle = record { trace = []; calls = [] }

memcpy_pl2ps_lem_example :
    ((memcpy_pl2ps device prompt kernel two_and_a_half idle).0 ≡ success 0)
    × ((memcpy_pl2ps device prompt kernel two_and_a_half idle).1.calls
        ≡ free 0x280000 0x9000
          ∷ pl2ps_calls device prompt kernel two_and_a_half 0x9000
              (copy_len 0x280000)
              (alloc (copy_len 0x280000) 0x9000 ∷ [])
              (num_chunk 0x280000))
memcpy_pl2ps_lem_example =
    memcpy_pl2ps_lem device prompt kernel two_and_a_half idle 0x9000 prompt-Completes kernel-IsWhole
      (omega arith) refl

memcpy_ps2pl_lem_example :
    ((memcpy_ps2pl device prompt kernel two_and_a_half idle).0 ≡ success 0)
    × ((memcpy_ps2pl device prompt kernel two_and_a_half idle).1.calls
        ≡ free 0x280000 0x9000
          ∷ ps2pl_calls device prompt kernel two_and_a_half 0x9000
              (copy_len 0x280000)
              (alloc (copy_len 0x280000) 0x9000 ∷ [])
              (num_chunk 0x280000))
memcpy_ps2pl_lem_example =
    memcpy_ps2pl_lem device prompt kernel two_and_a_half idle 0x9000 prompt-Completes kernel-IsWhole
      (omega arith) refl

-- A session: an operation, a copy that fails, and a timer.
abbrev session : List (Request × Option IoctlInfo)
session =
    (run cmd_matmul, none)
    ∷ (copy_ps2pl, some two_and_a_half)
    ∷ (get_vm_time, some two_and_a_half)
    ∷ []

abbrev started : PlState
started = record { regs = before; copying = idle; timers = no_time }

calls-IsAccounted_example :
    ((calls device prompt faulty session started).timers ≡ no_time)
    × (allocs (calls device prompt faulty session started).copying.calls
        ≡ frees (calls device prompt faulty session started).copying.calls
          + all_kept device prompt faulty session started)
calls-IsAccounted_example = calls-IsAccounted device prompt faulty session started refl refl

-- A mutex that is held or not, and the device opened once.
abbrev trylock_bool : Bool → ℕ × Bool
trylock_bool false = (1, true)
trylock_bool true = (0, true)

abbrev mutex : Mutex Bool
mutex = record {
  trylock = trylock_bool;
  unlock = λ b. false;
  is_locked = λ b. b;
  trylock_free = λ b h. rw h (refl, refl);
  trylock_held = λ b h. rw h (refl, refl);
  unlock_free = λ b. refl;
}

abbrev closed : LockState mutex
closed = record { dma_lock = false; trace = []; open_files = 0 }

abbrev in_use : LockState mutex
in_use = record { dma_lock = true; trace = []; open_files = 1 }

closed-IsInitial : IsInitial mutex closed
closed-IsInitial = record { free = refl; unused = refl }

opened_once : Reach mutex closed in_use
unfolding pl_dma_open
opened_once = further here (opened 0 true refl)

pl_dma_open-Reach_example :
    ((in_use.open_files ≡ 0) × ((pl_dma_open mutex true).0 ≡ success 0))
    ⊎ ((in_use.open_files ≡ 1) × ((pl_dma_open mutex true).0 ≡ efault))
pl_dma_open-Reach_example = pl_dma_open-Reach mutex closed in_use closed-IsInitial opened_once
