-- ===== src/Kernel.antt =====
-- The calls of the kernel that the copies of src/drv_src/pl_fops.c and src/drv_src/host_fops.c
-- make, as a sequence, and what the kernel answers.
use lut_pim_driver.Prelude.{ℕ, ◌+◌, List, [], ◌∷◌, Bool, false, Option, none, some, ◌≡◌}

-- A buffer is named by its bus address; the length of a copy is in bytes.
pub data Call : Type 0 where
  alloc : (size handle : ℕ) → Call
  free : (size handle : ℕ) → Call
  from_user : (addr len : ℕ) → Call
  to_user : (addr len : ℕ) → Call
  transfer : (src dst len : ℕ) → Call
  take_channel : Call
  release_channel : Call

-- The answers depend on all the calls so far, the latest one first: `dma_alloc_coherent` gives a
-- buffer or NULL, and a copy leaves bytes uncopied or not.
pub record Kernel : Type 0 where
  pub dma_alloc_coherent : List Call → (size : ℕ) → Option ℕ
  pub copy_from_user : List Call → (addr len : ℕ) → Bool
  pub copy_to_user : List Call → (addr len : ℕ) → Bool

-- A call for a buffer and its return, which does nothing at NULL.
abbrev pub alloc_call : (size : ℕ) → Option ℕ → List Call → List Call
alloc_call size none cs = cs
alloc_call size (some handle) cs = alloc size handle ∷ cs

abbrev pub free_call : (size : ℕ) → Option ℕ → List Call → List Call
free_call size none cs = cs
free_call size (some handle) cs = free size handle ∷ cs

-- How many buffers were taken, and how many given back.
abbrev pub allocs : List Call → ℕ
allocs [] = 0
allocs (alloc n h ∷ cs) = allocs cs + 1
allocs (_ ∷ cs) = allocs cs

abbrev pub frees : List Call → ℕ
frees [] = 0
frees (free n h ∷ cs) = frees cs + 1
frees (_ ∷ cs) = frees cs

-- The buffers that a request for one gives.
abbrev pub given : Option ℕ → ℕ
given none = 0
given (some handle) = 1

-- The kernel copies everything.
abbrev pub IsWhole : Kernel → Type 0
IsWhole k =
    (cs : List Call) (addr len : ℕ)
    → (k.copy_to_user cs addr len ≡ false) × (k.copy_from_user cs addr len ≡ false)
