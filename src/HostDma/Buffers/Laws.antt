-- ===== src/HostDma/Buffers/Laws.antt =====
-- What becomes of the buffers across any sequence of `host_dma_mmap` and `host_dma_release`.
use lut_pim_driver.Prelude.{
  ℕ, ◌+◌, ◌<◌, ◌≡◌, ◌⊎◌, inl, inr, refl, List, [], ◌∷◌, Option, none, some, ◌==◌, leb,
  if◌then◌else◌, arith, Bool-cases,
}
use lut_pim_driver.HostDma.{success, Policy, wc, uc, Slot, HostDma}
use lut_pim_driver.HostDma.Buffers.{
  BufferCall, dma_alloc, dma_free, BufferKernel, Buffers, finish_mmap, end_mmap, take_buffer,
  mmap_slot, update0, update1, with_len0, with_len1, host_dma_mmap, free_slot, release0, release1,
  release_second, host_dma_release,
}

-- The buffers that a slot holds: one, or none if it is NULL.
abbrev pub held : Slot → ℕ
held slot = if slot.alloc_ptr == 0 then 0 else 1

-- One, if the buffer at an address and a bus address is meant.
abbrev pub is_at : (ptr handle a h : ℕ) → ℕ
is_at ptr handle a h = if a == ptr then (if h == handle then 1 else 0) else 0

module _ (ptr handle : ℕ) where
  -- How often that buffer was taken, and given back.
  abbrev pub taken : List BufferCall → ℕ
  taken [] = 0
  taken (dma_alloc p n a h ∷ cs) = taken cs + is_at ptr handle a h
  taken (_ ∷ cs) = taken cs

  abbrev pub given_back : List BufferCall → ℕ
  given_back [] = 0
  given_back (dma_free p n a h ∷ cs) = given_back cs + is_at ptr handle a h
  given_back (_ ∷ cs) = given_back cs

  -- Whether a slot holds it.
  abbrev pub held_at : Slot → ℕ
  held_at slot = if slot.alloc_ptr == 0 then 0 else is_at ptr handle slot.alloc_ptr slot.dma_handle

  -- Whether `host_dma_mmap` overwrites its address.
  unfoldable pub overwritten : (len : ℕ) → HostDma → ℕ
  overwritten len h =
      if h.alloc_cnt == 0
      then if leb 0x400000 len then 0 else held_at h.slot0
      else if h.alloc_cnt == 1
      then held_at h.slot1
      else 0

-- The policy is one of the two that the probe sets.
abbrev pub IsDefined : Policy → Type 0
IsDefined p = (p ≡ wc) ⊎ (p ≡ uc)

-- A buffer that the kernel gives is not at NULL.
abbrev pub IsKernel : BufferKernel → Type 0
IsKernel k =
    (cs : List BufferCall) (p : Policy) (len ptr handle : ℕ)
    → k.alloc cs p len ≡ some (ptr, handle)
    → 0 < ptr

-- Where it was taken and not given back it is in a slot, but for `n` times.
abbrev pub IsAccounted : (ptr handle n : ℕ) → Buffers → Type 0
IsAccounted ptr handle n s =
    IsDefined s.host_dma.mempolicy
    × (taken ptr handle s.calls
        ≡ given_back ptr handle s.calls
          + held_at ptr handle s.host_dma.slot0
          + held_at ptr handle s.host_dma.slot1
          + n)

module _ (k : BufferKernel) (w : IsKernel k) (ptr handle len n : ℕ) (s : Buffers)
    (h : IsAccounted ptr handle n s) where
  take_buffer0 :
      (p : Policy) (got : Option (ℕ × ℕ))
      → k.alloc s.calls p len ≡ got
      → IsAccounted ptr handle
          (n + held_at ptr handle s.host_dma.slot0)
          (take_buffer k len p (update0 len) got (with_len0 len s)).1
  unfolding take_buffer finish_mmap end_mmap
  take_buffer0 p none e = (h.0, ground (arith, h.1))
  take_buffer0 p (some (addr, bus)) e =
      let pos : 0 < addr = w s.calls p len addr bus e in ground (arith, h.0, h.1)

  take_buffer1 :
      (p : Policy) (got : Option (ℕ × ℕ))
      → k.alloc s.calls p len ≡ got
      → IsAccounted ptr handle
          (n + held_at ptr handle s.host_dma.slot1)
          (take_buffer k len p (update1 len) got (with_len1 len s)).1
  unfolding take_buffer finish_mmap end_mmap
  take_buffer1 p none e = (h.0, ground (arith, h.1))
  take_buffer1 p (some (addr, bus)) e =
      let pos : 0 < addr = w s.calls p len addr bus e in ground (arith, h.0, h.1)

  mmap_slot0 :
      (p : Policy)
      → IsDefined p
      → IsAccounted ptr handle
          (n + held_at ptr handle s.host_dma.slot0)
          (mmap_slot k len p (update0 len) (with_len0 len s)).1
  unfolding mmap_slot
  mmap_slot0 p (inl e) = rw e (take_buffer0 wc _ refl)
  mmap_slot0 p (inr e) = rw e (take_buffer0 uc _ refl)

  mmap_slot1 :
      (p : Policy)
      → IsDefined p
      → IsAccounted ptr handle
          (n + held_at ptr handle s.host_dma.slot1)
          (mmap_slot k len p (update1 len) (with_len1 len s)).1
  unfolding mmap_slot
  mmap_slot1 p (inl e) = rw e (take_buffer1 wc _ refl)
  mmap_slot1 p (inr e) = rw e (take_buffer1 uc _ refl)

  host_dma_mmap-IsAccounted :
      IsAccounted ptr handle (n + overwritten ptr handle len s.host_dma) (host_dma_mmap k len s).1
  unfolding host_dma_mmap overwritten
  host_dma_mmap-IsAccounted = elim (Bool-cases (s.host_dma.alloc_cnt == 0)) [
    | inl z ↦ elim (Bool-cases (leb 0x400000 len)) [
      | inl l ↦ rw (z, l) (h.0, omega (arith, h.1))
      | inr l ↦ rw (z, l) (mmap_slot0 _ h.0)
    ]
    | inr z ↦ elim (Bool-cases (s.host_dma.alloc_cnt == 1)) [
      | inl o ↦ rw (z, o) (mmap_slot1 _ h.0)
      | inr o ↦ rw (z, o) (h.0, omega (arith, h.1))
    ]
  ]

pub host_dma_release-IsAccounted :
    (ptr handle n : ℕ) (s : Buffers)
    → IsAccounted ptr handle n s
    → IsAccounted ptr handle n (host_dma_release s).1
unfolding host_dma_release release0 release1 release_second free_slot
host_dma_release-IsAccounted ptr handle n s (inl p, h) = ground (arith, p)
host_dma_release-IsAccounted ptr handle n s (inr p, h) = ground (arith, p)

-- A call of the device: a mapping of a number of bytes, or the release.
pub data FileCall : Type 0 where
  mmap : (len : ℕ) → FileCall
  release : FileCall

module _ (k : BufferKernel) where
  abbrev pub file_call : FileCall → Buffers → Buffers
  file_call (mmap len) s = (host_dma_mmap k len s).1
  file_call release s = (host_dma_release s).1

  abbrev pub file_calls : List FileCall → Buffers → Buffers
  file_calls [] s = s
  file_calls (c ∷ cs) s = file_calls cs (file_call c s)

  -- How often its address is overwritten on the way.
  abbrev pub lost_by : (ptr handle : ℕ) → FileCall → Buffers → ℕ
  lost_by ptr handle (mmap len) s = overwritten ptr handle len s.host_dma
  lost_by ptr handle release s = 0

  abbrev pub lost : (ptr handle : ℕ) → List FileCall → Buffers → ℕ
  lost ptr handle [] s = 0
  lost ptr handle (c ∷ cs) s = lost_by ptr handle c s + lost ptr handle cs (file_call c s)

  pub file_call-IsAccounted :
      (c : FileCall) (s : Buffers) (ptr handle n : ℕ)
      → IsKernel k
      → IsAccounted ptr handle n s
      → IsAccounted ptr handle (n + lost_by ptr handle c s) (file_call c s)
  file_call-IsAccounted (mmap len) s ptr handle n w h =
      host_dma_mmap-IsAccounted k w ptr handle len n s h
  file_call-IsAccounted release s ptr handle n w h =
      let p = host_dma_release-IsAccounted ptr handle n s h in (p.0, omega (arith, p.1))

  pub file_calls-IsAccounted :
      (cs : List FileCall) (s : Buffers) (ptr handle n : ℕ)
      → IsKernel k
      → IsAccounted ptr handle n s
      → IsAccounted ptr handle (n + lost ptr handle cs s) (file_calls cs s)
  file_calls-IsAccounted [] s ptr handle n w h = (h.0, omega (arith, h.1))
  file_calls-IsAccounted (c ∷ cs) s ptr handle n w h =
      let p =
        file_calls-IsAccounted cs (file_call c s) ptr handle _ w
          (file_call-IsAccounted c s ptr handle n w h) in
      (p.0, omega (arith, p.1))

  -- The release gives back what the slots hold.
  pub host_dma_release-held :
      (s : Buffers)
      → IsDefined s.host_dma.mempolicy
      → let t = (host_dma_release s).1 in
        (held t.host_dma.slot0 ≡ 0)
        × (held t.host_dma.slot1 ≡ 0)
        × (t.host_dma.alloc_cnt ≡ 0)
        × ((host_dma_release s).0 ≡ success)
  unfolding host_dma_release release0 release1 release_second free_slot
  host_dma_release-held s (inl p) = ground (arith, p)
  host_dma_release-held s (inr p) = ground (arith, p)
