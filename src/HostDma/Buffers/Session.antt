-- ===== src/HostDma/Buffers/Session.antt =====
-- Sessions: calls of the device that end with the release.
use lut_pim_driver.Prelude.{
  ℕ, ◌+◌, ◌<◌, ◌≡◌, ◌⊎◌, inl, inr, refl, List, [], ◌∷◌, Option, none, some, ◌==◌, leb, arith,
  Bool-cases,
}
use lut_pim_driver.HostDma.{success, Policy, wc, uc, undefined, Slot}
use lut_pim_driver.HostDma.Buffers.{
  BufferCall, mapped, BufferKernel, Buffers, finish_mmap, end_mmap, take_buffer, mmap_slot, update0,
  update1, with_len0, with_len1, host_dma_mmap, host_dma_release,
}
use lut_pim_driver.HostDma.Buffers.Laws.{
  taken, given_back, held, held_at, overwritten, IsDefined, IsKernel, IsAccounted, FileCall, mmap,
  release, file_call, file_calls, lost, file_call-IsAccounted, file_calls-IsAccounted,
  host_dma_release-IsAccounted, host_dma_release-held,
}

-- No buffer is out, and the slots are empty.
pub record IsFresh (s : Buffers) : Type 0 where
  pub policy : IsDefined s.host_dma.mempolicy
  pub none_out : (ptr handle : ℕ) → taken ptr handle s.calls ≡ given_back ptr handle s.calls
  pub first : held s.host_dma.slot0 ≡ 0
  pub second : held s.host_dma.slot1 ≡ 0

-- A slot that the count has not reached is empty.
abbrev IsOrdered : Buffers → Type 0
IsOrdered s =
    ((0 < s.host_dma.alloc_cnt) ⊎ (held s.host_dma.slot0 ≡ 0))
    × ((1 < s.host_dma.alloc_cnt) ⊎ (held s.host_dma.slot1 ≡ 0))

held_at_none : (ptr handle : ℕ) (slot : Slot) → held slot ≡ 0 → held_at ptr handle slot ≡ 0
held_at_none ptr handle slot e = ground arith

module _ (k : BufferKernel) where
  -- Each mapping succeeds.
  abbrev pub Maps : Type 0
  Maps =
      (cs : List BufferCall) (p : Policy) (ptr handle len : ℕ) → k.mmap cs p ptr handle len ≡ mapped

  module _ (all : Maps) (len : ℕ) (s : Buffers) (h : IsOrdered s) where
    take_buffer0-IsOrdered :
        (p : Policy) (got : Option (ℕ × ℕ))
        → s.host_dma.alloc_cnt ≡ 0
        → IsOrdered (take_buffer k len p (update0 len) got (with_len0 len s)).1
    unfolding take_buffer finish_mmap end_mmap
    take_buffer0-IsOrdered p none z = (inr refl, h.1)
    take_buffer0-IsOrdered p (some (ptr, handle)) z =
        rw (all _ p ptr handle len, z)
          (inl (omega arith), inr (elim h.1 [ inl l ↦ absurd (omega arith) | inr e ↦ e ]))

    take_buffer1-IsOrdered :
        (p : Policy) (got : Option (ℕ × ℕ))
        → s.host_dma.alloc_cnt ≡ 1
        → IsOrdered (take_buffer k len p (update1 len) got (with_len1 len s)).1
    unfolding take_buffer finish_mmap end_mmap
    take_buffer1-IsOrdered p none o = (h.0, inr refl)
    take_buffer1-IsOrdered p (some (ptr, handle)) o =
        rw (all _ p ptr handle len, o) (inl (omega arith), inl (omega arith))

    mmap_slot0-IsOrdered :
        (p : Policy)
        → s.host_dma.alloc_cnt ≡ 0
        → IsOrdered (mmap_slot k len p (update0 len) (with_len0 len s)).1
    unfolding mmap_slot
    mmap_slot0-IsOrdered wc e = take_buffer0-IsOrdered wc _ e
    mmap_slot0-IsOrdered uc e = take_buffer0-IsOrdered uc _ e
    mmap_slot0-IsOrdered undefined e = h

    mmap_slot1-IsOrdered :
        (p : Policy)
        → s.host_dma.alloc_cnt ≡ 1
        → IsOrdered (mmap_slot k len p (update1 len) (with_len1 len s)).1
    unfolding mmap_slot
    mmap_slot1-IsOrdered wc e = take_buffer1-IsOrdered wc _ e
    mmap_slot1-IsOrdered uc e = take_buffer1-IsOrdered uc _ e
    mmap_slot1-IsOrdered undefined e = h

    host_dma_mmap-IsOrdered : IsOrdered (host_dma_mmap k len s).1
    unfolding host_dma_mmap
    host_dma_mmap-IsOrdered = elim (Bool-cases (s.host_dma.alloc_cnt == 0)) [
      | inl z ↦ elim (Bool-cases (leb 0x400000 len)) [
        | inl l ↦ rw (z, l) h
        | inr l ↦ rw (z, l) (mmap_slot0-IsOrdered s.host_dma.mempolicy (ground (arith, z)))
      ]
      | inr z ↦ elim (Bool-cases (s.host_dma.alloc_cnt == 1)) [
        | inl o ↦ rw (z, o) (mmap_slot1-IsOrdered s.host_dma.mempolicy (ground (arith, o)))
        | inr o ↦ rw (z, o) h
      ]
    ]

    overwritten_none : (ptr handle : ℕ) → overwritten ptr handle len s.host_dma ≡ 0
    unfolding overwritten
    overwritten_none ptr handle = ground (arith, h.0, h.1)

  lost_none :
      (ptr handle : ℕ) (cs : List FileCall) (s : Buffers) (n : ℕ)
      → Maps
      → IsKernel k
      → IsAccounted ptr handle n s
      → IsOrdered s
      → lost k ptr handle cs s ≡ 0
  lost_none ptr handle [] s n all w a h = refl
  lost_none ptr handle (mmap len ∷ cs) s n all w a h = omega (
    arith,
    overwritten_none all len s h ptr handle,
    lost_none ptr handle cs (file_call k (mmap len) s) _ all w
        (file_call-IsAccounted k (mmap len) s ptr handle n w a)
        (host_dma_mmap-IsOrdered all len s h),
  )
  lost_none ptr handle (release ∷ cs) s n all w a h =
      let e = host_dma_release-held k s a.0 in
      omega (
        arith,
        lost_none ptr handle cs (file_call k release s) _ all w
            (file_call-IsAccounted k release s ptr handle n w a) (inr e.0, inr e.1),
      )

  IsFresh-IsAccounted : (ptr handle : ℕ) (s : Buffers) → IsFresh s → IsAccounted ptr handle 0 s
  IsFresh-IsAccounted ptr handle s f =
      (f.policy, ground (arith, f.none_out ptr handle, f.first, f.second))

  -- From a state in which no buffer is out and with a defined memory policy, on a kernel whose
  -- buffers are not at NULL: any sequence of mappings and releases, with any answers of the kernel,
  -- and then a release, which succeeds, leave the count 0 and the slots empty. And for each address
  -- and bus address: the buffer there was given back once for each time that it was taken, but for
  -- the times that a later mapping overwrote its address in a slot.
  pub host_dma_release-lost :
      (cs : List FileCall) (s : Buffers) (ptr handle : ℕ)
      → IsKernel k
      → IsFresh s
      → let u = file_calls k cs s in
        let t = (host_dma_release u).1 in
        ((host_dma_release u).0 ≡ success)
        × (t.host_dma.alloc_cnt ≡ 0)
        × (held t.host_dma.slot0 ≡ 0)
        × (held t.host_dma.slot1 ≡ 0)
        × (taken ptr handle t.calls ≡ given_back ptr handle t.calls + lost k ptr handle cs s)
  host_dma_release-lost cs s ptr handle w f =
      let u = file_calls k cs s in
      let a = file_calls-IsAccounted k cs s ptr handle 0 w (IsFresh-IsAccounted ptr handle s f) in
      let (first, second, cnt, ok) = host_dma_release-held k u a.0 in
      let b = host_dma_release-IsAccounted ptr handle _ u a in
      let t = (host_dma_release u).1 in
      (
        ok,
        cnt,
        first,
        second,
        omega (
          arith,
          b.1,
          held_at_none ptr handle t.host_dma.slot0 first,
          held_at_none ptr handle t.host_dma.slot1 second,
        ),
      )

  -- Where moreover each mapping of the kernel succeeds, such a session gives back every buffer.
  pub host_dma_release-IsFresh :
      (cs : List FileCall) (s : Buffers)
      → Maps
      → IsKernel k
      → IsFresh s
      → IsFresh (host_dma_release (file_calls k cs s)).1
  host_dma_release-IsFresh cs s all w f =
      let (ok, cnt, first, second, sum) = host_dma_release-lost cs s 0 0 w f in
      let a = file_calls-IsAccounted k cs s 0 0 0 w (IsFresh-IsAccounted 0 0 s f) in
      let b = host_dma_release-IsAccounted 0 0 _ (file_calls k cs s) a in
      record {
        policy = b.0;
        none_out = λ ptr handle. omega (
          arith,
          (host_dma_release-lost cs s ptr handle w f).4,
          lost_none ptr handle cs s 0 all w (IsFresh-IsAccounted ptr handle s f)
              (inr f.first, inr f.second),
        );
        first = first;
        second = second;
      }
