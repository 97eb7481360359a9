-- ===== src/PsDma/Laws.antt =====
-- What becomes of the buffers across any sequence of `ps_dma_mmap` and `ps_dma_release`.
use lut_pim_driver.Prelude.{
  ℕ, ◌+◌, ◌<◌, ◌≡◌, refl, List, [], ◌∷◌, true, false, Option, none, some, ◌==◌, if◌then◌else◌,
  arith, Bool-cases, ◌⊎◌, inl, inr,
}
use native.Mathlib.Decide.{dec_lt}
use lut_pim_driver.PsDma.{
  PsBuffer, PsCall, ps_alloc, ps_map, ps_free, PsDma, PsKernel, set_buffer, ps_mapped, ps_take,
  ps_dma_mmap, ps_dma_release,
}

abbrev pub held : PsBuffer → ℕ
held b = if b.alloc_ptr == 0 then 0 else 1

-- One, if the buffer at an address and a bus address is meant.
abbrev pub is_at : (ptr handle a h : ℕ) → ℕ
is_at ptr handle a h = if a == ptr then (if h == handle then 1 else 0) else 0

module _ (ptr handle : ℕ) where
  -- How often that buffer was taken, and given back.
  abbrev pub allocs : List PsCall → ℕ
  allocs [] = 0
  allocs (ps_alloc n a h ∷ cs) = allocs cs + is_at ptr handle a h
  allocs (_ ∷ cs) = allocs cs

  abbrev pub frees : List PsCall → ℕ
  frees [] = 0
  frees (ps_free n a h ∷ cs) = frees cs + is_at ptr handle a h
  frees (_ ∷ cs) = frees cs

  -- Whether a place holds it.
  abbrev pub held_at : PsBuffer → ℕ
  held_at b = if b.alloc_ptr == 0 then 0 else is_at ptr handle b.alloc_ptr b.dma_handle

  -- Whether a mapping overwrites its address.
  unfoldable pub overwritten : PsDma → ℕ
  overwritten s =
      if s.ps_alloc_cnt == 0
      then held_at s.buffer0
      else if s.ps_alloc_cnt == 1
      then held_at s.buffer1
      else 0

-- A buffer that the kernel gives is not at NULL.
abbrev pub IsKernel : PsKernel → Type 0
IsKernel k = (cs : List PsCall) (len ptr handle : ℕ) → k.alloc cs len ≡ some (ptr, handle) → 0 < ptr

-- Where it was taken and not given back it is in its place, but for `n` times.
abbrev pub IsAccounted : (ptr handle n : ℕ) → PsDma → Type 0
IsAccounted ptr handle n s =
    allocs ptr handle s.calls
    ≡ frees ptr handle s.calls + held_at ptr handle s.buffer0 + held_at ptr handle s.buffer1 + n

ps_mapped-IsAccounted :
    (ptr handle n : ℕ) (o : Option ℕ) (s : PsDma)
    → IsAccounted ptr handle n s
    → IsAccounted ptr handle n (ps_mapped o s).1
unfolding ps_mapped
ps_mapped-IsAccounted ptr handle n (some errno) s h = h
ps_mapped-IsAccounted ptr handle n none s h = h

module _ (k : PsKernel) (w : IsKernel k) (ptr handle len n : ℕ) (s : PsDma)
    (h : IsAccounted ptr handle n s) where
  ps_take0 :
      (got : Option (ℕ × ℕ))
      → k.alloc s.calls len ≡ got
      → IsAccounted ptr handle (n + held_at ptr handle s.buffer0) (ps_take k false len got s).1
  unfolding ps_take
  ps_take0 none e = omega (arith, h)
  ps_take0 (some (addr, bus)) e =
      let pos : 0 < addr = w s.calls len addr bus e in
      let cs = ps_alloc len addr bus ∷ s.calls in
      let t = record (set_buffer false len (some (addr, bus)) s) {
        calls = ps_map addr bus len ∷ cs;
      } in
      let acc : IsAccounted ptr handle (n + held_at ptr handle s.buffer0) t = ground (arith, h) in
      ps_mapped-IsAccounted ptr handle (n + held_at ptr handle s.buffer0) (k.map cs addr bus len) t
        acc

  ps_take1 :
      (got : Option (ℕ × ℕ))
      → k.alloc s.calls len ≡ got
      → IsAccounted ptr handle (n + held_at ptr handle s.buffer1) (ps_take k true len got s).1
  unfolding ps_take
  ps_take1 none e = omega (arith, h)
  ps_take1 (some (addr, bus)) e =
      let pos : 0 < addr = w s.calls len addr bus e in
      let cs = ps_alloc len addr bus ∷ s.calls in
      let t = record (set_buffer true len (some (addr, bus)) s) {
        calls = ps_map addr bus len ∷ cs;
      } in
      let acc : IsAccounted ptr handle (n + held_at ptr handle s.buffer1) t = ground (arith, h) in
      ps_mapped-IsAccounted ptr handle (n + held_at ptr handle s.buffer1) (k.map cs addr bus len) t
        acc

  ps_dma_mmap-IsAccounted :
      IsAccounted ptr handle (n + overwritten ptr handle s) (ps_dma_mmap k len s).1
  unfolding ps_dma_mmap overwritten
  ps_dma_mmap-IsAccounted = elim (Bool-cases (s.ps_alloc_cnt == 0)) [
    | inl z ↦ rw z (ps_take0 _ refl)
    | inr z ↦ elim (Bool-cases (s.ps_alloc_cnt == 1)) [
      | inl o ↦ rw (z, o) (ps_take1 _ refl)
      | inr o ↦ rw (z, o) (ps_mapped-IsAccounted ptr handle (n + 0) none s (omega (arith, h)))
    ]
  ]

ps_dma_release-IsAccounted :
    (ptr handle n : ℕ) (s : PsDma)
    → IsAccounted ptr handle n s
    → IsAccounted ptr handle n (ps_dma_release s).1
unfolding ps_dma_release
ps_dma_release-IsAccounted ptr handle n s h = ground (arith, h)

-- A call of the device.
pub data PsFileCall : Type 0 where
  ps_mmap : (len : ℕ) → PsFileCall
  ps_release : PsFileCall

module _ (k : PsKernel) where
  abbrev pub ps_call : PsFileCall → PsDma → PsDma
  ps_call (ps_mmap len) s = (ps_dma_mmap k len s).1
  ps_call ps_release s = (ps_dma_release s).1

  abbrev pub ps_calls : List PsFileCall → PsDma → PsDma
  ps_calls [] s = s
  ps_calls (c ∷ cs) s = ps_calls cs (ps_call c s)

  abbrev pub ps_lost : (ptr handle : ℕ) → List PsFileCall → PsDma → ℕ
  ps_lost ptr handle [] s = 0
  ps_lost ptr handle (ps_mmap len ∷ cs) s =
      overwritten ptr handle s + ps_lost ptr handle cs (ps_call (ps_mmap len) s)
  ps_lost ptr handle (ps_release ∷ cs) s = ps_lost ptr handle cs (ps_call ps_release s)

  ps_calls-IsAccounted :
      (cs : List PsFileCall) (s : PsDma) (ptr handle n : ℕ)
      → IsKernel k
      → IsAccounted ptr handle n s
      → IsAccounted ptr handle (n + ps_lost ptr handle cs s) (ps_calls cs s)
  ps_calls-IsAccounted [] s ptr handle n w h = omega (arith, h)
  ps_calls-IsAccounted (ps_mmap len ∷ cs) s ptr handle n w h =
      let t = (ps_dma_mmap k len s).1 in
      omega (
        arith,
        ps_calls-IsAccounted cs t ptr handle _ w (ps_dma_mmap-IsAccounted k w ptr handle len n s h),
      )
  ps_calls-IsAccounted (ps_release ∷ cs) s ptr handle n w h =
      ps_calls-IsAccounted cs (ps_dma_release s).1 ptr handle n w
        (ps_dma_release-IsAccounted ptr handle n s h)

  -- On a kernel whose buffers are not at NULL, for each address and bus address, from a state in which
  -- the buffer there is in a place for each time that it is out: behind any sequence of mappings and
  -- releases, with any answers of the kernel, and then a release, it was given back once for each
  -- time that it was taken, but for the times that a later mapping overwrote its address in a place;
  -- the places are empty and the count is 0. And a mapping that finds a count of 2 or more changes
  -- nothing but the count.
  pub ps_dma_release-lost :
      (cs : List PsFileCall) (s : PsDma) (ptr handle len : ℕ)
      → IsKernel k
      → IsAccounted ptr handle 0 s
      → let u = ps_calls cs s in
        let t = (ps_dma_release u).1 in
        (allocs ptr handle t.calls ≡ frees ptr handle t.calls + ps_lost ptr handle cs s)
        × (held t.buffer0 ≡ 0)
        × (held t.buffer1 ≡ 0)
        × (t.ps_alloc_cnt ≡ 0)
        × ((u.ps_alloc_cnt < 2)
            ⊎ ((ps_dma_mmap k len u).1 ≡ record u { ps_alloc_cnt = u.ps_alloc_cnt + 1 }))
  unfolding ps_dma_release ps_dma_mmap ps_mapped
  ps_dma_release-lost cs s ptr handle len w h =
      let u = ps_calls cs s in
      let a =
        ps_dma_release-IsAccounted ptr handle _ u (ps_calls-IsAccounted cs s ptr handle 0 w h) in
      (
        omega (arith, a),
        refl,
        refl,
        refl,
        elim (dec_lt u.ps_alloc_cnt 2) [
          | yes l ↦ inl l
          | no l ↦
              let z : (u.ps_alloc_cnt == 0) ≡ false = ground arith in
              let o : (u.ps_alloc_cnt == 1) ≡ false = ground arith in inr (rw (z, o) refl)
        ],
      )
