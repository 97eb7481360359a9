-- ===== src/PlDma/Copy/Laws.antt =====
-- What the copies by chunk of `pl_dma_ioctl` do, and what becomes of their buffer.
use lut_pim_driver.Prelude.{
  ℕ, zero, suc, ◌+◌, ◌*◌, ◌^◌, ◌≤◌, ◌<◌, ◌≡◌, refl, sym, ap, List, ◌∷◌, false, some, u32, u64, leb,
  arith,
}
use lut_pim_driver.Cdma.{CdmaDev, IoctlInfo, bus_addr}
use lut_pim_driver.Chunks.{
  Round, goes_on, for_chunks, for_chunks-at, chunk_offset, chunk_offset_lem, copy_len, num_chunk,
  copy_len_int, num_chunk_int, int_to_size, cpy_chunk_size,
}
use lut_pim_driver.Kernel.{Call, alloc, free, from_user, to_user, transfer, Kernel, IsWhole}
use lut_pim_driver.PlDma.{Code, success, Engine, dma_single_tx}
use lut_pim_driver.PlDma.Cover.{Completes, wait_intr_ok}
use lut_pim_driver.PlDma.Copy.{
  Copying, axi_addr, called, single_tx, copy_by_chunk, copy_with, free_buffer, pl2ps_src, ps2pl_dst,
  pl2ps_chunk, ps2pl_chunk, memcpy_pl2ps, memcpy_ps2pl,
}

-- For a size that is not negative, the signed computation is the unsigned one.
copy_len_int_lem : (size : ℕ) → size < 2 ^ 31 → copy_len_int size ≡ copy_len size
unfolding copy_len_int
copy_len_int_lem size h = ground arith

num_chunk_int_lem : (size : ℕ) → size < 2 ^ 31 → num_chunk_int size ≡ num_chunk size
unfolding num_chunk_int
num_chunk_int_lem size h = let e : leb (2 ^ 31) size ≡ false = ground arith in rw e refl

int_to_size_lem : (size : ℕ) → size < 2 ^ 31 → int_to_size size ≡ size
unfolding int_to_size
int_to_size_lem size h = let e : leb (2 ^ 31) size ≡ false = ground arith in rw e refl

module _ (d : CdmaDev) (hw : Engine) where
  single_tx_ok :
      (src dst len : ℕ) (s : Copying) → Completes hw → (single_tx d hw src dst len s).0 ≡ success 0
  unfolding single_tx dma_single_tx
  single_tx_ok src dst len s ok = rw (wait_intr_ok hw _ ok) refl

  module _ (k : Kernel) (info : IoctlInfo) where
    -- The calls of `n` rounds, before those of `cs`: a transfer from the next chunk of the source to
    -- the buffer, then a copy from the buffer to the next chunk of the destination.
    abbrev pub pl2ps_calls : (handle len : ℕ) → List Call → (n : ℕ) → List Call
    pl2ps_calls handle len cs zero = cs
    pl2ps_calls handle len cs (suc n) =
        to_user (u64 (info.dst_c_ptr + n * cpy_chunk_size)) len
        ∷ transfer (u32 (bus_addr d (u64 (info.src_a_va + n * cpy_chunk_size)))) (axi_addr handle)
            len
        ∷ pl2ps_calls handle len cs n

    -- A copy from the next chunk of the source to the buffer, then a transfer from the buffer, to
    -- the same address in each round.
    abbrev pub ps2pl_calls : (handle len : ℕ) → List Call → (n : ℕ) → List Call
    ps2pl_calls handle len cs zero = cs
    ps2pl_calls handle len cs (suc n) =
        transfer (axi_addr handle) (u32 (bus_addr d info.dst_c_va)) len
        ∷ from_user (u64 (info.src_a_ptr + n * cpy_chunk_size)) len
        ∷ ps2pl_calls handle len cs n

    module _ (ok : Completes hw) (all : IsWhole k) (handle len : ℕ) (s : Copying) where
      -- The state before the round `n`.
      abbrev at_pl2ps : (n : ℕ) → Copying
      at_pl2ps zero = s
      at_pl2ps (suc n) =
          called (to_user (u64 (info.dst_c_ptr + chunk_offset n)) len)
            (single_tx d hw (pl2ps_src d hw k info n) (axi_addr handle) len (at_pl2ps n)).1

      pl2ps_chunk_lem :
          (n : ℕ) → pl2ps_chunk d hw k info handle len n (at_pl2ps n) ≡ goes_on (at_pl2ps (n + 1))
      unfolding pl2ps_chunk
      pl2ps_chunk_lem n =
          let e : n + 1 ≡ suc n = omega arith in
          rw
            (
              e,
              single_tx_ok (pl2ps_src d hw k info n) (axi_addr handle) len (at_pl2ps n) ok,
              (all _ (u64 (info.dst_c_ptr + chunk_offset n)) len).0,
            )
            refl

      pl2ps_calls_lem :
          (n : ℕ)
          → info.src_a_size < 2 ^ 31
          → n ≤ num_chunk info.src_a_size
          → (at_pl2ps n).calls ≡ pl2ps_calls handle len s.calls n
      unfolding single_tx
      pl2ps_calls_lem zero w h = refl
      pl2ps_calls_lem (suc n) w h =
          rw (chunk_offset_lem info.src_a_size n w (omega arith), pl2ps_calls_lem n w (omega arith))
            refl

      abbrev at_ps2pl : (n : ℕ) → Copying
      at_ps2pl zero = s
      at_ps2pl (suc n) =
          (single_tx d hw (axi_addr handle) (ps2pl_dst d hw k info) len
            (called (from_user (u64 (info.src_a_ptr + chunk_offset n)) len) (at_ps2pl n))).1

      ps2pl_chunk_lem :
          (n : ℕ) → ps2pl_chunk d hw k info handle len n (at_ps2pl n) ≡ goes_on (at_ps2pl (n + 1))
      unfolding ps2pl_chunk
      ps2pl_chunk_lem n =
          let e : n + 1 ≡ suc n = omega arith in
          rw
            (
              e,
              single_tx_ok (axi_addr handle) (ps2pl_dst d hw k info) len
                  (called (from_user (u64 (info.src_a_ptr + chunk_offset n)) len) (at_ps2pl n)) ok,
              (all _ (u64 (info.src_a_ptr + chunk_offset n)) len).1,
            )
            refl

      ps2pl_calls_lem :
          (n : ℕ)
          → info.src_a_size < 2 ^ 31
          → n ≤ num_chunk info.src_a_size
          → (at_ps2pl n).calls ≡ ps2pl_calls handle len s.calls n
      unfolding single_tx
      ps2pl_calls_lem zero w h = refl
      ps2pl_calls_lem (suc n) w h =
          rw (chunk_offset_lem info.src_a_size n w (omega arith), ps2pl_calls_lem n w (omega arith))
            refl

    -- The frame of both copies, where every round goes on.
    copy_by_chunk_lem :
        (chunk : (handle len i : ℕ) → Copying → Round Code Copying) (s : Copying) (handle : ℕ)
        (at : ℕ → Copying)
        → info.src_a_size < 2 ^ 31
        → k.dma_alloc_coherent s.calls (copy_len info.src_a_size) ≡ some handle
        → at 0 ≡ called (alloc (copy_len info.src_a_size) handle) s
        → ((j : ℕ) → chunk handle (copy_len info.src_a_size) j (at j) ≡ goes_on (at (j + 1)))
        → copy_by_chunk d hw k info chunk s
          ≡ (success 0, called (free info.src_a_size handle) (at (num_chunk info.src_a_size)))
    unfolding copy_by_chunk copy_with free_buffer
    copy_by_chunk_lem chunk s handle at w got z h =
        let n = num_chunk info.src_a_size in
        let len = copy_len info.src_a_size in
        let loop : for_chunks (chunk handle len) n 0 (at 0) ≡ goes_on (at n) =
          for_chunks-at (chunk handle len) at n (λ j l. h j) in
        rw
          (
            copy_len_int_lem info.src_a_size w,
            num_chunk_int_lem info.src_a_size w,
            got,
            sym z,
            loop,
            int_to_size_lem info.src_a_size w,
          )
          refl

    -- Where the engine completes each transfer, the kernel gives the buffer and copies everything,
    -- and the size is not negative, MEMCPY_PL2PS succeeds, and these are its calls: it takes a
    -- buffer of one chunk, in each round transfers the next chunk of the source to the buffer and
    -- copies it to the next chunk of the destination, and gives the buffer back, with the size of
    -- the whole copy as its size.
    pub memcpy_pl2ps_lem :
        (s : Copying) (handle : ℕ)
        → Completes hw
        → IsWhole k
        → info.src_a_size < 2 ^ 31
        → k.dma_alloc_coherent s.calls (copy_len info.src_a_size) ≡ some handle
        → let len = copy_len info.src_a_size in
          let out = memcpy_pl2ps d hw k info s in
          (out.0 ≡ success 0)
          × (out.1.calls
              ≡ free info.src_a_size handle
                ∷ pl2ps_calls handle len (alloc len handle ∷ s.calls) (num_chunk info.src_a_size))
    unfolding memcpy_pl2ps
    memcpy_pl2ps_lem s handle ok all w got =
        let len = copy_len info.src_a_size in
        let s' = called (alloc len handle) s in
        let e : memcpy_pl2ps d hw k info s ≡ _ =
          copy_by_chunk_lem (pl2ps_chunk d hw k info) s handle (at_pl2ps ok all handle len s') w got
            refl (pl2ps_chunk_lem ok all handle len s') in
        rw e (
          refl,
          ap (λ cs. free info.src_a_size handle ∷ cs)
              (pl2ps_calls_lem ok all handle len s' _ w (omega arith)),
        )

    -- Where the engine completes each transfer, the kernel gives the buffer and copies everything,
    -- and the size is not negative, MEMCPY_PS2PL succeeds, and these are its calls: it takes a
    -- buffer of one chunk, in each round copies the next chunk of the source to the buffer and
    -- transfers it to the start of the destination, the same in each round, and gives the buffer
    -- back, with the size of the whole copy as its size.
    pub memcpy_ps2pl_lem :
        (s : Copying) (handle : ℕ)
        → Completes hw
        → IsWhole k
        → info.src_a_size < 2 ^ 31
        → k.dma_alloc_coherent s.calls (copy_len info.src_a_size) ≡ some handle
        → let len = copy_len info.src_a_size in
          let out = memcpy_ps2pl d hw k info s in
          (out.0 ≡ success 0)
          × (out.1.calls
              ≡ free info.src_a_size handle
                ∷ ps2pl_calls handle len (alloc len handle ∷ s.calls) (num_chunk info.src_a_size))
    unfolding memcpy_ps2pl
    memcpy_ps2pl_lem s handle ok all w got =
        let len = copy_len info.src_a_size in
        let s' = called (alloc len handle) s in
        let e : memcpy_ps2pl d hw k info s ≡ _ =
          copy_by_chunk_lem (ps2pl_chunk d hw k info) s handle (at_ps2pl ok all handle len s') w got
            refl (ps2pl_chunk_lem ok all handle len s') in
        rw e (
          refl,
          ap (λ cs. free info.src_a_size handle ∷ cs)
              (ps2pl_calls_lem ok all handle len s' _ w (omega arith)),
        )
