-- ===== src/HostDma/Ioctl/Copies.antt =====
-- What the copies of `host_dma_ioctl` do where the kernel and the engine do their part.
use lut_pim_driver.Prelude.{
  ℕ, zero, suc, ◌+◌, ◌*◌, ◌^◌, ◌<◌, ◌≡◌, refl, List, ◌∷◌, true, false, some, u64, arith,
}
use lut_pim_driver.Cdma.{IoctlInfo}
use lut_pim_driver.Chunks.{
  goes_on, for_chunks-at, copy_len, num_chunk, cpy_chunk_size, chunk_offset_lem,
}
use lut_pim_driver.Kernel.{
  Call, alloc, free, from_user, to_user, transfer, take_channel, release_channel, Kernel, IsWhole,
}
use lut_pim_driver.HostDma.{success, HostDma}
use lut_pim_driver.HostDma.Memcpy.{DmaEngine, submit, dma_memcpy}
use lut_pim_driver.HostDma.Ioctl.{
  host2host, fpga2host, is_bad, after_memcpy, user_to_buffer, buffer_to_user, host2host_chunk,
  fpga2host_chunk, end_copy, copy_host2host, copy_fpga2host, host_case, host_dma_ioctl,
}

-- The engine has a channel, prepares each transfer, and completes it.
abbrev pub IsReady : DmaEngine → Type 0
IsReady e =
    (cs : List Call) (dst src len : ℕ)
    → (e.request_channel cs ≡ true) × (e.prep cs dst src len ≡ true) × (e.is_complete cs ≡ true)

-- The calls of one transfer.
abbrev pub dma_calls : (dst src len : ℕ) → List Call → List Call
dma_calls dst src len cs = release_channel ∷ transfer src dst len ∷ take_channel ∷ cs

dma_memcpy_ok :
    (e : DmaEngine) (dst src len : ℕ) (cs : List Call)
    → IsReady e
    → dma_memcpy e dst src len cs ≡ (success, dma_calls dst src len cs)
unfolding dma_memcpy submit
dma_memcpy_ok e dst src len cs r =
    rw
      (
        (r cs dst src len).0,
        (r (take_channel ∷ cs) dst src len).1,
        (r (transfer src dst len ∷ take_channel ∷ cs) dst src len).2,
      )
      refl

module _ (va_to_pa : ℕ → ℕ) (e : DmaEngine) (k : Kernel) (info : IoctlInfo) where
  -- The calls of `n` rounds, before those of `cs`: the next chunk of the source goes to the first
  -- buffer, from there to the second, and from there to the next chunk of the destination.
  abbrev pub host2host_calls : (handle handle_dst len : ℕ) → List Call → (n : ℕ) → List Call
  host2host_calls handle handle_dst len cs zero = cs
  host2host_calls handle handle_dst len cs (suc n) =
      to_user (u64 (info.dst_c_ptr + n * cpy_chunk_size)) len
      ∷ dma_calls handle_dst handle len (
          from_user (u64 (info.src_a_ptr + n * cpy_chunk_size)) len
          ∷ host2host_calls handle handle_dst len cs n)

  -- The start of the source, the same in each round, goes to the buffer, and from there to the next
  -- chunk of the destination.
  abbrev pub fpga2host_calls : (handle len : ℕ) → List Call → (n : ℕ) → List Call
  fpga2host_calls handle len cs zero = cs
  fpga2host_calls handle len cs (suc n) =
      to_user (u64 (info.dst_c_ptr + n * cpy_chunk_size)) len
      ∷ dma_calls handle (va_to_pa info.src_a_ptr) len (fpga2host_calls handle len cs n)

  module _ (r : IsReady e) (all : IsWhole k) (small : info.length < 2 ^ 31) (len : ℕ) where
    host2host_chunk_lem :
        (handle handle_dst : ℕ) (cs : List Call) (n : ℕ)
        → n < num_chunk info.length
        → host2host_chunk va_to_pa e k info handle handle_dst len n
            (host2host_calls handle handle_dst len cs n)
          ≡ goes_on (host2host_calls handle handle_dst len cs (n + 1))
    unfolding host2host_chunk user_to_buffer buffer_to_user after_memcpy
    host2host_chunk_lem handle handle_dst cs n h =
        let i : n + 1 ≡ suc n = omega arith in
        rw
          (
            i,
            chunk_offset_lem info.length n small h,
            (all _ (u64 (info.src_a_ptr + n * cpy_chunk_size)) len).1,
            dma_memcpy_ok e handle_dst handle len _ r,
            (all _ (u64 (info.dst_c_ptr + n * cpy_chunk_size)) len).0,
          )
          refl

    fpga2host_chunk_lem :
        (handle : ℕ) (cs : List Call) (n : ℕ)
        → n < num_chunk info.length
        → fpga2host_chunk va_to_pa e k info handle len n (fpga2host_calls handle len cs n)
          ≡ goes_on (fpga2host_calls handle len cs (n + 1))
    unfolding fpga2host_chunk buffer_to_user after_memcpy
    fpga2host_chunk_lem handle cs n h =
        let i : n + 1 ≡ suc n = omega arith in
        rw
          (
            i,
            chunk_offset_lem info.length n small h,
            dma_memcpy_ok e handle (va_to_pa info.src_a_ptr) len _ r,
            (all _ (u64 (info.dst_c_ptr + n * cpy_chunk_size)) len).0,
          )
          refl

  -- Where the engine completes each transfer and the kernel gives both buffers and copies
  -- everything, with arguments that pass the check and a length below 2 GB, HOST2HOST succeeds, and
  -- these are its calls: two buffers of one chunk, for each chunk in turn a copy from the source to
  -- the first buffer, a transfer on a channel from there to the second, and a copy from there to
  -- the destination, then the return of both buffers.
  pub host_dma_ioctl-host2host :
      (h : HostDma) (cs : List Call) (handle handle_dst : ℕ)
      → IsReady e
      → IsWhole k
      → info.length < 2 ^ 31
      → is_bad info ≡ false
      → k.dma_alloc_coherent cs (copy_len info.length) ≡ some handle
      → k.dma_alloc_coherent (alloc (copy_len info.length) handle ∷ cs) (copy_len info.length)
        ≡ some handle_dst
      → let len = copy_len info.length in
        host_dma_ioctl va_to_pa e k host2host h (some info) cs ≡ (
          success,
          free len handle
              ∷ free len handle_dst
              ∷ host2host_calls handle handle_dst len
                  (alloc len handle_dst ∷ alloc len handle ∷ cs)
                  (num_chunk info.length),
        )
  unfolding host_dma_ioctl host_case copy_host2host end_copy
  host_dma_ioctl-host2host h cs handle handle_dst r all small ok got got_dst =
      let len = copy_len info.length in
      let cs' = alloc len handle_dst ∷ alloc len handle ∷ cs in
      rw
        (
          got,
          got_dst,
          ok,
          for_chunks-at (host2host_chunk va_to_pa e k info handle handle_dst len)
              (host2host_calls handle handle_dst len cs') (num_chunk info.length)
              (host2host_chunk_lem r all small len handle handle_dst cs'),
        )
        refl

  -- Where the engine completes each transfer and the kernel gives the buffer and copies everything,
  -- with arguments that pass the check and a length below 2 GB, FPGA2HOST succeeds, and these are
  -- its calls: a buffer of one chunk, for each chunk of the destination in turn a transfer on a
  -- channel from the start of the source, the same in each round, to the buffer, and a copy from
  -- there to the chunk, then the return of the buffer.
  pub host_dma_ioctl-fpga2host :
      (h : HostDma) (cs : List Call) (handle : ℕ)
      → IsReady e
      → IsWhole k
      → info.length < 2 ^ 31
      → is_bad info ≡ false
      → k.dma_alloc_coherent cs (copy_len info.length) ≡ some handle
      → let len = copy_len info.length in
        host_dma_ioctl va_to_pa e k fpga2host h (some info) cs ≡ (
          success,
          free len handle
              ∷ fpga2host_calls handle len (alloc len handle ∷ cs) (num_chunk info.length),
        )
  unfolding host_dma_ioctl host_case copy_fpga2host end_copy
  host_dma_ioctl-fpga2host h cs handle r all small ok got =
      let len = copy_len info.length in
      let cs' = alloc len handle ∷ cs in
      rw
        (
          got,
          ok,
          for_chunks-at (fpga2host_chunk va_to_pa e k info handle len)
              (fpga2host_calls handle len cs') (num_chunk info.length)
              (fpga2host_chunk_lem r all small len handle cs'),
        )
        refl
