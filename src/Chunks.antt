-- ===== src/Chunks.antt =====
-- The division of a copy into chunks, as pl_dma_ioctl of src/drv_src/pl_fops.c and host_dma_ioctl
-- of src/drv_src/host_fops.c compute it, on x86.
use lut_pim_driver.Prelude.{
  ℕ, Bool, zero, suc, ◌+◌, ◌-◌, ◌*◌, ◌/◌, ◌%◌, ◌^◌, ◌≤◌, ◌<◌, ◌≡◌, ◌⊎◌, inl, inr, refl, ap, true,
  false, ◌==◌, ltb, leb, if◌then◌else◌, u32, u64, sub_u32, arith,
}
use native.Mathlib.Decide.{dec_lt}

abbrev pub cpy_chunk_size : ℕ
cpy_chunk_size = 0x100000

-- `copy_len` and `num_chunk` of an unsigned size.
unfoldable pub copy_len : ℕ → ℕ
copy_len size = if ltb cpy_chunk_size size then cpy_chunk_size else size

unfoldable pub num_chunk : ℕ → ℕ
num_chunk size =
    if size % cpy_chunk_size == 0 then size / cpy_chunk_size else size / cpy_chunk_size + 1

-- The same of a signed size, given by its bit pattern: `/` rounds to 0, and the results go to a
-- `uint32_t`.
abbrev pub is_negative : ℕ → Bool
is_negative size = leb (2 ^ 31) size

abbrev pub magnitude : ℕ → ℕ
magnitude size = sub_u32 0 size

unfoldable pub copy_len_int : ℕ → ℕ
unfolding copy_len
copy_len_int size = if is_negative size then size else copy_len size

unfoldable pub num_chunk_int : ℕ → ℕ
unfolding num_chunk
num_chunk_int size =
    if is_negative size
    then if magnitude size % cpy_chunk_size == 0
      then sub_u32 0 (magnitude size / cpy_chunk_size)
      else u32 (sub_u32 0 (magnitude size / cpy_chunk_size) + 1)
    else num_chunk size

-- An `int` as a `size_t`.
unfoldable pub int_to_size : ℕ → ℕ
int_to_size size = if is_negative size then u64 (size + 2 ^ 64 - 2 ^ 32) else size

-- `i * CPY_CHUNK_SIZE`, in 32 bits.
abbrev pub chunk_offset : ℕ → ℕ
chunk_offset i = u32 (i * cpy_chunk_size)

-- Every byte of a copy lies in a chunk: in the chunk of number `byte / CPY_CHUNK_SIZE`, which is
-- one of the `num_chunk` chunks, starts at or before the byte, and with its `copy_len` bytes ends
-- behind it. Its start does not wrap.
pub num_chunk-IsCover :
    (size byte : ℕ)
    → size < 2 ^ 32
    → byte < size
    → let i = byte / cpy_chunk_size in
      (i < num_chunk size) × (chunk_offset i ≤ byte) × (byte < chunk_offset i + copy_len size)
unfolding copy_len num_chunk
num_chunk-IsCover size byte w h = (ground arith, omega arith, ground arith)

-- The start of a chunk does not wrap.
pub chunk_offset_lem :
    (size i : ℕ) → size < 2 ^ 31 → i < num_chunk size → chunk_offset i ≡ i * cpy_chunk_size
unfolding num_chunk
chunk_offset_lem size i w h = ground arith

-- What the chunks hold together: the bytes of the copy where these fit in one chunk, and
-- otherwise the bytes of the copy rounded up to whole chunks, since the last chunk is as long as
-- the others.
pub chunks_total :
    (size : ℕ)
    → ((size ≤ cpy_chunk_size) × (num_chunk size * copy_len size ≡ size))
      ⊎ ((cpy_chunk_size < size)
          × (num_chunk size * copy_len size
              ≡ (size + cpy_chunk_size - 1) / cpy_chunk_size * cpy_chunk_size))
unfolding copy_len num_chunk
chunks_total size = elim (dec_lt cpy_chunk_size size) [
  | yes h ↦ inr (h, let e : ltb cpy_chunk_size size ≡ true = ground arith in rw e (ground arith))
  | no h ↦ inl (
    omega arith,
    let e : ltb cpy_chunk_size size ≡ false = ground arith in
        rw e (elim (dec_lt 0 size) [
          | yes p ↦ elim (dec_lt size cpy_chunk_size) [
            | yes q ↦
                let n : (size % cpy_chunk_size == 0) ≡ false = ground arith in
                let one : size / cpy_chunk_size + 1 ≡ 1 = omega arith in rw (n, one) (omega arith)
            | no q ↦ let z : size ≡ cpy_chunk_size = omega arith in rw z refl
          ]
          | no p ↦ let z : size ≡ 0 = omega arith in rw z refl
        ]),
  )
]

-- A round of a loop over the chunks, or the whole loop: it goes on, or the function leaves it.
pub data Round {ℓ} (E S : Type ℓ) : Type ℓ where
  goes_on : S → Round E S
  leaves : E → S → Round E S

module _ {ℓ} {E S : Type ℓ} where
  -- `for (i = 0; i < n; i++)`, from `i` on, for the `n` rounds that are left.
  unfoldable pub for_chunks : (body : ℕ → S → Round E S) → (n i : ℕ) → S → Round E S
  for_chunks body zero i s = goes_on s
  for_chunks body (suc n) i s = elim (body i s) [
    | goes_on t ↦ for_chunks body n (i + 1) t
    | leaves c t ↦ leaves c t
  ]

  -- Where each round goes on from `at i` to `at (i + 1)`, the loop ends in `at` of its end.
  for_chunks_from :
      (body : ℕ → S → Round E S) (at : ℕ → S) (n i m : ℕ)
      → i + n ≡ m
      → ((j : ℕ) → j < m → body j (at j) ≡ goes_on (at (j + 1)))
      → for_chunks body n i (at i) ≡ goes_on (at m)
  unfolding for_chunks
  for_chunks_from body at zero i m e h = ap (λ k. goes_on (at k)) (omega arith)
  for_chunks_from body at (suc n) i m e h =
      rw (h i (omega arith), for_chunks) (for_chunks_from body at n (i + 1) m (omega arith) h)

  pub for_chunks-at :
      (body : ℕ → S → Round E S) (at : ℕ → S) (n : ℕ)
      → ((j : ℕ) → j < n → body j (at j) ≡ goes_on (at (j + 1)))
      → for_chunks body n 0 (at 0) ≡ goes_on (at n)
  for_chunks-at body at n h = for_chunks_from body at n 0 n (omega arith) h

-- A predicate holds of the state, however the loop ends.
abbrev pub Ends {ℓ} : {E S : Type ℓ} → (E → S → Type 0) → (S → Type 0) → Round E S → Type 0
Ends Q P (goes_on s) = P s
Ends Q P (leaves c s) = Q c s

Ends-elim {ℓ} :
    {E S : Type ℓ} (Q : E → S → Type 0) (P : S → Type 0) (r : Round E S) (k : S → Round E S)
    → Ends Q P r
    → ((t : S) → P t → Ends Q P (k t))
    → Ends Q P (elim r [ goes_on t ↦ k t | leaves c t ↦ leaves c t ])
Ends-elim Q P (goes_on t) k p h = h t p
Ends-elim Q P (leaves c t) k p h = p

-- An invariant of the rounds is one of the loop.
pub for_chunks-Ends {ℓ} :
    {E S : Type ℓ} (Q : E → S → Type 0) (P : S → Type 0) (body : ℕ → S → Round E S)
    → ((i : ℕ) (s : S) → P s → Ends Q P (body i s))
    → (n i : ℕ) (s : S) → P s
    → Ends Q P (for_chunks body n i s)
unfolding for_chunks
for_chunks-Ends Q P body h zero i s p = p
for_chunks-Ends Q P body h (suc n) i s p =
    Ends-elim Q P (body i s) (for_chunks body n (i + 1)) (h i s p)
      (λ t q. for_chunks-Ends Q P body h n (i + 1) t q)
