-- ===== src/Cdma/Read.antt =====
-- What the descriptor memory holds after a sequence of the writes of Cdma/Emit.antt.
use lut_pim_driver.Prelude.{
  ℕ, zero, suc, ◌+◌, ◌*◌, ◌^◌, ◌≤◌, ◌<◌, ◌≡◌, ◌≢◌, refl, List, [], ◌∷◌, u32, arith, length, ◌∙◌,
  ap₂, subst, replicate,
}
use native.Mathlib.Decide.{ℕ_discrete}
use lut_pim_driver.Cdma.{
  CdmaDev, dma_desc_write, dma_desc_read, word, cdma_next_de_l, cdma_next_de_h, cdma_desc_sa_l,
  cdma_desc_sa_h, cdma_desc_da_l, cdma_desc_da_h, cdma_desc_len, cdma_desc_status, cdma_desc_info,
}
use lut_pim_driver.Cdma.Emit.{Fields, Gen, write_fields, emit, clear, emit_all, clear_all}

-- Below this many descriptors the word index does not wrap.
abbrev pub desc_limit : ℕ
desc_limit = 2 ^ 28

-- The descriptor of index `i` as the device reads it.
pub record Descriptor : Type 0 where
  pub next_l : ℕ
  pub next_h : ℕ
  pub sa_l : ℕ
  pub sa_h : ℕ
  pub da_l : ℕ
  pub da_h : ℕ
  pub len : ℕ
  pub info : ℕ

abbrev pub descriptor : (ℕ → ℕ) → ℕ → Descriptor
descriptor m i = record {
  next_l = dma_desc_read i cdma_next_de_l m;
  next_h = dma_desc_read i cdma_next_de_h m;
  sa_l = dma_desc_read i cdma_desc_sa_l m;
  sa_h = dma_desc_read i cdma_desc_sa_h m;
  da_l = dma_desc_read i cdma_desc_da_l m;
  da_h = dma_desc_read i cdma_desc_da_h m;
  len = dma_desc_read i cdma_desc_len m;
  info = dma_desc_read i cdma_desc_info m;
}

-- The descriptor that holds the fields `f` and links to `next`.
abbrev pub linked : (high_addr next : ℕ) → Fields → Descriptor
linked high_addr next f = record {
  next_l = u32 next;
  next_h = u32 high_addr;
  sa_l = u32 f.sa_l;
  sa_h = u32 f.sa_h;
  da_l = u32 f.da_l;
  da_h = u32 f.da_h;
  len = u32 f.len;
  info = u32 f.info;
}

-- The descriptors `i`, ..., `i + n - 1`, and their status words.
unfoldable pub descriptors : (ℕ → ℕ) → (i n : ℕ) → List Descriptor
descriptors m i zero = []
descriptors m i (suc n) = descriptor m i ∷ descriptors m (i + 1) n

unfoldable pub statuses : (ℕ → ℕ) → (i n : ℕ) → List ℕ
statuses m i zero = []
statuses m i (suc n) = dma_desc_read i cdma_desc_status m ∷ statuses m (i + 1) n

-- A chain: each descriptor links to the one that follows it in memory, 0x40 bytes on.
unfoldable pub chain : (high_addr next : ℕ) → List Fields → List Descriptor
chain high_addr next [] = []
chain high_addr next (f ∷ fs) = linked high_addr next f ∷ chain high_addr (next + 0x40) fs

read-write_fields_self :
    (h i nx : ℕ) (f : Fields) (m : ℕ → ℕ)
    → i < desc_limit
    → descriptor (write_fields h i nx f m) i ≡ linked h nx f
unfolding write_fields dma_desc_read dma_desc_write word
read-write_fields_self h i nx f m hi = ground arith

read-write_self : (i p v : ℕ) (m : ℕ → ℕ) → dma_desc_read i p (dma_desc_write i p v m) ≡ u32 v
unfolding dma_desc_read dma_desc_write
read-write_self i p v m = ground arith

pub read-write_ne :
    (i j p v : ℕ) (m : ℕ → ℕ)
    → i < desc_limit
    → j < desc_limit
    → i ≢ j
    → dma_desc_read j p (dma_desc_write i p v m) ≡ dma_desc_read j p m
unfolding dma_desc_read dma_desc_write word
read-write_ne i j p v m hi hj ne = ground arith

linked-u32 : (h nx x : ℕ) (f : Fields) → nx ≡ u32 x → linked h nx f ≡ linked h x f
linked-u32 h nx x f e = ground arith

descriptor-write_fields_ne :
    (h i nx : ℕ) (f : Fields) (m : ℕ → ℕ) (j : ℕ)
    → i < desc_limit
    → j < desc_limit
    → i ≢ j
    → descriptor (write_fields h i nx f m) j ≡ descriptor m j
unfolding write_fields dma_desc_read dma_desc_write word
descriptor-write_fields_ne h i nx f m j hi hj ne = ground arith

read-write_fields_status :
    (h i nx : ℕ) (f : Fields) (m : ℕ → ℕ) (j : ℕ)
    → i < desc_limit
    → j < desc_limit
    → dma_desc_read j cdma_desc_status (write_fields h i nx f m)
      ≡ dma_desc_read j cdma_desc_status m
unfolding write_fields dma_desc_read dma_desc_write word
read-write_fields_status h i nx f m j hi hj = ground arith

-- What a sequence of descriptors leaves alone: the descriptors below, and every status word.
module _ (d : CdmaDev) where
  pub desc_idx-emit_all :
      (fs : List Fields) (g : Gen)
      → g.desc_idx + length fs < 2 ^ 32
      → (emit_all d fs g).desc_idx ≡ g.desc_idx + length fs
  unfolding emit_all emit
  desc_idx-emit_all [] g h = omega arith
  desc_idx-emit_all (f ∷ fs) g h = omega (arith, desc_idx-emit_all fs (emit d f g) (omega arith))

  pub next_desc-emit_all :
      (fs : List Fields) (g : Gen) (x : ℕ)
      → g.next_desc ≡ u32 x
      → (emit_all d fs g).next_desc ≡ u32 (x + 0x40 * length fs)
  unfolding emit_all emit
  next_desc-emit_all [] g x e = omega arith
  next_desc-emit_all (f ∷ fs) g x e =
      omega (arith, next_desc-emit_all fs (emit d f g) (x + 0x40) (omega arith))

  descriptor-emit_all_below :
      (fs : List Fields) (g : Gen) (j : ℕ)
      → j < g.desc_idx
      → g.desc_idx + length fs ≤ desc_limit
      → descriptor (emit_all d fs g).mem j ≡ descriptor g.mem j
  unfolding emit_all emit
  descriptor-emit_all_below [] g j h l = refl
  descriptor-emit_all_below (f ∷ fs) g j h l =
      descriptor-emit_all_below fs (emit d f g) j (omega arith) (omega arith)
      ∙ descriptor-write_fields_ne d.high_addr g.desc_idx g.next_desc f g.mem j (omega arith)
          (omega arith) (omega arith)

  pub status-emit_all :
      (fs : List Fields) (g : Gen) (j : ℕ)
      → j < desc_limit
      → g.desc_idx + length fs ≤ desc_limit
      → dma_desc_read j cdma_desc_status (emit_all d fs g).mem
        ≡ dma_desc_read j cdma_desc_status g.mem
  unfolding emit_all emit
  status-emit_all [] g j h l = refl
  status-emit_all (f ∷ fs) g j h l =
      status-emit_all fs (emit d f g) j h (omega arith)
      ∙ read-write_fields_status d.high_addr g.desc_idx g.next_desc f g.mem j (omega arith) h

  pub descriptors-emit_all :
      (fs : List Fields) (g : Gen) (x : ℕ)
      → g.next_desc ≡ u32 x
      → g.desc_idx + length fs ≤ desc_limit
      → descriptors (emit_all d fs g).mem g.desc_idx (length fs) ≡ chain d.high_addr x fs
  unfolding emit_all emit descriptors chain
  descriptors-emit_all [] g x e l = refl
  descriptors-emit_all (f ∷ fs) g x e l =
      let step : u32 (g.desc_idx + 1) ≡ g.desc_idx + 1 = omega arith in
      ap₂ ◌∷◌
        (descriptor-emit_all_below fs (emit d f g) g.desc_idx (omega arith) (omega arith)
          ∙ read-write_fields_self d.high_addr g.desc_idx g.next_desc f g.mem (omega arith)
          ∙ linked-u32 d.high_addr g.next_desc x f e)
        (subst
          (λ k.
            descriptors (emit_all d fs (emit d f g)).mem k (length fs)
            ≡ chain d.high_addr (x + 0x40) fs)
          step (descriptors-emit_all fs (emit d f g) (x + 0x40) (omega arith) (omega arith)))

-- Clearing: the status words that `n` clearing writes leave, and where they leave `desc_idx`.
desc_idx-clear_all :
    (n : ℕ) (g : Gen) → g.desc_idx + n < 2 ^ 32 → (clear_all n g).desc_idx ≡ g.desc_idx + n
unfolding clear_all clear
desc_idx-clear_all zero g h = omega arith
desc_idx-clear_all (suc n) g h = omega (arith, desc_idx-clear_all n (clear g) (omega arith))

pub next_desc-clear_all : (n : ℕ) (g : Gen) → (clear_all n g).next_desc ≡ g.next_desc
unfolding clear_all clear
next_desc-clear_all zero g = refl
next_desc-clear_all (suc n) g = next_desc-clear_all n (clear g)

-- A status word that the pass reaches is clear, and one above it is as it was.
status-clear_all_below :
    (n : ℕ) (g : Gen) (j : ℕ)
    → j < g.desc_idx
    → g.desc_idx + n ≤ desc_limit
    → dma_desc_read j cdma_desc_status (clear_all n g).mem ≡ dma_desc_read j cdma_desc_status g.mem
unfolding clear_all clear dma_desc_read dma_desc_write word
status-clear_all_below zero g j h l = refl
status-clear_all_below (suc n) g j h l = ground (arith, status-clear_all_below n (clear g) j)

pub status-clear_all_above :
    (n : ℕ) (g : Gen) (j : ℕ)
    → g.desc_idx + n ≤ j
    → j < desc_limit
    → dma_desc_read j cdma_desc_status (clear_all n g).mem ≡ dma_desc_read j cdma_desc_status g.mem
unfolding clear_all clear dma_desc_read dma_desc_write word
status-clear_all_above zero g j h l = refl
status-clear_all_above (suc n) g j h l = ground (arith, status-clear_all_above n (clear g) j)

pub status-clear_all :
    (n : ℕ) (g : Gen) (j : ℕ)
    → g.desc_idx ≤ j
    → j < g.desc_idx + n
    → g.desc_idx + n ≤ desc_limit
    → dma_desc_read j cdma_desc_status (clear_all n g).mem ≡ 0
unfolding clear_all clear
status-clear_all zero g j lo hi l = absurd (omega arith)
status-clear_all (suc n) g j lo hi l = elim (ℕ_discrete j g.desc_idx) [
  | yes e ↦ rw e (
      status-clear_all_below n (clear g) g.desc_idx (omega arith) (omega arith)
      ∙ read-write_self g.desc_idx cdma_desc_status 0 g.mem)
  | no ne ↦ status-clear_all n (clear g) j (omega arith) (omega arith) (omega arith)
]

pub statuses_zero :
    (m : ℕ → ℕ) (i n : ℕ)
    → ((j : ℕ) → i ≤ j → j < i + n → dma_desc_read j cdma_desc_status m ≡ 0)
    → statuses m i n ≡ replicate n 0
unfolding statuses
statuses_zero m i zero h = refl
statuses_zero m i (suc n) h =
    ap₂ ◌∷◌ (h i (omega arith) (omega arith))
      (statuses_zero m (i + 1) n (λ j lo hi. h j (omega arith) (omega arith)))
