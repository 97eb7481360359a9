-- ===== src/PimMem/BitVectorLaws.antt =====
-- What the search of the bit vector finds, and what filling it changes.
use lut_pim_driver.Prelude.{
  ℕ, zero, suc, ◌+◌, ◌-◌, ◌≤◌, ◌<◌, ◌≡◌, refl, ap, List, [], ◌∷◌, Option, none, some, true, false,
  ◌==◌, ltb, if◌then◌else◌, replicate, sub_u32, arith, length, get_elem?, Bool-cases, inl, inr,
  Option-cases, ◌^◌, subst, sym, ◌⊎◌,
}
use mathlib.Core.Bool.{false≢true}
use mathlib.Core.Option.{none-ne-some}
use native.Mathlib.Decide.{dec_lt}
use lut_pim_driver.PimMem.BitVector.{
  free_page, starts_with, strstr, strnstr, strnstr_from, strlen, drop, find_pages,
}

-- The pages `i`, ..., `i + n - 1` exist and hold `v`.
abbrev pub IsRun : (v : ℕ) → List ℕ → (i n : ℕ) → Type 0
IsRun v s i zero = Unit {0}
IsRun v s i (suc n) = (get_elem? s i ≡ some v) × IsRun v s (suc i) n

-- The number of pages that hold `v`.
abbrev pub count : ℕ → List ℕ → ℕ
count v [] = 0
count v (x ∷ s) = if x == v then suc (count v s) else count v s

IsRun-cons : (v x : ℕ) (s : List ℕ) (i n : ℕ) → IsRun v s i n → IsRun v (x ∷ s) (suc i) n
IsRun-cons v x s i zero r = tt
IsRun-cons v x s i (suc n) r = (r.0, IsRun-cons v x s (suc i) n r.1)

pub IsRun-tail : (v x : ℕ) (s : List ℕ) (i n : ℕ) → IsRun v (x ∷ s) (suc i) n → IsRun v s i n
IsRun-tail v x s i zero r = tt
IsRun-tail v x s i (suc n) r = (r.0, IsRun-tail v x s (suc i) n r.1)

IsRun-starts_with :
    (v : ℕ) (s : List ℕ) (n : ℕ) → starts_with s (replicate n v) ≡ true → IsRun v s 0 n
unfolding starts_with
IsRun-starts_with v s zero h = tt
IsRun-starts_with v [] (suc n) h = absurd (false≢true h)
IsRun-starts_with v (x ∷ s) (suc n) h = elim (Bool-cases (x == v)) [
  | inl e ↦ (ground (arith, e), IsRun-cons v x s 0 n (IsRun-starts_with v s n (rw e at h)))
  | inr e ↦ absurd (false≢true (rw e at h))
]

starts_with-IsRun :
    (v : ℕ) (s : List ℕ) (n : ℕ) → IsRun v s 0 n → starts_with s (replicate n v) ≡ true
unfolding starts_with
starts_with-IsRun v [] zero h = refl
starts_with-IsRun v (x ∷ s) zero h = refl
starts_with-IsRun v [] (suc n) h = absurd (ground (arith, h.0))
starts_with-IsRun v (x ∷ s) (suc n) h =
    ground (arith, h.0, starts_with-IsRun v s n (IsRun-tail v x s 0 n h.1))

-- A run lies inside the text.
pub IsRun-le : (v : ℕ) (s : List ℕ) (i n : ℕ) → IsRun v s i (suc n) → i + suc n ≤ length s
IsRun-le v [] i n r = absurd (ground (arith, r.0))
IsRun-le v (x ∷ s) zero zero r = omega arith
IsRun-le v (x ∷ s) zero (suc n) r = omega (arith, IsRun-le v s 0 n (IsRun-tail v x s 0 (suc n) r.1))
IsRun-le v (x ∷ s) (suc i) n r = omega (arith, IsRun-le v s i n (IsRun-tail v x s i (suc n) r))

-- `strstr` finds a run, behind the offset of its first character, and misses none.
strstr-IsRun :
    (v n i j : ℕ) (s : List ℕ)
    → strstr (replicate n v) i s ≡ some j
    → (k : ℕ) × (j ≡ i + k) × IsRun v s k n
unfolding strstr
strstr-IsRun v n i j [] h = absurd (none-ne-some j h)
strstr-IsRun v n i j (x ∷ s) h = elim (Bool-cases (starts_with (x ∷ s) (replicate n v))) [
  | inl e ↦ (0, ground (arith, h, e), IsRun-starts_with v (x ∷ s) n e)
  | inr e ↦
      let (k, p, r) = strstr-IsRun v n (i + 1) j s (rw e at h) in
      (suc k, omega (arith, p), IsRun-cons v x s k n r)
]

strstr-none :
    (v n i k : ℕ) (s : List ℕ) → strstr (replicate (suc n) v) i s ≡ none → ¬ IsRun v s k (suc n)
unfolding strstr
strstr-none v n i k [] h r = absurd (omega (arith, IsRun-le v [] k n r))
strstr-none v n i zero (x ∷ s) h r =
    let e : starts_with (x ∷ s) (replicate (suc n) v) ≡ true =
      starts_with-IsRun v (x ∷ s) (suc n) r in
    ground (arith, h, e)
strstr-none v n i (suc k) (x ∷ s) h r =
    elim (Bool-cases (starts_with (x ∷ s) (replicate (suc n) v))) [
      | inl e ↦ ground (arith, h, e)
      | inr e ↦ strstr-none v n (i + 1) k s (rw e at h) (IsRun-tail v x s k (suc n) r)
    ]

-- The loops of `_strnstr`, from any character on.
strnstr_from-IsRun :
    (v n i j : ℕ) (s : List ℕ) (slen : ℕ)
    → strnstr_from v (replicate n v) n i s slen ≡ some j
    → (k : ℕ) × (j ≡ i + k) × IsRun v s k (suc n) × (k + suc n ≤ slen)
unfolding strnstr_from
strnstr_from-IsRun v n i j [] slen h = absurd (none-ne-some j h)
strnstr_from-IsRun v n i j (x ∷ s) zero h = absurd (none-ne-some j h)
strnstr_from-IsRun v n i j (x ∷ s) (suc slen) h =
    let later : strnstr_from v (replicate n v) n (i + 1) s slen ≡ some j
        → (k : ℕ) × (j ≡ i + k) × IsRun v (x ∷ s) k (suc n) × (k + suc n ≤ suc slen) =
      λ q.
        let (k, p, r, b) = strnstr_from-IsRun v n (i + 1) j s slen q in
        (suc k, omega (arith, p), IsRun-cons v x s k (suc n) r, omega (arith, b)) in
    elim (Bool-cases (x == v)) [
      | inl e ↦ elim (Bool-cases (ltb slen n)) [
        | inl l ↦ absurd (none-ne-some j (ground (arith, h, e, l)))
        | inr l ↦ elim (Bool-cases (starts_with s (replicate n v))) [
          | inl w ↦ (
            0,
            ground (arith, h, e, l, w),
            (ground (arith, e), IsRun-cons v x s 0 n (IsRun-starts_with v s n w)),
            ground (arith, l),
          )
          | inr w ↦ later (ground (arith, h, e, l, w))
        ]
      ]
      | inr e ↦ later (ground (arith, h, e))
    ]

strnstr_from-none :
    (v n i k : ℕ) (s : List ℕ) (slen : ℕ)
    → strnstr_from v (replicate n v) n i s slen ≡ none
    → k + suc n ≤ slen
    → ¬ IsRun v s k (suc n)
unfolding strnstr_from
strnstr_from-none v n i k [] slen h b r = absurd (omega (arith, IsRun-le v [] k n r))
strnstr_from-none v n i k (x ∷ s) zero h b r = absurd (omega arith)
strnstr_from-none v n i zero (x ∷ s) (suc slen) h b r =
    ground (arith, h, r.0, starts_with-IsRun v s n (IsRun-tail v x s 0 n r.1))
strnstr_from-none v n i (suc k) (x ∷ s) (suc slen) h b r =
    let l : ltb slen n ≡ false = ground arith in
    let q : strnstr_from v (replicate n v) n (i + 1) s slen ≡ none = elim (Bool-cases (x == v)) [
      | inl e ↦ elim (Bool-cases (starts_with s (replicate n v))) [
        | inl w ↦ absurd (none-ne-some i (ground (arith, h, e, l, w)))
        | inr w ↦ ground (arith, h, e, l, w)
      ]
      | inr e ↦ ground (arith, h, e)
    ] in
    strnstr_from-none v n (i + 1) k s slen q (omega arith) (IsRun-tail v x s k (suc n) r)

-- A run of the text behind `c` characters.
IsRun-drop : (v c : ℕ) (s : List ℕ) (k n : ℕ) → IsRun v (drop c s) k n → IsRun v s (c + k) n
IsRun-drop v zero s k n r = let e : 0 + k ≡ k = omega arith in rw e r
IsRun-drop v (suc c) [] k zero r = tt
IsRun-drop v (suc c) [] k (suc n) r = absurd (omega (arith, IsRun-le v [] k n r))
IsRun-drop v (suc c) (x ∷ s) k n r =
    let e : suc c + k ≡ suc (c + k) = omega arith in
    rw e (IsRun-cons v x s (c + k) n (IsRun-drop v c s k n r))

drop-IsRun : (v c : ℕ) (s : List ℕ) (k n : ℕ) → c ≤ k → IsRun v s k n → IsRun v (drop c s) (k - c) n
drop-IsRun v zero s k n h r = let e : k - 0 ≡ k = omega arith in rw e r
drop-IsRun v (suc c) s zero n h r = absurd (omega arith)
drop-IsRun v (suc c) [] (suc k) zero h r = tt
drop-IsRun v (suc c) [] (suc k) (suc n) h r = absurd (omega (arith, IsRun-le v [] (suc k) n r))
drop-IsRun v (suc c) (x ∷ s) (suc k) n h r =
    let e : suc k - suc c ≡ k - c = omega arith in
    rw e (drop-IsRun v c s k n (omega arith) (IsRun-tail v x s k n r))

strlen-replicate : (n v : ℕ) → strlen (replicate n v) ≡ n
strlen-replicate zero v = refl
strlen-replicate (suc n) v = ap suc (strlen-replicate n v)

strnstr-IsRun :
    (v n j : ℕ) (s : List ℕ) (slen : ℕ)
    → strnstr s (replicate (suc n) v) slen ≡ some j
    → IsRun v s j (suc n) × (j + suc n ≤ slen)
unfolding strnstr
strnstr-IsRun v n j s slen h =
    let q : strnstr_from v (replicate n v) n 0 s slen ≡ some j = rw (strlen-replicate n v) at h in
    let (k, p, r, b) = strnstr_from-IsRun v n 0 j s slen q in
    let e : k ≡ j = omega (arith, p) in (subst (λ i. IsRun v s i (suc n)) e r, omega (arith, e, b))

strnstr-none :
    (v n k : ℕ) (s : List ℕ) (slen : ℕ)
    → strnstr s (replicate (suc n) v) slen ≡ none
    → k + suc n ≤ slen
    → ¬ IsRun v s k (suc n)
unfolding strnstr
strnstr-none v n k s slen h b =
    let q : strnstr_from v (replicate n v) n 0 s slen ≡ none = rw (strlen-replicate n v) at h in
    strnstr_from-none v n 0 k s slen q b

-- `_strnstr` with `n + 1` equal characters either finds the start of a run of them inside the first
-- `slen` characters of the text, or finds nothing, and then these have no run of them.
pub strnstr-IsRun_or_none :
    (v n : ℕ) (s : List ℕ) (slen : ℕ)
    → ((j : ℕ) × (strnstr s (replicate (suc n) v) slen ≡ some j)
        × IsRun v s j (suc n)
        × (j + suc n ≤ slen))
      ⊎ ((strnstr s (replicate (suc n) v) slen ≡ none)
          × ((k : ℕ) → (slen < k + suc n) ⊎ (¬ IsRun v s k (suc n))))
strnstr-IsRun_or_none v n s slen = elim (Option-cases (strnstr s (replicate (suc n) v) slen)) [
  | inr (j, e) ↦ let (r, b) = strnstr-IsRun v n j s slen e in inl (j, e, r, b)
  | inl e ↦ inr (
    e,
    λ k. elim (dec_lt slen (k + suc n)) [
      | yes l ↦ inl l
      | no l ↦ inr (strnstr-none v n k s slen e (omega arith))
    ],
  )
]

-- The two rounds of the search.
find_pages_cases :
    (s : List ℕ) (c n : ℕ) {o : Option ℕ}
    → find_pages s c n ≡ o
    → ((j : ℕ) × (strstr (replicate n free_page) c (drop c s) ≡ some j) × (o ≡ some j))
      ⊎ ((strstr (replicate n free_page) c (drop c s) ≡ none)
          × (strnstr s (replicate n free_page) (sub_u32 c 1) ≡ o))
unfolding find_pages
find_pages_cases s c n h = elim (Option-cases (strstr (replicate n free_page) c (drop c s))) [
  | inl e ↦ inr (e, rw (e, find_pages) at h)
  | inr (j, e) ↦ inl (j, e, sym (rw (e, find_pages) at h))
]

-- The search finds only free pages.
pub find_pages-IsRun :
    (s : List ℕ) (c n j : ℕ) → find_pages s c (suc n) ≡ some j → IsRun free_page s j (suc n)
find_pages-IsRun s c n j h = elim (find_pages_cases s c (suc n) h) [
  | inl (i, e, q) ↦
      let (k, p, r) = strstr-IsRun free_page (suc n) c i (drop c s) e in
      let w : c + k ≡ j = ground (arith, q, p) in
      subst (λ t. IsRun free_page s t (suc n)) w (IsRun-drop free_page c s k (suc n) r)
  | inr (e, q) ↦ (strnstr-IsRun free_page n j s (sub_u32 c 1) q).0
]

-- Free pages that the search misses lie across the character before the current index.
pub find_pages-none :
    (s : List ℕ) (c n k : ℕ)
    → c < 2 ^ 32
    → find_pages s c (suc n) ≡ none
    → IsRun free_page s k (suc n)
    → (k < c) × (c ≤ k + suc n)
find_pages-none s c n k w h r = elim (find_pages_cases s c (suc n) h) [
  | inl (i, e, q) ↦ absurd (none-ne-some i q)
  | inr (e, q) ↦
      let before : k < c = elim (dec_lt k c) [
        | yes p ↦ p
        | no p ↦ absurd (
            strstr-none free_page n c (k - c) (drop c s) e
              (drop-IsRun free_page c s k (suc n) (omega arith) r))
      ] in
      (
        before,
        elim (dec_lt (k + suc n) c) [
          | no p ↦ omega arith
          | yes p ↦ absurd (strnstr-none free_page n k s (sub_u32 c 1) q (omega arith) r)
        ],
      )
]
