-- ===== src/PimMem/BitVector.antt =====
-- The bit vector of a memory pool in src/mem_src/pim_mem.c: one character for each page, '0' for
-- free and '1' for in use. The list ends where the C string has its '\0'.
use lut_pim_driver.Prelude.{
  ℕ, zero, suc, ◌+◌, List, [], ◌∷◌, Option, none, some, Bool, true, false, ◌&&◌, ◌==◌, ltb,
  if◌then◌else◌, replicate, sub_u32,
}

-- '0' and '1'.
abbrev pub free_page : ℕ
free_page = b'0'

abbrev pub used_page : ℕ
used_page = b'1'

-- `strncmp(s, find, strlen(find)) == 0`.
unfoldable pub starts_with : List ℕ → List ℕ → Bool
starts_with s [] = true
starts_with [] (c ∷ find) = false
starts_with (x ∷ s) (c ∷ find) = (x == c) && starts_with s find

-- `strstr`, as the offset of the first occurrence from `i` on, for a `find` that is not empty.
unfoldable pub strstr : (find : List ℕ) (i : ℕ) → List ℕ → Option ℕ
strstr find i [] = none
strstr find i (x ∷ s) = if starts_with (x ∷ s) find then some i else strstr find (i + 1) s

-- `_strnstr`: the two nested loops, one character of `s` at a time. `slen` is decremented before
-- the character is read; `c` is the first character of the text sought and `find` the others.
unfoldable pub strnstr_from : (c : ℕ) (find : List ℕ) (len i : ℕ) → List ℕ → (slen : ℕ) → Option ℕ
strnstr_from c find len i [] slen = none
strnstr_from c find len i (x ∷ s) zero = none
strnstr_from c find len i (x ∷ s) (suc slen) =
    let rest = strnstr_from c find len (i + 1) s slen in
    if x == c
    then (if ltb slen len then none else if starts_with s find then some i else rest)
    else rest

abbrev pub strlen : List ℕ → ℕ
strlen [] = 0
strlen (x ∷ s) = suc (strlen s)

-- An empty `find` is found at the start.
unfoldable pub strnstr : List ℕ → List ℕ → ℕ → Option ℕ
unfolding strnstr_from
strnstr s [] slen = some 0
strnstr s (c ∷ find) slen = strnstr_from c find (strlen find) 0 s slen

abbrev pub drop : ℕ → List ℕ → List ℕ
drop zero s = s
drop (suc n) [] = []
drop (suc n) (x ∷ s) = drop n s

-- `strncpy(s + i, flags, n)` for the flags that are `n` times `v`, inside the string.
unfoldable pub fill : List ℕ → (i n v : ℕ) → List ℕ
fill [] i n v = []
fill (x ∷ s) zero zero v = x ∷ s
fill (x ∷ s) zero (suc n) v = v ∷ fill s zero n v
fill (x ∷ s) (suc i) n v = x ∷ fill s i n v

-- The page that `_set_bit_vector` chooses: the first round looks from the current index to the
-- end, the second one from the start to the character before the current index.
unfoldable pub find_pages : List ℕ → (curr_idx nalloc_pages : ℕ) → Option ℕ
unfolding strstr strnstr
find_pages bits curr_idx nalloc_pages =
    elim (strstr (replicate nalloc_pages free_page) curr_idx (drop curr_idx bits)) [
      | some idx ↦ some idx
      | none ↦ strnstr bits (replicate nalloc_pages free_page) (sub_u32 curr_idx 1)
    ]
