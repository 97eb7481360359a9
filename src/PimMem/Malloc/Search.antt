-- ===== src/PimMem/Malloc/Search.antt =====
-- What the walk over the pools finds.
use lut_pim_driver.Prelude.{
  ℕ, zero, suc, ◌+◌, ◌-◌, ◌≤◌, ◌<◌, ◌≡◌, inl, inr, refl, ap, ◌∙◌, sym, List, [], ◌∷◌, ◌++◌, Option,
  none, some, leb, arith, length, Option-cases, Bool-cases, leb→le,
}
use mathlib.Core.Option.{none-ne-some, some-injective}
use lut_pim_driver.PimMem.BitVector.{free_page, used_page, fill}
use lut_pim_driver.PimMem.BitVectorLaws.{IsRun}
use lut_pim_driver.PimMem.Pool.{MemPool, Page, num_pages, set_bit_vector}
use lut_pim_driver.PimMem.Pool.Laws.{IsPool, set_bit_vector_lem}
use lut_pim_driver.PimMem.Malloc.{
  page_addr, set_page_size, set_alloc_size, take_pages, Found, skip, search, search_from,
}

-- The pool `p` once it has given the pages `idx`, ..., `idx + n - 1`.
abbrev pub taken : MemPool → (idx n : ℕ) → MemPool
taken p idx n =
    set_alloc_size
      (record p {
        bit_vector = fill p.bit_vector idx n used_page;
        nfree_pages = p.nfree_pages - n;
        curr_idx = idx + n;
      })
      idx n

-- A pool gave `n` free pages in one run, and the other pools are as they were.
pub record IsPlaced (n : ℕ) (ps : List MemPool) (f : Found) : Type 0 where
  pub before : List MemPool
  pub pool : MemPool
  pub after : List MemPool
  pub idx : ℕ
  pub from : ps ≡ before ++ pool ∷ after
  pub to : f.pools ≡ before ++ taken pool idx n ∷ after
  pub at : f.pos ≡ length before
  pub addr : f.addr ≡ page_addr pool idx
  pub run : IsRun free_page pool.bit_vector idx n
  pub inside : idx + n ≤ num_pages
  pub counted : n ≤ pool.nfree_pages
  pub valid : IsPool pool
  pub kept : IsPool (taken pool idx n)

abbrev pub ArePools : List MemPool → Type 0
ArePools [] = Unit {0}
ArePools (p ∷ ps) = IsPool p × ArePools ps

pub length-set_page_size : (s : List Page) (idx n : ℕ) → length (set_page_size s idx n) ≡ length s
length-set_page_size [] idx n = refl
length-set_page_size (page ∷ s) zero n = refl
length-set_page_size (page ∷ s) (suc idx) n = ap suc (length-set_page_size s idx n)

pub set_alloc_size-IsPool : (p : MemPool) (idx n : ℕ) → IsPool p → IsPool (set_alloc_size p idx n)
set_alloc_size-IsPool p idx n v = record {
  flags = v.flags;
  entries = length-set_page_size p.head_page idx n ∙ v.entries;
  index = v.index;
  kind = v.kind;
  free_count = v.free_count;
}

pub ArePools-append : (ps qs : List MemPool) → ArePools ps → ArePools qs → ArePools (ps ++ qs)
ArePools-append [] qs v w = w
ArePools-append (p ∷ ps) qs v w = (v.0, ArePools-append ps qs v.1 w)

ArePools-split :
    (ps : List MemPool) (p : MemPool) (qs : List MemPool)
    → ArePools (ps ++ p ∷ qs)
    → ArePools ps × ArePools qs
ArePools-split [] p qs v = (tt, v.1)
ArePools-split (q ∷ ps) p qs v = let (a, b) = ArePools-split ps p qs v.1 in ((v.0, a), b)

pub IsPlaced-ArePools :
    (n : ℕ) (ps : List MemPool) (f : Found) → ArePools ps → IsPlaced n ps f → ArePools f.pools
IsPlaced-ArePools n ps f v w =
    let (a, b) = ArePools-split w.before w.pool w.after (rw w.from at v) in
    rw w.to (ArePools-append w.before _ a (w.kept, b))

IsPlaced-skip :
    (n : ℕ) (p : MemPool) (ps : List MemPool) (f : Found)
    → IsPlaced n ps f
    → IsPlaced n (p ∷ ps) (record { pos = f.pos + 1; addr = f.addr; pools = p ∷ f.pools })
IsPlaced-skip n p ps f w = record {
  before = p ∷ w.before;
  pool = w.pool;
  after = w.after;
  idx = w.idx;
  from = ap (λ t. p ∷ t) w.from;
  to = ap (λ t. p ∷ t) w.to;
  at = omega (arith, w.at);
  addr = w.addr;
  run = w.run;
  inside = w.inside;
  counted = w.counted;
  valid = w.valid;
  kept = w.kept;
}

take_pages-some :
    (p : MemPool) (n addr : ℕ) (p' : MemPool)
    → take_pages p n ≡ some (addr, p')
    → (idx : ℕ) × (q : MemPool) × (set_bit_vector p n ≡ some (idx, q))
      × (addr ≡ page_addr q idx)
      × (p' ≡ set_alloc_size q idx n)
unfolding take_pages
take_pages-some p n addr p' h = elim (Option-cases (set_bit_vector p n)) [
  | inl e ↦ absurd (none-ne-some (addr, p') (rw (e, take_pages) at h))
  | inr ((idx, q), e) ↦
      let g : (page_addr q idx, set_alloc_size q idx n) ≡ (addr, p') =
        some-injective _ _ (rw (e, take_pages) at h) in
      (idx, q, e, ap (λ t. t.0) (sym g), ap (λ t. t.1) (sym g))
]

take_pages-IsPlaced :
    (p : MemPool) (ps : List MemPool) (n addr : ℕ) (p' : MemPool)
    → IsPool p
    → 0 < n
    → n ≤ p.nfree_pages
    → take_pages p n ≡ some (addr, p')
    → IsPlaced n (p ∷ ps) (record { pos = 0; addr = addr; pools = p' ∷ ps })
take_pages-IsPlaced p ps n addr p' v pos le h =
    let (idx, q, e, a, s) = take_pages-some p n addr p' h in
    let (r, inside, same, w) = set_bit_vector_lem p n idx q v pos le e in
    record {
      before = [];
      pool = p;
      after = ps;
      idx = idx;
      from = refl;
      to = ap (λ t. t ∷ ps) (s ∙ ap (λ t. set_alloc_size t idx n) same);
      at = refl;
      addr = a ∙ ap (λ t. page_addr t idx) same;
      run = r;
      inside = inside;
      counted = le;
      valid = v;
      kept = set_alloc_size-IsPool _ idx n (rw same at w);
    }

skip-some :
    (p : MemPool) (o : Option Found) (f : Found)
    → skip p o ≡ some f
    → (g : Found) × (o ≡ some g)
      × (f ≡ record { pos = g.pos + 1; addr = g.addr; pools = p ∷ g.pools })
skip-some p none f h = absurd (none-ne-some f h)
skip-some p (some g) f h = (g, refl, ground arith)

-- On valid pools, what the walk from the head finds for `n` pages, `n` not 0, is the first page of
-- a run of `n` free pages inside one pool, whose flags it sets and whose page records it as an
-- allocation of `n`; no other pool changes.
pub search-IsPlaced :
    (n : ℕ) (ps : List MemPool) (f : Found)
    → ArePools ps
    → 0 < n
    → search n ps ≡ some f
    → IsPlaced n ps f
unfolding search
search-IsPlaced n [] f v pos h = absurd (none-ne-some f h)
search-IsPlaced n (p ∷ ps) f v pos h =
    let later : skip p (search n ps) ≡ some f → IsPlaced n (p ∷ ps) f = λ q.
      let (g, e, w) = skip-some p (search n ps) f q in
      rw w (IsPlaced-skip n p ps g (search-IsPlaced n ps g v.1 pos e)) in
    elim (Bool-cases (leb n p.nfree_pages)) [
      | inr l ↦ later (rw (l, search) at h)
      | inl l ↦ elim (Option-cases (take_pages p n)) [
        | inl e ↦ later (rw (l, e, search) at h)
        | inr ((addr, p'), e) ↦
            let g : record { pos = 0; addr = addr; pools = p' ∷ ps } ≡ f =
              some-injective _ _ (rw (l, e, search) at h) in
            rw (← g) (take_pages-IsPlaced p ps n addr p' v.0 pos (leb→le n p.nfree_pages l) e)
      ]
    ]

-- On valid pools, what the walk from any position finds for `n` pages, `n` not 0, is the first
-- page of a run of `n` free pages inside one pool, whose flags it sets and whose page records it
-- as an allocation of `n`; no other pool changes.
pub search_from-IsPlaced :
    (start n : ℕ) (ps : List MemPool) (f : Found)
    → ArePools ps
    → 0 < n
    → search_from start n ps ≡ some f
    → IsPlaced n ps f
unfolding search_from
search_from-IsPlaced zero n ps f v pos h = search-IsPlaced n ps f v pos h
search_from-IsPlaced (suc start) n [] f v pos h = absurd (none-ne-some f h)
search_from-IsPlaced (suc start) n (p ∷ ps) f v pos h =
    let (g, e, w) = skip-some p (search_from start n ps) f h in
    rw w (IsPlaced-skip n p ps g (search_from-IsPlaced start n ps g v.1 pos e))
