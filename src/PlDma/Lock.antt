-- ===== src/PlDma/Lock.antt =====
-- `pl_dma_open` and `pl_dma_release` of src/drv_src/pl_fops.c: the device's lock over the files
-- that are open. The kernel's mutex is a parameter.
use lut_pim_driver.Prelude.{
  ℕ, suc, ◌+◌, ◌≤◌, ◌≡◌, ◌⊎◌, inl, inr, refl, sym, ap, ◌∙◌, Bool, true, false, ◌==◌, if◌then◌else◌,
  arith,
}
use lut_pim_driver.PlDma.Copy.{failed}
use lut_pim_driver.PlDma.{
  Code, success, efault, Trace, dma_ctrl_write, cdma_reg_cr, cdma_reg_cr_reset,
}

-- `mutex_trylock` returns 0 if the lock is held and 1 if it took it.
pub record Mutex (M : Type 0) : Type 0 where
  pub trylock : M → ℕ × M
  pub unlock : M → M
  pub is_locked : M → Bool
  pub trylock_free :
      (m : M) → is_locked m ≡ false → ((trylock m).0 ≡ 1) × (is_locked (trylock m).1 ≡ true)
  pub trylock_held :
      (m : M) → is_locked m ≡ true → ((trylock m).0 ≡ 0) × (is_locked (trylock m).1 ≡ true)
  pub unlock_free : (m : M) → is_locked (unlock m) ≡ false

module _ {M : Type 0} (mutex : Mutex M) where
  unfoldable pub pl_dma_open : M → Code × M
  pl_dma_open m =
      let (ret, m') = mutex.trylock m in if ret == 0 then (efault, m') else (success 0, m')

  unfoldable pub pl_dma_release : M → Trace → Code × M × Trace
  pl_dma_release m t = (success 0, mutex.unlock m, dma_ctrl_write cdma_reg_cr cdma_reg_cr_reset t)

  -- The lock, the register writes, and the number of open files.
  pub record LockState : Type 0 where
    pub dma_lock : M
    pub trace : Trace
    pub open_files : ℕ

  -- The kernel calls `release` once for each file that an `open` without an error opened.
  pub data Step (s : LockState) : LockState → Type 0 where
    opened :
        (r : ℕ) (m : M)
        → pl_dma_open s.dma_lock ≡ (success r, m)
        → Step s (record { dma_lock = m; trace = s.trace; open_files = s.open_files + 1 })
    refused :
        (m : M)
        → pl_dma_open s.dma_lock ≡ (efault, m)
        → Step s (record { dma_lock = m; trace = s.trace; open_files = s.open_files })
    released :
        (n : ℕ)
        → s.open_files ≡ suc n
        → Step s (record {
          dma_lock = (pl_dma_release s.dma_lock s.trace).1;
          trace = (pl_dma_release s.dma_lock s.trace).2;
          open_files = n;
        })

  pub data Reach (s : LockState) : LockState → Type 0 where
    here : Reach s s
    further : {t u : LockState} → Reach s t → Step t u → Reach s u

  -- Before the first open: the lock is free.
  pub record IsInitial (s : LockState) : Type 0 where
    pub free : mutex.is_locked s.dma_lock ≡ false
    pub unused : s.open_files ≡ 0

  -- The lock is held exactly while a file is open, and no more than one is.
  abbrev IsExclusive : LockState → Type 0
  IsExclusive s =
      ((s.open_files ≡ 0) × (mutex.is_locked s.dma_lock ≡ false))
      ⊎ ((s.open_files ≡ 1) × (mutex.is_locked s.dma_lock ≡ true))

  open_free :
      (m : M)
      → mutex.is_locked m ≡ false
      → (pl_dma_open m ≡ (success 0, (mutex.trylock m).1))
        × (mutex.is_locked (mutex.trylock m).1 ≡ true)
  unfolding pl_dma_open
  open_free m h = let (one, held) = mutex.trylock_free m h in (rw one refl, held)

  open_held :
      (m : M)
      → mutex.is_locked m ≡ true
      → (pl_dma_open m ≡ (efault, (mutex.trylock m).1))
        × (mutex.is_locked (mutex.trylock m).1 ≡ true)
  unfolding pl_dma_open
  open_held m h = let (zero_, held) = mutex.trylock_held m h in (rw zero_ refl, held)

  Step-IsExclusive : (s t : LockState) → IsExclusive s → Step s t → IsExclusive t
  unfolding pl_dma_release
  Step-IsExclusive s _ (inl h) (opened r m e) =
      let (q, held) = open_free s.dma_lock h.1 in
      inr (omega (arith, h.0), ap (λ p. mutex.is_locked p.1) (sym e ∙ q) ∙ held)
  Step-IsExclusive s _ (inr h) (opened r m e) =
      let q : false ≡ true = ap (λ p. failed p.0) (sym e ∙ (open_held s.dma_lock h.1).0) in
      absurd (ground (arith, q))
  Step-IsExclusive s _ (inl h) (refused m e) =
      let q : true ≡ false = ap (λ p. failed p.0) (sym e ∙ (open_free s.dma_lock h.1).0) in
      absurd (ground (arith, q))
  Step-IsExclusive s _ (inr h) (refused m e) =
      let (q, held) = open_held s.dma_lock h.1 in
      inr (h.0, ap (λ p. mutex.is_locked p.1) (sym e ∙ q) ∙ held)
  Step-IsExclusive s _ (inl h) (released n e) = absurd (omega (arith, h.0))
  Step-IsExclusive s _ (inr h) (released n e) =
      inl (omega (arith, h.0), mutex.unlock_free s.dma_lock)

  Reach-IsExclusive : (s t : LockState) → IsInitial s → Reach s t → IsExclusive t
  Reach-IsExclusive s _ w here = inl (w.unused, w.free)
  Reach-IsExclusive s u w (further {t} r step) =
      Step-IsExclusive t u (Reach-IsExclusive s t w r) step

  -- In every state that opens and releases reach from a free lock, at most one file is open, and an
  -- open succeeds if no file is open and returns -EFAULT if one is.
  pub pl_dma_open-Reach :
      (s t : LockState)
      → IsInitial s
      → Reach s t
      → ((t.open_files ≡ 0) × ((pl_dma_open t.dma_lock).0 ≡ success 0))
        ⊎ ((t.open_files ≡ 1) × ((pl_dma_open t.dma_lock).0 ≡ efault))
  pl_dma_open-Reach s t w r = elim (Reach-IsExclusive s t w r) [
    | inl h ↦ inl (h.0, ap (λ p. p.0) (open_free t.dma_lock h.1).0)
    | inr h ↦ inr (h.0, ap (λ p. p.0) (open_held t.dma_lock h.1).0)
  ]

  -- The device never stays in use: from every state that opens and releases reach from a free lock,
  -- at most one release leads to a state in which an open succeeds.
  pub pl_dma_open_live :
      (s t : LockState)
      → IsInitial s
      → Reach s t
      → (u : LockState) × Reach t u
        × (t.open_files ≤ u.open_files + 1)
        × ((pl_dma_open u.dma_lock).0 ≡ success 0)
  unfolding pl_dma_release
  pl_dma_open_live s t w r = elim (Reach-IsExclusive s t w r) [
    | inl h ↦ (t, here, omega arith, ap (λ p. p.0) (open_free t.dma_lock h.1).0)
    | inr h ↦ (
      _,
      further here (released 0 (omega (arith, h.0))),
      omega (arith, h.0),
      ap (λ p. p.0) (open_free (mutex.unlock t.dma_lock) (mutex.unlock_free t.dma_lock)).0,
    )
  ]
