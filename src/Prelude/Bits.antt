-- ===== src/Prelude/Bits.antt =====
-- `&` and `|` of two words as arithmetic on the fields that a page mask separates.
use Prim.Native.Nat.{
  ℕ, zero, suc, ◌+◌, ◌*◌, ◌/◌, ◌%◌, ◌-◌, ◌^◌, ◌≤◌, ◌<◌, min, max, digits, bit_and, bit_or,
  bit_and-bitwise, bit_or-bitwise,
}
use mathlib.Core.Path.{◌≡◌, refl, subst}
use native.Mathlib.Omega.{arith}
use native.Mathlib.Nat.{pow-suc, one-le-pow}

module _ (z : ℕ → ℕ) (f : ℕ → ℕ → ℕ) (z_lem : (b : ℕ) → z b ≡ z (b / 2) * 2 + f 0 (b % 2)) where
  -- One more digit to go changes nothing.
  digits-suc : (n a b : ℕ) → a ≤ n → digits z f (suc n) a b ≡ digits z f n a b
  digits-suc zero zero b p = refl
  digits-suc zero (suc a) b p = absurd (omega arith)
  digits-suc (suc n) zero b p = refl
  digits-suc (suc n) (suc a) b p = rw (digits-suc n (suc a / 2) (b / 2) (omega arith)) refl

  digits-step :
      (n a b : ℕ) → a ≤ n → digits z f n a b ≡ digits z f n (a / 2) (b / 2) * 2 + f (a % 2) (b % 2)
  digits-step zero zero b p = z_lem b
  digits-step zero (suc a) b p = absurd (omega arith)
  digits-step (suc n) zero b p = z_lem b
  digits-step (suc n) (suc a) b p = rw (digits-suc n (suc a / 2) (b / 2) (omega arith)) refl

  digits-none : (n : ℕ) → z 0 ≡ 0 → digits z f n 0 0 ≡ 0
  digits-none zero z0 = z0
  digits-none (suc n) z0 = z0

  -- The operation works on the fields above and below a digit on their own.
  digits-fields :
      (k n q r s t : ℕ)
      → z 0 ≡ 0
      → r < 2 ^ k
      → t < 2 ^ k
      → q * 2 ^ k + r ≤ n
      → digits z f n (q * 2 ^ k + r) (s * 2 ^ k + t) ≡ digits z f n q s * 2 ^ k + digits z f n r t
  digits-fields zero n q r s t z0 lr lt le =
      let er : r ≡ 0 = omega arith in
      let et : t ≡ 0 = omega arith in
      let none : digits z f n 0 0 ≡ 0 = digits-none n z0 in
      let qa : q * 2 ^ 0 + 0 ≡ q = omega arith in
      let sa : s * 2 ^ 0 + 0 ≡ s = omega arith in rw (er, et, qa, sa) omega (arith, none)
  digits-fields (suc k) n q r s t z0 lr lt le =
      let ep = pow-suc 2 k in
      let eq : q * 2 ^ suc k ≡ q * 2 ^ k * 2 = rw ep omega arith in
      let es : s * 2 ^ suc k ≡ s * 2 ^ k * 2 = rw ep omega arith in
      let ih = digits-fields k n q (r / 2) s (t / 2) z0 (omega arith) (omega arith) (omega arith) in
      let e1 = digits-step n (q * 2 ^ suc k + r) (s * 2 ^ suc k + t) le in
      let e2 = digits-step n r t (omega arith) in
      let ea : (q * 2 ^ suc k + r) / 2 ≡ q * 2 ^ k + r / 2 = omega arith in
      let eb : (s * 2 ^ suc k + t) / 2 ≡ s * 2 ^ k + t / 2 = omega arith in
      let ec : (q * 2 ^ suc k + r) % 2 ≡ r % 2 = omega arith in
      let ed : (s * 2 ^ suc k + t) % 2 ≡ t % 2 = omega arith in
      let el : digits z f n q s * 2 ^ suc k ≡ digits z f n q s * 2 ^ k * 2 = rw ep omega arith in
      rw (e1, e2, ea, eb, ec, ed, ih) omega arith

abbrev and_digits : ℕ → ℕ → ℕ → ℕ
and_digits n a b = digits (λ b. zero) min n a b

and_digit : (b : ℕ) → 0 ≡ 0 * 2 + min 0 (b % 2)
and_digit b = omega arith

and_digits-zero : (n a : ℕ) → and_digits n a 0 ≡ 0
and_digits-zero zero a = refl
and_digits-zero (suc n) zero = refl
and_digits-zero (suc n) (suc a) = omega (arith, and_digits-zero n (suc a / 2))

-- A mask of low digits keeps a number that fits.
and_digits-ones : (k n r : ℕ) → r < 2 ^ k → r ≤ n → and_digits n r (2 ^ k - 1) ≡ r
and_digits-ones zero n r lr le = let e : r ≡ 0 = omega arith in rw e (and_digits-zero n 0)
and_digits-ones (suc k) n r lr le =
    let ep = pow-suc 2 k in
    let pos = one-le-pow k 2 in
    let ih = and_digits-ones k n (r / 2) (omega arith) (omega arith) in
    let e1 = digits-step (λ b. 0) min and_digit n r (2 ^ suc k - 1) le in
    let ea : (2 ^ suc k - 1) / 2 ≡ 2 ^ k - 1 = omega arith in
    let eb : (2 ^ suc k - 1) % 2 ≡ 1 = omega arith in rw (e1, ea, eb, ih) omega arith

or_digit : (b : ℕ) → b ≡ b / 2 * 2 + max 0 (b % 2)
or_digit b = omega arith

or_digits-zero : (n q : ℕ) → q ≤ n → digits (λ b. b) max n q 0 ≡ q
or_digits-zero zero zero le = refl
or_digits-zero zero (suc q) le = absurd (omega arith)
or_digits-zero (suc n) zero le = refl
or_digits-zero (suc n) (suc q) le = omega (arith, or_digits-zero n (suc q / 2))

or_digits-rest : (n r : ℕ) → digits (λ b. b) max n 0 r ≡ r
or_digits-rest zero r = refl
or_digits-rest (suc n) r = refl

-- `a & mask` with a mask of all but the lowest twelve digits, and with one of these alone.
pub bit_and-page_mask : (a : ℕ) → a < 2 ^ 64 → bit_and a (2 ^ 64 - 2 ^ 12) ≡ a / 4096 * 4096
bit_and-page_mask a h =
    let e =
      digits-fields (λ b. 0) min and_digit 12 a (a / 4096) (a % 4096) (2 ^ 52 - 1) 0 refl
        (omega arith) (omega arith) (omega arith) in
    let split : a / 4096 * 2 ^ 12 + a % 4096 ≡ a = omega arith in
    let ones = and_digits-ones 52 a (a / 4096) (omega arith) (omega arith) in
    let none = and_digits-zero a (a % 4096) in
    let whole : and_digits a a (2 ^ 64 - 2 ^ 12) ≡ a / 4096 * 4096 =
      subst (λ x. and_digits a x (2 ^ 64 - 2 ^ 12) ≡ a / 4096 * 4096) split
        (omega (arith, e, ones, none)) in
    simp bit_and-bitwise whole

pub bit_and-page_offset : (a : ℕ) → bit_and a (2 ^ 12 - 1) ≡ a % 4096
bit_and-page_offset a =
    let e =
      digits-fields (λ b. 0) min and_digit 12 a (a / 4096) (a % 4096) 0 (2 ^ 12 - 1) refl
        (omega arith) (omega arith) (omega arith) in
    let split : a / 4096 * 2 ^ 12 + a % 4096 ≡ a = omega arith in
    let ones = and_digits-ones 12 a (a % 4096) (omega arith) (omega arith) in
    let none = and_digits-zero a (a / 4096) in
    let whole : and_digits a a (2 ^ 12 - 1) ≡ a % 4096 =
      subst (λ x. and_digits a x (2 ^ 12 - 1) ≡ a % 4096) split (omega (arith, e, ones, none)) in
    simp bit_and-bitwise whole

-- `|` of a page and an offset within it.
pub bit_or-page : (q r : ℕ) → r < 4096 → bit_or (q * 4096) r ≡ q * 4096 + r
bit_or-page q r h =
    let n = q * 4096 in
    let e =
      digits-fields (λ b. b) max or_digit 12 n q 0 0 r refl (omega arith) (omega arith)
        (omega arith) in
    let split : q * 2 ^ 12 + 0 ≡ n = omega arith in
    let high = or_digits-zero n q (omega arith) in
    let low = or_digits-rest n r in
    let rest : 0 * 2 ^ 12 + r ≡ r = omega arith in
    let whole : digits (λ b. b) max n n r ≡ n + r =
      subst (λ x. digits (λ b. b) max n x r ≡ n + r) split
        (subst (λ y. digits (λ b. b) max n (q * 2 ^ 12 + 0) y ≡ n + r) rest
          (omega (arith, e, high, low))) in
    simp bit_or-bitwise whole
