-- ===== src/Prelude/Digits.antt =====
-- The binary digits of what the native `bit_and`, `bit_or` and `bit_xor` give at variables.
use Prim.Native.Nat.{
  ℕ, zero, suc, ◌+◌, ◌-◌, ◌*◌, ◌/◌, ◌%◌, ◌≤◌, ◌<◌, ◌^◌, min, max, digits, differ, bit_and, bit_or,
  bit_xor, bit_and-bitwise, bit_or-bitwise, bit_xor-bitwise,
}
use mathlib.Core.Path.{◌≡◌, refl, sym, ap, subst, ◌∙◌}
use mathlib.Core.Bool.{Bool, true, false, not, ◌&&◌, ◌||◌}
use native.Mathlib.Omega.{arith}
use koro.Prelude.Tests.{◌==◌}

-- Digit `k`, the lowest being digit 0.
abbrev pub digit : ℕ → ℕ → Bool
digit zero n = n % 2 == 1
digit (suc k) n = digit k (n / 2)

module _ (z : ℕ → ℕ) (f : ℕ → ℕ → ℕ) where
  -- Enough rounds give the same.
  enough : (n m a b : ℕ) → a ≤ n → a ≤ m → digits z f n a b ≡ digits z f m a b
  enough zero zero a b p q = refl
  enough zero (suc m) zero b p q = refl
  enough (suc n) zero zero b p q = refl
  enough (suc n) (suc m) zero b p q = refl
  enough zero (suc m) (suc a) b p q = absurd (omega arith)
  enough (suc n) zero (suc a) b p q = absurd (omega arith)
  enough (suc n) (suc m) (suc a) b p q =
      ap (λ d. d * 2 + f (suc a % 2) (b % 2))
        (enough n m (suc a / 2) (b / 2) (omega arith) (omega arith))

  by_digit :
      (a b : ℕ)
      → z b ≡ z (b / 2) * 2 + f 0 (b % 2)
      → digits z f a a b ≡ digits z f (a / 2) (a / 2) (b / 2) * 2 + f (a % 2) (b % 2)
  by_digit zero b h = h
  by_digit (suc a) b h =
      ap (λ d. d * 2 + f (suc a % 2) (b % 2))
        (enough a (suc a / 2) (suc a / 2) (b / 2) (omega arith) (omega arith))

and_by_digit : (a b : ℕ) → bit_and a b ≡ bit_and (a / 2) (b / 2) * 2 + min (a % 2) (b % 2)
and_by_digit a b =
    bit_and-bitwise a b
    ∙ by_digit (λ _. 0) min a b (omega arith)
    ∙ ap (λ d. d * 2 + min (a % 2) (b % 2)) (sym (bit_and-bitwise (a / 2) (b / 2)))

or_by_digit : (a b : ℕ) → bit_or a b ≡ bit_or (a / 2) (b / 2) * 2 + max (a % 2) (b % 2)
or_by_digit a b =
    bit_or-bitwise a b
    ∙ by_digit (λ y. y) max a b (omega arith)
    ∙ ap (λ d. d * 2 + max (a % 2) (b % 2)) (sym (bit_or-bitwise (a / 2) (b / 2)))

xor_by_digit : (a b : ℕ) → bit_xor a b ≡ bit_xor (a / 2) (b / 2) * 2 + differ (a % 2) (b % 2)
xor_by_digit a b =
    bit_xor-bitwise a b
    ∙ by_digit (λ y. y) differ a b (omega arith)
    ∙ ap (λ d. d * 2 + differ (a % 2) (b % 2)) (sym (bit_xor-bitwise (a / 2) (b / 2)))

-- Exclusive or of two tests, and of two digits.
abbrev pub xor : Bool → Bool → Bool
xor true y = not y
xor false y = y

differ_digits :
    (x y : ℕ) → x < 2 → y < 2 → (differ x y < 2) × ((differ x y == 1) ≡ xor (x == 1) (y == 1))
differ_digits zero y p q = (q, refl)
differ_digits (suc zero) zero p q = (omega arith, refl)
differ_digits (suc zero) (suc zero) p q = (omega arith, refl)
differ_digits (suc zero) (suc (suc y)) p q = absurd (omega arith)
differ_digits (suc (suc x)) y p q = absurd (omega arith)

min_digits : (x y : ℕ) → x < 2 → y < 2 → (min x y < 2) × ((min x y == 1) ≡ ((x == 1) && (y == 1)))
min_digits zero y p q = (omega arith, ground arith)
min_digits (suc zero) zero p q = (omega arith, refl)
min_digits (suc zero) (suc zero) p q = (omega arith, refl)
min_digits (suc zero) (suc (suc y)) p q = absurd (omega arith)
min_digits (suc (suc x)) y p q = absurd (omega arith)

max_digits : (x y : ℕ) → x < 2 → y < 2 → (max x y < 2) × ((max x y == 1) ≡ ((x == 1) || (y == 1)))
max_digits zero y p q = (omega arith, ground arith)
max_digits (suc zero) zero p q = (omega arith, refl)
max_digits (suc zero) (suc zero) p q = (omega arith, refl)
max_digits (suc zero) (suc (suc y)) p q = absurd (omega arith)
max_digits (suc (suc x)) y p q = absurd (omega arith)

low : (n q d : ℕ) → d < 2 → n ≡ q * 2 + d → n % 2 ≡ d
low n q d h e = omega arith

high : (n q d : ℕ) → d < 2 → n ≡ q * 2 + d → n / 2 ≡ q
high n q d h e = omega arith

-- The digits of the three operations are the operations of the digits.
module _ (op : ℕ → ℕ → ℕ) (f : ℕ → ℕ → ℕ) (g : Bool → Bool → Bool)
    (step : (a b : ℕ) → op a b ≡ op (a / 2) (b / 2) * 2 + f (a % 2) (b % 2))
    (one : (x y : ℕ) → x < 2 → y < 2 → (f x y < 2) × ((f x y == 1) ≡ g (x == 1) (y == 1))) where
  digit-op : (k a b : ℕ) → digit k (op a b) ≡ g (digit k a) (digit k b)
  digit-op zero a b =
      let (small, e) = one (a % 2) (b % 2) (omega arith) (omega arith) in
      ap (λ d. d == 1) (low (op a b) (op (a / 2) (b / 2)) (f (a % 2) (b % 2)) small (step a b)) ∙ e
  digit-op (suc k) a b =
      let (small, e) = one (a % 2) (b % 2) (omega arith) (omega arith) in
      ap (digit k) (high (op a b) (op (a / 2) (b / 2)) (f (a % 2) (b % 2)) small (step a b))
      ∙ digit-op k (a / 2) (b / 2)

  -- The result has no more digits.
  op-lt : (w a b : ℕ) → op 0 0 ≡ 0 → a < 2 ^ w → b < 2 ^ w → op a b < 2 ^ w
  op-lt zero a b h p q =
      let a_zero : a ≡ 0 = omega arith in
      let b_zero : b ≡ 0 = omega arith in
      subst (λ x. op x b < 1) (sym a_zero) (subst (λ y. op 0 y < 1) (sym b_zero) (omega (arith, h)))
  op-lt (suc w) a b h p q =
      let (small, e) = one (a % 2) (b % 2) (omega arith) (omega arith) in
      let rest = op-lt w (a / 2) (b / 2) h (omega arith) (omega arith) in
      omega (arith, rest, small, step a b)

pub bit_and-lt : (w a b : ℕ) → a < 2 ^ w → b < 2 ^ w → bit_and a b < 2 ^ w
bit_and-lt w a b = op-lt bit_and min ◌&&◌ and_by_digit min_digits w a b refl

pub bit_or-lt : (w a b : ℕ) → a < 2 ^ w → b < 2 ^ w → bit_or a b < 2 ^ w
bit_or-lt w a b = op-lt bit_or max ◌||◌ or_by_digit max_digits w a b refl

pub bit_xor-lt : (w a b : ℕ) → a < 2 ^ w → b < 2 ^ w → bit_xor a b < 2 ^ w
bit_xor-lt w a b = op-lt bit_xor differ xor xor_by_digit differ_digits w a b refl

pub digit-and : (k a b : ℕ) → digit k (bit_and a b) ≡ (digit k a && digit k b)
digit-and = digit-op bit_and min ◌&&◌ and_by_digit min_digits

pub digit-or : (k a b : ℕ) → digit k (bit_or a b) ≡ (digit k a || digit k b)
digit-or = digit-op bit_or max ◌||◌ or_by_digit max_digits

pub digit-xor : (k a b : ℕ) → digit k (bit_xor a b) ≡ xor (digit k a) (digit k b)
digit-xor = digit-op bit_xor differ xor xor_by_digit differ_digits

halves : (p n : ℕ) → n < p * 2 → (p * 2 - 1 - n) / 2 ≡ p - 1 - n / 2
halves p n h = omega arith

lowest : (p n : ℕ) → n < p * 2 → ((p * 2 - 1 - n) % 2 == 1) ≡ not (n % 2 == 1)
lowest p n h = ground arith

two_pow : (w : ℕ) → 2 ^ suc w ≡ 2 ^ w * 2
two_pow w = omega arith

-- The complement in `w` digits.
pub digit-complement : (w k n : ℕ) → k < w → n < 2 ^ w → digit k (2 ^ w - 1 - n) ≡ not (digit k n)
digit-complement zero k n h small = absurd (omega arith)
digit-complement (suc w) zero n h small =
    ap (λ p. (p - 1 - n) % 2 == 1) (two_pow w) ∙ lowest (2 ^ w) n (omega (arith, two_pow w))
digit-complement (suc w) (suc k) n h small =
    ap (digit k)
      (ap (λ p. (p - 1 - n) / 2) (two_pow w) ∙ halves (2 ^ w) n (omega (arith, two_pow w)))
    ∙ digit-complement w k (n / 2) (omega arith) (omega (arith, two_pow w))

half_pow : (j : ℕ) → 2 ^ suc j / 2 ≡ 2 ^ j
half_pow j = omega arith

no_digit : (k : ℕ) → digit k 0 ≡ false
no_digit zero = refl
no_digit (suc k) = no_digit k

none_and : (n : ℕ) → bit_and 0 n ≡ 0
none_and n = bit_and-bitwise 0 n

-- A power of two has one digit.
pub digit-pow : (k j : ℕ) → digit k (2 ^ j) ≡ (k == j)
digit-pow zero zero = refl
digit-pow zero (suc j) = ground (arith, two_pow j)
digit-pow (suc k) zero = no_digit k ∙ ground arith
digit-pow (suc k) (suc j) = ap (digit k) (half_pow j) ∙ digit-pow k j ∙ ground arith

-- A mask of one digit tests it.
pub mask-digit : (k n : ℕ) → not (bit_and (2 ^ k) n == 0) ≡ digit k n
mask-digit zero n =
    let e : bit_and 1 n ≡ n % 2 = omega (arith, and_by_digit 1 n, none_and (n / 2)) in
    ground (arith, e)
mask-digit (suc k) n =
    let even : 2 ^ suc k % 2 ≡ 0 = omega (arith, two_pow k) in
    let twice : bit_and (2 ^ suc k) n ≡ bit_and (2 ^ k) (n / 2) * 2 =
      and_by_digit (2 ^ suc k) n
      ∙ ap (λ h. bit_and h (n / 2) * 2 + min (2 ^ suc k % 2) (n % 2)) (half_pow k)
      ∙ ap (λ d. bit_and (2 ^ k) (n / 2) * 2 + min d (n % 2)) even
      ∙ omega arith in
    let same : (bit_and (2 ^ suc k) n == 0) ≡ (bit_and (2 ^ k) (n / 2) == 0) =
      ground (arith, twice) in
    ap not same ∙ mask-digit k (n / 2)
