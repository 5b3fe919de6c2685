-- ===== src/Prelude/Bits.antt =====
-- `&` and `|` of the source as arithmetic: the masks of one byte, and the union of numbers whose
-- digits do not meet.
use Prim.Native.Nat.{
  ℕ, zero, suc, ◌+◌, ◌*◌, ◌/◌, ◌%◌, ◌^◌, ◌≤◌, ◌<◌, max, bit_and, bit_or, digits, bit_or-bitwise,
}
use mathlib.Core.Path.{◌≡◌, refl, ◌∙◌}
use mathlib.Core.Bool.{Bool, true, false}
use mathlib.Core.Logic.{ite}
use native.Mathlib.Decide.{ℕ_discrete}
use native.Mathlib.Nat.{pow-suc}
use native.Mathlib.Numerals.{towards_suc}
use native.Mathlib.Omega.{arith}

module _ (f g : ℕ → ℕ) where
  unfoldable pub agree_below : ℕ → Bool
  unfolding ℕ_discrete
  agree_below zero = true
  agree_below (suc n) = ite (ℕ_discrete (f n) (g n)) (agree_below n) false

  pub eq_of_agree_below : (n : ℕ) → agree_below n ≡ true → (i : ℕ) → i < n → f i ≡ g i
  unfolding agree_below
  eq_of_agree_below zero e i h = absurd (omega arith)
  eq_of_agree_below (suc n) e i h = ground (arith, eq_of_agree_below n (ground arith) i)

pub top_bit : (b : ℕ) → b < 256 → bit_and b 0x80 ≡ b / 128 * 128
unfolding agree_below
top_bit = eq_of_agree_below _ _ 256 refl

-- The lowest digit of a union, from the definition that the native operation stands for.
abbrev or_digits : ℕ → ℕ → ℕ → ℕ
or_digits n a b = digits (λ b. b) max n a b

or_digits_fuel : (n m a b : ℕ) → a ≤ n → a ≤ m → or_digits n a b ≡ or_digits m a b
or_digits_fuel zero zero a b p q = refl
or_digits_fuel zero (suc m) zero b p q = refl
or_digits_fuel zero (suc m) (suc a) b p q = absurd (omega arith)
or_digits_fuel (suc n) zero zero b p q = refl
or_digits_fuel (suc n) zero (suc a) b p q = absurd (omega arith)
or_digits_fuel (suc n) (suc m) zero b p q = refl
or_digits_fuel (suc n) (suc m) (suc a) b p q =
    omega (arith, or_digits_fuel n m (suc a / 2) (b / 2) (omega arith) (omega arith))

zero-bit_or : (b : ℕ) → bit_or 0 b ≡ b
zero-bit_or b = bit_or-bitwise 0 b

bit_or_halves : (m n : ℕ) → bit_or m n ≡ max (m % 2) (n % 2) + 2 * bit_or (m / 2) (n / 2)
bit_or_halves zero n = omega (arith, zero-bit_or n, zero-bit_or (n / 2))
bit_or_halves (suc m) n =
    let fuel = or_digits_fuel m (suc m / 2) (suc m / 2) (n / 2) (omega arith) (omega arith) in
    omega (arith, fuel, bit_or-bitwise (suc m / 2) (n / 2), bit_or-bitwise (suc m) n)

-- A number below 2 ^ s and a multiple of 2 ^ s have no digit in common: `|` adds them.
pub bit_or_disjoint : (s a m : ℕ) → a < 2 ^ s → bit_or a (m * 2 ^ s) ≡ a + m * 2 ^ s
bit_or_disjoint zero a m h = let e : a ≡ 0 = omega arith in rw e (zero-bit_or _ ∙ omega arith)
bit_or_disjoint (suc s) a m h =
    let p : 2 ^ suc s ≡ 2 ^ s * 2 = omega (arith, pow-suc 2 s) in
    let e : m * 2 ^ suc s ≡ m * 2 ^ s * 2 = rw p (omega arith) in
    let half : m * 2 ^ s * 2 / 2 ≡ m * 2 ^ s = omega arith in
    rw e (
      bit_or_halves a (m * 2 ^ s * 2)
      ∙ rw (half, bit_or_disjoint s (a / 2) m (omega arith)) (omega arith))

bit_or-zero_fuel : (n a : ℕ) → a ≤ n → bit_or a 0 ≡ a
bit_or-zero_fuel n zero h = refl
bit_or-zero_fuel zero (suc a) h = absurd (omega arith)
bit_or-zero_fuel (suc n) (suc a) h =
    omega (arith, bit_or_halves (suc a) 0, bit_or-zero_fuel n (suc a / 2) (omega arith))

-- The same the other way round: `(m << s) | b`.
pub bit_or_shifted : (s m b : ℕ) → b < 2 ^ s → bit_or (m * 2 ^ s) b ≡ m * 2 ^ s + b
bit_or_shifted zero m b h =
    let e : b ≡ 0 = omega arith in
    rw e (bit_or-zero_fuel (m * 2 ^ 0) (m * 2 ^ 0) (omega arith) ∙ omega arith)
bit_or_shifted (suc s) m b h =
    let p : 2 ^ suc s ≡ 2 ^ s * 2 = omega (arith, pow-suc 2 s) in
    let e : m * 2 ^ suc s ≡ m * 2 ^ s * 2 = rw p (omega arith) in
    let half : m * 2 ^ s * 2 / 2 ≡ m * 2 ^ s = omega arith in
    rw e (
      bit_or_halves (m * 2 ^ s * 2) b
      ∙ rw (half, bit_or_shifted s m (b / 2) (omega arith)) (omega arith))

pub set_top_bit : (b : ℕ) → b < 128 → bit_or b 0x80 ≡ b + 128
unfolding agree_below
set_top_bit = eq_of_agree_below _ _ 128 refl

pub shift_seven : (s : ℕ) → 2 ^ (s + 7) ≡ 128 * 2 ^ s
shift_seven s = simp towards_suc (omega arith)
