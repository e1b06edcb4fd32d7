-- ===== src/Prelude/Words.antt =====
-- Shifts, `|` and `&` of words of any width, as sums and remainders.
use Prim.Native.Nat.{
  ℕ, zero, suc, ◌+◌, ◌*◌, ◌/◌, ◌%◌, ◌^◌, ◌≤◌, ◌<◌, min, max, bit_and, bit_or, digits,
  bit_and-bitwise, bit_or-bitwise,
}
use mathlib.Core.Path.{◌≡◌, refl, sym, ap, ◌∙◌}
use native.Mathlib.Nat.{pow-suc}
use native.Mathlib.Omega.{arith}

-- The native operations recurse on a count of digits, which need only be large enough.
module _ (z : ℕ → ℕ) (f : ℕ → ℕ → ℕ) where
  digits_enough : (n m a b : ℕ) → a ≤ n → a ≤ m → digits z f n a b ≡ digits z f m a b
  digits_enough n m zero b p q = at_zero n ∙ sym (at_zero m)
    where
      at_zero : (k : ℕ) → digits z f k zero b ≡ z b
      at_zero zero = refl
      at_zero (suc k) = refl
  digits_enough zero m (suc a) b p q = absurd (omega arith)
  digits_enough (suc n) zero (suc a) b p q = absurd (omega arith)
  digits_enough (suc n) (suc m) (suc a) b p q =
      ap (λ t. t * 2 + f (suc a % 2) (b % 2))
        (digits_enough n m (suc a / 2) (b / 2) (omega arith) (omega arith))

or_halves : (a b : ℕ) → bit_or a b ≡ bit_or (a / 2) (b / 2) * 2 + max (a % 2) (b % 2)
or_halves zero b = omega (arith, bit_or-bitwise 0 b, bit_or-bitwise 0 (b / 2))
or_halves (suc a) b =
    bit_or-bitwise (suc a) b
    ∙ ap (λ t. t * 2 + max (suc a % 2) (b % 2))
        (digits_enough (λ d. d) max a (suc a / 2) (suc a / 2) (b / 2) (omega arith) (omega arith)
          ∙ sym (bit_or-bitwise (suc a / 2) (b / 2)))

and_halves : (a b : ℕ) → bit_and a b ≡ bit_and (a / 2) (b / 2) * 2 + min (a % 2) (b % 2)
and_halves zero b = omega (arith, bit_and-bitwise 0 b, bit_and-bitwise 0 (b / 2))
and_halves (suc a) b =
    bit_and-bitwise (suc a) b
    ∙ ap (λ t. t * 2 + min (suc a % 2) (b % 2))
        (digits_enough (λ d. 0) min a (suc a / 2) (suc a / 2) (b / 2) (omega arith) (omega arith)
          ∙ sym (bit_and-bitwise (suc a / 2) (b / 2)))

or_zero_upto : (n a : ℕ) → a ≤ n → bit_or a 0 ≡ a
or_zero_upto n zero h = refl
or_zero_upto zero (suc a) h = absurd (omega arith)
or_zero_upto (suc n) (suc a) h =
    omega (arith, or_halves (suc a) 0, or_zero_upto n (suc a / 2) (omega arith))

pub or-zero : (a : ℕ) → bit_or a 0 ≡ a
or-zero a = or_zero_upto a a (omega arith)

and_zero_upto : (n a : ℕ) → a ≤ n → bit_and a 0 ≡ 0
and_zero_upto n zero h = refl
and_zero_upto zero (suc a) h = absurd (omega arith)
and_zero_upto (suc n) (suc a) h =
    omega (arith, and_halves (suc a) 0, and_zero_upto n (suc a / 2) (omega arith))

double_shift : (q k : ℕ) → q * 2 ^ suc k ≡ 2 * (q * 2 ^ k)
double_shift q k = omega (arith, ap (λ (t : ℕ). q * t) (pow-suc 2 k))

-- `a | (q << k)` is a sum when `a` has at most `k` bits.
pub or_above : (k a q : ℕ) → a < 2 ^ k → bit_or a (q * 2 ^ k) ≡ a + q * 2 ^ k
or_above zero a q h =
    let e : a ≡ 0 = omega arith in rw e (omega (arith, bit_or-bitwise 0 (q * 2 ^ 0)))
or_above (suc k) a q h = omega (
  arith,
  or_halves a (q * 2 ^ suc k),
  double_shift q k,
  pow-suc 2 k,
  ap (λ (t : ℕ). bit_or (a / 2) t) half,
  or_above k (a / 2) q (omega (arith, pow-suc 2 k)),
)
  where
    half : q * 2 ^ suc k / 2 ≡ q * 2 ^ k
    half = omega (arith, double_shift q k)

or_double : (a r : ℕ) → bit_or (a * 2) r ≡ bit_or a (r / 2) * 2 + r % 2
or_double a r =
    let half : a * 2 / 2 ≡ a = omega arith in
    let even : max (a * 2 % 2) (r % 2) ≡ r % 2 = omega arith in
    or_halves (a * 2) r ∙ rw (half, even) refl

-- `(q << 3) | r`, for a field number over a wire type.
pub or_three : (q r : ℕ) → r < 8 → bit_or (q * 8) r ≡ q * 8 + r
or_three q r h =
    let twice : q * 8 ≡ q * 2 * 2 * 2 = omega arith in
    let none_left : r / 2 / 2 / 2 ≡ 0 = omega arith in
    rw
      (
        twice,
        or_double (q * 2 * 2) r,
        or_double (q * 2) (r / 2),
        or_double q (r / 2 / 2),
        none_left,
        or-zero q,
      )
      (omega arith)

pub and_seven : (a : ℕ) → bit_and a 7 ≡ a % 8
and_seven a = omega (
  arith,
  and_halves a 7,
  and_halves (a / 2) 3,
  and_halves (a / 2 / 2) 1,
  and_zero_upto (a / 2 / 2 / 2) (a / 2 / 2 / 2),
)

pub and_byte : (a : ℕ) → bit_and a 0xFF ≡ a % 256
and_byte a = omega (
  arith,
  and_halves a 255,
  and_halves (a / 2) 127,
  and_halves (a / 2 / 2) 63,
  and_halves (a / 2 / 2 / 2) 31,
  and_halves (a / 2 / 2 / 2 / 2) 15,
  and_seven (a / 2 / 2 / 2 / 2 / 2),
)

-- Two bytes of a little-endian word.
pub or_bytes : (a b : ℕ) → a < 256 → bit_or a (b * 2 ^ 8) ≡ a + b * 256
or_bytes a b h = or_above 8 a b h
