-- ===== src/Base/Bits.antt =====
-- Laws of `^` (exclusive or) on natural numbers at variables, from the recursion on digits that the
-- native operation stands for.
use Prim.Native.Nat.{
  ℕ, zero, suc, ◌+◌, ◌-◌, ◌*◌, ◌/◌, ◌%◌, ◌≤◌, ◌<◌, bit_xor, digits, differ, bit_xor-bitwise,
}
use mathlib.Core.Path.{◌≡◌, refl, ap, ap₂, ◌∙◌}
use native.Mathlib.Omega.{arith}

abbrev xor_digits : ℕ → ℕ → ℕ → ℕ
xor_digits n a b = digits (λ c. c) differ n a b

-- Fuel above the first number changes nothing.
xor_digits_fuel : (n a b : ℕ) → a ≤ n → xor_digits (suc n) a b ≡ xor_digits n a b
xor_digits_fuel zero zero b h = refl
xor_digits_fuel zero (suc a) b h = absurd (omega arith)
xor_digits_fuel (suc n) zero b h = refl
xor_digits_fuel (suc n) (suc a) b h =
    omega (arith, xor_digits_fuel n (suc a / 2) (b / 2) (omega arith))

xor_digits_enough : (n k a b : ℕ) → a ≤ n → xor_digits (k + n) a b ≡ xor_digits n a b
xor_digits_enough n zero a b h = ap (λ t. xor_digits t a b) (omega arith)
xor_digits_enough n (suc k) a b h =
    let e : suc k + n ≡ suc (k + n) = omega arith in
    rw (e, xor_digits_fuel (k + n) a b (omega arith)) (xor_digits_enough n k a b h)

differ_bits : (x y : ℕ) → x < 2 → y < 2 → differ x y ≡ (x + y) % 2
differ_bits zero y p q = omega arith
differ_bits (suc zero) zero p q = refl
differ_bits (suc zero) (suc zero) p q = refl
differ_bits (suc zero) (suc (suc y)) p q = absurd (omega arith)
differ_bits (suc (suc x)) y p q = absurd (omega arith)

zero-bit_xor : (b : ℕ) → bit_xor 0 b ≡ b
zero-bit_xor b = bit_xor-bitwise 0 b

-- The lowest digit, and the others.
pub bit_xor_step : (a b : ℕ) → bit_xor a b ≡ 2 * bit_xor (a / 2) (b / 2) + (a + b) % 2
bit_xor_step zero b = omega (arith, zero-bit_xor b, zero-bit_xor (b / 2))
bit_xor_step (suc a) b =
    let k = a - suc a / 2 in
    let e : a ≡ k + suc a / 2 = omega arith in
    omega (
      arith,
      bit_xor-bitwise (suc a) b,
      bit_xor-bitwise (suc a / 2) (b / 2),
      ap (λ n. xor_digits n (suc a / 2) (b / 2)) e,
      xor_digits_enough (suc a / 2) k (suc a / 2) (b / 2) (omega arith),
      differ_bits (suc a % 2) (b % 2) (omega arith) (omega arith),
    )

bit_xor_comm_below : (n a b : ℕ) → a ≤ n → b ≤ n → bit_xor a b ≡ bit_xor b a
bit_xor_comm_below zero zero zero p q = refl
bit_xor_comm_below zero zero (suc b) p q = absurd (omega arith)
bit_xor_comm_below zero (suc a) b p q = absurd (omega arith)
bit_xor_comm_below (suc n) a b p q = omega (
  arith,
  bit_xor_step a b,
  bit_xor_step b a,
  bit_xor_comm_below n (a / 2) (b / 2) (omega arith) (omega arith),
)

pub bit_xor_comm : (a b : ℕ) → bit_xor a b ≡ bit_xor b a
bit_xor_comm a b = bit_xor_comm_below (a + b) a b (omega arith) (omega arith)

pub bit_xor-zero : (a : ℕ) → bit_xor a 0 ≡ a
bit_xor-zero a = bit_xor_comm a 0 ∙ zero-bit_xor a

half-bit_xor : (a b : ℕ) → bit_xor a b / 2 ≡ bit_xor (a / 2) (b / 2)
half-bit_xor a b = omega (arith, bit_xor_step a b)

bit_xor_assoc_below :
    (n a b c : ℕ) → a ≤ n → b ≤ n → c ≤ n → bit_xor (bit_xor a b) c ≡ bit_xor a (bit_xor b c)
bit_xor_assoc_below zero a b c p q r =
    let a' : a ≡ 0 = omega arith in
    let b' : b ≡ 0 = omega arith in let c' : c ≡ 0 = omega arith in rw (a', b', c')
bit_xor_assoc_below (suc n) a b c p q r = omega (
  arith,
  bit_xor_step (bit_xor a b) c,
  bit_xor_step a (bit_xor b c),
  bit_xor_step a b,
  bit_xor_step b c,
  ap (λ t. bit_xor t (c / 2)) (half-bit_xor a b),
  ap (λ t. bit_xor (a / 2) t) (half-bit_xor b c),
  bit_xor_assoc_below n (a / 2) (b / 2) (c / 2) (omega arith) (omega arith) (omega arith),
)

pub bit_xor_assoc : (a b c : ℕ) → bit_xor (bit_xor a b) c ≡ bit_xor a (bit_xor b c)
bit_xor_assoc a b c =
    bit_xor_assoc_below (a + b + c) a b c (omega arith) (omega arith) (omega arith)

-- `x` with `k` zero bits behind it.
abbrev pub shl : ℕ → ℕ → ℕ
shl zero x = x
shl (suc k) x = 2 * shl k x

-- Exclusive or works on the bits above and below any position apart.
pub bit_xor-shl :
    (k x y l m : ℕ)
    → l < shl k 1
    → m < shl k 1
    → bit_xor (shl k x + l) (shl k y + m) ≡ shl k (bit_xor x y) + bit_xor l m
bit_xor-shl zero x y l m p q =
    let l' : l ≡ 0 = omega arith in
    let m' : m ≡ 0 = omega arith in
    let x' : x + 0 ≡ x = omega arith in
    let y' : y + 0 ≡ y = omega arith in rw (l', m', x', y', zero-bit_xor) (omega arith)
bit_xor-shl (suc k) x y l m p q =
    let a : (2 * shl k x + l) / 2 ≡ shl k x + l / 2 = omega arith in
    let b : (2 * shl k y + m) / 2 ≡ shl k y + m / 2 = omega arith in
    omega (
      arith,
      bit_xor_step (2 * shl k x + l) (2 * shl k y + m),
      ap₂ bit_xor a b,
      bit_xor_step l m,
      bit_xor-shl k x y (l / 2) (m / 2) (omega arith) (omega arith),
    )

pub bit_xor-lt : (k l m : ℕ) → l < shl k 1 → m < shl k 1 → bit_xor l m < shl k 1
bit_xor-lt zero l m p q =
    let l' : l ≡ 0 = omega arith in let m' : m ≡ 0 = omega arith in rw (l', m') (omega arith)
bit_xor-lt (suc k) l m p q =
    omega (arith, bit_xor_step l m, bit_xor-lt k (l / 2) (m / 2) (omega arith) (omega arith))
