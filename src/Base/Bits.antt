-- ===== src/Base/Bits.antt =====
-- Masks and disjoint fields of machine words as arithmetic.
use Prim.Native.Nat.{
  ℕ, zero, suc, ◌+◌, ◌*◌, ◌/◌, ◌%◌, ◌^◌, ◌-◌, ◌≤◌, ◌<◌, min, max, bit_and, bit_or, digits,
  bit_and-bitwise, bit_or-bitwise,
}
use mathlib.Core.Path.{◌≡◌, refl, ap}
use native.Mathlib.Nat.{pow-suc, one-le-pow, div-add-mod', mod-lt}
use native.Mathlib.Omega.{arith}

-- The digits of `a` do not depend on a count that is enough.
module _ (last : ℕ → ℕ) (op : ℕ → ℕ → ℕ) where
  digits_enough : (k j b a : ℕ) → a ≤ k → a ≤ j → digits last op k a b ≡ digits last op j a b
  digits_enough zero zero b a below under = refl
  digits_enough zero (suc j) b zero below under = refl
  digits_enough (suc k) zero b zero below under = refl
  digits_enough (suc k) (suc j) b zero below under = refl
  digits_enough zero (suc j) b (suc a) below under = absurd (omega arith)
  digits_enough (suc k) zero b (suc a) below under = absurd (omega arith)
  digits_enough (suc k) (suc j) b (suc a) below under =
      let rest = digits_enough k j (b / 2) (suc a / 2) (omega arith) (omega arith) in omega arith

pub bit_and_half : (a b : ℕ) → bit_and a b ≡ 2 * bit_and (a / 2) (b / 2) + min (a % 2) (b % 2)
bit_and_half zero b = omega (arith, bit_and-bitwise 0 b, bit_and-bitwise 0 (b / 2))
bit_and_half (suc a) b =
    let halved = digits_enough (λ _. 0) min a (suc a / 2) (b / 2) (suc a / 2) (omega arith) in
    omega
      (arith, bit_and-bitwise (suc a) b, bit_and-bitwise (suc a / 2) (b / 2), halved (omega arith))

pub bit_or_half : (a b : ℕ) → bit_or a b ≡ 2 * bit_or (a / 2) (b / 2) + max (a % 2) (b % 2)
bit_or_half zero b = omega (arith, bit_or-bitwise 0 b, bit_or-bitwise 0 (b / 2))
bit_or_half (suc a) b =
    let halved = digits_enough (λ y. y) max a (suc a / 2) (b / 2) (suc a / 2) (omega arith) in
    omega
      (arith, bit_or-bitwise (suc a) b, bit_or-bitwise (suc a / 2) (b / 2), halved (omega arith))

two_pow_mul : (k q : ℕ) → q * 2 ^ suc k ≡ 2 * (q * 2 ^ k)
two_pow_mul k q = omega (arith, ap (λ (t : ℕ). q * t) (pow-suc 2 k))

bit_and_nothing_below : (n a : ℕ) → a ≤ n → bit_and a 0 ≡ 0
bit_and_nothing_below n zero h = refl
bit_and_nothing_below zero (suc a) h = absurd (omega arith)
bit_and_nothing_below (suc n) (suc a) h =
    omega (arith, bit_and_half (suc a) 0, bit_and_nothing_below n (suc a / 2) (omega arith))

bit_or_nothing_below : (n a : ℕ) → a ≤ n → bit_or a 0 ≡ a
bit_or_nothing_below n zero h = refl
bit_or_nothing_below zero (suc a) h = absurd (omega arith)
bit_or_nothing_below (suc n) (suc a) h =
    omega (arith, bit_or_half (suc a) 0, bit_or_nothing_below n (suc a / 2) (omega arith))

pub bit_and-zero : (a : ℕ) → bit_and a 0 ≡ 0
bit_and-zero a = bit_and_nothing_below a a (omega arith)

pub bit_or-zero : (a : ℕ) → bit_or a 0 ≡ a
bit_or-zero a = bit_or_nothing_below a a (omega arith)

-- `high << k | low` is a sum, where `low` has `k` bits.
pub bit_or_join : (k high low : ℕ) → low < 2 ^ k → bit_or (high * 2 ^ k) low ≡ high * 2 ^ k + low
bit_or_join zero high low h =
    let none_low : low ≡ 0 = omega arith in ground (arith, bit_or-zero high, none_low)
bit_or_join (suc k) high low h =
    let double = two_pow_mul k high in
    ground (
      arith,
      double,
      pow-suc 2 k,
      bit_or_half (high * 2 ^ suc k) low,
      bit_or_join k high (low / 2) (omega (arith, pow-suc 2 k)),
    )

bit_and_high_fields :
    (k q mask r : ℕ) → r < 2 ^ k → bit_and (q * 2 ^ k + r) (mask * 2 ^ k) ≡ bit_and q mask * 2 ^ k
bit_and_high_fields zero q mask r h =
    let vanishes : q * 2 ^ 0 + r ≡ q = omega arith in rw vanishes (ground arith)
bit_and_high_fields (suc k) q mask r h = ground (
  arith,
  two_pow_mul k q,
  two_pow_mul k mask,
  two_pow_mul k (bit_and q mask),
  pow-suc 2 k,
  bit_and_half (q * 2 ^ suc k + r) (mask * 2 ^ suc k),
  bit_and_high_fields k q mask (r / 2) (omega (arith, pow-suc 2 k)),
)

-- A mask that leaves the `k` low bits out acts on what stands above them.
pub bit_and_high : (k a mask : ℕ) → bit_and a (mask * 2 ^ k) ≡ bit_and (a / 2 ^ k) mask * 2 ^ k
bit_and_high k a mask =
    let split = bit_and_high_fields k (a / 2 ^ k) mask (a % 2 ^ k) in
    ground (arith, one-le-pow k 2, div-add-mod' a (2 ^ k), mod-lt a {m = 2 ^ k}, split)

bit_and_low_fields : (k q r : ℕ) → r < 2 ^ k → bit_and (q * 2 ^ k + r) (2 ^ k - 1) ≡ r
bit_and_low_fields zero q r h = omega (arith, bit_and-zero (q * 2 ^ 0 + r))
bit_and_low_fields (suc k) q r h = ground (
  arith,
  two_pow_mul k q,
  pow-suc 2 k,
  one-le-pow k 2,
  bit_and_half (q * 2 ^ suc k + r) (2 ^ suc k - 1),
  bit_and_low_fields k q (r / 2) (omega (arith, pow-suc 2 k)),
)

-- `a & (2^k - 1)`.
pub bit_and_low : (k a : ℕ) → bit_and a (2 ^ k - 1) ≡ a % 2 ^ k
bit_and_low k a =
    let split = bit_and_low_fields k (a / 2 ^ k) (a % 2 ^ k) in
    ground (arith, one-le-pow k 2, div-add-mod' a (2 ^ k), mod-lt a {m = 2 ^ k}, split)

-- Two numbers without a common bit, of which the first has none of the `k` low ones.
pub bit_or_sum : (k high x y : ℕ) → x ≡ high * 2 ^ k → y < 2 ^ k → bit_or x y ≡ x + y
bit_or_sum k high x y e h = rw e (bit_or_join k high y h)

bit_or_comm_below : (n a b : ℕ) → a ≤ n → b ≤ n → bit_or a b ≡ bit_or b a
bit_or_comm_below zero a b ha hb =
    let left : a ≡ 0 = omega arith in let right : b ≡ 0 = omega arith in rw (left, right)
bit_or_comm_below (suc n) a b ha hb = omega (
  arith,
  bit_or_half a b,
  bit_or_half b a,
  bit_or_comm_below n (a / 2) (b / 2) (omega arith) (omega arith),
)

pub bit_or_comm : (a b : ℕ) → bit_or a b ≡ bit_or b a
bit_or_comm a b = bit_or_comm_below (a + b) a b (omega arith) (omega arith)
