-- ===== src/Common/Bits.antt =====
-- `&` and `|` on unsigned integers as arithmetic: the laws that the byte codecs need.
use Prim.Native.Nat.{ℕ, zero, suc, ◌+◌, ◌*◌, ◌/◌, ◌%◌, ◌^◌, ◌≤◌, ◌<◌, max}
use Prim.Native.Nat.{bit_and, bit_or, digits, bit_or-bitwise}
use mathlib.Core.Path.{◌≡◌, refl, ap}
use mathlib.Core.Bool.{Bool, true, ◌&&◌}
use native.Mathlib.Nat.{pow-suc}
use native.Mathlib.Omega.{arith}
use nexus_rpc.Common.Tests.{◌==◌, ==_iff}

-- `|` as the native operation defines it, by a recursion on digits with fuel; any fuel that reaches
-- the first number gives the same.
abbrev or_rounds : ℕ → ℕ → ℕ → ℕ
or_rounds rounds x y = digits (λ y. y) max rounds x y

or_rounds_enough : (k l x y : ℕ) → x ≤ k → x ≤ l → or_rounds k x y ≡ or_rounds l x y
or_rounds_enough (suc k) (suc l) (suc x) y hk hl =
    let halves = or_rounds_enough k l (suc x / 2) (y / 2) (omega arith) (omega arith) in
    omega (arith, halves)
or_rounds_enough (suc k) (suc l) zero y hk hl = refl
or_rounds_enough (suc k) zero (suc x) y hk hl = absurd (omega arith)
or_rounds_enough (suc k) zero zero y hk hl = refl
or_rounds_enough zero (suc l) (suc x) y hk hl = absurd (omega arith)
or_rounds_enough zero (suc l) zero y hk hl = refl
or_rounds_enough zero zero zero y hk hl = refl
or_rounds_enough zero zero (suc x) y hk hl = absurd (omega arith)

pub zero-bit_or : (b : ℕ) → bit_or 0 b ≡ b
zero-bit_or b = bit_or-bitwise 0 b

pub bit_or_step : (x y : ℕ) → bit_or x y ≡ bit_or (x / 2) (y / 2) * 2 + max (x % 2) (y % 2)
bit_or_step zero y = omega (arith, zero-bit_or (y / 2), zero-bit_or y)
bit_or_step (suc x) y =
    let halves = or_rounds_enough x (suc x / 2) (suc x / 2) (y / 2) (omega arith) (omega arith) in
    omega (arith, halves, bit_or-bitwise (suc x / 2) (y / 2), bit_or-bitwise (suc x) y)

pub bit_or-zero : (x : ℕ) → bit_or x 0 ≡ x
bit_or-zero x = within x x (omega arith)
  where
    within : (k y : ℕ) → y ≤ k → bit_or y 0 ≡ y
    within k zero h = refl
    within zero (suc y) h = absurd (omega arith)
    within (suc k) (suc y) h =
        let half = within k (suc y / 2) (omega arith) in omega (arith, half, bit_or_step (suc y) 0)

-- A multiple of `2 ^ s`, or-ed with a number below `2 ^ s`, is added to it.
bit_or_multiple : (s a b x : ℕ) → x ≡ a * 2 ^ s → b < 2 ^ s → bit_or x b ≡ x + b
bit_or_multiple zero a b x e h =
    let none_left : b ≡ 0 = omega arith in rw (none_left, bit_or-zero x) (omega arith)
bit_or_multiple (suc s) a b x e h =
    let double : x ≡ 2 * (a * 2 ^ s) = omega (arith, ap (λ (t : ℕ). a * t) (pow-suc 2 s)) in
    omega (
      arith,
      bit_or_step x b,
      bit_or_multiple s a (b / 2) (x / 2) (omega arith) (omega (arith, pow-suc 2 s)),
    )

-- The same for a multiple that is known by an equation, and with the sum given.
pub bit_or_add :
    (s a b : ℕ) {x y : ℕ} → x ≡ a * 2 ^ s → b < 2 ^ s → y ≡ a * 2 ^ s + b → bit_or x b ≡ y
bit_or_add s a b {x} {y} e h total = omega (arith, bit_or_multiple s a b x e h)

low_multiple : (s a b x : ℕ) → x ≡ a * 2 ^ s → b < 2 ^ s → bit_or b x ≡ b + x
low_multiple zero a b x e h =
    let none_left : b ≡ 0 = omega arith in rw (none_left, zero-bit_or x) (omega arith)
low_multiple (suc s) a b x e h =
    let double : x ≡ 2 * (a * 2 ^ s) = omega (arith, ap (λ (t : ℕ). a * t) (pow-suc 2 s)) in
    omega (
      arith,
      bit_or_step b x,
      low_multiple s a (b / 2) (x / 2) (omega arith) (omega (arith, pow-suc 2 s)),
    )

pub bit_or_low : (s a b : ℕ) → b < 2 ^ s → bit_or b (a * 2 ^ s) ≡ b + a * 2 ^ s
bit_or_low s a b = low_multiple s a b (a * 2 ^ s) refl

-- `|` of two numbers of `s` digits has `s` digits.
pub bit_or-lt : (s a b : ℕ) → a < 2 ^ s → b < 2 ^ s → bit_or a b < 2 ^ s
bit_or-lt zero a b ha hb =
    let none_left : a ≡ 0 = omega arith in rw (none_left, zero-bit_or b) (omega arith)
bit_or-lt (suc s) a b ha hb = omega (
  arith,
  pow-suc 2 s,
  bit_or_step a b,
  bit_or-lt s (a / 2) (b / 2) (omega (arith, pow-suc 2 s)) (omega (arith, pow-suc 2 s)),
)

or_even : (a b : ℕ) → bit_or a (2 * b) ≡ bit_or (a / 2) b * 2 + a % 2
or_even a b = rw (bit_or_step a (2 * b)) (omega (arith, same))
  where
    same : bit_or (a / 2) (2 * b / 2) ≡ bit_or (a / 2) b
    same = ap (bit_or (a / 2)) (omega arith)

or_one : (a : ℕ) → bit_or a 1 ≡ a / 2 * 2 + 1
or_one a = omega (arith, bit_or_step a 1, bit_or-zero (a / 2))

-- Setting the eighth digit: `static_cast<std::uint8_t>(v | 0x80)`.
pub bit_or_top : (v : ℕ) → bit_or v 0x80 % 256 ≡ v % 128 + 128
bit_or_top v = omega (
  arith,
  or_even v 64,
  or_even (v / 2) 32,
  or_even (v / 2 / 2) 16,
  or_even (v / 2 / 2 / 2) 8,
  or_even (v / 2 / 2 / 2 / 2) 4,
  or_even (v / 2 / 2 / 2 / 2 / 2) 2,
  or_even (v / 2 / 2 / 2 / 2 / 2 / 2) 1,
  or_one (v / 2 / 2 / 2 / 2 / 2 / 2 / 2),
)

-- A test of every byte, by evaluation.
test_up_to : (ℕ → Bool) → ℕ → Bool
test_up_to test zero = true
test_up_to test (suc k) = test_up_to test k && test k

passes : (test : ℕ → Bool) (k b : ℕ) → b < k → test_up_to test k ≡ true → test b ≡ true
unfolding test_up_to
passes test (suc k) b below table = ground (arith, passes test k b)
passes test zero b below table = absurd (omega arith)

module _ (b : ℕ) (byte : b < 256) where
  pub low_seven : bit_and b 0x7f ≡ b % 128
  unfolding test_up_to
  low_seven = (==_iff _ _).0 (passes (λ t. bit_and t 0x7f == t % 128) 256 b byte refl)

  pub top_bit : bit_and b 0x80 ≡ b / 128 * 128
  unfolding test_up_to
  top_bit = (==_iff _ _).0 (passes (λ t. bit_and t 0x80 == t / 128 * 128) 256 b byte refl)
