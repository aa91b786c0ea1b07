-- ===== src/Common/Bits.antt =====
-- Facts about `&` and `|` at variables.
use Prim.Native.Nat.{
  ℕ, zero, suc, ◌+◌, ◌*◌, ◌/◌, ◌%◌, ◌≤◌, ◌<◌, max, bit_and, bit_or, digits, bit_or-bitwise,
}
use mathlib.Core.Path.{◌≡◌, refl, ap, ◌∙◌}
use mathlib.Core.Bool.{Bool, true, ◌&&◌}
use mathlib.Core.Logic.{inl, inr}
use native.Mathlib.Omega.{arith}
use simple_x509_authenticate.Common.Tests.{◌==◌, Bool-cases}

-- Whether two functions agree below `n`, which is found by evaluation.
agree : (f g : ℕ → ℕ) → ℕ → Bool
agree f g zero = true
agree f g (suc n) = f n == g n && agree f g n

agree_lem : (f g : ℕ → ℕ) (n x : ℕ) → x < n → agree f g n ≡ true → f x ≡ g x
unfolding agree
agree_lem f g zero x lt h = absurd (omega arith)
agree_lem f g (suc n) x lt h = elim (Bool-cases (x == n)) [
  | inl last ↦ let e : x ≡ n = ground arith in rw e (ground arith)
  | inr before ↦ agree_lem f g n x (ground arith) (ground arith)
]

-- The bit 0x80 of a byte.
pub top_bit : (x : ℕ) → x < 256 → bit_and x 0x80 ≡ x / 128 * 128
unfolding agree
top_bit x h = agree_lem (λ y. bit_and y 0x80) (λ y. y / 128 * 128) 256 x h refl

-- The other bits of a byte.
pub low_bits : (x : ℕ) → x < 256 → bit_and x 0x7f ≡ x % 128
unfolding agree
low_bits x h = agree_lem (λ y. bit_and y 0x7f) (λ y. y % 128) 256 x h refl

-- `a | b`, digit by digit; `n` bounds the digits of `a`.
abbrev or_within : ℕ → ℕ → ℕ → ℕ
or_within n a b = digits (λ b. b) max n a b

-- One more digit than needed changes nothing, and so do more of them.
or_within-suc : (n a b : ℕ) → a ≤ n → or_within (suc n) a b ≡ or_within n a b
or_within-suc zero zero b h = refl
or_within-suc (suc n) zero b h = refl
or_within-suc zero (suc a) b h = absurd (omega arith)
or_within-suc (suc n) (suc a) b h = omega (arith, or_within-suc n (suc a / 2) (b / 2) (omega arith))

or_within_lem : (k a b : ℕ) → or_within (k + a) a b ≡ bit_or a b
or_within_lem zero a b = let e : 0 + a ≡ a = omega arith in rw e (omega (arith, bit_or-bitwise a b))
or_within_lem (suc k) a b =
    let e : suc k + a ≡ suc (k + a) = omega arith in
    rw e (or_within-suc (k + a) a b (omega arith) ∙ or_within_lem k a b)

-- The lowest digit, apart from the others, for an even first number.
bit_or_even : (x b : ℕ) → bit_or (x * 2) b ≡ bit_or x (b / 2) * 2 + b % 2
bit_or_even zero b = omega (arith, bit_or-bitwise 0 b, bit_or-bitwise 0 (b / 2))
bit_or_even (suc x) b =
    let e : suc x * 2 ≡ suc (x + suc x) = omega arith in
    let half : suc (x + suc x) / 2 ≡ suc x = omega arith in
    let inner = ap (λ a. or_within (x + suc x) a (b / 2)) half in
    rw e (omega (arith, bit_or-bitwise (suc (x + suc x)) b, inner, or_within_lem x (suc x) (b / 2)))

abbrev shifted : ℕ → ℕ → ℕ
shifted zero x = x
shifted (suc k) x = shifted k x * 2

or_within-zero : (n a : ℕ) → a ≤ n → or_within n a 0 ≡ a
or_within-zero zero zero h = refl
or_within-zero zero (suc a) h = absurd (omega arith)
or_within-zero (suc n) zero h = refl
or_within-zero (suc n) (suc a) h = omega (arith, or_within-zero n (suc a / 2) (omega arith))

bit_or-shifted : (k x b : ℕ) → b < shifted k 1 → bit_or (shifted k x) b ≡ shifted k x + b
bit_or-shifted zero x b h =
    let e : b ≡ 0 = omega arith in
    rw e (omega (arith, bit_or-bitwise x 0, or_within-zero x x (omega arith)))
bit_or-shifted (suc k) x b h =
    omega (arith, bit_or_even (shifted k x) b, bit_or-shifted k x (b / 2) (omega arith))

-- `(x << 8) | b` for a byte `b`.
pub bit_or_byte : (x b : ℕ) → b < 256 → bit_or (x * 256) b ≡ x * 256 + b
bit_or_byte x b h =
    let e : shifted 8 x ≡ x * 256 = omega arith in rw e at (bit_or-shifted 8 x b (omega arith))
