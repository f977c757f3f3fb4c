-- ===== src/Prelude/Xor.antt =====
-- `bit_xor` at variables: masking a number twice with the same mask gives the number again, and
-- bytes stay bytes.
use Prim.Native.Nat.{ℕ, zero, suc, ◌+◌, ◌-◌, ◌*◌, ◌/◌, ◌%◌, ◌^◌, ◌≤◌, ◌<◌}
use Prim.Native.Nat.{bit_xor, differ, bit_xor-bitwise}
use mathlib.Core.Path.{◌≡◌, refl, ap, sym, ◌∙◌}
use native.Mathlib.Omega.{arith}
use aionetiface.Prelude.Bits.{lowest_digit}

-- On any two numbers `differ` is their distance.
distance : (x y : ℕ) → differ x y ≡ x - y + (y - x)
distance zero y = omega arith
distance (suc x) zero = omega arith
distance (suc x) (suc y) = omega (arith, distance x y)

bit_xor_step : (a b : ℕ) → bit_xor a b ≡ bit_xor (a / 2) (b / 2) * 2 + differ (a % 2) (b % 2)
bit_xor_step zero b = omega (arith, bit_xor-bitwise zero b, bit_xor-bitwise zero (b / 2))
bit_xor_step (suc a) b =
    bit_xor-bitwise (suc a) b
    ∙ lowest_digit (λ rest. rest) differ a b
    ∙ ap (λ (high : ℕ). high * 2 + differ (suc a % 2) (b % 2))
        (sym (bit_xor-bitwise (suc a / 2) (b / 2)))

-- The lowest digit of the result, and the others.
bit_xor_digits :
    (a b : ℕ) → (bit_xor a b / 2 ≡ bit_xor (a / 2) (b / 2)) × (bit_xor a b % 2 ≡ (a + b) % 2)
bit_xor_digits a b =
    let whole = bit_xor_step a b in
    let digit = distance (a % 2) (b % 2) in
    (omega (arith, whole, digit), omega (arith, whole, digit))

unmask : (bound a b : ℕ) → a + b ≤ bound → bit_xor (bit_xor a b) b ≡ a
unmask zero zero zero below = refl
unmask zero (suc a) b below = absurd (omega arith)
unmask zero a (suc b) below = absurd (omega arith)
unmask (suc bound) a b below =
    let (high, low) = bit_xor_digits a b in
    let rest =
      ap (λ (t : ℕ). bit_xor t (b / 2)) high ∙ unmask bound (a / 2) (b / 2) (omega arith) in
    omega (arith, rest, low, bit_xor_digits (bit_xor a b) b)

pub bit_xor_twice : (a b : ℕ) → bit_xor (bit_xor a b) b ≡ a
bit_xor_twice a b = unmask (a + b) a b (omega arith)

pub bit_xor-lt : (k a b : ℕ) → a < 2 ^ k → b < 2 ^ k → bit_xor a b < 2 ^ k
bit_xor-lt zero zero zero h g = h
bit_xor-lt zero a b h g = absurd (omega arith)
bit_xor-lt (suc k) a b h g = omega (arith, bit_xor_digits a b, bit_xor-lt k (a / 2) (b / 2))
