-- ===== src/Base/Bits/Digits.antt =====
-- One equation for the lowest digit of `&`, `|` and `^`, and what follows digit by digit.
use Prim.Native.Nat.{
  ℕ, zero, suc, ◌+◌, ◌-◌, ◌*◌, ◌/◌, ◌%◌, ◌≤◌, ◌<◌, min, max, bit_and, bit_or, bit_xor,
}
use Prim.Native.Nat.{differ, digits, bitwise, bit_and-bitwise, bit_or-bitwise, bit_xor-bitwise}
use mathlib.Core.Path.{◌≡◌, refl, ap, ◌∙◌}
use native.Mathlib.Omega.{arith}

module _ (rest : ℕ → ℕ) (op : ℕ → ℕ → ℕ) where
  -- Fuel beyond the first number changes nothing.
  one_more : (x y n : ℕ) → x ≤ n → digits rest op (suc n) x y ≡ digits rest op n x y
  one_more zero y zero h = refl
  one_more zero y (suc n) h = refl
  one_more (suc x) y zero h = absurd (omega arith)
  one_more (suc x) y (suc n) h = omega (arith, one_more (suc x / 2) (y / 2) n (omega arith))

  more : (d n m x y : ℕ) → x ≤ n → m ≡ n + d → digits rest op m x y ≡ digits rest op n x y
  more zero n m x y h e = ap (λ fuel. digits rest op fuel x y) {x = m} {y = n} (omega arith)
  more (suc d) n zero x y h e = absurd (omega arith)
  more (suc d) n (suc m) x y h e = one_more x y m (omega arith) ∙ more d n m x y h (omega arith)

  bitwise-suc :
      (x y : ℕ)
      → bitwise rest op (suc x) y ≡ bitwise rest op (suc x / 2) (y / 2) * 2 + op (suc x % 2) (y % 2)
  bitwise-suc x y =
      let half = suc x / 2 in
      omega (arith, more (x - half) half x half (y / 2) (omega arith) (omega arith))

pub bit_and-halves : (x y : ℕ) → bit_and x y ≡ min (x % 2) (y % 2) + 2 * bit_and (x / 2) (y / 2)
bit_and-halves zero y = simp bit_and-bitwise (omega arith)
bit_and-halves (suc x) y = simp bit_and-bitwise (omega (arith, bitwise-suc (λ t. 0) min x y))

pub bit_or-halves : (x y : ℕ) → bit_or x y ≡ max (x % 2) (y % 2) + 2 * bit_or (x / 2) (y / 2)
bit_or-halves zero y = simp bit_or-bitwise (omega arith)
bit_or-halves (suc x) y = simp bit_or-bitwise (omega (arith, bitwise-suc (λ t. t) max x y))

zero-bit_xor : (b : ℕ) → bit_xor 0 b ≡ b
zero-bit_xor b = bit_xor-bitwise 0 b

parity : (x y : ℕ) → x < 2 → y < 2 → differ x y ≡ (x + y) % 2
parity zero zero p q = refl
parity zero (suc zero) p q = refl
parity (suc zero) zero p q = refl
parity (suc zero) (suc zero) p q = refl
parity zero (suc (suc y)) p q = absurd (omega arith)
parity (suc zero) (suc (suc y)) p q = absurd (omega arith)
parity (suc (suc x)) y p q = absurd (omega arith)

pub bit_xor-halves : (a b : ℕ) → bit_xor a b ≡ bit_xor (a / 2) (b / 2) * 2 + (a % 2 + b % 2) % 2
bit_xor-halves zero b = omega (arith, zero-bit_xor b, zero-bit_xor (b / 2))
bit_xor-halves (suc a) b =
    rw (← parity (suc a % 2) (b % 2) (omega arith) (omega arith))
      (simp bit_xor-bitwise (bitwise-suc (λ y. y) differ a b))

-- The digit of weight `2 ^ i`.
abbrev pub test_bit : ℕ → ℕ → ℕ
test_bit a zero = a % 2
test_bit a (suc i) = test_bit (a / 2) i

pub test_bit-lt : (a i : ℕ) → test_bit a i < 2
test_bit-lt a zero = omega arith
test_bit-lt a (suc i) = test_bit-lt (a / 2) i

pub zero-test_bit : (i : ℕ) → test_bit 0 i ≡ 0
zero-test_bit zero = refl
zero-test_bit (suc i) = zero-test_bit i

eq_fuel : (n a b : ℕ) → a ≤ n → b ≤ n → ((i : ℕ) → test_bit a i ≡ test_bit b i) → a ≡ b
eq_fuel zero a b p q h = omega arith
eq_fuel (suc n) a b p q h =
    omega (arith, h 0, eq_fuel n (a / 2) (b / 2) (omega arith) (omega arith) (λ i. h (suc i)))

-- A number is determined by its digits.
pub eq_of_test_bit : (a b : ℕ) → ((i : ℕ) → test_bit a i ≡ test_bit b i) → a ≡ b
eq_of_test_bit a b h = eq_fuel (a + b) a b (omega arith) (omega arith) h

pub test_bit-bit_and : (a b i : ℕ) → test_bit (bit_and a b) i ≡ min (test_bit a i) (test_bit b i)
test_bit-bit_and a b zero = omega (arith, bit_and-halves a b)
test_bit-bit_and a b (suc i) =
    let e : bit_and a b / 2 ≡ bit_and (a / 2) (b / 2) = omega (arith, bit_and-halves a b) in
    rw e (test_bit-bit_and (a / 2) (b / 2) i)

pub test_bit-bit_or : (a b i : ℕ) → test_bit (bit_or a b) i ≡ max (test_bit a i) (test_bit b i)
test_bit-bit_or a b zero = omega (arith, bit_or-halves a b)
test_bit-bit_or a b (suc i) =
    let e : bit_or a b / 2 ≡ bit_or (a / 2) (b / 2) = omega (arith, bit_or-halves a b) in
    rw e (test_bit-bit_or (a / 2) (b / 2) i)

pub test_bit-bit_xor : (a b i : ℕ) → test_bit (bit_xor a b) i ≡ (test_bit a i + test_bit b i) % 2
test_bit-bit_xor a b zero = omega (arith, bit_xor-halves a b)
test_bit-bit_xor a b (suc i) =
    let e : bit_xor a b / 2 ≡ bit_xor (a / 2) (b / 2) = omega (arith, bit_xor-halves a b) in
    rw e (test_bit-bit_xor (a / 2) (b / 2) i)
