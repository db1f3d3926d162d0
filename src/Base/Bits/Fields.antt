-- ===== src/Base/Bits/Fields.antt =====
-- The digits of shifted, truncated, complemented and mask words.
use Prim.Native.Nat.{
  ℕ, zero, suc, ◌+◌, ◌-◌, ◌*◌, ◌/◌, ◌%◌, ◌^◌, ◌≤◌, ◌<◌, bit_and, bit_and-bitwise, bit_or,
  bit_or-bitwise,
}
use mathlib.Core.Path.{◌≡◌, refl, ◌∙◌, ap}
use mathlib.Core.Logic.{◌≢◌}
use native.Mathlib.Nat.{pow-suc, one-le-pow, mod-lt}
use native.Mathlib.Omega.{arith}
use sr_firmware.Base.Bits.Digits.{
  test_bit, zero-test_bit, bit_and-halves, bit_or-halves, eq_of_test_bit, test_bit-bit_or,
}
use sr_firmware.Base.Bits.Word.{mod_halves, bit_and-zero}

pub test_bit-mod_low : (k a i : ℕ) → i < k → test_bit (a % 2 ^ k) i ≡ test_bit a i
test_bit-mod_low zero a i h = absurd (omega arith)
test_bit-mod_low (suc k) a zero h = omega (arith, mod_halves k a)
test_bit-mod_low (suc k) a (suc i) h =
    let half : a % 2 ^ suc k / 2 ≡ a / 2 % 2 ^ k = omega (arith, mod_halves k a) in
    rw half (test_bit-mod_low k (a / 2) i (omega arith))

pub test_bit_high : (k a i : ℕ) → a < 2 ^ k → k ≤ i → test_bit a i ≡ 0
test_bit_high zero a i h p =
    let e : a ≡ 0 = omega arith in ap (λ t. test_bit t i) e ∙ zero-test_bit i
test_bit_high (suc k) a zero h p = absurd (omega arith)
test_bit_high (suc k) a (suc i) h p =
    test_bit_high k (a / 2) i (omega (arith, pow-suc 2 k)) (omega arith)

pub test_bit-mod_high : (k a i : ℕ) → k ≤ i → test_bit (a % 2 ^ k) i ≡ 0
test_bit-mod_high k a i p =
    test_bit_high k (a % 2 ^ k) i (mod-lt a (one-le-pow k 2 (omega arith))) p

pub test_bit-shift_low : (k a i : ℕ) → i < k → test_bit (a * 2 ^ k) i ≡ 0
test_bit-shift_low zero a i h = absurd (omega arith)
test_bit-shift_low (suc k) a zero h = omega (arith, ap (λ (t : ℕ). a * t) (pow-suc 2 k))
test_bit-shift_low (suc k) a (suc i) h =
    let half : a * 2 ^ suc k / 2 ≡ a * 2 ^ k = omega (arith, ap (λ (t : ℕ). a * t) (pow-suc 2 k)) in
    rw half (test_bit-shift_low k a i (omega arith))

pub test_bit-shift_high : (k a i : ℕ) → test_bit (a * 2 ^ k) (i + k) ≡ test_bit a i
test_bit-shift_high zero a i =
    let e : i + zero ≡ i = omega arith in let e' : a * 2 ^ 0 ≡ a = omega arith in rw (e, e') refl
test_bit-shift_high (suc k) a i =
    let e : i + suc k ≡ suc (i + k) = omega arith in
    let half : a * 2 ^ suc k / 2 ≡ a * 2 ^ k = omega (arith, ap (λ (t : ℕ). a * t) (pow-suc 2 k)) in
    ap (test_bit (a * 2 ^ suc k)) e ∙ ap (λ t. test_bit t (i + k)) half ∙ test_bit-shift_high k a i

-- The complement of a word of `k` bits.
pub test_bit-complement :
    (k m i : ℕ) → m < 2 ^ k → i < k → test_bit (2 ^ k - 1 - m) i ≡ 1 - test_bit m i
test_bit-complement zero m i h p = absurd (omega arith)
test_bit-complement (suc k) m zero h p = omega (arith, pow-suc 2 k)
test_bit-complement (suc k) m (suc i) h p =
    let half : (2 ^ suc k - 1 - m) / 2 ≡ 2 ^ k - 1 - m / 2 = omega (arith, pow-suc 2 k) in
    rw half (test_bit-complement k (m / 2) i (omega (arith, pow-suc 2 k)) (omega arith))

pub test_bit-ones : (n i : ℕ) → i < n → test_bit (2 ^ n - 1) i ≡ 1
test_bit-ones n i h =
    ap (λ t. test_bit t i) {x = 2 ^ n - 1} {y = 2 ^ n - 1 - 0} (omega arith)
    ∙ test_bit-complement n 0 i (one-le-pow n 2 (omega arith)) h
    ∙ omega (arith, zero-test_bit i)

pub test_bit-pow_self : (k : ℕ) → test_bit (2 ^ k) k ≡ 1
test_bit-pow_self zero = refl
test_bit-pow_self (suc k) =
    let half : 2 ^ suc k / 2 ≡ 2 ^ k = omega (arith, pow-suc 2 k) in rw half (test_bit-pow_self k)

pub test_bit-pow_ne : (k i : ℕ) → k ≢ i → test_bit (2 ^ k) i ≡ 0
test_bit-pow_ne zero zero h = absurd (h refl)
test_bit-pow_ne zero (suc i) h = zero-test_bit i
test_bit-pow_ne (suc k) zero h = omega (arith, pow-suc 2 k)
test_bit-pow_ne (suc k) (suc i) h =
    let half : 2 ^ suc k / 2 ≡ 2 ^ k = omega (arith, pow-suc 2 k) in
    rw half (test_bit-pow_ne k i (λ e. h (ap suc e)))

pub pow-lt : (i k : ℕ) → i < k → 2 ^ i < 2 ^ k
pow-lt zero zero h = absurd (omega arith)
pow-lt (suc i) zero h = absurd (omega arith)
pow-lt zero (suc k) h = omega (arith, pow-suc 2 k, one-le-pow k 2)
pow-lt (suc i) (suc k) h = omega (arith, pow-suc 2 k, pow-suc 2 i, pow-lt i k (omega arith))

bit_and_fuel : (f a b : ℕ) → a ≤ f → bit_and a b ≤ a
bit_and_fuel zero a b h = let e : a ≡ 0 = omega arith in rw e (omega (arith, bit_and-bitwise 0 b))
bit_and_fuel (suc f) a b h =
    omega (arith, bit_and-halves a b, bit_and_fuel f (a / 2) (b / 2) (omega arith))

pub bit_and-le : (a b : ℕ) → bit_and a b ≤ a
bit_and-le a b = bit_and_fuel a a b (omega arith)

-- `a & (2^k - 1)` keeps the low `k` bits.
pub bit_and_mask : (k a : ℕ) → bit_and a (2 ^ k - 1) ≡ a % 2 ^ k
bit_and_mask zero a = rw (bit_and-zero a) (omega arith)
bit_and_mask (suc k) a = omega (
  arith,
  bit_and-halves a (2 ^ suc k - 1),
  ap (bit_and (a / 2)) half,
  bit_and_mask k (a / 2),
  mod_halves k a,
  pow-suc 2 k,
  one-le-pow k 2,
)
  where
    half : (2 ^ suc k - 1) / 2 ≡ 2 ^ k - 1
    half = omega (arith, pow-suc 2 k, one-le-pow k 2)

-- `|` of fields that do not overlap is their sum.
pub bit_or_fields : (k r q : ℕ) → r < 2 ^ k → bit_or r (q * 2 ^ k) ≡ r + q * 2 ^ k
bit_or_fields zero r q h =
    let e : r ≡ 0 = omega arith in rw e (omega (arith, bit_or-bitwise 0 (q * 2 ^ 0)))
bit_or_fields (suc k) r q h = omega (
  arith,
  bit_or-halves r (q * 2 ^ suc k),
  ap (bit_or (r / 2)) half,
  bit_or_fields k (r / 2) q (omega (arith, pow-suc 2 k)),
  ap (λ (t : ℕ). q * t) (pow-suc 2 k),
)
  where
    half : q * 2 ^ suc k / 2 ≡ q * 2 ^ k
    half = omega (arith, ap (λ (t : ℕ). q * t) (pow-suc 2 k))

pub bit_or_comm : (a b : ℕ) → bit_or a b ≡ bit_or b a
bit_or_comm a b =
    eq_of_test_bit (bit_or a b) (bit_or b a)
      λ i. omega (arith, test_bit-bit_or a b i, test_bit-bit_or b a i)
