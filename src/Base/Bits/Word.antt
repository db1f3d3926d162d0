-- ===== src/Base/Bits/Word.antt =====
-- `^` as a group, and bit operations on words of `k` bits.
use Prim.Native.Nat.{ℕ, zero, suc, ◌+◌, ◌*◌, ◌/◌, ◌%◌, ◌^◌, ◌<◌, bit_and, bit_or, bit_xor}
use mathlib.Core.Path.{◌≡◌, ◌∙◌, sym, ap, ap₂}
use native.Mathlib.Nat.{
  pow-suc, one-le-pow, div-add-mod', add-mul-mod_self_right, mod-eq_of_lt, mod-lt,
}
use native.Mathlib.Omega.{arith}
use sr_firmware.Base.Bits.Digits.{
  bit_and-halves, bit_or-halves, bit_xor-halves, test_bit, test_bit-lt,
}
use sr_firmware.Base.Bits.Digits.{zero-test_bit, eq_of_test_bit, test_bit-bit_xor, test_bit-bit_and}

pub bit_xor_comm : (a b : ℕ) → bit_xor a b ≡ bit_xor b a
bit_xor_comm a b =
    eq_of_test_bit (bit_xor a b) (bit_xor b a)
      λ i. omega (arith, test_bit-bit_xor a b i, test_bit-bit_xor b a i)

pub bit_xor_assoc : (a b c : ℕ) → bit_xor (bit_xor a b) c ≡ bit_xor a (bit_xor b c)
bit_xor_assoc a b c = eq_of_test_bit _ _ λ i. omega (
  arith,
  test_bit-bit_xor (bit_xor a b) c i,
  test_bit-bit_xor a b i,
  test_bit-bit_xor a (bit_xor b c) i,
  test_bit-bit_xor b c i,
)

pub bit_xor_self : (a : ℕ) → bit_xor a a ≡ 0
bit_xor_self a =
    eq_of_test_bit (bit_xor a a) 0 λ i. omega (arith, test_bit-bit_xor a a i, zero-test_bit i)

pub bit_xor-zero : (a : ℕ) → bit_xor a 0 ≡ a
bit_xor-zero a =
    eq_of_test_bit (bit_xor a 0) a
      λ i. omega (arith, test_bit-bit_xor a 0 i, zero-test_bit i, test_bit-lt a i)

-- A second `^` by the same word undoes the first.
pub bit_xor_undo : (a k : ℕ) → bit_xor (bit_xor a k) k ≡ a
bit_xor_undo a k = bit_xor_assoc a k k ∙ ap (bit_xor a) (bit_xor_self k) ∙ bit_xor-zero a

pub bit_xor_cancel : (a b k : ℕ) → bit_xor a k ≡ bit_xor b k → a ≡ b
bit_xor_cancel a b k h = sym (bit_xor_undo a k) ∙ ap (λ t. bit_xor t k) h ∙ bit_xor_undo b k

-- Four operands may be regrouped.
pub bit_xor_swap :
    (a b c d : ℕ) → bit_xor (bit_xor a b) (bit_xor c d) ≡ bit_xor (bit_xor a c) (bit_xor b d)
bit_xor_swap a b c d = eq_of_test_bit _ _ λ i. omega (
  arith,
  test_bit-bit_xor (bit_xor a b) (bit_xor c d) i,
  test_bit-bit_xor a b i,
  test_bit-bit_xor c d i,
  test_bit-bit_xor (bit_xor a c) (bit_xor b d) i,
  test_bit-bit_xor a c i,
  test_bit-bit_xor b d i,
)

pub bit_xor-double : (a b : ℕ) → bit_xor (a * 2) (b * 2) ≡ bit_xor a b * 2
bit_xor-double a b = bit_xor-halves (a * 2) (b * 2) ∙ ap₂' (omega arith) (omega arith) (omega arith)
  where
    ap₂' : {x y z : ℕ} → x ≡ a → y ≡ b → z ≡ 0 → bit_xor x y * 2 + z ≡ bit_xor a b * 2
    ap₂' p q r = rw (p, q, r) (omega arith)

pub bit_xor-lt : (k a b : ℕ) → a < 2 ^ k → b < 2 ^ k → bit_xor a b < 2 ^ k
bit_xor-lt zero a b p q =
    let e : a ≡ 0 = omega arith in let e' : b ≡ 0 = omega arith in rw (e, e') (omega arith)
bit_xor-lt (suc k) a b p q = omega (
  arith,
  pow-suc 2 k,
  bit_xor-halves a b,
  bit_xor-lt k (a / 2) (b / 2) (omega (arith, pow-suc 2 k)) (omega (arith, pow-suc 2 k)),
)

pub bit_or-lt : (k a b : ℕ) → a < 2 ^ k → b < 2 ^ k → bit_or a b < 2 ^ k
bit_or-lt zero a b p q =
    let e : a ≡ 0 = omega arith in let e' : b ≡ 0 = omega arith in rw (e, e') (omega arith)
bit_or-lt (suc k) a b p q = omega (
  arith,
  pow-suc 2 k,
  bit_or-halves a b,
  bit_or-lt k (a / 2) (b / 2) (omega (arith, pow-suc 2 k)) (omega (arith, pow-suc 2 k)),
)

-- The low `k + 1` bits are the low bit and the low `k` bits above it.
pub mod_halves : (k a : ℕ) → a % 2 ^ suc k ≡ a / 2 % 2 ^ k * 2 + a % 2
mod_halves k a = low ∙ mod-eq_of_lt small
  where
    r : ℕ
    r = a / 2 % 2 ^ k

    r-lt : r < 2 ^ k
    r-lt = mod-lt (a / 2) (one-le-pow k 2 (omega arith))

    small : r * 2 + a % 2 < 2 ^ suc k
    small = omega (arith, pow-suc 2 k, r-lt)

    split : a ≡ r * 2 + a % 2 + a / 2 / 2 ^ k * 2 ^ suc k
    split =
        omega (arith, div-add-mod' (a / 2) (2 ^ k), ap (λ (t : ℕ). a / 2 / 2 ^ k * t) (pow-suc 2 k))

    low : a % 2 ^ suc k ≡ (r * 2 + a % 2) % 2 ^ suc k
    low =
        ap (λ t. t % 2 ^ suc k) split
        ∙ add-mul-mod_self_right (r * 2 + a % 2) (a / 2 / 2 ^ k) (2 ^ suc k)

-- Truncation to `k` bits distributes over `^`.
pub bit_xor-mod : (k a b : ℕ) → bit_xor a b % 2 ^ k ≡ bit_xor (a % 2 ^ k) (b % 2 ^ k)
bit_xor-mod zero a b =
    let e : a % 2 ^ 0 ≡ 0 = omega arith in
    let e' : b % 2 ^ 0 ≡ 0 = omega arith in rw (e, e') (omega arith)
bit_xor-mod (suc k) a b = omega (
  arith,
  mod_halves k (bit_xor a b),
  bit_xor-halves a b,
  bit_xor-mod k (a / 2) (b / 2),
  ap (λ t. t % 2 ^ k) half,
  bit_xor-halves (a % 2 ^ suc k) (b % 2 ^ suc k),
  ap₂ bit_xor (mod-half a) (mod-half b),
  mod_halves k a,
  mod_halves k b,
)
  where
    half : bit_xor a b / 2 ≡ bit_xor (a / 2) (b / 2)
    half = omega (arith, bit_xor-halves a b)

    mod-half : (c : ℕ) → c % 2 ^ suc k / 2 ≡ c / 2 % 2 ^ k
    mod-half c = omega (arith, mod_halves k c)

pub bit_and-zero : (a : ℕ) → bit_and a 0 ≡ 0
bit_and-zero a =
    eq_of_test_bit (bit_and a 0) 0 λ i. omega (arith, test_bit-bit_and a 0 i, zero-test_bit i)

-- `a & (1 << k)` is the bit of weight `2 ^ k`, in its place.
pub bit_and_pow : (k a : ℕ) → bit_and a (2 ^ k) ≡ test_bit a k * 2 ^ k
bit_and_pow zero a = omega (arith, bit_and-halves a 1, bit_and-zero (a / 2))
bit_and_pow (suc k) a = omega (
  arith,
  bit_and-halves a (2 ^ suc k),
  pow-suc 2 k,
  ap (bit_and (a / 2)) half,
  bit_and_pow k (a / 2),
  ap (λ (t : ℕ). test_bit (a / 2) k * t) (pow-suc 2 k),
)
  where
    half : 2 ^ suc k / 2 ≡ 2 ^ k
    half = omega (arith, pow-suc 2 k)

pub bit_xor-shift : (k a b : ℕ) → bit_xor (a * 2 ^ k) (b * 2 ^ k) ≡ bit_xor a b * 2 ^ k
bit_xor-shift zero a b =
    let e : a * 2 ^ 0 ≡ a = omega arith in
    let e' : b * 2 ^ 0 ≡ b = omega arith in rw (e, e') (omega arith)
bit_xor-shift (suc k) a b =
    ap₂ bit_xor (out a) (out b)
    ∙ bit_xor-double (a * 2 ^ k) (b * 2 ^ k)
    ∙ ap (λ t. t * 2) (bit_xor-shift k a b)
    ∙ sym (out (bit_xor a b))
  where
    out : (c : ℕ) → c * 2 ^ suc k ≡ c * 2 ^ k * 2
    out c = omega (arith, ap (λ (t : ℕ). c * t) (pow-suc 2 k))
