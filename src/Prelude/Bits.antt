-- ===== src/Prelude/Bits.antt =====
-- The laws of `|`, `&` and `>>` at variables: what each does to the bit at a given place.
use Prim.Native.Nat.{bit_and, bit_or, min, max, digits, bitwise, bit_and-bitwise, bit_or-bitwise}
use native.Mathlib.Nat.{
  le_refl, pow-suc, one-le-pow, div-div-eq-div-mul, div-add-mod, mod-lt, mod-eq_of_lt,
  mul-add-mod_self_left,
}
use openwebrtc.Prelude.{
  ℕ, zero, suc, ◌+◌, ◌*◌, ◌/◌, ◌%◌, ◌^◌, ◌≤◌, ◌<◌, ◌≡◌, refl, ap, sym, subst, ◌-◌, ◌∙◌, Bool, false,
  not, ◌||◌, arith, ◌==◌,
}

-- The bit of x at place k.
unfoldable pub bit : ℕ → ℕ → Bool
bit x zero = x % 2 == 1
bit x (suc k) = bit (x / 2) k

-- Fuel beyond the first number changes nothing.
module _ (z : ℕ → ℕ) (f : ℕ → ℕ → ℕ) where
  one_more : (n a b : ℕ) → a ≤ n → digits z f (suc n) a b ≡ digits z f n a b
  one_more zero zero b h = refl
  one_more (suc n) zero b h = refl
  one_more zero (suc a) b h = absurd (omega arith)
  one_more (suc n) (suc a) b h =
      ap (λ t. t * 2 + f (suc a % 2) (b % 2)) (one_more n (suc a / 2) (b / 2) (omega arith))

  many_more : (k n a b : ℕ) → n ≡ k + a → digits z f n a b ≡ bitwise z f a b
  many_more zero n a b h = let e : n ≡ a = omega arith in ap (λ t. digits z f t a b) e
  many_more (suc k) zero a b h = absurd (omega arith)
  many_more (suc k) (suc n) a b h = one_more n a b (omega arith) ∙ many_more k n a b (omega arith)

  lowest_digit :
      (a b half : ℕ)
      → half ≡ suc a / 2
      → bitwise z f (suc a) b ≡ bitwise z f half (b / 2) * 2 + f (suc a % 2) (b % 2)
  lowest_digit a b half h =
      let fuel : a ≡ (a - half) + half = omega arith in
      ap (λ t. t * 2 + f (suc a % 2) (b % 2))
        (subst (λ t. digits z f a t (b / 2) ≡ digits z f a half (b / 2)) h refl
          ∙ many_more (a - half) a half (b / 2) fuel)

low_or : (x y : ℕ) → bit_or x y ≡ 2 * bit_or (x / 2) (y / 2) + max (x % 2) (y % 2)
low_or zero y = rw (bit_or-bitwise zero y, bit_or-bitwise (zero / 2) (y / 2)) (omega arith)
low_or (suc x) y = omega (
  arith,
  bit_or-bitwise (suc x) y,
  bit_or-bitwise (suc x / 2) (y / 2),
  lowest_digit (λ t. t) max x y (suc x / 2) refl,
)

low_and : (x y : ℕ) → bit_and x y ≡ 2 * bit_and (x / 2) (y / 2) + min (x % 2) (y % 2)
low_and zero y = rw (bit_and-bitwise zero y, bit_and-bitwise (zero / 2) (y / 2)) (omega arith)
low_and (suc x) y = omega (
  arith,
  bit_and-bitwise (suc x) y,
  bit_and-bitwise (suc x / 2) (y / 2),
  lowest_digit (λ t. 0) min x y (suc x / 2) refl,
)

half-bit_or : (a b : ℕ) → bit_or a b / 2 ≡ bit_or (a / 2) (b / 2)
half-bit_or a b = omega (arith, low_or a b)

pub bit-bit_or : (a b k : ℕ) → bit (bit_or a b) k ≡ (bit a k || bit b k)
unfolding bit
bit-bit_or a b zero = ground (arith, low_or a b)
bit-bit_or a b (suc k) = rw (half-bit_or a b) (bit-bit_or (a / 2) (b / 2) k)

double_half : (n : ℕ) → 2 ^ suc n / 2 ≡ 2 ^ n
double_half n = omega (arith, pow-suc 2 n)

bit-zero : (k : ℕ) → bit 0 k ≡ false
unfolding bit
bit-zero zero = refl
bit-zero (suc k) = bit-zero k

-- 1 << n has the bit at place n and no other.
pub bit-two_pow : (n k : ℕ) → bit (2 ^ n) k ≡ (n == k)
unfolding bit
bit-two_pow zero zero = refl
bit-two_pow zero (suc k) = rw (bit-zero k) (ground arith)
bit-two_pow (suc n) zero = ground (arith, pow-suc 2 n)
bit-two_pow (suc n) (suc k) = rw (double_half n) (ground (arith, bit-two_pow n k))

half_shift : (x n : ℕ) → x / 2 ^ suc n ≡ x / 2 / 2 ^ n
half_shift x n = ap (λ d. x / d) (omega (arith, pow-suc 2 n)) ∙ sym (div-div-eq-div-mul x 2 (2 ^ n))

pub bit-shift : (n x k j : ℕ) → j ≡ n + k → bit (x / 2 ^ n) k ≡ bit x j
unfolding bit
bit-shift zero x k j h =
    let e : j ≡ k = omega arith in let d : x / 2 ^ 0 ≡ x = omega arith in rw (e, d)
bit-shift (suc n) x k zero h = absurd (omega arith)
bit-shift (suc n) x k (suc j) h = rw (half_shift x n) (bit-shift n (x / 2) k j (omega arith))

half-bit_and : (a b : ℕ) → bit_and a b / 2 ≡ bit_and (a / 2) (b / 2)
half-bit_and a b = omega (arith, low_and a b)

bit_and-zero : (n a : ℕ) → a ≤ n → bit_and a 0 ≡ 0
bit_and-zero n zero h = refl
bit_and-zero zero (suc a) h = absurd (omega arith)
bit_and-zero (suc n) (suc a) h =
    omega (arith, low_and (suc a) 0, bit_and-zero n (suc a / 2) (omega arith))

-- The test `!(x & (1 << n))` reads the bit at place n.
pub bit_and-two_pow : (n x : ℕ) → (bit_and x (2 ^ n) == 0) ≡ not (bit x n)
unfolding bit
bit_and-two_pow zero x = ground (arith, low_and x 1, bit_and-zero (x / 2) (x / 2) (le_refl _))
bit_and-two_pow (suc n) x =
    ground (arith, low_and x (2 ^ suc n), double_half n, pow-suc 2 n, bit_and-two_pow n (x / 2))

half-mod : (x n : ℕ) → x % 2 ^ suc n / 2 ≡ x / 2 % 2 ^ n
half-mod x n =
    let q = x / 2 ^ suc n in
    let r = x % 2 ^ suc n in
    let split : x / 2 ≡ 2 ^ n * q + r / 2 =
      omega (arith, div-add-mod x (2 ^ suc n), ap (λ (t : ℕ). t * q) (pow-suc 2 n)) in
    let small : r / 2 < 2 ^ n =
      omega (arith, pow-suc 2 n, mod-lt x {m = 2 ^ suc n} (one-le-pow (suc n) 2 (omega arith))) in
    sym (ap (λ t. t % 2 ^ n) split ∙ mul-add-mod_self_left (2 ^ n) q (r / 2) ∙ mod-eq_of_lt small)

mod_parity : (x n : ℕ) → x % 2 ^ suc n % 2 ≡ x % 2
mod_parity x n =
    omega (arith, div-add-mod x (2 ^ suc n), ap (λ (t : ℕ). t * (x / 2 ^ suc n)) (pow-suc 2 n))

-- A store into n bits keeps the bits below place n.
pub bit-mod : (n k x : ℕ) → k < n → bit (x % 2 ^ n) k ≡ bit x k
unfolding bit
bit-mod zero k x h = absurd (omega arith)
bit-mod (suc n) zero x h = ap (λ t. t == 1) (mod_parity x n)
bit-mod (suc n) (suc k) x h = rw (half-mod x n) (bit-mod n k (x / 2) (omega arith))

-- A number below 2 ^ n has no bit from place n on.
pub bit-of_lt : (n k x : ℕ) → x < 2 ^ n → n ≤ k → bit x k ≡ false
unfolding bit
bit-of_lt zero k x h g = let e : x ≡ 0 = omega arith in rw e (bit-zero k)
bit-of_lt (suc n) zero x h g = absurd (omega arith)
bit-of_lt (suc n) (suc k) x h g = bit-of_lt n k (x / 2) (omega (arith, pow-suc 2 n)) (omega arith)
