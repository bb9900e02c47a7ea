-- ===== src/Common/Bits.antt =====
-- Facts about `bit_or` and `bit_and` at variables, each checked over a byte by evaluation.
use Prim.Native.Nat.{ℕ, zero, suc, ◌+◌, ◌*◌, ◌^◌, ◌<◌, bit_or, bit_and}
use mathlib.Core.Path.{◌≡◌, refl, ap}
use mathlib.Core.Bool.{Bool, true, false, not, ◌&&◌}
use native.Mathlib.Omega.{arith}
use native.Mathlib.Nat.{zero-add, suc-add, pow-suc}
use venus_vaapi_driver.Common.Tests.{◌==◌, ==_iff, ltb, ltb→lt}

-- A test that holds up to a bound, found by running it.
passes : (ℕ → Bool) → ℕ → Bool
passes test zero = true
passes test (suc bound) = passes test bound && test bound

passes_at :
    (test : ℕ → Bool) (bound : ℕ) {x : ℕ} → x < bound → passes test bound ≡ true → test x ≡ true
unfolding passes
passes_at test zero small run = absurd (omega arith)
passes_at test (suc bound) {x} small run = ground (arith, passes_at test bound {x = x})

or_pow_holds : ℕ → ℕ → Bool
or_pow_holds k q = bit_or (q * (2 * 2 ^ k)) (2 ^ k) == (q * (2 * 2 ^ k) + 2 ^ k)

or_pow_table : passes (λ k. passes (or_pow_holds k) 128) 8 ≡ true
unfolding passes or_pow_holds
or_pow_table = refl

-- To set bit `k` of a byte whose bits up to `k` are clear is to add `2 ^ k`.
pub bit_or_pow :
    (k q : ℕ) → k < 8 → q < 128 → bit_or (q * (2 * 2 ^ k)) (2 ^ k) ≡ q * (2 * 2 ^ k) + 2 ^ k
unfolding or_pow_holds
bit_or_pow k q hk hq = (==_iff _ _).0 (
    passes_at (or_pow_holds k) 128 hq
      (passes_at (λ l. passes (or_pow_holds l) 128) 8 hk or_pow_table))

same : Bool → Bool → Bool
same true b = b
same false b = not b

same_sound : (a b : Bool) → same a b ≡ true → a ≡ b
unfolding same
same_sound true b h = ground arith
same_sound false b h = ground arith

or_and_holds : ℕ → ℕ → ℕ → Bool
or_and_holds i j n =
    same (bit_and (bit_or n (2 ^ i)) (2 ^ j) == 0) (bit_and n (2 ^ j) == 0 && not (i == j))

or_and_table : passes (λ i. passes (λ j. passes (or_and_holds i j) 16) 4) 4 ≡ true
unfolding passes or_and_holds same
or_and_table = refl

-- In a set of four flags, to set flag `i` sets that flag and no other.
pub bit_and-bit_or :
    (i j n : ℕ)
    → i < 4
    → j < 4
    → n < 16
    → (bit_and (bit_or n (2 ^ i)) (2 ^ j) == 0) ≡ (bit_and n (2 ^ j) == 0 && not (i == j))
unfolding or_and_holds
bit_and-bit_or i j n hi hj hn = same_sound _ _ (
    passes_at (or_and_holds i j) 16 hn (
      passes_at (λ l. passes (or_and_holds i l) 16) 4 hj
        (passes_at (λ k. passes (λ l. passes (or_and_holds k l) 16) 4) 4 hi or_and_table)))

below_holds : ℕ → ℕ → Bool
below_holds i n = ltb (bit_or n (2 ^ i)) 16

below_table : passes (λ i. passes (below_holds i) 16) 4 ≡ true
unfolding passes below_holds
below_table = refl

pub bit_or_lt : (i n : ℕ) → i < 4 → n < 16 → bit_or n (2 ^ i) < 16
unfolding below_holds
bit_or_lt i n hi hn =
    ltb→lt _ _ (
      passes_at (below_holds i) 16 hn (passes_at (λ k. passes (below_holds k) 16) 4 hi below_table))

pub pow-add : (m n : ℕ) → 2 ^ (m + n) ≡ 2 ^ m * 2 ^ n
pow-add zero n = rw zero-add (omega arith)
pow-add (suc m) n =
    rw (suc-add, pow-suc, pow-suc) (omega (arith, ap (λ (t : ℕ). t * 2) (pow-add m n)))
