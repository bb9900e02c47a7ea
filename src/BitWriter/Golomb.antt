-- ===== src/BitWriter/Golomb.antt =====
-- A reader of Exp-Golomb codes, written from the H.264 syntax, against what
-- venus_bits_write_ue and venus_bits_write_se of src/bit_writer.c produce.
use venus_vaapi_driver.Common.{
  ℕ, zero, suc, ◌+◌, ◌-◌, ◌*◌, ◌/◌, ◌%◌, ◌^◌, ◌≤◌, ◌<◌, ◌≡◌, ap, ◌∙◌, Bool, true, false, Option,
  none, some, List, [], ◌∷◌, ◌++◌, append_assoc, arith, inl, inr, ltb, ltb→lt, Bool-cases, ◌==◌,
  replicate, if◌then◌else◌,
}
use venus_vaapi_driver.Common.Int.{ℤ, pos, negsuc}
use venus_vaapi_driver.BitWriter.{bit_at, leading_zeros, se_code}
use venus_vaapi_driver.BitWriter.Pack.{bit}
use venus_vaapi_driver.BitWriter.Refines.{low_bits, ue_bits}
use native.Mathlib.Numerals.{towards_suc}
use native.Mathlib.Nat.{
  zero-add, pow-suc, one-le-pow, mod-lt, mod-eq_of_lt, mod-eq-sub-mod, add-mul-mod_self_right,
  div-add-mod', mul-le-mul_right,
}

abbrev pub Reader : Type 0 → Type 0
Reader A = List Bool → Option (A × List Bool)

infixl 5 ◌>>=◌
unfoldable pub ◌>>=◌ : {A B : Type 0} → Reader A → (A → Reader B) → Reader B
◌>>=◌ m f bits = elim (m bits) [ none ↦ none | some (a, rest) ↦ f a rest ]

pub >>=-some :
    {A B : Type 0} (m : Reader A) (f : A → Reader B) (bits : List Bool) {a : A} {rest : List Bool}
    → m bits ≡ some (a, rest)
    → (m >>= f) bits ≡ f a rest
unfolding ◌>>=◌
>>=-some m f bits e = rw (e, ◌>>=◌)

-- The zeros in front of the first one, which is taken too.
unfoldable pub count_zeros : ℕ → Reader ℕ
count_zeros n [] = none
count_zeros n (true ∷ bits) = some (n, bits)
count_zeros n (false ∷ bits) = count_zeros (n + 1) bits

-- `n` more digits behind those of `acc`.
unfoldable pub read_bits : ℕ → ℕ → Reader ℕ
read_bits zero acc bits = some (acc, bits)
read_bits (suc n) acc [] = none
read_bits (suc n) acc (b ∷ bits) = read_bits n (acc * 2 + bit b) bits

unfoldable pub read_ue : Reader ℕ
unfolding count_zeros read_bits ◌>>=◌
read_ue = count_zeros 0 >>= λ n. read_bits n 1 >>= λ code rest. some (code - 1, rest)

abbrev pub se_value : ℕ → ℤ
se_value code =
    if code % 2 == 1
    then pos (code / 2 + 1)
    else (if code == 0 then pos 0 else negsuc (code / 2 - 1))

unfoldable pub read_se : Reader ℤ
unfolding read_ue ◌>>=◌
read_se = read_ue >>= λ code rest. some (se_value code, rest)

count_zeros-replicate :
    (n k : ℕ) (bits : List Bool)
    → count_zeros k (replicate n false ++ true ∷ bits) ≡ some (k + n, bits)
unfolding count_zeros
count_zeros-replicate zero k bits = ground arith
count_zeros-replicate (suc n) k bits = ground (arith, count_zeros-replicate n (k + 1) bits)

mod_double : (p v : ℕ) → 0 < p → v % (p * 2) ≡ v / p % 2 * p + v % p
mod_double p v h =
    ap (λ (t : ℕ). t % (p * 2)) split
    ∙ add-mul-mod_self_right small (v / p / 2) (p * 2)
    ∙ mod-eq_of_lt below
  where
    small : ℕ
    small = v / p % 2 * p + v % p

    digits : v / p * p ≡ (v / p / 2 * 2 + v / p % 2) * p
    digits = ap (λ (t : ℕ). t * p) (omega arith)

    split : v ≡ small + v / p / 2 * (p * 2)
    split = omega (arith, digits, div-add-mod' v p)

    below : small < p * 2
    below = omega (arith, mul-le-mul_right p (let e : v / p % 2 ≤ 1 = omega arith in e), mod-lt v h)

bit_at_value : (v n : ℕ) → bit (bit_at v n) ≡ v / 2 ^ n % 2
bit_at_value v n = ground arith

pub read_bits-low_bits :
    (n acc value : ℕ) (rest : List Bool)
    → read_bits n acc (low_bits value n ++ rest) ≡ some (acc * 2 ^ n + value % 2 ^ n, rest)
unfolding read_bits low_bits
read_bits-low_bits zero acc value rest = ground arith
read_bits-low_bits (suc n) acc value rest =
    read_bits-low_bits n (acc * 2 + bit (bit_at value n)) value rest
    ∙ ap (λ (t : ℕ). some (t, rest))
        (rw pow-suc (
          omega (
            arith,
            mod_double (2 ^ n) value (one-le-pow n 2 (omega arith)),
            ap (λ (t : ℕ). t * 2 ^ n) (bit_at_value value n),
          )))

half_below : (c p : ℕ) → c / 2 * (p * 2) ≤ c * p
half_below c p = omega (arith, mul-le-mul_right p (let e : c / 2 * 2 ≤ c = omega arith in e))

half_above : (c p : ℕ) → (c + 1) * p ≤ (c / 2 + 1) * (p * 2)
half_above c p =
    omega (arith, mul-le-mul_right p (let e : c + 1 ≤ (c / 2 + 1) * 2 = omega arith in e))

-- The loop that counts leading zeros finds the place of the highest digit.
leading_zeros_bounds :
    (fuel c n : ℕ)
    → 1 ≤ c
    → c < 2 ^ suc fuel
    → (2 ^ leading_zeros fuel c n ≤ c * 2 ^ n)
      × ((c + 1) * 2 ^ n ≤ 2 ^ suc (leading_zeros fuel c n))
unfolding leading_zeros
leading_zeros_bounds zero c n h lt = let e : c ≡ 1 = omega arith in rw (e, pow-suc) (omega arith)
leading_zeros_bounds (suc fuel) c n h lt = elim (Bool-cases (ltb 1 c)) [
  | inl more ↦
      let long : 1 < c = ltb→lt _ _ more in
      let (low, high) =
        leading_zeros_bounds fuel (c / 2) (n + 1) (omega arith)
          (omega (arith, pow-suc 2 (suc fuel))) in
      let next : 2 ^ (n + 1) ≡ 2 ^ n * 2 = simp towards_suc (pow-suc 2 n) in
      rw more (
        omega (arith, low, half_below c (2 ^ n), ap (λ (t : ℕ). c / 2 * t) next),
        omega (arith, high, half_above c (2 ^ n), ap (λ (t : ℕ). (c / 2 + 1) * t) next),
      )
  | inr last ↦ rw last (let e : c ≡ 1 = ground arith in rw (e, pow-suc) (omega arith))
]

pub log_bounds :
    (value : ℕ)
    → value < 2 ^ 32
    → (2 ^ leading_zeros 64 (value + 1) 0 ≤ value + 1)
      × (value + 1 < 2 ^ leading_zeros 64 (value + 1) 0 * 2)
log_bounds value h =
    let z = leading_zeros 64 (value + 1) 0 in
    let (low, high) = leading_zeros_bounds 64 (value + 1) 0 (omega arith) (omega arith) in
    (omega (arith, low), omega (arith, high, pow-suc 2 z))

mod_once : (p v : ℕ) → p ≤ v → v < p * 2 → 1 * p + v % p ≡ v
mod_once p v low high =
    omega
      (arith, mod-eq-sub-mod {n = v} {m = p} low, mod-eq_of_lt {n = v - p} {m = p} (omega arith))

read_ue_code :
    (z value : ℕ) (rest : List Bool)
    → 2 ^ z ≤ value + 1
    → value + 1 < 2 ^ z * 2
    → read_ue ((replicate z false ++ true ∷ low_bits (value + 1) z) ++ rest) ≡ some (value, rest)
unfolding read_ue
read_ue_code z value rest low high = rw append_assoc (
    >>=-some (count_zeros 0) after_zeros (replicate z false ++ true ∷ (digits ++ rest))
      {rest = digits ++ rest} (count_zeros-replicate z 0 (digits ++ rest))
    ∙ rw zero-add (
        >>=-some (read_bits z 1) after_digits (digits ++ rest)
          (read_bits-low_bits z 1 (value + 1) rest)
        ∙ ap (λ (t : ℕ). some (t, rest)) (omega (arith, mod_once (2 ^ z) (value + 1) low high))))
  where
    digits : List Bool
    digits = low_bits (value + 1) z

    after_digits : ℕ → Reader ℕ
    after_digits = λ code bits. some (code - 1, bits)

    after_zeros : ℕ → Reader ℕ
    after_zeros = λ n. read_bits n 1 >>= after_digits

-- What the writer's Exp-Golomb code says is read back, and the bits behind it are left.
pub read_ue-ue_bits :
    (value : ℕ) (rest : List Bool)
    → value < 2 ^ 32
    → read_ue (ue_bits value ++ rest) ≡ some (value, rest)
unfolding ue_bits
read_ue-ue_bits value rest h =
    let (low, high) = log_bounds value h in
    read_ue_code (leading_zeros 64 (value + 1) 0) value rest low high

se_value-se_code : (value : ℤ) → se_value (se_code value) ≡ value
se_value-se_code (pos n) = ground arith
se_value-se_code (negsuc n) = ground arith

-- A signed value whose code number fits 32 bits is read back from its Exp-Golomb code, and the bits
-- behind it are left.
pub read_se-ue_bits :
    (value : ℤ) (rest : List Bool)
    → se_code value < 2 ^ 32
    → read_se (ue_bits (se_code value) ++ rest) ≡ some (value, rest)
unfolding read_se
read_se-ue_bits value rest h =
    >>=-some read_ue (λ code bits. some (se_value code, bits)) (ue_bits (se_code value) ++ rest)
      (read_ue-ue_bits (se_code value) rest h)
    ∙ ap (λ (v : ℤ). some (v, rest)) (se_value-se_code value)

-- An unsigned field of `n` bits.
unfoldable pub read_u : ℕ → Reader ℕ
read_u n = read_bits n 0

pub read_u-low_bits :
    (value n : ℕ) (rest : List Bool)
    → read_u n (low_bits value n ++ rest) ≡ some (value % 2 ^ n, rest)
unfolding read_u
read_u-low_bits value n rest =
    read_bits-low_bits n 0 value rest ∙ ap (λ (t : ℕ). some (t, rest)) (omega arith)

-- To read one field and go on behind it.
module _ {A B : Type 0} where
  pub then_read :
      (m : Reader A) (f : A → Reader B) (bits : List Bool) {a : A} {rest : List Bool}
      {r : Option (B × List Bool)}
      → m bits ≡ some (a, rest)
      → f a rest ≡ r
      → (m >>= f) bits ≡ r
  then_read m f bits e k = >>=-some m f bits e ∙ k

module _ {B : Type 0} {r : Option (B × List Bool)} where
  pub then_u :
      (value n : ℕ) (f : ℕ → Reader B) (rest : List Bool)
      → value < 2 ^ n
      → f value rest ≡ r
      → (read_u n >>= f) (low_bits value n ++ rest) ≡ r
  then_u value n f rest h k =
      >>=-some (read_u n) f (low_bits value n ++ rest) (read_u-low_bits value n rest)
      ∙ ap (λ (t : ℕ). f t rest) (mod-eq_of_lt h)
      ∙ k

  pub then_ue :
      (value : ℕ) (f : ℕ → Reader B) (rest : List Bool)
      → value < 2 ^ 32
      → f value rest ≡ r
      → (read_ue >>= f) (ue_bits value ++ rest) ≡ r
  then_ue value f rest h k =
      >>=-some read_ue f (ue_bits value ++ rest) (read_ue-ue_bits value rest h) ∙ k

module _ {B : Type 0} {r : Option (B × List Bool)} where
  pub then_se :
      (value : ℤ) (f : ℤ → Reader B) (rest : List Bool)
      → se_code value < 2 ^ 32
      → f value rest ≡ r
      → (read_se >>= f) (ue_bits (se_code value) ++ rest) ≡ r
  then_se value f rest h k =
      >>=-some read_se f (ue_bits (se_code value) ++ rest) (read_se-ue_bits value rest h) ∙ k
