-- ===== src/BitWriter/Pack.antt =====
-- The bytes that hold a list of bits, most significant bit first: the picture of the array that
-- src/bit_writer.c fills.
use venus_vaapi_driver.Common.{
  ℕ, zero, suc, ◌+◌, ◌-◌, ◌*◌, ◌/◌, ◌%◌, ◌^◌, ◌≤◌, ◌<◌, bit_or, ◌≡◌, refl, ap, ◌∙◌, Bool, true,
  false, List, [], ◌∷◌, ◌++◌, arith, inl, inr, ltb, ltb→lt, ltb→le, Bool-cases, length,
  length-append, length-drop, drop, drop-append_short, drop_all, replicate, if◌then◌else◌,
}
use venus_vaapi_driver.Common.Bits.{bit_or_pow, pow-add}
use venus_vaapi_driver.BitWriter.{or_at}
use mathlib.Core.Path.{sym, ap₂}
use native.Mathlib.Nat.{pow-suc, pow-le-pow_right}

abbrev pub bit : Bool → ℕ
bit true = 1
bit false = 0

-- The number whose `k` binary digits are the first of `bits`, zeros after them.
abbrev pub byte_value : ℕ → List Bool → ℕ
byte_value zero bits = 0
byte_value (suc k) [] = 0
byte_value (suc k) (b ∷ bits) = bit b * 2 ^ k + byte_value k bits

-- `n` bytes that hold `bits`, zeros after them.
abbrev pub pack : ℕ → List Bool → List ℕ
pack zero bits = []
pack (suc n) bits = byte_value 8 bits ∷ pack n (drop 8 bits)

pub pack-nil : (n : ℕ) → pack n [] ≡ replicate n 0
pack-nil zero = refl
pack-nil (suc n) = ap (λ (t : List ℕ). 0 ∷ t) (pack-nil n)

byte_value-nil : (k : ℕ) → byte_value k [] ≡ 0
byte_value-nil zero = refl
byte_value-nil (suc k) = refl

-- A new digit behind those that stand adds its own weight; `m` places stay free behind it.
byte_value-snoc :
    (k m : ℕ) (bits : List Bool) (v : Bool)
    → k ≡ length bits + suc m
    → byte_value k (bits ++ v ∷ []) ≡ byte_value k bits + bit v * 2 ^ m
byte_value-snoc zero m bits v h = absurd (omega arith)
byte_value-snoc (suc k) m [] v h =
    omega
      (arith, byte_value-nil k, ap (λ (t : ℕ). bit v * 2 ^ t) (let e : k ≡ m = omega arith in e))
byte_value-snoc (suc k) m (b ∷ bits) v h = omega (arith, byte_value-snoc k m bits v (omega arith))

-- The digits that stand leave the places behind them clear.
pub top_digit : (b : Bool) (p q : ℕ) → q < p → bit b * p + q < p * 2
top_digit true p q h = omega arith
top_digit false p q h = omega arith

byte_value_multiple :
    (k m : ℕ) (bits : List Bool)
    → k ≡ length bits + m
    → (q : ℕ) × (byte_value k bits ≡ q * 2 ^ m) × (q < 2 ^ length bits)
byte_value_multiple k m [] h = (0, omega (arith, byte_value-nil k), omega arith)
byte_value_multiple zero m (b ∷ bits) h = absurd (omega arith)
byte_value_multiple (suc k) m (b ∷ bits) h =
    let (q, e, below) = byte_value_multiple k m bits (omega arith) in
    (
      bit b * 2 ^ length bits + q,
      omega (arith, e, split),
      rw pow-suc (top_digit b (2 ^ length bits) q below),
    )
  where
    split : bit b * 2 ^ k ≡ bit b * 2 ^ length bits * 2 ^ m
    split = rw (let e : k ≡ length bits + m = omega arith in e, pow-add) (omega arith)

-- Bits behind the first `k` do not count.
byte_value-append_short :
    (k : ℕ) (bits more : List Bool)
    → k ≤ length bits
    → byte_value k (bits ++ more) ≡ byte_value k bits
byte_value-append_short zero bits more h = refl
byte_value-append_short (suc k) [] more h = absurd (omega arith)
byte_value-append_short (suc k) (b ∷ bits) more h =
    omega (arith, byte_value-append_short k bits more (omega arith))

-- What `write_one` does to the array.
abbrev pub set_bit : List ℕ → ℕ → Bool → List ℕ
set_bit bytes n value = if value then or_at bytes (n / 8) (2 ^ (7 - n % 8)) else bytes

lt_of_pow : (n q : ℕ) → n ≤ 7 → q < 2 ^ n → q < 128
lt_of_pow n q h below = omega (arith, pow-le-pow_right {n = 2} (omega arith) h)

-- Setting the next bit of a byte that is not full.
byte_value-set :
    (m : ℕ) (bits : List Bool)
    → length bits + suc m ≡ 8
    → bit_or (byte_value 8 bits) (2 ^ m) ≡ byte_value 8 (bits ++ true ∷ [])
byte_value-set m bits h =
    let (q, e, below) = byte_value_multiple 8 (suc m) bits (omega arith) in
    let clear : byte_value 8 bits ≡ q * (2 * 2 ^ m) = e ∙ rw pow-suc (omega arith) in
    ap (λ (t : ℕ). bit_or t (2 ^ m)) clear
    ∙ bit_or_pow m q (omega arith) (lt_of_pow (length bits) q (omega arith) below)
    ∙ omega (arith, clear, byte_value-snoc 8 m bits true (omega arith))

next_byte : (n : ℕ) → 8 ≤ n → n / 8 ≡ suc ((n - 8) / 8)
next_byte n h = omega arith

drop8-snoc : (bits : List Bool) (v : Bool) → length bits < 8 → drop 8 bits ≡ drop 8 (bits ++ v ∷ [])
drop8-snoc bits v h =
    drop_all 8 bits (omega arith)
    ∙ sym (drop_all 8 (bits ++ v ∷ []) (omega (arith, length-append bits (v ∷ []))))

-- The next bit goes into the first byte, or into one behind it.
set_bit_first :
    (n : ℕ) (bits : List Bool) (v : Bool)
    → length bits < 8
    → set_bit (pack (suc n) bits) (length bits) v ≡ pack (suc n) (bits ++ v ∷ [])
set_bit_first n bits true h =
    rw
      (
        let e : length bits / 8 ≡ 0 = omega arith in e,
        let e : length bits % 8 ≡ length bits = omega arith in e,
      )
      (ap₂ (λ (b : ℕ) (bs : List ℕ). b ∷ bs) (byte_value-set (7 - length bits) bits (omega arith))
        (ap (pack n) (drop8-snoc bits true h)))
set_bit_first n bits false h =
    ap₂ (λ (b : ℕ) (bs : List ℕ). b ∷ bs)
      (omega (arith, byte_value-snoc 8 (7 - length bits) bits false (omega arith)))
      (ap (pack n) (drop8-snoc bits false h))

set_bit_later :
    (b : ℕ) (bytes : List ℕ) (k : ℕ) (v : Bool)
    → 8 ≤ k
    → set_bit (b ∷ bytes) k v ≡ b ∷ set_bit bytes (k - 8) v
set_bit_later b bytes k true h =
    rw (next_byte k h, let e : k % 8 ≡ (k - 8) % 8 = omega arith in e) refl
set_bit_later b bytes k false h = refl

-- To set the bit behind those that the array holds is to add it to them.
pub set_bit-pack :
    (n : ℕ) (bits : List Bool) (v : Bool)
    → length bits < n * 8
    → set_bit (pack n bits) (length bits) v ≡ pack n (bits ++ v ∷ [])
set_bit-pack zero bits v h = absurd (omega arith)
set_bit-pack (suc n) bits v h = elim (Bool-cases (ltb (length bits) 8)) [
  | inl short ↦ set_bit_first n bits v (ltb→lt _ _ short)
  | inr long ↦
      let room = ltb→le _ _ long in
      set_bit_later (byte_value 8 bits) (pack n (drop 8 bits)) (length bits) v room
      ∙ ap₂ (λ (b : ℕ) (bs : List ℕ). b ∷ bs) (sym (byte_value-append_short 8 bits (v ∷ []) room))
          (ap (λ (k : ℕ). set_bit (pack n (drop 8 bits)) k v) (sym (length-drop 8 bits))
            ∙ set_bit-pack n (drop 8 bits) v (omega (arith, length-drop 8 bits))
            ∙ ap (pack n) (sym (drop-append_short 8 bits (v ∷ []) room)))
]
