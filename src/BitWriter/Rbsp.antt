-- ===== src/BitWriter/Rbsp.antt =====
-- The bytes of a finished RBSP, read back as bits.
use venus_vaapi_driver.Common.{
  ℕ, zero, suc, ◌+◌, ◌-◌, ◌*◌, ◌/◌, ◌%◌, ◌^◌, ◌≤◌, ◌<◌, ◌≡◌, refl, ap, subst, ◌∙◌, Bool, true,
  false, some, List, [], ◌∷◌, ◌++◌, arith, ◌==◌, length, length-append, length-replicate,
  length-drop, take, drop, All,
}
use venus_vaapi_driver.BitWriter.{BitWriter, init, bit_at, finish_rbsp, size, is_ok}
use venus_vaapi_driver.BitWriter.Pack.{bit, top_digit, byte_value, pack}
use venus_vaapi_driver.BitWriter.Refines.{
  append_bits, Refines, low_bits, trailing_bits, init-Refines, finish_rbsp-Refines, size-Refines,
}
use venus_vaapi_driver.BitWriter.Fields.{
  Field, write_fields, fields_bits, fields_then, fields_bits-then, IsCoded, write_fields-Refines,
  length-fields_bits,
}
use venus_vaapi_driver.Common.Bits.{pow-add}
use mathlib.Core.Path.{ap₂}
use native.Mathlib.Nat.{one-le-pow, pow-suc, add-zero, mul-add-div_right, div-eq_of_lt}

-- The bits of a list of bytes, highest first.
unfoldable pub unpack : List ℕ → List Bool
unpack [] = []
unpack (byte ∷ bytes) = low_bits byte 8 ++ unpack bytes

bit_at-add : (a v n k : ℕ) → bit_at (a * 2 ^ (n + suc k) + v) n ≡ bit_at v n
bit_at-add a v n k = ap (λ (t : ℕ). t % 2 == 1) quotient ∙ ap (λ (t : ℕ). t == 1) (omega arith)
  where
    quotient : (a * 2 ^ (n + suc k) + v) / 2 ^ n ≡ a * 2 ^ k * 2 + v / 2 ^ n
    quotient =
        rw (pow-add n (suc k), pow-suc)
          (ap (λ (t : ℕ). (t + v) / 2 ^ n)
              (let e : a * (2 ^ n * (2 ^ k * 2)) ≡ a * 2 ^ k * 2 * 2 ^ n = omega arith in e)
            ∙ mul-add-div_right (one-le-pow n 2 (omega arith)) (a * 2 ^ k * 2) v)

low_bits-add : (a v n k : ℕ) → low_bits (a * 2 ^ (n + k) + v) n ≡ low_bits v n
unfolding low_bits
low_bits-add a v zero k = refl
low_bits-add a v (suc n) k =
    ap (λ (t : ℕ). low_bits (a * 2 ^ t + v) (suc n))
      (let e : suc n + k ≡ n + suc k = omega arith in e)
    ∙ ap₂ (λ (b : Bool) (bs : List Bool). b ∷ bs) (bit_at-add a v n k) (low_bits-add a v n (suc k))

low_bits-add_top : (a v n : ℕ) → low_bits (a * 2 ^ n + v) n ≡ low_bits v n
low_bits-add_top a v n = rw add-zero at (low_bits-add a v n 0)

byte_value-lt : (k : ℕ) (bits : List Bool) → byte_value k bits < 2 ^ k
byte_value-lt zero bits = omega arith
byte_value-lt (suc k) [] = one-le-pow (suc k) 2 (omega arith)
byte_value-lt (suc k) (b ∷ bits) = rw pow-suc (top_digit b (2 ^ k) _ (byte_value-lt k bits))

top_bit : (k : ℕ) (b : Bool) (v : ℕ) → v < 2 ^ k → bit_at (bit b * 2 ^ k + v) k ≡ b
top_bit k b v h =
    ap (λ (t : ℕ). t % 2 == 1)
      (mul-add-div_right (one-le-pow k 2 (omega arith)) (bit b) v
        ∙ ap (λ (t : ℕ). bit b + t) (div-eq_of_lt h))
    ∙ one_bit b
  where
    one_bit : (b : Bool) → ((bit b + 0) % 2 == 1) ≡ b
    one_bit true = refl
    one_bit false = refl

low_bits-byte_value :
    (k : ℕ) (bits : List Bool)
    → k ≤ length bits
    → low_bits (byte_value k bits) k ++ drop k bits ≡ bits
unfolding low_bits
low_bits-byte_value zero bits h = refl
low_bits-byte_value (suc k) [] h = absurd (omega arith)
low_bits-byte_value (suc k) (b ∷ bits) h =
    ap₂ (λ (c : Bool) (cs : List Bool). c ∷ cs) (top_bit k b _ (byte_value-lt k bits))
      (ap (λ (t : List Bool). t ++ drop k bits) (low_bits-add_top (bit b) (byte_value k bits) k)
        ∙ low_bits-byte_value k bits (omega arith))

unpack-pack : (n : ℕ) (bits : List Bool) → length bits ≡ n * 8 → unpack (pack n bits) ≡ bits
unfolding unpack
unpack-pack zero [] h = refl
unpack-pack zero (b ∷ bits) h = absurd (omega arith)
unpack-pack (suc n) bits h =
    ap (λ (t : List Bool). low_bits (byte_value 8 bits) 8 ++ t)
      (unpack-pack n (drop 8 bits) (omega (arith, length-drop 8 bits)))
    ∙ low_bits-byte_value 8 bits (omega arith)

take-pack : (n cap : ℕ) (bits : List Bool) → n ≤ cap → take n (pack cap bits) ≡ pack n bits
take-pack zero cap bits h = refl
take-pack (suc n) zero bits h = absurd (omega arith)
take-pack (suc n) (suc cap) bits h =
    ap (λ (t : List ℕ). byte_value 8 bits ∷ t) (take-pack n cap (drop 8 bits) (omega arith))

closed_length :
    (bits : List Bool) → length (bits ++ trailing_bits (length bits)) ≡ (length bits / 8 + 1) * 8
closed_length bits = omega (
  arith,
  length-append bits (trailing_bits (length bits)),
  length-replicate (7 - length bits % 8) false,
)

-- A writer that has closed `bits` within its room passes the test, and its bytes hold them.
finished :
    (bits : List Bool) (w : BitWriter)
    → length bits ≤ 1950
    → Refines 256 (some bits) w
    → (is_ok (finish_rbsp w) ≡ true)
      × (unpack (take (size (finish_rbsp w)) (finish_rbsp w).buffer)
          ≡ bits ++ trailing_bits (length bits))
finished bits w room r = (
  sized.1,
  rw (sized.0, done.2, bytes)
      (rw (take-pack (length bits / 8 + 1) 256 closed (omega arith))
        (unpack-pack _ closed (closed_length bits))),
)
  where
    closed : List Bool
    closed = bits ++ trailing_bits (length bits)

    fits : append_bits 256 (some bits) (trailing_bits (length bits)) ≡ some closed
    fits = ground (arith, length-replicate (7 - length bits % 8) false)

    done : Refines 256 (some closed) (finish_rbsp w)
    done = subst (λ s. Refines 256 s (finish_rbsp w)) fits (finish_rbsp-Refines 256 bits w r)

    sized : (size (finish_rbsp w) ≡ (length closed + 7) / 8) × (is_ok (finish_rbsp w) ≡ true)
    sized = size-Refines 256 (some closed) (finish_rbsp w) done

    bytes : (length closed + 7) / 8 ≡ length bits / 8 + 1
    bytes = omega (arith, closed_length bits)

-- `uint8_t rbsp[256]` has room for thirty fields, so that neither `venus_bits_ok` nor the array's
-- bound ever refuses them; and the bytes hold the fields' codes and the trailing bits.
pub finish_rbsp-fields :
    (fields : List Field)
    → All IsCoded fields
    → length fields ≤ 30
    → let w = finish_rbsp (write_fields (init (some []) 256) fields) in
      (is_ok w ≡ true)
      × (unpack (take (size w) w.buffer)
          ≡ fields_then fields (trailing_bits (length (fields_bits fields))))
finish_rbsp-fields fields coded few =
    let bits = fields_bits fields in
    let w = write_fields (init (some []) 256) fields in
    let room : length bits ≤ 1950 = omega (arith, length-fields_bits fields coded) in
    let fits : append_bits 256 (some []) bits ≡ some bits = ground arith in
    let r =
      write_fields-Refines 256 (some []) (init (some []) 256) fields coded
        (init-Refines [] 256 (omega arith)) in
    let (good, whole) = finished bits w room (subst (λ s. Refines 256 s w) fits r) in
    (good, whole ∙ fields_bits-then fields (trailing_bits (length bits)))
