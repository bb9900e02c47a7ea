-- ===== src/BitWriter/Fields.antt =====
-- A parameter set as a list of fields: what the writer of src/bit_writer.c makes of a whole list.
use venus_vaapi_driver.Common.{
  ℕ, ◌+◌, ◌*◌, ◌^◌, ◌≤◌, ◌<◌, ◌≡◌, refl, ap, subst, ◌∙◌, Bool, true, false, Option, none, some,
  List, [], ◌∷◌, ◌++◌, append-nil, append_assoc, arith, ltb, leb, length, length-append,
  length-replicate, replicate, All, Bool-cases, inl, inr, if◌then◌else◌,
}
use venus_vaapi_driver.Common.Int.{ℤ}
use venus_vaapi_driver.BitWriter.{BitWriter, write, write_ue, write_se, se_code, leading_zeros}
use venus_vaapi_driver.BitWriter.Refines.{
  append_bits, append_bits-append, Refines, low_bits, length-low_bits, ue_bits, write-Refines,
  write_ue-Refines, write_se-Refines,
}
use venus_vaapi_driver.BitWriter.Golomb.{log_bounds}
use native.Mathlib.Nat.{pow-le-pow_right}

pub data Field : Type 0 where
  u : ℕ → ℕ → Field
  ue : ℕ → Field
  se : ℤ → Field

abbrev pub write_field : BitWriter → Field → BitWriter
write_field w (u value n) = write w value n
write_field w (ue value) = write_ue w value
write_field w (se value) = write_se w value

abbrev pub write_fields : BitWriter → List Field → BitWriter
write_fields w [] = w
write_fields w (f ∷ fields) = write_fields (write_field w f) fields

abbrev pub field_bits : Field → List Bool
field_bits (u value n) = low_bits value n
field_bits (ue value) = ue_bits value
field_bits (se value) = ue_bits (se_code value)

abbrev pub fields_bits : List Field → List Bool
fields_bits [] = []
fields_bits (f ∷ fields) = field_bits f ++ fields_bits fields

-- The field has a code: its width, its value or its code number fits 32 bits.
abbrev pub IsCoded : Field → Type 0
IsCoded (u value n) = n ≤ 32
IsCoded (ue value) = value < 2 ^ 32
IsCoded (se value) = se_code value < 2 ^ 32

module _ (cap : ℕ) where
  write_field-Refines :
      (s : Option (List Bool)) (w : BitWriter) (f : Field)
      → IsCoded f
      → Refines cap s w
      → Refines cap (append_bits cap s (field_bits f)) (write_field w f)
  write_field-Refines s w (u value n) h r =
      subst
        (λ (b : Bool).
          Refines cap (if b then none else append_bits cap s (low_bits value n)) (write w value n))
        (let e : ltb 32 n ≡ false = ground arith in e) (write-Refines cap s w value n r)
  write_field-Refines s w (ue value) h r = write_ue-Refines cap s w value r
  write_field-Refines s w (se value) h r =
      subst
        (λ (b : Bool).
          Refines cap (if b then none else append_bits cap s (ue_bits (se_code value)))
            (write_se w value))
        (let e : ltb 0xffff_ffff (se_code value) ≡ false = ground arith in e)
        (write_se-Refines cap s w value r)

  -- A list of fields that have codes is written as their codes, one behind the other.
  pub write_fields-Refines :
      (s : Option (List Bool)) (w : BitWriter) (fields : List Field)
      → All IsCoded fields
      → Refines cap s w
      → Refines cap (append_bits cap s (fields_bits fields)) (write_fields w fields)
  write_fields-Refines none w [] h r = r
  write_fields-Refines (some bits) w [] h r = ground (arith, append-nil bits)
  write_fields-Refines s w (f ∷ fields) h r =
      subst (λ t. Refines cap t (write_fields (write_field w f) fields))
        (append_bits-append cap s (field_bits f) (fields_bits fields))
        (write_fields-Refines (append_bits cap s (field_bits f)) (write_field w f) fields h.1
          (write_field-Refines s w f h.0 r))

zeros_bound : (value : ℕ) → value < 2 ^ 32 → leading_zeros 64 (value + 1) 0 ≤ 32
zeros_bound value h = elim (Bool-cases (leb (leading_zeros 64 (value + 1) 0) 32)) [
  | inl short ↦ ground arith
  | inr long ↦ absurd (
      omega (
        arith,
        log_bounds value h,
        pow-le-pow_right {n = 2} (omega arith) {i = 33} {j = leading_zeros 64 (value + 1) 0}
            (ground arith),
      ))
]

length-ue_bits : (value : ℕ) → value < 2 ^ 32 → length (ue_bits value) ≤ 65
unfolding ue_bits
length-ue_bits value h =
    let z = leading_zeros 64 (value + 1) 0 in
    omega (
      arith,
      length-append (replicate z false) (true ∷ low_bits (value + 1) z),
      length-replicate z false,
      length-low_bits (value + 1) z,
      zeros_bound value h,
    )

length-field_bits : (f : Field) → IsCoded f → length (field_bits f) ≤ 65
length-field_bits (u value n) h = omega (arith, length-low_bits value n)
length-field_bits (ue value) h = length-ue_bits value h
length-field_bits (se value) h = length-ue_bits (se_code value) h

pub length-fields_bits :
    (fields : List Field) → All IsCoded fields → length (fields_bits fields) ≤ 65 * length fields
length-fields_bits [] h = omega arith
length-fields_bits (f ∷ fields) h = omega (
  arith,
  length-append (field_bits f) (fields_bits fields),
  length-field_bits f h.0,
  length-fields_bits fields h.1,
)

-- The codes of a list of fields with more bits behind them.
abbrev pub fields_then : List Field → List Bool → List Bool
fields_then [] more = more
fields_then (f ∷ fields) more = field_bits f ++ fields_then fields more

pub fields_bits-then :
    (fields : List Field) (more : List Bool) → fields_bits fields ++ more ≡ fields_then fields more
fields_bits-then [] more = refl
fields_bits-then (f ∷ fields) more =
    append_assoc (field_bits f) (fields_bits fields) more
    ∙ ap (λ (t : List Bool). field_bits f ++ t) (fields_bits-then fields more)
