-- ===== src/BitWriter/Refines.antt =====
-- The writer of src/bit_writer.c against an abstract one that keeps the list of bits written, or
-- nothing once a bit did not fit.
use venus_vaapi_driver.Common.{
  ℕ, zero, suc, ◌+◌, ◌-◌, ◌*◌, ◌/◌, ◌%◌, ◌≤◌, ◌<◌, ◌≡◌, refl, ◌≢◌, sym, subst, ◌∙◌, inl, inr, Bool,
  true, false, Option, none, some, List, [], ◌∷◌, ◌++◌, append_assoc, append-nil, arith, ltb, leb,
  Bool-cases, length, length-append, length-replicate, replicate, if◌then◌else◌,
}
use venus_vaapi_driver.Common.Int.{ℤ}
use venus_vaapi_driver.BitWriter.{
  BitWriter, init, write_one, bit_at, write_low, write, leading_zeros, write_zeros, write_ue,
  se_code, write_se, pad, finish_rbsp, size, is_ok,
}
use venus_vaapi_driver.BitWriter.Pack.{pack, pack-nil, set_bit-pack}

-- What an abstract writer of `cap` bytes does with more bits.
abbrev pub append_bits : ℕ → Option (List Bool) → List Bool → Option (List Bool)
append_bits cap none more = none
append_bits cap (some bits) more =
    if leb (length bits + length more) (cap * 8) then some (bits ++ more) else none

-- The array of `w` holds exactly the abstract bits, zeros after them; or both have overflown.
abbrev pub Refines : ℕ → Option (List Bool) → BitWriter → Type 0
Refines cap none w = (w.overflow ≡ true) × (w.capacity ≡ cap)
Refines cap (some bits) w =
    (w.overflow ≡ false)
    × (w.capacity ≡ cap)
    × (w.buffer ≡ pack cap bits)
    × (w.bit_count ≡ length bits)
    × (length bits ≤ cap * 8)

-- The `n` lowest bits of a value, highest first.
unfoldable pub low_bits : ℕ → ℕ → List Bool
low_bits value zero = []
low_bits value (suc n) = bit_at value n ∷ low_bits value n

pub length-low_bits : (value n : ℕ) → length (low_bits value n) ≡ n
unfolding low_bits
length-low_bits value zero = refl
length-low_bits value (suc n) = omega (arith, length-low_bits value n)

-- The Exp-Golomb code of a number, and the bits that close an RBSP of `n` bits.
unfoldable pub ue_bits : ℕ → List Bool
ue_bits value =
    let zeros = leading_zeros 64 (value + 1) 0 in
    replicate zeros false ++ true ∷ low_bits (value + 1) zeros

abbrev pub trailing_bits : ℕ → List Bool
trailing_bits n = true ∷ replicate (7 - n % 8) false

Refines-subst :
    (cap : ℕ) (w : BitWriter) {s t : Option (List Bool)} → s ≡ t → Refines cap s w → Refines cap t w
Refines-subst cap w e r = subst (λ u. Refines cap u w) e r

pub append_bits-append :
    (cap : ℕ) (s : Option (List Bool)) (xs ys : List Bool)
    → append_bits cap (append_bits cap s xs) ys ≡ append_bits cap s (xs ++ ys)
append_bits-append cap none xs ys = refl
append_bits-append cap (some bits) xs ys =
    ground (arith, length-append bits xs, length-append xs ys, append_assoc bits xs ys)

pub init-Refines :
    (bytes : List ℕ) (cap : ℕ) → 0 < cap → Refines cap (some []) (init (some bytes) cap)
unfolding init
init-Refines bytes cap h = ground (arith, pack-nil cap)

module _ (cap : ℕ) where
  write_one-Refines :
      (s : Option (List Bool)) (w : BitWriter) (v : Bool)
      → Refines cap s w
      → Refines cap (append_bits cap s (v ∷ [])) (write_one w v)
  unfolding write_one
  write_one-Refines none w v r = ground arith
  write_one-Refines (some bits) w v r =
      ground (arith, set_bit-pack cap bits v, length-append bits (v ∷ []))

  write_low-Refines :
      (s : Option (List Bool)) (w : BitWriter) (value n : ℕ)
      → Refines cap s w
      → Refines cap (append_bits cap s (low_bits value n)) (write_low w value n)
  unfolding write_low low_bits
  write_low-Refines none w value zero r = r
  write_low-Refines (some bits) w value zero r = ground (arith, append-nil bits)
  write_low-Refines s w value (suc n) r =
      Refines-subst cap (write_low w value (suc n))
        (append_bits-append cap s (bit_at value n ∷ []) (low_bits value n))
        (write_low-Refines (append_bits cap s (bit_at value n ∷ [])) (write_one w (bit_at value n))
          value n (write_one-Refines s w (bit_at value n) r))

  -- `venus_bits_write` appends the low bits of the value, and overflows on a width above 32.
  pub write-Refines :
      (s : Option (List Bool)) (w : BitWriter) (value n : ℕ)
      → Refines cap s w
      → Refines cap
          (if ltb 32 n then none else append_bits cap s (low_bits value n))
          (write w value n)
  unfolding write
  write-Refines none w value n r = ground (arith, write_low-Refines none w value n r)
  write-Refines (some bits) w value n r = ground (arith, write_low-Refines (some bits) w value n r)

  write_zeros-Refines :
      (s : Option (List Bool)) (w : BitWriter) (n : ℕ)
      → Refines cap s w
      → Refines cap (append_bits cap s (replicate n false)) (write_zeros w n)
  unfolding write_zeros
  write_zeros-Refines none w zero r = r
  write_zeros-Refines (some bits) w zero r = ground (arith, append-nil bits)
  write_zeros-Refines s w (suc n) r =
      Refines-subst cap (write_zeros w (suc n))
        (append_bits-append cap s (false ∷ []) (replicate n false))
        (write_zeros-Refines (append_bits cap s (false ∷ [])) (write_one w false) n
          (write_one-Refines s w false r))

  -- `venus_bits_write_ue` appends the Exp-Golomb code of the value.
  pub write_ue-Refines :
      (s : Option (List Bool)) (w : BitWriter) (value : ℕ)
      → Refines cap s w
      → Refines cap (append_bits cap s (ue_bits value)) (write_ue w value)
  unfolding write_ue ue_bits
  write_ue-Refines s w value r =
      let n = leading_zeros 64 (value + 1) 0 in
      let zeroed = append_bits cap s (replicate n false) in
      let z = write_zeros-Refines s w n r in
      let o = write_one-Refines zeroed (write_zeros w n) true z in
      let l =
        write_low-Refines (append_bits cap zeroed (true ∷ [])) (write_one (write_zeros w n) true)
          (value + 1) n o in
      Refines-subst cap (write_ue w value)
        (append_bits-append cap zeroed (true ∷ []) (low_bits (value + 1) n)
          ∙ append_bits-append cap s (replicate n false) (true ∷ low_bits (value + 1) n))
        l

  -- `venus_bits_write_se` appends the code of the signed value, and overflows if the code number
  -- does not fit 32 bits.
  pub write_se-Refines :
      (s : Option (List Bool)) (w : BitWriter) (value : ℤ)
      → Refines cap s w
      → Refines cap
          (if ltb 0xffff_ffff (se_code value)
            then none
            else append_bits cap s (ue_bits (se_code value)))
          (write_se w value)
  unfolding write_se
  write_se-Refines s w value r = elim (Bool-cases (ltb 0xffff_ffff (se_code value))) [
    | inl wide ↦ rw wide (overflowed s r)
    | inr fits ↦ rw fits (write_ue-Refines s w (se_code value) r)
  ]
    where
      overflowed :
          (t : Option (List Bool))
          → Refines cap t w
          → Refines cap none (record w { overflow = true })
      overflowed none q = ground arith
      overflowed (some bits) q = ground arith

  pad_step :
      (fuel : ℕ) (bits : List Bool) (w : BitWriter)
      → length bits % 8 ≢ 0
      → Refines cap (some bits) w
      → pad (suc fuel) w ≡ pad fuel (write_one w false)
  unfolding pad
  pad_step fuel bits w h r = ground arith

  one_more :
      (bits : List Bool) (w : BitWriter)
      → length bits % 8 ≢ 0
      → Refines cap (some bits) w
      → Refines cap (some (bits ++ false ∷ [])) (write_one w false)
  one_more bits w h r =
      Refines-subst cap (write_one w false) {t = some (bits ++ false ∷ [])} (ground arith)
        (write_one-Refines (some bits) w false r)

  -- Padding adds as many zeros as the next whole byte wants, if it has that many rounds.
  pad-Refines :
      (fuel m : ℕ) (bits : List Bool) (w : BitWriter)
      → (length bits + m) % 8 ≡ 0
      → m < 8
      → m ≤ fuel
      → Refines cap (some bits) w
      → Refines cap (some (bits ++ replicate m false)) (pad fuel w)
  unfolding pad
  pad-Refines zero zero bits w h lt le r = rw append-nil r
  pad-Refines zero (suc m) bits w h lt le r = absurd (omega arith)
  pad-Refines (suc fuel) zero bits w h lt le r = rw append-nil (ground arith)
  pad-Refines (suc fuel) (suc m) bits w h lt le r =
      rw
        (pad_step fuel bits w (omega arith) r, ← append_assoc bits (false ∷ []) (replicate m false))
        (pad-Refines fuel m (bits ++ false ∷ []) (write_one w false)
          (omega (arith, length-append bits (false ∷ []))) (omega arith) (omega arith)
          (one_more bits w (omega arith) r))

  -- Whole bytes are available, so that a stop bit that fits leaves room for the padding.
  trailing_fits :
      (bits : List Bool)
      → length bits + 1 ≤ cap * 8
      → append_bits cap (some bits) (trailing_bits (length bits))
        ≡ some ((bits ++ true ∷ []) ++ replicate (7 - length bits % 8) false)
  trailing_fits bits h = ground (
    arith,
    length-replicate (7 - length bits % 8) false,
    append_assoc bits (true ∷ []) (replicate (7 - length bits % 8) false),
  )

  pad_overflow : (w : BitWriter) → w.overflow ≡ true → pad 8 w ≡ w
  unfolding pad
  pad_overflow w e = rw e

  finish_overflow :
      (bits : List Bool) (w : BitWriter)
      → cap * 8 < length bits + 1
      → Refines cap (some bits) w
      → Refines cap none (pad 8 (write_one w true))
  finish_overflow bits w h r =
      let full : Refines cap none (write_one w true) =
        Refines-subst cap (write_one w true) {t = none} (ground arith)
          (write_one-Refines (some bits) w true r) in
      subst (Refines cap none) (sym (pad_overflow (write_one w true) full.0)) full

  -- `venus_bits_finish_rbsp` appends the stop bit and zeros up to a whole byte, or overflows.
  pub finish_rbsp-Refines :
      (bits : List Bool) (w : BitWriter)
      → Refines cap (some bits) w
      → Refines cap (append_bits cap (some bits) (trailing_bits (length bits))) (finish_rbsp w)
  unfolding finish_rbsp
  finish_rbsp-Refines bits w r = elim (Bool-cases (leb (length bits + 1) (cap * 8))) [
    | inl fits ↦ Refines-subst cap (finish_rbsp w) (sym (trailing_fits bits (ground arith))) (
        pad-Refines 8 (7 - length bits % 8) (bits ++ true ∷ []) (write_one w true)
          (omega (arith, length-append bits (true ∷ []))) (omega arith) (omega arith)
          (Refines-subst cap (write_one w true) {t = some (bits ++ true ∷ [])} (rw fits)
            (write_one-Refines (some bits) w true r)))
    | inr full ↦
        Refines-subst cap (finish_rbsp w) {s = none} (ground arith)
          (finish_overflow bits w (ground arith) r)
  ]

-- `venus_bits_size` counts the bytes that hold the bits, and `venus_bits_ok` tells whether all
-- bits fitted.
pub size-Refines :
    (cap : ℕ) (s : Option (List Bool)) (w : BitWriter)
    → Refines cap s w
    → (size w ≡ (elim s [ none ↦ 0 | some bits ↦ (length bits + 7) / 8 ]))
      × (is_ok w ≡ (elim s [ none ↦ false | some bits ↦ true ]))
unfolding size is_ok
size-Refines cap none w r = ground arith
size-Refines cap (some bits) w r = ground arith
