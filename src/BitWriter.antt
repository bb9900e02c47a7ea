-- ===== src/BitWriter.antt =====
-- src/bit_writer.c, src/bit_writer.h.
pub mod Pack
pub mod Refines
pub mod Golomb
pub mod Fields
pub mod Rbsp
mod Tests
use venus_vaapi_driver.Common.{
  ℕ, zero, suc, ◌+◌, ◌-◌, ◌*◌, ◌/◌, ◌%◌, ◌^◌, bit_or, Bool, true, false, ◌||◌, List, [], ◌∷◌,
  Option, none, some, ltb, leb, ◌==◌, if◌then◌else◌, replicate,
}
use venus_vaapi_driver.Common.Int.{ℤ, pos, negsuc}

-- `struct venus_bit_writer`. `buffer` is the array that `data` points to, as bytes; a null `data`
-- is the empty array, and then `overflow` is set.
pub record BitWriter : Type 0 where
  pub buffer : List ℕ
  pub capacity : ℕ
  pub bit_count : ℕ
  pub overflow : Bool

-- `none` is a null pointer. The memset clears the array, which has `capacity` bytes.
unfoldable pub init : Option (List ℕ) → ℕ → BitWriter
init none capacity = record { buffer = []; capacity = capacity; bit_count = 0; overflow = true }
init (some bytes) capacity = record {
  buffer = if capacity == 0 then bytes else replicate capacity 0;
  capacity = capacity;
  bit_count = 0;
  overflow = capacity == 0;
}

-- `data[byte] |= (uint8_t)(1u << shift)`
abbrev pub or_at : List ℕ → ℕ → ℕ → List ℕ
or_at [] i mask = []
or_at (b ∷ bs) zero mask = bit_or b mask ∷ bs
or_at (b ∷ bs) (suc i) mask = b ∷ or_at bs i mask

unfoldable pub write_one : BitWriter → Bool → BitWriter
write_one w value =
    if w.overflow
    then w
    else (if leb w.capacity (w.bit_count / 8) then record w { overflow = true } else record w {
      buffer =
          if value then or_at w.buffer (w.bit_count / 8) (2 ^ (7 - w.bit_count % 8)) else w.buffer;
      bit_count = w.bit_count + 1;
    })

-- `((value >> n) & 1u) != 0`
abbrev pub bit_at : ℕ → ℕ → Bool
bit_at value n = value / 2 ^ n % 2 == 1

-- The loop `for (index = bits; index > 0; index--)` of `venus_bits_write`, which is also the last
-- loop of `venus_bits_write_ue`.
unfoldable pub write_low : BitWriter → ℕ → ℕ → BitWriter
write_low w value zero = w
write_low w value (suc n) = write_low (write_one w (bit_at value n)) value n

unfoldable pub write : BitWriter → ℕ → ℕ → BitWriter
write w value bits = if ltb 32 bits then record w { overflow = true } else write_low w value bits

-- `while (cursor > 1) { cursor >>= 1; leading_zero_bits++; }`. Each round halves a uint64_t, so 64
-- rounds are enough.
unfoldable pub leading_zeros : ℕ → ℕ → ℕ → ℕ
leading_zeros zero cursor n = n
leading_zeros (suc fuel) cursor n =
    let rest = leading_zeros fuel (cursor / 2) (n + 1) in if ltb 1 cursor then rest else n

-- `while (leading_zero_bits > 0) { write_one(writer, false); leading_zero_bits--; }`
unfoldable pub write_zeros : BitWriter → ℕ → BitWriter
write_zeros w zero = w
write_zeros w (suc n) = write_zeros (write_one w false) n

-- `(uint64_t)value + 1` does not wrap, as `value` is a uint32_t.
unfoldable pub write_ue : BitWriter → ℕ → BitWriter
write_ue w value =
    let code_num = value + 1 in
    let zeroed = write_zeros w (leading_zeros 64 code_num 0) in
    write_low (write_one zeroed true) code_num (leading_zeros 64 code_num 0)

-- The code number of a signed value: -v * 2 if v ≤ 0, and v * 2 - 1 if not.
abbrev pub se_code : ℤ → ℕ
se_code (pos v) = if v == 0 then 0 else v * 2 - 1
se_code (negsuc n) = (n + 1) * 2

unfoldable pub write_se : BitWriter → ℤ → BitWriter
write_se w value =
    if ltb 0xffff_ffff (se_code value)
    then record w { overflow = true }
    else write_ue w (se_code value)

-- `while (!writer->overflow && writer->bit_count % CHAR_BIT) write_one(writer, false);` A round adds
-- a bit or sets `overflow`, so 8 rounds are enough.
unfoldable pub pad : ℕ → BitWriter → BitWriter
pad zero w = w
pad (suc fuel) w =
    let rest = pad fuel (write_one w false) in
    if w.overflow || w.bit_count % 8 == 0 then w else rest

unfoldable pub finish_rbsp : BitWriter → BitWriter
finish_rbsp w = pad 8 (write_one w true)

unfoldable pub size : BitWriter → ℕ
size w = if w.overflow then 0 else (w.bit_count + 7) / 8

unfoldable pub is_ok : BitWriter → Bool
is_ok w = if w.overflow then false else true
