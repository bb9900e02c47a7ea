-- ===== src/BitWriter/Tests.antt =====
-- Runs of the writer of src/bit_writer.c, and its theorems at concrete inputs.
use venus_vaapi_driver.Common.{
  ◌≡◌, refl, Bool, true, false, some, List, [], ◌∷◌, arith, length, take,
}
use venus_vaapi_driver.Common.Int.{negsuc}
use venus_vaapi_driver.BitWriter.{
  BitWriter, init, write_one, write_low, write, leading_zeros, write_zeros, write_ue, write_se, pad,
  finish_rbsp, size, is_ok,
}
use venus_vaapi_driver.BitWriter.Refines.{Refines, trailing_bits}
use venus_vaapi_driver.BitWriter.Fields.{Field, u, ue, se, write_fields, fields_bits, fields_then}
use venus_vaapi_driver.BitWriter.Rbsp.{unpack, finish_rbsp-fields}

abbrev fresh : BitWriter
fresh = record { buffer = 0 ∷ 0 ∷ []; capacity = 2; bit_count = 0; overflow = false }

abbrev five : BitWriter
five = record { buffer = 0xa8 ∷ 0 ∷ []; capacity = 2; bit_count = 5; overflow = false }

abbrev five_bits : List Bool
five_bits = true ∷ false ∷ true ∷ false ∷ true ∷ []

write_run : write fresh 0x15 5 ≡ five
unfolding write write_low write_one
write_run = refl

-- The code of 4 is 00101.
ue_run : (write_ue fresh 4).buffer ≡ 0x28 ∷ 0 ∷ []
unfolding write_ue leading_zeros write_zeros write_low write_one
ue_run = refl

se_run : (write_se fresh (negsuc 1)).buffer ≡ 0x28 ∷ 0 ∷ []
unfolding write_se write_ue leading_zeros write_zeros write_low write_one
se_run = refl

-- A third byte does not fit two.
overflow_run : (write fresh 1 17).overflow ≡ true
unfolding write write_low write_one
overflow_run = refl

finish_run : (finish_rbsp five).buffer ≡ 0xac ∷ 0 ∷ []
unfolding finish_rbsp pad write_one
finish_run = refl

five-Refines : Refines 2 (some five_bits) five
five-Refines = (refl, refl, refl, refl, omega arith)

abbrev three_fields : List Field
three_fields = u 66 8 ∷ ue 4 ∷ se (negsuc 1) ∷ []

finish_rbsp-fields_example :
    let w = finish_rbsp (write_fields (init (some []) 256) three_fields) in
    (is_ok w ≡ true)
    × (unpack (take (size w) w.buffer)
        ≡ fields_then three_fields (trailing_bits (length (fields_bits three_fields))))
finish_rbsp-fields_example = finish_rbsp-fields three_fields (omega arith) (omega arith)
