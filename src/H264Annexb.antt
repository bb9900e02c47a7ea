-- ===== src/H264Annexb.antt =====
-- src/h264_annexb.c: the byte writer and the NAL unit framing. The children hold the parameter
-- sets, the slices and the access unit, and what is proved of them.
pub mod Escape
pub mod Headers
pub mod Sps
pub mod Pps
pub mod ParameterSets
pub mod AccessUnit
pub mod Framing
pub mod Bounds
pub mod Refusal
pub mod Whole
mod Tests
use venus_vaapi_driver.Common.{
  ℕ, ◌+◌, ◌-◌, Bool, ◌&&◌, List, [], ◌∷◌, ◌++◌, ltb, leb, ◌==◌, length, if◌then◌else◌,
}
use venus_vaapi_driver.Common.Results.{Result, ok, err, enospc, ◌>>=◌}

-- `struct byte_writer`: `written` is the part of the array `data` before `length`. Nothing reads
-- what lies behind it, nor the array at all after an error.
pub record ByteWriter : Type 0 where
  pub written : List ℕ
  pub capacity : ℕ

-- `length` never passes `capacity`, so that the subtraction does not wrap.
unfoldable pub append_bytes : ByteWriter → List ℕ → Result ByteWriter
append_bytes writer bytes =
    if ltb (writer.capacity - length writer.written) (length bytes)
    then err enospc
    else ok (record writer { written = writer.written ++ bytes })

abbrev pub start_code : List ℕ
start_code = 0 ∷ 0 ∷ 0 ∷ 1 ∷ []

unfoldable pub append_start_code : ByteWriter → Result ByteWriter
append_start_code writer = append_bytes writer start_code

abbrev pub needs_prevention : ℕ → ℕ → Bool
needs_prevention zero_count byte = leb 2 zero_count && leb byte 3

-- The loop of `append_escaped_nal` from one byte on. A prevention byte resets `zero_count`, which
-- stays at most 2 and cannot wrap.
unfoldable pub append_escaped : ByteWriter → ℕ → List ℕ → Result ByteWriter
append_escaped output zero_count [] = ok output
append_escaped output zero_count (byte ∷ rbsp) = do
  prevented ← (if needs_prevention zero_count byte then append_bytes output (3 ∷ []) else ok output)
  appended ← append_bytes prevented (byte ∷ [])
  append_escaped appended
      (if byte == 0 then (if needs_prevention zero_count byte then 0 else zero_count) + 1 else 0)
      rbsp

unfoldable pub append_escaped_nal : ByteWriter → ℕ → List ℕ → Result ByteWriter
append_escaped_nal output nal_header rbsp = do
  started ← append_start_code output
  headed ← append_bytes started (nal_header ∷ [])
  append_escaped headed 0 rbsp
