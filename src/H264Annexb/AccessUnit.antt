-- ===== src/H264Annexb/AccessUnit.antt =====
-- src/h264_annexb.c: has_start_code, append_slices and venus_h264_build_access_unit.
use venus_vaapi_driver.Common.{
  ℕ, ◌-◌, Bool, true, false, not, ◌&&◌, ◌||◌, Option, none, some, List, [], ◌∷◌, ltb, ◌==◌, length,
  take, drop, if◌then◌else◌,
}
use venus_vaapi_driver.Common.Results.{Result, ok, err, einval, ◌>>=◌, ◌>>◌, fail_if}
use venus_vaapi_driver.VaTypes.{Profile, PictureH264, SliceH264}
use venus_vaapi_driver.H264Annexb.{ByteWriter, append_bytes, append_start_code}
use venus_vaapi_driver.H264Annexb.Headers.{append_sps, append_pps}

-- `struct venus_h264_slice_batch`: each pointer with its count is an array, or `none` if it is null.
pub record SliceBatch : Type 0 where
  pub parameters : Option (List SliceH264)
  pub payload : Option (List ℕ)

abbrev three_byte_code : List ℕ → Bool
three_byte_code (a ∷ b ∷ c ∷ _) = a == 0 && b == 0 && c == 1
three_byte_code _ = false

abbrev four_byte_code : List ℕ → Bool
four_byte_code (a ∷ b ∷ c ∷ d ∷ _) = a == 0 && b == 0 && c == 0 && d == 1
four_byte_code _ = false

unfoldable pub has_start_code : List ℕ → Bool
has_start_code bytes = if three_byte_code bytes then true else four_byte_code bytes

-- `VA_SLICE_DATA_FLAG_ALL` is 0 in va.h.
unfoldable pub slice_invalid : SliceH264 → ℕ → Bool
slice_invalid parameter data_size =
    not (parameter.slice_data_flag == 0)
    || ltb data_size parameter.slice_data_offset
    || ltb (data_size - parameter.slice_data_offset) parameter.slice_data_size
    || parameter.slice_data_size == 0

abbrev pub slice_of : SliceH264 → List ℕ → List ℕ
slice_of parameter payload =
    take parameter.slice_data_size (drop parameter.slice_data_offset payload)

-- One round of the inner loop of `append_slices`.
unfoldable pub append_slice : ByteWriter → List ℕ → SliceH264 → Result ByteWriter
append_slice output payload parameter = do
  fail_if (slice_invalid parameter (length payload)) einval
  started ←
      (if has_start_code (slice_of parameter payload) then ok output else append_start_code output)
  append_bytes started (slice_of parameter payload)

unfoldable pub append_batch : ByteWriter → List ℕ → List SliceH264 → Result ByteWriter
append_batch output payload [] = ok output
append_batch output payload (parameter ∷ parameters) = do
  appended ← append_slice output payload parameter
  append_batch appended payload parameters

-- The test at the head of the outer loop, then the inner one.
unfoldable pub append_checked :
    ByteWriter → Option (List SliceH264) → Option (List ℕ) → Result ByteWriter
unfolding append_batch
append_checked output none payload = err einval
append_checked output (some parameters) none = err einval
append_checked output (some []) (some payload) = err einval
append_checked output (some (parameter ∷ parameters)) (some payload) =
    append_batch output payload (parameter ∷ parameters)

unfoldable pub append_slices : ByteWriter → List SliceBatch → Result ByteWriter
append_slices output [] = ok output
append_slices output (batch ∷ batches) = do
  appended ← append_checked output batch.parameters batch.payload
  append_slices appended batches

-- What `venus_h264_build_access_unit` returns, with `*output_size` behind it.
pub record Built : Type 0 where
  pub status : Result ByteWriter
  pub output_size : ℕ

unfoldable pub append_unit :
    ByteWriter → Profile → PictureH264 → SliceH264 → List SliceBatch → Result ByteWriter
append_unit writer profile picture first_slice batches = do
  with_sps ← append_sps writer profile picture
  with_pps ← append_pps with_sps picture first_slice
  append_slices with_pps batches

abbrev pub built_size : Result ByteWriter → ℕ
built_size (ok writer) = length writer.written
built_size (err e) = 0

-- `batches[0].parameters[0]`, where the tests on the arguments let it be read.
abbrev pub first_slice_of : List SliceBatch → Option SliceH264
first_slice_of [] = none
first_slice_of (batch ∷ batches) = elim batch.parameters [
  | none ↦ none
  | some parameters ↦ elim parameters [ [] ↦ none | slice ∷ _ ↦ some slice ]
]

-- `capacity` is that of the array `output`. An argument is `none` if its pointer is null, and
-- `output_size` is what `*output_size` holds before the call. (A null `output_size` is refused with
-- the other null pointers, and then there is nothing to read.)
unfoldable pub build_access_unit :
    Profile → Option PictureH264 → List SliceBatch → Option ℕ → ℕ → Built
build_access_unit profile none batches capacity output_size = record {
  status = err einval;
  output_size = output_size;
}
build_access_unit profile (some picture) batches none output_size = record {
  status = err einval;
  output_size = output_size;
}
build_access_unit profile (some picture) batches (some capacity) output_size =
    if capacity == 0
    then record { status = err einval; output_size = output_size }
    else (elim (first_slice_of batches) [
      | none ↦ record { status = err einval; output_size = output_size }
      | some first_slice ↦
          let status =
            append_unit (record { written = []; capacity = capacity }) profile picture first_slice
              batches in
          record { status = status; output_size = built_size status }
    ])
