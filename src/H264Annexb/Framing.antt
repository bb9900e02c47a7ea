-- ===== src/H264Annexb/Framing.antt =====
-- The access units of src/h264_annexb.c: how slices are framed, and what a whole unit holds.
use venus_vaapi_driver.Common.{
  ◌&&◌, ◌||◌, ◌<◌, ◌≤◌, ◌==◌, ◌+◌, drop, true, Bool, arith, take, ◌||◌, ◌∙◌, ℕ, ◌≡◌, refl, sym,
  false, Option, none, some, List, [], ◌∷◌, ◌++◌, length, All, if◌then◌else◌, Bool-cases, inl, inr,
}
use venus_vaapi_driver.Common.Results.{ok, >>=-eq-ok}
use venus_vaapi_driver.VaTypes.{SliceH264}
use venus_vaapi_driver.H264Annexb.{ByteWriter, append_bytes, start_code, append_start_code}
use venus_vaapi_driver.H264Annexb.Escape.{append_bytes-nil, append_bytes-append, append_bytes-then}
use venus_vaapi_driver.H264Annexb.AccessUnit.{
  SliceBatch, has_start_code, slice_invalid, slice_of, append_slice, append_batch, append_checked,
  append_slices,
}

-- Whether some bytes begin with others.
unfoldable pub begins_with : (prefix bytes : List ℕ) → Bool
begins_with [] bytes = true
begins_with (x ∷ prefix) [] = false
begins_with (x ∷ prefix) (y ∷ bytes) = y == x && begins_with prefix bytes

-- A slice as it stands in the unit: as it is if it begins with 0 0 1 or 0 0 0 1, else behind 0 0 0 1.
abbrev pub framed : List ℕ → List ℕ
framed slice =
    if begins_with (0 ∷ 0 ∷ 1 ∷ []) slice || begins_with (0 ∷ 0 ∷ 0 ∷ 1 ∷ []) slice
    then slice
    else 0 ∷ 0 ∷ 0 ∷ 1 ∷ slice

-- A slice that has bytes, all of them within its data, and that is not a part of another slice.
abbrev pub LiesIn : (size : ℕ) → SliceH264 → Type 0
LiesIn size p =
    (p.slice_data_flag ≡ 0)
    × (p.slice_data_offset + p.slice_data_size ≤ size)
    × (0 < p.slice_data_size)

abbrev pub framed_batch : List ℕ → List SliceH264 → List ℕ
framed_batch payload [] = []
framed_batch payload (parameter ∷ parameters) =
    framed (take parameter.slice_data_size (drop parameter.slice_data_offset payload))
    ++ framed_batch payload parameters

-- A batch that the loop accepts: its arrays are there, and each of its slices lies in the data.
pub data IsFramed : SliceBatch → List ℕ → Type 0 where
  batch :
      (parameter : SliceH264) (parameters : List SliceH264) (payload : List ℕ)
      → All (LiesIn (length payload)) (parameter ∷ parameters)
      → IsFramed
          (record { parameters = some (parameter ∷ parameters); payload = some payload })
          (framed_batch payload (parameter ∷ parameters))

pub data AreFramed : List SliceBatch → List ℕ → Type 0 where
  none_left : AreFramed [] []
  one_more :
      {b : SliceBatch} {batches : List SliceBatch} {bytes more : List ℕ}
      → IsFramed b bytes
      → AreFramed batches more
      → AreFramed (b ∷ batches) (bytes ++ more)

has_start_code-begins_with :
    (slice : List ℕ)
    → has_start_code slice
      ≡ (begins_with (0 ∷ 0 ∷ 1 ∷ []) slice || begins_with (0 ∷ 0 ∷ 0 ∷ 1 ∷ []) slice)
unfolding has_start_code begins_with
has_start_code-begins_with [] = refl
has_start_code-begins_with (a ∷ []) = ground arith
has_start_code-begins_with (a ∷ b ∷ []) = ground arith
has_start_code-begins_with (a ∷ b ∷ c ∷ []) = ground arith
has_start_code-begins_with (a ∷ b ∷ c ∷ d ∷ rest) = ground arith

slice_invalid-LiesIn : (p : SliceH264) (size : ℕ) → slice_invalid p size ≡ false → LiesIn size p
unfolding slice_invalid
slice_invalid-LiesIn p size valid = ground arith

LiesIn-slice_invalid : (p : SliceH264) (size : ℕ) → LiesIn size p → slice_invalid p size ≡ false
unfolding slice_invalid
LiesIn-slice_invalid p size (whole, within, some_bytes) = ground arith

append_slice-framed :
    (output : ByteWriter) (payload : List ℕ) (p : SliceH264)
    → LiesIn (length payload) p
    → append_slice output payload p ≡ append_bytes output (framed (slice_of p payload))
unfolding append_slice append_start_code
append_slice-framed output payload p lies =
    let valid = LiesIn-slice_invalid p (length payload) lies in
    let own_code = has_start_code-begins_with (slice_of p payload) in
    elim (Bool-cases (has_start_code (slice_of p payload))) [
      | inl own ↦ rw (valid, own, sym own_code ∙ own) refl
      | inr bare ↦
          rw (valid, bare, sym own_code ∙ bare)
            (append_bytes-append output start_code (slice_of p payload))
    ]

append_batch-framed :
    (output : ByteWriter) (payload : List ℕ) (parameters : List SliceH264)
    → All (LiesIn (length payload)) parameters
    → append_batch output payload parameters ≡ append_bytes output (framed_batch payload parameters)
unfolding append_batch
append_batch-framed output payload [] valid = sym (append_bytes-nil output)
append_batch-framed output payload (p ∷ parameters) valid =
    rw (append_slice-framed output payload p valid.0) (
      append_bytes-then output (framed (slice_of p payload)) (framed_batch payload parameters) _
        λ next. append_batch-framed next payload parameters valid.1)

append_checked-framed :
    (output : ByteWriter) {b : SliceBatch} {bytes : List ℕ}
    → IsFramed b bytes
    → append_checked output b.parameters b.payload ≡ append_bytes output bytes
unfolding append_checked
append_checked-framed output (batch parameter parameters payload valid) =
    append_batch-framed output payload (parameter ∷ parameters) valid

-- Batches whose slices have bytes, all within their data, are appended whole, each slice behind the
-- start code 0 0 1 or 0 0 0 1 that it begins with or else behind 0 0 0 1, or there is no room for
-- them.
pub append_slices-framed :
    (output : ByteWriter) {batches : List SliceBatch} {bytes : List ℕ}
    → AreFramed batches bytes
    → append_slices output batches ≡ append_bytes output bytes
unfolding append_slices
append_slices-framed output none_left = sym (append_bytes-nil output)
append_slices-framed output (one_more {bytes = bytes} {more = more} b rest) =
    rw (append_checked-framed output b)
      (append_bytes-then output bytes more _ λ next. append_slices-framed next rest)

append_slice_ok :
    (output : ByteWriter) (payload : List ℕ) (p : SliceH264) {w : ByteWriter}
    → append_slice output payload p ≡ ok w
    → LiesIn (length payload) p
unfolding append_slice
append_slice_ok output payload p h = elim (Bool-cases (slice_invalid p (length payload))) [
  | inl bad ↦ cc (rw bad at h)
  | inr good ↦ slice_invalid-LiesIn p (length payload) good
]

append_batch_ok :
    (output : ByteWriter) (payload : List ℕ) (parameters : List SliceH264) {w : ByteWriter}
    → append_batch output payload parameters ≡ ok w
    → All (LiesIn (length payload)) parameters
unfolding append_batch
append_batch_ok output payload [] h = tt
append_batch_ok output payload (p ∷ parameters) h =
    let (next, first, rest) = >>=-eq-ok (append_slice output payload p) _ h in
    (append_slice_ok output payload p first, append_batch_ok next payload parameters rest)

append_checked_ok :
    (output : ByteWriter) (parameters : Option (List SliceH264)) (payload : Option (List ℕ))
    {w : ByteWriter}
    → append_checked output parameters payload ≡ ok w
    → (bytes : List ℕ) × IsFramed (record { parameters = parameters; payload = payload }) bytes
unfolding append_checked
append_checked_ok output none payload h = cc
append_checked_ok output (some parameters) none h = cc
append_checked_ok output (some []) (some payload) h = cc
append_checked_ok output (some (p ∷ parameters)) (some payload) h = (
  framed_batch payload (p ∷ parameters),
  batch p parameters payload (append_batch_ok output payload (p ∷ parameters) h),
)

-- The loop over the batches succeeds only on batches with slices and data, each slice of which has
-- bytes, all of them within the data.
pub append_slices_ok :
    (output : ByteWriter) (batches : List SliceBatch) {w : ByteWriter}
    → append_slices output batches ≡ ok w
    → (bytes : List ℕ) × AreFramed batches bytes
unfolding append_slices
append_slices_ok output [] h = ([], none_left)
append_slices_ok output (b ∷ batches) h =
    let (next, first, rest) = >>=-eq-ok (append_checked output b.parameters b.payload) _ h in
    let (bytes, one) = append_checked_ok output b.parameters b.payload first in
    let (more, others) = append_slices_ok next batches rest in (bytes ++ more, one_more one others)
