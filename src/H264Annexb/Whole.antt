-- ===== src/H264Annexb/Whole.antt =====
-- What a whole access unit of src/h264_annexb.c holds.
use venus_vaapi_driver.Common.{
  ℕ, ◌≡◌, ◌≢◌, ap, ◌∙◌, false, some, List, [], ◌∷◌, ◌++◌, arith, leb, ◌==◌, length, if◌then◌else◌,
}
use venus_vaapi_driver.Common.Results.{Result, ok, err, enospc}
use venus_vaapi_driver.VaTypes.{Profile, PictureH264, SliceH264}
use venus_vaapi_driver.BitWriter.Refines.{trailing_bits}
use venus_vaapi_driver.BitWriter.Rbsp.{unpack}
use venus_vaapi_driver.H264Annexb.{ByteWriter, append_bytes, start_code}
use venus_vaapi_driver.H264Annexb.Escape.{unescape, append_bytes-then}
use venus_vaapi_driver.H264Annexb.Headers.{profile_idc, sps_unsupported, append_sps, append_pps}
use venus_vaapi_driver.H264Annexb.Sps.{read_sps, sps_of}
use venus_vaapi_driver.H264Annexb.Sps
use venus_vaapi_driver.H264Annexb.Pps.{read_pps, pps_of}
use venus_vaapi_driver.H264Annexb.Pps
use venus_vaapi_driver.H264Annexb.ParameterSets.{append_sps-read, append_pps-read}
use venus_vaapi_driver.H264Annexb.AccessUnit.{
  SliceBatch, Built, append_unit, first_slice_of, build_access_unit, built_size,
}
use venus_vaapi_driver.H264Annexb.Framing.{AreFramed, append_slices-framed}

-- The bytes of a unit whose parameter sets have these payloads.
abbrev pub unit_bytes : List ℕ → List ℕ → List ℕ → List ℕ
unit_bytes sps pps slices = (start_code ++ 0x67 ∷ sps) ++ ((start_code ++ 0x68 ∷ pps) ++ slices)

-- The unit in an output of `capacity` bytes, or the refusal that there is no room for it.
abbrev pub stored : ℕ → List ℕ → Built
stored capacity bytes =
    if leb (length bytes) capacity
    then record {
      status = ok (record { written = bytes; capacity = capacity });
      output_size = length bytes;
    }
    else record { status = err enospc; output_size = 0 }

append_unit-bytes :
    (writer : ByteWriter) (profile : Profile) (picture : PictureH264) (slice : SliceH264)
    {batches : List SliceBatch} {slices : List ℕ} (sps pps : List ℕ)
    → append_sps writer profile picture ≡ append_bytes writer (start_code ++ 0x67 ∷ sps)
    → ((w : ByteWriter) → append_pps w picture slice ≡ append_bytes w (start_code ++ 0x68 ∷ pps))
    → AreFramed batches slices
    → append_unit writer profile picture slice batches
      ≡ append_bytes writer (unit_bytes sps pps slices)
unfolding append_unit
append_unit-bytes writer profile picture slice {slices = slices} sps pps first second framing =
    rw first (
      append_bytes-then writer (start_code ++ 0x67 ∷ sps) ((start_code ++ 0x68 ∷ pps) ++ slices) _
        λ next. rw (second next) (
          append_bytes-then next (start_code ++ 0x68 ∷ pps) slices _
            λ last. append_slices-framed last framing))

stored-append :
    (capacity : ℕ) (bytes : List ℕ)
    → let r = append_bytes (record { written = []; capacity = capacity }) bytes in
      let b : Built = record { status = r; output_size = built_size r } in b ≡ stored capacity bytes
unfolding append_bytes
stored-append capacity bytes = ground arith

-- The access unit of a supported picture and valid slices is one SPS, one PPS and the framed slices,
-- stored whole if the output has room for it; a decoder reads back the picture from the sets.
pub build_access_unit-read :
    (profile : Profile) (picture : PictureH264) (slice : SliceH264) (value capacity old : ℕ)
    {batches : List SliceBatch} {slices : List ℕ}
    → profile_idc profile ≡ ok value
    → sps_unsupported picture ≡ false
    → picture.pic_order_cnt_type ≢ 1
    → Sps.IsTyped picture
    → Pps.IsTyped picture slice
    → capacity ≢ 0
    → first_slice_of batches ≡ some slice
    → AreFramed batches slices
    → (sps : List ℕ) × (pps : List ℕ) × (n : ℕ) × (m : ℕ) × (build_access_unit profile
          (some picture)
          batches
          (some capacity)
          old
        ≡ stored capacity (unit_bytes sps pps slices))
      × (read_sps (unpack (unescape 0 sps)) ≡ some (sps_of value picture, trailing_bits n))
      × (read_pps (unpack (unescape 0 pps)) ≡ some (pps_of picture slice, trailing_bits m))
unfolding build_access_unit
build_access_unit-read profile picture slice value capacity old {batches} known supported order ts
      tp room first framing =
    let (sps, n, sps_appended, sps_read) =
      append_sps-read profile picture value known supported order ts in
    let (pps, m, pps_appended, pps_read) = append_pps-read picture slice tp in
    let writer : ByteWriter = record { written = []; capacity = capacity } in
    (
      sps,
      pps,
      n,
      m,
      rw (let e : (capacity == 0) ≡ false = ground arith in e, first)
          (ap (λ (r : Result ByteWriter). record { status = r; output_size = built_size r })
              (append_unit-bytes writer profile picture slice sps pps (sps_appended writer)
                pps_appended framing)
            ∙ stored-append capacity _),
      sps_read,
      pps_read,
    )
