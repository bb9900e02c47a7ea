-- ===== src/H264Annexb/ParameterSets.antt =====
-- The parameter set NAL units of src/h264_annexb.c as a decoder reads them.
use venus_vaapi_driver.Common.{
  ℕ, ◌^◌, ◌≤◌, ◌<◌, ◌≡◌, ◌≢◌, ap, ◌∙◌, false, some, List, ◌∷◌, ◌++◌, arith, ◌==◌, length, take, All,
  Bool-cases, inl, inr,
}
use venus_vaapi_driver.Common.Results.{ok}
use venus_vaapi_driver.VaTypes.{Profile, PictureH264, SliceH264}
use venus_vaapi_driver.BitWriter
use venus_vaapi_driver.BitWriter.{BitWriter, is_ok, finish_rbsp, se_code}
use venus_vaapi_driver.BitWriter.Refines.{trailing_bits}
use venus_vaapi_driver.BitWriter.Fields.{Field, write_fields, fields_then, fields_bits, IsCoded}
use venus_vaapi_driver.BitWriter.Rbsp.{unpack, finish_rbsp-fields}
use venus_vaapi_driver.H264Annexb.{ByteWriter, append_bytes, start_code}
use venus_vaapi_driver.H264Annexb.Escape.{
  escape, unescape, unescape-escape, append_escaped_nal-escape,
}
use venus_vaapi_driver.H264Annexb.Headers.{
  profile_idc, constraint_flags, sps_unsupported, rbsp_writer, append_rbsp, append_sps, append_pps,
  has_extension,
}
use venus_vaapi_driver.H264Annexb.Sps.{
  Sps, read_sps, sps_of, sps_fields, write_sps-fields, read_sps-fields,
}
use venus_vaapi_driver.H264Annexb.Sps
use venus_vaapi_driver.H264Annexb.Pps.{
  Pps, read_pps, pps_of, pps_fields, write_pps-fields, read_pps-fields,
}
use venus_vaapi_driver.H264Annexb.Pps

-- A NAL unit with these fields is appended whole, or there is no room for it in the output.
append_rbsp-fields :
    (nal_header : ℕ) (fields : List Field)
    → All IsCoded fields
    → length fields ≤ 30
    → (nal : List ℕ) × ((output : ByteWriter)
        → append_rbsp output nal_header (finish_rbsp (write_fields rbsp_writer fields))
          ≡ append_bytes output (start_code ++ nal_header ∷ nal))
      × (unpack (unescape 0 nal) ≡ fields_then fields (trailing_bits (length (fields_bits fields))))
unfolding append_rbsp
append_rbsp-fields nal_header fields coded few =
    let w = finish_rbsp (write_fields rbsp_writer fields) in
    let (good, bits) = finish_rbsp-fields fields coded few in
    let rbsp = take (BitWriter.size w) w.buffer in
    (
      escape 0 rbsp,
      λ output. rw good (append_escaped_nal-escape output nal_header rbsp),
      ap unpack (unescape-escape 0 rbsp) ∙ bits,
    )

sps_fields-IsCoded :
    (profile : ℕ) (picture : PictureH264)
    → Sps.IsTyped picture
    → All IsCoded (sps_fields profile picture) × (length (sps_fields profile picture) ≤ 30)
sps_fields-IsCoded profile picture t = elim (Bool-cases (profile == 100)) [
  | inl high ↦ elim (Bool-cases (picture.pic_order_cnt_type == 0)) [
    | inl lsb ↦ rw (high, lsb) (omega arith)
    | inr other ↦ rw (high, other) (omega arith)
  ]
  | inr main ↦ elim (Bool-cases (picture.pic_order_cnt_type == 0)) [
    | inl lsb ↦ rw (main, lsb) (omega arith)
    | inr other ↦ rw (main, other) (omega arith)
  ]
]

pps_fields-IsCoded :
    (picture : PictureH264) (slice : SliceH264)
    → Pps.IsTyped picture slice
    → All IsCoded (pps_fields picture slice) × (length (pps_fields picture slice) ≤ 30)
pps_fields-IsCoded picture slice t = elim (Bool-cases (has_extension picture)) [
  | inl extended ↦ rw extended (omega arith)
  | inr plain ↦ rw plain (omega arith)
]

profile_idc_small :
    (profile : Profile) (value : ℕ)
    → profile_idc profile ≡ ok value
    → (value < 2 ^ 8) × (constraint_flags value < 2 ^ 8)
unfolding profile_idc constraint_flags
profile_idc_small profile value h = ground arith

-- For a supported picture, append_sps appends one NAL unit behind a start code, or answers that
-- the output has no room. A decoder that undoes the escaping and reads the H.264 syntax gets back
-- the picture's fields, with the profile's number and flags.
pub append_sps-read :
    (profile : Profile) (picture : PictureH264) (value : ℕ)
    → profile_idc profile ≡ ok value
    → sps_unsupported picture ≡ false
    → picture.pic_order_cnt_type ≢ 1
    → Sps.IsTyped picture
    → (nal : List ℕ) × (n : ℕ) × ((output : ByteWriter)
        → append_sps output profile picture ≡ append_bytes output (start_code ++ 0x67 ∷ nal))
      × (read_sps (unpack (unescape 0 nal)) ≡ some (sps_of value picture, trailing_bits n))
unfolding append_sps
append_sps-read profile picture value known supported order t =
    let fields = sps_fields value picture in
    let (coded, few) = sps_fields-IsCoded value picture t in
    let (nal, appended, bits) = append_rbsp-fields 0x67 fields coded few in
    let (small, flags) = profile_idc_small profile value known in
    let n = length (fields_bits fields) in
    (
      nal,
      n,
      λ output.
          rw
            (
              known,
              supported,
              let e : (picture.pic_order_cnt_type == 1) ≡ false = ground arith in e,
              write_sps-fields value picture rbsp_writer,
            )
            (appended output),
      rw bits (read_sps-fields value picture (trailing_bits n) small flags t),
    )

-- append_pps appends one NAL unit behind a start code, or answers that the output has no room. A
-- decoder that undoes the escaping and reads the H.264 syntax gets back the fields of the picture
-- and of the first slice, whether or not the set carries its extension.
pub append_pps-read :
    (picture : PictureH264) (slice : SliceH264)
    → Pps.IsTyped picture slice
    → (nal : List ℕ) × (n : ℕ) × ((output : ByteWriter)
        → append_pps output picture slice ≡ append_bytes output (start_code ++ 0x68 ∷ nal))
      × (read_pps (unpack (unescape 0 nal)) ≡ some (pps_of picture slice, trailing_bits n))
unfolding append_pps
append_pps-read picture slice t =
    let fields = pps_fields picture slice in
    let (coded, few) = pps_fields-IsCoded picture slice t in
    let (nal, appended, bits) = append_rbsp-fields 0x68 fields coded few in
    let n = length (fields_bits fields) in
    (
      nal,
      n,
      λ output. rw (write_pps-fields picture slice rbsp_writer) (appended output),
      rw bits (read_pps-fields picture slice n t),
    )
