-- ===== src/H264Annexb/Tests.antt =====
-- Runs of src/h264_annexb.c, and its theorems at concrete inputs.
use venus_vaapi_driver.Common.{ℕ, ◌≤◌, ◌≡◌, refl, false, some, List, [], ◌∷◌, ◌++◌, arith}
use venus_vaapi_driver.Common.Int.{pos, negsuc}
use venus_vaapi_driver.Common.Results.{Errno, ok, err}
use venus_vaapi_driver.VaTypes.{h264_high, PictureH264, SliceH264}
use venus_vaapi_driver.BitWriter.Refines.{trailing_bits}
use venus_vaapi_driver.BitWriter.Rbsp.{unpack}
use venus_vaapi_driver.H264Annexb.{
  ByteWriter, append_bytes, start_code, append_start_code, append_escaped, append_escaped_nal,
}
use venus_vaapi_driver.H264Annexb.Escape.{
  escape, unescape, append_escaped_nal-escape, append_escaped_nal-safe,
}
use venus_vaapi_driver.H264Annexb.Headers.{profile_idc, sps_unsupported, append_sps, append_pps}
use venus_vaapi_driver.H264Annexb.Sps.{read_sps, sps_of}
use venus_vaapi_driver.H264Annexb.Pps.{read_pps, pps_of}
use venus_vaapi_driver.H264Annexb.ParameterSets.{append_sps-read, append_pps-read}
use venus_vaapi_driver.H264Annexb.AccessUnit.{
  SliceBatch, slice_invalid, has_start_code, append_slice, append_batch, append_checked,
  append_slices, build_access_unit,
}
use venus_vaapi_driver.H264Annexb.Framing.{
  begins_with, LiesIn, batch, AreFramed, none_left, one_more, framed_batch, append_slices-framed,
  append_slices_ok,
}
use venus_vaapi_driver.H264Annexb.Bounds.{build_access_unit_bounds}
use venus_vaapi_driver.H264Annexb.Whole.{unit_bytes, stored, build_access_unit-read}

-- A frame of 1920 x 1088 with the 8x8 transform on.
abbrev picture : PictureH264
picture = record {
  picture_width_in_mbs_minus1 = 119;
  picture_height_in_mbs_minus1 = 67;
  bit_depth_luma_minus8 = 0;
  bit_depth_chroma_minus8 = 0;
  num_ref_frames = 4;
  num_slice_groups_minus1 = 0;
  chroma_format_idc = 1;
  gaps_in_frame_num_value_allowed_flag = 0;
  frame_mbs_only_flag = 1;
  direct_8x8_inference_flag = 1;
  log2_max_frame_num_minus4 = 0;
  pic_order_cnt_type = 0;
  log2_max_pic_order_cnt_lsb_minus4 = 2;
  pic_init_qp_minus26 = negsuc 2;
  pic_init_qs_minus26 = pos 0;
  chroma_qp_index_offset = negsuc 1;
  second_chroma_qp_index_offset = negsuc 1;
  entropy_coding_mode_flag = 1;
  weighted_pred_flag = 0;
  weighted_bipred_idc = 2;
  transform_8x8_mode_flag = 1;
  constrained_intra_pred_flag = 0;
  pic_order_present_flag = 0;
  deblocking_filter_control_present_flag = 1;
  redundant_pic_cnt_present_flag = 0;
}

abbrev interlaced : PictureH264
interlaced = record picture { frame_mbs_only_flag = 0 }

abbrev slice : SliceH264
slice = record {
  slice_data_size = 3;
  slice_data_offset = 1;
  slice_data_flag = 0;
  num_ref_idx_l0_active_minus1 = 1;
  num_ref_idx_l1_active_minus1 = 0;
}

abbrev payload : List ℕ
payload = 9 ∷ 0x65 ∷ 0x88 ∷ 0x84 ∷ []

abbrev batches : List SliceBatch
batches = record { parameters = some (slice ∷ []); payload = some payload } ∷ []

abbrev output : ByteWriter
output = record { written = 7 ∷ []; capacity = 64 }

escape_run :
    append_escaped_nal output 0x67 (0 ∷ 0 ∷ 1 ∷ 0 ∷ 0 ∷ 0 ∷ 9 ∷ [])
    ≡ ok (record {
      written = 7 ∷ 0 ∷ 0 ∷ 0 ∷ 1 ∷ 0x67 ∷ 0 ∷ 0 ∷ 3 ∷ 1 ∷ 0 ∷ 0 ∷ 3 ∷ 0 ∷ 9 ∷ [];
      capacity = 64;
    })
unfolding append_escaped_nal append_start_code append_escaped append_bytes
escape_run = refl

slices_run :
    append_slices output batches
    ≡ ok (record { written = 7 ∷ 0 ∷ 0 ∷ 0 ∷ 1 ∷ 0x65 ∷ 0x88 ∷ 0x84 ∷ []; capacity = 64 })
unfolding append_slices append_checked append_batch append_slice slice_invalid has_start_code
    append_start_code append_bytes
slices_run = refl

known : profile_idc h264_high ≡ ok 100
unfolding profile_idc
known = refl

supported : sps_unsupported picture ≡ false
unfolding sps_unsupported
supported = refl

valid : LiesIn 4 slice
valid = (refl, omega arith, omega arith)

framing : AreFramed batches (framed_batch payload (slice ∷ []) ++ [])
framing = one_more (batch slice [] payload (valid, tt)) none_left

append_escaped_nal-escape_example :
    append_escaped_nal output 0x67 (0 ∷ 0 ∷ 1 ∷ [])
    ≡ append_bytes output (start_code ++ 0x67 ∷ escape 0 (0 ∷ 0 ∷ 1 ∷ []))
append_escaped_nal-escape_example = append_escaped_nal-escape output 0x67 (0 ∷ 0 ∷ 1 ∷ [])

append_escaped_nal-safe_example :
    (nal : List ℕ) × (7 ∷ 0 ∷ 0 ∷ 0 ∷ 1 ∷ 0x67 ∷ 0 ∷ 0 ∷ 3 ∷ 1 ∷ 0 ∷ 0 ∷ 3 ∷ 0 ∷ 9 ∷ []
      ≡ 7 ∷ 0 ∷ 0 ∷ 0 ∷ 1 ∷ 0x67 ∷ nal)
    × (unescape 0 nal ≡ 0 ∷ 0 ∷ 1 ∷ 0 ∷ 0 ∷ 0 ∷ 9 ∷ [])
    × ((front back : List ℕ) (x : ℕ) → nal ≡ front ++ 0 ∷ 0 ∷ x ∷ back → 3 ≤ x)
append_escaped_nal-safe_example =
    append_escaped_nal-safe output 0x67 (0 ∷ 0 ∷ 1 ∷ 0 ∷ 0 ∷ 0 ∷ 9 ∷ []) escape_run

append_sps-read_example :
    (nal : List ℕ) × (n : ℕ) × ((w : ByteWriter)
      → append_sps w h264_high picture ≡ append_bytes w (start_code ++ 0x67 ∷ nal))
    × (read_sps (unpack (unescape 0 nal)) ≡ some (sps_of 100 picture, trailing_bits n))
append_sps-read_example =
    append_sps-read h264_high picture 100 known supported (omega arith) (omega arith)

append_pps-read_example :
    (nal : List ℕ) × (n : ℕ) × ((w : ByteWriter)
      → append_pps w picture slice ≡ append_bytes w (start_code ++ 0x68 ∷ nal))
    × (read_pps (unpack (unescape 0 nal)) ≡ some (pps_of picture slice, trailing_bits n))
append_pps-read_example = append_pps-read picture slice (omega arith)

append_slices-framed_example :
    append_slices output batches ≡ append_bytes output (0 ∷ 0 ∷ 0 ∷ 1 ∷ 0x65 ∷ 0x88 ∷ 0x84 ∷ [])
unfolding begins_with
append_slices-framed_example = append_slices-framed output framing

append_slices_ok_example : (bytes : List ℕ) × AreFramed batches bytes
append_slices_ok_example = append_slices_ok output batches slices_run

build_access_unit_bounds_example :
    let built = build_access_unit h264_high (some picture) batches (some 16) 5 in
    (built.output_size ≤ 16) × ((e : Errno) → built.status ≡ err e → built.output_size ≡ 0)
build_access_unit_bounds_example =
    build_access_unit_bounds h264_high picture batches 16 5 slice (omega arith) refl

build_access_unit-read_example :
    (sps : List ℕ) × (pps : List ℕ) × (n : ℕ) × (m : ℕ) × (build_access_unit h264_high
        (some picture)
        batches
        (some 4096)
        5
      ≡ stored 4096 (unit_bytes sps pps (framed_batch payload (slice ∷ []) ++ [])))
    × (read_sps (unpack (unescape 0 sps)) ≡ some (sps_of 100 picture, trailing_bits n))
    × (read_pps (unpack (unescape 0 pps)) ≡ some (pps_of picture slice, trailing_bits m))
build_access_unit-read_example =
    build_access_unit-read h264_high picture slice 100 4096 5 known supported (omega arith)
      (omega arith) (omega arith) (omega arith) refl framing
