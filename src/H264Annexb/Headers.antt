-- ===== src/H264Annexb/Headers.antt =====
-- src/h264_annexb.c: profile_idc, constraint_flags, picture_uses_fmo, append_sps and append_pps.
use venus_vaapi_driver.Common.{ℕ, some, Bool, not, ◌||◌, [], ◌==◌, take, if◌then◌else◌}
use venus_vaapi_driver.Common.Int.{eq_ℤ}
use venus_vaapi_driver.Common.Results.{
  Result, ok, err, einval, enotsup, enospc, ◌>>=◌, ◌>>◌, fail_if,
}
use venus_vaapi_driver.VaTypes.{
  Profile, h264_constrained_baseline, h264_main, h264_high, PictureH264, SliceH264,
}
use venus_vaapi_driver.BitWriter
use venus_vaapi_driver.BitWriter.{BitWriter, write, write_ue, write_se, finish_rbsp, is_ok}
use venus_vaapi_driver.H264Annexb.{ByteWriter, append_escaped_nal}

unfoldable pub profile_idc : Profile → Result ℕ
profile_idc h264_constrained_baseline = ok 66
profile_idc h264_main = ok 77
profile_idc h264_high = ok 100
profile_idc _ = err einval

unfoldable pub constraint_flags : ℕ → ℕ
constraint_flags profile = if profile == 66 then 0xc0 else (if profile == 77 then 0x40 else 0)

abbrev pub picture_uses_fmo : PictureH264 → Bool
picture_uses_fmo picture = not (picture.num_slice_groups_minus1 == 0)

-- The first test of `append_sps` on the picture.
unfoldable pub sps_unsupported : PictureH264 → Bool
sps_unsupported picture =
    not (picture.bit_depth_luma_minus8 == 0)
    || not (picture.bit_depth_chroma_minus8 == 0)
    || not (picture.chroma_format_idc == 1)
    || picture.frame_mbs_only_flag == 0
    || picture_uses_fmo picture

-- The writes of `append_sps` between `venus_bits_init` and `venus_bits_finish_rbsp`.
unfoldable pub write_sps : ℕ → PictureH264 → BitWriter → BitWriter
write_sps profile_value picture bits =
    let bits1 =
      write_ue (write (write (write bits profile_value 8) (constraint_flags profile_value) 8) 41 8)
        0 in
    let bits2 =
      (if profile_value == 100
        then write
            (write
              (write_ue
                (write_ue (write_ue bits1 picture.chroma_format_idc) picture.bit_depth_luma_minus8)
                picture.bit_depth_chroma_minus8)
              0 1)
            0 1
        else bits1) in
    let bits3 =
      write_ue (write_ue bits2 picture.log2_max_frame_num_minus4) picture.pic_order_cnt_type in
    let bits4 =
      (if picture.pic_order_cnt_type == 0
        then write_ue bits3 picture.log2_max_pic_order_cnt_lsb_minus4
        else bits3) in
    let bits5 = write_ue bits4 picture.num_ref_frames in
    let bits6 = write bits5 picture.gaps_in_frame_num_value_allowed_flag 1 in
    let bits7 = write_ue bits6 picture.picture_width_in_mbs_minus1 in
    let bits8 = write_ue bits7 picture.picture_height_in_mbs_minus1 in
    let bits9 = write bits8 1 1 in
    let bits10 = write bits9 picture.direct_8x8_inference_flag 1 in write (write bits10 0 1) 0 1

-- `uint8_t rbsp[256]`: what it holds first is not read, since `venus_bits_init` clears it.
abbrev pub rbsp_writer : BitWriter
rbsp_writer = BitWriter.init (some []) 256

-- The end of `append_sps` and of `append_pps`.
unfoldable pub append_rbsp : ByteWriter → ℕ → BitWriter → Result ByteWriter
append_rbsp output nal_header bits =
    if not (is_ok bits)
    then err enospc
    else append_escaped_nal output nal_header (take (BitWriter.size bits) bits.buffer)

unfoldable pub append_sps : ByteWriter → Profile → PictureH264 → Result ByteWriter
append_sps output profile picture = do
  profile_value ← profile_idc profile
  fail_if (sps_unsupported picture) enotsup
  fail_if (picture.pic_order_cnt_type == 1) enotsup
  append_rbsp output 0x67 (finish_rbsp (write_sps profile_value picture rbsp_writer))

abbrev pub has_extension : PictureH264 → Bool
has_extension picture =
    not (picture.transform_8x8_mode_flag == 0)
    || not (eq_ℤ picture.second_chroma_qp_index_offset picture.chroma_qp_index_offset)

-- The writes of `append_pps` between `venus_bits_init` and `venus_bits_finish_rbsp`.
unfoldable pub write_pps : PictureH264 → SliceH264 → BitWriter → BitWriter
write_pps picture first_slice bits =
    let bits1 = write_ue (write_ue bits 0) 0 in
    let bits2 = write bits1 picture.entropy_coding_mode_flag 1 in
    let bits3 = write_ue (write bits2 picture.pic_order_present_flag 1) 0 in
    let bits4 = write_ue bits3 first_slice.num_ref_idx_l0_active_minus1 in
    let bits5 = write_ue bits4 first_slice.num_ref_idx_l1_active_minus1 in
    let bits6 = write (write bits5 picture.weighted_pred_flag 1) picture.weighted_bipred_idc 2 in
    let bits7 = write_se (write_se bits6 picture.pic_init_qp_minus26) picture.pic_init_qs_minus26 in
    let bits8 = write_se bits7 picture.chroma_qp_index_offset in
    let bits9 = write bits8 picture.deblocking_filter_control_present_flag 1 in
    let bits10 = write bits9 picture.constrained_intra_pred_flag 1 in
    let bits11 = write bits10 picture.redundant_pic_cnt_present_flag 1 in
    if has_extension picture
    then write_se (write (write bits11 picture.transform_8x8_mode_flag 1) 0 1)
        picture.second_chroma_qp_index_offset
    else bits11

unfoldable pub append_pps : ByteWriter → PictureH264 → SliceH264 → Result ByteWriter
append_pps output picture first_slice =
    append_rbsp output 0x68 (finish_rbsp (write_pps picture first_slice rbsp_writer))
