-- ===== src/H264Annexb/Refusal.antt =====
-- The pictures that src/h264_annexb.c has no parameter sets for.
use venus_vaapi_driver.Common.{◌≡◌, ◌≢◌}
use venus_vaapi_driver.VaTypes.{PictureH264}

-- A picture of more than 8 bits, not 4:2:0, with fields, with slice groups, or whose order count
-- has the type 1.
pub data IsUnsupported (picture : PictureH264) : Type 0 where
  deep_luma : picture.bit_depth_luma_minus8 ≢ 0 → IsUnsupported picture
  deep_chroma : picture.bit_depth_chroma_minus8 ≢ 0 → IsUnsupported picture
  other_chroma : picture.chroma_format_idc ≢ 1 → IsUnsupported picture
  has_fields : picture.frame_mbs_only_flag ≡ 0 → IsUnsupported picture
  has_groups : picture.num_slice_groups_minus1 ≢ 0 → IsUnsupported picture
  cyclic_order : picture.pic_order_cnt_type ≡ 1 → IsUnsupported picture
