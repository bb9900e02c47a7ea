-- ===== src/H264Annexb/Sps.antt =====
-- The sequence parameter set of src/h264_annexb.c against a reader of the H.264 syntax (7.3.2.1.1).
use venus_vaapi_driver.Common.{
  ℕ, ◌^◌, ◌<◌, ◌≡◌, refl, Bool, Option, none, some, List, [], ◌∷◌, arith, ◌==◌, if◌then◌else◌,
  Bool-cases, inl, inr,
}
use venus_vaapi_driver.VaTypes.{PictureH264}
use venus_vaapi_driver.BitWriter.{BitWriter}
use venus_vaapi_driver.BitWriter.Golomb.{Reader, ◌>>=◌, read_u, read_ue, then_read, then_u, then_ue}
use venus_vaapi_driver.BitWriter.Fields.{Field, u, ue, write_fields, fields_then}
use venus_vaapi_driver.H264Annexb.Headers.{write_sps, constraint_flags}

-- The fields that only some profiles have.
pub record HighSps : Type 0 where
  pub chroma_format_idc : ℕ
  pub bit_depth_luma_minus8 : ℕ
  pub bit_depth_chroma_minus8 : ℕ
  pub qpprime_y_zero_transform_bypass_flag : ℕ
  pub seq_scaling_matrix_present_flag : ℕ

pub record Sps : Type 0 where
  pub profile_idc : ℕ
  pub constraint_set_flags : ℕ
  pub level_idc : ℕ
  pub seq_parameter_set_id : ℕ
  pub high : Option HighSps
  pub log2_max_frame_num_minus4 : ℕ
  pub pic_order_cnt_type : ℕ
  pub log2_max_pic_order_cnt_lsb_minus4 : Option ℕ
  pub max_num_ref_frames : ℕ
  pub gaps_in_frame_num_value_allowed_flag : ℕ
  pub pic_width_in_mbs_minus1 : ℕ
  pub pic_height_in_map_units_minus1 : ℕ
  pub frame_mbs_only_flag : ℕ
  pub direct_8x8_inference_flag : ℕ
  pub frame_cropping_flag : ℕ
  pub vui_parameters_present_flag : ℕ

abbrev pub pure : {A : Type 0} → A → Reader A
pure a bits = some (a, bits)

-- The syntax wants more fields for a profile that is not Baseline, Main or Extended. Only High is
-- read here, and a cropping window, VUI parameters and scaling lists are not.
read_high : ℕ → Reader (Option HighSps)
read_high profile =
    if profile == 100
    then (read_ue >>= λ chroma. read_ue >>= λ luma. read_ue >>= λ depth. read_u 1 >>= λ bypass.
        read_u 1 >>= λ scaling. pure (
          some (record {
            chroma_format_idc = chroma;
            bit_depth_luma_minus8 = luma;
            bit_depth_chroma_minus8 = depth;
            qpprime_y_zero_transform_bypass_flag = bypass;
            seq_scaling_matrix_present_flag = scaling;
          })))
    else pure none

read_order_count : ℕ → Reader (Option ℕ)
read_order_count poc_type =
    if poc_type == 0 then (read_ue >>= λ lsb. pure (some lsb)) else pure none

unfoldable pub read_sps : Reader Sps
unfolding read_high read_order_count
read_sps = read_u 8 >>= λ profile. read_u 8 >>= λ flags. read_u 8 >>= λ level. read_ue >>= λ id.
    read_high profile >>= λ high. read_ue >>= λ frame_num. read_ue >>= λ poc_type.
    read_order_count poc_type >>= λ lsb. read_ue >>= λ refs. read_u 1 >>= λ gaps.
    read_ue >>= λ width. read_ue >>= λ height. read_u 1 >>= λ mbs_only. read_u 1 >>= λ direct.
    read_u 1 >>= λ cropping. read_u 1 >>= λ vui. pure (record {
      profile_idc = profile;
      constraint_set_flags = flags;
      level_idc = level;
      seq_parameter_set_id = id;
      high = high;
      log2_max_frame_num_minus4 = frame_num;
      pic_order_cnt_type = poc_type;
      log2_max_pic_order_cnt_lsb_minus4 = lsb;
      max_num_ref_frames = refs;
      gaps_in_frame_num_value_allowed_flag = gaps;
      pic_width_in_mbs_minus1 = width;
      pic_height_in_map_units_minus1 = height;
      frame_mbs_only_flag = mbs_only;
      direct_8x8_inference_flag = direct;
      frame_cropping_flag = cropping;
      vui_parameters_present_flag = vui;
    })

-- The numbers of the picture fit the C types that hold them.
pub record IsTyped (picture : PictureH264) : Type 0 where
  pub chroma : picture.chroma_format_idc < 2 ^ 32
  pub luma : picture.bit_depth_luma_minus8 < 2 ^ 32
  pub depth : picture.bit_depth_chroma_minus8 < 2 ^ 32
  pub frame_num : picture.log2_max_frame_num_minus4 < 2 ^ 32
  pub poc_type : picture.pic_order_cnt_type < 2 ^ 32
  pub lsb : picture.log2_max_pic_order_cnt_lsb_minus4 < 2 ^ 32
  pub refs : picture.num_ref_frames < 2 ^ 32
  pub gaps : picture.gaps_in_frame_num_value_allowed_flag < 2
  pub width : picture.picture_width_in_mbs_minus1 < 2 ^ 32
  pub height : picture.picture_height_in_mbs_minus1 < 2 ^ 32
  pub direct : picture.direct_8x8_inference_flag < 2

abbrev high_of : ℕ → PictureH264 → Option HighSps
high_of profile picture =
    if profile == 100
    then some (record {
      chroma_format_idc = picture.chroma_format_idc;
      bit_depth_luma_minus8 = picture.bit_depth_luma_minus8;
      bit_depth_chroma_minus8 = picture.bit_depth_chroma_minus8;
      qpprime_y_zero_transform_bypass_flag = 0;
      seq_scaling_matrix_present_flag = 0;
    })
    else none

abbrev lsb_of : PictureH264 → Option ℕ
lsb_of picture =
    if picture.pic_order_cnt_type == 0 then some picture.log2_max_pic_order_cnt_lsb_minus4 else none

-- What the set says of a picture.
abbrev pub sps_of : ℕ → PictureH264 → Sps
sps_of profile picture = record {
  profile_idc = profile;
  constraint_set_flags = constraint_flags profile;
  level_idc = 41;
  seq_parameter_set_id = 0;
  high = high_of profile picture;
  log2_max_frame_num_minus4 = picture.log2_max_frame_num_minus4;
  pic_order_cnt_type = picture.pic_order_cnt_type;
  log2_max_pic_order_cnt_lsb_minus4 = lsb_of picture;
  max_num_ref_frames = picture.num_ref_frames;
  gaps_in_frame_num_value_allowed_flag = picture.gaps_in_frame_num_value_allowed_flag;
  pic_width_in_mbs_minus1 = picture.picture_width_in_mbs_minus1;
  pic_height_in_map_units_minus1 = picture.picture_height_in_mbs_minus1;
  frame_mbs_only_flag = 1;
  direct_8x8_inference_flag = picture.direct_8x8_inference_flag;
  frame_cropping_flag = 0;
  vui_parameters_present_flag = 0;
}

-- The fields behind the order count, and those before them.
abbrev size_fields : PictureH264 → List Field
size_fields picture =
    ue picture.num_ref_frames
    ∷ u picture.gaps_in_frame_num_value_allowed_flag 1
    ∷ ue picture.picture_width_in_mbs_minus1
    ∷ ue picture.picture_height_in_mbs_minus1
    ∷ u 1 1
    ∷ u picture.direct_8x8_inference_flag 1
    ∷ u 0 1
    ∷ u 0 1
    ∷ []

abbrev lsb_fields : PictureH264 → List Field → List Field
lsb_fields picture fields =
    if picture.pic_order_cnt_type == 0
    then ue picture.log2_max_pic_order_cnt_lsb_minus4 ∷ fields
    else fields

abbrev high_fields : ℕ → PictureH264 → List Field → List Field
high_fields profile picture fields =
    if profile == 100
    then ue picture.chroma_format_idc
      ∷ ue picture.bit_depth_luma_minus8
      ∷ ue picture.bit_depth_chroma_minus8
      ∷ u 0 1
      ∷ u 0 1
      ∷ fields
    else fields

abbrev order_fields : PictureH264 → List Field
order_fields picture =
    ue picture.log2_max_frame_num_minus4
    ∷ ue picture.pic_order_cnt_type
    ∷ lsb_fields picture (size_fields picture)

abbrev pub sps_fields : ℕ → PictureH264 → List Field
sps_fields profile picture =
    u profile 8
    ∷ u (constraint_flags profile) 8
    ∷ u 41 8
    ∷ ue 0
    ∷ high_fields profile picture (order_fields picture)

pub write_sps-fields :
    (profile : ℕ) (picture : PictureH264) (w : BitWriter)
    → write_sps profile picture w ≡ write_fields w (sps_fields profile picture)
unfolding write_sps
write_sps-fields profile picture w = elim (Bool-cases (profile == 100)) [
  | inl high ↦ elim (Bool-cases (picture.pic_order_cnt_type == 0)) [
    | inl lsb ↦ rw (high, lsb) refl
    | inr no_lsb ↦ rw (high, no_lsb) refl
  ]
  | inr main ↦ elim (Bool-cases (picture.pic_order_cnt_type == 0)) [
    | inl lsb ↦ rw (main, lsb) refl
    | inr no_lsb ↦ rw (main, no_lsb) refl
  ]
]

read_high-fields :
    (profile : ℕ) (picture : PictureH264) (fields : List Field) (more : List Bool)
    → IsTyped picture
    → read_high profile (fields_then (high_fields profile picture fields) more)
      ≡ some (high_of profile picture, fields_then fields more)
unfolding read_high
read_high-fields profile picture fields more t = elim (Bool-cases (profile == 100)) [
  | inl high ↦ rw high (
      then_ue picture.chroma_format_idc _ _ t.chroma (
        then_ue picture.bit_depth_luma_minus8 _ _ t.luma (
          then_ue picture.bit_depth_chroma_minus8 _ _ t.depth
            (then_u 0 1 _ _ (omega arith) (then_u 0 1 _ _ (omega arith) refl)))))
  | inr main ↦ rw main refl
]

read_order_count-fields :
    (picture : PictureH264) (fields : List Field) (more : List Bool)
    → IsTyped picture
    → read_order_count picture.pic_order_cnt_type (fields_then (lsb_fields picture fields) more)
      ≡ some (lsb_of picture, fields_then fields more)
unfolding read_order_count
read_order_count-fields picture fields more t =
    elim (Bool-cases (picture.pic_order_cnt_type == 0)) [
      | inl lsb ↦ rw lsb (then_ue picture.log2_max_pic_order_cnt_lsb_minus4 _ _ t.lsb refl)
      | inr other ↦ rw other refl
    ]

-- The reader gets back what the picture says, and leaves the bits behind the set.
pub read_sps-fields :
    (profile : ℕ) (picture : PictureH264) (more : List Bool)
    → profile < 2 ^ 8
    → constraint_flags profile < 2 ^ 8
    → IsTyped picture
    → read_sps (fields_then (sps_fields profile picture) more) ≡ some (sps_of profile picture, more)
unfolding read_sps
read_sps-fields profile picture more small flags t =
    let order = order_fields picture in
    let sizes = size_fields picture in
    then_u profile 8 _ _ small (
      then_u (constraint_flags profile) 8 _ _ flags (
        then_u 41 8 _ _ (omega arith) (
          then_ue 0 _ _ (omega arith) (
            then_read (read_high profile) _ _ (read_high-fields profile picture order more t) (
              then_ue picture.log2_max_frame_num_minus4 _ _ t.frame_num (
                then_ue picture.pic_order_cnt_type _ _ t.poc_type (
                  then_read (read_order_count picture.pic_order_cnt_type) _ _
                    (read_order_count-fields picture sizes more t)
                    (then_ue picture.num_ref_frames _ _ t.refs (
                      then_u picture.gaps_in_frame_num_value_allowed_flag 1 _ _ t.gaps (
                        then_ue picture.picture_width_in_mbs_minus1 _ _ t.width (
                          then_ue picture.picture_height_in_mbs_minus1 _ _ t.height (
                            then_u 1 1 _ _ (omega arith) (
                              then_u picture.direct_8x8_inference_flag 1 _ _ t.direct (
                                then_u 0 1 _ _ (omega arith)
                                  (then_u 0 1 _ _ (omega arith) refl)))))))))))))))
