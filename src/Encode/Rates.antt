-- ===== src/Encode/Rates.antt =====
-- src/encode.c: the rates, the dimensions and the quality of a stream.
use venus_vaapi_driver.Common.{
  ℕ, ◌+◌, ◌-◌, ◌*◌, ◌/◌, ◌%◌, ◌^◌, Bool, true, false, not, ◌&&◌, ◌||◌, Option, none, some, List, [],
  ◌∷◌, ltb, leb, ◌==◌, if◌then◌else◌,
}
use venus_vaapi_driver.Common.Int.{ℤ, sub_ℕ, ltb_ℤ}
use venus_vaapi_driver.Common.Results.{Result, ok, err, einval, enotsup, eoverflow}
use venus_vaapi_driver.VaTypes.{Profile, h264_constrained_baseline, h264_main, h264_high}
use venus_vaapi_driver.Backend.Profiles.{max_width, max_height}

abbrev pub min_width : ℕ
min_width = 48

abbrev pub min_height : ℕ
min_height = 32

abbrev pub h264_max_macroblocks : ℕ
h264_max_macroblocks = 36864

abbrev pub default_bitrate : ℕ
default_bitrate = 1000000

abbrev pub max_bitrate : ℕ
max_bitrate = 160000000

abbrev pub at_least_one : ℕ → ℕ
at_least_one denominator = if denominator == 0 then 1 else denominator

abbrev pub rounded_rate : ℕ → ℕ → ℕ
rounded_rate numerator denominator = (numerator + denominator / 2) / denominator

-- The numerator stands in the low half of the word, the denominator in the high half.
unfoldable pub parse_frame_rate : ℕ → Result ℕ
parse_frame_rate value =
    let rounded = rounded_rate (value % 2 ^ 16) (at_least_one (value / 2 ^ 16)) in
    if value % 2 ^ 16 == 0
    then err einval
    else if rounded == 0 || ltb 240 rounded
    then err einval
    else ok rounded

-- `VAEncSequenceParameterBufferH264`, the fields that the driver reads.
pub record SequenceH264 : Type 0 where
  pub level_idc : ℕ
  pub picture_width_in_mbs : ℕ
  pub picture_height_in_mbs : ℕ
  pub chroma_format_idc : ℕ
  pub frame_mbs_only_flag : Bool
  pub bit_depth_luma_minus8 : ℕ
  pub bit_depth_chroma_minus8 : ℕ
  pub frame_cropping_flag : Bool
  pub frame_crop_left_offset : ℕ
  pub frame_crop_right_offset : ℕ
  pub frame_crop_top_offset : ℕ
  pub frame_crop_bottom_offset : ℕ

abbrev pub crop_width : SequenceH264 → ℕ
crop_width sequence =
    if sequence.frame_cropping_flag
    then (sequence.frame_crop_left_offset + sequence.frame_crop_right_offset) * 2
    else 0

abbrev pub crop_height : SequenceH264 → ℕ
crop_height sequence =
    if sequence.frame_cropping_flag
    then (sequence.frame_crop_top_offset + sequence.frame_crop_bottom_offset) * 2
    else 0

abbrev pub in_limits : ℕ → ℕ → Bool
in_limits width height = not (
    ltb width min_width
    || ltb height min_height
    || ltb max_width width
    || ltb max_height height
    || not (width % 2 == 0)
    || not (height % 2 == 0))

-- `venus_encode_h264_dimensions`. The fields have 16 bits, the cropping offsets 32, so that no
-- product or sum wraps in the types that the source gives them.
unfoldable pub h264_dimensions : SequenceH264 → Result (ℕ × ℕ)
h264_dimensions sequence =
    if sequence.picture_width_in_mbs == 0 || sequence.picture_height_in_mbs == 0
    then err einval
    else if not (sequence.chroma_format_idc == 1)
        || not sequence.frame_mbs_only_flag
        || not (sequence.bit_depth_luma_minus8 == 0)
        || not (sequence.bit_depth_chroma_minus8 == 0)
    then err enotsup
    else if ltb h264_max_macroblocks
        (sequence.picture_width_in_mbs * sequence.picture_height_in_mbs)
    then err einval
    else if sequence.frame_cropping_flag
        && (leb (sequence.picture_width_in_mbs * 16) (crop_width sequence)
            || leb (sequence.picture_height_in_mbs * 16) (crop_height sequence))
    then err einval
    else if not (
        in_limits (sequence.picture_width_in_mbs * 16 - crop_width sequence)
          (sequence.picture_height_in_mbs * 16 - crop_height sequence))
    then err einval
    else ok (
      sequence.picture_width_in_mbs * 16 - crop_width sequence,
      sequence.picture_height_in_mbs * 16 - crop_height sequence,
    )

-- Rounded up to whole macroblocks.
abbrev pub aligned : ℕ → ℕ
aligned size = (size + 15) / 16 * 16

abbrev pub scanned : Option (ℕ × ℕ) → ℕ → ℕ → ℕ → ℕ → Result (ℕ × ℕ × Bool)
scanned none context_width context_height width height = err einval
scanned (some (native_width, native_height)) context_width context_height width height =
    if not (in_limits native_width native_height)
    then err einval
    else if aligned native_width == context_width && aligned native_height == context_height
    then ok (native_width, native_height, true)
    else if aligned native_height == context_width && aligned native_width == context_height
    then ok (native_height, native_width, true)
    else ok (width, height, false)

-- `venus_encode_apply_native_mode`. `scan` gives the two numbers that `sscanf` reads from the mode
-- when it reads exactly them; `none` stands for no mode. The answer is the dimensions to encode,
-- and whether they were replaced.
unfoldable pub apply_native_mode :
    (scan : List ℕ → Option (ℕ × ℕ)) → Option (List ℕ) → ℕ → ℕ → ℕ → ℕ → Result (ℕ × ℕ × Bool)
apply_native_mode scan none context_width context_height width height = ok (width, height, false)
apply_native_mode scan (some []) context_width context_height width height =
    ok (width, height, false)
apply_native_mode scan (some (c ∷ mode)) context_width context_height width height =
    scanned (scan (c ∷ mode)) context_width context_height width height

abbrev pub uint64_max : ℕ
uint64_max = 2 ^ 64 - 1

abbrev pub clamped : ℕ → ℕ
clamped suggested =
    if ltb max_bitrate (if ltb suggested default_bitrate then default_bitrate else suggested)
    then max_bitrate
    else if ltb suggested default_bitrate
    then default_bitrate
    else suggested

-- `venus_encode_cqp_bitrate`
unfoldable pub cqp_bitrate : ℕ → ℕ → ℕ → ℕ → Result ℕ
cqp_bitrate width height frames_per_second qp =
    if width == 0 || height == 0 || frames_per_second == 0 || ltb qp 1 || ltb 51 qp
    then err einval
    else if ltb (uint64_max / height) width
    then err eoverflow
    else if ltb (uint64_max / frames_per_second) (width * height)
    then err eoverflow
    else if ltb (uint64_max / (52 - qp)) (width * height * frames_per_second)
    then err eoverflow
    else ok (clamped (width * height * frames_per_second * (52 - qp) / 90))

abbrev pub quality_steps : ℕ → ℕ → ℕ
quality_steps bitrate pixel_rate =
    if ltb 14 (bitrate * 16 / pixel_rate) then 14 else bitrate * 16 / pixel_rate

-- `quality_qp_from_bitrate`. The pixel rate of what the driver encodes is far below `2 ^ 64`.
unfoldable pub quality_qp_from_bitrate : ℕ → ℕ → ℕ → ℕ → ℤ → ℤ
quality_qp_from_bitrate width height frames_per_second bitrate client_qp =
    let pixel_rate = width * height * frames_per_second in
    let budget_qp = sub_ℕ 32 (quality_steps bitrate pixel_rate) in
    if pixel_rate == 0 || bitrate == 0
    then client_qp
    else if ltb_ℤ client_qp budget_qp
    then client_qp
    else budget_qp

-- The `V4L2_MPEG_VIDEO_H264_PROFILE_` values, and the levels, by what they stand for.
pub data V4l2Profile : Type 0 where
  v4l2_constrained_baseline v4l2_main v4l2_high : V4l2Profile

unfoldable pub profile_to_v4l2 : Profile → Option V4l2Profile
profile_to_v4l2 h264_constrained_baseline = some v4l2_constrained_baseline
profile_to_v4l2 h264_main = some v4l2_main
profile_to_v4l2 h264_high = some v4l2_high
profile_to_v4l2 _ = none

pub data V4l2Level : Type 0 where
  level_1b level_1_0 level_1_1 level_1_2 level_1_3 level_2_0 level_2_1 level_2_2 : V4l2Level
  level_3_0 level_3_1 level_3_2 level_4_0 level_4_1 level_4_2 level_5_0 level_5_1 : V4l2Level
  level_5_2 : V4l2Level

abbrev level_table : List (ℕ × V4l2Level)
level_table =
    (9, level_1b)
    ∷ (10, level_1_0)
    ∷ (11, level_1_1)
    ∷ (12, level_1_2)
    ∷ (13, level_1_3)
    ∷ (20, level_2_0)
    ∷ (21, level_2_1)
    ∷ (22, level_2_2)
    ∷ (30, level_3_0)
    ∷ (31, level_3_1)
    ∷ (32, level_3_2)
    ∷ (40, level_4_0)
    ∷ (41, level_4_1)
    ∷ (42, level_4_2)
    ∷ (50, level_5_0)
    ∷ (51, level_5_1)
    ∷ (52, level_5_2)
    ∷ []

abbrev look_up : List (ℕ × V4l2Level) → ℕ → Option V4l2Level
look_up [] level_idc = none
look_up ((code, level) ∷ table) level_idc =
    let rest = look_up table level_idc in if code == level_idc then some level else rest

unfoldable pub level_to_v4l2 : ℕ → Option V4l2Level
level_to_v4l2 level_idc = look_up level_table level_idc
