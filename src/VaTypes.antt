-- ===== src/VaTypes.antt =====
-- The types of libva's headers that the driver reads, with the fields and enumerators that it uses.
use venus_vaapi_driver.Common.{ℕ, ◌≡◌, refl, ap, Bool, true, false, if◌then◌else◌, ◌==◌}
use venus_vaapi_driver.Common.Int.{ℤ}

-- `VAProfile`. `other_profile` stands for each enumerator that the driver does not name.
pub data Profile : Type 0 where
  h264_constrained_baseline h264_main h264_high hevc_main hevc_main10 : Profile
  vp8_version0_3 vp9_profile0 other_profile : Profile

-- `VAEntrypoint`
pub data Entrypoint : Type 0 where
  vld enc_slice other_entrypoint : Entrypoint

-- `VAPictureParameterBufferH264`. Flags and bit fields are numbers.
pub record PictureH264 : Type 0 where
  pub picture_width_in_mbs_minus1 : ℕ
  pub picture_height_in_mbs_minus1 : ℕ
  pub bit_depth_luma_minus8 : ℕ
  pub bit_depth_chroma_minus8 : ℕ
  pub num_ref_frames : ℕ
  pub num_slice_groups_minus1 : ℕ
  pub chroma_format_idc : ℕ
  pub gaps_in_frame_num_value_allowed_flag : ℕ
  pub frame_mbs_only_flag : ℕ
  pub direct_8x8_inference_flag : ℕ
  pub log2_max_frame_num_minus4 : ℕ
  pub pic_order_cnt_type : ℕ
  pub log2_max_pic_order_cnt_lsb_minus4 : ℕ
  pub pic_init_qp_minus26 : ℤ
  pub pic_init_qs_minus26 : ℤ
  pub chroma_qp_index_offset : ℤ
  pub second_chroma_qp_index_offset : ℤ
  pub entropy_coding_mode_flag : ℕ
  pub weighted_pred_flag : ℕ
  pub weighted_bipred_idc : ℕ
  pub transform_8x8_mode_flag : ℕ
  pub constrained_intra_pred_flag : ℕ
  pub pic_order_present_flag : ℕ
  pub deblocking_filter_control_present_flag : ℕ
  pub redundant_pic_cnt_present_flag : ℕ

-- `VASliceParameterBufferH264`.
pub record SliceH264 : Type 0 where
  pub slice_data_size : ℕ
  pub slice_data_offset : ℕ
  pub slice_data_flag : ℕ
  pub num_ref_idx_l0_active_minus1 : ℕ
  pub num_ref_idx_l1_active_minus1 : ℕ

-- `VABufferType`, the enumerators that the driver names.
pub data BufferType : Type 0 where
  picture_parameter iq_matrix q_matrix slice_parameter slice_payload probability : BufferType
  enc_sequence_parameter enc_picture_parameter enc_slice_parameter enc_coded : BufferType
  enc_packed_header_parameter enc_packed_header_payload enc_misc_parameter : BufferType
  image_payload : BufferType
  other_buffer : BufferType

-- The pixel formats of surfaces and images.
pub data Fourcc : Type 0 where
  nv12 p010 other_fourcc : Fourcc

abbrev pub invalid_id : ℕ
invalid_id = 0xffff_ffff

-- `VAStatus`, the values that the driver returns.
pub data Status : Type 0 where
  success allocation_failed not_enough_buffer hw_busy unimplemented invalid_parameter : Status
  decoding_error encoding_error invalid_context invalid_config invalid_surface invalid_buffer :
      Status
  unsupported_profile unsupported_entrypoint unsupported_rt_format attr_not_supported : Status
  max_num_exceeded operation_failed surface_busy resolution_not_supported : Status
  invalid_image invalid_image_format unsupported_memory_type : Status

-- A VA entry point that answers `VA_STATUS_SUCCESS` with what it writes, or a failure.
pub data VaResult {ℓ} (A : Type ℓ) : Type ℓ where
  va_ok : A → VaResult A
  va_err : Status → VaResult A

infixl 5 ◌>>?◌
abbrev pub ◌>>?◌ {ℓ κ} : {A : Type ℓ} {B : Type κ} → VaResult A → (A → VaResult B) → VaResult B
va_ok a >>? f = f a
va_err s >>? f = va_err s

abbrev value_or {ℓ} : {A : Type ℓ} → A → VaResult A → A
value_or default (va_ok a) = a
value_or default (va_err s) = default

pub va_ok-injective {ℓ} : {A : Type ℓ} {a b : A} → va_ok a ≡ va_ok b → a ≡ b
va_ok-injective {a = a} e = ap (value_or a) e

pub >>?-eq-ok {ℓ κ} :
    {A : Type ℓ} {B : Type κ} (m : VaResult A) (f : A → VaResult B) {b : B}
    → (m >>? f) ≡ va_ok b
    → (a : A) × (m ≡ va_ok a) × (f a ≡ va_ok b)
>>?-eq-ok (va_ok a) f h = (a, refl, h)
>>?-eq-ok (va_err s) f h = cc

-- Inversion of an early return before a successful rest.
pub va_guard-eq-ok {ℓ} :
    {A : Type ℓ} (failed : Bool) (status : Status) (rest : VaResult A) {result : A}
    → (if failed then va_err status else rest) ≡ va_ok result
    → (failed ≡ false) × (rest ≡ va_ok result)
va_guard-eq-ok false status rest e = (refl, e)
va_guard-eq-ok true status rest e = cc

abbrev pub profile_code : Profile → ℕ
profile_code h264_constrained_baseline = 0
profile_code h264_main = 1
profile_code h264_high = 2
profile_code hevc_main = 3
profile_code hevc_main10 = 4
profile_code vp8_version0_3 = 5
profile_code vp9_profile0 = 6
profile_code other_profile = 7

abbrev pub eq_profile : Profile → Profile → Bool
eq_profile a b = profile_code a == profile_code b

abbrev pub entrypoint_code : Entrypoint → ℕ
entrypoint_code vld = 0
entrypoint_code enc_slice = 1
entrypoint_code other_entrypoint = 2

abbrev pub eq_entrypoint : Entrypoint → Entrypoint → Bool
eq_entrypoint a b = entrypoint_code a == entrypoint_code b

-- `VAConfigAttribType`, the enumerators that the driver names.
pub data AttribType : Type 0 where
  rt_format dec_slice_mode rate_control enc_packed_headers enc_max_ref_frames : AttribType
  enc_max_slices max_picture_width max_picture_height other_attrib : AttribType

-- `VAConfigAttrib`
pub record Attrib : Type 0 where
  pub kind : AttribType
  pub value : ℕ

abbrev pub attrib_not_supported : ℕ
attrib_not_supported = 0x8000_0000

abbrev pub rt_yuv420 : ℕ
rt_yuv420 = 1

abbrev pub rt_yuv420_10 : ℕ
rt_yuv420_10 = 0x100

abbrev pub slice_mode_normal : ℕ
slice_mode_normal = 1

abbrev pub rc_cbr : ℕ
rc_cbr = 2

abbrev pub rc_vbr : ℕ
rc_vbr = 4

abbrev pub rc_cqp : ℕ
rc_cqp = 0x10

pub Profile-discrete : Discrete Profile
Profile-discrete = hlevel

pub Entrypoint-discrete : Discrete Entrypoint
Entrypoint-discrete = hlevel

pub BufferType-discrete : Discrete BufferType
BufferType-discrete = hlevel
