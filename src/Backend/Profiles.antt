-- ===== src/Backend/Profiles.antt =====
-- src/backend.c: profile negotiation. Pointers that a caller passes are taken to be valid.
use venus_vaapi_driver.Common.{
  ℕ, ◌+◌, Bool, true, false, not, ◌&&◌, ◌||◌, Option, none, some, List, [], ◌∷◌, ◌++◌, ◌==◌,
  if◌then◌else◌,
}
use venus_vaapi_driver.VaTypes.{
  Profile, h264_constrained_baseline, h264_main, h264_high, hevc_main, hevc_main10, vp8_version0_3,
  vp9_profile0, Entrypoint, vld, enc_slice, eq_profile, eq_entrypoint, VaResult, va_ok, va_err,
  unsupported_profile, AttribType, rt_format, dec_slice_mode, rate_control, enc_packed_headers,
  enc_max_ref_frames, enc_max_slices, max_picture_width, max_picture_height, other_attrib, Attrib,
  attrib_not_supported, rt_yuv420, rt_yuv420_10, slice_mode_normal, rc_cbr, rc_vbr, rc_cqp,
}
use venus_vaapi_driver.Capabilities.{
  Capabilities, decoder, encoder, Codec, codec_h264, codec_hevc, codec_vp8, codec_vp9, RawFormat,
  raw_nv12, raw_p010, has, has_raw,
}

abbrev pub max_width : ℕ
max_width = 4096

abbrev pub max_height : ℕ
max_height = 4096

-- `VENUS_H264_PACKED_HEADERS`: sequence, picture, slice and raw data.
abbrev pub h264_packed_headers : ℕ
h264_packed_headers = 1 + 2 + 4 + 0x10

abbrev pub h264_profile : Profile → Bool
h264_profile profile =
    eq_profile profile h264_constrained_baseline
    || eq_profile profile h264_main
    || eq_profile profile h264_high

-- The value of the variable `VENUS_VAAPI_EXPERIMENTAL_HEVC_DECODE`, as characters.
abbrev pub is_one : Option (List ℕ) → Bool
is_one none = false
is_one (some []) = false
is_one (some (c ∷ [])) = c == 49
is_one (some (c ∷ d ∷ rest)) = false

abbrev codec_of : Profile → Option Codec
codec_of vp8_version0_3 = some codec_vp8
codec_of vp9_profile0 = some codec_vp9
codec_of _ = none

abbrev raw_of : Profile → Option RawFormat
raw_of hevc_main10 = some raw_p010
raw_of hevc_main = some raw_nv12
raw_of _ = none

-- One step of the arrays that the queries fill: append when the test holds.
abbrev pub when : {A : Type 0} → Bool → A → List A
when true x = x ∷ []
when false x = []

abbrev pub unless_empty : List Entrypoint → VaResult (List Entrypoint)
unless_empty [] = va_err unsupported_profile
unless_empty (entrypoint ∷ entrypoints) = va_ok (entrypoint ∷ entrypoints)

abbrev encode_only : Entrypoint → ℕ → ℕ
encode_only entrypoint value =
    if not (eq_entrypoint entrypoint enc_slice) then attrib_not_supported else value

-- The switch of backend_get_config_attributes.
abbrev pub attribute_value : Profile → Entrypoint → AttribType → ℕ
attribute_value profile entrypoint rt_format =
    if eq_profile profile hevc_main10 then rt_yuv420_10 else rt_yuv420
attribute_value profile entrypoint dec_slice_mode =
    if eq_entrypoint entrypoint vld then slice_mode_normal else attrib_not_supported
attribute_value profile entrypoint rate_control =
    encode_only entrypoint
      (if eq_profile profile vp8_version0_3 then rc_vbr + rc_cbr else rc_vbr + rc_cbr + rc_cqp)
attribute_value profile entrypoint enc_packed_headers =
    encode_only entrypoint (if eq_profile profile vp8_version0_3 then 0 else h264_packed_headers)
attribute_value profile entrypoint enc_max_ref_frames =
    encode_only entrypoint (if eq_profile profile vp8_version0_3 then 3 else 1)
attribute_value profile entrypoint enc_max_slices = encode_only entrypoint 1
attribute_value profile entrypoint max_picture_width = max_width
attribute_value profile entrypoint max_picture_height = max_height
attribute_value profile entrypoint other_attrib = attrib_not_supported

abbrev fill : Profile → Entrypoint → List Attrib → List Attrib
fill profile entrypoint [] = []
fill profile entrypoint (attribute ∷ attributes) =
    record attribute { value = attribute_value profile entrypoint attribute.kind }
    ∷ fill profile entrypoint attributes

module _ (caps : Capabilities) (variable : Option (List ℕ)) where
  unfoldable pub h264_vld_supported : Profile → Entrypoint → Bool
  h264_vld_supported profile entrypoint =
      h264_profile profile && eq_entrypoint entrypoint vld && has caps decoder codec_h264

  unfoldable pub h264_enc_supported : Profile → Entrypoint → Bool
  h264_enc_supported profile entrypoint =
      h264_profile profile && eq_entrypoint entrypoint enc_slice && has caps encoder codec_h264

  unfoldable pub hevc_vld_supported : Profile → Entrypoint → Bool
  hevc_vld_supported profile entrypoint =
      if not (eq_entrypoint entrypoint vld)
        || (not (eq_profile profile hevc_main) && not (eq_profile profile hevc_main10))
        || not (is_one variable)
      then false
      else has caps decoder codec_hevc && has_raw caps decoder raw_nv12

  abbrev hevc_enc_raw : Option RawFormat → Bool
  hevc_enc_raw none = false
  hevc_enc_raw (some raw) = has caps encoder codec_hevc && has_raw caps encoder raw

  unfoldable pub hevc_enc_supported : Profile → Entrypoint → Bool
  hevc_enc_supported profile entrypoint =
      if not (eq_entrypoint entrypoint enc_slice) then false else hevc_enc_raw (raw_of profile)

  abbrev vpx_vld_codec : Option Codec → Bool
  vpx_vld_codec none = false
  vpx_vld_codec (some codec) = has caps decoder codec && has_raw caps decoder raw_nv12

  unfoldable pub vpx_vld_supported : Profile → Entrypoint → Bool
  vpx_vld_supported profile entrypoint =
      if not (eq_entrypoint entrypoint vld) then false else vpx_vld_codec (codec_of profile)

  unfoldable pub vp8_enc_supported : Profile → Entrypoint → Bool
  vp8_enc_supported profile entrypoint =
      eq_profile profile vp8_version0_3
      && eq_entrypoint entrypoint enc_slice
      && has caps encoder codec_vp8
      && has_raw caps encoder raw_nv12

  -- The test that opens backend_get_config_attributes and backend_create_config.
  abbrev pub is_supported : Profile → Entrypoint → Bool
  is_supported profile entrypoint =
      h264_vld_supported profile entrypoint
      || h264_enc_supported profile entrypoint
      || hevc_enc_supported profile entrypoint
      || hevc_vld_supported profile entrypoint
      || vpx_vld_supported profile entrypoint
      || vp8_enc_supported profile entrypoint

  abbrev pub h264_profiles : List Profile
  h264_profiles =
      if has caps decoder codec_h264 || has caps encoder codec_h264
      then h264_constrained_baseline ∷ h264_main ∷ h264_high ∷ []
      else []

  unfoldable pub query_profiles : List Profile
  query_profiles =
      h264_profiles
      ++ when (hevc_enc_supported hevc_main enc_slice || hevc_vld_supported hevc_main vld) hevc_main
      ++ when (hevc_enc_supported hevc_main10 enc_slice || hevc_vld_supported hevc_main10 vld)
          hevc_main10
      ++ when (vpx_vld_supported vp8_version0_3 vld || vp8_enc_supported vp8_version0_3 enc_slice)
          vp8_version0_3
      ++ when (vpx_vld_supported vp9_profile0 vld) vp9_profile0

  unfoldable pub entrypoints_of : Profile → List Entrypoint
  entrypoints_of profile =
      when (h264_vld_supported profile vld) vld
      ++ when (h264_enc_supported profile enc_slice) enc_slice
      ++ when (hevc_enc_supported profile enc_slice || vp8_enc_supported profile enc_slice)
          enc_slice
      ++ when (vpx_vld_supported profile vld || hevc_vld_supported profile vld) vld

  unfoldable pub query_entrypoints : Profile → VaResult (List Entrypoint)
  query_entrypoints profile =
      if not (h264_profile profile)
        && not (eq_profile profile hevc_main)
        && not (eq_profile profile hevc_main10)
        && not (eq_profile profile vp8_version0_3)
        && not (eq_profile profile vp9_profile0)
      then va_err unsupported_profile
      else unless_empty (entrypoints_of profile)

  unfoldable pub get_config_attributes : Profile → Entrypoint → List Attrib → VaResult (List Attrib)
  get_config_attributes profile entrypoint attributes =
      if not (is_supported profile entrypoint)
      then va_err unsupported_profile
      else va_ok (fill profile entrypoint attributes)
