-- ===== src/Backend/Configs.antt =====
-- src/backend.c: the configurations.
use venus_vaapi_driver.Common.{
  ℕ, ◌+◌, ◌-◌, bit_and, Bool, true, false, not, ◌&&◌, ◌||◌, Option, none, some, List, [], ◌∷◌, ◌==◌,
  set, if◌then◌else◌,
}
use venus_vaapi_driver.VaTypes.{
  Profile, hevc_main10, vp8_version0_3, Entrypoint, vld, enc_slice, eq_profile, eq_entrypoint,
  VaResult, va_ok, va_err, ◌>>?◌, unsupported_profile, unsupported_rt_format, attr_not_supported,
  max_num_exceeded, invalid_config, operation_failed, AttribType, rt_format, dec_slice_mode,
  enc_packed_headers, Attrib, rt_yuv420, rt_yuv420_10, slice_mode_normal, rc_cbr, rc_vbr, rc_cqp,
}
use venus_vaapi_driver.Backend.{Config, Context, Backend, config_slot, empty_config, find_config}
use venus_vaapi_driver.Backend.Table.{base_of, first_free}
use venus_vaapi_driver.Backend.Profiles.{is_supported, h264_packed_headers}

-- The locals of backend_create_config that the attributes set.
pub record Chosen : Type 0 where
  pub rate_control : ℕ
  pub packed_headers : ℕ

abbrev pub rt_format_of : Profile → ℕ
rt_format_of profile = if eq_profile profile hevc_main10 then rt_yuv420_10 else rt_yuv420

-- `value & ~mask` on 32 bits.
abbrev pub outside : ℕ → ℕ → ℕ
outside value mask = bit_and value (0xffff_ffff - mask)

-- One turn of the loop over the attributes.
abbrev pub check_attribute : Profile → Entrypoint → Chosen → AttribType → ℕ → VaResult Chosen
check_attribute profile entrypoint chosen rt_format value =
    if bit_and value (rt_format_of profile) == 0 then va_err unsupported_rt_format else va_ok chosen
check_attribute profile entrypoint chosen dec_slice_mode value =
    if eq_entrypoint entrypoint vld && not (value == slice_mode_normal)
    then va_err attr_not_supported
    else va_ok chosen
check_attribute profile entrypoint chosen AttribType.rate_control value =
    if not (eq_entrypoint entrypoint enc_slice)
    then va_ok chosen
    else if not (value == rc_vbr)
        && not (value == rc_cbr)
        && (not (value == rc_cqp) || eq_profile profile vp8_version0_3)
    then va_err attr_not_supported
    else va_ok (record chosen { rate_control = value })
check_attribute profile entrypoint chosen enc_packed_headers value =
    if not (eq_entrypoint entrypoint enc_slice)
    then va_ok chosen
    else if not
        (outside value (if eq_profile profile vp8_version0_3 then 0 else h264_packed_headers) == 0)
    then va_err attr_not_supported
    else va_ok (record chosen { packed_headers = value })
check_attribute profile entrypoint chosen _ value = va_ok chosen

abbrev pub check_attributes : Profile → Entrypoint → Chosen → List Attrib → VaResult Chosen
check_attributes profile entrypoint chosen [] = va_ok chosen
check_attributes profile entrypoint chosen (attribute ∷ attributes) =
    check_attribute profile entrypoint chosen attribute.kind attribute.value >>? λ next.
    check_attributes profile entrypoint next attributes

abbrev pub default_choice : Entrypoint → Chosen
default_choice entrypoint = record {
  rate_control = if eq_entrypoint entrypoint enc_slice then rc_vbr else 0;
  packed_headers = 0;
}

abbrev pub new_config : Profile → Entrypoint → Chosen → ℕ → Config
new_config profile entrypoint chosen index = record {
  used = true;
  id = base_of 1 + (index + 1);
  profile = profile;
  entrypoint = entrypoint;
  rate_control = chosen.rate_control;
  packed_headers = chosen.packed_headers;
}

abbrev pub store_config :
    Backend → Profile → Entrypoint → Chosen → Option ℕ → VaResult (Backend × ℕ)
store_config backend profile entrypoint chosen none = va_err max_num_exceeded
store_config backend profile entrypoint chosen (some index) = va_ok (
  record backend {
    configs = set backend.configs index (new_config profile entrypoint chosen index);
  },
  base_of 1 + (index + 1),
)

unfoldable pub create_config :
    Backend → Option (List ℕ) → Profile → Entrypoint → List Attrib → VaResult (Backend × ℕ)
create_config backend variable profile entrypoint attributes =
    if not (is_supported backend.capabilities variable profile entrypoint)
    then va_err unsupported_profile
    else check_attributes profile entrypoint (default_choice entrypoint) attributes >>? λ chosen.
        store_config backend profile entrypoint chosen (first_free config_slot 0 backend.configs)

-- The loop of backend_destroy_config over the contexts.
abbrev pub is_referenced : List Context → ℕ → Bool
is_referenced [] id = false
is_referenced (context ∷ contexts) id =
    (context.used && context.config_id == id) || is_referenced contexts id

abbrev pub destroy_found : Backend → ℕ → Option (ℕ × Config) → VaResult Backend
destroy_found backend id none = va_err invalid_config
destroy_found backend id (some (index, config)) =
    if is_referenced backend.contexts id
    then va_err operation_failed
    else va_ok (record backend { configs = set backend.configs index empty_config })

unfoldable pub destroy_config : Backend → ℕ → VaResult Backend
destroy_config backend id = destroy_found backend id (find_config backend id)

-- What backend_query_config_attributes writes.
pub record Described : Type 0 where
  pub profile : Profile
  pub entrypoint : Entrypoint
  pub attributes : List Attrib

abbrev attrib : AttribType → ℕ → Attrib
attrib kind value = record { kind = kind; value = value }

abbrev pub describe : Config → Described
describe config = record {
  profile = config.profile;
  entrypoint = config.entrypoint;
  attributes =
      attrib rt_format (rt_format_of config.profile)
      ∷ (if eq_entrypoint config.entrypoint enc_slice
          then attrib AttribType.rate_control config.rate_control
            ∷ attrib enc_packed_headers config.packed_headers
            ∷ []
          else []);
}

abbrev describe_found : Option (ℕ × Config) → VaResult Described
describe_found none = va_err invalid_config
describe_found (some (index, config)) = va_ok (describe config)

unfoldable pub query_config_attributes : Backend → ℕ → VaResult Described
query_config_attributes backend id = describe_found (find_config backend id)
