-- ===== src/Backend/Tests.antt =====
-- Runs of src/backend.c, and its theorems at concrete inputs.
use venus_vaapi_driver.Common.{
  ℕ, ◌≡◌, refl, ◌≢◌, true, false, none, List, [], ◌∷◌, replicate, if◌then◌else◌,
}
use venus_vaapi_driver.VaTypes.{
  vp9_profile0, h264_high, vld, enc_slice, va_ok, Attrib, rate_control,
}
use venus_vaapi_driver.Capabilities.{Capabilities, has, has_raw}
use venus_vaapi_driver.Backend.{Config, Backend, empty_config, find_config, config_slot}
use venus_vaapi_driver.Backend.Table.{find, first_free, IsNumbered-replicate}
use venus_vaapi_driver.Backend.Profiles.{
  query_profiles, query_entrypoints, is_supported, h264_vld_supported, h264_enc_supported,
  hevc_vld_supported, hevc_enc_supported, vpx_vld_supported, vp8_enc_supported,
}
use venus_vaapi_driver.Backend.Offers.{
  count_entrypoint, count_profile, offered, query_entrypoints-count,
}
use venus_vaapi_driver.Backend.Configs.{
  Chosen, new_config, create_config, destroy_config, is_referenced,
}
use venus_vaapi_driver.Backend.Asked.{asked}
use venus_vaapi_driver.Backend.Lifetimes.{IsLinked, IsCreated, create_config_ok, destroy_config_ok}

-- A device that decodes H.264, HEVC and VP9, and encodes H.264.
abbrev caps : Capabilities
caps = record {
  decode_codecs = 11;
  encode_codecs = 1;
  decode_raw_formats = 1;
  encode_raw_formats = 1;
}

abbrev empty_backend : Backend
empty_backend = record {
  capabilities = caps;
  configs = replicate 16 empty_config;
  contexts = [];
  surfaces = [];
  buffers = [];
  images = [];
}

empty-IsLinked : IsLinked empty_backend
empty-IsLinked = record {
  sized = refl;
  numbered = IsNumbered-replicate config_slot 1 0 16 empty_config refl;
  linked = tt;
}

profiles : count_profile vp9_profile0 (query_profiles caps none) ≡ 1
unfolding query_profiles h264_vld_supported h264_enc_supported hevc_vld_supported hevc_enc_supported
    vpx_vld_supported vp8_enc_supported has has_raw
profiles = refl

query_entrypoints-count_example :
    count_entrypoint vld (offered (query_entrypoints caps none vp9_profile0))
    ≡ (if is_supported caps none vp9_profile0 vld then 1 else 0)
query_entrypoints-count_example = query_entrypoints-count caps none vp9_profile0 vld

abbrev attributes : List Attrib
attributes = record { kind = rate_control; value = 0x10 } ∷ []

abbrev chosen : Chosen
chosen = record { rate_control = 0x10; packed_headers = 0 }

abbrev config : Config
config = new_config h264_high enc_slice chosen 0

abbrev one_config : Backend
one_config = record empty_backend { configs = config ∷ replicate 15 empty_config }

created :
    create_config empty_backend none h264_high enc_slice attributes ≡ va_ok (one_config, 0x1000001)
unfolding create_config first_free h264_vld_supported h264_enc_supported hevc_vld_supported
    hevc_enc_supported vpx_vld_supported vp8_enc_supported has has_raw
created = refl

create_config_ok_example :
    (is_supported caps none h264_high enc_slice ≡ true)
    × IsCreated empty_backend one_config 0x1000001 (asked h264_high enc_slice attributes)
create_config_ok_example =
    create_config_ok empty_backend none h264_high enc_slice attributes one_config 0x1000001
      empty-IsLinked created

supported : is_supported caps none h264_high enc_slice ≡ true
unfolding h264_vld_supported h264_enc_supported hevc_vld_supported hevc_enc_supported
    vpx_vld_supported vp8_enc_supported has has_raw
supported = refl

destroyed : destroy_config one_config 0x1000001 ≡ va_ok empty_backend
unfolding destroy_config find_config find
destroyed = refl

one-IsLinked : IsLinked one_config
one-IsLinked =
    (create_config_ok empty_backend none h264_high enc_slice attributes one_config 0x1000001
      empty-IsLinked created).1.valid

destroy_config_ok_example :
    (is_referenced [] 0x1000001 ≡ false)
    × (find_config empty_backend 0x1000001 ≡ none)
    × ((other : ℕ)
        → other ≢ 0x1000001
        → find_config empty_backend other ≡ find_config one_config other)
    × IsLinked empty_backend
destroy_config_ok_example =
    destroy_config_ok one_config empty_backend 0x1000001 one-IsLinked destroyed
