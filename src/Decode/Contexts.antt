-- ===== src/Decode/Contexts.antt =====
-- The contexts of src/decode.c: creation and destruction. A slot that is free is all zeroes, as
-- `destroy_context_locked` leaves it, so that a context is made from an empty one.
use venus_vaapi_driver.Common.{
  ℕ, ◌+◌, Bool, true, false, not, ◌&&◌, ◌||◌, Option, none, some, List, [], ◌∷◌, map, ltb, ◌==◌,
  set, if◌then◌else◌,
}
use venus_vaapi_driver.Common.Results.{Result, ok, err}
use venus_vaapi_driver.VaTypes.{
  Profile, hevc_main, hevc_main10, vp8_version0_3, vp9_profile0, Entrypoint, vld, enc_slice, Fourcc,
  nv12, p010, other_fourcc, invalid_id, VaResult, va_ok, va_err, ◌>>?◌, invalid_context,
  invalid_config, invalid_surface, max_num_exceeded, resolution_not_supported,
  unsupported_entrypoint,
}
use venus_vaapi_driver.Backend.{
  Backend, Config, Context, Surface, Buffer, context_slot, empty_context, find_config, find_context,
  find_surface, free_buffer, status_from_errno,
}
use venus_vaapi_driver.Backend.Table.{base_of, first_free}
use venus_vaapi_driver.Backend.Profiles.{max_width, max_height}
use venus_vaapi_driver.Encode.Rates.{min_width, min_height}
use venus_vaapi_driver.V4l2Decoder.Device.{Decoder, Device}
use venus_vaapi_driver.V4l2Decoder.Setup.{
  DecoderConfig, v4l2_pix_fmt_nv12, v4l2_pix_fmt_p010, v4l2_pix_fmt_hevc,
}
use venus_vaapi_driver.V4l2Decoder.Submission.{open_decoder}

abbrev pub v4l2_pix_fmt_h264 : ℕ
v4l2_pix_fmt_h264 = 875967048

abbrev pub v4l2_pix_fmt_vp8 : ℕ
v4l2_pix_fmt_vp8 = 808996950

abbrev pub v4l2_pix_fmt_vp9 : ℕ
v4l2_pix_fmt_vp9 = 809062486

abbrev pub coded_format_of : Profile → ℕ
coded_format_of vp8_version0_3 = v4l2_pix_fmt_vp8
coded_format_of vp9_profile0 = v4l2_pix_fmt_vp9
coded_format_of hevc_main = v4l2_pix_fmt_hevc
coded_format_of hevc_main10 = v4l2_pix_fmt_hevc
coded_format_of profile = v4l2_pix_fmt_h264

abbrev pub raw_format_of : Profile → ℕ
raw_format_of hevc_main10 = v4l2_pix_fmt_p010
raw_format_of profile = v4l2_pix_fmt_nv12

abbrev pub expected_fourcc : Profile → Fourcc
expected_fourcc hevc_main10 = p010
expected_fourcc profile = nv12

abbrev pub output_size_of : Profile → ℕ
output_size_of hevc_main = 8388608
output_size_of hevc_main10 = 8388608
output_size_of profile = 2097152

abbrev pub decoder_config : Config → (width height : ℕ) → DecoderConfig
decoder_config config width height = record {
  coded_format = coded_format_of config.profile;
  raw_format = raw_format_of config.profile;
  width = width;
  height = height;
  output_buffer_size = output_size_of config.profile;
  output_buffers = 4;
  capture_buffers = 16;
}

abbrev pub eq_fourcc : Fourcc → Fourcc → Bool
eq_fourcc nv12 nv12 = true
eq_fourcc p010 p010 = true
eq_fourcc other_fourcc other_fourcc = true
eq_fourcc first second = false

-- The test of one render target against the size and the format of the context.
abbrev pub is_target : Profile → (width height : ℕ) → Option (ℕ × Surface) → Bool
is_target profile width height none = false
is_target profile width height (some (index, surface)) =
    surface.width == width
    && surface.height == height
    && eq_fourcc surface.fourcc (expected_fourcc profile)

abbrev pub are_targets : Backend → Profile → (width height : ℕ) → List ℕ → Bool
are_targets backend profile width height [] = true
are_targets backend profile width height (id ∷ ids) =
    is_target profile width height (find_surface backend id)
    && are_targets backend profile width height ids

-- The decoder that a context opens, if it decodes.
abbrev pub from_open : Result Decoder → VaResult (Option Decoder)
from_open (ok decoder) = va_ok (some decoder)
from_open (err code) = va_err (status_from_errno code)

abbrev pub open_for : Device → Config → (width height : ℕ) → Entrypoint → VaResult (Option Decoder)
open_for device config width height vld =
    from_open (open_decoder device (decoder_config config width height))
open_for device config width height enc_slice = va_ok none
open_for device config width height entrypoint = va_err unsupported_entrypoint

abbrev pub new_context : (config_id width height index : ℕ) → Context
new_context config_id width height index = record empty_context {
  used = true;
  id = base_of 2 + (index + 1);
  config_id = config_id;
  width = width;
  height = height;
  target = invalid_id;
  encode_delivery_sequence = 1;
}

abbrev pub put_surface : Backend → ℕ → Surface → Backend
put_surface backend index surface = record backend { surfaces = set backend.surfaces index surface }

abbrev pub mark_target : Backend → (context_id : ℕ) → Option (ℕ × Surface) → Backend
mark_target backend context_id none = backend
mark_target backend context_id (some (index, surface)) =
    put_surface backend index (record surface { context_id = context_id })

abbrev pub mark_targets : Backend → (context_id : ℕ) → List ℕ → Backend
mark_targets backend context_id [] = backend
mark_targets backend context_id (id ∷ ids) =
    mark_targets (mark_target backend context_id (find_surface backend id)) context_id ids

-- A new context: its ID, its decoder, and the tables with it.
pub record Started : Type 0 where
  pub id : ℕ
  pub decoder : Option Decoder
  pub backend : Backend

abbrev pub started :
    Backend → (config_id width height index : ℕ) → List ℕ → Option Decoder → Started
started backend config_id width height index targets decoder = record {
  id = base_of 2 + (index + 1);
  decoder = decoder;
  backend =
      mark_targets
        (record backend {
          contexts = set backend.contexts index (new_context config_id width height index);
        })
        (base_of 2 + (index + 1)) targets;
}

abbrev pub context_at :
    Device → Backend → Config → (config_id width height : ℕ) → List ℕ → Option ℕ → VaResult Started
context_at device backend config config_id width height targets none = va_err max_num_exceeded
context_at device backend config config_id width height targets (some index) =
    open_for device config width height config.entrypoint >>? λ decoder.
    va_ok (started backend config_id width height index targets decoder)

abbrev pub context_for :
    Device
    → Backend
    → (config_id width height : ℕ) → List ℕ
    → Option (ℕ × Config)
    → VaResult Started
context_for device backend config_id width height targets none = va_err invalid_config
context_for device backend config_id width height targets (some (slot, config)) =
    if not (are_targets backend config.profile width height targets)
    then va_err invalid_surface
    else context_at device backend config config_id width height targets
        (first_free context_slot 0 backend.contexts)

-- `backend_create_context`, of a size and a number of targets that are not negative.
unfoldable pub create_context :
    Device → Backend → (config_id width height : ℕ) → (targets : List ℕ) → VaResult Started
create_context device backend config_id width height targets =
    if ltb width min_width || ltb height min_height || ltb max_width width || ltb max_height height
    then va_err resolution_not_supported
    else context_for device backend config_id width height targets (find_config backend config_id)

-- `destroy_context_buffers`, of one slot.
abbrev pub drop_buffer : (context_id : ℕ) → Buffer → Buffer
drop_buffer context_id buffer =
    if buffer.used && buffer.context_id == context_id then free_buffer buffer else buffer

abbrev pub forget_context : (context_id : ℕ) → Surface → Surface
forget_context context_id surface =
    if surface.used && surface.context_id == context_id
    then record surface {
      context_id = invalid_id;
      encode_pending = false;
      coded_buffer_id = invalid_id;
    }
    else surface

-- `destroy_context_locked`, of what stands in the tables. The devices are closed beside them.
unfoldable pub without_context : Backend → ℕ → Context → Backend
without_context backend index context = record backend {
  contexts = set backend.contexts index empty_context;
  buffers = map (drop_buffer context.id) backend.buffers;
  surfaces = map (forget_context context.id) backend.surfaces;
}

abbrev pub destroy_context_found : Backend → Option (ℕ × Context) → VaResult Backend
destroy_context_found backend none = va_err invalid_context
destroy_context_found backend (some (index, context)) =
    va_ok (without_context backend index context)

-- `backend_destroy_context`
unfoldable pub destroy_context : Backend → (id : ℕ) → VaResult Backend
destroy_context backend id = destroy_context_found backend (find_context backend id)
