-- ===== src/Backend.antt =====
-- src/backend_internal.h: the driver's state, its object tables and their lookups. The children
-- model src/backend.c.
pub mod Table
pub mod Profiles
pub mod Offers
pub mod Configs
pub mod Asked
pub mod Lifetimes
mod Tests
use venus_vaapi_driver.Common.{
  ℕ, ◌*◌, ◌<◌, ◌≡◌, Bool, true, false, Option, none, some, List, [], replicate, if◌then◌else◌,
}
use venus_vaapi_driver.Common.Results.{
  Errno, einval, enospc, enotsup, enomem, etimedout, eopnotsupp,
}
use venus_vaapi_driver.VaTypes.{
  Profile, other_profile, Entrypoint, other_entrypoint, BufferType, other_buffer, Fourcc,
  other_fourcc, Status, allocation_failed, not_enough_buffer, hw_busy, unimplemented,
  invalid_parameter, decoding_error, encoding_error,
}
use venus_vaapi_driver.Capabilities.{Capabilities}
use venus_vaapi_driver.Backend.Table.{Slot, find}

pub record Config : Type 0 where
  pub used : Bool
  pub id : ℕ
  pub profile : Profile
  pub entrypoint : Entrypoint
  pub rate_control : ℕ
  pub packed_headers : ℕ

-- `bytes` is the mapping behind `data`, its length the capacity.
pub record Surface : Type 0 where
  pub used : Bool
  pub id : ℕ
  pub width : ℕ
  pub height : ℕ
  pub fourcc : Fourcc
  pub bytes : List ℕ
  pub data_size : ℕ
  pub stride : ℕ
  pub scanlines : ℕ
  pub uv_offset : ℕ
  pub dma_backed : Bool
  pub gpu_native : Bool
  pub ready : Bool
  pub encode_pending : Bool
  pub coded_buffer_id : ℕ
  pub context_id : ℕ

-- `coded_overflow` and `coded_bad_bitstream` are the two bits of `coded_segment.status` that the
-- driver sets, `segment_size` its `size`. `bytes` is `data`, and its length the capacity in bytes.
pub record Buffer : Type 0 where
  pub used : Bool
  pub id : ℕ
  pub context_id : ℕ
  pub kind : BufferType
  pub element_size : ℕ
  pub capacity_elements : ℕ
  pub num_elements : ℕ
  pub bytes : List ℕ
  pub owns_data : Bool
  pub map_count : ℕ
  pub coded_ready : Bool
  pub coded_delivered : Bool
  pub input_done : Bool
  pub coded_size : ℕ
  pub coded_packets : ℕ
  pub coded_sequence : ℕ
  pub coded_tag : ℕ
  pub source_surface_id : ℕ
  pub segment_size : ℕ
  pub coded_overflow : Bool
  pub coded_bad_bitstream : Bool

-- The fields that object lifetimes and the encode queue use; the devices stand beside the model.
pub record Context : Type 0 where
  pub used : Bool
  pub id : ℕ
  pub config_id : ℕ
  pub width : ℕ
  pub height : ℕ
  pub in_picture : Bool
  pub target : ℕ
  pub pending : List ℕ
  pub encode_queue : List ℕ
  pub encode_queue_head : ℕ
  pub encode_queue_count : ℕ
  pub encode_sequence : ℕ
  pub encode_delivery_sequence : ℕ

pub record Image : Type 0 where
  pub used : Bool
  pub id : ℕ
  pub buffer_id : ℕ
  pub surface_id : ℕ
  pub width : ℕ
  pub height : ℕ
  pub fourcc : Fourcc
  pub stride : ℕ
  pub uv_offset : ℕ

pub record Backend : Type 0 where
  pub capabilities : Capabilities
  pub configs : List Config
  pub contexts : List Context
  pub surfaces : List Surface
  pub buffers : List Buffer
  pub images : List Image

abbrev pub max_configs : ℕ
max_configs = 16

abbrev pub max_contexts : ℕ
max_contexts = 8

abbrev pub max_surfaces : ℕ
max_surfaces = 64

abbrev pub max_buffers : ℕ
max_buffers = 512

abbrev pub max_images : ℕ
max_images = 128

abbrev pub config_slot : Slot Config
config_slot = record { used = λ (c : Config). c.used; id = λ (c : Config). c.id }

abbrev pub context_slot : Slot Context
context_slot = record { used = λ (c : Context). c.used; id = λ (c : Context). c.id }

abbrev pub surface_slot : Slot Surface
surface_slot = record { used = λ (s : Surface). s.used; id = λ (s : Surface). s.id }

abbrev pub buffer_slot : Slot Buffer
buffer_slot = record { used = λ (b : Buffer). b.used; id = λ (b : Buffer). b.id }

abbrev pub image_slot : Slot Image
image_slot = record { used = λ (i : Image). i.used; id = λ (i : Image). i.id }

unfoldable pub find_config : Backend → ℕ → Option (ℕ × Config)
find_config backend id = find config_slot 1 max_configs backend.configs id

unfoldable pub find_context : Backend → ℕ → Option (ℕ × Context)
find_context backend id = find context_slot 2 max_contexts backend.contexts id

unfoldable pub find_surface : Backend → ℕ → Option (ℕ × Surface)
find_surface backend id = find surface_slot 3 max_surfaces backend.surfaces id

unfoldable pub find_buffer : Backend → ℕ → Option (ℕ × Buffer)
find_buffer backend id = find buffer_slot 4 max_buffers backend.buffers id

unfoldable pub find_image : Backend → ℕ → Option (ℕ × Image)
find_image backend id = find image_slot 5 max_images backend.images id

-- `*slot = (struct venus_config) { 0 };`
abbrev pub empty_config : Config
empty_config = record {
  used = false;
  id = 0;
  profile = other_profile;
  entrypoint = other_entrypoint;
  rate_control = 0;
  packed_headers = 0;
}

abbrev pub empty_context : Context
empty_context = record {
  used = false;
  id = 0;
  config_id = 0;
  width = 0;
  height = 0;
  in_picture = false;
  target = 0;
  pending = [];
  encode_queue = replicate 64 0;
  encode_queue_head = 0;
  encode_queue_count = 0;
  encode_sequence = 0;
  encode_delivery_sequence = 0;
}

abbrev pub empty_surface : Surface
empty_surface = record {
  used = false;
  id = 0;
  width = 0;
  height = 0;
  fourcc = other_fourcc;
  bytes = [];
  data_size = 0;
  stride = 0;
  scanlines = 0;
  uv_offset = 0;
  dma_backed = false;
  gpu_native = false;
  ready = false;
  encode_pending = false;
  coded_buffer_id = 0;
  context_id = 0;
}

abbrev pub empty_buffer : Buffer
empty_buffer = record {
  used = false;
  id = 0;
  context_id = 0;
  kind = other_buffer;
  element_size = 0;
  capacity_elements = 0;
  num_elements = 0;
  bytes = [];
  owns_data = false;
  map_count = 0;
  coded_ready = false;
  coded_delivered = false;
  input_done = false;
  coded_size = 0;
  coded_packets = 0;
  coded_sequence = 0;
  coded_tag = 0;
  source_surface_id = 0;
  segment_size = 0;
  coded_overflow = false;
  coded_bad_bitstream = false;
}

abbrev pub empty_image : Image
empty_image = record {
  used = false;
  id = 0;
  buffer_id = 0;
  surface_id = 0;
  width = 0;
  height = 0;
  fourcc = other_fourcc;
  stride = 0;
  uv_offset = 0;
}

-- `venus_backend_create`, when the allocation and the mutex succeed.
unfoldable pub create : Capabilities → Backend
create caps = record {
  capabilities = caps;
  configs = replicate max_configs empty_config;
  contexts = replicate max_contexts empty_context;
  surfaces = replicate max_surfaces empty_surface;
  buffers = replicate max_buffers empty_buffer;
  images = replicate max_images empty_image;
}

-- `if (!buffer || !buffer->used) return;` and the release of the slot.
unfoldable pub free_buffer : Buffer → Buffer
free_buffer buffer = if buffer.used then empty_buffer else buffer

unfoldable pub status_from_errno : Errno → Status
status_from_errno enomem = allocation_failed
status_from_errno enospc = not_enough_buffer
status_from_errno etimedout = hw_busy
status_from_errno enotsup = unimplemented
status_from_errno eopnotsupp = unimplemented
status_from_errno einval = invalid_parameter
status_from_errno _ = decoding_error

abbrev as_encoding : Status → Status
as_encoding decoding_error = encoding_error
as_encoding status = status

unfoldable pub encode_status_from_errno : Errno → Status
encode_status_from_errno status = as_encoding (status_from_errno status)
