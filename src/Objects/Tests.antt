-- ===== src/Objects/Tests.antt =====
-- Runs of src/objects.c, and its theorems at concrete inputs.
use venus_vaapi_driver.Common.{ℕ, ◌*◌, ◌≡◌, refl, inr, true, List, [], ◌∷◌, arith, replicate, All}
use venus_vaapi_driver.Common.Results.{ok}
use venus_vaapi_driver.VaTypes.{nv12}
use venus_vaapi_driver.Backend.{Surface, empty_surface}
use venus_vaapi_driver.Objects.{
  align_size, bytes_per_sample, yuv420_size, surface_layout, SurfaceLayout, copies,
  copy_from_yuv420, plan_copy_from, plan_copy_to, planes_from, planes_to,
}
use venus_vaapi_driver.Objects.Geometry.{IsInside, IsLaidOut, plan_copy_from_ok, plan_copy_to_ok}
use venus_vaapi_driver.Objects.Layout.{IsRoomy, surface_layout_ok}
use venus_vaapi_driver.Common.{some, false}
use venus_vaapi_driver.Common.Results.{err, einval}
use venus_vaapi_driver.Capabilities.{Capabilities}
use venus_vaapi_driver.VaTypes.{h264_high, enc_slice}
use venus_vaapi_driver.Backend.{empty_config}
use venus_vaapi_driver.V4l2Decoder.Device.{Device}
use venus_vaapi_driver.Decode.Contexts.{new_context}
use venus_vaapi_driver.Capabilities.{reset}
use venus_vaapi_driver.VaTypes.{
  va_ok, va_err, invalid_id, image_payload, enc_coded, surface_busy, invalid_buffer, hw_busy,
}
use venus_vaapi_driver.Backend.{
  Backend, Buffer, Image, create, empty_buffer, empty_image, empty_context, find_surface,
  find_buffer, find_image, find_context, free_buffer,
}
use venus_vaapi_driver.Backend.Table.{find, first_free}
use venus_vaapi_driver.Objects.Buffers.{allocate_buffer, destroy_buffer, buffer_used_by_image}
use venus_vaapi_driver.Objects.Images.{
  create_image_locked, derive_image, destroy_image, destroy_surfaces, surface_has_image,
}
use venus_vaapi_driver.Objects.Surfaces.{Grants, create_surfaces, valid_surface_attributes}
use venus_vaapi_driver.Objects.Creation.{IsMade, create_surfaces-IsMade}
use venus_vaapi_driver.Objects.Lifetimes.{created, Reachable-IsSound}
use venus_vaapi_driver.Objects.Delivery.{
  Waiting, find_waiting_buffer, wait_loop, wait_coded_delivery, IsInTurn,
  wait_coded_delivery-IsInTurn, wait_coded_delivery_stalls,
}

-- A surface of 2 x 2 samples whose rows are four bytes apart.
abbrev surface : Surface
surface = record empty_surface {
  used = true;
  width = 2;
  height = 2;
  fourcc = nv12;
  bytes = replicate 12 9;
  data_size = 12;
  stride = 4;
  uv_offset = 8;
}

laid : IsLaidOut surface
laid = inr ((λ e. omega (arith, e)), omega arith)

abbrev source : List ℕ
source = 1 ∷ 2 ∷ 3 ∷ 4 ∷ 5 ∷ 6 ∷ []

copied :
    (copy_from_yuv420 (ok tt) (ok tt) surface source 2 4 2 2).0.bytes
    ≡ 1 ∷ 2 ∷ 0 ∷ 0 ∷ 3 ∷ 4 ∷ 0 ∷ 0 ∷ 5 ∷ 6 ∷ 0 ∷ 0 ∷ []
unfolding copy_from_yuv420 plan_copy_from bytes_per_sample
copied = refl

from_runs : plan_copy_from surface 6 2 4 2 2 ≡ ok (planes_from surface 2 4 2 2)
unfolding plan_copy_from bytes_per_sample
from_runs = refl

plan_copy_from_ok_example : All (IsInside 12 6) (copies (planes_from surface 2 4 2 2))
plan_copy_from_ok_example =
    plan_copy_from_ok surface 6 2 4 2 2 (planes_from surface 2 4 2 2) laid (omega arith) from_runs

to_runs : plan_copy_to surface 6 2 4 2 2 ≡ ok (planes_to surface 2 4 2 2)
unfolding plan_copy_to bytes_per_sample
to_runs = refl

plan_copy_to_ok_example : All (IsInside 6 12) (copies (planes_to surface 2 4 2 2))
plan_copy_to_ok_example = plan_copy_to_ok surface 6 2 4 2 2 (planes_to surface 2 4 2 2) laid to_runs

size_run : yuv420_size 1920 1080 nv12 ≡ ok 3110400
unfolding yuv420_size bytes_per_sample
size_run = refl

align_run : align_size 1080 32 ≡ ok 1088
unfolding align_size
align_run = refl

abbrev layout : SurfaceLayout
layout = record { stride = 1920; scanlines = 1088; uv_offset = 2088960; allocation_size = 3198976 }

layout_run : surface_layout 1920 1080 nv12 ≡ ok layout
unfolding surface_layout bytes_per_sample align_size
layout_run = refl

surface_layout_ok_example : IsRoomy (1920 * bytes_per_sample nv12) 1080 layout
surface_layout_ok_example = surface_layout_ok 1920 1080 nv12 layout layout_run

-- A kernel that grants no DMA memory, and an allocator that has some.
abbrev grants : Grants
grants = record { dma = λ index. false; memory = λ index. true }

abbrev linear : Surface
linear = record empty_surface {
  used = true;
  id = 0x3000001;
  width = 48;
  height = 32;
  fourcc = nv12;
  bytes = replicate 2304 0;
  data_size = 2304;
  stride = 48;
  scanlines = 32;
  uv_offset = 1536;
  ready = true;
  coded_buffer_id = invalid_id;
  context_id = invalid_id;
}

abbrev surfaced : Backend
surfaced = record (create reset) { surfaces = linear ∷ replicate 63 empty_surface }

surfaces_run : create_surfaces grants (create reset) 1 48 32 1 [] ≡ va_ok (0x3000001 ∷ [], surfaced)
unfolding create_surfaces valid_surface_attributes yuv420_size surface_layout align_size
    bytes_per_sample create
surfaces_run = refl

create_surfaces-IsMade_example : IsMade (create reset) surfaced 1 (0x3000001 ∷ [])
create_surfaces-IsMade_example =
    create_surfaces-IsMade grants (create reset) 1 (Reachable-IsSound {caps = reset} created) 1 48
      32 [] surfaces_run

-- The tables with an image that shows the surface.
abbrev shown_buffer : Buffer
shown_buffer = record empty_buffer {
  used = true;
  id = 0x4000001;
  context_id = invalid_id;
  kind = image_payload;
  element_size = 2304;
  capacity_elements = 1;
  num_elements = 1;
  source_surface_id = invalid_id;
}

abbrev shown_image : Image
shown_image = record {
  used = true;
  id = 0x5000001;
  buffer_id = 0x4000001;
  surface_id = 0x3000001;
  width = 48;
  height = 32;
  fourcc = nv12;
  stride = 48;
  uv_offset = 1536;
}

abbrev derived : Backend
derived = record surfaced {
  buffers = shown_buffer ∷ replicate 511 empty_buffer;
  images = shown_image ∷ replicate 127 empty_image;
}

derive_run : derive_image true surfaced 0x3000001 ≡ va_ok (0x5000001, derived)
unfolding derive_image find_surface find create_image_locked yuv420_size bytes_per_sample
    allocate_buffer first_free create
derive_run = refl

-- The tables of an encoder: its configuration, its context, a coded buffer, and then a surface that
-- an image shows.
abbrev device : Device
device = record {
  open_file = ok tt;
  has_memory = true;
  query_capability =
      ok (record { is_venus = true; is_decoder = true; capabilities = 67125248; device_caps = 0 });
  subscribe = ok tt;
  set_control = λ id value. ok tt;
  get_format = err einval;
  set_format = λ queue format. ok format;
  request_buffers = λ queue count. ok 1;
  query_buffer = λ queue index. ok (record { plane_count = 1; plane_length = 1 });
  map_memory = λ queue index. ok [];
  queue_buffer = λ queue request. ok tt;
  start = λ queue. ok tt;
  command = ok tt;
}

abbrev caps : Capabilities
caps = record {
  decode_codecs = 11;
  encode_codecs = 1;
  decode_raw_formats = 1;
  encode_raw_formats = 1;
}

abbrev configured : Backend
configured = record (create caps) {
  configs =
      record empty_config {
        used = true;
        id = 0x1000001;
        profile = h264_high;
        entrypoint = enc_slice;
        rate_control = 4;
      }
      ∷ replicate 15 empty_config;
}

abbrev encoder_tables : Backend
encoder_tables = record configured {
  contexts = new_context 0x1000001 48 32 0 ∷ replicate 7 empty_context;
}

abbrev coded_buffer : Buffer
coded_buffer = record empty_buffer {
  used = true;
  id = 0x4000001;
  context_id = 0x2000001;
  kind = enc_coded;
  element_size = 4;
  capacity_elements = 1;
  num_elements = 1;
  bytes = 0 ∷ 0 ∷ 0 ∷ 0 ∷ [];
  owns_data = true;
  source_surface_id = invalid_id;
}

abbrev buffered : Backend
buffered = record encoder_tables { buffers = coded_buffer ∷ replicate 511 empty_buffer }

abbrev encoded : Backend
encoded = record buffered { surfaces = linear ∷ replicate 63 empty_surface }

abbrev shared : Backend
shared = record encoded {
  buffers = coded_buffer ∷ record shown_buffer { id = 0x4000002 } ∷ replicate 510 empty_buffer;
  images = record shown_image { buffer_id = 0x4000002 } ∷ replicate 127 empty_image;
}

-- A surface that an image shows is not destroyed, nor is the image's buffer.
busy_run : destroy_surfaces derived (0x3000001 ∷ []) ≡ va_err surface_busy
unfolding destroy_surfaces find_surface find surface_has_image create
busy_run = refl

kept_run : destroy_buffer derived 0x4000001 ≡ va_err invalid_buffer
unfolding destroy_buffer find_buffer find buffer_used_by_image create
kept_run = refl

image_run : destroy_image derived 0x5000001 ≡ va_ok surfaced
unfolding destroy_image find_image find_buffer find free_buffer create
image_run = refl

-- Two coded buffers of a context: the first in turn, and one that is ahead.
abbrev waiting_buffer : (id sequence : ℕ) → Buffer
waiting_buffer id sequence = record empty_buffer {
  used = true;
  id = id;
  context_id = 0x2000001;
  kind = enc_coded;
  coded_tag = 1;
  coded_sequence = sequence;
}

abbrev encoding : Backend
encoding = record (create reset) {
  contexts =
      record empty_context { used = true; id = 0x2000001; encode_delivery_sequence = 1 }
      ∷ replicate 7 empty_context;
  buffers = waiting_buffer 0x4000001 1 ∷ waiting_buffer 0x4000002 2 ∷ replicate 510 empty_buffer;
}

in_turn_run : (wait_coded_delivery (λ n tables. tables) encoding 0x4000001).1 ≡ va_ok tt
unfolding wait_coded_delivery find_waiting_buffer find_buffer find_context find create wait_loop
in_turn_run = refl

wait_coded_delivery-IsInTurn_example :
    IsInTurn
      (λ n tables. tables)
      0x4000001
      5000
      encoding
      (wait_coded_delivery (λ n tables. tables) encoding 0x4000001).0
wait_coded_delivery-IsInTurn_example =
    wait_coded_delivery-IsInTurn (λ n tables. tables) 0x4000001 encoding in_turn_run

abbrev ahead : Waiting
ahead = record {
  buffer_index = 1;
  buffer = waiting_buffer 0x4000002 2;
  context_index = 0;
  context = record empty_context { used = true; id = 0x2000001; encode_delivery_sequence = 1 };
}

ahead_found : find_waiting_buffer encoding 0x4000002 ≡ some ahead
unfolding find_waiting_buffer find_buffer find_context find create
ahead_found = refl

wait_coded_delivery_stalls_example :
    wait_coded_delivery (λ n tables. tables) encoding 0x4000002 ≡ (encoding, va_err hw_busy)
wait_coded_delivery_stalls_example =
    wait_coded_delivery_stalls encoding 0x4000002 ahead ahead_found refl (omega arith) refl
