-- ===== src/Decode/Tests.antt =====
-- Runs of src/decode.c, and its theorems at concrete inputs.
use venus_vaapi_driver.Common.{
  ℕ, ◌≡◌, refl, none, some, inl, inr, true, false, [], ◌∷◌, arith, replicate, All, All-replicate,
}
use venus_vaapi_driver.Common.Results.{Result, ok}
use venus_vaapi_driver.VaTypes.{va_ok, nv12, slice_payload, slice_parameter, picture_parameter}
use venus_vaapi_driver.Capabilities.{reset}
use venus_vaapi_driver.Backend.{
  Surface, Buffer, Context, Backend, empty_surface, empty_buffer, empty_context, find_surface,
  find_context, find_buffer,
}
use venus_vaapi_driver.Backend.Table.{find}
use venus_vaapi_driver.Objects.{bytes_per_sample, copy_from_yuv420, plan_copy_from}
use venus_vaapi_driver.Objects.Geometry.{IsLaidOut}
use venus_vaapi_driver.Decode.{Frame, store_frame, render_picture, collect_h264_buffers, Gathered}
use venus_vaapi_driver.Decode.Pictures.{IsRendered, render_picture_ok}
use venus_vaapi_driver.Decode.Frames.{IsFrameStored, store_frame_ok}
use venus_vaapi_driver.Common.{
  All, All-replicate, ◌≢◌, none, some, true, false, arith, replicate, refl, ◌≡◌,
}
use venus_vaapi_driver.Common.Results.{ok, err, einval}
use venus_vaapi_driver.Capabilities.{reset}
use venus_vaapi_driver.VaTypes.{h264_main, vld, nv12, invalid_id, va_ok}
use venus_vaapi_driver.Backend.{
  Backend, Context, Surface, create, config_slot, empty_config, empty_context, empty_surface,
  empty_buffer, find_config, find_context, find_surface, free_buffer,
}
use venus_vaapi_driver.Backend.Table.{find, IsNumbered-replicate}
use venus_vaapi_driver.Backend.Lifetimes.{IsLinked}
use venus_vaapi_driver.V4l2Decoder.Device.{Device}
use venus_vaapi_driver.Decode.Contexts.{Started, new_context, destroy_context, without_context}
use venus_vaapi_driver.Decode.Lifetimes.{IsDestroyed, destroy_context_ok}

abbrev surface : Surface
surface = record empty_surface {
  used = true;
  id = 0x3000001;
  width = 2;
  height = 2;
  fourcc = nv12;
  bytes = replicate 12 9;
  data_size = 12;
  stride = 4;
  uv_offset = 8;
}

abbrev buffer : ℕ → Buffer
buffer id = record empty_buffer {
  used = true;
  id = id;
  context_id = 0x2000001;
  kind = picture_parameter;
  element_size = 1;
  capacity_elements = 1;
  num_elements = 1;
}

abbrev context : Context
context = record empty_context {
  used = true;
  id = 0x2000001;
  in_picture = true;
  pending = 0x4000001 ∷ [];
}

abbrev backend : Backend
backend = record {
  capabilities = reset;
  configs = [];
  contexts = context ∷ replicate 7 empty_context;
  surfaces = surface ∷ replicate 63 empty_surface;
  buffers =
      buffer 0x4000001
      ∷ record (buffer 0x4000002) { kind = slice_parameter }
      ∷ record (buffer 0x4000003) { kind = slice_payload }
      ∷ [];
  images = [];
}

abbrev frame : Frame
frame = record {
  tag = 0x3000001;
  width = 2;
  height = 2;
  bytes_per_line = 0;
  payload = 1 ∷ 2 ∷ 3 ∷ 4 ∷ 5 ∷ 6 ∷ [];
  is_error = false;
}

laid : All IsLaidOut backend.surfaces
laid = (
  inr ((λ e. omega (arith, e)), omega arith),
  All-replicate IsLaidOut 63 empty_surface (inl (refl, refl)),
)

store_runs : (store_frame (ok tt) (ok tt) backend frame).1 ≡ ok tt
unfolding store_frame find_surface find bytes_per_sample copy_from_yuv420 plan_copy_from
store_runs = refl

store_frame_ok_example : IsFrameStored backend frame (store_frame (ok tt) (ok tt) backend frame).0
store_frame_ok_example =
    store_frame_ok (ok tt) (ok tt) backend frame laid (omega arith) (omega arith) (omega arith)
      store_runs

abbrev rendered : Backend
rendered = record backend {
  contexts = record context { pending = 0x4000001 ∷ 0x4000002 ∷ [] } ∷ replicate 7 empty_context;
}

render_runs : render_picture backend 0x2000001 (0x4000002 ∷ []) ≡ va_ok rendered
unfolding render_picture find_context find_buffer find
render_runs = refl

render_picture_ok_example : IsRendered backend rendered 0x2000001 (0x4000002 ∷ [])
render_picture_ok_example =
    render_picture_ok backend rendered 0x2000001 (0x4000002 ∷ []) refl render_runs

abbrev gathered : Result Gathered
gathered = ok (record {
  picture = some (buffer 0x4000001);
  batches =
      record {
        parameters = record (buffer 0x4000002) { kind = slice_parameter };
        payload = record (buffer 0x4000003) { kind = slice_payload };
      }
      ∷ [];
  open_batch = none;
  capacity = 4097;
})

gather_runs : collect_h264_buffers 1 1 backend (0x4000001 ∷ 0x4000002 ∷ 0x4000003 ∷ []) ≡ gathered
unfolding collect_h264_buffers find_buffer find
gather_runs = refl

-- A decoder that grants what it is asked for, with buffers of one byte.
abbrev device : Device
device = record {
  open_file = ok tt;
  has_memory = true;
  query_capability =
      ok (record { is_venus = true; is_decoder = true; capabilities = 67125248; device_caps = 0 });
  subscribe = ok tt;
  set_control = λ id value. ok tt;
  get_format = err einval;
  set_format = λ queue format. ok format;
  request_buffers = λ queue count. ok 1;
  query_buffer = λ queue index. ok (record { plane_count = 1; plane_length = 1 });
  map_memory = λ queue index. ok [];
  queue_buffer = λ queue request. ok tt;
  start = λ queue. ok tt;
  command = ok tt;
}

-- A surface for the pictures, and a configuration that decodes H.264.
abbrev target : Surface
target = record empty_surface {
  used = true;
  id = 0x3000001;
  width = 48;
  height = 32;
  fourcc = nv12;
}

abbrev decoding : Backend
decoding = record (create reset) {
  configs =
      record empty_config { used = true; id = 0x1000001; profile = h264_main; entrypoint = vld }
      ∷ replicate 15 empty_config;
  surfaces = target ∷ replicate 63 empty_surface;
}

decoding-IsLinked : IsLinked decoding
unfolding create
decoding-IsLinked = record {
  sized = refl;
  numbered = ((λ u. refl), IsNumbered-replicate config_slot 1 1 15 empty_config refl);
  linked =
      All-replicate (λ (c : Context). c.used ≡ true → find_config decoding c.config_id ≢ none) 8
        empty_context (λ u. absurd cc);
}

abbrev made : Started
made = record {
  id = 0x2000001;
  decoder = some (record {
    output = record { bytes = 0 ∷ []; queued = false } ∷ [];
    capture = [];
    output_format = record {
      width = 48;
      height = 32;
      pixelformat = 875967048;
      num_planes = 1;
      sizeimage = 2097152;
      bytesperline = 0;
    };
    capture_format = record {
      width = 0;
      height = 0;
      pixelformat = 0;
      num_planes = 0;
      sizeimage = 0;
      bytesperline = 0;
    };
    output_streaming = true;
    capture_streaming = false;
    stop_sent = false;
    source_changes = 0;
    requested_width = 48;
    requested_height = 32;
    requested_raw_format = 842094158;
    coded_format = 875967048;
    requested_capture_buffers = 16;
  });
  backend = record decoding {
    contexts = new_context 0x1000001 48 32 0 ∷ replicate 7 empty_context;
    surfaces = record target { context_id = 0x2000001 } ∷ replicate 63 empty_surface;
  };
}

-- The tables of a context, once it is destroyed: its buffer goes, and its surface is let go.
abbrev held : Backend
held = record made.backend { buffers = buffer 0x4000001 ∷ [] }

abbrev let_go : Backend
let_go = record decoding {
  surfaces =
      record target { context_id = invalid_id; coded_buffer_id = invalid_id }
      ∷ replicate 63 empty_surface;
  buffers = empty_buffer ∷ [];
}

destroy_run : destroy_context held 0x2000001 ≡ va_ok let_go
unfolding destroy_context without_context free_buffer find_context find create
destroy_run = refl

held-IsLinked : IsLinked held
unfolding create find_config find
held-IsLinked = record {
  sized = refl;
  numbered = decoding-IsLinked.numbered;
  linked = ((λ u missing. absurd cc), decoding-IsLinked.linked.1);
}

destroy_context_ok_example : IsDestroyed held let_go 0x2000001
destroy_context_ok_example =
    destroy_context_ok held 0x2000001 held-IsLinked (omega arith) destroy_run
