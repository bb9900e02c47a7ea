-- ===== src/Encode/Tests.antt =====
-- Runs of src/encode.c, and its theorems at concrete inputs.
use venus_vaapi_driver.Common.{
  ℕ, ◌+◌, ◌*◌, ◌^◌, ◌≤◌, ◌≡◌, refl, true, false, Option, some, List, [], ◌∷◌, ◌++◌, arith, take,
  drop, replicate, All-replicate,
}
use venus_vaapi_driver.Common.Int.{pos}
use venus_vaapi_driver.Common.Results.{ok}
use venus_vaapi_driver.VaTypes.{
  enc_coded, enc_picture_parameter, enc_slice_parameter, enc_packed_header_parameter,
  enc_packed_header_payload, BufferType, invalid_id,
}
use venus_vaapi_driver.Capabilities.{reset}
use venus_vaapi_driver.Backend.{
  Buffer, Context, Backend, empty_buffer, empty_context, empty_surface, find_buffer, find_surface,
}
use venus_vaapi_driver.Backend.Table.{find}
use venus_vaapi_driver.Encode.{
  Packet, queue_coded_buffer, pushed, rollback_coded_buffer, remove_entry, store_packet, is_coded,
}
use venus_vaapi_driver.Encode.Ring.{waiting, IsRing, IsQueued, queue_coded_buffer_ok}
use venus_vaapi_driver.Encode.Rollback.{IsRolledBack, rollback-queue_coded_buffer}
use venus_vaapi_driver.Encode.Removal.{remove_entry-waiting}
use venus_vaapi_driver.Encode.Packets.{IsCodedBuffer, AreCoded, IsStored}
use venus_vaapi_driver.Encode.Storage.{store_packet_ok}
use venus_vaapi_driver.Encode.Rates.{SequenceH264, parse_frame_rate, apply_native_mode, cqp_bitrate}
use venus_vaapi_driver.Encode.Limits.{IsEncodable, apply_native_mode_ok, IsNative}
use venus_vaapi_driver.Encode.Parameters.{
  Layout, Collected, misc_hrd, collect_parameters, nothing_yet, parse_slice_parameters,
}
use venus_vaapi_driver.Encode.Protocol.{kinds, run, collect_parameters-accepted}

-- Two coded buffers of eight bytes. The second stands in the queue, which begins at the array's
-- last entry, under the tag 9, with three bytes stored.
abbrev coded_buffer : ℕ → ℕ → ℕ → Buffer
coded_buffer id tag size = record empty_buffer {
  used = true;
  id = id;
  context_id = 0x2000001;
  kind = enc_coded;
  element_size = 8;
  capacity_elements = 1;
  num_elements = 1;
  bytes = 1 ∷ 2 ∷ 3 ∷ 0 ∷ 0 ∷ 0 ∷ 0 ∷ 0 ∷ [];
  coded_tag = tag;
  coded_size = size;
}

abbrev first : ℕ
first = 0x4000001

abbrev second : ℕ
second = 0x4000002

abbrev backend_with : Buffer → Buffer → Backend
backend_with a b = record {
  capabilities = reset;
  configs = [];
  contexts = [];
  surfaces = replicate 64 empty_surface;
  buffers = a ∷ b ∷ replicate 510 empty_buffer;
  images = [];
}

abbrev backend : Backend
backend = backend_with (coded_buffer first 0 0) (coded_buffer second 9 3)

abbrev context : Context
context = record empty_context {
  used = true;
  id = 0x2000001;
  encode_queue = replicate 63 0 ++ second ∷ [];
  encode_queue_head = 63;
  encode_queue_count = 1;
  encode_sequence = 4;
}

ring : IsRing context
ring = record { whole = refl; fits = omega arith }

abbrev queued : Backend
queued =
    backend_with (record (coded_buffer first 0 0) { coded_sequence = 4; coded_tag = 7 })
      (coded_buffer second 9 3)

queue_runs : queue_coded_buffer backend context first 7 ≡ ok (queued, pushed context first)
unfolding queue_coded_buffer find_buffer find
queue_runs = refl

queue_coded_buffer_ok_example : IsQueued context (pushed context first) queued first 7
queue_coded_buffer_ok_example =
    queue_coded_buffer_ok backend context first 7 queued (pushed context first) ring refl queue_runs

rollback-queue_coded_buffer_example :
    IsRolledBack context (rollback_coded_buffer queued (pushed context first) first) first
rollback-queue_coded_buffer_example =
    rollback-queue_coded_buffer backend context first 7 queued (pushed context first) ring refl
      queue_runs

remove_entry-waiting_example :
    (waiting (remove_entry context 0) ≡ take 0 (waiting context) ++ drop 1 (waiting context))
    × IsRing (remove_entry context 0)
remove_entry-waiting_example = remove_entry-waiting context 0 ring (omega arith)

abbrev packet : Packet
packet = record { tag = 9; payload = 4 ∷ 5 ∷ []; is_error = false; has_frame_type = true }

abbrev stored : Backend
stored = backend_with (coded_buffer first 0 0) (record (coded_buffer second 9 5) {
  bytes = 1 ∷ 2 ∷ 3 ∷ 4 ∷ 5 ∷ 0 ∷ 0 ∷ 0 ∷ [];
  coded_ready = true;
  coded_packets = 1;
  segment_size = 5;
})

store_runs : store_packet backend context packet ≡ ((stored, remove_entry context 0), ok tt)
unfolding store_packet find_buffer find_surface find
store_runs = refl

coded_is : (id tag size : ℕ) → size ≤ 8 → IsCodedBuffer (coded_buffer id tag size)
coded_is id tag size le = record { allocated = refl; filled = omega arith }

coded : AreCoded backend
coded = (
  (λ e. coded_is first 0 0 (omega arith)),
  (
    (λ e. coded_is second 9 3 (omega arith)),
    All-replicate (λ (b : Buffer). is_coded b.kind ≡ true → IsCodedBuffer b) 510 empty_buffer
        (λ e. cc),
  ),
)

store_packet_ok_example : IsStored backend context packet (stored, remove_entry context 0)
store_packet_ok_example =
    store_packet_ok backend context packet ring refl coded (stored, remove_entry context 0)
      store_runs

abbrev sequence : SequenceH264
sequence = record {
  level_idc = 40;
  picture_width_in_mbs = 120;
  picture_height_in_mbs = 68;
  chroma_format_idc = 1;
  frame_mbs_only_flag = true;
  bit_depth_luma_minus8 = 0;
  bit_depth_chroma_minus8 = 0;
  frame_cropping_flag = true;
  frame_crop_left_offset = 0;
  frame_crop_right_offset = 0;
  frame_crop_top_offset = 0;
  frame_crop_bottom_offset = 4;
}

-- 30000 / 1001.
abbrev rate_word : ℕ
rate_word = 1001 * 2 ^ 16 + 30000

frame_rate : parse_frame_rate rate_word ≡ ok 30
unfolding parse_frame_rate
frame_rate = refl

bitrate_22 : cqp_bitrate 1920 1080 30 22 ≡ ok 20736000
unfolding cqp_bitrate
bitrate_22 = refl

bitrate_32 : cqp_bitrate 1920 1080 30 32 ≡ ok 13824000
unfolding cqp_bitrate
bitrate_32 = refl

encodable : IsEncodable 1920 1080
encodable = record {
  min_w = omega arith;
  max_w = omega arith;
  min_h = omega arith;
  max_h = omega arith;
  even_w = refl;
  even_h = refl;
}

abbrev scan : List ℕ → Option (ℕ × ℕ)
scan mode = some (1080, 1920)

native : apply_native_mode scan (some (49 ∷ [])) 1920 1088 1920 1088 ≡ ok (1920, 1080, true)
unfolding apply_native_mode
native = refl

apply_native_mode_ok_example : IsNative 1920 1088 1920 1088 scan (some (49 ∷ [])) (1920, 1080, true)
apply_native_mode_ok_example =
    apply_native_mode_ok scan (some (49 ∷ [])) 1920 1088 1920 1088 (1920, 1080, true) native

-- A layout in which each structure is one byte.
abbrev layout : Layout
layout = record {
  sequence_size = 1;
  picture_size = 1;
  slice_size = 1;
  packed_size = 1;
  matrix_size = 1;
  misc_size = 1;
  rate_control_size = 1;
  frame_rate_size = 1;
  read_slice = λ bytes. record {
    slice_type = 2;
    num_macroblocks = 1;
    macroblock_info = invalid_id;
    slice_qp_delta = pos 0;
  };
  read_hevc_slice = λ bytes. record {
    slice_type = 2;
    slice_segment_address = 0;
    num_ctu_in_slice = 1;
    slice_qp_delta = pos 0;
  };
  read_packed = λ bytes. record { header_type = 4; bit_length = 8 };
  read_misc = λ bytes. misc_hrd;
  read_idr = λ bytes. true;
}

abbrev parameter_buffer : ℕ → BufferType → Buffer
parameter_buffer id kind = record empty_buffer {
  used = true;
  id = id;
  kind = kind;
  element_size = 1;
  capacity_elements = 1;
  num_elements = 1;
  bytes = 0 ∷ [];
}

abbrev parameters : Backend
parameters = record backend {
  buffers =
      parameter_buffer 0x4000001 enc_picture_parameter
      ∷ parameter_buffer 0x4000002 enc_packed_header_parameter
      ∷ parameter_buffer 0x4000003 enc_packed_header_payload
      ∷ parameter_buffer 0x4000004 enc_slice_parameter
      ∷ [];
}

abbrev pending : List ℕ
pending = 0x4000001 ∷ 0x4000002 ∷ 0x4000003 ∷ 0x4000004 ∷ []

abbrev collected : Collected
collected = record nothing_yet { picture = some (0 ∷ []); has_slice = true; has_aud = true }

collect_runs : collect_parameters layout parameters pending ≡ ok collected
unfolding collect_parameters parse_slice_parameters find_buffer find
collect_runs = refl

collect_parameters-accepted_example :
    run
      (kinds parameters pending)
      (record { sequence = false; picture = false; slice = false; packed = false })
    ≡ some (record { sequence = false; picture = true; slice = true; packed = false })
collect_parameters-accepted_example =
    collect_parameters-accepted layout parameters pending collected collect_runs
