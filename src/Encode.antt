-- ===== src/Encode.antt =====
-- src/encode.c: the queue of coded buffers that wait for their packets, a ring in the context. The
-- children model the parameters of a picture and the rates.
pub mod Ring
pub mod Rollback
pub mod Removal
pub mod Packets
pub mod Storage
pub mod Rates
pub mod Limits
pub mod Parameters
pub mod Protocol
mod Tests
use venus_vaapi_driver.Common.{
  ℕ, zero, suc, ◌+◌, ◌-◌, ◌*◌, ◌/◌, ◌%◌, ◌^◌, Bool, true, false, not, ◌&&◌, ◌||◌, Option, none,
  some, List, [], ◌∷◌, ◌++◌, ltb, leb, ◌==◌, length, get_elem?, set, take, drop, if◌then◌else◌,
}
use venus_vaapi_driver.Common.Results.{Result, ok, err, einval, enospc, enoent, ealready, eoverflow}
use venus_vaapi_driver.VaTypes.{BufferType, enc_coded, invalid_id}
use venus_vaapi_driver.Backend.{
  Surface, Buffer, Context, Backend, max_surfaces, find_surface, find_buffer,
}

-- A context is passed beside the backend: none of these functions reads it from the table.
abbrev pub is_coded : BufferType → Bool
is_coded enc_coded = true
is_coded _ = false

abbrev pub or_invalid : Option ℕ → ℕ
or_invalid none = invalid_id
or_invalid (some id) = id

-- The entry that stands `offset` behind the head. `max_surfaces` is the length of the array.
abbrev pub entry_at : List ℕ → ℕ → ℕ → ℕ
entry_at queue head offset = or_invalid (get_elem? queue ((head + offset) % max_surfaces))

abbrev pub set_entry : List ℕ → ℕ → ℕ → ℕ → List ℕ
set_entry queue head offset id = set queue ((head + offset) % max_surfaces) id

-- The search from `offset` on, over `n` entries.
abbrev pub is_queued : List ℕ → ℕ → ℕ → ℕ → ℕ → Bool
is_queued queue head offset zero id = false
is_queued queue head offset (suc n) id =
    entry_at queue head offset == id || is_queued queue head (offset + 1) n id

abbrev pub set_buffer : Backend → ℕ → Buffer → Backend
set_buffer backend index buffer = record backend { buffers = set backend.buffers index buffer }

abbrev pub set_surface : Backend → ℕ → Surface → Backend
set_surface backend index surface = record backend { surfaces = set backend.surfaces index surface }

abbrev pub stamped : Context → Buffer → ℕ → Buffer
stamped context buffer tag = record buffer {
  coded_sequence = context.encode_sequence;
  coded_tag = tag;
}

unfoldable pub pushed : Context → ℕ → Context
pushed context id = record context {
  encode_queue =
      set_entry context.encode_queue context.encode_queue_head context.encode_queue_count id;
  encode_queue_count = context.encode_queue_count + 1;
}

abbrev pub queue_found :
    Backend → Context → ℕ → ℕ → Option (ℕ × Buffer) → Result (Backend × Context)
queue_found backend context id tag none = err enoent
queue_found backend context id tag (some (index, buffer)) =
    if not (is_coded buffer.kind) || not (buffer.context_id == context.id)
    then err enoent
    else if is_queued context.encode_queue context.encode_queue_head 0 context.encode_queue_count id
    then err ealready
    else ok (set_buffer backend index (stamped context buffer tag), pushed context id)

unfoldable pub queue_coded_buffer : Backend → Context → ℕ → ℕ → Result (Backend × Context)
queue_coded_buffer backend context id tag =
    if tag == 0
    then err einval
    else if leb max_surfaces context.encode_queue_count
    then err enospc
    else queue_found backend context id tag (find_buffer backend id)

-- The loop of `remove_encode_queue_entry`, for `n` turns.
abbrev pub move_up : List ℕ → ℕ → ℕ → ℕ → List ℕ
move_up queue head index zero = queue
move_up queue head index (suc n) =
    move_up (set_entry queue head index (entry_at queue head (index + 1))) head (index + 1) n

unfoldable pub remove_entry : Context → ℕ → Context
remove_entry context offset = record context {
  encode_queue =
      move_up context.encode_queue context.encode_queue_head offset
        (context.encode_queue_count - 1 - offset);
  encode_queue_count = context.encode_queue_count - 1;
}

abbrev pub forget_coded : Backend → Option (ℕ × Buffer) → Backend
forget_coded backend none = backend
forget_coded backend (some (index, buffer)) =
    set_buffer backend index (record buffer { coded_sequence = 0; coded_tag = 0 })

unfoldable pub rollback_coded_buffer : Backend → Context → ℕ → Backend × Context
rollback_coded_buffer backend context id =
    if context.encode_queue_count == 0
    then (backend, context)
    else if entry_at context.encode_queue context.encode_queue_head (context.encode_queue_count - 1)
        == id
    then (
      forget_coded backend (find_buffer backend id),
      record context { encode_queue_count = context.encode_queue_count - 1 },
    )
    else (backend, context)

-- `struct venus_v4l2_packet`. `has_frame_type` holds when `flags` has a key, P or B frame's bit,
-- `is_error` when it has `V4L2_BUF_FLAG_ERROR`.
pub record Packet : Type 0 where
  pub tag : ℕ
  pub payload : List ℕ
  pub is_error : Bool
  pub has_frame_type : Bool

-- The search of `venus_encode_store_packet_locked`: the offset of the first entry whose buffer
-- waits for the tag, and the buffer.
abbrev pub entry_tagged :
    ℕ → ℕ → Option (ℕ × Buffer) → Option (ℕ × ℕ × Buffer) → Option (ℕ × ℕ × Buffer)
entry_tagged offset tag none later = later
entry_tagged offset tag (some (index, buffer)) later =
    if is_coded buffer.kind && buffer.coded_tag == tag then some (offset, index, buffer) else later

abbrev pub find_tagged : Backend → List ℕ → ℕ → ℕ → ℕ → ℕ → Option (ℕ × ℕ × Buffer)
find_tagged backend queue head offset zero tag = none
find_tagged backend queue head offset (suc n) tag =
    entry_tagged offset tag (find_buffer backend (entry_at queue head offset))
      (find_tagged backend queue head (offset + 1) n tag)

abbrev pub size_max : ℕ
size_max = 2 ^ 64 - 1

-- `memcpy(bytes + offset, source, length)` within the bounds.
abbrev pub copy_to : List ℕ → ℕ → List ℕ → List ℕ
copy_to bytes offset source = take offset bytes ++ source ++ drop (offset + length source) bytes

abbrev pub appended : Buffer → Packet → Buffer
appended buffer packet = record buffer {
  bytes = copy_to buffer.bytes buffer.coded_size packet.payload;
  coded_size = buffer.coded_size + length packet.payload;
  coded_packets = buffer.coded_packets + 1;
  segment_size = (buffer.coded_size + length packet.payload) % 2 ^ 32;
  coded_bad_bitstream = buffer.coded_bad_bitstream || packet.is_error;
}

-- `if (surface && surface->coded_buffer_id == buffer->id && ...) surface->encode_pending = false;`
abbrev pub release_source : Backend → ℕ → Bool → Option (ℕ × Surface) → Backend
release_source backend id done none = backend
release_source backend id done (some (index, surface)) =
    if surface.coded_buffer_id == id && done
    then set_surface backend index (record surface { encode_pending = false })
    else backend

abbrev pub buffer_capacity : Buffer → ℕ
buffer_capacity buffer = buffer.element_size * buffer.capacity_elements

-- What the packet does to the entry that waits for it. The state is returned beside the status,
-- since a refused packet marks its buffer. No buffer holds more than its capacity, so that the
-- difference does not wrap, and none has zero elements.
abbrev pub store_found :
    Backend → Context → Packet → Option (ℕ × ℕ × Buffer) → (Backend × Context) × Result (Unit {0})
store_found backend context packet none = ((backend, context), err enoent)
store_found backend context packet (some (offset, index, buffer)) =
    if ltb (size_max / buffer.capacity_elements) buffer.element_size
    then ((backend, context), err eoverflow)
    else if ltb (buffer_capacity buffer - buffer.coded_size) (length packet.payload)
    then ((set_buffer backend index (record buffer { coded_overflow = true }), context), err enospc)
    else if not packet.has_frame_type
    then ((set_buffer backend index (appended buffer packet), context), ok tt)
    else let stored =
        set_buffer backend index (record (appended buffer packet) { coded_ready = true }) in
      (
        (
          release_source stored buffer.id buffer.input_done
              (find_surface stored buffer.source_surface_id),
          remove_entry context offset,
        ),
        ok tt,
      )

unfoldable pub store_packet : Backend → Context → Packet → (Backend × Context) × Result (Unit {0})
store_packet backend context packet =
    if packet.tag == 0 || context.encode_queue_count == 0
    then ((backend, context), err einval)
    else store_found backend context packet (
        find_tagged backend context.encode_queue context.encode_queue_head 0
          context.encode_queue_count packet.tag)

abbrev pub waits_for : Context → ℕ → Buffer → Bool
waits_for context tag buffer =
    buffer.used
    && is_coded buffer.kind
    && buffer.context_id == context.id
    && buffer.coded_tag == tag

abbrev find_waiting : ℕ → List Buffer → Context → ℕ → Option (ℕ × Buffer)
find_waiting index [] context tag = none
find_waiting index (buffer ∷ buffers) context tag =
    let rest = find_waiting (index + 1) buffers context tag in
    if waits_for context tag buffer then some (index, buffer) else rest

abbrev output_done_found : Backend → Option (ℕ × Buffer) → Result Backend
output_done_found backend none = err enoent
output_done_found backend (some (index, buffer)) =
    let marked = set_buffer backend index (record buffer { input_done = true }) in
    ok (
      release_source marked buffer.id buffer.coded_ready
        (find_surface marked buffer.source_surface_id))

unfoldable pub store_output_done : Backend → Context → ℕ → Result Backend
store_output_done backend context tag =
    output_done_found backend (find_waiting 0 backend.buffers context tag)
