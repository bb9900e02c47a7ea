-- ===== src/Decode.antt =====
-- src/decode.c: the buffers of a picture, and the frames that come back from the decoder.
pub mod Pictures
pub mod Frames
pub mod Contexts
pub mod Lifetimes
pub mod Targets
pub mod Creation
mod Tests
use venus_vaapi_driver.Common.{
  ℕ, ◌+◌, ◌-◌, ◌*◌, ◌/◌, ◌%◌, ◌^◌, Bool, true, false, not, ◌&&◌, ◌||◌, Option, none, some, List, [],
  ◌∷◌, ◌++◌, ltb, leb, ◌==◌, length, set, if◌then◌else◌,
}
use venus_vaapi_driver.Common.Results.{
  Result, ok, err, einval, enotsup, eoverflow, enoent, eio, ◌>>=◌,
}
use venus_vaapi_driver.VaTypes.{
  BufferType, picture_parameter, iq_matrix, slice_parameter, slice_payload, Fourcc, nv12, p010,
  VaResult, va_ok, va_err, invalid_context, invalid_buffer, max_num_exceeded,
}
use venus_vaapi_driver.Backend.{
  Surface, Buffer, Context, Backend, find_context, find_surface, find_buffer,
}
use venus_vaapi_driver.Objects.{size_limit, is_odd, bytes_per_sample, copy_from_yuv420}

abbrev pub max_pending_buffers : ℕ
max_pending_buffers = 128

-- The second loop of backend_render_picture, which tests the buffers.
abbrev pub owns : ℕ → Option (ℕ × Buffer) → Bool
owns id none = false
owns id (some (index, buffer)) = buffer.context_id == id

abbrev pub owns_all : Backend → ℕ → List ℕ → Bool
owns_all backend id [] = true
owns_all backend id (buffer ∷ buffers) =
    owns id (find_buffer backend buffer) && owns_all backend id buffers

abbrev pub set_context : Backend → ℕ → Context → Backend
set_context backend index context = record backend { contexts = set backend.contexts index context }

abbrev pub render_found : Backend → ℕ → List ℕ → Option (ℕ × Context) → VaResult Backend
render_found backend id buffers none = va_err invalid_context
render_found backend id buffers (some (index, context)) =
    if not context.in_picture
    then va_err invalid_context
    else if ltb max_pending_buffers (length context.pending + length buffers)
    then va_err max_num_exceeded
    else if not (owns_all backend id buffers)
    then va_err invalid_buffer
    else va_ok (set_context backend index (record context { pending = context.pending ++ buffers }))

-- `pending` is the part of the array before `pending_count`.
unfoldable pub render_picture : Backend → ℕ → List ℕ → VaResult Backend
render_picture backend id buffers = render_found backend id buffers (find_context backend id)

-- `struct venus_v4l2_frame`; `is_error` holds when `flags` has `V4L2_BUF_FLAG_ERROR`.
pub record Frame : Type 0 where
  pub tag : ℕ
  pub width : ℕ
  pub height : ℕ
  pub bytes_per_line : ℕ
  pub payload : List ℕ
  pub is_error : Bool

abbrev pub frame_row_bytes : Surface → Frame → ℕ
frame_row_bytes surface frame = frame.width * bytes_per_sample surface.fourcc % 2 ^ 32

abbrev pub frame_stride : Surface → Frame → ℕ
frame_stride surface frame =
    if frame.bytes_per_line == 0 then frame_row_bytes surface frame else frame.bytes_per_line

abbrev pub store_result : Backend → ℕ → Surface × Result (Unit {0}) → Backend × Result (Unit {0})
store_result backend index (surface, status) =
    (record backend { surfaces = set backend.surfaces index surface }, status)

abbrev pub store_in :
    (begin_sync end_sync : Result (Unit {0}))
    → Backend
    → Frame
    → Option (ℕ × Surface)
    → Backend × Result (Unit {0})
store_in begin_sync end_sync backend frame none = (backend, err enoent)
store_in begin_sync end_sync backend frame (some (index, surface)) =
    if ltb frame.width surface.width || ltb frame.height surface.height
    then (backend, err einval)
    else if bytes_per_sample surface.fourcc == 0
    then (backend, err enotsup)
    else if ltb (frame_stride surface frame) (frame_row_bytes surface frame)
        || ltb (size_limit / frame.height) (frame_stride surface frame)
    then (backend, err einval)
    else store_result backend index (
        copy_from_yuv420 begin_sync end_sync surface frame.payload (frame_stride surface frame)
          (frame_stride surface frame * frame.height) surface.width surface.height)

-- `venus_decode_store_frame_locked`, with the answers of the two synchronisations.
unfoldable pub store_frame :
    (begin_sync end_sync : Result (Unit {0})) → Backend → Frame → Backend × Result (Unit {0})
store_frame begin_sync end_sync backend frame =
    if ltb (2 ^ 32 - 1) frame.tag
      || frame.width == 0
      || frame.height == 0
      || is_odd frame.width
      || is_odd frame.height
    then (backend, err einval)
    else if frame.is_error
    then (backend, err eio)
    else store_in begin_sync end_sync backend frame (find_surface backend frame.tag)

abbrev pub access_unit_overhead : ℕ
access_unit_overhead = 4096

-- A batch: the buffer of the slice parameters, and that of their data.
pub record Batch : Type 0 where
  pub parameters : Buffer
  pub payload : Buffer

-- The locals of `collect_h264_buffers`; `open_batch` is `slice_parameters`.
pub record Gathered : Type 0 where
  pub picture : Option Buffer
  pub batches : List Batch
  pub open_batch : Option Buffer
  pub capacity : ℕ

abbrev pub present {ℓ} : {A : Type ℓ} → Option A → Bool
present none = false
present (some a) = true

abbrev pub max_slice_batches : ℕ
max_slice_batches = 64

module _ (picture_size slice_size : ℕ) where
  abbrev close_batch : Option Buffer → Buffer → Gathered → Result Gathered
  close_batch none buffer state = err einval
  close_batch (some parameters) buffer state =
      if leb max_slice_batches (length state.batches)
      then err einval
      else if ltb (size_limit - state.capacity) (buffer.element_size * buffer.num_elements)
      then err eoverflow
      else ok (record state {
        batches = state.batches ++ record { parameters = parameters; payload = buffer } ∷ [];
        open_batch = none;
        capacity = state.capacity + buffer.element_size * buffer.num_elements;
      })

  -- The switch of `collect_h264_buffers`. The sizes are those of libva's structures.
  abbrev pub gather_step : BufferType → Buffer → Gathered → Result Gathered
  gather_step picture_parameter buffer state =
      if present state.picture
        || not (buffer.num_elements == 1)
        || ltb buffer.element_size picture_size
      then err einval
      else ok (record state { picture = some buffer })
  gather_step iq_matrix buffer state = ok state
  gather_step slice_parameter buffer state =
      if present state.open_batch || ltb buffer.element_size slice_size
      then err einval
      else ok (record state { open_batch = some buffer })
  gather_step slice_payload buffer state = close_batch state.open_batch buffer state
  gather_step _ buffer state = err enotsup

  abbrev gather_found : Option (ℕ × Buffer) → Gathered → Result Gathered
  gather_found none state = err einval
  gather_found (some (index, buffer)) state =
      if ltb (size_limit / buffer.num_elements) buffer.element_size
      then err einval
      else gather_step buffer.kind buffer state

  abbrev pub gather : Backend → List ℕ → Gathered → Result Gathered
  gather backend [] state = ok state
  gather backend (id ∷ pending) state =
      gather_found (find_buffer backend id) state >>= gather backend pending

  unfoldable pub collect_h264_buffers : Backend → List ℕ → Result Gathered
  collect_h264_buffers backend pending =
      gather backend pending (record {
        picture = none;
        batches = [];
        open_batch = none;
        capacity = access_unit_overhead;
      })
      >>= λ state.
          if not (present state.picture) || length state.batches == 0 || present state.open_batch
          then err einval
          else ok state
