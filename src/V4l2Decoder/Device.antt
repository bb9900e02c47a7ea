-- ===== src/V4l2Decoder/Device.antt =====
-- The state of src/v4l2_decoder.c, and the answers of the kernel that it consumes.
use venus_vaapi_driver.Common.{
  overwrite, ℕ, zero, suc, Bool, true, false, none, some, List, [], ◌∷◌, length, get_elem?,
}
use venus_vaapi_driver.Common.Results.{Errno, Result, ok, err, eagain, enoent}

-- The two queues of the device: `V4L2_BUF_TYPE_VIDEO_OUTPUT_MPLANE` and `..._CAPTURE_MPLANE`.
pub data Queue : Type 0 where
  output_queue capture_queue : Queue

-- The fields of `struct v4l2_pix_format_mplane` that the driver reads.
pub record PixFormat : Type 0 where
  pub width : ℕ
  pub height : ℕ
  pub pixelformat : ℕ
  pub num_planes : ℕ
  pub sizeimage : ℕ
  pub bytesperline : ℕ

-- `struct mapped_buffer`; its `length` is that of `bytes`.
pub record MappedBuffer : Type 0 where
  pub bytes : List ℕ
  pub queued : Bool

-- `struct venus_v4l2_decoder`; the counts are the lengths of the lists.
pub record Decoder : Type 0 where
  pub output : List MappedBuffer
  pub capture : List MappedBuffer
  pub output_format : PixFormat
  pub capture_format : PixFormat
  pub output_streaming : Bool
  pub capture_streaming : Bool
  pub stop_sent : Bool
  pub source_changes : ℕ
  pub requested_width : ℕ
  pub requested_height : ℕ
  pub requested_raw_format : ℕ
  pub coded_format : ℕ
  pub requested_capture_buffers : ℕ

-- The fields of `struct v4l2_buffer` and of its plane that the driver hands to `VIDIOC_QBUF`.
pub record BufferRequest : Type 0 where
  pub index : ℕ
  pub bytesused : ℕ
  pub plane_length : ℕ
  pub seconds : ℕ
  pub microseconds : ℕ

-- `struct v4l2_capability`: the tests on its two strings, and its flags.
pub record Capability : Type 0 where
  pub is_venus : Bool
  pub is_decoder : Bool
  pub capabilities : ℕ
  pub device_caps : ℕ

-- What `VIDIOC_QUERYBUF` answers.
pub record PlaneReply : Type 0 where
  pub plane_count : ℕ
  pub plane_length : ℕ

-- The answers of the kernel and of the allocator to the calls that are no loop over a queue.
-- A call that `EINTR` interrupts is repeated, so that no answer is one.
pub record Device : Type 0 where
  pub open_file : Result (Unit {0})
  pub has_memory : Bool
  pub query_capability : Result Capability
  pub subscribe : Result (Unit {0})
  pub set_control : ℕ → ℕ → Result (Unit {0})
  pub get_format : Result PixFormat
  pub set_format : Queue → PixFormat → Result PixFormat
  pub request_buffers : Queue → ℕ → Result ℕ
  pub query_buffer : Queue → ℕ → Result PlaneReply
  pub map_memory : Queue → ℕ → Result (List ℕ)
  pub queue_buffer : Queue → BufferRequest → Result (Unit {0})
  pub start : Queue → Result (Unit {0})
  pub command : Result (Unit {0})

-- What `VIDIOC_DQBUF` answers on the capture queue, with the bytes that the device has written
-- and its answer when the buffer is queued again.
pub record Dequeued : Type 0 where
  pub index : ℕ
  pub bytesused : ℕ
  pub data_offset : ℕ
  pub seconds : ℕ
  pub microseconds : ℕ
  pub is_error : Bool
  pub is_last : Bool
  pub contents : List ℕ
  pub requeued : Result (Unit {0})

-- `struct v4l2_event`, and the device as it is when the event is handled.
pub record Event : Type 0 where
  pub type : ℕ
  pub changes : ℕ
  pub device : Device

-- What `poll` answers: the tests are those of `POLLPRI` and of the three error bits.
pub data Poll : Type 0 where
  poll_failed : Errno → Poll
  timed_out : Poll
  ready : (is_priority is_failing : Bool) → Poll

-- One return of `poll`, and what the queues hold then. A list that ends answers `EAGAIN`.
pub record Wake : Type 0 where
  pub poll : Poll
  pub events : List (Result Event)
  pub outputs : List (Result ℕ)
  pub captures : List (Result Dequeued)

-- An array, after a change to the element at an index.
abbrev pub update {ℓ} : {A : Type ℓ} → (A → A) → List A → ℕ → List A
update change [] index = []
update change (x ∷ xs) zero = change x ∷ xs
update change (x ∷ xs) (suc index) = x ∷ update change xs index

abbrev pub mark : Bool → MappedBuffer → MappedBuffer
mark queued buffer = record buffer { queued = queued }

-- The bytes that the device or the driver writes to the start of a buffer.
abbrev pub fill_buffer : List ℕ → MappedBuffer → MappedBuffer
fill_buffer source buffer = record buffer { bytes = overwrite buffer.bytes source }

abbrev pub mapped_length : List MappedBuffer → ℕ → ℕ
mapped_length buffers index = elim (get_elem? buffers index) [
  | none ↦ 0
  | some buffer ↦ length buffer.bytes
]

abbrev pub is_eagain : Errno → Bool
is_eagain code = elim code [ eagain ↦ true | _ ↦ false ]

abbrev pub is_enoent : Errno → Bool
is_enoent code = elim code [ enoent ↦ true | _ ↦ false ]

-- A call that changes a state whether or not it fails.
abbrev pub Outcome {ℓ} : Type ℓ → Type ℓ
Outcome State = State × Result (Unit {0})

-- A call whose failure changes nothing, and whose answer changes the state.
abbrev pub commit {ℓ κ} :
    {State : Type ℓ} {Answer : Type κ} → (Answer → State) → State → Result Answer → Outcome State
commit change state (err code) = (state, err code)
commit change state (ok answer) = (change answer, ok tt)

-- `status = call(); if (status < 0) return status;`
infixl 5 ◌>>>◌
abbrev pub ◌>>>◌ {ℓ} : {State : Type ℓ} → Outcome State → (State → Outcome State) → Outcome State
(state, err code) >>> next = (state, err code)
(state, ok done) >>> next = next state
