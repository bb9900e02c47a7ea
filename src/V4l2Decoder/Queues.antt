-- ===== src/V4l2Decoder/Queues.antt =====
-- How src/v4l2_decoder.c empties the queues of a device that `poll` reports.
use venus_vaapi_driver.Common.{
  overwrite, ℕ, ◌+◌, ◌-◌, ◌*◌, ◌%◌, ◌^◌, Bool, true, false, not, ◌&&◌, ◌||◌, none, some, List, [],
  ◌∷◌, length, get_elem?, take, drop, bit_and, ltb, leb, ◌==◌, if◌then◌else◌,
}
use venus_vaapi_driver.Common.Results.{
  Result, ok, err, ◌>>=◌, ◌>>◌, fail_if, eio, eagain, eoverflow, etimedout,
}
use venus_vaapi_driver.Decode.{Frame}
use venus_vaapi_driver.V4l2Decoder.Device.{
  PixFormat, Decoder, Device, Dequeued, Event, Poll, poll_failed, timed_out, ready, Wake, update,
  mark, fill_buffer, mapped_length, is_eagain, is_enoent, Outcome, commit, ◌>>>◌,
}
use venus_vaapi_driver.V4l2Decoder.Setup.{capture_queued, setup_capture}

-- A call of `venus_v4l2_decoder_pump`: the decoder, what `opaque` points to, and the flags.
pub record Pumping {ℓ} (Client : Type ℓ) : Type ℓ where
  pub decoder : Decoder
  pub client : Client
  pub made_progress : Bool
  pub end_of_stream : Bool

abbrev pub v4l2_event_source_change : ℕ
v4l2_event_source_change = 5

abbrev pub is_resolution_change : Event → Bool
is_resolution_change event =
    event.type == v4l2_event_source_change && not (bit_and event.changes 1 == 0)

abbrev pub accepts_format : Decoder → PixFormat → Bool
accepts_format decoder format =
    format.pixelformat == decoder.requested_raw_format
    && format.num_planes == 1
    && leb format.sizeimage (mapped_length decoder.capture 0)

-- The format of a stream that changes while frames are delivered.
unfoldable pub change_format : Device → Decoder → Outcome Decoder
change_format device decoder =
    commit (λ format. record decoder { capture_format = format }) decoder
      (device.get_format >>= λ format.
        fail_if (not (accepts_format decoder format)) eoverflow >> ok format)

abbrev pub count_change : Decoder → Decoder
count_change decoder = record decoder { source_changes = (decoder.source_changes + 1) % 2 ^ 32 }

unfoldable pub handle_event : Event → Decoder → Outcome Decoder
handle_event event decoder =
    if not (is_resolution_change event)
    then (decoder, ok tt)
    else if not decoder.capture_streaming
    then setup_capture event.device (count_change decoder)
    else change_format event.device (count_change decoder)

abbrev pub bad_capture : Decoder → Dequeued → Bool
bad_capture decoder reply =
    leb (length decoder.capture) reply.index
    || ltb (mapped_length decoder.capture reply.index) reply.bytesused
    || ltb reply.bytesused reply.data_offset

-- The bytes that the device has written into the buffer that it hands back.
abbrev pub written_bytes : Decoder → Dequeued → List ℕ
written_bytes decoder reply = elim (get_elem? decoder.capture reply.index) [
  | none ↦ []
  | some buffer ↦ overwrite buffer.bytes reply.contents
]

abbrev pub tag_of : (seconds microseconds : ℕ) → ℕ
tag_of seconds microseconds = (seconds * 1000000 + microseconds) % 2 ^ 64

-- The frame that `dequeue_capture` hands to the callback.
unfoldable pub frame_of : Decoder → Dequeued → Frame
frame_of decoder reply = record {
  tag = tag_of reply.seconds reply.microseconds;
  width = decoder.capture_format.width;
  height = decoder.capture_format.height;
  bytes_per_line = decoder.capture_format.bytesperline;
  payload =
      take (reply.bytesused - reply.data_offset)
        (drop reply.data_offset (written_bytes decoder reply));
  is_error = reply.is_error;
}

abbrev pub hand_back : Dequeued → Decoder → Decoder
hand_back reply decoder = record decoder {
  capture =
      update (λ buffer. mark false (fill_buffer reply.contents buffer)) decoder.capture reply.index;
}

abbrev pub on_decoder {ℓ} :
    {Client : Type ℓ} → (Decoder → Outcome Decoder) → Pumping Client → Outcome (Pumping Client)
on_decoder call pumping =
    let (decoder, status) = call pumping.decoder in (record pumping { decoder = decoder }, status)

module _ {ℓ} {Client : Type ℓ} where
  -- `dequeue_events`.
  abbrev pub dequeue_events : List (Result Event) → Pumping Client → Outcome (Pumping Client)
  dequeue_events [] pumping = (pumping, ok tt)
  dequeue_events (err code ∷ replies) pumping =
      (pumping, (if is_eagain code || is_enoent code then ok tt else err code))
  dequeue_events (ok event ∷ replies) pumping =
      on_decoder (handle_event event) (record pumping { made_progress = true })
      >>> dequeue_events replies

  abbrev pub release_output : ℕ → Pumping Client → Pumping Client
  release_output index pumping = record pumping {
    decoder = record pumping.decoder { output = update (mark false) pumping.decoder.output index };
    made_progress = true;
  }

  -- `dequeue_output`.
  abbrev pub dequeue_output : List (Result ℕ) → Pumping Client → Outcome (Pumping Client)
  dequeue_output [] pumping = (pumping, ok tt)
  dequeue_output (err code ∷ replies) pumping =
      (pumping, (if is_eagain code then ok tt else err code))
  dequeue_output (ok index ∷ replies) pumping =
      if leb (length pumping.decoder.output) index
      then (pumping, err eio)
      else dequeue_output replies (release_output index pumping)

  abbrev pub take_back : Dequeued → Pumping Client → Pumping Client
  take_back reply pumping = record pumping {
    decoder = hand_back reply pumping.decoder;
    made_progress = true;
  }

module _ {ℓ} {Client : Type ℓ} (callback : Client → Frame → Client × Result (Unit {0})) where
  abbrev pub deliver : (size : ℕ) → Frame → Pumping Client → Outcome (Pumping Client)
  deliver size frame pumping =
      if size == 0
      then (pumping, ok tt)
      else let (client, status) = callback pumping.client frame in
        (record pumping { client = client }, status)

  abbrev pub requeue : Dequeued → Pumping Client → Outcome (Pumping Client)
  requeue reply = on_decoder (capture_queued reply.requeued reply.index)

  -- One round of the loop of `dequeue_capture`, up to its end or to its next call.
  abbrev pub capture_round : Dequeued → Pumping Client → Outcome (Pumping Client)
  capture_round reply pumping =
      if bad_capture pumping.decoder reply
      then (pumping, err eio)
      else deliver (reply.bytesused - reply.data_offset) (frame_of pumping.decoder reply)
          (take_back reply pumping)

  abbrev pub capture_loop : List (Result Dequeued) → Pumping Client → Outcome (Pumping Client)
  capture_loop [] pumping = (pumping, ok tt)
  capture_loop (err code ∷ replies) pumping =
      (pumping, (if is_eagain code then ok tt else err code))
  capture_loop (ok reply ∷ replies) pumping = capture_round reply pumping >>> λ delivered.
      if reply.is_last
      then (record delivered { end_of_stream = true }, ok tt)
      else (requeue reply delivered >>> capture_loop replies)

  unfoldable pub dequeue_capture :
      List (Result Dequeued) → Pumping Client → Outcome (Pumping Client)
  dequeue_capture replies pumping =
      if pumping.decoder.capture_streaming then capture_loop replies pumping else (pumping, ok tt)

  abbrev pub pump_status : Bool → Pumping Client → Outcome (Pumping Client)
  pump_status is_failing pumping =
      if pumping.made_progress
      then (pumping, ok tt)
      else if is_failing
      then (pumping, err eio)
      else (pumping, err eagain)

  abbrev pub poll_events : Bool → List (Result Event) → Pumping Client → Outcome (Pumping Client)
  poll_events is_priority events pumping =
      if is_priority then dequeue_events events pumping else (pumping, ok tt)

  abbrev pub pump_ready : Wake → Poll → Pumping Client → Outcome (Pumping Client)
  pump_ready wake (poll_failed code) pumping = (pumping, err code)
  pump_ready wake timed_out pumping = (pumping, err etimedout)
  pump_ready wake (ready is_priority is_failing) pumping =
      poll_events is_priority wake.events pumping
      >>> dequeue_output wake.outputs
      >>> dequeue_capture wake.captures
      >>> pump_status is_failing

  abbrev pub start_pump : Decoder → Client → Pumping Client
  start_pump decoder client = record {
    decoder = decoder;
    client = client;
    made_progress = false;
    end_of_stream = false;
  }

  -- `venus_v4l2_decoder_pump`, of an open decoder and a timeout that is not negative.
  unfoldable pub pump : Wake → Decoder → Client → Outcome (Pumping Client)
  pump wake decoder client = pump_ready wake wake.poll (start_pump decoder client)
