-- ===== src/V4l2Decoder/Tests.antt =====
-- Runs of src/v4l2_decoder.c, and its theorems at concrete inputs.
use venus_vaapi_driver.Common.{ℕ, ◌≡◌, refl, ap, Bool, true, false, List, [], ◌∷◌, All, arith}
use venus_vaapi_driver.Common.Results.{Result, ok, err, eio, etimedout, eoverflow, einval}
use venus_vaapi_driver.Decode.{Frame}
use venus_vaapi_driver.V4l2Decoder.Device.{
  PixFormat, MappedBuffer, Decoder, Device, Dequeued, ready, timed_out, Wake,
}
use venus_vaapi_driver.V4l2Decoder.Setup.{
  DecoderConfig, v4l2_pix_fmt_nv12, set_capture_format, set_output_format, request_and_map,
  setup_capture, verify_device,
}
use venus_vaapi_driver.V4l2Decoder.Queues.{
  Pumping, frame_of, start_pump, dequeue_capture, change_format, handle_event, pump,
}
use venus_vaapi_driver.V4l2Decoder.Submission.{
  open_decoder, find_free_output, submit, submit_to, stop,
}
use venus_vaapi_driver.V4l2Decoder.Closing.{close, unmapped_output, unmapped_capture}
use venus_vaapi_driver.V4l2Decoder.Safety.{IsSafe}
use venus_vaapi_driver.V4l2Decoder.Reachable.{opened_by, pumped, Reachable-IsSafe}
use venus_vaapi_driver.V4l2Decoder.Filling.{IsQueued, setup_capture_delivers}
use venus_vaapi_driver.V4l2Decoder.Feeding.{pump-IsFed}
use venus_vaapi_driver.V4l2Decoder.Delivery.{tag-output_request, dequeue_capture-IsDelivered}
use venus_vaapi_driver.V4l2Decoder.Submitting.{IsSubmitted, submit-IsSubmitted}
use venus_vaapi_driver.V4l2Decoder.Liveness.{IsCalm, find_free_output_answers}
use venus_vaapi_driver.V4l2Decoder.Closing.{close_unmaps_all}

abbrev small : PixFormat
small = record {
  width = 2;
  height = 2;
  pixelformat = v4l2_pix_fmt_nv12;
  num_planes = 1;
  sizeimage = 6;
  bytesperline = 2;
}

-- A device that grants what it is asked for, with buffers of eight bytes.
abbrev device : Device
device = record {
  open_file = ok tt;
  has_memory = true;
  query_capability =
      ok (record { is_venus = true; is_decoder = true; capabilities = 67125248; device_caps = 0 });
  subscribe = ok tt;
  set_control = λ id value. ok tt;
  get_format = ok small;
  set_format = λ queue format. ok (record format { sizeimage = 6 });
  request_buffers = λ queue count. ok count;
  query_buffer = λ queue index. ok (record { plane_count = 1; plane_length = 8 });
  map_memory = λ queue index. ok [];
  queue_buffer = λ queue request. ok tt;
  start = λ queue. ok tt;
  command = ok tt;
}

abbrev config : DecoderConfig
config = record {
  coded_format = 875967048;
  raw_format = v4l2_pix_fmt_nv12;
  width = 2;
  height = 2;
  output_buffer_size = 8;
  output_buffers = 1;
  capture_buffers = 2;
}

abbrev empty : Bool → MappedBuffer
empty queued = record { bytes = 0 ∷ 0 ∷ 0 ∷ 0 ∷ 0 ∷ 0 ∷ 0 ∷ 0 ∷ []; queued = queued }

abbrev fresh : Decoder
fresh = record {
  output = empty false ∷ [];
  capture = [];
  output_format = record small { bytesperline = 0; pixelformat = 875967048 };
  capture_format = record {
    width = 0;
    height = 0;
    pixelformat = 0;
    num_planes = 0;
    sizeimage = 0;
    bytesperline = 0;
  };
  output_streaming = true;
  capture_streaming = false;
  stop_sent = false;
  source_changes = 0;
  requested_width = 2;
  requested_height = 2;
  requested_raw_format = v4l2_pix_fmt_nv12;
  coded_format = 875967048;
  requested_capture_buffers = 2;
}

opens : open_decoder device config ≡ ok fresh
unfolding open_decoder set_output_format request_and_map verify_device
opens = refl

-- The decoder once the device has announced the size of the stream.
abbrev delivering : Decoder
delivering = record fresh {
  capture = empty true ∷ empty true ∷ [];
  capture_format = small;
  capture_streaming = true;
}

sets_up : setup_capture device fresh ≡ (delivering, ok tt)
unfolding setup_capture set_capture_format request_and_map
sets_up = refl

setup_capture_delivers_example :
    ((setup_capture device fresh).0.capture_streaming ≡ true)
    × All IsQueued (setup_capture device fresh).0.capture
setup_capture_delivers_example =
    setup_capture_delivers device fresh (λ on. absurd cc) (ap (λ call. call.1) sets_up)

-- A client that keeps the frames that it is given, the last first.
abbrev keep_frame : List Frame → Frame → List Frame × Result (Unit {0})
keep_frame frames frame = (frame ∷ frames, ok tt)

abbrev reply : Dequeued
reply = record {
  index = 1;
  bytesused = 7;
  data_offset = 1;
  seconds = 5;
  microseconds = 1;
  is_error = false;
  is_last = false;
  contents = 9 ∷ 1 ∷ 2 ∷ 3 ∷ 4 ∷ 5 ∷ 6 ∷ [];
  requeued = ok tt;
}

abbrev sent : Frame
sent = record {
  tag = 5000001;
  width = 2;
  height = 2;
  bytes_per_line = 2;
  payload = 1 ∷ 2 ∷ 3 ∷ 4 ∷ 5 ∷ 6 ∷ [];
  is_error = false;
}

frame_run : frame_of delivering reply ≡ sent
unfolding frame_of
frame_run = refl

-- The device announces the size of the stream, and has a frame.
abbrev first_wake : Wake
first_wake = record {
  poll = ready true false;
  events = ok (record { type = 5; changes = 1; device = device }) ∷ [];
  outputs = [];
  captures = ok reply ∷ [];
}

abbrev after_first : Pumping (List Frame)
after_first = record {
  decoder = record delivering {
    capture =
        empty true ∷ record { bytes = 9 ∷ 1 ∷ 2 ∷ 3 ∷ 4 ∷ 5 ∷ 6 ∷ 0 ∷ []; queued = true } ∷ [];
    source_changes = 1;
  };
  client = sent ∷ [];
  made_progress = true;
  end_of_stream = false;
}

first_pump : pump keep_frame first_wake fresh [] ≡ (after_first, ok tt)
unfolding pump dequeue_capture handle_event setup_capture set_capture_format request_and_map
    frame_of
first_pump = refl

Reachable-IsSafe_example : IsSafe (pump keep_frame first_wake fresh []).0.decoder
Reachable-IsSafe_example =
    Reachable-IsSafe (pumped keep_frame first_wake [] (opened_by device config opens))

pump-IsFed_example : All IsQueued (pump keep_frame first_wake fresh []).0.decoder.capture
pump-IsFed_example =
    pump-IsFed keep_frame first_wake fresh [] (λ on. absurd cc) (ap (λ call. call.1) first_pump)
      (ap (λ call. call.0.end_of_stream) first_pump)
      (ap (λ call. call.0.decoder.capture_streaming) first_pump)

-- A wake of a poll that times out leaves the decoder as it is.
no_wake :
    pump keep_frame (record first_wake { poll = timed_out }) fresh []
    ≡ (start_pump keep_frame fresh [], err etimedout)
unfolding pump
no_wake = refl

-- A format whose image is larger than the mapped buffers is refused.
too_large :
    (change_format
      (record device { get_format = ok (record small { sizeimage = 9 }) })
      delivering).1
    ≡ err eoverflow
unfolding change_format
too_large = refl

-- A callback that fails leaves the capture buffer out of the queue.
dropped :
    (pump
      (λ frames frame. ((frame ∷ frames), err einval))
      (record first_wake { events = [] })
      delivering
      []).0.decoder.capture
    ≡ empty true ∷ record { bytes = 9 ∷ 1 ∷ 2 ∷ 3 ∷ 4 ∷ 5 ∷ 6 ∷ 0 ∷ []; queued = false } ∷ []
unfolding pump dequeue_capture frame_of
dropped = refl

dequeue_capture-IsDelivered_example :
    All
      (λ (frame : Frame). frame.width ≡ 2)
      (dequeue_capture keep_frame (ok reply ∷ []) (start_pump keep_frame delivering [])).0.client
dequeue_capture-IsDelivered_example =
    dequeue_capture-IsDelivered (List Frame) keep_frame (All (λ (frame : Frame). frame.width ≡ 2))
      (ok reply ∷ []) (start_pump keep_frame delivering [])
      (λ frames frame sent all. (sent.same_width, all)) tt

tag-output_request_example : (frame_of delivering reply).tag ≡ 5000001
tag-output_request_example =
    tag-output_request fresh delivering 0 2 5000001 reply (omega arith) refl refl

submits : submit keep_frame device [] (1 ∷ 2 ∷ []) 7 fresh [] ≡ (
  (
    record fresh {
      output = record { bytes = 1 ∷ 2 ∷ 0 ∷ 0 ∷ 0 ∷ 0 ∷ 0 ∷ 0 ∷ []; queued = true } ∷ [];
    },
    [],
  ),
  ok tt,
)
unfolding submit submit_to find_free_output
submits = refl

submit-IsSubmitted_example :
    IsSubmitted
      (1 ∷ 2 ∷ [])
      (find_free_output keep_frame [] fresh []).0.0.output
      (submit keep_frame device [] (1 ∷ 2 ∷ []) 7 fresh []).0.0.output
submit-IsSubmitted_example =
    submit-IsSubmitted keep_frame device [] (1 ∷ 2 ∷ []) 7 fresh [] (ap (λ call. call.1) submits)

-- A decoder whose only coded buffer is with the device.
abbrev busy : Decoder
busy = record fresh { output = empty true ∷ [] }

abbrev quiet_wake : Wake
quiet_wake = record { poll = ready false false; events = []; outputs = []; captures = [] }

abbrev return_wake : Wake
return_wake = record quiet_wake { outputs = ok 0 ∷ [] }

quiet-IsCalm : IsCalm 1 quiet_wake
quiet-IsCalm = record {
  is_priority = false;
  polled = refl;
  no_events = refl;
  returns = tt;
  no_captures = refl;
}

return-IsCalm : IsCalm 1 return_wake
return-IsCalm = record {
  is_priority = false;
  polled = refl;
  no_events = refl;
  returns = (omega arith, tt);
  no_captures = refl;
}

find_free_output_answers_example :
    (index : ℕ) × ((find_free_output keep_frame (quiet_wake ∷ return_wake ∷ []) busy []).1
      ≡ ok index)
find_free_output_answers_example =
    find_free_output_answers keep_frame (quiet_wake ∷ []) return_wake [] busy [] (quiet-IsCalm, tt)
      return-IsCalm tt

times_out : (find_free_output keep_frame (quiet_wake ∷ []) busy []).1 ≡ err etimedout
unfolding find_free_output pump dequeue_capture
times_out = refl

stops_once :
    (stop device
      (stop (record device { command = err eio }) (record fresh { stop_sent = true })).0).1
    ≡ ok tt
unfolding stop
stops_once = refl

close_unmaps_all_example :
    (unmapped_output (close delivering) ≡ 0 ∷ [])
    × (unmapped_capture (close delivering) ≡ 0 ∷ 1 ∷ [])
close_unmaps_all_example = close_unmaps_all delivering
