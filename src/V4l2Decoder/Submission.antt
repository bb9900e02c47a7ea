-- ===== src/V4l2Decoder/Submission.antt =====
-- How src/v4l2_decoder.c opens a decoder, hands coded data to it, and stops it.
use venus_vaapi_driver.Common.{
  ℕ, suc, ◌-◌, ◌/◌, ◌%◌, ◌^◌, Bool, true, false, not, ◌&&◌, ◌||◌, Option, none, some, List, [], ◌∷◌,
  length, ltb, ◌==◌, if◌then◌else◌,
}
use venus_vaapi_driver.Common.Results.{
  Result, ok, err, einval, enomem, enospc, etimedout, ◌>>=◌, ◌>>◌, fail_if,
}
use venus_vaapi_driver.Decode.{Frame}
use venus_vaapi_driver.V4l2Decoder.Device.{
  output_queue, MappedBuffer, Decoder, BufferRequest, Device, Wake, update, mark, fill_buffer,
  mapped_length, is_eagain, Outcome, commit,
}
use venus_vaapi_driver.V4l2Decoder.Setup.{
  DecoderConfig, no_format, set_output_format, request_and_map, stream_on, verify_device,
  v4l2_pix_fmt_nv12, v4l2_pix_fmt_p010, v4l2_pix_fmt_hevc,
}
use venus_vaapi_driver.V4l2Decoder.Queues.{pump}

abbrev pub bad_config : DecoderConfig → Bool
bad_config config =
    not (config.raw_format == v4l2_pix_fmt_nv12) && not (config.raw_format == v4l2_pix_fmt_p010)
    || config.raw_format == v4l2_pix_fmt_p010 && not (config.coded_format == v4l2_pix_fmt_hevc)
    || config.width == 0
    || config.height == 0
    || config.output_buffer_size == 0
    || ltb (2 ^ 32 - 1) config.output_buffer_size
    || config.output_buffers == 0
    || config.capture_buffers == 0

abbrev pub initial_decoder : DecoderConfig → Decoder
initial_decoder config = record {
  output = [];
  capture = [];
  output_format = no_format;
  capture_format = no_format;
  output_streaming = false;
  capture_streaming = false;
  stop_sent = false;
  source_changes = 0;
  requested_width = config.width;
  requested_height = config.height;
  requested_raw_format = config.raw_format;
  coded_format = config.coded_format;
  requested_capture_buffers = config.capture_buffers;
}

abbrev pub v4l2_cid_dec_display_delay : ℕ
v4l2_cid_dec_display_delay = 10029965

abbrev pub v4l2_cid_dec_display_delay_enable : ℕ
v4l2_cid_dec_display_delay_enable = 10029966

-- A kernel that does not know the event answers `EINVAL`, which is no failure.
abbrev pub subscribed : Result (Unit {0}) → Result (Unit {0})
subscribed answer = elim answer [
  | ok done ↦ ok tt
  | err code ↦ elim code [ einval ↦ ok tt | other ↦ err other ]
]

abbrev pub set_delay : Device → Decoder → Result (Unit {0})
set_delay device decoder =
    if decoder.coded_format == v4l2_pix_fmt_hevc
    then (device.set_control v4l2_cid_dec_display_delay 0
        >> device.set_control v4l2_cid_dec_display_delay_enable 1)
    else ok tt

-- The decoder of a call that succeeds. A failure closes and frees it.
abbrev pub opened : Outcome Decoder → Result Decoder
opened (decoder, ok done) = ok decoder
opened (decoder, err code) = err code

abbrev pub map_output : Device → DecoderConfig → Decoder → Result Decoder
map_output device config decoder =
    request_and_map device output_queue config.output_buffers >>= λ buffers.
    ok (record decoder { output = buffers })

-- `venus_v4l2_decoder_open`, of a configuration with a device's path.
unfoldable pub open_decoder : Device → DecoderConfig → Result Decoder
open_decoder device config =
    fail_if (bad_config config) einval
    >> (fail_if (not device.has_memory) enomem
        >> (device.open_file
            >> (verify_device device
                >> (subscribed device.subscribe
                    >> (opened (set_output_format device config (initial_decoder config))
                        >>= λ decoder.
                            set_delay device decoder
                            >> (map_output device config decoder >>= λ mapped.
                                opened (stream_on device output_queue mapped)))))))

-- The first buffer, from `index` on, that is not queued.
abbrev pub free_output : (index : ℕ) → List MappedBuffer → Option ℕ
free_output index [] = none
free_output index (buffer ∷ buffers) =
    if buffer.queued then free_output (suc index) buffers else some index

abbrev pub output_request : Decoder → (index size tag : ℕ) → BufferRequest
output_request decoder index size tag = record {
  index = index;
  bytesused = size % 2 ^ 32;
  plane_length = mapped_length decoder.output index % 2 ^ 32;
  seconds = tag / 1000000;
  microseconds = tag % 1000000;
}

abbrev pub filled_output : List ℕ → ℕ → Decoder → Decoder
filled_output bytes index decoder = record decoder {
  output = update (fill_buffer bytes) decoder.output index;
}

abbrev pub queued_output : ℕ → Decoder → Decoder
queued_output index decoder = record decoder { output = update (mark true) decoder.output index }

-- The part of `venus_v4l2_decoder_submit` that has found a buffer.
unfoldable pub submit_to : Device → List ℕ → (tag index : ℕ) → Decoder → Outcome Decoder
submit_to device bytes tag index decoder =
    if ltb (mapped_length decoder.output index) (length bytes)
    then (decoder, err enospc)
    else let filled = filled_output bytes index decoder in
      commit (λ queued. queued_output index filled) filled
        (device.queue_buffer output_queue (output_request decoder index (length bytes) tag))

module _ {ℓ} {Client : Type ℓ} (callback : Client → Frame → Client × Result (Unit {0})) where
  -- What `find_free_output` leaves, and the index that it answers.
  abbrev pub Found : Type ℓ
  Found = (Decoder × Client) × Result ℕ

  abbrev pub found_or : Option ℕ → Decoder × Client → (rest : Found) → Found
  found_or (some index) state rest = (state, ok index)
  found_or none state rest = rest

  -- A pump that succeeds or that meets `EAGAIN` is followed by another look.
  abbrev pub retried : Result (Unit {0}) → Decoder × Client → (rest : Found) → Found
  retried (ok done) state rest = rest
  retried (err code) state rest = if is_eagain code then rest else (state, err code)

  -- The loop of `find_free_output`, over what each `pump` meets. A `poll` after them times out.
  unfoldable pub find_free_output : List Wake → Decoder → Client → Found
  find_free_output [] decoder client =
      found_or (free_output 0 decoder.output) (decoder, client) ((decoder, client), err etimedout)
  find_free_output (wake ∷ wakes) decoder client =
      let (pumped, status) = pump callback wake decoder client in
      found_or (free_output 0 decoder.output) (decoder, client)
        (retried status (pumped.decoder, pumped.client)
          (find_free_output wakes pumped.decoder pumped.client))

  abbrev pub submit_found : Device → List ℕ → ℕ → Found → Outcome (Decoder × Client)
  submit_found device bytes tag ((decoder, client), err code) = ((decoder, client), err code)
  submit_found device bytes tag ((decoder, client), ok index) =
      let (submitted, status) = submit_to device bytes tag index decoder in
      ((submitted, client), status)

  -- `venus_v4l2_decoder_submit`, of a decoder and data that are not null.
  unfoldable pub submit :
      Device → List Wake → List ℕ → (tag : ℕ) → Decoder → Client → Outcome (Decoder × Client)
  submit device wakes bytes tag decoder client =
      if length bytes == 0
      then ((decoder, client), err einval)
      else submit_found device bytes tag (find_free_output wakes decoder client)

-- `venus_v4l2_decoder_stop`, of an open decoder.
unfoldable pub stop : Device → Decoder → Outcome Decoder
stop device decoder =
    if decoder.stop_sent
    then (decoder, ok tt)
    else commit (λ done. record decoder { stop_sent = true }) decoder device.command
