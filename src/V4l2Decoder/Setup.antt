-- ===== src/V4l2Decoder/Setup.antt =====
-- How src/v4l2_decoder.c opens a device, sets its formats up, and maps its buffers.
use venus_vaapi_driver.Common.{
  overwrite, ℕ, zero, suc, ◌%◌, ◌^◌, Bool, true, false, not, ◌&&◌, ◌||◌, List, [], ◌∷◌, length,
  replicate, bit_and, ◌==◌, if◌then◌else◌,
}
use venus_vaapi_driver.Common.Results.{Result, ok, einval, enomem, enodev, ◌>>=◌, ◌>>◌, fail_if}
use venus_vaapi_driver.V4l2Decoder.Device.{
  Queue, output_queue, capture_queue, PixFormat, MappedBuffer, Decoder, BufferRequest, Capability,
  Device, update, mark, mapped_length, Outcome, commit, ◌>>>◌,
}

abbrev pub v4l2_pix_fmt_nv12 : ℕ
v4l2_pix_fmt_nv12 = 842094158

abbrev pub v4l2_pix_fmt_p010 : ℕ
v4l2_pix_fmt_p010 = 808530000

abbrev pub v4l2_pix_fmt_hevc : ℕ
v4l2_pix_fmt_hevc = 1129727304

-- `struct venus_v4l2_decoder_config`, without the device's path.
pub record DecoderConfig : Type 0 where
  pub coded_format : ℕ
  pub raw_format : ℕ
  pub width : ℕ
  pub height : ℕ
  pub output_buffer_size : ℕ
  pub output_buffers : ℕ
  pub capture_buffers : ℕ

abbrev pub no_format : PixFormat
no_format = record {
  width = 0;
  height = 0;
  pixelformat = 0;
  num_planes = 0;
  sizeimage = 0;
  bytesperline = 0;
}

abbrev pub requested_output : DecoderConfig → PixFormat
requested_output config = record {
  width = config.width;
  height = config.height;
  pixelformat = config.coded_format;
  num_planes = 1;
  sizeimage = config.output_buffer_size % 2 ^ 32;
  bytesperline = 0;
}

-- The contract that a format has to keep, with one plane of the pixel format asked for.
abbrev pub is_contract : ℕ → PixFormat → Bool
is_contract pixelformat format =
    format.pixelformat == pixelformat && format.num_planes == 1 && not (format.sizeimage == 0)

abbrev pub checked_format : ℕ → Result PixFormat → Result PixFormat
checked_format pixelformat answer =
    answer >>= λ format. fail_if (not (is_contract pixelformat format)) einval >> ok format

unfoldable pub set_output_format : Device → DecoderConfig → Decoder → Outcome Decoder
set_output_format device config decoder =
    commit (λ format. record decoder { output_format = format }) decoder
      (checked_format config.coded_format
        (device.set_format output_queue (requested_output config)))

abbrev pub or_requested : ℕ → ℕ → ℕ
or_requested value requested = if value == 0 then requested else value

abbrev pub requested_capture : Decoder → PixFormat → PixFormat
requested_capture decoder format = record format {
  width = or_requested format.width decoder.requested_width;
  height = or_requested format.height decoder.requested_height;
  pixelformat = decoder.requested_raw_format;
  num_planes = 1;
}

unfoldable pub set_capture_format : Device → Decoder → Outcome Decoder
set_capture_format device decoder =
    commit (λ format. record decoder { capture_format = format }) decoder
      (checked_format decoder.requested_raw_format (
        device.get_format >>= λ format.
        device.set_format capture_queue (requested_capture decoder format)))

abbrev pub map_one : Device → Queue → ℕ → Result MappedBuffer
map_one device queue index = device.query_buffer queue index >>= λ plane.
    fail_if (not (plane.plane_count == 1) || plane.plane_length == 0) einval
    >> (device.map_memory queue index >>= λ contents.
        ok (record { bytes = overwrite (replicate plane.plane_length 0) contents; queued = false }))

-- The loop of `request_and_map`, from `index` on. Its failure unmaps what it has mapped.
abbrev pub map_from : Device → Queue → (index remaining : ℕ) → Result (List MappedBuffer)
map_from device queue index zero = ok []
map_from device queue index (suc remaining) = map_one device queue index >>= λ buffer.
    map_from device queue (suc index) remaining >>= λ buffers. ok (buffer ∷ buffers)

unfoldable pub request_and_map : Device → Queue → (requested : ℕ) → Result (List MappedBuffer)
request_and_map device queue requested = device.request_buffers queue requested >>= λ count.
    fail_if (count == 0) enomem
    >> (fail_if (not device.has_memory) enomem >> map_from device queue 0 count)

abbrev pub capture_request : Decoder → ℕ → BufferRequest
capture_request decoder index = record {
  index = index;
  bytesused = 0;
  plane_length = mapped_length decoder.capture index % 2 ^ 32;
  seconds = 0;
  microseconds = 0;
}

-- `queue_capture`, with the kernel's answer.
abbrev pub capture_queued : Result (Unit {0}) → ℕ → Decoder → Outcome Decoder
capture_queued answer index decoder =
    commit (λ done. record decoder { capture = update (mark true) decoder.capture index }) decoder
      answer

abbrev pub queue_capture : Device → ℕ → Decoder → Outcome Decoder
queue_capture device index decoder =
    capture_queued (device.queue_buffer capture_queue (capture_request decoder index)) index decoder

-- The loop of `setup_capture`, from `index` on.
abbrev pub queue_from : Device → (index remaining : ℕ) → Decoder → Outcome Decoder
queue_from device index zero decoder = (decoder, ok tt)
queue_from device index (suc remaining) decoder =
    queue_capture device index decoder >>> queue_from device (suc index) remaining

abbrev pub streaming : Queue → Decoder → Decoder
streaming output_queue decoder = record decoder { output_streaming = true }
streaming capture_queue decoder = record decoder { capture_streaming = true }

abbrev pub stream_on : Device → Queue → Decoder → Outcome Decoder
stream_on device queue decoder =
    commit (λ done. streaming queue decoder) decoder (device.start queue)

abbrev pub map_capture : Device → Decoder → Outcome Decoder
map_capture device decoder =
    commit (λ buffers. record decoder { capture = buffers }) decoder
      (request_and_map device capture_queue decoder.requested_capture_buffers)

abbrev pub queue_every : Device → Decoder → Outcome Decoder
queue_every device decoder = queue_from device 0 (length decoder.capture) decoder

-- The part of `setup_capture` that follows its test.
abbrev pub start_capture : Device → Decoder → Outcome Decoder
start_capture device decoder =
    set_capture_format device decoder
    >>> map_capture device
    >>> queue_every device
    >>> stream_on device capture_queue

unfoldable pub setup_capture : Device → Decoder → Outcome Decoder
setup_capture device decoder =
    if decoder.capture_streaming then (decoder, ok tt) else start_capture device decoder

abbrev pub v4l2_cap_video_m2m_mplane : ℕ
v4l2_cap_video_m2m_mplane = 16384

abbrev pub v4l2_cap_streaming : ℕ
v4l2_cap_streaming = 67108864

abbrev pub v4l2_cap_device_caps : ℕ
v4l2_cap_device_caps = 2147483648

abbrev pub has_cap : ℕ → ℕ → Bool
has_cap caps flag = not (bit_and caps flag == 0)

abbrev pub effective_caps : Capability → ℕ
effective_caps capability =
    if has_cap capability.capabilities v4l2_cap_device_caps
    then capability.device_caps
    else capability.capabilities

unfoldable pub verify_device : Device → Result (Unit {0})
verify_device device = device.query_capability >>= λ capability.
    fail_if
      (not capability.is_venus
        || not capability.is_decoder
        || not (has_cap (effective_caps capability) v4l2_cap_video_m2m_mplane)
        || not (has_cap (effective_caps capability) v4l2_cap_streaming))
      enodev
