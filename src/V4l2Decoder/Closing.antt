-- ===== src/V4l2Decoder/Closing.antt =====
-- How src/v4l2_decoder.c closes a decoder, and the counters that it shows.
use venus_vaapi_driver.Common.{
  ℕ, zero, suc, ◌≡◌, refl, ap, ◌∙◌, Bool, true, false, Option, none, some, List, [], ◌∷◌, ◌++◌,
  append_assoc, append-nil, length, if◌then◌else◌,
}
use venus_vaapi_driver.V4l2Decoder.Device.{
  Queue, output_queue, capture_queue, MappedBuffer, Decoder,
}

-- The calls of `venus_v4l2_decoder_close`, in their order.
pub data Call : Type 0 where
  stream_off : Queue → Call
  unmap : Queue → ℕ → Call
  drop_buffers : Queue → Call
  close_file : Call

abbrev pub unmap_calls : Queue → ℕ → List MappedBuffer → List Call
unmap_calls queue index [] = []
unmap_calls queue index (buffer ∷ buffers) =
    unmap queue index ∷ unmap_calls queue (suc index) buffers

abbrev pub release_buffers : Queue → List MappedBuffer → List Call
release_buffers queue buffers = unmap_calls queue 0 buffers ++ drop_buffers queue ∷ []

abbrev pub stopping : Queue → Bool → List Call
stopping queue is_streaming = if is_streaming then stream_off queue ∷ [] else []

abbrev pub releases : List MappedBuffer → List MappedBuffer → List Call
releases capture output =
    release_buffers capture_queue capture
    ++ (release_buffers output_queue output ++ close_file ∷ [])

unfoldable pub close : Decoder → List Call
close decoder =
    stopping capture_queue decoder.capture_streaming
    ++ (stopping output_queue decoder.output_streaming ++ releases decoder.capture decoder.output)

-- A counter of a decoder, which is 0 for a null pointer.
abbrev shown : (Decoder → ℕ) → Option Decoder → ℕ
shown counter none = 0
shown counter (some decoder) = counter decoder

abbrev pub decoder_output_count : Option Decoder → ℕ
decoder_output_count = shown (λ decoder. length decoder.output)

abbrev pub decoder_capture_count : Option Decoder → ℕ
decoder_capture_count = shown (λ decoder. length decoder.capture)

abbrev pub decoder_capture_width : Option Decoder → ℕ
decoder_capture_width = shown (λ decoder. decoder.capture_format.width)

abbrev pub decoder_capture_height : Option Decoder → ℕ
decoder_capture_height = shown (λ decoder. decoder.capture_format.height)

abbrev pub decoder_capture_size : Option Decoder → ℕ
decoder_capture_size = shown (λ decoder. decoder.capture_format.sizeimage)

abbrev pub decoder_source_changes : Option Decoder → ℕ
decoder_source_changes = shown (λ decoder. decoder.source_changes)

-- The buffers of the output queue, and of the capture queue, that some calls unmap, in their order.
abbrev pub unmapped_output : List Call → List ℕ
unmapped_output [] = []
unmapped_output (unmap output_queue index ∷ calls) = index ∷ unmapped_output calls
unmapped_output (unmap capture_queue index ∷ calls) = unmapped_output calls
unmapped_output (stream_off queue ∷ calls) = unmapped_output calls
unmapped_output (drop_buffers queue ∷ calls) = unmapped_output calls
unmapped_output (close_file ∷ calls) = unmapped_output calls

abbrev pub unmapped_capture : List Call → List ℕ
unmapped_capture [] = []
unmapped_capture (unmap output_queue index ∷ calls) = unmapped_capture calls
unmapped_capture (unmap capture_queue index ∷ calls) = index ∷ unmapped_capture calls
unmapped_capture (stream_off queue ∷ calls) = unmapped_capture calls
unmapped_capture (drop_buffers queue ∷ calls) = unmapped_capture calls
unmapped_capture (close_file ∷ calls) = unmapped_capture calls

-- The numbers from `start` on, as many as `count`.
abbrev pub range : (start count : ℕ) → List ℕ
range start zero = []
range start (suc count) = start ∷ range (suc start) count

output_then :
    (start : ℕ) (buffers : List MappedBuffer) (calls : List Call)
    → unmapped_output (unmap_calls output_queue start buffers ++ calls)
      ≡ range start (length buffers) ++ unmapped_output calls
output_then start [] calls = refl
output_then start (buffer ∷ buffers) calls =
    ap (λ rest. start ∷ rest) (output_then (suc start) buffers calls)

capture_skipped :
    (start : ℕ) (buffers : List MappedBuffer) (calls : List Call)
    → unmapped_output (unmap_calls capture_queue start buffers ++ calls) ≡ unmapped_output calls
capture_skipped start [] calls = refl
capture_skipped start (buffer ∷ buffers) calls = capture_skipped (suc start) buffers calls

capture_then :
    (start : ℕ) (buffers : List MappedBuffer) (calls : List Call)
    → unmapped_capture (unmap_calls capture_queue start buffers ++ calls)
      ≡ range start (length buffers) ++ unmapped_capture calls
capture_then start [] calls = refl
capture_then start (buffer ∷ buffers) calls =
    ap (λ rest. start ∷ rest) (capture_then (suc start) buffers calls)

output_skipped :
    (start : ℕ) (buffers : List MappedBuffer) (calls : List Call)
    → unmapped_capture (unmap_calls output_queue start buffers ++ calls) ≡ unmapped_capture calls
output_skipped start [] calls = refl
output_skipped start (buffer ∷ buffers) calls = output_skipped (suc start) buffers calls

output_stopping :
    (queue : Queue) (is_streaming : Bool) (calls : List Call)
    → unmapped_output (stopping queue is_streaming ++ calls) ≡ unmapped_output calls
output_stopping queue true calls = refl
output_stopping queue false calls = refl

capture_stopping :
    (queue : Queue) (is_streaming : Bool) (calls : List Call)
    → unmapped_capture (stopping queue is_streaming ++ calls) ≡ unmapped_capture calls
capture_stopping queue true calls = refl
capture_stopping queue false calls = refl

releases_output :
    (capture output : List MappedBuffer)
    → unmapped_output (releases capture output) ≡ range 0 (length output)
releases_output capture output =
    rw
      (
        append_assoc (unmap_calls capture_queue 0 capture) (drop_buffers capture_queue ∷ [])
            (release_buffers output_queue output ++ close_file ∷ []),
        capture_skipped 0 capture _,
        append_assoc (unmap_calls output_queue 0 output) (drop_buffers output_queue ∷ [])
            (close_file ∷ []),
      )
      (output_then 0 output _ ∙ append-nil (range 0 (length output)))

releases_capture :
    (capture output : List MappedBuffer)
    → unmapped_capture (releases capture output) ≡ range 0 (length capture)
releases_capture capture output =
    rw
      (
        append_assoc (unmap_calls capture_queue 0 capture) (drop_buffers capture_queue ∷ [])
            (release_buffers output_queue output ++ close_file ∷ []),
        capture_then 0 capture _,
        append_assoc (unmap_calls output_queue 0 output) (drop_buffers output_queue ∷ [])
            (close_file ∷ []),
        output_skipped 0 output _,
      )
      (append-nil (range 0 (length capture)))

-- To close a decoder unmaps every buffer that its two queues hold at that time, by its index and
-- exactly once.
pub close_unmaps_all :
    (decoder : Decoder)
    → (unmapped_output (close decoder) ≡ range 0 (length decoder.output))
      × (unmapped_capture (close decoder) ≡ range 0 (length decoder.capture))
unfolding close
close_unmaps_all decoder =
    let rest = releases decoder.capture decoder.output in
    (
      output_stopping capture_queue decoder.capture_streaming _
          ∙ output_stopping output_queue decoder.output_streaming rest
          ∙ releases_output decoder.capture decoder.output,
      capture_stopping capture_queue decoder.capture_streaming _
          ∙ capture_stopping output_queue decoder.output_streaming rest
          ∙ releases_capture decoder.capture decoder.output,
    )
