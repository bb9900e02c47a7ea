-- ===== src/V4l2Decoder/Delivery.antt =====
-- The frames that src/v4l2_decoder.c hands to its callback.
use venus_vaapi_driver.Common.{
  ◌⊎◌, ◌*◌, ◌%◌, take, zero, suc, inl, inr, length-overwrite, overwrite, ℕ, ◌+◌, ◌-◌, ◌^◌, ◌<◌, ◌≤◌,
  ◌≡◌, refl, ap, ◌∙◌, false, Option, none, some, List, [], ◌∷◌, length, get_elem?, drop,
  length-take, length-drop, arith, ◌==◌, if-holds,
}
use venus_vaapi_driver.Common.Results.{Result, ok, err}
use venus_vaapi_driver.Decode.{Frame}
use venus_vaapi_driver.V4l2Decoder.Device.{
  MappedBuffer, PixFormat, Decoder, Dequeued, mapped_length,
}
use venus_vaapi_driver.V4l2Decoder.Queues.{
  Pumping, bad_capture, written_bytes, frame_of, requeue, capture_round, capture_loop,
  dequeue_capture,
}
use venus_vaapi_driver.V4l2Decoder.Submission.{output_request}
use venus_vaapi_driver.V4l2Decoder.Sizes.{length_same, mapped_length-sizes}
use venus_vaapi_driver.V4l2Decoder.Outcomes.{Leaves, Leaves-seq}
use venus_vaapi_driver.V4l2Decoder.Safety.{Frozen}
use venus_vaapi_driver.V4l2Decoder.SafePump.{capture_round-Frozen}
use venus_vaapi_driver.V4l2Decoder.SafeSetup.{capture_queued-Frozen}

-- Whether the device answers with a buffer, in some replies.
abbrev pub Answers : List (Result Dequeued) → Dequeued → Type 0
Answers [] reply = ⊥
Answers (err code ∷ replies) reply = Answers replies reply
Answers (ok first ∷ replies) reply = (first ≡ reply) ⊎ Answers replies reply

-- The frame of a buffer that the device has answered with: the bytes between its offset and its
-- number of used bytes, all of them within the buffer's mapping, and as the device wrote them if it
-- wrote that many, with the tag and the error flag of the answer and the format of the decoder.
pub record IsDelivered (decoder : Decoder) (replies : List (Result Dequeued)) (frame : Frame)
    : Type 0 where
  pub reply : Dequeued
  pub answered : Answers replies reply
  pub in_range : reply.index < length decoder.capture
  pub inside : reply.data_offset + length frame.payload ≤ mapped_length decoder.capture reply.index
  pub ordered : reply.data_offset ≤ reply.bytesused
  pub all_used : reply.data_offset + length frame.payload ≡ reply.bytesused
  pub has_bytes : 0 < length frame.payload
  pub as_written :
      reply.bytesused ≤ length reply.contents
      → frame.payload
        ≡ take (reply.bytesused - reply.data_offset) (drop reply.data_offset reply.contents)
  pub same_tag : frame.tag ≡ (reply.seconds * 1000000 + reply.microseconds) % 2 ^ 64
  pub same_error : frame.is_error ≡ reply.is_error
  pub same_width : frame.width ≡ decoder.capture_format.width
  pub same_height : frame.height ≡ decoder.capture_format.height
  pub same_line : frame.bytes_per_line ≡ decoder.capture_format.bytesperline

-- A part that is overwritten holds what it is overwritten with.
part-overwrite :
    (offset count : ℕ) (target source : List ℕ)
    → offset + count ≤ length target
    → offset + count ≤ length source
    → take count (drop offset (overwrite target source)) ≡ take count (drop offset source)
part-overwrite zero zero target source long whole = refl
part-overwrite zero (suc count) [] source long whole = absurd (omega (arith, long))
part-overwrite zero (suc count) (x ∷ target) [] long whole = absurd (omega (arith, whole))
part-overwrite zero (suc count) (x ∷ target) (y ∷ source) long whole =
    ap (λ rest. y ∷ rest)
      (part-overwrite zero count target source (omega (arith, long)) (omega (arith, whole)))
part-overwrite (suc offset) count [] source long whole = absurd (omega (arith, long))
part-overwrite (suc offset) count (x ∷ target) [] long whole = absurd (omega (arith, whole))
part-overwrite (suc offset) count (x ∷ target) (y ∷ source) long whole =
    part-overwrite offset count target source (omega (arith, long)) (omega (arith, whole))

part-written_bytes :
    (decoder : Decoder) (reply : Dequeued) (count : ℕ)
    → reply.data_offset + count ≤ mapped_length decoder.capture reply.index
    → reply.data_offset + count ≤ length reply.contents
    → 0 < count
    → take count (drop reply.data_offset (written_bytes decoder reply))
      ≡ take count (drop reply.data_offset reply.contents)
part-written_bytes decoder reply count = written_at (get_elem? decoder.capture reply.index)
  where
    written_at :
        (found : Option MappedBuffer)
        → reply.data_offset + count ≤ (elim found [ none ↦ 0 | some buffer ↦ length buffer.bytes ])
        → reply.data_offset + count ≤ length reply.contents
        → 0 < count
        → take count (
            drop reply.data_offset
              (elim found [ none ↦ [] | some buffer ↦ overwrite buffer.bytes reply.contents ]))
          ≡ take count (drop reply.data_offset reply.contents)
    written_at none inside whole full = absurd (omega (arith, inside, full))
    written_at (some buffer) inside whole full =
        part-overwrite reply.data_offset count buffer.bytes reply.contents inside whole

length-written_bytes :
    (decoder : Decoder) (reply : Dequeued)
    → length (written_bytes decoder reply) ≡ mapped_length decoder.capture reply.index
length-written_bytes decoder reply = written_at (get_elem? decoder.capture reply.index)
  where
    written_at :
        (found : Option MappedBuffer)
        → length (elim found [ none ↦ [] | some buffer ↦ overwrite buffer.bytes reply.contents ])
          ≡ (elim found [ none ↦ 0 | some buffer ↦ length buffer.bytes ])
    written_at none = refl
    written_at (some buffer) = length-overwrite buffer.bytes reply.contents

in_mapping :
    (decoder : Decoder) (reply : Dequeued)
    → bad_capture decoder reply ≡ false
    → (reply.index < length decoder.capture)
      × (reply.data_offset ≤ reply.bytesused)
      × (reply.bytesused ≤ mapped_length decoder.capture reply.index)
in_mapping decoder reply good = ground arith

length-payload :
    (decoder : Decoder) (reply : Dequeued)
    → bad_capture decoder reply ≡ false
    → length (frame_of decoder reply).payload ≡ reply.bytesused - reply.data_offset
unfolding frame_of
length-payload decoder reply good =
    let (near, ordered, short) = in_mapping decoder reply good in
    length-take (reply.bytesused - reply.data_offset)
      (drop reply.data_offset (written_bytes decoder reply))
      (omega (
        arith,
        length-drop reply.data_offset (written_bytes decoder reply),
        length-written_bytes decoder reply,
        ordered,
        short,
      ))

frame_of-IsDelivered :
    (decoder : Decoder) (replies : List (Result Dequeued)) (reply : Dequeued)
    → Answers replies reply
    → bad_capture decoder reply ≡ false
    → (reply.bytesused - reply.data_offset == 0) ≡ false
    → IsDelivered decoder replies (frame_of decoder reply)
unfolding frame_of
frame_of-IsDelivered decoder replies reply answered good full =
    let (near, ordered, short) = in_mapping decoder reply good in
    let long = length-payload decoder reply good in
    record {
      reply = reply;
      answered = answered;
      in_range = near;
      ordered = ordered;
      all_used = omega (arith, long, ordered);
      as_written = λ whole.
          part-written_bytes decoder reply (reply.bytesused - reply.data_offset)
            (omega (arith, ordered, short)) (omega (arith, ordered, whole)) (ground (arith, full));
      inside = omega (arith, long, ordered, short);
      has_bytes = ground (arith, long, full);
      same_tag = refl;
      same_error = refl;
      same_width = refl;
      same_height = refl;
      same_line = refl;
    }

-- A frame's tag is the one that the coded data was submitted with, when the device copies the
-- timestamp of the data to the frame and the tag has 64 bits.
pub tag-output_request :
    (decoder later : Decoder) (index size tag : ℕ) (reply : Dequeued)
    → tag < 2 ^ 64
    → reply.seconds ≡ (output_request decoder index size tag).seconds
    → reply.microseconds ≡ (output_request decoder index size tag).microseconds
    → (frame_of later reply).tag ≡ tag
unfolding frame_of
tag-output_request decoder later index size tag reply small seconds microseconds =
    omega (arith, small, seconds, microseconds)

IsDelivered-Frozen :
    {before after : Decoder} {replies : List (Result Dequeued)} {frame : Frame}
    → Frozen before after
    → IsDelivered after replies frame
    → IsDelivered before replies frame
IsDelivered-Frozen {before} {after} (output, capture, streaming, format, raw) sent = record {
  reply = sent.reply;
  answered = sent.answered;
  ordered = sent.ordered;
  all_used = sent.all_used;
  as_written = sent.as_written;
  in_range = omega (arith, sent.in_range, length_same after.capture before.capture capture);
  inside = omega (
    arith,
    sent.inside,
    mapped_length-sizes after.capture before.capture sent.reply.index capture,
  );
  has_bytes = sent.has_bytes;
  same_tag = sent.same_tag;
  same_error = sent.same_error;
  same_width = sent.same_width ∙ ap (λ (f : PixFormat). f.width) format;
  same_height = sent.same_height ∙ ap (λ (f : PixFormat). f.height) format;
  same_line = sent.same_line ∙ ap (λ (f : PixFormat). f.bytesperline) format;
}

module _ {Client : Type 0} (callback : Client → Frame → Client × Result (Unit {0}))
    (Holds : Client → Type 0) (before : Decoder) (all : List (Result Dequeued))
    (kept : (client : Client) (frame : Frame)
      → IsDelivered before all frame
      → Holds client
      → Holds (callback client frame).0) where
  abbrev Served : Pumping Client → Type 0
  Served pumping = Holds pumping.client × Frozen before pumping.decoder

  capture_round-Served :
      (reply : Dequeued) (pumping : Pumping Client)
      → Answers all reply
      → Served pumping
      → Leaves Served (capture_round callback reply pumping)
  capture_round-Served reply pumping answered (holds, same) =
      let frozen = capture_round-Frozen callback before reply pumping same in
      let sent : Leaves (λ (p : Pumping Client). Holds p.client)
          (capture_round callback reply pumping) =
        if-holds (Leaves (λ (p : Pumping Client). Holds p.client))
          (bad_capture pumping.decoder reply) (λ bad. holds)
          (λ good.
            if-holds (Leaves (λ (p : Pumping Client). Holds p.client))
              (reply.bytesused - reply.data_offset == 0) (λ empty. holds)
              (λ full.
                kept pumping.client (frame_of pumping.decoder reply)
                  (IsDelivered-Frozen same
                    (frame_of-IsDelivered pumping.decoder all reply answered good full))
                  holds)) in
      (sent, frozen)

  capture_loop-Served :
      (replies : List (Result Dequeued)) (pumping : Pumping Client)
      → ((reply : Dequeued) → Answers replies reply → Answers all reply)
      → Served pumping
      → Leaves Served (capture_loop callback replies pumping)
  capture_loop-Served [] pumping among served = served
  capture_loop-Served (err code ∷ replies) pumping among served = served
  capture_loop-Served (ok reply ∷ replies) pumping among served =
      Leaves-seq Served (capture_round callback reply pumping) _
        (capture_round-Served reply pumping (among reply (inl refl)) served)
        (λ delivered served.
          if-holds (Leaves Served) reply.is_last (λ last. served)
            (λ more.
              Leaves-seq Served (requeue callback reply delivered) (capture_loop callback replies)
                (
                  served.0,
                  capture_queued-Frozen reply.requeued reply.index before delivered.decoder
                      served.1,
                )
                (λ next. capture_loop-Served replies next (λ other e. among other (inr e)))))

-- `dequeue_capture` hands to its callback only frames of buffers that the device has answered with,
-- which have bytes: those from the offset up to the number of used bytes, all of them within one
-- capture buffer's mapping and, if the device wrote that many, as it wrote them, with the tag and
-- the error flag of the answer and the format of the decoder. What the callback keeps on such
-- frames holds afterwards.
pub dequeue_capture-IsDelivered :
    (Client : Type 0) (callback : Client → Frame → Client × Result (Unit {0}))
    (Holds : Client → Type 0) (replies : List (Result Dequeued)) (pumping : Pumping Client)
    → ((client : Client) (frame : Frame)
        → IsDelivered pumping.decoder replies frame
        → Holds client
        → Holds (callback client frame).0)
    → Holds pumping.client
    → Holds (dequeue_capture callback replies pumping).0.client
unfolding dequeue_capture
dequeue_capture-IsDelivered Client callback Holds replies pumping kept holds =
    if-holds (Leaves (λ (p : Pumping Client). Holds p.client)) pumping.decoder.capture_streaming
      (λ on.
        (capture_loop-Served callback Holds pumping.decoder replies kept replies pumping
          (λ reply e. e) (holds, (refl, refl, refl, refl, refl))).0)
      (λ off. holds)
