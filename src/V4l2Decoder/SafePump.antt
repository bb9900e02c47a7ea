-- ===== src/V4l2Decoder/SafePump.antt =====
-- The calls of src/v4l2_decoder.c that empty the queues keep the decoder safe.
use venus_vaapi_driver.Common.{
  ℕ, ◌-◌, ◌≡◌, refl, sym, ap, ◌∙◌, Bool, true, false, not, List, [], ◌∷◌, length, arith, leb, ◌==◌,
  if-holds,
}
use venus_vaapi_driver.Common.Results.{Result, ok, err, >>=-eq-ok, ok-injective, fail_if-eq-ok}
use venus_vaapi_driver.Decode.{Frame}
use venus_vaapi_driver.V4l2Decoder.Device.{
  PixFormat, Decoder, Device, Event, Dequeued, Poll, poll_failed, timed_out, ready, Wake,
}
use venus_vaapi_driver.V4l2Decoder.Setup.{setup_capture}
use venus_vaapi_driver.V4l2Decoder.Queues.{
  Pumping, change_format, handle_event, is_resolution_change, accepts_format, count_change,
  on_decoder, dequeue_events, dequeue_output, release_output, bad_capture, requeue, capture_round,
  capture_loop, take_back, dequeue_capture, poll_events, pump_status, pump_ready, start_pump, pump,
}
use venus_vaapi_driver.V4l2Decoder.Sizes.{sizes-mark, sizes-hand_back}
use venus_vaapi_driver.V4l2Decoder.Outcomes.{Leaves, Leaves-seq, Ensures→Leaves, commit-Leaves}
use venus_vaapi_driver.V4l2Decoder.Safety.{IsSafe, Frozen, IsSafe-Frozen}
use venus_vaapi_driver.V4l2Decoder.SafeSetup.{setup_capture-IsSafe, capture_queued-Frozen}

accepted :
    (decoder : Decoder) (format : PixFormat)
    → not (accepts_format decoder format) ≡ false
    → (format.pixelformat ≡ decoder.requested_raw_format) × (format.num_planes ≡ 1)
accepted decoder format e = ground arith

-- The format that a stream changes to is the one that the client asked for.
pub change_format-IsSafe :
    (device : Device) (decoder : Decoder)
    → IsSafe decoder
    → Leaves IsSafe (change_format device decoder)
unfolding change_format
change_format-IsSafe device decoder safe =
    commit-Leaves IsSafe _ decoder _
      (λ changed e.
        let (format, answered, e₁) = >>=-eq-ok device.get_format _ e in
        let (kept, e₂) = fail_if-eq-ok (not (accepts_format decoder format)) _ _ e₁ in
        let (pixelformat, planes) = accepted decoder format kept in
        record {
          output_mapped = safe.output_mapped;
          capture_mapped = safe.capture_mapped;
          has_output = safe.has_output;
          has_capture = safe.has_capture;
          agreed =
              λ on. ap (λ (f : PixFormat). f.pixelformat) (sym (ok-injective e₂)) ∙ pixelformat;
          one_plane = λ on. ap (λ (f : PixFormat). f.num_planes) (sym (ok-injective e₂)) ∙ planes;
        })
      safe

counted : (decoder : Decoder) → IsSafe decoder → IsSafe (count_change decoder)
counted decoder safe = IsSafe-Frozen (refl, refl, refl, refl, refl) safe

handle_event-IsSafe :
    (event : Event) (decoder : Decoder)
    → IsSafe decoder
    → Leaves IsSafe (handle_event event decoder)
unfolding handle_event
handle_event-IsSafe event decoder safe =
    if-holds (Leaves IsSafe) (not (is_resolution_change event)) (λ other. safe)
      (λ change.
        if-holds (Leaves IsSafe) (not decoder.capture_streaming)
          (λ idle.
            Ensures→Leaves IsSafe (setup_capture event.device (count_change decoder))
              (setup_capture-IsSafe event.device (count_change decoder) (counted decoder safe)))
          (λ on. change_format-IsSafe event.device (count_change decoder) (counted decoder safe)))

module _ {ℓ} {Client : Type ℓ} where
  -- A safe decoder, in the midst of a pump.
  abbrev pub SafePump : Pumping Client → Type 0
  SafePump pumping = IsSafe pumping.decoder

  dequeue_events-SafePump :
      (replies : List (Result Event)) (pumping : Pumping Client)
      → SafePump pumping
      → Leaves SafePump (dequeue_events replies pumping)
  dequeue_events-SafePump [] pumping safe = safe
  dequeue_events-SafePump (err code ∷ replies) pumping safe = safe
  dequeue_events-SafePump (ok event ∷ replies) pumping safe =
      Leaves-seq SafePump
        (on_decoder (handle_event event) (record pumping { made_progress = true }))
        (dequeue_events replies) (handle_event-IsSafe event pumping.decoder safe)
        (dequeue_events-SafePump replies)

  release_output-SafePump :
      (index : ℕ) (pumping : Pumping Client)
      → SafePump pumping
      → SafePump (release_output index pumping)
  release_output-SafePump index pumping =
      IsSafe-Frozen (sizes-mark false pumping.decoder.output index, refl, refl, refl, refl)

  dequeue_output-SafePump :
      (replies : List (Result ℕ)) (pumping : Pumping Client)
      → SafePump pumping
      → Leaves SafePump (dequeue_output replies pumping)
  dequeue_output-SafePump [] pumping safe = safe
  dequeue_output-SafePump (err code ∷ replies) pumping safe = safe
  dequeue_output-SafePump (ok index ∷ replies) pumping safe =
      if-holds (Leaves SafePump) (leb (length pumping.decoder.output) index) (λ far. safe)
        (λ near.
          dequeue_output-SafePump replies (release_output index pumping)
            (release_output-SafePump index pumping safe))

module _ {ℓ} {Client : Type ℓ} (callback : Client → Frame → Client × Result (Unit {0})) where
  -- One round leaves the decoder as it is, but for the buffer that it takes back.
  pub capture_round-Frozen :
      (before : Decoder) (reply : Dequeued) (pumping : Pumping Client)
      → Frozen before pumping.decoder
      → Leaves
          (λ (p : Pumping Client). Frozen before p.decoder)
          (capture_round callback reply pumping)
  capture_round-Frozen before reply pumping same =
      let (output, capture, streaming, format, raw) = same in
      let taken : Frozen before (take_back reply pumping).decoder = (
        output,
        sizes-hand_back reply.contents pumping.decoder.capture reply.index ∙ capture,
        streaming,
        format,
        raw,
      ) in
      if-holds (Leaves (λ (p : Pumping Client). Frozen before p.decoder))
        (bad_capture pumping.decoder reply) (λ bad. same)
        (λ good.
          if-holds (Leaves (λ (p : Pumping Client). Frozen before p.decoder))
            (reply.bytesused - reply.data_offset == 0) (λ empty. taken) (λ full. taken))

  pub capture_loop-Frozen :
      (before : Decoder) (replies : List (Result Dequeued)) (pumping : Pumping Client)
      → Frozen before pumping.decoder
      → Leaves
          (λ (p : Pumping Client). Frozen before p.decoder)
          (capture_loop callback replies pumping)
  capture_loop-Frozen before [] pumping same = same
  capture_loop-Frozen before (err code ∷ replies) pumping same = same
  capture_loop-Frozen before (ok reply ∷ replies) pumping same =
      let Kept : Pumping Client → Type 0 = λ p. Frozen before p.decoder in
      Leaves-seq Kept (capture_round callback reply pumping) _
        (capture_round-Frozen before reply pumping same)
        (λ delivered kept.
          if-holds (Leaves Kept) reply.is_last (λ last. kept)
            (λ more.
              Leaves-seq Kept (requeue callback reply delivered) (capture_loop callback replies)
                (capture_queued-Frozen reply.requeued reply.index before delivered.decoder kept)
                (capture_loop-Frozen before replies)))

  pub dequeue_capture-Frozen :
      (replies : List (Result Dequeued)) (pumping : Pumping Client)
      → Leaves
          (λ (p : Pumping Client). Frozen pumping.decoder p.decoder)
          (dequeue_capture callback replies pumping)
  unfolding dequeue_capture
  dequeue_capture-Frozen replies pumping =
      let same : Frozen pumping.decoder pumping.decoder = (refl, refl, refl, refl, refl) in
      if-holds (Leaves (λ (p : Pumping Client). Frozen pumping.decoder p.decoder))
        pumping.decoder.capture_streaming
        (λ on. capture_loop-Frozen pumping.decoder replies pumping same) (λ off. same)

  pump_status-SafePump :
      (is_failing : Bool) (pumping : Pumping Client)
      → SafePump pumping
      → Leaves SafePump (pump_status callback is_failing pumping)
  pump_status-SafePump is_failing pumping safe =
      if-holds (Leaves SafePump) pumping.made_progress (λ progress. safe)
        (λ idle. if-holds (Leaves SafePump) is_failing (λ failing. safe) (λ calm. safe))

  pump_ready-SafePump :
      (wake : Wake) (poll : Poll) (pumping : Pumping Client)
      → SafePump pumping
      → Leaves SafePump (pump_ready callback wake poll pumping)
  pump_ready-SafePump wake (poll_failed code) pumping safe = safe
  pump_ready-SafePump wake timed_out pumping safe = safe
  pump_ready-SafePump wake (ready is_priority is_failing) pumping safe =
      Leaves-seq SafePump _ (pump_status callback is_failing)
        (Leaves-seq SafePump _ (dequeue_capture callback wake.captures)
          (Leaves-seq SafePump (poll_events callback is_priority wake.events pumping)
            (dequeue_output wake.outputs)
            (if-holds (Leaves SafePump) is_priority
              (λ urgent. dequeue_events-SafePump wake.events pumping safe) (λ calm. safe))
            (dequeue_output-SafePump wake.outputs))
          (λ state kept. IsSafe-Frozen (dequeue_capture-Frozen wake.captures state) kept))
        (pump_status-SafePump is_failing)

  pub pump-IsSafe :
      (wake : Wake) (decoder : Decoder) (client : Client)
      → IsSafe decoder
      → IsSafe (pump callback wake decoder client).0.decoder
  unfolding pump
  pump-IsSafe wake decoder client safe =
      pump_ready-SafePump wake wake.poll (start_pump callback decoder client) safe
