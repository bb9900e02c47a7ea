-- ===== src/V4l2Decoder/Feeding.antt =====
-- Which capture buffers src/v4l2_decoder.c keeps with the device while it empties the queues.
use venus_vaapi_driver.Common.{
  ℕ, zero, suc, ◌-◌, ◌≡◌, refl, sym, subst, Bool, true, false, not, List, [], ◌∷◌, length, All, leb,
  ◌==◌, if-holds, inl, inr,
}
use venus_vaapi_driver.Common.Results.{Errno, Result, ok, err, Result-cases}
use venus_vaapi_driver.Decode.{Frame}
use venus_vaapi_driver.V4l2Decoder.Device.{
  MappedBuffer, Decoder, Device, Event, Dequeued, Poll, poll_failed, timed_out, ready, Wake, update,
  mark, fill_buffer, is_eagain, Outcome,
}
use venus_vaapi_driver.V4l2Decoder.Setup.{capture_queued, setup_capture}
use venus_vaapi_driver.V4l2Decoder.Queues.{
  Pumping, change_format, handle_event, is_resolution_change, count_change, on_decoder,
  dequeue_events, dequeue_output, release_output, bad_capture, frame_of, take_back, requeue,
  capture_round, capture_loop, dequeue_capture, poll_events, pump_status, pump_ready, start_pump,
  pump,
}
use venus_vaapi_driver.V4l2Decoder.Outcomes.{
  Ensures, Leaves, Ensures-seq, Leaves-seq, Ensures-mono, Ensures-ok, commit-Ensures, commit-Leaves,
  Ensures→Leaves,
}
use venus_vaapi_driver.V4l2Decoder.Filling.{IsQueued, IsFed, IsDelivering, setup_capture-IsFed}

-- A buffer that comes back and goes out again leaves the device with all of them.
requeued-All :
    (source : List ℕ) (buffers : List MappedBuffer) (index : ℕ)
    → All IsQueued buffers
    → All IsQueued (
        update
          (mark true)
          (update (λ buffer. mark false (fill_buffer source buffer)) buffers index)
          index)
requeued-All source [] index queued = tt
requeued-All source (buffer ∷ buffers) zero (first, queued) = (refl, queued)
requeued-All source (buffer ∷ buffers) (suc index) (first, queued) =
    (first, requeued-All source buffers index queued)

change_format-IsFed :
    (device : Device) (decoder : Decoder)
    → IsFed decoder
    → Leaves IsFed (change_format device decoder)
unfolding change_format
change_format-IsFed device decoder fed = commit-Leaves IsFed _ decoder _ (λ format e. fed) fed

handle_event-IsFed :
    (event : Event) (decoder : Decoder) → IsFed decoder → Leaves IsFed (handle_event event decoder)
unfolding handle_event
handle_event-IsFed event decoder fed =
    let counted = count_change decoder in
    if-holds (Leaves IsFed) (not (is_resolution_change event)) (λ other. fed)
      (λ change.
        if-holds (Leaves IsFed) (not decoder.capture_streaming)
          (λ idle. Ensures→Leaves IsFed (setup_capture event.device counted) (
            Ensures-mono IsDelivering IsFed (λ code. IsFed) (λ code. IsFed)
              (setup_capture event.device counted) (setup_capture-IsFed event.device counted fed)
              (λ after good on. good.1) (λ code after good. good)))
          (λ on. change_format-IsFed event.device counted fed))

module _ {ℓ} {Client : Type ℓ} where
  abbrev pub FedPump : Pumping Client → Type 0
  FedPump pumping = IsFed pumping.decoder

  dequeue_events-FedPump :
      (replies : List (Result Event)) (pumping : Pumping Client)
      → FedPump pumping
      → Leaves FedPump (dequeue_events replies pumping)
  dequeue_events-FedPump [] pumping fed = fed
  dequeue_events-FedPump (err code ∷ replies) pumping fed = fed
  dequeue_events-FedPump (ok event ∷ replies) pumping fed =
      Leaves-seq FedPump (on_decoder (handle_event event) (record pumping { made_progress = true }))
        (dequeue_events replies) (handle_event-IsFed event pumping.decoder fed)
        (dequeue_events-FedPump replies)

  dequeue_output-FedPump :
      (replies : List (Result ℕ)) (pumping : Pumping Client)
      → FedPump pumping
      → Leaves FedPump (dequeue_output replies pumping)
  dequeue_output-FedPump [] pumping fed = fed
  dequeue_output-FedPump (err code ∷ replies) pumping fed = fed
  dequeue_output-FedPump (ok index ∷ replies) pumping fed =
      if-holds (Leaves FedPump) (leb (length pumping.decoder.output) index) (λ far. fed)
        (λ near. dequeue_output-FedPump replies (release_output index pumping) fed)

module _ {ℓ} {Client : Type ℓ} (callback : Client → Frame → Client × Result (Unit {0})) where
  -- What a loop that returns 0 leaves, unless it has met the end of the stream.
  abbrev pub FedUnlessEnded : Pumping Client → Type 0
  FedUnlessEnded pumping = pumping.end_of_stream ≡ false → All IsQueued pumping.decoder.capture

  abbrev Anything : Errno → Pumping Client → Type 0
  Anything code pumping = Unit {0}

  -- One round leaves the buffer that it has taken back out of the queue.
  abbrev TakenBack : Dequeued → Pumping Client → Pumping Client → Type 0
  TakenBack reply before after = after.decoder.capture ≡ (take_back reply before).decoder.capture

  delivered :
      (reply : Dequeued) (pumping : Pumping Client)
      → Ensures (TakenBack reply pumping) Anything (
        record (take_back reply pumping) {
          client = (callback pumping.client (frame_of pumping.decoder reply)).0;
        },
        (callback pumping.client (frame_of pumping.decoder reply)).1,
      )
  delivered reply pumping =
      elim (Result-cases (callback pumping.client (frame_of pumping.decoder reply)).1) [
        | inl (done, e) ↦ rw e refl
        | inr (code, e) ↦ rw e tt
      ]

  with_decoder :
      (Good : Decoder → Type 0) (pumping : Pumping Client) (call : Outcome Decoder)
      → Ensures Good (λ code decoder. Unit {0}) call
      → Ensures
          (λ (p : Pumping Client). Good p.decoder)
          Anything
          (record pumping { decoder = call.0 }, call.1)
  with_decoder Good pumping (decoder, ok done) good = good
  with_decoder Good pumping (decoder, err code) good = tt

  capture_round-TakenBack :
      (reply : Dequeued) (pumping : Pumping Client)
      → Ensures (TakenBack reply pumping) Anything (capture_round callback reply pumping)
  capture_round-TakenBack reply pumping =
      if-holds (Ensures (TakenBack reply pumping) Anything) (bad_capture pumping.decoder reply)
        (λ bad. tt)
        (λ good.
          if-holds (Ensures (TakenBack reply pumping) Anything)
            (reply.bytesused - reply.data_offset == 0) (λ empty. refl)
            (λ full. delivered reply pumping))

  requeue-All :
      (reply : Dequeued) (before after : Pumping Client)
      → All IsQueued before.decoder.capture
      → TakenBack reply before after
      → Ensures
          (λ (p : Pumping Client). All IsQueued p.decoder.capture)
          Anything
          (requeue callback reply after)
  requeue-All reply before after all taken =
      let Held : Decoder → Type 0 = λ d. All IsQueued d.capture in
      with_decoder Held after (capture_queued reply.requeued reply.index after.decoder) (
        commit-Ensures Held (λ code decoder. Unit {0}) _ after.decoder reply.requeued
          (λ done e.
            subst (λ buffers. All IsQueued (update (mark true) buffers reply.index)) (sym taken)
              (requeued-All reply.contents before.decoder.capture reply.index all))
          (λ code. tt))

  capture_loop-Fed :
      (replies : List (Result Dequeued)) (pumping : Pumping Client)
      → All IsQueued pumping.decoder.capture
      → Ensures FedUnlessEnded Anything (capture_loop callback replies pumping)
  capture_loop-Fed [] pumping all = λ more. all
  capture_loop-Fed (err code ∷ replies) pumping all =
      if-holds (λ status. Ensures FedUnlessEnded Anything (pumping, status)) (is_eagain code)
        (λ again more. all) (λ failed. tt)
  capture_loop-Fed (ok reply ∷ replies) pumping all =
      Ensures-seq (TakenBack reply pumping) FedUnlessEnded Anything
        (capture_round callback reply pumping) _ (capture_round-TakenBack reply pumping)
        (λ delivered taken.
          if-holds (Ensures FedUnlessEnded Anything) reply.is_last (λ last more. absurd cc)
            (λ more.
              Ensures-seq (λ (p : Pumping Client). All IsQueued p.decoder.capture) FedUnlessEnded
                Anything (requeue callback reply delivered) (capture_loop callback replies)
                (requeue-All reply pumping delivered all taken) (capture_loop-Fed replies)))

  abbrev FedOrEnded : Pumping Client → Type 0
  FedOrEnded pumping = pumping.end_of_stream ≡ false → IsFed pumping.decoder

  dequeue_capture-FedOrEnded :
      (replies : List (Result Dequeued)) (pumping : Pumping Client)
      → FedPump pumping
      → Ensures FedOrEnded Anything (dequeue_capture callback replies pumping)
  unfolding dequeue_capture
  dequeue_capture-FedOrEnded replies pumping fed =
      if-holds (Ensures FedOrEnded Anything) pumping.decoder.capture_streaming
        (λ on.
          Ensures-mono FedUnlessEnded FedOrEnded Anything Anything
            (capture_loop callback replies pumping) (capture_loop-Fed replies pumping (fed on))
            (λ after all more streams. all more) (λ code after failed. tt))
        (λ off more. fed)

  pump_status-FedOrEnded :
      (is_failing : Bool) (pumping : Pumping Client)
      → FedOrEnded pumping
      → Ensures FedOrEnded Anything (pump_status callback is_failing pumping)
  pump_status-FedOrEnded is_failing pumping fed =
      if-holds (Ensures FedOrEnded Anything) pumping.made_progress (λ progress. fed)
        (λ idle. if-holds (Ensures FedOrEnded Anything) is_failing (λ failing. tt) (λ calm. tt))

  weaken : (call : Outcome (Pumping Client)) → Leaves FedPump call → Ensures FedPump Anything call
  weaken (state, ok done) fed = fed
  weaken (state, err code) fed = tt

  pump_ready-FedOrEnded :
      (wake : Wake) (poll : Poll) (pumping : Pumping Client)
      → FedPump pumping
      → Ensures FedOrEnded Anything (pump_ready callback wake poll pumping)
  pump_ready-FedOrEnded wake (poll_failed code) pumping fed = tt
  pump_ready-FedOrEnded wake timed_out pumping fed = tt
  pump_ready-FedOrEnded wake (ready is_priority is_failing) pumping fed =
      Ensures-seq FedOrEnded FedOrEnded Anything _ (pump_status callback is_failing)
        (Ensures-seq FedPump FedOrEnded Anything _ (dequeue_capture callback wake.captures)
          (Ensures-seq FedPump FedPump Anything
            (poll_events callback is_priority wake.events pumping) (dequeue_output wake.outputs)
            (if-holds (Ensures FedPump Anything) is_priority
              (λ urgent.
                weaken (dequeue_events wake.events pumping)
                  (dequeue_events-FedPump wake.events pumping fed))
              (λ calm. fed))
            (λ state kept.
              weaken (dequeue_output wake.outputs state)
                (dequeue_output-FedPump wake.outputs state kept)))
          (dequeue_capture-FedOrEnded wake.captures))
        (pump_status-FedOrEnded is_failing)

  -- A pump that returns 0 before the end of the stream leaves every capture buffer with the device
  -- if frames are delivered, provided that this held before it.
  pub pump-IsFed :
      (wake : Wake) (decoder : Decoder) (client : Client)
      → IsFed decoder
      → (pump callback wake decoder client).1 ≡ ok tt
      → (pump callback wake decoder client).0.end_of_stream ≡ false
      → (pump callback wake decoder client).0.decoder.capture_streaming ≡ true
      → All IsQueued (pump callback wake decoder client).0.decoder.capture
  unfolding pump
  pump-IsFed wake decoder client fed =
      Ensures-ok FedOrEnded Anything (pump_ready callback wake wake.poll _)
        (pump_ready-FedOrEnded wake wake.poll (start_pump callback decoder client) fed)
