-- ===== src/V4l2Decoder/Liveness.antt =====
-- The loop of `find_free_output` in src/v4l2_decoder.c ends once the device hands a buffer back.
use venus_vaapi_driver.Common.{
  ℕ, zero, suc, ◌<◌, ◌≡◌, refl, sym, ap, subst, ◌∙◌, Bool, true, false, Option, none, some, List,
  [], ◌∷◌, ◌++◌, length, All, arith, leb, if-holds, Bool-cases, inl, inr,
}
use venus_vaapi_driver.Common.Results.{Errno, Result, ok, err, eagain}
use venus_vaapi_driver.Decode.{Frame}
use venus_vaapi_driver.V4l2Decoder.Device.{
  MappedBuffer, Decoder, ready, Wake, update, mark, Outcome,
}
use venus_vaapi_driver.V4l2Decoder.Queues.{
  Pumping, dequeue_output, release_output, dequeue_capture, poll_events, pump_status, pump_ready,
  start_pump, pump,
}
use venus_vaapi_driver.V4l2Decoder.Submission.{free_output, found_or, retried, find_free_output}
use venus_vaapi_driver.V4l2Decoder.Outcomes.{Ensures, Ensures-seq, Ensures-mono}

-- An answer of `VIDIOC_DQBUF` that hands one of `count` buffers back.
abbrev pub IsReturn : ℕ → Result ℕ → Type 0
IsReturn count (ok index) = index < count
IsReturn count (err code) = ⊥

-- A wake without error in which the device only hands coded buffers back, be there any or none.
pub record IsCalm (count : ℕ) (wake : Wake) : Type 0 where
  pub is_priority : Bool
  pub polled : wake.poll ≡ ready is_priority false
  pub no_events : wake.events ≡ []
  pub returns : All (IsReturn count) wake.outputs
  pub no_captures : wake.captures ≡ []

abbrev HasFree : List MappedBuffer → Type 0
HasFree buffers = (index : ℕ) × (free_output 0 buffers ≡ some index)

free_output-mark :
    (start : ℕ) (buffers : List MappedBuffer) (index : ℕ)
    → index < length buffers
    → (found : ℕ) × (free_output start (update (mark false) buffers index) ≡ some found)
free_output-mark start [] index near = absurd (omega arith)
free_output-mark start (buffer ∷ buffers) zero near = (start, refl)
free_output-mark start (buffer ∷ buffers) (suc index) near = elim (Bool-cases buffer.queued) [
  | inl queued ↦ rw queued (free_output-mark (suc start) buffers index (omega arith))
  | inr free ↦ rw free (start, refl)
]

length-mark :
    (buffers : List MappedBuffer) (index : ℕ)
    → length (update (mark false) buffers index) ≡ length buffers
length-mark [] index = refl
length-mark (buffer ∷ buffers) zero = refl
length-mark (buffer ∷ buffers) (suc index) = ap suc (length-mark buffers index)

le→leb : (bound index : ℕ) → index < bound → leb bound index ≡ false
le→leb bound index near = ground arith

abbrev IsSome : List (Result ℕ) → Type 0
IsSome [] = ⊥
IsSome (reply ∷ replies) = Unit {0}

module _ {Client : Type 0} (count : ℕ) where
  -- What a calm wake leaves: the buffers are as many, and one is free if any was handed back.
  abbrev Freed : (replies : List (Result ℕ)) → Pumping Client → Type 0
  Freed replies pumping =
      (length pumping.decoder.output ≡ count) × (IsSome replies → HasFree pumping.decoder.output)

  abbrev Retries : (replies : List (Result ℕ)) → Errno → Pumping Client → Type 0
  Retries replies code pumping = (code ≡ eagain) × Freed replies pumping

  -- The last buffer that is handed back is free in the end.
  continue :
      (index : ℕ) (replies : List (Result ℕ)) (pumping : Pumping Client)
      → HasFree pumping.decoder.output
      → Ensures (Freed replies) (Retries replies) (dequeue_output replies pumping)
      → Ensures
          (Freed (ok index ∷ replies))
          (Retries (ok index ∷ replies))
          (dequeue_output replies pumping)
  continue index [] pumping free (long, none_back) = (long, λ some_back. free)
  continue index (reply ∷ replies) pumping free freed =
      Ensures-mono (Freed (reply ∷ replies)) (Freed (ok index ∷ reply ∷ replies))
        (Retries (reply ∷ replies)) (Retries (ok index ∷ reply ∷ replies))
        (dequeue_output (reply ∷ replies) pumping) freed (λ after good. good)
        (λ code after good. good)

  dequeue_output-Freed :
      (replies : List (Result ℕ)) (pumping : Pumping Client)
      → length pumping.decoder.output ≡ count
      → All (IsReturn count) replies
      → Ensures (Freed replies) (Retries replies) (dequeue_output replies pumping)
  dequeue_output-Freed [] pumping long returns = (long, λ none_back. absurd none_back)
  dequeue_output-Freed (err code ∷ replies) pumping long returns = absurd returns.0
  dequeue_output-Freed (ok index ∷ replies) pumping long (near, returns) =
      let released = release_output index pumping in
      let within : index < length pumping.decoder.output = omega (arith, near, long) in
      let free = free_output-mark 0 pumping.decoder.output index within in
      let kept = length-mark pumping.decoder.output index ∙ long in
      rw (le→leb (length pumping.decoder.output) index within)
        (continue index replies released free (dequeue_output-Freed replies released kept returns))

  module _ (callback : Client → Frame → Client × Result (Unit {0})) where
    poll_events-none :
        (is_priority : Bool) (pumping : Pumping Client)
        → poll_events callback is_priority [] pumping ≡ (pumping, ok tt)
    poll_events-none true pumping = refl
    poll_events-none false pumping = refl

    dequeue_capture-none :
        (pumping : Pumping Client) → dequeue_capture callback [] pumping ≡ (pumping, ok tt)
    unfolding dequeue_capture
    dequeue_capture-none pumping =
        if-holds (λ (call : Outcome (Pumping Client)). call ≡ (pumping, ok tt))
          pumping.decoder.capture_streaming (λ on. refl) (λ off. refl)

    pump_ready-Freed :
        (wake : Wake) (is_priority : Bool) (pumping : Pumping Client)
        → wake.events ≡ []
        → wake.captures ≡ []
        → All (IsReturn count) wake.outputs
        → length pumping.decoder.output ≡ count
        → Ensures
            (Freed wake.outputs)
            (Retries wake.outputs)
            (pump_ready callback wake (ready is_priority false) pumping)
    pump_ready-Freed wake is_priority pumping no_events no_captures returns long =
        rw (no_events, poll_events-none is_priority pumping, no_captures)
          (Ensures-seq (Freed wake.outputs) (Freed wake.outputs) (Retries wake.outputs) _
            (pump_status callback false)
            (Ensures-seq (Freed wake.outputs) (Freed wake.outputs) (Retries wake.outputs)
              (dequeue_output wake.outputs pumping) (dequeue_capture callback [])
              (dequeue_output-Freed wake.outputs pumping long returns)
              (λ state freed. rw (dequeue_capture-none state) freed))
            (λ state freed.
              if-holds (Ensures (Freed wake.outputs) (Retries wake.outputs)) state.made_progress
                (λ progress. freed) (λ idle. (refl, freed))))

    pump-Freed :
        (wake : Wake) (decoder : Decoder) (client : Client)
        → IsCalm count wake
        → length decoder.output ≡ count
        → Ensures (Freed wake.outputs) (Retries wake.outputs) (pump callback wake decoder client)
    unfolding pump
    pump-Freed wake decoder client calm long =
        let start = start_pump callback decoder client in
        subst
          (λ poll.
            Ensures (Freed wake.outputs) (Retries wake.outputs)
              (pump_ready callback wake poll start))
          (sym calm.polled)
          (pump_ready-Freed wake calm.is_priority start calm.no_events calm.no_captures calm.returns
            long)

    Answers : (Decoder × Client) × Result ℕ → Type 0
    Answers found = (index : ℕ) × (found.1 ≡ ok index)

    found_or-Answers :
        (free : Option ℕ) (state : Decoder × Client) (rest : (Decoder × Client) × Result ℕ)
        → Answers rest
        → Answers (found_or callback free state rest)
    unfolding Answers
    found_or-Answers none state rest later = later
    found_or-Answers (some index) state rest later = (index, refl)

    -- After a calm wake, the loop goes on from a decoder with as many buffers.
    retried-Answers :
        (replies : List (Result ℕ)) (call : Outcome (Pumping Client)) (state : Decoder × Client)
        (rest : (Decoder × Client) × Result ℕ)
        → Ensures (Freed replies) (Retries replies) call
        → (Freed replies call.0 → Answers rest)
        → Answers (retried callback call.1 state rest)
    unfolding Answers
    retried-Answers replies (pumping, ok done) state rest freed later = later freed
    retried-Answers replies (pumping, err code) state rest (again, freed) later =
        rw again (later freed)

    free_now-Answers :
        (wakes : List Wake) (decoder : Decoder) (client : Client)
        → HasFree decoder.output
        → Answers (find_free_output callback wakes decoder client)
    unfolding find_free_output Answers
    free_now-Answers [] decoder client (index, free) = rw free (index, refl)
    free_now-Answers (wake ∷ wakes) decoder client (index, free) = rw free (index, refl)

    waits-Answers :
        (quiet : List Wake) (wake : Wake) (later : List Wake) (decoder : Decoder) (client : Client)
        → All (IsCalm count) quiet
        → IsCalm count wake
        → IsSome wake.outputs
        → length decoder.output ≡ count
        → Answers (find_free_output callback (quiet ++ wake ∷ later) decoder client)
    unfolding find_free_output
    waits-Answers [] wake later decoder client calm last back long =
        let call = pump callback wake decoder client in
        found_or-Answers (free_output 0 decoder.output) (decoder, client) _
          (retried-Answers wake.outputs call (call.0.decoder, call.0.client) _
            (pump-Freed wake decoder client last long)
            (λ freed. free_now-Answers later call.0.decoder call.0.client (freed.1 back)))
    waits-Answers (first ∷ quiet) wake later decoder client (calm, calms) last back long =
        let call = pump callback first decoder client in
        found_or-Answers (free_output 0 decoder.output) (decoder, client) _
          (retried-Answers first.outputs call (call.0.decoder, call.0.client) _
            (pump-Freed first decoder client calm long)
            (λ freed.
              waits-Answers quiet wake later call.0.decoder call.0.client calms last back freed.0))

-- `find_free_output` answers a buffer as soon as the device has handed one back: when some wake of
-- `poll` does, and the wakes before it are calm as well, the loop ends with an index.
pub find_free_output_answers :
    {Client : Type 0} (callback : Client → Frame → Client × Result (Unit {0})) (quiet : List Wake)
    (wake : Wake) (later : List Wake) (decoder : Decoder) (client : Client)
    → All (IsCalm (length decoder.output)) quiet
    → IsCalm (length decoder.output) wake
    → IsSome wake.outputs
    → (index : ℕ) × ((find_free_output callback (quiet ++ wake ∷ later) decoder client).1
        ≡ ok index)
unfolding Answers
find_free_output_answers callback quiet wake later decoder client calms calm back =
    waits-Answers (length decoder.output) callback quiet wake later decoder client calms calm back
      refl
