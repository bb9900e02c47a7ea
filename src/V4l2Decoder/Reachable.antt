-- ===== src/V4l2Decoder/Reachable.antt =====
-- The decoders that the calls of src/v4l2_decoder.c lead to.
use venus_vaapi_driver.Common.{
  ℕ, ◌≡◌, refl, sym, subst, true, false, not, Option, none, some, List, [], ◌∷◌, length, All,
  if-holds, ltb, ◌==◌,
}
use venus_vaapi_driver.Common.Results.{Result, ok, err, >>=-eq-ok, ok-injective, fail_if-eq-ok}
use venus_vaapi_driver.Decode.{Frame}
use venus_vaapi_driver.V4l2Decoder.Device.{
  output_queue, Decoder, Device, Wake, mapped_length, is_eagain, Outcome,
}
use venus_vaapi_driver.V4l2Decoder.Setup.{
  DecoderConfig, set_output_format, request_and_map, stream_on, verify_device,
}
use venus_vaapi_driver.V4l2Decoder.Queues.{pump}
use venus_vaapi_driver.V4l2Decoder.Submission.{
  open_decoder, opened, initial_decoder, map_output, set_delay, subscribed, bad_config, free_output,
  find_free_output, submit_to, found_or, retried, submit_found, submit, queued_output,
  output_request, stop, filled_output,
}
use venus_vaapi_driver.V4l2Decoder.Sizes.{sizes, sizes-fill_buffer, sizes-mark}
use venus_vaapi_driver.V4l2Decoder.Outcomes.{Leaves, commit-Leaves}
use venus_vaapi_driver.V4l2Decoder.Safety.{IsPositive, IsSafe, IsSafe-Frozen, request_and_map-sizes}
use venus_vaapi_driver.V4l2Decoder.SafePump.{pump-IsSafe}

stop-IsSafe :
    (device : Device) (decoder : Decoder) → IsSafe decoder → IsSafe (stop device decoder).0
unfolding stop
stop-IsSafe device decoder safe =
    if-holds (Leaves IsSafe) decoder.stop_sent (λ sent. safe)
      (λ unsent.
        commit-Leaves IsSafe _ decoder device.command
          (λ done e. IsSafe-Frozen (refl, refl, refl, refl, refl) safe) safe)

submit_to-IsSafe :
    (device : Device) (bytes : List ℕ) (tag index : ℕ) (decoder : Decoder)
    → IsSafe decoder
    → Leaves IsSafe (submit_to device bytes tag index decoder)
unfolding submit_to
submit_to-IsSafe device bytes tag index decoder safe =
    if-holds (Leaves IsSafe) (ltb (mapped_length decoder.output index) (length bytes))
      (λ long. safe)
      (λ fits.
        let filled = filled_output bytes index decoder in
        let kept =
          IsSafe-Frozen {before = decoder} {after = filled}
            (sizes-fill_buffer bytes decoder.output index, refl, refl, refl, refl) safe in
        commit-Leaves IsSafe (λ queued. queued_output index filled) filled
          (device.queue_buffer output_queue (output_request decoder index (length bytes) tag))
          (λ done e.
            IsSafe-Frozen (sizes-mark true filled.output index, refl, refl, refl, refl) kept)
          kept)

module _ {Client : Type 0} (callback : Client → Frame → Client × Result (Unit {0})) where
  FoundSafe : (Decoder × Client) × Result ℕ → Type 0
  FoundSafe found = IsSafe found.0.0

  found_or-FoundSafe :
      (free : Option ℕ) (state : Decoder × Client) (rest : (Decoder × Client) × Result ℕ)
      → IsSafe state.0
      → IsSafe rest.0.0
      → IsSafe (found_or callback free state rest).0.0
  found_or-FoundSafe (some index) state rest safe later = safe
  found_or-FoundSafe none state rest safe later = later

  retried-FoundSafe :
      (status : Result (Unit {0})) (state : Decoder × Client) (rest : (Decoder × Client) × Result ℕ)
      → IsSafe state.0
      → IsSafe rest.0.0
      → IsSafe (retried callback status state rest).0.0
  unfolding FoundSafe
  retried-FoundSafe (ok done) state rest safe later = later
  retried-FoundSafe (err code) state rest safe later =
      if-holds FoundSafe (is_eagain code) (λ again. later) (λ failed. safe)

  find_free_output-IsSafe :
      (wakes : List Wake) (decoder : Decoder) (client : Client)
      → IsSafe decoder
      → IsSafe (find_free_output callback wakes decoder client).0.0
  unfolding find_free_output
  find_free_output-IsSafe [] decoder client safe =
      found_or-FoundSafe (free_output 0 decoder.output) (decoder, client) _ safe safe
  find_free_output-IsSafe (wake ∷ wakes) decoder client safe =
      let call = pump callback wake decoder client in
      let kept = pump-IsSafe callback wake decoder client safe in
      found_or-FoundSafe (free_output 0 decoder.output) (decoder, client) _ safe
        (retried-FoundSafe call.1 (call.0.decoder, call.0.client) _ kept
          (find_free_output-IsSafe wakes call.0.decoder call.0.client kept))

  submit_found-IsSafe :
      (device : Device) (bytes : List ℕ) (tag : ℕ) (found : (Decoder × Client) × Result ℕ)
      → IsSafe found.0.0
      → IsSafe (submit_found callback device bytes tag found).0.0
  submit_found-IsSafe device bytes tag ((decoder, client), err code) safe = safe
  submit_found-IsSafe device bytes tag ((decoder, client), ok index) safe =
      submit_to-IsSafe device bytes tag index decoder safe

  submit-IsSafe :
      (device : Device) (wakes : List Wake) (bytes : List ℕ) (tag : ℕ) (decoder : Decoder)
      (client : Client)
      → IsSafe decoder
      → IsSafe (submit callback device wakes bytes tag decoder client).0.0
  unfolding submit
  submit-IsSafe device wakes bytes tag decoder client safe =
      if-holds (λ (o : Outcome (Decoder × Client)). IsSafe o.0.0) (length bytes == 0)
        (λ empty. safe)
        (λ full.
          submit_found-IsSafe device bytes tag (find_free_output callback wakes decoder client)
            (find_free_output-IsSafe wakes decoder client safe))

opened-Good :
    (Good : Decoder → Type 0) (call : Outcome Decoder) {decoder : Decoder}
    → Leaves Good call
    → opened call ≡ ok decoder
    → Good decoder
opened-Good Good (state, ok done) good e = subst Good (ok-injective e) good
opened-Good Good (state, err code) good e = cc

-- A decoder that delivers no frames and has mapped no capture buffers.
abbrev IsFresh : Decoder → Type 0
IsFresh decoder = (decoder.capture_streaming ≡ false) × (decoder.capture ≡ [])

set_output_format-IsFresh :
    (device : Device) (config : DecoderConfig)
    → Leaves IsFresh (set_output_format device config (initial_decoder config))
unfolding set_output_format
set_output_format-IsFresh device config =
    commit-Leaves IsFresh _ (initial_decoder config) _ (λ format e. (refl, refl)) (refl, refl)

map_output-IsSafe :
    (device : Device) (config : DecoderConfig) (decoder : Decoder) {mapped : Decoder}
    → IsFresh decoder
    → map_output device config decoder ≡ ok mapped
    → IsSafe mapped
map_output-IsSafe device config decoder (idle, none_mapped) e =
    let (buffers, granted, e₁) =
      >>=-eq-ok (request_and_map device output_queue config.output_buffers) _ e in
    let (positive, some_granted) =
      request_and_map-sizes device output_queue config.output_buffers granted in
    subst IsSafe (ok-injective e₁) (record {
      output_mapped = positive;
      capture_mapped = subst (λ buffers. All IsPositive (sizes buffers)) (sym none_mapped) tt;
      has_output = some_granted;
      has_capture = λ on. absurd cc;
      agreed = λ on. absurd cc;
      one_plane = λ on. absurd cc;
    })

stream_on-IsSafe :
    (device : Device) (decoder : Decoder)
    → IsSafe decoder
    → Leaves IsSafe (stream_on device output_queue decoder)
stream_on-IsSafe device decoder safe =
    commit-Leaves IsSafe _ decoder _ (λ done e. IsSafe-Frozen (refl, refl, refl, refl, refl) safe)
      safe

open-IsSafe :
    (device : Device) (config : DecoderConfig) {decoder : Decoder}
    → open_decoder device config ≡ ok decoder
    → IsSafe decoder
unfolding open_decoder
open-IsSafe device config e =
    let (valid, e₁) = fail_if-eq-ok (bad_config config) _ _ e in
    let (memory, e₂) = fail_if-eq-ok (not device.has_memory) _ _ e₁ in
    let (file, is_open, e₃) = >>=-eq-ok device.open_file _ e₂ in
    let (verified, is_venus, e₄) = >>=-eq-ok (verify_device device) _ e₃ in
    let (watched, answered, e₅) = >>=-eq-ok (subscribed device.subscribe) _ e₄ in
    let (formatted, set, e₆) =
      >>=-eq-ok (opened (set_output_format device config (initial_decoder config))) _ e₅ in
    let (delayed, low, e₇) = >>=-eq-ok (set_delay device formatted) _ e₆ in
    let (mapped, has_output, e₈) = >>=-eq-ok (map_output device config formatted) _ e₇ in
    opened-Good IsSafe _
      (stream_on-IsSafe device mapped (
        map_output-IsSafe device config formatted
          (opened-Good IsFresh _ (set_output_format-IsFresh device config) set) has_output))
      e₈

-- The decoders that some sequence of calls leads to, each with what the kernel answers it, with
-- a callback and what its `opaque` points to.
pub data Reachable : Decoder → Type 1 where
  opened_by :
      (device : Device) (config : DecoderConfig) {decoder : Decoder}
      → open_decoder device config ≡ ok decoder
      → Reachable decoder
  pumped :
      {decoder : Decoder} {Client : Type 0} (callback : Client → Frame → Client × Result (Unit {0}))
      (wake : Wake) (client : Client)
      → Reachable decoder
      → Reachable (pump callback wake decoder client).0.decoder
  submitted :
      {decoder : Decoder} {Client : Type 0} (callback : Client → Frame → Client × Result (Unit {0}))
      (device : Device) (wakes : List Wake) (bytes : List ℕ) (tag : ℕ) (client : Client)
      → Reachable decoder
      → Reachable (submit callback device wakes bytes tag decoder client).0.0
  stopped :
      {decoder : Decoder} (device : Device) → Reachable decoder → Reachable (stop device decoder).0

-- Every decoder that the calls lead to is safe: its buffers have bytes, and once frames are
-- delivered there is a first capture buffer, and the format is the one that was asked for.
pub Reachable-IsSafe : {decoder : Decoder} → Reachable decoder → IsSafe decoder
Reachable-IsSafe (opened_by device config e) = open-IsSafe device config e
Reachable-IsSafe (pumped {decoder} callback wake client before) =
    pump-IsSafe callback wake decoder client (Reachable-IsSafe before)
Reachable-IsSafe (submitted {decoder} callback device wakes bytes tag client before) =
    submit-IsSafe callback device wakes bytes tag decoder client (Reachable-IsSafe before)
Reachable-IsSafe (stopped {decoder} device before) =
    stop-IsSafe device decoder (Reachable-IsSafe before)
