-- ===== src/V4l2Decoder/Filling.antt =====
-- The set-up of the capture queue in src/v4l2_decoder.c hands every buffer to the device.
use venus_vaapi_driver.Common.{
  ℕ, zero, suc, ◌+◌, ◌≤◌, ◌≡◌, refl, ap, subst, ◌∙◌, true, false, List, [], ◌∷◌, length, All, arith,
  if-holds,
}
use venus_vaapi_driver.Common.Results.{Errno, ok}
use venus_vaapi_driver.V4l2Decoder.Device.{
  capture_queue, MappedBuffer, Decoder, Device, update, mark,
}
use venus_vaapi_driver.V4l2Decoder.Setup.{
  map_capture, queue_capture, queue_from, queue_every, stream_on, set_capture_format, start_capture,
  setup_capture,
}
use venus_vaapi_driver.V4l2Decoder.Outcomes.{
  Ensures, Ensures-seq, Ensures-mono, Ensures-ok, commit-Ensures,
}

abbrev pub IsQueued : MappedBuffer → Type 0
IsQueued buffer = buffer.queued ≡ true

-- While frames are delivered, the device holds every capture buffer.
abbrev pub IsFed : Decoder → Type 0
IsFed decoder = decoder.capture_streaming ≡ true → All IsQueued decoder.capture

-- The buffers before an index are with the device.
abbrev QueuedBelow : ℕ → List MappedBuffer → Type 0
QueuedBelow zero buffers = Unit {0}
QueuedBelow (suc bound) [] = Unit {0}
QueuedBelow (suc bound) (buffer ∷ buffers) = IsQueued buffer × QueuedBelow bound buffers

QueuedBelow-update :
    (bound : ℕ) (buffers : List MappedBuffer)
    → QueuedBelow bound buffers
    → QueuedBelow (suc bound) (update (mark true) buffers bound)
QueuedBelow-update zero [] below = tt
QueuedBelow-update zero (buffer ∷ buffers) below = (refl, tt)
QueuedBelow-update (suc bound) [] below = tt
QueuedBelow-update (suc bound) (buffer ∷ buffers) (first, below) =
    (first, QueuedBelow-update bound buffers below)

QueuedBelow-All :
    (bound : ℕ) (buffers : List MappedBuffer)
    → length buffers ≤ bound
    → QueuedBelow bound buffers
    → All IsQueued buffers
QueuedBelow-All bound [] short below = tt
QueuedBelow-All zero (buffer ∷ buffers) short below = absurd (omega arith)
QueuedBelow-All (suc bound) (buffer ∷ buffers) short (first, below) =
    (first, QueuedBelow-All bound buffers (omega arith) below)

length-update :
    (change : MappedBuffer → MappedBuffer) (buffers : List MappedBuffer) (index : ℕ)
    → length (update change buffers index) ≡ length buffers
length-update change [] index = refl
length-update change (buffer ∷ buffers) zero = refl
length-update change (buffer ∷ buffers) (suc index) = ap suc (length-update change buffers index)

abbrev Idle : Errno → Decoder → Type 0
Idle code decoder = decoder.capture_streaming ≡ false

-- What the loop of `setup_capture` has reached.
record IsFilling (bound size : ℕ) (decoder : Decoder) : Type 0 where
  idle : decoder.capture_streaming ≡ false
  below : QueuedBelow bound decoder.capture
  size_kept : length decoder.capture ≡ size

queue_from-IsFilling :
    (device : Device) (index remaining size : ℕ) (decoder : Decoder)
    → IsFilling index size decoder
    → Ensures (IsFilling (index + remaining) size) Idle (queue_from device index remaining decoder)
queue_from-IsFilling device index zero size decoder filling =
    subst (λ bound. IsFilling bound size decoder) (omega arith) filling
queue_from-IsFilling device index (suc remaining) size decoder filling =
    subst
      (λ bound.
        Ensures (IsFilling bound size) Idle (queue_from device index (suc remaining) decoder))
      (let e : suc index + remaining ≡ index + suc remaining = omega arith in e)
      (Ensures-seq (IsFilling (suc index) size) (IsFilling (suc index + remaining) size) Idle
        (queue_capture device index decoder) (queue_from device (suc index) remaining)
        (commit-Ensures (IsFilling (suc index) size) Idle _ decoder _
          (λ done e. record {
            idle = filling.idle;
            below = QueuedBelow-update index decoder.capture filling.below;
            size_kept = length-update (mark true) decoder.capture index ∙ filling.size_kept;
          })
          (λ code. filling.idle))
        (queue_from-IsFilling device (suc index) remaining size))

abbrev IsFilled : Decoder → Type 0
IsFilled decoder = (decoder.capture_streaming ≡ false) × All IsQueued decoder.capture

queue_every-IsFilled :
    (device : Device) (decoder : Decoder)
    → decoder.capture_streaming ≡ false
    → Ensures IsFilled Idle (queue_every device decoder)
queue_every-IsFilled device decoder idle =
    let size = length decoder.capture in
    Ensures-mono (IsFilling (0 + size) size) IsFilled Idle Idle (queue_every device decoder)
      (queue_from-IsFilling device 0 size size decoder
        (record { idle = idle; below = tt; size_kept = refl }))
      (λ after filling. (
        filling.idle,
        QueuedBelow-All (0 + size) after.capture (omega (arith, filling.size_kept)) filling.below,
      ))
      (λ code after off. off)

-- Frames are delivered, and the device holds every capture buffer.
abbrev pub IsDelivering : Decoder → Type 0
IsDelivering decoder = (decoder.capture_streaming ≡ true) × All IsQueued decoder.capture

setup-IsDelivering :
    (device : Device) (decoder : Decoder)
    → decoder.capture_streaming ≡ false
    → Ensures IsDelivering Idle (start_capture device decoder)
unfolding set_capture_format
setup-IsDelivering device decoder idle =
    let Off : Decoder → Type 0 = λ d. d.capture_streaming ≡ false in
    Ensures-seq IsFilled IsDelivering Idle _ (stream_on device capture_queue)
      (Ensures-seq Off IsFilled Idle _ (queue_every device)
        (Ensures-seq Off Off Idle (set_capture_format device decoder) (map_capture device)
          (commit-Ensures Off Idle _ decoder _ (λ format e. idle) (λ code. idle))
          (λ agreed off. commit-Ensures Off Idle _ agreed _ (λ buffers e. off) (λ code. off)))
        (queue_every-IsFilled device))
      (λ filled all.
        commit-Ensures IsDelivering Idle _ filled _ (λ done e. (refl, all.1)) (λ code. all.0))

pub setup_capture-IsFed :
    (device : Device) (decoder : Decoder)
    → IsFed decoder
    → Ensures IsDelivering (λ code. IsFed) (setup_capture device decoder)
unfolding setup_capture
setup_capture-IsFed device decoder fed =
    if-holds (Ensures IsDelivering (λ code. IsFed)) decoder.capture_streaming (λ on. (on, fed on))
      (λ idle.
        Ensures-mono IsDelivering IsDelivering Idle (λ code. IsFed) (start_capture device decoder)
          (setup-IsDelivering device decoder idle) (λ after good. good)
          (λ code after off on. absurd cc))

-- When `setup_capture` succeeds, frames are delivered, and the device holds every capture buffer,
-- provided that it held them all if frames were delivered before.
pub setup_capture_delivers :
    (device : Device) (decoder : Decoder)
    → IsFed decoder
    → (setup_capture device decoder).1 ≡ ok tt
    → ((setup_capture device decoder).0.capture_streaming ≡ true)
      × All IsQueued (setup_capture device decoder).0.capture
setup_capture_delivers device decoder fed =
    Ensures-ok IsDelivering (λ code. IsFed) (setup_capture device decoder)
      (setup_capture-IsFed device decoder fed)
