-- ===== src/V4l2Decoder/SafeSetup.antt =====
-- The set-up of the capture queue in src/v4l2_decoder.c keeps the decoder safe.
use venus_vaapi_driver.Common.{
  ℕ, zero, suc, ◌<◌, ◌≡◌, refl, sym, ap, subst, ◌∙◌, true, false, not, List, length, All, arith,
  if-holds,
}
use venus_vaapi_driver.Common.Results.{Errno, Result, ok, >>=-eq-ok, ok-injective, fail_if-eq-ok}
use venus_vaapi_driver.V4l2Decoder.Device.{capture_queue, MappedBuffer, PixFormat, Decoder, Device}
use venus_vaapi_driver.V4l2Decoder.Setup.{
  map_capture, capture_queued, queue_capture, queue_from, queue_every, stream_on, checked_format,
  set_capture_format, setup_capture, is_contract,
}
use venus_vaapi_driver.V4l2Decoder.Sizes.{sizes, length_same, sizes-mark}
use venus_vaapi_driver.V4l2Decoder.Outcomes.{
  Ensures, Leaves, Ensures-seq, Ensures-mono, Leaves-seq, Leaves→Ensures, commit-Ensures,
  commit-Leaves,
}
use venus_vaapi_driver.V4l2Decoder.Safety.{
  IsPositive, IsSafe, Frozen, IsSafe-Frozen, request_and_map-sizes,
}

-- A decoder whose capture queue is being set up, once its format is agreed.
record IsAgreed (decoder : Decoder) : Type 0 where
  safe : IsSafe decoder
  idle : decoder.capture_streaming ≡ false
  same_format : decoder.capture_format.pixelformat ≡ decoder.requested_raw_format
  single_plane : decoder.capture_format.num_planes ≡ 1

abbrev SafeIfFailed : Errno → Decoder → Type 0
SafeIfFailed code = IsSafe

-- While no frame is delivered, a safe decoder takes any format and any mapped buffers.
idle-IsSafe :
    {decoder : Decoder} {buffers : List MappedBuffer} {format : PixFormat}
    → IsSafe decoder
    → decoder.capture_streaming ≡ false
    → All IsPositive (sizes buffers)
    → IsSafe (record decoder { capture = buffers; capture_format = format })
idle-IsSafe safe idle mapped = record {
  output_mapped = safe.output_mapped;
  capture_mapped = mapped;
  has_output = safe.has_output;
  has_capture = λ on. absurd cc;
  agreed = λ on. absurd cc;
  one_plane = λ on. absurd cc;
}

contract_agreed :
    (pixelformat : ℕ) (format : PixFormat)
    → not (is_contract pixelformat format) ≡ false
    → (format.pixelformat ≡ pixelformat) × (format.num_planes ≡ 1)
contract_agreed pixelformat format e = ground arith

pub checked_format-ok :
    (pixelformat : ℕ) (answer : Result PixFormat) {format : PixFormat}
    → checked_format pixelformat answer ≡ ok format
    → (format.pixelformat ≡ pixelformat) × (format.num_planes ≡ 1)
checked_format-ok pixelformat answer e =
    let (format, answered, e₁) = >>=-eq-ok answer _ e in
    let (kept, e₂) = fail_if-eq-ok (not (is_contract pixelformat format)) _ _ e₁ in
    subst (λ (f : PixFormat). (f.pixelformat ≡ pixelformat) × (f.num_planes ≡ 1)) (ok-injective e₂)
      (contract_agreed pixelformat format kept)

set_capture_format-IsAgreed :
    (device : Device) (decoder : Decoder)
    → IsSafe decoder
    → decoder.capture_streaming ≡ false
    → Ensures IsAgreed SafeIfFailed (set_capture_format device decoder)
unfolding set_capture_format
set_capture_format-IsAgreed device decoder safe idle =
    commit-Ensures IsAgreed SafeIfFailed _ decoder _
      (λ format e.
        let (pixelformat, planes) = checked_format-ok decoder.requested_raw_format _ e in
        record {
          safe = idle-IsSafe safe idle safe.capture_mapped;
          idle = idle;
          same_format = pixelformat;
          single_plane = planes;
        })
      (λ code. safe)

record IsMapped (decoder : Decoder) : Type 0 where
  agreed : IsAgreed decoder
  has_capture : 0 < length decoder.capture

map_capture-IsMapped :
    (device : Device) (decoder : Decoder)
    → IsAgreed decoder
    → Ensures IsMapped SafeIfFailed (map_capture device decoder)
map_capture-IsMapped device decoder agreed =
    commit-Ensures IsMapped SafeIfFailed _ decoder _
      (λ buffers e.
        let (positive, has_capture) =
          request_and_map-sizes device capture_queue decoder.requested_capture_buffers e in
        record {
          agreed = record {
            safe = idle-IsSafe agreed.safe agreed.idle positive;
            idle = agreed.idle;
            same_format = agreed.same_format;
            single_plane = agreed.single_plane;
          };
          has_capture = has_capture;
        })
      (λ code. agreed.safe)

pub capture_queued-Frozen :
    (answer : Result (Unit {0})) (index : ℕ) (before decoder : Decoder)
    → Frozen before decoder
    → Leaves (Frozen before) (capture_queued answer index decoder)
capture_queued-Frozen answer index before decoder same =
    let (output, capture, streaming, format, raw) = same in
    commit-Leaves (Frozen before) _ decoder answer
      (λ done e. (output, sizes-mark true decoder.capture index ∙ capture, streaming, format, raw))
      same

queue_from-Frozen :
    (device : Device) (index remaining : ℕ) (before decoder : Decoder)
    → Frozen before decoder
    → Leaves (Frozen before) (queue_from device index remaining decoder)
queue_from-Frozen device index zero before decoder same = same
queue_from-Frozen device index (suc remaining) before decoder same =
    Leaves-seq (Frozen before) (queue_capture device index decoder)
      (queue_from device (suc index) remaining) (capture_queued-Frozen _ index before decoder same)
      (queue_from-Frozen device (suc index) remaining before)

IsMapped-Frozen : {before after : Decoder} → Frozen before after → IsMapped before → IsMapped after
IsMapped-Frozen {before} {after} frozen mapped =
    let (output, capture, streaming, format, raw) = frozen in
    record {
      agreed = record {
        safe = IsSafe-Frozen frozen mapped.agreed.safe;
        idle = streaming ∙ mapped.agreed.idle;
        same_format =
            ap (λ (f : PixFormat). f.pixelformat) format ∙ mapped.agreed.same_format ∙ sym raw;
        single_plane = ap (λ (f : PixFormat). f.num_planes) format ∙ mapped.agreed.single_plane;
      };
      has_capture =
          omega (arith, mapped.has_capture, length_same after.capture before.capture capture);
    }

queue_every-IsMapped :
    (device : Device) (decoder : Decoder)
    → IsMapped decoder
    → Ensures IsMapped SafeIfFailed (queue_every device decoder)
queue_every-IsMapped device decoder mapped =
    let same : Frozen decoder decoder = (refl, refl, refl, refl, refl) in
    Ensures-mono (Frozen decoder) IsMapped (λ code. Frozen decoder) SafeIfFailed
      (queue_every device decoder)
      (Leaves→Ensures (Frozen decoder) (queue_every device decoder)
        (queue_from-Frozen device 0 (length decoder.capture) decoder decoder same))
      (λ after frozen. IsMapped-Frozen frozen mapped)
      (λ code after frozen. IsSafe-Frozen frozen mapped.agreed.safe)

stream_on-IsSafe :
    (device : Device) (decoder : Decoder)
    → IsMapped decoder
    → Ensures IsSafe SafeIfFailed (stream_on device capture_queue decoder)
stream_on-IsSafe device decoder mapped =
    commit-Ensures IsSafe SafeIfFailed _ decoder _
      (λ done e. record {
        output_mapped = mapped.agreed.safe.output_mapped;
        capture_mapped = mapped.agreed.safe.capture_mapped;
        has_output = mapped.agreed.safe.has_output;
        has_capture = λ on. mapped.has_capture;
        agreed = λ on. mapped.agreed.same_format;
        one_plane = λ on. mapped.agreed.single_plane;
      })
      (λ code. mapped.agreed.safe)

pub setup_capture-IsSafe :
    (device : Device) (decoder : Decoder)
    → IsSafe decoder
    → Ensures IsSafe SafeIfFailed (setup_capture device decoder)
unfolding setup_capture
setup_capture-IsSafe device decoder safe =
    if-holds (Ensures IsSafe SafeIfFailed) decoder.capture_streaming (λ on. safe)
      (λ idle.
        Ensures-seq IsMapped IsSafe SafeIfFailed _ (stream_on device capture_queue)
          (Ensures-seq IsMapped IsMapped SafeIfFailed _ (queue_every device)
            (Ensures-seq IsAgreed IsMapped SafeIfFailed (set_capture_format device decoder)
              (map_capture device) (set_capture_format-IsAgreed device decoder safe idle)
              (map_capture-IsMapped device))
            (queue_every-IsMapped device))
          (stream_on-IsSafe device))
