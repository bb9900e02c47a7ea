-- ===== src/V4l2Decoder/Safety.antt =====
-- What holds of the decoder of src/v4l2_decoder.c between two calls.
use venus_vaapi_driver.Common.{
  length-overwrite, ℕ, zero, suc, ◌<◌, ◌≡◌, refl, sym, ap, subst, ◌∙◌, true, false, not, ◌||◌, List,
  length, replicate, length-replicate, All, arith, ◌==◌,
}
use venus_vaapi_driver.Common.Results.{ok, >>=-eq-ok, ok-injective, fail_if-eq-ok}
use venus_vaapi_driver.V4l2Decoder.Device.{
  Queue, MappedBuffer, PixFormat, Decoder, Device, PlaneReply,
}
use venus_vaapi_driver.V4l2Decoder.Setup.{map_one, map_from, request_and_map}
use venus_vaapi_driver.V4l2Decoder.Sizes.{sizes, length_same}

abbrev pub IsPositive : ℕ → Type 0
IsPositive n = 0 < n

-- A decoder whose buffers have bytes, with a first capture buffer and the pixel format that the
-- client asked for once frames are delivered.
pub record IsSafe (decoder : Decoder) : Type 0 where
  pub output_mapped : All IsPositive (sizes decoder.output)
  pub capture_mapped : All IsPositive (sizes decoder.capture)
  pub has_output : 0 < length decoder.output
  pub has_capture : decoder.capture_streaming ≡ true → 0 < length decoder.capture
  pub agreed :
      decoder.capture_streaming ≡ true
      → decoder.capture_format.pixelformat ≡ decoder.requested_raw_format
  pub one_plane : decoder.capture_streaming ≡ true → decoder.capture_format.num_planes ≡ 1

plane_sized :
    (plane : PlaneReply)
    → (not (plane.plane_count == 1) || plane.plane_length == 0) ≡ false
    → 0 < plane.plane_length
plane_sized plane e = ground arith

map_one_size :
    (device : Device) (queue : Queue) (index : ℕ) {buffer : MappedBuffer}
    → map_one device queue index ≡ ok buffer
    → 0 < length buffer.bytes
map_one_size device queue index {buffer} e =
    let (plane, queried, e₁) = >>=-eq-ok (device.query_buffer queue index) _ e in
    let (passed, e₂) =
      fail_if-eq-ok (not (plane.plane_count == 1) || plane.plane_length == 0) _ _ e₁ in
    let (contents, mapped, e₃) = >>=-eq-ok (device.map_memory queue index) _ e₂ in
    subst (λ (buffer : MappedBuffer). 0 < length buffer.bytes) (ok-injective e₃)
      (omega (
        arith,
        length-overwrite (replicate plane.plane_length 0) contents,
        length-replicate {A = ℕ} plane.plane_length 0,
        plane_sized plane passed,
      ))

pub map_from-sizes :
    (device : Device) (queue : Queue) (index remaining : ℕ) {buffers : List MappedBuffer}
    → map_from device queue index remaining ≡ ok buffers
    → All IsPositive (sizes buffers) × (length buffers ≡ remaining)
map_from-sizes device queue index zero {buffers} e =
    subst (λ buffers. All IsPositive (sizes buffers) × (length buffers ≡ 0)) (ok-injective e)
      (tt, refl)
map_from-sizes device queue index (suc remaining) e =
    let (buffer, one, e₁) = >>=-eq-ok (map_one device queue index) _ e in
    let (rest, more, e₂) = >>=-eq-ok (map_from device queue (suc index) remaining) _ e₁ in
    let (positive, long) = map_from-sizes device queue (suc index) remaining more in
    subst (λ buffers. All IsPositive (sizes buffers) × (length buffers ≡ suc remaining))
      (ok-injective e₂) ((map_one_size device queue index one, positive), omega (arith, long))

pub request_and_map-sizes :
    (device : Device) (queue : Queue) (requested : ℕ) {buffers : List MappedBuffer}
    → request_and_map device queue requested ≡ ok buffers
    → All IsPositive (sizes buffers) × (0 < length buffers)
unfolding request_and_map
request_and_map-sizes device queue requested e =
    let (count, asked, e₁) = >>=-eq-ok (device.request_buffers queue requested) _ e in
    let (some_granted, e₂) = fail_if-eq-ok (count == 0) _ _ e₁ in
    let (memory, e₃) = fail_if-eq-ok (not device.has_memory) _ _ e₂ in
    let (positive, long) = map_from-sizes device queue 0 count e₃ in
    (positive, ground (arith, long, some_granted))

-- What `IsSafe` reads of a decoder.
abbrev pub Frozen : (before after : Decoder) → Type 0
Frozen before after =
    (sizes after.output ≡ sizes before.output)
    × (sizes after.capture ≡ sizes before.capture)
    × (after.capture_streaming ≡ before.capture_streaming)
    × (after.capture_format ≡ before.capture_format)
    × (after.requested_raw_format ≡ before.requested_raw_format)

pub IsSafe-Frozen : {before after : Decoder} → Frozen before after → IsSafe before → IsSafe after
IsSafe-Frozen {before} {after} (output, capture, streaming, format, raw) safe = record {
  output_mapped = subst (All IsPositive) (sym output) safe.output_mapped;
  capture_mapped = subst (All IsPositive) (sym capture) safe.capture_mapped;
  has_output = omega (arith, safe.has_output, length_same after.output before.output output);
  has_capture = λ on. omega (
    arith,
    safe.has_capture (sym streaming ∙ on),
    length_same after.capture before.capture capture,
  );
  agreed = λ on.
      ap (λ (f : PixFormat). f.pixelformat) format ∙ safe.agreed (sym streaming ∙ on) ∙ sym raw;
  one_plane =
      λ on. ap (λ (f : PixFormat). f.num_planes) format ∙ safe.one_plane (sym streaming ∙ on);
}
