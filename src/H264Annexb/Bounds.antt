-- ===== src/H264Annexb/Bounds.antt =====
-- No call of src/h264_annexb.c writes behind the output's capacity, on any input.
use venus_vaapi_driver.Common.{
  ℕ, ◌≤◌, ◌≡◌, refl, ◌≢◌, sym, ◌∙◌, false, some, List, [], arith, ◌==◌, length, length-append, take,
  Bool-cases, inl, inr,
}
use venus_vaapi_driver.Common.Results.{Result, Errno, ok, err, enotsup, fail_if, >>=-eq-ok}
use venus_vaapi_driver.VaTypes.{Profile, PictureH264, SliceH264}
use venus_vaapi_driver.BitWriter
use venus_vaapi_driver.BitWriter.{BitWriter, is_ok, finish_rbsp}
use venus_vaapi_driver.H264Annexb.{ByteWriter, append_bytes}
use venus_vaapi_driver.H264Annexb.Escape.{append_escaped_nal-escape}
use venus_vaapi_driver.H264Annexb.Headers.{
  append_rbsp, append_sps, append_pps, profile_idc, sps_unsupported, write_sps, write_pps,
  rbsp_writer,
}
use venus_vaapi_driver.H264Annexb.AccessUnit.{
  SliceBatch, append_slices, append_unit, built_size, first_slice_of, build_access_unit,
}
use venus_vaapi_driver.H264Annexb.Framing.{append_slices-framed, append_slices_ok}

abbrev pub Fits : ℕ → ByteWriter → Type 0
Fits cap writer = (writer.capacity ≡ cap) × (length writer.written ≤ cap)

module _ (cap : ℕ) where
  append_bytes-Fits :
      (writer : ByteWriter) (bytes : List ℕ) {w : ByteWriter}
      → Fits cap writer
      → append_bytes writer bytes ≡ ok w
      → Fits cap w
  unfolding append_bytes
  append_bytes-Fits writer bytes f h = ground (arith, length-append writer.written bytes)

  append_rbsp-Fits :
      (writer : ByteWriter) (nal_header : ℕ) (bits : BitWriter) {w : ByteWriter}
      → Fits cap writer
      → append_rbsp writer nal_header bits ≡ ok w
      → Fits cap w
  unfolding append_rbsp
  append_rbsp-Fits writer nal_header bits f h = elim (Bool-cases (is_ok bits)) [
    | inl good ↦ append_bytes-Fits writer _ f (
        sym (append_escaped_nal-escape writer nal_header (take (BitWriter.size bits) bits.buffer))
        ∙ (rw good at h))
    | inr full ↦ cc (rw full at h)
  ]

  append_sps-Fits :
      (writer : ByteWriter) (profile : Profile) (picture : PictureH264) {w : ByteWriter}
      → Fits cap writer
      → append_sps writer profile picture ≡ ok w
      → Fits cap w
  unfolding append_sps
  append_sps-Fits writer profile picture f h =
      let (value, _, h1) = >>=-eq-ok (profile_idc profile) _ h in
      let (_, _, h2) = >>=-eq-ok (fail_if (sps_unsupported picture) enotsup) _ h1 in
      let (_, _, h3) = >>=-eq-ok (fail_if (picture.pic_order_cnt_type == 1) enotsup) _ h2 in
      append_rbsp-Fits writer 0x67 (finish_rbsp (write_sps value picture rbsp_writer)) f h3

  append_pps-Fits :
      (writer : ByteWriter) (picture : PictureH264) (slice : SliceH264) {w : ByteWriter}
      → Fits cap writer
      → append_pps writer picture slice ≡ ok w
      → Fits cap w
  unfolding append_pps
  append_pps-Fits writer picture slice f h =
      append_rbsp-Fits writer 0x68 (finish_rbsp (write_pps picture slice rbsp_writer)) f h

  append_slices-Fits :
      (writer : ByteWriter) (batches : List SliceBatch) {w : ByteWriter}
      → Fits cap writer
      → append_slices writer batches ≡ ok w
      → Fits cap w
  append_slices-Fits writer batches f h =
      let (bytes, framing) = append_slices_ok writer batches h in
      append_bytes-Fits writer bytes f (sym (append_slices-framed writer framing) ∙ h)

  append_unit-Fits :
      (writer : ByteWriter) (profile : Profile) (picture : PictureH264) (slice : SliceH264)
      (batches : List SliceBatch) {w : ByteWriter}
      → Fits cap writer
      → append_unit writer profile picture slice batches ≡ ok w
      → Fits cap w
  unfolding append_unit
  append_unit-Fits writer profile picture slice batches f h =
      let (with_sps, first, h1) = >>=-eq-ok (append_sps writer profile picture) _ h in
      let (with_pps, second, h2) = >>=-eq-ok (append_pps with_sps picture slice) _ h1 in
      append_slices-Fits with_pps batches
        (append_pps-Fits with_sps picture slice (append_sps-Fits writer profile picture f first)
          second)
        h2

built-Fits :
    (cap old : ℕ) (r : Result ByteWriter)
    → ((w : ByteWriter) → r ≡ ok w → Fits cap w)
    → let size : ℕ = built_size r in (size ≤ cap) × ((e : Errno) → r ≡ err e → size ≡ 0)
built-Fits cap old (ok w) h = ((h w refl).1, λ e p. cc)
built-Fits cap old (err e) h = (omega arith, λ e p. refl)

-- On any input the reported size fits the output, once the arguments have passed the tests; and
-- when the call fails then, the reported size is 0.
pub build_access_unit_bounds :
    (profile : Profile) (picture : PictureH264) (batches : List SliceBatch) (cap old : ℕ)
    (slice : SliceH264)
    → cap ≢ 0
    → first_slice_of batches ≡ some slice
    → let built = build_access_unit profile (some picture) batches (some cap) old in
      (built.output_size ≤ cap) × ((e : Errno) → built.status ≡ err e → built.output_size ≡ 0)
unfolding build_access_unit
build_access_unit_bounds profile picture batches cap old slice room first =
    rw (let e : (cap == 0) ≡ false = ground arith in e, first)
      (built-Fits cap old
        (append_unit (record { written = []; capacity = cap }) profile picture slice batches)
        (λ w h.
          append_unit-Fits cap (record { written = []; capacity = cap }) profile picture slice
            batches (refl, omega arith) h))
