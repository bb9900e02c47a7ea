-- ===== src/Objects/Layout.antt =====
-- The layout that src/objects.c gives to the surfaces it allocates.
use native.Mathlib.Nat.{mul-le-mul_left, mul-le-mul_right, mod-lt}
use venus_vaapi_driver.Common.{
  ℕ, ◌+◌, ◌-◌, ◌*◌, ◌/◌, ◌^◌, ◌≤◌, ◌<◌, ◌≡◌, refl, subst, Bool, true, false, ◌||◌, arith, ltb, ◌==◌,
}
use venus_vaapi_driver.Common.Results.{
  Errno, Result, ok, err, einval, eoverflow, fail_if, >>=-eq-ok, ok-injective, guard-eq-ok,
}
use venus_vaapi_driver.VaTypes.{Fourcc}
use venus_vaapi_driver.Objects.{
  size_limit, bytes_per_sample, align_size, or_overflow, SurfaceLayout, place, surface_layout,
}

-- A size that is rounded up to an alignment does not shrink, and grows by less than the alignment.
pub align_size_ok :
    (value alignment result : ℕ)
    → align_size value alignment ≡ ok result
    → (value ≤ result) × (result < value + alignment)
unfolding align_size
align_size_ok value alignment result h =
    let (a, h1) = guard-eq-ok (alignment == 0) einval _ h in
    let small = mod-lt value {m = alignment} (ground (arith, a)) in ground (arith, h1, small)

or_overflow-eq-ok : (r : Result ℕ) {n : ℕ} → or_overflow r ≡ ok n → r ≡ ok n
or_overflow-eq-ok (ok m) h = h
or_overflow-eq-ok (err e) h = cc

fail_if-eq-ok : (b : Bool) (e : Errno) {u : Unit {0}} → fail_if b e ≡ ok u → b ≡ false
fail_if-eq-ok true e h = cc
fail_if-eq-ok false e h = refl

-- A layout that holds a picture of `height` rows of `row_bytes` bytes.
pub record IsRoomy (row_bytes height : ℕ) (layout : SurfaceLayout) : Type 0 where
  pub wide : row_bytes ≤ layout.stride
  pub tall : height ≤ layout.scanlines
  pub chroma_behind : layout.stride * layout.scanlines ≤ layout.uv_offset
  pub room : layout.uv_offset + layout.stride * (height / 2) + 65536 ≤ layout.allocation_size
  pub is_word : layout.allocation_size < 2 ^ 32

place-IsRoomy :
    (row_bytes height stride scanlines chroma : ℕ) (layout : SurfaceLayout)
    → row_bytes ≤ stride
    → height ≤ scanlines
    → height / 2 ≤ chroma
    → place stride scanlines chroma ≡ ok layout
    → IsRoomy row_bytes height layout
place-IsRoomy row_bytes height stride scanlines chroma layout wide tall half h =
    let (u1, a, h1) = >>=-eq-ok (fail_if (ltb (size_limit / scanlines) stride) eoverflow) _ h in
    let (u2, b, h2) =
      >>=-eq-ok
        (fail_if
          (ltb (size_limit / chroma) stride
            || ltb (size_limit - stride * chroma) (stride * scanlines))
          eoverflow)
        _ h1 in
    let (u3, c, h3) =
      >>=-eq-ok
        (fail_if (ltb (size_limit - 65536) (stride * scanlines + stride * chroma)) eoverflow) _
        h2 in
    let (size, aligned, h4) =
      >>=-eq-ok (or_overflow (align_size (stride * scanlines + stride * chroma + 65536) 4096)) _
        h3 in
    let (u5, d, h5) = >>=-eq-ok (fail_if (ltb (2 ^ 32 - 1) size) eoverflow) _ h4 in
    let (up, near) = align_size_ok _ 4096 size (or_overflow-eq-ok _ aligned) in
    let small = fail_if-eq-ok (ltb (2 ^ 32 - 1) size) eoverflow d in
    subst (IsRoomy row_bytes height) (ok-injective h5) (record {
      wide = wide;
      tall = tall;
      chroma_behind = omega arith;
      room = omega (arith, up, mul-le-mul_left {m = height / 2} {n = chroma} stride half);
      is_word = ground (arith, small);
    })

-- The layout of an allocated surface holds a picture of its size: each row fits the stride, the
-- chroma plane begins behind all scanlines, and both planes and the tail room of 64 KiB lie within
-- the allocation, whose size is a 32-bit number.
pub surface_layout_ok :
    (width height : ℕ) (fourcc : Fourcc) (layout : SurfaceLayout)
    → surface_layout width height fourcc ≡ ok layout
    → IsRoomy (width * bytes_per_sample fourcc) height layout
unfolding surface_layout
surface_layout_ok width height fourcc layout h =
    let (stride, a, h1) = >>=-eq-ok (or_overflow (align_size width 128)) _ h in
    let (scanlines, b, h2) = >>=-eq-ok (or_overflow (align_size height 32)) _ h1 in
    let (chroma, c, h3) = >>=-eq-ok (or_overflow (align_size (height / 2) 16)) _ h2 in
    let (u, d, h4) =
      >>=-eq-ok (fail_if (ltb (size_limit / bytes_per_sample fourcc) stride) eoverflow) _ h3 in
    let (wide, near_w) = align_size_ok width 128 stride (or_overflow-eq-ok _ a) in
    let (tall, near_h) = align_size_ok height 32 scanlines (or_overflow-eq-ok _ b) in
    let (half, near_c) = align_size_ok (height / 2) 16 chroma (or_overflow-eq-ok _ c) in
    place-IsRoomy (width * bytes_per_sample fourcc) height (stride * bytes_per_sample fourcc)
      scanlines chroma layout
      (mul-le-mul_right {m = width} {n = stride} (bytes_per_sample fourcc) wide) tall half h4
