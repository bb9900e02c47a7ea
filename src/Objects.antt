-- ===== src/Objects.antt =====
-- src/objects.c: the layout of surfaces and the copies between surfaces and linear images.
pub mod Geometry
pub mod Layout
pub mod Buffers
pub mod Images
pub mod Surfaces
pub mod Soundness
pub mod Allocation
pub mod Resizing
pub mod Ownership
pub mod Hiding
pub mod Showing
pub mod Creation
pub mod Marking
pub mod Lifetimes
pub mod Delivery
mod Tests
use venus_vaapi_driver.Common.{
  ℕ, zero, suc, ◌+◌, ◌-◌, ◌*◌, ◌/◌, ◌%◌, ◌^◌, Bool, true, false, not, ◌&&◌, ◌||◌, List, [], ◌∷◌,
  ◌++◌, ltb, ◌==◌, length, take, drop, replicate, if◌then◌else◌,
}
use venus_vaapi_driver.Common.Results.{
  Result, ok, err, einval, enospc, eoverflow, ◌>>=◌, ◌>>◌, fail_if,
}
use venus_vaapi_driver.VaTypes.{Fourcc, nv12, p010, other_fourcc}
use venus_vaapi_driver.Backend.{Surface}

abbrev pub size_limit : ℕ
size_limit = 2 ^ 64 - 1

unfoldable pub bytes_per_sample : Fourcc → ℕ
bytes_per_sample p010 = 2
bytes_per_sample nv12 = 1
bytes_per_sample other_fourcc = 0

abbrev pub is_odd : ℕ → Bool
is_odd n = not (n % 2 == 0)

-- `yuv420_size`
unfoldable pub yuv420_size : ℕ → ℕ → Fourcc → Result ℕ
yuv420_size width height fourcc =
    if width == 0
      || height == 0
      || is_odd width
      || is_odd height
      || bytes_per_sample fourcc == 0
      || ltb (size_limit / height) width
    then err einval
    else if ltb (size_limit / (3 * bytes_per_sample fourcc)) (width * height)
    then err eoverflow
    else ok (width * height * 3 / 2 * bytes_per_sample fourcc)

-- `align_size`
unfoldable pub align_size : ℕ → ℕ → Result ℕ
align_size value alignment =
    if alignment == 0
    then err einval
    else if value % alignment == 0
    then ok value
    else if ltb (size_limit - (alignment - value % alignment)) value
    then err eoverflow
    else ok (value + alignment - value % alignment)

-- The layout that `allocate_dma_surface` computes and stores in the surface.
pub record SurfaceLayout : Type 0 where
  pub stride : ℕ
  pub scanlines : ℕ
  pub uv_offset : ℕ
  pub allocation_size : ℕ

-- `align_size(...) < 0` becomes `-EOVERFLOW` in its caller.
abbrev pub or_overflow : Result ℕ → Result ℕ
or_overflow (ok n) = ok n
or_overflow (err e) = err eoverflow

abbrev pub place : ℕ → ℕ → ℕ → Result SurfaceLayout
place stride scanlines chroma_scanlines = do
  fail_if (ltb (size_limit / scanlines) stride) eoverflow
  fail_if
      (ltb (size_limit / chroma_scanlines) stride
        || ltb (size_limit - stride * chroma_scanlines) (stride * scanlines))
      eoverflow
  fail_if (ltb (size_limit - 65536) (stride * scanlines + stride * chroma_scanlines)) eoverflow
  allocation_size ←
      or_overflow (align_size (stride * scanlines + stride * chroma_scanlines + 65536) 4096)
  fail_if (ltb (2 ^ 32 - 1) allocation_size) eoverflow
  ok (record {
    stride = stride;
    scanlines = scanlines;
    uv_offset = stride * scanlines;
    allocation_size = allocation_size;
  })

-- `allocate_dma_surface`, up to the allocation itself. Surfaces are created in the two known
-- formats only, and with a size, so that no divisor is zero.
unfoldable pub surface_layout : ℕ → ℕ → Fourcc → Result SurfaceLayout
surface_layout width height fourcc = do
  stride ← or_overflow (align_size width 128)
  scanlines ← or_overflow (align_size height 32)
  chroma_scanlines ← or_overflow (align_size (height / 2) 16)
  fail_if (ltb (size_limit / bytes_per_sample fourcc) stride) eoverflow
  place (stride * bytes_per_sample fourcc) scanlines chroma_scanlines

-- One `memcpy`: where it writes, where it reads, and how much.
pub record Copy : Type 0 where
  pub to : ℕ
  pub from : ℕ
  pub count : ℕ

-- The copies of `n` rows of a plane, from one row on.
abbrev pub plane : ℕ → ℕ → ℕ → ℕ → ℕ → ℕ → ℕ → List Copy
plane to to_stride from from_stride row_bytes row zero = []
plane to to_stride from from_stride row_bytes row (suc n) =
    record { to = to + row * to_stride; from = from + row * from_stride; count = row_bytes }
    ∷ plane to to_stride from from_stride row_bytes (row + 1) n

-- Both planes of a picture.
pub record Planes : Type 0 where
  pub to_stride : ℕ
  pub to_uv : ℕ
  pub from_stride : ℕ
  pub from_uv : ℕ
  pub row_bytes : ℕ
  pub rows : ℕ

abbrev pub copies : Planes → List Copy
copies p =
    plane 0 p.to_stride 0 p.from_stride p.row_bytes 0 p.rows
    ++ plane p.to_uv p.to_stride p.from_uv p.from_stride p.row_bytes 0 (p.rows / 2)

abbrev pub run_copy : List ℕ → List ℕ → Copy → List ℕ
run_copy destination source copy =
    take copy.to destination
    ++ take copy.count (drop copy.from source)
    ++ drop (copy.to + copy.count) destination

abbrev pub run_copies : List ℕ → List ℕ → List Copy → List ℕ
run_copies destination source [] = destination
run_copies destination source (copy ∷ rest) =
    run_copies (run_copy destination source copy) source rest

-- The tests that both copies begin with. A surface without a mapping has no bytes.
abbrev pub bad_picture : Surface → ℕ → ℕ → Bool
bad_picture surface width height =
    length surface.bytes == 0
    || width == 0
    || height == 0
    || is_odd width
    || is_odd height
    || ltb surface.width width
    || ltb surface.height height
    || bytes_per_sample surface.fourcc == 0

abbrev pub row_bytes_of : Surface → ℕ → ℕ
row_bytes_of surface width = width * bytes_per_sample surface.fourcc % 2 ^ 32

abbrev pub stride_of : Surface → ℕ → ℕ
stride_of surface row_bytes = if surface.stride == 0 then row_bytes else surface.stride

abbrev pub uv_offset_of : Surface → ℕ → ℕ
uv_offset_of surface stride =
    if surface.uv_offset == 0 then stride * surface.height else surface.uv_offset

-- What the locals of `venus_surface_copy_from_yuv420` say of the planes.
abbrev pub planes_from : Surface → ℕ → ℕ → ℕ → ℕ → Planes
planes_from surface source_stride source_uv width height = record {
  to_stride = stride_of surface (row_bytes_of surface width);
  to_uv = uv_offset_of surface (stride_of surface (row_bytes_of surface width));
  from_stride = source_stride;
  from_uv = source_uv;
  row_bytes = row_bytes_of surface width;
  rows = height;
}

-- `stride > SIZE_MAX / height || uv_offset < stride * height || stride > SIZE_MAX / (height / 2)`
abbrev pub overlaps : ℕ → ℕ → ℕ → Bool
overlaps stride uv rows =
    ltb (size_limit / rows) stride || ltb uv (stride * rows) || ltb (size_limit / (rows / 2)) stride

-- `stride > SIZE_MAX / (height / 2) || uv_offset > SIZE_MAX - stride * (height / 2)`
abbrev pub end_wraps : ℕ → ℕ → ℕ → Bool
end_wraps stride uv rows =
    ltb (size_limit / (rows / 2)) stride || ltb (size_limit - stride * (rows / 2)) uv

-- The tests of `venus_surface_copy_from_yuv420`. The end of the source is a sum that can wrap.
unfoldable pub plan_copy_from : Surface → ℕ → ℕ → ℕ → ℕ → ℕ → Result Planes
plan_copy_from surface source_size source_stride source_uv width height =
    let p = planes_from surface source_stride source_uv width height in
    if bad_picture surface width height
    then err einval
    else if ltb p.from_stride p.row_bytes
    then err einval
    else if overlaps p.from_stride p.from_uv p.rows
    then err eoverflow
    else if ltb p.to_stride p.row_bytes || end_wraps p.to_stride p.to_uv p.rows
    then err eoverflow
    else if ltb source_size ((p.from_uv + p.from_stride * (p.rows / 2)) % 2 ^ 64)
        || ltb (length surface.bytes) (p.to_uv + p.to_stride * (p.rows / 2))
    then err enospc
    else ok p

-- What a copy to the surface leaves in it.
abbrev pub filled : Surface → List ℕ → Planes → Surface
filled surface source planes = record surface {
  bytes = run_copies (replicate (length surface.bytes) 0) source (copies planes);
  data_size = planes.to_uv + planes.to_stride * (planes.rows / 2);
  ready = true;
}

abbrev pub carry_out_from :
    (begin_sync end_sync : Result (Unit {0}))
    → Surface
    → List ℕ
    → Result Planes
    → Surface × Result (Unit {0})
carry_out_from begin_sync end_sync surface source (err e) = (surface, err e)
carry_out_from (err e) end_sync surface source (ok planes) = (surface, err e)
carry_out_from (ok done) end_sync surface source (ok planes) =
    (filled surface source planes, end_sync)

-- `venus_surface_copy_from_yuv420`. What the kernel answers to the two synchronisations are
-- arguments; the copy stays in the surface when only the second fails.
unfoldable pub copy_from_yuv420 :
    (begin_sync end_sync : Result (Unit {0}))
    → Surface
    → List ℕ
    → ℕ
    → ℕ
    → ℕ
    → ℕ
    → Surface × Result (Unit {0})
copy_from_yuv420 begin_sync end_sync surface source source_stride source_uv width height =
    carry_out_from begin_sync end_sync surface source
      (plan_copy_from surface (length source) source_stride source_uv width height)

-- What the locals of `venus_surface_copy_to_yuv420` say of the planes.
abbrev pub planes_to : Surface → ℕ → ℕ → ℕ → ℕ → Planes
planes_to surface target_stride target_uv width height = record {
  to_stride = target_stride;
  to_uv = target_uv;
  from_stride = stride_of surface (row_bytes_of surface width);
  from_uv = uv_offset_of surface (stride_of surface (row_bytes_of surface width));
  row_bytes = row_bytes_of surface width;
  rows = height;
}

-- The tests of `venus_surface_copy_to_yuv420`.
unfoldable pub plan_copy_to : Surface → ℕ → ℕ → ℕ → ℕ → ℕ → Result Planes
plan_copy_to surface target_size target_stride target_uv width height =
    let p = planes_to surface target_stride target_uv width height in
    if bad_picture surface width height
    then err einval
    else if ltb p.to_stride p.row_bytes
    then err einval
    else if ltb p.from_stride p.row_bytes
        || end_wraps p.from_stride p.from_uv p.rows
        || overlaps p.to_stride p.to_uv p.rows
        || end_wraps p.to_stride p.to_uv p.rows
    then err eoverflow
    else if ltb surface.data_size (p.from_uv + p.from_stride * (p.rows / 2))
        || ltb target_size (p.to_uv + p.to_stride * (p.rows / 2))
    then err enospc
    else ok p

-- `venus_surface_copy_to_yuv420`
unfoldable pub copy_to_yuv420 :
    (begin_sync end_sync : Result (Unit {0}))
    → Surface
    → List ℕ
    → ℕ
    → ℕ
    → ℕ
    → ℕ
    → List ℕ × Result (Unit {0})
copy_to_yuv420 begin_sync end_sync surface target target_stride target_uv width height =
    elim (plan_copy_to surface (length target) target_stride target_uv width height) [
      | ok planes ↦ elim begin_sync [
        | ok done ↦
            (run_copies (replicate (length target) 0) surface.bytes (copies planes), end_sync)
        | err e ↦ (target, err e)
      ]
      | err e ↦ (target, err e)
    ]
