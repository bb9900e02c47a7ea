-- ===== src/Objects/Geometry.antt =====
-- The bounds of the surface layouts and copies of src/objects.c.
use native.Mathlib.Nat.{mul-le-mul_left}
use venus_vaapi_driver.Common.{
  ℕ, zero, suc, ◌+◌, ◌*◌, ◌/◌, ◌%◌, ◌^◌, ◌≤◌, ◌<◌, ◌≡◌, ◌≢◌, subst, ◌⊎◌, inl, inr, ◌||◌, List, [],
  ◌∷◌, ◌++◌, arith, ltb, length, All,
}
use venus_vaapi_driver.Common.Results.{ok, einval, enospc, eoverflow, ok-injective, guard-eq-ok}
use venus_vaapi_driver.Backend.{Surface}
use venus_vaapi_driver.Objects.{
  size_limit, Copy, plane, Planes, copies, bad_picture, row_bytes_of, stride_of, uv_offset_of,
  planes_from, planes_to, overlaps, end_wraps, plan_copy_from, plan_copy_to,
}

-- A copy within `to_size` bytes of the destination and `from_size` bytes of the source.
abbrev pub IsInside : ℕ → ℕ → Copy → Type 0
IsInside to_size from_size copy =
    (copy.to + copy.count ≤ to_size) × (copy.from + copy.count ≤ from_size)

row_end :
    (base stride row_bytes row rows size : ℕ)
    → row < rows
    → row_bytes ≤ stride
    → base + stride * rows ≤ size
    → base + row * stride + row_bytes ≤ size
row_end base stride row_bytes row rows size lt fits whole =
    omega (arith, mul-le-mul_left {m = row + 1} {n = rows} stride (omega arith))

plane-IsInside :
    (to to_stride from from_stride row_bytes row n rows to_size from_size : ℕ)
    → row + n ≤ rows
    → row_bytes ≤ to_stride
    → row_bytes ≤ from_stride
    → to + to_stride * rows ≤ to_size
    → from + from_stride * rows ≤ from_size
    → All (IsInside to_size from_size) (plane to to_stride from from_stride row_bytes row n)
plane-IsInside to ts from fs rb row zero rows to_size from_size le a b c d = tt
plane-IsInside to ts from fs rb row (suc n) rows to_size from_size le a b c d = (
  (
    row_end to ts rb row rows to_size (omega arith) a c,
    row_end from fs rb row rows from_size (omega arith) b d,
  ),
  plane-IsInside to ts from fs rb (row + 1) n rows to_size from_size (omega arith) a b c d,
)

All-append : (P : Copy → Type 0) (xs ys : List Copy) → All P xs → All P ys → All P (xs ++ ys)
All-append P [] ys p q = q
All-append P (x ∷ xs) ys p q = (p.0, All-append P xs ys p.1 q)

copies-IsInside :
    (p : Planes) (to_size from_size : ℕ)
    → p.row_bytes ≤ p.to_stride
    → p.row_bytes ≤ p.from_stride
    → p.to_stride * p.rows ≤ p.to_uv
    → p.from_stride * p.rows ≤ p.from_uv
    → p.to_uv + p.to_stride * (p.rows / 2) ≤ to_size
    → p.from_uv + p.from_stride * (p.rows / 2) ≤ from_size
    → All (IsInside to_size from_size) (copies p)
copies-IsInside p to_size from_size a b c d e f =
    All-append (IsInside to_size from_size)
      (plane 0 p.to_stride 0 p.from_stride p.row_bytes 0 p.rows)
      (plane p.to_uv p.to_stride p.from_uv p.from_stride p.row_bytes 0 (p.rows / 2))
      (plane-IsInside 0 p.to_stride 0 p.from_stride p.row_bytes 0 p.rows p.rows to_size from_size
        (omega arith) a b (omega arith) (omega arith))
      (plane-IsInside p.to_uv p.to_stride p.from_uv p.from_stride p.row_bytes 0 (p.rows / 2)
        (p.rows / 2) to_size from_size (omega arith) a b e f)

-- A surface whose luma plane ends before its chroma plane.
abbrev pub IsLaidOut : Surface → Type 0
IsLaidOut surface =
    (surface.stride ≡ 0) × (surface.uv_offset ≡ 0)
    ⊎ (surface.stride ≢ 0) × (surface.stride * surface.height ≤ surface.uv_offset)

luma_fits :
    (surface : Surface) (row_bytes height : ℕ)
    → IsLaidOut surface
    → height ≤ surface.height
    → stride_of surface row_bytes * height ≤ uv_offset_of surface (stride_of surface row_bytes)
luma_fits surface row_bytes height (inl laid) le =
    ground (arith, laid, mul-le-mul_left {m = height} {n = surface.height} row_bytes le)
luma_fits surface row_bytes height (inr laid) le =
    ground (arith, laid, mul-le-mul_left {m = height} {n = surface.height} surface.stride le)

-- Each row that an accepted copy to a surface moves lies within the source and within the
-- mapping, when the surface is laid out and the end of the source's chroma plane is a `size_t`.
pub plan_copy_from_ok :
    (surface : Surface) (source_size source_stride source_uv width height : ℕ) (planes : Planes)
    → IsLaidOut surface
    → source_uv + source_stride * (height / 2) ≤ size_limit
    → plan_copy_from surface source_size source_stride source_uv width height ≡ ok planes
    → All (IsInside (length surface.bytes) source_size) (copies planes)
unfolding plan_copy_from
plan_copy_from_ok surface source_size source_stride source_uv width height planes laid whole h =
    let (a, h1) = guard-eq-ok (bad_picture surface width height) einval _ h in
    let (b, h2) = guard-eq-ok (ltb p.from_stride p.row_bytes) einval _ h1 in
    let (c, h3) = guard-eq-ok (overlaps p.from_stride p.from_uv p.rows) eoverflow _ h2 in
    let (d, h4) =
      guard-eq-ok (ltb p.to_stride p.row_bytes || end_wraps p.to_stride p.to_uv p.rows) eoverflow _
        h3 in
    let (e, h5) =
      guard-eq-ok
        (ltb source_size ((p.from_uv + p.from_stride * (p.rows / 2)) % 2 ^ 64)
          || ltb (length surface.bytes) (p.to_uv + p.to_stride * (p.rows / 2)))
        enospc (ok p) h4 in
    subst (λ (q : Planes). All (IsInside (length surface.bytes) source_size) (copies q))
      (ok-injective h5)
      (copies-IsInside p (length surface.bytes) source_size (ground (arith, d)) (ground (arith, b))
        (luma_fits surface (row_bytes_of surface width) height laid (ground (arith, a)))
        (ground (arith, c)) (ground (arith, e)) (ground (arith, e, whole)))
  where
    p : Planes
    p = planes_from surface source_stride source_uv width height

-- Each row that an accepted copy from a surface moves lies within what the surface holds and
-- within the target, when the surface is laid out.
pub plan_copy_to_ok :
    (surface : Surface) (target_size target_stride target_uv width height : ℕ) (planes : Planes)
    → IsLaidOut surface
    → plan_copy_to surface target_size target_stride target_uv width height ≡ ok planes
    → All (IsInside target_size surface.data_size) (copies planes)
unfolding plan_copy_to
plan_copy_to_ok surface target_size target_stride target_uv width height planes laid h =
    let (a, h1) = guard-eq-ok (bad_picture surface width height) einval _ h in
    let (b, h2) = guard-eq-ok (ltb p.to_stride p.row_bytes) einval _ h1 in
    let (c, h3) =
      guard-eq-ok
        (ltb p.from_stride p.row_bytes
          || end_wraps p.from_stride p.from_uv p.rows
          || overlaps p.to_stride p.to_uv p.rows
          || end_wraps p.to_stride p.to_uv p.rows)
        eoverflow _ h2 in
    let (e, h4) =
      guard-eq-ok
        (ltb surface.data_size (p.from_uv + p.from_stride * (p.rows / 2))
          || ltb target_size (p.to_uv + p.to_stride * (p.rows / 2)))
        enospc (ok p) h3 in
    subst (λ (q : Planes). All (IsInside target_size surface.data_size) (copies q))
      (ok-injective h4)
      (copies-IsInside p target_size surface.data_size (ground (arith, b)) (ground (arith, c))
        (ground (arith, c))
        (luma_fits surface (row_bytes_of surface width) height laid (ground (arith, a)))
        (ground (arith, e)) (ground (arith, e)))
  where
    p : Planes
    p = planes_to surface target_stride target_uv width height
