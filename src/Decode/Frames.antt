-- ===== src/Decode/Frames.antt =====
-- The bounds of a frame that src/decode.c stores.
use native.Mathlib.Nat.{mul-le-mul}
use venus_vaapi_driver.Common.{
  if-holds, ◌∙◌, ap, sym, ◌≢◌, set, true, replicate, subst, ℕ, ◌+◌, ◌-◌, ◌*◌, ◌/◌, ◌^◌, ◌≤◌, ◌<◌,
  ◌≡◌, refl, ◌||◌, Option, none, some, arith, ltb, ◌==◌, length, All, All-get, List, Bool-cases,
  inl, inr,
}
use venus_vaapi_driver.Common.Results.{Result, ok, err}
use venus_vaapi_driver.Backend.{Surface, Backend, find_surface, max_surfaces, surface_slot}
use venus_vaapi_driver.Backend.Table.{find-set_ne, find-set_self, find, find-some}
use venus_vaapi_driver.Objects.{
  filled, run_copies, size_limit, is_odd, bytes_per_sample, Planes, copies, plan_copy_from,
  carry_out_from, copy_from_yuv420,
}
use venus_vaapi_driver.Objects.Geometry.{IsInside, IsLaidOut, plan_copy_from_ok}
use venus_vaapi_driver.Decode.{
  store_result, Frame, frame_row_bytes, frame_stride, store_in, store_frame,
}

-- What a stored frame has been copied to.
pub record IsFrameStored (backend : Backend) (frame : Frame) (after : Backend) : Type 0 where
  pub index : ℕ
  pub surface : Surface
  pub found : find_surface backend frame.tag ≡ some (index, surface)
  pub planes : Planes
  pub planned :
      plan_copy_from surface
        (length frame.payload)
        (frame_stride surface frame)
        (frame_stride surface frame * frame.height)
        surface.width
        surface.height
      ≡ ok planes
  pub inside : All (IsInside (length surface.bytes) (length frame.payload)) (copies planes)
  pub written : Surface
  pub stored : find_surface after frame.tag ≡ some (index, written)
  pub pixels :
      written.bytes ≡ run_copies (replicate (length surface.bytes) 0) frame.payload (copies planes)
  pub ready : written.ready ≡ true
  pub end_of_data : written.data_size ≡ planes.to_uv + planes.to_stride * (planes.rows / 2)
  pub same_size : (written.width ≡ surface.width) × (written.height ≡ surface.height)
  pub others :
      (other : ℕ) → other ≢ frame.tag → find_surface after other ≡ find_surface backend other

carried_out :
    (begin_sync end_sync : Result (Unit {0})) (surface : Surface) (source : List ℕ)
    (plan : Result Planes)
    → (carry_out_from begin_sync end_sync surface source plan).1 ≡ ok tt
    → (planes : Planes) × (plan ≡ ok planes)
      × ((carry_out_from begin_sync end_sync surface source plan).0 ≡ filled surface source planes)
carried_out (ok done) end_sync surface source (ok planes) h = (planes, refl, refl)
carried_out (err e) end_sync surface source (ok planes) h = absurd (ground (arith, h))
carried_out begin_sync end_sync surface source (err e) h = absurd (ground (arith, h))

module _ (begin_sync end_sync : Result (Unit {0})) (backend : Backend) (frame : Frame)
    (laid : All IsLaidOut backend.surfaces) (line : frame.bytes_per_line < 2 ^ 32)
    (rows : frame.height < 2 ^ 31) (sized : length backend.surfaces ≤ max_surfaces) where
  laid_out :
      {index : ℕ} {surface : Surface}
      → find_surface backend frame.tag ≡ some (index, surface)
      → IsLaidOut surface
  unfolding find_surface
  laid_out {index} found =
      let (there, used, own, lt, e) =
        find-some surface_slot 3 max_surfaces backend.surfaces frame.tag found in
      All-get IsLaidOut backend.surfaces index laid there

  stride_lt : (surface : Surface) → frame_stride surface frame < 2 ^ 32
  stride_lt surface = ground (arith, line)

  end_fits :
      (surface : Surface)
      → surface.height ≤ frame.height
      → frame_stride surface frame * frame.height
          + frame_stride surface frame * (surface.height / 2)
        ≤ size_limit
  end_fits surface low = omega (
    arith,
    mul-le-mul {n₁ = frame_stride surface frame} {m₁ = frame.height} {n₂ = 2 ^ 32} {m₂ = 2 ^ 31}
        (omega (arith, stride_lt surface)) (omega (arith, rows)),
    mul-le-mul {n₁ = frame_stride surface frame} {m₁ = surface.height / 2} {n₂ = 2 ^ 32}
        {m₂ = 2 ^ 30} (omega (arith, stride_lt surface)) (omega (arith, rows, low)),
  )

  copied :
      {i : ℕ} {surface : Surface}
      → find_surface backend frame.tag ≡ some (i, surface)
      → surface.height ≤ frame.height
      → (copy_from_yuv420 begin_sync end_sync surface frame.payload
          (frame_stride surface frame)
          (frame_stride surface frame * frame.height)
          surface.width
          surface.height).1
        ≡ ok tt
      → IsFrameStored backend frame
          (store_result backend i (
            copy_from_yuv420 begin_sync end_sync surface frame.payload
              (frame_stride surface frame)
              (frame_stride surface frame * frame.height)
              surface.width
              surface.height)).0
  unfolding copy_from_yuv420 find_surface
  copied {i} {surface} found low h =
      let (planes, planned, copied_in) =
        carried_out begin_sync end_sync surface frame.payload
          (plan_copy_from surface (length frame.payload) (frame_stride surface frame)
            (frame_stride surface frame * frame.height) surface.width surface.height)
          h in
      let (there, used, own, within, e) =
        find-some surface_slot 3 max_surfaces backend.surfaces frame.tag found in
      let written = filled surface frame.payload planes in
      subst
        (λ (s : Surface).
          IsFrameStored backend frame (record backend { surfaces = set backend.surfaces i s }))
        (sym copied_in)
        record {
          index = i;
          surface = surface;
          found = found;
          planes = planes;
          planned = planned;
          inside =
              plan_copy_from_ok surface (length frame.payload) (frame_stride surface frame)
                (frame_stride surface frame * frame.height) surface.width surface.height planes
                (laid_out found) (end_fits surface low) planned;
          written = written;
          stored =
              ap (find surface_slot 3 max_surfaces (set backend.surfaces i written)) e
              ∙ find-set_self surface_slot 3 max_surfaces backend.surfaces i written there
                  (omega (arith, e, own)) used sized (omega arith);
          pixels = refl;
          ready = refl;
          end_of_data = refl;
          same_size = (refl, refl);
          others = λ other apart.
              find-set_ne surface_slot 3 max_surfaces backend.surfaces i written other
                (λ same. apart (same ∙ sym e));
        }

  stored_in :
      (found : Option (ℕ × Surface))
      → find_surface backend frame.tag ≡ found
      → (store_in begin_sync end_sync backend frame found).1 ≡ ok tt
      → IsFrameStored backend frame (store_in begin_sync end_sync backend frame found).0
  stored_in none found h = absurd (ground (arith, h))
  stored_in (some (i, surface)) found h =
      elim (Bool-cases (ltb frame.width surface.width || ltb frame.height surface.height)) [
        | inl large ↦ absurd (ground (arith, rw large at h))
        | inr within ↦ elim (Bool-cases (bytes_per_sample surface.fourcc == 0)) [
          | inl unknown ↦ absurd (ground (arith, rw (within, unknown) at h))
          | inr known ↦
              elim (Bool-cases (
                ltb (frame_stride surface frame) (frame_row_bytes surface frame)
                || ltb (size_limit / frame.height) (frame_stride surface frame))) [
                  | inl bad ↦ absurd (ground (arith, rw (within, known, bad) at h))
                  | inr good ↦
                      rw (within, known, good)
                        (copied found (ground (arith, within)) (rw (within, known, good) at h))
                ]
        ]
      ]

  -- When the surfaces are laid out, no more than the table has, and the frame's line and height
  -- are below `2 ^ 32` and `2 ^ 31`, a frame that is stored has been copied to the surface that its
  -- tag names: that surface then is ready and holds the rows of the copy over zeroes, each of which
  -- lies within the frame's bytes and within the surface's mapping. The other surfaces stay.
  pub store_frame_ok :
      (store_frame begin_sync end_sync backend frame).1 ≡ ok tt
      → IsFrameStored backend frame (store_frame begin_sync end_sync backend frame).0
  unfolding store_frame
  store_frame_ok =
      let Kept : Backend × Result (Unit {0}) → Type 0 =
        λ call. call.1 ≡ ok tt → IsFrameStored backend frame call.0 in
      if-holds Kept
        (ltb (2 ^ 32 - 1) frame.tag
          || frame.width == 0
          || frame.height == 0
          || is_odd frame.width
          || is_odd frame.height)
        (λ invalid h. absurd (ground (arith, h)))
        (λ valid.
          if-holds Kept frame.is_error (λ broken h. absurd (ground (arith, h)))
            (λ whole h. stored_in (find_surface backend frame.tag) refl h))
