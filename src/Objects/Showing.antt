-- ===== src/Objects/Showing.antt =====
-- The calls of src/objects.c on images, and on the surfaces that they show, keep the tables sound.
use venus_vaapi_driver.Common.{
  ℕ, ◌+◌, ◌≤◌, ◌≡◌, ◌≢◌, refl, sym, ap, subst, ◌∙◌, Bool, true, not, ◌||◌, Option, none, some,
  length, get_elem?, get_elem?-lt, arith, ltb, ◌==◌,
}
use venus_vaapi_driver.Common.Results.{Result, ok, err}
use venus_vaapi_driver.VaTypes.{Fourcc, invalid_id, va_ok, va_ok-injective, va_guard-eq-ok}
use venus_vaapi_driver.Backend.{
  Backend, Image, Surface, buffer_slot, image_slot, surface_slot, max_buffers, max_surfaces,
  find_buffer, find_surface,
}
use venus_vaapi_driver.Backend.Table.{
  base_of, first_free, first_free-some, find-some, find_free, find-set_self,
}
use venus_vaapi_driver.Backend.Profiles.{max_width, max_height}
use venus_vaapi_driver.Objects.{bytes_per_sample, yuv420_size}
use venus_vaapi_driver.Objects.Buffers.{Allocation, allocate_buffer, new_buffer}
use venus_vaapi_driver.Objects.Images.{
  ImageRequest, bad_image, is_short, image_allocation, new_image, image_at, image_in, sized_image,
  create_image_locked, create_image, derived_request, derive_found, derive_image,
}
use venus_vaapi_driver.Objects.Soundness.{IsSound, put_image-IsSound}
use venus_vaapi_driver.Objects.Allocation.{
  IsAllocated, allocate_buffer-IsAllocated, allocated-IsSound,
}

-- The surface that an image shows, if it shows one, exists.
abbrev Shows : Backend → ℕ → Type 0
Shows backend surface_id = surface_id ≢ invalid_id → find_surface backend surface_id ≢ none

module _ (backend : Backend) (request : ImageRequest) (sound : IsSound backend)
    (shows : Shows backend request.surface_id) where
  -- What an allocation leaves of the tables that an image refers to.
  record IsReady (next : Backend) (buffer_id : ℕ) : Type 0 where
    sound_next : IsSound next
    has_new : find_buffer next buffer_id ≢ none
    shows_next : Shows next request.surface_id
    apart :
        (i : ℕ) (other : Image)
        → get_elem? next.images i ≡ some other
        → other.used ≡ true
        → other.buffer_id ≢ buffer_id

  allocated-IsReady :
      (next : Backend) (index : ℕ) (allocation : Allocation)
      → IsAllocated backend next allocation index
      → IsReady next (base_of 4 + (index + 1))
  unfolding find_buffer find_surface
  allocated-IsReady next index allocation made =
      let buffer = new_buffer allocation index in
      let fits : length backend.buffers ≤ max_buffers = omega (arith, sound.buffers_sized) in
      let here =
        find-set_self buffer_slot 4 max_buffers backend.buffers index buffer made.there refl refl
          fits (omega arith) in
      let empty =
        find_free buffer_slot 4 max_buffers backend.buffers index made.there made.was_free
          (let lt = get_elem?-lt backend.buffers index made.there in omega (arith, lt, fits))
          (omega arith) in
      subst (λ (b : Backend). IsReady b (base_of 4 + (index + 1))) (sym made.result)
        (record {
          sound_next = subst IsSound made.result (allocated-IsSound sound made);
          has_new = λ missing. absurd (let e = sym here ∙ missing in cc);
          shows_next = shows;
          apart = λ i other at live same.
              sound.has_buffer i other at live (ap (λ id. find_buffer backend id) same ∙ empty);
        })

  -- The image's buffer is in the table, and no other image has it.
  image_placed :
      (next : Backend) (index : ℕ) (free : Option ℕ) {id : ℕ} {after : Backend}
      → IsReady next (base_of 4 + (index + 1))
      → first_free image_slot 0 next.images ≡ free
      → image_at request index next free ≡ va_ok (id, after)
      → IsSound after
  image_placed next index none ready e h = cc
  image_placed next index (some place) ready e h =
      let (k, old, same, there, free) = first_free-some image_slot 0 next.images e in
      let here : k ≡ place = omega (arith, same) in
      let image = new_image request (base_of 4 + (index + 1)) place in
      subst IsSound (ap (λ pair. pair.1) (va_ok-injective h)) (
        put_image-IsSound next place ready.sound_next
          (subst (λ i. get_elem? next.images i ≡ some old) here there) image (λ u. refl)
          (λ u. ready.has_new) (λ u. ready.shows_next)
          (λ i other at live u. ready.apart i other at live))

  image_allocated :
      (allocation : Allocation) (made : Option (ℕ × Backend)) {id : ℕ} {after : Backend}
      → ((index : ℕ) (next : Backend)
          → made ≡ some (index, next)
          → IsAllocated backend next allocation index)
      → image_in request made ≡ va_ok (id, after)
      → IsSound after
  image_allocated allocation none allocated h = cc
  image_allocated allocation (some (index, next)) allocated h =
      image_placed next index (first_free image_slot 0 next.images)
        (allocated-IsReady next index allocation (allocated index next refl)) refl h

  image_sized :
      (has_memory : Bool) (size : Result ℕ) {id : ℕ} {after : Backend}
      → sized_image has_memory backend request size ≡ va_ok (id, after)
      → IsSound after
  image_sized has_memory (err code) h = cc
  image_sized has_memory (ok data_size) h =
      let (good, h₁) = va_guard-eq-ok (bad_image request) _ _ h in
      let (long, h₂) = va_guard-eq-ok (is_short request) _ _ h₁ in
      let allocation = image_allocation request data_size in
      image_allocated allocation (allocate_buffer has_memory backend allocation)
        (λ index next e. allocate_buffer-IsAllocated has_memory backend allocation e) h₂

  create_image_locked-IsSound :
      (has_memory : Bool) {id : ℕ} {after : Backend}
      → create_image_locked has_memory backend request ≡ va_ok (id, after)
      → IsSound after
  unfolding create_image_locked
  create_image_locked-IsSound has_memory h =
      let (small, h') =
        va_guard-eq-ok (ltb max_width request.width || ltb max_height request.height) _ _ h in
      image_sized has_memory (yuv420_size request.width request.height request.fourcc) h'

-- An image that is created keeps the tables sound.
pub create_image-IsSound :
    (has_memory : Bool) (backend : Backend) (fourcc : Fourcc) (width height : ℕ) {id : ℕ}
    {after : Backend}
    → IsSound backend
    → create_image has_memory backend fourcc width height ≡ va_ok (id, after)
    → IsSound after
unfolding create_image
create_image-IsSound has_memory backend fourcc width height sound h =
    let (known, h') = va_guard-eq-ok (bytes_per_sample fourcc == 0) _ _ h in
    create_image_locked-IsSound backend _ sound (λ shown. absurd (shown refl)) has_memory h'

derived-IsSound :
    (has_memory : Bool) (backend : Backend) (surface_id : ℕ) (found : Option (ℕ × Surface)) {id : ℕ}
    {after : Backend}
    → IsSound backend
    → find_surface backend surface_id ≡ found
    → derive_found has_memory backend found ≡ va_ok (id, after)
    → IsSound after
unfolding find_surface
derived-IsSound has_memory backend surface_id none sound e h = cc
derived-IsSound has_memory backend surface_id (some (index, surface)) sound e h =
    let (is_ready, h') = va_guard-eq-ok (not surface.ready) _ _ h in
    let (there, used, named, within, own) =
      find-some surface_slot 3 max_surfaces backend.surfaces surface_id e in
    create_image_locked-IsSound backend (derived_request surface) sound
      (λ shown missing.
        let found = ap (λ id. find_surface backend id) named ∙ e in
        absurd (let bad = sym found ∙ missing in cc))
      has_memory h'

-- An image that is derived from a surface keeps the tables sound.
pub derive_image-IsSound :
    (has_memory : Bool) (backend : Backend) (surface_id : ℕ) {id : ℕ} {after : Backend}
    → IsSound backend
    → derive_image has_memory backend surface_id ≡ va_ok (id, after)
    → IsSound after
unfolding derive_image
derive_image-IsSound has_memory backend surface_id sound h =
    derived-IsSound has_memory backend surface_id (find_surface backend surface_id) sound refl h
